-- ===== src/Merge/Reported.antt =====
-- Which conflicts a merge reports: those of the leaves that clash, and no others.
use zonegit.Base.{
  ◌≡◌, ◌⊎◌, ◌↔◌, refl, sym, ap, ◌∙◌, arith, List, [], ◌∷◌, ◌++◌, Bytes, none, some, Option-cases,
  inl, inr, In, In-append, append-In, sort_on, insert_on, bytes_lt, bytes_eq_iff, Bool-cases,
}
use mathlib.Core.Path.{subst}
use zonegit.Store.Hash.{Hash, zero_hash}
use zonegit.Object.TreeOps.{Labels}
use zonegit.Merge.{
  Conflict, ConflictReason, Merging, resolve_leaf, note_conflict, conflict_key, sort_conflicts,
}

-- What a zone shows below a node.
abbrev pub Zone : Type 0
Zone = Labels → Bytes → Hash

-- The conflict of a leaf on which base, ours and theirs clash, at its path.
abbrev pub ClashAt : Labels → Hash → Hash → Hash → Conflict → Type 0
ClashAt path b o t c =
    (c.path ≡ path)
    × (c.base ≡ b)
    × (c.ours ≡ o)
    × (c.theirs ≡ t)
    × ((resolve_leaf b o t).1 ≡ some c.reason)

-- The conflict of a record set on which three zones clash, below a path.
abbrev pub Clash : Labels → Zone → Zone → Zone → Conflict → Type 0
Clash path base ours theirs c =
    (q : Labels) × ClashAt (path ++ q) (base q c.rrtype) (ours q c.rrtype) (theirs q c.rrtype) c

-- The conflicts of three zones join those that were there.
abbrev pub Reported : Labels → Zone → Zone → Zone → List Conflict → List Conflict → Type 0
Reported path base ours theirs old new =
    (c : Conflict) → In c new ↔ (In c old ⊎ Clash path base ours theirs c)

pub ClashAt-eq :
    {p p' : Labels} {b b' o o' t t' : Hash} (c : Conflict)
    → p ≡ p'
    → b ≡ b'
    → o ≡ o'
    → t ≡ t'
    → ClashAt p b o t c
    → ClashAt p' b' o' t' c
ClashAt-eq c d e f g (path, base, ours, theirs, reason) =
    (path ∙ d, base ∙ e, ours ∙ f, theirs ∙ g, rw (e, f, g) at reason)

pub Reported-eq :
    (path : Labels) (b b' o o' t t' : Zone) (old new : List Conflict)
    → ((q : Labels) (rrtype : Bytes) → b q rrtype ≡ b' q rrtype)
    → ((q : Labels) (rrtype : Bytes) → o q rrtype ≡ o' q rrtype)
    → ((q : Labels) (rrtype : Bytes) → t q rrtype ≡ t' q rrtype)
    → Reported path b o t old new
    → Reported path b' o' t' old new
Reported-eq path b b' o o' t t' old new e f g r c = (
  λ i. elim ((r c).0 i) [
    | inl j ↦ inl j
    | inr (q, at) ↦ inr (q, ClashAt-eq c refl (e q c.rrtype) (f q c.rrtype) (g q c.rrtype) at)
  ],
  λ i. (r c).1 (elim i [
    | inl j ↦ inl j
    | inr (q, at) ↦
        inr (q, ClashAt-eq c refl (sym (e q c.rrtype)) (sym (f q c.rrtype)) (sym (g q c.rrtype)) at)
  ]),
)

-- The rules find no clash where two of the three agree.
pub resolve_leaf_agreed : (b o : Hash) → (resolve_leaf b o o).1 ≡ none
unfolding resolve_leaf
resolve_leaf_agreed b o = ground (arith, bytes_eq_iff o o)

pub resolve_leaf_ours_kept : (b t : Hash) → (resolve_leaf b b t).1 ≡ none
unfolding resolve_leaf
resolve_leaf_ours_kept b t = ground (arith, bytes_eq_iff b b)

pub resolve_leaf_theirs_kept : (b o : Hash) → (resolve_leaf b o b).1 ≡ none
unfolding resolve_leaf
resolve_leaf_theirs_kept b o = ground (arith, bytes_eq_iff b b)

pub ClashAt-zero_hash : (c : Conflict) (p : Labels) → ClashAt p zero_hash zero_hash zero_hash c → ⊥
ClashAt-zero_hash c p clash = ground (arith, resolve_leaf_agreed zero_hash zero_hash, clash.4)

-- Zones that clash nowhere add nothing.
pub Reported-none :
    (path : Labels) (b o t : Zone) (old : List Conflict)
    → ((q : Labels) (rrtype : Bytes)
        → (resolve_leaf (b q rrtype) (o q rrtype) (t q rrtype)).1 ≡ none)
    → Reported path b o t old old
Reported-none path b o t old clean c = (
  λ i. inl i,
  λ i. elim i [ inl j ↦ j | inr (q, at) ↦ absurd (ground (arith, clean q c.rrtype, at.4)) ],
)

conflict_same :
    {p p' : Labels} {n n' : Bytes} {r r' : ConflictReason} {b b' o o' t t' : Hash}
    → p ≡ p'
    → n ≡ n'
    → r ≡ r'
    → b ≡ b'
    → o ≡ o'
    → t ≡ t'
    → ◌≡◌ {A = Conflict}
        (record { path = p; rrtype = n; reason = r; base = b; ours = o; theirs = t })
        (record { path = p'; rrtype = n'; reason = r'; base = b'; ours = o'; theirs = t' })
conflict_same d e f g h i = rw (d, e, f, g, h, i) refl

module _ (path : Labels) (name : Bytes) (b o t : Hash) (st : Merging) where
  note_none : (resolve_leaf b o t).1 ≡ none → (note_conflict path name b o t st).1 ≡ st.1
  unfolding note_conflict
  note_none e = ground (arith, e)

  note_some :
      (reason : ConflictReason)
      → (resolve_leaf b o t).1 ≡ some reason
      → (note_conflict path name b o t st).1
        ≡ st.1
          ++ (record { path = path; rrtype = name; reason = reason; base = b; ours = o; theirs = t }
              ∷ [])
  unfolding note_conflict
  note_some reason e = ground (arith, e)

  abbrev Noted : List Conflict → Conflict → Type 0
  Noted out c = In c out ↔ (In c st.1 ⊎ ((c.rrtype ≡ name) × ClashAt path b o t c))

  -- One leaf: its conflict, if there is one, joins those that were there.
  pub note_conflict-Reported : (c : Conflict) → Noted (note_conflict path name b o t st).1 c
  note_conflict-Reported c = elim (Option-cases (resolve_leaf b o t).1) [
    | inl e ↦
        subst (λ out. Noted out c) (sym (note_none e))
          (λ i. inl i, λ i. elim i [ inl j ↦ j | inr (_, at) ↦ absurd (ground (arith, e, at.4)) ])
    | inr (reason, e) ↦
        subst (λ out. Noted out c) (sym (note_some reason e))
          (
            λ i. elim (append-In c st.1 _ i) [
              | inl j ↦ inl j
              | inr (inl same) ↦ inr (
                sym (ap (λ (x : Conflict). x.rrtype) same),
                (
                  sym (ap (λ (x : Conflict). x.path) same),
                  sym (ap (λ (x : Conflict). x.base) same),
                  sym (ap (λ (x : Conflict). x.ours) same),
                  sym (ap (λ (x : Conflict). x.theirs) same),
                  e ∙ ap (λ (x : Conflict). some x.reason) same,
                ),
              )
              | inr (inr nowhere) ↦ absurd nowhere
            ],
            λ i. In-append c st.1 _ (elim i [
              | inl j ↦ inl j
              | inr (named, at) ↦ inr (
                  inl (
                    conflict_same (sym at.0) (sym named) (ground (arith, e, at.4)) (sym at.1)
                      (sym at.2) (sym at.3)))
            ]),
          )
  ]

insert_on-In :
    (c x : Conflict) (xs : List Conflict) → In c (insert_on conflict_key x xs) ↔ ((x ≡ c) ⊎ In c xs)
unfolding insert_on
insert_on-In c x [] = (λ i. i, λ i. i)
insert_on-In c x (y ∷ ys) = elim (Bool-cases (bytes_lt (conflict_key y) (conflict_key x))) [
  | inr e ↦ rw e (λ i. i, λ i. i)
  | inl e ↦
      let rest = insert_on-In c x ys in
      rw e (
        λ i. elim i [
          | inl same ↦ inr (inl same)
          | inr j ↦ elim (rest.0 j) [ inl k ↦ inl k | inr k ↦ inr (inr k) ]
        ],
        λ i. elim i [
          | inl k ↦ inr (rest.1 (inl k))
          | inr (inl same) ↦ inl same
          | inr (inr k) ↦ inr (rest.1 (inr k))
        ],
      )
]

-- The sort keeps the conflicts.
pub sort_conflicts-In : (c : Conflict) (cs : List Conflict) → In c (sort_conflicts cs) ↔ In c cs
unfolding sort_conflicts sort_on
sort_conflicts-In c [] = (λ i. i, λ i. i)
sort_conflicts-In c (x ∷ xs) =
    let rest = sort_conflicts-In c xs in
    let here = insert_on-In c x (sort_on conflict_key xs) in
    (
      λ i. elim (here.0 i) [ inl e ↦ inl e | inr j ↦ inr (rest.0 j) ],
      λ i. here.1 (elim i [ inl e ↦ inl e | inr j ↦ inr (rest.1 j) ]),
    )
