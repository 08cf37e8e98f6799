-- ===== src/Object/TreeOps/Leaves/Shown.antt =====
-- The leaves that the walk visits are those of the view.
use zonegit.Base.{
  ℕ, zero, suc, ◌≡◌, refl, sym, ap, ◌∙◌, arith, true, false, List, [], ◌∷◌, ◌++◌, append_assoc,
  append-nil, Bytes, bytes_eq, bytes_eq_iff, bytes_eq_refl, bytes_lt_irrefl, ◌==◌, some,
  Option-cases, ok, Bool-cases, All, inl, inr, In, In-append, append-In, find_key, find_key-key,
  Ascends, AllAbove, All-find_key,
}
use mathlib.Core.Path.{subst}
use zonegit.Store.Hash.{Hash, is_zero, is_zero_iff, zero_hash}
use zonegit.Store.MemStore.{Store}
use zonegit.Object.Tree.{
  TreeEntry, EntryKind, entry_kind_is_valid, entry_key, key_of, entry_leaf, entry_subtree,
}
use zonegit.Object.Tree.Order.{key_of-injective}
use zonegit.Object.Tree.Codec.RoundTrip.{IsEntry}
use zonegit.Object.TreeOps.{Labels}
use zonegit.Object.TreeOps.Entries.{hash_at, hash_at-some, hash_at-none}
use zonegit.Object.TreeOps.View.{
  view, view-zero_hash, IsTreeAt, Below, entries_at, entries_at-WellFormed,
}
use zonegit.Object.TreeOps.Leaves.{walk_all_leaves}
use zonegit.Object.TreeOps.Leaves.Listed.{
  Leaf, keep_leaf, leaves_of, leaves_below, walk_leaves_at-leaves,
}

-- Every entry is what its key finds.
abbrev FindsAll : List TreeEntry → List TreeEntry → Type 0
FindsAll xs es = All (λ e. find_key entry_key (entry_key e) xs ≡ some e) es

FindsAll-cons :
    (x : TreeEntry) (xs es : List TreeEntry)
    → AllAbove entry_key (entry_key x) es
    → FindsAll xs es
    → FindsAll (x ∷ xs) es
unfolding find_key
FindsAll-cons x xs [] a f = tt
FindsAll-cons x xs (e ∷ es) a f = (
  ground (arith, a.0, f.0, bytes_eq_iff (entry_key x) (entry_key e), bytes_lt_irrefl (entry_key x)),
  FindsAll-cons x xs es a.1 f.1,
)

Ascends-FindsAll : (es : List TreeEntry) → Ascends entry_key es → FindsAll es es
unfolding find_key
Ascends-FindsAll [] a = tt
Ascends-FindsAll (e ∷ es) a =
    (rw (bytes_eq_refl (entry_key e)) refl, FindsAll-cons e es es a.0 (Ascends-FindsAll es a.1))

leaf_same :
    {p p' : Labels} {t t' : Bytes} {b b' : Hash}
    → p ≡ p'
    → t ≡ t'
    → b ≡ b'
    → ◌≡◌ {A = Leaf}
        (record { path = p; rrtype = t; blob = b })
        (record { path = p'; rrtype = t'; blob = b' })
leaf_same e f g = rw (e, f, g) refl

module _ (sha256 : Bytes → Hash) (s : Store) where
  -- The leaf stands below the path, where the view from the hash shows its blob.
  abbrev pub Shown : Labels → Hash → Leaf → Type 0
  Shown path h leaf =
      (q : Labels) × (leaf.path ≡ path ++ q)
      × (view sha256 s h q leaf.rrtype ≡ leaf.blob)
      × (is_zero leaf.blob ≡ false)

  entry_blob :
      (e : TreeEntry) (es : List TreeEntry) (kind : EntryKind)
      → e.kind ≡ kind
      → find_key entry_key (entry_key e) es ≡ some e
      → hash_at kind e.name es ≡ e.hash
  entry_blob e es kind same found =
      subst (λ k. hash_at k e.name es ≡ e.hash) same (hash_at-some e.kind e.name es found)

  Shown-down :
      (path : Labels) (h : Hash) (e : TreeEntry) (leaf : Leaf)
      → hash_at entry_subtree e.name (entries_at sha256 s h) ≡ e.hash
      → Shown (path ++ (e.name ∷ [])) e.hash leaf
      → Shown path h leaf
  unfolding view
  Shown-down path h e leaf at_e (q, place, blob, nz) =
      (e.name ∷ q, place ∙ append_assoc path (e.name ∷ []) q, rw at_e blob, nz)

  leaves_of-Shown :
      (down : Labels → Hash → List Leaf) (path : Labels) (h : Hash) (es : List TreeEntry)
      → FindsAll (entries_at sha256 s h) es
      → All (λ e. is_zero e.hash ≡ false) es
      → All
          (λ e.
            e.kind == entry_leaf ≡ false
            → (e.kind ≡ entry_subtree)
              × ((leaf : Leaf)
                  → In leaf (down (path ++ (e.name ∷ [])) e.hash)
                  → Shown (path ++ (e.name ∷ [])) e.hash leaf))
          es
      → (leaf : Leaf) → In leaf (leaves_of sha256 s down path es)
      → Shown path h leaf
  unfolding leaves_of view
  leaves_of-Shown down path h [] f nz g leaf i = absurd i
  leaves_of-Shown down path h (e ∷ es) f nz g leaf i = elim (Bool-cases (e.kind == entry_leaf)) [
    | inl is_leaf ↦ elim (rw is_leaf at i) [
      | inl same ↦ subst (Shown path h) same (
        [],
        sym (append-nil path),
        entry_blob e (entries_at sha256 s h) entry_leaf (ground (arith, is_leaf)) f.0,
        nz.0,
      )
      | inr later ↦ leaves_of-Shown down path h es f.1 nz.1 g.1 leaf later
    ]
    | inr other ↦
        let (kind, sound) = g.0 other in
        elim (append-In leaf (down (path ++ (e.name ∷ [])) e.hash) (leaves_of sha256 s down path es)
          (rw other at i)) [
            | inl here ↦
                Shown-down path h e leaf
                  (entry_blob e (entries_at sha256 s h) entry_subtree kind f.0) (sound leaf here)
            | inr later ↦ leaves_of-Shown down path h es f.1 nz.1 g.1 leaf later
          ]
  ]

  kinds :
      (n : ℕ) (es : List TreeEntry) (P : TreeEntry → Type 0)
      → All IsEntry es
      → Below sha256 s n es
      → ((e : TreeEntry) → e.kind ≡ entry_subtree → IsTreeAt sha256 s n e.hash → P e)
      → All (λ e. e.kind == entry_leaf ≡ false → (e.kind ≡ entry_subtree) × P e) es
  unfolding entry_kind_is_valid
  kinds n [] P valid b f = tt
  kinds n (e ∷ es) P valid b f = (
    λ other.
        let kind : e.kind ≡ entry_subtree = ground (arith, valid.0.kind_valid, other) in
        (kind, f e kind (b.0 kind)),
    kinds n es P valid.1 b.1 f,
  )

  leaves_below-Shown :
      (n : ℕ) (path : Labels) (h : Hash)
      → IsTreeAt sha256 s n h
      → (leaf : Leaf) → In leaf (leaves_below sha256 s n path h)
      → Shown path h leaf
  unfolding leaves_below
  leaves_below-Shown zero path h i leaf at_l = absurd at_l
  leaves_below-Shown (suc n) path h i leaf at_l =
      let (w, b) = entries_at-WellFormed sha256 s n h i in
      leaves_of-Shown (leaves_below sha256 s n) path h (entries_at sha256 s h)
        (Ascends-FindsAll (entries_at sha256 s h) w.ascends) w.nonzero
        (kinds n (entries_at sha256 s h) _ w.valid b (λ e kind below leaf' at_l'.
          leaves_below-Shown n (path ++ (e.name ∷ [])) e.hash below leaf' at_l'))
        leaf at_l

  In-later :
      (down : Labels → Hash → List Leaf) (path : Labels) (x : TreeEntry) (es : List TreeEntry)
      (leaf : Leaf)
      → In leaf (leaves_of sha256 s down path es)
      → In leaf (leaves_of sha256 s down path (x ∷ es))
  unfolding leaves_of
  In-later down path x es leaf i = elim (Bool-cases (x.kind == entry_leaf)) [
    | inl e ↦ rw e (inr i)
    | inr e ↦ rw e (In-append leaf (down (path ++ (x.name ∷ [])) x.hash) _ (inr i))
  ]

  -- The leaf of an entry, and the leaves below one.
  leaves_of-leaf :
      (down : Labels → Hash → List Leaf) (path : Labels) (k : Bytes) (es : List TreeEntry)
      {e : TreeEntry}
      → find_key entry_key k es ≡ some e
      → e.kind ≡ entry_leaf
      → In
          (record { path = path; rrtype = e.name; blob = e.hash })
          (leaves_of sha256 s down path es)
  unfolding leaves_of find_key
  leaves_of-leaf down path k [] found kind = absurd cc
  leaves_of-leaf down path k (x ∷ es) {e} found kind =
      elim (Bool-cases (bytes_eq (entry_key x) k)) [
        | inl hit ↦
            let same : x ≡ e = ground (arith, hit, found) in
            let is_leaf : (x.kind == entry_leaf) ≡ true =
              ground (arith, ap (λ (z : TreeEntry). z.kind) same, kind) in
            rw is_leaf (
              inl (
                ap (λ (z : TreeEntry). record { path = path; rrtype = z.name; blob = z.hash })
                  same))
        | inr miss ↦
            In-later down path x es _
              (leaves_of-leaf down path k es {e = e} (ground (arith, miss, found)) kind)
      ]

  leaves_of-down :
      (down : Labels → Hash → List Leaf) (path : Labels) (k : Bytes) (es : List TreeEntry)
      (leaf : Leaf) {e : TreeEntry}
      → find_key entry_key k es ≡ some e
      → e.kind ≡ entry_subtree
      → In leaf (down (path ++ (e.name ∷ [])) e.hash)
      → In leaf (leaves_of sha256 s down path es)
  unfolding leaves_of find_key
  leaves_of-down down path k [] leaf found kind i = absurd cc
  leaves_of-down down path k (x ∷ es) leaf {e} found kind i =
      elim (Bool-cases (bytes_eq (entry_key x) k)) [
        | inl hit ↦
            let same : x ≡ e = ground (arith, hit, found) in
            let not_leaf : (x.kind == entry_leaf) ≡ false =
              ground (arith, ap (λ (z : TreeEntry). z.kind) same, kind) in
            rw not_leaf (
              In-append leaf (down (path ++ (x.name ∷ [])) x.hash) _ (
                inl (
                  subst (λ (z : TreeEntry). In leaf (down (path ++ (z.name ∷ [])) z.hash))
                    (sym same) i)))
        | inr miss ↦
            In-later down path x es leaf
              (leaves_of-down down path k es leaf {e = e} (ground (arith, miss, found)) kind i)
      ]

  view_here :
      (h : Hash) (rrtype : Bytes)
      → view sha256 s h [] rrtype ≡ hash_at entry_leaf rrtype (entries_at sha256 s h)
  unfolding view
  view_here h rrtype = refl

  view_there :
      (h : Hash) (label : Bytes) (q : Labels) (rrtype : Bytes) {k : Hash}
      → hash_at entry_subtree label (entries_at sha256 s h) ≡ k
      → view sha256 s h (label ∷ q) rrtype ≡ view sha256 s k q rrtype
  unfolding view
  view_there h label q rrtype e = rw e refl

  leaves_below-all :
      (n : ℕ) (path : Labels) (h : Hash) (q : Labels) (rrtype : Bytes)
      → IsTreeAt sha256 s n h
      → is_zero (view sha256 s h q rrtype) ≡ false
      → In
          (record { path = path ++ q; rrtype = rrtype; blob = view sha256 s h q rrtype })
          (leaves_below sha256 s n path h)
  unfolding leaves_below
  leaves_below-all zero path h q rrtype i nz = absurd (
      ground (
        arith,
        nz,
        subst (λ k. view sha256 s k q rrtype ≡ zero_hash) (sym i)
            (view-zero_hash sha256 s q rrtype),
        is_zero_iff zero_hash,
      ))
  leaves_below-all (suc n) path h [] rrtype i nz =
      let es = entries_at sha256 s h in
      elim (Option-cases (find_key entry_key (key_of entry_leaf rrtype) es)) [
        | inl e ↦ absurd (
            ground (
              arith,
              nz,
              view_here h rrtype ∙ hash_at-none entry_leaf rrtype es e,
              is_zero_iff zero_hash,
            ))
        | inr (x, e) ↦
            let (kind, name) = key_of-injective (find_key-key entry_key _ es e) in
            subst (λ leaf. In leaf (leaves_of sha256 s (leaves_below sha256 s n) path es))
              (leaf_same (sym (append-nil path)) name
                (sym (view_here h rrtype ∙ hash_at-some entry_leaf rrtype es e)))
              (leaves_of-leaf (leaves_below sha256 s n) path (key_of entry_leaf rrtype) es {e = x} e
                kind)
      ]
  leaves_below-all (suc n) path h (label ∷ q) rrtype i nz =
      let es = entries_at sha256 s h in
      elim (Option-cases (find_key entry_key (key_of entry_subtree label) es)) [
        | inl e ↦ absurd (
            ground (
              arith,
              nz,
              view_there h label q rrtype (hash_at-none entry_subtree label es e)
                  ∙ view-zero_hash sha256 s q rrtype,
              is_zero_iff zero_hash,
            ))
        | inr (x, e) ↦
            let (kind, name) = key_of-injective (find_key-key entry_key _ es e) in
            let below =
              All-find_key entry_key (λ z. z.kind ≡ entry_subtree → IsTreeAt sha256 s n z.hash) _ es
                (entries_at-WellFormed sha256 s n h i).1 e kind in
            let down = view_there h label q rrtype (hash_at-some entry_subtree label es e) in
            leaves_of-down (leaves_below sha256 s n) path (key_of entry_subtree label) es _ {e = x}
              e kind
              (subst (λ leaf. In leaf (leaves_below sha256 s n (path ++ (x.name ∷ [])) x.hash))
                (leaf_same (append_assoc path (x.name ∷ []) q ∙ ap (λ l. path ++ (l ∷ q)) name) refl
                  (sym down))
                (leaves_below-all n (path ++ (x.name ∷ [])) x.hash q rrtype below
                  (ap is_zero (sym down) ∙ nz)))
      ]

-- On a stored zone tree of height at most `n` with a nonzero root the walk with fuel `n` succeeds and
-- visits leaves that are those of the view: each shows its blob at its path, and each record set of
-- the view is visited.
pub walk_all_leaves-view :
    (sha256 : Bytes → Hash) (s : Store) (n : ℕ) (root : Hash)
    → IsTreeAt sha256 s n root
    → is_zero root ≡ false
    → (leaves : List Leaf) × (walk_all_leaves sha256 s keep_leaf n root [] ≡ (ok tt, leaves))
      × ((leaf : Leaf)
          → In leaf leaves
          → (view sha256 s root leaf.path leaf.rrtype ≡ leaf.blob) × (is_zero leaf.blob ≡ false))
      × ((q : Labels) (rrtype : Bytes)
          → is_zero (view sha256 s root q rrtype) ≡ false
          → In (record { path = q; rrtype = rrtype; blob = view sha256 s root q rrtype }) leaves)
unfolding walk_all_leaves
walk_all_leaves-view sha256 s n root i nz = (
  leaves_below sha256 s n [] root,
  rw nz (walk_leaves_at-leaves sha256 s n [] root [] i nz),
  λ leaf at_l.
      let (q, place, blob, nz') = leaves_below-Shown sha256 s n [] root i leaf at_l in
      (rw place blob, nz'),
  λ q rrtype nz'. leaves_below-all sha256 s n [] root q rrtype i nz',
)
