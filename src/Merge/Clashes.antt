-- ===== src/Merge/Clashes.antt =====
-- The conflicts that one round of the merge walk and the rest report.
use zonegit.Base.{
  ℕ, ◌≡◌, refl, sym, ap, ◌∙◌, List, [], ◌∷◌, ◌++◌, append_assoc, Bytes, bytes_eq, bytes_eq_iff,
  Outcome, In, ◌⊎◌, ◌↔◌, arith, append-nil, find_key_above, false, AllAbove, Bool-cases, inl, inr,
}
use zonegit.Store.Hash.{Hash, zero_hash}
use zonegit.Object.Tree.{EntryKind, TreeEntry, entry_key, key_of, entry_leaf, entry_subtree}
use zonegit.Object.Tree.Order.{key_of-injective}
use zonegit.Object.Tree.Codec.RoundTrip.{IsEntry}
use zonegit.Object.TreeOps.{Labels}
use zonegit.Object.TreeOps.Entries.{hash_at, hash_at-none}
use zonegit.Object.TreeOps.Stored.{Extends}
use zonegit.Object.TreeOps.View.{
  view, view_in, Below, IsTreeAt-hash_at, view-Extends, view-zero_hash,
}
use mathlib.Core.Path.{subst}
use zonegit.Merge.{Conflict, Merging}
use zonegit.Merge.Reported.{ClashAt, Reported, ClashAt-eq, ClashAt-zero_hash}
use zonegit.Merge.Keys.{kind_cases}
use zonegit.Merge.Cursor.{Advanced}
use zonegit.Merge.Step.{piece, Keyed, Looped}
use zonegit.Store.MemStore.{Store}

-- A subtree that a round leaves alone.
pub view-kept :
    (sha256 : Bytes → Hash) (n : ℕ) (s s' : Store) (es es' : List TreeEntry) (l : Bytes)
    (q : Labels) (rrtype : Bytes)
    → Extends s s'
    → Below sha256 s n es
    → hash_at entry_subtree l es' ≡ hash_at entry_subtree l es
    → view sha256 s' (hash_at entry_subtree l es') q rrtype
      ≡ view sha256 s (hash_at entry_subtree l es) q rrtype
view-kept sha256 n s s' es es' l q rrtype ext below e =
    ap (λ g. view sha256 s' g q rrtype) e
    ∙ view-Extends sha256 s s' n (hash_at entry_subtree l es) q rrtype ext
        (IsTreeAt-hash_at sha256 s n es l below)

module _ (sha256 : Bytes → Hash) (n : ℕ) (path : Labels) (k : TreeEntry) (entry : IsEntry k)
    (bs os ts bs' os' ts' merged : List TreeEntry) (bh oh th : Hash)
    (b_adv : Advanced k.kind k.name bs bh bs') (o_adv : Advanced k.kind k.name os oh os')
    (t_adv : Advanced k.kind k.name ts th ts') (st st' : Merging) (h : Hash)
    (b_below : Below sha256 st.0 n bs) (o_below : Below sha256 st.0 n os)
    (t_below : Below sha256 st.0 n ts) (keyed : Keyed sha256 n path k bh oh th st st' h)
    (out : Outcome Merging (List TreeEntry))
    (rest : Looped sha256 n path bs' os' ts' (merged ++ piece k.kind k.name h) st' out) where
  -- The key under which a view looks first.
  abbrev first_key : Labels → Bytes → Bytes
  first_key [] rrtype = key_of entry_leaf rrtype
  first_key (l ∷ q) rrtype = key_of entry_subtree l

  abbrev IsApart : Labels → Bytes → Type 0
  IsApart q rrtype = bytes_eq (key_of k.kind k.name) (first_key q rrtype) ≡ false

  -- Apart from the round's key, the rest sees what the loop sees.
  seen :
      (es es' : List TreeEntry) (g : Hash)
      → Below sha256 st.0 n es
      → Advanced k.kind k.name es g es'
      → (q : Labels) (rrtype : Bytes) → IsApart q rrtype
      → view_in sha256 st'.0 es' q rrtype ≡ view_in sha256 st.0 es q rrtype
  unfolding view_in
  seen es es' g below adv [] rrtype apart = adv.others entry_leaf rrtype apart
  seen es es' g below adv (l ∷ q) rrtype apart =
      view-kept sha256 n st.0 st'.0 es es' l q rrtype keyed.extends below
        (adv.others entry_subtree l apart)

  -- Under the round's key, the rest sees nothing.
  hash_at-passed :
      (es es' : List TreeEntry) (g : Hash) (kind : EntryKind) (name : Bytes)
      → Advanced k.kind k.name es g es'
      → key_of k.kind k.name ≡ key_of kind name
      → hash_at kind name es' ≡ zero_hash
  hash_at-passed es es' g kind name adv same = hash_at-none kind name es' (
      find_key_above entry_key (key_of kind name) es'
        (subst (λ z. AllAbove entry_key z es') same adv.above))

  passed :
      (es es' : List TreeEntry) (g : Hash)
      → Advanced k.kind k.name es g es'
      → (q : Labels) (rrtype : Bytes) → key_of k.kind k.name ≡ first_key q rrtype
      → view_in sha256 st'.0 es' q rrtype ≡ zero_hash
  unfolding view_in
  passed es es' g adv [] rrtype same = hash_at-passed es es' g entry_leaf rrtype adv same
  passed es es' g adv (l ∷ q) rrtype same =
      ap (λ z. view sha256 st'.0 z q rrtype) (hash_at-passed es es' g entry_subtree l adv same)
      ∙ view-zero_hash sha256 st'.0 q rrtype

  abbrev Before : Labels → Conflict → Type 0
  Before q c =
      ClashAt (path ++ q) (view_in sha256 st.0 bs q c.rrtype) (view_in sha256 st.0 os q c.rrtype)
        (view_in sha256 st.0 ts q c.rrtype) c

  abbrev After : Labels → Conflict → Type 0
  After q c =
      ClashAt (path ++ q) (view_in sha256 st'.0 bs' q c.rrtype)
        (view_in sha256 st'.0 os' q c.rrtype) (view_in sha256 st'.0 ts' q c.rrtype) c

  After-apart : (q : Labels) (c : Conflict) → IsApart q c.rrtype → After q c ↔ Before q c
  After-apart q c apart =
      let e = seen bs bs' bh b_below b_adv q c.rrtype apart in
      let f = seen os os' oh o_below o_adv q c.rrtype apart in
      let g = seen ts ts' th t_below t_adv q c.rrtype apart in
      (ClashAt-eq c refl e f g, ClashAt-eq c refl (sym e) (sym f) (sym g))

  After-own :
      (q : Labels) (c : Conflict) → key_of k.kind k.name ≡ first_key q c.rrtype → After q c → ⊥
  After-own q c same clash = ClashAt-zero_hash c (path ++ q) (
      ClashAt-eq c refl (passed bs bs' bh b_adv q c.rrtype same)
        (passed os os' oh o_adv q c.rrtype same) (passed ts ts' th t_adv q c.rrtype same) clash)

  -- What the round itself reports.
  abbrev RoundClash : Conflict → Type 0
  RoundClash c = (q : Labels) × (key_of k.kind k.name ≡ first_key q c.rrtype) × Before q c

  at_bs :
      (es : List TreeEntry) (g : Hash) (kind : EntryKind)
      → g ≡ hash_at k.kind k.name es
      → k.kind ≡ kind
      → g ≡ hash_at kind k.name es
  at_bs es g kind e same = e ∙ ap (λ z. hash_at z k.name es) same

  own_leaf : (c : Conflict) → k.kind ≡ entry_leaf → In c st'.1 ↔ (In c st.1 ⊎ RoundClash c)
  unfolding view_in
  own_leaf c leaf =
      let told = keyed.leaf_clash leaf c in
      let here =
        λ (g : Hash) (es : List TreeEntry) (e : g ≡ hash_at k.kind k.name es)
            (named : c.rrtype ≡ k.name).
          at_bs es g entry_leaf e leaf ∙ ap (λ z. hash_at entry_leaf z es) (sym named) in
      (
        λ i. elim (told.0 i) [
          | inl j ↦ inl j
          | inr (named, clash) ↦ inr (
            [],
            ap (λ z. key_of z k.name) leaf ∙ ap (key_of entry_leaf) (sym named),
            ClashAt-eq c (sym (append-nil path)) (here bh bs b_adv.hash named)
                (here oh os o_adv.hash named) (here th ts t_adv.hash named) clash,
          )
        ],
        λ i. told.1 (elim i [
          | inl j ↦ inl j
          | inr ([], same, clash) ↦
              let named : c.rrtype ≡ k.name = sym (key_of-injective same).1 in
              inr (
                named,
                ClashAt-eq c (append-nil path) (sym (here bh bs b_adv.hash named))
                    (sym (here oh os o_adv.hash named)) (sym (here th ts t_adv.hash named)) clash,
              )
          | inr (l ∷ q, same, clash) ↦ absurd (omega (arith, leaf, (key_of-injective same).0))
        ]),
      )

  own_subtree : (c : Conflict) → k.kind ≡ entry_subtree → In c st'.1 ↔ (In c st.1 ⊎ RoundClash c)
  unfolding view_in
  own_subtree c is_tree =
      let told = keyed.subtree_clashes is_tree c in
      let here =
        λ (g : Hash) (es : List TreeEntry) (e : g ≡ hash_at k.kind k.name es) (l : Bytes)
            (q : Labels) (named : k.name ≡ l).
          ap (λ z. view sha256 st.0 z q c.rrtype)
            (at_bs es g entry_subtree e is_tree ∙ ap (λ z. hash_at entry_subtree z es) named) in
      (
        λ i. elim (told.0 i) [
          | inl j ↦ inl j
          | inr (q, clash) ↦ inr (
            k.name ∷ q,
            ap (λ z. key_of z k.name) is_tree,
            ClashAt-eq c (append_assoc path (k.name ∷ []) q) (here bh bs b_adv.hash k.name q refl)
                (here oh os o_adv.hash k.name q refl) (here th ts t_adv.hash k.name q refl) clash,
          )
        ],
        λ i. told.1 (elim i [
          | inl j ↦ inl j
          | inr ([], same, clash) ↦ absurd (omega (arith, is_tree, (key_of-injective same).0))
          | inr (l ∷ q, same, clash) ↦
              let named = (key_of-injective same).1 in
              inr (
                q,
                ClashAt-eq c
                    (ap (λ z. path ++ (z ∷ q)) (sym named)
                      ∙ sym (append_assoc path (k.name ∷ []) q))
                    (sym (here bh bs b_adv.hash l q named)) (sym (here oh os o_adv.hash l q named))
                    (sym (here th ts t_adv.hash l q named)) clash,
              )
        ]),
      )

  own_told : (c : Conflict) → In c st'.1 ↔ (In c st.1 ⊎ RoundClash c)
  own_told c = elim (kind_cases entry.kind_valid) [
    | inr leaf ↦ own_leaf c leaf
    | inl is_tree ↦ own_subtree c is_tree
  ]

  pub added-Reported :
      Reported path
        (view_in sha256 st.0 bs)
        (view_in sha256 st.0 os)
        (view_in sha256 st.0 ts)
        st.1
        out.1.1
  added-Reported c =
      let told = rest.reported c in
      let own = own_told c in
      (
        λ i. elim (told.0 i) [
          | inl j ↦ elim (own.0 j) [ inl old ↦ inl old | inr (q, _, clash) ↦ inr (q, clash) ]
          | inr (q, clash) ↦ inr (
            q,
            elim (Bool-cases (bytes_eq (key_of k.kind k.name) (first_key q c.rrtype))) [
              | inl same ↦ absurd (
                  After-own q c
                    ((bytes_eq_iff (key_of k.kind k.name) (first_key q c.rrtype)).0 same) clash)
              | inr apart ↦ (After-apart q c apart).0 clash
            ],
          )
        ],
        λ i. told.1 (elim i [
          | inl old ↦ inl (own.1 (inl old))
          | inr (q, clash) ↦
              elim (Bool-cases (bytes_eq (key_of k.kind k.name) (first_key q c.rrtype))) [
                | inl same ↦ inl (
                    own.1 (
                      inr (
                        q,
                        (bytes_eq_iff (key_of k.kind k.name) (first_key q c.rrtype)).0 same,
                        clash,
                      )))
                | inr apart ↦ inr (q, (After-apart q c apart).1 clash)
              ]
        ]),
      )
