-- ===== src/Object/TreeOps/Leaves/Listed.antt =====
-- What the walk over all leaves visits.
use zonegit.Base.{
  ℕ, zero, suc, ◌≡◌, sym, ap, ◌∙◌, arith, true, false, List, [], ◌∷◌, ◌++◌, append_assoc,
  append-nil, Bytes, if◌then◌else◌, ◌==◌, ok, Outcome, Bool-cases, All, inl, inr,
}
use zonegit.Store.Hash.{Hash, is_zero, is_zero_iff}
use zonegit.Store.MemStore.{Store}
use zonegit.Object.Tree.{TreeEntry, entry_kind_is_valid, entry_leaf, entry_subtree}
use zonegit.Object.Tree.Codec.RoundTrip.{IsEntry}
use zonegit.Object.TreeOps.{Labels}
use zonegit.Object.TreeOps.View.{IsTreeAt, Below, entries_at, entries_at-loaded}
use zonegit.Object.TreeOps.Leaves.{Visitor, visit_entry, visit_entries, walk_leaves_at}

pub record Leaf : Type 0 where
  pub path : Labels
  pub rrtype : Bytes
  pub blob : Hash

-- The callback that keeps every leaf.
unfoldable pub keep_leaf : Visitor (List Leaf)
keep_leaf path rrtype blob leaves =
    (ok tt, leaves ++ (record { path = path; rrtype = rrtype; blob = blob } ∷ []))

module _ (sha256 : Bytes → Hash) (s : Store) where
  -- The leaves below a hash, in the order of the walk.
  unfoldable pub leaves_of : (Labels → Hash → List Leaf) → Labels → List TreeEntry → List Leaf
  leaves_of down path [] = []
  leaves_of down path (e ∷ es) =
      let rest = leaves_of down path es in
      if e.kind == entry_leaf
      then (record { path = path; rrtype = e.name; blob = e.hash } ∷ rest)
      else (down (path ++ (e.name ∷ [])) e.hash ++ rest)

  unfoldable pub leaves_below : ℕ → Labels → Hash → List Leaf
  unfolding leaves_of
  leaves_below zero path h = []
  leaves_below (suc n) path h = leaves_of (leaves_below n) path (entries_at sha256 s h)

  abbrev Visits :
      (Labels → Hash → List Leaf → Outcome (List Leaf) (Unit {0}))
      → (Labels → Hash → List Leaf)
      → TreeEntry
      → Type 0
  Visits descend down e =
      (path : Labels) (acc : List Leaf)
      → e.kind ≡ entry_subtree
      → descend (path ++ (e.name ∷ [])) e.hash acc
        ≡ (ok tt, acc ++ down (path ++ (e.name ∷ [])) e.hash)

  visit_entries-leaves :
      (descend : Labels → Hash → List Leaf → Outcome (List Leaf) (Unit {0}))
      (down : Labels → Hash → List Leaf) (path : Labels) (es : List TreeEntry) (acc : List Leaf)
      → All IsEntry es
      → All (Visits descend down) es
      → visit_entries descend keep_leaf path es acc ≡ (ok tt, acc ++ leaves_of down path es)
  unfolding visit_entries visit_entry leaves_of keep_leaf
  visit_entries-leaves descend down path [] acc valid f =
      ap (λ l. (ok tt, l)) (sym (append-nil acc))
  visit_entries-leaves descend down path (e ∷ es) acc valid f =
      elim (Bool-cases (e.kind == entry_leaf)) [
        | inl leaf ↦ rw leaf (
            visit_entries-leaves descend down path es _ valid.1 f.1
            ∙ ap (λ l. (ok tt, l))
                (append_assoc acc (record { path = path; rrtype = e.name; blob = e.hash } ∷ [])
                  (leaves_of down path es)))
        | inr other ↦
            let subtree : e.kind ≡ entry_subtree =
              unfold entry_kind_is_valid in ground (arith, valid.0.kind_valid, other) in
            let test : (e.kind == entry_subtree) ≡ true = ground (arith, subtree) in
            rw (other, test, f.0 path acc subtree)
              (visit_entries-leaves descend down path es _ valid.1 f.1
                ∙ ap (λ l. (ok tt, l))
                    (append_assoc acc (down (path ++ (e.name ∷ [])) e.hash)
                      (leaves_of down path es)))
      ]

  pub walk_leaves_at-leaves :
      (n : ℕ) (path : Labels) (h : Hash) (acc : List Leaf)
      → IsTreeAt sha256 s n h
      → is_zero h ≡ false
      → walk_leaves_at sha256 s keep_leaf n path h acc ≡ (ok tt, acc ++ leaves_below n path h)
  unfolding walk_leaves_at leaves_below
  walk_leaves_at-leaves zero path h acc i nz = absurd (ground (arith, is_zero_iff h))
  walk_leaves_at-leaves (suc n) path h acc i nz =
      let (t, loaded, w, b) = i nz in
      rw (loaded, entries_at-loaded sha256 s h nz loaded)
        (visit_entries-leaves (walk_leaves_at sha256 s keep_leaf n) (leaves_below n) path t.entries
          acc w.valid
          (down t.entries w.nonzero b
            (λ p k acc' below nz'. walk_leaves_at-leaves n p k acc' below nz')))
    where
      down :
          (es : List TreeEntry)
          → All (λ e. is_zero e.hash ≡ false) es
          → Below sha256 s n es
          → ((p : Labels) (k : Hash) (acc' : List Leaf)
              → IsTreeAt sha256 s n k
              → is_zero k ≡ false
              → walk_leaves_at sha256 s keep_leaf n p k acc' ≡ (ok tt, acc' ++ leaves_below n p k))
          → All (Visits (walk_leaves_at sha256 s keep_leaf n) (leaves_below n)) es
      down [] nz' b' f = tt
      down (e ∷ es) nz' b' f = (
        λ p acc' kind. f (p ++ (e.name ∷ [])) e.hash acc' (b'.0 kind) nz'.0,
        down es nz'.1 b'.1 f,
      )
