-- ===== src/Object/TreeOps/Exists.antt =====
-- `node_exists` reads the view.
use zonegit.Base.{
  ℕ, zero, suc, ◌≡◌, refl, sym, ◌∙◌, arith, Bool, true, false, [], ◌∷◌, ◌++◌, Bytes, none, some,
  Option-cases, Result, ok, err, Bool-cases, inl, inr, find_key, All-find_key, find_key-key,
}
use mathlib.Core.Path.{subst}
use zonegit.Store.Hash.{Hash, is_zero, is_zero_iff, zero_hash}
use zonegit.Store.MemStore.{Store}
use zonegit.Object.Tree.{Tree, TreeEntry, entry_key, key_of, entry_subtree, get}
use zonegit.Object.Tree.Order.{key_of-injective}
use zonegit.Object.Tree.Search.{get-find_key}
use zonegit.Object.TreeOps.{Labels, load_tree, node_exists_from, node_exists}
use zonegit.Object.TreeOps.Entries.{hash_at, hash_at-some, hash_at-none}
use zonegit.Object.TreeOps.View.{view, view-zero_hash, IsTreeAt, entries_at, entries_at-loaded}

module _ (sha256 : Bytes → Hash) where
  -- No record set at or below the path.
  abbrev pub Nothing : Store → Hash → Labels → Type 0
  Nothing s root path =
      (below : Labels) (rrtype : Bytes) → view sha256 s root (path ++ below) rrtype ≡ zero_hash

  -- The answer of a walk to a node: yes, or no and nothing is there.
  abbrev pub Tells : Store → Hash → Labels → Result Bool → Type 0
  Tells s root path (err e) = ⊥
  Tells s root path (ok true) = Unit {0}
  Tells s root path (ok false) = Nothing s root path

  module _ (s : Store) (root : Hash) (label : Bytes) (path : Labels) (t : Tree) where
    view_down :
        (h : Hash) (p : Labels) (rrtype : Bytes)
        → entries_at sha256 s root ≡ t.entries
        → hash_at entry_subtree label t.entries ≡ h
        → view sha256 s root (label ∷ p) rrtype ≡ view sha256 s h p rrtype
    unfolding view
    view_down h p rrtype shown at_h = rw (shown, at_h) refl

    misses :
        load_tree sha256 s root ≡ ok t
        → get t entry_subtree label ≡ none
        → node_exists_from sha256 s root (label ∷ path) ≡ ok false
    unfolding node_exists_from
    misses loaded missing = ground (arith, loaded, missing)

    step_none :
        load_tree sha256 s root ≡ ok t
        → entries_at sha256 s root ≡ t.entries
        → get t entry_subtree label ≡ none
        → hash_at entry_subtree label t.entries ≡ zero_hash
        → Tells s root (label ∷ path) (node_exists_from sha256 s root (label ∷ path))
    step_none loaded shown missing none_at =
        subst (Tells s root (label ∷ path)) (sym (misses loaded missing)) (λ below rrtype.
          view_down zero_hash (path ++ below) rrtype shown none_at
          ∙ view-zero_hash sha256 s (path ++ below) rrtype)

    Tells-down :
        (x : TreeEntry) (answer : Result Bool)
        → entries_at sha256 s root ≡ t.entries
        → hash_at entry_subtree label t.entries ≡ x.hash
        → Tells s x.hash path answer
        → Tells s root (label ∷ path) answer
    Tells-down x (err e) shown some_at rest = rest
    Tells-down x (ok true) shown some_at rest = rest
    Tells-down x (ok false) shown some_at rest =
        λ below rrtype. view_down x.hash (path ++ below) rrtype shown some_at ∙ rest below rrtype

    step_some :
        (x : TreeEntry)
        → load_tree sha256 s root ≡ ok t
        → get t entry_subtree label ≡ some x
        → node_exists_from sha256 s root (label ∷ path) ≡ node_exists_from sha256 s x.hash path
    unfolding node_exists_from
    step_some x loaded hit = ground (arith, loaded, hit)

  node_exists_from-Tells :
      (s : Store) (n : ℕ) (root : Hash) (path : Labels)
      → IsTreeAt sha256 s n root
      → is_zero root ≡ false
      → Tells s root path (node_exists_from sha256 s root path)
  unfolding node_exists_from
  node_exists_from-Tells s zero root path i nz = absurd (ground (arith, is_zero_iff root))
  node_exists_from-Tells s (suc n) root [] i nz = tt
  node_exists_from-Tells s (suc n) root (label ∷ path) i nz =
      let (t, loaded, w, b) = i nz in
      let found = get-find_key t entry_subtree label w.ascends in
      let shown = entries_at-loaded sha256 s root nz loaded in
      elim (Option-cases (find_key entry_key (key_of entry_subtree label) t.entries)) [
        | inl e ↦
            step_none s root label path t loaded shown (found ∙ e)
              (hash_at-none entry_subtree label t.entries e)
        | inr (x, e) ↦
            let nz' =
              All-find_key entry_key (λ z. is_zero z.hash ≡ false) _ t.entries w.nonzero e in
            let kind = (key_of-injective (find_key-key entry_key _ t.entries e)).0 in
            let below =
              All-find_key entry_key (λ z. z.kind ≡ entry_subtree → IsTreeAt sha256 s n z.hash) _
                t.entries b e kind in
            subst (Tells s root (label ∷ path))
              (sym (step_some s root label path t x loaded (found ∙ e)))
              (Tells-down s root label path t x (node_exists_from sha256 s x.hash path) shown
                (hash_at-some entry_subtree label t.entries e)
                (node_exists_from-Tells s n x.hash path below nz'))
      ]

  -- On a stored zone tree `node_exists` does not fail, and if it says no, there is no record set at
  -- or below the path.
  pub node_exists-Tells :
      (s : Store) (n : ℕ) (root : Hash) (path : Labels)
      → IsTreeAt sha256 s n root
      → Tells s root path (node_exists sha256 s root path)
  unfolding node_exists
  node_exists-Tells s n root path i = elim (Bool-cases (is_zero root)) [
    | inl z ↦ rw z (λ below rrtype.
        rw ((is_zero_iff root).0 z) (view-zero_hash sha256 s (path ++ below) rrtype))
    | inr nz ↦ rw nz (node_exists_from-Tells s n root path i nz)
  ]
