-- ===== src/Object/TreeOps/Walk.antt =====
-- `walk_tree` reads the view.
use zonegit.Base.{
  ℕ, zero, suc, ◌≡◌, ◌∙◌, arith, false, [], ◌∷◌, Bytes, if◌then◌else◌, none, some, Option-cases,
  Result, ok, err, not_found, find_key, All-find_key, find_key-key, inl, inr,
}
use zonegit.Store.Hash.{Hash, is_zero, is_zero_iff, zero_hash}
use zonegit.Store.MemStore.{Store}
use zonegit.Object.Tree.{Tree, TreeEntry, entry_key, key_of, entry_leaf, entry_subtree, get}
use zonegit.Object.Tree.Order.{key_of-injective}
use zonegit.Object.Tree.Search.{get-find_key}
use zonegit.Object.TreeOps.{Labels, load_tree, walk_tree}
use zonegit.Object.TreeOps.Entries.{hash_at, hash_at-some, hash_at-none}
use zonegit.Object.TreeOps.Stored.{WellFormed}
use zonegit.Object.TreeOps.View.{view, view-zero_hash, IsTreeAt, entries_at, entries_at-loaded}

-- What a reader answers for a blob hash of the view.
abbrev pub answer : Hash → Result Hash
answer h = if is_zero h then err not_found else ok h

module _ (sha256 : Bytes → Hash) where
  walk_leaf :
      (s : Store) (root : Hash) (rrtype : Bytes) (t : Tree)
      → load_tree sha256 s root ≡ ok t
      → entries_at sha256 s root ≡ t.entries
      → WellFormed t
      → walk_tree sha256 s root [] rrtype ≡ answer (view sha256 s root [] rrtype)
  unfolding walk_tree view
  walk_leaf s root rrtype t loaded shown w =
      let found = get-find_key t entry_leaf rrtype w.ascends in
      elim (Option-cases (find_key entry_key (key_of entry_leaf rrtype) t.entries)) [
        | inl e ↦
            rw (shown, hash_at-none entry_leaf rrtype t.entries e)
              (ground (arith, loaded, found, e, is_zero_iff zero_hash))
        | inr (x, e) ↦
            let nz = All-find_key entry_key (λ z. is_zero z.hash ≡ false) _ t.entries w.nonzero e in
            rw (shown, hash_at-some entry_leaf rrtype t.entries e, nz)
              (ground (arith, loaded, found, e))
      ]

  module _ (s : Store) (root : Hash) (label : Bytes) (path : Labels) (rrtype : Bytes)
      (t : Tree) where
    walk_miss :
        load_tree sha256 s root ≡ ok t
        → entries_at sha256 s root ≡ t.entries
        → get t entry_subtree label ≡ none
        → hash_at entry_subtree label t.entries ≡ zero_hash
        → walk_tree sha256 s root (label ∷ path) rrtype
          ≡ answer (view sha256 s root (label ∷ path) rrtype)
    unfolding walk_tree view
    walk_miss loaded shown missing none_at =
        rw (shown, none_at, view-zero_hash sha256 s path rrtype)
          (ground (arith, loaded, missing, is_zero_iff zero_hash))

    walk_hit :
        (x : TreeEntry)
        → load_tree sha256 s root ≡ ok t
        → entries_at sha256 s root ≡ t.entries
        → get t entry_subtree label ≡ some x
        → hash_at entry_subtree label t.entries ≡ x.hash
        → walk_tree sha256 s x.hash path rrtype ≡ answer (view sha256 s x.hash path rrtype)
        → walk_tree sha256 s root (label ∷ path) rrtype
          ≡ answer (view sha256 s root (label ∷ path) rrtype)
    unfolding walk_tree view
    walk_hit x loaded shown hit some_at rest =
        rw (shown, some_at) (ground (arith, loaded, hit, rest))

  -- On a stored zone tree `walk_tree` returns the blob hash that the view shows, and `not_found`
  -- exactly where the view shows none; no other error occurs.
  pub walk_tree-view :
      (s : Store) (n : ℕ) (root : Hash) (path : Labels) (rrtype : Bytes)
      → IsTreeAt sha256 s n root
      → is_zero root ≡ false
      → walk_tree sha256 s root path rrtype ≡ answer (view sha256 s root path rrtype)
  walk_tree-view s zero root path rrtype i nz = absurd (ground (arith, is_zero_iff root))
  walk_tree-view s (suc n) root [] rrtype i nz =
      let (t, loaded, w, b) = i nz in
      walk_leaf s root rrtype t loaded (entries_at-loaded sha256 s root nz loaded) w
  walk_tree-view s (suc n) root (label ∷ path) rrtype i nz =
      let (t, loaded, w, b) = i nz in
      let found = get-find_key t entry_subtree label w.ascends in
      let shown = entries_at-loaded sha256 s root nz loaded in
      elim (Option-cases (find_key entry_key (key_of entry_subtree label) t.entries)) [
        | inl e ↦
            walk_miss s root label path rrtype t loaded shown (found ∙ e)
              (hash_at-none entry_subtree label t.entries e)
        | inr (x, e) ↦
            let nz' =
              All-find_key entry_key (λ z. is_zero z.hash ≡ false) _ t.entries w.nonzero e in
            let kind = (key_of-injective (find_key-key entry_key _ t.entries e)).0 in
            let below =
              All-find_key entry_key (λ z. z.kind ≡ entry_subtree → IsTreeAt sha256 s n z.hash) _
                t.entries b e kind in
            walk_hit s root label path rrtype t x loaded shown (found ∙ e)
              (hash_at-some entry_subtree label t.entries e)
              (walk_tree-view s n x.hash path rrtype below nz')
      ]
