-- ===== src/Object/TreeOps/Leaves.antt =====
-- pkg/object/treeops.go: the walk over all leaves of a tree. The state of the walk is what its
-- callback changes, and the fuel bounds the depth.
pub mod Listed
pub mod Shown
use zonegit.Base.{
  ℕ, zero, suc, List, [], ◌∷◌, ◌++◌, Bytes, if◌then◌else◌, ◌==◌, ok, err, Error, Outcome, ◌then_do◌,
  with_do,
}
use zonegit.Store.Hash.{Hash, is_zero}
use zonegit.Store.MemStore.{Store}
use zonegit.Object.Tree.{TreeEntry, entry_leaf, entry_subtree}
use zonegit.Object.TreeOps.{Labels, load_tree}

-- The callback, with the path from the apex, the record type and the blob hash.
abbrev pub Visitor : Type 0 → Type 0
Visitor S = Labels → Bytes → Hash → S → Outcome S (Unit {0})

module _ {S : Type 0} where
  -- One round of the loop; `descend` is the walk of a subtree.
  unfoldable pub visit_entry :
      (Labels → Hash → S → Outcome S (Unit {0}))
      → Visitor S
      → Labels
      → TreeEntry
      → S
      → Outcome S (Unit {0})
  visit_entry descend fn path e state =
      if e.kind == entry_leaf
      then fn path e.name e.hash state
      else if e.kind == entry_subtree
      then descend (path ++ (e.name ∷ [])) e.hash state
      else (ok tt, state)

  unfoldable pub visit_entries :
      (Labels → Hash → S → Outcome S (Unit {0}))
      → Visitor S
      → Labels
      → List TreeEntry
      → S
      → Outcome S (Unit {0})
  unfolding visit_entry
  visit_entries descend fn path [] state = (ok tt, state)
  visit_entries descend fn path (e ∷ es) state =
      visit_entry descend fn path e state then_do (λ _. visit_entries descend fn path es)

  module _ (sha256 : Bytes → Hash) (s : Store) (fn : Visitor S) where
    unfoldable pub walk_leaves_at : ℕ → Labels → Hash → S → Outcome S (Unit {0})
    unfolding visit_entries
    walk_leaves_at zero path h state = (err Error.out_of_fuel, state)
    walk_leaves_at (suc n) path h state =
        with_do state (load_tree sha256 s h)
          (λ t. visit_entries (walk_leaves_at n) fn path t.entries state)

    unfoldable pub walk_all_leaves : ℕ → Hash → S → Outcome S (Unit {0})
    unfolding walk_leaves_at
    walk_all_leaves fuel root state =
        if is_zero root then (ok tt, state) else walk_leaves_at fuel [] root state
