-- ===== src/Merge/Tests.antt =====
-- The merge at concrete inputs.
use zonegit.Base.{
  ◌≡◌, ◌↔◌, ◌⊎◌, refl, sym, ap, arith, true, none, replicate, codes, [], ◌∷◌, List, length, Outcome,
  Result, ok, err,
}
use mathlib.Core.Path.{subst}
use zonegit.Store.Hash.{Hash, zero_hash, hash_size}
use zonegit.Store.MemStore.{Store, new_store}
use zonegit.Object.Sample.{toy_hash, toy_hash_size, program}
use zonegit.Object.TreeOps.{update_tree}
use zonegit.Object.TreeOps.Clean.{clean_test, Clean-of_test}
use zonegit.Object.TreeOps.View.{IsTreeAt, IsTreeAt-zero_hash, IsTreeAt-Extends}
use zonegit.Object.TreeOps.Update.{view-update_tree, Sets}
use zonegit.Merge.{
  Conflict, resolve_leaf, merge_trees, merge_trees_at, merge_nodes, merge_loop, merge_round,
  write_merged, same_trees, hash_eq, advance, note_conflict, keep_entry, min_key, least, less_kn,
  cursor, sort_conflicts, conflict_key,
}
use zonegit.Merge.Leaf.{resolve_leaf_clean}
use zonegit.Merge.Trees.{merge_trees-MergedView, MergedView}

abbrev one_hash : Hash
one_hash = replicate 32 1

abbrev two_hash : Hash
two_hash = replicate 32 2

resolve_leaf_clean_example :
    ((resolve_leaf zero_hash one_hash two_hash).1 ≡ none)
    ↔ ((one_hash ≡ two_hash) ⊎ ((one_hash ≡ zero_hash) ⊎ (two_hash ≡ zero_hash)))
resolve_leaf_clean_example = resolve_leaf_clean zero_hash one_hash two_hash

-- Two stored zones with one record set each, apart from one another.
abbrev www_set : Outcome Store Hash
www_set = update_tree toy_hash zero_hash (codes "www" ∷ []) (codes "A") one_hash new_store

abbrev api_set : Outcome Store Hash
api_set = update_tree toy_hash zero_hash (codes "api" ∷ []) (codes "A") two_hash www_set.1

abbrev root_of : Result Hash → Hash
root_of r = elim r [ ok h ↦ h | err _ ↦ zero_hash ]

api_set_clean : clean_test api_set.1.objects ≡ true
unfolding program
api_set_clean = refl

www_set_clean : clean_test www_set.1.objects ≡ true
unfolding program
www_set_clean = refl

www_set-Sets :
    Sets toy_hash toy_hash_size new_store 1 zero_hash
      (codes "www" ∷ [])
      (codes "A")
      one_hash
      www_set
www_set-Sets =
    view-update_tree toy_hash toy_hash_size new_store 1 zero_hash (codes "www" ∷ []) (codes "A")
      one_hash (IsTreeAt-zero_hash toy_hash new_store 2) (omega arith) (omega arith) (omega arith)
      refl (Clean-of_test www_set.1.objects www_set_clean)

api_set-Sets :
    Sets toy_hash toy_hash_size www_set.1 1 zero_hash
      (codes "api" ∷ [])
      (codes "A")
      two_hash
      api_set
api_set-Sets =
    view-update_tree toy_hash toy_hash_size www_set.1 1 zero_hash (codes "api" ∷ []) (codes "A")
      two_hash (IsTreeAt-zero_hash toy_hash www_set.1 2) (omega arith) (omega arith) (omega arith)
      refl (Clean-of_test api_set.1.objects api_set_clean)

www_root-IsTreeAt : IsTreeAt toy_hash api_set.1 2 (root_of www_set.0)
www_root-IsTreeAt =
    subst (IsTreeAt toy_hash api_set.1 2) (sym (ap root_of www_set-Sets.1))
      (IsTreeAt-Extends toy_hash www_set.1 api_set.1 2 www_set-Sets.0 api_set-Sets.2 www_set-Sets.3)

api_root-IsTreeAt : IsTreeAt toy_hash api_set.1 2 (root_of api_set.0)
api_root-IsTreeAt =
    subst (IsTreeAt toy_hash api_set.1 2) (sym (ap root_of api_set-Sets.1)) api_set-Sets.3

zero_hash_size : length zero_hash ≡ hash_size
unfolding program
zero_hash_size = refl

root_sizes : (length (root_of www_set.0) ≡ hash_size) × (length (root_of api_set.0) ≡ hash_size)
unfolding program
root_sizes = (refl, refl)

merged : Outcome Store (Hash × List Conflict)
merged = merge_trees toy_hash 2 zero_hash (root_of www_set.0) (root_of api_set.0) api_set.1

merged_clean : clean_test merged.1.objects ≡ true
unfolding program merged merge_trees merge_trees_at merge_nodes merge_loop merge_round write_merged
    same_trees hash_eq advance note_conflict keep_entry resolve_leaf min_key least less_kn cursor
    sort_conflicts conflict_key
merged_clean = refl

merge_trees-MergedView_example :
    MergedView toy_hash toy_hash_size 2 zero_hash
      (root_of www_set.0)
      (root_of api_set.0)
      api_set.1
      (merge_trees toy_hash 2 zero_hash (root_of www_set.0) (root_of api_set.0) api_set.1)
unfolding merged
merge_trees-MergedView_example =
    merge_trees-MergedView toy_hash toy_hash_size 2 zero_hash (root_of www_set.0)
      (root_of api_set.0) api_set.1 (IsTreeAt-zero_hash toy_hash api_set.1 2, zero_hash_size)
      (www_root-IsTreeAt, root_sizes.0) (api_root-IsTreeAt, root_sizes.1)
      (Clean-of_test merged.1.objects merged_clean)
