-- ===== src/Merge/Leaf.antt =====
-- The rules for one leaf.
use zonegit.Base.{◌≡◌, ◌↔◌, ◌⊎◌, arith, bytes_eq_iff, none, some}
use zonegit.Store.Hash.{Hash}
use zonegit.Merge.{resolve_leaf, same_trees}

module _ (base ours theirs : Hash) where
  -- A leaf merges without conflict exactly if the sides agree or one of them left it as it was.
  pub resolve_leaf_clean :
      ((resolve_leaf base ours theirs).1 ≡ none)
      ↔ ((ours ≡ theirs) ⊎ ((ours ≡ base) ⊎ (theirs ≡ base)))
  unfolding resolve_leaf
  resolve_leaf_clean =
      ground (arith, bytes_eq_iff ours theirs, bytes_eq_iff ours base, bytes_eq_iff theirs base)

  -- Exchanging the sides gives the same verdict, and the same value where there is no conflict.
  pub resolve_leaf_swap :
      ((resolve_leaf base ours theirs).1 ≡ (resolve_leaf base theirs ours).1)
      × ((resolve_leaf base ours theirs).1 ≡ none
          → (resolve_leaf base ours theirs).0 ≡ (resolve_leaf base theirs ours).0)
  unfolding resolve_leaf
  resolve_leaf_swap = (
    ground (
      arith,
      bytes_eq_iff ours theirs,
      bytes_eq_iff theirs ours,
      bytes_eq_iff ours base,
      bytes_eq_iff theirs base,
    ),
    ground (
      arith,
      bytes_eq_iff ours theirs,
      bytes_eq_iff theirs ours,
      bytes_eq_iff ours base,
      bytes_eq_iff theirs base,
    ),
  )

  -- The fast paths of whole trees agree with the rules for leaves.
  pub resolve_leaf-same_trees :
      (h : Hash) → same_trees base ours theirs ≡ some h → (resolve_leaf base ours theirs).0 ≡ h
  unfolding resolve_leaf same_trees
  resolve_leaf-same_trees h e = ground (
    arith,
    e,
    bytes_eq_iff ours theirs,
    bytes_eq_iff ours base,
    bytes_eq_iff base ours,
    bytes_eq_iff theirs base,
    bytes_eq_iff base theirs,
  )
