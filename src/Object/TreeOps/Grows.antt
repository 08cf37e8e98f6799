-- ===== src/Object/TreeOps/Grows.antt =====
-- The tree operations write objects and nothing else.
use zonegit.Base.{
  Bool, true, false, not, ◌&&◌, List, [], ◌∷◌, length, Bytes, ◌==◌, Bool-cases, inl, inr,
}
use zonegit.Store.Hash.{Hash}
use zonegit.Store.MemStore.{Store, Object, put_object}
use zonegit.Store.MemStore.Growth.{Growth, then_do-relates, with_do-relates}
use zonegit.Object.Tree.{Tree}
use zonegit.Object.TreeOps.{
  Labels, put_tree, write_node, write_chain, update_tree, validate_entries, set_subtree, set_leaf,
}
use zonegit.Object.TreeOps.Stored.{Clean}

pub Clean-put_object :
    (h : Hash) (o : Object) (s : Store) → Clean (put_object h o s).objects → Clean s.objects
unfolding put_object
Clean-put_object h o s clean = clean.3

-- The writes before are clean if those after are.
abbrev pub clean_growth : Growth
clean_growth = record {
  relates = λ s s'. Clean s'.objects → Clean s.objects;
  stays = λ s clean. clean;
  chains = λ s t u p q clean. p (q clean);
  puts = Clean-put_object;
}

module _ (growth : Growth) (sha256 : Bytes → Hash) where
  open growth use {relates, stays, puts}

  pub put_tree-relates : (t : Tree) (s : Store) → relates s (put_tree sha256 t s).1
  unfolding put_tree
  put_tree-relates t s = with_do-relates growth s (validate_entries t.entries) _ (λ _. puts _ _ s)

  write_node-relates :
      (is_root : Bool) (t : Tree) (s : Store) → relates s (write_node sha256 is_root t s).1
  unfolding write_node
  write_node-relates is_root t s = elim (Bool-cases ((length t.entries == 0) && not is_root)) [
    | inl e ↦ rw e (stays s)
    | inr e ↦ rw e (put_tree-relates t s)
  ]

  write_chain-relates :
      (is_root : Bool) (chain : List Tree) (path : Labels) (rrtype : Bytes) (leaf : Hash)
      (s : Store)
      → relates s (write_chain sha256 is_root chain path rrtype leaf s).1
  unfolding write_chain
  write_chain-relates is_root [] path rrtype leaf s = stays s
  write_chain-relates is_root (t ∷ chain) [] rrtype leaf s =
      write_node-relates is_root (set_leaf t rrtype leaf) s
  write_chain-relates is_root (t ∷ chain) (label ∷ path) rrtype leaf s =
      then_do-relates growth s (write_chain sha256 false chain path rrtype leaf s) _
        (write_chain-relates false chain path rrtype leaf s)
        (λ h s'. write_node-relates is_root (set_subtree t label h) s')

  pub update_tree-relates :
      (root : Hash) (path : Labels) (rrtype : Bytes) (leaf : Hash) (s : Store)
      → relates s (update_tree sha256 root path rrtype leaf s).1
  unfolding update_tree
  update_tree-relates root path rrtype leaf s =
      with_do-relates growth s _ _ (λ chain. write_chain-relates true chain path rrtype leaf s)
