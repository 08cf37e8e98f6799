-- ===== src/History/Diff.antt =====
-- pkg/history/diff.go: the changes between two zone trees.
use zonegit.Base.{
  ℕ, zero, suc, ◌+◌, List, [], ◌∷◌, ◌++◌, map, length, Bytes, bytes_eq, ◌==◌, if◌then◌else◌, Result,
  ok, err, Error, ◌>>=◌, sort_on, codes,
}
use Prim.Native.Nat.{Ordering}
use zonegit.Store.Hash.{Hash, zero_hash, is_zero}
use zonegit.Store.MemStore.{Store}
use zonegit.Object.Tree.{TreeEntry, Tree, entry_leaf, cmp_entry}
use zonegit.Object.TreeOps.{Labels, empty_tree, load_tree}
use zonegit.Merge.{path_fqdn}

pub data ChangeOp : Type 0 where
  op_added op_removed op_modified : ChangeOp

-- `ChangeOp.String`; other values of the Go type are never made.
unfoldable pub op_string : ChangeOp → Bytes
op_string op_added = codes "added"
op_string op_removed = codes "removed"
op_string op_modified = codes "modified"

pub record Change : Type 0 where
  pub path : Labels
  pub rrtype : Bytes
  pub op : ChangeOp
  pub old_blob : Hash
  pub new_blob : Hash

-- `Change.FQDN`
unfoldable pub change_fqdn : Change → Bytes
change_fqdn c = path_fqdn c.path

-- The order of the output: by FQDN, then by type. The zero that ends the FQDN is below all its
-- bytes, which are moved up by one.
unfoldable pub change_key : Change → Bytes
unfolding change_fqdn
change_key c = map suc (change_fqdn c) ++ (0 ∷ c.rrtype)

-- What stands next under the two cursors, and the cursors behind it.
pub data Next : Type 0 where
  at_end : Next
  only_old : TreeEntry → List TreeEntry → List TreeEntry → Next
  only_new : TreeEntry → List TreeEntry → List TreeEntry → Next
  on_both : TreeEntry → TreeEntry → List TreeEntry → List TreeEntry → Next

unfoldable pub next_entry : List TreeEntry → List TreeEntry → Next
next_entry [] [] = at_end
next_entry [] (n ∷ ns) = only_new n [] ns
next_entry (o ∷ os) [] = only_old o os []
next_entry (o ∷ os) (n ∷ ns) = elim (cmp_entry o.kind o.name n.kind n.name) [
  | Ordering.lt ↦ only_old o os (n ∷ ns)
  | Ordering.gt ↦ only_new n (o ∷ os) ns
  | Ordering.eq ↦ on_both o n os ns
]

unfoldable pub one_sided : Labels → Bytes → ChangeOp → Hash → Change
one_sided path name op_added h = record {
  path = path;
  rrtype = name;
  op = op_added;
  old_blob = zero_hash;
  new_blob = h;
}
one_sided path name op h = record {
  path = path;
  rrtype = name;
  op = op;
  old_blob = h;
  new_blob = zero_hash;
}

-- The recursive call of `emitOnlySide`.
abbrev pub Emit : Type 0
Emit = Labels → TreeEntry → ChangeOp → List Change → Result (List Change)

unfoldable pub emit_children :
    Emit → Labels → List TreeEntry → ChangeOp → List Change → Result (List Change)
emit_children emit path [] op out = ok out
emit_children emit path (e ∷ es) op out =
    emit path e op out >>= λ out'. emit_children emit path es op out'

-- The recursive call of `diffWalk`.
abbrev pub Walk : Type 0
Walk = Labels → Hash → Hash → List Change → Result (List Change)

unfoldable pub diff_both :
    Walk → Labels → TreeEntry → TreeEntry → List Change → Result (List Change)
diff_both walk path o n out =
    if bytes_eq o.hash n.hash
    then ok out
    else if o.kind == entry_leaf
    then ok (
        out
        ++ (record {
          path = path;
          rrtype = o.name;
          op = op_modified;
          old_blob = o.hash;
          new_blob = n.hash;
        }
            ∷ []))
    else walk (path ++ (o.name ∷ [])) o.hash n.hash out

-- The loop of `diffWalk`: each round passes an entry, so as many rounds as entries are enough.
unfoldable pub diff_loop :
    Emit → Walk → Labels → ℕ → List TreeEntry → List TreeEntry → List Change → Result (List Change)
unfolding next_entry diff_both
diff_loop emit walk path zero os ns out = ok out
diff_loop emit walk path (suc rounds) os ns out = elim (next_entry os ns) [
  | at_end ↦ ok out
  | only_old e os' ns' ↦
      emit path e op_removed out >>= λ out'. diff_loop emit walk path rounds os' ns' out'
  | only_new e os' ns' ↦
      emit path e op_added out >>= λ out'. diff_loop emit walk path rounds os' ns' out'
  | on_both o n os' ns' ↦
      diff_both walk path o n out >>= λ out'. diff_loop emit walk path rounds os' ns' out'
]

module _ (sha256 : Bytes → Hash) (s : Store) where
  -- `emitOnlySide`; the fuel bounds the depth, here and below.
  unfoldable pub emit_only_side : ℕ → Emit
  unfolding one_sided emit_children
  emit_only_side zero path e op out =
      if e.kind == entry_leaf
      then ok (out ++ (one_sided path e.name op e.hash ∷ []))
      else err Error.out_of_fuel
  emit_only_side (suc fuel) path e op out =
      let below = load_tree sha256 s e.hash >>= λ t.
      emit_children (emit_only_side fuel) (path ++ (e.name ∷ [])) t.entries op out in
      if e.kind == entry_leaf then ok (out ++ (one_sided path e.name op e.hash ∷ [])) else below

  unfoldable pub load_side : Hash → Result Tree
  load_side h = if is_zero h then ok empty_tree else load_tree sha256 s h

  unfoldable pub diff_walk : ℕ → Walk
  unfolding emit_only_side load_side diff_loop
  diff_walk zero path old new out = if bytes_eq old new then ok out else err Error.out_of_fuel
  diff_walk (suc fuel) path old new out =
      let slow = load_side old >>= λ ot. load_side new >>= λ nt.
      diff_loop (emit_only_side fuel) (diff_walk fuel) path (length ot.entries + length nt.entries)
        ot.entries nt.entries out in
      if bytes_eq old new then ok out else slow

  unfoldable pub diff : ℕ → Hash → Hash → Result (List Change)
  unfolding diff_walk change_key
  diff fuel old new =
      if bytes_eq old new
      then ok []
      else (diff_walk fuel [] old new [] >>= λ out. ok (sort_on change_key out))
