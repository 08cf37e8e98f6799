-- ===== src/Object/TreeOps.antt =====
-- pkg/object/treeops.go: trees in the object store. A path runs from the zone's apex down, one
-- label an element.
pub mod Entries
pub mod SetEntry
pub mod Stored
pub mod Clean
pub mod View
pub mod Walk
pub mod Leaves
pub mod Exists
pub mod Node
pub mod Update
pub mod Grows
use zonegit.Base.{
  ℕ, zero, suc, ◌+◌, ◌≡◌, Bool, true, false, not, ◌&&◌, ◌||◌, List, [], ◌∷◌, ◌++◌, length, Bytes,
  bytes_eq, ltb, ◌==◌, if◌then◌else◌, Option, none, some, Result, ok, err, Error, ◌>>=◌, ◌>>◌,
  Outcome, ◌then_do◌, with_do,
}
use zonegit.Store.Hash.{Hash, zero_hash, is_zero}
use zonegit.Store.MemStore.{Store, Object, get_object, put_object}
use zonegit.Object.{kind_tree, verify}
use zonegit.Object.Tree.{
  EntryKind, TreeEntry, Tree, entry_leaf, entry_subtree, validate_entry, sort_entries, get,
}
use zonegit.Object.Tree.Codec.{decode_tree, encode_tree}

abbrev pub Labels : Type 0
Labels = List Bytes

abbrev pub empty_tree : Tree
empty_tree = record { entries = [] }

-- The checks that `PutTree` makes before it writes.
unfoldable pub validate_entries : List TreeEntry → Result (Unit {0})
unfolding validate_entry
validate_entries [] = ok tt
validate_entries (e ∷ es) = do validate_entry e; validate_entries es

-- The loop of `setEntry`: an entry with the key is replaced, or dropped if the hash is zero.
unfoldable pub replace_entry : EntryKind → Bytes → Hash → List TreeEntry → List TreeEntry
replace_entry kind name hash [] = []
replace_entry kind name hash (e ∷ es) =
    let out = replace_entry kind name hash es in
    if (e.kind == kind) && bytes_eq e.name name
    then (if is_zero hash then out else (record { kind = kind; name = name; hash = hash } ∷ out))
    else (e ∷ out)

-- The variable `replaced` of `setEntry`.
unfoldable pub has_entry : EntryKind → Bytes → List TreeEntry → Bool
has_entry kind name [] = false
has_entry kind name (e ∷ es) = ((e.kind == kind) && bytes_eq e.name name) || has_entry kind name es

unfoldable pub set_entry : Tree → EntryKind → Bytes → Hash → Tree
set_entry t kind name hash =
    let out = replace_entry kind name hash t.entries in
    let extra = record { kind = kind; name = name; hash = hash } ∷ [] in
    record {
      entries =
          sort_entries
            (if has_entry kind name t.entries || is_zero hash then out else (out ++ extra));
    }

unfoldable pub set_leaf : Tree → Bytes → Hash → Tree
unfolding set_entry
set_leaf t rrtype hash = set_entry t entry_leaf rrtype hash

unfoldable pub set_subtree : Tree → Bytes → Hash → Tree
unfolding set_entry
set_subtree t label hash = set_entry t entry_subtree label hash

module _ (sha256 : Bytes → Hash) where
  unfoldable pub load_tree : Store → Hash → Result Tree
  load_tree s h = do
    obj ← get_object s h
    if bytes_eq obj.kind kind_tree then ok tt else err Error.invalid_object
    verify sha256 h obj
    decode_tree obj.payload

  unfoldable pub put_tree : Tree → Store → Outcome Store Hash
  put_tree t s = with_do s (validate_entries t.entries) (λ _.
      (ok (encode_tree sha256 t).0, put_object (encode_tree sha256 t).0 (encode_tree sha256 t).1 s))

  unfoldable pub walk_tree : Store → Hash → Labels → Bytes → Result Hash
  walk_tree s cur [] rrtype = do
    t ← load_tree s cur
    elim (get t entry_leaf rrtype) [ none ↦ err Error.not_found | some e ↦ ok e.hash ]
  walk_tree s cur (label ∷ path) rrtype = do
    t ← load_tree s cur
    elim (get t entry_subtree label) [
      | none ↦ err Error.not_found
      | some e ↦ walk_tree s e.hash path rrtype
    ]

  -- The loop of `NodeExists`.
  unfoldable pub node_exists_from : Store → Hash → Labels → Result Bool
  node_exists_from s cur [] = ok true
  node_exists_from s cur (label ∷ path) = do
    t ← load_tree s cur
    elim (get t entry_subtree label) [ none ↦ ok false | some e ↦ node_exists_from s e.hash path ]

  unfoldable pub node_exists : Store → Hash → Labels → Result Bool
  unfolding node_exists_from
  node_exists s root path = if is_zero root then ok false else node_exists_from s root path

  -- `UpdateTree`, on the way down: the trees on the path, an empty one for a missing label.
  unfoldable pub load_chain : Store → Tree → Labels → Result (List Tree)
  load_chain s t [] = ok (t ∷ [])
  load_chain s t (label ∷ path) = elim (get t entry_subtree label) [
    | none ↦ do chain ← load_chain s empty_tree path; ok (t ∷ chain)
    | some e ↦ do child ← load_tree s e.hash; chain ← load_chain s child path; ok (t ∷ chain)
  ]

  -- One round on the way up: an empty tree is dropped unless it is the root.
  unfoldable pub write_node : Bool → Tree → Store → Outcome Store Hash
  unfolding put_tree
  write_node is_root t s =
      if (length t.entries == 0) && not is_root then (ok zero_hash, s) else put_tree t s

  -- `UpdateTree`, on the way up: the deepest tree is written first. The chain is one longer than
  -- the path.
  unfoldable pub write_chain : Bool → List Tree → Labels → Bytes → Hash → Store → Outcome Store Hash
  unfolding write_node
  write_chain is_root [] path rrtype leaf s = (err Error.failed, s)
  write_chain is_root (t ∷ chain) [] rrtype leaf s = write_node is_root (set_leaf t rrtype leaf) s
  write_chain is_root (t ∷ chain) (label ∷ path) rrtype leaf s =
      write_chain false chain path rrtype leaf s
      then_do (λ h. write_node is_root (set_subtree t label h))

  unfoldable pub load_root : Store → Hash → Result Tree
  load_root s root = if is_zero root then ok empty_tree else load_tree s root

  unfoldable pub update_tree : Hash → Labels → Bytes → Hash → Store → Outcome Store Hash
  unfolding load_root load_chain write_chain
  update_tree root path rrtype leaf s =
      with_do s (load_root s root >>= λ t. load_chain s t path)
        (λ chain. write_chain true chain path rrtype leaf s)
