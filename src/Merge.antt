-- ===== src/Merge.antt =====
-- pkg/merge/merge.go: the three-way merge of zone trees.
pub mod Leaf
pub mod Reported
pub mod Keys
pub mod Cursor
pub mod Grows
pub mod Step
pub mod Clashes
pub mod Round
pub mod Walk
pub mod Loop
pub mod Trees
mod Tests
use zonegit.Base.{
  ℕ, zero, suc, ◌+◌, ◌≡◌, Bool, true, false, not, ◌&&◌, ◌||◌, List, [], ◌∷◌, ◌++◌, map, length,
  Bytes, bytes_eq, bytes_lt, ltb, ◌==◌, if◌then◌else◌, Option, none, some, Result, ok, err, Error,
  ◌>>=◌, Outcome, ◌then_do◌, with_do, sort_on, codes,
}
use zonegit.Store.Hash.{Hash, zero_hash, is_zero}
use zonegit.Store.MemStore.{Store}
use zonegit.Object.Tree.{EntryKind, TreeEntry, Tree, entry_leaf, entry_subtree}
use zonegit.Object.TreeOps.{Labels, empty_tree, load_tree, put_tree}

pub data ConflictReason : Type 0 where
  both_modified deleted_modified add_add : ConflictReason

-- `ConflictReason.String`; the zero value of the Go type, "unknown", is never made.
unfoldable pub reason_string : ConflictReason → Bytes
reason_string both_modified = codes "both-modified"
reason_string deleted_modified = codes "deleted-modified"
reason_string add_add = codes "add-add"

pub record Conflict : Type 0 where
  pub path : Labels
  pub rrtype : Bytes
  pub reason : ConflictReason
  pub base : Hash
  pub ours : Hash
  pub theirs : Hash

-- `strings.Join(labels, ".")`
unfoldable pub join_labels : Labels → Bytes
join_labels [] = []
join_labels (l ∷ []) = l
join_labels (l ∷ m ∷ ls) = l ++ (46 ∷ join_labels (m ∷ ls))

-- `Conflict.FQDN`
unfoldable pub path_fqdn : Labels → Bytes
path_fqdn [] = codes "@"
path_fqdn (l ∷ ls) = join_labels (l ∷ ls)

unfoldable pub hash_eq : Hash → Hash → Bool
hash_eq a b = bytes_eq a b

-- The outcome for one leaf: the winner, and the reason of the conflict if there is one.
unfoldable pub resolve_leaf : Hash → Hash → Hash → Hash × Option ConflictReason
unfolding hash_eq
resolve_leaf base ours theirs =
    if hash_eq ours theirs
    then (ours, none)
    else if hash_eq ours base
    then (theirs, none)
    else if hash_eq theirs base
    then (ours, none)
    else if is_zero base
    then (ours, some add_add)
    else if is_zero ours || is_zero theirs
    then (ours, some deleted_modified)
    else (ours, some both_modified)

unfoldable pub less_kn : EntryKind → Bytes → EntryKind → Bytes → Bool
less_kn ka na kb nb = if not (ka == kb) then ltb ka kb else bytes_lt na nb

-- The lesser of two cursors, the first if they are equal; an exhausted cursor is `none`.
unfoldable pub least : Option TreeEntry → Option TreeEntry → Option TreeEntry
least none y = y
least (some x) none = some x
least (some x) (some y) = if less_kn y.kind y.name x.kind x.name then some y else some x

-- The entry under a cursor: the list is what the cursor has not passed.
unfoldable pub cursor : List TreeEntry → Option TreeEntry
cursor [] = none
cursor (e ∷ es) = some e

-- `minKey`: an entry with the least kind and name; its hash is not used.
unfoldable pub min_key : List TreeEntry → List TreeEntry → List TreeEntry → Option TreeEntry
unfolding least cursor
min_key bs os ts = least (least (cursor bs) (cursor os)) (cursor ts)

-- The hash under a cursor that stands at the key, zero if it does not, and the cursor behind it.
unfoldable pub advance : EntryKind → Bytes → List TreeEntry → Hash × List TreeEntry
advance kind name [] = (zero_hash, [])
advance kind name (e ∷ es) =
    if bytes_eq e.name name && (e.kind == kind) then (e.hash, es) else (zero_hash, e ∷ es)

abbrev pub load_or_empty : (Bytes → Hash) → Store → Hash → Result Tree
load_or_empty sha256 s h = if is_zero h then ok empty_tree else load_tree sha256 s h

-- The identical-tree fast paths of `mergeTreesAt`.
unfoldable pub same_trees : Hash → Hash → Hash → Option Hash
unfolding hash_eq
same_trees base ours theirs =
    if hash_eq ours theirs
    then some ours
    else if hash_eq base ours
    then some theirs
    else if hash_eq base theirs
    then some ours
    else none

-- The order of `sortConflicts`: by FQDN, then by type. The zero that ends the FQDN is below all
-- its bytes, which are moved up by one.
unfoldable pub conflict_key : Conflict → Bytes
unfolding path_fqdn
conflict_key c = map suc (path_fqdn c.path) ++ (0 ∷ c.rrtype)

unfoldable pub sort_conflicts : List Conflict → List Conflict
unfolding conflict_key
sort_conflicts cs = sort_on conflict_key cs

-- `out`, the conflicts so far, is a state beside the store.
abbrev pub Merging : Type 0
Merging = Store × List Conflict

unfoldable pub note_conflict : Labels → Bytes → Hash → Hash → Hash → Merging → Merging
note_conflict path name base ours theirs (s, out) = elim (resolve_leaf base ours theirs).1 [
  | none ↦ (s, out)
  | some reason ↦ (
    s,
    out
        ++ (record {
          path = path;
          rrtype = name;
          reason = reason;
          base = base;
          ours = ours;
          theirs = theirs;
        }
            ∷ []),
  )
]

-- `if !h.IsZero() { merged = append(merged, …) }`
unfoldable pub keep_entry : EntryKind → Bytes → Hash → List TreeEntry → List TreeEntry
keep_entry kind name h merged =
    if is_zero h then merged else (merged ++ (record { kind = kind; name = name; hash = h } ∷ []))

-- The recursive call of `mergeTreesAt`, as the loop over one node's entries sees it.
abbrev pub Descend : Type 0
Descend = Labels → Hash → Hash → Hash → Merging → Outcome Merging Hash

-- The rest of the loop of `mergeTreesAt`, from the cursors and what was merged.
abbrev pub Rest : Type 0
Rest =
    List TreeEntry
    → List TreeEntry
    → List TreeEntry
    → List TreeEntry
    → Merging
    → Outcome Merging (List TreeEntry)

-- One round of the loop at the least key: a leaf is resolved, a subtree is merged.
unfoldable pub merge_round :
    Descend
    → Labels
    → TreeEntry
    → Rest
    → List TreeEntry
    → List TreeEntry
    → List TreeEntry
    → List TreeEntry
    → Merging
    → Outcome Merging (List TreeEntry)
unfolding advance note_conflict keep_entry resolve_leaf
merge_round descend path k rest bs os ts merged st =
    let (bh, bs') = advance k.kind k.name bs in
    let (oh, os') = advance k.kind k.name os in
    let (th, ts') = advance k.kind k.name ts in
    if k.kind == entry_leaf
    then rest bs' os' ts' (keep_entry entry_leaf k.name (resolve_leaf bh oh th).0 merged)
        (note_conflict path k.name bh oh th st)
    else (descend (path ++ (k.name ∷ [])) bh oh th st
        then_do (λ mh. rest bs' os' ts' (keep_entry entry_subtree k.name mh merged)))

-- The loop of `mergeTreesAt` over the three cursors. Each round moves a cursor, so as many rounds
-- as entries are enough.
unfoldable pub merge_loop :
    Descend
    → Labels
    → ℕ
    → List TreeEntry
    → List TreeEntry
    → List TreeEntry
    → List TreeEntry
    → Merging
    → Outcome Merging (List TreeEntry)
unfolding min_key merge_round
merge_loop descend path zero bs os ts merged st = (ok merged, st)
merge_loop descend path (suc rounds) bs os ts merged st = elim (min_key bs os ts) [
  | none ↦ (ok merged, st)
  | some k ↦ merge_round descend path k (merge_loop descend path rounds) bs os ts merged st
]

-- The end of `mergeTreesAt`: no node is written for no entries.
unfoldable pub write_merged : (Bytes → Hash) → List TreeEntry → Merging → Outcome Merging Hash
write_merged sha256 merged (s, out) =
    if length merged == 0
    then (ok zero_hash, (s, out))
    else (let (r, s') = put_tree sha256 (record { entries = merged }) s in (r, (s', out)))

module _ (sha256 : Bytes → Hash) where
  unfoldable pub merge_nodes :
      Descend → Labels → Hash → Hash → Hash → Merging → Outcome Merging Hash
  unfolding merge_loop write_merged
  merge_nodes descend path base ours theirs st = with_do st (load_or_empty sha256 st.0 base) (λ bt.
      with_do st (load_or_empty sha256 st.0 ours) (λ ot.
        with_do st (load_or_empty sha256 st.0 theirs) (λ ht.
          merge_loop descend path (length bt.entries + length ot.entries + length ht.entries)
            bt.entries ot.entries ht.entries [] st
          then_do (write_merged sha256))))

  -- `mergeTreesAt`; the fuel bounds the depth.
  unfoldable pub merge_trees_at : ℕ → Descend
  unfolding merge_nodes same_trees
  merge_trees_at zero path base ours theirs st = elim (same_trees base ours theirs) [
    | some h ↦ (ok h, st)
    | none ↦ (err Error.out_of_fuel, st)
  ]
  merge_trees_at (suc n) path base ours theirs st =
      let slow = merge_nodes (merge_trees_at n) path base ours theirs st in
      elim (same_trees base ours theirs) [ some h ↦ (ok h, st) | none ↦ slow ]

  -- `MergeTrees`
  unfoldable pub merge_trees : ℕ → Hash → Hash → Hash → Store → Outcome Store (Hash × List Conflict)
  unfolding merge_trees_at sort_conflicts
  merge_trees fuel base ours theirs s =
      let (r, (s', out)) = merge_trees_at fuel [] base ours theirs (s, []) in
      (r >>= (λ merged. ok (merged, sort_conflicts out)), s')
