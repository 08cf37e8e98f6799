-- ===== src/Repo/Integrate.antt =====
-- pkg/repo/merge.go: merge, revert and reset of the current branch. `commits` bounds the commits
-- that a search visits, and `depth` the height of a zone tree.
pub mod Moves
pub mod Merged
pub mod ThreeWay
mod Tests
use zonegit.Base.{
  ℕ, ◌≡◌, Bool, true, false, not, ◌&&◌, ◌||◌, List, [], ◌∷◌, ◌++◌, map, length, Bytes, bytes_eq,
  if◌then◌else◌, ◌==◌, Option, none, some, Result, ok, err, Error, Outcome, ◌>>=◌, ◌>>◌, ◌then_do◌,
  with_do, codes, cut_first,
}
use zonegit.Store.Hash.{Hash, zero_hash, is_zero, string}
use zonegit.Store.MemStore.{Store, get_object}
use zonegit.Object.Commit.{Commit, Identity, Time, identity_string, decode_commit}
use zonegit.Merge.{Conflict, merge_trees}
use zonegit.History.Diff.{Change, ChangeOp, diff}
use zonegit.Refs.{
  read_head, branch_ref, branch_prefix, trim_prefix, create_branch, update_branch, get_branch,
  record_move,
}
use zonegit.Refs.Resolve.{resolve}
use zonegit.Repo.{load_commit, merge_base, is_ancestor}
use zonegit.Repo.Staging.{Repo, on_store}
use zonegit.Repo.Committing.{Edit, apply_edits, land_commit, plain_commit, move_branch}

pub record MergeResult : Type 0 where
  pub fast_forward : Bool
  pub already_up_to_date : Bool
  pub commit : Hash
  pub conflicts : List Conflict

abbrev pub up_to_date : MergeResult
up_to_date = record {
  fast_forward = false;
  already_up_to_date = true;
  commit = zero_hash;
  conflicts = [];
}

abbrev pub forwarded : Hash → MergeResult
forwarded h = record { fast_forward = true; already_up_to_date = false; commit = h; conflicts = [] }

abbrev pub conflicting : List Conflict → MergeResult
conflicting cs = record {
  fast_forward = false;
  already_up_to_date = false;
  commit = zero_hash;
  conflicts = cs;
}

abbrev pub merged_at : Hash → MergeResult
merged_at h = record {
  fast_forward = false;
  already_up_to_date = false;
  commit = h;
  conflicts = [];
}

-- `TreeOf`: zero for a commit that cannot be read.
unfoldable pub tree_of : Store → Hash → Hash
unfolding load_commit
tree_of s h =
    if is_zero h then zero_hash else elim (load_commit s h) [ ok c ↦ c.tree | err _ ↦ zero_hash ]

unfoldable pub merge_message : Bytes → Bytes → Bytes → Bytes
merge_message theirs_name branch msg =
    if length msg == 0
    then codes "Merge branch '" ++ (theirs_name ++ (codes "' into " ++ branch))
    else msg

-- What a revert puts at the place of a change.
unfoldable pub inverse_leaf : Change → Hash
inverse_leaf c = elim c.op [
  | ChangeOp.op_added ↦ zero_hash
  | ChangeOp.op_removed ↦ c.old_blob
  | ChangeOp.op_modified ↦ c.old_blob
]

unfoldable pub inverse_edit : Change → Edit
unfolding inverse_leaf
inverse_edit c = record { path = c.path; rrtype = c.rrtype; leaf = inverse_leaf c }

unfoldable pub first_line : Bytes → Bytes
first_line msg = elim (cut_first 10 msg) [ none ↦ msg | some (line, _) ↦ line ]

unfoldable pub revert_message : Bytes → Hash → Bytes → Bytes
unfolding first_line
revert_message theirs target msg =
    if length msg == 0
    then codes "Revert \""
      ++ (first_line theirs
          ++ (codes "\""
              ++ (10 ∷ 10 ∷ (codes "This reverts commit " ++ (string target ++ codes ".")))))
    else msg

-- The tree of the first parent, zero for a root commit.
unfoldable pub first_parent_tree : Store → List Hash → Result Hash
unfolding load_commit
first_parent_tree s [] = ok zero_hash
first_parent_tree s (p ∷ ps) = load_commit s p >>= λ c. ok c.tree

-- A fast-forward: the branch is moved by `move`, and the move goes to the reflog.
unfoldable pub forward :
    (Store → Outcome Store (Unit {0}))
    → Bytes
    → Hash
    → Hash
    → Bytes
    → Bytes
    → ℕ
    → Store
    → Outcome Store MergeResult
unfolding record_move
forward move ref ours theirs who theirs_name stamp s = move s then_do (λ _ s'. (
  ok (forwarded theirs),
  record_move stamp ref ours theirs who (codes "merge") (codes "fast-forward " ++ theirs_name) s',
))

-- `ResetHard`
unfoldable pub reset_hard : Bytes → Bytes → ℕ → Repo → Outcome Repo Hash
unfolding resolve move_branch record_move
reset_hard refish who stamp r = with_do r (resolve r.storage refish) (λ target.
    with_do r (read_head r.storage) (λ (zone, branch, head).
      if bytes_eq head target
      then (ok target, record r { staging = [] })
      else (on_store (move_branch zone branch head target) r then_do (λ _ r'. (
        ok target,
        record r' {
          staging = [];
          storage =
              record_move stamp (branch_ref zone branch) head target who (codes "reset")
                (codes "reset --hard " ++ refish) r'.storage;
        },
      )))))

module _ (sha256 : Bytes → Hash) where
  -- The three-way case of `Merge`: with conflicts, nothing is committed.
  unfoldable pub merge_three_way :
      ℕ
      → Bytes
      → Bytes
      → Hash
      → Bytes
      → Hash
      → Identity
      → Bytes
      → Time
      → ℕ
      → Hash
      → Store
      → Outcome Store MergeResult
  unfolding tree_of merge_trees merge_message land_commit plain_commit
  merge_three_way depth zone branch ours theirs_name theirs who msg now stamp base s =
      merge_trees sha256 depth (tree_of s base) (tree_of s ours) (tree_of s theirs) s
      then_do (λ (tree, conflicts) s'.
          if not (length conflicts == 0)
          then (ok (conflicting conflicts), s')
          else (land_commit sha256 (update_branch zone branch ours) (branch_ref zone branch) ours
                (codes "merge") stamp
                (plain_commit tree (ours ∷ theirs ∷ []) who (merge_message theirs_name branch msg)
                  now)
                s'
              then_do (λ h s''. (ok (merged_at h), s''))))

  -- `Merge` when our branch has a commit.
  unfoldable pub merge_onto :
      ℕ
      → ℕ
      → Bytes
      → Bytes
      → Hash
      → Bytes
      → Hash
      → Identity
      → Bytes
      → Time
      → ℕ
      → Store
      → Outcome Store MergeResult
  unfolding is_ancestor merge_base forward merge_three_way
  merge_onto commits depth zone branch ours theirs_name theirs who msg now stamp s =
      with_do s (is_ancestor s commits theirs ours) (λ behind.
        if behind
        then (ok up_to_date, s)
        else with_do s (is_ancestor s commits ours theirs) (λ ahead.
          if ahead
          then forward (update_branch zone branch ours theirs) (branch_ref zone branch) ours theirs
              (identity_string who) theirs_name stamp s
          else with_do s (merge_base s commits ours theirs) (λ base.
            merge_three_way depth zone branch ours theirs_name theirs who msg now stamp base s)))

  -- `Merge` behind its checks.
  unfoldable pub merge_into :
      ℕ
      → ℕ
      → Bytes
      → Bytes
      → Hash
      → Bytes
      → Hash
      → Identity
      → Bytes
      → Time
      → ℕ
      → Store
      → Outcome Store MergeResult
  unfolding merge_onto
  merge_into commits depth zone branch ours theirs_name theirs who msg now stamp s =
      if is_zero ours
      then forward (create_branch zone branch theirs) (branch_ref zone branch) ours theirs
          (identity_string who) theirs_name stamp s
      else merge_onto commits depth zone branch ours theirs_name theirs who msg now stamp s

  unfoldable pub merge :
      ℕ → ℕ → Bytes → Identity → Bytes → Time → ℕ → Repo → Outcome Repo MergeResult
  unfolding merge_into
  merge commits depth theirs_branch who msg now stamp r =
      let theirs_name = trim_prefix theirs_branch branch_prefix in
      if not (length r.staging == 0)
      then (err Error.failed, r)
      else with_do r (read_head r.storage) (λ (zone, branch, ours).
        if bytes_eq theirs_name branch
        then (err Error.failed, r)
        else with_do r (get_branch r.storage zone theirs_name) (λ theirs.
          on_store (merge_into commits depth zone branch ours theirs_name theirs who msg now stamp)
            r))

  -- `Revert` behind its reads: `tree` is HEAD's.
  unfoldable pub revert_on :
      Bytes
      → Bytes
      → Hash
      → Hash
      → List Change
      → Identity
      → Bytes
      → Time
      → ℕ
      → Store
      → Outcome Store Hash
  unfolding apply_edits inverse_edit land_commit plain_commit
  revert_on zone branch head tree changes who msg now stamp s =
      apply_edits sha256 (map inverse_edit changes) tree s then_do (λ tree' s'.
        if bytes_eq tree' tree
        then (err Error.failed, s')
        else land_commit sha256 (update_branch zone branch head) (branch_ref zone branch) head
            (codes "revert") stamp (plain_commit tree' (head ∷ []) who msg now) s')

  -- The target and its commit, what it changed, and HEAD with its tree.
  unfoldable pub revert_reads :
      ℕ → Bytes → Store → Result (Hash × Commit × Bytes × Bytes × Hash × Hash × List Change)
  unfolding resolve first_parent_tree diff
  revert_reads depth refish s = do
    target ← resolve s refish
    tc ← load_commit s target
    parent ← first_parent_tree s tc.parents
    (zone, branch, head) ← read_head s
    if is_zero head then err Error.failed else ok tt
    hc ← load_commit s head
    changes ← diff sha256 s depth parent tc.tree
    if length changes == 0 then err Error.failed else ok tt
    ok (target, tc, zone, branch, head, hc.tree, changes)

  unfoldable pub revert : ℕ → Bytes → Identity → Bytes → Time → ℕ → Repo → Outcome Repo Hash
  unfolding revert_reads revert_on revert_message
  revert depth refish who msg now stamp r =
      if not (length r.staging == 0)
      then (err Error.failed, r)
      else with_do r (revert_reads depth refish r.storage)
          (λ (target, tc, zone, branch, head, tree, changes).
            on_store
              (revert_on zone branch head tree changes who (revert_message tc.message target msg)
                now stamp)
              r)
