-- ===== src/Repo/Committing.antt =====
-- pkg/repo/repo.go: staged edits become a commit. The clock is read by the caller: `now` for the
-- commit, `stamp` for the reflog.
pub mod Edits
pub mod Moves
pub mod Landed
pub mod Shows
mod Tests
use zonegit.Base.{
  ℕ, ◌≡◌, Bool, true, false, not, ◌&&◌, ◌||◌, List, [], ◌∷◌, map, length, Bytes, bytes_eq,
  if◌then◌else◌, ◌==◌, Result, ok, err, Error, Outcome, ◌>>=◌, ◌then_do◌, with_do, codes,
}
use zonegit.Store.Hash.{Hash, zero_hash, is_zero}
use zonegit.Store.MemStore.{Store, get_object, put_object}
use zonegit.Object.{encode_blob}
use zonegit.Object.Commit.{Commit, Identity, Time, decode_commit, encode_commit, identity_string}
use zonegit.Object.TreeOps.{Labels, walk_tree, update_tree}
use zonegit.Refs.{read_head, branch_ref, create_branch, update_branch, record_move}
use zonegit.History.{is_not_found}
use zonegit.Zone.{Dns, RRset, decode_rrset, encode_rrset, bump_soa_serial}
use zonegit.Repo.{load_commit}
use zonegit.Repo.Staging.{
  Repo, StagingKey, StagingValue, Staging, stage, sorted_keys, split_fqdn, on_store,
}

-- One call of `UpdateTree`: the blob hash for a path and a type, zero to delete.
pub record Edit : Type 0 where
  pub path : Labels
  pub rrtype : Bytes
  pub leaf : Hash

unfoldable pub staged_edit : StagingKey × StagingValue → Edit
unfolding split_fqdn
staged_edit (k, v) = record {
  path = split_fqdn k.fqdn;
  rrtype = k.rrtype;
  leaf = if v.tombstone then zero_hash else v.blob;
}

abbrev pub apex_soa : StagingKey
apex_soa = record { fqdn = []; rrtype = codes "SOA" }

-- Whether the staged edits hold one of the apex SOA.
unfoldable pub stages_soa : Staging → Bool
stages_soa [] = false
stages_soa ((k, v) ∷ m) = (bytes_eq k.rrtype (codes "SOA") && bytes_eq k.fqdn []) || stages_soa m

-- The tree of the parent commit, zero if there is no parent.
unfoldable pub parent_tree : Store → Hash → Result Hash
unfolding load_commit
parent_tree s parent =
    if is_zero parent then ok zero_hash else (load_commit s parent >>= λ c. ok c.tree)

unfoldable pub move_branch : Bytes → Bytes → Hash → Hash → Store → Outcome Store (Unit {0})
unfolding create_branch update_branch
move_branch zone branch old new s =
    if is_zero old then create_branch zone branch new s else update_branch zone branch old new s

unfoldable pub plain_commit : Hash → List Hash → Identity → Bytes → Time → Commit
plain_commit tree parents who msg now = record {
  tree = tree;
  parents = parents;
  author = who;
  committer = who;
  author_time = now;
  commit_time = now;
  selector = [];
  signature = [];
  message = msg;
}

-- The new payload of the SOA's blob.
unfoldable pub bumped_payload : Dns → Store → Hash → Result Bytes
unfolding decode_rrset bump_soa_serial encode_rrset
bumped_payload dns s blob = do
  obj ← get_object s blob
  soa ← decode_rrset dns obj.payload
  bumped ← bump_soa_serial dns soa
  encode_rrset dns bumped.rrs

module _ (sha256 : Bytes → Hash) where
  -- The loop of `Commit` over the staged edits.
  unfoldable pub apply_edits : List Edit → Hash → Store → Outcome Store Hash
  unfolding update_tree
  apply_edits [] root s = (ok root, s)
  apply_edits (e ∷ es) root s =
      update_tree sha256 root e.path e.rrtype e.leaf s then_do apply_edits es

  -- A commit is written, the branch is moved to it by `move`, and the move goes to the reflog.
  unfoldable pub land_commit :
      (Hash → Store → Outcome Store (Unit {0}))
      → Bytes
      → Hash
      → Bytes
      → ℕ
      → Commit
      → Store
      → Outcome Store Hash
  unfolding record_move encode_commit
  land_commit move ref old op stamp c s =
      let (h, obj) = encode_commit sha256 c in
      move h (put_object h obj s) then_do (λ _ s'.
        (ok h, record_move stamp ref old h (identity_string c.author) op c.message s'))

  module _ (dns : Dns) where
    unfoldable pub stage_bumped : Hash → Repo → Outcome Repo (Unit {0})
    unfolding bumped_payload stage
    stage_bumped blob r = with_do r (bumped_payload dns r.storage blob) (λ payload.
        let (h, obj) = encode_blob sha256 payload in
        (
          ok tt,
          record r {
            storage = put_object h obj r.storage;
            staging = stage apex_soa (record { tombstone = false; blob = h }) r.staging;
          },
        ))

    unfoldable pub maybe_bump_soa : Hash → Repo → Outcome Repo (Unit {0})
    unfolding stages_soa stage_bumped is_not_found
    maybe_bump_soa tree r =
        if is_zero tree || stages_soa r.staging || (length r.staging == 0)
        then (ok tt, r)
        else elim (walk_tree sha256 r.storage tree [] (codes "SOA")) [
          | err e ↦ if is_not_found e then (ok tt, r) else (err e, r)
          | ok blob ↦ stage_bumped blob r
        ]

    -- `Commit` behind the read of HEAD and of the parent's tree.
    unfoldable pub commit_on :
        Identity → Bytes → Time → ℕ → Bytes → Bytes → Hash → Hash → Repo → Outcome Repo Hash
    unfolding maybe_bump_soa apply_edits staged_edit land_commit move_branch plain_commit
    commit_on who msg now stamp zone branch parent tree r =
        let parents = if is_zero parent then [] else (parent ∷ []) in
        maybe_bump_soa tree r
        then_do (λ _ r'. on_store (apply_edits (map staged_edit (sorted_keys r'.staging)) tree) r')
        then_do (λ tree'. on_store (
            land_commit (move_branch zone branch parent) (branch_ref zone branch) parent
              (codes "commit") stamp (plain_commit tree' parents who msg now)))
        then_do (λ h r'. (ok h, record r' { staging = [] }))

    unfoldable pub commit : Identity → Bytes → Time → ℕ → Repo → Outcome Repo Hash
    unfolding commit_on parent_tree
    commit who msg now stamp r =
        if length r.staging == 0
        then (err Error.failed, r)
        else with_do r (read_head r.storage) (λ head.
          with_do r (parent_tree r.storage head.2)
            (λ tree. commit_on who msg now stamp head.0 head.1 head.2 tree r))
