-- ===== src/Replicate/Tests.antt =====
-- Replication at a concrete input: a repository with one commit, and an empty secondary.
use zonegit.Base.{
  ◌≡◌, refl, arith, [], ◌∷◌, ◌++◌, codes, ok, err_not_ok, err, Error, Bytes, bytes_eq, inl, inr,
  Bool-cases, if◌then◌else◌,
}
use zonegit.Store.Hash.{Hash, string}
use zonegit.Store.MemStore.{get_object}
use zonegit.Refs.{get_branch, branch_ref}
use zonegit.Refs.Swaps.{held}
use zonegit.Repo.Sample.{repo_program, committed, empty_repo}
use zonegit.Replicate.{
  Branch, body, base_path, hexes_to_hashes, children, each, walk_children, walk_reachable,
  walk_missing, forgive_missing, reply_missing, expand_known, collect_missing, walk_from,
  answer_walk, branches_of, all_branches, handle_refs, handle_walk, reply_object, handle_object,
}
use zonegit.Replicate.Client.{
  Primary, primary_of, status_ok, get_refs, ask_missing, fetch_object, fetch_one, fetch_all,
  known_roots, land_branch, pull_branch, local_hash, sync_branch, sync_all, add_zones, pull,
}
use zonegit.Replicate.Typed.{typed_test, TypedObjects-of_test, typed_hashes, Complete-of_walk}
use zonegit.Replicate.Complete.{TypedObjects, Complete}
use zonegit.Replicate.Healthy.{Healthy}
use zonegit.Replicate.Fuel.{unmarked}
use zonegit.Replicate.Converges.{sync_branch_converges}
use zonegit.Replicate.Fetch.{Serves}
use zonegit.Replicate.Pull.{pull-Healthy}

unfoldable replication : Unit {0}
unfolding repo_program hexes_to_hashes children each walk_children walk_reachable walk_missing
    forgive_missing reply_missing expand_known collect_missing walk_from answer_walk branches_of
    all_branches handle_refs handle_walk reply_object handle_object primary_of status_ok get_refs
    ask_missing fetch_object fetch_one fetch_all known_roots land_branch pull_branch local_hash
    sync_branch sync_all add_zones pull typed_test typed_hashes unmarked
replication = tt

-- The commit of the branch, and the branch as the primary lists it.
abbrev tip : Hash
tip = held (branch_ref (codes "foo.com.") (codes "main")) committed.storage.refs

abbrev main_branch : Branch
main_branch = record { zone = codes "foo.com."; name = codes "main"; hash = string tip }

-- After one pull the secondary has the branch.
pulled :
    get_branch
      (pull (primary_of 10 committed) empty_repo).1.storage
      (codes "foo.com.")
      (codes "main")
    ≡ ok tip
unfolding replication
pulled = refl

-- A client has no test of what it receives: another object's bytes are stored under the hash.
unchecked :
    get_object
      (fetch_one
        (record {
          refs = err Error.failed;
          walk = λ _. err Error.failed;
          object = λ _. ok (body (record { kind = codes "blob"; payload = [] }));
        })
        (string tip)
        empty_repo.storage).1
      tip
    ≡ ok (record { kind = codes "blob"; payload = [] })
unfolding replication
unchecked = refl

committed-TypedObjects : TypedObjects committed.storage
committed-TypedObjects = TypedObjects-of_test committed.storage (unfold replication in refl)

empty-Healthy : Healthy committed.storage empty_repo.storage
unfolding replication
empty-Healthy = record {
  same = λ h o o' e e'. absurd (err_not_ok e');
  branches = λ zone name d e. absurd (err_not_ok e);
}

-- A line that loses the request for the object under the branch.
abbrev tip_path : Bytes
tip_path = base_path ++ (codes "/objects/" ++ string tip)

abbrev lossy : Primary
lossy = record (primary_of 10 committed) {
  object = λ path.
      if bytes_eq path tip_path then err Error.failed else (primary_of 10 committed).object path;
}

lossy-Serves : Serves 10 committed lossy
unfolding status_ok
lossy-Serves = record {
  walk = λ req. inr refl;
  object = λ path. elim (Bool-cases (bytes_eq path tip_path)) [
    | inl e ↦ inl (Error.failed, rw e refl)
    | inr e ↦ inr (rw e refl)
  ];
}

-- Then the branch does not move.
lost :
    get_branch (pull lossy empty_repo).1.storage (codes "foo.com.") (codes "main")
    ≡ err Error.not_found
unfolding replication
lost = refl

pull-Healthy_example : Healthy committed.storage (pull lossy empty_repo).1.storage
pull-Healthy_example =
    pull-Healthy 10 committed empty_repo lossy committed-TypedObjects lossy-Serves empty-Healthy

tip-Complete : Complete committed.storage tip
tip-Complete =
    Complete-of_walk committed.storage 10 tip
      (collect_missing committed.storage 10 (tip ∷ []) [] []).1 (unfold replication in refl)

sync_branch_converges_example :
    get_branch
      (sync_branch (primary_of 10 committed) main_branch empty_repo.storage)
      (codes "foo.com.")
      (codes "main")
    ≡ ok tip
sync_branch_converges_example =
    sync_branch_converges 10 committed main_branch tip empty_repo.storage committed-TypedObjects
      (unfold replication in omega arith) empty-Healthy (unfold replication in refl)
      (unfold replication in refl) tip-Complete
