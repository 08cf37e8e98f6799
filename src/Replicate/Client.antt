-- ===== src/Replicate/Client.antt =====
-- pkg/replicate/client.go: one pull by a secondary. The primary is what its HTTP endpoints answer.
use zonegit.Base.{
  ℕ, not, List, [], ◌∷◌, ◌++◌, Bytes, bytes_eq, if◌then◌else◌, some, Result, ok, err, Error, ◌>>=◌,
  Outcome, ◌then_do◌, with_do, codes,
}
use zonegit.Store.Hash.{Hash, zero_hash, is_zero, string, parse_hash}
use zonegit.Store.MemStore.{Object, Store, has_object, put_object}
use zonegit.Refs.{get_branch, create_branch, update_branch}
use zonegit.Repo.Staging.{Repo, add_zone, on_store}
use zonegit.Replicate.{
  Branch, RefsResponse, WalkRequest, WalkResponse, Reply, failure, body, base_path, handle_refs,
  handle_walk, handle_object,
}

-- An error is a request that failed on the way, or a body that cannot be decoded. The argument of
-- `object` is the path of the request.
pub record Primary : Type 0 where
  pub refs : Result (Reply RefsResponse)
  pub walk : WalkRequest → Result (Reply WalkResponse)
  pub object : Bytes → Result (Reply Object)

-- A primary that serves one repository while the pull runs.
unfoldable pub primary_of : ℕ → Repo → Primary
unfolding handle_refs handle_walk handle_object
primary_of fuel r = record {
  refs = ok (handle_refs (ok r) (codes "GET"));
  walk = λ req. ok (handle_walk (ok r) fuel (codes "POST") (some req));
  object = λ path. ok (handle_object (ok r) (codes "GET") path);
}

-- The check of the status that ends every request.
unfoldable pub status_ok : {Body : Type 0} → Reply Body → Result Body
status_ok (failure _) = err Error.failed
status_ok (body b) = ok b

unfoldable pub known_roots : Hash → List Bytes
known_roots local = if not (is_zero local) then (string local ∷ []) else []

-- The end of `pullBranch`.
unfoldable pub land_branch : Branch → Hash → Hash → Store → Outcome Store (Unit {0})
unfolding create_branch update_branch
land_branch b next local s =
    if is_zero local
    then create_branch b.zone b.name next s
    else update_branch b.zone b.name local next s

-- `localHash, _ :=`: the zero hash if the branch cannot be read.
unfoldable pub local_hash : Branch → Store → Hash
local_hash b s = elim (get_branch s b.zone b.name) [ err _ ↦ zero_hash | ok h ↦ h ]

unfoldable pub add_zones : List Bytes → Repo → Outcome Repo (Unit {0})
unfolding add_zone
add_zones [] r = (ok tt, r)
add_zones (z ∷ zs) r = add_zone z r then_do (λ _. add_zones zs)

-- `Client.Local` of the source is the state. An entry of the log is not kept.
module _ (primary : Primary) where
  unfoldable pub get_refs : Result RefsResponse
  unfolding status_ok
  get_refs = primary.refs >>= status_ok

  unfoldable pub ask_missing : List Bytes → List Bytes → Result WalkResponse
  unfolding status_ok
  ask_missing roots known = primary.walk (record { roots = roots; known = known }) >>= status_ok

  unfoldable pub fetch_object : Bytes → Result Object
  unfolding status_ok
  fetch_object hex = primary.object (base_path ++ (codes "/objects/" ++ hex)) >>= status_ok

  -- One round of the loop of `pullBranch`.
  unfoldable pub fetch_one : Bytes → Store → Outcome Store (Unit {0})
  unfolding fetch_object
  fetch_one hex s = with_do s (parse_hash hex) (λ h.
      if has_object s h
      then (ok tt, s)
      else with_do s (fetch_object hex) (λ obj. (ok tt, put_object h obj s)))

  unfoldable pub fetch_all : List Bytes → Store → Outcome Store (Unit {0})
  unfolding fetch_one
  fetch_all [] s = (ok tt, s)
  fetch_all (hex ∷ hexes) s = fetch_one hex s then_do (λ _. fetch_all hexes)

  unfoldable pub pull_branch : Branch → Hash → Hash → Store → Outcome Store (Unit {0})
  unfolding ask_missing fetch_all known_roots land_branch
  pull_branch b next local s =
      with_do s (ask_missing (b.hash ∷ []) (known_roots local))
        (λ walk. fetch_all walk.missing s then_do (λ _. land_branch b next local))

  -- One round of the second loop of `Pull`: an error is logged, and the next branch is tried.
  unfoldable pub sync_branch : Branch → Store → Store
  unfolding local_hash pull_branch
  sync_branch b s = elim (parse_hash b.hash) [
    | err _ ↦ s
    | ok next ↦
        let local = local_hash b s in
        if bytes_eq local next then s else (pull_branch b next local s).1
  ]

  unfoldable pub sync_all : List Branch → Store → Store
  unfolding sync_branch
  sync_all [] s = s
  sync_all (b ∷ bs) s = sync_all bs (sync_branch b s)

  unfoldable pub pull : Repo → Outcome Repo (Unit {0})
  unfolding get_refs add_zones sync_all
  pull r = with_do r get_refs (λ remote.
      add_zones remote.zones r then_do (λ _. on_store (λ s. (ok tt, sync_all remote.branches s))))

-- `Client.Run` until it is stopped: a pull at once and one at each tick, each from the primary as it
-- is then. An error is logged.
unfoldable pub run : List Primary → Repo → Repo
unfolding pull
run [] r = r
run (p ∷ ps) r = run ps (pull p r).1
