-- ===== src/Replicate.antt =====
-- pkg/replicate/protocol.go and server.go: the messages, the walks over a store's objects, and the
-- handlers of the primary. A Go map of hashes to Booleans is the list of the hashes it holds.
pub mod Client
pub mod Walked
pub mod Fuel
pub mod Marks
pub mod Complete
pub mod Healthy
pub mod Fetch
pub mod Answers
pub mod Pull
pub mod Progress
pub mod Landing
pub mod Converges
pub mod Typed
mod Tests
use zonegit.Base.{
  ℕ, zero, suc, ◌≡◌, Bool, true, false, not, ◌||◌, List, [], ◌∷◌, ◌++◌, map, Bytes, bytes_eq,
  if◌then◌else◌, Option, none, some, Result, ok, err, Error, ◌>>=◌, Outcome, ◌then_do◌, with_do,
  codes,
}
use zonegit.Store.Hash.{Hash, is_zero, string, parse_hash}
use zonegit.Store.MemStore.{Object, Store, get_object}
use zonegit.Object.{kind_commit, kind_tree}
use zonegit.Object.Commit.{decode_commit}
use zonegit.Object.Tree.Codec.{decode_tree}
use zonegit.Refs.{list_zones, list_branches, get_branch, trim_prefix}
use zonegit.Repo.{member}
use zonegit.Repo.Staging.{Repo}

abbrev pub base_path : Bytes
base_path = codes "/v0"

pub record Branch : Type 0 where
  pub zone : Bytes
  pub name : Bytes
  pub hash : Bytes

pub record RefsResponse : Type 0 where
  pub zones : List Bytes
  pub branches : List Branch

pub record WalkRequest : Type 0 where
  pub roots : List Bytes
  pub known : List Bytes

pub record WalkResponse : Type 0 where
  pub missing : List Bytes

-- What a handler writes: an HTTP error, or a body with status 200. A JSON body is the value that
-- it stands for, and an object's body comes with its kind.
pub data Reply (Body : Type 0) : Type 0 where
  failure : ℕ → Reply Body
  body : Body → Reply Body

unfoldable pub hexes_to_hashes : List Bytes → Result (List Hash)
hexes_to_hashes [] = ok []
hexes_to_hashes (s ∷ ss) = do h ← parse_hash s; hs ← hexes_to_hashes ss; ok (h ∷ hs)

-- The hashes that `walkChildren` passes to its callback, in order.
unfoldable pub children : Object → Result (List Hash)
children obj =
    if bytes_eq obj.kind kind_commit
    then (decode_commit obj.payload >>= λ c. ok (c.tree ∷ c.parents))
    else if bytes_eq obj.kind kind_tree
    then (decode_tree obj.payload >>= λ t. ok (map (λ e. e.hash) t.entries))
    else ok []

-- What a walk may change: the set of marks.
abbrev pub Walk : Type 0
Walk = List Hash → Outcome (List Hash) (Unit {0})

-- The callback on each hash, up to the first error.
unfoldable pub each : (Hash → Walk) → List Hash → Walk
each fn [] marks = (ok tt, marks)
each fn (h ∷ hs) marks = fn h marks then_do (λ _. each fn hs)

unfoldable pub walk_children : Object → (Hash → Walk) → Walk
unfolding children each
walk_children obj fn marks = with_do marks (children obj) (λ hs. each fn hs marks)

-- A walk that ends at an object that is not there is not an error.
unfoldable pub forgive_missing : Outcome (List Hash) (Unit {0}) → Outcome (List Hash) (Unit {0})
forgive_missing (ok _, marks) = (ok tt, marks)
forgive_missing (err Error.not_found, marks) = (ok tt, marks)
forgive_missing (err e, marks) = (err e, marks)

-- The status for an error of the walk from the roots, or the marks in full.
unfoldable pub reply_missing : Outcome (List Hash) (Unit {0}) → Reply WalkResponse
reply_missing (ok _, missing) = body (record { missing = map string missing })
reply_missing (err Error.not_found, missing) = failure 404
reply_missing (err e, missing) = failure 500

module _ (s : Store) where
  -- The fuel bounds the depth, here and below.
  unfoldable pub walk_reachable : ℕ → Hash → Walk
  unfolding walk_children
  walk_reachable zero h visited = (err Error.out_of_fuel, visited)
  walk_reachable (suc fuel) h visited = elim (is_zero h || member h visited) [
    | true ↦ (ok tt, visited)
    | false ↦
        with_do (h ∷ visited) (get_object s h)
          (λ obj. walk_children obj (walk_reachable fuel) (h ∷ visited))
  ]

  unfoldable pub walk_missing : ℕ → List Hash → Hash → Walk
  unfolding walk_children
  walk_missing zero known h missing = (err Error.out_of_fuel, missing)
  walk_missing (suc fuel) known h missing =
      elim (is_zero h || (member h known || member h missing)) [
        | true ↦ (ok tt, missing)
        | false ↦
            with_do (h ∷ missing) (get_object s h)
              (λ obj. walk_children obj (walk_missing fuel known) (h ∷ missing))
      ]

  -- The first loop of `handleWalk`.
  unfoldable pub expand_known : ℕ → List Hash → Walk
  unfolding walk_reachable forgive_missing
  expand_known fuel [] known_set = (ok tt, known_set)
  expand_known fuel (k ∷ ks) known_set =
      forgive_missing (walk_reachable fuel k known_set) then_do (λ _. expand_known fuel ks)

  -- The second loop, with the set of hashes that it collects.
  unfoldable pub collect_missing : ℕ → List Hash → List Hash → Walk
  unfolding walk_missing each
  collect_missing fuel roots known_set = each (walk_missing fuel known_set) roots

  unfoldable pub walk_from : ℕ → List Hash → Outcome (List Hash) (Unit {0}) → Reply WalkResponse
  unfolding collect_missing reply_missing
  walk_from fuel roots (err e, known_set) = failure 500
  walk_from fuel roots (ok _, known_set) = reply_missing (collect_missing fuel roots known_set [])

  -- Both loops.
  unfoldable pub answer_walk : ℕ → List Hash → List Hash → Reply WalkResponse
  unfolding expand_known walk_from
  answer_walk fuel roots known = walk_from fuel roots (expand_known fuel known [])

  -- The inner loop of `handleRefs`: a branch that cannot be read is left out.
  unfoldable pub branches_of : Bytes → List Bytes → List Branch
  branches_of zone [] = []
  branches_of zone (n ∷ ns) =
      let rest = branches_of zone ns in
      elim (get_branch s zone n) [
        | err _ ↦ rest
        | ok h ↦ record { zone = zone; name = n; hash = string h } ∷ rest
      ]

  unfoldable pub all_branches : List Bytes → List Branch
  unfolding branches_of list_branches
  all_branches [] = []
  all_branches (z ∷ zs) = branches_of z (list_branches s z) ++ all_branches zs

unfoldable pub reply_object : Result Object → Reply Object
reply_object (err Error.not_found) = failure 404
reply_object (err e) = failure 500
reply_object (ok obj) = body obj

-- `snapshot` is what `SnapshotFn` returns; a request carries its method.
module _ (snapshot : Result Repo) where
  abbrev with_snapshot : {A : Type 0} → (Store → Reply A) → Reply A
  with_snapshot f = elim snapshot [ err _ ↦ failure 500 | ok r ↦ f r.storage ]

  unfoldable pub handle_refs : Bytes → Reply RefsResponse
  unfolding all_branches list_zones
  handle_refs method =
      if not (bytes_eq method (codes "GET"))
      then failure 405
      else with_snapshot
          (λ s. body (record { zones = list_zones s; branches = all_branches s (list_zones s) }))

  -- No request stands for a body that is not the JSON of one.
  unfoldable pub handle_walk : ℕ → Bytes → Option WalkRequest → Reply WalkResponse
  unfolding hexes_to_hashes answer_walk
  handle_walk fuel method request =
      if not (bytes_eq method (codes "POST")) then failure 405 else elim request [
        | none ↦ failure 400
        | some req ↦ elim (hexes_to_hashes req.roots) [
          | err _ ↦ failure 400
          | ok roots ↦ elim (hexes_to_hashes req.known) [
            | err _ ↦ failure 400
            | ok known ↦ with_snapshot (λ s. answer_walk s fuel roots known)
          ]
        ]
      ]

  unfoldable pub handle_object : Bytes → Bytes → Reply Object
  unfolding reply_object
  handle_object method path =
      if not (bytes_eq method (codes "GET"))
      then failure 405
      else elim (parse_hash (trim_prefix path (base_path ++ codes "/objects/"))) [
        | err _ ↦ failure 400
        | ok h ↦ with_snapshot (λ s. reply_object (get_object s h))
      ]
