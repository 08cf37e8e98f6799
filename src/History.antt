-- ===== src/History.antt =====
-- pkg/history/log.go and blame.go: walks along the chain of first parents. The fuel bounds the
-- commits of the chain.
pub mod Diff
use zonegit.Base.{
  ℕ, zero, suc, ◌≡◌, Bool, true, false, not, ◌&&◌, ◌||◌, List, [], ◌∷◌, ◌++◌, length, Bytes,
  bytes_eq, ltb, leb, if◌then◌else◌, Option, none, some, Result, ok, err, Error, ◌>>=◌, ℤ, pos,
  negsuc,
}
use zonegit.Store.Hash.{Hash, zero_hash, is_zero}
use zonegit.Store.MemStore.{Store, Object, get_object}
use zonegit.Object.{kind_commit}
use zonegit.Object.Commit.{Commit, Identity, decode_commit, no_identity}
use zonegit.Object.TreeOps.{Labels, walk_tree}

-- `Entry`
pub record LogEntry : Type 0 where
  pub hash : Hash
  pub commit : Commit

unfoldable first_parent : List Hash → Option Hash
first_parent [] = none
first_parent (p ∷ ps) = some p

unfoldable int_leb : ℤ → ℤ → Bool
int_leb (pos a) (pos b) = leb a b
int_leb (pos a) (negsuc b) = false
int_leb (negsuc a) (pos b) = true
int_leb (negsuc a) (negsuc b) = leb b a

unfoldable log_commit : Object → Result Commit
log_commit obj =
    if bytes_eq obj.kind kind_commit then decode_commit obj.payload else err Error.failed

module _ (s : Store) where
  -- The loop of `Log`; `max` is zero for "no limit", as for the numbers below zero of the source.
  unfoldable log_loop : ℕ → ℕ → Hash → List LogEntry → Result (List LogEntry)
  unfolding log_commit first_parent
  log_loop zero max cur out = if is_zero cur then ok out else err Error.out_of_fuel
  log_loop (suc fuel) max cur out =
      let visit = get_object s cur >>= λ obj. log_commit obj >>= λ c.
      let out' = out ++ (record { hash = cur; commit = c } ∷ []) in
      elim (first_parent c.parents) [ none ↦ ok out' | some p ↦ log_loop fuel max p out' ] in
      if is_zero cur || (ltb 0 max && leb max (length out)) then ok out else visit

  unfoldable pub log : ℕ → Hash → ℕ → Result (List LogEntry)
  unfolding log_loop
  log fuel head max = log_loop fuel max head []

  -- `WalkAt`: the first commit of the chain at or before the Unix time.
  unfoldable walk_at : ℕ → Hash → ℤ → Result (Hash × Commit)
  unfolding first_parent int_leb
  walk_at zero cur t = if is_zero cur then err Error.not_found else err Error.out_of_fuel
  walk_at (suc fuel) cur t =
      let visit = get_object s cur >>= λ obj. decode_commit obj.payload >>= λ c.
      let older : Result (Hash × Commit) = elim (first_parent c.parents) [
        | none ↦ err Error.not_found
        | some p ↦ walk_at fuel p t
      ] in
      if int_leb c.commit_time.unix t then ok (cur, c) else older in
      if is_zero cur then err Error.not_found else visit

pub record BlameInfo : Type 0 where
  pub commit : Hash
  pub author : Identity
  pub message : Bytes
  pub blob : Hash
  pub found : Bool

abbrev not_blamed : BlameInfo
not_blamed = record {
  commit = zero_hash;
  author = no_identity;
  message = [];
  blob = zero_hash;
  found = false;
}

unfoldable pub is_not_found : Error → Bool
is_not_found Error.not_found = true
is_not_found _ = false

module _ (sha256 : Bytes → Hash) (s : Store) (path : Labels) (rrtype : Bytes) where
  unfoldable lookup_blob_in_tree : Hash → Result Hash
  lookup_blob_in_tree tree =
      if is_zero tree then err Error.not_found else walk_tree sha256 s tree path rrtype

  unfoldable lookup_blob : Hash → Result Hash
  unfolding lookup_blob_in_tree
  lookup_blob commit =
      get_object s commit >>= λ obj. decode_commit obj.payload >>= λ c. lookup_blob_in_tree c.tree

  -- Whether a commit still has the blob; "not found" is an answer, other errors are not.
  unfoldable still_has : Hash → Commit → Result Bool
  unfolding lookup_blob_in_tree is_not_found
  still_has blob c = elim (lookup_blob_in_tree c.tree) [
    | ok h ↦ ok (bytes_eq h blob)
    | err e ↦ if is_not_found e then ok false else err e
  ]

  -- The loop of `Blame`; `introducing` is the last commit seen that has the blob.
  unfoldable blame_loop : ℕ → Hash → Hash → Option (Hash × Commit) → Result (Option (Hash × Commit))
  unfolding still_has first_parent
  blame_loop zero blob cur introducing =
      if is_zero cur then ok introducing else err Error.out_of_fuel
  blame_loop (suc fuel) blob cur introducing =
      let visit = get_object s cur >>= λ obj. decode_commit obj.payload >>= λ c.
      still_has blob c >>= λ has.
      let on : Result (Option (Hash × Commit)) = elim (first_parent c.parents) [
        | none ↦ ok (some (cur, c))
        | some p ↦ blame_loop fuel blob p (some (cur, c))
      ] in
      if has then on else ok introducing in
      if is_zero cur then ok introducing else visit

  unfoldable blame_head : ℕ → Hash → Hash → Result BlameInfo
  unfolding blame_loop
  blame_head fuel head blob = blame_loop fuel blob head none >>= λ introducing. elim introducing [
    | none ↦ err Error.failed
    | some (h, c) ↦
        ok
          (record { commit = h; author = c.author; message = c.message; blob = blob; found = true })
  ]

  unfoldable pub blame : ℕ → Hash → Result BlameInfo
  unfolding lookup_blob blame_head is_not_found
  blame fuel head = if is_zero head then err Error.failed else elim (lookup_blob head) [
    | err e ↦ if is_not_found e then ok not_blamed else err e
    | ok blob ↦ blame_head fuel head blob
  ]
