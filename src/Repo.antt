-- ===== src/Repo.antt =====
-- pkg/repo/merge.go: the search for common ancestors in the graph of commits. A Go map of hashes
-- to Booleans is the list of the hashes that it holds as true.
pub mod Ancestry
pub mod Staging
pub mod Committing
pub mod Integrate
pub mod Reads
pub mod Sample
mod Tests
use zonegit.Base.{
  ℕ, zero, suc, ◌≡◌, Bool, true, false, not, ◌||◌, List, [], ◌∷◌, ◌++◌, Bytes, bytes_eq,
  if◌then◌else◌, Result, ok, err, Error, ◌>>=◌,
}
use zonegit.Store.Hash.{Hash, zero_hash, is_zero}
use zonegit.Store.MemStore.{Store, get_object}
use zonegit.Object.Commit.{Commit, decode_commit}

unfoldable pub load_commit : Store → Hash → Result Commit
unfolding decode_commit
load_commit s h = get_object s h >>= λ obj. decode_commit obj.payload

unfoldable pub member : Hash → List Hash → Bool
member h [] = false
member h (g ∷ gs) = if bytes_eq g h then true else member h gs

-- The parents that are not in the set, which stays as it is.
unfoldable pub unseen : List Hash → List Hash → List Hash
unfolding member
unseen out [] = []
unseen out (p ∷ ps) = let rest = unseen out ps in if member p out then rest else (p ∷ rest)

-- The parents that were not visited go to the end of the queue, and are visited.
unfoldable pub enqueue : List Hash → List Hash → List Hash → List Hash × List Hash
unfolding member
enqueue [] queue visited = (queue, visited)
enqueue (p ∷ ps) queue visited =
    let skip = enqueue ps queue visited in
    let add = enqueue ps (queue ++ (p ∷ [])) (p ∷ visited) in if member p visited then skip else add

unfoldable pub first_or_zero : List Hash → Hash
first_or_zero [] = zero_hash
first_or_zero (h ∷ hs) = h

module _ (s : Store) where
  -- One round of the loop of `ancestorSet`.
  unfoldable pub ancestor_round : Hash → List Hash → List Hash → Result (List Hash × List Hash)
  unfolding load_commit unseen
  ancestor_round h queue out =
      if member h out
      then ok (queue, out)
      else (load_commit s h >>= λ c. ok (queue ++ unseen (h ∷ out) c.parents, h ∷ out))

  -- The fuel bounds the rounds, here and below.
  unfoldable pub ancestor_loop : ℕ → List Hash → List Hash → Result (List Hash)
  unfolding ancestor_round
  ancestor_loop fuel [] out = ok out
  ancestor_loop zero (h ∷ queue) out = err Error.out_of_fuel
  ancestor_loop (suc fuel) (h ∷ queue) out =
      ancestor_round h queue out >>= λ next. ancestor_loop fuel next.0 next.1

  unfoldable pub ancestor_set : ℕ → Hash → Result (List Hash)
  unfolding ancestor_loop
  ancestor_set fuel root = ancestor_loop fuel (root ∷ []) []

  -- The loops of `MergeBase` and `isAncestor`: the first hash from the queue that passes the test,
  -- none if the queue runs empty.
  unfoldable pub search : ℕ → (Hash → Bool) → List Hash → List Hash → Result (List Hash)
  unfolding load_commit enqueue
  search fuel found [] visited = ok []
  search zero found (h ∷ queue) visited = err Error.out_of_fuel
  search (suc fuel) found (h ∷ queue) visited =
      let rest = load_commit s h >>= λ c.
      let next = enqueue c.parents queue visited in search fuel found next.0 next.1 in
      if found h then ok (h ∷ []) else rest

  unfoldable pub merge_base : ℕ → Hash → Hash → Result Hash
  unfolding ancestor_set search first_or_zero
  merge_base fuel a b =
      if is_zero a || is_zero b
      then ok zero_hash
      else if bytes_eq a b
      then ok a
      else (ancestor_set fuel a >>= λ anc.
          search fuel (λ h. member h anc) (b ∷ []) (b ∷ []) >>= λ hs. ok (first_or_zero hs))

  unfoldable pub is_ancestor : ℕ → Hash → Hash → Result Bool
  unfolding search
  is_ancestor fuel anc desc =
      if is_zero anc || bytes_eq anc desc
      then ok true
      else if is_zero desc
      then ok false
      else (search fuel (λ h. bytes_eq h anc) (desc ∷ []) (desc ∷ []) >>= λ hs.
          ok (elim hs [ [] ↦ false | _ ∷ _ ↦ true ]))
