-- ===== src/Resolve/Ixfr/Enough.antt =====
-- The search for a serial ends by itself.
use zonegit.Base.{
  ℕ, zero, suc, ◌+◌, ◌-◌, ◌<◌, ◌≤◌, ◌≡◌, arith, List, [], ◌∷◌, ◌++◌, length, length-append, Bytes,
  ltb, if◌then◌else◌, Option-cases, Result, ok, err, ◌>>=◌, Bool-cases, inl, inr, lookup, Ends,
  Ends-then, Ends-if,
}
use zonegit.Store.Hash.{Hash, is_zero}
use zonegit.Store.MemStore.{Store, get_object}
use zonegit.Object.Commit.Fuel.{decode_commit-Ends}
use zonegit.Repo.{load_commit, member, enqueue}
use zonegit.Repo.Staging.{Repo}
use zonegit.Resolve.Ixfr.{max_commits, has_serial, soa_at, find_loop, find_commit_by_soa_serial}
use zonegit.Zone.{Dns, RRset}

get_object-Ends : (s : Store) (h : Hash) → Ends (get_object s h)
unfolding get_object
get_object-Ends s h = elim (Option-cases (lookup h s.objects)) [
  | inl e ↦ rw (get_object, e) tt
  | inr (o, e) ↦ rw (get_object, e) tt
]

load_commit-Ends : (s : Store) (h : Hash) → Ends (load_commit s h)
unfolding load_commit
load_commit-Ends s h =
    Ends-then (get_object s h) _ (get_object-Ends s h) (λ obj. decode_commit-Ends obj.payload)

-- What joins the queue is visited.
enqueue-lengths :
    (ps queue visited : List Hash)
    → (k : ℕ) × (length (enqueue ps queue visited).0 ≡ length queue + k)
      × (length (enqueue ps queue visited).1 ≡ length visited + k)
unfolding enqueue
enqueue-lengths [] queue visited = (0, omega arith, omega arith)
enqueue-lengths (p ∷ ps) queue visited = elim (Bool-cases (member p visited)) [
  | inl e ↦ rw e (enqueue-lengths ps queue visited)
  | inr e ↦
      let (k, q, v) = enqueue-lengths ps (queue ++ (p ∷ [])) (p ∷ visited) in
      rw e (suc k, omega (arith, q, length-append queue (p ∷ [])), omega (arith, v))
]

module _ (sha256 : Bytes → Hash) (dns : Dns) (rp : Repo) (serial : ℕ) where
  open dns use {RR}

  found_or :
      (h : Hash) (set : Result (RRset RR)) (next : Result (Hash × RRset RR))
      → Ends next
      → Ends (if has_serial sha256 dns serial set then (set >>= λ found. ok (h, found)) else next)
  unfolding has_serial
  found_or h (ok found) next e = Ends-if (has_serial sha256 dns serial (ok found)) _ _ tt e
  found_or h (err x) next e = e

  -- A commit is visited once, and the search stops at the bound.
  find_loop-Ends :
      (fuel : ℕ) (queue visited : List Hash)
      → (max_commits ≤ length visited → 1 ≤ fuel)
      → (length visited < max_commits → length queue + (max_commits - length visited) < fuel)
      → Ends (find_loop sha256 dns fuel rp serial queue visited)
  unfolding find_loop
  find_loop-Ends zero [] visited p q = tt
  find_loop-Ends (suc fuel) [] visited p q = tt
  find_loop-Ends zero (h ∷ queue) visited p q =
      elim (Bool-cases (ltb (length visited) max_commits)) [
        | inr full ↦ absurd (let none_left = p (ground (arith, full)) in omega (arith, none_left))
        | inl room ↦ absurd (let left = q (ground (arith, room)) in omega (arith, left))
      ]
  find_loop-Ends (suc fuel) (h ∷ queue) visited p q =
      elim (Bool-cases (ltb (length visited) max_commits)) [
        | inr full ↦ rw (find_loop, full) tt
        | inl room ↦
            let few : (length visited < max_commits) = ground (arith, room) in
            let left = q few in
            rw (find_loop, room)
              (Ends-if (is_zero h) _ _
                (find_loop-Ends fuel queue visited (λ _. omega (arith, left, few))
                  (λ _. omega (arith, left)))
                (found_or h (soa_at sha256 dns rp h) _ (
                  Ends-then (load_commit rp.storage h) _ (load_commit-Ends rp.storage h) (λ c.
                    let (k, more, seen) = enqueue-lengths c.parents queue visited in
                    find_loop-Ends fuel (enqueue c.parents queue visited).0
                      (enqueue c.parents queue visited).1 (λ _. omega (arith, left, few))
                      (λ fits. omega (arith, left, few, more, seen, fits))))))
      ]

  -- One round more than the bound is enough for the search to end by itself.
  pub find_commit_by_soa_serial-Ends :
      (fuel : ℕ) (head : Hash)
      → max_commits < fuel
      → Ends (find_commit_by_soa_serial sha256 dns fuel rp head serial)
  unfolding find_commit_by_soa_serial
  find_commit_by_soa_serial-Ends fuel head enough = Ends-if (is_zero head) _ _ tt (
      find_loop-Ends fuel (head ∷ []) (head ∷ []) (λ _. omega (arith, enough))
        (λ _. omega (arith, enough)))
