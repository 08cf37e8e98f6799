-- ===== src/Replicate/Typed.antt =====
-- Tests for a store whose objects name hashes only, and for a complete history.
use zonegit.Base.{
  ℕ, ◌≡◌, refl, arith, Bool, true, ◌&&◌, List, [], ◌∷◌, Bytes, IsByte, length, ltb, ◌==◌, All, some,
  Result, ok, err, lookup, Bool-cases, inl, inr, bytes_eq,
}
use mathlib.Core.Path.{subst}
use zonegit.Store.Hash.{Hash, IsHash, zero_hash, hash_size, is_zero_iff}
use zonegit.Store.MemStore.{Object, Store}
use zonegit.Repo.{member}
use zonegit.Replicate.{children, collect_missing}
use zonegit.Replicate.Walked.{AfterWalk, Covered, Expanded, collect_missing-Closed}
use zonegit.Replicate.Fuel.{stored_lookup}
use zonegit.Replicate.Complete.{Complete, TypedObjects, SameObjects-refl, received-Complete}
use zonegit.Replicate.Healthy.{zero_hash-Complete}

all_bytes : Bytes → Bool
all_bytes [] = true
all_bytes (b ∷ bs) = ltb b 256 && all_bytes bs

unfoldable pub typed_hashes : List Hash → Bool
unfolding all_bytes
typed_hashes [] = true
typed_hashes (h ∷ hs) = ((length h == hash_size) && all_bytes h) && typed_hashes hs

names_hashes : Result (List Hash) → Bool
names_hashes (ok hs) = typed_hashes hs
names_hashes (err e) = true

unfoldable pub typed_test : List (Hash × Object) → Bool
unfolding names_hashes children
typed_test [] = true
typed_test ((h, o) ∷ m) = names_hashes (children o) && typed_test m

all_bytes-IsByte : (bs : Bytes) → all_bytes bs ≡ true → All IsByte bs
unfolding all_bytes
all_bytes-IsByte [] e = tt
all_bytes-IsByte (b ∷ bs) e = (ground (arith, e), all_bytes-IsByte bs (ground (arith, e)))

typed_hashes-IsHash : (hs : List Hash) → typed_hashes hs ≡ true → All IsHash hs
unfolding typed_hashes
typed_hashes-IsHash [] e = tt
typed_hashes-IsHash (h ∷ hs) e = (
  (ground (arith, e), all_bytes-IsByte h (ground (arith, e))),
  typed_hashes-IsHash hs (ground (arith, e)),
)

typed_test-lookup :
    (m : List (Hash × Object)) (h : Hash) (o : Object)
    → typed_test m ≡ true
    → lookup h m ≡ some o
    → names_hashes (children o) ≡ true
unfolding typed_test lookup
typed_test-lookup [] h o e f = absurd cc
typed_test-lookup ((k, p) ∷ m) h o e f = elim (Bool-cases (bytes_eq k h)) [
  | inl same ↦
      let q : p ≡ o = ground (arith, same, f) in
      subst (λ x. names_hashes (children x) ≡ true) q (ground (arith, e))
  | inr apart ↦ typed_test-lookup m h o (ground (arith, e)) (ground (arith, apart, f))
]

pub TypedObjects-of_test : (s : Store) → typed_test s.objects ≡ true → TypedObjects s
unfolding names_hashes
TypedObjects-of_test s e h hs (o, stored, read) =
    let fine = typed_test-lookup s.objects h o e (stored_lookup s [] h stored) in
    typed_hashes-IsHash hs (rw read at fine)

-- A walk that succeeds with nothing known shows that the history is complete.
pub Complete-of_walk :
    (s : Store) (fuel : ℕ) (next : Hash) (marks : List Hash)
    → collect_missing s fuel (next ∷ []) [] [] ≡ (ok tt, marks)
    → Complete s next
Complete-of_walk s fuel next marks walked =
    let closed : All (Covered [] marks) (next ∷ [])
        × ((h : Hash) → member h marks ≡ true → Expanded s [] marks h) =
      subst
        (AfterWalk (λ w.
          All (Covered [] w) (next ∷ []) × ((h : Hash) → member h w ≡ true → Expanded s [] w h)))
        walked (collect_missing-Closed s [] fuel (next ∷ [])) in
    received-Complete s s s zero_hash next [] marks (SameObjects-refl s) (λ h o e. e)
      (λ h m. absurd (unfold member in cc m))
      (zero_hash-Complete s zero_hash ((is_zero_iff zero_hash).1 refl)) closed.0.0 closed.1
      (λ h m. let (hs, (o, stored, read), all) = closed.1 h m in (o, stored))
