-- ===== src/Route/Rollout.antt =====
-- A rollout moves clients to the canary branch, and none back.
use zonegit.Base.{
  ℕ, ◌≤◌, ◌≡◌, refl, arith, true, false, Bytes, ◌==◌, if◌then◌else◌, Option, Option-cases,
  Bool-cases, inl, inr, ℤ, pos, negsuc, Result, ok, err_not_ok, ok_injective, cut_last, length,
  ◌||◌, codes, bind_ok,
}
use mathlib.Core.Path.{subst}
use zonegit.Route.{BucketRouter, in_percent, new_bucket_router, bucket, route_pct, route}
use zonegit.Resolve.{QueryContext}

module _ (parse_ip : Bytes → Option Bytes) where
  -- A client that is served the canary branch is served it at every higher percentage; at no percent
  -- none is, and at a hundred all are.
  pub route_rollout :
      (b : BucketRouter) (q : QueryContext) (m n : ℕ)
      → m ≤ n
      → (route parse_ip (record b { pct = pos m }) q ≡ b.canary_branch
          → route parse_ip (record b { pct = pos n }) q ≡ b.canary_branch)
        × (route parse_ip (record b { pct = pos 0 }) q ≡ b.default_branch)
        × (route parse_ip (record b { pct = pos 100 }) q ≡ b.canary_branch)
  unfolding route route_pct bucket
  route_rollout b q m n h = (λ e. ground (arith, e, h), ground arith, ground arith)

-- What holds of a router that `new_bucket_router` makes.
abbrev pub InBounds : BucketRouter → Type 0
InBounds b =
    ((n : ℕ) × (b.pct ≡ pos n) × (n ≤ 100))
    × (length b.canary_branch == 0 ≡ false)
    × (length b.salt == 0 ≡ false)

in_percent-le : (pct : ℤ) → in_percent pct ≡ true → (n : ℕ) × (pct ≡ pos n) × (n ≤ 100)
unfolding in_percent
in_percent-le (pos n) e = (n, refl, ground (arith, e))
in_percent-le (negsuc n) e = absurd cc

salted :
    (salt : Bytes)
    → length (if length salt == 0 then codes "zonegit-default" else salt) == 0 ≡ false
salted salt = elim (Bool-cases (length salt == 0)) [ inl e ↦ rw e refl | inr e ↦ rw e e ]

-- A router that is made has a percentage of at most a hundred, names a canary branch, and has a salt.
pub new_bucket_router-InBounds :
    (scan_int : Bytes → Result ℤ) (default spec salt : Bytes) (b : BucketRouter)
    → new_bucket_router scan_int default spec salt ≡ ok b
    → InBounds b
unfolding new_bucket_router
new_bucket_router-InBounds scan_int default spec salt b e = elim (Option-cases (cut_last 58 spec)) [
  | inl f ↦ absurd (ground (arith, f, e))
  | inr ((branch, rest), f) ↦ elim (Bool-cases ((length branch == 0) || (length rest == 0))) [
    | inl g ↦ absurd (ground (arith, f, g, e))
    | inr g ↦
        let (pct, _, made) = bind_ok (scan_int rest) _ (rw (new_bucket_router, f, g) at e) in
        elim (Bool-cases (in_percent pct)) [
          | inr h ↦ absurd (err_not_ok (rw h at made))
          | inl h ↦
              subst InBounds (ok_injective (rw h at made))
                (in_percent-le pct h, ground (arith, g), salted salt)
        ]
  ]
]
