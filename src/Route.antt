-- ===== src/Route.antt =====
-- pkg/route/route.go: which branch a query is answered from. The parsing of an address,
-- `net.ParseIP` to its 16-byte form, and of a number at the front of a text, `fmt.Sscanf` with "%d",
-- are parameters.
pub mod Rollout
pub mod Subnets
mod Tests
use Prim.Native.Nat.{bit_xor}
use zonegit.Base.{
  ℕ, ◌+◌, ◌*◌, ◌%◌, ◌^◌, ◌≡◌, Bool, true, false, ◌&&◌, ◌||◌, List, [], ◌∷◌, ◌++◌, length, take,
  drop, replicate, Bytes, bytes_eq, ltb, leb, ◌==◌, if◌then◌else◌, Option, none, some, Result, ok,
  err, Error, ◌>>=◌, codes, cut_last, ℤ, pos, negsuc,
}
use zonegit.Resolve.{QueryContext, Router}

pub record BucketRouter : Type 0 where
  pub default_branch : Bytes
  pub canary_branch : Bytes
  pub pct : ℤ
  pub salt : Bytes

-- The check of the range.
unfoldable pub in_percent : ℤ → Bool
in_percent (pos n) = leb n 100
in_percent (negsuc n) = false

-- `NewBucketRouter`, from "branch:pct".
unfoldable pub new_bucket_router : (Bytes → Result ℤ) → Bytes → Bytes → Bytes → Result BucketRouter
unfolding in_percent
new_bucket_router scan_int default spec salt = elim (cut_last 58 spec) [
  | none ↦ err Error.failed
  | some (branch, rest) ↦
      if (length branch == 0) || (length rest == 0)
      then err Error.failed
      else (scan_int rest >>= λ pct.
          if in_percent pct
          then ok (record {
            default_branch = default;
            canary_branch = branch;
            pct = pct;
            salt = if length salt == 0 then codes "zonegit-default" else salt;
          })
          else err Error.failed)
]

-- `hash/fnv`: FNV-1a with 64 bits.
unfoldable pub fnv1a : ℕ → Bytes → ℕ
fnv1a h [] = h
fnv1a h (b ∷ bs) = fnv1a (bit_xor h b * 1099511628211 % 2 ^ 64) bs

-- `To4`, on an address of 16 bytes: the last four behind ten zeros and two bytes 255.
unfoldable pub to4 : Bytes → Option Bytes
to4 ip =
    if bytes_eq (take 12 ip) (replicate 10 0 ++ (255 ∷ 255 ∷ [])) then some (drop 12 ip) else none

module _ (parse_ip : Bytes → Option Bytes) where
  -- The /24 or the /48 of an address, and nothing if it is no address.
  unfoldable pub subnet_bytes : Bytes → Bytes
  unfolding to4
  subnet_bytes client_ip = if length client_ip == 0 then [] else elim (parse_ip client_ip) [
    | none ↦ []
    | some ip ↦ elim (to4 ip) [ some v4 ↦ take 3 v4 | none ↦ take 6 ip ]
  ]

  unfoldable pub bucket : BucketRouter → Bytes → ℕ
  unfolding subnet_bytes fnv1a
  bucket b client_ip = fnv1a 14695981039346656037 (subnet_bytes client_ip ++ (0 ∷ b.salt)) % 100

  unfoldable pub route_pct : BucketRouter → ℤ → Bytes → Bytes
  unfolding bucket
  route_pct b (negsuc n) client_ip = b.default_branch
  route_pct b (pos n) client_ip =
      if n == 0
      then b.default_branch
      else if leb 100 n
      then b.canary_branch
      else if ltb (bucket b client_ip) n
      then b.canary_branch
      else b.default_branch

  -- `Route`
  unfoldable pub route : BucketRouter → Router
  unfolding route_pct
  route b q = route_pct b b.pct q.client_ip
