-- ===== src/Object/Tree/Codec/Varint.antt =====
-- Varints: what `put_uvarint` writes, `uvarint` reads.
use zonegit.Base.{
  ℕ, zero, suc, ◌+◌, ◌*◌, ◌/◌, ◌%◌, ◌^◌, ◌≤◌, ◌<◌, ◌≡◌, arith, [], ◌∷◌, ◌++◌, length, Bytes, ok, ap,
}
use native.Mathlib.Nat.{div-add-mod}
use mathlib.Core.Path.{subst}
use native.Mathlib.Numerals.{towards_suc}
use zonegit.Object.Tree.Codec.{put_uvarint, uvarint_loop, uvarint}

seven_more : (s : ℕ) → 2 ^ (s + 7) ≡ 128 * 2 ^ s
seven_more s = simp towards_suc (omega arith)

-- The lowest seven bits of `x` and the rest of it, both moved up by `s` bits.
split_low : (x s : ℕ) → x * 2 ^ s ≡ x % 128 * 2 ^ s + x / 128 * 2 ^ (s + 7)
split_low x s = omega (
  arith,
  ap (λ (t : ℕ). t * 2 ^ s) (div-add-mod x 128),
  ap (λ (t : ℕ). x / 128 * t) (seven_more s),
)

-- The tenth byte holds one bit.
last_bit : (v x s : ℕ) → s ≡ 63 → x + v * 2 ^ s < 2 ^ 64 → v ≤ 1
last_bit v x s e h =
    let h63 : x + v * 2 ^ 63 < 2 ^ 64 = subst (λ t. x + v * 2 ^ t < 2 ^ 64) e h in omega arith

-- `v` is what is still to be read, and `x` what was read, at byte `i`.
uvarint_loop-put_uvarint :
    (fuel v i x s : ℕ) (rest : Bytes)
    → i + fuel ≡ 9
    → s ≡ 7 * i
    → v < 128 ^ suc fuel
    → x + v * 2 ^ s < 2 ^ 64
    → uvarint_loop (put_uvarint fuel v ++ rest) i x s ≡ ok (x + v * 2 ^ s, rest)
unfolding put_uvarint uvarint_loop
uvarint_loop-put_uvarint zero v i x s rest hi hs hv fits = ground (arith, last_bit v x s)
uvarint_loop-put_uvarint (suc fuel) v i x s rest hi hs hv fits = ground (
  arith,
  split_low v s,
  uvarint_loop-put_uvarint fuel (v / 128) (i + 1) (x + v % 128 * 2 ^ s) (s + 7) rest,
)

-- Every number below 2^64 is read back from its varint, and what follows is left.
pub uvarint-put_uvarint :
    (v : ℕ) (rest : Bytes) → v < 2 ^ 64 → uvarint (put_uvarint 9 v ++ rest) ≡ ok (v, rest)
unfolding uvarint
uvarint-put_uvarint v rest h = ground (arith, uvarint_loop-put_uvarint 9 v 0 0 0 rest)

uvarint_loop-shorter :
    (bs : Bytes) (i x s v : ℕ) (rest : Bytes)
    → uvarint_loop bs i x s ≡ ok (v, rest)
    → length rest ≤ length bs
unfolding uvarint_loop
uvarint_loop-shorter [] i x s v rest e = cc
uvarint_loop-shorter (b ∷ bs) i x s v rest e =
    ground (arith, uvarint_loop-shorter bs (i + 1) ((x + b % 128 * 2 ^ s) % 2 ^ 64) (s + 7) v rest)
