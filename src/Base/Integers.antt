-- ===== src/Base/Integers.antt =====
-- Integers over the native numbers, and how package strconv reads them.
use Prim.Native.Nat.{ℕ, zero, suc, ◌+◌, ◌-◌, ◌*◌, ◌^◌}
use mathlib.Core.Bool.{Bool, true, false, ◌&&◌}
use mathlib.Core.List.{[], ◌∷◌}
use mathlib.Core.Option.{Option, none, some}
use zonegit.Base.Tests.{ltb, leb, ◌==◌, if◌then◌else◌}
use zonegit.Base.Lists.{length}
use zonegit.Base.ByteOrder.{Bytes}
use zonegit.Base.Decimal.{decimal}
use zonegit.Base.Errors.{Result, ok, err, invalid_object}

pub data ℤ : Type 0 where
  pos negsuc : ℕ → ℤ

unfoldable pub neg : ℤ → ℤ
neg (pos zero) = pos zero
neg (pos (suc n)) = negsuc n
neg (negsuc n) = pos (suc n)

unfoldable pub difference : ℕ → ℕ → ℤ
difference a b = if ltb a b then negsuc (b - a - 1) else pos (a - b)

infixl 6 ◌+ℤ◌
unfoldable pub ◌+ℤ◌ : ℤ → ℤ → ℤ
unfolding difference
pos a +ℤ pos b = pos (a + b)
pos a +ℤ negsuc b = difference a (suc b)
negsuc a +ℤ pos b = difference b (suc a)
negsuc a +ℤ negsuc b = negsuc (suc (a + b))

unfoldable pub scale : ℕ → ℤ → ℤ
unfolding neg
scale k (pos n) = pos (k * n)
scale k (negsuc n) = neg (pos (k * suc n))

-- `%d`
unfoldable pub show_int : ℤ → Bytes
show_int (pos n) = decimal n
show_int (negsuc n) = 45 ∷ decimal (suc n)

-- The number that a row of decimal digits stands for, none if there is another byte.
unfoldable pub read_digits : ℕ → Bytes → Option ℕ
read_digits acc [] = some acc
read_digits acc (b ∷ bs) =
    let rest = read_digits (acc * 10 + (b - 48)) bs in if leb 48 b && leb b 57 then rest else none

unfoldable pub read_magnitude : Bytes → Option ℕ
unfolding read_digits
read_magnitude bs = if length bs == 0 then none else read_digits 0 bs

unfoldable pub read_signed : Bool → Bytes → Result ℤ
unfolding read_magnitude neg
read_signed negative bs = elim (read_magnitude bs) [
  | none ↦ err invalid_object
  | some n ↦
      if negative
      then (if ltb (2 ^ 63) n then err invalid_object else ok (neg (pos n)))
      else if ltb n (2 ^ 63)
      then ok (pos n)
      else err invalid_object
]

-- `strconv.ParseInt(s, 10, 64)` and `strconv.Atoi`: a sign, digits, and the range of `int64`.
unfoldable pub parse_int : Bytes → Result ℤ
unfolding read_signed
parse_int [] = err invalid_object
parse_int (b ∷ bs) =
    if b == 45
    then read_signed true bs
    else if b == 43
    then read_signed false bs
    else read_signed false (b ∷ bs)
