-- ===== src/Base/Decimal.antt =====
-- Decimal text of a number, for `%d` and `strconv.Itoa`.
use Prim.Native.Nat.{ℕ, zero, suc, ◌+◌, ◌*◌, ◌/◌, ◌%◌, ◌≤◌, ◌-◌}
use mathlib.Core.Path.{◌≡◌, refl, ap, ◌∙◌, sym}
use mathlib.Core.Logic.{inl, inr}
use mathlib.Core.List.{[], ◌∷◌, ◌++◌}
use native.Mathlib.Omega.{arith}
use zonegit.Base.Tests.{ltb, if◌then◌else◌, Bool-cases}
use zonegit.Base.Lists.{All, All-append}
use zonegit.Base.ByteOrder.{Bytes}

-- Each round divides by ten, so `n` rounds are enough for the number `n`.
unfoldable pub digits : ℕ → ℕ → Bytes
digits zero n = (48 + n % 10) ∷ []
digits (suc f) n =
    let rest = digits f (n / 10) in
    if ltb n 10 then ((48 + n) ∷ []) else (rest ++ ((48 + n % 10) ∷ []))

unfoldable pub decimal : ℕ → Bytes
unfolding digits
decimal n = digits n n

-- The number that a row of digits stands for.
value_from : ℕ → Bytes → ℕ
value_from acc [] = acc
value_from acc (c ∷ cs) = value_from (acc * 10 + (c - 48)) cs

value_from-append :
    (cs ds : Bytes) (acc : ℕ) → value_from acc (cs ++ ds) ≡ value_from (value_from acc cs) ds
unfolding value_from
value_from-append [] ds acc = refl
value_from-append (c ∷ cs) ds acc = value_from-append cs ds (acc * 10 + (c - 48))

value_from-digits : (f n : ℕ) → n ≤ f → value_from 0 (digits f n) ≡ n
unfolding value_from digits
value_from-digits zero n h = omega arith
value_from-digits (suc f) n h = elim (Bool-cases (ltb n 10)) [
  | inl e ↦ rw e (ground arith)
  | inr e ↦
      rw
        (
          e,
          value_from-append (digits f (n / 10)) ((48 + n % 10) ∷ []) 0,
          value_from-digits f (n / 10) (ground arith),
        )
        (ground arith)
]

-- Two numbers with the same decimal text are equal.
pub decimal-injective : (m n : ℕ) → decimal m ≡ decimal n → m ≡ n
unfolding decimal
decimal-injective m n e =
    sym (value_from-digits m m (omega arith))
    ∙ ap (value_from 0) e
    ∙ value_from-digits n n (omega arith)

abbrev pub IsDigit : ℕ → Type 0
IsDigit c = (48 ≤ c) × (c ≤ 57)

digits-IsDigit : (f n : ℕ) → All IsDigit (digits f n)
unfolding digits
digits-IsDigit zero n = omega arith
digits-IsDigit (suc f) n = elim (Bool-cases (ltb n 10)) [
  | inl e ↦ rw e (ground arith)
  | inr e ↦
      rw e (All-append IsDigit (digits f (n / 10)) _ (digits-IsDigit f (n / 10)) (omega arith))
]

pub decimal-IsDigit : (n : ℕ) → All IsDigit (decimal n)
unfolding decimal
decimal-IsDigit n = digits-IsDigit n n
