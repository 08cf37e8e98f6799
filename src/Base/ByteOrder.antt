-- ===== src/Base/ByteOrder.antt =====
-- Byte strings as lists of numbers, and Go's `==` and `<` on strings.
use Prim.Native.Nat.{ℕ, ◌<◌, compare, Ordering}
use Prim.Native.Char.{code}
use Prim.Native.String.{String}
use mathlib.Core.Path.{◌≡◌, refl}
use mathlib.Core.Logic.{◌↔◌, ◌⊎◌, inl, inr}
use mathlib.Core.Bool.{Bool, true, false, ◌&&◌, ◌||◌}
use mathlib.Core.List.{List, [], ◌∷◌}
use native.Mathlib.Omega.{arith}
use zonegit.Base.Tests.{◌==◌, ltb}

abbrev pub Bytes : Type 0
Bytes = List ℕ

abbrev pub IsByte : ℕ → Type 0
IsByte b = b < 256

-- The bytes of an ASCII literal.
abbrev pub codes : String → Bytes
codes String.[] = []
codes (String.◌∷◌ c s) = code c ∷ codes s

unfoldable pub bytes_eq : Bytes → Bytes → Bool
bytes_eq [] [] = true
bytes_eq [] (y ∷ ys) = false
bytes_eq (x ∷ xs) [] = false
bytes_eq (x ∷ xs) (y ∷ ys) = (x == y) && bytes_eq xs ys

-- Go compares strings byte by byte, and a proper prefix is smaller.
unfoldable pub bytes_lt : Bytes → Bytes → Bool
bytes_lt xs [] = false
bytes_lt [] (y ∷ ys) = true
bytes_lt (x ∷ xs) (y ∷ ys) = elim (compare x y) [
  | Ordering.lt ↦ true
  | Ordering.eq ↦ bytes_lt xs ys
  | Ordering.gt ↦ false
]

pub bytes_eq_iff : (xs ys : Bytes) → (bytes_eq xs ys ≡ true) ↔ (xs ≡ ys)
unfolding bytes_eq
bytes_eq_iff [] [] = (λ _. refl, λ _. refl)
bytes_eq_iff [] (y ∷ ys) = (λ h. cc, λ h. cc)
bytes_eq_iff (x ∷ xs) [] = (λ h. cc, λ h. cc)
bytes_eq_iff (x ∷ xs) (y ∷ ys) = ground (arith, bytes_eq_iff xs ys)

pub bytes_eq_refl : (xs : Bytes) → bytes_eq xs xs ≡ true
bytes_eq_refl xs = (bytes_eq_iff xs xs).1 refl

pub bytes_lt_irrefl : (xs : Bytes) → bytes_lt xs xs ≡ false
unfolding bytes_lt
bytes_lt_irrefl [] = refl
bytes_lt_irrefl (x ∷ xs) = ground (arith, bytes_lt_irrefl xs)

pub bytes_lt_trans :
    (xs ys zs : Bytes) → bytes_lt xs ys ≡ true → bytes_lt ys zs ≡ true → bytes_lt xs zs ≡ true
unfolding bytes_lt
bytes_lt_trans xs [] zs h k = cc
bytes_lt_trans xs (y ∷ ys) [] h k = cc
bytes_lt_trans [] (y ∷ ys) (z ∷ zs) h k = refl
bytes_lt_trans (x ∷ xs) (y ∷ ys) (z ∷ zs) h k = ground (arith, bytes_lt_trans xs ys zs)

-- Any two strings are equal or in one order or the other.
pub bytes_trichotomy :
    (xs ys : Bytes) → (bytes_lt xs ys ≡ true) ⊎ ((xs ≡ ys) ⊎ (bytes_lt ys xs ≡ true))
unfolding bytes_lt
bytes_trichotomy [] [] = inr (inl refl)
bytes_trichotomy [] (y ∷ ys) = inl refl
bytes_trichotomy (x ∷ xs) [] = inr (inr refl)
bytes_trichotomy (x ∷ xs) (y ∷ ys) = ground (arith, bytes_trichotomy xs ys)

pub bytes_lt_of_not :
    (xs ys : Bytes) → bytes_lt ys xs ≡ false → bytes_eq ys xs ≡ false → bytes_lt xs ys ≡ true
bytes_lt_of_not xs ys h k = ground (arith, bytes_trichotomy xs ys, bytes_eq_iff ys xs)

pub bytes_lt-asym : (xs ys : Bytes) → bytes_lt xs ys ≡ true → bytes_lt ys xs ≡ false
bytes_lt-asym xs ys h = ground (arith, bytes_lt_trans xs ys xs, bytes_lt_irrefl xs)

pub bytes_eq_of_lt : (xs ys : Bytes) → bytes_lt xs ys ≡ true → bytes_eq xs ys ≡ false
bytes_eq_of_lt xs ys h = ground (arith, bytes_eq_iff xs ys, bytes_lt_irrefl xs)

pub bytes_lt-cons :
    (x y : ℕ) (xs ys : Bytes)
    → bytes_lt (x ∷ xs) (y ∷ ys) ≡ (ltb x y || ((x == y) && bytes_lt xs ys))
unfolding bytes_lt
bytes_lt-cons x y xs ys = ground arith

pub bytes_eq-cons :
    (x y : ℕ) (xs ys : Bytes) → bytes_eq (x ∷ xs) (y ∷ ys) ≡ ((x == y) && bytes_eq xs ys)
unfolding bytes_eq
bytes_eq-cons x y xs ys = refl
