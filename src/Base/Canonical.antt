-- ===== src/Base/Canonical.antt =====
-- A list with ascending keys is determined by what its keys find.
use mathlib.Core.Path.{◌≡◌, refl, sym, ap, ◌∙◌, ap₂}
use mathlib.Core.Bool.{true}
use mathlib.Core.Logic.{inl, inr}
use mathlib.Core.Option.{none, some}
use mathlib.Core.List.{List, [], ◌∷◌}
use native.Mathlib.Omega.{arith}
use zonegit.Base.Tests.{Bool-cases}
use zonegit.Base.ByteOrder.{
  Bytes, bytes_eq, bytes_eq_iff, bytes_eq_refl, bytes_lt, bytes_trichotomy,
}
use zonegit.Base.Sort.{find_key, Ascends, AllAbove, find_key_above, AllAbove-trans}

module _ {A : Type 0} (key : A → Bytes) where
  find_key-head : (x : A) (xs : List A) → find_key key (key x) (x ∷ xs) ≡ some x
  unfolding find_key
  find_key-head x xs = rw bytes_eq_refl

  find_key-below :
      (k : Bytes) (x : A) (xs : List A)
      → bytes_lt k (key x) ≡ true
      → AllAbove key (key x) xs
      → find_key key k (x ∷ xs) ≡ none
  find_key-below k x xs h a = find_key_above key k (x ∷ xs) (h, AllAbove-trans key k (key x) xs h a)

  tails_agree :
      (x : A) (xs ys : List A)
      → AllAbove key (key x) xs
      → AllAbove key (key x) ys
      → ((k : Bytes) → find_key key k (x ∷ xs) ≡ find_key key k (x ∷ ys))
      → (k : Bytes) → find_key key k xs ≡ find_key key k ys
  unfolding find_key
  tails_agree x xs ys a b same k = elim (Bool-cases (bytes_eq (key x) k)) [
    | inl e ↦
        let p : key x ≡ k = (bytes_eq_iff (key x) k).0 e in
        rw (← p) (find_key_above key (key x) xs a ∙ sym (find_key_above key (key x) ys b))
    | inr e ↦ ground (arith, same k)
  ]

  pub Ascends-ext :
      (xs ys : List A)
      → Ascends key xs
      → Ascends key ys
      → ((k : Bytes) → find_key key k xs ≡ find_key key k ys)
      → xs ≡ ys
  unfolding find_key
  Ascends-ext [] [] a b same = refl
  Ascends-ext [] (y ∷ ys) a b same = ground (arith, same (key y), bytes_eq_refl (key y))
  Ascends-ext (x ∷ xs) [] a b same = ground (arith, same (key x), bytes_eq_refl (key x))
  Ascends-ext (x ∷ xs) (y ∷ ys) a b same = elim (bytes_trichotomy (key x) (key y)) [
    | inl lt ↦
        let q = find_key-below (key x) y ys lt b.0 in
        ground (arith, same (key x), bytes_eq_refl (key x), q)
    | inr (inr gt) ↦
        let q = find_key-below (key y) x xs gt a.0 in
        ground (arith, same (key y), bytes_eq_refl (key y), q)
    | inr (inl e) ↦
        let p : x ≡ y =
          ground
            (arith, same (key x), bytes_eq_refl (key x), rw (← e) at (bytes_eq_refl (key y))) in
        ap₂ ◌∷◌ p (
          Ascends-ext xs ys a.1 b.1 (
            tails_agree x xs ys a.0 (rw e b.0)
              (λ k. same k ∙ ap (λ z. find_key key k (z ∷ ys)) (sym p))))
  ]
