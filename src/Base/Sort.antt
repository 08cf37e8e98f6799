-- ===== src/Base/Sort.antt =====
-- Sorting by a key, for `sort.Slice` and `slices.SortFunc`: the program sorts by byte strings only.
use Prim.Native.Nat.{suc}
use mathlib.Core.Path.{◌≡◌, refl, ◌∙◌, subst}
use mathlib.Core.Logic.{inl, inr}
use mathlib.Core.Bool.{true}
use mathlib.Core.Option.{Option, none, some}
use mathlib.Core.List.{List, [], ◌∷◌}
use native.Mathlib.Omega.{arith}
use zonegit.Base.Tests.{if◌then◌else◌, Bool-cases}
use zonegit.Base.Lists.{length, All}
use zonegit.Base.ByteOrder.{
  Bytes, bytes_eq, bytes_eq_iff, bytes_lt, bytes_lt_irrefl, bytes_lt_trans, bytes_lt_of_not,
}

module _ {A : Type 0} (key : A → Bytes) where
  -- The first element with the key.
  unfoldable pub find_key : Bytes → List A → Option A
  find_key k [] = none
  find_key k (x ∷ xs) = if bytes_eq (key x) k then some x else find_key k xs

  unfoldable pub insert_on : A → List A → List A
  insert_on x [] = x ∷ []
  insert_on x (y ∷ ys) =
      let rest = insert_on x ys in if bytes_lt (key y) (key x) then (y ∷ rest) else (x ∷ y ∷ ys)

  unfoldable pub sort_on : List A → List A
  sort_on [] = []
  sort_on (x ∷ xs) = insert_on x (sort_on xs)

  -- Every key of the list is above `k`.
  abbrev pub AllAbove : Bytes → List A → Type 0
  AllAbove k [] = Unit {0}
  AllAbove k (x ∷ xs) = (bytes_lt k (key x) ≡ true) × AllAbove k xs

  -- The keys ascend strictly, so no two are equal.
  abbrev pub Ascends : List A → Type 0
  Ascends [] = Unit {0}
  Ascends (x ∷ xs) = AllAbove (key x) xs × Ascends xs

  -- No two elements have the same key.
  abbrev pub Distinct : List A → Type 0
  Distinct [] = Unit {0}
  Distinct (x ∷ xs) = (find_key (key x) xs ≡ none) × Distinct xs

  pub AllAbove-trans :
      (j k : Bytes) (xs : List A) → bytes_lt j k ≡ true → AllAbove k xs → AllAbove j xs
  AllAbove-trans j k [] h a = tt
  AllAbove-trans j k (x ∷ xs) h a = (bytes_lt_trans j k (key x) h a.0, AllAbove-trans j k xs h a.1)

  pub find_key_above : (k : Bytes) (xs : List A) → AllAbove k xs → find_key k xs ≡ none
  unfolding find_key
  find_key_above k [] h = refl
  find_key_above k (x ∷ xs) h =
      ground (arith, bytes_eq_iff (key x) k, bytes_lt_irrefl k, find_key_above k xs h.1)

  pub Ascends-Distinct : (xs : List A) → Ascends xs → Distinct xs
  Ascends-Distinct [] h = tt
  Ascends-Distinct (x ∷ xs) h = (find_key_above (key x) xs h.0, Ascends-Distinct xs h.1)

  pub find_key-insert_on :
      (k : Bytes) (x : A) (xs : List A)
      → find_key k (insert_on x xs) ≡ (if bytes_eq (key x) k then some x else find_key k xs)
  unfolding find_key insert_on
  find_key-insert_on k x [] = refl
  find_key-insert_on k x (y ∷ ys) = ground (
    arith,
    bytes_eq_iff (key x) k,
    bytes_eq_iff (key y) k,
    bytes_lt_irrefl k,
    find_key-insert_on k x ys,
  )

  -- Sorting does not change what a key finds.
  pub find_key-sort_on : (k : Bytes) (xs : List A) → find_key k (sort_on xs) ≡ find_key k xs
  unfolding find_key sort_on
  find_key-sort_on k [] = refl
  find_key-sort_on k (x ∷ xs) =
      ground (arith, find_key-insert_on k x (sort_on xs), find_key-sort_on k xs)

  AllAbove-insert_on :
      (k : Bytes) (x : A) (xs : List A)
      → bytes_lt k (key x) ≡ true
      → AllAbove k xs
      → AllAbove k (insert_on x xs)
  unfolding insert_on
  AllAbove-insert_on k x [] h a = (h, tt)
  AllAbove-insert_on k x (y ∷ ys) h a = elim (Bool-cases (bytes_lt (key y) (key x))) [
    | inl e ↦ rw e (a.0, AllAbove-insert_on k x ys h a.1)
    | inr e ↦ rw e (h, a)
  ]

  pub Ascends-insert_on :
      (x : A) (xs : List A) → find_key (key x) xs ≡ none → Ascends xs → Ascends (insert_on x xs)
  unfolding find_key insert_on
  Ascends-insert_on x [] n a = (tt, tt)
  Ascends-insert_on x (y ∷ ys) n a = elim (Bool-cases (bytes_lt (key y) (key x))) [
    | inl e ↦
        rw e (AllAbove-insert_on (key y) x ys e a.0, Ascends-insert_on x ys (ground arith) a.1)
    | inr e ↦
        let above : bytes_lt (key x) (key y) ≡ true =
          bytes_lt_of_not (key x) (key y) e (ground arith) in
        rw e ((above, AllAbove-trans (key x) (key y) ys above a.0), a)
  ]

  pub Distinct-sort_on : (xs : List A) → Distinct xs → Ascends (sort_on xs)
  unfolding sort_on
  Distinct-sort_on [] d = tt
  Distinct-sort_on (x ∷ xs) d =
      Ascends-insert_on x (sort_on xs) (find_key-sort_on (key x) xs ∙ d.0) (Distinct-sort_on xs d.1)

  -- A list that ascends already is left as it is.
  insert_on_least : (x : A) (xs : List A) → AllAbove (key x) xs → insert_on x xs ≡ x ∷ xs
  unfolding insert_on
  insert_on_least x [] h = refl
  insert_on_least x (y ∷ ys) h = elim (Bool-cases (bytes_lt (key y) (key x))) [
    | inl e ↦
        absurd (ground (arith, bytes_lt_trans (key y) (key x) (key y), bytes_lt_irrefl (key y)))
    | inr e ↦ rw e
  ]

  pub sort_on_ascending : (xs : List A) → Ascends xs → sort_on xs ≡ xs
  unfolding sort_on
  sort_on_ascending [] h = refl
  sort_on_ascending (x ∷ xs) h = rw (sort_on_ascending xs h.1) (insert_on_least x xs h.0)

  length-insert_on : (x : A) (xs : List A) → length (insert_on x xs) ≡ suc (length xs)
  unfolding insert_on
  length-insert_on x [] = refl
  length-insert_on x (y ∷ ys) = ground (arith, length-insert_on x ys)

  pub length-sort_on : (xs : List A) → length (sort_on xs) ≡ length xs
  unfolding sort_on
  length-sort_on [] = refl
  length-sort_on (x ∷ xs) = omega (arith, length-insert_on x (sort_on xs), length-sort_on xs)

  All-insert_on : (P : A → Type 0) (x : A) (xs : List A) → P x → All P xs → All P (insert_on x xs)
  unfolding insert_on
  All-insert_on P x [] h a = (h, tt)
  All-insert_on P x (y ∷ ys) h a = elim (Bool-cases (bytes_lt (key y) (key x))) [
    | inl e ↦ rw e (a.0, All-insert_on P x ys h a.1)
    | inr e ↦ rw e (h, a)
  ]

  pub All-sort_on : (P : A → Type 0) (xs : List A) → All P xs → All P (sort_on xs)
  unfolding sort_on
  All-sort_on P [] a = tt
  All-sort_on P (x ∷ xs) a = All-insert_on P x (sort_on xs) a.0 (All-sort_on P xs a.1)

  pub find_key-key : (k : Bytes) (xs : List A) {x : A} → find_key k xs ≡ some x → key x ≡ k
  unfolding find_key
  find_key-key k [] e = cc
  find_key-key k (y ∷ ys) {x} e = ground (arith, bytes_eq_iff (key y) k, find_key-key k ys {x = x})

  pub All-find_key :
      (P : A → Type 0) (k : Bytes) (xs : List A) {x : A} → All P xs → find_key k xs ≡ some x → P x
  unfolding find_key
  All-find_key P k [] a e = cc
  All-find_key P k (y ∷ ys) {x} a e = elim (Bool-cases (bytes_eq (key y) k)) [
    | inl h ↦ subst P (ground arith) a.0
    | inr h ↦ All-find_key P k ys a.1 (ground arith)
  ]
