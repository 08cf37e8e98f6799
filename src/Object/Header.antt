-- ===== src/Object/Header.antt =====
-- The hashed message determines the kind and the payload.
use zonegit.Base.{
  ℕ, ◌≡◌, refl, arith, true, [], ◌∷◌, ◌++◌, length, Bytes, All, IsDigit, decimal, decimal-IsDigit,
  ◌≢◌, bytes_eq_iff, sym, inl, inr, ◌⊎◌,
}
use mathlib.Core.Path.{subst}
use zonegit.Object.{
  Kind, kind_is_valid, message, kind_blob, kind_tree, kind_commit, kind_tag, kind_symref,
}

-- Two texts that go on with a byte `c`, which neither holds before, are cut at the same place.
cut_at :
    (c : ℕ) (xs ys us vs : Bytes)
    → All (λ b. b ≢ c) xs
    → All (λ b. b ≢ c) ys
    → xs ++ (c ∷ us) ≡ ys ++ (c ∷ vs)
    → (xs ≡ ys) × (us ≡ vs)
cut_at c [] [] us vs a b e = (refl, cc)
cut_at c [] (y ∷ ys) us vs a b e = absurd (b.0 (cc))
cut_at c (x ∷ xs) [] us vs a b e = absurd (a.0 (cc))
cut_at c (x ∷ xs) (y ∷ ys) us vs a b e =
    let t = cut_at c xs ys us vs a.1 b.1 (cc) in (cc (t.0), t.1)

valid_kinds :
    (k : Kind)
    → kind_is_valid k ≡ true
    → (k ≡ kind_blob)
      ⊎ ((k ≡ kind_tree) ⊎ ((k ≡ kind_commit) ⊎ ((k ≡ kind_tag) ⊎ (k ≡ kind_symref))))
unfolding kind_is_valid
valid_kinds k h = ground (
  arith,
  bytes_eq_iff k kind_blob,
  bytes_eq_iff k kind_tree,
  bytes_eq_iff k kind_commit,
  bytes_eq_iff k kind_tag,
  bytes_eq_iff k kind_symref,
)

abbrev NoSpace : Bytes → Type 0
NoSpace = All (λ b. b ≢ 32)

kind-NoSpace : (k : Kind) → kind_is_valid k ≡ true → NoSpace k
kind-NoSpace k h = elim (valid_kinds k h) [
  | inl e ↦ subst NoSpace (sym e) (omega arith)
  | inr (inl e) ↦ subst NoSpace (sym e) (omega arith)
  | inr (inr (inl e)) ↦ subst NoSpace (sym e) (omega arith)
  | inr (inr (inr (inl e))) ↦ subst NoSpace (sym e) (omega arith)
  | inr (inr (inr (inr e))) ↦ subst NoSpace (sym e) (omega arith)
]

digits-no_zero : (xs : Bytes) → All IsDigit xs → All (λ b. b ≢ 0) xs
digits-no_zero [] a = tt
digits-no_zero (x ∷ xs) a = (omega arith, digits-no_zero xs a.1)

-- Objects of valid kinds with the same hashed message are the same object: kinds, lengths and
-- payloads cannot be shifted into one another.
pub message-injective :
    (k l : Kind) (p q : Bytes)
    → kind_is_valid k ≡ true
    → kind_is_valid l ≡ true
    → message k p ≡ message l q
    → (k ≡ l) × (p ≡ q)
unfolding message
message-injective k l p q hk hl e =
    let (kinds, rest) =
      cut_at 32 k l (decimal (length p) ++ (0 ∷ p)) (decimal (length q) ++ (0 ∷ q))
        (kind-NoSpace k hk) (kind-NoSpace l hl) e in
    let no_zero = λ (n : ℕ). digits-no_zero (decimal n) (decimal-IsDigit n) in
    (kinds, (cut_at 0 _ _ p q (no_zero (length p)) (no_zero (length q)) rest).1)
