-- ===== src/Refs/Swaps.antt =====
-- Operations that move one ref by a compare-and-set, or fail and move none.
use zonegit.Base.{
  ◌≡◌, refl, sym, ◌∙◌, List, Bytes, bytes_eq, bytes_eq_iff, none, some, Option-cases, Result, ok,
  err, Outcome, ◌>>=◌, ◌then_do◌, lookup, assign, inl, inr, Bool-cases,
}
use mathlib.Core.Path.{subst}
use zonegit.Store.Hash.{Hash, zero_hash, is_zero, is_zero_iff}
use zonegit.Store.MemStore.{Store, cas_ref}

abbrev pub RefMap : Type 0
RefMap = List (Bytes × Hash)

-- The hash under a name, zero if there is none.
unfoldable pub held : Bytes → RefMap → Hash
held ref refs = elim (lookup ref refs) [ none ↦ zero_hash | some h ↦ h ]

-- An error keeps the refs; a success with the hash `h` moves the one ref from `old` to `h`.
abbrev pub Swaps : Bytes → Hash → RefMap → Result Hash → RefMap → Type 0
Swaps ref old before (err e) after = after ≡ before
Swaps ref old before (ok h) after = (held ref before ≡ old) × (after ≡ assign ref h before)

held-none : (ref : Bytes) (refs : RefMap) → lookup ref refs ≡ none → held ref refs ≡ zero_hash
unfolding held
held-none ref refs e = rw (held, e) refl

held-some : (ref : Bytes) (refs : RefMap) {h : Hash} → lookup ref refs ≡ some h → held ref refs ≡ h
unfolding held
held-some ref refs e = rw (held, e) refl

pub cas_ref-Swaps :
    (ref : Bytes) (old next : Hash) (s : Store)
    → Swaps ref old s.refs
        ((cas_ref ref old next s).0 >>= λ _. ok next)
        (cas_ref ref old next s).1.refs
unfolding cas_ref
cas_ref-Swaps ref old next s = elim (Bool-cases (is_zero next)) [
  | inl z ↦ rw z refl
  | inr nz ↦ rw nz (elim (Option-cases (lookup ref s.refs)) [
    | inl e ↦ rw e (elim (Bool-cases (is_zero old)) [
      | inl z ↦ rw z (held-none ref s.refs e ∙ sym ((is_zero_iff old).0 z), refl)
      | inr z ↦ rw z refl
    ])
    | inr (cur, e) ↦ rw e (elim (Bool-cases (bytes_eq cur old)) [
      | inl z ↦ rw z (held-some ref s.refs e ∙ (bytes_eq_iff cur old).0 z, refl)
      | inr z ↦ rw z refl
    ])
  ])
]

module _ {S : Type 0} (refs_of : S → RefMap) where
  pub then_do-refs :
      {A B : Type 0} (s : S) (m : Outcome S A) (f : A → S → Outcome S B)
      → refs_of m.1 ≡ refs_of s
      → ((a : A) (s' : S) → refs_of (f a s').1 ≡ refs_of s')
      → refs_of (m then_do f).1 ≡ refs_of s
  then_do-refs s (ok a, s') f g h = h a s' ∙ g
  then_do-refs s (err e, s') f g h = g

  pub then_do-Swaps :
      {A : Type 0} (ref : Bytes) (old : Hash) (s : S) (m : Outcome S A) (f : A → S → Outcome S Hash)
      → refs_of m.1 ≡ refs_of s
      → ((a : A) (s' : S) → Swaps ref old (refs_of s') (f a s').0 (refs_of (f a s').1))
      → Swaps ref old (refs_of s) (m then_do f).0 (refs_of (m then_do f).1)
  then_do-Swaps ref old s (ok a, s') f g h =
      subst (λ before. Swaps ref old before (f a s').0 (refs_of (f a s').1)) g (h a s')
  then_do-Swaps ref old s (err e, s') f g h = g

  -- What follows a success returns its hash and keeps the refs.
  pub Swaps-then_do :
      {A : Type 0} (ref : Bytes) (old h : Hash) (s : S) (m : Outcome S A)
      (f : A → S → Outcome S Hash)
      → Swaps ref old (refs_of s) (m.0 >>= λ _. ok h) (refs_of m.1)
      → ((a : A) (s' : S) → ((f a s').0 ≡ ok h) × (refs_of (f a s').1 ≡ refs_of s'))
      → Swaps ref old (refs_of s) (m then_do f).0 (refs_of (m then_do f).1)
  Swaps-then_do ref old h s (ok a, s') f g k = rw ((k a s').0) (g.0, (k a s').1 ∙ g.1)
  Swaps-then_do ref old h s (err e, s') f g k = g
