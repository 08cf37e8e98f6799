-- ===== src/Replicate/Fuel.antt =====
-- The depth of the walk over a primary's objects.
use zonegit.Base.{
  ℕ, zero, suc, ◌≤◌, ◌<◌, ◌≡◌, refl, ap, ◌∙◌, arith, Bool, true, false, ◌||◌, List, [], ◌∷◌,
  bytes_eq, bytes_eq_iff, if◌then◌else◌, some, Option-cases, Result, ok, err, Outcome, ◌then_do◌,
  with_do, lookup, Bool-cases, inl, inr,
}
use zonegit.Store.Hash.{Hash, is_zero}
use zonegit.Store.MemStore.{Object, Store, get_object}
use zonegit.Repo.{member}
use zonegit.Replicate.{Walk, children, each, walk_children, walk_missing}
use zonegit.Replicate.Walked.{AfterWalk, walk_missing-keeps}

-- The writes whose hash is not marked.
unfoldable pub unmarked : List (Hash × Object) → List Hash → ℕ
unmarked [] marks = 0
unmarked ((h, o) ∷ m) marks =
    let rest = unmarked m marks in if member h marks then rest else suc rest

pub unmarked-grows :
    (m : List (Hash × Object)) (v w : List Hash)
    → ((h : Hash) → member h v ≡ true → member h w ≡ true)
    → unmarked m w ≤ unmarked m v
unfolding unmarked
unmarked-grows [] v w f = omega arith
unmarked-grows ((h, o) ∷ m) v w f = ground (arith, f h, unmarked-grows m v w f)

unmarked-cons :
    (m : List (Hash × Object)) (v : List Hash) (h : Hash) → unmarked m (h ∷ v) ≤ unmarked m v
unfolding member
unmarked-cons m v h = unmarked-grows m v (h ∷ v) (λ g e. ground (arith, e))

pub unmarked-stored :
    (m : List (Hash × Object)) (v : List Hash) (h : Hash) {o : Object}
    → member h v ≡ false
    → lookup h m ≡ some o
    → unmarked m (h ∷ v) < unmarked m v
unfolding unmarked lookup member
unmarked-stored [] v h n e = absurd cc
unmarked-stored ((k, p) ∷ m) v h {o} n e = elim (Bool-cases (bytes_eq k h)) [
  | inl same ↦ ground (arith, n, same, bytes_eq_iff k h, bytes_eq_iff h k, unmarked-cons m v h)
  | inr apart ↦
      ground
        (arith, n, apart, e, bytes_eq_iff k h, bytes_eq_iff h k, unmarked-stored m v h {o = o} n)
]

pub then_do_same :
    (m : Outcome (List Hash) (Unit {0})) (f g : Walk) (P : List Hash → Type 0)
    → AfterWalk P m
    → ((w : List Hash) → P w → f w ≡ g w)
    → (m then_do (λ _. f)) ≡ (m then_do (λ _. g))
then_do_same (ok _, w) f g P p h = h w p
then_do_same (err e, w) f g P p h = refl

pub with_do_same :
    {A : Type 0} (marks : List Hash) (r : Result A) (f g : A → Outcome (List Hash) (Unit {0}))
    → ((a : A) → r ≡ ok a → f a ≡ g a)
    → with_do marks r f ≡ with_do marks r g
with_do_same marks (ok a) f g h = h a refl
with_do_same marks (err e) f g h = refl

pub split_same :
    (b : Bool) (x y z : Outcome (List Hash) (Unit {0}))
    → (b ≡ false → y ≡ z)
    → ◌≡◌ {A = Outcome (List Hash) (Unit {0})}
        (elim b [ true ↦ x | false ↦ y ])
        (elim b [ true ↦ x | false ↦ z ])
split_same true x y z h = refl
split_same false x y z h = h refl

module _ (s : Store) (known : List Hash) where
  -- Both walks have fuel for the writes that are not marked.
  abbrev Agree : ℕ → ℕ → Type 0
  Agree f g =
      (h : Hash) (v : List Hash)
      → unmarked s.objects v < f
      → unmarked s.objects v < g
      → walk_missing s f known h v ≡ walk_missing s g known h v

  each-Agree :
      (f g : ℕ)
      → Agree f g
      → (hs v : List Hash) → unmarked s.objects v < f
      → unmarked s.objects v < g
      → each (walk_missing s f known) hs v ≡ each (walk_missing s g known) hs v
  unfolding each
  each-Agree f g same [] v p q = refl
  each-Agree f g same (h ∷ hs) v p q =
      ap (λ m. m then_do (λ _. each (walk_missing s f known) hs)) (same h v p q)
      ∙ then_do_same (walk_missing s g known h v) (each (walk_missing s f known) hs)
          (each (walk_missing s g known) hs) _ (walk_missing-keeps s known g h v)
          (λ w keeps.
            let less = unmarked-grows s.objects v w keeps in
            each-Agree f g same hs w (omega (arith, less, p)) (omega (arith, less, q)))

  pub stored_lookup : (h : Hash) {o : Object} → get_object s h ≡ ok o → lookup h s.objects ≡ some o
  unfolding get_object
  stored_lookup h e = elim (Option-cases (lookup h s.objects)) [
    | inl n ↦ absurd (ground (arith, n, e))
    | inr (p, n) ↦ ground (arith, n, e)
  ]

  -- From a fuel above the number of writes that are not marked on, more fuel changes nothing.
  pub walk_missing_enough : (f g : ℕ) → Agree f g
  unfolding walk_missing walk_children
  walk_missing_enough zero g h v p q = absurd (omega (arith, p))
  walk_missing_enough (suc f) zero h v p q = absurd (omega (arith, q))
  walk_missing_enough (suc f) (suc g) h v p q =
      split_same (is_zero h || (member h known || member h v)) _ _ _ (λ new.
        with_do_same (h ∷ v) (get_object s h) _ _ (λ obj stored.
          with_do_same (h ∷ v) (children obj) _ _ (λ hs read.
            let less =
              unmarked-stored s.objects v h {o = obj} (ground (arith, new))
                (stored_lookup h stored) in
            each-Agree f g (walk_missing_enough f g) hs (h ∷ v) (omega (arith, less, p))
              (omega (arith, less, q)))))
