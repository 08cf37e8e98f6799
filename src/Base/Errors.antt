-- ===== src/Base/Errors.antt =====
-- Go's (value, error) results, and operations on a state that may fail.
use mathlib.Core.Path.{◌≡◌, refl}
use mathlib.Core.Logic.{◌⊎◌, inl, inr}
use mathlib.Core.Bool.{Bool, true, false}
use zonegit.Base.Tests.{if◌then◌else◌}

-- The sentinel errors of pkg/store/store.go; `failed` is any other error, `panicked` a run-time
-- panic. `out_of_fuel` is no Go value: a loop of the model was given too little fuel.
pub data Error : Type 0 where
  not_found conflict corrupt invalid_object failed panicked out_of_fuel : Error

pub data Result {ℓ} (A : Type ℓ) : Type ℓ where
  err : Error → Result A
  ok : A → Result A

pub Result-cases {ℓ} :
    {Value : Type ℓ} (r : Result Value) → ((v : Value) × (r ≡ ok v)) ⊎ ((e : Error) × (r ≡ err e))
Result-cases (err e) = inr (e, refl)
Result-cases (ok v) = inl (v, refl)

-- `if err != nil { return err }`
infixl 5 ◌>>=◌
abbrev pub ◌>>=◌ {ℓ κ} :
    {Value : Type ℓ} {Next : Type κ} → Result Value → (Value → Result Next) → Result Next
err e >>= rest = err e
ok v >>= rest = rest v

infixl 5 ◌>>◌
abbrev pub ◌>>◌ {κ} : {Next : Type κ} → Result (Unit {0}) → Result Next → Result Next
check >> rest = check >>= λ _. rest

-- What an operation on the state `S` returns; what it wrote before an error stays written.
abbrev pub Outcome : Type 0 → Type 0 → Type 0
Outcome S A = Result A × S

-- The rest of an operation, after a part that may have failed.
infixl 5 ◌then_do◌
abbrev pub ◌then_do◌ : {S A B : Type 0} → Outcome S A → (A → S → Outcome S B) → Outcome S B
(ok a, s) then_do f = f a s
(err e, s) then_do f = (err e, s)

-- The rest of an operation, after a part that only reads.
abbrev pub with_do : {S A B : Type 0} → S → Result A → (A → Outcome S B) → Outcome S B
with_do s (ok a) f = f a
with_do s (err e) f = (err e, s)

pub bind_ok {ℓ κ} :
    {Value : Type ℓ} {Next : Type κ} (r : Result Value) (rest : Value → Result Next) {n : Next}
    → (r >>= rest) ≡ ok n
    → (v : Value) × (r ≡ ok v) × (rest v ≡ ok n)
bind_ok (ok v) rest e = (v, refl, e)
bind_ok (err x) rest e = absurd cc

pub ok_injective {ℓ} : {Value : Type ℓ} {a b : Value} → ok a ≡ ok b → a ≡ b
ok_injective e = cc

pub err_not_ok {ℓ} : {Value : Type ℓ} {e : Error} {v : Value} → err e ≡ ok v → ⊥
err_not_ok p = cc

-- The result is not that the fuel ran out.
abbrev pub Ends : {A : Type 0} → Result A → Type 0
Ends (ok _) = Unit {0}
Ends (err out_of_fuel) = ⊥
Ends (err _) = Unit {0}

pub Ends-then :
    {A B : Type 0} (r : Result A) (f : A → Result B)
    → Ends r
    → ((a : A) → Ends (f a))
    → Ends (r >>= f)
Ends-then (ok a) f e g = g a
Ends-then (err out_of_fuel) f e g = absurd e
Ends-then (err not_found) f e g = tt
Ends-then (err conflict) f e g = tt
Ends-then (err corrupt) f e g = tt
Ends-then (err invalid_object) f e g = tt
Ends-then (err failed) f e g = tt
Ends-then (err panicked) f e g = tt

pub Ends-if : {A : Type 0} (b : Bool) (x y : Result A) → Ends x → Ends y → Ends (if b then x else y)
Ends-if true x y e f = e
Ends-if false x y e f = f
