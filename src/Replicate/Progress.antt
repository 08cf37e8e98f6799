-- ===== src/Replicate/Progress.antt =====
-- With enough fuel a walk over objects that can be read succeeds.
use zonegit.Base.{
  ℕ, zero, suc, ◌<◌, ◌≤◌, ◌≡◌, ◌⊎◌, refl, sym, arith, Bool, true, false, ◌||◌, List, [], ◌∷◌, ok,
  err, Error, not_found, Outcome, ◌then_do◌, All, inl, inr,
}
use mathlib.Core.Path.{subst}
use zonegit.Store.Hash.{Hash, is_zero}
use zonegit.Store.MemStore.{Store, get_object}
use zonegit.Repo.{member}
use zonegit.Replicate.{
  Walk, each, walk_children, walk_reachable, walk_missing, collect_missing, forgive_missing,
  expand_known,
}
use zonegit.Replicate.Walked.{Names, AfterWalk, walk_missing-keeps}
use zonegit.Replicate.Fuel.{unmarked, unmarked-grows, unmarked-stored, stored_lookup}
use zonegit.Replicate.Marks.{walk_reachable-walk_missing}

-- A walk that succeeded, or ended with an error that may occur.
abbrev pub Fine : (Error → Type 0) → Outcome (List Hash) (Unit {0}) → Type 0
Fine Good (ok _, w) = Unit {0}
Fine Good (err e, w) = Good e

-- `Good` holds of the errors that may occur.
module _ (s : Store) (P : Hash → Type 0) (Good : Error → Type 0)
    (passes : (h : Hash) (hs : List Hash) → P h → is_zero h ≡ false → Names s h hs → All P hs)
    (readable : (h : Hash)
      → P h
      → is_zero h ≡ false
      → ((hs : List Hash) × Names s h hs) ⊎ ((e : Error) × (get_object s h ≡ err e) × Good e)) where
  Fine-then_do :
      (m : Outcome (List Hash) (Unit {0})) (f : Walk) (Q : List Hash → Type 0)
      → Fine Good m
      → AfterWalk Q m
      → ((w : List Hash) → Q w → Fine Good (f w))
      → Fine Good (m then_do (λ _. f))
  Fine-then_do (ok _, w) f Q k a g = g w a
  Fine-then_do (err e, w) f Q k a g = k

  Fine-split :
      (b : Bool) (x y : Outcome (List Hash) (Unit {0}))
      → Fine Good x
      → (b ≡ false → Fine Good y)
      → Fine Good (elim b [ true ↦ x | false ↦ y ])
  Fine-split true x y k g = k
  Fine-split false x y k g = g refl

  Fine-each :
      (fuel : ℕ) (known : List Hash)
      → ((h : Hash) (v : List Hash)
          → P h
          → unmarked s.objects v < fuel
          → Fine Good (walk_missing s fuel known h v))
      → (hs v : List Hash) → All P hs
      → unmarked s.objects v < fuel
      → Fine Good (each (walk_missing s fuel known) hs v)
  unfolding each
  Fine-each fuel known f [] v a p = tt
  Fine-each fuel known f (h ∷ hs) v a p =
      Fine-then_do (walk_missing s fuel known h v) (each (walk_missing s fuel known) hs) _
        (f h v a.0 p) (walk_missing-keeps s known fuel h v)
        (λ w keeps.
          let less = unmarked-grows s.objects v w keeps in
          Fine-each fuel known f hs w a.1 (omega (arith, less, p)))

  walk_missing-Fine :
      (fuel : ℕ) (known : List Hash) (h : Hash) (v : List Hash)
      → P h
      → unmarked s.objects v < fuel
      → Fine Good (walk_missing s fuel known h v)
  unfolding walk_missing walk_children
  walk_missing-Fine zero known h v q p = absurd (omega (arith, p))
  walk_missing-Fine (suc fuel) known h v q p =
      Fine-split (is_zero h || (member h known || member h v)) _ _ tt (λ new.
        elim (readable h q (ground (arith, new))) [
          | inr (x, e, good) ↦ rw e good
          | inl (hs, (obj, stored, read)) ↦
              let less =
                unmarked-stored s.objects v h {o = obj} (ground (arith, new))
                  (stored_lookup s [] h stored) in
              rw (stored, read)
                (Fine-each fuel known (walk_missing-Fine fuel known) hs (h ∷ v)
                  (passes h hs q (ground (arith, new)) (obj, stored, read))
                  (omega (arith, less, p)))
        ])

  pub collect_missing-Fine :
      (fuel : ℕ) (roots known : List Hash)
      → All P roots
      → unmarked s.objects [] < fuel
      → Fine Good (collect_missing s fuel roots known [])
  unfolding collect_missing
  collect_missing-Fine fuel roots known a p =
      Fine-each fuel known (walk_missing-Fine fuel known) roots [] a p

-- The walk from the known hashes succeeds, if no error occurs in it but `not_found`.
forgive_missing-Fine :
    (m : Outcome (List Hash) (Unit {0}))
    → Fine (λ e. e ≡ not_found) m
    → (forgive_missing m).0 ≡ ok tt
unfolding forgive_missing
forgive_missing-Fine (ok _, w) k = refl
forgive_missing-Fine (err e, w) k = rw k refl

then_do_ok :
    (m : Outcome (List Hash) (Unit {0})) (f : Walk)
    → m.0 ≡ ok tt
    → ((w : List Hash) → (f w).0 ≡ ok tt)
    → (m then_do (λ _. f)).0 ≡ ok tt
then_do_ok (ok _, w) f e g = g w
then_do_ok (err x, w) f e g = e

unmarked-nil : (s : Store) (v : List Hash) → unmarked s.objects v ≤ unmarked s.objects []
unmarked-nil s v = unmarked-grows s.objects [] v (λ h e. absurd (unfold member in cc e))

pub expand_known_ok :
    (s : Store) (P : Hash → Type 0)
    (passes : (h : Hash) (hs : List Hash) → P h → is_zero h ≡ false → Names s h hs → All P hs)
    (readable : (h : Hash)
      → P h
      → is_zero h ≡ false
      → ((hs : List Hash) × Names s h hs)
        ⊎ ((e : Error) × (get_object s h ≡ err e) × (e ≡ not_found)))
    (fuel : ℕ) (ks v : List Hash)
    → All P ks
    → unmarked s.objects [] < fuel
    → (expand_known s fuel ks v).0 ≡ ok tt
unfolding expand_known
expand_known_ok s P passes readable fuel [] v a p = refl
expand_known_ok s P passes readable fuel (k ∷ ks) v a p =
    then_do_ok (forgive_missing (walk_reachable s fuel k v)) (expand_known s fuel ks)
      (forgive_missing-Fine (walk_reachable s fuel k v) (
        subst (Fine (λ e. e ≡ not_found)) (sym (walk_reachable-walk_missing s fuel k v)) (
          walk_missing-Fine s P (λ e. e ≡ not_found) passes readable fuel [] k v a.0
            (omega (arith, unmarked-nil s v, p)))))
      (λ w. expand_known_ok s P passes readable fuel ks w a.1 p)
