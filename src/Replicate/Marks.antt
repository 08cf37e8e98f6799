-- ===== src/Replicate/Marks.antt =====
-- A property of hashes that passes from an object to all that it names holds of all marks of a walk,
-- however the walk ends.
use zonegit.Base.{
  ℕ, zero, suc, ◌≡◌, refl, sym, ap, ◌∙◌, arith, Bool, true, false, ◌||◌, List, [], ◌∷◌, Result, ok,
  err, Error, Outcome, ◌then_do◌, with_do, All,
}
use mathlib.Core.Path.{subst}
use zonegit.Store.Hash.{Hash, is_zero}
use zonegit.Store.MemStore.{Store, get_object}
use zonegit.Repo.{member}
use zonegit.Replicate.{
  Walk, children, each, walk_children, walk_reachable, walk_missing, forgive_missing, expand_known,
}
use zonegit.Replicate.Walked.{Names, AfterWalk}
use zonegit.Replicate.Fuel.{then_do_same, with_do_same, split_same}

nothing_more : (m : Outcome (List Hash) (Unit {0})) → AfterWalk (λ _. Unit {0}) m
nothing_more (ok _, w) = tt
nothing_more (err e, w) = tt

each_same :
    (f g : Hash → Walk)
    → ((h : Hash) (v : List Hash) → f h v ≡ g h v)
    → (hs v : List Hash) → each f hs v ≡ each g hs v
unfolding each
each_same f g same [] v = refl
each_same f g same (h ∷ hs) v =
    ap (λ m. m then_do (λ _. each f hs)) (same h v)
    ∙ then_do_same (g h v) (each f hs) (each g hs) (λ _. Unit {0}) (nothing_more (g h v))
        (λ w _. each_same f g same hs w)

-- `walkReachable` is `walkMissing` with no known hashes.
pub walk_reachable-walk_missing :
    (s : Store) (fuel : ℕ) (h : Hash) (v : List Hash)
    → walk_reachable s fuel h v ≡ walk_missing s fuel [] h v
unfolding walk_reachable walk_missing walk_children member
walk_reachable-walk_missing s zero h v = refl
walk_reachable-walk_missing s (suc fuel) h v = split_same (is_zero h || member h v) _ _ _ (λ new.
    with_do_same (h ∷ v) (get_object s h) _ _ (λ obj stored.
      with_do_same (h ∷ v) (children obj) _ _ (λ hs read.
        each_same (walk_reachable s fuel) (walk_missing s fuel [])
          (walk_reachable-walk_missing s fuel) hs (h ∷ v))))

module _ (s : Store) (P : Hash → Type 0)
    (passes : (h : Hash) (hs : List Hash) → P h → is_zero h ≡ false → Names s h hs → All P hs) where
  abbrev Keeps : Outcome (List Hash) (Unit {0}) → Type 0
  Keeps m = All P m.1

  Keeps-then_do :
      (m : Outcome (List Hash) (Unit {0})) (f : Walk)
      → Keeps m
      → ((w : List Hash) → All P w → Keeps (f w))
      → Keeps (m then_do (λ _. f))
  Keeps-then_do (ok _, w) f k g = g w k
  Keeps-then_do (err e, w) f k g = k

  Keeps-with_do :
      {A : Type 0} (v : List Hash) (r : Result A) (f : A → Outcome (List Hash) (Unit {0}))
      → All P v
      → ((a : A) → r ≡ ok a → Keeps (f a))
      → Keeps (with_do v r f)
  Keeps-with_do v (ok a) f k g = g a refl
  Keeps-with_do v (err e) f k g = k

  Keeps-split :
      (b : Bool) (x y : Outcome (List Hash) (Unit {0}))
      → Keeps x
      → (b ≡ false → Keeps y)
      → Keeps (elim b [ true ↦ x | false ↦ y ])
  Keeps-split true x y k g = k
  Keeps-split false x y k g = g refl

  pub each-Keeps :
      (fn : Hash → Walk)
      → ((h : Hash) (v : List Hash) → P h → All P v → Keeps (fn h v))
      → (hs v : List Hash) → All P hs
      → All P v
      → Keeps (each fn hs v)
  unfolding each
  each-Keeps fn f [] v a k = k
  each-Keeps fn f (h ∷ hs) v a k =
      Keeps-then_do (fn h v) (each fn hs) (f h v a.0 k) (λ w k'. each-Keeps fn f hs w a.1 k')

  pub walk_missing-Keeps :
      (fuel : ℕ) (known : List Hash) (h : Hash) (v : List Hash)
      → P h
      → All P v
      → Keeps (walk_missing s fuel known h v)
  unfolding walk_missing walk_children
  walk_missing-Keeps zero known h v p k = k
  walk_missing-Keeps (suc fuel) known h v p k =
      Keeps-split (is_zero h || (member h known || member h v)) _ _ k (λ new.
        Keeps-with_do (h ∷ v) (get_object s h) _ (p, k)
          (λ obj stored.
            Keeps-with_do (h ∷ v) (children obj) _ (p, k)
              (λ hs read.
                each-Keeps (walk_missing s fuel known) (walk_missing-Keeps fuel known) hs (h ∷ v)
                  (passes h hs p (ground (arith, new)) (obj, stored, read)) (p, k))))

  forgive_missing-Keeps : (m : Outcome (List Hash) (Unit {0})) → Keeps m → Keeps (forgive_missing m)
  unfolding forgive_missing
  forgive_missing-Keeps (ok _, w) k = k
  forgive_missing-Keeps (err Error.not_found, w) k = k
  forgive_missing-Keeps (err e, w) k = k

  pub expand_known-Keeps :
      (fuel : ℕ) (ks v : List Hash) → All P ks → All P v → Keeps (expand_known s fuel ks v)
  unfolding expand_known
  expand_known-Keeps fuel [] v a k = k
  expand_known-Keeps fuel (h ∷ ks) v a k =
      Keeps-then_do (forgive_missing (walk_reachable s fuel h v)) (expand_known s fuel ks)
        (forgive_missing-Keeps (walk_reachable s fuel h v) (
          subst Keeps (sym (walk_reachable-walk_missing s fuel h v))
            (walk_missing-Keeps fuel [] h v a.0 k)))
        (λ w k'. expand_known-Keeps fuel ks w a.1 k')
