-- ===== src/Replicate/Walked.antt =====
-- What a walk that succeeds has marked: with every object it marked, all that the object names.
use zonegit.Base.{
  ℕ, zero, suc, ◌≡◌, ◌⊎◌, refl, arith, Bool, true, false, ◌||◌, List, [], ◌∷◌, bytes_eq_iff, Result,
  ok, err, Outcome, ◌then_do◌, with_do, All, inl, inr,
}
use mathlib.Core.Path.{subst}
use zonegit.Store.Hash.{Hash, is_zero}
use zonegit.Store.MemStore.{Object, Store, get_object}
use zonegit.Repo.{member}
use zonegit.Replicate.{Walk, children, each, walk_children, walk_missing, collect_missing}

-- The store has an object under the hash, and it names these hashes.
abbrev pub Names : Store → Hash → List Hash → Type 0
Names s h hs = (obj : Object) × (get_object s h ≡ ok obj) × (children obj ≡ ok hs)

-- What holds of the marks after a walk that succeeds.
abbrev pub AfterWalk : (List Hash → Type 0) → Outcome (List Hash) (Unit {0}) → Type 0
AfterWalk P (ok _, marks) = P marks
AfterWalk P (err _, marks) = Unit {0}

AfterWalk-then_do :
    (P Q : List Hash → Type 0) (m : Outcome (List Hash) (Unit {0})) (f : Walk)
    → AfterWalk P m
    → ((marks : List Hash) → P marks → AfterWalk Q (f marks))
    → AfterWalk Q (m then_do (λ _. f))
AfterWalk-then_do P Q (ok _, marks) f p g = g marks p
AfterWalk-then_do P Q (err e, marks) f p g = tt

AfterWalk-with_do :
    {A : Type 0} (Q : List Hash → Type 0) (marks : List Hash) (r : Result A)
    (f : A → Outcome (List Hash) (Unit {0}))
    → ((a : A) → r ≡ ok a → AfterWalk Q (f a))
    → AfterWalk Q (with_do marks r f)
AfterWalk-with_do Q marks (ok a) f g = g a refl
AfterWalk-with_do Q marks (err e) f g = tt

AfterWalk-map :
    (P Q : List Hash → Type 0) (m : Outcome (List Hash) (Unit {0}))
    → ((marks : List Hash) → P marks → Q marks)
    → AfterWalk P m
    → AfterWalk Q m
AfterWalk-map P Q (ok _, marks) f p = f marks p
AfterWalk-map P Q (err e, marks) f p = tt

AfterWalk-split :
    (Q : List Hash → Type 0) (b : Bool) (x y : Outcome (List Hash) (Unit {0}))
    → (b ≡ true → AfterWalk Q x)
    → (b ≡ false → AfterWalk Q y)
    → AfterWalk Q (elim b [ true ↦ x | false ↦ y ])
AfterWalk-split Q true x y f g = f refl
AfterWalk-split Q false x y f g = g refl

All-map : (P Q : Hash → Type 0) (hs : List Hash) → ((h : Hash) → P h → Q h) → All P hs → All Q hs
All-map P Q [] f a = tt
All-map P Q (h ∷ hs) f a = (f h a.0, All-map P Q hs f a.1)

-- The hash is zero, known, or marked.
abbrev pub Covered : List Hash → List Hash → Hash → Type 0
Covered known marks h = (is_zero h || (member h known || member h marks)) ≡ true

module _ (s : Store) (known : List Hash) where
  -- The object was read, and all that it names is covered.
  abbrev pub Expanded : List Hash → Hash → Type 0
  Expanded marks h = (hs : List Hash) × Names s h hs × All (Covered known marks) hs

  -- From the marks `v` to the marks `w`: none is lost, and each new one was expanded.
  abbrev pub Step : List Hash → List Hash → Type 0
  Step v w =
      ((h : Hash) → member h v ≡ true → member h w ≡ true)
      × ((h : Hash) → member h w ≡ true → (member h v ≡ true) ⊎ Expanded w h)

  Covered-grows :
      (v w : List Hash) (h : Hash)
      → ((g : Hash) → member g v ≡ true → member g w ≡ true)
      → Covered known v h
      → Covered known w h
  Covered-grows v w h f c = ground (arith, c, f h)

  Expanded-grows :
      (v w : List Hash) (h : Hash)
      → ((g : Hash) → member g v ≡ true → member g w ≡ true)
      → Expanded v h
      → Expanded w h
  Expanded-grows v w h f (hs, n, a) = (hs, n, All-map _ _ hs (λ c. Covered-grows v w c f) a)

  Step-trans : (u v w : List Hash) → Step u v → Step v w → Step u w
  Step-trans u v w p q = (
    λ h m. q.0 h (p.0 h m),
    λ h m. elim (q.1 h m) [
      | inr x ↦ inr x
      | inl n ↦ elim (p.1 h n) [ inl k ↦ inl k | inr x ↦ inr (Expanded-grows v w h q.0 x) ]
    ],
  )

  -- A walk of one hash, and of the hashes of a list.
  abbrev Walks : Hash → List Hash → List Hash → Type 0
  Walks h v w = Step v w × Covered known w h

  abbrev WalksAll : List Hash → List Hash → List Hash → Type 0
  WalksAll hs v w = Step v w × All (Covered known w) hs

  each-WalksAll :
      (fn : Hash → Walk)
      → ((h : Hash) (v : List Hash) → AfterWalk (Walks h v) (fn h v))
      → (hs v : List Hash) → AfterWalk (WalksAll hs v) (each fn hs v)
  unfolding each
  each-WalksAll fn f [] v = ((λ h m. m, λ h m. inl m), tt)
  each-WalksAll fn f (h ∷ hs) v =
      AfterWalk-then_do (Walks h v) (WalksAll (h ∷ hs) v) (fn h v) (each fn hs) (f h v) (λ u p.
        AfterWalk-map (WalksAll hs u) (WalksAll (h ∷ hs) v) (each fn hs u)
          (λ w q. (Step-trans v u w p.0 q.0, (Covered-grows u w h q.0.0 p.1, q.1)))
          (each-WalksAll fn f hs u))

  mark_head : (h : Hash) (v : List Hash) → member h (h ∷ v) ≡ true
  unfolding member
  mark_head h v = ground (arith, bytes_eq_iff h h)

  mark_tail : (h g : Hash) (v : List Hash) → member g v ≡ true → member g (h ∷ v) ≡ true
  unfolding member
  mark_tail h g v m = ground (arith, m)

  mark_split :
      (h g : Hash) (v : List Hash) → member g (h ∷ v) ≡ true → (h ≡ g) ⊎ (member g v ≡ true)
  unfolding member
  mark_split h g v m = ground (arith, m, bytes_eq_iff h g)

  -- The marks after a hash was marked, and all that its object names was walked.
  expand-Walks :
      (h : Hash) (v w hs : List Hash) → Names s h hs → WalksAll hs (h ∷ v) w → Walks h v w
  expand-Walks h v w hs n (step, covered) =
      let here = step.0 h (mark_head h v) in
      (
        (
          λ g m. step.0 g (mark_tail h g v m),
          λ g m. elim (step.1 g m) [
            | inr x ↦ inr x
            | inl k ↦ elim (mark_split h g v k) [
              | inl e ↦ inr (subst (Expanded w) e (hs, n, covered))
              | inr j ↦ inl j
            ]
          ],
        ),
        ground (arith, here),
      )

  walk_missing-Walks :
      (fuel : ℕ) (h : Hash) (v : List Hash) → AfterWalk (Walks h v) (walk_missing s fuel known h v)
  unfolding walk_missing walk_children
  walk_missing-Walks zero h v = tt
  walk_missing-Walks (suc fuel) h v =
      AfterWalk-split (Walks h v) (is_zero h || (member h known || member h v)) _ _
        (λ e. ((λ g m. m, λ g m. inl m), e))
        (λ e. AfterWalk-with_do (Walks h v) (h ∷ v) (get_object s h) _ (λ obj stored.
          AfterWalk-with_do (Walks h v) (h ∷ v) (children obj) _ (λ hs read.
            AfterWalk-map (WalksAll hs (h ∷ v)) (Walks h v)
              (each (walk_missing s fuel known) hs (h ∷ v))
              (λ w. expand-Walks h v w hs (obj, stored, read))
              (each-WalksAll (walk_missing s fuel known) (walk_missing-Walks fuel) hs (h ∷ v)))))

  -- A walk that succeeds loses no mark.
  pub walk_missing-keeps :
      (fuel : ℕ) (h : Hash) (v : List Hash)
      → AfterWalk
          (λ w. (g : Hash) → member g v ≡ true → member g w ≡ true)
          (walk_missing s fuel known h v)
  walk_missing-keeps fuel h v =
      AfterWalk-map (Walks h v) _ (walk_missing s fuel known h v) (λ w p. p.0.0)
        (walk_missing-Walks fuel h v)

  -- After the walks from the roots succeed, the marks hold all roots that are not known, and with a
  -- mark all that its object names.
  pub collect_missing-Closed :
      (fuel : ℕ) (roots : List Hash)
      → AfterWalk
          (λ marks.
            All (Covered known marks) roots
            × ((h : Hash) → member h marks ≡ true → Expanded marks h))
          (collect_missing s fuel roots known [])
  unfolding collect_missing
  collect_missing-Closed fuel roots =
      AfterWalk-map (WalksAll roots []) _ (each (walk_missing s fuel known) roots [])
        (λ w p. (
          p.1,
          λ h m. elim (p.0.1 h m) [
            | inr x ↦ x
            | inl none_at ↦ absurd (unfold member in cc none_at)
          ],
        ))
        (each-WalksAll (walk_missing s fuel known) (walk_missing-Walks fuel) roots [])
