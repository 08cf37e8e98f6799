-- ===== src/Repo/Ancestry.antt =====
-- What the searches for ancestors find.
use zonegit.Base.{
  ℕ, zero, suc, ◌≡◌, ◌⊎◌, refl, sym, arith, ◌||◌, Bool, true, false, List, [], ◌∷◌, ◌++◌, bytes_eq,
  bytes_eq_iff, Result, ok, err, Bool-cases, inl, inr, All, All-append, get_elem?, some, ◌>>=◌,
}
use mathlib.Core.Path.{subst}
use zonegit.Store.Hash.{Hash, zero_hash, is_zero, is_zero_iff}
use zonegit.Store.MemStore.{Store}
use zonegit.Object.Commit.{Commit}
use zonegit.Repo.{
  load_commit, member, unseen, enqueue, ancestor_round, ancestor_loop, ancestor_set, search,
  merge_base, is_ancestor, first_or_zero,
}

-- The commits that are reached from `d` by going to a parent, any number of times.
pub data Ancestor (s : Store) (d : Hash) : Hash → Type 0 where
  itself : Ancestor s d d
  parent :
      {h p : Hash} {c : Commit} (i : ℕ)
      → Ancestor s d h
      → load_commit s h ≡ ok c
      → get_elem? c.parents i ≡ some p
      → Ancestor s d p

All-of_get :
    (P : Hash → Type 0) (hs : List Hash)
    → ((i : ℕ) (h : Hash) → get_elem? hs i ≡ some h → P h)
    → All P hs
All-of_get P [] f = tt
All-of_get P (h ∷ hs) f = (f 0 h refl, All-of_get P hs (λ i. f (suc i)))

All-member : (P : Hash → Type 0) (h : Hash) (hs : List Hash) → All P hs → member h hs ≡ true → P h
unfolding member
All-member P h [] all m = absurd (ground (arith, m))
All-member P h (g ∷ gs) all m = elim (Bool-cases (bytes_eq g h)) [
  | inl e ↦ subst P ((bytes_eq_iff g h).0 e) all.0
  | inr e ↦ All-member P h gs all.1 (ground (arith, m, e))
]

All-unseen : (P : Hash → Type 0) (out ps : List Hash) → All P ps → All P (unseen out ps)
unfolding unseen
All-unseen P out [] all = tt
All-unseen P out (p ∷ ps) all = elim (Bool-cases (member p out)) [
  | inl e ↦ rw e (All-unseen P out ps all.1)
  | inr e ↦ rw e (all.0, All-unseen P out ps all.1)
]

pub All-enqueue :
    (P : Hash → Type 0) (ps queue visited : List Hash)
    → All P ps
    → All P queue
    → All P (enqueue ps queue visited).0
unfolding enqueue
All-enqueue P [] queue visited all q = q
All-enqueue P (p ∷ ps) queue visited all q = elim (Bool-cases (member p visited)) [
  | inl e ↦ rw e (All-enqueue P ps queue visited all.1 q)
  | inr e ↦ rw e (
      All-enqueue P ps (queue ++ (p ∷ [])) (p ∷ visited) all.1
        (All-append P queue (p ∷ []) q (all.0, tt)))
]

-- The property of a result that is no error.
abbrev pub OnOk : {A : Type 0} → (A → Type 0) → Result A → Type 0
OnOk P (ok a) = P a
OnOk P (err e) = Unit {0}

pub OnOk-then :
    {A B : Type 0} (P : A → Type 0) (Q : B → Type 0) (r : Result A) (f : A → Result B)
    → OnOk P r
    → ((a : A) → P a → OnOk Q (f a))
    → OnOk Q (r >>= f)
OnOk-then P Q (ok a) f p g = g a p
OnOk-then P Q (err e) f p g = tt

pub OnOk-of_eq : {A : Type 0} (r : Result A) → OnOk (λ a. r ≡ ok a) r
OnOk-of_eq (ok a) = refl
OnOk-of_eq (err e) = tt

module _ (s : Store) (d : Hash) where
  pub parents-Ancestor :
      (h : Hash) (c : Commit)
      → Ancestor s d h
      → load_commit s h ≡ ok c
      → All (Ancestor s d) c.parents
  parents-Ancestor h c a e = All-of_get (Ancestor s d) c.parents (λ i p at_i. parent i a e at_i)

  abbrev BothAncestors : List Hash × List Hash → Type 0
  BothAncestors next = All (Ancestor s d) next.0 × All (Ancestor s d) next.1

  ancestor_round-Ancestor :
      (h : Hash) (queue out : List Hash)
      → Ancestor s d h
      → All (Ancestor s d) queue
      → All (Ancestor s d) out
      → OnOk BothAncestors (ancestor_round s h queue out)
  unfolding ancestor_round
  ancestor_round-Ancestor h queue out a q o = elim (Bool-cases (member h out)) [
    | inl e ↦ rw e (q, o)
    | inr e ↦ rw e (
        OnOk-then (λ c. load_commit s h ≡ ok c) BothAncestors (load_commit s h)
          (λ c. ok (queue ++ unseen (h ∷ out) c.parents, h ∷ out)) (OnOk-of_eq (load_commit s h))
          (λ c at_c. (
            All-append (Ancestor s d) queue (unseen (h ∷ out) c.parents) q
                (All-unseen (Ancestor s d) (h ∷ out) c.parents (parents-Ancestor h c a at_c)),
            (a, o),
          )))
  ]

  ancestor_loop-Ancestor :
      (fuel : ℕ) (queue out : List Hash)
      → All (Ancestor s d) queue
      → All (Ancestor s d) out
      → OnOk (All (Ancestor s d)) (ancestor_loop s fuel queue out)
  unfolding ancestor_loop
  ancestor_loop-Ancestor zero [] out q o = o
  ancestor_loop-Ancestor (suc fuel) [] out q o = o
  ancestor_loop-Ancestor zero (h ∷ queue) out q o = tt
  ancestor_loop-Ancestor (suc fuel) (h ∷ queue) out q o =
      OnOk-then BothAncestors (All (Ancestor s d)) (ancestor_round s h queue out)
        (λ next. ancestor_loop s fuel next.0 next.1) (ancestor_round-Ancestor h queue out q.0 q.1 o)
        (λ next both. ancestor_loop-Ancestor fuel next.0 next.1 both.0 both.1)

  -- What a search finds passes the test, and is reached from where it started.
  abbrev Found : (Hash → Bool) → List Hash → Type 0
  Found test = All (λ h. Ancestor s d h × (test h ≡ true))

  search-Ancestor :
      (fuel : ℕ) (test : Hash → Bool) (queue visited : List Hash)
      → All (Ancestor s d) queue
      → OnOk (Found test) (search s fuel test queue visited)
  unfolding search
  search-Ancestor zero test [] visited q = tt
  search-Ancestor (suc fuel) test [] visited q = tt
  search-Ancestor zero test (g ∷ queue) visited q = tt
  search-Ancestor (suc fuel) test (g ∷ queue) visited q = elim (Bool-cases (test g)) [
    | inl e ↦ rw e ((q.0, e), tt)
    | inr e ↦ rw e (
        OnOk-then (λ c. load_commit s g ≡ ok c) (Found test) (load_commit s g)
          (λ c.
            search s fuel test (enqueue c.parents queue visited).0
              (enqueue c.parents queue visited).1)
          (OnOk-of_eq (load_commit s g))
          (λ c at_c.
            search-Ancestor fuel test (enqueue c.parents queue visited).0
              (enqueue c.parents queue visited).1
              (All-enqueue (Ancestor s d) c.parents queue visited (parents-Ancestor g c q.0 at_c)
                q.1)))
  ]

pub OnOk-at : {A : Type 0} (P : A → Type 0) (r : Result A) (a : A) → r ≡ ok a → OnOk P r → P a
OnOk-at P r a e p = subst (OnOk P) e p

module _ (s : Store) (a b : Hash) where
  -- What `merge_base` promises of the hash that it returns.
  abbrev Common : Hash → Type 0
  Common h = is_zero h ≡ false → Ancestor s a h × Ancestor s b h

  zero_hash-Common : Common zero_hash
  zero_hash-Common nz = absurd (ground (arith, nz, is_zero_iff zero_hash))

  first_or_zero-Common :
      (anc hs : List Hash)
      → All (Ancestor s a) anc
      → Found s b (λ h. member h anc) hs
      → Common (first_or_zero hs)
  unfolding first_or_zero
  first_or_zero-Common anc [] all f = zero_hash-Common
  first_or_zero-Common anc (h ∷ hs) all f = λ _. (All-member (Ancestor s a) h anc all f.0.1, f.0.0)

  ancestor_set-Ancestor : (fuel : ℕ) → OnOk (All (Ancestor s a)) (ancestor_set s fuel a)
  unfolding ancestor_set
  ancestor_set-Ancestor fuel = ancestor_loop-Ancestor s a fuel (a ∷ []) [] (itself, tt) tt

  merge_base-Common : (fuel : ℕ) → OnOk Common (merge_base s fuel a b)
  unfolding merge_base
  merge_base-Common fuel = elim (Bool-cases (is_zero a || is_zero b)) [
    | inl z ↦ rw z zero_hash-Common
    | inr z ↦ rw z (elim (Bool-cases (bytes_eq a b)) [
      | inl e ↦ rw e (λ _. (itself, subst (Ancestor s b) (sym ((bytes_eq_iff a b).0 e)) itself))
      | inr e ↦ rw e (
          OnOk-then (All (Ancestor s a)) Common (ancestor_set s fuel a) _
            (ancestor_set-Ancestor fuel)
            (λ anc all.
              OnOk-then (Found s b (λ h. member h anc)) Common
                (search s fuel (λ h. member h anc) (b ∷ []) (b ∷ [])) _
                (search-Ancestor s b fuel (λ h. member h anc) (b ∷ []) (b ∷ []) (itself, tt))
                (λ hs f. first_or_zero-Common anc hs all f)))
    ])
  ]

-- A base that is not zero is an ancestor of both commits.
pub merge_base-Ancestor :
    (s : Store) (fuel : ℕ) (a b h : Hash)
    → merge_base s fuel a b ≡ ok h
    → is_zero h ≡ false
    → Ancestor s a h × Ancestor s b h
merge_base-Ancestor s fuel a b h e =
    OnOk-at (Common s a b) (merge_base s fuel a b) h e (merge_base-Common s a b fuel)

module _ (s : Store) (anc desc : Hash) where
  -- What a yes of `is_ancestor` means.
  abbrev Proved : Bool → Type 0
  Proved answer = answer ≡ true → (is_zero anc ≡ true) ⊎ Ancestor s desc anc

  Found-Proved :
      (hs : List Hash)
      → Found s desc (λ h. bytes_eq h anc) hs
      → Proved (elim hs [ [] ↦ false | _ ∷ _ ↦ true ])
  Found-Proved [] f = λ e. absurd (ground (arith, e))
  Found-Proved (h ∷ hs) f = λ _. inr (subst (Ancestor s desc) ((bytes_eq_iff h anc).0 f.0.1) f.0.0)

  is_ancestor-Proved : (fuel : ℕ) → OnOk Proved (is_ancestor s fuel anc desc)
  unfolding is_ancestor
  is_ancestor-Proved fuel = elim (Bool-cases (is_zero anc || bytes_eq anc desc)) [
    | inl z ↦ rw z (λ _. same (Bool-cases (is_zero anc)) z)
    | inr z ↦ rw z (elim (Bool-cases (is_zero desc)) [
      | inl e ↦ rw e (λ no. absurd (ground (arith, no)))
      | inr e ↦ rw e (
          OnOk-then (Found s desc (λ h. bytes_eq h anc)) Proved
            (search s fuel (λ h. bytes_eq h anc) (desc ∷ []) (desc ∷ [])) _
            (search-Ancestor s desc fuel (λ h. bytes_eq h anc) (desc ∷ []) (desc ∷ []) (itself, tt))
            Found-Proved)
    ])
  ]
    where
      same :
          (is_zero anc ≡ true) ⊎ (is_zero anc ≡ false)
          → (is_zero anc || bytes_eq anc desc) ≡ true
          → (is_zero anc ≡ true) ⊎ Ancestor s desc anc
      same (inl e) z = inl e
      same (inr e) z =
          inr (
            subst (Ancestor s desc) (sym ((bytes_eq_iff anc desc).0 (ground (arith, e, z)))) itself)

-- If `is_ancestor` says yes, the first commit is zero or reached from the second.
pub is_ancestor-Ancestor :
    (s : Store) (fuel : ℕ) (anc desc : Hash)
    → is_ancestor s fuel anc desc ≡ ok true
    → (is_zero anc ≡ true) ⊎ Ancestor s desc anc
is_ancestor-Ancestor s fuel anc desc e =
    OnOk-at (Proved s anc desc) (is_ancestor s fuel anc desc) true e
      (is_ancestor-Proved s anc desc fuel) refl
