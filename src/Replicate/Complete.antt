-- ===== src/Replicate/Complete.antt =====
-- Two stores that never disagree about an object, and what is reached from a hash in each.
use zonegit.Base.{
  ◌≡◌, ◌⊎◌, ◌∙◌, sym, arith, true, false, List, [], ◌∷◌, bytes_eq, bytes_eq_iff, ok, ok_injective,
  All, Bool-cases, inl, inr,
}
use mathlib.Core.Path.{subst}
use zonegit.Store.Hash.{Hash, IsHash, is_zero}
use zonegit.Store.MemStore.{Object, Store, get_object}
use zonegit.Object.TreeOps.Stored.{Extends}
use zonegit.Repo.{member}
use zonegit.Replicate.{children}
use zonegit.Replicate.Walked.{Names, Covered, Expanded}

-- The hashes reached from `d` through what stored objects name; the zero hash names nothing.
pub data Reaches (s : Store) (d : Hash) : Hash → Type 0 where
  itself : Reaches s d d
  child :
      {h c : Hash} {hs : List Hash}
      → Reaches s d h
      → is_zero h ≡ false
      → Names s h hs
      → member c hs ≡ true
      → Reaches s d c

-- Every object reached from `d` is stored and can be read.
abbrev pub Complete : Store → Hash → Type 0
Complete s d = (h : Hash) → Reaches s d h → is_zero h ≡ false → (hs : List Hash) × Names s h hs

-- An object that both stores hold is the same: its hash is its content's.
abbrev pub SameObjects : Store → Store → Type 0
SameObjects p l =
    (h : Hash) (o o' : Object) → get_object p h ≡ ok o → get_object l h ≡ ok o' → o ≡ o'

-- What the type of a hash says of the hashes that a store's objects name.
abbrev pub TypedObjects : Store → Type 0
TypedObjects s = (h : Hash) (hs : List Hash) → Names s h hs → All IsHash hs

pub All-at : (P : Hash → Type 0) (h : Hash) (hs : List Hash) → All P hs → member h hs ≡ true → P h
unfolding member
All-at P h [] all m = absurd (ground (arith, m))
All-at P h (g ∷ gs) all m = elim (Bool-cases (bytes_eq g h)) [
  | inl e ↦ subst P ((bytes_eq_iff g h).0 e) all.0
  | inr e ↦ All-at P h gs all.1 (ground (arith, m, e))
]

Names-same :
    (p l : Store) (h : Hash) (hs ks : List Hash)
    → SameObjects p l
    → Names p h hs
    → Names l h ks
    → hs ≡ ks
Names-same p l h hs ks same (o, at_p, read) (o', at_l, read') =
    let e = same h o o' at_p at_l in
    ok_injective (sym read ∙ subst (λ x. children x ≡ ok ks) (sym e) read')

Names-Extends :
    (s s' : Store) (h : Hash) (hs : List Hash) → Extends s s' → Names s h hs → Names s' h hs
Names-Extends s s' h hs ext (o, at_s, read) = (o, ext h o at_s, read)

pub SameObjects-refl : (s : Store) → SameObjects s s
SameObjects-refl s h o o' e e' = ok_injective (sym e ∙ e')

SameObjects-Extends : (s s' : Store) → Extends s s' → SameObjects s s'
SameObjects-Extends s s' ext h o o' e e' = ok_injective (sym (ext h o e) ∙ e')

-- What one store reaches is reached in another that agrees and is complete.
pub Reaches-carry :
    (p l : Store) (d h : Hash) → SameObjects p l → Complete l d → Reaches p d h → Reaches l d h
Reaches-carry p l d h same whole itself = itself
Reaches-carry p l d h same whole (child {h = g} {hs = hs} r nz n m) =
    let r' = Reaches-carry p l d g same whole r in
    let (ks, n') = whole g r' nz in
    child r' nz n' (subst (λ xs. member h xs ≡ true) (Names-same p l g hs ks same n n') m)

SameObjects-sym : (p l : Store) → SameObjects p l → SameObjects l p
SameObjects-sym p l same h o o' e e' = sym (same h o' o e' e)

-- A history that is complete stays complete in a store that grows.
pub Complete-Extends : (s s' : Store) (d : Hash) → Extends s s' → Complete s d → Complete s' d
Complete-Extends s s' d ext whole h r nz =
    let back = SameObjects-sym s s' (SameObjects-Extends s s' ext) in
    let (hs, n) = whole h (Reaches-carry s' s d h back whole r) nz in
    (hs, Names-Extends s s' h hs ext n)

-- The secondary's store `l'`, after it has received all that the walk on the primary's store `p`
-- marked, and that is not already reached from the hash `local` of its store `l`.
module _ (p l l' : Store) (local next : Hash) (known marks : List Hash) (same : SameObjects p l')
    (ext : Extends l l') (held : (h : Hash) → member h known ≡ true → Reaches l local h)
    (whole : Complete l local) (root : Covered known marks next)
    (closed : (h : Hash) → member h marks ≡ true → Expanded p known marks h)
    (received : (h : Hash) → member h marks ≡ true → (o : Object) × (get_object l' h ≡ ok o)) where
  abbrev Kept : Hash → Type 0
  Kept h = (is_zero h ≡ true) ⊎ ((member h marks ≡ true) ⊎ Reaches l local h)

  Covered-Kept : (h : Hash) → Covered known marks h → Kept h
  Covered-Kept h c = elim (Bool-cases (is_zero h)) [
    | inl z ↦ inl z
    | inr z ↦ elim (Bool-cases (member h known)) [
      | inl k ↦ inr (inr (held h k))
      | inr k ↦ inr (inl (ground (arith, c, z, k)))
    ]
  ]

  received-Names :
      (h : Hash)
      → member h marks ≡ true
      → (hs : List Hash) × Names l' h hs × All (Covered known marks) hs
  received-Names h m =
      let (hs, (o, at_p, read), all) = closed h m in
      let (o', at_l) = received h m in
      (hs, (o', at_l, subst (λ x. children x ≡ ok hs) (same h o o' at_p at_l) read), all)

  Kept-Names :
      (h : Hash)
      → Kept h
      → is_zero h ≡ false
      → (hs : List Hash) × Names l' h hs × ((c : Hash) → member c hs ≡ true → Kept c)
  Kept-Names h (inl z) nz = absurd (ground (arith, z, nz))
  Kept-Names h (inr (inl m)) nz =
      let (hs, n, all) = received-Names h m in
      (hs, n, λ c at_c. Covered-Kept c (All-at (Covered known marks) c hs all at_c))
  Kept-Names h (inr (inr r)) nz =
      let (hs, n) = whole h r nz in
      (hs, Names-Extends l l' h hs ext n, λ c at_c. inr (inr (child r nz n at_c)))

  Reaches-Kept : (h : Hash) → Reaches l' next h → Kept h
  Reaches-Kept h itself = Covered-Kept next root
  Reaches-Kept h (child {h = g} {hs = hs} r nz n m) =
      let (ks, n', f) = Kept-Names g (Reaches-Kept g r) nz in
      f h (subst (λ xs. member h xs ≡ true) (Names-same l' l' g hs ks (SameObjects-refl l') n n') m)

  -- The new hash is complete.
  pub received-Complete : Complete l' next
  received-Complete h r nz = let (hs, n, f) = Kept-Names h (Reaches-Kept h r) nz in (hs, n)
