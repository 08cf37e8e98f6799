-- ===== src/Replicate/Fetch.antt =====
-- What a fetch of objects from a primary that serves one store does to the secondary's store.
use zonegit.Base.{
  ℕ, ◌≡◌, refl, sym, ◌∙◌, arith, true, false, List, [], ◌∷◌, ◌++◌, length, drop-append, Bytes,
  bytes_eq, bytes_eq_iff, if◌then◌else◌, Option-cases, Result, ok, err, Error, Result-cases,
  Outcome, ◌then_do◌, with_do, lookup, All, Bool-cases, inl, inr, ◌⊎◌, ◌>>=◌, ap, codes,
  ok_injective, err_not_ok,
}
use mathlib.Core.Path.{subst}
use zonegit.Store.Hash.{Hash, parse_hash}
use zonegit.Store.MemStore.{Object, Store, get_object, has_object, put_object}
use zonegit.Object.TreeOps.Stored.{Extends, Extends-trans}
use zonegit.Refs.{trim_prefix}
use zonegit.Refs.Names.{has_prefix-append}
use zonegit.Repo.Staging.{Repo}
use zonegit.Replicate.{base_path, handle_object, reply_object, Reply, WalkRequest}
use zonegit.Replicate.Client.{Primary, primary_of, status_ok, fetch_object, fetch_one, fetch_all}
use zonegit.Replicate.Complete.{SameObjects}

pub trim_prefix-append : (p s : Bytes) → trim_prefix (p ++ s) p ≡ s
unfolding trim_prefix
trim_prefix-append p s = rw (has_prefix-append p s) (drop-append p s (length p) refl)

objects_path : Bytes
objects_path = base_path ++ codes "/objects/"

-- The store holds an object under the hash.
abbrev pub Holds : Store → Hash → Type 0
Holds s h = (o : Object) × (get_object s h ≡ ok o)

has_object-Holds : (s : Store) (h : Hash) → has_object s h ≡ true → Holds s h
unfolding has_object get_object
has_object-Holds s h e = elim (Option-cases (lookup h s.objects)) [
  | inl n ↦ absurd (ground (arith, n, e))
  | inr (o, n) ↦ (o, ground (arith, n))
]

has_object-get :
    (s : Store) (h : Hash) {o : Object} → has_object s h ≡ false → get_object s h ≡ ok o → ⊥
unfolding has_object get_object
has_object-get s h {o} e g = elim (Option-cases (lookup h s.objects)) [
  | inl n ↦ ground (arith, n, g)
  | inr (p, n) ↦ ground (arith, n, e)
]

get_object-put :
    (k h : Hash) (o : Object) (s : Store)
    → get_object (put_object k o s) h ≡ (if bytes_eq k h then ok o else get_object s h)
unfolding get_object put_object lookup
get_object-put k h o s = ground arith

status_ok-reply_object :
    (res : Result Object) (o : Object) → status_ok (reply_object res) ≡ ok o → res ≡ ok o
unfolding status_ok reply_object
status_ok-reply_object (ok o') o e = e
status_ok-reply_object (err Error.not_found) o e = absurd (err_not_ok e)
status_ok-reply_object (err x) o e = absurd (err_not_ok e)

-- The request failed on the way, or at the server.
abbrev pub Lost : {Body : Type 0} → Result (Reply Body) → Type 0
Lost answer = (x : Error) × ((answer >>= status_ok) ≡ err x)

-- A primary that serves one repository, over a line on which any request for a walk or an object can
-- get lost. What it lists is left open.
pub record Serves (fuel : ℕ) (r : Repo) (p : Primary) : Type 0 where
  pub walk : (req : WalkRequest) → Lost (p.walk req) ⊎ (p.walk req ≡ (primary_of fuel r).walk req)
  pub object :
      (path : Bytes) → Lost (p.object path) ⊎ (p.object path ≡ (primary_of fuel r).object path)

pub Serves-primary_of : (fuel : ℕ) (r : Repo) → Serves fuel r (primary_of fuel r)
Serves-primary_of fuel r = record { walk = λ req. inr refl; object = λ path. inr refl }

-- An answer that was not lost is the server's.
pub answer-served :
    {Body : Type 0} (answer served : Result (Reply Body)) (v : Body)
    → Lost answer ⊎ (answer ≡ served)
    → (answer >>= status_ok) ≡ ok v
    → (served >>= status_ok) ≡ ok v
answer-served answer served v (inl (x, lost)) e = absurd (err_not_ok (sym lost ∙ e))
answer-served answer served v (inr same) e = ap (λ z. z >>= status_ok) (sym same) ∙ e

module _ (fuel : ℕ) (r : Repo) where
  -- The primary answers with the object that its store holds.
  fetch_object-stored :
      (hex : Bytes) (h : Hash) (o : Object)
      → parse_hash hex ≡ ok h
      → fetch_object (primary_of fuel r) hex ≡ ok o
      → get_object r.storage h ≡ ok o
  unfolding fetch_object primary_of handle_object bytes_eq
  fetch_object-stored hex h o parsed e =
      let path = trim_prefix-append (base_path ++ codes "/objects/") hex in
      status_ok-reply_object (get_object r.storage h) o (rw (path, parsed) at e)

  module _ (l : Store) where
    -- No object is lost or replaced, no ref moves, and the two stores still agree.
    abbrev pub Grown : Store → Type 0
    Grown l' =
        Extends l l' × (l'.refs ≡ l.refs) × (SameObjects r.storage l → SameObjects r.storage l')

  put_object-Grown :
      (h : Hash) (obj : Object) (l : Store)
      → has_object l h ≡ false
      → get_object r.storage h ≡ ok obj
      → Grown l (put_object h obj l)
  unfolding put_object
  put_object-Grown h obj l absent stored = (
    λ k o e. elim (Bool-cases (bytes_eq h k)) [
      | inl same ↦ absurd (has_object-get l h {o = o} absent (rw ((bytes_eq_iff h k).0 same) e))
      | inr apart ↦ get_object-put h k obj l ∙ ground (arith, apart, e)
    ],
    refl,
    λ same k o o' at_p at_l. elim (Bool-cases (bytes_eq h k)) [
      | inl e ↦
          let p = (bytes_eq_iff h k).0 e in
          ground (arith, get_object-put h k obj l, e, p, stored, at_p, at_l, rw p at stored)
      | inr e ↦ same k o o' at_p (ground (arith, get_object-put h k obj l, e, at_l))
    ],
  )

  Grown-refl : (l : Store) → Grown l l
  Grown-refl l = (λ h o e. e, refl, λ same. same)

  Grown-trans : (l m n : Store) → Grown l m → Grown m n → Grown l n
  Grown-trans l m n (e, p, f) (e', p', f') = (Extends-trans l m n e e', p' ∙ p, λ same. f' (f same))

  -- The hash that the text stands for is held.
  abbrev pub Fetched : Store → Bytes → Type 0
  Fetched l hex = (h : Hash) → parse_hash hex ≡ ok h → Holds l h

  Fetched-Extends : (l m : Store) (hex : Bytes) → Extends l m → Fetched l hex → Fetched m hex
  Fetched-Extends l m hex ext f h e = let (o, g) = f h e in (o, ext h o g)

  abbrev pub OnDone : (Store → Type 0) → Outcome Store (Unit {0}) → Type 0
  OnDone P (ok _, l) = P l
  OnDone P (err _, l) = Unit {0}

  abbrev FetchesOne : Bytes → Store → Outcome Store (Unit {0}) → Type 0
  FetchesOne hex l m = Grown l m.1 × OnDone (λ l'. Fetched l' hex) m

  module _ (p : Primary) (serves : Serves fuel r p) where
    fetch_object-served :
        (hex : Bytes) (o : Object)
        → fetch_object p hex ≡ ok o
        → fetch_object (primary_of fuel r) hex ≡ ok o
    unfolding fetch_object
    fetch_object-served hex o =
        answer-served _ _ o (serves.object (base_path ++ (codes "/objects/" ++ hex)))

    fetch_new :
        (hex : Bytes) (h : Hash) (l : Store)
        → parse_hash hex ≡ ok h
        → has_object l h ≡ false
        → FetchesOne hex l (with_do l (fetch_object (p) hex) (λ obj. (ok tt, put_object h obj l)))
    fetch_new hex h l parsed absent = elim (Result-cases (fetch_object (p) hex)) [
      | inr (x, e) ↦ rw e (Grown-refl l, tt)
      | inl (obj, e) ↦
          let stored = fetch_object-stored hex h obj parsed (fetch_object-served hex obj e) in
          rw e (
            put_object-Grown h obj l absent stored,
            λ k parsed'.
                let same : h ≡ k = ok_injective (sym parsed ∙ parsed') in
                (obj, get_object-put h k obj l ∙ ground (arith, bytes_eq_iff h k, same)),
          )
    ]

    FetchesOne-with_do :
        (hex : Bytes) (l : Store) (res : Result Hash) (f : Hash → Outcome Store (Unit {0}))
        → ((h : Hash) → res ≡ ok h → FetchesOne hex l (f h))
        → FetchesOne hex l (with_do l res f)
    FetchesOne-with_do hex l (ok h) f g = g h refl
    FetchesOne-with_do hex l (err x) f g = (Grown-refl l, tt)

    fetch_one-Fetches : (hex : Bytes) (l : Store) → FetchesOne hex l (fetch_one (p) hex l)
    unfolding fetch_one
    fetch_one-Fetches hex l = FetchesOne-with_do hex l (parse_hash hex) _ (λ h e.
        elim (Bool-cases (has_object l h)) [
          | inl held ↦ rw held (
            Grown-refl l,
            λ k e'. subst (Holds l) (ok_injective (sym e ∙ e')) (has_object-Holds l h held),
          )
          | inr absent ↦ rw absent (fetch_new hex h l e absent)
        ])

    then_fetch :
        (hexes : List Bytes) (hex : Bytes) (l : Store) (m : Outcome Store (Unit {0}))
        → FetchesOne hex l m
        → ((l' : Store)
            → Grown l' (fetch_all (p) hexes l').1
              × OnDone (λ l''. All (Fetched l'') hexes) (fetch_all (p) hexes l'))
        → Grown l (m then_do (λ _. fetch_all (p) hexes)).1
          × OnDone (λ l''. All (Fetched l'') (hex ∷ hexes)) (m then_do (λ _. fetch_all (p) hexes))
    then_fetch hexes hex l (err e, l') (g, f) rest = (g, tt)
    then_fetch hexes hex l (ok _, l') (g, f) rest =
        let (g', f') = rest l' in (Grown-trans l l' _ g g', done (fetch_all (p) hexes l') g' f')
      where
        done :
            (n : Outcome Store (Unit {0}))
            → Grown l' n.1
            → OnDone (λ l''. All (Fetched l'') hexes) n
            → OnDone (λ l''. All (Fetched l'') (hex ∷ hexes)) n
        done (ok _, l'') h k = (Fetched-Extends l' l'' hex h.0 f, k)
        done (err e, l'') h k = tt

    -- However the fetch ends, the store has only grown; after one that succeeds it holds all hashes.
    pub fetch_all-Fetches :
        (hexes : List Bytes) (l : Store)
        → Grown l (fetch_all (p) hexes l).1
          × OnDone (λ l'. All (Fetched l') hexes) (fetch_all (p) hexes l)
    unfolding fetch_all
    fetch_all-Fetches [] l = (Grown-refl l, tt)
    fetch_all-Fetches (hex ∷ hexes) l =
        then_fetch hexes hex l (fetch_one (p) hex l) (fetch_one-Fetches hex l)
          (fetch_all-Fetches hexes)
