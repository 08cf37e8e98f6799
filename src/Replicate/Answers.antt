-- ===== src/Replicate/Answers.antt =====
-- What the answer of a primary to the walk of a pull stands for.
use zonegit.Base.{
  ℕ, ◌≡◌, refl, sym, ap, arith, true, false, not, List, [], ◌∷◌, map, Bytes, bytes_eq, bytes_eq_iff,
  if◌then◌else◌, ok, err, Error, Outcome, All, Bool-cases, inl, inr, ok_injective, err_not_ok,
}
use zonegit.Store.Hash.{Hash, IsHash, is_zero, string, parse_hash}
use zonegit.Store.Hash.Laws.{parse_hash-string}
use zonegit.Store.MemStore.{Store}
use zonegit.Repo.{member}
use zonegit.Repo.Staging.{Repo}
use zonegit.Replicate.{
  WalkResponse, walk_missing, expand_known, collect_missing, reply_missing, walk_from, answer_walk,
  handle_walk, hexes_to_hashes,
}
use zonegit.Replicate.Client.{primary_of, status_ok, ask_missing, known_roots}
use zonegit.Replicate.Walked.{Names}
use zonegit.Replicate.Marks.{each-Keeps, walk_missing-Keeps, expand_known-Keeps}
use zonegit.Replicate.Complete.{Reaches, itself, child, TypedObjects}

pub All-of_member :
    (P : Hash → Type 0) (hs : List Hash) → ((h : Hash) → member h hs ≡ true → P h) → All P hs
unfolding member
All-of_member P [] f = tt
All-of_member P (h ∷ hs) f =
    (f h (ground (arith, bytes_eq_iff h h)), All-of_member P hs (λ c m. f c (ground (arith, m))))

-- A walk that succeeded, and the body that it is answered with.
abbrev pub AnsweredBy : Outcome (List Hash) (Unit {0}) → WalkResponse → Type 0
AnsweredBy m resp = (marks : List Hash) × (m ≡ (ok tt, marks)) × (resp.missing ≡ map string marks)

reply_missing-AnsweredBy :
    (m : Outcome (List Hash) (Unit {0})) (resp : WalkResponse)
    → status_ok (reply_missing m) ≡ ok resp
    → AnsweredBy m resp
unfolding status_ok reply_missing
reply_missing-AnsweredBy (ok tt, marks) resp e =
    (marks, refl, sym (ap (λ (w : WalkResponse). w.missing) (ok_injective e)))
reply_missing-AnsweredBy (err Error.not_found, marks) resp e = absurd (err_not_ok e)
reply_missing-AnsweredBy (err x, marks) resp e = absurd (err_not_ok e)

walk_from-AnsweredBy :
    (s : Store) (fuel : ℕ) (roots : List Hash) (m : Outcome (List Hash) (Unit {0}))
    (resp : WalkResponse)
    → status_ok (walk_from s fuel roots m) ≡ ok resp
    → AnsweredBy (collect_missing s fuel roots m.1 []) resp
unfolding walk_from status_ok
walk_from-AnsweredBy s fuel roots (ok _, ks) resp e =
    reply_missing-AnsweredBy (collect_missing s fuel roots ks []) resp e
walk_from-AnsweredBy s fuel roots (err x, ks) resp e = absurd (err_not_ok e)

-- The hashes that the request of a pull names as known.
abbrev pub known_hashes : Hash → List Hash
known_hashes local = if not (is_zero local) then (local ∷ []) else []

pub hexes_to_hashes-known_roots :
    (local : Hash) → IsHash local → hexes_to_hashes (known_roots local) ≡ ok (known_hashes local)
unfolding hexes_to_hashes known_roots
hexes_to_hashes-known_roots local typed = elim (Bool-cases (is_zero local)) [
  | inl z ↦ rw z refl
  | inr z ↦ rw (z, parse_hash-string local typed) refl
]

pub All-known_hashes : (s : Store) (local : Hash) → All (Reaches s local) (known_hashes local)
All-known_hashes s local = elim (Bool-cases (is_zero local)) [
  | inl z ↦ rw z tt
  | inr z ↦ rw z (itself, tt)
]

pub All-children :
    (s : Store) (d h : Hash) (hs : List Hash)
    → Reaches s d h
    → is_zero h ≡ false
    → Names s h hs
    → All (Reaches s d) hs
All-children s d h hs p nz n = All-of_member (Reaches s d) hs (λ c m. child p nz n m)

module _ (fuel : ℕ) (r : Repo) where
  abbrev pub known_set : Hash → List Hash
  known_set local = (expand_known r.storage fuel (known_hashes local) []).1

  pub ask_missing-AnsweredBy :
      (hex : Bytes) (next local : Hash) (resp : WalkResponse)
      → parse_hash hex ≡ ok next
      → IsHash local
      → ask_missing (primary_of fuel r) (hex ∷ []) (known_roots local) ≡ ok resp
      → AnsweredBy (collect_missing r.storage fuel (next ∷ []) (known_set local) []) resp
  unfolding ask_missing primary_of handle_walk answer_walk hexes_to_hashes bytes_eq
  ask_missing-AnsweredBy hex next local resp parsed typed e =
      walk_from-AnsweredBy r.storage fuel (next ∷ [])
        (expand_known r.storage fuel (known_hashes local) []) resp
        (rw (parsed, hexes_to_hashes-known_roots local typed) at e)

  -- A walk marks hashes only, as the objects' hashes are typed.
  pub marks-IsHash :
      (next : Hash) (ks : List Hash)
      → TypedObjects r.storage
      → IsHash next
      → All IsHash (collect_missing r.storage fuel (next ∷ []) ks []).1
  unfolding collect_missing
  marks-IsHash next ks typed here =
      each-Keeps r.storage IsHash (λ h hs _ _ n. typed h hs n) (walk_missing r.storage fuel ks)
        (walk_missing-Keeps r.storage IsHash (λ h hs _ _ n. typed h hs n) fuel ks) (next ∷ []) []
        (here, tt) tt

  -- What the primary takes for known is reached from the secondary's hash.
  pub known_set-Reaches : (local : Hash) → All (Reaches r.storage local) (known_set local)
  known_set-Reaches local =
      expand_known-Keeps r.storage (Reaches r.storage local)
        (λ h hs p nz n. All-children r.storage local h hs p nz n) fuel (known_hashes local) []
        (All-known_hashes r.storage local) tt
