-- ===== src/Replicate/Pull.antt =====
-- One pull keeps the secondary sound: every branch it has can be read in full.
use zonegit.Base.{
  ℕ, ◌≡◌, refl, sym, ◌∙◌, arith, true, List, [], ◌∷◌, map, Bytes, bytes_eq, ok, err, Result-cases,
  Outcome, ◌then_do◌, All, Bool-cases, inl, inr,
}
use mathlib.Core.Path.{subst}
use zonegit.Store.Hash.{Hash, IsHash, is_zero, is_zero_iff, zero_hash, string, parse_hash}
use zonegit.Store.Hash.Laws.{parse_hash-string, parse_hash-IsHash}
use zonegit.Store.MemStore.{Store, get_ref}
use zonegit.Refs.{canon_zone, get_branch, create_branch, update_branch, register_zone}
use zonegit.Repo.{member}
use zonegit.Repo.Staging.{Repo, add_zone, on_store}
use zonegit.Replicate.{Branch, WalkResponse, collect_missing}
use zonegit.Replicate.Client.{
  Primary, primary_of, ask_missing, fetch_all, known_roots, land_branch, pull_branch, local_hash,
  sync_branch, sync_all, add_zones, get_refs, pull,
}
use zonegit.Replicate.Walked.{AfterWalk, Covered, Expanded, collect_missing-Closed}
use zonegit.Replicate.Complete.{
  Complete, SameObjects, TypedObjects, Reaches, All-at, Reaches-carry, received-Complete,
  Complete-Extends,
}
use zonegit.Replicate.Fetch.{
  Serves, answer-served, Holds, Grown, fetch_all-Fetches, OnDone, Fetched,
}
use zonegit.Replicate.Answers.{known_set, ask_missing-AnsweredBy, marks-IsHash, known_set-Reaches}
use zonegit.Replicate.Healthy.{Healthy, zero_hash-Complete, cas_ref-Healthy, register_zone-Healthy}

zero_hash-IsHash : IsHash zero_hash
unfolding zero_hash
zero_hash-IsHash = ground arith

All-Holds :
    (l : Store) (marks : List Hash)
    → All IsHash marks
    → All (λ hex. (h : Hash) → parse_hash hex ≡ ok h → Holds l h) (map string marks)
    → All (Holds l) marks
All-Holds l [] typed f = tt
All-Holds l (h ∷ hs) typed f = (f.0 h (parse_hash-string h typed.0), All-Holds l hs typed.1 f.1)

get_branch-refs :
    (l l' : Store) (zone name : Bytes)
    → l'.refs ≡ l.refs
    → get_branch l' zone name ≡ get_branch l zone name
unfolding get_branch get_ref
get_branch-refs l l' zone name e = rw e refl

-- A store that has only grown is as sound.
Grown-Healthy :
    (fuel : ℕ) (r : Repo) (l l' : Store)
    → Grown fuel r l l'
    → Healthy r.storage l
    → Healthy r.storage l'
Grown-Healthy fuel r l l' (ext, same_refs, same) healthy = record {
  same = same healthy.same;
  branches = λ zone name d e.
      let (typed, whole) =
        healthy.branches zone name d (sym (get_branch-refs l l' zone name same_refs) ∙ e) in
      (typed, Complete-Extends l l' d ext whole);
}

module _ (fuel : ℕ) (r : Repo) (typed : TypedObjects r.storage) (primary : Primary)
    (serves : Serves fuel r primary) where
  abbrev Sound : Store → Type 0
  Sound = Healthy r.storage

  -- All objects of a walk's answer were received: the new hash is complete.
  received :
      (next local : Hash) (marks : List Hash) (l l' : Store)
      → IsHash next
      → collect_missing r.storage fuel (next ∷ []) (known_set fuel r local) [] ≡ (ok tt, marks)
      → All (λ hex. (h : Hash) → parse_hash hex ≡ ok h → Holds l' h) (map string marks)
      → Grown fuel r l l'
      → SameObjects r.storage l
      → Complete l local
      → Complete l' next
  received next local marks l l' is_hash walked fetched (ext, _, same) same_l whole =
      let ks = known_set fuel r local in
      let closed : All (Covered ks marks) (next ∷ [])
          × ((h : Hash) → member h marks ≡ true → Expanded r.storage ks marks h) =
        subst
          (AfterWalk (λ w.
            All (Covered ks w) (next ∷ [])
            × ((h : Hash) → member h w ≡ true → Expanded r.storage ks w h)))
          walked (collect_missing-Closed r.storage ks fuel (next ∷ [])) in
      let all_marks : All IsHash marks =
        subst (λ (m : Outcome (List Hash) (Unit {0})). All IsHash m.1) walked
          (marks-IsHash fuel r next ks typed is_hash) in
      received-Complete r.storage l l' local next ks marks (same same_l) ext
        (λ h m.
          Reaches-carry r.storage l local h same_l whole
            (All-at (Reaches r.storage local) h ks (known_set-Reaches fuel r local) m))
        whole closed.0.0 closed.1
        (λ h m. All-at (Holds l') h marks (All-Holds l' marks all_marks fetched) m)

  land_branch-Healthy :
      (b : Branch) (next local : Hash) (l : Store)
      → IsHash next
      → Complete l next
      → Sound l
      → Sound (land_branch b next local l).1
  unfolding land_branch create_branch update_branch
  land_branch-Healthy b next local l is_hash whole sound = elim (Bool-cases (is_zero local)) [
    | inl z ↦ rw z (cas_ref-Healthy r.storage l _ _ next sound (λ _ _ _. (is_hash, whole)))
    | inr z ↦ rw z (cas_ref-Healthy r.storage l _ _ next sound (λ _ _ _. (is_hash, whole)))
  ]

  -- After the fetch, a branch moves only if all was received.
  land-Fetched :
      (b : Branch) (next local : Hash) (l : Store) (hexes : List Bytes)
      (m : Outcome Store (Unit {0}))
      → IsHash next
      → Sound l
      → Grown fuel r l m.1
      → OnDone fuel r (λ l'. All (Fetched fuel r l') hexes) m
      → ((l' : Store) → Grown fuel r l l' → All (Fetched fuel r l') hexes → Complete l' next)
      → Sound (m then_do (λ _. land_branch b next local)).1
  land-Fetched b next local l hexes (err e, l') is_hash sound g f whole =
      Grown-Healthy fuel r l l' g sound
  land-Fetched b next local l hexes (ok _, l') is_hash sound g f whole =
      land_branch-Healthy b next local l' is_hash (whole l' g f) (Grown-Healthy fuel r l l' g sound)

  ask_missing-served :
      (roots known : List Bytes) (resp : WalkResponse)
      → ask_missing primary roots known ≡ ok resp
      → ask_missing (primary_of fuel r) roots known ≡ ok resp
  unfolding ask_missing
  ask_missing-served roots known resp =
      answer-served _ _ resp (serves.walk (record { roots = roots; known = known }))

  pull_branch-Healthy :
      (b : Branch) (next local : Hash) (l : Store)
      → parse_hash b.hash ≡ ok next
      → IsHash local
      → Complete l local
      → Sound l
      → Sound (pull_branch primary b next local l).1
  unfolding pull_branch
  pull_branch-Healthy b next local l parsed is_hash whole sound =
      elim (Result-cases (ask_missing primary (b.hash ∷ []) (known_roots local))) [
        | inr (x, e) ↦ rw e sound
        | inl (resp, e) ↦
            let (marks, walked, told) =
              ask_missing-AnsweredBy fuel r b.hash next local resp parsed is_hash
                (ask_missing-served (b.hash ∷ []) (known_roots local) resp e) in
            let here = parse_hash-IsHash b.hash next parsed in
            let fetch = fetch_all-Fetches fuel r primary serves resp.missing l in
            rw e (
              land-Fetched b next local l resp.missing (fetch_all primary resp.missing l) here sound
                fetch.0 fetch.1
                (λ l' g f.
                  received next local marks l l' here walked
                    (subst (All (Fetched fuel r l')) told f) g sound.same whole))
      ]

  pub local_hash-Complete :
      (b : Branch) (l : Store) → Sound l → IsHash (local_hash b l) × Complete l (local_hash b l)
  unfolding local_hash
  local_hash-Complete b l sound = elim (Result-cases (get_branch l b.zone b.name)) [
    | inl (d, e) ↦ rw (local_hash, e) (sound.branches b.zone b.name d e)
    | inr (x, e) ↦
        rw (local_hash, e)
          (zero_hash-IsHash, zero_hash-Complete l zero_hash ((is_zero_iff zero_hash).1 refl))
  ]

  sync_branch-Healthy : (b : Branch) (l : Store) → Sound l → Sound (sync_branch primary b l)
  unfolding sync_branch
  sync_branch-Healthy b l sound = elim (Result-cases (parse_hash b.hash)) [
    | inr (x, e) ↦ rw (sync_branch, e) sound
    | inl (next, e) ↦
        rw (sync_branch, e)
          (elim (Bool-cases (bytes_eq (local_hash b l) next)) [
            | inl in_sync ↦ rw in_sync sound
            | inr behind ↦
                let (is_hash, whole) = local_hash-Complete b l sound in
                rw behind (pull_branch-Healthy b next (local_hash b l) l e is_hash whole sound)
          ])
  ]

  sync_all-Healthy : (bs : List Branch) (l : Store) → Sound l → Sound (sync_all primary bs l)
  unfolding sync_all
  sync_all-Healthy [] l sound = sound
  sync_all-Healthy (b ∷ bs) l sound =
      sync_all-Healthy bs (sync_branch primary b l) (sync_branch-Healthy b l sound)

  add_zones-Healthy :
      (zs : List Bytes) (l : Repo) → Sound l.storage → Sound (add_zones zs l).1.storage
  unfolding add_zones add_zone
  add_zones-Healthy [] l sound = sound
  add_zones-Healthy (z ∷ zs) l sound =
      elim (Result-cases (register_zone (canon_zone z) l.storage).0) [
        | inl (_, e) ↦ rw e (
            add_zones-Healthy zs _ (register_zone-Healthy r.storage l.storage (canon_zone z) sound))
        | inr (x, e) ↦ rw e (register_zone-Healthy r.storage l.storage (canon_zone z) sound)
      ]

  -- The branches are pulled only if all zones were added.
  pub sync_added :
      (bs : List Branch) (m : Outcome Repo (Unit {0}))
      → Sound m.1.storage
      → Sound (m then_do (λ _. on_store (λ s. (ok tt, sync_all primary bs s)))).1.storage
  sync_added bs (ok _, l) sound = sync_all-Healthy bs l.storage sound
  sync_added bs (err x, l) sound = sound

-- If the secondary's objects agree with the primary's and its branches are complete, they are so
-- after a pull over a line that can lose any request, whichever walks and fetches fail in it, whatever
-- branches are listed, and whichever moves of a branch are refused. The names in the primary's objects
-- are hashes of 32 bytes.
pub pull-Healthy :
    (fuel : ℕ) (r l : Repo) (primary : Primary)
    → TypedObjects r.storage
    → Serves fuel r primary
    → Healthy r.storage l.storage
    → Healthy r.storage (pull primary l).1.storage
unfolding pull
pull-Healthy fuel r l primary typed serves sound = elim (Result-cases (get_refs primary)) [
  | inr (x, e) ↦ rw e sound
  | inl (remote, e) ↦
      let added = add_zones-Healthy fuel r typed primary serves remote.zones l sound in
      rw e (sync_added fuel r typed primary serves remote.branches (add_zones remote.zones l) added)
]
