-- ===== src/Replicate/Converges.antt =====
-- A round of a pull brings a branch of the secondary to the primary's commit.
use zonegit.Base.{
  ℕ, suc, ◌<◌, ◌≡◌, ◌⊎◌, refl, sym, ap, ◌∙◌, arith, true, false, List, [], ◌∷◌, ◌++◌, map, length,
  Bytes, bytes_eq, bytes_eq_iff, Option-cases, ok, err, Error, not_found, Result-cases, Outcome,
  ◌then_do◌, All, Bool-cases, inl, inr, err_not_ok, lookup, codes,
}
use mathlib.Core.Path.{subst}
use zonegit.Store.Hash.{Hash, IsHash, is_zero, string, parse_hash}
use zonegit.Store.Hash.Laws.{parse_hash-string, parse_hash-IsHash}
use zonegit.Store.MemStore.{Object, Store, get_object, has_object}
use zonegit.Refs.{get_branch}
use zonegit.Repo.{member}
use zonegit.Repo.Staging.{Repo}
use zonegit.Replicate.{
  Branch, WalkResponse, children, walk_from, answer_walk, handle_walk, reply_missing,
  collect_missing, expand_known, hexes_to_hashes, handle_object, reply_object, base_path,
}
use zonegit.Replicate.Client.{
  primary_of, status_ok, ask_missing, fetch_object, fetch_one, fetch_all, known_roots, pull_branch,
  local_hash, sync_branch,
}
use zonegit.Replicate.Walked.{Names, AfterWalk, Covered, Expanded, collect_missing-Closed}
use zonegit.Replicate.Fuel.{unmarked}
use zonegit.Replicate.Progress.{Fine, collect_missing-Fine, expand_known_ok}
use zonegit.Replicate.Complete.{Reaches, itself, Complete, SameObjects, TypedObjects, Reaches-carry}
use zonegit.Replicate.Fetch.{Serves-primary_of, Holds, trim_prefix-append, fetch_all-Fetches}
use zonegit.Replicate.Answers.{
  All-of_member, known_set, known_hashes, All-known_hashes, All-children,
  hexes_to_hashes-known_roots, ask_missing-AnsweredBy, marks-IsHash,
}
use zonegit.Replicate.Healthy.{Healthy}
use zonegit.Replicate.Pull.{local_hash-Complete}
use zonegit.Replicate.Landing.{get_branch-of_ref, get_branch-local_hash, land_fetched_ok}

unmarked-length : (m : List (Hash × Object)) → unmarked m [] ≡ length m
unfolding unmarked member
unmarked-length [] = refl
unmarked-length ((h, o) ∷ m) = ap suc (unmarked-length m)

get_object_err : (s : Store) (h : Hash) (e : Error) → get_object s h ≡ err e → e ≡ not_found
unfolding get_object
get_object_err s h e p = elim (Option-cases (lookup h s.objects)) [
  | inl n ↦ ground (arith, n, p)
  | inr (o, n) ↦ absurd (ground (arith, n, p))
]

walk_from_ok :
    (s : Store) (fuel : ℕ) (roots : List Hash) (m : Outcome (List Hash) (Unit {0}))
    → m.0 ≡ ok tt
    → (collect_missing s fuel roots m.1 []).0 ≡ ok tt
    → (resp : WalkResponse) × (status_ok (walk_from s fuel roots m) ≡ ok resp)
unfolding walk_from status_ok
walk_from_ok s fuel roots (err x, ks) e f = absurd (err_not_ok e)
walk_from_ok s fuel roots (ok _, ks) e f = replied (collect_missing s fuel roots ks []) f
  where
    replied :
        (n : Outcome (List Hash) (Unit {0}))
        → n.0 ≡ ok tt
        → (resp : WalkResponse) × (status_ok (reply_missing n) ≡ ok resp)
    replied (ok _, marks) g = (record { missing = map string marks }, unfold reply_missing in refl)
    replied (err x, marks) g = absurd (err_not_ok g)

Fine-ok : (m : Outcome (List Hash) (Unit {0})) → Fine (λ _. ⊥) m → m.0 ≡ ok tt
Fine-ok (ok _, w) f = refl
Fine-ok (err e, w) f = absurd f

module _ (fuel : ℕ) (r : Repo) (typed : TypedObjects r.storage)
    (enough : length r.storage.objects < fuel) where
  -- From a hash that the secondary has in full, the primary's walk meets missing objects only.
  known_readable :
      (l : Store) (local h : Hash)
      → SameObjects r.storage l
      → Complete l local
      → Reaches r.storage local h
      → is_zero h ≡ false
      → ((hs : List Hash) × Names r.storage h hs)
        ⊎ ((e : Error) × (get_object r.storage h ≡ err e) × (e ≡ not_found))
  known_readable l local h same whole p nz = elim (Result-cases (get_object r.storage h)) [
    | inr (x, e) ↦ inr (x, e, get_object_err r.storage h x e)
    | inl (o, e) ↦
        let (hs, (o', at_l, read)) = whole h (Reaches-carry r.storage l local h same whole p) nz in
        inl (hs, (o, e, subst (λ x. children x ≡ ok hs) (sym (same h o o' e at_l)) read))
  ]

  enough_unmarked : unmarked r.storage.objects [] < fuel
  enough_unmarked = omega (arith, enough, unmarked-length r.storage.objects)

  ask_missing_ok :
      (l : Store) (hex : Bytes) (next local : Hash)
      → SameObjects r.storage l
      → Complete l local
      → IsHash local
      → parse_hash hex ≡ ok next
      → Complete r.storage next
      → (resp : WalkResponse) × (ask_missing (primary_of fuel r) (hex ∷ []) (known_roots local)
          ≡ ok resp)
  unfolding ask_missing primary_of handle_walk answer_walk hexes_to_hashes bytes_eq
  ask_missing_ok l hex next local same whole is_hash parsed full =
      let known : (expand_known r.storage fuel (known_hashes local) []).0 ≡ ok tt =
        expand_known_ok r.storage (Reaches r.storage local)
          (λ h hs. All-children r.storage local h hs) (λ h. known_readable l local h same whole)
          fuel (known_hashes local) [] (All-known_hashes r.storage local) enough_unmarked in
      let found : (collect_missing r.storage fuel (next ∷ []) (known_set fuel r local) []).0
          ≡ ok tt =
        Fine-ok _ (
          collect_missing-Fine r.storage (Reaches r.storage next) (λ _. ⊥)
            (λ h hs. All-children r.storage next h hs) (λ h p nz. inl (full h p nz)) fuel
            (next ∷ []) (known_set fuel r local) (itself, tt) enough_unmarked) in
      rw (parsed, hexes_to_hashes-known_roots local is_hash)
        (walk_from_ok r.storage fuel (next ∷ [])
          (expand_known r.storage fuel (known_hashes local) []) known found)

  fetch_object_ok :
      (hex : Bytes) (h : Hash) (o : Object)
      → parse_hash hex ≡ ok h
      → get_object r.storage h ≡ ok o
      → fetch_object (primary_of fuel r) hex ≡ ok o
  unfolding fetch_object primary_of handle_object reply_object status_ok bytes_eq
  fetch_object_ok hex h o parsed stored =
      rw (trim_prefix-append (base_path ++ codes "/objects/") hex, parsed, stored) refl

  fetch_one_ok :
      (h : Hash) (s : Store)
      → IsHash h
      → Holds r.storage h
      → (fetch_one (primary_of fuel r) (string h) s).0 ≡ ok tt
  unfolding fetch_one
  fetch_one_ok h s is_hash (o, stored) =
      let parsed = parse_hash-string h is_hash in
      elim (Bool-cases (has_object s h)) [
        | inl held ↦ rw (parsed, held) refl
        | inr absent ↦ rw (parsed, absent, fetch_object_ok (string h) h o parsed stored) refl
      ]

  store_then_ok :
      (m : Outcome Store (Unit {0})) (f : Store → Outcome Store (Unit {0}))
      → m.0 ≡ ok tt
      → ((s : Store) → (f s).0 ≡ ok tt)
      → (m then_do (λ _. f)).0 ≡ ok tt
  store_then_ok (ok _, s) f e g = g s
  store_then_ok (err x, s) f e g = e

  fetch_all_ok :
      (hs : List Hash) (s : Store)
      → All IsHash hs
      → All (Holds r.storage) hs
      → (fetch_all (primary_of fuel r) (map string hs) s).0 ≡ ok tt
  unfolding fetch_all
  fetch_all_ok [] s typed_hs held = refl
  fetch_all_ok (h ∷ hs) s typed_hs held =
      store_then_ok (fetch_one (primary_of fuel r) (string h) s)
        (fetch_all (primary_of fuel r) (map string hs)) (fetch_one_ok h s typed_hs.0 held.0)
        (λ s'. fetch_all_ok hs s' typed_hs.1 held.1)

  -- All that the walk marked is in the primary's store.
  marks-Holds :
      (next : Hash) (ks marks : List Hash)
      → collect_missing r.storage fuel (next ∷ []) ks [] ≡ (ok tt, marks)
      → All (Holds r.storage) marks
  marks-Holds next ks marks walked =
      let closed : All (Covered ks marks) (next ∷ [])
          × ((h : Hash) → member h marks ≡ true → Expanded r.storage ks marks h) =
        subst
          (AfterWalk (λ w.
            All (Covered ks w) (next ∷ [])
            × ((h : Hash) → member h w ≡ true → Expanded r.storage ks w h)))
          walked (collect_missing-Closed r.storage ks fuel (next ∷ [])) in
      All-of_member (Holds r.storage) marks
        (λ h m. let (hs, (o, stored, read), all) = closed.1 h m in (o, stored))

-- One round for a branch that the primary lists brings the secondary's branch to the primary's
-- commit, if the primary holds that commit with all that it names, the secondary's objects agree
-- with the primary's and its branches are complete, and there is fuel for the primary's objects.
pub sync_branch_converges :
    (fuel : ℕ) (r : Repo) (b : Branch) (next : Hash) (l : Store)
    → TypedObjects r.storage
    → length r.storage.objects < fuel
    → Healthy r.storage l
    → parse_hash b.hash ≡ ok next
    → is_zero next ≡ false
    → Complete r.storage next
    → get_branch (sync_branch (primary_of fuel r) b l) b.zone b.name ≡ ok next
unfolding sync_branch pull_branch
sync_branch_converges fuel r b next l typed enough sound parsed nz full =
    let local = local_hash b l in
    let (is_hash, whole) =
      local_hash-Complete fuel r typed (primary_of fuel r) (Serves-primary_of fuel r) b l sound in
    elim (Bool-cases (bytes_eq local next)) [
      | inl in_sync ↦
          let same = (bytes_eq_iff local next).0 in_sync in
          rw (sync_branch, parsed, in_sync)
            (get_branch-local_hash b l (ap is_zero same ∙ nz) ∙ ap ok same)
      | inr behind ↦
          let (resp, asked) =
            ask_missing_ok fuel r typed enough l b.hash next local sound.same whole is_hash parsed
              full in
          let (marks, walked, told) =
            ask_missing-AnsweredBy fuel r b.hash next local resp parsed is_hash asked in
          let here = parse_hash-IsHash b.hash next parsed in
          let done : (fetch_all (primary_of fuel r) resp.missing l).0 ≡ ok tt = rw told (
            fetch_all_ok fuel r typed enough marks l
              (subst (λ (m : Outcome (List Hash) (Unit {0})). All IsHash m.1) walked
                (marks-IsHash fuel r next (known_set fuel r local) typed here))
              (marks-Holds fuel r typed enough next (known_set fuel r local) marks walked)) in
          rw (sync_branch, parsed, behind, asked)
            (get_branch-of_ref b next _ (
              land_fetched_ok b next l (fetch_all (primary_of fuel r) resp.missing l) nz done
                (fetch_all-Fetches fuel r (primary_of fuel r) (Serves-primary_of fuel r)
                  resp.missing l).0.1))
    ]
