-- ===== src/Replicate/Landing.antt =====
-- The end of a round of a pull: the branch of the secondary is moved to the primary's commit.
use zonegit.Base.{
  ◌≡◌, ◌⊎◌, refl, ap, ◌∙◌, arith, true, false, Bytes, bytes_eq_iff, none, some, Option-cases, ok,
  err, Outcome, ◌then_do◌, Bool-cases, inl, inr, err_not_ok, lookup-assign,
}
use zonegit.Store.Hash.{Hash, is_zero, is_zero_iff, zero_hash}
use zonegit.Store.MemStore.{Store, get_ref, cas_ref}
use zonegit.Refs.{get_branch, create_branch, update_branch, branch_ref}
use zonegit.Replicate.{Branch}
use zonegit.Replicate.Client.{land_branch, local_hash}

local_hash-none :
    (b : Branch) (l : Store)
    → get_ref l (branch_ref b.zone b.name) ≡ none
    → local_hash b l ≡ zero_hash
unfolding local_hash get_branch
local_hash-none b l e = rw (local_hash, e) refl

local_hash-some :
    (b : Branch) (l : Store) (h : Hash)
    → get_ref l (branch_ref b.zone b.name) ≡ some h
    → local_hash b l ≡ h
unfolding local_hash get_branch
local_hash-some b l h e = rw (local_hash, e) refl

cas_ref_moves :
    (ref : Bytes) (expected next : Hash) (s : Store)
    → is_zero next ≡ false
    → ((get_ref s ref ≡ none) × (is_zero expected ≡ true)) ⊎ (get_ref s ref ≡ some expected)
    → get_ref (cas_ref ref expected next s).1 ref ≡ some next
unfolding cas_ref get_ref
cas_ref_moves ref expected next s nz (inl (absent, z)) =
    ground (arith, nz, absent, z, lookup-assign ref ref next s.refs, bytes_eq_iff ref ref)
cas_ref_moves ref expected next s nz (inr held) = ground (
  arith,
  nz,
  held,
  lookup-assign ref ref next s.refs,
  bytes_eq_iff ref ref,
  bytes_eq_iff expected expected,
)

-- The branch moves, from what the secondary has read of it.
land_branch_ok :
    (b : Branch) (next : Hash) (l l' : Store)
    → is_zero next ≡ false
    → l'.refs ≡ l.refs
    → get_ref (land_branch b next (local_hash b l) l').1 (branch_ref b.zone b.name) ≡ some next
unfolding land_branch create_branch update_branch
land_branch_ok b next l l' nz same_refs =
    let ref = branch_ref b.zone b.name in
    let same : get_ref l' ref ≡ get_ref l ref = unfold get_ref in rw same_refs refl in
    let zero_zero = (is_zero_iff zero_hash).1 refl in
    elim (Option-cases (get_ref l ref)) [
      | inl absent ↦
          rw (local_hash-none b l absent, zero_zero)
            (cas_ref_moves ref zero_hash next l' nz (inl (same ∙ absent, zero_zero)))
      | inr (cur, held) ↦ elim (Bool-cases (is_zero cur)) [
        | inl z ↦
            rw (local_hash-some b l cur held, z)
              (cas_ref_moves ref zero_hash next l' nz
                (inr (same ∙ held ∙ ap some ((is_zero_iff cur).0 z))))
        | inr z ↦
            rw (local_hash-some b l cur held, z)
              (cas_ref_moves ref cur next l' nz (inr (same ∙ held)))
      ]
    ]

pub get_branch-of_ref :
    (b : Branch) (h : Hash) (l : Store)
    → get_ref l (branch_ref b.zone b.name) ≡ some h
    → get_branch l b.zone b.name ≡ ok h
unfolding get_branch
get_branch-of_ref b h l e = rw (get_branch, e) refl

pub get_branch-local_hash :
    (b : Branch) (l : Store)
    → is_zero (local_hash b l) ≡ false
    → get_branch l b.zone b.name ≡ ok (local_hash b l)
get_branch-local_hash b l nz = elim (Option-cases (get_ref l (branch_ref b.zone b.name))) [
  | inl e ↦
      absurd (ground (arith, rw (local_hash-none b l e) at nz, (is_zero_iff zero_hash).1 refl))
  | inr (h, e) ↦ rw (local_hash-some b l h e) (get_branch-of_ref b h l e)
]

pub land_fetched_ok :
    (b : Branch) (next : Hash) (l : Store) (m : Outcome Store (Unit {0}))
    → is_zero next ≡ false
    → m.0 ≡ ok tt
    → m.1.refs ≡ l.refs
    → get_ref (m then_do (λ _. land_branch b next (local_hash b l))).1 (branch_ref b.zone b.name)
      ≡ some next
land_fetched_ok b next l (ok _, l') nz done same_refs = land_branch_ok b next l l' nz same_refs
land_fetched_ok b next l (err x, l') nz done same_refs = absurd (err_not_ok done)
