-- ===== src/Refs/Names.antt =====
-- The names of refs: what a zone and a branch are read back from.
use zonegit.Base.{
  ◌≡◌, ◌≢◌, ◌==◌, refl, ap, ◌∙◌, arith, true, false, [], ◌∷◌, ◌++◌, length, Bytes, bytes_eq_refl,
  some, cut_last-append, contains, to_lower, to_lower_idem, to_lower-append, ends_in,
  ends_in-append, take-append, drop-append, length-append, Bool-cases, inl, inr,
}
use zonegit.Store.MemStore.{has_prefix}
use zonegit.Refs.{canon_zone, branch_prefix, branch_ref, parse_branch_target}

pub has_prefix-append : (p s : Bytes) → has_prefix (p ++ s) p ≡ true
unfolding has_prefix
has_prefix-append p s =
    rw (take-append p s (length p) refl, length-append p s) (ground (arith, bytes_eq_refl p))

canon_zone_fixed : (w : Bytes) → to_lower w ≡ w → ends_in 46 w ≡ true → canon_zone w ≡ w
unfolding canon_zone ends_in
canon_zone_fixed [] h e = absurd (ground (arith, e))
canon_zone_fixed (b ∷ bs) h e = rw (h) (ground (arith, e))

module _ (z : Bytes) where
  canon_zone-nil : (length (to_lower z) == 0) ≡ true → canon_zone z ≡ []
  unfolding canon_zone
  canon_zone-nil n = rw n refl

  canon_zone-ended :
      (length (to_lower z) == 0) ≡ false
      → ends_in 46 (to_lower z) ≡ true
      → canon_zone z ≡ to_lower z
  unfolding canon_zone
  canon_zone-ended n e = rw (n, e) refl

  canon_zone-open :
      (length (to_lower z) == 0) ≡ false
      → ends_in 46 (to_lower z) ≡ false
      → canon_zone z ≡ to_lower z ++ (46 ∷ [])
  unfolding canon_zone
  canon_zone-open n e = rw (n, e) refl

  -- A canonical zone name is its own canonical form: lower case and the final dot are there after
  -- one pass.
  pub canon_zone_idem : canon_zone (canon_zone z) ≡ canon_zone z
  unfolding to_lower
  canon_zone_idem = elim (Bool-cases (length (to_lower z) == 0)) [
    | inl n ↦ rw (canon_zone-nil n) (unfold canon_zone in refl)
    | inr n ↦ elim (Bool-cases (ends_in 46 (to_lower z))) [
      | inl e ↦ rw (canon_zone-ended n e) (canon_zone_fixed (to_lower z) (to_lower_idem z) e)
      | inr e ↦ rw (canon_zone-open n e) (
          canon_zone_fixed (to_lower z ++ (46 ∷ []))
            (to_lower-append (to_lower z) (46 ∷ []) ∙ ap (λ l. l ++ (46 ∷ [])) (to_lower_idem z))
            (ends_in-append 46 (to_lower z)))
    ]
  ]

-- The zone and the branch are read back from the ref of a branch, if neither is empty and the
-- branch has no slash.
pub parse_branch_target-branch_ref :
    (zone branch : Bytes)
    → length (canon_zone zone) ≢ 0
    → length branch ≢ 0
    → contains 47 branch ≡ false
    → parse_branch_target (branch_ref zone branch) ≡ some (canon_zone zone, branch)
unfolding parse_branch_target branch_ref
parse_branch_target-branch_ref zone branch z b c =
    rw
      (
        has_prefix-append branch_prefix (canon_zone zone ++ (47 ∷ branch)),
        drop-append branch_prefix (canon_zone zone ++ (47 ∷ branch)) (length branch_prefix) refl,
        cut_last-append 47 (canon_zone zone) branch c,
      )
      (ground (arith, z, b))
