-- ===== src/Replicate/Healthy.antt =====
-- What a pull keeps of the secondary's store, and the writes that keep it.
use zonegit.Base.{
  ◌≡◌, refl, sym, ◌∙◌, arith, true, false, ◌++◌, Bytes, bytes_eq, bytes_eq_iff, Option-cases, ok,
  Result-cases, Bool-cases, inl, inr, ◌⊎◌, length, ◌==◌,
}
use mathlib.Core.Path.{subst}
use zonegit.Store.Hash.{Hash, IsHash, zero_hash, is_zero}
use zonegit.Store.MemStore.{Store, get_object, get_ref, cas_ref}
use zonegit.Store.MemStore.Refs.{get_ref-cas_ref}
use zonegit.Object.TreeOps.Stored.{Extends}
use zonegit.Refs.{
  canon_zone, branch_ref, get_branch, zone_marker_prefix, zone_sentinel, register_zone,
}
use zonegit.Replicate.Complete.{Reaches, itself, child, Complete, SameObjects, Complete-Extends}

-- No object differs from the primary's, and every branch's history is stored in full.
pub record Healthy (p l : Store) : Type 0 where
  pub same : SameObjects p l
  pub branches :
      (zone name : Bytes) (d : Hash) → get_branch l zone name ≡ ok d → IsHash d × Complete l d

zero_hash-Reaches : (l : Store) (d h : Hash) → is_zero d ≡ true → Reaches l d h → is_zero h ≡ true
zero_hash-Reaches l d h z itself = z
zero_hash-Reaches l d h z (child {h = g} r nz n m) =
    absurd (ground (arith, nz, zero_hash-Reaches l d g z r))

pub zero_hash-Complete : (l : Store) (d : Hash) → is_zero d ≡ true → Complete l d
zero_hash-Complete l d z h r nz = absurd (ground (arith, nz, zero_hash-Reaches l d h z r))

get_object-cas_ref :
    (name : Bytes) (expected next h : Hash) (s : Store)
    → get_object (cas_ref name expected next s).1 h ≡ get_object s h
unfolding cas_ref get_object
get_object-cas_ref name expected next h s = ground arith

moved_branch :
    (l : Store) (name : Bytes) (expected next : Hash) (zone branch : Bytes) (d : Hash)
    → get_branch (cas_ref name expected next l).1 zone branch ≡ ok d
    → (get_branch l zone branch ≡ ok d) ⊎ ((branch_ref zone branch ≡ name) × (next ≡ d))
unfolding get_branch
moved_branch l name expected next zone branch d e =
    let ref = branch_ref zone branch in
    ground (
      arith,
      get_ref-cas_ref name ref expected next l,
      Result-cases (cas_ref name expected next l).0,
      bytes_eq_iff name ref,
      e,
    )

-- A ref may move to a hash whose history is complete.
pub cas_ref-Healthy :
    (p l : Store) (name : Bytes) (expected next : Hash)
    → Healthy p l
    → ((zone branch : Bytes) → branch_ref zone branch ≡ name → IsHash next × Complete l next)
    → Healthy p (cas_ref name expected next l).1
cas_ref-Healthy p l name expected next healthy moved =
    let after = (cas_ref name expected next l).1 in
    let ext : Extends l after = λ h o e. get_object-cas_ref name expected next h l ∙ e in
    record {
      same = λ h o o' e e'.
          healthy.same h o o' e (sym (get_object-cas_ref name expected next h l) ∙ e');
      branches = λ zone branch d e.
          let read : (get_branch l zone branch ≡ ok d)
              ⊎ ((branch_ref zone branch ≡ name) × (next ≡ d)) =
            moved_branch l name expected next zone branch d e in
          elim read [
            | inl old ↦
                let (typed, whole) = healthy.branches zone branch d old in
                (typed, Complete-Extends l after d ext whole)
            | inr (at_name, same) ↦
                let (typed, whole) = moved zone branch at_name in
                (
                  subst IsHash same typed,
                  Complete-Extends l after d ext (subst (Complete l) same whole),
                )
          ];
    }

marker_apart :
    (zone branch z : Bytes) → bytes_eq (branch_ref zone branch) (zone_marker_prefix ++ z) ≡ false
unfolding branch_ref bytes_eq
marker_apart zone branch z = refl

pub register_zone-Healthy :
    (p l : Store) (zone : Bytes) → Healthy p l → Healthy p (register_zone zone l).1
unfolding register_zone
register_zone-Healthy p l zone healthy =
    let ref = zone_marker_prefix ++ canon_zone zone in
    let claimed = cas_ref-Healthy p l ref zero_hash zone_sentinel healthy (λ z branch e. absurd (
      ground (
        arith,
        marker_apart z branch (canon_zone zone),
        bytes_eq_iff (branch_ref z branch) ref,
        e,
      ))) in
    elim (Bool-cases (length (canon_zone zone) == 0)) [
      | inl none_left ↦ rw none_left healthy
      | inr named ↦ elim (Option-cases (get_ref l ref)) [
        | inl free ↦ rw (named, free) claimed
        | inr (old, held) ↦ elim (Bool-cases (bytes_eq old zone_sentinel)) [
          | inl marker ↦ rw (named, held, marker) healthy
          | inr other ↦ rw (named, held, other) healthy
        ]
      ]
    ]
