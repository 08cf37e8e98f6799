-- ===== src/Refs/Branches.antt =====
-- The branches of all zones as one map, by canonical zone and branch.
use zonegit.Base.{
  ◌≡◌, ◌≢◌, refl, sym, ap, ◌∙◌, arith, false, ◌&&◌, Bytes, length, bytes_eq, bytes_eq_iff,
  if◌then◌else◌, contains, some, ok,
}
use zonegit.Store.Hash.{Hash}
use zonegit.Store.MemStore.{Store}
use zonegit.Store.MemStore.Refs.{get_ref-cas_ref}
use zonegit.Refs.{canon_zone, branch_ref, parse_branch_target, get_branch, update_branch}
use zonegit.Refs.Names.{parse_branch_target-branch_ref}

-- A zone and a branch that can be read back from their ref.
abbrev pub IsBranch : Bytes → Bytes → Type 0
IsBranch zone branch =
    (length (canon_zone zone) ≢ 0) × (length branch ≢ 0) × (contains 47 branch ≡ false)

some_pair : {p q : Bytes × Bytes} → some p ≡ some q → (p.0 ≡ q.0) × (p.1 ≡ q.1)
some_pair {p} {q} e = let same : p ≡ q = cc in (ap (λ r. r.0) same, ap (λ r. r.1) same)

branch_ref-injective :
    (z b z' b' : Bytes)
    → IsBranch z b
    → IsBranch z' b'
    → branch_ref z b ≡ branch_ref z' b'
    → (canon_zone z ≡ canon_zone z') × (b ≡ b')
branch_ref-injective z b z' b' p q e = some_pair {p = (canon_zone z, b)} {q = (canon_zone z', b')} (
    sym (parse_branch_target-branch_ref z b p.0 p.1 p.2)
    ∙ ap parse_branch_target e
    ∙ parse_branch_target-branch_ref z' b' q.0 q.1 q.2)

branch_ref-equal :
    (z b z' b' : Bytes) → canon_zone z ≡ canon_zone z' → b ≡ b' → branch_ref z b ≡ branch_ref z' b'
unfolding branch_ref
branch_ref-equal z b z' b' e f = rw (e, f) refl

bytes_eq-branch_ref :
    (z b z' b' : Bytes)
    → IsBranch z b
    → IsBranch z' b'
    → bytes_eq (branch_ref z b) (branch_ref z' b')
      ≡ (bytes_eq (canon_zone z) (canon_zone z') && bytes_eq b b')
bytes_eq-branch_ref z b z' b' p q = ground (
  arith,
  bytes_eq_iff (branch_ref z b) (branch_ref z' b'),
  bytes_eq_iff (canon_zone z) (canon_zone z'),
  bytes_eq_iff b b',
  branch_ref-injective z b z' b' p q,
  branch_ref-equal z b z' b',
)

-- A successful `update_branch` moves that branch, and no other branch of any zone, if the zones and
-- branches are not empty and the branches have no slash.
pub get_branch-update_branch :
    (z b z' b' : Bytes) (expected next : Hash) (s : Store)
    → IsBranch z b
    → IsBranch z' b'
    → (update_branch z b expected next s).0 ≡ ok tt
    → get_branch (update_branch z b expected next s).1 z' b' ≡ (
        if bytes_eq (canon_zone z) (canon_zone z') && bytes_eq b b'
        then ok next
        else get_branch s z' b')
unfolding get_branch update_branch
get_branch-update_branch z b z' b' expected next s p q done = ground (
  arith,
  done,
  bytes_eq-branch_ref z b z' b' p q,
  get_ref-cas_ref (branch_ref z b) (branch_ref z' b') expected next s,
)
