-- ===== src/Refs/Head.antt =====
-- HEAD is read back as it was set.
use zonegit.Base.{
  ◌≡◌, ◌≢◌, refl, ap, ◌∙◌, arith, false, ◌∷◌, length, Bytes, bytes_eq, bytes_eq_refl, some, none,
  Option-cases, contains, ok, inl, inr, lookup-assign, lookup, assign,
}
use zonegit.Store.Hash.{Hash, zero_hash, is_zero, is_zero_iff}
use zonegit.Store.MemStore.{Store, get_ref, get_object, put_object, cas_ref}
use zonegit.Object.{encode_object, kind_symref, hash_of}
use zonegit.Refs.{
  canon_zone, branch_ref, head_ref, parse_branch_target, read_head, set_head, write_symref,
  read_symref,
}
use zonegit.Refs.Names.{parse_branch_target-branch_ref}

-- The commit under a ref, zero if there is none.
unfoldable pub tip : Store → Bytes → Hash
tip s ref = elim (get_ref s ref) [ none ↦ zero_hash | some h ↦ h ]

-- No branch has the name of HEAD.
branch_ref-apart : (zone branch : Bytes) → bytes_eq head_ref (branch_ref zone branch) ≡ false
unfolding branch_ref bytes_eq
branch_ref-apart zone branch = refl

-- The store with HEAD at a symref of that target, which lies under `h`.
abbrev with_head : Hash → Bytes → Store → Store
with_head h target s = record s {
  objects = (h, record { kind = kind_symref; payload = target }) ∷ s.objects;
  refs = assign head_ref h s.refs;
}

read_symref-with_head :
    (h : Hash) (target : Bytes) (s : Store) → read_symref (with_head h target s) h ≡ ok target
unfolding read_symref get_object lookup
read_symref-with_head h target s = ground (arith, bytes_eq_refl h, bytes_eq_refl kind_symref)

read_head-found :
    (s : Store) (h : Hash) (target zone branch : Bytes)
    → get_ref s head_ref ≡ some h
    → read_symref s h ≡ ok target
    → parse_branch_target target ≡ some (zone, branch)
    → read_head s ≡ ok (zone, branch, tip s target)
unfolding read_head tip
read_head-found s h target zone branch e f g = elim (Option-cases (get_ref s target)) [
  | inl t ↦ ground (arith, e, f, g, t)
  | inr (_, t) ↦ ground (arith, e, f, g, t)
]

get_ref-with_head :
    (h : Hash) (target : Bytes) (s : Store) → get_ref (with_head h target s) head_ref ≡ some h
unfolding get_ref
get_ref-with_head h target s =
    ground (arith, lookup-assign head_ref head_ref h s.refs, bytes_eq_refl head_ref)

tip-with_head :
    (h : Hash) (zone branch : Bytes) (s : Store)
    → tip (with_head h (branch_ref zone branch) s) (branch_ref zone branch)
      ≡ tip s (branch_ref zone branch)
unfolding tip get_ref
tip-with_head h zone branch s =
    ground (
      arith,
      lookup-assign head_ref (branch_ref zone branch) h s.refs,
      branch_ref-apart zone branch,
    )

module _ (sha256 : Bytes → Hash) where
  set_head-lands :
      (zone branch : Bytes) (s : Store)
      → is_zero (hash_of sha256 kind_symref (branch_ref zone branch)) ≡ false
      → set_head sha256 zone branch s ≡ (
        ok tt,
        with_head (hash_of sha256 kind_symref (branch_ref zone branch)) (branch_ref zone branch) s,
      )
  unfolding set_head write_symref encode_object put_object get_ref cas_ref
  set_head-lands zone branch s nz = elim (Option-cases (lookup head_ref s.refs)) [
    | inl e ↦ ground (arith, e, nz, is_zero_iff zero_hash)
    | inr (cur, e) ↦ ground (arith, e, nz, bytes_eq_refl cur)
  ]

  -- If the hash of the symref is not zero, and zone and branch are not empty and the branch has no
  -- slash, then `set_head` succeeds, and `read_head` then returns the canonical zone, the branch
  -- and the commit that the branch had.
  pub read_head-set_head :
      (zone branch : Bytes) (s : Store)
      → is_zero (hash_of sha256 kind_symref (branch_ref zone branch)) ≡ false
      → length (canon_zone zone) ≢ 0
      → length branch ≢ 0
      → contains 47 branch ≡ false
      → ((set_head sha256 zone branch s).0 ≡ ok tt)
        × (read_head (set_head sha256 zone branch s).1
            ≡ ok (canon_zone zone, branch, tip s (branch_ref zone branch)))
  read_head-set_head zone branch s nz z b c =
      let h = hash_of sha256 kind_symref (branch_ref zone branch) in
      rw (set_head-lands zone branch s nz) (
        refl,
        read_head-found (with_head h (branch_ref zone branch) s) h (branch_ref zone branch)
              (canon_zone zone) branch (get_ref-with_head h (branch_ref zone branch) s)
              (read_symref-with_head h (branch_ref zone branch) s)
              (parse_branch_target-branch_ref zone branch z b c)
            ∙ ap (λ t. ok (canon_zone zone, branch, t)) (tip-with_head h zone branch s),
      )
