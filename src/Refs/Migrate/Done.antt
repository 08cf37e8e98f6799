-- ===== src/Refs/Migrate/Done.antt =====
-- What a migration that succeeds leaves behind.
use zonegit.Base.{
  ◌≡◌, refl, sym, ap, ◌∙◌, arith, Bool, true, false, [], length, ◌==◌, Bytes, bytes_eq_refl, none,
  ok, err, Option-cases, Bool-cases, inl, inr, ◌⊎◌, Outcome, ◌then_do◌, lookup, lookup-remove,
}
use zonegit.Store.Hash.{Hash}
use zonegit.Store.MemStore.{Store, get_ref, delete_ref}
use zonegit.Refs.{legacy_zone_name_ref, head_ref, canon_zone}
use zonegit.Refs.Migrate.{
  is_legacy_v03, legacy_branch, drop_marker, migrate_zone, migrate_legacy_v03,
}

drop_marker-none : (s : Store) → get_ref (drop_marker s) legacy_zone_name_ref ≡ none
unfolding drop_marker get_ref delete_ref
drop_marker-none s = elim (Option-cases (lookup legacy_zone_name_ref s.refs)) [
  | inl e ↦ ground (arith, e)
  | inr (h, e) ↦ ground (
    arith,
    e,
    bytes_eq_refl h,
    bytes_eq_refl legacy_zone_name_ref,
    lookup-remove legacy_zone_name_ref legacy_zone_name_ref s.refs,
  )
]

drop_marker-is_legacy : (s : Store) → is_legacy_v03 (drop_marker s) ≡ (false, [])
unfolding is_legacy_v03
drop_marker-is_legacy s = rw (drop_marker-none s, is_legacy_v03) refl

then_do-end :
    {A B : Type 0} (m : Outcome Store A) (b r : B) (g : Store → Store)
    → (m then_do (λ _ s. (ok b, g s))).0 ≡ ok r
    → (s : Store) × ((m then_do (λ _ s. (ok b, g s))).1 ≡ g s)
then_do-end (ok a, s) b r g e = (s, refl)
then_do-end (err x, s) b r g e = cc

module _ (sha256 : Bytes → Hash) where
  pub not_legacy :
      (s : Store) → (is_legacy_v03 s).0 ≡ false → migrate_legacy_v03 sha256 s ≡ (ok (false, []), s)
  unfolding migrate_legacy_v03
  not_legacy s e = rw e refl

  migrate_zone-ends :
      (zone branch : Bytes) (s : Store) (r : Bool × Bytes)
      → (migrate_zone sha256 zone branch s).0 ≡ ok r
      → (is_legacy_v03 (migrate_zone sha256 zone branch s).1).0 ≡ false
  unfolding migrate_zone
  migrate_zone-ends zone branch s r done =
      let (s', e) = then_do-end _ (true, zone) r drop_marker done in
      ap (λ z. (is_legacy_v03 z).0) e ∙ ap (λ (p : Bool × Bytes). p.0) (drop_marker-is_legacy s')

  -- A migration fails, has nothing to do, or makes the five steps.
  migrate-cases :
      (s : Store) (r : Bool × Bytes)
      → (migrate_legacy_v03 sha256 s).0 ≡ ok r
      → ((is_legacy_v03 s).0 ≡ false)
        ⊎ (migrate_legacy_v03 sha256 s
            ≡ migrate_zone sha256
                (canon_zone (is_legacy_v03 s).1)
                (legacy_branch (get_ref s head_ref))
                s)
  unfolding migrate_legacy_v03
  migrate-cases s r done = elim (Bool-cases (is_legacy_v03 s).0) [
    | inr e ↦ inl e
    | inl e ↦ elim (Bool-cases (length (canon_zone (is_legacy_v03 s).1) == 0)) [
      | inl z ↦ cc (rw (e, z, migrate_legacy_v03) at done)
      | inr z ↦ inr (rw (e, z, migrate_legacy_v03) refl)
    ]
  ]

  -- After a migration that succeeded, the repository is no legacy one, and to migrate it again does
  -- nothing.
  pub migrate_legacy_v03_idem :
      (s : Store) (r : Bool × Bytes)
      → (migrate_legacy_v03 sha256 s).0 ≡ ok r
      → ((is_legacy_v03 (migrate_legacy_v03 sha256 s).1).0 ≡ false)
        × (migrate_legacy_v03 sha256 (migrate_legacy_v03 sha256 s).1
            ≡ (ok (false, []), (migrate_legacy_v03 sha256 s).1))
  migrate_legacy_v03_idem s r done =
      let ended : (is_legacy_v03 (migrate_legacy_v03 sha256 s).1).0 ≡ false =
        elim (migrate-cases s r done) [
          | inl e ↦
              ap (λ (out : Outcome Store (Bool × Bytes)). (is_legacy_v03 out.1).0) (not_legacy s e)
              ∙ e
          | inr e ↦
              ap (λ (out : Outcome Store (Bool × Bytes)). (is_legacy_v03 out.1).0) e
              ∙ migrate_zone-ends _ _ s r
                  (sym (ap (λ (out : Outcome Store (Bool × Bytes)). out.0) e) ∙ done)
        ] in
      (ended, not_legacy (migrate_legacy_v03 sha256 s).1 ended)
