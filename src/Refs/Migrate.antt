-- ===== src/Refs/Migrate.antt =====
-- pkg/refs/refs.go: the migration of a v0.3 repository with one zone.
pub mod Done
pub mod Stops
use zonegit.Base.{
  ℕ, ◌≡◌, Bool, true, false, not, ◌&&◌, List, [], ◌∷◌, ◌++◌, length, Bytes, ltb, ◌==◌,
  if◌then◌else◌, Option, none, some, Result, ok, err, Error, Outcome, ◌then_do◌, codes, contains,
}
use zonegit.Store.Hash.{Hash, zero_hash}
use zonegit.Store.MemStore.{Store, RefEntry, get_ref, cas_ref, delete_ref, list_refs}
use zonegit.Refs.{
  head_ref, branch_prefix, tag_prefix, legacy_zone_name_ref, canon_zone, decode_legacy_ref_slot,
  branch_ref, tag_ref, trim_prefix, register_zone, list_zones, set_head,
}

-- `IsLegacyV03`
unfoldable pub is_legacy_v03 : Store → Bool × Bytes
is_legacy_v03 s = elim (get_ref s legacy_zone_name_ref) [
  | none ↦ (false, [])
  | some h ↦ if ltb 0 (length (list_zones s)) then (false, []) else (true, decode_legacy_ref_slot h)
]

-- The branch that the legacy HEAD names, "main" if it names none.
unfoldable pub legacy_branch : Option Hash → Bytes
legacy_branch none = codes "main"
legacy_branch (some slot) =
    let rest = trim_prefix (decode_legacy_ref_slot slot) branch_prefix in
    if not (length rest == 0) && not (contains 47 rest) then rest else codes "main"

-- The loops of `MigrateLegacyV03`: each ref is created under its new name, then deleted under the
-- old one. A name with a slash is migrated already.
unfoldable pub move_refs :
    Bytes → (Bytes → Bytes) → List RefEntry → Store → Outcome Store (Unit {0})
move_refs prefix new_ref [] s = (ok tt, s)
move_refs prefix new_ref (e ∷ es) s =
    let rest = trim_prefix e.name prefix in
    let skip = move_refs prefix new_ref es s in
    let move =
      cas_ref (new_ref rest) zero_hash e.hash s
      then_do (λ _. delete_ref e.name e.hash)
      then_do (λ _. move_refs prefix new_ref es) in
    if contains 47 rest then skip else move

-- The last step, whose error is not looked at.
unfoldable pub drop_marker : Store → Store
drop_marker s = elim (get_ref s legacy_zone_name_ref) [
  | none ↦ s
  | some h ↦ (delete_ref legacy_zone_name_ref h s).1
]

module _ (sha256 : Bytes → Hash) where
  -- The five steps, from the zone's name and the branch of HEAD.
  unfoldable pub migrate_zone : Bytes → Bytes → Store → Outcome Store (Bool × Bytes)
  unfolding move_refs drop_marker
  migrate_zone zone branch s =
      register_zone zone s
      then_do (λ _ s'. move_refs branch_prefix (branch_ref zone) (list_refs s' branch_prefix) s')
      then_do (λ _ s'. move_refs tag_prefix (tag_ref zone) (list_refs s' tag_prefix) s')
      then_do (λ _. set_head sha256 zone branch)
      then_do (λ _ s'. (ok (true, zone), drop_marker s'))

  -- Whether there was anything to migrate, and the zone.
  unfoldable pub migrate_legacy_v03 : Store → Outcome Store (Bool × Bytes)
  unfolding is_legacy_v03 legacy_branch migrate_zone
  migrate_legacy_v03 s =
      let zone = canon_zone (is_legacy_v03 s).1 in
      if not (is_legacy_v03 s).0
      then (ok (false, []), s)
      else if length zone == 0
      then (err Error.failed, s)
      else migrate_zone zone (legacy_branch (get_ref s head_ref)) s
