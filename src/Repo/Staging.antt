-- ===== src/Repo/Staging.antt =====
-- pkg/repo/repo.go: the handle, its names and its staging area. The lock of the Go code is held
-- through each method, so a method is one step.
pub mod Heads
mod Tests
use zonegit.Base.{
  ℕ, suc, Bool, true, false, not, ◌&&◌, List, [], ◌∷◌, ◌++◌, map, reverse, length, Bytes, bytes_eq,
  if◌then◌else◌, ◌==◌, Result, ok, err, Error, Outcome, ◌>>=◌, ◌then_do◌, with_do, codes, sort_on,
  to_lower, to_upper, ends_in, has_suffix, trim_suffix, split,
}
use zonegit.Store.Hash.{Hash, zero_hash}
use zonegit.Store.MemStore.{Store, put_object}
use zonegit.Object.{encode_blob}
use zonegit.Object.TreeOps.{Labels}
use zonegit.Refs.{canon_zone, register_zone, is_zone_registered, read_head, set_head}
use zonegit.Refs.Migrate.{is_legacy_v03, migrate_legacy_v03}
use zonegit.Zone.{Dns, encode_rrset}

abbrev pub default_branch : Bytes
default_branch = codes "main"

pub record StagingKey : Type 0 where
  pub fqdn : Bytes
  pub rrtype : Bytes

pub record StagingValue : Type 0 where
  pub tombstone : Bool
  pub blob : Hash

abbrev pub Staging : Type 0
Staging = List (StagingKey × StagingValue)

-- `Repo`; `refs` is a view of the storage.
pub record Repo : Type 0 where
  pub storage : Store
  pub staging : Staging
  pub active_zone : Bytes

unfoldable pub same_key : StagingKey → StagingKey → Bool
same_key j k = bytes_eq j.fqdn k.fqdn && bytes_eq j.rrtype k.rrtype

unfoldable pub unstage : StagingKey → Staging → Staging
unfolding same_key
unstage k [] = []
unstage k ((j, v) ∷ m) = if same_key j k then unstage k m else ((j, v) ∷ unstage k m)

-- A write to the map.
unfoldable pub stage : StagingKey → StagingValue → Staging → Staging
unfolding unstage
stage k v m = (k, v) ∷ unstage k m

unfoldable pub strip_zone_suffix : Bytes → Bytes → Bytes
unfolding trim_suffix
strip_zone_suffix owner zone =
    if bytes_eq owner zone
    then []
    else if has_suffix owner (46 ∷ zone)
    then trim_suffix owner (46 ∷ zone)
    else if has_suffix owner zone
    then trim_suffix owner zone
    else trim_suffix owner (codes ".")

unfoldable pub norm_fqdn : Bytes → Bytes
unfolding trim_suffix to_lower
norm_fqdn s =
    let s' = trim_suffix (to_lower s) (codes ".") in if bytes_eq s' (codes "@") then [] else s'

-- The labels from the zone's apex down.
unfoldable pub split_fqdn : Bytes → Labels
unfolding norm_fqdn split
split_fqdn fqdn =
    let name = norm_fqdn fqdn in if length name == 0 then [] else reverse (split 46 name)

-- By name, then by type: the zero that ends the name is below all its bytes, which are moved up.
unfoldable pub staging_order : StagingKey × StagingValue → Bytes
staging_order (k, v) = map suc k.fqdn ++ (0 ∷ k.rrtype)

-- `sortedKeys`, with the values.
unfoldable pub sorted_keys : Staging → Staging
unfolding staging_order
sorted_keys m = sort_on staging_order m

-- A part that works on the storage alone.
abbrev pub on_store : {A : Type 0} → (Store → Outcome Store A) → Repo → Outcome Repo A
on_store f r = let (a, s) = f r.storage in (a, record r { storage = s })

-- `StagedCount`
unfoldable pub staged_count : Repo → ℕ
staged_count r = length r.staging

-- `Delete`
unfoldable pub delete : Bytes → Bytes → Repo → Repo
unfolding stage
delete fqdn rrtype r = record r {
  staging =
      stage (record { fqdn = norm_fqdn fqdn; rrtype = to_upper rrtype })
        (record { tombstone = true; blob = zero_hash }) r.staging;
}

unfoldable pub add_zone : Bytes → Repo → Outcome Repo (Unit {0})
add_zone name = on_store (register_zone (canon_zone name))

module _ (sha256 : Bytes → Hash) where
  -- The zone of HEAD, if HEAD can be read and names one.
  unfoldable pub load_active : Repo → Repo
  load_active r = elim (read_head r.storage) [
    | err _ ↦ r
    | ok (zone, branch, commit) ↦ if length zone == 0 then r else record r { active_zone = zone }
  ]

  -- `Open`, on a storage that is given.
  unfoldable pub open_repo : Bool → Store → Result Repo
  unfolding load_active
  open_repo read_only s =
      let r : Repo = record { storage = s; staging = []; active_zone = [] } in
      let migrated = migrate_legacy_v03 sha256 s in
      if not (is_legacy_v03 s).0
      then ok (load_active r)
      else if read_only
      then err Error.failed
      else (migrated.0 >>= λ _. ok (load_active (record r { storage = migrated.1 })))

  unfoldable pub point_head : Bytes → Bytes → Repo → Outcome Repo (Unit {0})
  point_head zone branch r =
      on_store (set_head sha256 zone branch) r
      then_do (λ _ r'. (ok tt, record r' { active_zone = zone }))

  -- `Init`: HEAD is set only if it cannot be read.
  unfoldable pub init : Bytes → Repo → Outcome Repo (Unit {0})
  unfolding point_head
  init name r =
      let zone = canon_zone name in
      on_store (register_zone zone) r then_do (λ _ r'. elim (read_head r'.storage) [
        | ok _ ↦ (ok tt, r')
        | err _ ↦ point_head zone default_branch r'
      ])

  unfoldable pub switch_zone : Bytes → Bytes → Repo → Outcome Repo (Unit {0})
  unfolding point_head
  switch_zone name branch r =
      let zone = canon_zone name in
      if not (is_zone_registered r.storage zone)
      then (err Error.failed, r)
      else point_head zone branch r

  module _ (dns : Dns) where
    open dns use {RR, owner, rrtype_of, type_to_string}

    -- The owner's name in lower case, with a dot at its end.
    unfoldable pub full_owner : Bytes → Bytes
    full_owner name =
        let name' = to_lower name in if ends_in 46 name' then name' else name' ++ (46 ∷ [])

    unfoldable pub stage_blob : RR → Bytes → Repo → Outcome Repo (Unit {0})
    unfolding full_owner strip_zone_suffix stage
    stage_blob rr payload r =
        let (h, obj) = encode_blob sha256 payload in
        (
          ok tt,
          record r {
            storage = put_object h obj r.storage;
            staging =
                stage
                  (record {
                    fqdn = strip_zone_suffix (full_owner (owner rr)) r.active_zone;
                    rrtype = type_to_string (rrtype_of rr);
                  })
                  (record { tombstone = false; blob = h }) r.staging;
          },
        )

    -- `Set`
    unfoldable pub set_rrset : List RR → Repo → Outcome Repo (Unit {0})
    unfolding stage_blob
    set_rrset [] r = (err Error.failed, r)
    set_rrset (rr ∷ rrs) r =
        if length r.active_zone == 0
        then (err Error.failed, r)
        else with_do r (encode_rrset dns (rr ∷ rrs)) (λ payload. stage_blob rr payload r)
