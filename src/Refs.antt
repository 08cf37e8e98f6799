-- ===== src/Refs.antt =====
-- pkg/refs/refs.go: zones, branches, tags and HEAD over the refs of a store. The store is the
-- in-memory one, whose reads do not fail.
pub mod Names
pub mod Head
pub mod Zones
pub mod Branches
pub mod Resolve
pub mod Migrate
pub mod Swaps
mod Tests
use zonegit.Base.{
  ℕ, zero, suc, ◌≡◌, Bool, true, false, not, ◌&&◌, ◌||◌, List, [], ◌∷◌, ◌++◌, map, length, take,
  drop, replicate, Bytes, bytes_eq, ltb, ◌==◌, if◌then◌else◌, Option, none, some, Result, ok, err,
  Error, ◌>>=◌, ◌>>◌, Outcome, ◌then_do◌, with_do, sort_on, codes, cut_last, ends_in, to_lower,
  contains,
}
use zonegit.Store.Hash.{Hash, zero_hash, hash_size}
use zonegit.Store.MemStore.{
  Object, Store, RefEntry, ReflogEntry, put_object, get_object, get_ref, cas_ref, delete_ref,
  list_refs, append_reflog, has_prefix,
}
use zonegit.Object.{kind_symref, encode_object}

abbrev pub head_ref : Bytes
head_ref = codes "HEAD"

abbrev pub branch_prefix : Bytes
branch_prefix = codes "refs/heads/"

abbrev pub tag_prefix : Bytes
tag_prefix = codes "refs/tags/"

abbrev pub zone_marker_prefix : Bytes
zone_marker_prefix = codes "refs/zonegit/zones/"

abbrev pub legacy_zone_name_ref : Bytes
legacy_zone_name_ref = codes "refs/zonegit/zone"

unfoldable pub canon_zone : Bytes → Bytes
unfolding to_lower ends_in
canon_zone z =
    let z' = to_lower z in
    if length z' == 0 then [] else if not (ends_in 46 z') then (z' ++ (46 ∷ [])) else z'

-- `copy` into an array that is zero elsewhere.
unfoldable pub zone_sentinel : Hash
zone_sentinel = codes "zonegit:zone:marker:v04" ++ replicate 9 0

-- The empty text stands for "no legacy encoding", as in the source.
unfoldable pub decode_legacy_ref_slot : Hash → Bytes
decode_legacy_ref_slot [] = []
decode_legacy_ref_slot (n ∷ h) = if (n == 0) || ltb 31 n then [] else take n h

unfoldable pub branch_ref : Bytes → Bytes → Bytes
unfolding canon_zone
branch_ref zone branch = branch_prefix ++ (canon_zone zone ++ (47 ∷ branch))

unfoldable pub tag_ref : Bytes → Bytes → Bytes
unfolding canon_zone
tag_ref zone tag = tag_prefix ++ (canon_zone zone ++ (47 ∷ tag))

-- Zone and branch, from `refs/heads/<zone>/<branch>`.
unfoldable pub parse_branch_target : Bytes → Option (Bytes × Bytes)
unfolding cut_last has_prefix
parse_branch_target target =
    if not (has_prefix target branch_prefix)
    then none
    else elim (cut_last 47 (drop (length branch_prefix) target)) [
      | none ↦ none
      | some (zone, branch) ↦
          if (length zone == 0) || (length branch == 0) then none else some (zone, branch)
    ]

-- `strings.TrimPrefix`
unfoldable pub trim_prefix : Bytes → Bytes → Bytes
trim_prefix s p = if has_prefix s p then drop (length p) s else s

-- The refs below a prefix, without it, sorted.
unfoldable pub names_below : Store → Bytes → List Bytes
unfolding trim_prefix
names_below s prefix =
    sort_on (λ n. n) (map (λ (e : RefEntry). trim_prefix e.name prefix) (list_refs s prefix))

unfoldable pub register_zone : Bytes → Store → Outcome Store (Unit {0})
unfolding canon_zone
register_zone name s =
    let zone = canon_zone name in
    let ref = zone_marker_prefix ++ zone in
    if length zone == 0 then (err Error.failed, s) else elim (get_ref s ref) [
      | some old ↦ if bytes_eq old zone_sentinel then (ok tt, s) else (err Error.failed, s)
      | none ↦ cas_ref ref zero_hash zone_sentinel s
    ]

unfoldable pub list_branches : Store → Bytes → List Bytes
unfolding names_below canon_zone
list_branches s zone = names_below s (branch_prefix ++ (canon_zone zone ++ (47 ∷ [])))

unfoldable pub list_tags : Store → Bytes → List Bytes
unfolding names_below canon_zone
list_tags s zone = names_below s (tag_prefix ++ (canon_zone zone ++ (47 ∷ [])))

unfoldable pub list_zones : Store → List Bytes
unfolding names_below
list_zones s = names_below s zone_marker_prefix

unfoldable pub unregister_zone : Bytes → Bool → Store → Outcome Store (Unit {0})
unfolding list_branches
unregister_zone name force s =
    let zone = canon_zone name in
    if not force && ltb 0 (length (list_branches s zone))
    then (err Error.failed, s)
    else delete_ref (zone_marker_prefix ++ zone) zone_sentinel s

unfoldable pub is_zone_registered : Store → Bytes → Bool
is_zone_registered s zone = elim (get_ref s (zone_marker_prefix ++ canon_zone zone)) [
  | none ↦ false
  | some _ ↦ true
]

unfoldable pub create_branch : Bytes → Bytes → Hash → Store → Outcome Store (Unit {0})
create_branch zone name commit s = cas_ref (branch_ref zone name) zero_hash commit s

unfoldable pub update_branch : Bytes → Bytes → Hash → Hash → Store → Outcome Store (Unit {0})
update_branch zone name expected next s = cas_ref (branch_ref zone name) expected next s

unfoldable pub delete_branch : Bytes → Bytes → Hash → Store → Outcome Store (Unit {0})
delete_branch zone name expected s = delete_ref (branch_ref zone name) expected s

unfoldable pub get_branch : Store → Bytes → Bytes → Result Hash
get_branch s zone name = elim (get_ref s (branch_ref zone name)) [
  | none ↦ err Error.not_found
  | some h ↦ ok h
]

unfoldable pub create_tag : Bytes → Bytes → Hash → Store → Outcome Store (Unit {0})
create_tag zone name target s = cas_ref (tag_ref zone name) zero_hash target s

unfoldable pub get_tag : Store → Bytes → Bytes → Result Hash
get_tag s zone name = elim (get_ref s (tag_ref zone name)) [
  | none ↦ err Error.not_found
  | some h ↦ ok h
]

unfoldable pub delete_tag : Bytes → Bytes → Hash → Store → Outcome Store (Unit {0})
delete_tag zone name expected s = delete_ref (tag_ref zone name) expected s

-- `DB.AppendReflog`; `now` is the clock.
unfoldable pub record_move : ℕ → Bytes → Hash → Hash → Bytes → Bytes → Bytes → Store → Store
record_move now ref old new who op msg s =
    append_reflog ref
      (record {
        old = old;
        new = new;
        author = who;
        unix_time = now;
        tz_offset = 0;
        op = op;
        message = msg;
      })
      s

unfoldable pub read_symref : Store → Hash → Result Bytes
unfolding decode_legacy_ref_slot
read_symref s h =
    let legacy = decode_legacy_ref_slot h in
    elim (get_object s h) [
      | ok obj ↦
          if bytes_eq obj.kind kind_symref
          then ok obj.payload
          else if not (length legacy == 0)
          then ok legacy
          else err Error.failed
      | err e ↦ if not (length legacy == 0) then ok legacy else err e
    ]

-- Zone, branch and commit; the commit is zero for a branch without commits.
unfoldable pub read_head : Store → Result (Bytes × Bytes × Hash)
unfolding read_symref parse_branch_target
read_head s = elim (get_ref s head_ref) [
  | none ↦ err Error.not_found
  | some h ↦ read_symref s h >>= λ target. elim (parse_branch_target target) [
    | none ↦ err Error.failed
    | some (zone, branch) ↦ elim (get_ref s target) [
      | none ↦ ok (zone, branch, zero_hash)
      | some commit ↦ ok (zone, branch, commit)
    ]
  ]
]

module _ (sha256 : Bytes → Hash) where
  unfoldable pub write_symref : Bytes → Store → Outcome Store Hash
  write_symref target s =
      let (h, obj) = encode_object sha256 kind_symref target in (ok h, put_object h obj s)

  unfoldable pub set_head : Bytes → Bytes → Store → Outcome Store (Unit {0})
  unfolding write_symref
  set_head zone branch s = write_symref (branch_ref zone branch) s then_do (λ h s'.
      elim (get_ref s' head_ref) [
        | none ↦ cas_ref head_ref zero_hash h s'
        | some old ↦ cas_ref head_ref old h s'
      ])
