-- ===== src/Refs/Tests.antt =====
-- The refs on concrete stores.
use zonegit.Base.{
  [], if◌then◌else◌, ◌&&◌, ◌≡◌, refl, arith, true, ◌∷◌, some, ok, codes, Bytes, ◌++◌, take,
  replicate, bytes_eq, lookup, assign, remove, decimal, digits, contains, to_lower, lower, ends_in,
}
use zonegit.Store.Hash.{Hash, is_zero, zero_hash}
use zonegit.Store.MemStore.{Store, new_store, get_ref, cas_ref}
use zonegit.Object.{hash_of, message}
use zonegit.Refs.{
  get_branch, update_branch, parse_branch_target, branch_ref, read_head, set_head, register_zone,
  canon_zone, zone_sentinel,
}
use zonegit.Refs.Head.{read_head-set_head, tip}
use zonegit.Refs.Branches.{get_branch-update_branch}
use zonegit.Refs.Names.{parse_branch_target-branch_ref}
use zonegit.Refs.Resolve.{resolve_in_zone}
use zonegit.Refs.Resolve.Plain.{IsPlain, branch_else_tag, resolve_in_zone-plain}
use zonegit.Refs.Migrate.{
  migrate_legacy_v03, migrate_zone, is_legacy_v03, legacy_branch, move_refs, drop_marker,
}
use zonegit.Refs.Migrate.Stops.{migrate_legacy_v03-register_zone}
use zonegit.Refs.Migrate.Done.{migrate_legacy_v03_idem}
use zonegit.Refs.{
  head_ref, legacy_zone_name_ref, list_zones, names_below, trim_prefix, decode_legacy_ref_slot,
  write_symref, read_symref, tag_ref, get_tag,
}
use zonegit.Store.MemStore.{
  list_refs, refs_with_prefix, has_prefix, delete_ref, put_object, get_object,
}
use zonegit.Object.{encode_object}
use zonegit.Base.{sort_on, insert_on, bytes_lt, cut_last, false, length}

abbrev zone_name : Bytes
zone_name = codes "Foo.com"

-- A hash that is never zero, for the examples.
abbrev prefix_hash : Bytes → Hash
prefix_hash m = 1 ∷ take 31 (m ++ replicate 31 0)

abbrev main : Bytes
main = codes "main"

program : Unit {0}
unfolding update_branch get_branch canon_zone to_lower lower ends_in branch_ref contains is_zero
    bytes_eq hash_of message decimal digits register_zone zone_sentinel get_ref cas_ref lookup
    assign remove zero_hash
program = tt

parse_branch_target-branch_ref_example :
    parse_branch_target (branch_ref zone_name main) ≡ some (canon_zone zone_name, main)
unfolding program
parse_branch_target-branch_ref_example =
    parse_branch_target-branch_ref zone_name main (omega arith) (omega arith) refl

read_head-set_head_example :
    ((set_head prefix_hash zone_name main new_store).0 ≡ ok tt)
    × (read_head (set_head prefix_hash zone_name main new_store).1
        ≡ ok (canon_zone zone_name, main, tip new_store (branch_ref zone_name main)))
unfolding program
read_head-set_head_example =
    read_head-set_head prefix_hash zone_name main new_store refl (omega arith) (omega arith) refl

abbrev one_branch : Store
one_branch = record {
  objects = [];
  refs = (branch_ref zone_name main, replicate 32 1) ∷ [];
  reflog = [];
}

get_branch-update_branch_example :
    get_branch
      (update_branch zone_name main (replicate 32 1) (replicate 32 2) one_branch).1
      (codes "foo.com.")
      main
    ≡ (if bytes_eq (canon_zone zone_name) (canon_zone (codes "foo.com.")) && bytes_eq main main
        then ok (replicate 32 2)
        else get_branch one_branch (codes "foo.com.") main)
unfolding program
get_branch-update_branch_example =
    get_branch-update_branch zone_name main (codes "foo.com.") main (replicate 32 1)
      (replicate 32 2) one_branch (omega arith, omega arith, refl) (omega arith, omega arith, refl)
      refl

main-IsPlain : IsPlain main
unfolding program
main-IsPlain = record { no_slash = refl; no_tilde = refl; not_head = refl; not_hash = refl }

resolve_in_zone-plain_example :
    resolve_in_zone one_branch zone_name main
    ≡ branch_else_tag (get_branch one_branch zone_name main) (get_tag one_branch zone_name main)
unfolding program
resolve_in_zone-plain_example =
    resolve_in_zone-plain one_branch zone_name main main-IsPlain (omega arith)

-- The 32 bytes in which v0.3 keeps a text.
abbrev slot : Bytes → Hash
slot text = take 32 (length text ∷ text ++ replicate 32 0)

abbrev legacy : Store
legacy = record {
  objects = [];
  refs =
      (legacy_zone_name_ref, slot (codes "foo.com."))
      ∷ (head_ref, slot (codes "refs/heads/dev"))
      ∷ (codes "refs/heads/dev", replicate 32 1)
      ∷ (codes "refs/tags/v1", replicate 32 2)
      ∷ [];
  reflog = [];
}

legacy_migrates :
    ((migrate_legacy_v03 prefix_hash legacy).0 ≡ ok (true, codes "foo.com."))
    × (read_head (migrate_legacy_v03 prefix_hash legacy).1
        ≡ ok (codes "foo.com.", codes "dev", replicate 32 1))
    × (get_tag (migrate_legacy_v03 prefix_hash legacy).1 (codes "foo.com.") (codes "v1")
        ≡ ok (replicate 32 2))
unfolding program migrate_legacy_v03 migrate_zone is_legacy_v03 legacy_branch move_refs drop_marker
    list_zones names_below trim_prefix list_refs refs_with_prefix has_prefix sort_on insert_on
    bytes_lt decode_legacy_ref_slot delete_ref set_head write_symref encode_object put_object
    read_head read_symref get_object parse_branch_target cut_last tag_ref get_tag
legacy_migrates = (refl, refl, refl)

migrate_legacy_v03_idem_example :
    ((is_legacy_v03 (migrate_legacy_v03 prefix_hash legacy).1).0 ≡ false)
    × (migrate_legacy_v03 prefix_hash (migrate_legacy_v03 prefix_hash legacy).1
        ≡ (ok (false, []), (migrate_legacy_v03 prefix_hash legacy).1))
migrate_legacy_v03_idem_example =
    migrate_legacy_v03_idem prefix_hash legacy (true, codes "foo.com.") legacy_migrates.0

legacy_registers : (register_zone (codes "foo.com.") legacy).0 ≡ ok tt
unfolding program register_zone
legacy_registers = refl

migrate_legacy_v03-register_zone_example :
    migrate_legacy_v03 prefix_hash (register_zone (codes "foo.com.") legacy).1
    ≡ (ok (false, []), (register_zone (codes "foo.com.") legacy).1)
migrate_legacy_v03-register_zone_example =
    migrate_legacy_v03-register_zone prefix_hash (codes "foo.com.") legacy legacy_registers
