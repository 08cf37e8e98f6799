-- ===== src/Zone/Import/Tests.antt =====
-- A zone file with two record sets.
use zonegit.Base.{
  ℕ, ◌+◌, ◌≡◌, refl, [], ◌∷◌, List, Bytes, none, ok, codes, length, All, insert_on, sort_on,
  bytes_eq, bytes_lt, to_lower, lower, ends_in,
}
use zonegit.Zone.{Dns, RRset, canonical_name}
use zonegit.Zone.Import.{
  import_zonefile, group_records, add_record, in_group, level, min_ttl, group_order,
}
use zonegit.Zone.Import.Groups.{SetsHeader, Homogeneous, import_zonefile-Homogeneous}

-- A record is its owner, its TTL and a number.
abbrev file_dns : Dns
file_dns = record {
  RR = Bytes × ℕ × ℕ;
  owner = λ rr. rr.0;
  class_of = λ _. 1;
  rrtype_of = λ _. 1;
  ttl_of = λ rr. rr.1;
  pack_rr = λ rr. ok (rr.2 ∷ []);
  unpack_rr = λ _. ok ([], 0, 0);
  pack_name = λ name. ok (length name ∷ name);
  unpack_name = λ msg off. ok (codes ".", off + 1);
  soa_serial = λ _. none;
  with_soa_serial = λ rr _. rr;
  with_header = λ rr name ttl. (name, ttl, rr.2);
  parse_zone = λ _ _. ok (
      (codes "WWW.foo.com.", 300, 5)
      ∷ (codes "api.foo.com.", 60, 6)
      ∷ (codes "www.foo.com.", 60, 7)
      ∷ []);
  type_to_string = λ _. codes "A";
}

file_dns-SetsHeader : SetsHeader file_dns
file_dns-SetsHeader = record {
  sets_owner = λ rr n t. refl;
  sets_ttl = λ rr n t. refl;
  keeps_class = λ rr n t. refl;
  keeps_type = λ rr n t. refl;
}

abbrev set_of : Bytes → List (Bytes × ℕ × ℕ) → RRset (Bytes × ℕ × ℕ)
set_of name rrs = record { name = name; class = 1; rrtype = 1; ttl = 60; rrs = rrs }

abbrev two_sets : List (RRset (Bytes × ℕ × ℕ))
two_sets =
    set_of (codes "api.foo.com.") ((codes "api.foo.com.", 60, 6) ∷ [])
    ∷ set_of (codes "www.foo.com.")
        ((codes "www.foo.com.", 60, 5) ∷ (codes "www.foo.com.", 60, 7) ∷ [])
    ∷ []

file_groups : import_zonefile file_dns [] (codes "foo.com") ≡ ok two_sets
unfolding import_zonefile group_records add_record in_group level min_ttl group_order canonical_name
    insert_on sort_on bytes_eq bytes_lt to_lower lower ends_in
file_groups = refl

import_zonefile-Homogeneous_example : All (Homogeneous file_dns) two_sets
import_zonefile-Homogeneous_example =
    import_zonefile-Homogeneous file_dns file_dns-SetsHeader [] (codes "foo.com") two_sets
      file_groups
