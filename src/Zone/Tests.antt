-- ===== src/Zone/Tests.antt =====
-- Record sets over a small stand-in for miekg/dns.
use zonegit.Base.{
  ℕ, ◌+◌, ◌-◌, ◌%◌, ◌^◌, ◌<◌, ◌≡◌, refl, arith, [], ◌∷◌, ◌++◌, Bytes, some, none, ok, codes, ltb,
  if◌then◌else◌, sort_on, insert_on, bytes_lt, bytes_eq, to_lower, lower, ends_in,
}
use mathlib.Core.List.{Permᴰ}
use zonegit.Zone.{
  Dns, RRset, bump_soa_serial, encode_rrset, be16, be32, canonical_name, write_rdatas, pack_rdata,
  same_header, pack_all, write_rrset,
}
use zonegit.Zone.Sample.{toy_dns}
use zonegit.Zone.Canonical.{encode_rrset-perm}
use zonegit.Zone.Soa.{bump_soa_serial-next}

abbrev soa_set : RRset ℕ
soa_set = record {
  name = codes "foo.com.";
  class = 1;
  rrtype = 6;
  ttl = 300;
  rrs = 4294967295 ∷ [];
}

-- A number below 2^32 is a SOA with that serial, another one is no SOA.
abbrev serial_dns : Dns
serial_dns = record toy_dns {
  soa_serial = λ rr. if ltb rr (2 ^ 32) then some rr else none;
  with_soa_serial = λ rr n. if ltb rr (2 ^ 32) then n % 2 ^ 32 else rr;
}

serial_law :
    (r m n : ℕ)
    → serial_dns.soa_serial r ≡ some m
    → n < 2 ^ 32
    → serial_dns.soa_serial (serial_dns.with_soa_serial r n) ≡ some n
serial_law r m n e small = ground (arith, e, small)

bump_soa_serial-next_example :
    (rr' : ℕ) × (serial' : ℕ) × (bump_soa_serial serial_dns soa_set
      ≡ ok (record soa_set { rrs = rr' ∷ [] }))
    × (serial_dns.soa_serial rr' ≡ some serial')
    × (serial' < 2 ^ 32)
    × ((serial' + 2 ^ 32 - 4294967295) % 2 ^ 32 ≡ 1)
bump_soa_serial-next_example =
    bump_soa_serial-next serial_dns soa_set 4294967295 4294967295 serial_law refl refl (omega arith)

abbrev blob : Bytes
blob =
    1 ∷ 12 ∷ codes "www.foo.com."
    ++ (0 ∷ 1 ∷ 0 ∷ 1 ∷ 0 ∷ 0 ∷ 1 ∷ 44 ∷ 0 ∷ 2 ∷ 0 ∷ 1 ∷ 5 ∷ 0 ∷ 1 ∷ 7 ∷ [])

one_order : encode_rrset toy_dns (7 ∷ 5 ∷ []) ≡ ok blob
unfolding encode_rrset pack_all write_rrset canonical_name to_lower lower ends_in same_header
    pack_rdata be16 be32 write_rdatas sort_on insert_on bytes_lt bytes_eq
one_order = refl

encode_rrset-perm_example : encode_rrset toy_dns (5 ∷ 7 ∷ []) ≡ ok blob
encode_rrset-perm_example =
    encode_rrset-perm toy_dns (7 ∷ 5 ∷ []) (5 ∷ 7 ∷ []) blob (Permᴰ.swap refl refl) one_order
