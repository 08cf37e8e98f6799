-- ===== src/Zone/Sample.antt =====
-- A small stand-in for miekg/dns.
use zonegit.Base.{ℕ, ◌+◌, [], ◌∷◌, ◌++◌, some, ok, codes, length, replicate}
use zonegit.Zone.{Dns}

-- A record is a number: the last byte of an address, or a serial.
abbrev pub toy_dns : Dns
toy_dns = record {
  RR = ℕ;
  owner = λ _. codes "www.foo.com.";
  class_of = λ _. 1;
  rrtype_of = λ _. 1;
  ttl_of = λ _. 300;
  pack_rr = λ n. ok (0 ∷ replicate 10 0 ++ (n ∷ []));
  unpack_rr = λ _. ok 0;
  pack_name = λ name. ok (length name ∷ name);
  unpack_name = λ msg off. ok (codes ".", off + 1);
  soa_serial = λ n. some n;
  with_soa_serial = λ _ n. n;
  with_header = λ n _ _. n;
  parse_zone = λ _ _. ok [];
  type_to_string = λ _. codes "A";
}
