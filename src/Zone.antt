-- ===== src/Zone.antt =====
-- pkg/zone: record sets as blobs (blob.go), the bump of the SOA serial (soa.go) and the grouping of
-- a zone file's records (zonefile.go). github.com/miekg/dns is the parameter `Dns`.
pub mod Canonical
pub mod Soa
pub mod Sample
pub mod Import
mod Tests
use zonegit.Base.{
  ℕ, zero, suc, ◌+◌, ◌*◌, ◌/◌, ◌%◌, ◌^◌, ◌≡◌, Bool, true, false, not, ◌&&◌, ◌||◌, List, [], ◌∷◌,
  ◌++◌, length, take, drop, Bytes, bytes_eq, ltb, ◌==◌, if◌then◌else◌, Option, none, some, Result,
  ok, err, Error, ◌>>=◌, ◌>>◌, sort_on, to_lower, ends_in, map,
}

-- What the source uses of miekg/dns: records with their header, and their wire form. `unpack_name`
-- takes a message and an offset, and returns a name and the offset behind it. `soa_serial` is none
-- for a record that is no SOA; `with_soa_serial` and `with_header` set fields of a copy.
pub record Dns : Type 1 where
  pub RR : Type 0
  pub owner : RR → Bytes
  pub class_of : RR → ℕ
  pub rrtype_of : RR → ℕ
  pub ttl_of : RR → ℕ
  pub pack_rr : RR → Result Bytes
  pub unpack_rr : Bytes → Result RR
  pub pack_name : Bytes → Result Bytes
  pub unpack_name : Bytes → ℕ → Result (Bytes × ℕ)
  pub soa_serial : RR → Option ℕ
  pub with_soa_serial : RR → ℕ → RR
  pub with_header : RR → Bytes → ℕ → RR
  pub parse_zone : Bytes → Bytes → Result (List RR)
  pub type_to_string : ℕ → Bytes

abbrev pub blob_version : ℕ
blob_version = 1

-- `RRset`, its key spelled out.
pub record RRset (RR : Type 0) : Type 0 where
  pub name : Bytes
  pub class : ℕ
  pub rrtype : ℕ
  pub ttl : ℕ
  pub rrs : List RR

unfoldable pub canonical_name : Bytes → Bytes
unfolding to_lower ends_in
canonical_name s = let s' = to_lower s in if not (ends_in 46 s') then (s' ++ (46 ∷ [])) else s'

-- Big-endian numbers of two and of four bytes.
unfoldable pub be16 : ℕ → Bytes
be16 n = (n / 256 % 256) ∷ (n % 256) ∷ []

unfoldable pub be32 : ℕ → Bytes
unfolding be16
be32 n = be16 (n / 2 ^ 16) ++ be16 (n % 2 ^ 16)

unfoldable pub be_value : ℕ → Bytes → ℕ
be_value acc [] = acc
be_value acc (b ∷ bs) = be_value (acc * 256 + b) bs

-- The loop over the packed records at the end of `EncodeRRset`.
unfoldable pub write_rdatas : List Bytes → Result Bytes
unfolding be16
write_rdatas [] = ok []
write_rdatas (rd ∷ rds) =
    let rest = write_rdatas rds >>= λ body. ok (be16 (length rd) ++ (rd ++ body)) in
    if ltb 65535 (length rd) then err Error.failed else rest

module _ (dns : Dns) where
  open dns use {
    RR, owner, class_of, rrtype_of, ttl_of, pack_rr, unpack_rr, pack_name, unpack_name, soa_serial,
    with_soa_serial, with_header, parse_zone,
  }

  -- The record data alone, behind the name and ten bytes of a packed record.
  unfoldable pub pack_rdata : RR → Result Bytes
  pack_rdata rr = do
    full ← pack_rr rr
    (_, hdr_end) ← unpack_name full 0
    if ltb (length full) (hdr_end + 10) then err Error.failed else ok (drop (hdr_end + 10) full)

  unfoldable pub same_header : RR → RR → Bool
  unfolding canonical_name
  same_header first rr =
      bytes_eq (canonical_name (owner rr)) (canonical_name (owner first))
      && (class_of rr == class_of first)
      && (rrtype_of rr == rrtype_of first)
      && (ttl_of rr == ttl_of first)

  -- The loop of `EncodeRRset`: every record has the first one's header.
  unfoldable pub pack_all : RR → List RR → Result (List Bytes)
  unfolding same_header pack_rdata
  pack_all first [] = ok []
  pack_all first (rr ∷ rrs) =
      let rest = pack_rdata rr >>= λ rd. pack_all first rrs >>= λ rds. ok (rd ∷ rds) in
      if same_header first rr then rest else err Error.failed

  unfoldable pub write_rrset : Bytes → ℕ → ℕ → ℕ → List Bytes → Result Bytes
  unfolding be16 be32 write_rdatas
  write_rrset name class rrtype ttl rdatas = do
    wire ← pack_name name
    if ltb 65535 (length rdatas) then err Error.failed else ok tt
    body ← write_rdatas rdatas
    ok (
        blob_version
        ∷ (wire ++ (be16 class ++ (be16 rrtype ++ (be32 ttl ++ (be16 (length rdatas) ++ body))))))

  unfoldable pub encode_rrset : List RR → Result Bytes
  unfolding pack_all write_rrset canonical_name
  encode_rrset [] = err Error.failed
  encode_rrset (first ∷ rrs) = pack_all first (first ∷ rrs) >>= λ rdatas.
      write_rrset (canonical_name (owner first)) (class_of first) (rrtype_of first) (ttl_of first)
        (sort_on (λ rd. rd) rdatas)

  unfoldable pub unpack_rdata : Bytes → ℕ → ℕ → ℕ → Bytes → Result RR
  unfolding be16 be32
  unpack_rdata name rrtype class ttl rdata = do
    wire ← pack_name name
    unpack_rr
        (wire ++ (be16 rrtype ++ (be16 class ++ (be32 ttl ++ (be16 (length rdata) ++ rdata)))))

  -- The loop of `DecodeRRset`; what follows the records is returned beside them.
  unfoldable pub read_rdatas : (Bytes → Result RR) → ℕ → Bytes → Result (List RR × Bytes)
  unfolding be_value
  read_rdatas unpack zero rest = ok ([], rest)
  read_rdatas unpack (suc count) rest =
      let ln = be_value 0 (take 2 rest) in
      let body = drop 2 rest in
      let next = unpack (take ln body) >>= λ rr.
      read_rdatas unpack count (drop ln body) >>= λ more. ok (rr ∷ more.0, more.1) in
      if ltb (length rest) 2
      then err Error.failed
      else if ltb (length body) ln
      then err Error.failed
      else next

  -- The part of `DecodeRRset` behind the owner's name.
  unfoldable pub decode_rrset_body : Bytes → Bytes → Result (RRset RR)
  unfolding be_value read_rdatas unpack_rdata
  decode_rrset_body name rest =
      let class = be_value 0 (take 2 rest) in
      let rrtype = be_value 0 (take 2 (drop 2 rest)) in
      let ttl = be_value 0 (take 4 (drop 4 rest)) in
      let count = be_value 0 (take 2 (drop 8 rest)) in
      if ltb (length rest) 10
      then err Error.failed
      else (read_rdatas (unpack_rdata name rrtype class ttl) count (drop 10 rest) >>= λ read.
          if not (length read.1 == 0)
          then err Error.failed
          else ok (record { name = name; class = class; rrtype = rrtype; ttl = ttl; rrs = read.0 }))

  unfoldable pub decode_rrset : Bytes → Result (RRset RR)
  unfolding decode_rrset_body
  decode_rrset [] = err Error.failed
  decode_rrset (version ∷ rest) =
      if not (version == blob_version)
      then err Error.failed
      else (unpack_name (version ∷ rest) 1 >>= λ read.
          decode_rrset_body read.0 (drop read.1 (version ∷ rest)))

  unfoldable pub bump_one : RRset RR → RR → Option ℕ → Result (RRset RR)
  bump_one soa rr none = err Error.failed
  bump_one soa rr (some serial) =
      ok (record soa { rrs = with_soa_serial rr ((serial + 1) % 2 ^ 32) ∷ [] })

  unfoldable pub bump_only : RRset RR → List RR → Result (RRset RR)
  unfolding bump_one
  bump_only soa [] = err Error.failed
  bump_only soa (rr ∷ []) = bump_one soa rr (soa_serial rr)
  bump_only soa (rr ∷ other ∷ rrs) = err Error.failed

  -- `BumpSOASerial`: the serial wraps around at 2^32.
  unfoldable pub bump_soa_serial : RRset RR → Result (RRset RR)
  unfolding bump_only
  bump_soa_serial soa = bump_only soa soa.rrs
