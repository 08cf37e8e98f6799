-- ===== src/Zone/Import.antt =====
-- pkg/zone/zonefile.go: the records of a zone file, grouped into record sets.
pub mod Groups
mod Tests
use zonegit.Base.{
  ◌≡◌, Bool, not, ◌&&◌, List, [], ◌∷◌, ◌++◌, map, Bytes, bytes_eq, ltb, ◌==◌, if◌then◌else◌, Result,
  ok, err, ◌>>=◌, sort_on, ends_in, ℕ, suc,
}
use zonegit.Zone.{Dns, RRset, canonical_name}

-- The order of the output: by name, class and type. The zero that ends the name is below all its
-- bytes, which are moved up.
unfoldable pub group_order : {RR : Type 0} → RRset RR → List ℕ
group_order g = map suc g.name ++ (0 ∷ g.class ∷ g.rrtype ∷ [])

module _ (dns : Dns) where
  open dns use {RR, owner, class_of, rrtype_of, ttl_of, with_header, parse_zone}

  unfoldable pub in_group : RR → RRset RR → Bool
  unfolding canonical_name
  in_group rr g =
      bytes_eq g.name (canonical_name (owner rr))
      && (g.class == class_of rr)
      && (g.rrtype == rrtype_of rr)

  abbrev pub group_of : RR → RRset RR
  group_of rr = record {
    name = canonical_name (owner rr);
    class = class_of rr;
    rrtype = rrtype_of rr;
    ttl = ttl_of rr;
    rrs = rr ∷ [];
  }

  -- `append` to the group of the record; the TTL of a group is its first record's until `level`.
  unfoldable pub add_record : RR → List (RRset RR) → List (RRset RR)
  unfolding in_group
  add_record rr [] = group_of rr ∷ []
  add_record rr (g ∷ gs) =
      let rest = add_record rr gs in
      if in_group rr g then (record g { rrs = g.rrs ++ (rr ∷ []) } ∷ gs) else (g ∷ rest)

  unfoldable pub group_records : List (RRset RR) → List RR → List (RRset RR)
  unfolding add_record
  group_records groups [] = groups
  group_records groups (rr ∷ rrs) = group_records (add_record rr groups) rrs

  unfoldable pub min_ttl : ℕ → List RR → ℕ
  min_ttl ttl [] = ttl
  min_ttl ttl (rr ∷ rrs) = min_ttl (if ltb (ttl_of rr) ttl then ttl_of rr else ttl) rrs

  -- Every record gets the group's name and its smallest TTL.
  unfoldable pub level : RRset RR → RRset RR
  unfolding min_ttl
  level g =
      let ttl = min_ttl g.ttl g.rrs in
      record g { ttl = ttl; rrs = map (λ rr. with_header rr g.name ttl) g.rrs }

  unfoldable pub import_zonefile : Bytes → Bytes → Result (List (RRset RR))
  unfolding group_records level group_order
  import_zonefile src origin =
      let origin' = if not (ends_in 46 origin) then (origin ++ (46 ∷ [])) else origin in
      parse_zone src origin' >>= λ rrs. ok (sort_on group_order (map level (group_records [] rrs)))
