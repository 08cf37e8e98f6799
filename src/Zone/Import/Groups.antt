-- ===== src/Zone/Import/Groups.antt =====
-- The groups of a zone file have one header each, which is what the encoder asks for.
use zonegit.Base.{
  ℕ, ◌≡◌, refl, ap, arith, true, List, [], ◌∷◌, ◌++◌, map, Bytes, bytes_eq_refl, ok, All,
  All-append, All-sort_on, Bool-cases, inl, inr, bind_ok, ok_injective,
}
use mathlib.Core.Path.{subst}
use zonegit.Zone.{Dns, RRset, canonical_name, same_header}
use zonegit.Zone.Import.{
  group_order, in_group, add_record, group_records, min_ttl, level, import_zonefile,
}

-- `with_header` sets the owner and the TTL, and keeps class and type.
pub record SetsHeader (dns : Dns) : Type 0 where
  pub sets_owner : (rr : dns.RR) (n : Bytes) (t : ℕ) → dns.owner (dns.with_header rr n t) ≡ n
  pub sets_ttl : (rr : dns.RR) (n : Bytes) (t : ℕ) → dns.ttl_of (dns.with_header rr n t) ≡ t
  pub keeps_class :
      (rr : dns.RR) (n : Bytes) (t : ℕ) → dns.class_of (dns.with_header rr n t) ≡ dns.class_of rr
  pub keeps_type :
      (rr : dns.RR) (n : Bytes) (t : ℕ) → dns.rrtype_of (dns.with_header rr n t) ≡ dns.rrtype_of rr

-- A record set that is not empty and whose records all have the header of its first one.
abbrev pub Homogeneous : (dns : Dns) → RRset dns.RR → Type 0
Homogeneous dns g =
    (first : dns.RR) × (rest : List dns.RR) × (g.rrs ≡ first ∷ rest)
    × All (λ rr. same_header dns first rr ≡ true) g.rrs

module _ (dns : Dns) where
  abbrev OfGroup : RRset dns.RR → dns.RR → Type 0
  OfGroup g rr = (dns.class_of rr ≡ g.class) × (dns.rrtype_of rr ≡ g.rrtype)

  -- A group before its records are levelled.
  abbrev Grouped : RRset dns.RR → Type 0
  Grouped g =
      (first : dns.RR) × (rest : List dns.RR) × (g.rrs ≡ first ∷ rest) × All (OfGroup g) g.rrs

  in_group-Grouped :
      (rr : dns.RR) (g : RRset dns.RR)
      → in_group dns rr g ≡ true
      → Grouped g
      → Grouped (record g { rrs = g.rrs ++ (rr ∷ []) })
  unfolding in_group
  in_group-Grouped rr g e (first, rest, shape, a) = (
    first,
    rest ++ (rr ∷ []),
    ap (λ xs. xs ++ (rr ∷ [])) shape,
    All-append (OfGroup g) g.rrs (rr ∷ []) a ((ground (arith, e), ground (arith, e)), tt),
  )

  add_record-Grouped :
      (rr : dns.RR) (gs : List (RRset dns.RR)) → All Grouped gs → All Grouped (add_record dns rr gs)
  unfolding add_record
  add_record-Grouped rr [] a = ((rr, [], refl, ((refl, refl), tt)), tt)
  add_record-Grouped rr (g ∷ gs) a = elim (Bool-cases (in_group dns rr g)) [
    | inl e ↦ rw e (in_group-Grouped rr g e a.0, a.1)
    | inr e ↦ rw e (a.0, add_record-Grouped rr gs a.1)
  ]

  group_records-Grouped :
      (groups : List (RRset dns.RR)) (rrs : List dns.RR)
      → All Grouped groups
      → All Grouped (group_records dns groups rrs)
  unfolding group_records
  group_records-Grouped groups [] a = a
  group_records-Grouped groups (rr ∷ rrs) a =
      group_records-Grouped (add_record dns rr groups) rrs (add_record-Grouped rr groups a)

  module _ (headers : SetsHeader dns) where
    same_header-levelled :
        (g : RRset dns.RR) (n : Bytes) (t : ℕ) (first rr : dns.RR)
        → OfGroup g first
        → OfGroup g rr
        → same_header dns (dns.with_header first n t) (dns.with_header rr n t) ≡ true
    unfolding same_header
    same_header-levelled g n t first rr p q = ground (
      arith,
      p,
      q,
      headers.sets_owner first n t,
      headers.sets_owner rr n t,
      headers.sets_ttl first n t,
      headers.sets_ttl rr n t,
      headers.keeps_class first n t,
      headers.keeps_class rr n t,
      headers.keeps_type first n t,
      headers.keeps_type rr n t,
      bytes_eq_refl (canonical_name n),
    )

    levelled :
        (g : RRset dns.RR) (n : Bytes) (t : ℕ) (first : dns.RR) (rrs : List dns.RR)
        → OfGroup g first
        → All (OfGroup g) rrs
        → All
            (λ rr. same_header dns (dns.with_header first n t) rr ≡ true)
            (map (λ rr. dns.with_header rr n t) rrs)
    levelled g n t first [] p a = tt
    levelled g n t first (rr ∷ rrs) p a =
        (same_header-levelled g n t first rr p a.0, levelled g n t first rrs p a.1)

    level-Homogeneous : (g : RRset dns.RR) → Grouped g → Homogeneous dns (level dns g)
    unfolding level
    level-Homogeneous g (first, rest, shape, a) =
        let ttl = min_ttl dns g.ttl g.rrs in
        (
          dns.with_header first g.name ttl,
          map (λ rr. dns.with_header rr g.name ttl) rest,
          ap (map (λ rr. dns.with_header rr g.name ttl)) shape,
          levelled g g.name ttl first g.rrs (subst (All (OfGroup g)) shape a).0 a,
        )

    map-Homogeneous :
        (gs : List (RRset dns.RR)) → All Grouped gs → All (Homogeneous dns) (map (level dns) gs)
    map-Homogeneous [] a = tt
    map-Homogeneous (g ∷ gs) a = (level-Homogeneous g a.0, map-Homogeneous gs a.1)

    -- If setting a header sets the owner and the TTL and keeps class and type, every record set of
    -- an imported zone file has a record, and all its records have the header of the first one, which
    -- is what `encode_rrset` asks of them.
    pub import_zonefile-Homogeneous :
        (src origin : Bytes) (groups : List (RRset dns.RR))
        → import_zonefile dns src origin ≡ ok groups
        → All (Homogeneous dns) groups
    unfolding import_zonefile
    import_zonefile-Homogeneous src origin groups e =
        let (rrs, _, f) = bind_ok (dns.parse_zone src _) _ e in
        subst (All (Homogeneous dns)) (ok_injective f) (
          All-sort_on group_order (Homogeneous dns) (map (level dns) (group_records dns [] rrs))
            (map-Homogeneous (group_records dns [] rrs) (group_records-Grouped [] rrs tt)))
