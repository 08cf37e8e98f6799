-- ===== src/Refs/Migrate/Stops.antt =====
-- A migration that stopped behind its first step is not taken up again.
use zonegit.Base.{
  ◌≡◌, ◌<◌, refl, ap, arith, true, false, List, [], ◌∷◌, ◌++◌, length, Bytes, bytes_eq,
  bytes_eq_iff, some, ok, Option-cases, Bool-cases, inl, inr, lookup, map, length-sort_on, sort_on,
}
use zonegit.Store.Hash.{Hash}
use zonegit.Store.MemStore.{Store, RefEntry, get_ref, list_refs, refs_with_prefix, has_prefix}
use zonegit.Refs.{
  canon_zone, register_zone, is_zone_registered, zone_marker_prefix, legacy_zone_name_ref,
  list_zones, names_below, trim_prefix,
}
use zonegit.Refs.Names.{has_prefix-append}
use zonegit.Refs.Zones.{register_zone_idem}
use zonegit.Refs.Migrate.{is_legacy_v03, migrate_legacy_v03}
use zonegit.Refs.Migrate.Done.{not_legacy}

refs_with_prefix-found :
    (prefix name : Bytes) (m : List (Bytes × Hash)) {h : Hash}
    → lookup name m ≡ some h
    → has_prefix name prefix ≡ true
    → 0 < length (refs_with_prefix prefix m)
unfolding refs_with_prefix lookup
refs_with_prefix-found prefix name [] e p = absurd cc
refs_with_prefix-found prefix name ((j, v) ∷ m) {h} e p = elim (Bool-cases (has_prefix j prefix)) [
  | inl f ↦ rw f (omega arith)
  | inr f ↦ elim (Bool-cases (bytes_eq j name)) [
    | inl g ↦
        absurd (ground (arith, f, p, ap (λ z. has_prefix z prefix) ((bytes_eq_iff j name).0 g)))
    | inr g ↦ rw f (refs_with_prefix-found prefix name m {h = h} (ground (arith, e, g)) p)
  ]
]

length-map_entries : (f : RefEntry → Bytes) (es : List RefEntry) → length (map f es) ≡ length es
length-map_entries f [] = refl
length-map_entries f (e ∷ es) = rw (length-map_entries f es) refl

list_zones-registered :
    (s : Store) (zone : Bytes) → is_zone_registered s zone ≡ true → 0 < length (list_zones s)
unfolding is_zone_registered get_ref list_zones names_below list_refs
list_zones-registered s zone e =
    let marker = zone_marker_prefix ++ canon_zone zone in
    let found = refs_with_prefix zone_marker_prefix s.refs in
    let names =
      map (λ (r : RefEntry). trim_prefix r.name zone_marker_prefix) (sort_on (λ r. r.name) found) in
    elim (Option-cases (lookup marker s.refs)) [
      | inl f ↦ absurd (ground (arith, e, f))
      | inr (h, f) ↦ omega (
        arith,
        length-sort_on (λ (n : Bytes). n) names,
        length-map_entries (λ r. trim_prefix r.name zone_marker_prefix)
            (sort_on (λ r. r.name) found),
        length-sort_on (λ (r : RefEntry). r.name) found,
        refs_with_prefix-found zone_marker_prefix marker s.refs f
            (has_prefix-append zone_marker_prefix (canon_zone zone)),
      )
    ]

registered-not_legacy :
    (s : Store) (zone : Bytes) → is_zone_registered s zone ≡ true → (is_legacy_v03 s).0 ≡ false
unfolding is_legacy_v03
registered-not_legacy s zone e = elim (Option-cases (get_ref s legacy_zone_name_ref)) [
  | inl f ↦ rw (is_legacy_v03, f) refl
  | inr (h, f) ↦ ground (arith, f, list_zones-registered s zone e)
]

-- A migration that stopped behind its first step, the registration of the zone, is not taken up
-- again: the repository counts as migrated, and another run does nothing.
pub migrate_legacy_v03-register_zone :
    (sha256 : Bytes → Hash) (name : Bytes) (s : Store)
    → (register_zone name s).0 ≡ ok tt
    → migrate_legacy_v03 sha256 (register_zone name s).1
      ≡ (ok (false, []), (register_zone name s).1)
migrate_legacy_v03-register_zone sha256 name s e =
    not_legacy sha256 (register_zone name s).1
      (registered-not_legacy (register_zone name s).1 name (register_zone_idem name s e).0)
