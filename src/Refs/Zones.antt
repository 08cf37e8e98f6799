-- ===== src/Refs/Zones.antt =====
-- Zone markers, and one migration step.
use zonegit.Base.{
  ◌≡◌, arith, true, ◌++◌, Bytes, bytes_eq_refl, Option-cases, ok, inl, inr, lookup-assign, lookup,
}
use zonegit.Store.MemStore.{Store, get_ref, cas_ref}
use zonegit.Refs.{canon_zone, register_zone, is_zone_registered, zone_sentinel, zone_marker_prefix}

-- After `register_zone` has succeeded, the zone is registered, and to register it again succeeds
-- and changes nothing.
pub register_zone_idem :
    (zone : Bytes) (s : Store)
    → (register_zone zone s).0 ≡ ok tt
    → (is_zone_registered (register_zone zone s).1 zone ≡ true)
      × (register_zone zone (register_zone zone s).1 ≡ (ok tt, (register_zone zone s).1))
unfolding register_zone is_zone_registered get_ref cas_ref
register_zone_idem zone s done =
    let ref = zone_marker_prefix ++ canon_zone zone in
    elim (Option-cases (lookup ref s.refs)) [
      | inl e ↦ ground (
        arith,
        e,
        done,
        lookup-assign ref ref zone_sentinel s.refs,
        bytes_eq_refl ref,
        bytes_eq_refl zone_sentinel,
      )
      | inr (_, e) ↦ ground (arith, e, done)
    ]
