-- ===== src/Zone/Soa.antt =====
-- The bump of the SOA serial.
use zonegit.Base.{ℕ, ◌+◌, ◌-◌, ◌%◌, ◌^◌, ◌<◌, ◌≡◌, refl, arith, [], ◌∷◌, some, ok}
use zonegit.Zone.{Dns, RRset, bump_soa_serial}

module _ (dns : Dns) where
  open dns use {RR, soa_serial, with_soa_serial}

  -- On a set of one SOA with a 32-bit serial, if a 32-bit serial written to a SOA reads back as it was
  -- written, the bump gives a set that differs in that record only; its serial is 32 bits, and by the
  -- serial arithmetic of RFC 1982 it is the next one.
  pub bump_soa_serial-next :
      (soa : RRset RR) (rr : RR) (serial : ℕ)
      → ((r : RR) (m n : ℕ)
          → soa_serial r ≡ some m
          → n < 2 ^ 32
          → soa_serial (with_soa_serial r n) ≡ some n)
      → soa.rrs ≡ rr ∷ []
      → soa_serial rr ≡ some serial
      → serial < 2 ^ 32
      → (rr' : RR) × (serial' : ℕ) × (bump_soa_serial dns soa ≡ ok (record soa { rrs = rr' ∷ [] }))
        × (soa_serial rr' ≡ some serial')
        × (serial' < 2 ^ 32)
        × ((serial' + 2 ^ 32 - serial) % 2 ^ 32 ≡ 1)
  unfolding bump_soa_serial
  bump_soa_serial-next soa rr serial law one at_rr small = (
    with_soa_serial rr ((serial + 1) % 2 ^ 32),
    (serial + 1) % 2 ^ 32,
    rw (one, at_rr) refl,
    law rr serial ((serial + 1) % 2 ^ 32) at_rr (omega arith),
    omega arith,
    omega arith,
  )
