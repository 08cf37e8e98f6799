-- ===== src/Resolve/Ixfr/History.antt =====
-- The commit that an incremental transfer starts from.
use mathlib.Core.Path.{subst}
use zonegit.Base.{
  ◌<◌, err, Error, Ends, ℕ, zero, suc, ◌≡◌, refl, sym, ap, ◌∙◌, arith, Bool, true, false, not, List,
  [], ◌∷◌, length, Bytes, ltb, ◌==◌, none, some, Option-cases, if◌then◌else◌, Result, ok, ◌>>=◌,
  Bool-cases, inl, inr, All,
}
use zonegit.Store.Hash.{Hash, is_zero}
use zonegit.Repo.{load_commit, enqueue}
use zonegit.Repo.Staging.{Repo}
use zonegit.Repo.Ancestry.{
  Ancestor, itself, OnOk, OnOk-then, OnOk-of_eq, OnOk-at, All-enqueue, parents-Ancestor,
}
use zonegit.Resolve.Ixfr.{
  max_commits, single_soa, has_serial, soa_at, find_loop, find_commit_by_soa_serial,
}
use zonegit.Resolve.Ixfr.Enough.{find_commit_by_soa_serial-Ends}
use zonegit.Zone.{Dns, RRset}

-- The second of two results, which a test chooses.
choose :
    {A : Type 0} (P : A → Type 0) (b : Bool) (x y : Result A)
    → b ≡ false
    → OnOk P y
    → OnOk P (if b then x else y)
choose P b x y e p = rw e p

module _ (sha256 : Bytes → Hash) (dns : Dns) (rp : Repo) (head : Hash) (serial : ℕ) where
  open dns use {RR, soa_serial}

  -- The commit is reached from the head, and its apex set is one SOA, which has the serial.
  abbrev pub HasSerial : Hash × RRset RR → Type 0
  HasSerial found =
      Ancestor rp.storage head found.0
      × (soa_at sha256 dns rp found.0 ≡ ok found.1)
      × ((rr : RR) × (found.1.rrs ≡ rr ∷ []) × (soa_serial rr ≡ some serial))

  one_soa :
      (rrs : List RR)
      → elim (single_soa sha256 dns rrs) [ none ↦ false | some (_, n) ↦ n == serial ] ≡ true
      → (rr : RR) × (rrs ≡ rr ∷ []) × (soa_serial rr ≡ some serial)
  unfolding single_soa
  one_soa [] e = absurd (ground (arith, e))
  one_soa (rr ∷ []) e = elim (Option-cases (soa_serial rr)) [
    | inl none_at ↦ absurd (ground (arith, none_at, e))
    | inr (n, at) ↦ (rr, refl, at ∙ ap some (ground (arith, rw at at e)))
  ]
  one_soa (rr ∷ other ∷ rrs) e = absurd (ground (arith, e))

  has_serial-one_soa :
      (set : RRset RR)
      → has_serial sha256 dns serial (ok set) ≡ true
      → (rr : RR) × (set.rrs ≡ rr ∷ []) × (soa_serial rr ≡ some serial)
  unfolding has_serial
  has_serial-one_soa set e = one_soa set.rrs e

  matched :
      (h : Hash)
      → Ancestor rp.storage head h
      → has_serial sha256 dns serial (soa_at sha256 dns rp h) ≡ true
      → OnOk HasSerial (soa_at sha256 dns rp h >>= λ set. ok (h, set))
  matched h a e =
      OnOk-then (λ set. soa_at sha256 dns rp h ≡ ok set) HasSerial (soa_at sha256 dns rp h)
        (λ set. ok (h, set)) (OnOk-of_eq (soa_at sha256 dns rp h))
        (λ set at_h.
          (a, at_h, has_serial-one_soa set (sym (ap (has_serial sha256 dns serial) at_h) ∙ e)))

  find_loop-HasSerial :
      (fuel : ℕ) (queue visited : List Hash)
      → All (Ancestor rp.storage head) queue
      → OnOk HasSerial (find_loop sha256 dns fuel rp serial queue visited)
  unfolding find_loop
  find_loop-HasSerial zero [] visited q = tt
  find_loop-HasSerial (suc fuel) [] visited q = tt
  find_loop-HasSerial zero (h ∷ queue) visited q = tt
  find_loop-HasSerial (suc fuel) (h ∷ queue) visited q =
      elim (Bool-cases (not (ltb (length visited) max_commits))) [
        | inl full ↦ rw full tt
        | inr room ↦ elim (Bool-cases (has_serial sha256 dns serial (soa_at sha256 dns rp h))) [
          | inl e ↦
              rw (room, e)
                (elim (Bool-cases (is_zero h)) [
                  | inl z ↦ rw z (find_loop-HasSerial fuel queue visited q.1)
                  | inr z ↦ choose HasSerial (is_zero h) _ _ z (matched h q.0 e)
                ])
          | inr e ↦
              rw (room, e)
                (elim (Bool-cases (is_zero h)) [
                  | inl z ↦ rw z (find_loop-HasSerial fuel queue visited q.1)
                  | inr z ↦ choose HasSerial (is_zero h) _ _ z (
                      OnOk-then (λ c. load_commit rp.storage h ≡ ok c) HasSerial
                        (load_commit rp.storage h)
                        (λ c.
                          find_loop sha256 dns fuel rp serial (enqueue c.parents queue visited).0
                            (enqueue c.parents queue visited).1)
                        (OnOk-of_eq (load_commit rp.storage h))
                        (λ c at_c.
                          find_loop-HasSerial fuel (enqueue c.parents queue visited).0
                            (enqueue c.parents queue visited).1
                            (All-enqueue (Ancestor rp.storage head) c.parents queue visited
                              (parents-Ancestor rp.storage head h c q.0 at_c) q.1)))
                ])
        ]
      ]

  find-OnOk : (fuel : ℕ) → OnOk HasSerial (find_commit_by_soa_serial sha256 dns fuel rp head serial)
  unfolding find_commit_by_soa_serial
  find-OnOk fuel = elim (Bool-cases (is_zero head)) [
    | inl z ↦ rw z tt
    | inr z ↦ rw z (find_loop-HasSerial fuel (head ∷ []) (head ∷ []) (itself, tt))
  ]

-- The search for the commit that an incremental transfer starts from ends by itself, with more fuel
-- than the bound on the visited commits; and a commit that it finds is reached from the head, over any
-- parents, and its apex SOA set is the one returned, of one record, a SOA with the client's serial.
pub find_commit_by_soa_serial-HasSerial :
    (sha256 : Bytes → Hash) (dns : Dns) (fuel : ℕ) (rp : Repo) (head : Hash) (serial : ℕ)
    → max_commits < fuel
    → (¬ (find_commit_by_soa_serial sha256 dns fuel rp head serial ≡ err Error.out_of_fuel))
      × ((found : Hash × RRset (dns.RR))
          → find_commit_by_soa_serial sha256 dns fuel rp head serial ≡ ok found
          → HasSerial sha256 dns rp head serial found)
find_commit_by_soa_serial-HasSerial sha256 dns fuel rp head serial enough =
    let found_at = find_commit_by_soa_serial sha256 dns fuel rp head serial in
    (
      λ e. subst Ends e (find_commit_by_soa_serial-Ends sha256 dns rp serial fuel head enough),
      λ found e.
          OnOk-at (HasSerial sha256 dns rp head serial) found_at found e
            (find-OnOk sha256 dns rp head serial fuel),
    )
