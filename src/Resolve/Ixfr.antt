-- ===== src/Resolve/Ixfr.antt =====
-- pkg/resolve/ixfr.go: an incremental zone transfer, or a full one in its place.
pub mod Enough
pub mod History
use zonegit.Base.{
  ℕ, zero, suc, Bool, true, false, not, ◌&&◌, List, [], ◌∷◌, ◌++◌, length, Bytes, bytes_eq, ltb,
  ◌==◌, if◌then◌else◌, Option, none, some, Result, ok, err, Error, ◌>>=◌, codes,
}
use zonegit.Store.Hash.{Hash, is_zero}
use zonegit.Store.MemStore.{Store}
use zonegit.History.Diff.{Change, diff}
use zonegit.Repo.{load_commit, enqueue}
use zonegit.Repo.Staging.{Repo}
use zonegit.Repo.Integrate.{tree_of}
use zonegit.Repo.Reads.{lookup_rrset}
use zonegit.Resolve.{Config, Question, Request, success, Served, transfer, resolve_head}
use zonegit.Resolve.Axfr.{transfer_failed, load_rrs, serve_axfr}
use zonegit.Zone.{Dns, RRset}

-- The bound of the search for a serial.
abbrev pub max_commits : ℕ
max_commits = 10000

module _ (sha256 : Bytes → Hash) (dns : Dns) where
  open dns use {RR, soa_serial, type_to_string}

  -- The only record of a set, if it is a SOA, and its serial.
  unfoldable pub single_soa : List RR → Option (RR × ℕ)
  single_soa [] = none
  single_soa (rr ∷ []) = elim (soa_serial rr) [ none ↦ none | some serial ↦ some (rr, serial) ]
  single_soa (rr ∷ other ∷ rrs) = none

  -- `clientIXFRSerial`: the first SOA of the authority section.
  unfoldable pub client_ixfr_serial : List RR → Option ℕ
  client_ixfr_serial [] = none
  client_ixfr_serial (rr ∷ rrs) = elim (soa_serial rr) [
    | none ↦ client_ixfr_serial rrs
    | some serial ↦ some serial
  ]

  unfoldable pub has_serial : ℕ → Result (RRset RR) → Bool
  unfolding single_soa
  has_serial serial (err _) = false
  has_serial serial (ok set) = elim (single_soa set.rrs) [
    | none ↦ false
    | some (_, n) ↦ n == serial
  ]

  -- The apex SOA of a commit.
  unfoldable pub soa_at : Repo → Hash → Result (RRset RR)
  unfolding lookup_rrset
  soa_at rp commit = lookup_rrset sha256 dns rp commit (codes "@") (codes "SOA")

  -- The loop of `findCommitBySOASerial`. The fuel bounds the rounds.
  unfoldable pub find_loop : ℕ → Repo → ℕ → List Hash → List Hash → Result (Hash × RRset RR)
  unfolding has_serial soa_at load_commit enqueue
  find_loop fuel rp serial [] visited = err Error.failed
  find_loop zero rp serial (h ∷ queue) visited = err Error.out_of_fuel
  find_loop (suc fuel) rp serial (h ∷ queue) visited =
      let skip = find_loop fuel rp serial queue visited in
      let next = load_commit rp.storage h >>= λ c.
      find_loop fuel rp serial (enqueue c.parents queue visited).0
        (enqueue c.parents queue visited).1 in
      if not (ltb (length visited) max_commits)
      then err Error.failed
      else if is_zero h
      then skip
      else if has_serial serial (soa_at rp h)
      then (soa_at rp h >>= λ set. ok (h, set))
      else next

  unfoldable pub find_commit_by_soa_serial : ℕ → Repo → Hash → ℕ → Result (Hash × RRset RR)
  unfolding find_loop
  find_commit_by_soa_serial fuel rp head serial =
      if is_zero head then err Error.failed else find_loop fuel rp serial (head ∷ []) (head ∷ [])

  -- The records of a blob, none for the zero hash.
  unfoldable pub side_rrs : Store → Hash → Result (List RR)
  unfolding load_rrs
  side_rrs s blob = if is_zero blob then ok [] else load_rrs sha256 dns s blob

  -- One round of the loop over the changes: what cannot be loaded ends the round.
  unfoldable pub add_change : Store → Change → List RR × List RR → List RR × List RR
  unfolding side_rrs
  add_change s ch (removed, added) =
      if (length ch.path == 0) && bytes_eq ch.rrtype (codes "SOA")
      then (removed, added)
      else elim (side_rrs s ch.old_blob) [
        | err _ ↦ (removed, added)
        | ok gone ↦ elim (side_rrs s ch.new_blob) [
          | err _ ↦ (removed ++ gone, added)
          | ok fresh ↦ (removed ++ gone, added ++ fresh)
        ]
      ]

  unfoldable pub delta : Store → List Change → List RR × List RR → List RR × List RR
  unfolding add_change
  delta s [] sides = sides
  delta s (ch ∷ chs) sides = delta s chs (add_change s ch sides)

  -- The envelope of a single delta.
  unfoldable pub ixfr_envelope : RR → RR → List RR × List RR → List RR
  ixfr_envelope latest old (removed, added) =
      latest ∷ old ∷ (removed ++ (latest ∷ (added ++ (latest ∷ []))))

  -- From the commit with the client's serial, the records of the delta.
  unfoldable pub delta_records : ℕ → ℕ → Repo → Hash → RR → ℕ → Result (List RR)
  unfolding find_commit_by_soa_serial diff tree_of delta ixfr_envelope single_soa
  delta_records commits depth rp head latest serial =
      find_commit_by_soa_serial commits rp head serial >>= λ found. elim (single_soa found.1.rrs) [
        | none ↦ err Error.failed
        | some (old, _) ↦
            (diff sha256 rp.storage depth (tree_of rp.storage found.0) (tree_of rp.storage head)
              >>= λ changes. ok (ixfr_envelope latest old (delta rp.storage changes ([], []))))
      ]

  -- The part of `serveIXFR` behind the SOA of the head.
  unfoldable pub answer_ixfr :
      ℕ → ℕ → ℕ → Config → Question → Request RR → Repo → Hash → RR → ℕ → Served RR
  unfolding client_ixfr_serial delta_records serve_axfr
  answer_ixfr commits depth now cfg q req rp head latest serial =
      let full = serve_axfr sha256 dns depth now cfg q rp in
      elim (client_ixfr_serial req.authority) [
        | none ↦ full
        | some client ↦
            if client == serial
            then (transfer (latest ∷ []), success)
            else elim (delta_records commits depth rp head latest client) [
              | err _ ↦ full
              | ok rrs ↦ (transfer rrs, success)
            ]
      ]

  unfoldable pub serve_ixfr : ℕ → ℕ → ℕ → Config → Question → Request RR → Repo → Served RR
  unfolding resolve_head soa_at single_soa answer_ixfr
  serve_ixfr commits depth now cfg q req rp =
      elim (resolve_head type_to_string now cfg rp q cfg.zone) [
        | err _ ↦ transfer_failed
        | ok head ↦ elim (soa_at rp head) [
          | err _ ↦ transfer_failed
          | ok set ↦ elim (single_soa set.rrs) [
            | none ↦ transfer_failed
            | some (latest, serial) ↦ answer_ixfr commits depth now cfg q req rp head latest serial
          ]
        ]
      ]
