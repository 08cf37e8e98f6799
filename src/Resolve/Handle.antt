-- ===== src/Resolve/Handle.antt =====
-- pkg/resolve/resolve.go: the handler of a query.
use zonegit.Base.{
  ℕ, Bool, true, false, not, List, [], ◌∷◌, ◌++◌, length, Bytes, ltb, ◌==◌, if◌then◌else◌, Option,
  none, some, Result, ok, err, Error, ◌>>=◌, codes, to_lower, has_suffix,
}
use zonegit.Store.Hash.{Hash}
use zonegit.Repo.Staging.{Repo}
use zonegit.Repo.Reads.{lookup_rrset, name_exists}
use zonegit.Resolve.{
  Config, Question, Request, Response, Rcode, success, format_error, server_failure, name_error,
  refused, Written, message, Served, DnsMessages, resolve_head, relative_name, type_cname,
  type_axfr, type_ixfr,
}
use zonegit.Resolve.Axfr.{serve_axfr}
use zonegit.Resolve.Remote.{with_client, remote_ip}
use zonegit.Resolve.Ixfr.{serve_ixfr}
use zonegit.Zone.{Dns, RRset}

-- What the metrics hook is told: the query's type and the code.
abbrev pub Observation : Type 0
Observation = Bytes × Rcode

module _ (sha256 : Bytes → Hash) (dns : Dns) (lib : DnsMessages (dns.RR)) where
  open dns use {RR, type_to_string}
  open lib use {fqdn, cname_target, type_covered}

  -- `SetReply`, authoritative.
  abbrev pub reply : Rcode → List RR → List RR → Response RR
  reply rcode answer ns = record { authoritative = true; rcode = rcode; answer = answer; ns = ns }

  unfoldable pub dnssec_ok : Request RR → Bool
  dnssec_ok req = elim req.edns [ none ↦ false | some opt ↦ opt.do_bit ]

  -- `attachSOA`: the authority section of a reply without an answer.
  unfoldable pub attach_soa : Repo → Hash → Response RR → Response RR
  unfolding lookup_rrset
  attach_soa rp head resp =
      if ltb 0 (length resp.answer)
      then resp
      else elim (lookup_rrset sha256 dns rp head (codes "@") (codes "SOA")) [
        | err _ ↦ resp
        | ok soa ↦ record resp { ns = resp.ns ++ soa.rrs }
      ]

  -- The loop of `attachRRSIG`.
  unfoldable pub covering : ℕ → List RR → List RR
  covering qtype [] = []
  covering qtype (rr ∷ rrs) =
      let rest = covering qtype rrs in
      elim (type_covered rr) [ none ↦ rest | some t ↦ if t == qtype then (rr ∷ rest) else rest ]

  unfoldable pub attach_rrsig : Repo → Hash → Bytes → ℕ → Response RR → Response RR
  unfolding lookup_rrset covering
  attach_rrsig rp head rel qtype resp = elim (lookup_rrset sha256 dns rp head rel (codes "RRSIG")) [
    | err _ ↦ resp
    | ok sigs ↦ record resp { answer = resp.answer ++ covering qtype sigs.rrs }
  ]

  -- `nameExists`: an error counts as no.
  unfoldable pub exists_at : Repo → Hash → Bytes → Bool
  unfolding name_exists
  exists_at rp head rel = elim (name_exists sha256 rp head rel) [
    | err _ ↦ false
    | ok yes_no ↦ yes_no
  ]

  -- What the target of a CNAME adds to the answer, if it lies in the zone.
  unfoldable pub chase : Config → Repo → Hash → Bytes → Option Bytes → List RR
  unfolding to_lower relative_name lookup_rrset
  chase cfg rp head qtype none = []
  chase cfg rp head qtype (some target) =
      let name = to_lower (fqdn target) in
      if not (has_suffix name cfg.zone)
      then []
      else elim (lookup_rrset sha256 dns rp head (relative_name cfg.zone name) qtype) [
        | err _ ↦ []
        | ok rs ↦ rs.rrs
      ]

  -- The answer with a CNAME set; a set with no records makes the index panic.
  unfoldable pub answer_cname : Config → Repo → Hash → Bytes → List RR → Result (Response RR)
  unfolding chase attach_soa
  answer_cname cfg rp head qtype [] = err Error.panicked
  answer_cname cfg rp head qtype (rr ∷ rrs) = ok (
      attach_soa rp head
        (reply success (rr ∷ (rrs ++ chase cfg rp head qtype (cname_target rr))) []))

  -- The answer from the records of the type asked for.
  unfoldable pub answer_type :
      Repo → Hash → Bytes → Question → Bool → Result (RRset RR) → Response RR
  unfolding attach_soa attach_rrsig exists_at
  answer_type rp head rel q signed (ok rs) =
      let plain = reply success rs.rrs [] in
      attach_soa rp head (if signed then attach_rrsig rp head rel q.qtype plain else plain)
  answer_type rp head rel q signed (err Error.not_found) =
      attach_soa rp head (reply (if exists_at rp head rel then success else name_error) [] [])
  answer_type rp head rel q signed (err e) = reply server_failure [] []

  -- The part of `Handle` behind the head commit.
  unfoldable pub answer_at : Config → Repo → Hash → Bytes → Question → Bool → Result (Response RR)
  unfolding answer_cname answer_type lookup_rrset
  answer_at cfg rp head rel q signed =
      let qtype = type_to_string q.qtype in
      let typed =
        ok (answer_type rp head rel q signed (lookup_rrset sha256 dns rp head rel qtype)) in
      if q.qtype == type_cname
      then typed
      else elim (lookup_rrset sha256 dns rp head rel (codes "CNAME")) [
        | err _ ↦ typed
        | ok cname ↦ answer_cname cfg rp head qtype cname.rrs
      ]

  module _ (commits depth now : ℕ) where
    unfoldable pub single_message : Result (Response RR) → Result (Served RR)
    single_message answered = answered >>= λ resp. ok (message resp, resp.rcode)

    -- A query in the zone, on a snapshot.
    unfoldable pub serve : Config → Request RR → Question → Bytes → Repo → Result (Served RR)
    unfolding single_message answer_at resolve_head serve_axfr serve_ixfr relative_name dnssec_ok
    serve cfg req q qname rp =
        if q.qtype == type_axfr
        then ok (serve_axfr sha256 dns depth now cfg q rp)
        else if q.qtype == type_ixfr
        then ok (serve_ixfr sha256 dns commits depth now cfg q req rp)
        else elim (resolve_head type_to_string now cfg rp q qname) [
          | err _ ↦ single_message (ok (reply server_failure [] []))
          | ok head ↦
              single_message
                (answer_at cfg rp head (relative_name cfg.zone qname) q (dnssec_ok req))
        ]

    -- `Handle`: what is written, and what the metrics hook observes.
    unfoldable pub handle :
        Config → Result Repo → Request RR → Result (Written RR × List Observation)
    unfolding single_message serve
    handle cfg snapshot req = elim req.question [
      | [] ↦ ok (message (reply format_error [] []), [])
      | q ∷ _ ↦
          let qname = to_lower (fqdn q.name) in
          let served =
            if not (has_suffix qname cfg.zone)
            then single_message (ok (reply refused [] []))
            else elim snapshot [
              | err _ ↦ single_message (ok (reply server_failure [] []))
              | ok rp ↦ serve cfg req q qname rp
            ] in
          (served >>= λ out. ok (out.0, (type_to_string q.qtype, out.1) ∷ []))
    ]

    unfoldable pub handle_with_remote :
        Config → Option Bytes → Result Repo → Request RR → Result (Written RR × List Observation)
    unfolding with_client remote_ip handle
    handle_with_remote cfg remote snapshot req =
        handle (with_client cfg (remote_ip remote req.edns)) snapshot req
