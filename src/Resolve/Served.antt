-- ===== src/Resolve/Served.antt =====
-- What `handle` writes for a query in the zone that asks for no transfer.
use zonegit.Base.{
  ℕ, ◌≡◌, refl, sym, ap, ◌∙◌, true, false, List, [], ◌∷◌, ◌++◌, Bytes, ◌==◌, Result, ok, err, ◌>>=◌,
  to_lower, has_suffix, ok_injective, bind_ok,
}
use zonegit.Store.Hash.{Hash}
use zonegit.Repo.Staging.{Repo, split_fqdn, norm_fqdn}
use zonegit.Resolve.{
  Config, Question, Request, Response, success, name_error, DnsMessages, Written, message,
  resolve_head, relative_name, type_axfr, type_ixfr,
}
use zonegit.Resolve.Handle.{Observation, dnssec_ok, answer_at, single_message, serve, handle}
use zonegit.Resolve.Answers.{ServesTree, Holds, NoCname, answer_at-Nothing, answer_at-Holds}
use zonegit.Object.TreeOps.Exists.{Nothing}
use zonegit.Zone.{Dns, RRset}

module _ (sha256 : Bytes → Hash) (dns : Dns) (lib : DnsMessages (dns.RR)) (commits depth now : ℕ)
    (cfg : Config) (rp : Repo) (req : Request (dns.RR)) where
  open dns use {RR, type_to_string}

  -- The first question names a name in the zone and no transfer, and `head` is to answer it.
  pub record Asked (q : Question) (head : Hash) : Type 0 where
    pub rest : List Question
    pub asks : req.question ≡ q ∷ rest
    pub in_zone : has_suffix (to_lower (lib.fqdn q.name)) cfg.zone ≡ true
    pub no_axfr : q.qtype == type_axfr ≡ false
    pub no_ixfr : q.qtype == type_ixfr ≡ false
    pub at_head : resolve_head type_to_string now cfg rp q (to_lower (lib.fqdn q.name)) ≡ ok head

  -- The name below the apex that the question asks for.
  abbrev pub asked_name : Question → Bytes
  asked_name q = relative_name cfg.zone (to_lower (lib.fqdn q.name))

  abbrev answered : Question → Hash → Result (Response RR)
  answered q head =
      answer_at sha256 dns lib cfg rp head (asked_name q) q (dnssec_ok sha256 dns lib req)

  abbrev written : Question → Response RR → Written RR × List Observation
  written q resp = (message resp, (type_to_string q.qtype, resp.rcode) ∷ [])

  handle-answered :
      (q : Question) (head : Hash)
      → Asked q head
      → handle sha256 dns lib commits depth now cfg (ok rp) req
        ≡ (answered q head >>= λ resp. ok (written q resp))
  unfolding handle serve single_message
  handle-answered q head a =
      rw (a.asks, a.in_zone, a.no_axfr, a.no_ixfr, a.at_head) (regroup (answered q head))
    where
      regroup :
          (r : Result (Response RR))
          → (single_message sha256 dns lib commits depth now r >>= λ out.
              ok (out.0, (type_to_string q.qtype, out.1) ∷ []))
            ≡ (r >>= λ resp. ok (written q resp))
      regroup (ok resp) = refl
      regroup (err e) = refl

  written-injective :
      (q : Question) (resp resp' : Response RR) → written q resp ≡ written q resp' → resp ≡ resp'
  written-injective q resp resp' e = message_injective (ap (λ p. p.0) e)
    where
      message_injective : message resp ≡ message resp' → resp ≡ resp'
      message_injective p = cc

  answered_by :
      (q : Question) (head : Hash) (resp : Response RR)
      → Asked q head
      → handle sha256 dns lib commits depth now cfg (ok rp) req ≡ ok (written q resp)
      → answered q head ≡ ok resp
  answered_by q head resp a e =
      let (r, f, same) =
        bind_ok (answered q head) (λ r. ok (written q r)) (sym (handle-answered q head a) ∙ e) in
      f ∙ ap ok (written-injective q r resp (ok_injective same))

-- A reply with NXDOMAIN to a query in the zone that asks for no transfer means that the commit's zone
-- has no record set at the name or below it, if the commit holds a stored zone tree.
pub nxdomain_sound :
    (sha256 : Bytes → Hash) (dns : Dns) (lib : DnsMessages (dns.RR)) (commits depth now : ℕ)
    (cfg : Config) (rp : Repo) (req : Request (dns.RR)) (q : Question) (head root : Hash) (n : ℕ)
    (resp : Response (dns.RR))
    → Asked sha256 dns lib commits depth now cfg rp req q head
    → ServesTree sha256 dns lib rp head root n
    → handle sha256 dns lib commits depth now cfg (ok rp) req
      ≡ ok (message resp, (dns.type_to_string q.qtype, resp.rcode) ∷ [])
    → resp.rcode ≡ name_error
    → Nothing sha256 rp.storage root
        (split_fqdn (norm_fqdn (relative_name cfg.zone (to_lower (lib.fqdn q.name)))))
nxdomain_sound sha256 dns lib commits depth now cfg rp req q head root n resp a z e code =
    answer_at-Nothing sha256 dns lib rp head root n cfg _ q _ resp z
      (answered_by sha256 dns lib commits depth now cfg rp req q head resp a e) code

-- If the commit holds a stored zone tree with records of the type asked for at the name, no transfer
-- is asked for, and no CNAME stands there or is asked for, the reply to a query in the zone is NOERROR
-- and its answer begins with those records.
pub records_found :
    (sha256 : Bytes → Hash) (dns : Dns) (lib : DnsMessages (dns.RR)) (commits depth now : ℕ)
    (cfg : Config) (rp : Repo) (req : Request (dns.RR)) (q : Question) (head root : Hash) (n : ℕ)
    (rs : RRset (dns.RR))
    → Asked sha256 dns lib commits depth now cfg rp req q head
    → ServesTree sha256 dns lib rp head root n
    → NoCname sha256 dns lib rp head root (relative_name cfg.zone (to_lower (lib.fqdn q.name))) q
    → Holds sha256 dns lib rp head root
        (relative_name cfg.zone (to_lower (lib.fqdn q.name)))
        (dns.type_to_string q.qtype)
        rs
    → (resp : Response (dns.RR)) × (handle sha256 dns lib commits depth now cfg (ok rp) req
        ≡ ok (message resp, (dns.type_to_string q.qtype, success) ∷ []))
      × (resp.rcode ≡ success)
      × ((more : List (dns.RR)) × (resp.answer ≡ rs.rrs ++ more))
records_found sha256 dns lib commits depth now cfg rp req q head root n rs a z no_cname holds =
    let (resp, e, code, more) =
      answer_at-Holds sha256 dns lib rp head root n cfg _ q (dnssec_ok sha256 dns lib req) rs z
        no_cname holds in
    (
      resp,
      handle-answered sha256 dns lib commits depth now cfg rp req q head a ∙ rw (e, code) refl,
      code,
      more,
    )
