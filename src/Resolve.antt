-- ===== src/Resolve.antt =====
-- pkg/resolve/resolve.go, axfr.go and ixfr.go: how a query is answered from one snapshot of the
-- repository. The commits of a walk and the height of a tree are bounded by fuel, `commits` and
-- `depth`.
pub mod Axfr
pub mod Ixfr
pub mod Remote
pub mod Handle
pub mod Answers
pub mod Served
pub mod Snapshot
mod Tests
use zonegit.Base.{
  ℕ, ◌≡◌, Bool, true, false, not, ◌&&◌, List, [], ◌∷◌, ◌++◌, length, Bytes, bytes_eq, ◌==◌,
  if◌then◌else◌, Option, none, some, Result, ok, err, Error, ◌>>=◌, codes, to_lower, has_suffix,
  trim_suffix, cut_last,
}
use zonegit.Store.Hash.{Hash, is_zero}
use zonegit.Refs.{get_branch}
use zonegit.Repo.Staging.{Repo}
use zonegit.Repo.Reads.{lookup_rrset, name_exists}
use zonegit.Zone.{Dns, RRset}

-- The record types of miekg/dns that the code names, and their numbers.
abbrev pub type_cname : ℕ
type_cname = 5

abbrev pub type_ixfr : ℕ
type_ixfr = 251

abbrev pub type_axfr : ℕ
type_axfr = 252

-- NOERROR, FORMERR, SERVFAIL, NXDOMAIN and REFUSED.
pub data Rcode : Type 0 where
  success format_error server_failure name_error refused : Rcode

pub record QueryContext : Type 0 where
  pub client_ip : Bytes
  pub qname : Bytes
  pub qtype : Bytes
  pub now : ℕ

-- `Router.Route`
abbrev pub Router : Type 0
Router = QueryContext → Bytes

-- No router stands for a nil one. What the metrics hook observes is returned by the handler.
pub record Config : Type 0 where
  pub zone : Bytes
  pub default_branch : Bytes
  pub pinned_at : Hash
  pub router : Option Router

pub record Question : Type 0 where
  pub name : Bytes
  pub qtype : ℕ

-- The OPT pseudo-record: the DO bit, and the addresses of the client subnet options that have one.
pub record Edns : Type 0 where
  pub do_bit : Bool
  pub subnets : List Bytes

-- What the query path uses of miekg/dns beside `Dns`: `dns.Fqdn`, and the type switches on
-- `*dns.CNAME` and `*dns.RRSIG` with the field that is read.
pub record DnsMessages (RR : Type 0) : Type 0 where
  pub fqdn : Bytes → Bytes
  pub cname_target : RR → Option Bytes
  pub type_covered : RR → Option ℕ

pub record Request (RR : Type 0) : Type 0 where
  pub question : List Question
  pub authority : List RR
  pub edns : Option Edns

-- A reply to the request, with its `Authoritative` bit.
pub record Response (RR : Type 0) : Type 0 where
  pub authoritative : Bool
  pub rcode : Rcode
  pub answer : List RR
  pub ns : List RR

-- What is written to the wire: one message, or the records of a transfer.
pub data Written (RR : Type 0) : Type 0 where
  message : Response RR → Written RR
  transfer : List RR → Written RR

-- What a transfer handler writes, and the code that it returns.
abbrev pub Served : Type 0 → Type 0
Served RR = Written RR × Rcode

-- `New`: the defaults of a configuration.
unfoldable pub with_defaults : (Bytes → Bytes) → Config → Config
unfolding to_lower
with_defaults fqdn cfg = record cfg {
  zone = to_lower (fqdn cfg.zone);
  default_branch = if length cfg.default_branch == 0 then codes "main" else cfg.default_branch;
}

-- The empty name of a branch stands for no choice.
unfoldable pub chosen_branch : Bytes → Bytes → Bytes
chosen_branch default chosen = if length chosen == 0 then default else chosen

-- The branch that a query is answered from, unless a commit is pinned.
unfoldable pub route_branch : Config → QueryContext → Bytes
unfolding chosen_branch
route_branch cfg q = elim cfg.router [
  | none ↦ cfg.default_branch
  | some route ↦ chosen_branch cfg.default_branch (route q)
]

-- `resolveHead`; `extractClientIP` is the empty string. `now` is the clock.
unfoldable pub resolve_head : (ℕ → Bytes) → ℕ → Config → Repo → Question → Bytes → Result Hash
unfolding route_branch get_branch
resolve_head type_to_string now cfg rp q qname =
    let context : QueryContext = record {
      client_ip = [];
      qname = qname;
      qtype = type_to_string q.qtype;
      now = now;
    } in
    if not (is_zero cfg.pinned_at)
    then ok cfg.pinned_at
    else get_branch rp.storage cfg.zone (route_branch cfg context)

-- The name below the zone's apex, and "@" for the apex.
unfoldable pub relative_name : Bytes → Bytes → Bytes
unfolding trim_suffix
relative_name zone name = if bytes_eq name zone then codes "@" else trim_suffix name (46 ∷ zone)
