-- ===== src/Route/Tests.antt =====
-- The canary router at concrete inputs.
use zonegit.Base.{
  ℕ, ◌≡◌, refl, arith, [], ◌∷◌, ◌++◌, Bytes, replicate, codes, pos, ok, some, none, Option, ◌↔◌,
}
use zonegit.Repo.Sample.{repo_program, committed}
use zonegit.Object.Sample.{toy_hash}
use zonegit.Store.Hash.{zero_hash}
use zonegit.Resolve.{Config, Request, DnsMessages, QueryContext}
use zonegit.Resolve.Handle.{handle_with_remote}
use zonegit.Resolve.Remote.{host_of, remote_ip}
use zonegit.Route.{
  BucketRouter, in_percent, new_bucket_router, fnv1a, to4, subnet_bytes, bucket, route_pct, route,
}
use zonegit.Route.Rollout.{route_rollout}
use zonegit.Route.Subnets.{with_canary, ipv4, SameSubnet, subnet_served_same}
use zonegit.Zone.Sample.{toy_dns}

unfoldable routing : Unit {0}
unfolding repo_program in_percent new_bucket_router fnv1a to4 subnet_bytes bucket route_pct route
    host_of remote_ip
routing = tt

-- An address is its last byte, in 192.0.2.0/24.
abbrev parse_byte : Bytes → Option Bytes
parse_byte [] = none
parse_byte (b ∷ bs) = some (replicate 10 0 ++ (255 ∷ 255 ∷ 192 ∷ 0 ∷ 2 ∷ b ∷ []))

abbrev twenty : BucketRouter
twenty = record {
  default_branch = codes "main";
  canary_branch = codes "canary";
  pct = pos 20;
  salt = codes "zonegit-default";
}

abbrev client : QueryContext
client = record { client_ip = codes "7"; qname = codes "foo.com."; qtype = codes "A"; now = 0 }

route_rollout_example :
    (route parse_byte (record twenty { pct = pos 20 }) client ≡ codes "canary"
      → route parse_byte (record twenty { pct = pos 50 }) client ≡ codes "canary")
    × (route parse_byte (record twenty { pct = pos 0 }) client ≡ codes "main")
    × (route parse_byte (record twenty { pct = pos 100 }) client ≡ codes "canary")
route_rollout_example = route_rollout parse_byte twenty client 20 50 (omega arith)

abbrev lib : DnsMessages ℕ
lib = record { fqdn = λ b. b; cname_target = λ _. none; type_covered = λ _. none }

abbrev config : Config
config = record {
  zone = codes "foo.com.";
  default_branch = codes "main";
  pinned_at = zero_hash;
  router = none;
}

abbrev request : Request ℕ
request = record {
  question = record { name = codes "www.foo.com."; qtype = 1 } ∷ [];
  authority = [];
  edns = none;
}

abbrev address : ℕ → Bytes
address b = ipv4 192 0 2 b

subnet_served_same_example :
    ((subnet_bytes parse_byte (codes "7") ≡ subnet_bytes parse_byte (codes "9"))
      ↔ SameSubnet (address 55) (address 57))
    × (SameSubnet (address 55) (address 57)
        → handle_with_remote toy_hash toy_dns lib 10 10 0
            (with_canary parse_byte twenty config)
            (some (codes "7:53"))
            (ok committed)
            request
          ≡ handle_with_remote toy_hash toy_dns lib 10 10 0
              (with_canary parse_byte twenty config)
              (some (codes "9:53"))
              (ok committed)
              request)
unfolding routing
subnet_served_same_example =
    subnet_served_same parse_byte twenty toy_hash toy_dns lib 10 10 0 config (some (codes "7:53"))
      (some (codes "9:53")) (ok committed) request (address 55) (address 57) refl refl refl refl
      refl refl
