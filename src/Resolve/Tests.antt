-- ===== src/Resolve/Tests.antt =====
-- The resolver at concrete inputs: a repository whose commit holds one address of www.foo.com.
use zonegit.Base.{
  ℕ, ◌≡◌, refl, sym, ◌∙◌, arith, true, false, List, [], ◌∷◌, ◌++◌, map, All, Bytes, codes, ok, some,
  none, ok_injective, In, inr, Error, if◌then◌else◌, ◌==◌, err,
}
use mathlib.Core.Path.{subst}
use zonegit.Store.Hash.{Hash, zero_hash, is_zero}
use zonegit.Store.MemStore.{Store, Object, get_object}
use zonegit.Object.Sample.{toy_hash, toy_hash_size}
use zonegit.Object.TreeOps.Clean.{clean_test, Clean-of_test}
use zonegit.Object.TreeOps.Stored.{Extends, Extends-put_object}
use zonegit.Object.TreeOps.View.{view, entries_at, IsTreeAt, IsTreeAt-zero_hash, IsTreeAt-Extends}
use zonegit.Object.TreeOps.Exists.{Nothing}
use zonegit.Refs.{branch_ref}
use zonegit.Refs.Swaps.{held}
use zonegit.Repo.Staging.{Repo, set_rrset, sorted_keys}
use zonegit.Repo.Sample.{repo_program, ready, ann, noon}
use zonegit.Repo.Committing.{staged_edit, commit, apply_edits, plain_commit}
use zonegit.Repo.Committing.Edits.{Fits, Edited, apply_edits-Edited}
use zonegit.Repo.Integrate.{tree_of}
use zonegit.Object.TreeOps.{Labels, node_exists, node_exists_from}
use zonegit.Object.TreeOps.Leaves.Listed.{Leaf, keep_leaf}
use zonegit.Object.TreeOps.Leaves.Shown.{walk_all_leaves-view}
use zonegit.Object.TreeOps.Leaves.{visit_entry, visit_entries, walk_leaves_at, walk_all_leaves}
use zonegit.Object.Commit.{Commit}
use zonegit.Repo.{load_commit}
use zonegit.Repo.Reads.{commit_or_head, name_exists, lookup_rrset}
use zonegit.Resolve.{
  Config, Question, Request, Response, success, name_error, message, DnsMessages, with_defaults,
  chosen_branch, route_branch, resolve_head, relative_name,
}
use zonegit.Resolve.Axfr.{load_rrs, add_leaf, transfer_records, serve_axfr}
use zonegit.Resolve.Ixfr.{
  single_soa, client_ixfr_serial, has_serial, soa_at, find_loop, find_commit_by_soa_serial,
  side_rrs, add_change, delta, ixfr_envelope, delta_records, answer_ixfr, serve_ixfr,
}
use zonegit.Resolve.Ixfr.History.{HasSerial, find_commit_by_soa_serial-HasSerial}
use zonegit.Resolve.Remote.{host_of, remote_ip, wrapped_router, with_client}
use zonegit.Resolve.Handle.{
  dnssec_ok, attach_soa, covering, attach_rrsig, exists_at, chase, answer_cname, answer_type,
  answer_at, single_message, serve, handle, handle_with_remote,
}
use zonegit.Resolve.Answers.{ServesTree}
use zonegit.Resolve.Served.{Asked, nxdomain_sound, records_found}
use zonegit.Zone.{Dns, RRset}
use zonegit.Zone.Sample.{toy_dns}

unfoldable last_byte : Bytes → ℕ
last_byte [] = 0
last_byte (b ∷ []) = b
last_byte (b ∷ c ∷ bs) = last_byte (c ∷ bs)

-- Names are one byte on the wire, and a record's data is its number.
abbrev wire_dns : Dns
wire_dns = record toy_dns {
  pack_name = λ _. ok (0 ∷ []);
  unpack_rr = λ bs. ok (last_byte bs);
  type_to_string = λ t. if t == 1 then codes "A" else codes "MX";
}

abbrev site_staged : Repo
site_staged = (set_rrset toy_hash wire_dns (5 ∷ []) ready).1

abbrev site : Repo
site = (commit toy_hash wire_dns ann (codes "m") noon 5 site_staged).1

abbrev site_head : Hash
site_head = held (branch_ref (codes "foo.com.") (codes "main")) site.storage.refs

abbrev site_root : Hash
site_root = tree_of site.storage site_head

abbrev edited_store : Store
edited_store =
    (apply_edits toy_hash (map staged_edit (sorted_keys site_staged.staging)) zero_hash
      site_staged.storage).1

abbrev no_object : Object
no_object = record { kind = []; payload = [] }

abbrev head_object : Object
head_object = elim (get_object site.storage site_head) [ ok o ↦ o | err _ ↦ no_object ]

site_clean : clean_test site.storage.objects ≡ true
unfolding repo_program
site_clean = refl

edited_clean : clean_test edited_store.objects ≡ true
unfolding repo_program
edited_clean = refl

site-Fits : All (Fits 1) (map staged_edit (sorted_keys site_staged.staging))
unfolding repo_program
site-Fits = (
  record {
    shallow = omega arith;
    labels = ((omega arith, omega arith), tt);
    names_type = (omega arith, omega arith);
    size = refl;
  },
  tt,
)

site-Edited :
    Edited toy_hash toy_hash_size 1
      (map staged_edit (sorted_keys site_staged.staging))
      zero_hash
      site_staged.storage
      (apply_edits toy_hash
        (map staged_edit (sorted_keys site_staged.staging))
        zero_hash
        site_staged.storage)
site-Edited =
    apply_edits-Edited toy_hash toy_hash_size 1 (map staged_edit (sorted_keys site_staged.staging))
      zero_hash site_staged.storage (IsTreeAt-zero_hash toy_hash site_staged.storage 2) site-Fits
      (Clean-of_test edited_store.objects edited_clean)

site-Extends : Extends edited_store site.storage
unfolding repo_program
site-Extends =
    Extends-put_object site_head head_object edited_store
      (Clean-of_test site.storage.objects site_clean)

site_result :
    (apply_edits toy_hash
      (map staged_edit (sorted_keys site_staged.staging))
      zero_hash
      site_staged.storage).0
    ≡ ok site_root
unfolding repo_program
site_result = refl

site_tree : IsTreeAt toy_hash site.storage 2 site_root
site_tree = IsTreeAt-Extends toy_hash edited_store site.storage 2 site_root site-Extends (
    subst (IsTreeAt toy_hash edited_store 2) (ok_injective (sym site-Edited.result ∙ site_result))
      site-Edited.tree)

unfoldable resolver : Unit {0}
unfolding repo_program with_defaults chosen_branch route_branch resolve_head relative_name load_rrs
    add_leaf transfer_records serve_axfr single_soa client_ixfr_serial has_serial soa_at find_loop
    find_commit_by_soa_serial side_rrs add_change delta ixfr_envelope delta_records answer_ixfr
    serve_ixfr host_of remote_ip wrapped_router with_client dnssec_ok attach_soa covering
    attach_rrsig exists_at chase answer_cname answer_type answer_at single_message serve handle
    handle_with_remote visit_entry visit_entries walk_leaves_at walk_all_leaves commit_or_head
    name_exists lookup_rrset node_exists node_exists_from last_byte entries_at
resolver = tt

abbrev wire_lib : DnsMessages ℕ
wire_lib = record { fqdn = λ b. b; cname_target = λ _. none; type_covered = λ _. none }

abbrev site_config : Config
site_config = record {
  zone = codes "foo.com.";
  default_branch = codes "main";
  pinned_at = zero_hash;
  router = none;
}

abbrev asks : Bytes → Question
asks name = record { name = name; qtype = 1 }

abbrev query : Bytes → Request ℕ
query name = record { question = asks name ∷ []; authority = []; edns = none }

abbrev www : Bytes
www = codes "www.foo.com."

abbrev mail : Bytes
mail = codes "mail.foo.com."

abbrev site_commit : Commit
site_commit = elim (load_commit site.storage site_head) [
  | ok c ↦ c
  | err _ ↦ plain_commit zero_hash [] ann [] noon
]

site-ServesTree : ServesTree toy_hash wire_dns wire_lib site site_head site_root 2
site-ServesTree = record {
  head_nonzero = unfold resolver in refl;
  commit = site_commit;
  loaded = unfold resolver in refl;
  holds = unfold resolver in refl;
  tree = site_tree;
  root_nonzero = unfold resolver in refl;
}

www-Asked :
    Asked toy_hash wire_dns wire_lib 10 10 0 site_config site (query www) (asks www) site_head
unfolding resolver
www-Asked = record {
  rest = [];
  asks = refl;
  in_zone = refl;
  no_axfr = refl;
  no_ixfr = refl;
  at_head = refl;
}

mail-Asked :
    Asked toy_hash wire_dns wire_lib 10 10 0 site_config site (query mail) (asks mail) site_head
unfolding resolver
mail-Asked = record {
  rest = [];
  asks = refl;
  in_zone = refl;
  no_axfr = refl;
  no_ixfr = refl;
  at_head = refl;
}

abbrev address : RRset ℕ
address = record { name = codes "."; class = 1; rrtype = 1; ttl = 300; rrs = 5 ∷ [] }

records_found_example :
    (resp : Response ℕ) × (handle toy_hash wire_dns wire_lib 10 10 0 site_config
        (ok site)
        (query www)
      ≡ ok (message resp, (codes "A", success) ∷ []))
    × (resp.rcode ≡ success)
    × ((more : List ℕ) × (resp.answer ≡ (5 ∷ []) ++ more))
records_found_example =
    records_found toy_hash wire_dns wire_lib 10 10 0 site_config site (query www) (asks www)
      site_head site_root 2 address www-Asked site-ServesTree (inr (unfold resolver in refl))
      (unfold resolver in (refl, (_, refl, refl)))

abbrev denial : Response ℕ
denial = record { authoritative = true; rcode = name_error; answer = []; ns = [] }

nxdomain_sound_example : Nothing toy_hash site.storage site_root (codes "mail" ∷ [])
unfolding resolver
nxdomain_sound_example =
    nxdomain_sound toy_hash wire_dns wire_lib 10 10 0 site_config site (query mail) (asks mail)
      site_head site_root 2 denial mail-Asked site-ServesTree refl refl

-- The resolver takes any name that ends in the zone's, for a name in the zone.
not_in_zone :
    handle toy_hash wire_dns wire_lib 10 10 0 site_config (ok site) (query (codes "barfoo.com."))
    ≡ ok (message denial, (codes "A", name_error) ∷ [])
unfolding resolver
not_in_zone = refl

-- The address of a client over IPv6 keeps its brackets.
brackets : remote_ip (some (codes "[::1]:53")) none ≡ codes "[::1]"
unfolding resolver
brackets = refl

-- A repository with a SOA at the apex.
abbrev soa_dns : Dns
soa_dns = record wire_dns {
  owner = λ _. codes "foo.com.";
  rrtype_of = λ _. 6;
  type_to_string = λ _. codes "SOA";
}

abbrev soa_site : Repo
soa_site =
    (commit toy_hash soa_dns ann (codes "m") noon 5 (set_rrset toy_hash soa_dns (6 ∷ []) ready).1).1

abbrev soa_head : Hash
soa_head = held (branch_ref (codes "foo.com.") (codes "main")) soa_site.storage.refs

abbrev soa_set : RRset ℕ
soa_set = record { name = codes "."; class = 1; rrtype = 6; ttl = 300; rrs = 6 ∷ [] }

-- A record's number is its serial here.
found_serial :
    find_commit_by_soa_serial toy_hash soa_dns 10001 soa_site soa_head 6 ≡ ok (soa_head, soa_set)
unfolding resolver
found_serial = refl

find_commit_by_soa_serial-HasSerial_example :
    (¬ (
      find_commit_by_soa_serial toy_hash soa_dns 10001 soa_site soa_head 6 ≡ err Error.out_of_fuel))
    × ((found : Hash × RRset ℕ)
        → find_commit_by_soa_serial toy_hash soa_dns 10001 soa_site soa_head 6 ≡ ok found
        → HasSerial toy_hash soa_dns soa_site soa_head 6 found)
find_commit_by_soa_serial-HasSerial_example =
    find_commit_by_soa_serial-HasSerial toy_hash soa_dns 10001 soa_site soa_head 6 (omega arith)

walk_all_leaves-view_example :
    (leaves : List Leaf) × (walk_all_leaves toy_hash site.storage keep_leaf 2 site_root []
      ≡ (ok tt, leaves))
    × ((leaf : Leaf)
        → In leaf leaves
        → (view toy_hash site.storage site_root leaf.path leaf.rrtype ≡ leaf.blob)
          × (is_zero leaf.blob ≡ false))
    × ((q : Labels) (rrtype : Bytes)
        → is_zero (view toy_hash site.storage site_root q rrtype) ≡ false
        → In
            (record {
              path = q;
              rrtype = rrtype;
              blob = view toy_hash site.storage site_root q rrtype;
            })
            leaves)
walk_all_leaves-view_example =
    walk_all_leaves-view toy_hash site.storage 2 site_root site_tree (unfold resolver in refl)
