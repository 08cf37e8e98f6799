-- ===== src/Resolve/Axfr.antt =====
-- pkg/resolve/axfr.go: a full zone transfer.
use zonegit.Base.{
  ℕ, false, ◌&&◌, List, [], ◌++◌, length, Bytes, bytes_eq, ◌==◌, if◌then◌else◌, Result, ok, err,
  ◌>>=◌, with_do, codes,
}
use zonegit.Store.Hash.{Hash}
use zonegit.Store.MemStore.{Store, get_object}
use zonegit.Object.TreeOps.Leaves.{Visitor, walk_all_leaves}
use zonegit.Repo.{load_commit}
use zonegit.Repo.Staging.{Repo}
use zonegit.Repo.Reads.{lookup_rrset}
use zonegit.Resolve.{
  Config, Question, success, server_failure, Served, message, transfer, resolve_head,
}
use zonegit.Zone.{Dns, decode_rrset}

-- `sendAXFRError`
abbrev pub transfer_failed : {RR : Type 0} → Served RR
transfer_failed = (
  message (record { authoritative = false; rcode = server_failure; answer = []; ns = [] }),
  server_failure,
)

module _ (sha256 : Bytes → Hash) (dns : Dns) where
  open dns use {RR, type_to_string}

  -- `loadRRs`
  unfoldable pub load_rrs : Store → Hash → Result (List RR)
  unfolding decode_rrset
  load_rrs s blob = get_object s blob >>= λ obj. decode_rrset dns obj.payload >>= λ rs. ok rs.rrs

  -- The callback of `serveAXFR`: the apex SOA is left out, any other record set is added.
  unfoldable pub add_leaf : Store → Visitor (List RR)
  unfolding load_rrs
  add_leaf s path rrtype blob all =
      if (length path == 0) && bytes_eq rrtype (codes "SOA")
      then (ok tt, all)
      else with_do all (load_rrs s blob) (λ rrs. (ok tt, all ++ rrs))

  -- The records of the transfer.
  unfoldable pub transfer_records : ℕ → Repo → Hash → Result (List RR)
  unfolding lookup_rrset load_commit walk_all_leaves add_leaf
  transfer_records depth rp head = do
    soa ← lookup_rrset sha256 dns rp head (codes "@") (codes "SOA")
    commit ← load_commit rp.storage head
    let (done, all) =
          walk_all_leaves sha256 rp.storage (add_leaf rp.storage) depth commit.tree soa.rrs in
        done >>= λ _. ok (all ++ soa.rrs)

  unfoldable pub serve_axfr : ℕ → ℕ → Config → Question → Repo → Served RR
  unfolding resolve_head transfer_records
  serve_axfr depth now cfg q rp =
      elim (resolve_head type_to_string now cfg rp q cfg.zone >>= transfer_records depth rp) [
        | err _ ↦ transfer_failed
        | ok all ↦ (transfer all, success)
      ]
