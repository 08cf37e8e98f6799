-- ===== src/Repo/Reads.antt =====
-- pkg/repo/repo.go: the read methods, and the import of a zone file. The fuel bounds the commits of
-- a walk, and the height of a tree for `diff_refs`.
use zonegit.Base.{
  ℕ, Bool, false, List, [], ◌∷◌, length, Bytes, if◌then◌else◌, ◌==◌, Result, ok, err, Error,
  Outcome, ◌>>=◌, ◌>>◌, ◌then_do◌, with_do, to_upper,
}
use zonegit.Store.Hash.{Hash, is_zero}
use zonegit.Store.MemStore.{Store, get_object}
use zonegit.Object.TreeOps.{walk_tree, node_exists}
use zonegit.History.{LogEntry, BlameInfo, log, blame}
use zonegit.History.Diff.{Change, diff}
use zonegit.Refs.{read_head, head_ref}
use zonegit.Refs.Resolve.{resolve}
use zonegit.Repo.{load_commit}
use zonegit.Repo.Staging.{Repo, norm_fqdn, split_fqdn, set_rrset}
use zonegit.Repo.Integrate.{tree_of}
use zonegit.Zone.{Dns, RRset, decode_rrset}
use zonegit.Zone.Import.{import_zonefile}

-- `Repo.Log`
unfoldable pub log_ref : ℕ → Repo → Bytes → ℕ → Result (List LogEntry)
unfolding log resolve
log_ref fuel r refish max =
    resolve r.storage (if length refish == 0 then head_ref else refish) >>= λ h.
    log r.storage fuel h max

-- The commit asked for, or HEAD's.
unfoldable pub commit_or_head : Store → Hash → Result Hash
commit_or_head s commit =
    (if is_zero commit then (read_head s >>= λ head. ok head.2) else ok commit) >>= λ c.
    if is_zero c then err Error.failed else ok c

module _ (sha256 : Bytes → Hash) where
  -- `Repo.Diff`
  unfoldable pub diff_refs : ℕ → Repo → Bytes → Bytes → Result (List Change)
  unfolding resolve diff tree_of
  diff_refs fuel r from to = do
    a ← resolve r.storage from
    b ← resolve r.storage to
    diff sha256 r.storage fuel (tree_of r.storage a) (tree_of r.storage b)

  -- `Repo.Blame`
  unfoldable pub blame_head_of : ℕ → Repo → Bytes → Bytes → Result BlameInfo
  unfolding blame split_fqdn norm_fqdn to_upper
  blame_head_of fuel r fqdn rrtype = do
    head ← read_head r.storage
    if is_zero head.2 then err Error.failed else ok tt
    blame sha256 r.storage (split_fqdn (norm_fqdn fqdn)) (to_upper rrtype) fuel head.2

  unfoldable pub name_exists : Repo → Hash → Bytes → Result Bool
  unfolding node_exists tree_of split_fqdn norm_fqdn
  name_exists r commit fqdn =
      if is_zero commit
      then ok false
      else node_exists sha256 r.storage (tree_of r.storage commit) (split_fqdn (norm_fqdn fqdn))

  module _ (dns : Dns) where
    open dns use {RR}

    -- `Repo.Lookup`
    unfoldable pub lookup_rrset : Repo → Hash → Bytes → Bytes → Result (RRset RR)
    unfolding commit_or_head load_commit walk_tree decode_rrset split_fqdn norm_fqdn to_upper
    lookup_rrset r commit fqdn rrtype = do
      h ← commit_or_head r.storage commit
      c ← load_commit r.storage h
      blob ← walk_tree sha256 r.storage c.tree (split_fqdn (norm_fqdn fqdn)) (to_upper rrtype)
      obj ← get_object r.storage blob
      decode_rrset dns obj.payload

    unfoldable pub set_all : List (RRset RR) → Repo → Outcome Repo (Unit {0})
    unfolding set_rrset
    set_all [] r = (ok tt, r)
    set_all (g ∷ gs) r = set_rrset sha256 dns g.rrs r then_do (λ _. set_all gs)

    -- `Repo.Import`, with the number of record sets.
    unfoldable pub import : Bytes → Repo → Outcome Repo ℕ
    unfolding set_all import_zonefile
    import src r =
        if length r.active_zone == 0
        then (err Error.failed, r)
        else with_do r (import_zonefile dns src r.active_zone)
            (λ groups. set_all groups r then_do (λ _ r'. (ok (length groups), r')))
