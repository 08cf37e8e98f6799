-- ===== src/Repo/Staging/Heads.antt =====
-- HEAD and the active zone agree after the operations that move HEAD.
use zonegit.Base.{
  ◌≡◌, ◌≢◌, refl, sym, ap, ◌∙◌, true, false, length, Bytes, contains, ok, err, Outcome, ◌then_do◌,
}
use mathlib.Core.Path.{subst}
use zonegit.Store.Hash.{Hash, is_zero}
use zonegit.Store.MemStore.{Store}
use zonegit.Object.{kind_symref, hash_of}
use zonegit.Refs.{canon_zone, branch_ref, is_zone_registered, read_head, set_head}
use zonegit.Refs.Head.{tip, read_head-set_head}
use zonegit.Refs.Names.{canon_zone_idem}
use zonegit.Repo.Staging.{Repo, on_store, point_head, switch_zone}

-- A success; HEAD reads as the zone and the branch, and the zone is the active one.
abbrev pub PointsAt : Bytes → Bytes → Hash → Outcome Repo (Unit {0}) → Type 0
PointsAt zone branch commit out =
    (out.0 ≡ ok tt)
    × (read_head out.1.storage ≡ ok (zone, branch, commit))
    × (out.1.active_zone ≡ zone)

moved-PointsAt :
    (zone branch : Bytes) (commit : Hash) (r : Repo) (m : Outcome Store (Unit {0}))
    → m.0 ≡ ok tt
    → read_head m.1 ≡ ok (zone, branch, commit)
    → PointsAt zone branch commit
        (on_store (λ _. m) r then_do (λ _ r'. (ok tt, record r' { active_zone = zone })))
moved-PointsAt zone branch commit r (ok a, s) e f = (refl, f, refl)
moved-PointsAt zone branch commit r (err x, s) e f = absurd cc

-- If the zone is registered, zone and branch are not empty, the branch has no slash, and the hash of
-- the symref is not zero, then `switch_zone` succeeds: HEAD reads as the canonical zone, the branch
-- and the commit that the branch has, and the zone is the active one.
pub switch_zone-PointsAt :
    (sha256 : Bytes → Hash) (name branch : Bytes) (r : Repo)
    → is_zone_registered r.storage (canon_zone name) ≡ true
    → is_zero (hash_of sha256 kind_symref (branch_ref (canon_zone name) branch)) ≡ false
    → length (canon_zone name) ≢ 0
    → length branch ≢ 0
    → contains 47 branch ≡ false
    → PointsAt
        (canon_zone name)
        branch
        (tip r.storage (branch_ref (canon_zone name) branch))
        (switch_zone sha256 name branch r)
unfolding switch_zone point_head
switch_zone-PointsAt sha256 name branch r registered nz z b c =
    let zone = canon_zone name in
    let same = canon_zone_idem name in
    let set =
      read_head-set_head sha256 zone branch r.storage nz (λ e. z (ap length (sym same) ∙ e)) b c in
    rw registered (
      moved-PointsAt zone branch (tip r.storage (branch_ref zone branch)) r
        (set_head sha256 zone branch r.storage) set.0
        (subst
          (λ w.
            read_head (set_head sha256 zone branch r.storage).1
            ≡ ok (w, branch, tip r.storage (branch_ref zone branch)))
          same set.1))
