-- ===== src/Repo/Staging/Tests.antt =====
-- A zone is switched to.
use zonegit.Base.{refl, arith, codes}
use zonegit.Object.Sample.{toy_hash}
use zonegit.Refs.{canon_zone, branch_ref}
use zonegit.Refs.Head.{tip}
use zonegit.Repo.Sample.{repo_program, ready}
use zonegit.Repo.Staging.{switch_zone}
use zonegit.Repo.Staging.Heads.{PointsAt, switch_zone-PointsAt}

switch_zone-PointsAt_example :
    PointsAt
      (canon_zone (codes "Foo.com"))
      (codes "dev")
      (tip ready.storage (branch_ref (canon_zone (codes "Foo.com")) (codes "dev")))
      (switch_zone toy_hash (codes "Foo.com") (codes "dev") ready)
unfolding repo_program
switch_zone-PointsAt_example =
    switch_zone-PointsAt toy_hash (codes "Foo.com") (codes "dev") ready refl refl (omega arith)
      (omega arith) refl
