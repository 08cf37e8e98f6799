-- ===== src/Repo/Committing/Tests.antt =====
-- Commits at concrete inputs.
use zonegit.Base.{◌≡◌, refl, arith, true, codes, map, All, List}
use zonegit.Store.Hash.{Hash, zero_hash}
use zonegit.Store.MemStore.{Object}
use zonegit.Object.Sample.{toy_hash, toy_hash_size}
use zonegit.Object.TreeOps.Clean.{clean_test, Clean-of_test}
use zonegit.Object.TreeOps.View.{IsTreeAt-zero_hash}
use zonegit.Zone.Sample.{toy_dns}
use zonegit.Repo.Sample.{repo_program, staged, ann, noon, committed}
use zonegit.Repo.Staging.{sorted_keys}
use zonegit.Repo.Committing.{staged_edit, commit, apply_edits}
use zonegit.Repo.Committing.Edits.{Fits, Edited, apply_edits-Edited}
use zonegit.Repo.Committing.Moves.{MovesHead, commit-MovesHead}
use zonegit.Repo.Committing.Shows.{Committed, commit-Committed}

commit_clean : clean_test committed.storage.objects ≡ true
unfolding repo_program
commit_clean = refl

abbrev edits_store : List (Hash × Object)
edits_store =
    (apply_edits toy_hash (map staged_edit (sorted_keys staged.staging)) zero_hash
      staged.storage).1.objects

edits_clean : clean_test edits_store ≡ true
unfolding repo_program
edits_clean = refl

staged-Fits : All (Fits 1) (map staged_edit (sorted_keys staged.staging))
unfolding repo_program
staged-Fits = (
  record {
    shallow = omega arith;
    labels = ((omega arith, omega arith), tt);
    names_type = (omega arith, omega arith);
    size = refl;
  },
  tt,
)

commit-Committed_example :
    Committed toy_hash ann
      (codes "m")
      noon
      5
      (codes "foo.com.")
      (codes "main")
      zero_hash
      toy_hash_size
      1
      (map staged_edit (sorted_keys staged.staging))
      zero_hash
      staged.storage
      (commit toy_hash toy_dns ann (codes "m") noon 5 staged)
unfolding repo_program
commit-Committed_example =
    commit-Committed toy_hash ann (codes "m") noon 5 (codes "foo.com.") (codes "main") zero_hash
      toy_hash_size toy_dns 1 zero_hash staged staged refl refl refl refl refl
      (IsTreeAt-zero_hash toy_hash staged.storage 2) staged-Fits
      (Clean-of_test committed.storage.objects commit_clean)

commit-MovesHead_example : MovesHead staged (commit toy_hash toy_dns ann (codes "m") noon 5 staged)
commit-MovesHead_example = commit-MovesHead toy_hash toy_dns ann (codes "m") noon 5 staged

apply_edits-Edited_example :
    Edited toy_hash toy_hash_size 1
      (map staged_edit (sorted_keys staged.staging))
      zero_hash
      staged.storage
      (apply_edits toy_hash (map staged_edit (sorted_keys staged.staging)) zero_hash staged.storage)
apply_edits-Edited_example =
    apply_edits-Edited toy_hash toy_hash_size 1 (map staged_edit (sorted_keys staged.staging))
      zero_hash staged.storage (IsTreeAt-zero_hash toy_hash staged.storage 2) staged-Fits
      (Clean-of_test edits_store edits_clean)
