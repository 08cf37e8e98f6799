-- ===== src/Repo/Integrate/Tests.antt =====
-- Merge, revert and reset at concrete inputs.
use zonegit.Base.{◌≡◌, refl, Bool, true, err, codes, [], ok, Result, ◌then_do◌}
use zonegit.Store.Hash.{Hash}
use zonegit.Object.Commit.{identity_string}
use zonegit.Object.Sample.{toy_hash}
use zonegit.Refs.{create_branch}
use zonegit.Refs.Swaps.{held}
use zonegit.Zone.Sample.{toy_dns}
use zonegit.Repo.Sample.{repo_program, committed, ann, noon}
use zonegit.Repo.Staging.{Repo, delete, switch_zone, on_store}
use zonegit.Repo.Committing.{commit}
use zonegit.Repo.Committing.Moves.{MovesHead}
use zonegit.Repo.Integrate.{merge, revert, reset_hard}
use zonegit.Repo.Integrate.Moves.{Resets, reset_hard-Resets, revert-MovesHead}
use zonegit.Repo.Integrate.Merged.{MergesHead, merge-MergesHead}

abbrev first_commit : Hash
first_commit = held (codes "refs/heads/foo.com./main") committed.storage.refs

-- A second branch, one commit ahead of "main", which is HEAD's.
abbrev ahead : Repo
ahead =
    (on_store (create_branch (codes "foo.com.") (codes "dev") first_commit) committed
      then_do (λ _. switch_zone toy_hash (codes "foo.com") (codes "dev"))
      then_do (λ _ r.
          commit toy_hash toy_dns ann (codes "gone") noon 6 (delete (codes "www") (codes "a") r))
      then_do (λ _. switch_zone toy_hash (codes "foo.com") (codes "main"))).1

abbrev is_forward : Result Bool
is_forward = elim (merge toy_hash 9 9 (codes "dev") ann [] noon 7 ahead).0 [
  | ok m ↦ ok m.fast_forward
  | err e ↦ err e
]

dev_is_ahead : is_forward ≡ ok true
unfolding repo_program
dev_is_ahead = refl

merge-MergesHead_example : MergesHead ahead (merge toy_hash 9 9 (codes "dev") ann [] noon 7 ahead)
merge-MergesHead_example = merge-MergesHead toy_hash 9 9 (codes "dev") ann [] noon 7 ahead

revert-MovesHead_example :
    MovesHead committed (revert toy_hash 9 (codes "HEAD") ann [] noon 8 committed)
revert-MovesHead_example = revert-MovesHead toy_hash 9 (codes "HEAD") ann [] noon 8 committed

reset_hard-Resets_example :
    Resets
      (codes "foo.com./dev")
      ahead
      (reset_hard (codes "foo.com./dev") (identity_string ann) 9 ahead)
reset_hard-Resets_example = reset_hard-Resets (codes "foo.com./dev") (identity_string ann) 9 ahead
