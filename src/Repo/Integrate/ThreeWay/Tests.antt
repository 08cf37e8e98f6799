-- ===== src/Repo/Integrate/ThreeWay/Tests.antt =====
-- Two branches with one record set each are merged.
use zonegit.Base.{
  ◌≡◌, refl, sym, ◌∙◌, arith, true, codes, [], ◌∷◌, List, ok, err, Bytes, replicate, Outcome,
  ok_injective, length, Result,
}
use mathlib.Core.Path.{subst}
use zonegit.Store.Hash.{Hash, zero_hash}
use zonegit.Store.MemStore.{Store}
use zonegit.Object.Sample.{toy_hash, toy_hash_size}
use zonegit.Object.TreeOps.Clean.{clean_test, Clean-of_test}
use zonegit.Object.TreeOps.Stored.{Extends, Extends-trans}
use zonegit.Object.TreeOps.View.{IsTreeAt, IsTreeAt-zero_hash, IsTreeAt-Extends}
use zonegit.Merge.Walk.{Stands}
use zonegit.Refs.{branch_ref}
use zonegit.Refs.Swaps.{held}
use zonegit.Repo.Sample.{repo_program, ready, ann, noon}
use zonegit.Repo.Committing.{Edit, apply_edits, land_commit, move_branch, plain_commit}
use zonegit.Repo.Committing.Edits.{Fits, Edited, apply_edits-Edited}
use zonegit.Repo.Committing.Landed.{land_commit-Lands}
use zonegit.Repo.Committing.Moves.{move_branch-cas_ref}
use zonegit.Repo.Integrate.{MergeResult, merge_three_way, tree_of}
use zonegit.Repo.Integrate.ThreeWay.{Joined, merge_three_way-Joined}

abbrev root_of : Result Hash → Hash
root_of r = elim r [ ok h ↦ h | err _ ↦ zero_hash ]

abbrev edit_of : Bytes → Edit
edit_of label = record { path = label ∷ []; rrtype = codes "A"; leaf = replicate 32 1 }

edit_of-Fits : (label : Bytes) → length label ≡ 3 → Fits 1 (edit_of label)
edit_of-Fits label e = record {
  shallow = omega arith;
  labels = ((omega (arith, e), omega (arith, e)), tt);
  names_type = (omega arith, omega arith);
  size = refl;
}

abbrev www_set : Outcome Store Hash
www_set = apply_edits toy_hash (edit_of (codes "www") ∷ []) zero_hash ready.storage

abbrev api_set : Outcome Store Hash
api_set = apply_edits toy_hash (edit_of (codes "api") ∷ []) zero_hash www_set.1

abbrev first_commit : Bytes → Hash → Store → Outcome Store Hash
first_commit branch tree s =
    land_commit toy_hash (move_branch (codes "foo.com.") branch zero_hash)
      (branch_ref (codes "foo.com.") branch) zero_hash (codes "commit") 5
      (plain_commit tree [] ann (codes "m") noon) s

abbrev on_main : Outcome Store Hash
on_main = first_commit (codes "main") (root_of www_set.0) api_set.1

abbrev on_dev : Outcome Store Hash
on_dev = first_commit (codes "dev") (root_of api_set.0) on_main.1

abbrev joined : Outcome Store MergeResult
joined =
    merge_three_way toy_hash 2 (codes "foo.com.") (codes "main") (root_of on_main.0) (codes "dev")
      (root_of on_dev.0) ann [] noon 6 zero_hash on_dev.1

joined_clean : clean_test joined.1.objects ≡ true
unfolding repo_program
joined_clean = refl

dev_clean : clean_test on_dev.1.objects ≡ true
unfolding repo_program
dev_clean = refl

main_clean : clean_test on_main.1.objects ≡ true
unfolding repo_program
main_clean = refl

api_clean : clean_test api_set.1.objects ≡ true
unfolding repo_program
api_clean = refl

www_clean : clean_test www_set.1.objects ≡ true
unfolding repo_program
www_clean = refl

www_set-Edited :
    Edited toy_hash toy_hash_size 1 (edit_of (codes "www") ∷ []) zero_hash ready.storage www_set
www_set-Edited =
    apply_edits-Edited toy_hash toy_hash_size 1 (edit_of (codes "www") ∷ []) zero_hash ready.storage
      (IsTreeAt-zero_hash toy_hash ready.storage 2) (edit_of-Fits (codes "www") refl, tt)
      (Clean-of_test www_set.1.objects www_clean)

api_set-Edited :
    Edited toy_hash toy_hash_size 1 (edit_of (codes "api") ∷ []) zero_hash www_set.1 api_set
api_set-Edited =
    apply_edits-Edited toy_hash toy_hash_size 1 (edit_of (codes "api") ∷ []) zero_hash www_set.1
      (IsTreeAt-zero_hash toy_hash www_set.1 2) (edit_of-Fits (codes "api") refl, tt)
      (Clean-of_test api_set.1.objects api_clean)

main-Extends : Extends api_set.1 on_main.1
unfolding repo_program
main-Extends =
    (land_commit-Lands toy_hash (move_branch (codes "foo.com.") (codes "main") zero_hash)
      (codes "foo.com.") (codes "main") zero_hash (codes "commit") 5
      (plain_commit (root_of www_set.0) [] ann (codes "m") noon) api_set.1
      (move_branch-cas_ref (codes "foo.com.") (codes "main") zero_hash) refl
      (Clean-of_test on_main.1.objects main_clean)).extends

dev-Extends : Extends on_main.1 on_dev.1
unfolding repo_program
dev-Extends =
    (land_commit-Lands toy_hash (move_branch (codes "foo.com.") (codes "dev") zero_hash)
      (codes "foo.com.") (codes "dev") zero_hash (codes "commit") 5
      (plain_commit (root_of api_set.0) [] ann (codes "m") noon) on_main.1
      (move_branch-cas_ref (codes "foo.com.") (codes "dev") zero_hash) refl
      (Clean-of_test on_dev.1.objects dev_clean)).extends

Edited-IsTreeAt :
    (es : List Edit) (s s' : Store) (m : Outcome Store Hash) (h : Hash)
    → Edited toy_hash toy_hash_size 1 es zero_hash s m
    → m.0 ≡ ok h
    → Extends m.1 s'
    → IsTreeAt toy_hash s' 2 h
Edited-IsTreeAt es s s' m h e r ext =
    subst (IsTreeAt toy_hash s' 2) (ok_injective (sym e.result ∙ r))
      (IsTreeAt-Extends toy_hash m.1 s' 2 e.root' ext e.tree)

base-Stands : Stands toy_hash on_dev.1 2 (tree_of on_dev.1 zero_hash)
unfolding repo_program
base-Stands = (IsTreeAt-zero_hash toy_hash on_dev.1 2, refl)

main-Stands : Stands toy_hash on_dev.1 2 (tree_of on_dev.1 (root_of on_main.0))
unfolding repo_program
main-Stands = (
  Edited-IsTreeAt (edit_of (codes "www") ∷ []) ready.storage on_dev.1 www_set
      (tree_of on_dev.1 (root_of on_main.0)) www_set-Edited refl
      (Extends-trans www_set.1 api_set.1 on_dev.1 api_set-Edited.extends
        (Extends-trans api_set.1 on_main.1 on_dev.1 main-Extends dev-Extends)),
  refl,
)

dev-Stands : Stands toy_hash on_dev.1 2 (tree_of on_dev.1 (root_of on_dev.0))
unfolding repo_program
dev-Stands = (
  Edited-IsTreeAt (edit_of (codes "api") ∷ []) www_set.1 on_dev.1 api_set
      (tree_of on_dev.1 (root_of on_dev.0)) api_set-Edited refl
      (Extends-trans api_set.1 on_main.1 on_dev.1 main-Extends dev-Extends),
  refl,
)

main_holds : held (branch_ref (codes "foo.com.") (codes "main")) on_dev.1.refs ≡ root_of on_main.0
unfolding repo_program
main_holds = refl

merge_three_way-Joined_example :
    Joined toy_hash toy_hash_size 2
      (codes "foo.com.")
      (codes "main")
      (root_of on_main.0)
      (codes "dev")
      (root_of on_dev.0)
      ann
      []
      noon
      6
      zero_hash
      on_dev.1
      joined
merge_three_way-Joined_example =
    merge_three_way-Joined toy_hash toy_hash_size 2 (codes "foo.com.") (codes "main")
      (root_of on_main.0) (codes "dev") (root_of on_dev.0) ann [] noon 6 zero_hash on_dev.1
      base-Stands main-Stands dev-Stands main_holds (Clean-of_test joined.1.objects joined_clean)
