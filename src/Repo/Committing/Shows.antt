-- ===== src/Repo/Committing/Shows.antt =====
-- A commit that meets no conflict succeeds, and its tree shows the staged edits.
use zonegit.Base.{
  ℕ, suc, ◌≡◌, refl, sym, ap, ◌∙◌, Bool, false, List, [], ◌∷◌, map, length, Bytes, if◌then◌else◌,
  ◌==◌, Result, ok, err, Outcome, ◌then_do◌, with_do, codes, All, Error, ok_injective, err_not_ok,
}
use mathlib.Core.Path.{subst}
use zonegit.Store.Hash.{Hash, hash_size, is_zero}
use zonegit.Store.MemStore.{Store, put_object, get_object}
use zonegit.Store.MemStore.Growth.{refs_growth}
use zonegit.Object.Commit.{Commit, Identity, Time, encode_commit}
use zonegit.Object.TreeOps.{Labels}
use zonegit.Object.TreeOps.Stored.{Clean, Extends, Extends-trans}
use zonegit.Object.TreeOps.View.{view, IsTreeAt, view-Extends}
use zonegit.Refs.{read_head, branch_ref, get_branch}
use zonegit.Refs.Swaps.{held}
use zonegit.Zone.{Dns}
use zonegit.Repo.Staging.{Repo, on_store, sorted_keys}
use zonegit.Repo.Committing.{
  Edit, apply_edits, land_commit, move_branch, maybe_bump_soa, staged_edit, commit_on, commit,
  parent_tree, plain_commit,
}
use zonegit.Repo.Committing.Edits.{apply_edits-relates, edited, Fits, Edited, apply_edits-Edited}
use zonegit.Repo.Committing.Landed.{land_commit-objects, land_commit-Lands}
use zonegit.Repo.Committing.Moves.{repo_refs, maybe_bump_soa-refs, move_branch-cas_ref}

passed : {A : Type 0} (b : Bool) (x y : A) → b ≡ false → (if b then x else y) ≡ y
passed b x y e = rw e refl

with_do_ok :
    {S A B : Type 0} (s : S) (m : Result A) (f : A → Outcome S B) {a : A}
    → m ≡ ok a
    → with_do s m f ≡ f a
with_do_ok s m f e = ap (λ z. with_do s z f) e

-- The end of `commit_on`, on what the branch's move returned.
abbrev finished : Repo → Outcome Store Hash → Outcome Repo Hash
finished r o =
    (o.0, record r { storage = o.1 }) then_do (λ h r'. (ok h, record r' { staging = [] }))

finished-objects :
    (r : Repo) (o : Outcome Store Hash) → (finished r o).1.storage.objects ≡ o.1.objects
finished-objects r (ok h, s) = refl
finished-objects r (err x, s) = refl

finished_ok :
    (r : Repo) (o : Outcome Store Hash) {h : Hash}
    → o.0 ≡ ok h
    → finished r o ≡ (ok h, record r { storage = o.1; staging = [] })
finished_ok r (ok h', s) e = ap (λ z. (z, record r { storage = s; staging = [] })) e
finished_ok r (err x, s) e = absurd cc

module _ (sha256 : Bytes → Hash) (who : Identity) (msg : Bytes) (now : Time) (stamp : ℕ)
    (zone branch : Bytes) (parent : Hash) where
  -- The commit that is made from a tree.
  abbrev pub commit_of : Hash → Commit
  commit_of tree = plain_commit tree (if is_zero parent then [] else (parent ∷ [])) who msg now

  abbrev landed : Hash → Store → Outcome Store Hash
  landed tree s =
      land_commit sha256 (move_branch zone branch parent) (branch_ref zone branch) parent
        (codes "commit") stamp (commit_of tree) s

  abbrev chained : Repo → Outcome Store Hash → Outcome Repo Hash
  chained r m =
      (m.0, record r { storage = m.1 })
      then_do (λ tree'. on_store (landed tree'))
      then_do (λ h r'. (ok h, record r' { staging = [] }))

  Clean-chained :
      (r : Repo) (m : Outcome Store Hash)
      → Clean (chained r m).1.storage.objects
      → Clean m.1.objects
  Clean-chained r (err x, s) clean = clean
  Clean-chained r (ok tree, s) clean =
      (subst Clean
        (finished-objects r (landed tree s)
          ∙ land_commit-objects sha256 (move_branch zone branch parent) (branch_ref zone branch)
              parent (codes "commit") stamp (commit_of tree) s
              (move_branch-cas_ref zone branch parent))
        clean).3

  module _ (sha256_size : (m : Bytes) → length (sha256 m) ≡ hash_size) where
    -- A commit on the branch: its tree shows the edited zone of the tree before.
    pub record Committed (n : ℕ) (es : List Edit) (tree : Hash) (s : Store)
        (out : Outcome Repo Hash) : Type 0 where
      pub tree' : Hash
      pub result : out.0 ≡ ok (encode_commit sha256 (commit_of tree')).0
      pub at_branch :
          get_branch out.1.storage zone branch ≡ ok (encode_commit sha256 (commit_of tree')).0
      pub stored :
          get_object out.1.storage (encode_commit sha256 (commit_of tree')).0
          ≡ ok (encode_commit sha256 (commit_of tree')).1
      pub cleared : out.1.staging ≡ []
      pub extends : Extends s out.1.storage
      pub shows :
          (q : Labels) (rrtype : Bytes)
          → view sha256 out.1.storage tree' q rrtype
            ≡ edited es q rrtype (view sha256 s tree q rrtype)

    chained-Committed :
        (n : ℕ) (es : List Edit) (tree : Hash) (r : Repo) (m : Outcome Store Hash)
        → m.1.refs ≡ r.storage.refs
        → held (branch_ref zone branch) r.storage.refs ≡ parent
        → Edited sha256 sha256_size n es tree r.storage m
        → Clean (chained r m).1.storage.objects
        → Committed n es tree r.storage (chained r m)
    unfolding put_object
    chained-Committed n es tree r (err x, s) kept at edits clean = absurd (err_not_ok edits.result)
    chained-Committed n es tree r (ok t, s) kept at edits clean =
        let lands =
          land_commit-Lands sha256 (move_branch zone branch parent) zone branch parent
            (codes "commit") stamp (commit_of t) s (move_branch-cas_ref zone branch parent)
            (ap (held (branch_ref zone branch)) kept ∙ at)
            (subst Clean (finished-objects r (landed t s)) clean) in
        let after = (landed t s).1 in
        let same = ok_injective edits.result in
        let tree_stands = subst (IsTreeAt sha256 s (suc n)) (sym same) edits.tree in
        subst (Committed n es tree r.storage) (sym (finished_ok r (landed t s) lands.result))
          (record {
            tree' = t;
            result = refl;
            at_branch = lands.at_branch;
            stored = lands.stored;
            cleared = refl;
            extends = Extends-trans r.storage s after edits.extends lands.extends;
            shows = λ q rrtype.
                view-Extends sha256 s after (suc n) t q rrtype lands.extends tree_stands
                ∙ ap (λ z. view sha256 s z q rrtype) same
                ∙ edits.shows q rrtype;
          })

    module _ (dns : Dns) where
      commit_on_bumped :
          (tree : Hash) (r r' : Repo)
          → maybe_bump_soa sha256 dns tree r ≡ (ok tt, r')
          → commit_on sha256 dns who msg now stamp zone branch parent tree r
            ≡ chained r'
                (apply_edits sha256 (map staged_edit (sorted_keys r'.staging)) tree r'.storage)
      unfolding commit_on
      commit_on_bumped tree r r' e =
          ap
            (λ (bumped : Outcome Repo (Unit {0})).
              bumped
              then_do (λ _ z.
                  on_store (apply_edits sha256 (map staged_edit (sorted_keys z.staging)) tree) z)
              then_do (λ tree'. on_store (landed tree'))
              then_do (λ h z. (ok h, record z { staging = [] })))
            e

      commit_run :
          (tree : Hash) (r : Repo)
          → length r.staging == 0 ≡ false
          → read_head r.storage ≡ ok (zone, branch, parent)
          → parent_tree r.storage parent ≡ ok tree
          → commit sha256 dns who msg now stamp r
            ≡ commit_on sha256 dns who msg now stamp zone branch parent tree r
      unfolding commit
      commit_run tree r e f g =
          passed (length r.staging == 0) (err Error.failed, r) _ e
          ∙ with_do_ok r (read_head r.storage) _ f
          ∙ with_do_ok r (parent_tree r.storage parent) _ g

      -- If something is staged, HEAD can be read and its branch is at the commit that HEAD gives, the
      -- SOA bump leaves staged edits that fit the parent's stored tree, and the writes are clean (no
      -- two objects fell on one hash, none on the zero hash), then `commit` succeeds: the branch is
      -- at the new commit, which is stored with the parent, the author and the message; its tree
      -- shows at every owner and type what the last staged edit of it wrote, and the parent's zone
      -- where there was none; nothing stays staged, and no stored object is lost.
      pub commit-Committed :
          (n : ℕ) (tree : Hash) (r r' : Repo)
          → length r.staging == 0 ≡ false
          → read_head r.storage ≡ ok (zone, branch, parent)
          → parent_tree r.storage parent ≡ ok tree
          → held (branch_ref zone branch) r.storage.refs ≡ parent
          → maybe_bump_soa sha256 dns tree r ≡ (ok tt, r')
          → IsTreeAt sha256 r'.storage (suc n) tree
          → All (Fits n) (map staged_edit (sorted_keys r'.staging))
          → Clean (commit sha256 dns who msg now stamp r).1.storage.objects
          → Committed n
              (map staged_edit (sorted_keys r'.staging))
              tree
              r'.storage
              (commit sha256 dns who msg now stamp r)
      commit-Committed n tree r r' e f g at bumped i fits clean =
          let es = map staged_edit (sorted_keys r'.staging) in
          let m = apply_edits sha256 es tree r'.storage in
          let run = commit_run tree r e f g ∙ commit_on_bumped tree r r' bumped in
          let clean' = subst (λ (out : Outcome Repo Hash). Clean out.1.storage.objects) run clean in
          let kept =
            ap (λ (out : Outcome Repo (Unit {0})). repo_refs out.1) (sym bumped)
            ∙ maybe_bump_soa-refs sha256 dns tree r in
          subst (Committed n es tree r'.storage) (sym run) (
            chained-Committed n es tree r' m
              (apply_edits-relates refs_growth sha256 es tree r'.storage)
              (ap (held (branch_ref zone branch)) kept ∙ at)
              (apply_edits-Edited sha256 sha256_size n es tree r'.storage i fits
                (Clean-chained r' m clean'))
              clean')
