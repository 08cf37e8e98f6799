-- ===== src/Repo/Integrate/ThreeWay.antt =====
-- A three-way merge of branches: the tree of its commit is the merge of the three zones.
mod Tests
use zonegit.Base.{
  ℕ, ◌≡◌, refl, sym, ap, ◌∙◌, Bool, true, false, not, List, [], ◌∷◌, length, Bytes, if◌then◌else◌,
  ◌==◌, In, ◌↔◌, Result, ok, err, Outcome, ◌then_do◌, codes, Bool-cases, inl, inr, arith,
  ok_injective, err_not_ok,
}
use mathlib.Core.Path.{subst}
use zonegit.Store.Hash.{Hash, hash_size}
use zonegit.Store.MemStore.{Store, get_object}
use zonegit.Object.Commit.{Commit, Identity, Time, encode_commit}
use zonegit.Object.TreeOps.{Labels}
use zonegit.Object.TreeOps.Stored.{Clean, Extends, Extends-trans}
use zonegit.Object.TreeOps.View.{view, view-Extends, IsTreeAt}
use zonegit.Merge.{Conflict, merge_trees, resolve_leaf}
use zonegit.Store.MemStore.Growth.{refs_growth}
use zonegit.Merge.Grows.{merge_trees-relates}
use zonegit.Merge.Reported.{Clash}
use zonegit.Merge.Walk.{Stands}
use zonegit.Merge.Trees.{MergedView, merge_trees-MergedView}
use zonegit.Refs.{branch_ref, get_branch, update_branch}
use zonegit.Refs.Swaps.{held}
use zonegit.Repo.Committing.{land_commit, plain_commit}
use zonegit.Repo.Committing.Landed.{land_commit-Lands, land_commit-objects}
use zonegit.Repo.Integrate.{
  MergeResult, conflicting, merged_at, tree_of, merge_message, merge_three_way,
}

module _ (sha256 : Bytes → Hash) (sha256_size : (m : Bytes) → length (sha256 m) ≡ hash_size)
    (depth : ℕ) (zone branch : Bytes) (ours : Hash) (theirs_name : Bytes) (theirs : Hash)
    (who : Identity) (msg : Bytes) (now : Time) (stamp : ℕ) where
  -- The merge commit of a tree, with both parents.
  abbrev pub merge_commit : Hash → Commit
  merge_commit tree =
      plain_commit tree (ours ∷ theirs ∷ []) who (merge_message theirs_name branch msg) now

  abbrev pub landed : Hash → Store → Outcome Store Hash
  landed tree s =
      land_commit sha256 (update_branch zone branch ours) (branch_ref zone branch) ours
        (codes "merge") stamp (merge_commit tree) s

  abbrev ended : Outcome Store Hash → Outcome Store MergeResult
  ended o = o then_do (λ h s. (ok (merged_at h), s))

  abbrev concluded : Outcome Store (Hash × List Conflict) → Outcome Store MergeResult
  concluded m = m then_do (λ (tree, conflicts) s.
      if not (length conflicts == 0)
      then (ok (conflicting conflicts), s)
      else ended (landed tree s))

  ended-objects : (o : Outcome Store Hash) → (ended o).1.objects ≡ o.1.objects
  ended-objects (ok h, s) = refl
  ended-objects (err x, s) = refl

  ended_ok : (o : Outcome Store Hash) {h : Hash} → o.0 ≡ ok h → ended o ≡ (ok (merged_at h), o.1)
  ended_ok (ok h', s) e = ap (λ (z : Result Hash). (z, s) then_do (λ h s. (ok (merged_at h), s))) e
  ended_ok (err x, s) e = absurd cc

  Clean-concluded :
      (m : Outcome Store (Hash × List Conflict)) → Clean (concluded m).1.objects → Clean m.1.objects
  unfolding update_branch
  Clean-concluded (err x, s) clean = clean
  Clean-concluded (ok (tree, conflicts), s) clean = elim (Bool-cases (length conflicts == 0)) [
    | inr e ↦ rw e at clean
    | inl e ↦
        (subst Clean
          (ended-objects (landed tree s)
            ∙ land_commit-objects sha256 (update_branch zone branch ours) (branch_ref zone branch)
                ours (codes "merge") stamp (merge_commit tree) s (λ h z. refl))
          (rw e at clean)).3
  ]

  -- The merged tree shows every record set merged by the rules for one leaf, and the conflicts are
  -- those of the record sets on which the three zones clash. With conflicts they are returned;
  -- without, the branch is at a stored commit of the tree with both parents.
  pub record Joined (base : Hash) (s : Store) (out : Outcome Store MergeResult) : Type 0 where
    pub tree : Hash
    pub conflicts : List Conflict
    pub on_conflicts : length conflicts == 0 ≡ false → out.0 ≡ ok (conflicting conflicts)
    pub on_success :
        length conflicts == 0 ≡ true
        → (out.0 ≡ ok (merged_at (encode_commit sha256 (merge_commit tree)).0))
          × (get_branch out.1 zone branch ≡ ok (encode_commit sha256 (merge_commit tree)).0)
          × (get_object out.1 (encode_commit sha256 (merge_commit tree)).0
              ≡ ok (encode_commit sha256 (merge_commit tree)).1)
    pub extends : Extends s out.1
    pub shows :
        (q : Labels) (rrtype : Bytes)
        → view sha256 out.1 tree q rrtype
          ≡ (resolve_leaf
              (view sha256 s (tree_of s base) q rrtype)
              (view sha256 s (tree_of s ours) q rrtype)
              (view sha256 s (tree_of s theirs) q rrtype)).0
    pub reported :
        (c : Conflict)
        → In c conflicts
          ↔ Clash []
              (view sha256 s (tree_of s base))
              (view sha256 s (tree_of s ours))
              (view sha256 s (tree_of s theirs))
              c

  concluded-Joined :
      (base : Hash) (s : Store) (m : Outcome Store (Hash × List Conflict))
      → MergedView sha256 sha256_size depth (tree_of s base) (tree_of s ours) (tree_of s theirs) s m
      → held (branch_ref zone branch) m.1.refs ≡ ours
      → Clean (concluded m).1.objects
      → Joined base s (concluded m)
  unfolding update_branch
  concluded-Joined base s (err x, s') mv at clean = absurd (err_not_ok mv.result)
  concluded-Joined base s (ok (tree, conflicts), s') mv at clean =
      let same : tree ≡ mv.hash = ap (λ (p : Hash × List Conflict). p.0) (ok_injective mv.result) in
      let told =
        subst
          (λ (cs : List Conflict).
            (c : Conflict)
            → In c cs
              ↔ Clash [] (view sha256 s (tree_of s base)) (view sha256 s (tree_of s ours))
                  (view sha256 s (tree_of s theirs)) c)
          (sym (ap (λ (p : Hash × List Conflict). p.1) (ok_injective mv.result))) mv.reported in
      elim (Bool-cases (length conflicts == 0)) [
        | inr e ↦
            let eq : concluded (ok (tree, conflicts), s') ≡ (ok (conflicting conflicts), s') =
              rw e refl in
            subst (Joined base s) (sym eq) (record {
              tree = tree;
              conflicts = conflicts;
              on_conflicts = λ _. refl;
              on_success = λ f. absurd (ground (arith, e, f));
              extends = mv.extends;
              shows = λ q rrtype. ap (λ z. view sha256 s' z q rrtype) same ∙ mv.shows q rrtype;
              reported = told;
            })
        | inl e ↦
            let eq : concluded (ok (tree, conflicts), s') ≡ ended (landed tree s') = rw e refl in
            let clean' =
              subst (λ (out : Outcome Store MergeResult). Clean out.1.objects) eq clean in
            let lands =
              land_commit-Lands sha256 (update_branch zone branch ours) zone branch ours
                (codes "merge") stamp (merge_commit tree) s' (λ h z. refl) at
                (subst Clean (ended-objects (landed tree s')) clean') in
            let after = (landed tree s').1 in
            let stands = subst (λ h. IsTreeAt sha256 s' depth h) (sym same) mv.stands.0 in
            subst (Joined base s) (sym (eq ∙ ended_ok (landed tree s') lands.result)) (record {
              tree = tree;
              conflicts = conflicts;
              on_conflicts = λ f. absurd (ground (arith, e, f));
              on_success = λ _. (refl, lands.at_branch, lands.stored);
              extends = Extends-trans s s' after mv.extends lands.extends;
              shows = λ q rrtype.
                  view-Extends sha256 s' after depth tree q rrtype lands.extends stands
                  ∙ ap (λ z. view sha256 s' z q rrtype) same
                  ∙ mv.shows q rrtype;
              reported = told;
            })
      ]

  -- If the branch is at our commit, the trees of base, ours and theirs are stored zone trees whose
  -- height is at most the fuel, and the writes are clean (no two objects fell on one hash, none on
  -- the zero hash), then the three-way merge succeeds: its tree shows at every owner and type what
  -- the rules for one leaf make of the three zones; if record sets clash, exactly their conflicts are
  -- returned; if none does, the branch is at a new stored commit of that tree whose parents are ours
  -- and theirs; and no stored object is lost.
  pub merge_three_way-Joined :
      (base : Hash) (s : Store)
      → Stands sha256 s depth (tree_of s base)
      → Stands sha256 s depth (tree_of s ours)
      → Stands sha256 s depth (tree_of s theirs)
      → held (branch_ref zone branch) s.refs ≡ ours
      → Clean
          (merge_three_way sha256 depth zone branch ours theirs_name theirs who msg now stamp base
            s).1.objects
      → Joined base s (
          merge_three_way sha256 depth zone branch ours theirs_name theirs who msg now stamp base s)
  unfolding merge_three_way
  merge_three_way-Joined base s sb so st at clean =
      let m = merge_trees sha256 depth (tree_of s base) (tree_of s ours) (tree_of s theirs) s in
      concluded-Joined base s m
        (merge_trees-MergedView sha256 sha256_size depth (tree_of s base) (tree_of s ours)
          (tree_of s theirs) s sb so st (Clean-concluded m clean))
        (ap (held (branch_ref zone branch)) (
            merge_trees-relates refs_growth sha256 depth (tree_of s base) (tree_of s ours)
              (tree_of s theirs) s)
          ∙ at)
        clean
