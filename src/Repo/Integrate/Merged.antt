-- ===== src/Repo/Integrate/Merged.antt =====
-- A merge moves the branch of HEAD by a compare-and-set, or moves no ref.
use zonegit.Base.{
  ℕ, ◌≡◌, ◌≢◌, refl, sym, Bool, true, false, not, [], ◌∷◌, length, Bytes, bytes_eq, if◌then◌else◌,
  ◌==◌, Result, ok, err, Error, Outcome, ◌>>=◌, ◌then_do◌, with_do, codes, assign, inl, inr,
  Bool-cases, ◌⊎◌, arith,
}
use mathlib.Core.Path.{subst}
use zonegit.Store.Hash.{Hash, zero_hash, is_zero, is_zero_iff}
use zonegit.Store.MemStore.{Store, cas_ref, append_reflog}
use zonegit.Store.MemStore.Growth.{refs_growth}
use zonegit.Object.Commit.{Identity, Time, identity_string}
use zonegit.Merge.{merge_trees}
use zonegit.Merge.Grows.{merge_trees-relates}
use zonegit.Refs.{
  read_head, branch_ref, create_branch, update_branch, get_branch, record_move, trim_prefix,
  branch_prefix,
}
use zonegit.Refs.Swaps.{RefMap, Swaps, cas_ref-Swaps, held}
use zonegit.Repo.{is_ancestor, merge_base}
use zonegit.Repo.Staging.{Repo, on_store}
use zonegit.Repo.Committing.{land_commit, plain_commit}
use zonegit.Repo.Committing.Moves.{repo_refs, land_commit-Swaps}
use zonegit.Repo.Integrate.{
  MergeResult, merged_at, forward, tree_of, merge_three_way, merge_onto, merge_into, merge,
  merge_message,
}
use zonegit.Repo.Integrate.Moves.{none_staged}

-- A merge returns an error and moves no ref; or it is up to date or has conflicts, there is no
-- commit and no ref has moved; or there are no conflicts, and the one ref moves from `ours` to the
-- commit.
abbrev pub Merged : Bytes → Hash → RefMap → Result MergeResult → RefMap → Type 0
Merged ref ours before (err e) after = after ≡ before
Merged ref ours before (ok m) after =
    ((after ≡ before)
      × (m.commit ≡ zero_hash)
      × ((m.already_up_to_date ≡ true) ⊎ (length m.conflicts ≢ 0)))
    ⊎ ((held ref before ≡ ours)
        × (after ≡ assign ref m.commit before)
        × (m.already_up_to_date ≡ false)
        × (m.conflicts ≡ []))

Merged-with_do :
    {A : Type 0} (ref : Bytes) (ours : Hash) (s : Store) (m : Result A)
    (f : A → Outcome Store MergeResult)
    → ((a : A) → Merged ref ours s.refs (f a).0 (f a).1.refs)
    → Merged ref ours s.refs (with_do s m f).0 (with_do s m f).1.refs
Merged-with_do ref ours s (ok a) f g = g a
Merged-with_do ref ours s (err e) f g = refl

Merged-if :
    (ref : Bytes) (ours : Hash) (s : Store) (b : Bool) (taken other : Outcome Store MergeResult)
    → (b ≡ true → Merged ref ours s.refs taken.0 taken.1.refs)
    → Merged ref ours s.refs other.0 other.1.refs
    → Merged ref ours s.refs (if b then taken else other).0 (if b then taken else other).1.refs
Merged-if ref ours s true taken other f g = f refl
Merged-if ref ours s false taken other f g = g

Merged-then_do :
    {A : Type 0} (ref : Bytes) (ours : Hash) (s : Store) (m : Outcome Store A)
    (f : A → Store → Outcome Store MergeResult)
    → m.1.refs ≡ s.refs
    → ((a : A) (s' : Store) → Merged ref ours s'.refs (f a s').0 (f a s').1.refs)
    → Merged ref ours s.refs (m then_do f).0 (m then_do f).1.refs
Merged-then_do ref ours s (ok a, s') f e g =
    subst (λ before. Merged ref ours before (f a s').0 (f a s').1.refs) e (g a s')
Merged-then_do ref ours s (err x, s') f e g = e

Merged-landed :
    (ref : Bytes) (ours : Hash) (s : Store) (m : Outcome Store Hash)
    → Swaps ref ours s.refs m.0 m.1.refs
    → Merged ref ours s.refs
        (m then_do (λ h s'. (ok (merged_at h), s'))).0
        (m then_do (λ h s'. (ok (merged_at h), s'))).1.refs
Merged-landed ref ours s (ok h, s') g = inr (g.0, g.1, refl, refl)
Merged-landed ref ours s (err x, s') g = g

forward-Merged :
    (ref : Bytes) (ours theirs : Hash) (who theirs_name : Bytes) (stamp : ℕ) (s : Store)
    (m : Outcome Store (Unit {0}))
    → Swaps ref ours s.refs (m.0 >>= λ _. ok theirs) m.1.refs
    → Merged ref ours s.refs
        (forward (λ _. m) ref ours theirs who theirs_name stamp s).0
        (forward (λ _. m) ref ours theirs who theirs_name stamp s).1.refs
unfolding forward record_move append_reflog
forward-Merged ref ours theirs who theirs_name stamp s (ok a, s') g = inr (g.0, g.1, refl, refl)
forward-Merged ref ours theirs who theirs_name stamp s (err x, s') g = g

module _ (sha256 : Bytes → Hash) where
  module _ (depth : ℕ) (zone branch : Bytes) (ours : Hash) (theirs_name : Bytes) (theirs : Hash)
      (who : Identity) (msg : Bytes) (now : Time) (stamp : ℕ) where
    three_way-Merged :
        (base : Hash) (s : Store)
        → Merged
            (branch_ref zone branch)
            ours
            s.refs
            (merge_three_way sha256 depth zone branch ours theirs_name theirs who msg now stamp base
              s).0
            (merge_three_way sha256 depth zone branch ours theirs_name theirs who msg now stamp base
              s).1.refs
    unfolding merge_three_way update_branch
    three_way-Merged base s =
        let text = merge_message theirs_name branch msg in
        Merged-then_do (branch_ref zone branch) ours s
          (merge_trees sha256 depth (tree_of s base) (tree_of s ours) (tree_of s theirs) s) _
          (merge_trees-relates refs_growth sha256 depth (tree_of s base) (tree_of s ours)
            (tree_of s theirs) s)
          (λ (tree, conflicts) s'. elim (Bool-cases (length conflicts == 0)) [
            | inl e ↦ rw e (
                let c = plain_commit tree (ours ∷ theirs ∷ []) who text now in
                Merged-landed (branch_ref zone branch) ours s'
                  (land_commit sha256 (update_branch zone branch ours) (branch_ref zone branch) ours
                    (codes "merge") stamp c s')
                  (land_commit-Swaps sha256 (update_branch zone branch ours)
                    (branch_ref zone branch) ours (codes "merge") stamp c s' (λ h z. refl)))
            | inr e ↦ rw e (inl (refl, refl, inr (ground (arith, e))))
          ])

    onto-Merged :
        (commits : ℕ) (s : Store)
        → Merged
            (branch_ref zone branch)
            ours
            s.refs
            (merge_onto sha256 commits depth zone branch ours theirs_name theirs who msg now stamp
              s).0
            (merge_onto sha256 commits depth zone branch ours theirs_name theirs who msg now stamp
              s).1.refs
    unfolding merge_onto update_branch forward
    onto-Merged commits s =
        Merged-with_do (branch_ref zone branch) ours s (is_ancestor s commits theirs ours) _
          (λ behind.
            Merged-if (branch_ref zone branch) ours s behind _ _ (λ _. inl (refl, refl, inl refl))
              (Merged-with_do (branch_ref zone branch) ours s (is_ancestor s commits ours theirs) _
                (λ ahead.
                  Merged-if (branch_ref zone branch) ours s ahead _ _
                    (λ _.
                      forward-Merged (branch_ref zone branch) ours theirs (identity_string who)
                        theirs_name stamp s (update_branch zone branch ours theirs s)
                        (cas_ref-Swaps (branch_ref zone branch) ours theirs s))
                    (Merged-with_do (branch_ref zone branch) ours s
                      (merge_base s commits ours theirs) _ (λ base. three_way-Merged base s)))))

    into-Merged :
        (commits : ℕ) (s : Store)
        → Merged
            (branch_ref zone branch)
            ours
            s.refs
            (merge_into sha256 commits depth zone branch ours theirs_name theirs who msg now stamp
              s).0
            (merge_into sha256 commits depth zone branch ours theirs_name theirs who msg now stamp
              s).1.refs
    unfolding merge_into create_branch forward
    into-Merged commits s =
        Merged-if (branch_ref zone branch) ours s (is_zero ours) _ _
          (λ e.
            forward-Merged (branch_ref zone branch) ours theirs (identity_string who) theirs_name
              stamp s (create_branch zone branch theirs s)
              (subst
                (λ old.
                  Swaps (branch_ref zone branch) old s.refs
                    ((cas_ref (branch_ref zone branch) zero_hash theirs s).0 >>= λ _. ok theirs)
                    (cas_ref (branch_ref zone branch) zero_hash theirs s).1.refs)
                (sym ((is_zero_iff ours).0 e))
                (cas_ref-Swaps (branch_ref zone branch) zero_hash theirs s)))
          (onto-Merged commits s)

-- An error, and no ref has moved; or nothing is staged, HEAD can be read, and its branch is merged.
abbrev pub MergesHead : Repo → Outcome Repo MergeResult → Type 0
MergesHead r out =
    ((e : Error) × (out.0 ≡ err e) × (repo_refs out.1 ≡ repo_refs r))
    ⊎ ((zone branch : Bytes) × (ours : Hash) × (m : MergeResult) × (read_head r.storage
          ≡ ok (zone, branch, ours))
        × (out.0 ≡ ok m)
        × (r.staging ≡ [])
        × Merged (branch_ref zone branch) ours (repo_refs r) (ok m) (repo_refs out.1))

MergesHead-with_do :
    {A : Type 0} (r : Repo) (m : Result A) (f : A → Outcome Repo MergeResult)
    → ((a : A) → m ≡ ok a → MergesHead r (f a))
    → MergesHead r (with_do r m f)
MergesHead-with_do r (ok a) f g = g a refl
MergesHead-with_do r (err e) f g = inl (e, refl, refl)

MergesHead-guard :
    (r : Repo) (stop : Bool) (out : Outcome Repo MergeResult)
    → (stop ≡ false → MergesHead r out)
    → MergesHead r (if stop then (err Error.failed, r) else out)
MergesHead-guard r true out g = inl (Error.failed, refl, refl)
MergesHead-guard r false out g = g refl

on_store-MergesHead :
    (r : Repo) (zone branch : Bytes) (ours : Hash) (m : Outcome Store MergeResult)
    → r.staging ≡ []
    → read_head r.storage ≡ ok (zone, branch, ours)
    → Merged (branch_ref zone branch) ours r.storage.refs m.0 m.1.refs
    → MergesHead r (on_store (λ _. m) r)
on_store-MergesHead r zone branch ours (ok m, s) e head g =
    inr (zone, branch, ours, m, head, refl, e, g)
on_store-MergesHead r zone branch ours (err x, s) e head g = inl (x, refl, g)

-- `merge` either returns an error and moves no ref; or nothing is staged and HEAD can be read, and
-- then the branch was up to date or there are conflicts, and no ref has moved; or there are no
-- conflicts, the branch of HEAD was still at the commit that HEAD gives (at none, if that is zero)
-- and is now at the commit returned, and all other refs are kept.
pub merge-MergesHead :
    (sha256 : Bytes → Hash) (commits depth : ℕ) (theirs_branch : Bytes) (who : Identity)
    (msg : Bytes) (now : Time) (stamp : ℕ) (r : Repo)
    → MergesHead r (merge sha256 commits depth theirs_branch who msg now stamp r)
unfolding merge
merge-MergesHead sha256 commits depth theirs_branch who msg now stamp r =
    let theirs_name = trim_prefix theirs_branch branch_prefix in
    MergesHead-guard r (not (length r.staging == 0)) _ (λ e.
      MergesHead-with_do r (read_head r.storage) _ (λ (zone, branch, ours) head.
        MergesHead-guard r (bytes_eq theirs_name branch) _ (λ _.
          MergesHead-with_do r (get_branch r.storage zone theirs_name) _ (λ theirs _.
            on_store-MergesHead r zone branch ours
              (merge_into sha256 commits depth zone branch ours theirs_name theirs who msg now stamp
                r.storage)
              (none_staged r.staging e) head
              (into-Merged sha256 depth zone branch ours theirs_name theirs who msg now stamp
                commits r.storage)))))
