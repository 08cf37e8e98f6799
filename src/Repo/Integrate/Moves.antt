-- ===== src/Repo/Integrate/Moves.antt =====
-- Revert and reset move the branch of HEAD by a compare-and-set, or move no ref.
use zonegit.Base.{
  ℕ, ◌≡◌, refl, ap, ◌∙◌, false, not, List, [], ◌∷◌, map, length, Bytes, bytes_eq, bytes_eq_iff,
  if◌then◌else◌, ◌==◌, Result, ok, err, Error, Outcome, ◌>>=◌, ◌then_do◌, with_do, codes, assign,
  inl, inr, Bool-cases, bind_ok, ok_injective, ◌⊎◌, arith,
}
use zonegit.Store.Hash.{Hash, is_zero}
use zonegit.Store.MemStore.{Store, cas_ref, append_reflog}
use zonegit.Store.MemStore.Growth.{refs_growth}
use zonegit.Object.Commit.{Commit, Identity, Time}
use zonegit.History.Diff.{Change, diff}
use zonegit.Refs.{read_head, branch_ref, update_branch, record_move}
use zonegit.Refs.Resolve.{resolve}
use zonegit.Refs.Swaps.{Swaps, cas_ref-Swaps, then_do-Swaps, held}
use zonegit.Repo.{load_commit}
use zonegit.Repo.Staging.{Repo, on_store}
use zonegit.Repo.Committing.{apply_edits, plain_commit}
use zonegit.Repo.Committing.Edits.{apply_edits-relates}
use zonegit.Repo.Committing.Moves.{
  repo_refs, MovesHead, Commits-MovesHead, MovesHead-with_do, MovesHead-guard, land_commit-Swaps,
  move_branch-cas_ref,
}
use zonegit.Repo.Integrate.{
  first_parent_tree, revert_message, revert_on, revert_reads, revert, inverse_edit, reset_hard,
}

pub none_staged : {A : Type 0} (xs : List A) → not (length xs == 0) ≡ false → xs ≡ []
none_staged [] e = refl
none_staged (x ∷ xs) e = absurd (ground (arith, e))

on_store-MovesHead :
    (r : Repo) (zone branch : Bytes) (parent : Hash) (f : Store → Outcome Store Hash)
    → not (length r.staging == 0) ≡ false
    → read_head r.storage ≡ ok (zone, branch, parent)
    → Swaps (branch_ref zone branch) parent r.storage.refs (f r.storage).0 (f r.storage).1.refs
    → MovesHead r (on_store f r)
on_store-MovesHead r zone branch parent f e head g =
    Commits-MovesHead r zone branch parent (on_store f r) head (g, λ h _. none_staged r.staging e)

-- An error, and no ref has moved; or the ref-ish resolves to the commit returned, and the branch of
-- HEAD is there.
abbrev pub Resets : Bytes → Repo → Outcome Repo Hash → Type 0
Resets refish r out =
    ((e : Error) × (out.0 ≡ err e) × (repo_refs out.1 ≡ repo_refs r))
    ⊎ ((zone branch : Bytes) × (head target : Hash) × (resolve r.storage refish ≡ ok target)
        × (read_head r.storage ≡ ok (zone, branch, head))
        × (out.0 ≡ ok target)
        × (out.1.staging ≡ [])
        × (((head ≡ target) × (repo_refs out.1 ≡ repo_refs r))
            ⊎ ((held (branch_ref zone branch) (repo_refs r) ≡ head)
                × (repo_refs out.1 ≡ assign (branch_ref zone branch) target (repo_refs r)))))

Resets-with_do :
    {A : Type 0} (refish : Bytes) (r : Repo) (m : Result A) (f : A → Outcome Repo Hash)
    → ((a : A) → m ≡ ok a → Resets refish r (f a))
    → Resets refish r (with_do r m f)
Resets-with_do refish r (ok a) f g = g a refl
Resets-with_do refish r (err e) f g = inl (e, refl, refl)

Resets-moved :
    (refish : Bytes) (r : Repo) (zone branch : Bytes) (head target : Hash)
    (moved : Outcome Store (Unit {0})) (f : Unit {0} → Repo → Outcome Repo Hash)
    → resolve r.storage refish ≡ ok target
    → read_head r.storage ≡ ok (zone, branch, head)
    → Swaps (branch_ref zone branch) head r.storage.refs (moved.0 >>= λ _. ok target) moved.1.refs
    → ((a : Unit {0}) (r' : Repo)
        → ((f a r').0 ≡ ok target)
          × ((f a r').1.staging ≡ [])
          × (repo_refs (f a r').1 ≡ repo_refs r'))
    → Resets refish r (on_store (λ _. moved) r then_do f)
Resets-moved refish r zone branch head target (err x, s) f e g swaps k = inl (x, refl, swaps)
Resets-moved refish r zone branch head target (ok a, s) f e g swaps k =
    let (done, cleared, kept) = k a (record r { storage = s }) in
    inr (zone, branch, head, target, e, g, done, cleared, inr (swaps.0, kept ∙ swaps.1))

-- `reset_hard` either returns an error and moves no ref; or the ref-ish resolves to the commit
-- returned, HEAD can be read, no staged edit is left, and either HEAD was at that commit and no ref
-- has moved, or the branch of HEAD was still at the commit that HEAD gives and is now at the commit
-- returned, all other refs being kept.
pub reset_hard-Resets :
    (refish who : Bytes) (stamp : ℕ) (r : Repo) → Resets refish r (reset_hard refish who stamp r)
unfolding reset_hard record_move append_reflog
reset_hard-Resets refish who stamp r =
    Resets-with_do refish r (resolve r.storage refish) _ (λ target e.
      Resets-with_do refish r (read_head r.storage) _ (λ (zone, branch, head) g.
        elim (Bool-cases (bytes_eq head target)) [
          | inl same ↦ rw same (
              inr (
                zone,
                branch,
                head,
                target,
                e,
                g,
                refl,
                refl,
                inl ((bytes_eq_iff head target).0 same, refl),
              ))
          | inr apart ↦
              rw (apart, move_branch-cas_ref zone branch head target r.storage)
                (Resets-moved refish r zone branch head target
                  (cas_ref (branch_ref zone branch) head target r.storage) _ e g
                  (cas_ref-Swaps (branch_ref zone branch) head target r.storage)
                  (λ a r'. (refl, refl, refl)))
        ]))

module _ (sha256 : Bytes → Hash) where
  revert_reads-read_head :
      (depth : ℕ) (refish : Bytes) (s : Store)
      {out : Hash × Commit × Bytes × Bytes × Hash × Hash × List Change}
      → revert_reads sha256 depth refish s ≡ ok out
      → read_head s ≡ ok (out.2, out.3, out.4)
  unfolding revert_reads
  revert_reads-read_head depth refish s {out} e =
      let (target, e1, f1) = bind_ok (resolve s refish) _ e in
      let (tc, e2, f2) = bind_ok (load_commit s target) _ f1 in
      let (parent, e3, f3) = bind_ok (first_parent_tree s tc.parents) _ f2 in
      let (head, e4, f4) = bind_ok (read_head s) _ f3 in
      let (_, e5, f5) = bind_ok (if is_zero head.2 then err Error.failed else ok tt) _ f4 in
      let (hc, e6, f6) = bind_ok (load_commit s head.2) _ f5 in
      let (changes, e7, f7) = bind_ok (diff sha256 s depth parent tc.tree) _ f6 in
      let (_, e8, f8) = bind_ok (if length changes == 0 then err Error.failed else ok tt) _ f7 in
      e4
      ∙ ap (λ (z : Hash × Commit × Bytes × Bytes × Hash × Hash × List Change). ok (z.2, z.3, z.4))
          (ok_injective f8)

  revert_on-Swaps :
      (zone branch : Bytes) (head tree : Hash) (changes : List Change) (who : Identity)
      (msg : Bytes) (now : Time) (stamp : ℕ) (s : Store)
      → Swaps
          (branch_ref zone branch)
          head
          s.refs
          (revert_on sha256 zone branch head tree changes who msg now stamp s).0
          (revert_on sha256 zone branch head tree changes who msg now stamp s).1.refs
  unfolding revert_on update_branch
  revert_on-Swaps zone branch head tree changes who msg now stamp s =
      then_do-Swaps (λ (z : Store). z.refs) (branch_ref zone branch) head s
        (apply_edits sha256 (map inverse_edit changes) tree s) _
        (apply_edits-relates refs_growth sha256 (map inverse_edit changes) tree s)
        (λ tree' s'. elim (Bool-cases (bytes_eq tree' tree)) [
          | inl e ↦ rw e refl
          | inr e ↦ rw e (
              land_commit-Swaps sha256 (update_branch zone branch head) (branch_ref zone branch)
                head (codes "revert") stamp (plain_commit tree' (head ∷ []) who msg now) s'
                (λ h z. refl))
        ])

  -- `revert` either returns an error and moves no ref; or HEAD can be read, the branch of HEAD was
  -- still at the commit that HEAD gives and is now at the commit returned, all other refs are kept,
  -- and there is no staged edit.
  pub revert-MovesHead :
      (depth : ℕ) (refish : Bytes) (who : Identity) (msg : Bytes) (now : Time) (stamp : ℕ)
      (r : Repo)
      → MovesHead r (revert sha256 depth refish who msg now stamp r)
  unfolding revert
  revert-MovesHead depth refish who msg now stamp r =
      MovesHead-guard r (not (length r.staging == 0)) _ (λ e.
        MovesHead-with_do r (revert_reads sha256 depth refish r.storage) _ (λ reads g.
          let text = revert_message reads.1.message reads.0 msg in
          on_store-MovesHead r reads.2 reads.3 reads.4
            (revert_on sha256 reads.2 reads.3 reads.4 reads.5 reads.6 who text now stamp) e
            (revert_reads-read_head depth refish r.storage g)
            (revert_on-Swaps reads.2 reads.3 reads.4 reads.5 reads.6 who text now stamp r.storage)))
