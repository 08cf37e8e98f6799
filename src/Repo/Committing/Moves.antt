-- ===== src/Repo/Committing/Moves.antt =====
-- A commit moves the branch of HEAD by a compare-and-set, or fails and moves no ref.
use zonegit.Base.{
  ℕ, ◌≡◌, refl, sym, ap, Bool, true, false, ◌||◌, [], ◌∷◌, map, length, Bytes, if◌then◌else◌, ◌==◌,
  Result, Result-cases, ok, err, Outcome, ◌then_do◌, with_do, codes, assign, inl, inr, Bool-cases,
  Error, ◌⊎◌,
}
use zonegit.Store.Hash.{Hash, is_zero, is_zero_iff}
use zonegit.Store.MemStore.{Store, cas_ref, put_object, append_reflog}
use zonegit.Store.MemStore.Growth.{refs_growth}
use zonegit.Object.Commit.{Commit, Identity, Time, encode_commit}
use zonegit.Object.TreeOps.{walk_tree}
use zonegit.Refs.{read_head, branch_ref, create_branch, update_branch, record_move}
use zonegit.Refs.Swaps.{
  RefMap, Swaps, cas_ref-Swaps, then_do-refs, then_do-Swaps, Swaps-then_do, held,
}
use zonegit.Zone.{Dns}
use zonegit.History.{is_not_found}
use zonegit.Repo.Staging.{Repo, on_store, sorted_keys}
use zonegit.Repo.Committing.{
  apply_edits, land_commit, move_branch, maybe_bump_soa, stage_bumped, bumped_payload, staged_edit,
  commit_on, commit, parent_tree, plain_commit, stages_soa,
}
use zonegit.Repo.Committing.Edits.{apply_edits-relates}

abbrev pub repo_refs : Repo → RefMap
repo_refs r = r.storage.refs

pub move_branch-cas_ref :
    (zone branch : Bytes) (old new : Hash) (s : Store)
    → move_branch zone branch old new s ≡ cas_ref (branch_ref zone branch) old new s
unfolding move_branch create_branch update_branch
move_branch-cas_ref zone branch old new s = elim (Bool-cases (is_zero old)) [
  | inl z ↦ rw z (ap (λ o. cas_ref (branch_ref zone branch) o new s) (sym ((is_zero_iff old).0 z)))
  | inr z ↦ rw z refl
]

-- The branch is moved to the new commit, and the staged edits are gone; or there is an error.
abbrev pub Commits : Bytes → Hash → Repo → Outcome Repo Hash → Type 0
Commits ref parent r out =
    Swaps ref parent (repo_refs r) out.0 (repo_refs out.1)
    × ((h : Hash) → out.0 ≡ ok h → out.1.staging ≡ [])

clears :
    (m : Outcome Repo Hash) (h : Hash)
    → (m then_do (λ h' r'. (ok h', record r' { staging = [] }))).0 ≡ ok h
    → (m then_do (λ h' r'. (ok h', record r' { staging = [] }))).1.staging ≡ []
clears (ok h', r') h e = refl
clears (err x, r') h e = absurd cc

Swaps-finish :
    (ref : Bytes) (old : Hash) (r : Repo) (m : Outcome Repo Hash)
    → Swaps ref old (repo_refs r) m.0 (repo_refs m.1)
    → Swaps ref old
        (repo_refs r)
        (m then_do (λ h r'. (ok h, record r' { staging = [] }))).0
        (repo_refs (m then_do (λ h r'. (ok h, record r' { staging = [] }))).1)
Swaps-finish ref old r (ok h, r') g = g
Swaps-finish ref old r (err x, r') g = g

-- Either an error, and no ref has moved; or HEAD can be read, its branch was at the commit that HEAD
-- gives (at none, if that is zero) and is at the commit returned, all other refs are kept, and no
-- staged edit is left.
abbrev pub MovesHead : Repo → Outcome Repo Hash → Type 0
MovesHead r out =
    ((e : Error) × (out.0 ≡ err e) × (repo_refs out.1 ≡ repo_refs r))
    ⊎ ((zone branch : Bytes) × (parent h : Hash) × (read_head r.storage ≡ ok (zone, branch, parent))
        × (out.0 ≡ ok h)
        × (held (branch_ref zone branch) (repo_refs r) ≡ parent)
        × (repo_refs out.1 ≡ assign (branch_ref zone branch) h (repo_refs r))
        × (out.1.staging ≡ []))

pub Commits-MovesHead :
    (r : Repo) (zone branch : Bytes) (parent : Hash) (out : Outcome Repo Hash)
    → read_head r.storage ≡ ok (zone, branch, parent)
    → Commits (branch_ref zone branch) parent r out
    → MovesHead r out
Commits-MovesHead r zone branch parent (err e, r') head g = inl (e, refl, g.0)
Commits-MovesHead r zone branch parent (ok h, r') head g =
    inr (zone, branch, parent, h, head, refl, g.0.0, g.0.1, g.1 h refl)

pub MovesHead-with_do :
    {A : Type 0} (r : Repo) (m : Result A) (f : A → Outcome Repo Hash)
    → ((a : A) → m ≡ ok a → MovesHead r (f a))
    → MovesHead r (with_do r m f)
MovesHead-with_do r (ok a) f g = g a refl
MovesHead-with_do r (err e) f g = inl (e, refl, refl)

-- A guard that fails returns an error.
pub MovesHead-guard :
    (r : Repo) (stop : Bool) (out : Outcome Repo Hash)
    → (stop ≡ false → MovesHead r out)
    → MovesHead r (if stop then (err Error.failed, r) else out)
MovesHead-guard r true out g = inl (Error.failed, refl, refl)
MovesHead-guard r false out g = g refl

module _ (sha256 : Bytes → Hash) where
  pub land_commit-Swaps :
      (move : Hash → Store → Outcome Store (Unit {0})) (ref : Bytes) (old : Hash) (op : Bytes)
      (stamp : ℕ) (c : Commit) (s : Store)
      → ((h : Hash) (s' : Store) → move h s' ≡ cas_ref ref old h s')
      → Swaps ref old s.refs
          (land_commit sha256 move ref old op stamp c s).0
          (land_commit sha256 move ref old op stamp c s).1.refs
  unfolding land_commit record_move put_object append_reflog
  land_commit-Swaps move ref old op stamp c s is_cas =
      let (h, obj) = encode_commit sha256 c in
      let s' = put_object h obj s in
      rw (is_cas h s') (
        Swaps-then_do (λ (z : Store). z.refs) ref old h s (cas_ref ref old h s') _
          (cas_ref-Swaps ref old h s') (λ a z. (refl, refl)))

  module _ (dns : Dns) where
    pub maybe_bump_soa-refs :
        (tree : Hash) (r : Repo) → repo_refs (maybe_bump_soa sha256 dns tree r).1 ≡ repo_refs r
    unfolding maybe_bump_soa stage_bumped put_object
    maybe_bump_soa-refs tree r =
        elim (Bool-cases (is_zero tree || stages_soa r.staging || (length r.staging == 0))) [
          | inl e ↦ rw e refl
          | inr e ↦ rw e (elim (Result-cases (walk_tree sha256 r.storage tree [] (codes "SOA"))) [
            | inl (blob, w) ↦ rw w (elim (Result-cases (bumped_payload dns r.storage blob)) [
              | inl (payload, p) ↦ rw p refl
              | inr (x, p) ↦ rw p refl
            ])
            | inr (x, w) ↦
                rw w (elim (Bool-cases (is_not_found x)) [ inl n ↦ rw n refl | inr n ↦ rw n refl ])
          ])
        ]

    commit_on-Commits :
        (who : Identity) (msg : Bytes) (now : Time) (stamp : ℕ) (zone branch : Bytes)
        (parent tree : Hash) (r : Repo)
        → Commits
            (branch_ref zone branch)
            parent
            r
            (commit_on sha256 dns who msg now stamp zone branch parent tree r)
    unfolding commit_on
    commit_on-Commits who msg now stamp zone branch parent tree r =
        let ref = branch_ref zone branch in
        let bumped = maybe_bump_soa sha256 dns tree r in
        let applied = bumped then_do (λ _ r'.
          on_store (apply_edits sha256 (map staged_edit (sorted_keys r'.staging)) tree) r') in
        let made : Hash → Commit =
          λ tree'. plain_commit tree' (if is_zero parent then [] else (parent ∷ [])) who msg now in
        let land : Hash → Repo → Outcome Repo Hash = λ tree'. on_store (
          land_commit sha256 (move_branch zone branch parent) ref parent (codes "commit") stamp
            (made tree')) in
        let landed = applied then_do land in
        let refs_kept =
          then_do-refs repo_refs r bumped _ (maybe_bump_soa-refs tree r)
            (λ _ r'. apply_edits-relates refs_growth sha256 _ tree r'.storage) in
        (
          Swaps-finish ref parent r landed (
              then_do-Swaps repo_refs ref parent r applied land refs_kept (λ tree' r'.
                land_commit-Swaps (move_branch zone branch parent) ref parent (codes "commit") stamp
                  (made tree') r'.storage (λ h s'. move_branch-cas_ref zone branch parent h s'))),
          clears landed,
        )

    -- `commit` either returns an error and moves no ref; or HEAD can be read, the branch of HEAD was
    -- still at the commit that HEAD gives (at none, if that is zero) and is now at the commit
    -- returned, all other refs are kept, and no staged edit is left.
    pub commit-MovesHead :
        (who : Identity) (msg : Bytes) (now : Time) (stamp : ℕ) (r : Repo)
        → MovesHead r (commit sha256 dns who msg now stamp r)
    unfolding commit
    commit-MovesHead who msg now stamp r = MovesHead-guard r (length r.staging == 0) _ (λ _.
        MovesHead-with_do r (read_head r.storage) _ (λ head e.
          MovesHead-with_do r (parent_tree r.storage head.2) _ (λ tree _.
            Commits-MovesHead r head.0 head.1 head.2
              (commit_on sha256 dns who msg now stamp head.0 head.1 head.2 tree r) e
              (commit_on-Commits who msg now stamp head.0 head.1 head.2 tree r))))
