-- ===== src/Repo/Committing/Landed.antt =====
-- A commit is written and the branch is moved to it, if the branch is where it is expected.
use zonegit.Base.{
  bytes_eq_refl, assign, lookup-assign, sym, ℕ, ◌≡◌, refl, ap, ◌∙◌, arith, false, ◌∷◌, Bytes,
  Option-cases, ok, err, Outcome, ◌then_do◌, lookup, inl, inr,
}
use zonegit.Store.Hash.{Hash, is_zero}
use zonegit.Store.MemStore.{Store, cas_ref, put_object, append_reflog, get_ref, get_object}
use zonegit.Store.MemStore.Refs.{cas_ref_iff, Expects}
use zonegit.Object.Commit.{Commit, encode_commit}
use zonegit.Refs.{record_move, get_branch, branch_ref}
use zonegit.Refs.Swaps.{held, Swaps}
use zonegit.Object.TreeOps.Stored.{Clean, Extends, Extends-put_object, get_object-put_object}
use zonegit.Repo.Committing.{land_commit}
use zonegit.Repo.Committing.Moves.{land_commit-Swaps}
use mathlib.Core.Path.{subst}

held-Expects : (ref : Bytes) (old : Hash) (s : Store) → held ref s.refs ≡ old → Expects s ref old
unfolding get_ref held
held-Expects ref old s e = elim (Option-cases (lookup ref s.refs)) [
  | inl f ↦ inr (f, ground (arith, e, f))
  | inr (h, f) ↦ inl (ground (arith, e, f))
]

then_ok :
    {A : Type 0} (m : Outcome Store (Unit {0})) (a : A) (f : Store → Store)
    → m.0 ≡ ok tt
    → (m then_do (λ _ s. (ok a, f s))).0 ≡ ok a
then_ok (ok x, s) a f e = refl
then_ok (err x, s) a f e = absurd cc

then_objects :
    {A : Type 0} (m : Outcome Store (Unit {0})) (a : A) (f : Store → Store)
    → ((s : Store) → (f s).objects ≡ s.objects)
    → (m then_do (λ _ s. (ok a, f s))).1.objects ≡ m.1.objects
then_objects (ok x, s) a f e = e s
then_objects (err x, s) a f e = refl

cas_ref-objects :
    (ref : Bytes) (old new : Hash) (s : Store) → (cas_ref ref old new s).1.objects ≡ s.objects
unfolding cas_ref
cas_ref-objects ref old new s = elim (Option-cases (lookup ref s.refs)) [
  | inl e ↦ ground (arith, e)
  | inr (h, e) ↦ ground (arith, e)
]

pub same_objects :
    (s s' : Store) (h : Hash) → s.objects ≡ s'.objects → get_object s' h ≡ get_object s h
unfolding get_object
same_objects s s' h e = rw e refl

pub get_branch-assign :
    (zone branch : Bytes) (h : Hash) (s s' : Store)
    → s'.refs ≡ assign (branch_ref zone branch) h s.refs
    → get_branch s' zone branch ≡ ok h
unfolding get_branch get_ref
get_branch-assign zone branch h s s' e =
    let ref = branch_ref zone branch in
    ground (arith, ap (lookup ref) e, lookup-assign ref ref h s.refs, bytes_eq_refl ref)

-- The outcome of a commit that landed on a branch.
pub record Lands (sha256 : Bytes → Hash) (zone branch : Bytes) (c : Commit) (s : Store)
    (out : Outcome Store Hash) : Type 0 where
  pub result : out.0 ≡ ok (encode_commit sha256 c).0
  pub at_branch : get_branch out.1 zone branch ≡ ok (encode_commit sha256 c).0
  pub stored : get_object out.1 (encode_commit sha256 c).0 ≡ ok (encode_commit sha256 c).1
  pub extends : Extends s out.1

module _ (sha256 : Bytes → Hash) where
  module _ (move : Hash → Store → Outcome Store (Unit {0})) (ref : Bytes) (old : Hash) (op : Bytes)
      (stamp : ℕ) (c : Commit) (s : Store)
      (is_cas : (h : Hash) (s' : Store) → move h s' ≡ cas_ref ref old h s') where
    pub land_commit-objects :
        (land_commit sha256 move ref old op stamp c s).1.objects
        ≡ ((encode_commit sha256 c).0, (encode_commit sha256 c).1) ∷ s.objects
    unfolding land_commit record_move append_reflog put_object
    land_commit-objects =
        let (h, obj) = encode_commit sha256 c in
        let s' = put_object h obj s in
        then_objects (move h s') h _ (λ z. refl)
        ∙ ap (λ (m : Outcome Store (Unit {0})). m.1.objects) (is_cas h s')
        ∙ cas_ref-objects ref old h s'

    pub land_commit_ok :
        held ref s.refs ≡ old
        → is_zero (encode_commit sha256 c).0 ≡ false
        → (land_commit sha256 move ref old op stamp c s).0 ≡ ok (encode_commit sha256 c).0
    unfolding land_commit put_object
    land_commit_ok e nz =
        let (h, obj) = encode_commit sha256 c in
        let s' = put_object h obj s in
        then_ok (move h s') h _ (
          ap (λ (m : Outcome Store (Unit {0})). m.0) (is_cas h s')
          ∙ (cas_ref_iff ref old h s').1 (nz, held-Expects ref old s' e))

  -- A commit lands if the branch is where it is expected and the writes are clean.
  pub land_commit-Lands :
      (move : Hash → Store → Outcome Store (Unit {0})) (zone branch : Bytes) (old : Hash)
      (op : Bytes) (stamp : ℕ) (c : Commit) (s : Store)
      → ((h : Hash) (s' : Store) → move h s' ≡ cas_ref (branch_ref zone branch) old h s')
      → held (branch_ref zone branch) s.refs ≡ old
      → Clean (land_commit sha256 move (branch_ref zone branch) old op stamp c s).1.objects
      → Lands sha256 zone branch c s
          (land_commit sha256 move (branch_ref zone branch) old op stamp c s)
  unfolding put_object
  land_commit-Lands move zone branch old op stamp c s is_cas at clean =
      let ref = branch_ref zone branch in
      let (h, obj) = encode_commit sha256 c in
      let out = land_commit sha256 move ref old op stamp c s in
      let objs = land_commit-objects move ref old op stamp c s is_cas in
      let clean' : Clean (put_object h obj s).objects = subst Clean objs clean in
      let done = land_commit_ok move ref old op stamp c s is_cas at clean'.1 in
      let moved =
        subst (λ z. Swaps ref old s.refs z out.1.refs) done
          (land_commit-Swaps sha256 move ref old op stamp c s is_cas) in
      record {
        result = done;
        at_branch = get_branch-assign zone branch h s out.1 moved.1;
        stored =
            same_objects (put_object h obj s) out.1 h (sym objs) ∙ get_object-put_object h obj s;
        extends = λ k o e.
            same_objects (put_object h obj s) out.1 k (sym objs)
            ∙ Extends-put_object h obj s clean' k o e;
      }
