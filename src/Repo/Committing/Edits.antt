-- ===== src/Repo/Committing/Edits.antt =====
-- A run of edits on a stored zone tree, against the view.
use zonegit.Base.{
  ℕ, suc, ◌≡◌, ◌≤◌, refl, sym, ap, ◌∙◌, List, [], ◌∷◌, length, Bytes, if◌then◌else◌, ok, err, All,
  Outcome, ◌then_do◌,
}
use mathlib.Core.Path.{subst}
use zonegit.Store.Hash.{Hash, hash_size}
use zonegit.Store.MemStore.{Store}
use zonegit.Store.MemStore.Growth.{Growth, then_do-relates}
use zonegit.Object.TreeOps.Node.{IsName}
use zonegit.Object.TreeOps.{Labels, update_tree}
use zonegit.Object.TreeOps.Stored.{Clean, Extends, Extends-trans}
use zonegit.Object.TreeOps.View.{view, IsTreeAt}
use zonegit.Object.TreeOps.Update.{view-update_tree, same_leaf}
use zonegit.Object.TreeOps.Grows.{update_tree-relates, clean_growth}
use zonegit.Repo.Committing.{Edit, apply_edits}

-- The blob hash at a path and a type after the edits, from the one before: the last edit of that
-- path and type decides.
unfoldable pub edited : List Edit → Labels → Bytes → Hash → Hash
unfolding same_leaf
edited [] q rrtype old = old
edited (e ∷ es) q rrtype old =
    edited es q rrtype (if same_leaf e.path e.rrtype q rrtype then e.leaf else old)

-- An edit that a tree of height `n + 1` can take.
pub record Fits (n : ℕ) (e : Edit) : Type 0 where
  pub shallow : length e.path ≤ n
  pub labels : All IsName e.path
  pub names_type : IsName e.rrtype
  pub size : length e.leaf ≡ hash_size

pub apply_edits-relates :
    (growth : Growth) (sha256 : Bytes → Hash) (es : List Edit) (root : Hash) (s : Store)
    → growth.relates s (apply_edits sha256 es root s).1
unfolding apply_edits
apply_edits-relates growth sha256 [] root s = growth.stays s
apply_edits-relates growth sha256 (e ∷ es) root s =
    then_do-relates growth s (update_tree sha256 root e.path e.rrtype e.leaf s) _
      (update_tree-relates growth sha256 root e.path e.rrtype e.leaf s)
      (λ root' s'. apply_edits-relates growth sha256 es root' s')

module _ (sha256 : Bytes → Hash) (sha256_size : (m : Bytes) → length (sha256 m) ≡ hash_size) where
  -- The edits are no error, the new root is a well-formed tree that shows the edited zone, and no
  -- stored object is lost.
  pub record Edited (n : ℕ) (es : List Edit) (root : Hash) (s : Store) (out : Outcome Store Hash)
      : Type 0 where
    pub root' : Hash
    pub result : out.0 ≡ ok root'
    pub extends : Extends s out.1
    pub tree : IsTreeAt sha256 out.1 (suc n) root'
    pub shows :
        (q : Labels) (rrtype : Bytes)
        → view sha256 out.1 root' q rrtype ≡ edited es q rrtype (view sha256 s root q rrtype)

  Clean-then :
      (m : Outcome Store Hash) (es : List Edit)
      → Clean (m then_do apply_edits sha256 es).1.objects
      → Clean m.1.objects
  Clean-then (ok h, s) es clean = apply_edits-relates clean_growth sha256 es h s clean
  Clean-then (err x, s) es clean = clean

  -- On a stored zone tree of height at most `n + 1`, if every edit fits such a tree and the writes
  -- are clean (no two objects fell on one hash, none on the zero hash), the edits of a commit
  -- succeed: the new root is a well-formed tree that shows at every owner and type what the last
  -- edit of it wrote, and the old zone where there was none; no stored object is lost.
  pub apply_edits-Edited :
      (n : ℕ) (es : List Edit) (root : Hash) (s : Store)
      → IsTreeAt sha256 s (suc n) root
      → All (Fits n) es
      → Clean (apply_edits sha256 es root s).1.objects
      → Edited n es root s (apply_edits sha256 es root s)
  unfolding apply_edits edited
  apply_edits-Edited n [] root s i fits clean = record {
    root' = root;
    result = refl;
    extends = λ h o e. e;
    tree = i;
    shows = λ q rrtype. refl;
  }
  apply_edits-Edited n (e ∷ es) root s i (fit, fits) clean =
      let m = update_tree sha256 root e.path e.rrtype e.leaf s in
      let (root1, done, ext, tree, shows) =
        view-update_tree sha256 sha256_size s n root e.path e.rrtype e.leaf i fit.shallow fit.labels
          fit.names_type fit.size (Clean-then m es clean) in
      let run : (m then_do apply_edits sha256 es) ≡ apply_edits sha256 es root1 m.1 =
        ap (λ r. (r, m.1) then_do apply_edits sha256 es) done in
      let rest =
        apply_edits-Edited n es root1 m.1 tree fits
          (subst (λ out. Clean out.1.objects) run clean) in
      subst (Edited n (e ∷ es) root s) (sym run) (record {
        root' = rest.root';
        result = rest.result;
        extends = Extends-trans s m.1 (apply_edits sha256 es root1 m.1).1 ext rest.extends;
        tree = rest.tree;
        shows = λ q rrtype. rest.shows q rrtype ∙ ap (edited es q rrtype) (shows q rrtype);
      })
