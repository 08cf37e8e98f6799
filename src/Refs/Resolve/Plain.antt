-- ===== src/Refs/Resolve/Plain.antt =====
-- What a plain name stands for.
use zonegit.Base.{
  ℕ, ◌≡◌, ◌≢◌, refl, ap, ◌∙◌, arith, false, [], ◌∷◌, ◌++◌, length, Bytes, bytes_eq, ◌==◌, ok, err,
  not_found, ◌>>=◌, contains, cut_last_absent, Result, codes,
}
use zonegit.Store.Hash.{Hash}
use zonegit.Store.MemStore.{Store, get_ref, has_prefix}
use zonegit.Refs.{
  canon_zone, branch_ref, tag_ref, head_ref, branch_prefix, tag_prefix, get_branch, get_tag,
}
use zonegit.Refs.Names.{canon_zone_idem}
use zonegit.Refs.Resolve.{
  split_ancestor, branch_or_tag, resolve_bare, resolve_qualified, resolve_base, resolve_in_zone,
  walk_parents,
}

-- A name that is nothing but the name of a branch or a tag: no slash, no tilde, not HEAD, and not of
-- the length of a hash.
pub record IsPlain (name : Bytes) : Type 0 where
  pub no_slash : contains 47 name ≡ false
  pub no_tilde : contains 126 name ≡ false
  pub not_head : bytes_eq name head_ref ≡ false
  pub not_hash : (length name == 64) ≡ false

-- The branch if there is one, else the tag, else "not found".
unfoldable pub branch_else_tag : Result Hash → Result Hash → Result Hash
branch_else_tag (ok h) tag = ok h
branch_else_tag (err e) (ok h) = ok h
branch_else_tag (err e) (err e') = err not_found

no_prefix : (name : Bytes) → contains 47 name ≡ false → has_prefix name (codes "refs/") ≡ false
unfolding contains has_prefix bytes_eq
no_prefix [] h = refl
no_prefix (a ∷ []) h = refl
no_prefix (a ∷ b ∷ []) h = refl
no_prefix (a ∷ b ∷ c ∷ []) h = refl
no_prefix (a ∷ b ∷ c ∷ d ∷ []) h = refl
no_prefix (a ∷ b ∷ c ∷ d ∷ e ∷ rest) h = ground (arith, h)

split_ancestor_plain : (name : Bytes) → IsPlain name → split_ancestor name ≡ (name, 0)
unfolding split_ancestor
split_ancestor_plain name p = rw (cut_last_absent 126 name p.no_tilde, split_ancestor) refl

resolve_bare-plain :
    (s : Store) (zone name : Bytes)
    → length (canon_zone zone) ≢ 0
    → resolve_bare s name (canon_zone zone)
      ≡ branch_else_tag (get_branch s zone name) (get_tag s zone name)
unfolding resolve_bare branch_else_tag get_branch get_tag branch_or_tag
resolve_bare-plain s zone name z =
    let same = canon_zone_idem zone in
    let branch : get_ref s (branch_ref (canon_zone zone) name) ≡ get_ref s (branch_ref zone name) =
      unfold branch_ref in ap (λ c. get_ref s (branch_prefix ++ (c ++ (47 ∷ name)))) same in
    let tag : get_ref s (tag_ref (canon_zone zone) name) ≡ get_ref s (tag_ref zone name) =
      unfold tag_ref in ap (λ c. get_ref s (tag_prefix ++ (c ++ (47 ∷ name)))) same in
    ground (arith, z, branch, tag)

resolve_base-plain :
    (s : Store) (name override : Bytes)
    → IsPlain name
    → resolve_base s name override ≡ resolve_bare s name override
unfolding resolve_base resolve_qualified
resolve_base-plain s name override p =
    ground
      (arith, p.not_head, p.not_hash, no_prefix name p.no_slash, cut_last_absent 47 name p.no_slash)

then_ok : {A : Type 0} (r : Result A) → (r >>= λ a. ok a) ≡ r
then_ok (ok a) = refl
then_ok (err e) = refl

-- A plain name in a zone that is not empty is looked up among the branches of that zone, then among
-- its tags; HEAD plays no part.
pub resolve_in_zone-plain :
    (s : Store) (zone name : Bytes)
    → IsPlain name
    → length (canon_zone zone) ≢ 0
    → resolve_in_zone s zone name ≡ branch_else_tag (get_branch s zone name) (get_tag s zone name)
unfolding resolve_in_zone walk_parents
resolve_in_zone-plain s zone name p z =
    ap
      (λ (split : Bytes × ℕ).
        resolve_base s split.0 (canon_zone zone) >>= λ h. walk_parents false s split.1 h)
      (split_ancestor_plain name p)
    ∙ then_ok (resolve_base s name (canon_zone zone))
    ∙ resolve_base-plain s name (canon_zone zone) p
    ∙ resolve_bare-plain s zone name z
