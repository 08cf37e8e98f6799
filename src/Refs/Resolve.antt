-- ===== src/Refs/Resolve.antt =====
-- pkg/refs/refs.go: Resolve and ResolveInZone, which find the commit that a name stands for.
pub mod Plain
use zonegit.Base.{
  ℕ, zero, suc, ◌*◌, ◌≡◌, Bool, true, false, not, ◌&&◌, [], ◌∷◌, length, Bytes, bytes_eq, ◌==◌,
  if◌then◌else◌, Option, none, some, Result, ok, err, Error, ◌>>=◌, codes, cut_last, ℤ, pos, negsuc,
  parse_int, List,
}
use zonegit.Store.Hash.{Hash, hash_size, is_zero, parse_hash}
use zonegit.Store.MemStore.{Store, Object, get_object, get_ref, has_prefix}
use zonegit.Object.{kind_commit}
use zonegit.Object.Commit.{decode_commit}
use zonegit.Refs.{head_ref, branch_ref, tag_ref, canon_zone, read_head}

unfoldable pub ancestor_count : Bytes → Bytes → Result ℤ → Bytes × ℕ
ancestor_count s base (ok (pos n)) = (base, n)
ancestor_count s base (ok (negsuc n)) = (s, 0)
ancestor_count s base (err e) = (s, 0)

-- `splitAncestor`: "foo~3" is ("foo", 3).
unfoldable pub split_ancestor : Bytes → Bytes × ℕ
unfolding ancestor_count
split_ancestor s = elim (cut_last 126 s) [
  | none ↦ (s, 0)
  | some (base, n) ↦ if length n == 0 then (base, 1) else ancestor_count s base (parse_int n)
]

-- The branch of the zone, or else its tag.
unfoldable pub branch_or_tag : Store → Bytes → Bytes → Option Hash
branch_or_tag s zone name = elim (get_ref s (branch_ref zone name)) [
  | some h ↦ some h
  | none ↦ get_ref s (tag_ref zone name)
]

unfoldable pub head_commit : Store → Result Hash
head_commit s = read_head s >>= λ head. if is_zero head.2 then err Error.failed else ok head.2

-- The case of a bare name: an empty zone stands for the zone of HEAD.
unfoldable pub resolve_bare : Store → Bytes → Bytes → Result Hash
unfolding branch_or_tag
resolve_bare s base zone_override =
    let active = read_head s >>= λ head. ok head.0 in
    (if length zone_override == 0 then active else ok zone_override) >>= λ z.
    elim (branch_or_tag s z base) [ none ↦ err Error.not_found | some h ↦ ok h ]

-- "<zone>/<name>", if there is such a branch or tag.
unfoldable pub resolve_qualified : Store → Bytes → Option Hash
unfolding branch_or_tag
resolve_qualified s base = elim (cut_last 47 base) [
  | none ↦ none
  | some (zone, name) ↦ if length zone == 0 then none else branch_or_tag s zone name
]

unfoldable pub resolve_base : Store → Bytes → Bytes → Result Hash
unfolding head_commit resolve_bare resolve_qualified
resolve_base s base zone_override =
    if length base == 2 * hash_size
    then parse_hash base
    else if bytes_eq base head_ref
    then head_commit s
    else if has_prefix base (codes "refs/")
    then elim (get_ref s base) [ none ↦ err Error.not_found | some h ↦ ok h ]
    else elim (resolve_qualified s base) [
      | some h ↦ ok h
      | none ↦ resolve_bare s base zone_override
    ]

unfoldable pub first_of : List Hash → Result Hash
first_of [] = err Error.failed
first_of (p ∷ ps) = ok p

-- The loops over the parents; `Resolve` checks the kind of the objects, `ResolveInZone` does not.
unfoldable pub walk_parents : Bool → Store → ℕ → Hash → Result Hash
unfolding first_of
walk_parents checked s zero h = ok h
walk_parents checked s (suc n) h = get_object s h >>= λ obj.
    if checked && not (bytes_eq obj.kind kind_commit)
    then err Error.failed
    else (decode_commit obj.payload >>= λ c. first_of c.parents >>= λ p. walk_parents checked s n p)

unfoldable pub resolve : Store → Bytes → Result Hash
unfolding split_ancestor resolve_base walk_parents
resolve s refish =
    let (base, ancestor) = split_ancestor refish in
    resolve_base s base [] >>= λ h. walk_parents true s ancestor h

unfoldable pub resolve_in_zone : Store → Bytes → Bytes → Result Hash
unfolding split_ancestor resolve_base walk_parents
resolve_in_zone s zone refish =
    let (base, ancestor) = split_ancestor refish in
    resolve_base s base (canon_zone zone) >>= λ h. walk_parents false s ancestor h
