-- ===== src/Store/MemStore/Refs.antt =====
-- The compare-and-set contract of refs, and the append-only reflog.
use zonegit.Base.{
  ◌≡◌, arith, false, [], ◌∷◌, ◌++◌, Bytes, bytes_eq, bytes_eq_iff, if◌then◌else◌, none, some, ok,
  err, lookup-assign, lookup-remove, ◌↔◌, ◌⊎◌,
}
use zonegit.Store.Hash.{Hash, is_zero, zero_hash, is_zero_iff}
use zonegit.Store.MemStore.{
  Store, ReflogEntry, get_ref, cas_ref, delete_ref, append_reflog, read_reflog,
}

-- What a compare-and-set expects of the ref: zero stands for "absent".
abbrev pub Expects : Store → Bytes → Hash → Type 0
Expects s name expected =
    (get_ref s name ≡ some expected) ⊎ ((get_ref s name ≡ none) × (expected ≡ zero_hash))

-- `cas_ref` succeeds exactly when the new hash is not zero and the ref holds what is expected.
pub cas_ref_iff :
    (name : Bytes) (expected next : Hash) (s : Store)
    → ((cas_ref name expected next s).0 ≡ ok tt)
      ↔ ((is_zero next ≡ false) × Expects s name expected)
unfolding cas_ref get_ref
cas_ref_iff name expected next s = grind (arith, is_zero_iff, bytes_eq_iff)

-- A failed `cas_ref` changes nothing, and a successful one sets that ref and keeps all others.
pub get_ref-cas_ref :
    (name other : Bytes) (expected next : Hash) (s : Store)
    → get_ref (cas_ref name expected next s).1 other ≡ elim (cas_ref name expected next s).0 [
      | ok _ ↦ if bytes_eq name other then some next else get_ref s other
      | err _ ↦ get_ref s other
    ]
unfolding cas_ref get_ref
get_ref-cas_ref name other expected next s = ground (arith, lookup-assign name other next s.refs)

-- `delete_ref` succeeds exactly when the ref holds what is expected; then that ref is gone and all
-- others are kept, and otherwise nothing changes.
pub get_ref-delete_ref :
    (name other : Bytes) (expected : Hash) (s : Store)
    → (((delete_ref name expected s).0 ≡ ok tt) ↔ (get_ref s name ≡ some expected))
      × (get_ref (delete_ref name expected s).1 other ≡ elim (delete_ref name expected s).0 [
        | ok _ ↦ if bytes_eq name other then none else get_ref s other
        | err _ ↦ get_ref s other
      ])
unfolding delete_ref get_ref
get_ref-delete_ref name other expected s =
    (grind (arith, bytes_eq_iff), ground (arith, lookup-remove name other s.refs))

-- A reflog grows at its end, and the other reflogs are kept.
pub read_reflog-append_reflog :
    (name other : Bytes) (e : ReflogEntry) (s : Store)
    → read_reflog (append_reflog name e s) other
      ≡ (if bytes_eq name other then (read_reflog s other ++ (e ∷ [])) else read_reflog s other)
unfolding append_reflog read_reflog
read_reflog-append_reflog name other e s = ground (
  arith,
  lookup-assign name other (read_reflog s name ++ (e ∷ [])) s.reflog,
  bytes_eq_iff name other,
)
