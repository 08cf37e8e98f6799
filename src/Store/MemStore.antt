-- ===== src/Store/MemStore.antt =====
-- pkg/store/store.go (Object, RefEntry, ReflogEntry) and pkg/store/memstore/memstore.go. Each
-- method holds the store's lock from its first read to its last write, so it is one step.
pub mod Refs
pub mod Growth
use zonegit.Base.{
  ℕ, ◌≡◌, Bool, true, false, not, ◌&&◌, List, [], ◌∷◌, ◌++◌, map, Bytes, bytes_eq, if◌then◌else◌,
  Option, none, some, Result, ok, err, Error, Outcome, lookup, remove, assign, sort_on, length, ltb,
  take,
}
use zonegit.Store.Hash.{Hash, is_zero}

pub record Object : Type 0 where
  pub kind : Bytes
  pub payload : Bytes

pub record RefEntry : Type 0 where
  pub name : Bytes
  pub hash : Hash

-- `unix_time` is a clock reading after 1970 and `tz_offset` is always written as 0.
pub record ReflogEntry : Type 0 where
  pub old : Hash
  pub new : Hash
  pub author : Bytes
  pub unix_time : ℕ
  pub tz_offset : ℕ
  pub op : Bytes
  pub message : Bytes

-- `objects` gets a new front entry for each write: the map holds the first entry of a key.
pub record Store : Type 0 where
  pub objects : List (Hash × Object)
  pub refs : List (Bytes × Hash)
  pub reflog : List (Bytes × List ReflogEntry)

-- `New`
abbrev pub new_store : Store
new_store = record { objects = []; refs = []; reflog = [] }

unfoldable pub put_object : Hash → Object → Store → Store
put_object h obj s = record s { objects = (h, obj) ∷ s.objects }

unfoldable pub get_object : Store → Hash → Result Object
get_object s h = elim (lookup h s.objects) [ none ↦ err Error.not_found | some obj ↦ ok obj ]

unfoldable pub has_object : Store → Hash → Bool
has_object s h = elim (lookup h s.objects) [ none ↦ false | some _ ↦ true ]

unfoldable pub get_ref : Store → Bytes → Option Hash
get_ref s name = lookup name s.refs

-- A zero `expected` means "create only if absent"; a zero `next` is rejected.
unfoldable pub cas_ref : Bytes → Hash → Hash → Store → Outcome Store (Unit {0})
cas_ref name expected next s =
    if is_zero next
    then (err Error.invalid_object, s)
    else let moved = record s { refs = assign name next s.refs } in
      elim (lookup name s.refs) [
        | none ↦ if is_zero expected then (ok tt, moved) else (err Error.conflict, s)
        | some cur ↦ if bytes_eq cur expected then (ok tt, moved) else (err Error.conflict, s)
      ]

unfoldable pub delete_ref : Bytes → Hash → Store → Outcome Store (Unit {0})
delete_ref name expected s = elim (lookup name s.refs) [
  | none ↦ (err Error.not_found, s)
  | some cur ↦
      if bytes_eq cur expected
      then (ok tt, record s { refs = remove name s.refs })
      else (err Error.conflict, s)
]

-- `strings.HasPrefix`
unfoldable pub has_prefix : Bytes → Bytes → Bool
has_prefix s p = not (ltb (length s) (length p)) && bytes_eq (take (length p) s) p

unfoldable pub refs_with_prefix : Bytes → List (Bytes × Hash) → List RefEntry
refs_with_prefix prefix [] = []
refs_with_prefix prefix ((name, h) ∷ m) =
    let rest = refs_with_prefix prefix m in
    if has_prefix name prefix then (record { name = name; hash = h } ∷ rest) else rest

unfoldable pub list_refs : Store → Bytes → List RefEntry
unfolding refs_with_prefix
list_refs s prefix = sort_on (λ e. e.name) (refs_with_prefix prefix s.refs)

unfoldable pub read_reflog : Store → Bytes → List ReflogEntry
read_reflog s name = elim (lookup name s.reflog) [ none ↦ [] | some es ↦ es ]

unfoldable pub append_reflog : Bytes → ReflogEntry → Store → Store
append_reflog name e s = record s { reflog = assign name (read_reflog s name ++ (e ∷ [])) s.reflog }
