-- ===== src/Object/Tree.antt =====
-- pkg/object/tree.go: tree nodes, their order and lookup. The on-disk form is in the child Codec.
pub mod Order
pub mod Search
pub mod Codec
use Prim.Native.Nat.{Ordering}
use zonegit.Base.{
  ℕ, zero, suc, ◌+◌, ◌/◌, ◌≡◌, Bool, true, false, not, ◌&&◌, ◌||◌, List, [], ◌∷◌, length, get_elem?,
  Bytes, bytes_eq, bytes_lt, ltb, ◌==◌, if◌then◌else◌, Option, none, some, Result, ok, err, Error,
  sort_on,
}
use zonegit.Store.Hash.{Hash}

-- A Go `uint8`; the two constants are the kinds that are valid.
abbrev pub EntryKind : Type 0
EntryKind = ℕ

abbrev pub entry_subtree : EntryKind
entry_subtree = 0

abbrev pub entry_leaf : EntryKind
entry_leaf = 1

unfoldable pub entry_kind_is_valid : EntryKind → Bool
entry_kind_is_valid k = (k == entry_subtree) || (k == entry_leaf)

pub record TreeEntry : Type 0 where
  pub kind : EntryKind
  pub name : Bytes
  pub hash : Hash

pub record Tree : Type 0 where
  pub entries : List TreeEntry

-- The results -1, 0 and +1 are `lt`, `eq` and `gt`.
unfoldable pub cmp_entry : EntryKind → Bytes → EntryKind → Bytes → Ordering
cmp_entry ka na kb nb =
    if ltb ka kb
    then Ordering.lt
    else if ltb kb ka
    then Ordering.gt
    else if bytes_lt na nb
    then Ordering.lt
    else if bytes_lt nb na
    then Ordering.gt
    else Ordering.eq

-- The byte string by which `cmp_entry` orders: see `cmp_entry-key` in Order.
unfoldable pub key_of : EntryKind → Bytes → Bytes
key_of kind name = kind ∷ name

abbrev pub entry_key : TreeEntry → Bytes
entry_key e = key_of e.kind e.name

-- `sort.Slice` by `cmpEntry < 0`.
unfoldable pub sort_entries : List TreeEntry → List TreeEntry
sort_entries es = sort_on entry_key es

unfoldable pub is_sorted : List TreeEntry → Bool
is_sorted [] = true
is_sorted (e ∷ []) = true
is_sorted (e ∷ f ∷ es) =
    let rest = is_sorted (f ∷ es) in
    elim (cmp_entry e.kind e.name f.kind f.name) [ Ordering.gt ↦ false | _ ↦ rest ]

-- The empty name stands for "none", as in the source.
unfoldable pub first_duplicate : List TreeEntry → Bytes
first_duplicate [] = []
first_duplicate (e ∷ []) = []
first_duplicate (e ∷ f ∷ es) =
    let rest = first_duplicate (f ∷ es) in
    if (e.kind == f.kind) && bytes_eq e.name f.name then f.name else rest

unfoldable pub validate_entry : TreeEntry → Result (Unit {0})
validate_entry e =
    if not (entry_kind_is_valid e.kind)
    then err Error.invalid_object
    else if ltb 255 (length e.name)
    then err Error.invalid_object
    else if length e.name == 0
    then err Error.invalid_object
    else ok tt

-- `sort.Search(n, f)`: the least index at which `f` holds, if `f` goes from false to true. The
-- distance `j - i` falls each round, so `n` rounds are enough.
unfoldable pub search_loop : ℕ → (ℕ → Bool) → ℕ → ℕ → ℕ
search_loop zero f i j = i
search_loop (suc fuel) f i j =
    let h = (i + j) / 2 in
    let left = search_loop fuel f i h in
    let right = search_loop fuel f (h + 1) j in if ltb i j then (if f h then left else right) else i

unfoldable pub sort_search : ℕ → (ℕ → Bool) → ℕ
sort_search n f = search_loop n f 0 n

-- Whether `t.Entries[i]` is at or above the key. Indices out of range are never asked for.
unfoldable pub entry_reaches : List TreeEntry → EntryKind → Bytes → ℕ → Bool
entry_reaches es kind name i = elim (get_elem? es i) [
  | none ↦ true
  | some e ↦ elim (cmp_entry e.kind e.name kind name) [ Ordering.lt ↦ false | _ ↦ true ]
]

unfoldable pub get : Tree → EntryKind → Bytes → Option TreeEntry
get t kind name =
    let idx = sort_search (length t.entries) (entry_reaches t.entries kind name) in
    elim (get_elem? t.entries idx) [
      | none ↦ none
      | some e ↦ if (e.kind == kind) && bytes_eq e.name name then some e else none
    ]
