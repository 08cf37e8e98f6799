-- ===== src/Object/Tree/Codec.antt =====
-- The on-disk form of a tree (pkg/object/tree.go: Encode, DecodeTree), with the varints of
-- encoding/binary that it uses.
pub mod Varint
pub mod RoundTrip
pub mod Padded
use zonegit.Base.{
  ℕ, zero, suc, ◌+◌, ◌-◌, ◌*◌, ◌/◌, ◌%◌, ◌^◌, ◌≡◌, Bool, true, false, not, ◌&&◌, List, [], ◌∷◌,
  ◌++◌, length, take, drop, Bytes, ltb, ◌==◌, if◌then◌else◌, Result, ok, err, Error, ◌>>=◌, ◌>>◌,
  bytes_eq,
}
use zonegit.Store.Hash.{Hash, hash_size}
use zonegit.Store.MemStore.{Object}
use zonegit.Object.{encode_object, kind_tree}
use zonegit.Object.Tree.{
  EntryKind, TreeEntry, Tree, entry_kind_is_valid, is_sorted, first_duplicate, sort_entries,
}

abbrev pub tree_version : ℕ
tree_version = 1

-- `binary.PutUvarint`: `byte(x) | 0x80` is `x % 128 + 128`. Ten bytes hold every `uint64`, so the
-- fuel 9 is enough.
unfoldable pub put_uvarint : ℕ → ℕ → Bytes
put_uvarint zero x = (x % 256) ∷ []
put_uvarint (suc fuel) x =
    let rest = put_uvarint fuel (x / 128) in
    if ltb x 128 then (x ∷ []) else ((x % 128 + 128) ∷ rest)

abbrev pub max_varint_len : ℕ
max_varint_len = 10

-- `binary.Uvarint`, with the bytes that follow the number in place of their index. `x` and
-- `b << s` have no bit in common, so `|` is `+`. The error is Go's `n <= 0`.
unfoldable pub uvarint_loop : Bytes → ℕ → ℕ → ℕ → Result (ℕ × Bytes)
uvarint_loop [] i x s = err Error.invalid_object
uvarint_loop (b ∷ bs) i x s =
    let more = uvarint_loop bs (i + 1) ((x + b % 128 * 2 ^ s) % 2 ^ 64) (s + 7) in
    if i == max_varint_len
    then err Error.invalid_object
    else if ltb b 128
    then (if (i == 9) && ltb 1 b then err Error.invalid_object else ok (x + b * 2 ^ s, bs))
    else more

unfoldable pub uvarint : Bytes → Result (ℕ × Bytes)
unfolding uvarint_loop
uvarint buf = uvarint_loop buf 0 0 0

unfoldable pub encode_entries : List TreeEntry → Bytes
encode_entries [] = []
encode_entries (e ∷ es) = e.kind ∷ (length e.name % 256) ∷ (e.name ++ (e.hash ++ encode_entries es))

-- The payload that `Tree.Encode` writes.
unfoldable pub tree_payload : Tree → Bytes
tree_payload t =
    let entries = sort_entries t.entries in
    tree_version ∷ (put_uvarint 9 (length entries) ++ encode_entries entries)

-- `Tree.Encode`
module _ (sha256 : Bytes → Hash) where
  unfoldable pub encode_tree : Tree → Hash × Object
  unfolding encode_object
  encode_tree t = encode_object sha256 kind_tree (tree_payload t)

-- `copy(h[:], rest[:HashSize])` after the length has been checked.
unfoldable pub decode_body : EntryKind → ℕ → Bytes → Result (TreeEntry × Bytes)
decode_body kind name_len rest =
    if not (entry_kind_is_valid kind)
    then err Error.invalid_object
    else if ltb (length rest) (name_len + hash_size)
    then err Error.invalid_object
    else let after = drop name_len rest in
      ok (
        record { kind = kind; name = take name_len rest; hash = take hash_size after },
        drop hash_size after,
      )

-- One round of the loop in `DecodeTree`.
unfoldable pub decode_entry : Bytes → Result (TreeEntry × Bytes)
decode_entry [] = err Error.invalid_object
decode_entry (b ∷ []) = err Error.invalid_object
decode_entry (kind ∷ name_len ∷ rest) = decode_body kind name_len rest

unfoldable pub decode_entries : ℕ → Bytes → Result (List TreeEntry × Bytes)
unfolding decode_entry decode_body
decode_entries zero rest = ok ([], rest)
decode_entries (suc n) rest = do
  (e, rest') ← decode_entry rest
  (es, end) ← decode_entries n rest'
  ok (e ∷ es, end)

-- `make([]TreeEntry, 0, count64)` panics when the 56 bytes of each entry exceed what the Go run
-- time can allocate, 2^48 bytes on a 64-bit machine.
abbrev pub max_alloc : ℕ
max_alloc = 2 ^ 48

abbrev pub entry_size : ℕ
entry_size = 56

unfoldable pub make_entries : ℕ → Result (Unit {0})
make_entries count = if ltb max_alloc (count * entry_size) then err Error.panicked else ok tt

-- The checks after the loop.
unfoldable pub finish_tree : List TreeEntry → Bytes → Result Tree
finish_tree entries rest =
    if not (length rest == 0)
    then err Error.invalid_object
    else if not (is_sorted entries)
    then err Error.invalid_object
    else if not (bytes_eq (first_duplicate entries) [])
    then err Error.invalid_object
    else ok (record { entries = entries })

unfoldable pub decode_counted : Bytes → Result Tree
unfolding uvarint make_entries decode_entries finish_tree
decode_counted rest = do
  (count, rest') ← uvarint rest
  make_entries count
  (entries, rest'') ← decode_entries count rest'
  finish_tree entries rest''

unfoldable pub decode_tree : Bytes → Result Tree
unfolding decode_counted
decode_tree [] = err Error.invalid_object
decode_tree (version ∷ rest) =
    if version == tree_version then decode_counted rest else err Error.invalid_object
