-- ===== src/Object/Tree/Codec/RoundTrip.antt =====
-- What `encode_tree` writes, `decode_tree` reads back.
use zonegit.Base.{
  ◌*◌, ◌%◌, ◌^◌, ◌≤◌, ◌<◌, ◌≡◌, refl, arith, List, [], ◌∷◌, ◌++◌, length, take-append, drop-append,
  length-append, append_assoc, append-nil, Bytes, All, ok, true, Ascends, Distinct,
  Distinct-sort_on, All-sort_on, length-sort_on, bytes_eq_refl,
}
use zonegit.Store.Hash.{hash_size}
use zonegit.Object.Tree.{TreeEntry, Tree, entry_key, entry_kind_is_valid, sort_entries}
use zonegit.Object.Tree.Order.{checks-Ascends}
use zonegit.Object.Tree.Codec.{
  put_uvarint, encode_entries, tree_payload, decode_body, decode_entries, make_entries, finish_tree,
  decode_counted, decode_tree,
}
use zonegit.Object.Tree.Codec.Varint.{uvarint-put_uvarint}

-- What `validate_entry` asks of an entry, and that its hash is a `[32]byte`.
pub record IsEntry (e : TreeEntry) : Type 0 where
  pub kind_valid : entry_kind_is_valid e.kind ≡ true
  pub named : 0 < length e.name
  pub name_fits : length e.name ≤ 255
  pub hash_fits : length e.hash ≡ hash_size

decode_body-entry :
    (e : TreeEntry) (rest : Bytes)
    → IsEntry e
    → decode_body e.kind (length e.name) (e.name ++ (e.hash ++ rest)) ≡ ok (e, rest)
unfolding decode_body
decode_body-entry e rest v = ground (
  arith,
  length-append e.name (e.hash ++ rest),
  length-append e.hash rest,
  take-append e.name (e.hash ++ rest) (length e.name) refl,
  drop-append e.name (e.hash ++ rest) (length e.name) refl,
  take-append e.hash rest hash_size v.hash_fits,
  drop-append e.hash rest hash_size v.hash_fits,
)

decode_entries-encode_entries :
    (es : List TreeEntry) (rest : Bytes)
    → All IsEntry es
    → decode_entries (length es) (encode_entries es ++ rest) ≡ ok (es, rest)
unfolding decode_entries encode_entries
decode_entries-encode_entries [] rest a = refl
decode_entries-encode_entries (e ∷ es) rest a =
    let len : length e.name % 256 ≡ length e.name = omega (arith, a.0.name_fits) in
    rw (
      len,
      append_assoc e.name (e.hash ++ encode_entries es) rest,
      append_assoc e.hash (encode_entries es) rest,
      decode_body-entry e (encode_entries es ++ rest) a.0,
      decode_entries-encode_entries es rest a.1,
    )

finish_tree-Ascends :
    (es : List TreeEntry) → Ascends entry_key es → finish_tree es [] ≡ ok (record { entries = es })
unfolding finish_tree
finish_tree-Ascends es a =
    let (sorted, distinct) = checks-Ascends es a in rw (sorted, distinct, bytes_eq_refl [])

-- A tree in memory: every entry can be written, no two have one kind and name, and the list is
-- within what Go can allocate.
pub record IsWritable (t : Tree) : Type 0 where
  pub entries_valid : All IsEntry t.entries
  pub distinct : Distinct entry_key t.entries
  pub allocatable : length t.entries * 56 ≤ 2 ^ 48

decode_counted-sorted :
    (es : List TreeEntry)
    → All IsEntry es
    → Ascends entry_key es
    → length es * 56 ≤ 2 ^ 48
    → decode_counted (put_uvarint 9 (length es) ++ encode_entries es) ≡ ok (record { entries = es })
unfolding decode_counted make_entries
decode_counted-sorted es v a fits =
    let read = rw append-nil at (decode_entries-encode_entries es [] v) in
    rw (uvarint-put_uvarint (length es) (encode_entries es) (omega arith))
      (ground (arith, read, finish_tree-Ascends es a))

-- Decoding the payload of a tree gives its entries in canonical order.
pub decode_tree-tree_payload :
    (t : Tree)
    → IsWritable t
    → decode_tree (tree_payload t) ≡ ok (record { entries = sort_entries t.entries })
unfolding decode_tree tree_payload sort_entries
decode_tree-tree_payload t w =
    decode_counted-sorted (sort_entries t.entries)
      (All-sort_on entry_key IsEntry t.entries w.entries_valid)
      (Distinct-sort_on entry_key t.entries w.distinct)
      (omega (arith, length-sort_on entry_key t.entries, w.allocatable))
