-- ===== src/Object/Sample.antt =====
-- A small stand-in for SHA-256, and what a run of the tree operations computes with.
use zonegit.Base.{
  ℕ, ◌+◌, ◌*◌, ◌/◌, ◌%◌, ◌^◌, ◌≡◌, refl, [], ◌∷◌, length, Bytes, digits, decimal, bytes_eq,
  bytes_lt, find_key, insert_on, sort_on, lookup,
}
use zonegit.Store.Hash.{Hash, hash_size, zero_hash, is_zero}
use zonegit.Store.MemStore.{put_object, get_object}
use zonegit.Object.{kind_is_valid, message, hash_of, encode_object, verify}
use zonegit.Object.Tree.{
  entry_kind_is_valid, key_of, cmp_entry, sort_entries, is_sorted, first_duplicate, validate_entry,
  search_loop, sort_search, entry_reaches, get,
}
use zonegit.Object.Tree.Codec.{
  put_uvarint, uvarint_loop, uvarint, encode_entries, tree_payload, encode_tree, decode_tree,
}
use zonegit.Object.TreeOps.{
  validate_entries, replace_entry, has_entry, set_entry, set_leaf, set_subtree, load_tree, put_tree,
  walk_tree, load_chain, write_node, write_chain, load_root, update_tree,
}
use zonegit.Object.TreeOps.Clean.{clean_test}
use zonegit.Object.TreeOps.Entries.{hash_at}
use zonegit.Object.TreeOps.View.{view}

unfoldable pub mix : ℕ → Bytes → ℕ
mix acc [] = acc
mix acc (b ∷ bs) = mix ((acc * 31 + b + 1) % 2 ^ 64) bs

-- 28 fixed bytes and 4 that depend on the message.
unfoldable pub toy_hash : Bytes → Hash
unfolding mix
toy_hash m =
    let n = mix 7 m in
    n % 256
    ∷ n / 256 % 256
    ∷ n / 2 ^ 16 % 256
    ∷ n / 2 ^ 24 % 256
    ∷ 1
    ∷ 1
    ∷ 1
    ∷ 1
    ∷ 1
    ∷ 1
    ∷ 1
    ∷ 1
    ∷ 1
    ∷ 1
    ∷ 1
    ∷ 1
    ∷ 1
    ∷ 1
    ∷ 1
    ∷ 1
    ∷ 1
    ∷ 1
    ∷ 1
    ∷ 1
    ∷ 1
    ∷ 1
    ∷ 1
    ∷ 1
    ∷ 1
    ∷ 1
    ∷ 1
    ∷ 1
    ∷ []

pub toy_hash_size : (m : Bytes) → length (toy_hash m) ≡ hash_size
unfolding toy_hash
toy_hash_size m = refl

unfoldable pub program : Unit {0}
unfolding toy_hash mix bytes_eq bytes_lt digits decimal find_key insert_on sort_on lookup zero_hash
    is_zero put_object get_object kind_is_valid message hash_of encode_object verify
    entry_kind_is_valid key_of cmp_entry sort_entries is_sorted first_duplicate validate_entry
    search_loop sort_search entry_reaches get put_uvarint uvarint_loop uvarint encode_entries
    tree_payload encode_tree decode_tree validate_entries replace_entry has_entry set_entry set_leaf
    set_subtree load_tree put_tree walk_tree load_chain write_node write_chain load_root update_tree
    clean_test hash_at view
program = tt
