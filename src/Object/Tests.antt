-- ===== src/Object/Tests.antt =====
-- Objects and trees at concrete inputs.
use zonegit.Base.{
  ◌≡◌, ◌≢◌, refl, arith, [], ◌∷◌, ◌++◌, codes, find_key, ok, err, Result, sym, ap, false, true,
}
use mathlib.Core.Path.{subst}
use zonegit.Store.Hash.{Hash, zero_hash, is_zero}
use zonegit.Store.MemStore.{Store, new_store}
use zonegit.Object.{kind_tree}
use zonegit.Object.Header.{message-injective}
use zonegit.Object.Tree.{Tree, key_of, entry_key, sort_entries, get, entry_leaf}
use zonegit.Object.Tree.Search.{get-find_key}
use zonegit.Object.Tree.Codec.{put_uvarint, uvarint, encode_entries, tree_payload, decode_tree}
use zonegit.Object.Tree.Codec.Padded.{decode_tree-padded}
use zonegit.Object.Tree.Codec.Varint.{uvarint-put_uvarint}
use zonegit.Object.Tree.Codec.RoundTrip.{decode_tree-tree_payload, IsWritable}
use zonegit.Object.TreeOps.{set_leaf, walk_tree, update_tree, empty_tree}
use zonegit.Object.TreeOps.Clean.{clean_test, Clean-of_test}
use zonegit.Object.TreeOps.View.{view, IsTreeAt, IsTreeAt-zero_hash}
use zonegit.Object.TreeOps.Walk.{walk_tree-view, answer}
use zonegit.Object.TreeOps.Update.{view-update_tree, Sets}
use zonegit.Object.Sample.{toy_hash, toy_hash_size, program}

abbrev blob_one : Hash
blob_one = toy_hash (codes "one")

abbrev after_set : Store
after_set = (update_tree toy_hash zero_hash (codes "www" ∷ []) (codes "A") blob_one new_store).1

after_set_clean : clean_test after_set.objects ≡ true
unfolding program
after_set_clean = refl

view-update_tree_example :
    Sets toy_hash toy_hash_size new_store 1 zero_hash
      (codes "www" ∷ [])
      (codes "A")
      blob_one
      (update_tree toy_hash zero_hash (codes "www" ∷ []) (codes "A") blob_one new_store)
view-update_tree_example =
    view-update_tree toy_hash toy_hash_size new_store 1 zero_hash (codes "www" ∷ []) (codes "A")
      blob_one (IsTreeAt-zero_hash toy_hash new_store 2) (omega arith) (omega arith) (omega arith)
      (toy_hash_size (codes "one")) (Clean-of_test after_set.objects after_set_clean)

-- The root that the update made.
abbrev new_root : Hash
new_root =
    elim (update_tree toy_hash zero_hash (codes "www" ∷ []) (codes "A") blob_one new_store).0 [
      | ok h ↦ h
      | err _ ↦ zero_hash
    ]

new_root-IsTreeAt : IsTreeAt toy_hash after_set 2 new_root
new_root-IsTreeAt =
    subst (IsTreeAt toy_hash after_set 2)
      (sym (
        ap (λ (r : Result Hash). elim r [ ok h ↦ h | err _ ↦ zero_hash ])
          view-update_tree_example.1))
      view-update_tree_example.3

new_root_nonzero : is_zero new_root ≡ false
unfolding program
new_root_nonzero = refl

walk_tree-view_example :
    walk_tree toy_hash after_set new_root (codes "www" ∷ []) (codes "A")
    ≡ answer (view toy_hash after_set new_root (codes "www" ∷ []) (codes "A"))
walk_tree-view_example =
    walk_tree-view toy_hash after_set 2 new_root (codes "www" ∷ []) (codes "A") new_root-IsTreeAt
      new_root_nonzero

walk_found : walk_tree toy_hash after_set new_root (codes "www" ∷ []) (codes "A") ≡ ok blob_one
unfolding program
walk_found = refl

abbrev two_entries : Tree
two_entries = record {
  entries =
      record { kind = 1; name = codes "A"; hash = blob_one }
      ∷ record { kind = 0; name = codes "www"; hash = blob_one }
      ∷ [];
}

two_entries-IsWritable : IsWritable two_entries
unfolding program
two_entries-IsWritable = record {
  entries_valid = (
    record { kind_valid = refl; named = omega arith; name_fits = omega arith; hash_fits = refl },
    (
      record { kind_valid = refl; named = omega arith; name_fits = omega arith; hash_fits = refl },
      tt,
    ),
  );
  distinct = (refl, (refl, tt));
  allocatable = omega arith;
}

decode_tree-tree_payload_example :
    decode_tree (tree_payload two_entries)
    ≡ ok (record { entries = sort_entries two_entries.entries })
decode_tree-tree_payload_example = decode_tree-tree_payload two_entries two_entries-IsWritable

decode_tree-padded_example :
    (decode_tree (1 ∷ 130 ∷ 0 ∷ encode_entries two_entries.entries)
      ≡ decode_tree (1 ∷ 2 ∷ encode_entries two_entries.entries))
    × ((1 ∷ 130 ∷ 0 ∷ encode_entries two_entries.entries)
        ≢ (1 ∷ 2 ∷ encode_entries two_entries.entries))
decode_tree-padded_example = decode_tree-padded 2 (encode_entries two_entries.entries) (omega arith)

get-find_key_example :
    get (set_leaf two_entries (codes "MX") blob_one) entry_leaf (codes "MX")
    ≡ find_key entry_key
        (key_of entry_leaf (codes "MX"))
        (set_leaf two_entries (codes "MX") blob_one).entries
unfolding program
get-find_key_example =
    get-find_key (set_leaf two_entries (codes "MX") blob_one) entry_leaf (codes "MX")
      ((refl, (refl, tt)), ((refl, tt), (tt, tt)))

message-injective_example :
    (kind_tree ≡ kind_tree) × (tree_payload empty_tree ≡ tree_payload empty_tree)
unfolding program
message-injective_example =
    message-injective kind_tree kind_tree (tree_payload empty_tree) (tree_payload empty_tree) refl
      refl refl

uvarint-put_uvarint_example : uvarint (put_uvarint 9 300 ++ (7 ∷ [])) ≡ ok (300, 7 ∷ [])
uvarint-put_uvarint_example = uvarint-put_uvarint 300 (7 ∷ []) (omega arith)
