-- ===== src/Object/TreeOps/Stored.antt =====
-- Trees in a store that only grows: what was put can be loaded, and stays.
use zonegit.Base.{
  ◌*◌, ◌^◌, ◌≤◌, ◌≡◌, refl, ap, ◌∙◌, arith, true, false, List, [], ◌∷◌, ◌++◌, length, length-append,
  Bytes, bytes_eq, bytes_eq_iff, bytes_eq_refl, some, Result-cases, ok, lookup, All, Ascends,
  Ascends-Distinct, sort_on_ascending, inl, inr,
}
use zonegit.Store.Hash.{Hash, is_zero}
use zonegit.Store.MemStore.{Store, Object, get_object, put_object}
use zonegit.Object.{kind_tree, verify, hash_of, encode_object, kind_is_valid}
use zonegit.Object.Tree.{TreeEntry, Tree, entry_key, sort_entries}
use zonegit.Object.Tree.Codec.{encode_entries, put_uvarint, tree_payload, encode_tree, decode_tree}
use zonegit.Object.Tree.Codec.RoundTrip.{IsEntry, decode_tree-tree_payload}
use zonegit.Object.TreeOps.{validate_entries, load_tree, put_tree}

tree_is_valid : kind_is_valid kind_tree ≡ true
unfolding kind_is_valid bytes_eq
tree_is_valid = refl

-- The writes so far: no hash was taken twice for different objects, none is zero (the mark for
-- "no object"), and every payload is a slice that a 64-bit process can hold.
abbrev pub Clean : List (Hash × Object) → Type 0
Clean [] = Unit {0}
Clean ((h, o) ∷ m) =
    ((o' : Object) → lookup h m ≡ some o' → o' ≡ o)
    × (is_zero h ≡ false)
    × (length o.payload ≤ 2 ^ 47)
    × Clean m

-- Every object of the first store is still there in the second.
abbrev pub Extends : Store → Store → Type 0
Extends s s' = (h : Hash) (o : Object) → get_object s h ≡ ok o → get_object s' h ≡ ok o

pub Extends-trans : (s t u : Store) → Extends s t → Extends t u → Extends s u
Extends-trans s t u p q h o e = q h o (p h o e)

pub Extends-put_object :
    (h : Hash) (o : Object) (s : Store)
    → Clean (put_object h o s).objects
    → Extends s (put_object h o s)
unfolding put_object get_object lookup
Extends-put_object h o s clean k p e = ground (arith, clean.0 p, bytes_eq_iff h k)

pub get_object-put_object :
    (h : Hash) (o : Object) (s : Store) → get_object (put_object h o s) h ≡ ok o
unfolding put_object get_object lookup
get_object-put_object h o s = ground (arith, bytes_eq_refl h)

pub record WellFormed (t : Tree) : Type 0 where
  pub valid : All IsEntry t.entries
  pub ascends : Ascends entry_key t.entries
  pub nonzero : All (λ e. is_zero e.hash ≡ false) t.entries

validate_entries-IsEntry : (es : List TreeEntry) → All IsEntry es → validate_entries es ≡ ok tt
unfolding validate_entries
validate_entries-IsEntry [] a = refl
validate_entries-IsEntry (e ∷ es) a =
    rw (a.0.kind_valid) (ground (arith, validate_entries-IsEntry es a.1))

length-encode_entries :
    (es : List TreeEntry) → All IsEntry es → 34 * length es ≤ length (encode_entries es)
unfolding encode_entries
length-encode_entries [] a = omega arith
length-encode_entries (e ∷ es) a = omega (
  arith,
  a.0.hash_fits,
  length-append e.name (e.hash ++ encode_entries es),
  length-append e.hash (encode_entries es),
  length-encode_entries es a.1,
)

module _ (sha256 : Bytes → Hash) where
  abbrev pub tree_hash : Tree → Hash
  tree_hash t = (encode_tree sha256 t).0

  abbrev pub after_put : Tree → Store → Store
  after_put t s = put_object (encode_tree sha256 t).0 (encode_tree sha256 t).1 s

  pub put_tree_ok :
      (t : Tree) (s : Store)
      → All IsEntry t.entries
      → put_tree sha256 t s ≡ (ok (tree_hash t), after_put t s)
  unfolding put_tree
  put_tree_ok t s a = rw (validate_entries-IsEntry t.entries a)

  pub load_tree-Extends :
      (s s' : Store) (h : Hash) {t : Tree}
      → Extends s s'
      → load_tree sha256 s h ≡ ok t
      → load_tree sha256 s' h ≡ ok t
  unfolding load_tree
  load_tree-Extends s s' h ext e = elim (Result-cases (get_object s h)) [
    | inl (o, q) ↦ rw (ext h o q) (rw q at e)
    | inr (x, q) ↦ cc (rw q at e)
  ]

  verify-encode_object :
      (kind payload : Bytes)
      → kind_is_valid kind ≡ true
      → verify sha256 (encode_object sha256 kind payload).0 (encode_object sha256 kind payload).1
        ≡ ok tt
  unfolding verify encode_object
  verify-encode_object kind payload h = ground (arith, bytes_eq_refl (hash_of sha256 kind payload))

  decode_tree-WellFormed :
      (t : Tree)
      → WellFormed t
      → length (tree_payload t) ≤ 2 ^ 47
      → decode_tree (tree_payload t) ≡ ok t
  unfolding tree_payload sort_entries
  decode_tree-WellFormed t w small =
      let same = sort_on_ascending entry_key t.entries w.ascends in
      let few : length t.entries * 56 ≤ 2 ^ 48 = omega (
        arith,
        length-encode_entries t.entries w.valid,
        length-append (put_uvarint 9 (length t.entries)) (encode_entries t.entries),
        rw same at small,
      ) in
      decode_tree-tree_payload t (record {
        entries_valid = w.valid;
        distinct = Ascends-Distinct entry_key t.entries w.ascends;
        allocatable = few;
      })
      ∙ ap (λ es. ok (record { entries = es })) same

  load_encoded :
      (t : Tree) (s : Store)
      → get_object s (tree_hash t) ≡ ok (encode_tree sha256 t).1
      → decode_tree (tree_payload t) ≡ ok t
      → load_tree sha256 s (tree_hash t) ≡ ok t
  unfolding load_tree encode_tree
  load_encoded t s stored decoded = rw stored (
      rw (verify-encode_object kind_tree (tree_payload t) tree_is_valid)
        (rw (bytes_eq_refl kind_tree) decoded))

  -- A tree that was put can be loaded by its hash.
  pub load_tree-put_tree :
      (t : Tree) (s : Store)
      → WellFormed t
      → Clean (after_put t s).objects
      → load_tree sha256 (after_put t s) (tree_hash t) ≡ ok t
  unfolding put_object encode_tree encode_object
  load_tree-put_tree t s w clean =
      load_encoded t (after_put t s) (get_object-put_object _ _ s)
        (decode_tree-WellFormed t w clean.2)
