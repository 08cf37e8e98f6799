-- ===== src/Merge/Step.antt =====
-- One key of the merge walk: what it adds to the merged entries, and what that shows.
use zonegit.Base.{
  ℕ, ◌≡◌, refl, sym, arith, true, false, List, [], ◌∷◌, ◌++◌, append-nil, length, Bytes, bytes_eq,
  bytes_eq_refl, bytes_lt, ok, Outcome, AllAbove, AllAbove-trans, find_key, find_key_above,
  Bool-cases, inl, inr, if◌then◌else◌, In, ◌⊎◌, ◌↔◌,
}
use zonegit.Store.Hash.{Hash, is_zero, hash_size, is_zero_iff}
use zonegit.Store.MemStore.{Store}
use zonegit.Object.Tree.{EntryKind, TreeEntry, entry_key, key_of, entry_leaf, entry_subtree}
use zonegit.Object.Tree.Codec.RoundTrip.{IsEntry}
use zonegit.Object.TreeOps.{Labels}
use zonegit.Object.TreeOps.Entries.{hash_at}
use zonegit.Object.TreeOps.Stored.{WellFormed, Extends}
use zonegit.Object.TreeOps.View.{view, view_in, IsTreeAt, Below, IsTreeAt-hash_at, view-Extends}
use zonegit.Merge.Reported.{ClashAt, Reported}
use zonegit.Merge.{Conflict, Merging, resolve_leaf, keep_entry}

-- The winner of a three-way merge of one leaf.
abbrev pub resolved : Hash → Hash → Hash → Hash
resolved b o t = (resolve_leaf b o t).0

-- The entry of a key, none for the zero hash.
unfoldable pub piece : EntryKind → Bytes → Hash → List TreeEntry
piece kind name h = if is_zero h then [] else (record { kind = kind; name = name; hash = h } ∷ [])

pub keep_entry-piece :
    (kind : EntryKind) (name : Bytes) (h : Hash) (merged : List TreeEntry)
    → keep_entry kind name h merged ≡ merged ++ piece kind name h
unfolding keep_entry piece
keep_entry-piece kind name h merged = elim (Bool-cases (is_zero h)) [
  | inl z ↦ rw z (sym (append-nil merged))
  | inr z ↦ rw z refl
]

module _ (kind : EntryKind) (name : Bytes) (h : Hash) (new : List TreeEntry)
    (above : AllAbove entry_key (key_of kind name) new) where
  -- Under its own key the piece shows its hash.
  pub hash_at-piece : hash_at kind name (piece kind name h ++ new) ≡ h
  unfolding piece hash_at find_key
  hash_at-piece = ground (
    arith,
    bytes_eq_refl (key_of kind name),
    is_zero_iff h,
    find_key_above entry_key (key_of kind name) new above,
  )

  pub hash_at-piece_apart :
      (kind' : EntryKind) (name' : Bytes)
      → bytes_eq (key_of kind name) (key_of kind' name') ≡ false
      → hash_at kind' name' (piece kind name h ++ new) ≡ hash_at kind' name' new
  unfolding piece hash_at find_key
  hash_at-piece_apart kind' name' apart = ground (arith, apart)

-- The key under which a view looks first, and the entries of one node of a stored tree.
abbrev pub Row : (Bytes → Hash) → Store → ℕ → List TreeEntry → Type 0
Row sha256 s n es = WellFormed (record { entries = es }) × Below sha256 s n es

module _ (sha256 : Bytes → Hash) where
  -- What the walk makes of one key: its hash, in the store that it leaves.
  pub record Keyed (n : ℕ) (path : Labels) (k : TreeEntry) (b o t : Hash) (st st' : Merging)
      (h : Hash) : Type 0 where
    pub extends : Extends st.0 st'.0
    pub size : length h ≡ hash_size
    pub tree : k.kind ≡ entry_subtree → IsTreeAt sha256 st'.0 n h
    pub leaf : k.kind ≡ entry_leaf → h ≡ resolved b o t
    pub subtree :
        k.kind ≡ entry_subtree
        → (q : Labels) (rrtype : Bytes)
        → view sha256 st'.0 h q rrtype
          ≡ resolved
              (view sha256 st.0 b q rrtype)
              (view sha256 st.0 o q rrtype)
              (view sha256 st.0 t q rrtype)
    pub leaf_clash :
        k.kind ≡ entry_leaf
        → (c : Conflict) → In c st'.1 ↔ (In c st.1 ⊎ ((c.rrtype ≡ k.name) × ClashAt path b o t c))
    pub subtree_clashes :
        k.kind ≡ entry_subtree
        → Reported
            (path ++ (k.name ∷ []))
            (view sha256 st.0 b)
            (view sha256 st.0 o)
            (view sha256 st.0 t)
            st.1
            st'.1

  -- What the loop makes of the entries under the cursors.
  pub record Looped (n : ℕ) (path : Labels) (bs os ts merged : List TreeEntry) (st : Merging)
      (out : Outcome Merging (List TreeEntry)) : Type 0 where
    pub new : List TreeEntry
    pub result : out.0 ≡ ok (merged ++ new)
    pub extends : Extends st.0 out.1.0
    pub row : Row sha256 out.1.0 n new
    pub above :
        (k : Bytes)
        → AllAbove entry_key k bs
        → AllAbove entry_key k os
        → AllAbove entry_key k ts
        → AllAbove entry_key k new
    pub shows :
        (q : Labels) (rrtype : Bytes)
        → view_in sha256 out.1.0 new q rrtype
          ≡ resolved
              (view_in sha256 st.0 bs q rrtype)
              (view_in sha256 st.0 os q rrtype)
              (view_in sha256 st.0 ts q rrtype)
    pub reported :
        Reported path
          (view_in sha256 st.0 bs)
          (view_in sha256 st.0 os)
          (view_in sha256 st.0 ts)
          st.1
          out.1.1

  pub view_in-Extends :
      (s s' : Store) (n : ℕ) (es : List TreeEntry) (q : Labels) (rrtype : Bytes)
      → Extends s s'
      → Below sha256 s n es
      → view_in sha256 s' es q rrtype ≡ view_in sha256 s es q rrtype
  unfolding view_in
  view_in-Extends s s' n es [] rrtype ext b = refl
  view_in-Extends s s' n es (l ∷ q) rrtype ext b =
      view-Extends sha256 s s' n _ q rrtype ext (IsTreeAt-hash_at sha256 s n es l b)

  pub Row-piece :
      (s : Store) (n : ℕ) (k : TreeEntry) (h : Hash) (new : List TreeEntry)
      → IsEntry k
      → length h ≡ hash_size
      → (k.kind ≡ entry_subtree → IsTreeAt sha256 s n h)
      → AllAbove entry_key (entry_key k) new
      → Row sha256 s n new
      → Row sha256 s n (piece k.kind k.name h ++ new)
  unfolding piece
  Row-piece s n k h new entry size tree above row = elim (Bool-cases (is_zero h)) [
    | inl z ↦ rw z row
    | inr z ↦ rw z (
      record {
        valid = (
          record {
            kind_valid = entry.kind_valid;
            named = entry.named;
            name_fits = entry.name_fits;
            hash_fits = size;
          },
          row.0.valid,
        );
        ascends = (above, row.0.ascends);
        nonzero = (z, row.0.nonzero);
      },
      (tree, row.1),
    )
  ]

  pub AllAbove-piece :
      (j : Bytes) (k : TreeEntry) (h : Hash) (new : List TreeEntry)
      → bytes_lt j (entry_key k) ≡ true
      → AllAbove entry_key (entry_key k) new
      → AllAbove entry_key j (piece k.kind k.name h ++ new)
  unfolding piece
  AllAbove-piece j k h new lt above =
      let rest = AllAbove-trans entry_key j (entry_key k) new lt above in
      elim (Bool-cases (is_zero h)) [ inl z ↦ rw z rest | inr z ↦ rw z (lt, rest) ]
