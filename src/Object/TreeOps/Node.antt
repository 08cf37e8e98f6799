-- ===== src/Object/TreeOps/Node.antt =====
-- One node of `update_tree`: what `write_node` leaves behind.
use zonegit.Base.{
  ℕ, suc, ◌≤◌, ◌<◌, ◌≡◌, refl, arith, true, false, not, List, length, Bytes, ◌&&◌, Bool, ◌==◌, ok,
  inl, inr, Bool-cases,
}
use zonegit.Store.Hash.{Hash, is_zero, zero_hash, hash_size}
use zonegit.Store.MemStore.{Store, put_object}
use zonegit.Object.Tree.{EntryKind, TreeEntry, Tree, entry_kind_is_valid}
use zonegit.Object.{encode_object, hash_of}
use zonegit.Object.Tree.Codec.{encode_tree}
use zonegit.Object.Tree.Codec.RoundTrip.{IsEntry}
use zonegit.Object.TreeOps.{set_entry, write_node}
use zonegit.Object.TreeOps.SetEntry.{Ascends-set_entry, All-set_entry}
use zonegit.Object.TreeOps.Stored.{
  WellFormed, Extends, Extends-put_object, Clean, put_tree_ok, load_tree-put_tree, tree_hash,
  after_put,
}
use zonegit.Object.TreeOps.View.{
  entries_at, IsTreeAt, Below, entries_at-loaded, entries_at-zero, IsTreeAt-zero_hash,
  Below-Extends,
}

-- A label or a record type that a tree entry can hold.
abbrev pub IsName : Bytes → Type 0
IsName name = (0 < length name) × (length name ≤ 255)

pub WellFormed-set_entry :
    (t : Tree) (kind : EntryKind) (name : Bytes) (hash : Hash)
    → entry_kind_is_valid kind ≡ true
    → IsName name
    → length hash ≡ hash_size
    → WellFormed t
    → WellFormed (set_entry t kind name hash)
WellFormed-set_entry t kind name hash k n size w = record {
  valid =
      All-set_entry t kind name hash IsEntry
        (λ _. record { kind_valid = k; named = n.0; name_fits = n.1; hash_fits = size }) w.valid;
  ascends = Ascends-set_entry t kind name hash w.ascends;
  nonzero = All-set_entry t kind name hash (λ e. is_zero e.hash ≡ false) (λ nz. nz) w.nonzero;
}

module _ (sha256 : Bytes → Hash) (sha256_size : (m : Bytes) → length (sha256 m) ≡ hash_size) where
  -- What a write of the entries `es` leaves behind: a tree of theirs at the hash `h`.
  pub record Written (s s' : Store) (n : ℕ) (h : Hash) (es : List TreeEntry) : Type 0 where
    pub extends : Extends s s'
    pub shows : entries_at sha256 s' h ≡ es
    pub tree : IsTreeAt sha256 s' (suc n) h
    pub size : length h ≡ hash_size

  tree_hash_size : (t : Tree) → length (tree_hash sha256 t) ≡ hash_size
  unfolding encode_tree encode_object hash_of
  tree_hash_size t = sha256_size _

  Written-put :
      (t : Tree) (s : Store) (n : ℕ)
      → WellFormed t
      → Below sha256 s n t.entries
      → Clean (after_put sha256 t s).objects
      → Written s (after_put sha256 t s) n (tree_hash sha256 t) t.entries
  Written-put t s n w b clean =
      let loaded = load_tree-put_tree sha256 t s w clean in
      let ext = Extends-put_object _ _ s clean in
      let nonzero : is_zero (tree_hash sha256 t) ≡ false = unfold put_object in clean.1 in
      record {
        extends = ext;
        shows = entries_at-loaded sha256 _ _ nonzero loaded;
        tree = λ nz. (t, loaded, w, Below-Extends sha256 s _ n t.entries ext b);
        size = tree_hash_size t;
      }

  Written-drop :
      (t : Tree) (s : Store) (n : ℕ) → length t.entries ≡ 0 → Written s s n zero_hash t.entries
  Written-drop t s n e = record {
    extends = λ h o p. p;
    shows = rw (entries_at-zero sha256 s) (ground (arith, e));
    tree = IsTreeAt-zero_hash sha256 s (suc n);
    size = unfold zero_hash in refl;
  }

  pub write_node-Written :
      (is_root : Bool) (t : Tree) (s : Store) (n : ℕ)
      → WellFormed t
      → (h : Hash) × (s' : Store) × (write_node sha256 is_root t s ≡ (ok h, s'))
        × (length h ≡ hash_size)
        × (Clean s'.objects
            → Clean s.objects × (Below sha256 s n t.entries → Written s s' n h t.entries))
  unfolding write_node put_object
  write_node-Written is_root t s n w = elim (Bool-cases ((length t.entries == 0) && not is_root)) [
    | inl drop ↦ (
      zero_hash,
      s,
      rw drop,
      unfold zero_hash in refl,
      λ clean. (clean, λ b. Written-drop t s n (ground arith)),
    )
    | inr keep ↦ (
      tree_hash sha256 t,
      after_put sha256 t s,
      rw keep (put_tree_ok sha256 t s w.valid),
      tree_hash_size t,
      λ clean. (clean.3, λ b. Written-put t s n w b clean),
    )
  ]
