-- ===== src/Object/TreeOps/View.antt =====
-- A stored zone tree as a map from owner path and record type to a blob hash.
use zonegit.Base.{
  ℕ, zero, suc, ◌≡◌, refl, sym, ◌∙◌, arith, false, List, [], ◌∷◌, Bytes, if◌then◌else◌,
  Option-cases, ok, err, All, find_key, All-find_key, find_key-key, inl, inr, Bool-cases,
}
use mathlib.Core.Path.{subst}
use zonegit.Store.Hash.{Hash, is_zero, is_zero_iff, zero_hash}
use zonegit.Store.MemStore.{Store}
use zonegit.Object.Tree.{TreeEntry, Tree, entry_key, key_of, entry_leaf, entry_subtree}
use zonegit.Object.Tree.Order.{key_of-injective}
use zonegit.Object.TreeOps.{Labels, load_tree}
use zonegit.Object.TreeOps.Entries.{hash_at, hash_at-some, hash_at-none, hash_at-nil}
use zonegit.Object.TreeOps.Stored.{WellFormed, Extends, load_tree-Extends}

module _ (sha256 : Bytes → Hash) where
  -- What stands at a hash: the zero hash is the empty tree, and so is what cannot be loaded.
  unfoldable pub entries_at : Store → Hash → List TreeEntry
  entries_at s h =
      if is_zero h then [] else elim (load_tree sha256 s h) [ ok t ↦ t.entries | err _ ↦ [] ]

  -- The blob hash at a path and a record type, zero if there is none.
  unfoldable pub view : Store → Hash → Labels → Bytes → Hash
  view s h [] rrtype = hash_at entry_leaf rrtype (entries_at s h)
  view s h (label ∷ path) rrtype = view s (hash_at entry_subtree label (entries_at s h)) path rrtype

  -- The same, from entries at hand.
  unfoldable pub view_in : Store → List TreeEntry → Labels → Bytes → Hash
  view_in s es [] rrtype = hash_at entry_leaf rrtype es
  view_in s es (label ∷ path) rrtype = view s (hash_at entry_subtree label es) path rrtype

  -- A zone tree of height at most `n` is stored at the hash.
  abbrev pub IsTreeAt : Store → ℕ → Hash → Type 0
  IsTreeAt s zero h = h ≡ zero_hash
  IsTreeAt s (suc n) h =
      is_zero h ≡ false
      → (t : Tree) × (load_tree sha256 s h ≡ ok t)
        × WellFormed t
        × All (λ e. e.kind ≡ entry_subtree → IsTreeAt s n e.hash) t.entries

  abbrev pub Below : Store → ℕ → List TreeEntry → Type 0
  Below s n es = All (λ e. e.kind ≡ entry_subtree → IsTreeAt s n e.hash) es

  pub view-view_in :
      (s : Store) (h : Hash) (path : Labels) (rrtype : Bytes)
      → view s h path rrtype ≡ view_in s (entries_at s h) path rrtype
  unfolding view view_in
  view-view_in s h [] rrtype = refl
  view-view_in s h (label ∷ path) rrtype = refl

  pub entries_at-loaded :
      (s : Store) (h : Hash) {t : Tree}
      → is_zero h ≡ false
      → load_tree sha256 s h ≡ ok t
      → entries_at s h ≡ t.entries
  unfolding entries_at
  entries_at-loaded s h {t} nz e = ground (arith, nz, e)

  pub entries_at-zero : (s : Store) → entries_at s zero_hash ≡ []
  unfolding entries_at
  entries_at-zero s = ground (arith, is_zero_iff zero_hash)

  pub IsTreeAt-zero_hash : (s : Store) (n : ℕ) → IsTreeAt s n zero_hash
  IsTreeAt-zero_hash s zero = refl
  IsTreeAt-zero_hash s (suc n) = λ nz. absurd (ground (arith, is_zero_iff zero_hash))

  -- The hash that a key finds among entries is the root of a tree, or zero.
  pub IsTreeAt-hash_at :
      (s : Store) (n : ℕ) (es : List TreeEntry) (label : Bytes)
      → Below s n es
      → IsTreeAt s n (hash_at entry_subtree label es)
  IsTreeAt-hash_at s n es label b =
      elim (Option-cases (find_key entry_key (key_of entry_subtree label) es)) [
        | inl e ↦
            subst (IsTreeAt s n) (sym (hash_at-none entry_subtree label es e))
              (IsTreeAt-zero_hash s n)
        | inr (x, e) ↦
            let key = key_of-injective (find_key-key entry_key _ es e) in
            subst (IsTreeAt s n) (sym (hash_at-some entry_subtree label es e)) (
              All-find_key entry_key (λ z. z.kind ≡ entry_subtree → IsTreeAt s n z.hash) _ es b e
                key.0)
      ]

  mutual_step :
      (s s' : Store) (n : ℕ)
      → ((h : Hash) → IsTreeAt s n h → IsTreeAt s' n h)
      → (es : List TreeEntry) → Below s n es
      → Below s' n es
  mutual_step s s' n f [] b = tt
  mutual_step s s' n f (e ∷ es) b = (λ k. f e.hash (b.0 k), mutual_step s s' n f es b.1)

  pub IsTreeAt-Extends :
      (s s' : Store) (n : ℕ) (h : Hash) → Extends s s' → IsTreeAt s n h → IsTreeAt s' n h
  IsTreeAt-Extends s s' zero h ext i = i
  IsTreeAt-Extends s s' (suc n) h ext i = λ nz.
      let (t, loaded, w, b) = i nz in
      (
        t,
        load_tree-Extends sha256 s s' h ext loaded,
        w,
        mutual_step s s' n (λ k. IsTreeAt-Extends s s' n k ext) t.entries b,
      )

  pub Below-Extends :
      (s s' : Store) (n : ℕ) (es : List TreeEntry) → Extends s s' → Below s n es → Below s' n es
  Below-Extends s s' n es ext = mutual_step s s' n (λ k. IsTreeAt-Extends s s' n k ext) es

  entries_at-Extends :
      (s s' : Store) (n : ℕ) (h : Hash)
      → Extends s s'
      → IsTreeAt s n h
      → entries_at s' h ≡ entries_at s h
  entries_at-Extends s s' zero h ext i = rw i (entries_at-zero s' ∙ sym (entries_at-zero s))
  entries_at-Extends s s' (suc n) h ext i = elim (Bool-cases (is_zero h)) [
    | inl z ↦ unfold entries_at in rw z
    | inr nz ↦
        let (t, loaded, w, b) = i nz in
        entries_at-loaded s' h nz (load_tree-Extends sha256 s s' h ext loaded)
        ∙ sym (entries_at-loaded s h nz loaded)
  ]

  -- The entries of a stored tree, and that they are well formed.
  pub entries_at-WellFormed :
      (s : Store) (n : ℕ) (h : Hash)
      → IsTreeAt s (suc n) h
      → WellFormed (record { entries = entries_at s h }) × Below s n (entries_at s h)
  entries_at-WellFormed s n h i = elim (Bool-cases (is_zero h)) [
    | inl z ↦ unfold entries_at in rw z (record { valid = tt; ascends = tt; nonzero = tt }, tt)
    | inr nz ↦ let (t, loaded, w, b) = i nz in rw (entries_at-loaded s h nz loaded) (w, b)
  ]

  -- A store that grows shows the same zone under a hash.
  pub view-Extends :
      (s s' : Store) (n : ℕ) (h : Hash) (path : Labels) (rrtype : Bytes)
      → Extends s s'
      → IsTreeAt s n h
      → view s' h path rrtype ≡ view s h path rrtype
  unfolding view
  view-Extends s s' n h [] rrtype ext i = rw (entries_at-Extends s s' n h ext i)
  view-Extends s s' zero h (label ∷ path) rrtype ext i =
      let empty : hash_at entry_subtree label (entries_at s h) ≡ zero_hash =
        rw (i, entries_at-zero s) (hash_at-nil entry_subtree label) in
      rw (entries_at-Extends s s' zero h ext i) (view-Extends s s' zero _ path rrtype ext empty)
  view-Extends s s' (suc n) h (label ∷ path) rrtype ext i =
      rw (entries_at-Extends s s' (suc n) h ext i) (
        view-Extends s s' n _ path rrtype ext
          (IsTreeAt-hash_at s n (entries_at s h) label (entries_at-WellFormed s n h i).1))

  pub view-zero_hash :
      (s : Store) (path : Labels) (rrtype : Bytes) → view s zero_hash path rrtype ≡ zero_hash
  unfolding view
  view-zero_hash s [] rrtype = rw (entries_at-zero s) (hash_at-nil entry_leaf rrtype)
  view-zero_hash s (label ∷ path) rrtype =
      rw (entries_at-zero s, hash_at-nil entry_subtree label) (view-zero_hash s path rrtype)
