-- ===== src/Object/TreeOps/Entries.antt =====
-- What `set_entry` does to the entries of one tree.
use zonegit.Base.{
  ◌≤◌, ◌≡◌, refl, arith, false, ◌&&◌, List, [], ◌∷◌, ◌++◌, length, Bytes, bytes_eq, bytes_eq_iff,
  bytes_eq_refl, ◌==◌, if◌then◌else◌, Option, none, some, All, find_key, Distinct, Bool-cases, inl,
  inr,
}
use zonegit.Store.Hash.{Hash, zero_hash, is_zero}
use zonegit.Object.Tree.{EntryKind, TreeEntry, entry_key, key_of}
use zonegit.Object.Tree.Order.{key_eq}
use zonegit.Object.TreeOps.{replace_entry, has_entry}

-- The hash that a list of entries holds under a key, zero if there is none.
unfoldable pub hash_at : EntryKind → Bytes → List TreeEntry → Hash
hash_at kind name es = elim (find_key entry_key (key_of kind name) es) [
  | none ↦ zero_hash
  | some e ↦ e.hash
]

module _ (kind : EntryKind) (name : Bytes) (hash : Hash) where
  abbrev pub the_entry : TreeEntry
  the_entry = record { kind = kind; name = name; hash = hash }

  abbrev pub found : Option TreeEntry
  found = if is_zero hash then none else some the_entry

  pub has_entry-find_key :
      (es : List TreeEntry)
      → has_entry kind name es ≡ false
      → find_key entry_key (key_of kind name) es ≡ none
  unfolding has_entry find_key
  has_entry-find_key [] h = refl
  has_entry-find_key (e ∷ es) h = ground (arith, key_eq e kind name, has_entry-find_key es)

  pub find_key-replace_entry :
      (k : Bytes) (es : List TreeEntry)
      → find_key entry_key k (replace_entry kind name hash es) ≡ (
          if has_entry kind name es && bytes_eq (key_of kind name) k
          then found
          else if bytes_eq (key_of kind name) k
          then none
          else find_key entry_key k es)
  unfolding has_entry replace_entry find_key
  find_key-replace_entry k [] = ground arith
  find_key-replace_entry k (e ∷ es) = ground (
    arith,
    key_eq e kind name,
    bytes_eq_iff (entry_key e) (key_of kind name),
    bytes_eq_iff (entry_key e) k,
    bytes_eq_iff (key_of kind name) k,
    find_key-replace_entry k es,
  )

  find_key-has_entry :
      (es : List TreeEntry)
      → find_key entry_key (key_of kind name) es ≡ none
      → has_entry kind name es ≡ false
  unfolding has_entry find_key
  find_key-has_entry [] h = refl
  find_key-has_entry (e ∷ es) h = ground (arith, key_eq e kind name, find_key-has_entry es)

  pub Distinct-replace_entry :
      (es : List TreeEntry)
      → Distinct entry_key es
      → Distinct entry_key (replace_entry kind name hash es)
  unfolding replace_entry
  Distinct-replace_entry [] d = tt
  Distinct-replace_entry (e ∷ es) d =
      let rest = Distinct-replace_entry es d.1 in
      let at_e = find_key-replace_entry (entry_key e) es in
      let at_k = find_key-replace_entry (key_of kind name) es in
      let eq = key_eq e kind name in
      elim (Bool-cases ((e.kind == kind) && bytes_eq e.name name)) [
        | inr apart ↦ rw apart (
          ground (
            arith,
            at_e,
            d.0,
            eq,
            bytes_eq_iff (key_of kind name) (entry_key e),
            bytes_eq_iff (entry_key e) (key_of kind name),
          ),
          rest,
        )
        | inl same ↦
            let p : entry_key e ≡ key_of kind name = (bytes_eq_iff _ _).0 (ground arith) in
            let gone : find_key entry_key (key_of kind name) es ≡ none = rw p at d.0 in
            let absent = find_key-has_entry es gone in
            rw same (elim (Bool-cases (is_zero hash)) [
              | inl z ↦ rw z rest
              | inr z ↦ rw z (ground (arith, at_k, absent, bytes_eq_refl (key_of kind name)), rest)
            ])
      ]

  pub All-replace_entry :
      (P : TreeEntry → Type 0) (es : List TreeEntry)
      → (is_zero hash ≡ false → P the_entry)
      → All P es
      → All P (replace_entry kind name hash es)
  unfolding replace_entry
  All-replace_entry P [] p a = tt
  All-replace_entry P (e ∷ es) p a =
      let rest = All-replace_entry P es p a.1 in
      elim (Bool-cases ((e.kind == kind) && bytes_eq e.name name)) [
        | inr apart ↦ rw apart (a.0, rest)
        | inl same ↦
            rw same
              (elim (Bool-cases (is_zero hash)) [ inl z ↦ rw z rest | inr z ↦ rw z (p z, rest) ])
      ]

  pub length-replace_entry :
      (es : List TreeEntry) → length (replace_entry kind name hash es) ≤ length es
  unfolding replace_entry
  length-replace_entry [] = omega arith
  length-replace_entry (e ∷ es) = ground (arith, length-replace_entry es)

pub find_key-append :
    (k : Bytes) (es fs : List TreeEntry)
    → find_key entry_key k (es ++ fs)
      ≡ elim (find_key entry_key k es) [ none ↦ find_key entry_key k fs | some e ↦ some e ]
unfolding find_key
find_key-append k [] fs = refl
find_key-append k (e ∷ es) fs = ground (arith, find_key-append k es fs)

pub Distinct-append :
    (es : List TreeEntry) (x : TreeEntry)
    → Distinct entry_key es
    → find_key entry_key (entry_key x) es ≡ none
    → Distinct entry_key (es ++ (x ∷ []))
unfolding find_key
Distinct-append [] x d n = (refl, tt)
Distinct-append (e ∷ es) x d n = (
  ground (
    arith,
    find_key-append (entry_key e) es (x ∷ []),
    d.0,
    bytes_eq_iff (entry_key e) (entry_key x),
    bytes_eq_iff (entry_key x) (entry_key e),
  ),
  Distinct-append es x d.1 (ground arith),
)

pub hash_at-some :
    (kind : EntryKind) (name : Bytes) (es : List TreeEntry) {e : TreeEntry}
    → find_key entry_key (key_of kind name) es ≡ some e
    → hash_at kind name es ≡ e.hash
unfolding hash_at
hash_at-some kind name es {e} h = ground (arith, h)

pub hash_at-none :
    (kind : EntryKind) (name : Bytes) (es : List TreeEntry)
    → find_key entry_key (key_of kind name) es ≡ none
    → hash_at kind name es ≡ zero_hash
unfolding hash_at
hash_at-none kind name es h = ground (arith, h)

pub hash_at-nil : (kind : EntryKind) (name : Bytes) → hash_at kind name [] ≡ zero_hash
hash_at-nil kind name = hash_at-none kind name [] (unfold find_key in refl)
