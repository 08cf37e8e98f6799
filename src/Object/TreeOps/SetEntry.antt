-- ===== src/Object/TreeOps/SetEntry.antt =====
-- `set_entry` changes one key and keeps the entries in order.
use zonegit.Base.{
  ◌≡◌, ◌∙◌, arith, false, ◌||◌, List, [], ◌∷◌, ◌++◌, Bytes, bytes_eq, bytes_eq_iff, bytes_eq_refl,
  if◌then◌else◌, All, find_key, find_key-sort_on, Distinct, Ascends, Ascends-Distinct,
  Distinct-sort_on, All-sort_on, Bool-cases, inl, inr, All-append,
}
use zonegit.Store.Hash.{Hash, is_zero, is_zero_iff}
use zonegit.Object.Tree.{EntryKind, TreeEntry, Tree, entry_key, key_of, sort_entries}
use zonegit.Object.TreeOps.{replace_entry, has_entry, set_entry}
use zonegit.Object.TreeOps.Entries.{
  hash_at, the_entry, found, has_entry-find_key, find_key-replace_entry, Distinct-replace_entry,
  All-replace_entry, find_key-append, Distinct-append,
}

module _ (t : Tree) (kind : EntryKind) (name : Bytes) (hash : Hash) where
  pub find_key-set_entry :
      (k : Bytes)
      → find_key entry_key k (set_entry t kind name hash).entries ≡ (
          if bytes_eq (key_of kind name) k
          then found kind name hash
          else find_key entry_key k t.entries)
  unfolding set_entry sort_entries find_key
  find_key-set_entry k = elim (Bool-cases (has_entry kind name t.entries || is_zero hash)) [
    | inl e ↦ rw e (
        find_key-sort_on entry_key k (replace_entry kind name hash t.entries)
        ∙ ground (arith, find_key-replace_entry kind name hash k t.entries))
    | inr e ↦ rw e (
        find_key-sort_on entry_key k (replace_entry kind name hash t.entries ++ extra)
        ∙ ground (
          arith,
          find_key-append k (replace_entry kind name hash t.entries) extra,
          find_key-replace_entry kind name hash k t.entries,
          has_entry-find_key kind name hash t.entries,
          bytes_eq_iff (key_of kind name) k,
        ))
  ]
    where
      extra : List TreeEntry
      extra = the_entry kind name hash ∷ []

  -- The entry that was set holds the new hash, and every other entry is as before.
  pub hash_at-set_entry :
      (kind' : EntryKind) (name' : Bytes)
      → hash_at kind' name' (set_entry t kind name hash).entries ≡ (
          if bytes_eq (key_of kind name) (key_of kind' name')
          then hash
          else hash_at kind' name' t.entries)
  unfolding hash_at
  hash_at-set_entry kind' name' =
      ground (arith, find_key-set_entry (key_of kind' name'), is_zero_iff hash)

  pub Ascends-set_entry :
      Ascends entry_key t.entries → Ascends entry_key (set_entry t kind name hash).entries
  unfolding set_entry sort_entries
  Ascends-set_entry a = Distinct-sort_on entry_key _ distinct
    where
      kept : Distinct entry_key (replace_entry kind name hash t.entries)
      kept =
          Distinct-replace_entry kind name hash t.entries (Ascends-Distinct entry_key t.entries a)

      distinct : Distinct entry_key (
          if has_entry kind name t.entries || is_zero hash
          then replace_entry kind name hash t.entries
          else (replace_entry kind name hash t.entries ++ (the_entry kind name hash ∷ [])))
      distinct = elim (Bool-cases (has_entry kind name t.entries || is_zero hash)) [
        | inl e ↦ rw e kept
        | inr e ↦ rw e (
            Distinct-append (replace_entry kind name hash t.entries) (the_entry kind name hash) kept
              (ground (
                arith,
                find_key-replace_entry kind name hash (key_of kind name) t.entries,
                has_entry-find_key kind name hash t.entries,
                bytes_eq_refl (key_of kind name),
              )))
      ]

  pub All-set_entry :
      (P : TreeEntry → Type 0)
      → (is_zero hash ≡ false → P (the_entry kind name hash))
      → All P t.entries
      → All P (set_entry t kind name hash).entries
  unfolding set_entry sort_entries
  All-set_entry P p a = All-sort_on entry_key P _ all
    where
      kept : All P (replace_entry kind name hash t.entries)
      kept = All-replace_entry kind name hash P t.entries p a

      all : All P (
          if has_entry kind name t.entries || is_zero hash
          then replace_entry kind name hash t.entries
          else (replace_entry kind name hash t.entries ++ (the_entry kind name hash ∷ [])))
      all = elim (Bool-cases (has_entry kind name t.entries || is_zero hash)) [
        | inl e ↦ rw e kept
        | inr e ↦ rw e (
            All-append P (replace_entry kind name hash t.entries) (the_entry kind name hash ∷ [])
              kept (p (ground arith), tt))
      ]
