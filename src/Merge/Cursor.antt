-- ===== src/Merge/Cursor.antt =====
-- One cursor moving over one key.
use zonegit.Base.{
  ◌≤◌, ◌<◌, ◌≡◌, refl, sym, arith, true, false, List, [], ◌∷◌, length, Bytes, bytes_eq,
  bytes_eq_iff, bytes_lt_of_not, some, All, AllAbove, AllAbove-trans, Ascends, find_key,
  find_key_above, Bool-cases, inl, inr,
}
use mathlib.Core.Path.{subst}
use zonegit.Store.Hash.{Hash, zero_hash}
use zonegit.Object.Tree.{EntryKind, TreeEntry, entry_key, key_of}
use zonegit.Object.Tree.Order.{key_eq}
use zonegit.Object.TreeOps.Entries.{hash_at, hash_at-none}
use zonegit.Merge.{cursor, advance}
use zonegit.Merge.Keys.{Reaches}

-- What `advance` over a key at or below the cursor gives.
pub record Advanced (kind : EntryKind) (name : Bytes) (es : List TreeEntry) (h : Hash)
    (rest : List TreeEntry) : Type 0 where
  pub hash : h ≡ hash_at kind name es
  pub ascends : Ascends entry_key rest
  pub above : AllAbove entry_key (key_of kind name) rest
  pub others :
      (kind' : EntryKind) (name' : Bytes)
      → bytes_eq (key_of kind name) (key_of kind' name') ≡ false
      → hash_at kind' name' rest ≡ hash_at kind' name' es
  pub no_longer : length rest ≤ length es
  pub moves :
      (e : TreeEntry)
      → cursor es ≡ some e
      → entry_key e ≡ key_of kind name
      → length rest < length es

advance_hit :
    (kind : EntryKind) (name : Bytes) (e : TreeEntry) (es : List TreeEntry)
    → entry_key e ≡ key_of kind name
    → Ascends entry_key (e ∷ es)
    → Advanced kind name (e ∷ es) e.hash es
unfolding hash_at find_key
advance_hit kind name e es same a = record {
  hash = ground (arith, bytes_eq_iff (entry_key e) (key_of kind name));
  ascends = a.1;
  above = rw (sym same) a.0;
  others = λ kind' name' apart. ground (
    arith,
    apart,
    bytes_eq_iff (entry_key e) (key_of kind' name'),
    bytes_eq_iff (key_of kind name) (key_of kind' name'),
  );
  no_longer = omega arith;
  moves = λ _ _ _. omega arith;
}

advance_miss :
    (kind : EntryKind) (name : Bytes) (es : List TreeEntry)
    → Reaches (key_of kind name) (cursor es)
    → ((e : TreeEntry) → cursor es ≡ some e → bytes_eq (entry_key e) (key_of kind name) ≡ false)
    → Ascends entry_key es
    → Advanced kind name es zero_hash es
unfolding cursor
advance_miss kind name es r apart a = record {
  hash = sym (
      hash_at-none kind name es
        (find_key_above entry_key (key_of kind name) es (above es r apart a)));
  ascends = a;
  above = above es r apart a;
  others = λ _ _ _. refl;
  no_longer = omega arith;
  moves = λ e at_e same.
      absurd (ground (arith, apart e at_e, bytes_eq_iff (entry_key e) (key_of kind name)));
}
  where
    above :
        (es : List TreeEntry)
        → Reaches (key_of kind name) (cursor es)
        → ((e : TreeEntry) → cursor es ≡ some e → bytes_eq (entry_key e) (key_of kind name) ≡ false)
        → Ascends entry_key es
        → AllAbove entry_key (key_of kind name) es
    above [] r apart a = tt
    above (e ∷ es) r apart a =
        let lt = bytes_lt_of_not (key_of kind name) (entry_key e) r (apart e refl) in
        (lt, AllAbove-trans entry_key (key_of kind name) (entry_key e) es lt a.0)

first_apart :
    (kind : EntryKind) (name : Bytes) (e f : TreeEntry) (es : List TreeEntry)
    → cursor (e ∷ es) ≡ some f
    → bytes_eq (entry_key e) (key_of kind name) ≡ false
    → bytes_eq (entry_key f) (key_of kind name) ≡ false
unfolding cursor
first_apart kind name e f es at_f apart =
    subst (λ z. bytes_eq (entry_key z) (key_of kind name) ≡ false) {x = e} {y = f} (cc) apart

advance-hit :
    (kind : EntryKind) (name : Bytes) (e : TreeEntry) (es : List TreeEntry)
    → bytes_eq (entry_key e) (key_of kind name) ≡ true
    → advance kind name (e ∷ es) ≡ (e.hash, es)
unfolding advance
advance-hit kind name e es h = ground (arith, h, key_eq e kind name)

advance-miss :
    (kind : EntryKind) (name : Bytes) (e : TreeEntry) (es : List TreeEntry)
    → bytes_eq (entry_key e) (key_of kind name) ≡ false
    → advance kind name (e ∷ es) ≡ (zero_hash, e ∷ es)
unfolding advance
advance-miss kind name e es h = ground (arith, h, key_eq e kind name)

pub advance-Advanced :
    (kind : EntryKind) (name : Bytes) (es : List TreeEntry)
    → Reaches (key_of kind name) (cursor es)
    → Ascends entry_key es
    → Advanced kind name es (advance kind name es).0 (advance kind name es).1
advance-Advanced kind name [] r a =
    unfold advance in
    advance_miss kind name [] (unfold cursor in tt) (λ e at_e. unfold cursor in cc) tt
advance-Advanced kind name (e ∷ es) r a =
    elim (Bool-cases (bytes_eq (entry_key e) (key_of kind name))) [
      | inl same ↦
          rw (advance-hit kind name e es same)
            (advance_hit kind name e es ((bytes_eq_iff _ _).0 same) a)
      | inr apart ↦
          rw (advance-miss kind name e es apart) (
            advance_miss kind name (e ∷ es) r (λ f at_f. first_apart kind name e f es at_f apart) a)
    ]

-- The cursor passes entries, and makes none.
pub All-advance :
    (P : TreeEntry → Type 0) (kind : EntryKind) (name : Bytes) (es : List TreeEntry)
    → All P es
    → All P (advance kind name es).1
All-advance P kind name [] all = unfold advance in tt
All-advance P kind name (e ∷ es) all =
    elim (Bool-cases (bytes_eq (entry_key e) (key_of kind name))) [
      | inl same ↦ rw (advance-hit kind name e es same) all.1
      | inr apart ↦ rw (advance-miss kind name e es apart) all
    ]
