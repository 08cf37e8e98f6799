-- ===== src/Merge/Keys.antt =====
-- The three cursors of the merge walk.
use zonegit.Base.{
  ◌≡◌, ◌⊎◌, refl, sym, ◌∙◌, arith, true, false, List, [], ◌∷◌, Bytes, bytes_lt, bytes_lt-cons,
  bytes_lt_irrefl, bytes_lt_trans, bytes_trichotomy, Option, none, some, Bool-cases, inl, inr,
}
use mathlib.Core.Path.{subst}
use zonegit.Object.Tree.{
  EntryKind, TreeEntry, entry_key, key_of, entry_leaf, entry_subtree, entry_kind_is_valid,
}
use zonegit.Merge.{less_kn, least, cursor, min_key}

-- `less_kn` is the order of the entries' keys.
less_kn-key :
    (ka : EntryKind) (na : Bytes) (kb : EntryKind) (nb : Bytes)
    → less_kn ka na kb nb ≡ bytes_lt (key_of ka na) (key_of kb nb)
unfolding less_kn key_of
less_kn-key ka na kb nb = ground (arith, bytes_lt-cons ka kb na nb)

not_lt_trans : (a b c : Bytes) → bytes_lt b a ≡ false → bytes_lt c b ≡ false → bytes_lt c a ≡ false
not_lt_trans a b c h k = ground (
  arith,
  bytes_trichotomy a b,
  bytes_trichotomy b c,
  bytes_lt_trans c a b,
  bytes_lt_trans a b c,
  bytes_lt_trans c b a,
)

-- The key is at or below the cursor's.
abbrev pub Reaches : Bytes → Option TreeEntry → Type 0
Reaches k none = Unit {0}
Reaches k (some e) = bytes_lt (entry_key e) k ≡ false

Reaches-least :
    (k : Bytes) (x y : Option TreeEntry) → Reaches k (least x y) → Reaches k x × Reaches k y
unfolding least
Reaches-least k none y r = (tt, r)
Reaches-least k (some e) none r = (r, tt)
Reaches-least k (some e) (some f) r = elim (Bool-cases (less_kn f.kind f.name e.kind e.name)) [
  | inl lt ↦
      let below = sym (less_kn-key f.kind f.name e.kind e.name) ∙ lt in
      let r' : bytes_lt (entry_key f) k ≡ false = rw lt at r in
      (ground (arith, below, bytes_lt_trans (entry_key f) (entry_key e) k), r')
  | inr ge ↦
      let above = sym (less_kn-key f.kind f.name e.kind e.name) ∙ ge in
      let r' : bytes_lt (entry_key e) k ≡ false = rw ge at r in
      (r', not_lt_trans k (entry_key e) (entry_key f) r' above)
]

least-cases :
    (x y : Option TreeEntry) {k : TreeEntry} → least x y ≡ some k → (x ≡ some k) ⊎ (y ≡ some k)
unfolding least
least-cases none y e = inr e
least-cases (some a) none e = inl e
least-cases (some a) (some b) {k} e = ground (arith, e)

-- The least key is at or below every cursor, and it is that of one of them.
pub min_key_lower :
    (bs os ts : List TreeEntry) {k : TreeEntry}
    → min_key bs os ts ≡ some k
    → Reaches (entry_key k) (cursor bs)
      × Reaches (entry_key k) (cursor os)
      × Reaches (entry_key k) (cursor ts)
unfolding min_key
min_key_lower bs os ts {k} e =
    let at_k : Reaches (entry_key k) (some k) = bytes_lt_irrefl (entry_key k) in
    let all = subst (Reaches (entry_key k)) (sym e) at_k in
    let (bo, t) = Reaches-least (entry_key k) (least (cursor bs) (cursor os)) (cursor ts) all in
    let (b, o) = Reaches-least (entry_key k) (cursor bs) (cursor os) bo in (b, o, t)

pub min_key_cases :
    (bs os ts : List TreeEntry) {k : TreeEntry}
    → min_key bs os ts ≡ some k
    → (cursor bs ≡ some k) ⊎ ((cursor os ≡ some k) ⊎ (cursor ts ≡ some k))
unfolding min_key
min_key_cases bs os ts {k} e = elim (least-cases (least (cursor bs) (cursor os)) (cursor ts) e) [
  | inl h ↦ elim (least-cases (cursor bs) (cursor os) h) [ inl b ↦ inl b | inr o ↦ inr (inl o) ]
  | inr t ↦ inr (inr t)
]

pub min_key-none :
    (bs os ts : List TreeEntry) → min_key bs os ts ≡ none → (bs ≡ []) × (os ≡ []) × (ts ≡ [])
unfolding min_key least cursor
min_key-none [] [] [] e = (refl, refl, refl)
min_key-none [] [] (t ∷ ts) e = cc
min_key-none [] (o ∷ os) [] e = cc
min_key-none [] (o ∷ os) (t ∷ ts) e = absurd (ground (arith, e))
min_key-none (b ∷ bs) [] [] e = cc
min_key-none (b ∷ bs) [] (t ∷ ts) e = absurd (ground (arith, e))
min_key-none (b ∷ bs) (o ∷ os) [] e = absurd (ground (arith, e))
min_key-none (b ∷ bs) (o ∷ os) (t ∷ ts) e = absurd (ground (arith, e))

pub kind_cases :
    {kind : EntryKind}
    → entry_kind_is_valid kind ≡ true
    → (kind ≡ entry_subtree) ⊎ (kind ≡ entry_leaf)
unfolding entry_kind_is_valid
kind_cases valid = ground (arith, valid)
