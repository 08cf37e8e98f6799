-- ===== src/Object/Tree/Order.antt =====
-- The order of entries is the order of their byte keys.
use Prim.Native.Nat.{Ordering}
use zonegit.Base.{
  ◌≡◌, refl, arith, true, List, [], ◌∷◌, Bytes, bytes_eq, bytes_eq_iff, bytes_lt, bytes_lt-cons,
  bytes_eq-cons, bytes_lt_irrefl, bytes_lt-asym, bytes_eq_of_lt, bytes_trichotomy, Ascends,
  AllAbove, AllAbove-trans, if◌then◌else◌, ◌==◌, ◌&&◌, All, ◌≢◌, sym,
}
use zonegit.Object.Tree.{
  EntryKind, TreeEntry, cmp_entry, key_of, entry_key, is_sorted, first_duplicate,
}

-- `cmp_entry` is the three-way order of the byte strings `kind ∷ name`.
pub cmp_entry-key :
    (ka : EntryKind) (na : Bytes) (kb : EntryKind) (nb : Bytes)
    → cmp_entry ka na kb nb ≡ (
        if bytes_lt (key_of ka na) (key_of kb nb)
        then Ordering.lt
        else if bytes_eq (key_of ka na) (key_of kb nb)
        then Ordering.eq
        else Ordering.gt)
unfolding cmp_entry key_of
cmp_entry-key ka na kb nb = ground (
  arith,
  bytes_lt-cons ka kb na nb,
  bytes_eq-cons ka kb na nb,
  bytes_trichotomy na nb,
  bytes_lt_irrefl na,
  bytes_lt-asym na nb,
  bytes_eq_iff na nb,
)

-- The same, as the test for equality that `get` makes.
pub key_eq :
    (e : TreeEntry) (kind : EntryKind) (name : Bytes)
    → ((e.kind == kind) && bytes_eq e.name name) ≡ bytes_eq (entry_key e) (key_of kind name)
unfolding key_of
key_eq e kind name = sym (bytes_eq-cons e.kind kind e.name name)

pub key_of-injective : {j k : EntryKind} {m n : Bytes} → key_of j m ≡ key_of k n → (j ≡ k) × (m ≡ n)
unfolding key_of
key_of-injective e = (cc, cc)

head_above :
    (e f : TreeEntry) (es : List TreeEntry)
    → bytes_lt (entry_key e) (entry_key f) ≡ true
    → AllAbove entry_key (entry_key f) es
    → AllAbove entry_key (entry_key e) (f ∷ es)
head_above e f es h a = (h, AllAbove-trans entry_key (entry_key e) (entry_key f) es h a)

abbrev pub IsNamed : TreeEntry → Type 0
IsNamed e = e.name ≢ []

-- What the two checks at the end of `DecodeTree` establish, if every entry has a name.
pub Ascends-checks :
    (es : List TreeEntry)
    → is_sorted es ≡ true
    → first_duplicate es ≡ []
    → All IsNamed es
    → Ascends entry_key es
unfolding is_sorted first_duplicate
Ascends-checks [] s d n = tt
Ascends-checks (e ∷ []) s d n = (tt, (tt))
Ascends-checks (e ∷ f ∷ es) s d n =
    let lt : bytes_lt (entry_key e) (entry_key f) ≡ true =
      ground (arith, cmp_entry-key e.kind e.name f.kind f.name, key_eq e f.kind f.name) in
    let rest = Ascends-checks (f ∷ es) (ground arith) (ground (arith, n.1.0)) n.1 in
    (head_above e f es lt rest.0, rest)

-- Ascending entries pass both checks.
pub checks-Ascends :
    (es : List TreeEntry) → Ascends entry_key es → (is_sorted es ≡ true) × (first_duplicate es ≡ [])
unfolding is_sorted first_duplicate
checks-Ascends [] a = (refl, refl)
checks-Ascends (e ∷ []) a = (refl, refl)
checks-Ascends (e ∷ f ∷ es) a =
    let rest = checks-Ascends (f ∷ es) a.1 in
    let apart = bytes_eq_of_lt (entry_key e) (entry_key f) a.0.0 in
    ground (arith, cmp_entry-key e.kind e.name f.kind f.name, key_eq e f.kind f.name)
