-- ===== src/Object/Tree/Search.antt =====
-- `get` is a binary search, and on ascending entries it finds what a scan finds.
use zonegit.Base.{
  ℕ, zero, suc, ◌+◌, ◌/◌, ◌≤◌, ◌<◌, ◌≡◌, refl, arith, Bool, true, false, List, [], ◌∷◌, length,
  get_elem?, Bytes, bytes_eq, bytes_eq_iff, bytes_lt, bytes_lt_irrefl, bytes_lt_trans,
  bytes_lt_of_not, if◌then◌else◌, Option, none, some, find_key, find_key_above, AllAbove,
  AllAbove-trans, Ascends, Bool-cases, inl, inr, ltb, ◌∙◌, not, sym, ◌==◌, ◌&&◌,
}
use mathlib.Core.Path.{subst}
use zonegit.Object.Tree.{
  EntryKind, TreeEntry, Tree, key_of, entry_key, search_loop, sort_search, entry_reaches, get,
}
use zonegit.Object.Tree.Order.{cmp_entry-key, key_eq}

-- `f` turns from false to true at `r`, below `n`.
record Splits (f : ℕ → Bool) (n r : ℕ) : Type 0 where
  below : (x : ℕ) → x < r → f x ≡ false
  above : (x : ℕ) → r ≤ x → x < n → f x ≡ true

module _ (f : ℕ → Bool) (n : ℕ) (mono : (x y : ℕ) → x ≤ y → y < n → f x ≡ true → f y ≡ true) where
  not_above : (h x : ℕ) → x ≤ h → h < n → f h ≡ false → f x ≡ false
  not_above h x p q e = elim (Bool-cases (f x)) [ inl t ↦ cc (mono x h p q t) | inr t ↦ t ]

  search_loop-Splits :
      (fuel i j : ℕ)
      → j ≤ i + fuel
      → j ≤ n
      → ((x : ℕ) → x < i → f x ≡ false)
      → ((x : ℕ) → j ≤ x → x < n → f x ≡ true)
      → Splits f n (search_loop fuel f i j)
  unfolding search_loop
  search_loop-Splits zero i j d b lo hi = record {
    below = lo;
    above = λ x p q. hi x (omega arith) q;
  }
  search_loop-Splits (suc fuel) i j d b lo hi = elim (Bool-cases (ltb i j)) [
    | inr e ↦ rw e (record { below = lo; above = λ x p q. hi x (ground arith) q })
    | inl e ↦ rw e (elim (Bool-cases (f ((i + j) / 2))) [
      | inl t ↦ rw t (
          search_loop-Splits fuel i ((i + j) / 2) (ground arith) (ground arith) lo
            (λ x p q. mono ((i + j) / 2) x p q t))
      | inr t ↦ rw t (
          search_loop-Splits fuel ((i + j) / 2 + 1) j (ground arith) b
            (λ x p. not_above ((i + j) / 2) x (omega arith) (ground arith) t) hi)
    ])
  ]

  sort_search-Splits : Splits f n (sort_search n f)
  unfolding sort_search
  sort_search-Splits =
      search_loop-Splits n 0 n (omega arith) (omega arith) (λ x h. absurd (omega arith))
        (λ x h k. absurd (omega arith))

entry_reaches-key :
    (es : List TreeEntry) (kind : EntryKind) (name : Bytes) (i : ℕ) {e : TreeEntry}
    → get_elem? es i ≡ some e
    → entry_reaches es kind name i ≡ not (bytes_lt (entry_key e) (key_of kind name))
unfolding entry_reaches
entry_reaches-key es kind name i {e} at_i = ground (arith, cmp_entry-key e.kind e.name kind name)

AllAbove-get_elem? :
    (k : Bytes) (es : List TreeEntry) (i : ℕ) {e : TreeEntry}
    → AllAbove entry_key k es
    → get_elem? es i ≡ some e
    → bytes_lt k (entry_key e) ≡ true
AllAbove-get_elem? k [] i a q = cc
AllAbove-get_elem? k (f ∷ es) zero {e} a q =
    subst (λ z. bytes_lt k (entry_key z) ≡ true) {x = f} {y = e} (cc) a.0
AllAbove-get_elem? k (f ∷ es) (suc i) a q = AllAbove-get_elem? k es i a.1 q

get_elem?-within :
    (es : List TreeEntry) (i : ℕ) → i < length es → (e : TreeEntry) × (get_elem? es i ≡ some e)
get_elem?-within [] i h = absurd (omega arith)
get_elem?-within (e ∷ es) zero h = (e, refl)
get_elem?-within (e ∷ es) (suc i) h = get_elem?-within es i (omega arith)

module _ (kind : EntryKind) (name : Bytes) where
  entry_reaches_mono :
      (es : List TreeEntry)
      → Ascends entry_key es
      → (x y : ℕ) → x ≤ y
      → y < length es
      → entry_reaches es kind name x ≡ true
      → entry_reaches es kind name y ≡ true
  unfolding entry_reaches
  entry_reaches_mono [] a x y p q r = absurd (omega arith)
  entry_reaches_mono (e ∷ es) a zero zero p q r = r
  entry_reaches_mono (e ∷ es) a zero (suc y) p q r =
      let (g, at_y) = get_elem?-within es y (omega arith) in
      let h = entry_reaches-key (e ∷ es) kind name zero {e = e} refl in
      let k = entry_reaches-key (e ∷ es) kind name (suc y) {e = g} at_y in
      ground (
        arith,
        h,
        k,
        AllAbove-get_elem? (entry_key e) es y {e = g} a.0 at_y,
        bytes_lt_trans (entry_key e) (entry_key g) (key_of kind name),
      )
  entry_reaches_mono (e ∷ es) a (suc x) zero p q r = absurd (omega arith)
  entry_reaches_mono (e ∷ es) a (suc x) (suc y) p q r =
      entry_reaches_mono es a.1 x y (omega arith) (omega arith) r

  -- What stands at the turning point answers for the whole list.
  find_at_split :
      (es : List TreeEntry) (r : ℕ)
      → Ascends entry_key es
      → Splits (entry_reaches es kind name) (length es) r
      → find_key entry_key (key_of kind name) es ≡ elim (get_elem? es r) [
        | none ↦ none
        | some e ↦ if bytes_eq (entry_key e) (key_of kind name) then some e else none
      ]
  unfolding find_key entry_reaches
  find_at_split [] r a s = refl
  find_at_split (e ∷ es) zero a s =
      let reach = s.above 0 (omega arith) (omega arith) in
      let h = entry_reaches-key (e ∷ es) kind name zero {e = e} refl in
      elim (Bool-cases (bytes_eq (entry_key e) (key_of kind name))) [
        | inl t ↦ rw t
        | inr t ↦
            let lt = bytes_lt_of_not (key_of kind name) (entry_key e) (ground arith) t in
            rw t (
              find_key_above entry_key (key_of kind name) es
                (AllAbove-trans entry_key (key_of kind name) (entry_key e) es lt a.0))
      ]
  find_at_split (e ∷ es) (suc r) a s =
      let h = entry_reaches-key (e ∷ es) kind name zero {e = e} refl in
      let low = s.below 0 (omega arith) in
      let apart : bytes_eq (entry_key e) (key_of kind name) ≡ false = ground (
        arith,
        bytes_eq_iff (entry_key e) (key_of kind name),
        bytes_lt_irrefl (key_of kind name),
      ) in
      rw apart (
        find_at_split es r a.1 (record {
          below = λ x p. s.below (suc x) (omega arith);
          above = λ x p q. s.above (suc x) (omega arith) (omega arith);
        }))

  same_test :
      (o : Option TreeEntry)
      → ◌≡◌ {A = Option TreeEntry}
          (elim o [
            | none ↦ none
            | some e ↦ if (e.kind == kind) && bytes_eq e.name name then some e else none
          ])
          (elim o [
            | none ↦ none
            | some e ↦ if bytes_eq (entry_key e) (key_of kind name) then some e else none
          ])
  same_test none = refl
  same_test (some e) = rw (key_eq e kind name)

-- On ascending entries the binary search finds exactly what a scan for the key finds.
pub get-find_key :
    (t : Tree) (kind : EntryKind) (name : Bytes)
    → Ascends entry_key t.entries
    → get t kind name ≡ find_key entry_key (key_of kind name) t.entries
unfolding get
get-find_key t kind name a =
    let split =
      sort_search-Splits (entry_reaches t.entries kind name) (length t.entries)
        (entry_reaches_mono kind name t.entries a) in
    same_test kind name _ ∙ sym (find_at_split kind name t.entries _ a split)
