-- ===== src/Base/Strings.antt =====
-- What the source uses of Go's package strings, on single-byte (ASCII) text.
use Prim.Native.Nat.{ℕ, ◌+◌, ◌-◌, ◌<◌}
use mathlib.Core.Path.{◌≡◌, refl, ap, sym}
use mathlib.Core.Logic.{inl, inr}
use mathlib.Core.Bool.{Bool, true, false, ◌&&◌, ◌||◌}
use mathlib.Core.Option.{Option, none, some}
use mathlib.Core.List.{List, [], ◌∷◌, ◌++◌}
use native.Mathlib.Omega.{arith}
use zonegit.Base.Tests.{ltb, leb, ◌==◌, if◌then◌else◌, Bool-cases, Option-cases}
use zonegit.Base.Lists.{length, drop, take}
use zonegit.Base.ByteOrder.{Bytes, bytes_eq}

-- `strings.LastIndexByte`, with the text before the byte and behind it in place of the index.
unfoldable pub cut_last : ℕ → Bytes → Option (Bytes × Bytes)
cut_last c [] = none
cut_last c (b ∷ bs) = elim (cut_last c bs) [
  | some (l, r) ↦ some (b ∷ l, r)
  | none ↦ if b == c then some ([], bs) else none
]

-- `strings.HasSuffix` for one byte.
unfoldable pub ends_in : ℕ → Bytes → Bool
ends_in c [] = false
ends_in c (b ∷ []) = b == c
ends_in c (b ∷ d ∷ bs) = ends_in c (d ∷ bs)

-- `strings.ToLower`
unfoldable pub lower : ℕ → ℕ
lower b = if ltb 64 b && ltb b 91 then b + 32 else b

unfoldable pub to_lower : Bytes → Bytes
unfolding lower
to_lower [] = []
to_lower (b ∷ bs) = lower b ∷ to_lower bs

-- `strings.Contains` for one byte.
unfoldable pub contains : ℕ → Bytes → Bool
contains c [] = false
contains c (b ∷ bs) = let rest = contains c bs in if b == c then true else rest

pub cut_last_absent : (c : ℕ) (bs : Bytes) → contains c bs ≡ false → cut_last c bs ≡ none
unfolding cut_last contains
cut_last_absent c [] h = refl
cut_last_absent c (b ∷ bs) h = ground (arith, h, cut_last_absent c bs (ground (arith, h)))

pub cut_last-append :
    (c : ℕ) (xs bs : Bytes) → contains c bs ≡ false → cut_last c (xs ++ (c ∷ bs)) ≡ some (xs, bs)
unfolding cut_last
cut_last-append c [] bs h = ground (arith, cut_last_absent c bs h)
cut_last-append c (x ∷ xs) bs h = ground (arith, cut_last-append c xs bs h)

pub to_lower_idem : (bs : Bytes) → to_lower (to_lower bs) ≡ to_lower bs
unfolding to_lower lower
to_lower_idem [] = refl
to_lower_idem (b ∷ bs) = ground (arith, to_lower_idem bs)

pub to_lower-append : (xs ys : Bytes) → to_lower (xs ++ ys) ≡ to_lower xs ++ to_lower ys
unfolding to_lower
to_lower-append [] ys = refl
to_lower-append (x ∷ xs) ys = ap (λ l. lower x ∷ l) (to_lower-append xs ys)

pub ends_in-append : (c : ℕ) (xs : Bytes) → ends_in c (xs ++ (c ∷ [])) ≡ true
unfolding ends_in
ends_in-append c [] = ground arith
ends_in-append c (x ∷ []) = ground arith
ends_in-append c (x ∷ y ∷ xs) = ends_in-append c (y ∷ xs)

-- `strings.Cut` at one byte.
unfoldable pub cut_first : ℕ → Bytes → Option (Bytes × Bytes)
cut_first c [] = none
cut_first c (b ∷ bs) =
    let rest = cut_first c bs in
    if b == c then some ([], bs) else elim rest [ none ↦ none | some (l, r) ↦ some (b ∷ l, r) ]

unfoldable pub is_space : ℕ → Bool
is_space b = (b == 32) || (ltb 8 b && ltb b 14)

unfoldable pub trim_left : Bytes → Bytes
trim_left [] = []
trim_left (b ∷ bs) = let rest = trim_left bs in if is_space b then rest else (b ∷ bs)

-- What is left of the text when the bytes of the test are taken off its end.
unfoldable pub trim_end : (ℕ → Bool) → Bytes → Bytes
trim_end f [] = []
trim_end f (b ∷ bs) = elim (trim_end f bs) [
  | [] ↦ if f b then [] else (b ∷ [])
  | c ∷ cs ↦ b ∷ c ∷ cs
]

-- `strings.TrimSpace`
unfoldable pub trim_space : Bytes → Bytes
trim_space bs = trim_end is_space (trim_left bs)

-- `strings.Fields`; `word` is the field that is being read.
unfoldable pub fields_from : Bytes → Bytes → List Bytes
fields_from word [] = if length word == 0 then [] else (word ∷ [])
fields_from word (b ∷ bs) =
    let next = fields_from [] bs in
    let on = fields_from (word ++ (b ∷ [])) bs in
    if is_space b then (if length word == 0 then next else (word ∷ next)) else on

unfoldable pub fields : Bytes → List Bytes
unfolding fields_from
fields bs = fields_from [] bs

pub cut_first_shorter :
    (c : ℕ) (bs : Bytes) {l r : Bytes} → cut_first c bs ≡ some (l, r) → length r < length bs
unfolding cut_first
cut_first_shorter c [] e = absurd (ground (arith, e))
cut_first_shorter c (b ∷ bs) {l} {r} e = elim (Bool-cases (b == c)) [
  | inl h ↦ let same : bs ≡ r = ground (arith, e, h) in rw (sym same) (omega arith)
  | inr h ↦ elim (Option-cases (cut_first c bs)) [
    | inl n ↦ absurd (ground (arith, e, h, n))
    | inr ((l', r'), n) ↦
        let same : r' ≡ r = ground (arith, e, h, n) in
        let shorter = cut_first_shorter c bs n in rw (sym same) (omega arith)
  ]
]

-- `strings.HasSuffix` and `strings.TrimSuffix`
unfoldable pub has_suffix : Bytes → Bytes → Bool
has_suffix s p = leb (length p) (length s) && bytes_eq (drop (length s - length p) s) p

unfoldable pub trim_suffix : Bytes → Bytes → Bytes
unfolding has_suffix
trim_suffix s p = if has_suffix s p then take (length s - length p) s else s

-- `strings.ToUpper`
unfoldable pub to_upper : Bytes → Bytes
to_upper [] = []
to_upper (b ∷ bs) = (if ltb 96 b && ltb b 123 then b - 32 else b) ∷ to_upper bs

-- `strings.Split` at one byte; `part` is the part that is being read.
unfoldable pub split_from : ℕ → Bytes → Bytes → List Bytes
split_from c part [] = part ∷ []
split_from c part (b ∷ bs) =
    let next = split_from c [] bs in
    let on = split_from c (part ++ (b ∷ [])) bs in if b == c then (part ∷ next) else on

unfoldable pub split : ℕ → Bytes → List Bytes
unfolding split_from
split c bs = split_from c [] bs
