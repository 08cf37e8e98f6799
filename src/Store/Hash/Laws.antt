-- ===== src/Store/Hash/Laws.antt =====
-- Hexadecimal text of hashes: what `string` writes is what `parse_hash` reads.
use zonegit.Base.{
  ℕ, suc, ◌+◌, ◌*◌, ◌/◌, ◌%◌, ◌<◌, ◌≡◌, ◌==◌, refl, arith, [], ◌∷◌, length, Bytes, IsByte, All,
  Option, none, some, Option-cases, Bool-cases, inl, inr, ok, ok_injective, err_not_ok,
}
use mathlib.Core.Path.{subst}
use zonegit.Store.Hash.{
  Hash, IsHash, hash_size, hex_digit, hex_value, encode_hex, decode_hex, string, parse_hash,
}

hex_value-digit : (d : ℕ) → d < 16 → hex_value (hex_digit d) ≡ some d
hex_value-digit d h = ground arith

length-encode_hex : (bs : Bytes) → length (encode_hex bs) ≡ 2 * length bs
unfolding encode_hex
length-encode_hex [] = refl
length-encode_hex (b ∷ bs) = omega (arith, length-encode_hex bs)

decode_hex-encode_hex : (bs : Bytes) → All IsByte bs → decode_hex (encode_hex bs) ≡ some bs
unfolding decode_hex encode_hex
decode_hex-encode_hex [] a = refl
decode_hex-encode_hex (b ∷ bs) a = ground (
  arith,
  hex_value-digit (b / 16) (omega arith),
  hex_value-digit (b % 16) (omega arith),
  decode_hex-encode_hex bs a.1,
)

-- Every hash is read back from its full hexadecimal text.
pub parse_hash-string : (h : Hash) → IsHash h → parse_hash (string h) ≡ ok h
unfolding parse_hash string
parse_hash-string h a = ground (arith, length-encode_hex h, decode_hex-encode_hex h a.1)

hex_value_lt : (c v : ℕ) → hex_value c ≡ some v → v < 16
hex_value_lt c v e = ground arith

-- What holds of the bytes that a text of the given length stands for.
abbrev Decoded : ℕ → Option Bytes → Type 0
Decoded n none = Unit {0}
Decoded n (some bs) = (n ≡ 2 * length bs) × All IsByte bs

Decoded-pair :
    (n : ℕ) (high low : Option ℕ) (o : Option Bytes)
    → ((v : ℕ) → high ≡ some v → v < 16)
    → ((v : ℕ) → low ≡ some v → v < 16)
    → Decoded n o
    → Decoded (suc (suc n)) (elim high [
      | none ↦ none
      | some hi ↦ elim low [
        | none ↦ none
        | some lo ↦ elim o [ none ↦ none | some bs ↦ some ((hi * 16 + lo) ∷ bs) ]
      ]
    ])
Decoded-pair n none low o p q r = tt
Decoded-pair n (some hi) none o p q r = tt
Decoded-pair n (some hi) (some lo) none p q r = tt
Decoded-pair n (some hi) (some lo) (some bs) p q r =
    (omega (arith, r.0), (omega (arith, p hi refl, q lo refl), r.1))

decode_hex-Decoded : (s : Bytes) → Decoded (length s) (decode_hex s)
unfolding decode_hex
decode_hex-Decoded [] = (refl, tt)
decode_hex-Decoded (c ∷ []) = tt
decode_hex-Decoded (c ∷ d ∷ cs) =
    Decoded-pair (length cs) (hex_value c) (hex_value d) (decode_hex cs) (hex_value_lt c)
      (hex_value_lt d) (decode_hex-Decoded cs)

-- What `parse_hash` reads is a hash: 32 bytes.
pub parse_hash-IsHash : (s : Bytes) (h : Hash) → parse_hash s ≡ ok h → IsHash h
unfolding parse_hash
parse_hash-IsHash s h e = elim (Bool-cases (length s == 2 * hash_size)) [
  | inr apart ↦ absurd (err_not_ok (rw apart at e))
  | inl same ↦ elim (Option-cases (decode_hex s)) [
    | inl n ↦ absurd (err_not_ok (rw (same, n) at e))
    | inr (b, n) ↦
        let read = subst (Decoded (length s)) n (decode_hex-Decoded s) in
        let p : b ≡ h = ok_injective (rw (same, n) at e) in
        subst IsHash p (ground (arith, read.0, same), read.1)
  ]
]
