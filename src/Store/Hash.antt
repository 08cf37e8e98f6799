-- ===== src/Store/Hash.antt =====
-- pkg/store/hash.go: object hashes and their hexadecimal text.
pub mod Laws
use zonegit.Base.{
  ℕ, zero, suc, ◌+◌, ◌-◌, ◌*◌, ◌/◌, ◌%◌, ◌<◌, ◌≡◌, Bool, true, false, ◌&&◌, List, [], ◌∷◌, ◌++◌,
  length, take, replicate, Bytes, IsByte, All, bytes_eq, bytes_eq_iff, ◌↔◌, ltb, leb, ◌==◌,
  if◌then◌else◌, Option, none, some, Result, ok, err, Error, codes,
}

-- The length of a SHA-256 hash in bytes.
abbrev pub hash_size : ℕ
hash_size = 32

-- `[HashSize]byte`: `IsHash` is what the array type says of the list.
abbrev pub Hash : Type 0
Hash = Bytes

abbrev pub IsHash : Hash → Type 0
IsHash h = (length h ≡ hash_size) × All IsByte h

unfoldable pub zero_hash : Hash
zero_hash = replicate hash_size 0

unfoldable pub is_zero : Hash → Bool
is_zero h = bytes_eq h zero_hash

pub is_zero_iff : (h : Hash) → (is_zero h ≡ true) ↔ (h ≡ zero_hash)
unfolding is_zero
is_zero_iff h = bytes_eq_iff h zero_hash

-- One lower-case hexadecimal digit, as encoding/hex writes it, and the digits that it reads.
abbrev pub hex_digit : ℕ → ℕ
hex_digit d = if ltb d 10 then 48 + d else 87 + d

abbrev pub hex_value : ℕ → Option ℕ
hex_value c =
    if leb 48 c && leb c 57
    then some (c - 48)
    else if leb 97 c && leb c 102
    then some (c - 87)
    else if leb 65 c && leb c 70
    then some (c - 55)
    else none

-- `hex.EncodeToString`
unfoldable pub encode_hex : Bytes → Bytes
encode_hex [] = []
encode_hex (b ∷ bs) = hex_digit (b / 16) ∷ hex_digit (b % 16) ∷ encode_hex bs

-- `hex.DecodeString`
unfoldable pub decode_hex : Bytes → Option Bytes
decode_hex [] = some []
decode_hex (c ∷ []) = none
decode_hex (c ∷ d ∷ cs) = elim (hex_value c) [
  | none ↦ none
  | some hi ↦ elim (hex_value d) [
    | none ↦ none
    | some lo ↦ elim (decode_hex cs) [ none ↦ none | some bs ↦ some ((hi * 16 + lo) ∷ bs) ]
  ]
]

unfoldable pub string : Hash → Bytes
string h = encode_hex h

-- The 12-character prefix used for display.
unfoldable pub short : Hash → Bytes
short h = encode_hex (take 6 h)

unfoldable pub parse_hash : Bytes → Result Hash
parse_hash s =
    if length s == 2 * hash_size
    then elim (decode_hex s) [ none ↦ err Error.invalid_object | some b ↦ ok b ]
    else err Error.invalid_object
