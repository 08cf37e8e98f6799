-- ===== src/Object/Commit.antt =====
-- pkg/object/commit.go: commits and their text form. A time is its Unix seconds and the offset of
-- its zone in seconds; the text holds no more of it.
pub mod Fuel
mod Tests
use zonegit.Base.{
  ℕ, zero, suc, ◌+◌, ◌-◌, ◌*◌, ◌/◌, ◌%◌, ◌≡◌, Bool, true, false, not, ◌&&◌, ◌||◌, List, [], ◌∷◌,
  ◌++◌, length, take, drop, get_elem?, Bytes, bytes_eq, ltb, ◌==◌, if◌then◌else◌, Option, none,
  some, Result, ok, err, Error, ◌>>=◌, ◌>>◌, codes, decimal, ℤ, pos, negsuc, neg, ◌+ℤ◌, scale,
  show_int, parse_int, cut_first, cut_last, trim_space, trim_end, fields,
}
use zonegit.Store.Hash.{Hash, zero_hash, string, parse_hash}
use zonegit.Store.MemStore.{Object}
use zonegit.Object.{kind_commit, encode_object}

pub record Identity : Type 0 where
  pub name : Bytes
  pub email : Bytes

-- `time.Time`
pub record Time : Type 0 where
  pub unix : ℤ
  pub offset : ℤ

pub record Commit : Type 0 where
  pub tree : Hash
  pub parents : List Hash
  pub author : Identity
  pub committer : Identity
  pub author_time : Time
  pub commit_time : Time
  pub selector : Bytes
  pub signature : Bytes
  pub message : Bytes

-- `Identity.String`
unfoldable pub identity_string : Identity → Bytes
identity_string id =
    if length id.email == 0 then id.name else (id.name ++ (codes " <" ++ (id.email ++ codes ">")))

-- `%02d`, of a number that is not negative.
unfoldable pub two_digits : ℕ → Bytes
two_digits n = if ltb n 10 then (48 ∷ decimal n) else decimal n

-- `t.IsZero()`: the first second of the year 1.
unfoldable pub time_is_zero : Time → Bool
time_is_zero t = elim t.unix [ pos _ ↦ false | negsuc n ↦ n == 62135596799 ]

unfoldable pub format_offset : ℕ → ℕ → Bytes
unfolding two_digits
format_offset sign secs = sign ∷ (two_digits (secs / 3600) ++ two_digits (secs % 3600 / 60))

unfoldable pub format_time : Time → Bytes
unfolding time_is_zero format_offset
format_time t =
    if time_is_zero t
    then codes "0 +0000"
    else (show_int t.unix
        ++ (32
            ∷ elim t.offset [ pos n ↦ format_offset 43 n | negsuc n ↦ format_offset 45 (suc n) ]))

unfoldable pub header : Bytes → Bytes → Bytes
header key value = key ++ (32 ∷ (value ++ (10 ∷ [])))

unfoldable pub parent_lines : List Hash → Bytes
unfolding header
parent_lines [] = []
parent_lines (p ∷ ps) = header (codes "parent") (string p) ++ parent_lines ps

unfoldable pub optional_header : Bytes → Bytes → Bytes
unfolding header
optional_header key value = if length value == 0 then [] else header key value

-- Exactly one newline ends a message that is not empty and has none.
unfoldable pub end_message : Bytes → Bytes
end_message [] = []
end_message (b ∷ []) = if b == 10 then (b ∷ []) else (b ∷ 10 ∷ [])
end_message (b ∷ c ∷ bs) = b ∷ end_message (c ∷ bs)

-- The payload that `Commit.Encode` writes.
unfoldable pub commit_payload : Commit → Bytes
unfolding header parent_lines optional_header identity_string format_time end_message
commit_payload c =
    header (codes "version") (codes "1")
    ++ (header (codes "tree") (string c.tree)
        ++ (parent_lines c.parents
            ++ (header (codes "author")
                  (identity_string c.author ++ (32 ∷ format_time c.author_time))
                ++ (header (codes "committer")
                      (identity_string c.committer ++ (32 ∷ format_time c.commit_time))
                    ++ (optional_header (codes "selector") c.selector
                        ++ (optional_header (codes "signature") c.signature
                            ++ (10 ∷ end_message c.message)))))))

module _ (sha256 : Bytes → Hash) where
  unfoldable pub encode_commit : Commit → Hash × Object
  unfolding commit_payload
  encode_commit c = encode_object sha256 kind_commit (commit_payload c)

-- Minutes; `Atoi` lets a sign stand in either pair of digits.
unfoldable pub parse_tz_offset : Bytes → Result ℤ
parse_tz_offset [] = err Error.invalid_object
parse_tz_offset (s ∷ bs) =
    if not (length bs == 4) || not ((s == 43) || (s == 45))
    then err Error.invalid_object
    else parse_int (take 2 bs) >>= λ hh. parse_int (drop 2 bs) >>= λ mm.
        let off = scale 60 hh +ℤ mm in ok (if s == 45 then neg off else off)

-- `<unix> <±HHMM>`
unfoldable pub parse_time : List Bytes → Result Time
unfolding parse_tz_offset
parse_time (u ∷ z ∷ []) = do
  unix ← parse_int u
  minutes ← parse_tz_offset z
  ok (record { unix = unix; offset = scale 60 minutes })
parse_time parts = err Error.invalid_object

-- The last `>`, and the last `<`, which must stand before it.
unfoldable pub parse_identity_line : Bytes → Result (Identity × Time)
unfolding parse_time
parse_identity_line s = elim (cut_last 60 s) [
  | none ↦ err Error.invalid_object
  | some (before, behind) ↦ elim (cut_last 62 behind) [
    | none ↦ err Error.invalid_object
    | some (email, rest) ↦ parse_time (fields (trim_space rest)) >>= λ t.
        ok (record { name = trim_space before; email = email }, t)
  ]
]

-- What `DecodeCommit` has read so far.
pub record Reading : Type 0 where
  pub commit : Commit
  pub saw_version : Bool
  pub saw_tree : Bool
  pub saw_author : Bool
  pub saw_committer : Bool

abbrev pub zero_time : Time
zero_time = record { unix = negsuc 62135596799; offset = pos 0 }

abbrev pub no_identity : Identity
no_identity = record { name = []; email = [] }

abbrev pub new_reading : Reading
new_reading = record {
  commit = record {
    tree = zero_hash;
    parents = [];
    author = no_identity;
    committer = no_identity;
    author_time = zero_time;
    commit_time = zero_time;
    selector = [];
    signature = [];
    message = [];
  };
  saw_version = false;
  saw_tree = false;
  saw_author = false;
  saw_committer = false;
}

unfoldable pub is_one : ℤ → Bool
is_one (pos n) = n == 1
is_one (negsuc n) = false

unfoldable pub read_version : Bytes → Reading → Result Reading
unfolding is_one
read_version value r = do
  v ← parse_int value
  if is_one v then ok (record r { saw_version = true }) else err Error.invalid_object

-- The `switch` on the key of a header. An unknown one is ignored.
unfoldable pub read_header : Bytes → Bytes → Reading → Result Reading
unfolding read_version parse_identity_line
read_header key value r =
    if bytes_eq key (codes "version")
    then read_version value r
    else if bytes_eq key (codes "tree")
    then (do
      h ← parse_hash value
      ok (record r { commit = record r.commit { tree = h }; saw_tree = true }))
    else if bytes_eq key (codes "parent")
    then (do
      h ← parse_hash value
      ok (record r { commit = record r.commit { parents = r.commit.parents ++ (h ∷ []) } }))
    else if bytes_eq key (codes "author")
    then (do
      (id, t) ← parse_identity_line value
      ok (record r {
        commit = record r.commit { author = id; author_time = t };
        saw_author = true;
      }))
    else if bytes_eq key (codes "committer")
    then (do
      (id, t) ← parse_identity_line value
      ok (record r {
        commit = record r.commit { committer = id; commit_time = t };
        saw_committer = true;
      }))
    else if bytes_eq key (codes "selector")
    then ok (record r { commit = record r.commit { selector = value } })
    else if bytes_eq key (codes "signature")
    then ok (record r { commit = record r.commit { signature = value } })
    else ok r

unfoldable pub read_line : Bytes → Reading → Result Reading
unfolding read_header
read_line line r = elim (cut_first 32 line) [
  | none ↦ err Error.invalid_object
  | some (key, value) ↦ read_header key value r
]

-- The loop over the header lines, up to an empty one; then the rest of the payload. Each round
-- reads a byte at least. A line that the payload's end cuts off is read, and the next one is missing.
unfoldable pub read_headers : ℕ → Bytes → Reading → Result (Reading × Bytes)
unfolding read_line
read_headers zero payload r = err Error.out_of_fuel
read_headers (suc fuel) payload r = elim (cut_first 10 payload) [
  | none ↦
      if length payload == 0
      then err Error.invalid_object
      else (read_line payload r >>= λ r'. read_headers fuel [] r')
  | some (line, rest) ↦
      if length line == 0
      then ok (r, rest)
      else (read_line line r >>= λ r'. read_headers fuel rest r')
]

unfoldable pub decode_commit : Bytes → Result Commit
unfolding read_headers
decode_commit payload = do
  (r, rest) ← read_headers (length payload + 1) payload new_reading
  if r.saw_version && r.saw_tree && r.saw_author && r.saw_committer
      then ok (record r.commit { message = trim_end (λ b. b == 10) rest })
      else err Error.invalid_object
