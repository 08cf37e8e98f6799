-- ===== src/Object/Commit/Fuel.antt =====
-- The loop over the header lines ends.
use zonegit.Base.{
  Ends, Ends-then, Ends-if, List, ◌∷◌, Option, none, some, Error, Bool, true, false, not, ◌&&◌,
  ◌||◌, ◌+◌, ◌*◌, take, drop, codes, bytes_eq, cut_last, fields, trim_space, parse_int, read_signed,
  read_magnitude, ltb, ◌^◌, ℕ, zero, suc, ◌<◌, ◌==◌, ◌≡◌, refl, arith, [], Bytes, length,
  Option-cases, Bool-cases, inl, inr, cut_first, cut_first_shorter, Result, ok, err, ◌>>=◌,
}
use mathlib.Core.Path.{subst}
use zonegit.Store.Hash.{parse_hash, decode_hex, hash_size}
use zonegit.Object.Commit.{
  Reading, read_line, read_headers, read_header, read_version, parse_tz_offset, parse_time,
  parse_identity_line, is_one, decode_commit, new_reading,
}

then_same :
    {A B : Type 0} (r : Result A) (f g : A → Result B)
    → ((a : A) → f a ≡ g a)
    → (r >>= f) ≡ (r >>= g)
then_same (ok a) f g h = h a
then_same (err e) f g h = refl

-- From a fuel that is above the length of the payload on, more fuel changes nothing.
pub read_headers_enough :
    (f g : ℕ) (payload : Bytes) (r : Reading)
    → length payload < f
    → length payload < g
    → read_headers f payload r ≡ read_headers g payload r
unfolding read_headers
read_headers_enough zero g payload r p q = absurd (omega arith)
read_headers_enough (suc f) zero payload r p q = absurd (omega arith)
read_headers_enough (suc f) (suc g) payload r p q = elim (Option-cases (cut_first 10 payload)) [
  | inl e ↦ elim (Bool-cases (length payload == 0)) [
    | inl n ↦ ground (arith, e, n)
    | inr n ↦
        let more : (0 < length payload) = ground (arith, n) in
        let same =
          then_same (read_line payload r) (read_headers f []) (read_headers g [])
            (λ r'. read_headers_enough f g [] r' (omega arith) (omega arith)) in
        ground (arith, e, n, same)
  ]
  | inr ((line, rest), e) ↦
      let shorter = cut_first_shorter 10 payload e in
      let same =
        then_same (read_line line r) (read_headers f rest) (read_headers g rest)
          (λ r'. read_headers_enough f g rest r' (omega arith) (omega arith)) in
      ground (arith, e, same)
]

read_signed-Ends : (negative : Bool) (bs : Bytes) → Ends (read_signed negative bs)
unfolding read_signed
read_signed-Ends negative bs = elim (Option-cases (read_magnitude bs)) [
  | inl e ↦ rw (read_signed, e) tt
  | inr (n, e) ↦
      rw (read_signed, e)
        (Ends-if negative _ _ (Ends-if (ltb (2 ^ 63) n) _ _ tt tt)
          (Ends-if (ltb n (2 ^ 63)) _ _ tt tt))
]

parse_int-Ends : (bs : Bytes) → Ends (parse_int bs)
unfolding parse_int
parse_int-Ends [] = tt
parse_int-Ends (b ∷ bs) =
    Ends-if (b == 45) _ _ (read_signed-Ends true bs)
      (Ends-if (b == 43) _ _ (read_signed-Ends false bs) (read_signed-Ends false (b ∷ bs)))

parse_hash-Ends : (bs : Bytes) → Ends (parse_hash bs)
unfolding parse_hash
parse_hash-Ends bs = Ends-if (length bs == 2 * hash_size) _ _ (decoded (decode_hex bs)) tt
  where
    decoded : (d : Option Bytes) → Ends (elim d [ none ↦ err Error.invalid_object | some b ↦ ok b ])
    decoded none = tt
    decoded (some b) = tt

parse_tz_offset-Ends : (bs : Bytes) → Ends (parse_tz_offset bs)
unfolding parse_tz_offset
parse_tz_offset-Ends [] = tt
parse_tz_offset-Ends (s ∷ bs) =
    Ends-if (not (length bs == 4) || not ((s == 43) || (s == 45))) _ _ tt (
      Ends-then (parse_int (take 2 bs)) _ (parse_int-Ends (take 2 bs))
        (λ hh. Ends-then (parse_int (drop 2 bs)) _ (parse_int-Ends (drop 2 bs)) (λ mm. tt)))

parse_time-Ends : (parts : List Bytes) → Ends (parse_time parts)
unfolding parse_time
parse_time-Ends [] = tt
parse_time-Ends (u ∷ []) = tt
parse_time-Ends (u ∷ z ∷ []) =
    Ends-then (parse_int u) _ (parse_int-Ends u)
      (λ unix. Ends-then (parse_tz_offset z) _ (parse_tz_offset-Ends z) (λ minutes. tt))
parse_time-Ends (u ∷ z ∷ x ∷ parts) = tt

parse_identity_line-Ends : (bs : Bytes) → Ends (parse_identity_line bs)
unfolding parse_identity_line
parse_identity_line-Ends bs = elim (Option-cases (cut_last 60 bs)) [
  | inl e ↦ rw (parse_identity_line, e) tt
  | inr ((before, behind), e) ↦ elim (Option-cases (cut_last 62 behind)) [
    | inl f ↦ rw (parse_identity_line, e, f) tt
    | inr ((email, rest), f) ↦
        rw (parse_identity_line, e, f)
          (Ends-then (parse_time (fields (trim_space rest))) _
            (parse_time-Ends (fields (trim_space rest))) (λ t. tt))
  ]
]

read_header-Ends : (key value : Bytes) (r : Reading) → Ends (read_header key value r)
unfolding read_header read_version
read_header-Ends key value r =
    Ends-if (bytes_eq key (codes "version")) _ _
      (Ends-then (parse_int value) _ (parse_int-Ends value) (λ v. Ends-if (is_one v) _ _ tt tt))
      (Ends-if (bytes_eq key (codes "tree")) _ _
        (Ends-then (parse_hash value) _ (parse_hash-Ends value) (λ h. tt))
        (Ends-if (bytes_eq key (codes "parent")) _ _
          (Ends-then (parse_hash value) _ (parse_hash-Ends value) (λ h. tt))
          (Ends-if (bytes_eq key (codes "author")) _ _
            (Ends-then (parse_identity_line value) _ (parse_identity_line-Ends value) (λ _. tt))
            (Ends-if (bytes_eq key (codes "committer")) _ _
              (Ends-then (parse_identity_line value) _ (parse_identity_line-Ends value) (λ _. tt))
              (Ends-if (bytes_eq key (codes "selector")) _ _ tt
                (Ends-if (bytes_eq key (codes "signature")) _ _ tt tt))))))

read_line-Ends : (line : Bytes) (r : Reading) → Ends (read_line line r)
unfolding read_line
read_line-Ends line r = elim (Option-cases (cut_first 32 line)) [
  | inl e ↦ rw (read_line, e) tt
  | inr ((key, value), e) ↦ rw (read_line, e) (read_header-Ends key value r)
]

-- A fuel above the length of the payload is enough for the loop, whatever the lines are.
read_headers-Ends :
    (f : ℕ) (payload : Bytes) (r : Reading) → length payload < f → Ends (read_headers f payload r)
unfolding read_headers
read_headers-Ends zero payload r p = absurd (omega (arith, p))
read_headers-Ends (suc f) payload r p = elim (Option-cases (cut_first 10 payload)) [
  | inl e ↦ elim (Bool-cases (length payload == 0)) [
    | inl n ↦ rw (read_headers, e, n) tt
    | inr n ↦
        let more : (0 < length payload) = ground (arith, n) in
        rw (read_headers, e, n)
          (Ends-then (read_line payload r) _ (read_line-Ends payload r)
            (λ r'. read_headers-Ends f [] r' (omega (arith, p, more))))
  ]
  | inr ((line, rest), e) ↦
      let shorter = cut_first_shorter 10 payload e in
      rw (read_headers, e)
        (Ends-if (length line == 0) _ _ tt (
          Ends-then (read_line line r) _ (read_line-Ends line r)
            (λ r'. read_headers-Ends f rest r' (omega (arith, shorter, p)))))
]

pub decode_commit-Ends : (payload : Bytes) → Ends (decode_commit payload)
unfolding decode_commit
decode_commit-Ends payload =
    Ends-then (read_headers (length payload + 1) payload new_reading) _
      (read_headers-Ends (length payload + 1) payload new_reading (omega arith))
      (λ (r, rest).
        Ends-if (r.saw_version && r.saw_tree && r.saw_author && r.saw_committer) _ _ tt tt)

-- On any payload `decode_commit` returns a commit or an error of the source: its loop over the header
-- lines ends before the fuel does.
pub decode_commit_ends : (payload : Bytes) → ¬ (decode_commit payload ≡ err Error.out_of_fuel)
decode_commit_ends payload e = subst Ends e (decode_commit-Ends payload)
