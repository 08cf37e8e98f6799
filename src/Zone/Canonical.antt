-- ===== src/Zone/Canonical.antt =====
-- A blob does not depend on the order of the records.
use zonegit.Base.{
  ◌≡◌, refl, sym, ap, ◌∙◌, arith, true, List, [], ◌∷◌, Bytes, bytes_eq_iff, bytes_lt_irrefl,
  bytes_lt_trans, bytes_trichotomy, ok, Result, Result-cases, sort_on, insert_on, All, Bool-cases,
  inl, inr,
}
use mathlib.Core.Path.{subst}
use mathlib.Core.List.{Permᴰ}
use mathlib.Core.List.Permᴰ
use zonegit.Zone.{Dns, canonical_name, pack_rdata, same_header, pack_all, write_rrset, encode_rrset}

abbrev sort_bytes : List Bytes → List Bytes
sort_bytes = sort_on (λ b. b)

insert_comm :
    (x y : Bytes) (l : List Bytes)
    → insert_on (λ b. b) x (insert_on (λ b. b) y l) ≡ insert_on (λ b. b) y (insert_on (λ b. b) x l)
unfolding insert_on
insert_comm x y [] = ground (arith, bytes_trichotomy x y, bytes_lt_irrefl x, bytes_lt_trans x y x)
insert_comm x y (z ∷ l) = ground (
  arith,
  insert_comm x y l,
  bytes_trichotomy x y,
  bytes_lt_irrefl x,
  bytes_lt_trans x y x,
  bytes_lt_trans z x y,
  bytes_lt_trans z y x,
  bytes_lt_trans x y z,
  bytes_lt_trans y x z,
  bytes_trichotomy x z,
  bytes_trichotomy y z,
)

-- Sorting forgets the order.
sort_bytes-perm : {xs ys : List Bytes} → Permᴰ xs ys → sort_bytes xs ≡ sort_bytes ys
unfolding sort_on
sort_bytes-perm Permᴰ.nil = refl
sort_bytes-perm (Permᴰ.cons {a} {b} {l₁} {l₂} e p) =
    ap (insert_on (λ b. b) a) (sort_bytes-perm p) ∙ ap (λ z. insert_on (λ b. b) z (sort_bytes l₂)) e
sort_bytes-perm (Permᴰ.swap {a} {b} {a'} {b'} {l} e f) =
    insert_comm a b (sort_bytes l)
    ∙ ap (λ z. insert_on (λ b. b) z (insert_on (λ b. b) a (sort_bytes l))) f
    ∙ ap (λ z. insert_on (λ b. b) a' (insert_on (λ b. b) z (sort_bytes l))) e
sort_bytes-perm (Permᴰ.trans p q) = sort_bytes-perm p ∙ sort_bytes-perm q

All-perm : {A : Type 0} (P : A → Type 0) {xs ys : List A} → Permᴰ xs ys → All P xs → All P ys
All-perm P Permᴰ.nil all = tt
All-perm P (Permᴰ.cons e p) all = (subst P e all.0, All-perm P p all.1)
All-perm P (Permᴰ.swap e f) all = (subst P f all.1.0, (subst P e all.0, all.1.1))
All-perm P (Permᴰ.trans p q) all = All-perm P q (All-perm P p all)

module _ (dns : Dns) where
  open dns use {RR, owner, class_of, rrtype_of, ttl_of}

  -- The records pack to these data, one by one.
  abbrev Packs : List RR → List Bytes → Type 0
  Packs [] [] = Unit {0}
  Packs (rr ∷ rrs) (rd ∷ rds) = (pack_rdata dns rr ≡ ok rd) × Packs rrs rds
  Packs _ _ = ⊥

  abbrev Fits : RR → RR → Type 0
  Fits first rr = same_header dns first rr ≡ true

  pack_all-Packs :
      (first : RR) (rrs : List RR) (rds : List Bytes)
      → pack_all dns first rrs ≡ ok rds
      → All (Fits first) rrs × Packs rrs rds
  unfolding pack_all
  pack_all-Packs first [] [] e = (tt, tt)
  pack_all-Packs first [] (rd ∷ rds) e = cc
  pack_all-Packs first (rr ∷ rrs) rds e = elim (Bool-cases (same_header dns first rr)) [
    | inr s ↦ absurd (ground (arith, e, s))
    | inl s ↦ elim (Result-cases (pack_rdata dns rr)) [
      | inr (x, p) ↦ absurd (ground (arith, e, s, p))
      | inl (rd, p) ↦ elim (Result-cases (pack_all dns first rrs)) [
        | inr (x, q) ↦ absurd (ground (arith, e, s, p, q))
        | inl (rds', q) ↦
            let (fits, packs) = pack_all-Packs first rrs rds' q in
            let same : rd ∷ rds' ≡ rds = ground (arith, e, s, p, q) in
            ((s, fits), subst (Packs (rr ∷ rrs)) same (p, packs))
      ]
    ]
  ]

  Packs-pack_all :
      (first : RR) (rrs : List RR) (rds : List Bytes)
      → All (Fits first) rrs
      → Packs rrs rds
      → pack_all dns first rrs ≡ ok rds
  unfolding pack_all
  Packs-pack_all first [] [] f p = refl
  Packs-pack_all first [] (rd ∷ rds) f p = absurd p
  Packs-pack_all first (rr ∷ rrs) [] f p = absurd p
  Packs-pack_all first (rr ∷ rrs) (rd ∷ rds) f p =
      rw (f.0, p.0, Packs-pack_all first rrs rds f.1 p.1) refl

  Packs-perm :
      {xs ys : List RR} (rds : List Bytes)
      → Permᴰ xs ys
      → Packs xs rds
      → (rds' : List Bytes) × Packs ys rds' × Permᴰ rds rds'
  Packs-perm [] Permᴰ.nil q = ([], tt, Permᴰ.nil)
  Packs-perm (rd ∷ rds) Permᴰ.nil q = absurd q
  Packs-perm [] (Permᴰ.cons e p) q = absurd q
  Packs-perm (rd ∷ rds) (Permᴰ.cons e p) q =
      let (rds', q', p') = Packs-perm rds p q.1 in
      (rd ∷ rds', (subst (λ z. pack_rdata dns z ≡ ok rd) e q.0, q'), Permᴰ.cons refl p')
  Packs-perm [] (Permᴰ.swap e f) q = absurd q
  Packs-perm (rd ∷ []) (Permᴰ.swap e f) q = absurd q.1
  Packs-perm (rd ∷ rd' ∷ rds) (Permᴰ.swap e f) q = (
    rd' ∷ rd ∷ rds,
    (
      subst (λ z. pack_rdata dns z ≡ ok rd') f q.1.0,
      (subst (λ z. pack_rdata dns z ≡ ok rd) e q.0, q.1.1),
    ),
    Permᴰ.swap refl refl,
  )
  Packs-perm rds (Permᴰ.trans p p') q =
      let (rds', q', r) = Packs-perm rds p q in
      let (rds'', q'', r') = Packs-perm rds' p' q' in (rds'', q'', Permᴰ.trans r r')

  same_header_trans : (a b c : RR) → Fits a b → Fits a c → Fits b c
  unfolding same_header
  same_header_trans a b c p q = ground (
    arith,
    bytes_eq_iff (canonical_name (owner b)) (canonical_name (owner a)),
    bytes_eq_iff (canonical_name (owner c)) (canonical_name (owner a)),
    bytes_eq_iff (canonical_name (owner c)) (canonical_name (owner b)),
  )

  All-Fits : (a b : RR) (rrs : List RR) → Fits a b → All (Fits a) rrs → All (Fits b) rrs
  All-Fits a b [] p all = tt
  All-Fits a b (c ∷ rrs) p all = (same_header_trans a b c p all.0, All-Fits a b rrs p all.1)

  abbrev write_as : RR → List Bytes → Result Bytes
  write_as a = write_rrset dns (canonical_name (owner a)) (class_of a) (rrtype_of a) (ttl_of a)

  Fits-eq :
      (a b : RR)
      → Fits a b
      → (canonical_name (owner b) ≡ canonical_name (owner a))
        × (class_of b ≡ class_of a)
        × (rrtype_of b ≡ rrtype_of a)
        × (ttl_of b ≡ ttl_of a)
  unfolding same_header
  Fits-eq a b p = ground (arith, bytes_eq_iff (canonical_name (owner b)) (canonical_name (owner a)))

  write_as-Fits : (a b : RR) (rds : List Bytes) → Fits a b → write_as b rds ≡ write_as a rds
  write_as-Fits a b rds p = let (n, c, t, l) = Fits-eq a b p in rw (n, c, t, l) refl

  -- The blob of a record set does not depend on the order of its records: if one order is encoded,
  -- every other is, to the same bytes.
  pub encode_rrset-perm :
      (rrs rrs' : List RR) (payload : Bytes)
      → Permᴰ rrs rrs'
      → encode_rrset dns rrs ≡ ok payload
      → encode_rrset dns rrs' ≡ ok payload
  unfolding encode_rrset
  encode_rrset-perm [] rrs' payload p e = cc
  encode_rrset-perm (a ∷ rrs) [] payload p e = absurd (All-perm (λ _. ⊥) (Permᴰ.symm p) tt).0
  encode_rrset-perm (a ∷ rrs) (b ∷ rrs') payload p e =
      elim (Result-cases (pack_all dns a (a ∷ rrs))) [
        | inr (x, q) ↦ absurd (ground (arith, e, q))
        | inl (rds, q) ↦
            let (fits, packs) = pack_all-Packs a (a ∷ rrs) rds q in
            let (rds', packs', perm) = Packs-perm rds p packs in
            let fits' = All-perm (Fits a) p fits in
            let packed =
              Packs-pack_all b (b ∷ rrs') rds' (All-Fits a b (b ∷ rrs') fits'.0 fits') packs' in
            let written : write_as a (sort_bytes rds) ≡ ok payload = rw q at e in
            rw packed (
              ap (write_as b) (sym (sort_bytes-perm perm))
              ∙ write_as-Fits a b (sort_bytes rds) fits'.0
              ∙ written)
      ]
