-- ===== src/Route/Subnets.antt =====
-- The canary router behind the resolver.
use zonegit.Base.{
  ℕ, ◌≡◌, refl, ap, false, Bytes, length, ◌==◌, Option, some, none, Result, ℤ, pos, negsuc, sym,
  ◌∙◌, ◌↔◌, ◌⊎◌, inl, inr, arith, [], ◌∷◌, ◌++◌, replicate, take, drop, take-append-drop,
  length-take_le, length-append, bytes_eq, bytes_eq_iff, Bool-cases,
}
use zonegit.Repo.Staging.{Repo}
use zonegit.Resolve.{Config, QueryContext, Router, Request, DnsMessages}
use zonegit.Resolve.Remote.{remote_ip, wrapped_router, with_client}
use zonegit.Resolve.Handle.{handle, handle_with_remote}
use zonegit.Route.{BucketRouter, to4, subnet_bytes, bucket, route_pct, route}
use zonegit.Store.Hash.{Hash}
use zonegit.Zone.{Dns}

module _ (parse_ip : Bytes → Option Bytes) (b : BucketRouter) where
  bucket_same :
      (ip ip' : Bytes)
      → subnet_bytes parse_ip ip ≡ subnet_bytes parse_ip ip'
      → bucket parse_ip b ip ≡ bucket parse_ip b ip'
  unfolding bucket
  bucket_same ip ip' e = rw e refl

  route_pct_same :
      (pct : ℤ) (ip ip' : Bytes)
      → bucket parse_ip b ip ≡ bucket parse_ip b ip'
      → route_pct parse_ip b pct ip ≡ route_pct parse_ip b pct ip'
  unfolding route_pct
  route_pct_same (negsuc n) ip ip' e = refl
  route_pct_same (pos n) ip ip' e = rw e refl

  -- The routers that two clients of one subnet get are the same function.
  wrapped_same :
      (ip ip' : Bytes)
      → subnet_bytes parse_ip ip ≡ subnet_bytes parse_ip ip'
      → (q : QueryContext)
      → wrapped_router (route parse_ip b) ip q ≡ wrapped_router (route parse_ip b) ip' q
  unfolding wrapped_router route
  wrapped_same ip ip' e q = route_pct_same b.pct ip ip' (bucket_same ip ip' e)

extensional : {A B : Type 0} {f g : A → B} → ((a : A) → f a ≡ g a) → f ≡ g
extensional h = λ i. λ a. h a i

-- The configuration of a daemon with the canary router.
abbrev pub with_canary : (Bytes → Option Bytes) → BucketRouter → Config → Config
with_canary parse_ip b cfg = record cfg { router = some (route parse_ip b) }

with_client_same :
    (parse_ip : Bytes → Option Bytes) (b : BucketRouter) (cfg : Config) (ip ip' : Bytes)
    → length ip == 0 ≡ false
    → length ip' == 0 ≡ false
    → subnet_bytes parse_ip ip ≡ subnet_bytes parse_ip ip'
    → with_client (with_canary parse_ip b cfg) ip ≡ with_client (with_canary parse_ip b cfg) ip'
unfolding with_client
with_client_same parse_ip b cfg ip ip' n n' e =
    let same =
      extensional {f = wrapped_router (route parse_ip b) ip}
        {g = wrapped_router (route parse_ip b) ip'} (wrapped_same parse_ip b ip ip' e) in
    rw (n, n') (ap (λ (f : Router). record cfg { router = some f }) same)

-- An IPv4 address in its 16-byte form.
abbrev pub ipv4 : ℕ → ℕ → ℕ → ℕ → Bytes
ipv4 x y z d = replicate 10 0 ++ (255 ∷ 255 ∷ x ∷ y ∷ z ∷ d ∷ [])

abbrev pub IsIpv4 : Bytes → Type 0
IsIpv4 a = (x y z d : ℕ) × (a ≡ ipv4 x y z d)

-- Two IPv4 addresses that differ in the last byte at most, or two others whose first six bytes are
-- the same.
abbrev pub SameSubnet : Bytes → Bytes → Type 0
SameSubnet a a' =
    ((x y z d d' : ℕ) × (a ≡ ipv4 x y z d) × (a' ≡ ipv4 x y z d'))
    ⊎ ((IsIpv4 a → ⊥) × (IsIpv4 a' → ⊥) × (take 6 a ≡ take 6 a'))

to4-ipv4 : (x y z d : ℕ) → to4 (ipv4 x y z d) ≡ some (x ∷ y ∷ z ∷ d ∷ [])
unfolding to4 bytes_eq
to4-ipv4 x y z d = refl

four : (v : Bytes) → length v ≡ 4 → (x y z d : ℕ) × (v ≡ x ∷ y ∷ z ∷ d ∷ [])
four [] e = absurd (omega (arith, e))
four (x ∷ []) e = absurd (omega (arith, e))
four (x ∷ y ∷ []) e = absurd (omega (arith, e))
four (x ∷ y ∷ z ∷ []) e = absurd (omega (arith, e))
four (x ∷ y ∷ z ∷ d ∷ []) e = (x, y, z, d, refl)
four (x ∷ y ∷ z ∷ d ∷ w ∷ v) e = absurd (omega (arith, e))

abbrev mapped : Bytes
mapped = replicate 10 0 ++ (255 ∷ 255 ∷ [])

-- An address of 16 bytes either is an IPv4 address, or `to4` gives none.
to4-cases : (a : Bytes) → length a ≡ 16 → IsIpv4 a ⊎ (to4 a ≡ none)
unfolding to4
to4-cases a e = elim (Bool-cases (bytes_eq (take 12 a) mapped)) [
  | inr apart ↦ inr (rw apart refl)
  | inl same ↦
      let whole = take-append-drop 12 a in
      let short = length-take_le 12 a (omega (arith, e)) in
      let rest : length (drop 12 a) ≡ 4 =
        omega (arith, e, short, ap length whole, length-append (take 12 a) (drop 12 a)) in
      let (x, y, z, d, at) = four (drop 12 a) rest in
      inl (
        x,
        y,
        z,
        d,
        sym whole
            ∙ ap (λ p. p ++ drop 12 a) ((bytes_eq_iff (take 12 a) mapped).0 same)
            ∙ ap (λ p. mapped ++ p) at,
      )
]

-- The part of an address that counts.
abbrev masked : Bytes → Bytes
masked a = elim (to4 a) [ some v4 ↦ take 3 v4 | none ↦ take 6 a ]

masked-ipv4 : (a : Bytes) (x y z d : ℕ) → a ≡ ipv4 x y z d → masked a ≡ x ∷ y ∷ z ∷ []
masked-ipv4 a x y z d e = ap masked e ∙ rw (masked, to4-ipv4 x y z d) refl

masked-none : (a : Bytes) → to4 a ≡ none → masked a ≡ take 6 a
masked-none a e = rw (masked, e) refl

to4-not_ipv4 : (a : Bytes) → to4 a ≡ none → IsIpv4 a → ⊥
to4-not_ipv4 a e (x, y, z, d, at) = ground (arith, sym e ∙ ap to4 at ∙ to4-ipv4 x y z d)

-- Three bytes are not six.
lengths_apart : (a : Bytes) (x y z : ℕ) → length a ≡ 16 → x ∷ y ∷ z ∷ [] ≡ take 6 a → ⊥
lengths_apart a x y z n e = omega (arith, n, ap length e, length-take_le 6 a (omega (arith, n)))

masked-SameSubnet :
    (a a' : Bytes) → length a ≡ 16 → length a' ≡ 16 → (masked a ≡ masked a') ↔ SameSubnet a a'
masked-SameSubnet a a' n n' = (together, apart)
  where
    together : masked a ≡ masked a' → SameSubnet a a'
    together e = elim (to4-cases a n) [
      | inl (x, y, z, d, at) ↦ elim (to4-cases a' n') [
        | inl (x', y', z', d', at') ↦
            let same : x ∷ y ∷ z ∷ [] ≡ x' ∷ y' ∷ z' ∷ [] =
              sym (masked-ipv4 a x y z d at) ∙ e ∙ masked-ipv4 a' x' y' z' d' at' in
            let (p, q, r) : (x ≡ x') × (y ≡ y') × (z ≡ z') = (cc, cc, cc) in
            inl (x, y, z, d, d', at, at' ∙ rw (p, q, r) refl)
        | inr no4' ↦
            absurd
              (lengths_apart a' x y z n' (sym (masked-ipv4 a x y z d at) ∙ e ∙ masked-none a' no4'))
      ]
      | inr no4 ↦ elim (to4-cases a' n') [
        | inl (x', y', z', d', at') ↦ absurd (
            lengths_apart a x' y' z' n
              (sym (masked-ipv4 a' x' y' z' d' at') ∙ sym e ∙ masked-none a no4))
        | inr no4' ↦ inr (
          to4-not_ipv4 a no4,
          to4-not_ipv4 a' no4',
          sym (masked-none a no4) ∙ e ∙ masked-none a' no4',
        )
      ]
    ]

    none_of : (b : Bytes) → length b ≡ 16 → (IsIpv4 b → ⊥) → to4 b ≡ none
    none_of b m other = elim (to4-cases b m) [ inl v4 ↦ absurd (other v4) | inr e ↦ e ]

    apart : SameSubnet a a' → masked a ≡ masked a'
    apart (inl (x, y, z, d, d', at, at')) =
        masked-ipv4 a x y z d at ∙ sym (masked-ipv4 a' x y z d' at')
    apart (inr (other, other', e)) =
        masked-none a (none_of a n other) ∙ e ∙ sym (masked-none a' (none_of a' n' other'))

subnet_bytes-masked :
    (parse_ip : Bytes → Option Bytes) (ip a : Bytes)
    → length ip == 0 ≡ false
    → parse_ip ip ≡ some a
    → subnet_bytes parse_ip ip ≡ masked a
unfolding subnet_bytes
subnet_bytes-masked parse_ip ip a known e = rw (known, e) refl

-- For two clients with addresses that are known and can be parsed, to 16 bytes each, the bytes that
-- are hashed are the same exactly if the addresses are of one /24 of IPv4 or of one /48 of IPv6; and
-- if they are, the clients get the same reply to the same request from a daemon with the canary
-- router.
pub subnet_served_same :
    (parse_ip : Bytes → Option Bytes) (b : BucketRouter) (sha256 : Bytes → Hash) (dns : Dns)
    (lib : DnsMessages (dns.RR)) (commits depth now : ℕ) (cfg : Config)
    (remote remote' : Option Bytes) (snapshot : Result Repo) (req : Request (dns.RR)) (a a' : Bytes)
    → length (remote_ip remote req.edns) == 0 ≡ false
    → length (remote_ip remote' req.edns) == 0 ≡ false
    → parse_ip (remote_ip remote req.edns) ≡ some a
    → parse_ip (remote_ip remote' req.edns) ≡ some a'
    → length a ≡ 16
    → length a' ≡ 16
    → ((subnet_bytes parse_ip (remote_ip remote req.edns)
          ≡ subnet_bytes parse_ip (remote_ip remote' req.edns))
        ↔ SameSubnet a a')
      × (SameSubnet a a'
          → handle_with_remote sha256 dns lib commits depth now
              (with_canary parse_ip b cfg)
              remote
              snapshot
              req
            ≡ handle_with_remote sha256 dns lib commits depth now
                (with_canary parse_ip b cfg)
                remote'
                snapshot
                req)
unfolding handle_with_remote
subnet_served_same parse_ip b sha256 dns lib commits depth now cfg remote remote' snapshot req a a'
      n n' at at' size size' =
    let ip = remote_ip remote req.edns in
    let ip' = remote_ip remote' req.edns in
    let m = subnet_bytes-masked parse_ip ip a n at in
    let m' = subnet_bytes-masked parse_ip ip' a' n' at' in
    let (to, from) = masked-SameSubnet a a' size size' in
    (
      (λ e. to (sym m ∙ e ∙ m'), λ same. m ∙ from same ∙ sym m'),
      λ same.
          ap (λ cfg'. handle sha256 dns lib commits depth now cfg' snapshot req)
            (with_client_same parse_ip b cfg ip ip' n n' (m ∙ from same ∙ sym m')),
    )
