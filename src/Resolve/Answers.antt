-- ===== src/Resolve/Answers.antt =====
-- The answers of the resolver, from the view of the zone that a commit holds.
use zonegit.Base.{
  ℕ, ◌≡◌, ◌⊎◌, refl, sym, ap, ◌∙◌, arith, Bool, true, false, List, [], ◌∷◌, ◌++◌, length, Bytes,
  ltb, ◌==◌, if◌then◌else◌, Result, ok, err, Error, not_found, Result-cases, ◌>>=◌, codes,
  Bool-cases, inl, inr, ok_injective, err_not_ok, to_upper, append-nil,
}
use zonegit.Store.Hash.{Hash, is_zero}
use zonegit.Store.MemStore.{Store, Object, get_object}
use zonegit.Object.Commit.{Commit}
use zonegit.Object.TreeOps.{Labels, node_exists}
use zonegit.Object.TreeOps.View.{view, IsTreeAt}
use zonegit.Object.TreeOps.Walk.{answer, walk_tree-view}
use zonegit.Object.TreeOps.Exists.{Nothing, Tells, node_exists-Tells}
use zonegit.Repo.{load_commit}
use zonegit.Repo.Staging.{Repo, split_fqdn, norm_fqdn}
use zonegit.Repo.Integrate.{tree_of}
use zonegit.Repo.Reads.{lookup_rrset, commit_or_head, name_exists}
use zonegit.Resolve.{Config, Question, Response, success, name_error, DnsMessages, type_cname}
use zonegit.Resolve.Handle.{
  attach_soa, attach_rrsig, covering, exists_at, chase, answer_cname, answer_type, answer_at, reply,
}
use zonegit.Zone.{Dns, RRset, decode_rrset}

success_apart : success ≡ name_error → ⊥
success_apart e = cc

commit_or_head_nonzero : (s : Store) (h : Hash) → is_zero h ≡ false → commit_or_head s h ≡ ok h
unfolding commit_or_head
commit_or_head_nonzero s h nz = ground (arith, nz)

module _ (sha256 : Bytes → Hash) (dns : Dns) (lib : DnsMessages (dns.RR)) (rp : Repo)
    (head root : Hash) where
  open dns use {RR, type_to_string}

  -- The commit holds a stored zone tree of height at most `n`.
  pub record ServesTree (n : ℕ) : Type 0 where
    pub head_nonzero : is_zero head ≡ false
    pub commit : Commit
    pub loaded : load_commit rp.storage head ≡ ok commit
    pub holds : commit.tree ≡ root
    pub tree : IsTreeAt sha256 rp.storage n root
    pub root_nonzero : is_zero root ≡ false

  abbrev pub name_path : Bytes → Labels
  name_path rel = split_fqdn (norm_fqdn rel)

  -- The blob of the zone under a name and a type.
  abbrev pub blob_at : Bytes → Bytes → Hash
  blob_at rel rrtype = view sha256 rp.storage root (name_path rel) (to_upper rrtype)

  -- A lookup reads the view.
  lookup_rrset-view :
      (n : ℕ) (rel rrtype : Bytes)
      → ServesTree n
      → lookup_rrset sha256 dns rp head rel rrtype ≡ (
          answer (blob_at rel rrtype) >>= λ blob.
          get_object rp.storage blob >>= λ obj. decode_rrset dns obj.payload)
  unfolding lookup_rrset
  lookup_rrset-view n rel rrtype z =
      rw
        (
          commit_or_head_nonzero rp.storage head z.head_nonzero,
          z.loaded,
          z.holds,
          walk_tree-view sha256 rp.storage n root (name_path rel) (to_upper rrtype) z.tree
              z.root_nonzero,
        )
        refl

  attach_soa-rcode :
      (resp : Response RR) → (attach_soa sha256 dns lib rp head resp).rcode ≡ resp.rcode
  unfolding attach_soa
  attach_soa-rcode resp = elim (Bool-cases (ltb 0 (length resp.answer))) [
    | inl e ↦ rw e refl
    | inr e ↦
        rw e (elim (Result-cases (lookup_rrset sha256 dns rp head (codes "@") (codes "SOA"))) [
          | inl (soa, f) ↦ rw f refl
          | inr (x, f) ↦ rw f refl
        ])
  ]

  -- An answer with a record keeps it.
  attach_soa-answer :
      (resp : Response RR) → (attach_soa sha256 dns lib rp head resp).answer ≡ resp.answer
  unfolding attach_soa
  attach_soa-answer resp = elim (Bool-cases (ltb 0 (length resp.answer))) [
    | inl e ↦ rw e refl
    | inr e ↦
        rw e (elim (Result-cases (lookup_rrset sha256 dns rp head (codes "@") (codes "SOA"))) [
          | inl (soa, f) ↦ rw f refl
          | inr (x, f) ↦ rw f refl
        ])
  ]

  attach_rrsig-extends :
      (rel : Bytes) (qtype : ℕ) (resp : Response RR)
      → (sigs : List RR) × ((attach_rrsig sha256 dns lib rp head rel qtype resp).answer
          ≡ resp.answer ++ sigs)
        × ((attach_rrsig sha256 dns lib rp head rel qtype resp).rcode ≡ resp.rcode)
  unfolding attach_rrsig
  attach_rrsig-extends rel qtype resp =
      elim (Result-cases (lookup_rrset sha256 dns rp head rel (codes "RRSIG"))) [
        | inl (sigs, f) ↦ rw (attach_rrsig, f) (covering sha256 dns lib qtype sigs.rrs, refl, refl)
        | inr (x, f) ↦ rw (attach_rrsig, f) ([], sym (append-nil resp.answer), refl)
      ]

  -- A positive answer has the records, and signatures behind them.
  positive :
      (rel : Bytes) (q : Question) (signed : Bool) (rs : RRset RR)
      → (sigs : List RR) × ((answer_type sha256 dns lib rp head rel q signed (ok rs)).answer
          ≡ rs.rrs ++ sigs)
        × ((answer_type sha256 dns lib rp head rel q signed (ok rs)).rcode ≡ success)
  unfolding answer_type
  positive rel q true rs =
      let plain = reply sha256 dns lib success rs.rrs [] in
      let (sigs, answered, code) = attach_rrsig-extends rel q.qtype plain in
      (
        sigs,
        attach_soa-answer (attach_rrsig sha256 dns lib rp head rel q.qtype plain) ∙ answered,
        attach_soa-rcode (attach_rrsig sha256 dns lib rp head rel q.qtype plain) ∙ code,
      )
  positive rel q false rs =
      let plain = reply sha256 dns lib success rs.rrs [] in
      ([], attach_soa-answer plain ∙ sym (append-nil rs.rrs), attach_soa-rcode plain)

  -- A name is denied only if it does not exist.
  denied :
      (rel : Bytes) (q : Question) (signed : Bool) (r : Result (RRset RR))
      → (answer_type sha256 dns lib rp head rel q signed r).rcode ≡ name_error
      → exists_at sha256 dns lib rp head rel ≡ false
  unfolding answer_type
  denied rel q signed (ok rs) e = absurd (success_apart (sym ((positive rel q signed rs).2) ∙ e))
  denied rel q signed (err Error.not_found) e =
      elim (Bool-cases (exists_at sha256 dns lib rp head rel)) [
        | inr gone ↦ gone
        | inl there ↦ absurd (
            success_apart (
              sym (ap (λ b. if b then success else name_error) there)
              ∙ sym (
                  attach_soa-rcode (
                    reply sha256 dns lib
                      (if exists_at sha256 dns lib rp head rel then success else name_error) [] []))
              ∙ e))
      ]
  denied rel q signed (err x) e = absurd cc

  tree_of-root : (n : ℕ) → ServesTree n → tree_of rp.storage head ≡ root
  unfolding tree_of
  tree_of-root n z = ground (arith, z.head_nonzero, z.loaded, z.holds)

  name_exists-node :
      (n : ℕ) (rel : Bytes)
      → ServesTree n
      → name_exists sha256 rp head rel ≡ node_exists sha256 rp.storage root (name_path rel)
  unfolding name_exists
  name_exists-node n rel z = rw (tree_of-root n z, z.head_nonzero) refl

  exists_at-Nothing :
      (n : ℕ) (rel : Bytes)
      → ServesTree n
      → exists_at sha256 dns lib rp head rel ≡ false
      → Nothing sha256 rp.storage root (name_path rel)
  unfolding exists_at
  exists_at-Nothing n rel z gone =
      told (node_exists sha256 rp.storage root (name_path rel))
        (node_exists-Tells sha256 rp.storage n root (name_path rel) z.tree)
        (rw (exists_at, name_exists-node n rel z) at gone)
    where
      told :
          (answered : Result Bool)
          → Tells sha256 rp.storage root (name_path rel) answered
          → elim answered [ err _ ↦ false | ok yes_no ↦ yes_no ] ≡ false
          → Nothing sha256 rp.storage root (name_path rel)
      told (ok true) t e = absurd cc
      told (ok false) t e = t
      told (err x) t e = absurd t

  cname_code :
      (cfg : Config) (qtype : Bytes) (rrs : List RR) (resp : Response RR)
      → answer_cname sha256 dns lib cfg rp head qtype rrs ≡ ok resp
      → resp.rcode ≡ success
  unfolding answer_cname
  cname_code cfg qtype [] resp e = absurd (err_not_ok e)
  cname_code cfg qtype (rr ∷ rrs) resp e =
      ap (λ (r : Response RR). r.rcode) (sym (ok_injective e))
      ∙ attach_soa-rcode (
          reply sha256 dns lib success
            (rr ∷ (rrs ++ chase sha256 dns lib cfg rp head qtype (lib.cname_target rr))) [])

  pub answer_at-Nothing :
      (n : ℕ) (cfg : Config) (rel : Bytes) (q : Question) (signed : Bool) (resp : Response RR)
      → ServesTree n
      → answer_at sha256 dns lib cfg rp head rel q signed ≡ ok resp
      → resp.rcode ≡ name_error
      → Nothing sha256 rp.storage root (name_path rel)
  unfolding answer_at
  answer_at-Nothing n cfg rel q signed resp z e code =
      let found = lookup_rrset sha256 dns rp head rel (type_to_string q.qtype) in
      let typed : ok (answer_type sha256 dns lib rp head rel q signed found) ≡ ok resp
          → Nothing sha256 rp.storage root (name_path rel) =
        λ same. exists_at-Nothing n rel z (
          denied rel q signed found
            (ap (λ (r : Response RR). r.rcode) (ok_injective same) ∙ code)) in
      elim (Bool-cases (q.qtype == type_cname)) [
        | inl is_cname ↦ typed (rw is_cname at e)
        | inr other ↦ elim (Result-cases (lookup_rrset sha256 dns rp head rel (codes "CNAME"))) [
          | inr (x, f) ↦ typed (rw (other, f) at e)
          | inl (set, f) ↦ absurd (
              success_apart (
                sym (cname_code cfg (type_to_string q.qtype) set.rrs resp (rw (other, f) at e))
                ∙ code))
        ]
      ]

  -- The records that the zone holds under a name and a type.
  abbrev pub Holds : Bytes → Bytes → RRset RR → Type 0
  Holds rel rrtype rs =
      (is_zero (blob_at rel rrtype) ≡ false)
      × ((obj : Object) × (get_object rp.storage (blob_at rel rrtype) ≡ ok obj)
          × (decode_rrset dns obj.payload ≡ ok rs))

  lookup_rrset-Holds :
      (n : ℕ) (rel rrtype : Bytes) (rs : RRset RR)
      → ServesTree n
      → Holds rel rrtype rs
      → lookup_rrset sha256 dns rp head rel rrtype ≡ ok rs
  lookup_rrset-Holds n rel rrtype rs z (nz, (obj, stored, decoded)) =
      lookup_rrset-view n rel rrtype z ∙ rw (nz, stored, decoded) refl

  lookup_rrset-absent :
      (n : ℕ) (rel rrtype : Bytes)
      → ServesTree n
      → is_zero (blob_at rel rrtype) ≡ true
      → lookup_rrset sha256 dns rp head rel rrtype ≡ err not_found
  lookup_rrset-absent n rel rrtype z absent = lookup_rrset-view n rel rrtype z ∙ rw absent refl

  -- No CNAME stands at the name, or the query is for it.
  abbrev pub NoCname : Bytes → Question → Type 0
  NoCname rel q = (q.qtype == type_cname ≡ true) ⊎ (is_zero (blob_at rel (codes "CNAME")) ≡ true)

  answer_at-typed :
      (n : ℕ) (cfg : Config) (rel : Bytes) (q : Question) (signed : Bool)
      → ServesTree n
      → NoCname rel q
      → answer_at sha256 dns lib cfg rp head rel q signed
        ≡ ok (
            answer_type sha256 dns lib rp head rel q signed
              (lookup_rrset sha256 dns rp head rel (type_to_string q.qtype)))
  unfolding answer_at
  answer_at-typed n cfg rel q signed z (inl is_cname) = rw is_cname refl
  answer_at-typed n cfg rel q signed z (inr absent) = elim (Bool-cases (q.qtype == type_cname)) [
    | inl is_cname ↦ rw is_cname refl
    | inr other ↦ rw (other, lookup_rrset-absent n rel (codes "CNAME") z absent) refl
  ]

  pub answer_at-Holds :
      (n : ℕ) (cfg : Config) (rel : Bytes) (q : Question) (signed : Bool) (rs : RRset RR)
      → ServesTree n
      → NoCname rel q
      → Holds rel (type_to_string q.qtype) rs
      → (resp : Response RR) × (answer_at sha256 dns lib cfg rp head rel q signed ≡ ok resp)
        × (resp.rcode ≡ success)
        × ((sigs : List RR) × (resp.answer ≡ rs.rrs ++ sigs))
  answer_at-Holds n cfg rel q signed rs z no_cname holds =
      let (sigs, answered, code) = positive rel q signed rs in
      (
        answer_type sha256 dns lib rp head rel q signed (ok rs),
        answer_at-typed n cfg rel q signed z no_cname
            ∙ rw (lookup_rrset-Holds n rel (type_to_string q.qtype) rs z holds) refl,
        code,
        (sigs, answered),
      )
