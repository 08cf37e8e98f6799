-- ===== src/Merge/Walk.antt =====
-- The merge walk over the entries of three nodes.
use zonegit.Base.{
  ℕ, ◌≡◌, ◌==◌, refl, sym, ap, ◌∙◌, arith, true, false, List, [], ◌∷◌, ◌++◌, length, Bytes,
  bytes_lt, some, Option-cases, ok, Outcome, AllAbove, find_key, All-find_key, inl, inr, All,
  ◌then_do◌,
}
use mathlib.Core.Path.{subst, fun_ext}
use zonegit.Store.Hash.{Hash, hash_size, zero_hash}
use zonegit.Store.MemStore.{Store}
use zonegit.Object.Tree.{EntryKind, TreeEntry, entry_key, key_of, entry_leaf, entry_subtree}
use zonegit.Object.Tree.Codec.RoundTrip.{IsEntry}
use zonegit.Object.TreeOps.{Labels}
use zonegit.Object.TreeOps.Entries.{hash_at, hash_at-some, hash_at-none}
use zonegit.Object.TreeOps.Stored.{Extends, Clean}
use zonegit.Object.TreeOps.View.{view, IsTreeAt, Below-Extends}
use zonegit.Merge.{
  Merging, Descend, Rest, cursor, min_key, advance, keep_entry, note_conflict, merge_round,
  resolve_leaf,
}
use zonegit.Merge.Keys.{min_key_cases}
use zonegit.Merge.Cursor.{Advanced, All-advance}
use zonegit.Merge.Reported.{Reported}
use zonegit.Merge.Step.{resolved, piece, keep_entry-piece, Row}

-- The recursive call does what it should on trees of height `n`.
module _ (sha256 : Bytes → Hash) where
  pub record Merges (n : ℕ) (path : Labels) (b o t : Hash) (st : Merging)
      (out : Outcome Merging Hash) : Type 0 where
    pub hash : Hash
    pub result : out.0 ≡ ok hash
    pub extends : Extends st.0 out.1.0
    pub size : length hash ≡ hash_size
    pub tree : IsTreeAt sha256 out.1.0 n hash
    pub shows :
        (q : Labels) (rrtype : Bytes)
        → view sha256 out.1.0 hash q rrtype
          ≡ resolved
              (view sha256 st.0 b q rrtype)
              (view sha256 st.0 o q rrtype)
              (view sha256 st.0 t q rrtype)
    pub reported :
        Reported path (view sha256 st.0 b) (view sha256 st.0 o) (view sha256 st.0 t) st.1 out.1.1

  -- A tree of height at most `n`, named by a whole hash.
  abbrev pub Stands : Store → ℕ → Hash → Type 0
  Stands s n h = IsTreeAt sha256 s n h × (length h ≡ hash_size)

  abbrev pub MergesAll : ℕ → Descend → Type 0
  MergesAll n descend =
      (path : Labels) (b o t : Hash) (st : Merging)
      → Stands st.0 n b
      → Stands st.0 n o
      → Stands st.0 n t
      → Clean (descend path b o t st).1.0.objects
      → Merges n path b o t st (descend path b o t st)

  pub Row-advance :
      (s : Store) (n : ℕ) (kind : EntryKind) (name : Bytes) (es : List TreeEntry)
      → Advanced kind name es (advance kind name es).0 (advance kind name es).1
      → Row sha256 s n es
      → Row sha256 s n (advance kind name es).1
  Row-advance s n kind name es adv row = (
    record {
      valid = All-advance IsEntry kind name es row.0.valid;
      ascends = adv.ascends;
      nonzero = All-advance _ kind name es row.0.nonzero;
    },
    All-advance (λ e. e.kind ≡ entry_subtree → IsTreeAt sha256 s n e.hash) kind name es row.1,
  )

  pub Row-Extends :
      (s s' : Store) (n : ℕ) (es : List TreeEntry)
      → Extends s s'
      → Row sha256 s n es
      → Row sha256 s' n es
  Row-Extends s s' n es ext row = (row.0, Below-Extends sha256 s s' n es ext row.1)

pub hash_at-size :
    (kind : EntryKind) (name : Bytes) (es : List TreeEntry)
    → All IsEntry es
    → length (hash_at kind name es) ≡ hash_size
hash_at-size kind name es all = elim (Option-cases (find_key entry_key (key_of kind name) es)) [
  | inl e ↦ rw (hash_at-none kind name es e) (unfold zero_hash in refl)
  | inr (x, e) ↦
      rw (hash_at-some kind name es e)
        (All-find_key entry_key IsEntry (key_of kind name) es all e).hash_fits
]

pub resolved-size :
    (b o t : Hash) (n : ℕ)
    → length b ≡ n
    → length o ≡ n
    → length t ≡ n
    → length (resolved b o t) ≡ n
unfolding resolve_leaf
resolved-size b o t n p q r = ground arith

-- The least key is the entry under one of the cursors.
module _ (bs os ts : List TreeEntry) {k : TreeEntry} (least : min_key bs os ts ≡ some k) where
  All-cursor : (P : TreeEntry → Type 0) (es : List TreeEntry) → All P es → cursor es ≡ some k → P k
  unfolding cursor
  All-cursor P [] all e = cc
  All-cursor P (x ∷ es) all e = let same : x ≡ k = cc in subst P same all.0

  pub All-min_key : (P : TreeEntry → Type 0) → All P bs → All P os → All P ts → P k
  All-min_key P b o t = elim (min_key_cases bs os ts least) [
    | inl e ↦ All-cursor P bs b e
    | inr (inl e) ↦ All-cursor P os o e
    | inr (inr e) ↦ All-cursor P ts t e
  ]

  pub AllAbove-min_key :
      (j : Bytes)
      → AllAbove entry_key j bs
      → AllAbove entry_key j os
      → AllAbove entry_key j ts
      → bytes_lt j (entry_key k) ≡ true
  AllAbove-min_key j b o t =
      All-min_key (λ e. bytes_lt j (entry_key e) ≡ true) (each bs b) (each os o) (each ts t)
    where
      each :
          (es : List TreeEntry)
          → AllAbove entry_key j es
          → All (λ e. bytes_lt j (entry_key e) ≡ true) es
      each [] a = tt
      each (e ∷ es) a = (a.0, each es a.1)

module _ (descend : Descend) (path : Labels) (k : TreeEntry) (rest : Rest)
    (bs os ts merged : List TreeEntry) (st : Merging) where
  abbrev pub b_hash : Hash
  b_hash = (advance k.kind k.name bs).0

  abbrev pub o_hash : Hash
  o_hash = (advance k.kind k.name os).0

  abbrev pub t_hash : Hash
  t_hash = (advance k.kind k.name ts).0

  -- The rest of the loop behind the round, when the key has got the hash `h`.
  abbrev pub onward : Hash → Merging → Outcome Merging (List TreeEntry)
  onward h =
      rest (advance k.kind k.name bs).1 (advance k.kind k.name os).1 (advance k.kind k.name ts).1
        (merged ++ piece k.kind k.name h)

  pub round_leaf :
      k.kind ≡ entry_leaf
      → merge_round descend path k rest bs os ts merged st
        ≡ onward (resolved b_hash o_hash t_hash) (note_conflict path k.name b_hash o_hash t_hash st)
  unfolding merge_round
  round_leaf e =
      let test : (k.kind == entry_leaf) ≡ true = ground (arith, e) in
      let h = resolved b_hash o_hash t_hash in
      let kept =
        ap (λ kind. keep_entry kind k.name h merged) (sym e)
        ∙ keep_entry-piece k.kind k.name h merged in
      rw test (
        ap
          (λ es.
            rest (advance k.kind k.name bs).1 (advance k.kind k.name os).1
              (advance k.kind k.name ts).1 es (note_conflict path k.name b_hash o_hash t_hash st))
          kept)

  pub round_subtree :
      k.kind ≡ entry_subtree
      → merge_round descend path k rest bs os ts merged st
        ≡ (descend (path ++ (k.name ∷ [])) b_hash o_hash t_hash st then_do onward)
  unfolding merge_round
  round_subtree e =
      let test : (k.kind == entry_leaf) ≡ false = ground (arith, e) in
      let kept = λ (h : Hash).
        ap (λ kind. keep_entry kind k.name h merged) (sym e)
        ∙ keep_entry-piece k.kind k.name h merged in
      rw test (
        ap (λ f. descend (path ++ (k.name ∷ [])) b_hash o_hash t_hash st then_do f)
          (fun_ext (λ h.
            ap
              (rest (advance k.kind k.name bs).1 (advance k.kind k.name os).1
                (advance k.kind k.name ts).1)
              (kept h))))
