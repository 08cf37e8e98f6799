-- ===== src/Object/TreeOps/Update.antt =====
-- `update_tree` against the view: one record set is written, and every other is kept.
use zonegit.Base.{
  ℕ, zero, suc, ◌≤◌, ◌≡◌, refl, sym, ap, ◌∙◌, arith, true, false, List, [], ◌∷◌, length, Bytes,
  bytes_eq, bytes_eq_iff, bytes_eq-cons, if◌then◌else◌, ◌&&◌, Bool, Option-cases, ok, All, find_key,
  All-find_key, find_key-key, inl, inr, Bool-cases, Outcome,
}
use mathlib.Core.Path.{subst}
use zonegit.Store.Hash.{Hash, is_zero, is_zero_iff, hash_size}
use zonegit.Store.MemStore.{Store}
use zonegit.Object.Tree.{
  TreeEntry, Tree, entry_key, key_of, entry_leaf, entry_subtree, entry_kind_is_valid,
}
use zonegit.Object.Tree.Order.{key_of-injective}
use zonegit.Object.Tree.Search.{get-find_key}
use zonegit.Object.TreeOps.{
  Labels, empty_tree, load_root, set_entry, set_leaf, set_subtree, write_chain, load_chain,
  update_tree,
}
use zonegit.Object.TreeOps.Entries.{hash_at, hash_at-some, hash_at-none}
use zonegit.Object.TreeOps.SetEntry.{hash_at-set_entry, All-set_entry}
use zonegit.Object.TreeOps.Stored.{WellFormed, Extends, Extends-trans, Clean}
use zonegit.Object.TreeOps.View.{
  entries_at, view, view_in, view-view_in, IsTreeAt, Below, entries_at-loaded, entries_at-zero,
  IsTreeAt-hash_at, Below-Extends, view-Extends,
}
use zonegit.Object.TreeOps.Node.{IsName, WellFormed-set_entry, Written, write_node-Written}

-- Whether two leaves are the same one.
unfoldable pub same_leaf : Labels → Bytes → Labels → Bytes → Bool
same_leaf [] rrtype [] rrtype' = bytes_eq rrtype rrtype'
same_leaf (l ∷ p) rrtype (m ∷ q) rrtype' = bytes_eq l m && same_leaf p rrtype q rrtype'
same_leaf _ rrtype _ rrtype' = false

module _ (sha256 : Bytes → Hash) (sha256_size : (m : Bytes) → length (sha256 m) ≡ hash_size) where
  -- The tree under a label, as `load_chain` finds it.
  child_of :
      (s : Store) (m : ℕ) (t : Tree) (label : Bytes)
      → WellFormed t
      → Below sha256 s (suc m) t.entries
      → (c : Tree) × (entries_at sha256 s (hash_at entry_subtree label t.entries) ≡ c.entries)
        × WellFormed c
        × Below sha256 s m c.entries
        × ((path : Labels) (chain : List Tree)
            → load_chain sha256 s c path ≡ ok chain
            → load_chain sha256 s t (label ∷ path) ≡ ok (t ∷ chain))
  unfolding load_chain
  child_of s m t label w b =
      let found = get-find_key t entry_subtree label w.ascends in
      elim (Option-cases (find_key entry_key (key_of entry_subtree label) t.entries)) [
        | inl e ↦ (
          empty_tree,
          rw (hash_at-none entry_subtree label t.entries e) (entries_at-zero sha256 s),
          record { valid = tt; ascends = tt; nonzero = tt },
          tt,
          λ path chain q. ground (arith, found, e, q),
        )
        | inr (x, e) ↦
            let nz = All-find_key entry_key (λ z. is_zero z.hash ≡ false) _ t.entries w.nonzero e in
            let kind = (key_of-injective (find_key-key entry_key _ t.entries e)).0 in
            let (c, loaded, wc, bc) =
              All-find_key entry_key
                (λ z. z.kind ≡ entry_subtree → IsTreeAt sha256 s (suc m) z.hash) _ t.entries b e
                kind nz in
            (
              c,
              rw (hash_at-some entry_subtree label t.entries e)
                  (entries_at-loaded sha256 s x.hash nz loaded),
              wc,
              bc,
              λ path chain q. ground (arith, found, e, loaded, q),
            )
      ]

  module _ (rrtype : Bytes) (leaf : Hash) where
    record Updated (s s' : Store) (n : ℕ) (h : Hash) (es : List TreeEntry) (path : Labels)
        : Type 0 where
      extends : Extends s s'
      tree : IsTreeAt sha256 s' (suc n) h
      shows :
          (q : Labels) (rrtype' : Bytes)
          → view sha256 s' h q rrtype'
            ≡ (if same_leaf path rrtype q rrtype' then leaf else view_in sha256 s es q rrtype')

    record Wrote (is_root : Bool) (s : Store) (n : ℕ) (t : Tree) (path : Labels) : Type 0 where
      chain : List Tree
      hash : Hash
      after : Store
      loads : load_chain sha256 s t path ≡ ok chain
      writes : write_chain sha256 is_root chain path rrtype leaf s ≡ (ok hash, after)
      size : length hash ≡ hash_size
      updates : Clean after.objects → Clean s.objects × Updated s after n hash t.entries path

    Below-set_leaf :
        (s : Store) (n : ℕ) (t : Tree)
        → Below sha256 s n t.entries
        → Below sha256 s n (set_entry t entry_leaf rrtype leaf).entries
    Below-set_leaf s n t b =
        All-set_entry t entry_leaf rrtype leaf
          (λ e. e.kind ≡ entry_subtree → IsTreeAt sha256 s n e.hash) (λ _ k. absurd (omega arith)) b

    leaf_key :
        (m : Bytes) → bytes_eq (key_of entry_leaf rrtype) (key_of entry_leaf m) ≡ bytes_eq rrtype m
    unfolding key_of
    leaf_key m = bytes_eq-cons entry_leaf entry_leaf rrtype m

    leaf_shows :
        (s s' : Store) (n : ℕ) (h : Hash) (t : Tree)
        → Below sha256 s n t.entries
        → Written sha256 sha256_size s s' n h (set_entry t entry_leaf rrtype leaf).entries
        → (q : Labels) (rrtype' : Bytes)
        → view sha256 s' h q rrtype'
          ≡ (if same_leaf [] rrtype q rrtype' then leaf else view_in sha256 s t.entries q rrtype')
    unfolding same_leaf view_in view key_of
    leaf_shows s s' n h t b w [] rrtype' =
        rw w.shows (hash_at-set_entry t entry_leaf rrtype leaf entry_leaf rrtype' ∙ rw leaf_key)
    leaf_shows s s' n h t b w (l ∷ q) rrtype' =
        rw
          (
            w.shows,
            hash_at-set_entry t entry_leaf rrtype leaf entry_subtree l,
            bytes_eq-cons entry_leaf entry_subtree rrtype l,
          )
          (view-Extends sha256 s s' n _ q rrtype' w.extends
            (IsTreeAt-hash_at sha256 s n t.entries l b))

    module _ (rr_name : IsName rrtype) (leaf_size : length leaf ≡ hash_size) where
      write_leaf :
          (is_root : Bool) (s : Store) (n : ℕ) (t : Tree)
          → WellFormed t
          → Below sha256 s n t.entries
          → Wrote is_root s n t []
      unfolding load_chain write_chain set_leaf entry_kind_is_valid
      write_leaf is_root s n t w b =
          let w' = WellFormed-set_entry t entry_leaf rrtype leaf refl rr_name leaf_size w in
          let (h, s', e, size, post) =
            write_node-Written sha256 sha256_size is_root (set_entry t entry_leaf rrtype leaf) s n
              w' in
          record {
            chain = t ∷ [];
            hash = h;
            after = s';
            loads = refl;
            writes = e;
            size = size;
            updates = λ clean.
                let (before, written) = post clean in
                let done = written (Below-set_leaf s n t b) in
                (
                  before,
                  record {
                    extends = done.extends;
                    tree = done.tree;
                    shows = leaf_shows s s' n h t b done;
                  },
                );
          }

      subtree_shows :
          (s s1 s' : Store) (m : ℕ) (h1 h : Hash) (t : Tree) (label : Bytes) (path : Labels)
          (ces : List TreeEntry)
          → Below sha256 s (suc m) t.entries
          → entries_at sha256 s (hash_at entry_subtree label t.entries) ≡ ces
          → Updated s s1 m h1 ces path
          → Written sha256 sha256_size s1 s' (suc m) h (set_entry t entry_subtree label h1).entries
          → (q : Labels) (rrtype' : Bytes)
          → view sha256 s' h q rrtype' ≡ (
              if same_leaf (label ∷ path) rrtype q rrtype'
              then leaf
              else view_in sha256 s t.entries q rrtype')
      unfolding same_leaf view_in view key_of
      subtree_shows s s1 s' m h1 h t label path ces b found u w [] rrtype' =
          rw
            (
              w.shows,
              hash_at-set_entry t entry_subtree label h1 entry_leaf rrtype',
              bytes_eq-cons entry_subtree entry_leaf label rrtype',
            )
            refl
      subtree_shows s s1 s' m h1 h t label path ces b found u w (l ∷ q) rrtype' =
          let here = hash_at-set_entry t entry_subtree label h1 entry_subtree l in
          let eq = bytes_eq-cons entry_subtree entry_subtree label l in
          elim (Bool-cases (bytes_eq label l)) [
            | inl same ↦
                let p : label ≡ l = (bytes_eq_iff label l).0 same in
                let v : view sha256 s (hash_at entry_subtree l t.entries) q rrtype'
                    ≡ view_in sha256 s ces q rrtype' =
                  rw (← p) (
                    view-view_in sha256 s _ q rrtype'
                    ∙ ap (λ es. view_in sha256 s es q rrtype') found) in
                rw (w.shows, here, eq, same)
                  (view-Extends sha256 s1 s' (suc m) h1 q rrtype' w.extends u.tree
                    ∙ u.shows q rrtype'
                    ∙ ap (λ z. if same_leaf path rrtype q rrtype' then leaf else z) (sym v))
            | inr apart ↦
                rw (w.shows, here, eq, apart)
                  (view-Extends sha256 s s' (suc m) _ q rrtype'
                    (Extends-trans s s1 s' u.extends w.extends)
                    (IsTreeAt-hash_at sha256 s (suc m) t.entries l b))
          ]

      write_parent :
          (is_root : Bool) (s : Store) (m : ℕ) (t c : Tree) (label : Bytes) (path : Labels)
          → IsName label
          → WellFormed t
          → Below sha256 s (suc m) t.entries
          → entries_at sha256 s (hash_at entry_subtree label t.entries) ≡ c.entries
          → ((chain : List Tree)
              → load_chain sha256 s c path ≡ ok chain
              → load_chain sha256 s t (label ∷ path) ≡ ok (t ∷ chain))
          → Wrote false s m c path
          → Wrote is_root s (suc m) t (label ∷ path)
      unfolding write_chain set_subtree entry_kind_is_valid
      write_parent is_root s m t c label path name w b found descend below =
          let t' = set_entry t entry_subtree label below.hash in
          let w' = WellFormed-set_entry t entry_subtree label below.hash refl name below.size w in
          let (h, s', e, size, post) =
            write_node-Written sha256 sha256_size is_root t' below.after (suc m) w' in
          record {
            chain = t ∷ below.chain;
            hash = h;
            after = s';
            loads = descend below.chain below.loads;
            writes = rw (below.writes) e;
            size = size;
            updates = λ clean.
                let (clean1, written) = post clean in
                let (before, u) = below.updates clean1 in
                let kept = Below-Extends sha256 s below.after (suc m) t.entries u.extends b in
                let done = written (
                  All-set_entry t entry_subtree label below.hash
                    (λ z. z.kind ≡ entry_subtree → IsTreeAt sha256 below.after (suc m) z.hash)
                    (λ _ _. u.tree) kept) in
                (
                  before,
                  record {
                    extends = Extends-trans s below.after s' u.extends done.extends;
                    tree = done.tree;
                    shows =
                        subtree_shows s below.after s' m below.hash h t label path c.entries b found
                          u done;
                  },
                );
          }

      write_chain-Wrote :
          (path : Labels) (is_root : Bool) (s : Store) (n : ℕ) (t : Tree)
          → length path ≤ n
          → All IsName path
          → WellFormed t
          → Below sha256 s n t.entries
          → Wrote is_root s n t path
      write_chain-Wrote [] is_root s n t fits names w b = write_leaf is_root s n t w b
      write_chain-Wrote (label ∷ path) is_root s zero t fits names w b = absurd (omega arith)
      write_chain-Wrote (label ∷ path) is_root s (suc m) t fits names w b =
          let (c, found, wc, bc, descend) = child_of s m t label w b in
          write_parent is_root s m t c label path names.0 w b found (descend path)
            (write_chain-Wrote path false s m c (omega arith) names.1 wc bc)

  load_root-WellFormed :
      (s : Store) (n : ℕ) (root : Hash)
      → IsTreeAt sha256 s (suc n) root
      → (t : Tree) × (load_root sha256 s root ≡ ok t)
        × (entries_at sha256 s root ≡ t.entries)
        × WellFormed t
        × Below sha256 s n t.entries
  unfolding load_root
  load_root-WellFormed s n root i = elim (Bool-cases (is_zero root)) [
    | inl z ↦ (
      empty_tree,
      rw z,
      rw ((is_zero_iff root).0 z) (entries_at-zero sha256 s),
      record { valid = tt; ascends = tt; nonzero = tt },
      tt,
    )
    | inr nz ↦
        let (t, loaded, w, b) = i nz in
        (t, rw (nz, loaded), entries_at-loaded sha256 s root nz loaded, w, b)
  ]

  update_tree_run :
      (s : Store) (root : Hash) (path : Labels) (rrtype : Bytes) (leaf : Hash) (t : Tree)
      (chain : List Tree)
      → load_root sha256 s root ≡ ok t
      → load_chain sha256 s t path ≡ ok chain
      → update_tree sha256 root path rrtype leaf s
        ≡ write_chain sha256 true chain path rrtype leaf s
  unfolding update_tree
  update_tree_run s root path rrtype leaf t chain loaded chained = ground (arith, loaded, chained)

  -- An outcome that sets one leaf: it is no error; the new root shows `leaf` at the path and type,
  -- and the old zone everywhere else; it is a well-formed tree, and no stored object is lost.
  abbrev pub Sets : Store → ℕ → Hash → Labels → Bytes → Hash → Outcome Store Hash → Type 0
  Sets s n root path rrtype leaf out =
      (root' : Hash) × (out.0 ≡ ok root')
      × Extends s out.1
      × IsTreeAt sha256 out.1 (suc n) root'
      × ((q : Labels) (rrtype' : Bytes)
          → view sha256 out.1 root' q rrtype'
            ≡ (if same_leaf path rrtype q rrtype' then leaf else view sha256 s root q rrtype'))

  -- If its writes are clean, `update_tree` on a stored zone tree that is deep enough succeeds: the
  -- new root shows the new blob at the one owner and type that was set (none, if the blob hash is
  -- zero) and the old zone everywhere else, it is a well-formed tree, and no stored object is lost.
  pub view-update_tree :
      (s : Store) (n : ℕ) (root : Hash) (path : Labels) (rrtype : Bytes) (leaf : Hash)
      → IsTreeAt sha256 s (suc n) root
      → length path ≤ n
      → All IsName path
      → IsName rrtype
      → length leaf ≡ hash_size
      → Clean (update_tree sha256 root path rrtype leaf s).1.objects
      → Sets s n root path rrtype leaf (update_tree sha256 root path rrtype leaf s)
  view-update_tree s n root path rrtype leaf i fits names rr_name leaf_size clean =
      let (t, loaded, found, w, b) = load_root-WellFormed s n root i in
      let run = write_chain-Wrote rrtype leaf rr_name leaf_size path true s n t fits names w b in
      let ran = update_tree_run s root path rrtype leaf t run.chain loaded run.loads ∙ run.writes in
      let u = (run.updates (subst (λ z. Clean z.1.objects) ran clean)).1 in
      subst (Sets s n root path rrtype leaf) (sym ran) (
        run.hash,
        refl,
        u.extends,
        u.tree,
        λ q rrtype'.
            u.shows q rrtype'
            ∙ ap (λ z. if same_leaf path rrtype q rrtype' then leaf else z)
                (sym (
                  view-view_in sha256 s root q rrtype'
                  ∙ ap (λ es. view_in sha256 s es q rrtype') found)),
      )
