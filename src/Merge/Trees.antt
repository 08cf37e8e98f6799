-- ===== src/Merge/Trees.antt =====
-- `merge_trees` against the view: every record set is merged by the rules for one leaf.
use zonegit.Base.{
  ℕ, zero, suc, ◌+◌, ◌≡◌, ◌==◌, refl, sym, ap, ◌∙◌, arith, false, List, [], length, Bytes, some,
  Option-cases, none, In, ◌↔◌, ok, Outcome, inl, inr, ◌⊎◌, ◌then_do◌, Result, Bool-cases,
  bytes_eq_iff,
}
use mathlib.Core.Path.{subst}
use zonegit.Store.Hash.{Hash, hash_size, zero_hash, is_zero, is_zero_iff}
use zonegit.Store.MemStore.{Store}
use zonegit.Object.Tree.{TreeEntry, Tree}
use zonegit.Object.TreeOps.{Labels, empty_tree, write_node}
use zonegit.Object.TreeOps.Stored.{Extends, Extends-trans, Clean}
use zonegit.Object.TreeOps.View.{
  view, view_in, view-view_in, entries_at, entries_at-zero, entries_at-loaded,
}
use zonegit.Object.TreeOps.Node.{write_node-Written}
use zonegit.Merge.{
  Conflict, Merging, Descend, merge_loop, merge_nodes, merge_trees_at, merge_trees, write_merged,
  load_or_empty, same_trees, resolve_leaf, sort_conflicts,
}
use zonegit.Object.TreeOps.Grows.{clean_growth}
use zonegit.Merge.Grows.{Grown, merge_trees_at-Kept, at_same, at_apart, write_merged-Kept}
use zonegit.Merge.Reported.{
  Clash, Reported-eq, Reported-none, resolve_leaf_agreed, resolve_leaf_ours_kept,
  resolve_leaf_theirs_kept, sort_conflicts-In,
}
use zonegit.Merge.Step.{resolved, Row, Looped, view_in-Extends}
use zonegit.Merge.Walk.{Merges, Stands, MergesAll}
use zonegit.Merge.Loop.{merge_loop-Looped, then_do-ok, Clean-then_do}
use zonegit.Merge.Round.{resolved-eq}

-- The fast paths: two of the three are the same, and the third is the outcome.
same_trees-cases :
    (b o t h : Hash)
    → same_trees b o t ≡ some h
    → ((o ≡ t) × (h ≡ o)) ⊎ (((b ≡ o) × (h ≡ t)) ⊎ ((b ≡ t) × (h ≡ o)))
unfolding same_trees
same_trees-cases b o t h e = ground (arith, e, bytes_eq_iff o t, bytes_eq_iff b o, bytes_eq_iff b t)

same_trees-empty :
    (b o t : Hash)
    → b ≡ zero_hash
    → o ≡ zero_hash
    → t ≡ zero_hash
    → (h : Hash) × (same_trees b o t ≡ some h)
unfolding same_trees
same_trees-empty b o t e f g = (o, ground (arith, e, f, g, bytes_eq_iff o t))

resolved_sides : (b o : Hash) → resolved b o o ≡ o
unfolding resolve_leaf
resolved_sides b o = ground (arith, bytes_eq_iff o o)

resolved_theirs : (b t : Hash) → resolved b b t ≡ t
unfolding resolve_leaf
resolved_theirs b t = ground (arith, bytes_eq_iff b t, bytes_eq_iff b b)

resolved_ours : (b o : Hash) → resolved b o b ≡ o
unfolding resolve_leaf
resolved_ours b o = ground (arith, bytes_eq_iff o b, bytes_eq_iff b b)

module _ (sha256 : Bytes → Hash) (sha256_size : (m : Bytes) → length (sha256 m) ≡ hash_size) where
  load_or_empty-Row :
      (s : Store) (n : ℕ) (h : Hash)
      → Stands sha256 s (suc n) h
      → (t : Tree) × (load_or_empty sha256 s h ≡ ok t)
        × (entries_at sha256 s h ≡ t.entries)
        × Row sha256 s n t.entries
  load_or_empty-Row s n h stands = elim (Bool-cases (is_zero h)) [
    | inl z ↦ (
      empty_tree,
      rw z refl,
      ap (entries_at sha256 s) ((is_zero_iff h).0 z) ∙ entries_at-zero sha256 s,
      (record { valid = tt; ascends = tt; nonzero = tt }, tt),
    )
    | inr nz ↦
        let (t, loaded, w, b) = stands.0 nz in
        (t, rw (nz, loaded) refl, entries_at-loaded sha256 s h nz loaded, (w, b))
  ]

  write_merged-write_node :
      (es : List TreeEntry) (st : Merging)
      → write_merged sha256 es st ≡ (
        (write_node sha256 false (record { entries = es }) st.0).0,
        ((write_node sha256 false (record { entries = es }) st.0).1, st.1),
      )
  unfolding write_merged write_node
  write_merged-write_node es (s, out) = elim (Bool-cases (length es == 0)) [
    | inl e ↦ rw e refl
    | inr e ↦ rw e refl
  ]

  winner-Merges :
      (n : ℕ) (path : Labels) (b o t h : Hash) (st : Merging)
      → Stands sha256 st.0 n h
      → ((f : Hash → Hash) → f h ≡ resolved (f b) (f o) (f t))
      → ((f : Hash → Hash) → (resolve_leaf (f b) (f o) (f t)).1 ≡ none)
      → Merges sha256 n path b o t st (ok h, st)
  winner-Merges n path b o t h st stands wins clean = record {
    hash = h;
    result = refl;
    extends = λ k obj p. p;
    size = stands.1;
    tree = stands.0;
    shows = λ q rrtype. wins (λ g. view sha256 st.0 g q rrtype);
    reported =
        Reported-none path (view sha256 st.0 b) (view sha256 st.0 o) (view sha256 st.0 t) st.1
          (λ q rrtype. clean (λ g. view sha256 st.0 g q rrtype));
  }

  same-Merges :
      (n : ℕ) (path : Labels) (b o t h : Hash) (st : Merging)
      → same_trees b o t ≡ some h
      → Stands sha256 st.0 n o
      → Stands sha256 st.0 n t
      → Merges sha256 n path b o t st (ok h, st)
  same-Merges n path b o t h st e so sth = elim (same_trees-cases b o t h e) [
    | inl (p, q) ↦
        winner-Merges n path b o t h st (subst (Stands sha256 st.0 n) (sym q) so)
          (λ f.
            ap f q
            ∙ sym (subst (λ z. resolved (f b) (f o) (f z) ≡ f o) p (resolved_sides (f b) (f o))))
          (λ f.
            subst (λ z. (resolve_leaf (f b) (f o) (f z)).1 ≡ none) p
              (resolve_leaf_agreed (f b) (f o)))
    | inr (inl (p, q)) ↦
        winner-Merges n path b o t h st (subst (Stands sha256 st.0 n) (sym q) sth)
          (λ f.
            ap f q
            ∙ sym (subst (λ z. resolved (f b) (f z) (f t) ≡ f t) p (resolved_theirs (f b) (f t))))
          (λ f.
            subst (λ z. (resolve_leaf (f b) (f z) (f t)).1 ≡ none) p
              (resolve_leaf_ours_kept (f b) (f t)))
    | inr (inr (p, q)) ↦
        winner-Merges n path b o t h st (subst (Stands sha256 st.0 n) (sym q) so)
          (λ f.
            ap f q
            ∙ sym (subst (λ z. resolved (f b) (f o) (f z) ≡ f o) p (resolved_ours (f b) (f o))))
          (λ f.
            subst (λ z. (resolve_leaf (f b) (f o) (f z)).1 ≡ none) p
              (resolve_leaf_theirs_kept (f b) (f o)))
  ]

  -- The node of the merged entries, written.
  write_merged-Merges :
      (n : ℕ) (path : Labels) (b o t : Hash) (bs os ts : List TreeEntry) (st : Merging)
      (looped : Outcome Merging (List TreeEntry))
      → entries_at sha256 st.0 b ≡ bs
      → entries_at sha256 st.0 o ≡ os
      → entries_at sha256 st.0 t ≡ ts
      → (l : Looped sha256 n path bs os ts [] st looped)
      → Clean (write_merged sha256 l.new looped.1).1.0.objects
      → Merges sha256 (suc n) path b o t st (write_merged sha256 l.new looped.1)
  write_merged-Merges n path b o t bs os ts st looped eb eo et l clean =
      let node : Tree = record { entries = l.new } in
      let (h, s', e, size, post) =
        write_node-Written sha256 sha256_size false node looped.1.0 n l.row.0 in
      let eq =
        write_merged-write_node l.new looped.1
        ∙ ap (λ (out : Result Hash × Store). (out.0, (out.1, looped.1.1))) e in
      let written =
        (post (subst (λ (out : Outcome Merging Hash). Clean out.1.0.objects) eq clean)).1 l.row.1 in
      subst (Merges sha256 (suc n) path b o t st) (sym eq) (record {
        hash = h;
        result = refl;
        extends = Extends-trans st.0 looped.1.0 s' l.extends written.extends;
        size = size;
        tree = written.tree;
        shows = λ q rrtype.
            view-view_in sha256 s' h q rrtype
            ∙ ap (λ es. view_in sha256 s' es q rrtype) written.shows
            ∙ view_in-Extends sha256 looped.1.0 s' n l.new q rrtype written.extends l.row.1
            ∙ l.shows q rrtype
            ∙ resolved-eq (shown b bs eb q rrtype) (shown o os eo q rrtype)
                (shown t ts et q rrtype);
        reported =
            Reported-eq path (view_in sha256 st.0 bs) (view sha256 st.0 b) (view_in sha256 st.0 os)
              (view sha256 st.0 o) (view_in sha256 st.0 ts) (view sha256 st.0 t) st.1 looped.1.1
              (shown b bs eb) (shown o os eo) (shown t ts et) l.reported;
      })
    where
      shown :
          (h : Hash) (es : List TreeEntry)
          → entries_at sha256 st.0 h ≡ es
          → (q : Labels) (rrtype : Bytes)
          → view_in sha256 st.0 es q rrtype ≡ view sha256 st.0 h q rrtype
      shown h es e q rrtype =
          sym (view-view_in sha256 st.0 h q rrtype ∙ ap (λ es. view_in sha256 st.0 es q rrtype) e)

  merge_nodes-loaded :
      (descend : Descend) (path : Labels) (b o t : Hash) (st : Merging) (bt ot ht : Tree)
      → load_or_empty sha256 st.0 b ≡ ok bt
      → load_or_empty sha256 st.0 o ≡ ok ot
      → load_or_empty sha256 st.0 t ≡ ok ht
      → merge_nodes sha256 descend path b o t st ≡ (
          merge_loop descend path
            (length bt.entries + length ot.entries + length ht.entries)
            bt.entries
            ot.entries
            ht.entries
            []
            st
          then_do write_merged sha256)
  unfolding merge_nodes
  merge_nodes-loaded descend path b o t st bt ot ht e f g = rw (e, f, g) refl

  merge_nodes-MergesAll :
      (n : ℕ) (descend : Descend)
      → MergesAll sha256 n descend
      → ((path : Labels) (b o t : Hash) (st : Merging) → Grown st (descend path b o t st))
      → MergesAll sha256 (suc n) (merge_nodes sha256 descend)
  merge_nodes-MergesAll n descend correct grows path b o t st sb so sth clean =
      let (bt, e, eb, rb) = load_or_empty-Row st.0 n b sb in
      let (ot, f, eo, ro) = load_or_empty-Row st.0 n o so in
      let (ht, g, et, rt) = load_or_empty-Row st.0 n t sth in
      let rounds = length bt.entries + length ot.entries + length ht.entries in
      let looped = merge_loop descend path rounds bt.entries ot.entries ht.entries [] st in
      let eq = merge_nodes-loaded descend path b o t st bt ot ht e f g in
      let clean' = subst (λ (out : Outcome Merging Hash). Clean out.1.0.objects) eq clean in
      let l =
        merge_loop-Looped sha256 n descend correct grows path rounds bt.entries ot.entries
          ht.entries [] st rb ro rt (omega arith)
          (Clean-then_do looped (write_merged sha256) (write_merged-Kept clean_growth sha256)
            clean') in
      let eq' = then_do-ok looped (write_merged sha256) l.new l.result in
      subst (Merges sha256 (suc n) path b o t st) (sym (eq ∙ eq')) (
        write_merged-Merges n path b o t bt.entries ot.entries ht.entries st looped eb eo et l
          (subst (λ (out : Outcome Merging Hash). Clean out.1.0.objects) eq' clean'))

  merge_trees_at-MergesAll : (n : ℕ) → MergesAll sha256 n (merge_trees_at sha256 n)
  merge_trees_at-MergesAll zero path b o t st sb so sth clean =
      let (h, e) = same_trees-empty b o t sb.0 so.0 sth.0 in
      subst (Merges sha256 zero path b o t st) (sym (at_same sha256 zero path b o t st h e))
        (same-Merges zero path b o t h st e so sth)
  merge_trees_at-MergesAll (suc n) path b o t st sb so sth clean =
      elim (Option-cases (same_trees b o t)) [
        | inl e ↦
            let eq = at_apart sha256 n path b o t st e in
            subst (Merges sha256 (suc n) path b o t st) (sym eq) (
              merge_nodes-MergesAll n (merge_trees_at sha256 n) (merge_trees_at-MergesAll n)
                (merge_trees_at-Kept clean_growth sha256 n) path b o t st sb so sth
                (subst (λ (out : Outcome Merging Hash). Clean out.1.0.objects) eq clean))
        | inr (h, e) ↦
            subst (Merges sha256 (suc n) path b o t st)
              (sym (at_same sha256 (suc n) path b o t st h e))
              (same-Merges (suc n) path b o t h st e so sth)
      ]

  -- What `merge_trees` leaves behind: a tree that shows every record set merged by the rules for
  -- one leaf, and the conflicts, in a store that has lost nothing.
  pub record MergedView (fuel : ℕ) (b o t : Hash) (s : Store)
      (out : Outcome Store (Hash × List Conflict)) : Type 0 where
    pub hash : Hash
    pub conflicts : List Conflict
    pub result : out.0 ≡ ok (hash, conflicts)
    pub extends : Extends s out.1
    pub stands : Stands sha256 out.1 fuel hash
    pub shows :
        (q : Labels) (rrtype : Bytes)
        → view sha256 out.1 hash q rrtype
          ≡ (resolve_leaf
              (view sha256 s b q rrtype)
              (view sha256 s o q rrtype)
              (view sha256 s t q rrtype)).0
    pub reported :
        (c : Conflict)
        → In c conflicts ↔ Clash [] (view sha256 s b) (view sha256 s o) (view sha256 s t) c

  -- On three stored zone trees whose height is at most the fuel, if the writes are clean (no two
  -- objects fell on one hash, none on the zero hash), `merge_trees` succeeds: the merged root is a
  -- well-formed tree that shows at every owner and type what the rules for one leaf make of the
  -- three zones there, the conflicts are exactly those of the record sets on which the zones clash,
  -- each with its path and its three hashes, and no stored object is lost.
  pub merge_trees-MergedView :
      (fuel : ℕ) (b o t : Hash) (s : Store)
      → Stands sha256 s fuel b
      → Stands sha256 s fuel o
      → Stands sha256 s fuel t
      → Clean (merge_trees sha256 fuel b o t s).1.objects
      → MergedView fuel b o t s (merge_trees sha256 fuel b o t s)
  unfolding merge_trees
  merge_trees-MergedView fuel b o t s sb so sth clean =
      let m = merge_trees_at-MergesAll fuel [] b o t (s, []) sb so sth clean in
      record {
        hash = m.hash;
        conflicts = sort_conflicts (merge_trees_at sha256 fuel [] b o t (s, [])).1.1;
        result = rw (m.result) refl;
        extends = m.extends;
        stands = (m.tree, m.size);
        shows = m.shows;
        reported = λ c.
            let told = m.reported c in
            let out = (merge_trees_at sha256 fuel [] b o t (s, [])).1.1 in
            (
              λ i. elim (told.0 ((sort_conflicts-In c out).0 i)) [
                | inl nowhere ↦ absurd nowhere
                | inr clash ↦ clash
              ],
              λ clash. (sort_conflicts-In c out).1 (told.1 (inr clash)),
            );
      }
