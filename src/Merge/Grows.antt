-- ===== src/Merge/Grows.antt =====
-- A merge only writes objects, so it keeps what every write of an object keeps.
use zonegit.Base.{
  ℕ, zero, suc, ◌+◌, ◌≡◌, sym, arith, List, [], length, Bytes, none, some, Option-cases, Result,
  Result-cases, Error, ok, err, Outcome, ◌then_do◌, with_do, Bool-cases, inl, inr, ◌==◌,
}
use mathlib.Core.Path.{subst}
use zonegit.Store.Hash.{Hash}
use zonegit.Store.MemStore.Growth.{Growth}
use zonegit.Store.MemStore.{Store}
use zonegit.Object.Tree.{TreeEntry, entry_leaf}
use zonegit.Object.TreeOps.{Labels, put_tree, validate_entries}
use zonegit.Object.TreeOps.Grows.{clean_growth}
use zonegit.Merge.{
  Merging, Descend, Rest, merge_round, merge_loop, merge_nodes, merge_trees_at, merge_trees,
  write_merged, note_conflict, min_key, resolve_leaf, advance, keep_entry, same_trees,
  load_or_empty,
}

pub note_conflict-store :
    (path : Labels) (name : Bytes) (b o t : Hash) (st : Merging)
    → (note_conflict path name b o t st).0 ≡ st.0
unfolding note_conflict
note_conflict-store path name b o t (s, out) = elim (Option-cases (resolve_leaf b o t).1) [
  | inl e ↦ ground (arith, e)
  | inr (r, e) ↦ ground (arith, e)
]

module _ (growth : Growth) where
  open growth use {relates, stays, chains}

  abbrev pub Kept : {A : Type 0} → Merging → Outcome Merging A → Type 0
  Kept st out = relates st.0 out.1.0

  Kept-from :
      {A : Type 0} (st' st : Merging) (out : Outcome Merging A)
      → st'.0 ≡ st.0
      → Kept st' out
      → Kept st out
  Kept-from st' st out e = subst (λ s. relates s out.1.0) e

  then_do-Kept :
      {A B : Type 0} (st : Merging) (m : Outcome Merging A) (f : A → Merging → Outcome Merging B)
      → Kept st m
      → ((a : A) (st' : Merging) → Kept st' (f a st'))
      → Kept st (m then_do f)
  then_do-Kept st (ok a, st') f g h = chains st.0 st'.0 (f a st').1.0 g (h a st')
  then_do-Kept st (err e, st') f g h = g

  with_do-Kept :
      {A B : Type 0} (st : Merging) (r : Result A) (f : A → Outcome Merging B)
      → ((a : A) → Kept st (f a))
      → Kept st (with_do st r f)
  with_do-Kept st (ok a) f h = h a
  with_do-Kept st (err e) f h = stays st.0

module _ (descend : Descend) (path : Labels) (rounds : ℕ) (bs os ts merged : List TreeEntry)
    (st : Merging) where
  pub loop_none :
      min_key bs os ts ≡ none
      → merge_loop descend path (suc rounds) bs os ts merged st ≡ (ok merged, st)
  unfolding merge_loop
  loop_none e = ground (arith, e)

  pub loop_some :
      (k : TreeEntry)
      → min_key bs os ts ≡ some k
      → merge_loop descend path (suc rounds) bs os ts merged st
        ≡ merge_round descend path k (merge_loop descend path rounds) bs os ts merged st
  unfolding merge_loop
  loop_some k e = ground (arith, e)

module _ (growth : Growth) (descend : Descend)
    (grows : (path : Labels) (b o t : Hash) (st : Merging)
      → Kept growth st (descend path b o t st)) where
  open growth use {relates, stays}

  merge_round-Kept :
      (path : Labels) (k : TreeEntry) (rest : Rest)
      → ((bs os ts merged : List TreeEntry) (st : Merging)
          → Kept growth st (rest bs os ts merged st))
      → (bs os ts merged : List TreeEntry) (st : Merging)
      → Kept growth st (merge_round descend path k rest bs os ts merged st)
  unfolding merge_round
  merge_round-Kept path k rest h bs os ts merged st = elim (Bool-cases (k.kind == entry_leaf)) [
    | inl leaf ↦
        let b = advance k.kind k.name bs in
        let o = advance k.kind k.name os in
        let t = advance k.kind k.name ts in
        let st' = note_conflict path k.name b.0 o.0 t.0 st in
        let kept = keep_entry entry_leaf k.name (resolve_leaf b.0 o.0 t.0).0 merged in
        rw leaf (
          Kept-from growth st' st (rest b.1 o.1 t.1 kept st')
            (note_conflict-store path k.name b.0 o.0 t.0 st) (h b.1 o.1 t.1 kept st'))
    | inr subtree ↦
        rw subtree (then_do-Kept growth st _ _ (grows _ _ _ _ st) (λ mh st'. h _ _ _ _ st'))
  ]

  pub merge_loop-Kept :
      (path : Labels) (rounds : ℕ) (bs os ts merged : List TreeEntry) (st : Merging)
      → Kept growth st (merge_loop descend path rounds bs os ts merged st)
  unfolding merge_loop
  merge_loop-Kept path zero bs os ts merged st = stays st.0
  merge_loop-Kept path (suc rounds) bs os ts merged st = elim (Option-cases (min_key bs os ts)) [
    | inl e ↦
        subst (Kept growth st) (sym (loop_none descend path rounds bs os ts merged st e))
          (stays st.0)
    | inr (k, e) ↦
        subst (Kept growth st) (sym (loop_some descend path rounds bs os ts merged st k e)) (
          merge_round-Kept path k (merge_loop descend path rounds) (merge_loop-Kept path rounds) bs
            os ts merged st)
  ]

module _ (sha256 : Bytes → Hash) where
  pub at_same :
      (fuel : ℕ) (path : Labels) (b o t : Hash) (st : Merging) (h : Hash)
      → same_trees b o t ≡ some h
      → merge_trees_at sha256 fuel path b o t st ≡ (ok h, st)
  unfolding merge_trees_at
  at_same zero path b o t st h e = ground (arith, e)
  at_same (suc n) path b o t st h e = ground (arith, e)

  pub at_apart :
      (n : ℕ) (path : Labels) (b o t : Hash) (st : Merging)
      → same_trees b o t ≡ none
      → merge_trees_at sha256 (suc n) path b o t st
        ≡ merge_nodes sha256 (merge_trees_at sha256 n) path b o t st
  unfolding merge_trees_at
  at_apart n path b o t st e = ground (arith, e)

  at_bottom :
      (path : Labels) (b o t : Hash) (st : Merging)
      → same_trees b o t ≡ none
      → merge_trees_at sha256 zero path b o t st ≡ (err Error.out_of_fuel, st)
  unfolding merge_trees_at
  at_bottom path b o t st e = ground (arith, e)

module _ (growth : Growth) (sha256 : Bytes → Hash) where
  open growth use {relates, stays, puts}

  pub write_merged-Kept :
      (merged : List TreeEntry) (st : Merging) → Kept growth st (write_merged sha256 merged st)
  unfolding write_merged put_tree
  write_merged-Kept merged (s, out) = elim (Bool-cases (length merged == 0)) [
    | inl e ↦ rw e (stays s)
    | inr e ↦ rw e (elim (Result-cases (validate_entries merged)) [
      | inl (_, v) ↦ rw v (puts _ _ s)
      | inr (_, v) ↦ rw v (stays s)
    ])
  ]

  merge_nodes-Kept :
      (descend : Descend)
      → ((path : Labels) (b o t : Hash) (st : Merging) → Kept growth st (descend path b o t st))
      → (path : Labels) (b o t : Hash) (st : Merging)
      → Kept growth st (merge_nodes sha256 descend path b o t st)
  unfolding merge_nodes
  merge_nodes-Kept descend grows path b o t st =
      with_do-Kept growth st (load_or_empty sha256 st.0 b) _ (λ bt.
        with_do-Kept growth st (load_or_empty sha256 st.0 o) _ (λ ot.
          with_do-Kept growth st (load_or_empty sha256 st.0 t) _ (λ ht.
            then_do-Kept growth st
              (merge_loop descend path (length bt.entries + length ot.entries + length ht.entries)
                bt.entries ot.entries ht.entries [] st)
              (write_merged sha256)
              (merge_loop-Kept growth descend grows path _ bt.entries ot.entries ht.entries [] st)
              (λ merged st'. write_merged-Kept merged st'))))

  pub merge_trees_at-Kept :
      (fuel : ℕ) (path : Labels) (b o t : Hash) (st : Merging)
      → Kept growth st (merge_trees_at sha256 fuel path b o t st)
  merge_trees_at-Kept zero path b o t st = elim (Option-cases (same_trees b o t)) [
    | inl e ↦ subst (Kept growth st) (sym (at_bottom sha256 path b o t st e)) (stays st.0)
    | inr (h, e) ↦ subst (Kept growth st) (sym (at_same sha256 zero path b o t st h e)) (stays st.0)
  ]
  merge_trees_at-Kept (suc n) path b o t st = elim (Option-cases (same_trees b o t)) [
    | inl e ↦
        subst (Kept growth st) (sym (at_apart sha256 n path b o t st e))
          (merge_nodes-Kept (merge_trees_at sha256 n) (merge_trees_at-Kept n) path b o t st)
    | inr (h, e) ↦
        subst (Kept growth st) (sym (at_same sha256 (suc n) path b o t st h e)) (stays st.0)
  ]

-- The writes before a merge are clean if those after it are.
abbrev pub Grown : {A : Type 0} → Merging → Outcome Merging A → Type 0
Grown st out = Kept clean_growth st out

pub merge_trees-relates :
    (growth : Growth) (sha256 : Bytes → Hash) (fuel : ℕ) (b o t : Hash) (s : Store)
    → growth.relates s (merge_trees sha256 fuel b o t s).1
unfolding merge_trees
merge_trees-relates growth sha256 fuel b o t s =
    merge_trees_at-Kept growth sha256 fuel [] b o t (s, [])
