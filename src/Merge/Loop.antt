-- ===== src/Merge/Loop.antt =====
-- The loop of one node merges the entries under its cursors.
use zonegit.Base.{
  ℕ, zero, suc, ◌+◌, ◌≤◌, ◌≡◌, refl, sym, ap, ◌∙◌, arith, List, [], ◌∷◌, ◌++◌, append-nil, length,
  Bytes, some, Option-cases, ok, err, Outcome, inl, inr, ◌⊎◌, ◌↔◌, In, ◌then_do◌,
}
use mathlib.Core.Path.{subst}
use zonegit.Store.Hash.{Hash, hash_size, zero_hash}
use zonegit.Object.Tree.{TreeEntry, entry_leaf, entry_subtree}
use zonegit.Object.Tree.Codec.RoundTrip.{IsEntry}
use zonegit.Object.TreeOps.{Labels}
use zonegit.Object.TreeOps.Entries.{hash_at-nil, hash_at}
use zonegit.Object.TreeOps.Stored.{Extends, Clean}
use zonegit.Object.TreeOps.View.{view_in, IsTreeAt, IsTreeAt-hash_at, view-zero_hash}
use zonegit.Merge.{
  Conflict, Merging, Descend, Rest, min_key, advance, merge_round, merge_loop, resolve_leaf,
}
use zonegit.Merge.Keys.{kind_cases, min_key_lower, min_key_cases, min_key-none}
use zonegit.Merge.Cursor.{Advanced, advance-Advanced}
use zonegit.Object.TreeOps.Grows.{clean_growth}
use zonegit.Merge.Grows.{Grown, loop_none, loop_some, merge_loop-Kept, note_conflict-store}
use zonegit.Merge.Reported.{ClashAt, Reported-none, resolve_leaf_agreed, note_conflict-Reported}
use zonegit.Merge.Step.{resolved, piece, Row, Keyed, Looped}
use zonegit.Merge.Round.{round-Looped}
use zonegit.Merge.Walk.{
  Stands, MergesAll, Row-advance, Row-Extends, hash_at-size, resolved-size, All-min_key,
  AllAbove-min_key, b_hash, o_hash, t_hash, onward, round_leaf, round_subtree,
}

pub then_do-ok :
    {A B : Type 0} (m : Outcome Merging A) (f : A → Merging → Outcome Merging B) (a : A)
    → m.0 ≡ ok a
    → (m then_do f) ≡ f a m.1
then_do-ok {A} (ok a', st) f a e = let same : a' ≡ a = cc in ap (λ z. f z st) same
then_do-ok (err x, st) f a e = cc

pub Clean-then_do :
    {A B : Type 0} (m : Outcome Merging A) (f : A → Merging → Outcome Merging B)
    → ((a : A) (st : Merging) → Grown st (f a st))
    → Clean (m then_do f).1.0.objects
    → Clean m.1.0.objects
Clean-then_do (ok a, st) f g clean = g a st clean
Clean-then_do (err x, st) f g clean = clean

resolved_self : (h : Hash) → resolved h h h ≡ h
unfolding resolve_leaf
resolved_self h = ground arith

module _ (sha256 : Bytes → Hash) where
  view_in-nil :
      (st : Merging) (q : Labels) (rrtype : Bytes) → view_in sha256 st.0 [] q rrtype ≡ zero_hash
  unfolding view_in
  view_in-nil st [] rrtype = hash_at-nil entry_leaf rrtype
  view_in-nil st (l ∷ q) rrtype =
      rw (hash_at-nil entry_subtree l) (view-zero_hash sha256 st.0 q rrtype)

  Looped-nil :
      (n : ℕ) (path : Labels) (merged : List TreeEntry) (st : Merging)
      → Looped sha256 n path [] [] [] merged st (ok merged, st)
  Looped-nil n path merged st = record {
    new = [];
    result = ap ok (sym (append-nil merged));
    extends = λ h o p. p;
    row = (record { valid = tt; ascends = tt; nonzero = tt }, tt);
    above = λ k b o t. tt;
    shows = λ q rrtype. rw (view_in-nil st q rrtype) (sym (resolved_self zero_hash));
    reported =
        Reported-none path (view_in sha256 st.0 []) (view_in sha256 st.0 [])
          (view_in sha256 st.0 []) st.1 (λ q rrtype. resolve_leaf_agreed _ _);
  }

  module _ (n : ℕ) (descend : Descend) (correct : MergesAll sha256 n descend)
      (grows : (path : Labels) (b o t : Hash) (st : Merging) → Grown st (descend path b o t st))
      (path : Labels) where
    module _ (rounds : ℕ)
        (ih : (bs os ts merged : List TreeEntry) (st : Merging)
          → Row sha256 st.0 n bs
          → Row sha256 st.0 n os
          → Row sha256 st.0 n ts
          → length bs + length os + length ts ≤ rounds
          → Clean (merge_loop descend path rounds bs os ts merged st).1.0.objects
          → Looped sha256 n path bs os ts merged st
              (merge_loop descend path rounds bs os ts merged st))
        (bs os ts merged : List TreeEntry) (st : Merging) (b : Row sha256 st.0 n bs)
        (o : Row sha256 st.0 n os) (t : Row sha256 st.0 n ts)
        (few : length bs + length os + length ts ≤ suc rounds) (k : TreeEntry)
        (least : min_key bs os ts ≡ some k) where
      abbrev rest : Rest
      rest = merge_loop descend path rounds

      entry : IsEntry k
      entry = All-min_key bs os ts least IsEntry b.0.valid o.0.valid t.0.valid

      b_adv : Advanced k.kind k.name bs (advance k.kind k.name bs).0 (advance k.kind k.name bs).1
      b_adv = advance-Advanced k.kind k.name bs (min_key_lower bs os ts least).0 b.0.ascends

      o_adv : Advanced k.kind k.name os (advance k.kind k.name os).0 (advance k.kind k.name os).1
      o_adv = advance-Advanced k.kind k.name os (min_key_lower bs os ts least).1 o.0.ascends

      t_adv : Advanced k.kind k.name ts (advance k.kind k.name ts).0 (advance k.kind k.name ts).1
      t_adv = advance-Advanced k.kind k.name ts (min_key_lower bs os ts least).2 t.0.ascends

      fewer :
          length (advance k.kind k.name bs).1
            + length (advance k.kind k.name os).1
            + length (advance k.kind k.name ts).1
          ≤ rounds
      fewer = elim (min_key_cases bs os ts least) [
        | inl e ↦ omega (arith, b_adv.moves k e refl, o_adv.no_longer, t_adv.no_longer)
        | inr (inl e) ↦ omega (arith, b_adv.no_longer, o_adv.moves k e refl, t_adv.no_longer)
        | inr (inr e) ↦ omega (arith, b_adv.no_longer, o_adv.no_longer, t_adv.moves k e refl)
      ]

      -- The key has got its hash: the rest does the others.
      go_on :
          (st' : Merging) (h : Hash)
          → Keyed sha256 n path k
              (b_hash descend path k rest bs os ts merged st)
              (o_hash descend path k rest bs os ts merged st)
              (t_hash descend path k rest bs os ts merged st)
              st
              st'
              h
          → Clean (onward descend path k rest bs os ts merged st h st').1.0.objects
          → Looped sha256 n path bs os ts merged st
              (onward descend path k rest bs os ts merged st h st')
      go_on st' h keyed clean =
          round-Looped sha256 n path k entry bs os ts (advance k.kind k.name bs).1
            (advance k.kind k.name os).1 (advance k.kind k.name ts).1 merged
            (advance k.kind k.name bs).0 (advance k.kind k.name os).0 (advance k.kind k.name ts).0
            b_adv o_adv t_adv st st' h b.1 o.1 t.1 keyed
            (onward descend path k rest bs os ts merged st h st')
            (ih (advance k.kind k.name bs).1 (advance k.kind k.name os).1
              (advance k.kind k.name ts).1 (merged ++ piece k.kind k.name h) st' (moved bs b b_adv)
              (moved os o o_adv) (moved ts t t_adv) fewer clean)
            (AllAbove-min_key bs os ts least)
        where
          moved :
              (es : List TreeEntry)
              → Row sha256 st.0 n es
              → Advanced k.kind k.name es (advance k.kind k.name es).0 (advance k.kind k.name es).1
              → Row sha256 st'.0 n (advance k.kind k.name es).1
          moved es row adv =
              Row-Extends sha256 st.0 st'.0 n (advance k.kind k.name es).1 keyed.extends
                (Row-advance sha256 st.0 n k.kind k.name es adv row)

      size_of :
          (es : List TreeEntry)
          → Row sha256 st.0 n es
          → Advanced k.kind k.name es (advance k.kind k.name es).0 (advance k.kind k.name es).1
          → length (advance k.kind k.name es).0 ≡ hash_size
      size_of es row adv = ap length adv.hash ∙ hash_at-size k.kind k.name es row.0.valid

      Keyed-leaf :
          (st' : Merging)
          → st'.0 ≡ st.0
          → ((c : Conflict)
              → In c st'.1 ↔ (
                  In c st.1
                  ⊎ ((c.rrtype ≡ k.name)
                      × ClashAt path
                          (advance k.kind k.name bs).0
                          (advance k.kind k.name os).0
                          (advance k.kind k.name ts).0
                          c)))
          → k.kind ≡ entry_leaf
          → Keyed sha256 n path k
              (advance k.kind k.name bs).0
              (advance k.kind k.name os).0
              (advance k.kind k.name ts).0
              st
              st'
              (resolved
                (advance k.kind k.name bs).0
                (advance k.kind k.name os).0
                (advance k.kind k.name ts).0)
      Keyed-leaf st' same noted e = record {
        extends = subst (λ s. Extends st.0 s) (sym same) (λ h obj p. p);
        size =
            resolved-size _ _ _ hash_size (size_of bs b b_adv) (size_of os o o_adv)
              (size_of ts t t_adv);
        tree = λ e'. absurd (omega (arith, e, e'));
        leaf = λ _. refl;
        subtree = λ e'. absurd (omega (arith, e, e'));
        leaf_clash = λ _. noted;
        subtree_clashes = λ e'. absurd (omega (arith, e, e'));
      }

      stands :
          (es : List TreeEntry)
          → Row sha256 st.0 n es
          → Advanced k.kind k.name es (advance k.kind k.name es).0 (advance k.kind k.name es).1
          → k.kind ≡ entry_subtree
          → Stands sha256 st.0 n (advance k.kind k.name es).0
      stands es row adv e = (
        subst (IsTreeAt sha256 st.0 n) (sym (adv.hash ∙ ap (λ z. hash_at z k.name es) e))
            (IsTreeAt-hash_at sha256 st.0 n es k.name row.1),
        size_of es row adv,
      )

      -- A round at a subtree.
      step_subtree :
          k.kind ≡ entry_subtree
          → Clean (merge_round descend path k rest bs os ts merged st).1.0.objects
          → Looped sha256 n path bs os ts merged st
              (merge_round descend path k rest bs os ts merged st)
      step_subtree e clean =
          let m =
            descend (path ++ (k.name ∷ [])) (advance k.kind k.name bs).0
              (advance k.kind k.name os).0 (advance k.kind k.name ts).0 st in
          let next = onward descend path k rest bs os ts merged st in
          let eq = round_subtree descend path k rest bs os ts merged st e in
          let clean' = subst (λ out. Clean out.1.0.objects) eq clean in
          let below =
            correct (path ++ (k.name ∷ [])) _ _ _ st (stands bs b b_adv e) (stands os o o_adv e)
              (stands ts t t_adv e)
              (Clean-then_do m next
                (λ h st'. merge_loop-Kept clean_growth descend grows path rounds _ _ _ _ st')
                clean') in
          let eq' = then_do-ok m next below.hash below.result in
          subst (Looped sha256 n path bs os ts merged st) (sym (eq ∙ eq')) (
            go_on m.1 below.hash
              (record {
                extends = below.extends;
                size = below.size;
                tree = λ _. below.tree;
                leaf = λ e'. absurd (omega (arith, e, e'));
                subtree = λ _. below.shows;
                leaf_clash = λ e'. absurd (omega (arith, e, e'));
                subtree_clashes = λ _. below.reported;
              })
              (subst (λ out. Clean out.1.0.objects) eq' clean'))

      step_leaf :
          k.kind ≡ entry_leaf
          → Clean (merge_round descend path k rest bs os ts merged st).1.0.objects
          → Looped sha256 n path bs os ts merged st
              (merge_round descend path k rest bs os ts merged st)
      step_leaf e clean =
          let eq = round_leaf descend path k rest bs os ts merged st e in
          subst (Looped sha256 n path bs os ts merged st) (sym eq) (
            go_on _ _
              (Keyed-leaf _ (note_conflict-store path k.name _ _ _ st)
                (note_conflict-Reported path k.name _ _ _ st) e)
              (subst (λ out. Clean out.1.0.objects) eq clean))

      step :
          Clean (merge_round descend path k rest bs os ts merged st).1.0.objects
          → Looped sha256 n path bs os ts merged st
              (merge_round descend path k rest bs os ts merged st)
      step clean = elim (kind_cases entry.kind_valid) [
        | inl e ↦ step_subtree e clean
        | inr e ↦ step_leaf e clean
      ]

    -- Rounds for every entry are enough.
    pub merge_loop-Looped :
        (rounds : ℕ) (bs os ts merged : List TreeEntry) (st : Merging)
        → Row sha256 st.0 n bs
        → Row sha256 st.0 n os
        → Row sha256 st.0 n ts
        → length bs + length os + length ts ≤ rounds
        → Clean (merge_loop descend path rounds bs os ts merged st).1.0.objects
        → Looped sha256 n path bs os ts merged st
            (merge_loop descend path rounds bs os ts merged st)
    unfolding merge_loop
    merge_loop-Looped zero [] [] [] merged st b o t few clean = Looped-nil n path merged st
    merge_loop-Looped zero (x ∷ bs) os ts merged st b o t few clean = absurd (omega arith)
    merge_loop-Looped zero [] (x ∷ os) ts merged st b o t few clean = absurd (omega arith)
    merge_loop-Looped zero [] [] (x ∷ ts) merged st b o t few clean = absurd (omega arith)
    merge_loop-Looped (suc rounds) bs os ts merged st b o t few clean =
        elim (Option-cases (min_key bs os ts)) [
          | inl e ↦
              let (be, oe, te) = min_key-none bs os ts e in
              subst (Looped sha256 n path bs os ts merged st)
                (sym (loop_none descend path rounds bs os ts merged st e))
                (rw (be, oe, te) (Looped-nil n path merged st))
          | inr (k, e) ↦
              let eq = loop_some descend path rounds bs os ts merged st k e in
              subst (Looped sha256 n path bs os ts merged st) (sym eq) (
                step rounds (merge_loop-Looped rounds) bs os ts merged st b o t few k e
                  (subst (λ out. Clean out.1.0.objects) eq clean))
        ]
