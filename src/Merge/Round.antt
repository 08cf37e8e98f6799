-- ===== src/Merge/Round.antt =====
-- One round of the merge walk, in front of the rest.
use zonegit.Base.{
  ℕ, ◌≡◌, refl, sym, ap, ◌∙◌, true, List, [], ◌∷◌, ◌++◌, append_assoc, Bytes, bytes_eq,
  bytes_eq_iff, bytes_lt, ok, Outcome, AllAbove, Bool-cases, inl, inr,
}
use zonegit.Store.Hash.{Hash}
use zonegit.Object.Tree.{EntryKind, TreeEntry, entry_key, key_of, entry_leaf, entry_subtree}
use zonegit.Object.Tree.Order.{key_of-injective}
use zonegit.Object.Tree.Codec.RoundTrip.{IsEntry}
use zonegit.Object.TreeOps.{Labels}
use zonegit.Object.TreeOps.Entries.{hash_at}
use zonegit.Object.TreeOps.Stored.{Extends-trans}
use zonegit.Object.TreeOps.View.{view, view_in, Below, IsTreeAt-Extends, view-Extends}
use zonegit.Merge.{Merging}
use zonegit.Merge.Clashes.{view-kept, added-Reported}
use zonegit.Merge.Cursor.{Advanced}
use zonegit.Merge.Step.{
  resolved, piece, hash_at-piece, hash_at-piece_apart, Keyed, Looped, Row-piece, AllAbove-piece,
}

pub resolved-eq :
    {b b' o o' t t' : Hash} → b ≡ b' → o ≡ o' → t ≡ t' → resolved b o t ≡ resolved b' o' t'
resolved-eq e f g = rw (e, f, g) refl

-- A hash at a key depends on the key only.
hash_at-key :
    (kind kind' : EntryKind) (name name' : Bytes) (es : List TreeEntry)
    → key_of kind name ≡ key_of kind' name'
    → hash_at kind' name' es ≡ hash_at kind name es
hash_at-key kind kind' name name' es e = let same = key_of-injective e in rw (same.0, same.1) refl

module _ (sha256 : Bytes → Hash) (n : ℕ) (path : Labels) (k : TreeEntry) (entry : IsEntry k)
    (bs os ts bs' os' ts' merged : List TreeEntry) (bh oh th : Hash)
    (b_adv : Advanced k.kind k.name bs bh bs') (o_adv : Advanced k.kind k.name os oh os')
    (t_adv : Advanced k.kind k.name ts th ts') (st st' : Merging) (h : Hash)
    (b_below : Below sha256 st.0 n bs) (o_below : Below sha256 st.0 n os)
    (t_below : Below sha256 st.0 n ts) (keyed : Keyed sha256 n path k bh oh th st st' h)
    (out : Outcome Merging (List TreeEntry))
    (rest : Looped sha256 n path bs' os' ts' (merged ++ piece k.kind k.name h) st' out) where
  abbrev added : List TreeEntry
  added = piece k.kind k.name h ++ rest.new

  new_above : AllAbove entry_key (entry_key k) rest.new
  new_above = rest.above (entry_key k) b_adv.above o_adv.above t_adv.above

  -- Under the round's own key.
  module _ (kind : EntryKind) (name : Bytes) (same : key_of k.kind k.name ≡ key_of kind name) where
    own_added : hash_at kind name added ≡ h
    own_added =
        hash_at-key k.kind kind k.name name added same
        ∙ hash_at-piece k.kind k.name h rest.new new_above

    own_resolved :
        (f : Hash → Hash)
        → resolved (f bh) (f oh) (f th)
          ≡ resolved
              (f (hash_at kind name bs))
              (f (hash_at kind name os))
              (f (hash_at kind name ts))
    own_resolved f =
        resolved-eq (ap f (at bs bh b_adv.hash)) (ap f (at os oh o_adv.hash))
          (ap f (at ts th t_adv.hash))
      where
        at :
            (es : List TreeEntry) (g : Hash)
            → g ≡ hash_at k.kind k.name es
            → g ≡ hash_at kind name es
        at es g e = e ∙ sym (hash_at-key k.kind kind k.name name es same)

  leaf_shows :
      (rrtype : Bytes)
      → hash_at entry_leaf rrtype added
        ≡ resolved
            (hash_at entry_leaf rrtype bs)
            (hash_at entry_leaf rrtype os)
            (hash_at entry_leaf rrtype ts)
  unfolding view_in
  leaf_shows rrtype =
      elim (Bool-cases (bytes_eq (key_of k.kind k.name) (key_of entry_leaf rrtype))) [
        | inl same ↦
            let e = (bytes_eq_iff (key_of k.kind k.name) (key_of entry_leaf rrtype)).0 same in
            own_added entry_leaf rrtype e
            ∙ keyed.leaf (key_of-injective e).0
            ∙ own_resolved entry_leaf rrtype e (λ g. g)
        | inr apart ↦
            hash_at-piece_apart k.kind k.name h rest.new new_above entry_leaf rrtype apart
            ∙ rest.shows [] rrtype
            ∙ resolved-eq (b_adv.others entry_leaf rrtype apart)
                (o_adv.others entry_leaf rrtype apart) (t_adv.others entry_leaf rrtype apart)
      ]

  subtree_shows :
      (l : Bytes) (q : Labels) (rrtype : Bytes)
      → view sha256 out.1.0 (hash_at entry_subtree l added) q rrtype
        ≡ resolved
            (view sha256 st.0 (hash_at entry_subtree l bs) q rrtype)
            (view sha256 st.0 (hash_at entry_subtree l os) q rrtype)
            (view sha256 st.0 (hash_at entry_subtree l ts) q rrtype)
  unfolding view_in
  subtree_shows l q rrtype =
      elim (Bool-cases (bytes_eq (key_of k.kind k.name) (key_of entry_subtree l))) [
        | inl same ↦
            let e = (bytes_eq_iff (key_of k.kind k.name) (key_of entry_subtree l)).0 same in
            let is_tree = (key_of-injective e).0 in
            ap (λ g. view sha256 out.1.0 g q rrtype) (own_added entry_subtree l e)
            ∙ view-Extends sha256 st'.0 out.1.0 n h q rrtype rest.extends (keyed.tree is_tree)
            ∙ keyed.subtree is_tree q rrtype
            ∙ own_resolved entry_subtree l e (λ g. view sha256 st.0 g q rrtype)
        | inr apart ↦
            ap (λ g. view sha256 out.1.0 g q rrtype)
              (hash_at-piece_apart k.kind k.name h rest.new new_above entry_subtree l apart)
            ∙ rest.shows (l ∷ q) rrtype
            ∙ resolved-eq
                (view-kept sha256 n st.0 st'.0 bs bs' l q rrtype keyed.extends b_below
                  (b_adv.others entry_subtree l apart))
                (view-kept sha256 n st.0 st'.0 os os' l q rrtype keyed.extends o_below
                  (o_adv.others entry_subtree l apart))
                (view-kept sha256 n st.0 st'.0 ts ts' l q rrtype keyed.extends t_below
                  (t_adv.others entry_subtree l apart))
      ]

  added_shows :
      (q : Labels) (rrtype : Bytes)
      → view_in sha256 out.1.0 added q rrtype
        ≡ resolved
            (view_in sha256 st.0 bs q rrtype)
            (view_in sha256 st.0 os q rrtype)
            (view_in sha256 st.0 ts q rrtype)
  unfolding view_in
  added_shows [] rrtype = leaf_shows rrtype
  added_shows (l ∷ q) rrtype = subtree_shows l q rrtype

  -- The round and the rest make a loop, if the round's key is above whatever is below the cursors.
  pub round-Looped :
      ((j : Bytes)
        → AllAbove entry_key j bs
        → AllAbove entry_key j os
        → AllAbove entry_key j ts
        → bytes_lt j (entry_key k) ≡ true)
      → Looped sha256 n path bs os ts merged st out
  round-Looped least = record {
    new = added;
    result = rest.result ∙ ap ok (append_assoc merged (piece k.kind k.name h) rest.new);
    extends = Extends-trans st.0 st'.0 out.1.0 keyed.extends rest.extends;
    row =
        Row-piece sha256 out.1.0 n k h rest.new entry keyed.size
          (λ is_tree. IsTreeAt-Extends sha256 st'.0 out.1.0 n h rest.extends (keyed.tree is_tree))
          new_above rest.row;
    above = λ j b o t. AllAbove-piece sha256 j k h rest.new (least j b o t) new_above;
    shows = added_shows;
    reported =
        added-Reported sha256 n path k entry bs os ts bs' os' ts' merged bh oh th b_adv o_adv t_adv
          st st' h b_below o_below t_below keyed out rest;
  }
