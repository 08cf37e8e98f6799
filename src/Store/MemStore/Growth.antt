-- ===== src/Store/MemStore/Growth.antt =====
-- What every write of an object keeps, as a relation of the stores before and after.
use zonegit.Base.{◌≡◌, refl, ◌∙◌, Outcome, Result, ok, err, ◌then_do◌, with_do}
use zonegit.Store.Hash.{Hash}
use zonegit.Store.MemStore.{Store, Object, put_object}

pub record Growth : Type 1 where
  pub relates : Store → Store → Type 0
  pub stays : (s : Store) → relates s s
  pub chains : (s t u : Store) → relates s t → relates t u → relates s u
  pub puts : (h : Hash) (o : Object) (s : Store) → relates s (put_object h o s)

pub refs_after : (h : Hash) (o : Object) (s : Store) → (put_object h o s).refs ≡ s.refs
unfolding put_object
refs_after h o s = refl

-- The refs.
abbrev pub refs_growth : Growth
refs_growth = record {
  relates = λ s s'. s'.refs ≡ s.refs;
  stays = λ s. refl;
  chains = λ s t u p q. q ∙ p;
  puts = refs_after;
}

module _ (growth : Growth) where
  open growth use {relates, stays, chains}

  pub then_do-relates :
      {A B : Type 0} (s : Store) (m : Outcome Store A) (f : A → Store → Outcome Store B)
      → relates s m.1
      → ((a : A) (s' : Store) → relates s' (f a s').1)
      → relates s (m then_do f).1
  then_do-relates s (ok a, s') f g h = chains s s' (f a s').1 g (h a s')
  then_do-relates s (err e, s') f g h = g

  pub with_do-relates :
      {A B : Type 0} (s : Store) (r : Result A) (f : A → Outcome Store B)
      → ((a : A) → relates s (f a).1)
      → relates s (with_do s r f).1
  with_do-relates s (ok a) f h = h a
  with_do-relates s (err e) f h = stays s
