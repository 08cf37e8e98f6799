-- ===== src/Object/TreeOps/Clean.antt =====
-- A test for clean writes.
use zonegit.Base.{
  ◌^◌, ◌≡◌, arith, Bool, true, not, ◌&&◌, List, [], ◌∷◌, length, leb, bytes_eq, bytes_eq_iff,
  Option, none, some, lookup,
}
use zonegit.Store.Hash.{Hash, is_zero}
use zonegit.Store.MemStore.{Object}
use zonegit.Object.TreeOps.Stored.{Clean}

same_object : Option Object → Object → Bool
same_object none o = true
same_object (some o') o = bytes_eq o'.kind o.kind && bytes_eq o'.payload o.payload

unfoldable pub clean_test : List (Hash × Object) → Bool
unfolding same_object
clean_test [] = true
clean_test ((h, o) ∷ m) =
    same_object (lookup h m) o && not (is_zero h) && leb (length o.payload) (2 ^ 47) && clean_test m

same_object-eq : (o o' : Object) → same_object (some o') o ≡ true → o' ≡ o
unfolding same_object
same_object-eq o o' h =
    ground (arith, bytes_eq_iff o'.kind o.kind, bytes_eq_iff o'.payload o.payload)

pub Clean-of_test : (m : List (Hash × Object)) → clean_test m ≡ true → Clean m
unfolding clean_test
Clean-of_test [] h = tt
Clean-of_test ((k, o) ∷ m) h = (
  λ o' e. same_object-eq o o' (ground (arith, e)),
  ground arith,
  ground arith,
  Clean-of_test m (ground arith),
)
