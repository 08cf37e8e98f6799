-- ===== src/Base/Assoc.antt =====
-- Go maps keyed by byte strings, as association lists that hold each key once.
use mathlib.Core.Path.{◌≡◌}
use mathlib.Core.List.{List, [], ◌∷◌}
use mathlib.Core.Option.{Option, none, some}
use native.Mathlib.Omega.{arith}
use zonegit.Base.Tests.{if◌then◌else◌}
use zonegit.Base.ByteOrder.{Bytes, bytes_eq, bytes_eq_iff}

module _ {ℓ} {V : Type ℓ} where
  unfoldable pub lookup : Bytes → List (Bytes × V) → Option V
  lookup k [] = none
  lookup k ((j, v) ∷ m) = if bytes_eq j k then some v else lookup k m

  unfoldable pub remove : Bytes → List (Bytes × V) → List (Bytes × V)
  remove k [] = []
  remove k ((j, v) ∷ m) = let rest = remove k m in if bytes_eq j k then rest else ((j, v) ∷ rest)

  -- `m[k] = v`
  unfoldable pub assign : Bytes → V → List (Bytes × V) → List (Bytes × V)
  assign k v m = (k, v) ∷ remove k m

  pub lookup-remove :
      (k j : Bytes) (m : List (Bytes × V))
      → lookup j (remove k m) ≡ (if bytes_eq k j then none else lookup j m)
  unfolding lookup remove
  lookup-remove k j [] = ground (arith, bytes_eq_iff k j)
  lookup-remove k j ((i, w) ∷ m) =
      ground (arith, bytes_eq_iff k j, bytes_eq_iff i k, bytes_eq_iff i j, lookup-remove k j m)

  pub lookup-assign :
      (k j : Bytes) (v : V) (m : List (Bytes × V))
      → lookup j (assign k v m) ≡ (if bytes_eq k j then some v else lookup j m)
  unfolding lookup assign
  lookup-assign k j v m = ground (arith, lookup-remove k j m)
