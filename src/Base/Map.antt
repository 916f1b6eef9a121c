-- ===== src/Base/Map.antt =====
-- `std::map` and `std::unordered_map` with a number as key: association lists, where the order of
-- the entries shows nowhere.
use Prim.Native.Nat.{ℕ}
use mathlib.Core.Path.{◌≡◌}
use mathlib.Core.List.{List, [], ◌∷◌}
use mathlib.Core.Option.{Option, none, some}
use native.Mathlib.Omega.{arith}
use morton.Base.Tests.{◌==◌, if◌then◌else◌}

module _ {ℓ} {V : Type ℓ} where
  unfoldable pub lookup : ℕ → List (ℕ × V) → Option V
  lookup key [] = none
  lookup key ((k, v) ∷ m) = if k == key then some v else lookup key m

  unfoldable pub erase : ℕ → List (ℕ × V) → List (ℕ × V)
  erase key [] = []
  erase key ((k, v) ∷ m) = let rest = erase key m in if k == key then rest else (k, v) ∷ rest

  -- `m[key] = v`
  unfoldable pub assign : ℕ → V → List (ℕ × V) → List (ℕ × V)
  assign key v m = (key, v) ∷ erase key m

module _ {V : Type 0} where
  pub lookup-erase :
      (key other : ℕ) (m : List (ℕ × V))
      → lookup other (erase key m) ≡ (if key == other then none else lookup other m)
  unfolding lookup erase
  lookup-erase key other [] = ground arith
  lookup-erase key other ((k, v) ∷ m) = ground (arith, lookup-erase key other m)

  pub lookup-assign :
      (key other : ℕ) (v : V) (m : List (ℕ × V))
      → lookup other (assign key v m) ≡ (if key == other then some v else lookup other m)
  unfolding lookup assign
  lookup-assign key other v m = ground (arith, lookup-erase key other m)
