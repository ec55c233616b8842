-- ===== src/Base/Dict.antt =====
-- `HashMap` as an association list. The program iterates over a map only to filter it and to add up
-- its values, so the order of the entries shows nowhere.
pub mod Laws
use clift.Base.Tests.{Key, ◌==◌, if◌then◌else◌, Bool-cases}
use clift.Base.Lists.{length}
use Prim.Native.Nat.{ℕ, ◌+◌, ◌≤◌}
use mathlib.Core.Path.{◌≡◌, refl, sym}
use mathlib.Core.Logic.{inl, inr}
use mathlib.Core.Bool.{Bool, true, false, ◌&&◌}
use mathlib.Core.Option.{Option, none, some}
use mathlib.Core.List.{List, [], ◌∷◌}
use native.Mathlib.Omega.{arith}

abbrev pub Dict {ℓ κ} : Type ℓ → Type κ → Type (ℓ ⊔ κ)
Dict K V = List (K × V)

module _ {ℓ κ} {K : Type ℓ} {V : Type κ} where
  -- `map.retain(|_, value| keep(value))`
  unfoldable pub retain : (V → Bool) → Dict K V → Dict K V
  retain keep [] = []
  retain keep ((k, v) ∷ m) = let rest = retain keep m in if keep v then (k, v) ∷ rest else rest

  -- `map.values().map(size).sum()`
  unfoldable pub total : (V → ℕ) → Dict K V → ℕ
  total size [] = 0
  total size ((k, v) ∷ m) = size v + total size m

module _ {ℓ κ} {K : Type ℓ} {V : Type κ} ⦃e : Key K⦄ where
  -- `map.get(&key)`
  unfoldable pub get : Dict K V → K → Option V
  get [] q = none
  get ((k, v) ∷ m) q = if k == q then some v else get m q

  -- `map.remove(&key)`, less its result.
  unfoldable pub remove : K → Dict K V → Dict K V
  remove q [] = []
  remove q ((k, v) ∷ m) = let rest = remove q m in if k == q then rest else (k, v) ∷ rest

  -- `map.insert(key, value)`
  unfoldable pub insert : K → V → Dict K V → Dict K V
  insert q v m = (q, v) ∷ remove q m

  -- No key has two entries.
  abbrev pub IsMap : Dict K V → Type κ
  IsMap [] = Unit
  IsMap ((k, v) ∷ m) = (get m k ≡ none) × IsMap m
