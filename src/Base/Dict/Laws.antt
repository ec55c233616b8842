-- ===== src/Base/Dict/Laws.antt =====
-- Laws of the association lists that stand for `HashMap`.
use clift.Base.Tests.{Key, ◌==◌, if◌then◌else◌, Bool-cases}
use clift.Base.Dict.{Dict, get, remove, insert, retain, total, IsMap}
use Prim.Native.Nat.{ℕ, ◌+◌, ◌≤◌}
use mathlib.Core.Path.{◌≡◌, refl}
use mathlib.Core.Logic.{inl, inr}
use mathlib.Core.Bool.{Bool}
use mathlib.Core.Option.{Option, none, some}
use mathlib.Core.List.{[], ◌∷◌}
use native.Mathlib.Omega.{arith}

-- What is left of an entry that a test may drop.
abbrev pub kept {ℓ} : {V : Type ℓ} → (V → Bool) → Option V → Option V
kept keep none = none
kept keep (some v) = if keep v then some v else none

abbrev pub size_of {ℓ} : {V : Type ℓ} → (V → ℕ) → Option V → ℕ
size_of size none = 0
size_of size (some v) = size v

module _ {ℓ κ} {K : Type ℓ} {V : Type κ} where
  pub total-retain-le :
      (size : V → ℕ) (keep : V → Bool) (m : Dict K V) → total size (retain keep m) ≤ total size m
  unfolding total retain
  total-retain-le size keep [] = omega arith
  total-retain-le size keep ((k, v) ∷ m) = ground (arith, total-retain-le size keep m)

module _ {ℓ κ} {K : Type ℓ} {V : Type κ} ⦃e : Key K⦄ where
  pub get-remove :
      (q k : K) (m : Dict K V) → get (remove q m) k ≡ (if q == k then none else get m k)
  unfolding get remove
  get-remove q k [] = ground arith
  get-remove q k ((j, v) ∷ m) =
      ground (arith, get-remove q k m, e.test_iff j q, e.test_iff j k, e.test_iff q k)

  pub get-insert :
      (q k : K) (v : V) (m : Dict K V) → get (insert q v m) k ≡ (if q == k then some v else get m k)
  unfolding get insert
  get-insert q k v m = ground (arith, get-remove q k m)

  pub get-retain-none :
      (keep : V → Bool) (k : K) (m : Dict K V) → get m k ≡ none → get (retain keep m) k ≡ none
  unfolding get retain
  get-retain-none keep k [] h = refl
  get-retain-none keep k ((j, v) ∷ m) h = ground (arith, get-retain-none keep k m)

  pub get-retain :
      (keep : V → Bool) (k : K) (m : Dict K V)
      → IsMap m
      → get (retain keep m) k ≡ kept keep (get m k)
  unfolding get retain
  get-retain keep k [] h = refl
  get-retain keep k ((j, v) ∷ m) h =
      ground (arith, get-retain keep k m h.1, get-retain-none keep j m h.0, e.test_iff j k)

  pub retain-IsMap : (keep : V → Bool) (m : Dict K V) → IsMap m → IsMap (retain keep m)
  unfolding retain
  retain-IsMap keep [] h = tt
  retain-IsMap keep ((j, v) ∷ m) h = elim (Bool-cases (keep v)) [
    | inl p ↦ rw p (get-retain-none keep j m h.0, retain-IsMap keep m h.1)
    | inr p ↦ rw p (retain-IsMap keep m h.1)
  ]

  pub remove-IsMap : (q : K) (m : Dict K V) → IsMap m → IsMap (remove q m)
  unfolding remove
  remove-IsMap q [] h = tt
  remove-IsMap q ((j, v) ∷ m) h = elim (Bool-cases (j == q)) [
    | inl p ↦ rw p (remove-IsMap q m h.1)
    | inr p ↦ rw p (ground (arith, get-remove q j m, h.0), remove-IsMap q m h.1)
  ]

  pub total-remove :
      (size : V → ℕ) (q : K) (m : Dict K V)
      → IsMap m
      → total size (remove q m) + size_of size (get m q) ≡ total size m
  unfolding total remove get
  total-remove size q [] h = omega arith
  total-remove size q ((j, v) ∷ m) h = ground (arith, total-remove size q m h.1, e.test_iff j q)

  pub insert-IsMap : (q : K) (v : V) (m : Dict K V) → IsMap m → IsMap (insert q v m)
  unfolding insert
  insert-IsMap q v m h = (ground (arith, get-remove q q m, e.test_iff q q), remove-IsMap q m h)

  pub total-insert :
      (size : V → ℕ) (q : K) (v : V) (m : Dict K V)
      → IsMap m
      → total size (insert q v m) + size_of size (get m q) ≡ total size m + size v
  unfolding total insert
  total-insert size q v m h = omega (arith, total-remove size q m h)
