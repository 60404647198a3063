-- ===== src/Prelude/Map.antt =====
-- `std::collections::HashMap` as an association list. `Distinct` says that no key stands twice; every
-- operation keeps it. The order of the entries is no part of any statement.
use Prim.Native.Nat.{ℕ, suc, ◌+◌, ◌≤◌}
use mathlib.Core.Path.{◌≡◌, refl}
use mathlib.Core.Bool.{Bool}
use mathlib.Core.Option.{Option, none, some}
use mathlib.Core.List.{List, [], ◌∷◌}
use native.Mathlib.Omega.{arith}
use azad_server_box.Prelude.Tests.{if◌then◌else◌}
use azad_server_box.Prelude.Lists.{length}
use azad_server_box.Prelude.Equality.{Eq, ◌==◌}

abbrev pub Map {ℓ κ} : Type ℓ → Type κ → Type (ℓ ⊔ κ)
Map K V = List (K × V)

abbrev pub keep_if {ℓ} : {V : Type ℓ} → (V → Bool) → Option V → Option V
keep_if p none = none
keep_if p (some v) = if p v then some v else none

module _ {ℓ κ} {K : Type ℓ} {V : Type κ} ⦃e : Eq K⦄ where
  unfoldable pub lookup : K → Map K V → Option V
  lookup k [] = none
  lookup k ((j, v) ∷ m) = if j == k then some v else lookup k m

  unfoldable pub remove : K → Map K V → Map K V
  remove k [] = []
  remove k ((j, v) ∷ m) = let rest = remove k m in if j == k then rest else (j, v) ∷ rest

  unfoldable pub insert : K → V → Map K V → Map K V
  unfolding remove
  insert k v m = (k, v) ∷ remove k m

  abbrev pub Distinct : Map K V → Type κ
  Distinct [] = Unit
  Distinct ((k, v) ∷ m) = (lookup k m ≡ none) × Distinct m

-- `retain` and the count of the values that pass a test do not compare keys.
module _ {ℓ κ} {K : Type ℓ} {V : Type κ} where
  unfoldable pub retain : (K → V → Bool) → Map K V → Map K V
  retain p [] = []
  retain p ((j, v) ∷ m) = let rest = retain p m in if p j v then (j, v) ∷ rest else rest

  unfoldable pub count_values : (V → Bool) → Map K V → ℕ
  count_values p [] = 0
  count_values p ((j, v) ∷ m) = let n = count_values p m in if p v then suc n else n

  pub length-retain-le : (p : K → V → Bool) (m : Map K V) → length (retain p m) ≤ length m
  unfolding retain
  length-retain-le p [] = omega arith
  length-retain-le p ((j, v) ∷ m) = ground (arith, length-retain-le p m)

  pub count_values-retain-le :
      (q : V → Bool) (p : K → V → Bool) (m : Map K V)
      → count_values q (retain p m) ≤ count_values q m
  unfolding retain count_values
  count_values-retain-le q p [] = omega arith
  count_values-retain-le q p ((j, v) ∷ m) = ground (arith, count_values-retain-le q p m)

module _ {ℓ κ} {K : Type ℓ} {V : Type κ} ⦃e : Eq K⦄ where
  pub lookup-remove :
      (k j : K) (m : Map K V) → lookup j (remove k m) ≡ (if k == j then none else lookup j m)
  unfolding lookup remove
  lookup-remove k j [] = ground arith
  lookup-remove k j ((i, v) ∷ m) =
      ground (arith, lookup-remove k j m, e.decides i k, e.decides i j, e.decides k j)

  pub lookup-insert :
      (key other : K) (value : V) (m : Map K V)
      → lookup other (insert key value m) ≡ (if key == other then some value else lookup other m)
  unfolding insert lookup
  lookup-insert key other value m = ground (arith, lookup-remove key other m)

  pub lookup-retain :
      (p : K → V → Bool) (j : K) (m : Map K V)
      → Distinct m
      → lookup j (retain p m) ≡ keep_if (p j) (lookup j m)
  unfolding lookup retain
  lookup-retain p j [] d = refl
  lookup-retain p j ((i, v) ∷ m) d = ground (arith, lookup-retain p j m d.1, e.decides i j)

  pub remove-Distinct : (k : K) (m : Map K V) → Distinct m → Distinct (remove k m)
  unfolding remove
  remove-Distinct k [] d = tt
  remove-Distinct k ((i, v) ∷ m) d = ground (arith, remove-Distinct k m d.1, lookup-remove k i m)

  pub insert-Distinct : (k : K) (v : V) (m : Map K V) → Distinct m → Distinct (insert k v m)
  unfolding insert
  insert-Distinct k v m d =
      ground (arith, remove-Distinct k m d, lookup-remove k k m, e.decides k k)

  pub retain-Distinct : (p : K → V → Bool) (m : Map K V) → Distinct m → Distinct (retain p m)
  unfolding retain
  retain-Distinct p [] d = tt
  retain-Distinct p ((i, v) ∷ m) d =
      ground (arith, retain-Distinct p m d.1, lookup-retain p i m d.1)

  pub length-remove-le : (k : K) (m : Map K V) → length (remove k m) ≤ length m
  unfolding remove
  length-remove-le k [] = omega arith
  length-remove-le k ((i, v) ∷ m) = ground (arith, length-remove-le k m)

  pub length-insert-le : (k : K) (v : V) (m : Map K V) → length (insert k v m) ≤ length m + 1
  unfolding insert
  length-insert-le k v m = omega (arith, length-remove-le k m)

pub ruleset map_laws = (lookup-remove, lookup-insert)

-- One for a value that passes the test.
abbrev pub weight {ℓ} : {V : Type ℓ} → (V → Bool) → Option V → ℕ
weight p none = 0
weight p (some v) = if p v then 1 else 0

abbrev pub one_if_some {ℓ} : {V : Type ℓ} → Option V → ℕ
one_if_some none = 0
one_if_some (some v) = 1

module _ {ℓ κ} {K : Type ℓ} {V : Type κ} ⦃e : Eq K⦄ where
  -- Removing a key takes out at least the entry that was found under it.
  pub count_values-remove :
      (p : V → Bool) (k : K) (m : Map K V)
      → weight p (lookup k m) + count_values p (remove k m) ≤ count_values p m
  unfolding lookup remove count_values
  count_values-remove p k [] = omega arith
  count_values-remove p k ((j, v) ∷ m) = ground (arith, count_values-remove p k m)

  pub length-remove :
      (k : K) (m : Map K V) → one_if_some (lookup k m) + length (remove k m) ≤ length m
  unfolding lookup remove
  length-remove k [] = omega arith
  length-remove k ((j, v) ∷ m) = ground (arith, length-remove k m)

  pub count_values-insert :
      (p : V → Bool) (k : K) (v : V) (m : Map K V)
      → count_values p (insert k v m) + weight p (lookup k m) ≤ weight p (some v) + count_values p m
  unfolding insert count_values
  count_values-insert p k v m = ground (arith, count_values-remove p k m)

  pub length-insert :
      (k : K) (v : V) (m : Map K V)
      → length (insert k v m) + one_if_some (lookup k m) ≤ 1 + length m
  unfolding insert
  length-insert k v m = omega (arith, length-remove k m)
