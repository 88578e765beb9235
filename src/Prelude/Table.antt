-- ===== src/Prelude/Table.antt =====
-- std::unordered_map with descriptors as keys: an association list, whose order no lookup shows.
use linux_system_learning.Prelude.Tests.{◌==◌, if◌then◌else◌}
use Prim.Native.Nat.{ℕ}
use mathlib.Core.Path.{◌≡◌}
use mathlib.Core.Bool.{Bool, true, false}
use mathlib.Core.Option.{Option, none, some}
use mathlib.Core.List.{List, [], ◌∷◌}
use native.Mathlib.Omega.{arith}

module _ {ℓ} {V : Type ℓ} where
  -- `find`, and `operator[]` where the key is present
  unfoldable pub lookup : ℕ → List (ℕ × V) → Option V
  lookup key [] = none
  lookup key (entry ∷ table) = if entry.0 == key then some entry.1 else lookup key table

  -- `table.erase(key)`
  unfoldable pub erase : ℕ → List (ℕ × V) → List (ℕ × V)
  erase key [] = []
  erase key (entry ∷ table) =
      let others = erase key table in if entry.0 == key then others else entry ∷ others

  -- `table[key] = value`
  unfoldable pub insert : ℕ → V → List (ℕ × V) → List (ℕ × V)
  unfolding erase
  insert key value table = (key, value) ∷ erase key table

  abbrev pub is_some : Option V → Bool
  is_some none = false
  is_some (some v) = true

  pub lookup-erase :
      (key other : ℕ) (table : List (ℕ × V))
      → lookup other (erase key table) ≡ (if key == other then none else lookup other table)
  unfolding lookup erase
  lookup-erase key other [] = ground arith
  lookup-erase key other (entry ∷ table) = ground (arith, lookup-erase key other table)

  pub lookup-insert :
      (key other : ℕ) (value : V) (table : List (ℕ × V))
      → lookup other (insert key value table)
        ≡ (if key == other then some value else lookup other table)
  unfolding lookup insert
  lookup-insert key other value table = ground (arith, lookup-erase key other table)
