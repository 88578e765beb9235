-- ===== src/Prelude/Remove.antt =====
-- Taking an element out of a sequence by its index.
use mathlib.Core.List.Perm
use mathlib.Core.List.{Perm, List, [], ◌∷◌}
use Prim.Native.Nat.{ℕ, zero, suc, ◌≤◌}
use mathlib.Core.Path.{◌≡◌, refl, ap}
use native.Mathlib.Omega.{arith}
use mathlib.Core.Option.{Option, none, some}
use linux_system_learning.Prelude.Lists.{length}

abbrev pub remove_at {ℓ} : {A : Type ℓ} → List A → ℕ → Option (A × List A)
remove_at [] i = none
remove_at (x ∷ xs) zero = some (x, xs)
remove_at (x ∷ xs) (suc i) = elim (remove_at xs i) [ none ↦ none | some (y, ys) ↦ some (y, x ∷ ys) ]

module _ {ℓ} {A : Type ℓ} where
  -- What `remove_at` takes out and what it leaves are the list.
  abbrev pub Removed : List A → Option (A × List A) → Type ℓ
  Removed xs none = Unit
  Removed xs (some (x, ys)) = Perm xs (x ∷ ys) × (length xs ≡ suc (length ys))

  Removed-cons :
      (z : A) (xs : List A) (i : ℕ) (o : Option (A × List A))
      → remove_at xs i ≡ o
      → Removed xs o
      → Removed (z ∷ xs) (remove_at (z ∷ xs) (suc i))
  Removed-cons z xs i none e h = rw (e, remove_at) tt
  Removed-cons z xs i (some (y, ys)) e h =
      rw (e, remove_at) (Perm.trans (Perm.cons z h.0) (Perm.swap y z ys), ap suc h.1)

  pub remove_at-Removed : (xs : List A) (i : ℕ) → Removed xs (remove_at xs i)
  remove_at-Removed [] i = tt
  remove_at-Removed (x ∷ xs) zero = (Perm.rfl, refl)
  remove_at-Removed (x ∷ xs) (suc i) =
      Removed-cons x xs i (remove_at xs i) refl (remove_at-Removed xs i)

  pub remove_at-none : (xs : List A) (i : ℕ) → remove_at xs i ≡ none → length xs ≤ i
  remove_at-none [] i e = omega arith
  remove_at-none (x ∷ xs) zero e = cc
  remove_at-none (x ∷ xs) (suc i) e = ground (arith, remove_at-none xs i)
