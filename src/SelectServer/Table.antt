-- ===== src/SelectServer/Table.antt =====
-- How often a descriptor stands in the table.
use linux_system_learning.Prelude.{
  ℕ, zero, suc, ◌+◌, ◌<◌, ◌≡◌, subst, refl, List, [], ◌∷◌, Option, none, some, arith, ◌==◌,
  if◌then◌else◌, get_or, set, length, All,
}
use linux_system_learning.SelectServer.{free_slot, further, fd_setsize}

abbrev pub occurs : ℕ → Option ℕ → ℕ
occurs fd none = 0
occurs fd (some other) = if fd == other then 1 else 0

abbrev pub count : ℕ → List (Option ℕ) → ℕ
count fd [] = 0
count fd (o ∷ slots) = occurs fd o + count fd slots

abbrev pub number : ℕ → List ℕ → ℕ
number fd [] = 0
number fd (other ∷ fds) = occurs fd (some other) + number fd fds

pub count-set :
    (fd : ℕ) (slots : List (Option ℕ)) (i : ℕ) (o : Option ℕ)
    → i < length slots
    → count fd (set slots i o) + occurs fd (get_or slots i none) ≡ count fd slots + occurs fd o
count-set fd [] i o h = absurd (omega arith)
count-set fd (s ∷ slots) zero o h = omega arith
count-set fd (s ∷ slots) (suc i) o h = omega (arith, count-set fd slots i o (omega arith))

-- A slot that holds a descriptor is one of the table's.
pub used_below :
    (slots : List (Option ℕ)) (i fd : ℕ) → get_or slots i none ≡ some fd → i < length slots
used_below [] i fd e = cc
used_below (s ∷ slots) zero fd e = omega arith
used_below (s ∷ slots) (suc i) fd e = omega (arith, used_below slots i fd e)

-- A slot found free is one of the table's, and holds nothing.
abbrev pub Found : List (Option ℕ) → Option ℕ → Type 0
Found slots none = Unit
Found slots (some pos) = (pos < length slots) × (get_or slots pos none ≡ none)

further-Found :
    (s : Option ℕ) (slots : List (Option ℕ)) (o : Option ℕ)
    → Found slots o
    → Found (s ∷ slots) (further o)
further-Found s slots none h = tt
further-Found s slots (some pos) h = (omega (arith, h.0), h.1)

pub free_slot-Found : (slots : List (Option ℕ)) → Found slots (free_slot slots)
unfolding free_slot
free_slot-Found [] = tt
free_slot-Found (none ∷ slots) = (omega arith, refl)
free_slot-Found (some fd ∷ slots) =
    further-Found (some fd) slots (free_slot slots) (free_slot-Found slots)

-- What the slot holds has room in an fd_set.
abbrev pub Fits : Option ℕ → Type 0
Fits none = Unit
Fits (some fd) = fd < fd_setsize

pub Fits-get :
    (slots : List (Option ℕ)) (i fd : ℕ)
    → All Fits slots
    → get_or slots i none ≡ some fd
    → fd < fd_setsize
Fits-get [] i fd h e = cc
Fits-get (s ∷ slots) zero fd h e = subst Fits e h.0
Fits-get (s ∷ slots) (suc i) fd h e = Fits-get slots i fd h.1 e

pub Fits-set :
    (slots : List (Option ℕ)) (i : ℕ) (o : Option ℕ)
    → All Fits slots
    → Fits o
    → All Fits (set slots i o)
Fits-set [] i o h f = tt
Fits-set (s ∷ slots) zero o h f = (f, h.1)
Fits-set (s ∷ slots) (suc i) o h f = (h.0, Fits-set slots i o h.1 f)
