-- ===== src/Semaphore/Letters.antt =====
-- The letters that the processes of test_03_26/Writer.cc print.
use linux_system_learning.Prelude.{
  ℕ, suc, ◌+◌, ◌≡◌, ◌≢◌, ◌≤◌, refl, ap, sym, subst, ◌∙◌, List, [], ◌∷◌, ◌++◌, Option, none, some,
  arith, append_assoc,
}
use linux_system_learning.Semaphore.{
  Letter, letter_c, letter_f, Place, before_p, before_first, before_second, before_v, ended,
}

-- A list of letters each of which stands twice
abbrev pub IsPaired : List Letter → Type 0
IsPaired [] = Unit
IsPaired (x ∷ []) = ⊥
IsPaired (x ∷ y ∷ rest) = (x ≡ y) × IsPaired rest

-- The letters of pairs, and one whose second half is to come
abbrev pub IsWritten : List Letter → Option Letter → Type 0
IsWritten out none = IsPaired out
IsWritten out (some l) = (pairs : List Letter) × (out ≡ pairs ++ l ∷ []) × IsPaired pairs

abbrev pub count_f : List Letter → ℕ
count_f [] = 0
count_f (letter_c ∷ ls) = count_f ls
count_f (letter_f ∷ ls) = suc (count_f ls)

pub count_f-append : (xs ys : List Letter) → count_f (xs ++ ys) ≡ count_f xs + count_f ys
count_f-append [] ys = omega arith
count_f-append (letter_c ∷ xs) ys = count_f-append xs ys
count_f-append (letter_f ∷ xs) ys = omega (arith, count_f-append xs ys)

pub IsPaired-append : (xs : List Letter) (l : Letter) → IsPaired xs → IsPaired (xs ++ l ∷ l ∷ [])
IsPaired-append [] l h = (refl, tt)
IsPaired-append (x ∷ []) l h = absurd h
IsPaired-append (x ∷ y ∷ xs) l h = (h.0, IsPaired-append xs l h.1)

pub open-IsWritten :
    (out : List Letter) (o : Option Letter) (l : Letter)
    → o ≡ none
    → IsWritten out o
    → IsWritten (out ++ l ∷ []) (some l)
open-IsWritten out none l e h = (out, refl, h)
open-IsWritten out (some k) l e h = cc

pub close-IsWritten :
    (out : List Letter) (l : Letter) → IsWritten out (some l) → IsWritten (out ++ l ∷ []) none
close-IsWritten out l (pairs, e, h) =
    subst IsPaired
      (sym (append_assoc pairs (l ∷ []) (l ∷ [])) ∙ ap (λ (xs : List Letter). xs ++ l ∷ []) (sym e))
      (IsPaired-append pairs l h)

-- The letter that a process has printed once
abbrev pub half : Letter → Place → Option Letter
half l before_second = some l
half l before_p = none
half l before_first = none
half l before_v = none
half l ended = none

abbrev pub open_of : Place → Place → Option Letter
open_of before_second c = some letter_f
open_of before_p c = half letter_c c
open_of before_first c = half letter_c c
open_of before_v c = half letter_c c
open_of ended c = half letter_c c

-- Whether a process is between P and V, and how many letters it still prints there
abbrev pub busy : Place → ℕ
busy before_p = 0
busy before_first = 1
busy before_second = 1
busy before_v = 1
busy ended = 0

abbrev pub owed : Place → ℕ
owed before_p = 0
owed before_first = 2
owed before_second = 1
owed before_v = 0
owed ended = 0

pub half-none : (c : Place) → busy c ≡ 0 → half letter_c c ≡ none
half-none before_p e = refl
half-none before_first e = refl
half-none before_second e = absurd (omega (arith, e))
half-none before_v e = refl
half-none ended e = refl

pub open_eq : (p c c' : Place) → half letter_c c ≡ half letter_c c' → open_of p c ≡ open_of p c'
open_eq before_p c c' e = e
open_eq before_first c c' e = e
open_eq before_second c c' e = refl
open_eq before_v c c' e = e
open_eq ended c c' e = e

pub idle_open : (p c : Place) → busy p ≡ 0 → open_of p c ≡ half letter_c c
idle_open before_p c e = refl
idle_open before_first c e = refl
idle_open before_second c e = absurd (omega (arith, e))
idle_open before_v c e = refl
idle_open ended c e = refl

pub busy-le : (c : Place) → busy c ≤ 1
busy-le before_p = omega arith
busy-le before_first = omega arith
busy-le before_second = omega arith
busy-le before_v = omega arith
busy-le ended = omega arith

-- The rounds that the parent still makes
abbrev pub rounds_left : Place → ℕ → ℕ
rounds_left before_p cnt = cnt
rounds_left before_first cnt = cnt
rounds_left before_second cnt = cnt
rounds_left before_v cnt = cnt
rounds_left ended cnt = 0

pub rounds_left_up : (p : Place) (cnt : ℕ) → p ≢ ended → rounds_left p cnt ≡ cnt
rounds_left_up before_p cnt h = refl
rounds_left_up before_first cnt h = refl
rounds_left_up before_second cnt h = refl
rounds_left_up before_v cnt h = refl
rounds_left_up ended cnt h = absurd (h refl)
