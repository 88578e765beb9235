-- ===== src/ProcessPool/Turns.antt =====
-- Which child gets which code in test_03_05/ProcessPool, and which codes Excute of Task.hpp can take.
use linux_system_learning.Prelude.{
  ℕ, zero, suc, ◌+◌, ◌%◌, ◌≡◌, ◌<◌, ◌≤◌, ◌↔◌, refl, ap, sym, ◌∙◌, true, List, [], ◌∷◌, ◌++◌, Option,
  none, some, arith, if_cases, length, All, map, get_elem?, leb, append_assoc, append-nil,
}
use native.Mathlib.Nat.{mod-eq_of_lt, mod-lt, mod-add-mod}
use linux_system_learning.Prelude.Outcome.{returned, undefined, Gives}
use linux_system_learning.ProcessPool.{
  Channel, ProcessPool, select, selected, run, runs, task_at, excute, whole, eof, work,
}

-- The codes dealt to the channels in turn, from channel `i` modulo their number on
abbrev pub dealt_to : Option Channel → ℕ → List (ℕ × ℕ)
dealt_to none code = []
dealt_to (some c) code = (c.subid, code) ∷ []

abbrev pub deal : List Channel → ℕ → List ℕ → List (ℕ × ℕ)
deal channels i [] = []
deal channels i (code ∷ codes) =
    dealt_to (get_elem? channels (i % length channels)) code ++ deal channels (suc i) codes

get_elem_in {ℓ} :
    {A : Type ℓ} (xs : List A) (i : ℕ) → i < length xs → (x : A) × (get_elem? xs i ≡ some x)
get_elem_in [] i lt = absurd (omega (arith, lt))
get_elem_in (x ∷ xs) zero lt = (x, refl)
get_elem_in (x ∷ xs) (suc i) lt = get_elem_in xs i (omega (arith, lt))

runs_from :
    (s : ProcessPool) (i : ℕ) (codes : List ℕ)
    → 0 < length s.channels
    → s.next ≡ i % length s.channels
    → Gives (λ s'. s'.sent ≡ s.sent ++ deal s.channels i codes) (runs s codes)
unfolding runs run select selected
runs_from s i [] pos e = sym (append-nil s.sent)
runs_from s i (code ∷ codes) pos e =
    let (c, found) = get_elem_in s.channels (i % length s.channels) (mod-lt i pos) in
    let s' : ProcessPool = record s {
      next = (s.next + 1) % length s.channels;
      sent = s.sent ++ (c.subid, code) ∷ [];
    } in
    let turned : s'.next ≡ suc i % length s.channels =
      ap (λ n. (n + 1) % length s.channels) e
      ∙ mod-add-mod i (length s.channels) 1
      ∙ ap (λ n. n % length s.channels) (omega arith) in
    let ran : run s code ≡ returned s' = rw (e, found) refl in
    rw
      (ran, found, sym (append_assoc s.sent ((c.subid, code) ∷ []) (deal s.channels (suc i) codes)))
      (runs_from s' (suc i) codes pos turned)

-- The codes of a sequence of Runs on a pool with channels go to the children in turn, from the channel that is next:
-- each Run sends its code to one child, and the one after it to the next child, the first after the last.
pub runs-deal :
    (s : ProcessPool) (codes : List ℕ)
    → s.next < length s.channels
    → Gives (λ s'. s'.sent ≡ s.sent ++ deal s.channels s.next codes) (runs s codes)
runs-deal s codes lt = runs_from s s.next codes (omega (arith, lt)) (sym (mod-eq_of_lt lt))

get_elem_out {ℓ} :
    {A : Type ℓ} (xs : List A) (i : ℕ) → task_at (get_elem? xs i) ≡ undefined → length xs ≤ i
unfolding task_at
get_elem_out [] i h = omega arith
get_elem_out (x ∷ xs) zero h = cc
get_elem_out (x ∷ xs) (suc i) h = omega (arith, get_elem_out xs i h)

get_elem_end {ℓ} : {A : Type ℓ} (xs : List A) → task_at (get_elem? xs (length xs)) ≡ undefined
unfolding task_at
get_elem_end [] = refl
get_elem_end (x ∷ xs) = get_elem_end xs

-- Excute is undefined for one code and no other: the number of the tasks, which its test lets through and which is the
-- index behind the last task.
pub excute_undefined_iff {ℓ} :
    {A : Type ℓ} (tasks : List A) (code : ℕ)
    → (excute tasks code ≡ undefined) ↔ (code ≡ length tasks)
unfolding excute
excute_undefined_iff tasks code = (
  λ u.
      if_cases (λ r. r ≡ undefined → code ≡ length tasks) (leb code (length tasks))
        (λ t v. ground (arith, get_elem_out tasks code v, t)) (λ f v. cc) u,
  λ e. rw e (
      if_cases (λ r. r ≡ undefined) (leb (length tasks) (length tasks)) (λ t. get_elem_end tasks)
        (λ f. absurd (ground (arith, f)))),
)

get_elem_defined {ℓ} :
    {A : Type ℓ} (xs : List A) (i : ℕ)
    → i < length xs
    → task_at (get_elem? xs i) ≡ returned (get_elem? xs i)
unfolding task_at
get_elem_defined [] i lt = absurd (omega (arith, lt))
get_elem_defined (x ∷ xs) zero lt = refl
get_elem_defined (x ∷ xs) (suc i) lt = get_elem_defined xs i (omega (arith, lt))

excute_below {ℓ} :
    {A : Type ℓ} (tasks : List A) (code : ℕ)
    → code < length tasks
    → excute tasks code ≡ returned (get_elem? tasks code)
unfolding excute
excute_below tasks code lt =
    let tested : leb code (length tasks) ≡ true = ground (arith, lt) in
    rw tested (get_elem_defined tasks code lt)

-- A child whose pipe brings codes that are indices of tasks, each in one piece, and is then closed runs the tasks of the
-- codes in their order and leaves its loop.
pub work_codes {ℓ} :
    {A : Type ℓ} (tasks : List A) (codes : List ℕ)
    → All (λ code. code < length tasks) codes
    → work tasks (map whole codes ++ eof ∷ []) ≡ returned (map (get_elem? tasks) codes)
unfolding work
work_codes tasks [] h = refl
work_codes tasks (code ∷ codes) h =
    rw (excute_below tasks code h.0, work_codes tasks codes h.1) refl
