-- ===== src/Tickets/Sold.antt =====
-- Which tickets the threads of test_03_23/Lock/testMutex.cpp sell.
use linux_system_learning.Prelude.{
  ℕ, zero, suc, ◌-◌, ◌≡◌, ◌≤◌, ◌<◌, ◌⊎◌, inl, inr, refl, ap, sym, ◌∙◌, Bool, true, false, List, [],
  ◌∷◌, ◌++◌, Option, none, some, arith, map, length, length-append, ltb, if◌then◌else◌, if_cases,
}
use linux_system_learning.Tickets.{
  Stage, testing, printing, taking, unlocking, breaking, Booth, RouteMove, lock_mutex, go_on,
  open_booth, is_gone, guard_lock, route_step, holder_goes, route_move, route_moves,
}

-- `k` tickets from `n` down
abbrev pub countdown : ℕ → ℕ → List ℕ
countdown zero n = []
countdown (suc k) n = n ∷ countdown k (n - 1)

abbrev pub numbers : List (ℕ × ℕ) → List ℕ
numbers sold = map (λ (s : ℕ × ℕ). s.1) sold

numbers-append : (xs ys : List (ℕ × ℕ)) → numbers (xs ++ ys) ≡ numbers xs ++ numbers ys
numbers-append [] ys = refl
numbers-append (x ∷ xs) ys = ap (λ (l : List ℕ). x.1 ∷ l) (numbers-append xs ys)

countdown-append : (k n : ℕ) → countdown (suc k) n ≡ countdown k n ++ (n - k) ∷ []
countdown-append zero n = ap (λ (m : ℕ). m ∷ []) (omega arith)
countdown-append (suc k) n =
    ap (λ (l : List ℕ). n ∷ l)
      (countdown-append k (n - 1) ∙ ap (λ (m : ℕ). countdown k (n - 1) ++ m ∷ []) (omega arith))

-- What is sold when so many tickets are left
abbrev HasSold : ℕ → ℕ → List (ℕ × ℕ) → Type 0
HasSold n left sold =
    (numbers sold ≡ countdown (n - left) n) × (length sold ≡ n - left) × (left ≤ n)

-- The counter where the mutex is with a thread at a stage
abbrev IsAt : ℕ → Booth → Option (ℕ × Stage) → Type 0
IsAt n b none = HasSold n b.ticket b.sold
IsAt n b (some (id, testing)) = HasSold n b.ticket b.sold
IsAt n b (some (id, printing)) = HasSold n b.ticket b.sold × (0 < b.ticket)
IsAt n b (some (id, taking)) = HasSold n (b.ticket - 1) b.sold × (0 < b.ticket) × (b.ticket ≤ n)
IsAt n b (some (id, unlocking)) = HasSold n b.ticket b.sold
IsAt n b (some (id, breaking)) = HasSold n b.ticket b.sold × (b.ticket ≡ 0)

abbrev IsOpen : ℕ → Booth → Type 0
IsOpen n b = IsAt n b b.mutex × ((b.gone ≡ []) ⊎ (b.ticket ≡ 0))

printed :
    (n id : ℕ) (b : Booth)
    → HasSold n b.ticket b.sold
    → 0 < b.ticket
    → HasSold n (b.ticket - 1) (b.sold ++ (id, b.ticket) ∷ [])
printed n id b h p =
    let one : suc (n - b.ticket) ≡ n - (b.ticket - 1) = omega (arith, h.2, p) in
    (
      numbers-append b.sold ((id, b.ticket) ∷ [])
          ∙ ap (λ (l : List ℕ). l ++ b.ticket ∷ []) h.0
          ∙ ap (λ (t : ℕ). countdown (n - b.ticket) n ++ t ∷ []) (omega (arith, h.2))
          ∙ sym (countdown-append (n - b.ticket) n)
          ∙ ap (λ (k : ℕ). countdown k n) one,
      omega (arith, h.1, h.2, p, length-append b.sold ((id, b.ticket) ∷ [])),
      omega (arith, h.2),
    )

one_less : (b : Booth) → (b.gone ≡ []) ⊎ (b.ticket ≡ 0) → (b.gone ≡ []) ⊎ (b.ticket - 1 ≡ 0)
one_less b (inl g) = inl g
one_less b (inr z) = inr (omega (arith, z))

tested :
    (n id : ℕ) (b : Booth) (positive : Bool)
    → ltb 0 b.ticket ≡ positive
    → HasSold n b.ticket b.sold
    → IsAt n b (some (id, if positive then printing else breaking))
tested n id b true e h = (h, ground (arith, e))
tested n id b false e h = (h, ground (arith, e))

step-IsOpen :
    (n id : ℕ) (b : Booth) (stage : Stage)
    → IsAt n b (some (id, stage))
    → (b.gone ≡ []) ⊎ (b.ticket ≡ 0)
    → IsOpen n (route_step b id stage)
unfolding route_step
step-IsOpen n id b testing h g = (tested n id b (ltb 0 b.ticket) refl h, g)
step-IsOpen n id b printing h g = ((printed n id b h.0 h.1, h.1, h.0.2), g)
step-IsOpen n id b taking h g = (h.0, one_less b g)
step-IsOpen n id b unlocking h g = (h, g)
step-IsOpen n id b breaking h g = (h.0, inr h.1)

holder-IsOpen :
    (n : ℕ) (b : Booth) (m : Option (ℕ × Stage))
    → b.mutex ≡ m
    → IsAt n b m
    → (b.gone ≡ []) ⊎ (b.ticket ≡ 0)
    → IsOpen n (holder_goes b m)
unfolding holder_goes
holder-IsOpen n b none e h g = rw e (h, g)
holder-IsOpen n b (some (id, stage)) e h g = step-IsOpen n id b stage h g

lock-IsOpen :
    (n id : ℕ) (b : Booth) (m : Option (ℕ × Stage))
    → b.mutex ≡ m
    → IsAt n b m
    → (b.gone ≡ []) ⊎ (b.ticket ≡ 0)
    → IsOpen n (guard_lock b id m)
unfolding guard_lock
lock-IsOpen n id b none e h g =
    if_cases (IsOpen n) (is_gone id b.gone) (λ t. rw e (h, g)) (λ t. (h, g))
lock-IsOpen n id b (some o) e h g = rw e (h, g)

move-IsOpen : (n : ℕ) (b : Booth) (m : RouteMove) → IsOpen n b → IsOpen n (route_move b m)
unfolding route_move
move-IsOpen n b (lock_mutex id) h = lock-IsOpen n id b b.mutex refl h.0 h.1
move-IsOpen n b go_on h = holder-IsOpen n b b.mutex refl h.0 h.1

moves-IsOpen : (n : ℕ) (b : Booth) (ms : List RouteMove) → IsOpen n b → IsOpen n (route_moves b ms)
unfolding route_moves
moves-IsOpen n b [] h = h
moves-IsOpen n b (m ∷ ms) h = moves-IsOpen n (route_move b m) ms (move-IsOpen n b m h)

-- What the threads have sold of `n` tickets
abbrev pub AreSold : ℕ → Booth → Type 0
AreSold n b =
    (numbers b.sold ≡ countdown (length b.sold) n)
    × (length b.sold ≤ n)
    × ((b.gone ≡ []) ⊎ (numbers b.sold ≡ countdown n n))

sold_of :
    (n : ℕ) (b : Booth) (left : ℕ)
    → HasSold n left b.sold
    → (b.gone ≡ []) ⊎ (left ≡ 0)
    → AreSold n b
sold_of n b left h (inl g) =
    (h.0 ∙ ap (λ (k : ℕ). countdown k n) (sym h.1), omega (arith, h.1), inl g)
sold_of n b left h (inr g) = (
  h.0 ∙ ap (λ (k : ℕ). countdown k n) (sym h.1),
  omega (arith, h.1),
  inr (h.0 ∙ ap (λ (k : ℕ). countdown k n) (omega arith)),
)

open-AreSold :
    (n : ℕ) (b : Booth) (m : Option (ℕ × Stage))
    → IsAt n b m
    → (b.gone ≡ []) ⊎ (b.ticket ≡ 0)
    → AreSold n b
open-AreSold n b none h g = sold_of n b b.ticket h g
open-AreSold n b (some (id, testing)) h g = sold_of n b b.ticket h g
open-AreSold n b (some (id, printing)) h g = sold_of n b b.ticket h.0 g
open-AreSold n b (some (id, taking)) h g = sold_of n b (b.ticket - 1) h.0 (one_less b g)
open-AreSold n b (some (id, unlocking)) h g = sold_of n b b.ticket h g
open-AreSold n b (some (id, breaking)) h g = sold_of n b b.ticket h.0 g

-- However the statements of the threads are interleaved, the tickets are sold from `n` down, none of them twice and none
-- left out in between; and once a thread has left its loop, all of them down to 1 are sold.
pub route_moves-AreSold : (n : ℕ) (ms : List RouteMove) → AreSold n (route_moves (open_booth n) ms)
unfolding open_booth
route_moves-AreSold n ms =
    let none_sold : 0 ≡ n - n = omega arith in
    let (h, g) =
      moves-IsOpen n (open_booth n) ms
        ((ap (λ (k : ℕ). countdown k n) none_sold, omega arith, omega arith), inl refl) in
    open-AreSold n (route_moves (open_booth n) ms) (route_moves (open_booth n) ms).mutex h g
