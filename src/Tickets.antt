-- ===== src/Tickets.antt =====
-- test_03_23/Lock: testMutex.cpp over Lock.hpp, threads that sell the tickets of one counter. A move is a statement of a
-- thread, in any order of the threads; the mutex has one holder.
pub mod Sold
use linux_system_learning.Prelude.{
  ℕ, zero, suc, ◌-◌, ◌||◌, Bool, true, false, List, [], ◌∷◌, ◌++◌, Option, none, some, ltb, ◌==◌,
  if◌then◌else◌,
}

-- Where the holder of the mutex stands in route: in front of the test, of printf, of the decrement, of the unlock at the
-- end of the body, or of the one behind the break
pub data Stage : Type 0 where
  testing : Stage
  printing : Stage
  taking : Stage
  unlocking : Stage
  breaking : Stage

-- `sold` records which thread printed which ticket, in order; `gone` the threads that have left their loop.
pub record Booth : Type 0 where
  pub ticket : ℕ
  pub mutex : Option (ℕ × Stage)
  pub sold : List (ℕ × ℕ)
  pub gone : List ℕ

-- A thread asks for the mutex, or its holder goes on.
pub data RouteMove : Type 0 where
  lock_mutex : ℕ → RouteMove
  go_on : RouteMove

unfoldable pub open_booth : ℕ → Booth
open_booth ticket = record { ticket = ticket; mutex = none; sold = []; gone = [] }

unfoldable pub is_gone : ℕ → List ℕ → Bool
is_gone id [] = false
is_gone id (other ∷ ids) = other == id || is_gone id ids

-- LockGuard: a thread waits while another one holds the mutex.
unfoldable pub guard_lock : Booth → ℕ → Option (ℕ × Stage) → Booth
unfolding is_gone
guard_lock b id none = if is_gone id b.gone then b else record b { mutex = some (id, testing) }
guard_lock b id (some h) = b

-- The body of route's loop
unfoldable pub route_step : Booth → ℕ → Stage → Booth
route_step b id testing = record b {
  mutex = some (id, if ltb 0 b.ticket then printing else breaking);
}
route_step b id printing = record b {
  mutex = some (id, taking);
  sold = b.sold ++ (id, b.ticket) ∷ [];
}
route_step b id taking = record b { mutex = some (id, unlocking); ticket = b.ticket - 1 }
route_step b id unlocking = record b { mutex = none }
route_step b id breaking = record b { mutex = none; gone = id ∷ b.gone }

unfoldable pub holder_goes : Booth → Option (ℕ × Stage) → Booth
unfolding route_step
holder_goes b none = b
holder_goes b (some (id, stage)) = route_step b id stage

unfoldable pub route_move : Booth → RouteMove → Booth
unfolding guard_lock holder_goes
route_move b (lock_mutex id) = guard_lock b id b.mutex
route_move b go_on = holder_goes b b.mutex

unfoldable pub route_moves : Booth → List RouteMove → Booth
route_moves b [] = b
route_moves b (m ∷ ms) = route_moves (route_move b m) ms
