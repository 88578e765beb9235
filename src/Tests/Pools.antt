-- ===== src/Tests/Pools.antt =====
-- The thread pool, the blocking queue and the process pool at small inputs.
use linux_system_learning.Prelude.{
  ℕ, ◌<◌, ◌≤◌, ◌≡◌, refl, List, [], ◌∷◌, ◌++◌, some, true, arith, length, All,
}
use mathlib.Core.List.{Perm}
use linux_system_learning.Prelude.Outcome.{Gives}
use linux_system_learning.ThreadPool.{
  Move, Call, start, move, moved, moves, no_single, calls, push_task, thread_wakeup, enter_run,
  take_task, finish_task, wake_up,
}
use linux_system_learning.ThreadPool.Tasks.{moves_tasks, moves_wake}
use linux_system_learning.ThreadPool.Instance.{calls_single}
use linux_system_learning.BlockQueue.{Turn, empty_queue}
use linux_system_learning.BlockQueue.Alone.{IsFair, two_turns, two_turns-IsFair}
use linux_system_learning.ProcessPool.{
  start as start_pool, ProcessPool, stop, other, Files, new_pool,
}
use linux_system_learning.ProcessPool.Stopping.{all_made, stop-start}

-- Two threads fall asleep, two tasks come, one thread wakes, takes the first and ends it.
abbrev two_tasks : List (Move ℕ)
two_tasks = Move.enter ∷ Move.enter ∷ Move.push 7 ∷ Move.push 8 ∷ Move.enter ∷ Move.finish 0 ∷ []

moves_tasks_example :
    ((moves (start 2) two_tasks).pushed
      ≡ (moves (start 2) two_tasks).taken ++ (moves (start 2) two_tasks).q)
    × Perm
        (moves (start 2) two_tasks).taken
        ((moves (start 2) two_tasks).done ++ (moves (start 2) two_tasks).running)
    × (length (moves (start 2) two_tasks).running ≤ 2)
moves_tasks_example = moves_tasks 2 (omega arith) two_tasks

moves_wake_example :
    (0 < (moves (start 2) two_tasks).ready)
    × ((moved (moves (start 2) two_tasks) (move (moves (start 2) two_tasks) Move.enter)).running
        ≡ 8 ∷ [])
    × ((moved (moves (start 2) two_tasks) (move (moves (start 2) two_tasks) Move.enter)).q ≡ [])
unfolding moves start move push_task thread_wakeup enter_run take_task finish_task wake_up
moves_wake_example = moves_wake 2 (omega arith) two_tasks 8 [] refl refl

-- Two calls pass the first test before either has made the pool.
abbrev two_calls : List Call
two_calls =
    Call.test ∷ Call.test ∷ Call.lock ∷ Call.retest ∷ Call.unlock ∷ Call.lock ∷ Call.retest
    ∷ Call.unlock ∷ Call.leave ∷ Call.leave ∷ []

calls_single_example :
    Gives (λ s. (s.created ≤ 1) × All (λ r. r ≡ some 0) s.results) (calls true no_single two_calls)
calls_single_example = calls_single two_calls

-- The consumer waits, a push wakes it, the producer fills the queue and waits, and the consumer goes on.
abbrev six_turns : List (Turn ℕ)
six_turns =
    Turn.pop 0
    ∷ Turn.equeue 7
    ∷ Turn.equeue 8
    ∷ Turn.resume_pop 0
    ∷ Turn.resume_equeue 0
    ∷ Turn.pop 0
    ∷ []

two_turns-IsFair_example : Gives (IsFair 1) (two_turns (empty_queue 1) six_turns)
two_turns-IsFair_example = two_turns-IsFair 1 six_turns

abbrev console : Files
console = (0, other) ∷ (1, other) ∷ (2, other) ∷ []

abbrev three_pipes : List (ℕ × ℕ)
three_pipes = (3, 4) ∷ (3, 5) ∷ (3, 6) ∷ []

stop-start_example :
    Gives (λ s. s.children ≡ []) (stop (start_pool (new_pool console) (all_made three_pipes)).1)
stop-start_example = stop-start console three_pipes (tt, (tt, (tt, tt)))

-- A pool of two children, of which the second is next
abbrev two_children : ProcessPool
two_children = record {
  channels = record { wfd = 4; subid = 0 } ∷ record { wfd = 5; subid = 1 } ∷ [];
  next = 1;
  forks = 2;
  files = [];
  children = (0, []) ∷ (1, []) ∷ [];
  sent = [];
}

abbrev behind : ℕ
behind = 2

abbrev two_tasks_of : List ℕ
two_tasks_of = 7 ∷ 8 ∷ []
