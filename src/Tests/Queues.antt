-- ===== src/Tests/Queues.antt =====
-- The ring queue with two places, and the table of descriptors.
use linux_system_learning.Prelude.{
  ℕ, ◌+◌, ◌≡◌, true, List, [], ◌∷◌, ◌++◌, none, some, arith, length, is_some, ◌≤◌,
}
use linux_system_learning.Prelude.Outcome.{Gives}
use linux_system_learning.RingQueue.{Action, init, step, run}
use linux_system_learning.RingQueue.Invariant.{contents}
use linux_system_learning.RingQueue.Fifo.{run_fifo, run_goes_on}
use linux_system_learning.SelectServer
use linux_system_learning.SelectServer.Table.{occurs, count, number}
use linux_system_learning.SelectServer.Descriptors.{start-Balanced}

abbrev equeue : ℕ → List (Action ℕ)
equeue x =
    Action.p_wait
    ∷ Action.p_lock x
    ∷ Action.p_store
    ∷ Action.p_inc
    ∷ Action.p_mod
    ∷ Action.p_unlock
    ∷ Action.p_post
    ∷ []

-- Two elements stored, one consumer behind its semaphore with the lock.
abbrev taking : List (Action ℕ)
taking = equeue 7 ++ equeue 8 ++ Action.c_wait ∷ Action.c_lock ∷ []

abbrev reading : List (Action ℕ)
reading = taking ++ Action.c_take ∷ Action.p_wait ∷ []

run_fifo_example :
    ((run 0 (init 0 2) reading).pushed
      ≡ (run 0 (init 0 2) reading).popped ++ contents 0 (run 0 (init 0 2) reading))
    × (length (contents 0 (run 0 (init 0 2) reading)) ≤ length (run 0 (init 0 2) reading).rq)
run_fifo_example = run_fifo 0 2 (omega arith) reading

run_goes_on_example : (a : Action ℕ) × (is_some (step 0 (run 0 (init 0 2) taking) a) ≡ true)
run_goes_on_example = run_goes_on 0 2 (omega arith) taking

-- Slot 0 listens on 3, slot 1 holds 5 and slot 2 is free.
abbrev server : SelectServer.SelectServer
server = record {
  listensock = 3;
  isrunning = true;
  fd_arr = some 3 ∷ some 5 ∷ none ∷ [];
  accepted = 5 ∷ [];
  closed = [];
  said = [];
}

abbrev kernel : SelectServer.Kernel
kernel = record { accept = λ i. some 6; recv = λ i. SelectServer.Received.quit }

-- A connection is accepted while the other one is closed; then the first one that is ready is closed.
abbrev turns : List (SelectServer.Selected × SelectServer.Kernel)
turns =
    (SelectServer.Selected.ready (λ fd. true), kernel)
    ∷ (SelectServer.Selected.timeout, kernel)
    ∷ (SelectServer.Selected.ready (λ fd. true), kernel)
    ∷ []

start-Balanced_example :
    Gives
      (λ s'.
        (fd : ℕ)
        → count fd s'.fd_arr + number fd s'.closed
          ≡ occurs fd (some s'.listensock) + number fd s'.accepted)
      (SelectServer.start server turns)
start-Balanced_example =
    start-Balanced server turns (omega arith, (omega arith, (tt, tt)))
      ((λ j. omega arith), ((λ j. omega arith), ((λ j. omega arith), tt))) (λ fd. omega arith)
