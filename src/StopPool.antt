-- ===== src/StopPool.antt =====
-- test_03_31/ThreadPool/ThreadPool.hpp: the pool that can be stopped; the chat and the echo server have copies. A move is
-- what a thread does while it holds the mutex, or a read or write of `_is_running` outside it.
pub mod Served
pub mod Stopping
use linux_system_learning.Prelude.{
  ℕ, zero, suc, ◌+◌, Bool, true, false, List, [], ◌∷◌, ◌++◌, Option, none, some, ◌==◌, ltb,
  if◌then◌else◌, less, remove_at,
}
use linux_system_learning.Prelude.Outcome.{Outcome, returned, undefined, ◌>>=◌}

-- Of the `num` threads, `ready` ones are in front of the mutex, `asleep` ones in Cond::Wait, `woken` ones on their way out
-- of it, the others run a task or have left. `entering` holds the tasks of calls of Enqueue between the test and the mutex,
-- `stopping` counts calls of Stop in front of WakeAllThread. `pushed`, `taken` and `done` record what went through;
-- `late` is what was pushed when every thread had left.
pub record TaskPool {ℓ} (A : Type ℓ) : Type ℓ where
  pub num : ℕ
  pub taskq : List A
  pub is_running : Bool
  pub sleepernum : ℕ
  pub ready : ℕ
  pub asleep : ℕ
  pub woken : ℕ
  pub running : List A
  pub left : ℕ
  pub entering : List A
  pub stopping : ℕ
  pub pushed : List A
  pub taken : List A
  pub done : List A
  pub late : List A

-- `spurious` is a return of pthread_cond_wait that nothing causes.
pub data PoolMove {ℓ} (A : Type ℓ) : Type ℓ where
  try_enqueue : A → PoolMove A
  push_in : ℕ → PoolMove A
  enter_task : PoolMove A
  resume_task : PoolMove A
  finish_run : ℕ → PoolMove A
  stop_pool : PoolMove A
  wake_all : PoolMove A
  spurious_wake : PoolMove A

module _ {ℓ} {A : Type ℓ} where
  -- The constructor and Start
  unfoldable pub start_pool : ℕ → TaskPool A
  start_pool num = record {
    num = num;
    taskq = [];
    is_running = true;
    sleepernum = 0;
    ready = num;
    asleep = 0;
    woken = 0;
    running = [];
    left = 0;
    entering = [];
    stopping = 0;
    pushed = [];
    taken = [];
    done = [];
    late = [];
  }

  -- Enqueue: the test of `_is_running`, and the rest under the mutex with WakeUpOne
  unfoldable pub enqueue_test : TaskPool A → A → TaskPool A
  enqueue_test s x = if s.is_running then record s { entering = s.entering ++ x ∷ [] } else s

  unfoldable pub wake_up_one : TaskPool A → Option ℕ → TaskPool A
  wake_up_one s none = s
  wake_up_one s (some n) = record s { asleep = n; woken = s.woken + 1 }

  unfoldable pub push_task : TaskPool A → A → List A → TaskPool A
  unfolding wake_up_one
  push_task s x rest =
      let s' = record s {
        entering = rest;
        taskq = s.taskq ++ x ∷ [];
        pushed = s.pushed ++ x ∷ [];
        late = if s.left == s.num then s.late ++ x ∷ [] else s.late;
      } in
      if s.sleepernum == s.num then wake_up_one s' (less s.asleep) else s'

  unfoldable pub enqueue_push : TaskPool A → Option (A × List A) → TaskPool A
  unfolding push_task
  enqueue_push s none = s
  enqueue_push s (some (x, rest)) = push_task s x rest

  -- Cond::Wait destroys the mutex that is held: `busy` is whether that fails and leaves the mutex as it is.
  unfoldable pub cond_wait : Bool → TaskPool A → Outcome (TaskPool A)
  cond_wait busy s =
      if busy
      then returned (record s { sleepernum = s.sleepernum + 1; asleep = s.asleep + 1 })
      else undefined

  -- HandlerTask with the mutex, from the loop's test on the queue to the wait, the exit or the task
  unfoldable pub handle_task : Bool → TaskPool A → List A → Outcome (TaskPool A)
  unfolding cond_wait
  handle_task busy s [] =
      if s.is_running then cond_wait busy s else returned (record s { left = s.left + 1 })
  handle_task busy s (t ∷ rest) =
      returned (record s { taskq = rest; running = t ∷ s.running; taken = s.taken ++ t ∷ [] })

  unfoldable pub enter_lock : Bool → TaskPool A → Option ℕ → Outcome (TaskPool A)
  unfolding handle_task
  enter_lock busy s none = returned s
  enter_lock busy s (some n) = handle_task busy (record s { ready = n }) s.taskq

  unfoldable pub leave_wait : Bool → TaskPool A → Option ℕ → Option ℕ → Outcome (TaskPool A)
  unfolding handle_task
  leave_wait busy s (some n) (some k) =
      handle_task busy (record s { woken = n; sleepernum = k }) s.taskq
  leave_wait busy s _ _ = returned s

  unfoldable pub finish_running : TaskPool A → Option (A × List A) → TaskPool A
  finish_running s none = s
  finish_running s (some (t, rest)) = record s {
    running = rest;
    done = t ∷ s.done;
    ready = s.ready + 1;
  }

  -- Stop, up to WakeAllThread, and WakeAllThread
  unfoldable pub stop_flag : TaskPool A → TaskPool A
  stop_flag s =
      if s.is_running then record s { is_running = false; stopping = s.stopping + 1 } else s

  unfoldable pub wake_all_thread : TaskPool A → Option ℕ → TaskPool A
  wake_all_thread s none = s
  wake_all_thread s (some n) =
      if ltb 0 s.sleepernum
      then record s { stopping = n; asleep = 0; woken = s.woken + s.asleep }
      else record s { stopping = n }

  -- A move that is not possible changes nothing.
  unfoldable pub pool_move : Bool → TaskPool A → PoolMove A → Outcome (TaskPool A)
  unfolding enqueue_test enqueue_push enter_lock leave_wait finish_running stop_flag wake_all_thread
      wake_up_one
  pool_move busy s (try_enqueue x) = returned (enqueue_test s x)
  pool_move busy s (push_in i) = returned (enqueue_push s (remove_at s.entering i))
  pool_move busy s enter_task = enter_lock busy s (less s.ready)
  pool_move busy s resume_task = leave_wait busy s (less s.woken) (less s.sleepernum)
  pool_move busy s (finish_run i) = returned (finish_running s (remove_at s.running i))
  pool_move busy s stop_pool = returned (stop_flag s)
  pool_move busy s wake_all = returned (wake_all_thread s (less s.stopping))
  pool_move busy s spurious_wake = returned (wake_up_one s (less s.asleep))

  unfoldable pub pool_moves : Bool → TaskPool A → List (PoolMove A) → Outcome (TaskPool A)
  unfolding pool_move
  pool_moves busy s [] = returned s
  pool_moves busy s (m ∷ ms) = pool_move busy s m >>= λ s'. pool_moves busy s' ms
