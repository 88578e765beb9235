-- ===== src/Tests/StopPool.antt =====
-- The pool that can be stopped at small inputs.
use mathlib.Core.List.{Perm}
use linux_system_learning.Prelude.{
  ℕ, ◌++◌, ◌≤◌, ◌≡◌, refl, true, false, List, [], ◌∷◌, arith, length,
}
use linux_system_learning.Prelude.Outcome.{undefined, Gives}
use linux_system_learning.StopPool.{
  TaskPool, PoolMove, try_enqueue, push_in, enter_task, resume_task, finish_run, stop_pool,
  wake_all, start_pool, pool_move, pool_moves, handle_task, enter_lock, leave_wait, cond_wait,
  enqueue_test, enqueue_push, push_task, wake_up_one, finish_running, stop_flag, wake_all_thread,
}
use linux_system_learning.StopPool.Served.{Kept, pool_moves-Kept}
use linux_system_learning.StopPool.Stopping.{stopped_quiet, stopped_ends}

-- Both threads fall asleep, a task comes and wakes one, which takes it while Stop goes through; both leave.
abbrev one_task : List (PoolMove ℕ)
one_task =
    enter_task
    ∷ enter_task
    ∷ try_enqueue 7
    ∷ push_in 0
    ∷ resume_task
    ∷ stop_pool
    ∷ wake_all
    ∷ resume_task
    ∷ finish_run 0
    ∷ enter_task
    ∷ []

pool_moves-Kept_example : Gives (Kept 2) (pool_moves true (start_pool 2) one_task)
pool_moves-Kept_example = pool_moves-Kept 2 (omega arith) one_task

-- The pool of one thread that is stopped with a task in its queue
abbrev stopped_pool : TaskPool ℕ
stopped_pool = record {
  num = 1;
  taskq = 7 ∷ [];
  is_running = false;
  sleepernum = 0;
  ready = 1;
  asleep = 0;
  woken = 0;
  running = [];
  left = 0;
  entering = [];
  stopping = 0;
  pushed = 7 ∷ [];
  taken = [];
  done = [];
  late = [];
}

stopped_ends_example : length {A = PoolMove ℕ} (enter_task ∷ finish_run 0 ∷ enter_task ∷ []) ≤ 3
unfolding pool_move enter_lock handle_task finish_running
stopped_ends_example =
    stopped_ends stopped_pool (enter_task ∷ finish_run 0 ∷ enter_task ∷ []) refl
      (refl, (refl, (refl, tt)))

abbrev ended_pool : TaskPool ℕ
ended_pool = record {
  num = 2;
  taskq = [];
  is_running = false;
  sleepernum = 0;
  ready = 0;
  asleep = 0;
  woken = 0;
  running = [];
  left = 2;
  entering = [];
  stopping = 0;
  pushed = 7 ∷ [];
  taken = 7 ∷ [];
  done = 7 ∷ [];
  late = [];
}

stopped_quiet_example :
    (ended_pool.left ≡ 2)
    × (ended_pool.pushed ≡ ended_pool.taken ++ ended_pool.late)
    × Perm ended_pool.taken ended_pool.done
unfolding start_pool pool_moves pool_move handle_task enter_lock leave_wait cond_wait enqueue_test
    enqueue_push push_task wake_up_one finish_running stop_flag wake_all_thread
stopped_quiet_example =
    stopped_quiet 2 one_task ended_pool (omega arith) refl refl refl refl refl refl

-- Where destroying a held mutex is not known to fail, the first wait is undefined.
wait_undefined : pool_moves {A = ℕ} false (start_pool 2) (enter_task ∷ []) ≡ undefined
unfolding start_pool pool_moves pool_move handle_task enter_lock cond_wait
wait_undefined = refl
