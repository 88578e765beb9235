-- ===== src/ThreadPool.antt =====
-- test_05_03/session/ThreadPool.hpp: the workers on their queue, and the one pool that GetInstance makes. A thread
-- waits for the mutex between two actions; an action is what it does while it holds the mutex.
pub mod Tasks
pub mod Instance
use linux_system_learning.Prelude.{
  ℕ, zero, suc, ◌+◌, Bool, true, false, List, [], ◌∷◌, ◌++◌, Option, none, some, less, remove_at,
}
use linux_system_learning.Prelude.Outcome.{Outcome, returned, undefined, ◌>>=◌}

-- `q` is the queue. `ready` threads are about to take the mutex, at the top of ThreadRun's loop or behind a wake-up;
-- `asleep` ones are in ThreadWait; the others run the task that they took. `pushed`, `taken` and `done` record
-- what went through, the oldest first, but for `done`.
pub record Pool {ℓ} (A : Type ℓ) : Type ℓ where
  pub q : List A
  pub ready : ℕ
  pub asleep : ℕ
  pub running : List A
  pub pushed : List A
  pub taken : List A
  pub done : List A

-- `spurious` is a wake-up that no signal causes, which pthread_cond_wait allows.
pub data Move {ℓ} (A : Type ℓ) : Type ℓ where
  push : A → Move A
  enter : Move A
  finish : ℕ → Move A
  spurious : Move A

module _ {ℓ} {A : Type ℓ} where
  -- The constructor and Start, for `thread_num` threads
  unfoldable pub start : ℕ → Pool A
  start thread_num = record {
    q = [];
    ready = thread_num;
    asleep = 0;
    running = [];
    pushed = [];
    taken = [];
    done = [];
  }

  -- ThreadWakeup: a signal wakes a thread if one is asleep.
  unfoldable pub thread_wakeup : Pool A → Option ℕ → Pool A
  thread_wakeup s none = s
  thread_wakeup s (some n) = record s { asleep = n; ready = s.ready + 1 }

  -- Push
  unfoldable pub push_task : Pool A → A → Pool A
  unfolding thread_wakeup
  push_task s x =
      thread_wakeup (record s { q = s.q ++ x ∷ []; pushed = s.pushed ++ x ∷ [] }) (less s.asleep)

  -- ThreadRun, from the lock to the wait or to the task: the loop's test on the queue
  unfoldable pub take_task : Pool A → ℕ → List A → Pool A
  take_task s n [] = record s { ready = n; asleep = s.asleep + 1 }
  take_task s n (t ∷ rest) = record s {
    ready = n;
    q = rest;
    running = t ∷ s.running;
    taken = s.taken ++ t ∷ [];
  }

  unfoldable pub enter_run : Pool A → Option ℕ → Option (Pool A)
  unfolding take_task
  enter_run s none = none
  enter_run s (some n) = some (take_task s n s.q)

  -- `t()` returns, and the thread is back at the top of the loop.
  unfoldable pub finish_task : Pool A → Option (A × List A) → Option (Pool A)
  finish_task s none = none
  finish_task s (some (t, rest)) =
      some (record s { running = rest; done = t ∷ s.done; ready = s.ready + 1 })

  unfoldable pub wake_up : Pool A → Option ℕ → Option (Pool A)
  wake_up s none = none
  wake_up s (some n) = some (record s { asleep = n; ready = s.ready + 1 })

  -- One move of a thread; `none` where it is not possible.
  unfoldable pub move : Pool A → Move A → Option (Pool A)
  unfolding push_task enter_run finish_task wake_up
  move s (push x) = some (push_task s x)
  move s enter = enter_run s (less s.ready)
  move s (finish i) = finish_task s (remove_at s.running i)
  move s spurious = wake_up s (less s.asleep)

  abbrev pub moved : Pool A → Option (Pool A) → Pool A
  moved s none = s
  moved s (some s') = s'

  -- An order of the threads' moves; one that is not possible changes nothing.
  unfoldable pub moves : Pool A → List (Move A) → Pool A
  moves s [] = s
  moves s (m ∷ rest) = moves (moved s (move s m)) rest

-- The thread in the locked part of GetInstance: none, one in front of the second test, one behind it
pub data Holder : Type 0 where
  free entered tested : Holder

-- GetInstance: `instance` as the number of the pool that was made, how many were made, the threads that wait for
-- the lock, the one that holds it, those behind the locked part, and what was returned, the latest first.
pub record Single : Type 0 where
  pub single : Option ℕ
  pub created : ℕ
  pub waiting : ℕ
  pub holder : Holder
  pub behind : ℕ
  pub results : List (Option ℕ)

-- What one thread does next: the first test, the lock, the second test and the creation, the unlock, the return
pub data Call : Type 0 where
  test lock retest unlock leave : Call

unfoldable pub no_single : Single
no_single = record {
  single = none;
  created = 0;
  waiting = 0;
  holder = Holder.free;
  behind = 0;
  results = [];
}

-- The first test reads `instance` without the lock, in a race with the write behind it: `atomic` is whether that read gives
-- what was written last.
unfoldable pub first_test : Bool → Single → Option ℕ → Outcome Single
first_test false s o = undefined
first_test true s none = returned (record s { waiting = s.waiting + 1 })
first_test true s (some p) = returned (record s { behind = s.behind + 1 })

unfoldable pub sig_lock : Single → Holder → Option ℕ → Single
sig_lock s Holder.free (some n) = record s { holder = Holder.entered; waiting = n }
sig_lock s _ _ = s

unfoldable pub make : Single → Option ℕ → Single
make s none = record s { single = some s.created; created = s.created + 1; holder = Holder.tested }
make s (some p) = record s { holder = Holder.tested }

unfoldable pub second_test : Single → Holder → Single
unfolding make
second_test s Holder.entered = make s s.single
second_test s _ = s

unfoldable pub sig_unlock : Single → Holder → Single
sig_unlock s Holder.tested = record s { holder = Holder.free; behind = s.behind + 1 }
sig_unlock s _ = s

unfoldable pub give_back : Single → Option ℕ → Single
give_back s none = s
give_back s (some n) = record s { behind = n; results = s.single ∷ s.results }

-- A step that is not possible changes nothing.
unfoldable pub call : Bool → Single → Call → Outcome Single
unfolding first_test sig_lock second_test sig_unlock give_back
call atomic s test = first_test atomic s s.single
call atomic s lock = returned (sig_lock s s.holder (less s.waiting))
call atomic s retest = returned (second_test s s.holder)
call atomic s unlock = returned (sig_unlock s s.holder)
call atomic s leave = returned (give_back s (less s.behind))

unfoldable pub calls : Bool → Single → List Call → Outcome Single
calls atomic s [] = returned s
calls atomic s (c ∷ rest) = call atomic s c >>= λ s'. calls atomic s' rest
