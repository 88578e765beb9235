-- ===== src/StopPool/Served.antt =====
-- What becomes of the tasks and the threads of the pool of test_03_31/ThreadPool/ThreadPool.hpp.
use mathlib.Core.List.Perm
use mathlib.Core.List.{Perm, perm_middle, perm_append_singleton}
use linux_system_learning.Prelude.{
  ℕ, suc, ◌+◌, ◌≡◌, ◌≢◌, ◌≤◌, ◌<◌, refl, ap, sym, subst, ◌∙◌, true, false, List, [], ◌∷◌, ◌++◌,
  Option, none, some, arith, length, dec_lt, less, less-some, less-none, remove_at, Removed,
  remove_at-Removed, append_assoc, ◌==◌, ltb, if◌then◌else◌, if_cases,
}
use linux_system_learning.Prelude.Outcome.{Outcome, returned, Gives, Gives-bind, Gives-map}
use linux_system_learning.StopPool.{
  TaskPool, PoolMove, try_enqueue, push_in, enter_task, resume_task, finish_run, stop_pool,
  wake_all, spurious_wake, start_pool, enqueue_test, wake_up_one, push_task, enqueue_push,
  cond_wait, handle_task, enter_lock, leave_wait, finish_running, stop_flag, wake_all_thread,
  pool_move, pool_moves,
}

module _ {A : Type 0} where
  -- The threads and the sleepers are accounted for, the tasks were taken in the order of the queue and each is running or
  -- done, not all threads sleep while a task waits, nobody sleeps when a stop has come through, no thread has left while the
  -- pool runs, and what the queue holds when all have left came too late.
  pub record IsServed (n : ℕ) (s : TaskPool A) : Type 0 where
    pub size : s.num ≡ n
    pub threads : s.ready + s.asleep + s.woken + length s.running + s.left ≡ n
    pub sleepers : s.sleepernum ≡ s.asleep + s.woken
    pub order : s.pushed ≡ s.taken ++ s.taskq
    pub once : Perm s.taken (s.done ++ s.running)
    pub awake : s.asleep ≡ n → s.taskq ≡ []
    pub roused : s.is_running ≡ false → s.stopping ≡ 0 → s.asleep ≡ 0
    pub stays : s.is_running ≡ true → s.left ≡ 0
    pub missed : s.left ≡ n → s.taskq ≡ s.late
    pub in_time : s.left ≢ n → s.late ≡ []

  module _ (n : ℕ) (positive : 0 < n) where
    test-IsServed : (s : TaskPool A) (x : A) → IsServed n s → IsServed n (enqueue_test s x)
    unfolding enqueue_test
    test-IsServed s x v =
        if_cases (IsServed n) s.is_running
          (λ e. record {
            size = v.size;
            threads = v.threads;
            sleepers = v.sleepers;
            order = v.order;
            once = v.once;
            awake = v.awake;
            roused = v.roused;
            stays = v.stays;
            missed = v.missed;
            in_time = v.in_time;
          })
          (λ e. v)

    wake-IsServed :
        (s : TaskPool A) (o : Option ℕ)
        → less s.asleep ≡ o
        → IsServed n s
        → IsServed n (wake_up_one s o)
    unfolding wake_up_one
    wake-IsServed s none e v = v
    wake-IsServed s (some k) e v = record {
      size = v.size;
      threads = omega (arith, v.threads, less-some s.asleep k e);
      sleepers = omega (arith, v.sleepers, less-some s.asleep k e);
      order = v.order;
      once = v.once;
      awake = λ h. absurd (omega (arith, h, v.threads, less-some s.asleep k e));
      roused = λ r z. absurd (omega (arith, v.roused r z, less-some s.asleep k e));
      stays = v.stays;
      missed = v.missed;
      in_time = v.in_time;
    }

    finish-IsServed :
        (s : TaskPool A) (o : Option (A × List A))
        → Removed s.running o
        → IsServed n s
        → IsServed n (finish_running s o)
    unfolding finish_running
    finish-IsServed s none h v = v
    finish-IsServed s (some (t, rest)) h v = record {
      size = v.size;
      threads = omega (arith, v.threads, h.1);
      sleepers = v.sleepers;
      order = v.order;
      once = Perm.trans v.once (Perm.trans (Perm.append_left s.done h.0) (perm_middle s.done rest));
      awake = v.awake;
      roused = v.roused;
      stays = v.stays;
      missed = v.missed;
      in_time = v.in_time;
    }

    stop-IsServed : (s : TaskPool A) → IsServed n s → IsServed n (stop_flag s)
    unfolding stop_flag
    stop-IsServed s v =
        if_cases (IsServed n) s.is_running
          (λ e. record {
            size = v.size;
            threads = v.threads;
            sleepers = v.sleepers;
            order = v.order;
            once = v.once;
            awake = v.awake;
            roused = λ r z. absurd (omega (arith, z));
            stays = λ r. v.stays e;
            missed = v.missed;
            in_time = v.in_time;
          })
          (λ e. v)

    all-IsServed : (s : TaskPool A) (o : Option ℕ) → IsServed n s → IsServed n (wake_all_thread s o)
    unfolding wake_all_thread
    all-IsServed s none v = v
    all-IsServed s (some k) v =
        if_cases (IsServed n) (ltb 0 s.sleepernum)
          (λ e. record {
            size = v.size;
            threads = omega (arith, v.threads);
            sleepers = omega (arith, v.sleepers);
            order = v.order;
            once = v.once;
            awake = λ h. absurd (omega (arith, h, positive));
            roused = λ r z. refl;
            stays = v.stays;
            missed = v.missed;
            in_time = v.in_time;
          })
          (λ e. record {
            size = v.size;
            threads = v.threads;
            sleepers = v.sleepers;
            order = v.order;
            once = v.once;
            awake = v.awake;
            roused = λ r z. ground (arith, e, v.sleepers);
            stays = v.stays;
            missed = v.missed;
            in_time = v.in_time;
          })

    -- A push without its signal
    pushed-IsServed :
        (s : TaskPool A) (x : A) (rest : List A)
        → (s.asleep ≡ n → ⊥)
        → IsServed n s
        → IsServed n (record s {
          entering = rest;
          taskq = s.taskq ++ x ∷ [];
          pushed = s.pushed ++ x ∷ [];
          late = if s.left == s.num then s.late ++ x ∷ [] else s.late;
        })
    pushed-IsServed s x rest some_awake v = record {
      size = v.size;
      threads = v.threads;
      sleepers = v.sleepers;
      order = ap (λ l. l ++ x ∷ []) v.order ∙ append_assoc s.taken s.taskq (x ∷ []);
      once = v.once;
      awake = λ h. absurd (some_awake h);
      roused = v.roused;
      stays = v.stays;
      missed = λ h.
          let same : (s.left == s.num) ≡ true = ground (arith, h, v.size) in
          rw same (ap (λ l. l ++ x ∷ []) (v.missed h));
      in_time = λ h.
          let other : (s.left == s.num) ≡ false = ground (arith, h, v.size) in
          rw other (v.in_time h);
    }

    woken-IsServed :
        (s : TaskPool A) (x : A) (rest : List A) (o : Option ℕ)
        → less s.asleep ≡ o
        → IsServed n s
        → IsServed n (
            wake_up_one
              (record s {
                entering = rest;
                taskq = s.taskq ++ x ∷ [];
                pushed = s.pushed ++ x ∷ [];
                late = if s.left == s.num then s.late ++ x ∷ [] else s.late;
              })
              o)
    unfolding wake_up_one
    woken-IsServed s x rest none e v =
        pushed-IsServed s x rest (λ h. omega (arith, h, positive, less-none s.asleep e)) v
    woken-IsServed s x rest (some k) e v =
        pushed-IsServed (wake_up_one s (some k)) x rest
          (λ h. omega (arith, h, v.threads, less-some s.asleep k e)) (wake-IsServed s (some k) e v)

    push-IsServed :
        (s : TaskPool A) (o : Option (A × List A)) → IsServed n s → IsServed n (enqueue_push s o)
    unfolding enqueue_push push_task
    push-IsServed s none v = v
    push-IsServed s (some (x, rest)) v =
        if_cases (IsServed n) (s.sleepernum == s.num)
          (λ e. woken-IsServed s x rest (less s.asleep) refl v)
          (λ e.
            pushed-IsServed s x rest
              (λ h. absurd (ground (arith, e, h, v.size, v.sleepers, v.threads))) v)

    -- A thread that has the mutex, with the counts of the others
    handle-IsServed :
        (s : TaskPool A) (q : List A)
        → s.taskq ≡ q
        → s.num ≡ n
        → suc (s.ready + s.asleep + s.woken + length s.running + s.left) ≡ n
        → s.sleepernum ≡ s.asleep + s.woken
        → s.pushed ≡ s.taken ++ s.taskq
        → Perm s.taken (s.done ++ s.running)
        → (s.is_running ≡ false → s.stopping ≡ 0 → s.asleep ≡ 0)
        → (s.is_running ≡ true → s.left ≡ 0)
        → s.late ≡ []
        → Gives (IsServed n) (handle_task true s q)
    unfolding handle_task cond_wait
    handle-IsServed s [] e size threads sleepers order once roused stays late =
        if_cases (λ (o : Outcome (TaskPool A)). Gives (IsServed n) o) s.is_running
          (λ t. record {
            size = size;
            threads = omega (arith, threads);
            sleepers = omega (arith, sleepers);
            order = order;
            once = once;
            awake = λ h. e;
            roused = λ r z. absurd (ground (arith, r, t));
            stays = stays;
            missed = λ h. absurd (omega (arith, h, stays t, positive));
            in_time = λ h. late;
          })
          (λ f. record {
            size = size;
            threads = omega (arith, threads);
            sleepers = sleepers;
            order = order;
            once = once;
            awake = λ h. e;
            roused = roused;
            stays = λ r. absurd (ground (arith, r, f));
            missed = λ h. e ∙ sym late;
            in_time = λ h. late;
          })
    handle-IsServed s (t ∷ rest) e size threads sleepers order once roused stays late = record {
      size = size;
      threads = omega (arith, threads);
      sleepers = sleepers;
      order = order ∙ ap (λ l. s.taken ++ l) e ∙ sym (append_assoc s.taken (t ∷ []) rest);
      once =
          Perm.trans (perm_append_singleton t s.taken)
            (Perm.trans (Perm.cons t once) (Perm.symm (perm_middle s.done s.running)));
      awake = λ h. absurd (omega (arith, h, threads));
      roused = roused;
      stays = stays;
      missed = λ h. absurd (omega (arith, h, threads));
      in_time = λ h. late;
    }

    enter-IsServed :
        (s : TaskPool A) (o : Option ℕ)
        → less s.ready ≡ o
        → IsServed n s
        → Gives (IsServed n) (enter_lock true s o)
    unfolding enter_lock
    enter-IsServed s none e v = v
    enter-IsServed s (some k) e v =
        handle-IsServed (record s { ready = k }) s.taskq refl v.size
          (omega (arith, v.threads, less-some s.ready k e)) v.sleepers v.order v.once v.roused
          v.stays (v.in_time (λ h. omega (arith, h, v.threads, less-some s.ready k e)))

    leave-IsServed :
        (s : TaskPool A) (o p : Option ℕ)
        → less s.woken ≡ o
        → less s.sleepernum ≡ p
        → IsServed n s
        → Gives (IsServed n) (leave_wait true s o p)
    unfolding leave_wait
    leave-IsServed s none p e e' v = v
    leave-IsServed s (some k) none e e' v = v
    leave-IsServed s (some k) (some j) e e' v =
        handle-IsServed (record s { woken = k; sleepernum = j }) s.taskq refl v.size
          (omega (arith, v.threads, less-some s.woken k e))
          (omega (arith, v.sleepers, less-some s.woken k e, less-some s.sleepernum j e')) v.order
          v.once v.roused v.stays
          (v.in_time (λ h. omega (arith, h, v.threads, less-some s.woken k e)))

    move-IsServed :
        (s : TaskPool A) (m : PoolMove A) → IsServed n s → Gives (IsServed n) (pool_move true s m)
    unfolding pool_move
    move-IsServed s (try_enqueue x) v = test-IsServed s x v
    move-IsServed s (push_in i) v = push-IsServed s (remove_at s.entering i) v
    move-IsServed s enter_task v = enter-IsServed s (less s.ready) refl v
    move-IsServed s resume_task v = leave-IsServed s (less s.woken) (less s.sleepernum) refl refl v
    move-IsServed s (finish_run i) v =
        finish-IsServed s (remove_at s.running i) (remove_at-Removed s.running i) v
    move-IsServed s stop_pool v = stop-IsServed s v
    move-IsServed s wake_all v = all-IsServed s (less s.stopping) v
    move-IsServed s spurious_wake v = wake-IsServed s (less s.asleep) refl v

    moves-IsServed :
        (s : TaskPool A) (ms : List (PoolMove A))
        → IsServed n s
        → Gives (IsServed n) (pool_moves true s ms)
    unfolding pool_moves
    moves-IsServed s [] v = v
    moves-IsServed s (m ∷ ms) v =
        Gives-bind (IsServed n) (IsServed n) (pool_move true s m) (λ s'. pool_moves true s' ms)
          (move-IsServed s m v) (λ s' v'. moves-IsServed s' ms v')

    start-IsServed : IsServed n (start_pool n)
    unfolding start_pool
    start-IsServed = record {
      size = refl;
      threads = omega arith;
      sleepers = refl;
      order = refl;
      once = Perm.rfl;
      awake = λ h. refl;
      roused = λ r z. refl;
      stays = λ r. refl;
      missed = λ h. refl;
      in_time = λ h. refl;
    }

  pub pool_moves-IsServed :
      (n : ℕ)
      → 0 < n
      → (ms : List (PoolMove A)) → Gives (IsServed n) (pool_moves true (start_pool n) ms)
  pool_moves-IsServed n positive ms =
      moves-IsServed n positive (start_pool n) ms (start-IsServed n positive)

  pub reached-IsServed :
      (n : ℕ) (ms : List (PoolMove A)) (s : TaskPool A)
      → 0 < n
      → pool_moves true (start_pool n) ms ≡ returned s
      → IsServed n s
  reached-IsServed n ms s positive e =
      subst (Gives (IsServed n)) e (pool_moves-IsServed n positive ms)

  -- The tasks in a pool
  abbrev pub Kept : ℕ → TaskPool A → Type 0
  Kept n s =
      (s.pushed ≡ s.taken ++ s.taskq) × Perm s.taken (s.done ++ s.running) × (length s.running ≤ n)

  -- In a pool of at least one thread, if destroying the held mutex leaves it as it is: however the threads' moves are
  -- interleaved with calls of Enqueue and Stop, every move returns, the tasks are taken in the order in which they were
  -- pushed, what is not taken is still queued, and each taken task is run by one thread or done, and that once.
  pub pool_moves-Kept :
      (n : ℕ)
      → 0 < n
      → (ms : List (PoolMove A)) → Gives (Kept n) (pool_moves true (start_pool n) ms)
  pool_moves-Kept n positive ms =
      Gives-map (IsServed n) (Kept n) (pool_moves true (start_pool n) ms)
        (pool_moves-IsServed n positive ms) (λ s v. (v.order, v.once, omega (arith, v.threads)))

  -- In such a pool, as long as it is not stopped: while a task waits, some thread is awake and has the queue before it or
  -- runs a task, though Enqueue sends a signal only when all threads sleep.
  pub pool_moves_wake :
      (n : ℕ) (ms : List (PoolMove A)) (s : TaskPool A) (t : A) (rest : List A)
      → 0 < n
      → pool_moves true (start_pool n) ms ≡ returned s
      → s.taskq ≡ t ∷ rest
      → s.is_running ≡ true
      → 0 < s.ready + s.woken + length s.running
  pool_moves_wake n ms s t rest positive e q going =
      let v = reached-IsServed n ms s positive e in
      elim (dec_lt 0 (s.ready + s.woken + length s.running)) [
        | yes h ↦ h
        | no h ↦ cc (v.awake (omega (arith, v.threads, v.stays going, h)), q)
      ]
