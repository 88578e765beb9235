-- ===== src/StopPool/Stopping.antt =====
-- How the pool of test_03_31/ThreadPool/ThreadPool.hpp comes to an end.
use mathlib.Core.List.{Perm}
use linux_system_learning.Prelude.{
  append-nil, length-append, ℕ, zero, suc, ◌+◌, ◌*◌, ◌≡◌, subst, ◌≤◌, ◌<◌, refl, ap, sym, ◌∙◌, Bool,
  true, false, ◌&&◌, List, [], ◌∷◌, ◌++◌, Option, none, some, arith, length, length-zero, less,
  ◌==◌, less-some, less-none, remove_at, Removed, remove_at-Removed, remove_at-none, ltb,
  if◌then◌else◌, if_cases,
}
use linux_system_learning.Prelude.Outcome.{
  Outcome, returned, undefined, thrown, unfinished, Gives, Gives-bind, bind_assoc, bind_eq, ◌>>=◌,
}
use linux_system_learning.StopPool.{
  TaskPool, PoolMove, try_enqueue, push_in, enter_task, resume_task, finish_run, stop_pool,
  wake_all, spurious_wake, start_pool, wake_up_one, push_task, enqueue_push, handle_task,
  enter_lock, leave_wait, finish_running, wake_all_thread, pool_move, pool_moves,
}
use linux_system_learning.StopPool.Served.{reached-IsServed}

module _ {A : Type 0} where
  -- When a Stop of a pool of at least one thread has come through and no thread has a move left, all threads have left,
  -- so that Join returns; what was pushed is what the threads took, in its order, and then what was pushed when the last
  -- one had left; and the tasks that the threads took are those that are done, each as often as it was taken.
  pub stopped_quiet :
      (n : ℕ) (ms : List (PoolMove A)) (s : TaskPool A)
      → 0 < n
      → pool_moves true (start_pool n) ms ≡ returned s
      → s.is_running ≡ false
      → s.stopping ≡ 0
      → s.ready ≡ 0
      → s.woken ≡ 0
      → s.running ≡ []
      → (s.left ≡ n) × (s.pushed ≡ s.taken ++ s.late) × Perm s.taken s.done
  stopped_quiet n ms s positive e stopped through ready woken running =
      let v = reached-IsServed n ms s positive e in
      let all : s.left ≡ n =
        omega (arith, v.threads, v.roused stopped through, ready, woken, ap length running) in
      (
        all,
        v.order ∙ ap (λ (q : List A). s.taken ++ q) (v.missed all),
        subst (λ (xs : List A). Perm s.taken xs)
            (ap (λ (xs : List A). s.done ++ xs) running ∙ append-nil s.done) v.once,
      )

  -- How many moves a stopped pool still has, at most
  abbrev pub work : TaskPool A → ℕ
  work s =
      2 * length s.taskq
      + s.ready
      + s.woken
      + 2 * length s.running
      + 3 * length s.entering
      + 2 * s.asleep
      + s.stopping

  -- A move that is possible and changes something when the pool is stopped: a new call of Enqueue or of Stop does not.
  abbrev pub is_enabled : TaskPool A → PoolMove A → Bool
  is_enabled s enter_task = ltb 0 s.ready
  is_enabled s resume_task = ltb 0 s.woken && ltb 0 s.sleepernum
  is_enabled s (finish_run i) = ltb i (length s.running)
  is_enabled s (try_enqueue x) = false
  is_enabled s (push_in i) = ltb i (length s.entering)
  is_enabled s stop_pool = false
  is_enabled s wake_all = ltb 0 s.stopping
  is_enabled s spurious_wake = ltb 0 s.asleep

  abbrev pub AreEnabled : Outcome (TaskPool A) → List (PoolMove A) → Type 0
  AreEnabled o [] = Unit
  AreEnabled (returned s) (m ∷ ms) = (is_enabled s m ≡ true) × AreEnabled (pool_move true s m) ms
  AreEnabled thrown (m ∷ ms) = ⊥
  AreEnabled undefined (m ∷ ms) = ⊥
  AreEnabled unfinished (m ∷ ms) = ⊥

  -- At most so much is left, and the pool stays stopped.
  abbrev Worked : ℕ → TaskPool A → Type 0
  Worked k s = (s.is_running ≡ false) × (work s ≤ k)

  handle-Worked :
      (s : TaskPool A) (q : List A) (k : ℕ)
      → s.taskq ≡ q
      → s.is_running ≡ false
      → work s ≤ k
      → Gives (Worked k) (handle_task true s q)
  unfolding handle_task
  handle-Worked s [] k e stopped le = rw stopped (refl, le)
  handle-Worked s (t ∷ rest) k e stopped le = (stopped, omega (arith, ap length e, le))

  enter-Worked :
      (s : TaskPool A) (o : Option ℕ) (k : ℕ)
      → less s.ready ≡ o
      → ltb 0 s.ready ≡ true
      → s.is_running ≡ false
      → work s ≤ suc k
      → Gives (Worked k) (enter_lock true s o)
  unfolding enter_lock
  enter-Worked s none k e b stopped le = ground (arith, less-none s.ready e, b)
  enter-Worked s (some j) k e b stopped le =
      handle-Worked (record s { ready = j }) s.taskq k refl stopped
        (omega (arith, le, less-some s.ready j e))

  leave-Worked :
      (s : TaskPool A) (o p : Option ℕ) (k : ℕ)
      → less s.woken ≡ o
      → less s.sleepernum ≡ p
      → (ltb 0 s.woken && ltb 0 s.sleepernum) ≡ true
      → s.is_running ≡ false
      → work s ≤ suc k
      → Gives (Worked k) (leave_wait true s o p)
  unfolding leave_wait
  leave-Worked s none p k e f b stopped le = ground (arith, less-none s.woken e, b)
  leave-Worked s (some j) none k e f b stopped le = ground (arith, less-none s.sleepernum f, b)
  leave-Worked s (some j) (some i) k e f b stopped le =
      handle-Worked (record s { woken = j; sleepernum = i }) s.taskq k refl stopped
        (omega (arith, le, less-some s.woken j e))

  finish-Worked :
      (s : TaskPool A) (i k : ℕ) (o : Option (A × List A))
      → remove_at s.running i ≡ o
      → Removed s.running o
      → ltb i (length s.running) ≡ true
      → s.is_running ≡ false
      → work s ≤ suc k
      → Worked k (finish_running s o)
  unfolding finish_running
  finish-Worked s i k none e r b stopped le = ground (arith, remove_at-none s.running i e, b)
  finish-Worked s i k (some (t, rest)) e r b stopped le = (stopped, omega (arith, r.1, le))

  wake-Worked :
      (s : TaskPool A) (o : Option ℕ) (k : ℕ)
      → less s.asleep ≡ o
      → Worked k s
      → Worked k (wake_up_one s o)
  unfolding wake_up_one
  wake-Worked s none k e w = w
  wake-Worked s (some j) k e w = (w.0, omega (arith, w.1, less-some s.asleep j e))

  spurious-Worked :
      (s : TaskPool A) (o : Option ℕ) (k : ℕ)
      → less s.asleep ≡ o
      → ltb 0 s.asleep ≡ true
      → s.is_running ≡ false
      → work s ≤ suc k
      → Worked k (wake_up_one s o)
  unfolding wake_up_one
  spurious-Worked s none k e b stopped le = ground (arith, less-none s.asleep e, b)
  spurious-Worked s (some j) k e b stopped le = (stopped, omega (arith, le, less-some s.asleep j e))

  all-Worked :
      (s : TaskPool A) (o : Option ℕ) (k : ℕ)
      → less s.stopping ≡ o
      → ltb 0 s.stopping ≡ true
      → s.is_running ≡ false
      → work s ≤ suc k
      → Worked k (wake_all_thread s o)
  unfolding wake_all_thread
  all-Worked s none k e b stopped le = ground (arith, less-none s.stopping e, b)
  all-Worked s (some j) k e b stopped le =
      let h = less-some s.stopping j e in
      if_cases (Worked k) (ltb 0 s.sleepernum) (λ t. (stopped, omega (arith, le, h)))
        (λ f. (stopped, omega (arith, le, h)))

  push-Worked :
      (s : TaskPool A) (i k : ℕ) (o : Option (A × List A))
      → remove_at s.entering i ≡ o
      → Removed s.entering o
      → ltb i (length s.entering) ≡ true
      → s.is_running ≡ false
      → work s ≤ suc k
      → Worked k (enqueue_push s o)
  unfolding enqueue_push push_task
  push-Worked s i k none e r b stopped le = ground (arith, remove_at-none s.entering i e, b)
  push-Worked s i k (some (x, rest)) e r b stopped le =
      let s' = record s {
        entering = rest;
        taskq = s.taskq ++ x ∷ [];
        pushed = s.pushed ++ x ∷ [];
        late = if s.left == s.num then s.late ++ x ∷ [] else s.late;
      } in
      let w : Worked k s' = (stopped, omega (arith, r.1, le, length-append s.taskq (x ∷ []))) in
      if_cases (Worked k) (s.sleepernum == s.num) (λ t. wake-Worked s' (less s.asleep) k refl w)
        (λ f. w)

  move-Worked :
      (s : TaskPool A) (m : PoolMove A) (k : ℕ)
      → is_enabled s m ≡ true
      → s.is_running ≡ false
      → work s ≤ suc k
      → Gives (Worked k) (pool_move true s m)
  unfolding pool_move
  move-Worked s (try_enqueue x) k b stopped le = cc
  move-Worked s (push_in i) k b stopped le =
      push-Worked s i k (remove_at s.entering i) refl (remove_at-Removed s.entering i) b stopped le
  move-Worked s stop_pool k b stopped le = cc
  move-Worked s wake_all k b stopped le = all-Worked s (less s.stopping) k refl b stopped le
  move-Worked s spurious_wake k b stopped le = spurious-Worked s (less s.asleep) k refl b stopped le
  move-Worked s enter_task k b stopped le = enter-Worked s (less s.ready) k refl b stopped le
  move-Worked s resume_task k b stopped le =
      leave-Worked s (less s.woken) (less s.sleepernum) k refl refl b stopped le
  move-Worked s (finish_run i) k b stopped le =
      finish-Worked s i k (remove_at s.running i) refl (remove_at-Removed s.running i) b stopped le

  enabled_work : (s : TaskPool A) (m : PoolMove A) → is_enabled s m ≡ true → 0 < work s
  enabled_work s (try_enqueue x) b = cc
  enabled_work s (push_in i) b = ground (arith, b)
  enabled_work s stop_pool b = cc
  enabled_work s wake_all b = ground (arith, b)
  enabled_work s spurious_wake b = ground (arith, b)
  enabled_work s enter_task b = ground (arith, b)
  enabled_work s resume_task b = ground (arith, b)
  enabled_work s (finish_run i) b = ground (arith, b)

  ends-below :
      (ms : List (PoolMove A)) (k : ℕ) (o : Outcome (TaskPool A))
      → Gives (Worked k) o
      → AreEnabled o ms
      → length ms ≤ k
  ends-below [] k o w a = omega arith
  ends-below (m ∷ ms) k thrown w a = absurd w
  ends-below (m ∷ ms) k undefined w a = absurd w
  ends-below (m ∷ ms) k unfinished w a = absurd w
  ends-below (m ∷ ms) zero (returned s) w a = absurd (omega (arith, enabled_work s m a.0, w.1))
  ends-below (m ∷ ms) (suc k) (returned s) w a =
      omega (arith, ends-below ms k (pool_move true s m) (move-Worked s m k a.0 w.0 w.1) a.1)

  -- Once the pool is stopped, no order of moves goes on for ever: there are at most two for each task in the queue or
  -- being run, one for each thread in front of the mutex or woken, two for each one asleep, one for each Stop in front of
  -- its wake-up, and three for each call of Enqueue behind its test. The moves are those of the threads, of these calls of
  -- Stop and Enqueue, and the returns from the wait that nothing causes; a later call of Stop or Enqueue changes nothing.
  pub stopped_ends :
      (s : TaskPool A) (ms : List (PoolMove A))
      → s.is_running ≡ false
      → AreEnabled (returned s) ms
      → length ms ≤ work s
  stopped_ends s ms stopped a = ends-below ms (work s) (returned s) (stopped, omega arith) a

  -- No thread is left, and the tasks taken are `k`.
  record IsOver (k : List A) (s : TaskPool A) : Type 0 where
    ready : s.ready ≡ 0
    asleep : s.asleep ≡ 0
    woken : s.woken ≡ 0
    running : s.running ≡ []
    taken : s.taken ≡ k

  wake-IsOver :
      (k : List A) (s : TaskPool A) (o : Option ℕ)
      → o ≡ none
      → IsOver k s
      → IsOver k (wake_up_one s o)
  unfolding wake_up_one
  wake-IsOver k s none e v = v
  wake-IsOver k s (some j) e v = cc

  push-IsOver :
      (k : List A) (s : TaskPool A) (o : Option (A × List A))
      → IsOver k s
      → IsOver k (enqueue_push s o)
  unfolding enqueue_push
  push-IsOver k s none v = v
  push-IsOver k s (some (x, rest)) v =
      let late = if s.left == s.num then s.late ++ x ∷ [] else s.late in
      let w : IsOver k (record s {
        entering = rest;
        taskq = s.taskq ++ x ∷ [];
        pushed = s.pushed ++ x ∷ [];
        late = late;
      }) =
        record {
          ready = v.ready;
          asleep = v.asleep;
          woken = v.woken;
          running = v.running;
          taken = v.taken;
        } in
      unfold push_task in
      if_cases (λ s'. IsOver k s') (s.sleepernum == s.num)
        (λ t.
          wake-IsOver k
            (record s {
              entering = rest;
              taskq = s.taskq ++ x ∷ [];
              pushed = s.pushed ++ x ∷ [];
              late = late;
            })
            (less s.asleep) (ap less v.asleep) w)
        (λ f. w)

  enter-IsOver :
      (k : List A) (s : TaskPool A) (o : Option ℕ)
      → o ≡ none
      → IsOver k s
      → Gives (IsOver k) (enter_lock true s o)
  unfolding enter_lock
  enter-IsOver k s none e v = v
  enter-IsOver k s (some j) e v = cc

  leave-IsOver :
      (k : List A) (s : TaskPool A) (o p : Option ℕ)
      → o ≡ none
      → IsOver k s
      → Gives (IsOver k) (leave_wait true s o p)
  unfolding leave_wait
  leave-IsOver k s none p e v = v
  leave-IsOver k s (some i) p e v = cc

  all-IsOver :
      (k : List A) (s : TaskPool A) (o : Option ℕ) → IsOver k s → IsOver k (wake_all_thread s o)
  unfolding wake_all_thread
  all-IsOver k s none v = v
  all-IsOver k s (some n) v = ground arith

  move-IsOver :
      (k : List A) (s : TaskPool A) (m : PoolMove A)
      → IsOver k s
      → Gives (IsOver k) (pool_move true s m)
  unfolding pool_move
  move-IsOver k s (try_enqueue x) v = ground arith
  move-IsOver k s (push_in i) v = push-IsOver k s (remove_at s.entering i) v
  move-IsOver k s enter_task v = enter-IsOver k s (less s.ready) (ap less v.ready) v
  move-IsOver k s resume_task v =
      leave-IsOver k s (less s.woken) (less s.sleepernum) (ap less v.woken) v
  move-IsOver k s (finish_run i) v =
      subst (λ (o : Option (A × List A)). IsOver k (finish_running s o))
        (ap (λ (xs : List A). remove_at xs i) (sym v.running)) v
  move-IsOver k s stop_pool v = ground arith
  move-IsOver k s wake_all v = all-IsOver k s (less s.stopping) v
  move-IsOver k s spurious_wake v = wake-IsOver k s (less s.asleep) (ap less v.asleep) v

  moves-IsOver :
      (k : List A) (s : TaskPool A) (ms : List (PoolMove A))
      → IsOver k s
      → Gives (IsOver k) (pool_moves true s ms)
  unfolding pool_moves
  moves-IsOver k s [] v = v
  moves-IsOver k s (m ∷ ms) v =
      Gives-bind (IsOver k) (IsOver k) (pool_move true s m) (λ s'. pool_moves true s' ms)
        (move-IsOver k s m v) (λ s' w. moves-IsOver k s' ms w)

  pool_moves-append :
      (busy : Bool) (r : TaskPool A) (ms ms' : List (PoolMove A))
      → pool_moves busy r (ms ++ ms') ≡ (pool_moves busy r ms >>= λ s. pool_moves busy s ms')
  unfolding pool_moves
  pool_moves-append busy r [] ms' = refl
  pool_moves-append busy r (m ∷ ms) ms' =
      bind_eq (pool_move busy r m) (λ s. pool_moves busy s (ms ++ ms'))
        (λ s. pool_moves busy s ms >>= λ t. pool_moves busy t ms')
        (λ s. pool_moves-append busy s ms ms')
      ∙ sym
          (bind_assoc (pool_move busy r m) (λ s. pool_moves busy s ms) (λ t. pool_moves busy t ms'))

  -- Once all threads of a stopped pool have left, a call of Enqueue that passed its test of `_is_running` before Stop
  -- still pushes its task and returns true: no move takes a task any more, and what is pushed stays in the queue.
  pub over_late :
      (n : ℕ) (ms ms' : List (PoolMove A)) (s s' : TaskPool A)
      → 0 < n
      → pool_moves true (start_pool n) ms ≡ returned s
      → s.left ≡ n
      → pool_moves true s ms' ≡ returned s'
      → (s'.taken ≡ s.taken) × (s'.pushed ≡ s.taken ++ s'.taskq)
  over_late n ms ms' s s' positive e all f =
      let v' = reached-IsServed n (ms ++ ms') s' positive (
        pool_moves-append true (start_pool n) ms ms'
        ∙ ap (λ (o : Outcome (TaskPool A)). o >>= λ t. pool_moves true t ms') e
        ∙ f) in
      let v = reached-IsServed n ms s positive e in
      let o : Gives (IsOver s.taken) (pool_moves true s ms') = moves-IsOver s.taken s ms' (record {
        ready = omega (arith, v.threads);
        asleep = omega (arith, v.threads);
        woken = omega (arith, v.threads);
        running = length-zero s.running (omega (arith, v.threads));
        taken = refl;
      }) in
      let w : IsOver s.taken s' = subst (Gives (IsOver s.taken)) f o in
      (w.taken, v'.order ∙ ap (λ (q : List A). q ++ s'.taskq) w.taken)
