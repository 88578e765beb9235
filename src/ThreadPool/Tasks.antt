-- ===== src/ThreadPool/Tasks.antt =====
-- What becomes of a task that is pushed into the pool of test_05_03/session/ThreadPool.hpp.
use mathlib.Core.List.Perm
use mathlib.Core.List.{Perm, perm_middle, perm_append_singleton}
use linux_system_learning.Prelude.{
  ℕ, suc, ◌+◌, ◌≡◌, ◌≤◌, ◌<◌, refl, ap, sym, ◌∙◌, List, [], ◌∷◌, ◌++◌, Option, none, some, arith,
  length, dec_lt, less, less-some, less-none, less_of_positive, remove_at, Removed,
  remove_at-Removed, append_assoc,
}
use linux_system_learning.ThreadPool.{
  Pool, Move, start, thread_wakeup, push_task, take_task, enter_run, finish_task, wake_up, move,
  moved, moves,
}

module _ {ℓ} {A : Type ℓ} where
  -- The threads are accounted for, the tasks were taken in the order of the queue, each taken task is running or
  -- done, and not all threads sleep while a task waits.
  pub record IsServed (n : ℕ) (s : Pool A) : Type ℓ where
    pub threads : s.ready + s.asleep + length s.running ≡ n
    pub order : s.pushed ≡ s.taken ++ s.q
    pub once : Perm s.taken (s.done ++ s.running)
    pub awake : s.asleep ≡ n → s.q ≡ []

  module _ (n : ℕ) (positive : 0 < n) (s : Pool A) (v : IsServed n s) where
    wakeup-IsServed :
        (x : A) (o : Option ℕ)
        → less s.asleep ≡ o
        → IsServed n (thread_wakeup (record s { q = s.q ++ x ∷ []; pushed = s.pushed ++ x ∷ [] }) o)
    unfolding thread_wakeup
    wakeup-IsServed x none e = record {
      threads = v.threads;
      order = ap (λ l. l ++ x ∷ []) v.order ∙ append_assoc s.taken s.q (x ∷ []);
      once = v.once;
      awake = λ h. absurd (omega (arith, h, positive, less-none s.asleep e));
    }
    wakeup-IsServed x (some k) e = record {
      threads = omega (arith, v.threads, less-some s.asleep k e);
      order = ap (λ l. l ++ x ∷ []) v.order ∙ append_assoc s.taken s.q (x ∷ []);
      once = v.once;
      awake = λ h. absurd (omega (arith, h, v.threads, less-some s.asleep k e));
    }

    take-IsServed : (k : ℕ) (q : List A) → s.q ≡ q → s.ready ≡ suc k → IsServed n (take_task s k q)
    unfolding take_task
    take-IsServed k [] e r = record {
      threads = omega (arith, v.threads, r);
      order = v.order;
      once = v.once;
      awake = λ h. e;
    }
    take-IsServed k (t ∷ rest) e r = record {
      threads = omega (arith, v.threads, r);
      order = v.order ∙ ap (λ l. s.taken ++ l) e ∙ sym (append_assoc s.taken (t ∷ []) rest);
      once =
          Perm.trans (perm_append_singleton t s.taken)
            (Perm.trans (Perm.cons t v.once) (Perm.symm (perm_middle s.done s.running)));
      awake = λ h. absurd (omega (arith, h, v.threads, r));
    }

    finish-IsServed :
        (o : Option (A × List A)) → Removed s.running o → IsServed n (moved s (finish_task s o))
    unfolding finish_task
    finish-IsServed none h = v
    finish-IsServed (some (t, rest)) h = record {
      threads = omega (arith, v.threads, h.1);
      order = v.order;
      once = Perm.trans v.once (Perm.trans (Perm.append_left s.done h.0) (perm_middle s.done rest));
      awake = v.awake;
    }

    wake_up-IsServed : (o : Option ℕ) → less s.asleep ≡ o → IsServed n (moved s (wake_up s o))
    unfolding wake_up
    wake_up-IsServed none e = v
    wake_up-IsServed (some k) e = record {
      threads = omega (arith, v.threads, less-some s.asleep k e);
      order = v.order;
      once = v.once;
      awake = λ h. absurd (omega (arith, h, v.threads, less-some s.asleep k e));
    }

    enter-IsServed : (o : Option ℕ) → less s.ready ≡ o → IsServed n (moved s (enter_run s o))
    unfolding enter_run
    enter-IsServed none e = v
    enter-IsServed (some k) e = take-IsServed k s.q refl (less-some s.ready k e)

  move-IsServed :
      (n : ℕ) → 0 < n → (s : Pool A) (m : Move A) → IsServed n s → IsServed n (moved s (move s m))
  unfolding move push_task
  move-IsServed n h s (Move.push x) v = wakeup-IsServed n h s v x (less s.asleep) refl
  move-IsServed n h s Move.enter v = enter-IsServed n h s v (less s.ready) refl
  move-IsServed n h s (Move.finish i) v =
      finish-IsServed n h s v (remove_at s.running i) (remove_at-Removed s.running i)
  move-IsServed n h s Move.spurious v = wake_up-IsServed n h s v (less s.asleep) refl

  moves-IsServed :
      (n : ℕ) → 0 < n → (s : Pool A) (ms : List (Move A)) → IsServed n s → IsServed n (moves s ms)
  unfolding moves
  moves-IsServed n h s [] v = v
  moves-IsServed n h s (m ∷ ms) v =
      moves-IsServed n h (moved s (move s m)) ms (move-IsServed n h s m v)

  start-IsServed : (n : ℕ) → IsServed n (start n)
  unfolding start
  start-IsServed n = record {
    threads = omega arith;
    order = refl;
    once = Perm.rfl;
    awake = λ h. refl;
  }

  -- In a pool of at least one thread, however the threads' moves are interleaved with the calls of Push, the
  -- tasks are taken off in the order in which they were pushed, what is not taken is still queued, and each taken
  -- task is run by one thread or done, and that once.
  pub moves_tasks :
      (n : ℕ) (positive : 0 < n) (ms : List (Move A))
      → ((moves (start n) ms).pushed ≡ (moves (start n) ms).taken ++ (moves (start n) ms).q)
        × Perm
            (moves (start n) ms).taken
            ((moves (start n) ms).done ++ (moves (start n) ms).running)
        × (length (moves (start n) ms).running ≤ n)
  moves_tasks n h ms =
      let v = moves-IsServed n h (start n) ms (start-IsServed n) in
      (v.order, v.once, omega (arith, v.threads))

  waiting-ready :
      (n : ℕ) (s : Pool A) (t : A) (rest : List A)
      → IsServed n s
      → s.q ≡ t ∷ rest
      → s.running ≡ []
      → 0 < s.ready
  waiting-ready n s t rest v e r = elim (dec_lt 0 s.ready) [
    | yes h ↦ h
    | no h ↦ let nothing : s.q ≡ [] = v.awake (omega (arith, v.threads, ap length r)) in cc
  ]

  entering-running :
      (s : Pool A) (t : A) (rest : List A) (k : ℕ)
      → less s.ready ≡ some k
      → s.q ≡ t ∷ rest
      → s.running ≡ []
      → (moved s (enter_run s (less s.ready))).running ≡ t ∷ []
  unfolding enter_run take_task
  entering-running s t rest k l e r =
      ap (λ o. (moved s (enter_run s o)).running) l
      ∙ ap (λ q. (take_task s k q).running) e
      ∙ ap (◌∷◌ t) r

  entering-q :
      (s : Pool A) (t : A) (rest : List A) (k : ℕ)
      → less s.ready ≡ some k
      → s.q ≡ t ∷ rest
      → (moved s (enter_run s (less s.ready))).q ≡ rest
  unfolding enter_run take_task
  entering-q s t rest k l e =
      ap (λ o. (moved s (enter_run s o)).q) l ∙ ap (λ q. (take_task s k q).q) e

  -- In a pool of at least one thread, whatever has happened, a task that waits in front of the queue while no
  -- thread runs one is taken by the next thread that gets the mutex, and there is such a thread: the
  -- signals of Push are enough, though one signal is sent for each task and threads that are awake compete.
  pub moves_wake :
      (n : ℕ) (positive : 0 < n) (ms : List (Move A)) (t : A) (rest : List A)
      → (moves (start n) ms).q ≡ t ∷ rest
      → (moves (start n) ms).running ≡ []
      → (0 < (moves (start n) ms).ready)
        × ((moved (moves (start n) ms) (move (moves (start n) ms) Move.enter)).running ≡ t ∷ [])
        × ((moved (moves (start n) ms) (move (moves (start n) ms) Move.enter)).q ≡ rest)
  unfolding move enter_run
  moves_wake n h ms t rest e r =
      let s = moves (start n) ms in
      let ready =
        waiting-ready n s t rest (moves-IsServed n h (start n) ms (start-IsServed n)) e r in
      let left = less_of_positive s.ready ready in
      (ready, entering-running s t rest left.0 left.1 e r, entering-q s t rest left.0 left.1 e)
