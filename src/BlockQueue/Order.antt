-- ===== src/BlockQueue/Order.antt =====
-- What leaves the queue of test_03_23/CP/BlockQueue.hpp leaves it in order.
use linux_system_learning.Prelude.{
  ℕ, ◌-◌, ◌≡◌, refl, ap, sym, ◌∙◌, List, [], ◌∷◌, ◌++◌, Option, none, some, less, append_assoc,
  if_cases, ltb, remove_at,
}
use linux_system_learning.Prelude.Outcome.{Ensures, Ensures-bind}
use linux_system_learning.BlockQueue.{
  BlockQueue, Turn, empty_queue, is_full, wake_consumer, wake_producer, store_in, do_equeue,
  resume_producer, take_front, do_pop, resume_consumer, turn, turns,
}

module _ {ℓ} {A : Type ℓ} where
  abbrev pub IsQueue : BlockQueue A → Type ℓ
  IsQueue s = s.pushed ≡ s.popped ++ s.q

  wake_consumer-IsQueue :
      (s : BlockQueue A) (o : Option ℕ) → IsQueue s → IsQueue (wake_consumer s o)
  unfolding wake_consumer
  wake_consumer-IsQueue s none h = h
  wake_consumer-IsQueue s (some n) h = h

  wake_producer-IsQueue :
      (s : BlockQueue A) (o : Option (A × List A)) → IsQueue s → IsQueue (wake_producer s o)
  unfolding wake_producer
  wake_producer-IsQueue s none h = h
  wake_producer-IsQueue s (some (x, rest)) h = h

  store_in-IsQueue : (s : BlockQueue A) (x : A) → IsQueue s → IsQueue (store_in s x)
  unfolding store_in
  store_in-IsQueue s x h =
      let t = record s { q = s.q ++ x ∷ []; pushed = s.pushed ++ x ∷ [] } in
      let kept : IsQueue t = ap (λ l. l ++ x ∷ []) h ∙ append_assoc s.popped s.q (x ∷ []) in
      if_cases IsQueue (ltb 0 s.csleep_num) (λ b. wake_consumer-IsQueue t (less s.c_asleep) kept)
        (λ b. kept)

  do_equeue-IsQueue : (s : BlockQueue A) (x : A) → IsQueue s → IsQueue (do_equeue s x)
  unfolding do_equeue
  do_equeue-IsQueue s x h = if_cases IsQueue (is_full s) (λ b. h) (λ b. store_in-IsQueue s x h)

  resume_producer-IsQueue :
      (s : BlockQueue A) (o : Option (A × List A)) → IsQueue s → IsQueue (resume_producer s o)
  unfolding resume_producer
  resume_producer-IsQueue s none h = h
  resume_producer-IsQueue s (some (x, rest)) h =
      store_in-IsQueue (record s { psleep_num = s.psleep_num - 1; p_woken = rest }) x h

  take_front-IsQueue :
      (s : BlockQueue A) (i : ℕ) (q : List A)
      → s.q ≡ q
      → IsQueue s
      → Ensures IsQueue (take_front s i q)
  unfolding take_front
  take_front-IsQueue s i [] e h = tt
  take_front-IsQueue s i (x ∷ rest) e h =
      let t = record s { q = rest; popped = s.popped ++ x ∷ [] } in
      let kept : IsQueue t =
        h ∙ ap (λ l. s.popped ++ l) e ∙ sym (append_assoc s.popped (x ∷ []) rest) in
      if_cases IsQueue (ltb 0 s.psleep_num)
        (λ b. wake_producer-IsQueue t (remove_at s.p_asleep i) kept) (λ b. kept)

  do_pop-IsQueue :
      (s : BlockQueue A) (i : ℕ) (q : List A) → s.q ≡ q → IsQueue s → Ensures IsQueue (do_pop s i q)
  unfolding do_pop
  do_pop-IsQueue s i [] e h = h
  do_pop-IsQueue s i (x ∷ rest) e h = take_front-IsQueue s i (x ∷ rest) e h

  resume_consumer-IsQueue :
      (s : BlockQueue A) (i : ℕ) (o : Option ℕ)
      → IsQueue s
      → Ensures IsQueue (resume_consumer s i o)
  unfolding resume_consumer
  resume_consumer-IsQueue s i none h = h
  resume_consumer-IsQueue s i (some n) h =
      take_front-IsQueue (record s { csleep_num = s.csleep_num - 1; c_woken = n }) i s.q refl h

  turn-IsQueue : (s : BlockQueue A) (t : Turn A) → IsQueue s → Ensures IsQueue (turn s t)
  unfolding turn
  turn-IsQueue s (Turn.equeue x) h = do_equeue-IsQueue s x h
  turn-IsQueue s (Turn.resume_equeue i) h = resume_producer-IsQueue s (remove_at s.p_woken i) h
  turn-IsQueue s (Turn.pop i) h = do_pop-IsQueue s i s.q refl h
  turn-IsQueue s (Turn.resume_pop i) h = resume_consumer-IsQueue s i (less s.c_woken) h
  turn-IsQueue s (Turn.spurious_producer i) h = wake_producer-IsQueue s (remove_at s.p_asleep i) h
  turn-IsQueue s Turn.spurious_consumer h = wake_consumer-IsQueue s (less s.c_asleep) h

  turns-IsQueue : (s : BlockQueue A) (ts : List (Turn A)) → IsQueue s → Ensures IsQueue (turns s ts)
  unfolding turns
  turns-IsQueue s [] h = h
  turns-IsQueue s (t ∷ ts) h =
      Ensures-bind IsQueue IsQueue (turn s t) (λ s'. turns s' ts) (turn-IsQueue s t h)
        (λ s' h'. turns-IsQueue s' ts h')

  -- From an empty queue, however the calls of Equeue and Pop are interleaved, if no call took the front of an empty
  -- queue, what was popped is the beginning of what was pushed, in its order, and the rest is in the queue.
  pub turns_order : (cap : ℕ) (ts : List (Turn A)) → Ensures IsQueue (turns (empty_queue cap) ts)
  unfolding empty_queue
  turns_order cap ts = turns-IsQueue (empty_queue cap) ts refl
