-- ===== src/RingQueue/Fifo.antt =====
-- What producers and consumers of test_03_25/Sem_Ring/RingQueue.hpp see, under any interleaving.
use linux_system_learning.Prelude.{
  less_of_positive, less, ℕ, ◌+◌, ◌≤◌, ◌<◌, ◌≡◌, ◌⊎◌, inl, inr, dec_lt, refl, ap, ◌∙◌, List, ◌++◌,
  true, arith, length, is_some,
}
use native.Mathlib.Nat.{mod-lt}
use linux_system_learning.RingQueue.{
  RingQueue, Producer, Consumer, Action, init, step, run, enter_producer, enter_consumer,
  lock_producer, lock_consumer, store, inc_producer, mod_producer, unlock_producer, take_out,
  inc_consumer, mod_consumer, unlock_consumer, post_producer, post_consumer,
}
use linux_system_learning.RingQueue.Window.{length-window}
use linux_system_learning.RingQueue.Invariant.{
  IsValid, contents, held, c_index, p_index, holds, has_stored, takes, to_take, to_take-takes,
  has_stored-holds,
}
use linux_system_learning.RingQueue.Steps.{run-IsValid, init-IsValid}

module _ {ℓ} {A : Type ℓ} (blank : A) where
  reached :
      (cap : ℕ)
      → 0 < cap
      → (acts : List (Action A)) → IsValid blank (run blank (init blank cap) acts)
  reached cap h acts = run-IsValid blank (init blank cap) acts (init-IsValid blank cap h)

  run-cap : (q : RingQueue A) → IsValid blank q → held q ≤ q.cap
  run-cap q v = omega (arith, v.places, has_stored-holds q.producer, to_take-takes q.consumer)

  -- From an empty queue of at least one place, whatever the statements of the producers and the consumers are
  -- interleaved to, the elements handed out are the first of those stored, in their order, and what is
  -- stored and not handed out is the stretch of the array from the consumer's index on, no longer than the array.
  pub run_fifo :
      (cap : ℕ) (positive : 0 < cap) (acts : List (Action A))
      → ((run blank (init blank cap) acts).pushed
          ≡ (run blank (init blank cap) acts).popped
            ++ contents blank (run blank (init blank cap) acts))
        × (length (contents blank (run blank (init blank cap) acts))
            ≤ length (run blank (init blank cap) acts).rq)
  run_fifo cap h acts =
      let q = run blank (init blank cap) acts in
      let v = reached cap h acts in
      (
        v.order,
        omega (
          arith,
          length-window blank q.cap q.rq (c_index q.cap q.c_step q.consumer) (held q),
          run-cap q v,
          v.room,
        ),
      )

  -- From an empty queue of at least one place, whatever the interleaving, a producer that holds the lock and
  -- is about to store does it inside the array.
  pub run_store_in_bounds :
      (cap : ℕ) (positive : 0 < cap) (acts : List (Action A)) (x : A)
      → (run blank (init blank cap) acts).producer ≡ Producer.locked x
      → (run blank (init blank cap) acts).p_step < length (run blank (init blank cap) acts).rq
  run_store_in_bounds cap h acts x e =
      let q = run blank (init blank cap) acts in
      let v = reached cap h acts in
      omega (
        arith,
        v.room,
        v.behind,
        ap (p_index q.cap q.p_step) e,
        mod-lt (c_index q.cap q.c_step q.consumer + held q) v.positive,
      )

  -- From an empty queue of at least one place, whatever the interleaving, a consumer that holds the lock and
  -- is about to read does it inside the array.
  pub run_take_in_bounds :
      (cap : ℕ) (positive : 0 < cap) (acts : List (Action A))
      → (run blank (init blank cap) acts).consumer ≡ Consumer.locked
      → (run blank (init blank cap) acts).c_step < length (run blank (init blank cap) acts).rq
  run_take_in_bounds cap h acts e =
      let q = run blank (init blank cap) acts in
      let v = reached cap h acts in omega (arith, v.room, v.first, ap (c_index q.cap q.c_step) e)

  -- From an empty queue of at least one place, whatever the interleaving, when no thread is inside `Equeue` or `Pop`
  -- the semaphore of the data counts what is stored and that of the blanks the places that are left, so
  -- that the next `Equeue` waits only at a full queue and the next `Pop` only at an empty one.
  pub run_counts :
      (cap : ℕ) (positive : 0 < cap) (acts : List (Action A))
      → (run blank (init blank cap) acts).producer ≡ Producer.free
      → (run blank (init blank cap) acts).consumer ≡ Consumer.free
      → (run blank (init blank cap) acts).p_waiting
          + (run blank (init blank cap) acts).p_leaving
          + (run blank (init blank cap) acts).c_waiting
          + (run blank (init blank cap) acts).c_leaving
        ≡ 0
      → ((run blank (init blank cap) acts).data_sem
          ≡ length (contents blank (run blank (init blank cap) acts)))
        × ((run blank (init blank cap) acts).blank_sem
              + length (contents blank (run blank (init blank cap) acts))
            ≡ length (run blank (init blank cap) acts).rq)
  run_counts cap h acts p c e =
      let q = run blank (init blank cap) acts in
      let v = reached cap h acts in
      let l = length-window blank q.cap q.rq (c_index q.cap q.c_step q.consumer) (held q) in
      (
        omega (arith, l, e, ap has_stored p, ap to_take c),
        omega
            (arith, l, e, ap has_stored p, ap to_take c, v.places, ap holds p, ap takes c, v.room),
      )

  Enabled : RingQueue A → Type ℓ
  Enabled q = (a : Action A) × (is_some (step blank q a) ≡ true)

  -- What a side may do once it is past its semaphore.
  holding_producer : (q : RingQueue A) (p : Producer A) → q.producer ≡ p → 0 < holds p → Enabled q
  unfolding step Enabled
  holding_producer q Producer.free e h = absurd (omega arith)
  holding_producer q (Producer.locked x) e h =
      (Action.p_store, ap (λ p. is_some (store blank q p)) e)
  holding_producer q Producer.stored e h =
      (Action.p_inc, ap (λ p. is_some (inc_producer blank q p)) e)
  holding_producer q Producer.stepped e h =
      (Action.p_mod, ap (λ p. is_some (mod_producer blank q p)) e)
  holding_producer q Producer.wrapped e h =
      (Action.p_unlock, ap (λ p. is_some (unlock_producer blank q p)) e)

  holding_consumer : (q : RingQueue A) (c : Consumer) → q.consumer ≡ c → 0 < takes c → Enabled q
  unfolding step Enabled
  holding_consumer q Consumer.free e h = absurd (omega arith)
  holding_consumer q Consumer.locked e h = (Action.c_take, ap (λ c. is_some (take_out blank q c)) e)
  holding_consumer q Consumer.taken e h =
      (Action.c_inc, ap (λ c. is_some (inc_consumer blank q c)) e)
  holding_consumer q Consumer.stepped e h =
      (Action.c_mod, ap (λ c. is_some (mod_consumer blank q c)) e)
  holding_consumer q Consumer.wrapped e h =
      (Action.c_unlock, ap (λ c. is_some (unlock_consumer blank q c)) e)

  waiting_producer :
      (q : RingQueue A) (p : Producer A) → q.producer ≡ p → 0 < q.p_waiting → Enabled q
  unfolding step Enabled
  waiting_producer q Producer.free e h =
      let n = less_of_positive q.p_waiting h in
      (
        Action.p_lock blank,
        ap (λ p. is_some (lock_producer blank q blank p (less q.p_waiting))) e
            ∙ ap (λ o. is_some (lock_producer blank q blank Producer.free o)) n.1,
      )
  waiting_producer q (Producer.locked x) e h =
      holding_producer q (Producer.locked x) e (omega arith)
  waiting_producer q Producer.stored e h = holding_producer q Producer.stored e (omega arith)
  waiting_producer q Producer.stepped e h = holding_producer q Producer.stepped e (omega arith)
  waiting_producer q Producer.wrapped e h = holding_producer q Producer.wrapped e (omega arith)

  waiting_consumer : (q : RingQueue A) (c : Consumer) → q.consumer ≡ c → 0 < q.c_waiting → Enabled q
  unfolding step Enabled
  waiting_consumer q Consumer.free e h =
      let n = less_of_positive q.c_waiting h in
      (
        Action.c_lock,
        ap (λ c. is_some (lock_consumer blank q c (less q.c_waiting))) e
            ∙ ap (λ o. is_some (lock_consumer blank q Consumer.free o)) n.1,
      )
  waiting_consumer q Consumer.locked e h = holding_consumer q Consumer.locked e (omega arith)
  waiting_consumer q Consumer.taken e h = holding_consumer q Consumer.taken e (omega arith)
  waiting_consumer q Consumer.stepped e h = holding_consumer q Consumer.stepped e (omega arith)
  waiting_consumer q Consumer.wrapped e h = holding_consumer q Consumer.wrapped e (omega arith)

  at_semaphores :
      (q : RingQueue A)
      → IsValid blank q
      → (0 < q.blank_sem) ⊎ (0 < q.data_sem) ⊎ (0 < q.p_leaving) ⊎ (0 < q.c_leaving)
      → Enabled q
  unfolding step Enabled
  at_semaphores q v (inl h) = (
    Action.p_wait,
    ap (λ o. is_some (enter_producer blank q o)) (less_of_positive q.blank_sem h).1,
  )
  at_semaphores q v (inr (inl h)) = (
    Action.c_wait,
    ap (λ o. is_some (enter_consumer blank q o)) (less_of_positive q.data_sem h).1,
  )
  at_semaphores q v (inr (inr (inl h))) = (
    Action.p_post,
    ap (λ o. is_some (post_producer blank q o)) (less_of_positive q.p_leaving h).1,
  )
  at_semaphores q v (inr (inr (inr h))) = (
    Action.c_post,
    ap (λ o. is_some (post_consumer blank q o)) (less_of_positive q.c_leaving h).1,
  )

  -- From an empty queue of at least one place, whatever the interleaving, some statement of `Equeue` or of `Pop`
  -- can be run: the two locks and the two semaphores never stop all threads at once.
  pub run_goes_on :
      (cap : ℕ) (positive : 0 < cap) (acts : List (Action A))
      → (a : Action A) × (is_some (step blank (run blank (init blank cap) acts) a) ≡ true)
  unfolding Enabled
  run_goes_on cap h acts =
      let q = run blank (init blank cap) acts in
      let v = reached cap h acts in
      elim (dec_lt 0 q.blank_sem) [
        | yes b ↦ at_semaphores q v (inl b)
        | no b ↦ elim (dec_lt 0 q.data_sem) [
          | yes d ↦ at_semaphores q v (inr (inl d))
          | no d ↦ elim (dec_lt 0 q.p_leaving) [
            | yes l ↦ at_semaphores q v (inr (inr (inl l)))
            | no l ↦ elim (dec_lt 0 q.c_leaving) [
              | yes k ↦ at_semaphores q v (inr (inr (inr k)))
              | no k ↦ elim (dec_lt 0 q.p_waiting) [
                | yes w ↦ waiting_producer q q.producer refl w
                | no w ↦ elim (dec_lt 0 q.c_waiting) [
                  | yes z ↦ waiting_consumer q q.consumer refl z
                  | no z ↦ elim (dec_lt 0 (holds q.producer)) [
                    | yes y ↦ holding_producer q q.producer refl y
                    | no y ↦
                        holding_consumer q q.consumer refl (omega (arith, v.places, v.positive))
                  ]
                ]
              ]
            ]
          ]
        ]
      ]
