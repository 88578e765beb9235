-- ===== src/BlockQueue/Stolen.antt =====
-- What the tests by `if` instead of `while` in test_03_23/CP/BlockQueue.hpp let happen.
use linux_system_learning.Prelude.{
  ℕ, ◌+◌, ◌≡◌, ◌<◌, List, [], ◌∷◌, ◌++◌, arith, length, length-append,
}
use linux_system_learning.Prelude.Outcome.{undefined, Gives}
use linux_system_learning.BlockQueue.{
  BlockQueue, Turn, is_full, wake_consumer, wake_producer, store_in, do_equeue, resume_producer,
  take_front, do_pop, resume_consumer, turn, turns,
}

module _ {ℓ} {A : Type ℓ} where
  -- In a queue that is empty and has a place, with a consumer asleep that `_csleep_num` counts, a push wakes the consumer;
  -- if another one comes first and takes the element, the one that was woken, or one woken before, takes the
  -- front of an empty queue.
  pub turns_stolen :
      (s : BlockQueue A) (x : A) (i j : ℕ)
      → s.q ≡ []
      → 0 < s.cap
      → 0 < s.c_asleep
      → s.csleep_num ≡ s.c_asleep + s.c_woken
      → turns s (Turn.equeue x ∷ Turn.pop i ∷ Turn.resume_pop j ∷ []) ≡ undefined
  unfolding turns turn do_equeue store_in is_full wake_consumer do_pop take_front resume_consumer
  turns_stolen s x i j e cap asleep counted = ground arith

  -- In a full queue with a producer asleep that `_psleep_num` counts, and none woken, a pop wakes the producer; if
  -- another one comes first and fills the place, the one that was woken stores one element over the capacity.
  pub turns_over :
      (s : BlockQueue A) (x y z : A) (r rest : List A)
      → s.q ≡ z ∷ r
      → length s.q ≡ s.cap
      → s.p_asleep ≡ y ∷ rest
      → s.p_woken ≡ []
      → 0 < s.psleep_num
      → Gives
          (λ t. length t.q ≡ s.cap + 1)
          (turns s (Turn.pop 0 ∷ Turn.equeue x ∷ Turn.resume_equeue 0 ∷ []))
  unfolding turns turn do_equeue store_in is_full wake_consumer wake_producer do_pop take_front
      resume_producer
  turns_over s x y z r rest e full asleep woken counted =
      ground (arith, length-append r (x ∷ []), length-append (r ++ x ∷ []) (y ∷ []))
