-- ===== src/WaitQueue.antt =====
-- test_03_25/Cond: BlockQueue.hpp over Cond.hpp, where a producer or a consumer tests again behind its wait. What stands
-- behind the tests has the text of test_03_23/CP/BlockQueue.hpp and is that of `BlockQueue`. Cond::Wait destroys the
-- mutex that is held: `busy` is whether that fails and leaves the mutex as it is.
pub mod Flow
use linux_system_learning.Prelude.{
  ℕ, ◌+◌, ◌-◌, Bool, List, [], ◌∷◌, ◌++◌, Option, none, some, less, remove_at, ltb, length,
  if◌then◌else◌,
}
use linux_system_learning.Prelude.Outcome.{Outcome, returned, undefined, ◌>>=◌}
use linux_system_learning.BlockQueue.{
  BlockQueue, Turn, equeue, resume_equeue, pop, resume_pop, spurious_producer, spurious_consumer,
  is_full, wake_consumer, wake_producer, store_in,
}

module _ {ℓ} {A : Type ℓ} where
  -- Pop behind its test; where the turn names no sleeping producer, the signal wakes the first one.
  unfoldable pub sleeper : List A → ℕ → Option (A × List A)
  sleeper xs i = remove_at xs (if ltb i (length xs) then i else 0)

  unfoldable pub take_next : BlockQueue A → ℕ → A → List A → BlockQueue A
  unfolding wake_producer sleeper
  take_next s i x rest =
      let t = record s { q = rest; popped = s.popped ++ x ∷ [] } in
      if ltb 0 s.psleep_num then wake_producer t (sleeper s.p_asleep i) else t

module _ {ℓ} {A : Type ℓ} (busy : Bool) where
  -- Cond::Wait in the two loops
  unfoldable pub wait_full : BlockQueue A → A → Outcome (BlockQueue A)
  wait_full s x =
      if busy
      then returned (record s { psleep_num = s.psleep_num + 1; p_asleep = s.p_asleep ++ x ∷ [] })
      else undefined

  unfoldable pub wait_empty : BlockQueue A → Outcome (BlockQueue A)
  wait_empty s =
      if busy
      then returned (record s { csleep_num = s.csleep_num + 1; c_asleep = s.c_asleep + 1 })
      else undefined

  -- Equeue from its test on, at first and behind a wait
  unfoldable pub test_full : BlockQueue A → A → Outcome (BlockQueue A)
  unfolding wait_full is_full store_in
  test_full s x = if is_full s then wait_full s x else returned (store_in s x)

  unfoldable pub again_full : BlockQueue A → Option (A × List A) → Outcome (BlockQueue A)
  unfolding test_full
  again_full s none = returned s
  again_full s (some (x, rest)) =
      test_full (record s { psleep_num = s.psleep_num - 1; p_woken = rest }) x

  -- Pop from its test on
  unfoldable pub test_empty : BlockQueue A → ℕ → List A → Outcome (BlockQueue A)
  unfolding wait_empty take_next
  test_empty s i [] = wait_empty s
  test_empty s i (x ∷ rest) = returned (take_next s i x rest)

  unfoldable pub again_empty : BlockQueue A → ℕ → Option ℕ → Outcome (BlockQueue A)
  unfolding test_empty
  again_empty s i none = returned s
  again_empty s i (some n) =
      test_empty (record s { csleep_num = s.csleep_num - 1; c_woken = n }) i s.q

  unfoldable pub wait_turn : BlockQueue A → Turn A → Outcome (BlockQueue A)
  unfolding test_full again_full test_empty again_empty wake_producer wake_consumer
  wait_turn s (equeue x) = test_full s x
  wait_turn s (resume_equeue i) = again_full s (remove_at s.p_woken i)
  wait_turn s (pop i) = test_empty s i s.q
  wait_turn s (resume_pop i) = again_empty s i (less s.c_woken)
  wait_turn s (spurious_producer i) = returned (wake_producer s (remove_at s.p_asleep i))
  wait_turn s spurious_consumer = returned (wake_consumer s (less s.c_asleep))

  unfoldable pub wait_turns : BlockQueue A → List (Turn A) → Outcome (BlockQueue A)
  unfolding wait_turn
  wait_turns s [] = returned s
  wait_turns s (t ∷ ts) = wait_turn s t >>= λ s'. wait_turns s' ts
