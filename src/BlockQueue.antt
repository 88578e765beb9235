-- ===== src/BlockQueue.antt =====
-- test_03_23/CP/BlockQueue.hpp: producers and consumers on a bounded queue with two condition variables. An action is
-- what one thread does while it holds the mutex, up to the wait or to the unlock.
pub mod Order
pub mod Stolen
pub mod Alone
use linux_system_learning.Prelude.{
  ℕ, zero, suc, ◌+◌, ◌-◌, List, [], ◌∷◌, ◌++◌, Option, none, some, ltb, leb, length, less, Bool,
  true, false, if◌then◌else◌, remove_at,
}
use linux_system_learning.Prelude.Outcome.{Outcome, returned, undefined, ◌>>=◌}

-- The fields; `psleep_num` and `csleep_num` count threads that wait or are woken and have not got the mutex yet. Of the
-- producers behind the wait, `p_asleep` and `p_woken` hold what they are going to store. `pushed` and `popped`
-- record what went through, the oldest first.
pub record BlockQueue {ℓ} (A : Type ℓ) : Type ℓ where
  pub q : List A
  pub cap : ℕ
  pub psleep_num : ℕ
  pub csleep_num : ℕ
  pub p_asleep : List A
  pub p_woken : List A
  pub c_asleep : ℕ
  pub c_woken : ℕ
  pub pushed : List A
  pub popped : List A

-- The number of a call of Pop or of a resumed consumer says which producer its signal wakes.
pub data Turn {ℓ} (A : Type ℓ) : Type ℓ where
  equeue : A → Turn A
  resume_equeue : ℕ → Turn A
  pop : ℕ → Turn A
  resume_pop : ℕ → Turn A
  spurious_producer : ℕ → Turn A
  spurious_consumer : Turn A

module _ {ℓ} {A : Type ℓ} where
  unfoldable pub empty_queue : ℕ → BlockQueue A
  empty_queue cap = record {
    q = [];
    cap = cap;
    psleep_num = 0;
    csleep_num = 0;
    p_asleep = [];
    p_woken = [];
    c_asleep = 0;
    c_woken = 0;
    pushed = [];
    popped = [];
  }

  unfoldable pub is_full : BlockQueue A → Bool
  is_full s = leb s.cap (length s.q)

  -- pthread_cond_signal of `_empty_cond`, and of `_full_cond` for the waiting producer that it wakes
  unfoldable pub wake_consumer : BlockQueue A → Option ℕ → BlockQueue A
  wake_consumer s none = s
  wake_consumer s (some n) = record s { c_asleep = n; c_woken = s.c_woken + 1 }

  unfoldable pub wake_producer : BlockQueue A → Option (A × List A) → BlockQueue A
  wake_producer s none = s
  wake_producer s (some (x, rest)) = record s { p_asleep = rest; p_woken = s.p_woken ++ x ∷ [] }

  -- Equeue behind its test: the push, and the signal if a consumer sleeps
  unfoldable pub store_in : BlockQueue A → A → BlockQueue A
  unfolding wake_consumer
  store_in s x =
      let t = record s { q = s.q ++ x ∷ []; pushed = s.pushed ++ x ∷ [] } in
      if ltb 0 s.csleep_num then wake_consumer t (less s.c_asleep) else t

  unfoldable pub do_equeue : BlockQueue A → A → BlockQueue A
  unfolding is_full store_in
  do_equeue s x =
      if is_full s
      then record s { psleep_num = s.psleep_num + 1; p_asleep = s.p_asleep ++ x ∷ [] }
      else store_in s x

  unfoldable pub resume_producer : BlockQueue A → Option (A × List A) → BlockQueue A
  unfolding store_in
  resume_producer s none = s
  resume_producer s (some (x, rest)) =
      store_in (record s { psleep_num = s.psleep_num - 1; p_woken = rest }) x

  -- Pop behind its test: `front` of an empty queue is undefined.
  unfoldable pub take_front : BlockQueue A → ℕ → List A → Outcome (BlockQueue A)
  unfolding wake_producer
  take_front s i [] = undefined
  take_front s i (x ∷ rest) =
      let t = record s { q = rest; popped = s.popped ++ x ∷ [] } in
      returned (if ltb 0 s.psleep_num then wake_producer t (remove_at s.p_asleep i) else t)

  unfoldable pub do_pop : BlockQueue A → ℕ → List A → Outcome (BlockQueue A)
  unfolding take_front
  do_pop s i [] = returned (record s { csleep_num = s.csleep_num + 1; c_asleep = s.c_asleep + 1 })
  do_pop s i (x ∷ rest) = take_front s i (x ∷ rest)

  unfoldable pub resume_consumer : BlockQueue A → ℕ → Option ℕ → Outcome (BlockQueue A)
  unfolding take_front
  resume_consumer s i none = returned s
  resume_consumer s i (some n) =
      take_front (record s { csleep_num = s.csleep_num - 1; c_woken = n }) i s.q

  -- An action that no thread can take changes nothing.
  unfoldable pub turn : BlockQueue A → Turn A → Outcome (BlockQueue A)
  unfolding do_equeue resume_producer do_pop resume_consumer wake_consumer wake_producer
  turn s (equeue x) = returned (do_equeue s x)
  turn s (resume_equeue i) = returned (resume_producer s (remove_at s.p_woken i))
  turn s (pop i) = do_pop s i s.q
  turn s (resume_pop i) = resume_consumer s i (less s.c_woken)
  turn s (spurious_producer i) = returned (wake_producer s (remove_at s.p_asleep i))
  turn s spurious_consumer = returned (wake_consumer s (less s.c_asleep))

  unfoldable pub turns : BlockQueue A → List (Turn A) → Outcome (BlockQueue A)
  turns s [] = returned s
  turns s (t ∷ rest) = turn s t >>= λ s'. turns s' rest
