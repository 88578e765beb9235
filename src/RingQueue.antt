-- ===== src/RingQueue.antt =====
-- test_03_25/Sem_Ring: RingQueue.hpp over the semaphores of Sem.hpp and the locks of Mutex.hpp, with
-- any number of producers and consumers. Each action is one statement of one thread; `none` says that
-- the thread waits there.
pub mod Window
pub mod Invariant
pub mod Steps
pub mod Fifo
use linux_system_learning.Prelude.{
  less, ℕ, zero, suc, ◌+◌, ◌-◌, ◌%◌, List, [], ◌∷◌, ◌++◌, Option, none, some, get_or, set,
  replicate,
}

-- Where the thread that holds a lock stands, behind the statement named.
pub data Producer {ℓ} (A : Type ℓ) : Type ℓ where
  free : Producer A
  locked : A → Producer A
  stored stepped wrapped : Producer A

pub data Consumer : Type 0 where
  free locked taken stepped wrapped : Consumer

-- The fields of `RingQueue`: `producer` and `consumer` are the two locks with their holders. The threads
-- between a semaphore and its lock, and between the lock and the other semaphore, are counted. `pushed`
-- and `popped` record what was stored and what was handed out, oldest first.
pub record RingQueue {ℓ} (A : Type ℓ) : Type ℓ where
  pub rq : List A
  pub cap : ℕ
  pub blank_sem : ℕ
  pub p_step : ℕ
  pub data_sem : ℕ
  pub c_step : ℕ
  pub producer : Producer A
  pub consumer : Consumer
  pub p_waiting : ℕ
  pub p_leaving : ℕ
  pub c_waiting : ℕ
  pub c_leaving : ℕ
  pub pushed : List A
  pub popped : List A

pub data Action {ℓ} (A : Type ℓ) : Type ℓ where
  p_wait : Action A
  p_lock : A → Action A
  p_store p_inc p_mod p_unlock p_post : Action A
  c_wait c_lock c_take c_inc c_mod c_unlock c_post : Action A

module _ {ℓ} {A : Type ℓ} (blank : A) where
  -- The constructor: the vector holds `cap` values of the element's default.
  unfoldable pub init : ℕ → RingQueue A
  init cap = record {
    rq = replicate cap blank;
    cap = cap;
    blank_sem = cap;
    p_step = 0;
    data_sem = 0;
    c_step = 0;
    producer = Producer.free;
    consumer = Consumer.free;
    p_waiting = 0;
    p_leaving = 0;
    c_waiting = 0;
    c_leaving = 0;
    pushed = [];
    popped = [];
  }

  -- `Sem::P` of a producer, and of a consumer
  unfoldable pub enter_producer : RingQueue A → Option ℕ → Option (RingQueue A)
  enter_producer q none = none
  enter_producer q (some n) = some (record q { blank_sem = n; p_waiting = q.p_waiting + 1 })

  unfoldable pub enter_consumer : RingQueue A → Option ℕ → Option (RingQueue A)
  enter_consumer q none = none
  enter_consumer q (some n) = some (record q { data_sem = n; c_waiting = q.c_waiting + 1 })

  unfoldable pub lock_producer : RingQueue A → A → Producer A → Option ℕ → Option (RingQueue A)
  lock_producer q x Producer.free (some n) =
      some (record q { p_waiting = n; producer = Producer.locked x })
  lock_producer q x _ _ = none

  unfoldable pub lock_consumer : RingQueue A → Consumer → Option ℕ → Option (RingQueue A)
  lock_consumer q Consumer.free (some n) =
      some (record q { c_waiting = n; consumer = Consumer.locked })
  lock_consumer q _ _ = none

  -- The statements of `Equeue` under the lock, each from the place before it
  unfoldable pub store : RingQueue A → Producer A → Option (RingQueue A)
  store q (Producer.locked x) = some (record q {
    rq = set q.rq q.p_step x;
    producer = Producer.stored;
    pushed = q.pushed ++ x ∷ [];
  })
  store q _ = none

  unfoldable pub inc_producer : RingQueue A → Producer A → Option (RingQueue A)
  inc_producer q Producer.stored =
      some (record q { p_step = q.p_step + 1; producer = Producer.stepped })
  inc_producer q _ = none

  unfoldable pub mod_producer : RingQueue A → Producer A → Option (RingQueue A)
  mod_producer q Producer.stepped =
      some (record q { p_step = q.p_step % q.cap; producer = Producer.wrapped })
  mod_producer q _ = none

  unfoldable pub unlock_producer : RingQueue A → Producer A → Option (RingQueue A)
  unlock_producer q Producer.wrapped =
      some (record q { producer = Producer.free; p_leaving = q.p_leaving + 1 })
  unlock_producer q _ = none

  -- The statements of `Pop` under the lock
  unfoldable pub take_out : RingQueue A → Consumer → Option (RingQueue A)
  take_out q Consumer.locked =
      some (record q {
        consumer = Consumer.taken;
        popped = q.popped ++ get_or q.rq q.c_step blank ∷ [];
      })
  take_out q _ = none

  unfoldable pub inc_consumer : RingQueue A → Consumer → Option (RingQueue A)
  inc_consumer q Consumer.taken =
      some (record q { c_step = q.c_step + 1; consumer = Consumer.stepped })
  inc_consumer q _ = none

  unfoldable pub mod_consumer : RingQueue A → Consumer → Option (RingQueue A)
  mod_consumer q Consumer.stepped =
      some (record q { c_step = q.c_step % q.cap; consumer = Consumer.wrapped })
  mod_consumer q _ = none

  unfoldable pub unlock_consumer : RingQueue A → Consumer → Option (RingQueue A)
  unlock_consumer q Consumer.wrapped =
      some (record q { consumer = Consumer.free; c_leaving = q.c_leaving + 1 })
  unlock_consumer q _ = none

  -- `Sem::V` of a producer, and of a consumer
  unfoldable pub post_producer : RingQueue A → Option ℕ → Option (RingQueue A)
  post_producer q none = none
  post_producer q (some n) = some (record q { p_leaving = n; data_sem = q.data_sem + 1 })

  unfoldable pub post_consumer : RingQueue A → Option ℕ → Option (RingQueue A)
  post_consumer q none = none
  post_consumer q (some n) = some (record q { c_leaving = n; blank_sem = q.blank_sem + 1 })

  -- `Equeue` and `Pop`, statement by statement
  unfoldable pub step : RingQueue A → Action A → Option (RingQueue A)
  unfolding enter_producer enter_consumer lock_producer lock_consumer store inc_producer
      mod_producer unlock_producer take_out inc_consumer mod_consumer unlock_consumer post_producer
      post_consumer
  step q p_wait = enter_producer q (less q.blank_sem)
  step q (p_lock x) = lock_producer q x q.producer (less q.p_waiting)
  step q p_store = store q q.producer
  step q p_inc = inc_producer q q.producer
  step q p_mod = mod_producer q q.producer
  step q p_unlock = unlock_producer q q.producer
  step q p_post = post_producer q (less q.p_leaving)
  step q c_wait = enter_consumer q (less q.data_sem)
  step q c_lock = lock_consumer q q.consumer (less q.c_waiting)
  step q c_take = take_out q q.consumer
  step q c_inc = inc_consumer q q.consumer
  step q c_mod = mod_consumer q q.consumer
  step q c_unlock = unlock_consumer q q.consumer
  step q c_post = post_consumer q (less q.c_leaving)

  -- An interleaving of the threads; an action that would wait changes nothing.
  abbrev after : RingQueue A → Option (RingQueue A) → RingQueue A
  after q none = q
  after q (some q') = q'

  unfoldable pub run : RingQueue A → List (Action A) → RingQueue A
  run q [] = q
  run q (a ∷ rest) = run (after q (step q a)) rest
