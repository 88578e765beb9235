-- ===== src/BlockQueue/Alone.antt =====
-- The queue of test_03_23/CP/BlockQueue.hpp with the one producer and the one consumer of test_03_23/CP/Main.cc, whom
-- nothing wakes but the other.
use linux_system_learning.Prelude.{
  ℕ, zero, suc, ◌+◌, ◌-◌, ◌≡◌, ◌≤◌, ◌<◌, ◌⊎◌, inl, inr, refl, ap, sym, ◌∙◌, Bool, true, false, ◌&&◌,
  List, [], ◌∷◌, ◌++◌, Option, none, some, arith, length, length-append, append_assoc, less,
  less-none, less-some, ltb, ◌==◌, if◌then◌else◌, if_cases, remove_at, Removed, remove_at-Removed,
}
use linux_system_learning.Prelude.Outcome.{Outcome, returned, ◌>>=◌, Gives, Gives-bind, Gives-map}
use linux_system_learning.BlockQueue.{
  BlockQueue, Turn, empty_queue, is_full, wake_consumer, wake_producer, store_in, do_equeue,
  resume_producer, take_front, do_pop, resume_consumer, turn,
}

or_none : (n m k : ℕ) → (0 < n → m ≡ k) → (n ≡ 0) ⊎ (m ≡ k)
or_none zero m k h = inl refl
or_none (suc n) m k h = inr (h (omega arith))

module _ {A : Type 0} where
  -- What the one producer and the one consumer can do next: a thread behind its wait resumes before it calls again, and the
  -- signal of the consumer wakes the producer if it waits.
  unfoldable pub of_two : BlockQueue A → Turn A → Bool
  of_two s (Turn.equeue x) = s.psleep_num == 0
  of_two s (Turn.resume_equeue i) = true
  of_two s (Turn.pop i) = s.csleep_num == 0 && i == 0
  of_two s (Turn.resume_pop i) = i == 0
  of_two s (Turn.spurious_producer i) = false
  of_two s Turn.spurious_consumer = false

  -- The turns of the two, any others left out
  unfoldable pub two_turns : BlockQueue A → List (Turn A) → Outcome (BlockQueue A)
  unfolding turn of_two
  two_turns s [] = returned s
  two_turns s (t ∷ ts) = (if of_two s t then turn s t else returned s) >>= λ s'. two_turns s' ts

  record IsPaired (cap : ℕ) (s : BlockQueue A) : Type 0 where
    room : s.cap ≡ cap
    order : s.pushed ≡ s.popped ++ s.q
    bound : length s.q ≤ cap
    producer : s.psleep_num ≡ length s.p_asleep + length s.p_woken
    consumer : s.csleep_num ≡ s.c_asleep + s.c_woken
    one_producer : s.psleep_num ≤ 1
    one_consumer : s.csleep_num ≤ 1
    p_waits : 0 < length s.p_asleep → length s.q ≡ cap
    p_goes : 0 < length s.p_woken → length s.q < cap
    c_waits : 0 < s.c_asleep → length s.q ≡ 0
    c_goes : 0 < s.c_woken → 0 < length s.q

  -- The producer is not behind its wait, and the queue has a place.
  store_in-IsPaired :
      (cap : ℕ) (s : BlockQueue A) (x : A)
      → s.psleep_num ≡ 0
      → length s.q < cap
      → IsPaired cap s
      → IsPaired cap (store_in s x)
  unfolding store_in wake_consumer
  store_in-IsPaired cap s x none_asleep place v =
      if_cases (IsPaired cap) (ltb 0 s.csleep_num) (λ b. woken (less s.c_asleep) refl b)
        (λ b. kept b)
    where
      t : BlockQueue A
      t = record s { q = s.q ++ x ∷ []; pushed = s.pushed ++ x ∷ [] }

      longer : length (s.q ++ x ∷ []) ≡ length s.q + 1
      longer = length-append s.q (x ∷ [])

      with_sleepers :
          (a w : ℕ)
          → s.csleep_num ≡ a + w
          → a ≡ 0
          → IsPaired cap (record t { c_asleep = a; c_woken = w })
      with_sleepers a w e z = record {
        room = v.room;
        order = ap (λ l. l ++ x ∷ []) v.order ∙ append_assoc s.popped s.q (x ∷ []);
        bound = omega (arith, longer, place);
        producer = v.producer;
        consumer = e;
        one_producer = v.one_producer;
        one_consumer = v.one_consumer;
        p_waits = λ h. omega (arith, v.producer, h, none_asleep);
        p_goes = λ h. omega (arith, v.producer, h, none_asleep);
        c_waits = λ h. omega (arith, h, z);
        c_goes = λ h. omega (arith, longer);
      }

      kept : ltb 0 s.csleep_num ≡ false → IsPaired cap t
      kept b = with_sleepers s.c_asleep s.c_woken v.consumer (ground (arith, v.consumer, b))

      woken :
          (o : Option ℕ)
          → less s.c_asleep ≡ o
          → ltb 0 s.csleep_num ≡ true
          → IsPaired cap (wake_consumer t o)
      woken none e b =
          with_sleepers s.c_asleep s.c_woken v.consumer (omega (arith, less-none s.c_asleep e))
      woken (some n) e b =
          let asleep = less-some s.c_asleep n e in
          with_sleepers n (s.c_woken + 1) (omega (arith, v.consumer, asleep))
            (omega (arith, v.consumer, v.one_consumer, asleep))

  do_equeue-IsPaired :
      (cap : ℕ) (s : BlockQueue A) (x : A)
      → s.psleep_num ≡ 0
      → IsPaired cap s
      → IsPaired cap (do_equeue s x)
  unfolding do_equeue is_full
  do_equeue-IsPaired cap s x free v =
      if_cases (IsPaired cap) (is_full s)
        (λ b. record {
          room = v.room;
          order = v.order;
          bound = v.bound;
          producer = omega (arith, v.producer, length-append s.p_asleep (x ∷ []));
          consumer = v.consumer;
          one_producer = omega (arith, free);
          one_consumer = v.one_consumer;
          p_waits = λ h. ground (arith, v.bound, v.room, b);
          p_goes = λ h. omega (arith, v.producer, free, h);
          c_waits = v.c_waits;
          c_goes = v.c_goes;
        })
        (λ b. store_in-IsPaired cap s x free (ground (arith, v.room, b)) v)

  resume_producer-IsPaired :
      (cap : ℕ) (s : BlockQueue A) (i : ℕ) (o : Option (A × List A))
      → remove_at s.p_woken i ≡ o
      → Removed s.p_woken o
      → IsPaired cap s
      → IsPaired cap (resume_producer s o)
  unfolding resume_producer
  resume_producer-IsPaired cap s i none e r v = v
  resume_producer-IsPaired cap s i (some (x, rest)) e r v =
      let free : s.psleep_num - 1 ≡ 0 = omega (arith, v.one_producer) in
      store_in-IsPaired cap (record s { psleep_num = s.psleep_num - 1; p_woken = rest }) x free
        (v.p_goes (omega (arith, r.1)))
        (record {
          room = v.room;
          order = v.order;
          bound = v.bound;
          producer = omega (arith, v.producer, r.1);
          consumer = v.consumer;
          one_producer = omega (arith, free);
          one_consumer = v.one_consumer;
          p_waits = v.p_waits;
          p_goes = λ h. omega (arith, v.producer, v.one_producer, r.1, h);
          c_waits = v.c_waits;
          c_goes = v.c_goes;
        })

  -- The consumer is not behind its wait.
  take_front-IsPaired :
      (cap : ℕ) (s : BlockQueue A) (q : List A)
      → s.q ≡ q
      → 0 < length q
      → s.csleep_num ≡ 0
      → IsPaired cap s
      → Gives (IsPaired cap) (take_front s 0 q)
  unfolding take_front wake_producer
  take_front-IsPaired cap s [] e full free v = absurd (omega arith)
  take_front-IsPaired cap s (x ∷ rest) e full free v =
      if_cases (IsPaired cap) (ltb 0 s.psleep_num) (λ b. woken s.p_asleep refl b) (λ b. kept b)
    where
      t : BlockQueue A
      t = record s { q = rest; popped = s.popped ++ x ∷ [] }

      shorter : length s.q ≡ suc (length rest)
      shorter = ap length e

      moved : s.pushed ≡ (s.popped ++ x ∷ []) ++ rest
      moved = v.order ∙ ap (λ l. s.popped ++ l) e ∙ sym (append_assoc s.popped (x ∷ []) rest)

      with_sleepers :
          (a w : List A)
          → s.psleep_num ≡ length a + length w
          → length a ≡ 0
          → IsPaired cap (record t { p_asleep = a; p_woken = w })
      with_sleepers a w e z = record {
        room = v.room;
        order = moved;
        bound = omega (arith, v.bound, shorter);
        producer = e;
        consumer = v.consumer;
        one_producer = v.one_producer;
        one_consumer = v.one_consumer;
        p_waits = λ h. omega (arith, h, z);
        p_goes = λ h. omega (arith, v.bound, shorter);
        c_waits = λ h. omega (arith, v.consumer, free, h);
        c_goes = λ h. omega (arith, v.consumer, free, h);
      }

      kept : ltb 0 s.psleep_num ≡ false → IsPaired cap t
      kept b = with_sleepers s.p_asleep s.p_woken v.producer (ground (arith, v.producer, b))

      woken :
          (xs : List A)
          → s.p_asleep ≡ xs
          → ltb 0 s.psleep_num ≡ true
          → IsPaired cap (wake_producer t (remove_at xs 0))
      woken [] l b = with_sleepers s.p_asleep s.p_woken v.producer (ap length l)
      woken (z ∷ zs) l b =
          with_sleepers zs (s.p_woken ++ z ∷ [])
            (omega (arith, v.producer, ap length l, length-append s.p_woken (z ∷ [])))
            (omega (arith, v.producer, v.one_producer, ap length l))

  do_pop-IsPaired :
      (cap : ℕ) (s : BlockQueue A) (q : List A)
      → s.q ≡ q
      → s.csleep_num ≡ 0
      → IsPaired cap s
      → Gives (IsPaired cap) (do_pop s 0 q)
  unfolding do_pop
  do_pop-IsPaired cap s [] e free v = record {
    room = v.room;
    order = v.order;
    bound = v.bound;
    producer = v.producer;
    consumer = omega (arith, v.consumer);
    one_producer = v.one_producer;
    one_consumer = omega (arith, free);
    p_waits = v.p_waits;
    p_goes = v.p_goes;
    c_waits = λ h. ap length e;
    c_goes = λ h. omega (arith, v.consumer, free, h);
  }
  do_pop-IsPaired cap s (x ∷ rest) e free v =
      take_front-IsPaired cap s (x ∷ rest) e (omega arith) free v

  resume_consumer-IsPaired :
      (cap : ℕ) (s : BlockQueue A) (o : Option ℕ)
      → less s.c_woken ≡ o
      → IsPaired cap s
      → Gives (IsPaired cap) (resume_consumer s 0 o)
  unfolding resume_consumer
  resume_consumer-IsPaired cap s none e v = v
  resume_consumer-IsPaired cap s (some n) e v =
      let woke : s.c_woken ≡ suc n = less-some s.c_woken n e in
      let free : s.csleep_num - 1 ≡ 0 = omega (arith, v.one_consumer) in
      take_front-IsPaired cap (record s { csleep_num = s.csleep_num - 1; c_woken = n }) s.q refl
        (v.c_goes (omega (arith, woke))) free
        (record {
          room = v.room;
          order = v.order;
          bound = v.bound;
          producer = v.producer;
          consumer = omega (arith, v.consumer, woke);
          one_producer = v.one_producer;
          one_consumer = omega (arith, free);
          p_waits = v.p_waits;
          p_goes = v.p_goes;
          c_waits = v.c_waits;
          c_goes = λ h. omega (arith, v.consumer, v.one_consumer, woke, h);
        })

  turn-IsPaired :
      (cap : ℕ) (s : BlockQueue A) (t : Turn A)
      → of_two s t ≡ true
      → IsPaired cap s
      → Gives (IsPaired cap) (turn s t)
  unfolding of_two turn
  turn-IsPaired cap s (Turn.equeue x) b v = do_equeue-IsPaired cap s x (ground (arith, b)) v
  turn-IsPaired cap s (Turn.resume_equeue i) b v =
      resume_producer-IsPaired cap s i (remove_at s.p_woken i) refl (remove_at-Removed s.p_woken i)
        v
  turn-IsPaired cap s (Turn.pop zero) b v = do_pop-IsPaired cap s s.q refl (ground (arith, b)) v
  turn-IsPaired cap s (Turn.pop (suc i)) b v = ground (arith, b)
  turn-IsPaired cap s (Turn.resume_pop zero) b v =
      resume_consumer-IsPaired cap s (less s.c_woken) refl v
  turn-IsPaired cap s (Turn.resume_pop (suc i)) b v = ground (arith, b)
  turn-IsPaired cap s (Turn.spurious_producer i) b v = cc
  turn-IsPaired cap s Turn.spurious_consumer b v = cc

  two_turns-IsPaired :
      (cap : ℕ) (s : BlockQueue A) (ts : List (Turn A))
      → IsPaired cap s
      → Gives (IsPaired cap) (two_turns s ts)
  unfolding two_turns
  two_turns-IsPaired cap s [] v = v
  two_turns-IsPaired cap s (t ∷ ts) v =
      Gives-bind (IsPaired cap) (IsPaired cap) (if of_two s t then turn s t else returned s)
        (λ s'. two_turns s' ts)
        (if_cases (Gives (IsPaired cap)) (of_two s t) (λ b. turn-IsPaired cap s t b v) (λ b. v))
        (λ s' v'. two_turns-IsPaired cap s' ts v')

  empty-IsPaired : (cap : ℕ) → IsPaired cap (empty_queue cap)
  unfolding empty_queue
  empty-IsPaired cap = record {
    room = refl;
    order = refl;
    bound = omega arith;
    producer = refl;
    consumer = refl;
    one_producer = omega arith;
    one_consumer = omega arith;
    p_waits = λ h. absurd (omega arith);
    p_goes = λ h. absurd (omega arith);
    c_waits = λ h. refl;
    c_goes = λ h. absurd (omega arith);
  }

  -- What a queue with one producer and one consumer keeps
  abbrev pub IsFair : ℕ → BlockQueue A → Type 0
  IsFair cap s =
      (s.pushed ≡ s.popped ++ s.q)
      × (length s.q ≤ cap)
      × ((length s.p_asleep ≡ 0) ⊎ (length s.q ≡ cap))
      × ((s.c_asleep ≡ 0) ⊎ (length s.q ≡ 0))

  -- With one producer and one consumer, and no return from a wait without a signal, the tests by `if` are enough: in every
  -- order of their turns from an empty queue each turn returns, so that nobody takes the front of an empty queue; what
  -- was popped is the beginning of what was pushed, in its order, and the rest is in the queue, which never holds more
  -- than its capacity; the producer sleeps only while the queue is full, and the consumer only while it is empty.
  pub two_turns-IsFair :
      (cap : ℕ) (ts : List (Turn A)) → Gives (IsFair cap) (two_turns (empty_queue cap) ts)
  two_turns-IsFair cap ts =
      Gives-map (IsPaired cap) (IsFair cap) (two_turns (empty_queue cap) ts)
        (two_turns-IsPaired cap (empty_queue cap) ts (empty-IsPaired cap))
        (λ s v. (
          v.order,
          v.bound,
          or_none (length s.p_asleep) (length s.q) cap v.p_waits,
          or_none s.c_asleep (length s.q) 0 v.c_waits,
        ))
