-- ===== src/WaitQueue/Flow.antt =====
-- What goes through the queue of test_03_25/Cond/BlockQueue.hpp, and who sleeps.
use linux_system_learning.Prelude.{
  ℕ, suc, ◌+◌, ◌-◌, ◌≡◌, ◌≤◌, ◌<◌, ◌⊎◌, inl, inr, refl, ap, sym, ◌∙◌, true, false, List, [], ◌∷◌,
  ◌++◌, Option, none, some, arith, length, length-append, append_assoc, less, less-some, less-none,
  remove_at, Removed, remove_at-Removed, remove_at-none, ltb, if◌then◌else◌, if_cases, dec_lt,
}
use linux_system_learning.Prelude.Outcome.{Gives, Gives-bind, Gives-map}
use linux_system_learning.BlockQueue.{
  BlockQueue, Turn, equeue, resume_equeue, pop, resume_pop, spurious_producer, spurious_consumer,
  empty_queue, is_full, wake_consumer, wake_producer, store_in,
}
use linux_system_learning.WaitQueue.{
  wait_full, wait_empty, sleeper, take_next, test_full, again_full, test_empty, again_empty,
  wait_turn, wait_turns,
}

none_or : (a b c : ℕ) → (0 < a → b ≤ c) → (a ≡ 0) ⊎ (b ≤ c)
none_or a b c h = elim (dec_lt 0 a) [ yes l ↦ inr (h l) | no l ↦ inl (omega (arith, l)) ]

module _ {A : Type 0} where
  -- If a consumer sleeps, enough of them are woken for the elements there are but `a`, and likewise producers for the free
  -- places but `b`.
  pub record IsNear (a b : ℕ) (s : BlockQueue A) : Type 0 where
    pub consumers : s.csleep_num ≡ s.c_asleep + s.c_woken
    pub producers : s.psleep_num ≡ length s.p_asleep + length s.p_woken
    pub order : s.pushed ≡ s.popped ++ s.q
    pub bound : length s.q ≤ s.cap
    pub fed : 0 < s.c_asleep → length s.q ≤ s.c_woken + a
    pub drained : 0 < length s.p_asleep → s.cap ≤ length s.q + length s.p_woken + b

  wake_consumer-IsNear :
      (s : BlockQueue A) (o : Option ℕ)
      → less s.c_asleep ≡ o
      → IsNear 1 0 s
      → IsNear 0 0 (wake_consumer s o)
  unfolding wake_consumer
  wake_consumer-IsNear s none e v = ground (arith, less-none s.c_asleep e)
  wake_consumer-IsNear s (some n) e v = ground (arith, less-some s.c_asleep n e)

  wake_producer-IsNear :
      (s : BlockQueue A) (o : Option (A × List A))
      → Removed s.p_asleep o
      → (o ≡ none → length s.p_asleep ≡ 0)
      → IsNear 0 1 s
      → IsNear 0 0 (wake_producer s o)
  unfolding wake_producer
  wake_producer-IsNear s none r e v = record {
    consumers = v.consumers;
    producers = v.producers;
    order = v.order;
    bound = v.bound;
    fed = v.fed;
    drained = λ h. absurd (omega (arith, e refl, h));
  }
  wake_producer-IsNear s (some (x, rest)) r e v =
      let one : length (s.p_woken ++ x ∷ []) ≡ length s.p_woken + 1 =
        length-append s.p_woken (x ∷ []) in
      record {
        consumers = v.consumers;
        producers = omega (arith, v.producers, r.1, one);
        order = v.order;
        bound = v.bound;
        fed = v.fed;
        drained = λ h. omega (arith, v.drained (omega (arith, r.1)), one);
      }

  store-IsNear :
      (s : BlockQueue A) (x : A) → is_full s ≡ false → IsNear 0 1 s → IsNear 0 0 (store_in s x)
  unfolding is_full store_in
  store-IsNear s x f v =
      let t = record s { q = s.q ++ x ∷ []; pushed = s.pushed ++ x ∷ [] } in
      let one : length (s.q ++ x ∷ []) ≡ length s.q + 1 = length-append s.q (x ∷ []) in
      let room : length s.q < s.cap = ground (arith, f) in
      let order : t.pushed ≡ t.popped ++ t.q =
        ap (λ (l : List A). l ++ x ∷ []) v.order ∙ append_assoc s.popped s.q (x ∷ []) in
      if_cases (IsNear 0 0) (ltb 0 s.csleep_num)
        (λ b. wake_consumer-IsNear t (less s.c_asleep) refl (record {
          consumers = v.consumers;
          producers = v.producers;
          order = order;
          bound = omega (arith, one, room);
          fed = λ h. omega (arith, one, v.fed h);
          drained = λ h. omega (arith, one, v.drained h);
        }))
        (λ b. record {
          consumers = v.consumers;
          producers = v.producers;
          order = order;
          bound = omega (arith, one, room);
          fed = λ h. ground (arith, b, h, v.consumers);
          drained = λ h. omega (arith, one, v.drained h);
        })

  wait_full-IsNear :
      (s : BlockQueue A) (x : A)
      → is_full s ≡ true
      → IsNear 0 1 s
      → Gives (IsNear 0 0) (wait_full true s x)
  unfolding is_full wait_full
  wait_full-IsNear s x f v =
      let one : length (s.p_asleep ++ x ∷ []) ≡ length s.p_asleep + 1 =
        length-append s.p_asleep (x ∷ []) in
      record {
        consumers = v.consumers;
        producers = omega (arith, v.producers, one);
        order = v.order;
        bound = v.bound;
        fed = v.fed;
        drained = λ h. ground (arith, f);
      }

  test_full-IsNear :
      (s : BlockQueue A) (x : A) → IsNear 0 1 s → Gives (IsNear 0 0) (test_full true s x)
  unfolding test_full
  test_full-IsNear s x v =
      if_cases (Gives (IsNear 0 0)) (is_full s) (λ b. wait_full-IsNear s x b v)
        (λ b. store-IsNear s x b v)

  loosened : (s : BlockQueue A) → IsNear 0 0 s → IsNear 0 1 s
  loosened s v = record {
    consumers = v.consumers;
    producers = v.producers;
    order = v.order;
    bound = v.bound;
    fed = v.fed;
    drained = λ h. omega (arith, v.drained h);
  }

  again_full-IsNear :
      (s : BlockQueue A) (o : Option (A × List A))
      → Removed s.p_woken o
      → IsNear 0 0 s
      → Gives (IsNear 0 0) (again_full true s o)
  unfolding again_full
  again_full-IsNear s none r v = v
  again_full-IsNear s (some (x, rest)) r v =
      test_full-IsNear (record s { psleep_num = s.psleep_num - 1; p_woken = rest }) x
        (record {
          consumers = v.consumers;
          producers = omega (arith, v.producers, r.1);
          order = v.order;
          bound = v.bound;
          fed = v.fed;
          drained = λ h. omega (arith, v.drained h, r.1);
        })

  sleeper-none : (xs : List A) (i : ℕ) → sleeper xs i ≡ none → length xs ≡ 0
  unfolding sleeper
  sleeper-none xs i e = ground (arith, remove_at-none xs (if ltb i (length xs) then i else 0) e)

  sleeper-Removed : (xs : List A) (i : ℕ) → Removed xs (sleeper xs i)
  unfolding sleeper
  sleeper-Removed xs i = remove_at-Removed xs (if ltb i (length xs) then i else 0)

  take_next-IsNear :
      (s : BlockQueue A) (i : ℕ) (x : A) (rest : List A)
      → s.q ≡ x ∷ rest
      → IsNear 1 0 s
      → IsNear 0 0 (take_next s i x rest)
  unfolding take_next
  take_next-IsNear s i x rest e v =
      let t = record s { q = rest; popped = s.popped ++ x ∷ [] } in
      let one : length s.q ≡ suc (length rest) = ap length e in
      let order : t.pushed ≡ t.popped ++ t.q =
        v.order
        ∙ ap (λ (l : List A). s.popped ++ l) e
        ∙ sym (append_assoc s.popped (x ∷ []) rest) in
      if_cases (IsNear 0 0) (ltb 0 s.psleep_num)
        (λ b.
          wake_producer-IsNear t (sleeper s.p_asleep i) (sleeper-Removed s.p_asleep i)
            (sleeper-none s.p_asleep i)
            (record {
              consumers = v.consumers;
              producers = v.producers;
              order = order;
              bound = omega (arith, one, v.bound);
              fed = λ h. omega (arith, one, v.fed h);
              drained = λ h. omega (arith, one, v.drained h);
            }))
        (λ b. record {
          consumers = v.consumers;
          producers = v.producers;
          order = order;
          bound = omega (arith, one, v.bound);
          fed = λ h. omega (arith, one, v.fed h);
          drained = λ h. ground (arith, b, h, v.producers);
        })

  test_empty-IsNear :
      (s : BlockQueue A) (i : ℕ) (q : List A)
      → s.q ≡ q
      → IsNear 1 0 s
      → Gives (IsNear 0 0) (test_empty true s i q)
  unfolding test_empty
  test_empty-IsNear s i [] e v =
      unfold wait_empty in
      record {
        consumers = omega (arith, v.consumers);
        producers = v.producers;
        order = v.order;
        bound = v.bound;
        fed = λ h. omega (arith, ap length e);
        drained = v.drained;
      }
  test_empty-IsNear s i (x ∷ rest) e v = take_next-IsNear s i x rest e v

  again_empty-IsNear :
      (s : BlockQueue A) (i : ℕ) (o : Option ℕ)
      → less s.c_woken ≡ o
      → IsNear 0 0 s
      → Gives (IsNear 0 0) (again_empty true s i o)
  unfolding again_empty
  again_empty-IsNear s i none e v = v
  again_empty-IsNear s i (some n) e v =
      let one = less-some s.c_woken n e in
      test_empty-IsNear (record s { csleep_num = s.csleep_num - 1; c_woken = n }) i s.q refl
        (record {
          consumers = omega (arith, v.consumers, one);
          producers = v.producers;
          order = v.order;
          bound = v.bound;
          fed = λ h. omega (arith, v.fed h, one);
          drained = v.drained;
        })

  slackened : (s : BlockQueue A) → IsNear 0 0 s → IsNear 1 0 s
  slackened s v = record {
    consumers = v.consumers;
    producers = v.producers;
    order = v.order;
    bound = v.bound;
    fed = λ h. omega (arith, v.fed h);
    drained = v.drained;
  }

  spurious_producer-IsNear :
      (s : BlockQueue A) (o : Option (A × List A))
      → Removed s.p_asleep o
      → IsNear 0 0 s
      → IsNear 0 0 (wake_producer s o)
  unfolding wake_producer
  spurious_producer-IsNear s none r v = v
  spurious_producer-IsNear s (some p) r v =
      wake_producer-IsNear s (some p) r (λ e. cc) (loosened s v)

  turn-IsNear :
      (s : BlockQueue A) (t : Turn A) → IsNear 0 0 s → Gives (IsNear 0 0) (wait_turn true s t)
  unfolding wait_turn
  turn-IsNear s (equeue x) v = test_full-IsNear s x (loosened s v)
  turn-IsNear s (resume_equeue i) v =
      again_full-IsNear s (remove_at s.p_woken i) (remove_at-Removed s.p_woken i) v
  turn-IsNear s (pop i) v = test_empty-IsNear s i s.q refl (slackened s v)
  turn-IsNear s (resume_pop i) v = again_empty-IsNear s i (less s.c_woken) refl v
  turn-IsNear s (spurious_producer i) v =
      spurious_producer-IsNear s (remove_at s.p_asleep i) (remove_at-Removed s.p_asleep i) v
  turn-IsNear s spurious_consumer v = wake_consumer-IsNear s (less s.c_asleep) refl (slackened s v)

  turns-IsNear :
      (s : BlockQueue A) (ts : List (Turn A))
      → IsNear 0 0 s
      → Gives (IsNear 0 0) (wait_turns true s ts)
  unfolding wait_turns
  turns-IsNear s [] v = v
  turns-IsNear s (t ∷ ts) v =
      Gives-bind (IsNear 0 0) (IsNear 0 0) (wait_turn true s t) (λ s'. wait_turns true s' ts)
        (turn-IsNear s t v) (λ s' v'. turns-IsNear s' ts v')

  start-IsNear : (cap : ℕ) → IsNear 0 0 (empty_queue cap)
  unfolding empty_queue
  start-IsNear cap = record {
    consumers = refl;
    producers = refl;
    order = refl;
    bound = omega arith;
    fed = λ h. omega (arith, h);
    drained = λ h. absurd (omega (arith, h));
  }

  -- What went through, and who may sleep
  abbrev pub IsFlowing : BlockQueue A → Type 0
  IsFlowing s =
      (s.pushed ≡ s.popped ++ s.q)
      × (length s.q ≤ s.cap)
      × ((s.c_asleep ≡ 0) ⊎ (length s.q ≤ s.c_woken))
      × ((length s.p_asleep ≡ 0) ⊎ (s.cap ≤ length s.q + length s.p_woken))

  flowing : (s : BlockQueue A) → IsNear 0 0 s → IsFlowing s
  flowing s v = (
    v.order,
    v.bound,
    none_or s.c_asleep _ _ (λ h. omega (arith, v.fed h)),
    none_or (length s.p_asleep) _ _ (λ h. omega (arith, v.drained h)),
  )

  -- If destroying the held mutex leaves it as it is: however calls of Equeue and Pop, the ways out of their waits and
  -- wake-ups without a cause are interleaved, every turn returns, what is popped is what was pushed, in order, and the
  -- rest is in the queue, which holds no more than its capacity. No wake-up is lost: while a consumer sleeps, as many
  -- others are woken as there are elements, and while a producer sleeps, as many others as there are free places.
  pub wait_turns-IsFlowing :
      (cap : ℕ) (ts : List (Turn A)) → Gives IsFlowing (wait_turns true (empty_queue cap) ts)
  wait_turns-IsFlowing cap ts =
      Gives-map (IsNear 0 0) IsFlowing (wait_turns true (empty_queue cap) ts)
        (turns-IsNear (empty_queue cap) ts (start-IsNear cap)) flowing
