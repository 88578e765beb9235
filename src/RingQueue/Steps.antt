-- ===== src/RingQueue/Steps.antt =====
-- Every action of the threads of test_03_25/Sem_Ring/RingQueue.hpp keeps the queue as RingQueue/Invariant says.
use linux_system_learning.Prelude.{
  less, less-some, ℕ, suc, ◌+◌, ◌%◌, ◌<◌, ◌≡◌, refl, ap, ap₂, sym, ◌∙◌, List, [], ◌∷◌, ◌++◌, Option,
  none, some, arith, get_or, set, replicate, length-replicate, length-set, append_assoc,
}
use native.Mathlib.Nat.{mod-eq_of_lt, mod-lt, mod-add-mod}
use linux_system_learning.RingQueue.{
  RingQueue, Producer, Consumer, Action, init, step, run, after, enter_producer, enter_consumer,
  lock_producer, lock_consumer, store, inc_producer, mod_producer, unlock_producer, take_out,
  inc_consumer, mod_consumer, unlock_consumer, post_producer, post_consumer,
}
use linux_system_learning.RingQueue.Window.{window, window-set, window-suc, window-zero, shift-mod}
use linux_system_learning.RingQueue.Invariant.{
  holds, has_stored, takes, to_take, p_index, c_index, held, contents, to_take-takes, IsValid,
  unmoved,
}

module _ {ℓ} {A : Type ℓ} (blank : A) where
  -- The conservation of places, for the actions of `unmoved`.
  module _ (q : RingQueue A) (v : IsValid blank q) where
    p_wait-IsValid :
        (o : Option ℕ)
        → less q.blank_sem ≡ o
        → IsValid blank (after blank q (enter_producer blank q o))
    unfolding enter_producer
    p_wait-IsValid none e = v
    p_wait-IsValid (some n) e =
        unmoved blank q _ v refl refl refl refl refl
          (omega (arith, v.places, less-some q.blank_sem n e)) refl refl

    c_wait-IsValid :
        (o : Option ℕ)
        → less q.data_sem ≡ o
        → IsValid blank (after blank q (enter_consumer blank q o))
    unfolding enter_consumer
    c_wait-IsValid none e = v
    c_wait-IsValid (some n) e =
        unmoved blank q _ v refl refl refl refl (omega (arith, less-some q.data_sem n e))
          (omega (arith, v.places, less-some q.data_sem n e)) refl refl

    p_lock-IsValid :
        (x : A) (p : Producer A) (o : Option ℕ)
        → q.producer ≡ p
        → less q.p_waiting ≡ o
        → IsValid blank (after blank q (lock_producer blank q x p o))
    unfolding lock_producer
    p_lock-IsValid x Producer.free (some n) ep e =
        unmoved blank q _ v refl refl refl (sym (ap (p_index q.cap q.p_step) ep))
          (omega (arith, ap has_stored ep))
          (omega (arith, v.places, ap holds ep, less-some q.p_waiting n e)) refl refl
    p_lock-IsValid x Producer.free none ep e = v
    p_lock-IsValid x (Producer.locked y) o ep e = v
    p_lock-IsValid x Producer.stored o ep e = v
    p_lock-IsValid x Producer.stepped o ep e = v
    p_lock-IsValid x Producer.wrapped o ep e = v

    c_lock-IsValid :
        (c : Consumer) (o : Option ℕ)
        → q.consumer ≡ c
        → less q.c_waiting ≡ o
        → IsValid blank (after blank q (lock_consumer blank q c o))
    unfolding lock_consumer
    c_lock-IsValid Consumer.free (some n) ec e =
        unmoved blank q _ v refl refl (sym (ap (c_index q.cap q.c_step) ec)) refl
          (omega (arith, ap to_take ec, less-some q.c_waiting n e))
          (omega (arith, v.places, ap takes ec, less-some q.c_waiting n e)) refl refl
    c_lock-IsValid Consumer.free none ec e = v
    c_lock-IsValid Consumer.locked o ec e = v
    c_lock-IsValid Consumer.taken o ec e = v
    c_lock-IsValid Consumer.stepped o ec e = v
    c_lock-IsValid Consumer.wrapped o ec e = v

    p_inc-IsValid :
        (p : Producer A) → q.producer ≡ p → IsValid blank (after blank q (inc_producer blank q p))
    unfolding inc_producer
    p_inc-IsValid Producer.stored e =
        unmoved blank q _ v refl refl refl (sym (ap (p_index q.cap q.p_step) e))
          (omega (arith, ap has_stored e)) (omega (arith, v.places, ap holds e)) refl refl
    p_inc-IsValid Producer.free e = v
    p_inc-IsValid (Producer.locked y) e = v
    p_inc-IsValid Producer.stepped e = v
    p_inc-IsValid Producer.wrapped e = v

    p_mod-IsValid :
        (p : Producer A) → q.producer ≡ p → IsValid blank (after blank q (mod_producer blank q p))
    unfolding mod_producer
    p_mod-IsValid Producer.stepped e =
        unmoved blank q _ v refl refl refl (sym (ap (p_index q.cap q.p_step) e))
          (omega (arith, ap has_stored e)) (omega (arith, v.places, ap holds e)) refl refl
    p_mod-IsValid Producer.free e = v
    p_mod-IsValid (Producer.locked y) e = v
    p_mod-IsValid Producer.stored e = v
    p_mod-IsValid Producer.wrapped e = v

    p_unlock-IsValid :
        (p : Producer A)
        → q.producer ≡ p
        → IsValid blank (after blank q (unlock_producer blank q p))
    unfolding unlock_producer
    p_unlock-IsValid Producer.wrapped e =
        unmoved blank q _ v refl refl refl (sym (ap (p_index q.cap q.p_step) e))
          (omega (arith, ap has_stored e)) (omega (arith, v.places, ap holds e)) refl refl
    p_unlock-IsValid Producer.free e = v
    p_unlock-IsValid (Producer.locked y) e = v
    p_unlock-IsValid Producer.stored e = v
    p_unlock-IsValid Producer.stepped e = v

    c_inc-IsValid :
        (c : Consumer) → q.consumer ≡ c → IsValid blank (after blank q (inc_consumer blank q c))
    unfolding inc_consumer
    c_inc-IsValid Consumer.taken e =
        unmoved blank q _ v refl refl (sym (ap (c_index q.cap q.c_step) e)) refl
          (omega (arith, ap to_take e)) (omega (arith, v.places, ap takes e)) refl refl
    c_inc-IsValid Consumer.free e = v
    c_inc-IsValid Consumer.locked e = v
    c_inc-IsValid Consumer.stepped e = v
    c_inc-IsValid Consumer.wrapped e = v

    c_mod-IsValid :
        (c : Consumer) → q.consumer ≡ c → IsValid blank (after blank q (mod_consumer blank q c))
    unfolding mod_consumer
    c_mod-IsValid Consumer.stepped e =
        unmoved blank q _ v refl refl (sym (ap (c_index q.cap q.c_step) e)) refl
          (omega (arith, ap to_take e)) (omega (arith, v.places, ap takes e)) refl refl
    c_mod-IsValid Consumer.free e = v
    c_mod-IsValid Consumer.locked e = v
    c_mod-IsValid Consumer.taken e = v
    c_mod-IsValid Consumer.wrapped e = v

    c_unlock-IsValid :
        (c : Consumer) → q.consumer ≡ c → IsValid blank (after blank q (unlock_consumer blank q c))
    unfolding unlock_consumer
    c_unlock-IsValid Consumer.wrapped e =
        unmoved blank q _ v refl refl (sym (ap (c_index q.cap q.c_step) e)) refl
          (omega (arith, ap to_take e)) (omega (arith, v.places, ap takes e)) refl refl
    c_unlock-IsValid Consumer.free e = v
    c_unlock-IsValid Consumer.locked e = v
    c_unlock-IsValid Consumer.taken e = v
    c_unlock-IsValid Consumer.stepped e = v

    p_post-IsValid :
        (o : Option ℕ)
        → less q.p_leaving ≡ o
        → IsValid blank (after blank q (post_producer blank q o))
    unfolding post_producer
    p_post-IsValid none e = v
    p_post-IsValid (some n) e =
        unmoved blank q _ v refl refl refl refl (omega (arith, less-some q.p_leaving n e))
          (omega (arith, v.places, less-some q.p_leaving n e)) refl refl

    c_post-IsValid :
        (o : Option ℕ)
        → less q.c_leaving ≡ o
        → IsValid blank (after blank q (post_consumer blank q o))
    unfolding post_consumer
    c_post-IsValid none e = v
    c_post-IsValid (some n) e =
        unmoved blank q _ v refl refl refl refl refl
          (omega (arith, v.places, less-some q.c_leaving n e)) refl refl

    -- The producer under its lock has a place for itself: what is held is not all of the array.
    store-IsValid :
        (p : Producer A) → q.producer ≡ p → IsValid blank (after blank q (store blank q p))
    unfolding store
    store-IsValid (Producer.locked x) e =
        let i = c_index q.cap q.c_step q.consumer in
        let place : q.p_step ≡ (i + held q) % q.cap =
          sym (ap (p_index q.cap q.p_step) e) ∙ v.behind in
        record {
          room = length-set q.rq q.p_step x ∙ v.room;
          positive = v.positive;
          places = omega (arith, v.places, ap holds e);
          first = v.first;
          behind =
              ap (λ k. (k + 1) % q.cap) place
              ∙ mod-add-mod (i + held q) q.cap 1
              ∙ ap (λ k. k % q.cap) (omega (arith, ap has_stored e));
          order =
              ap (λ l. l ++ x ∷ []) v.order
              ∙ append_assoc q.popped (contents blank q) (x ∷ [])
              ∙ ap (λ l. q.popped ++ l)
                  (sym (
                    ap (window blank q.cap (set q.rq q.p_step x) i) (omega (arith, ap has_stored e))
                    ∙ ap (λ k. window blank q.cap (set q.rq k x) i (suc (held q))) place
                    ∙ window-set blank q.cap q.rq x i (held q) (omega (arith, v.room)) v.first (
                        omega (
                          arith,
                          v.places,
                          ap holds e,
                          ap has_stored e,
                          to_take-takes q.consumer,
                        ))));
        }
    store-IsValid Producer.free e = v
    store-IsValid Producer.stored e = v
    store-IsValid Producer.stepped e = v
    store-IsValid Producer.wrapped e = v

    take_out-IsValid :
        (c : Consumer) → q.consumer ≡ c → IsValid blank (after blank q (take_out blank q c))
    unfolding take_out
    take_out-IsValid Consumer.locked e =
        let here : c_index q.cap q.c_step q.consumer ≡ q.c_step = ap (c_index q.cap q.c_step) e in
        let rest = q.data_sem + q.p_leaving + has_stored q.producer + q.c_waiting + 0 in
        let more : held q ≡ suc rest = omega (arith, ap to_take e) in
        record {
          room = v.room;
          positive = v.positive;
          places = omega (arith, v.places, ap takes e);
          first = mod-lt _ v.positive;
          behind =
              v.behind
              ∙ ap (λ k. k % q.cap) (ap₂ ◌+◌ here more)
              ∙ shift-mod blank q.cap q.c_step rest;
          order =
              v.order
              ∙ ap (λ l. q.popped ++ l) (ap₂ (window blank q.cap q.rq) here more)
              ∙ ap (λ l. q.popped ++ l) (window-suc blank q.cap q.rq q.c_step rest)
              ∙ sym (append_assoc q.popped (get_or q.rq q.c_step blank ∷ []) _);
        }
    take_out-IsValid Consumer.free e = v
    take_out-IsValid Consumer.taken e = v
    take_out-IsValid Consumer.stepped e = v
    take_out-IsValid Consumer.wrapped e = v

  pub step-IsValid :
      (q : RingQueue A) (a : Action A)
      → IsValid blank q
      → IsValid blank (after blank q (step blank q a))
  unfolding step
  step-IsValid q Action.p_wait v = p_wait-IsValid q v (less q.blank_sem) refl
  step-IsValid q (Action.p_lock x) v = p_lock-IsValid q v x q.producer (less q.p_waiting) refl refl
  step-IsValid q Action.p_store v = store-IsValid q v q.producer refl
  step-IsValid q Action.p_inc v = p_inc-IsValid q v q.producer refl
  step-IsValid q Action.p_mod v = p_mod-IsValid q v q.producer refl
  step-IsValid q Action.p_unlock v = p_unlock-IsValid q v q.producer refl
  step-IsValid q Action.p_post v = p_post-IsValid q v (less q.p_leaving) refl
  step-IsValid q Action.c_wait v = c_wait-IsValid q v (less q.data_sem) refl
  step-IsValid q Action.c_lock v = c_lock-IsValid q v q.consumer (less q.c_waiting) refl refl
  step-IsValid q Action.c_take v = take_out-IsValid q v q.consumer refl
  step-IsValid q Action.c_inc v = c_inc-IsValid q v q.consumer refl
  step-IsValid q Action.c_mod v = c_mod-IsValid q v q.consumer refl
  step-IsValid q Action.c_unlock v = c_unlock-IsValid q v q.consumer refl
  step-IsValid q Action.c_post v = c_post-IsValid q v (less q.c_leaving) refl

  pub run-IsValid :
      (q : RingQueue A) (acts : List (Action A))
      → IsValid blank q
      → IsValid blank (run blank q acts)
  unfolding run
  run-IsValid q [] v = v
  run-IsValid q (a ∷ acts) v =
      run-IsValid (after blank q (step blank q a)) acts (step-IsValid q a v)

  pub init-IsValid : (cap : ℕ) → 0 < cap → IsValid blank (init blank cap)
  unfolding init
  init-IsValid cap h = record {
    room = length-replicate cap blank;
    positive = h;
    places = omega arith;
    first = h;
    behind = sym (mod-eq_of_lt h);
    order = sym (window-zero blank cap (replicate cap blank) 0);
  }
