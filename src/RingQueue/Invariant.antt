-- ===== src/RingQueue/Invariant.antt =====
-- The semaphores count the free and the filled places, and the steps point at the ends of what is held.
use linux_system_learning.Prelude.{
  ℕ, ◌+◌, ◌%◌, ◌≤◌, ◌<◌, ◌≡◌, ap, ap₂, sym, ◌∙◌, List, ◌++◌, arith, length,
}
use linux_system_learning.RingQueue.{RingQueue, Producer, Consumer}
use linux_system_learning.RingQueue.Window.{window}

-- How many blank places and how many filled ones the holder of a lock stands for.
abbrev pub holds {ℓ} : {A : Type ℓ} → Producer A → ℕ
holds Producer.free = 0
holds _ = 1

abbrev pub has_stored {ℓ} : {A : Type ℓ} → Producer A → ℕ
has_stored Producer.free = 0
has_stored (Producer.locked x) = 0
has_stored _ = 1

abbrev pub takes : Consumer → ℕ
takes Consumer.free = 0
takes _ = 1

abbrev pub to_take : Consumer → ℕ
to_take Consumer.locked = 1
to_take _ = 0

-- The index that a lock's holder leaves behind: an index that it is still moving is moved on.
abbrev pub p_index {ℓ} : {A : Type ℓ} → ℕ → ℕ → Producer A → ℕ
p_index cap i Producer.stored = (i + 1) % cap
p_index cap i Producer.stepped = i % cap
p_index cap i _ = i

abbrev pub c_index : ℕ → ℕ → Consumer → ℕ
c_index cap i Consumer.taken = (i + 1) % cap
c_index cap i Consumer.stepped = i % cap
c_index cap i _ = i

-- The elements stored and not yet taken.
abbrev pub held {ℓ} : {A : Type ℓ} → RingQueue A → ℕ
held q = q.data_sem + q.p_leaving + has_stored q.producer + q.c_waiting + to_take q.consumer

pub has_stored-holds {ℓ} : {A : Type ℓ} (p : Producer A) → has_stored p ≤ holds p
has_stored-holds Producer.free = omega arith
has_stored-holds (Producer.locked x) = omega arith
has_stored-holds Producer.stored = omega arith
has_stored-holds Producer.stepped = omega arith
has_stored-holds Producer.wrapped = omega arith

pub to_take-takes : (c : Consumer) → to_take c ≤ takes c
to_take-takes Consumer.free = omega arith
to_take-takes Consumer.locked = omega arith
to_take-takes Consumer.taken = omega arith
to_take-takes Consumer.stepped = omega arith
to_take-takes Consumer.wrapped = omega arith

module _ {ℓ} {A : Type ℓ} (blank : A) where
  abbrev pub contents : RingQueue A → List A
  contents q = window blank q.cap q.rq (c_index q.cap q.c_step q.consumer) (held q)

  pub record IsValid (q : RingQueue A) : Type ℓ where
    pub room : length q.rq ≡ q.cap
    pub positive : 0 < q.cap
    pub places :
        q.blank_sem
          + q.p_waiting
          + holds q.producer
          + q.p_leaving
          + q.data_sem
          + q.c_waiting
          + takes q.consumer
          + q.c_leaving
        ≡ q.cap
    pub first : c_index q.cap q.c_step q.consumer < q.cap
    pub behind :
        p_index q.cap q.p_step q.producer ≡ (c_index q.cap q.c_step q.consumer + held q) % q.cap
    pub order : q.pushed ≡ q.popped ++ contents q

  -- An action that moves no element keeps what is held where it is.
  pub unmoved :
      (q q' : RingQueue A)
      → IsValid q
      → q'.rq ≡ q.rq
      → q'.cap ≡ q.cap
      → c_index q'.cap q'.c_step q'.consumer ≡ c_index q.cap q.c_step q.consumer
      → p_index q'.cap q'.p_step q'.producer ≡ p_index q.cap q.p_step q.producer
      → held q' ≡ held q
      → q'.blank_sem
          + q'.p_waiting
          + holds q'.producer
          + q'.p_leaving
          + q'.data_sem
          + q'.c_waiting
          + takes q'.consumer
          + q'.c_leaving
        ≡ q.cap
      → q'.pushed ≡ q.pushed
      → q'.popped ≡ q.popped
      → IsValid q'
  unmoved q q' v rq cap c p h places pushed popped = record {
    room = ap length rq ∙ v.room ∙ sym cap;
    positive = omega (arith, cap, v.positive);
    places = places ∙ sym cap;
    first = omega (arith, cap, c, v.first);
    behind = p ∙ v.behind ∙ sym (ap₂ ◌%◌ (ap₂ ◌+◌ c h) cap);
    order =
        pushed
        ∙ v.order
        ∙ sym (
            ap₂ ◌++◌ popped (
              ap (λ k. window blank k q'.rq (c_index q'.cap q'.c_step q'.consumer) (held q')) cap
              ∙ ap (λ l. window blank q.cap l (c_index q'.cap q'.c_step q'.consumer) (held q')) rq
              ∙ ap₂ (window blank q.cap q.rq) c h));
  }
