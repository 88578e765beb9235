-- ===== src/Semaphore/Alone.antt =====
-- The child of test_03_26/Writer.cc when its parent has ended.
use linux_system_learning.Prelude.{ℕ, ◌≡◌, inr, refl, Bool, [], ◌∷◌, Option, none, some, arith}
use linux_system_learning.Prelude.Outcome.{Gives}
use linux_system_learning.Semaphore.{
  Kernel, sem_p, sem_v, OpResult, passed, waits, failed, pv, letter_c, Place, before_p,
  before_first, before_second, before_v, ended, Writers, parent_step, child_build, child_p, child_v,
  child_step,
}
use linux_system_learning.Semaphore.Letters.{count_f-append, open-IsWritten, close-IsWritten}
use linux_system_learning.Semaphore.Steps.{IsOver, IsTurned}

pub parent_step-over :
    (root : Bool) (w : Writers) (p : Place)
    → w.parent ≡ p
    → IsOver p w.child w.output
    → IsTurned (parent_step root w p)
unfolding parent_step
parent_step-over root w before_p pl h = cc h.parent_down
parent_step-over root w before_first pl h = cc h.parent_down
parent_step-over root w before_second pl h = cc h.parent_down
parent_step-over root w before_v pl h = cc h.parent_down
parent_step-over root w ended pl h = inr (rw pl h)

pub p-over :
    (w : Writers) (r : OpResult)
    → IsOver w.parent before_p w.output
    → w.child ≡ before_p
    → IsTurned (child_p w r)
unfolding child_p
p-over w (passed k) h pl =
    inr (record { parent_down = h.parent_down; all = h.all; left_off = h.left_off })
p-over w waits h pl = inr (rw pl h)
p-over w failed h pl =
    inr (record { parent_down = h.parent_down; all = h.all; left_off = h.left_off })

pub v-over :
    (w : Writers) (r : OpResult)
    → IsOver w.parent before_v w.output
    → w.child ≡ before_v
    → IsTurned (child_v w r)
unfolding child_v
v-over w (passed k) h pl =
    inr (record { parent_down = h.parent_down; all = h.all; left_off = h.left_off })
v-over w waits h pl = inr (rw pl h)
v-over w failed h pl =
    inr (record { parent_down = h.parent_down; all = h.all; left_off = h.left_off })

pub child_step-over :
    (root : Bool) (w : Writers) (id : ℕ) (c : Place)
    → w.child ≡ c
    → IsOver w.parent c w.output
    → IsTurned (child_step root w id c)
unfolding child_step
child_step-over root w id before_p pl h = p-over w (pv root w.kernel id sem_p) h pl
child_step-over root w id before_first pl h = inr (record {
  parent_down = h.parent_down;
  all = omega (arith, h.all, count_f-append w.output (letter_c ∷ []));
  left_off = open-IsWritten w.output none letter_c refl h.left_off;
})
child_step-over root w id before_second pl h = inr (record {
  parent_down = h.parent_down;
  all = omega (arith, h.all, count_f-append w.output (letter_c ∷ []));
  left_off = close-IsWritten w.output letter_c h.left_off;
})
child_step-over root w id before_v pl h = v-over w (pv root w.kernel id sem_v) h pl
child_step-over root w id ended pl h = inr (rw pl h)

-- Once the parent has ended, its set is gone; what the child's Build gives then does not matter.
pub build-over :
    (w : Writers) (r : Option ℕ × Kernel) (id : ℕ)
    → r.0 ≡ some id
    → IsOver w.parent w.child w.output
    → Gives IsTurned (child_build w r)
unfolding child_build
build-over w (none, k) id e h = cc
build-over w (some j, k) id e h = inr h
