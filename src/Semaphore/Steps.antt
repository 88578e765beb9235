-- ===== src/Semaphore/Steps.antt =====
-- The statements of the processes of test_03_26/Writer.cc while the parent runs.
use linux_system_learning.Prelude.{
  ℕ, zero, suc, ◌+◌, ◌*◌, ◌≡◌, ◌≢◌, ◌⊎◌, inl, inr, refl, subst, Bool, true, List, [], ◌∷◌, Option,
  none, some, arith,
}
use linux_system_learning.Semaphore.{
  Kernel, sem_p, sem_v, OpResult, passed, waits, failed, pv, Letter, letter_c, letter_f, Place,
  before_p, before_first, before_second, before_v, ended, Writers, parent_p, parent_v, parent_round,
  parent_step, child_p, child_v, child_step,
}
use linux_system_learning.Semaphore.Letters.{
  IsWritten, count_f, count_f-append, open-IsWritten, close-IsWritten, half, open_of, busy, owed,
  half-none, open_eq, idle_open,
}

abbrev pub one_set : ℕ → Kernel
one_set v = record { sets = some (record { value = v; permitted = true }) ∷ []; key = some 0 }

-- While the parent runs, the set is there and its value and the processes between P and V make one.
pub record IsShared (k : Kernel) (fsem cnt : ℕ) (p : Place) (csem : Option ℕ) (c : Place)
    (out : List Letter) : Type 0 where
  pub value : ℕ
  pub shape : k ≡ one_set value
  pub share : value + busy p + busy c ≡ 1
  pub handle : fsem ≡ 0
  pub joined : (csem ≡ some 0) ⊎ (csem ≡ none)
  pub parent_up : p ≢ ended
  pub child_up : c ≢ ended
  pub counted : count_f out + 2 * cnt + owed p ≡ 100
  pub written : IsWritten out (open_of p c)

-- When it has ended the child may go on alone.
pub record IsOver (p : Place) (c : Place) (out : List Letter) : Type 0 where
  pub parent_down : p ≡ ended
  pub all : count_f out ≡ 100
  pub left_off : IsWritten out (half letter_c c)

abbrev pub IsTurned : Writers → Type 0
IsTurned w =
    IsShared w.kernel w.fsem w.cnt w.parent w.csem w.child w.output
    ⊎ IsOver w.parent w.child w.output

-- What semop gives on the one set
abbrev pub IsDown : ℕ → OpResult → Type 0
IsDown zero (passed k) = ⊥
IsDown zero waits = Unit
IsDown (suc v) (passed k) = k ≡ one_set v
IsDown (suc v) waits = ⊥
IsDown v failed = ⊥

abbrev pub IsUp : ℕ → OpResult → Type 0
IsUp v (passed k) = k ≡ one_set (v + 1)
IsUp v waits = ⊥
IsUp v failed = ⊥

pub pv-IsDown : (root : Bool) (k : Kernel) (v : ℕ) → k ≡ one_set v → IsDown v (pv root k 0 sem_p)
unfolding pv
pv-IsDown root k zero e = rw e tt
pv-IsDown root k (suc v) e = rw e refl

pub pv-IsUp :
    (root : Bool) (k : Kernel) (v : ℕ) → k ≡ one_set v → v ≡ 0 → IsUp v (pv root k 0 sem_v)
unfolding pv
pv-IsUp root k v e z = rw (e, z) refl

pub parent_p-IsTurned :
    (w : Writers) (rest : ℕ) (v : ℕ) (r : OpResult)
    → IsShared w.kernel w.fsem (suc rest) before_p w.csem w.child w.output
    → w.parent ≡ before_p
    → w.cnt ≡ suc rest
    → v + busy w.child ≡ 1
    → IsDown v r
    → IsTurned (parent_p w rest r)
unfolding parent_p
parent_p-IsTurned w rest zero (passed k) h pl c share d = absurd d
parent_p-IsTurned w rest zero waits h pl c share d = inl (rw (pl, c) h)
parent_p-IsTurned w rest zero failed h pl c share d = absurd d
parent_p-IsTurned w rest (suc v) (passed k) h pl c share d = inl (record {
  value = v;
  shape = d;
  share = omega arith;
  handle = h.handle;
  joined = h.joined;
  parent_up = cc;
  child_up = h.child_up;
  counted = omega (arith, h.counted);
  written = h.written;
})
parent_p-IsTurned w rest (suc v) waits h pl c share d = absurd d
parent_p-IsTurned w rest (suc v) failed h pl c share d = absurd d

pub parent_v-IsTurned :
    (w : Writers) (v : ℕ) (r : OpResult)
    → IsShared w.kernel w.fsem w.cnt before_v w.csem w.child w.output
    → v ≡ 0
    → busy w.child ≡ 0
    → IsUp v r
    → IsTurned (parent_v w r)
unfolding parent_v
parent_v-IsTurned w v (passed k) h z free d = inl (record {
  value = v + 1;
  shape = d;
  share = omega arith;
  handle = h.handle;
  joined = h.joined;
  parent_up = cc;
  child_up = h.child_up;
  counted = omega (arith, h.counted);
  written = h.written;
})
parent_v-IsTurned w v waits h z free d = absurd d
parent_v-IsTurned w v failed h z free d = absurd d

pub parent_round-IsTurned :
    (root : Bool) (w : Writers) (cnt : ℕ)
    → w.cnt ≡ cnt
    → w.parent ≡ before_p
    → IsShared w.kernel w.fsem cnt before_p w.csem w.child w.output
    → IsTurned (parent_round root w cnt)
unfolding parent_round
parent_round-IsTurned root w zero c pl h =
    inr (record { parent_down = refl; all = omega (arith, h.counted); left_off = h.written })
parent_round-IsTurned root w (suc rest) c pl h =
    parent_p-IsTurned w rest h.value (pv root w.kernel w.fsem sem_p) h pl c (omega (arith, h.share))
      (rw h.handle (pv-IsDown root w.kernel h.value h.shape))

pub parent_step-IsTurned :
    (root : Bool) (w : Writers) (p : Place)
    → w.parent ≡ p
    → IsShared w.kernel w.fsem w.cnt p w.csem w.child w.output
    → IsTurned (parent_step root w p)
unfolding parent_step
parent_step-IsTurned root w before_p pl h = parent_round-IsTurned root w w.cnt refl pl h
parent_step-IsTurned root w before_first pl h = inl (record {
  value = h.value;
  shape = h.shape;
  share = h.share;
  handle = h.handle;
  joined = h.joined;
  parent_up = cc;
  child_up = h.child_up;
  counted = omega (arith, h.counted, count_f-append w.output (letter_f ∷ []));
  written =
      open-IsWritten w.output (half letter_c w.child) letter_f
        (half-none w.child (omega (arith, h.share))) h.written;
})
parent_step-IsTurned root w before_second pl h = inl (record {
  value = h.value;
  shape = h.shape;
  share = h.share;
  handle = h.handle;
  joined = h.joined;
  parent_up = cc;
  child_up = h.child_up;
  counted = omega (arith, h.counted, count_f-append w.output (letter_f ∷ []));
  written =
      rw (half-none w.child (omega (arith, h.share))) (close-IsWritten w.output letter_f h.written);
})
parent_step-IsTurned root w before_v pl h =
    parent_v-IsTurned w h.value (pv root w.kernel w.fsem sem_v) h (omega (arith, h.share))
      (omega (arith, h.share))
      (rw h.handle (pv-IsUp root w.kernel h.value h.shape (omega (arith, h.share))))
parent_step-IsTurned root w ended pl h = absurd (h.parent_up refl)

pub child_p-IsTurned :
    (w : Writers) (v : ℕ) (r : OpResult)
    → IsShared w.kernel w.fsem w.cnt w.parent w.csem before_p w.output
    → w.child ≡ before_p
    → v + busy w.parent ≡ 1
    → IsDown v r
    → IsTurned (child_p w r)
unfolding child_p
child_p-IsTurned w zero (passed k) h pl share d = absurd d
child_p-IsTurned w zero waits h pl share d = inl (rw pl h)
child_p-IsTurned w zero failed h pl share d = absurd d
child_p-IsTurned w (suc v) (passed k) h pl share d = inl (record {
  value = v;
  shape = d;
  share = omega arith;
  handle = h.handle;
  joined = h.joined;
  parent_up = h.parent_up;
  child_up = cc;
  counted = h.counted;
  written = subst (IsWritten w.output) (open_eq w.parent before_p before_first refl) h.written;
})
child_p-IsTurned w (suc v) waits h pl share d = absurd d
child_p-IsTurned w (suc v) failed h pl share d = absurd d

pub child_v-IsTurned :
    (w : Writers) (v : ℕ) (r : OpResult)
    → IsShared w.kernel w.fsem w.cnt w.parent w.csem before_v w.output
    → v ≡ 0
    → busy w.parent ≡ 0
    → IsUp v r
    → IsTurned (child_v w r)
unfolding child_v
child_v-IsTurned w v (passed k) h z free d = inl (record {
  value = v + 1;
  shape = d;
  share = omega arith;
  handle = h.handle;
  joined = h.joined;
  parent_up = h.parent_up;
  child_up = cc;
  counted = h.counted;
  written = subst (IsWritten w.output) (open_eq w.parent before_v before_p refl) h.written;
})
child_v-IsTurned w v waits h z free d = absurd d
child_v-IsTurned w v failed h z free d = absurd d

pub child_step-IsTurned :
    (root : Bool) (w : Writers) (c : Place)
    → w.child ≡ c
    → IsShared w.kernel w.fsem w.cnt w.parent w.csem c w.output
    → IsTurned (child_step root w 0 c)
unfolding child_step
child_step-IsTurned root w before_p pl h =
    child_p-IsTurned w h.value (pv root w.kernel 0 sem_p) h pl (omega (arith, h.share))
      (pv-IsDown root w.kernel h.value h.shape)
child_step-IsTurned root w before_first pl h =
    let idle = idle_open w.parent before_first (omega (arith, h.share)) in
    inl (record {
      value = h.value;
      shape = h.shape;
      share = h.share;
      handle = h.handle;
      joined = h.joined;
      parent_up = h.parent_up;
      child_up = cc;
      counted = omega (arith, h.counted, count_f-append w.output (letter_c ∷ []));
      written =
          rw (idle_open w.parent before_second (omega (arith, h.share)))
            (open-IsWritten w.output (open_of w.parent before_first) letter_c idle h.written);
    })
child_step-IsTurned root w before_second pl h = inl (record {
  value = h.value;
  shape = h.shape;
  share = h.share;
  handle = h.handle;
  joined = h.joined;
  parent_up = h.parent_up;
  child_up = cc;
  counted = omega (arith, h.counted, count_f-append w.output (letter_c ∷ []));
  written = rw (idle_open w.parent before_v (omega (arith, h.share))) (
      close-IsWritten w.output letter_c (
        subst (IsWritten w.output) (idle_open w.parent before_second (omega (arith, h.share)))
          h.written));
})
child_step-IsTurned root w before_v pl h =
    child_v-IsTurned w h.value (pv root w.kernel 0 sem_v) h (omega (arith, h.share))
      (omega (arith, h.share)) (pv-IsUp root w.kernel h.value h.shape (omega (arith, h.share)))
child_step-IsTurned root w ended pl h = absurd (h.child_up refl)
