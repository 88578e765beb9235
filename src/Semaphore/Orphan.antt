-- ===== src/Semaphore/Orphan.antt =====
-- The child of test_03_26/Writer.cc that builds its semaphore when its parent has ended.
use linux_system_learning.Prelude.{
  ℕ, ◌≡◌, ◌⊎◌, inl, inr, refl, true, false, List, [], ◌∷◌, ◌++◌, Option, none, some, length,
  get_elem?, ap, subst, arith,
}
use linux_system_learning.Prelude.Int.{pos}
use linux_system_learning.Prelude.Outcome.{Gives, Gives-bind, Gives-map}
use linux_system_learning.Semaphore.{
  Kernel, set_of_id, sem_p, pv, sem_on, sem_change, sem_down, waits, build, build_of, new_set,
  get_sem, Letter, Place, before_p, before_first, before_second, before_v, ended, Writers,
  parent_step, child_step, child_p, child_build, child_turn, Turn, parent_goes, child_goes,
  writers_turn, writers_run,
}

-- Nothing more is printed, and the child stands in front of its P, with no semaphore or with one of value 0.
record IsStill (out : List Letter) (w : Writers) : Type 0 where
  parent_down : w.parent ≡ ended
  child_waits : w.child ≡ before_p
  same : w.output ≡ out
  handle :
      (w.csem ≡ none) × (w.kernel.key ≡ none)
      ⊎ (id : ℕ) × (w.csem ≡ some id)
        × (set_of_id w.kernel id ≡ some (record { value = 0; permitted = false }))

get_elem?-length {ℓ} :
    {A : Type ℓ} (xs : List A) (x : A) → get_elem? (xs ++ x ∷ []) (length xs) ≡ some x
get_elem?-length [] x = refl
get_elem?-length (y ∷ xs) x = get_elem?-length xs x

new_set-value :
    (k : Kernel)
    → set_of_id (new_set 0 false k) (length k.sets) ≡ some (record { value = 0; permitted = false })
unfolding new_set
new_set-value k =
    rw (set_of_id, get_elem?-length k.sets (some (record { value = 0; permitted = false }))) refl

build-new :
    (k : Kernel)
    → k.key ≡ none
    → build 0 true get_sem (pos 1) k ≡ (some (length k.sets), new_set 0 false k)
unfolding build build_of
build-new k e = ap (build_of 0 get_sem 1 k) e

pv-waits :
    (k : Kernel) (id : ℕ)
    → set_of_id k id ≡ some (record { value = 0; permitted = false })
    → pv true k id sem_p ≡ waits
unfolding pv sem_on sem_change sem_down
pv-waits k id e = ap (sem_on true k id sem_p) e

parent-IsStill :
    (out : List Letter) (w : Writers) (p : Place)
    → p ≡ ended
    → IsStill out w
    → IsStill out (parent_step true w p)
unfolding parent_step
parent-IsStill out w before_p e h = cc
parent-IsStill out w before_first e h = cc
parent-IsStill out w before_second e h = cc
parent-IsStill out w before_v e h = cc
parent-IsStill out w ended e h = h

child-IsStill :
    (out : List Letter) (w : Writers) (id : ℕ) (c : Place)
    → c ≡ before_p
    → set_of_id w.kernel id ≡ some (record { value = 0; permitted = false })
    → IsStill out w
    → IsStill out (child_step true w id c)
unfolding child_step child_p
child-IsStill out w id before_p e v h = rw (pv-waits w.kernel id v) h
child-IsStill out w id before_first e v h = cc
child-IsStill out w id before_second e v h = cc
child-IsStill out w id before_v e v h = cc
child-IsStill out w id ended e v h = cc

turn_child-IsStill :
    (out : List Letter) (w : Writers) (csem : Option ℕ)
    → w.csem ≡ csem
    → IsStill out w
    → Gives (IsStill out) (child_turn 0 true true w csem)
unfolding child_turn child_build
turn_child-IsStill out w none e h = elim h.handle [
  | inl b ↦ rw (build-new w.kernel b.1) (record {
    parent_down = h.parent_down;
    child_waits = h.child_waits;
    same = h.same;
    handle = inr (length w.kernel.sets, refl, new_set-value w.kernel);
  })
  | inr b ↦ cc (b.1)
]
turn_child-IsStill out w (some id) e h = elim h.handle [
  | inl b ↦ cc (b.0)
  | inr b ↦
      child-IsStill out w id w.child h.child_waits
        (subst (λ (n : ℕ). set_of_id w.kernel n ≡ some (record { value = 0; permitted = false }))
          (ground (arith, b.1)) b.2)
        h
]

turn-IsStill :
    (out : List Letter) (w : Writers) (t : Turn)
    → IsStill out w
    → Gives (IsStill out) (writers_turn 0 true true w t)
unfolding writers_turn
turn-IsStill out w parent_goes h = parent-IsStill out w w.parent h.parent_down h
turn-IsStill out w child_goes h = turn_child-IsStill out w w.csem refl h

runs-IsStill :
    (out : List Letter) (w : Writers) (ts : List Turn)
    → IsStill out w
    → Gives (IsStill out) (writers_run 0 true true w ts)
unfolding writers_run
runs-IsStill out w [] h = h
runs-IsStill out w (t ∷ ts) h =
    Gives-bind (IsStill out) (IsStill out) (writers_turn 0 true true w t)
      (λ w'. writers_run 0 true true w' ts) (turn-IsStill out w t h)
      (λ w' h'. runs-IsStill out w' ts h')

-- If the program runs as root, to whom the permissions of a set do not apply, and the parent has ended and removed its set
-- before the child calls Build, the child makes a set that nobody gives a value. Where a new set has the value 0, the
-- child waits in its first P for ever and prints nothing.
pub orphan_waits :
    (w : Writers) (ts : List Turn)
    → w.parent ≡ ended
    → w.kernel.key ≡ none
    → w.csem ≡ none
    → w.child ≡ before_p
    → Gives (λ w'. (w'.child ≡ before_p) × (w'.output ≡ w.output)) (writers_run 0 true true w ts)
orphan_waits w ts e k c p =
    Gives-map (IsStill w.output) (λ w'. (w'.child ≡ before_p) × (w'.output ≡ w.output))
      (writers_run 0 true true w ts)
      (runs-IsStill w.output w ts
        (record { parent_down = e; child_waits = p; same = refl; handle = inl (c, k) }))
      (λ w' h. (h.child_waits, h.same))
