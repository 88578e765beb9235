-- ===== src/Semaphore/Pairs.antt =====
-- The output of the two processes of test_03_26/Writer.cc.
use linux_system_learning.Prelude.{
  ℕ, ◌+◌, ◌*◌, ◌≡◌, ◌≤◌, inl, inr, refl, Bool, true, List, [], ◌∷◌, Option, none, some, arith,
  length,
}
use linux_system_learning.Prelude.Int.{pos}
use linux_system_learning.Prelude.Outcome.{Gives, Gives-bind, Gives-map, ◌>>=◌}
use linux_system_learning.Semaphore.{
  Kernel, build_of, build, get_sem, Writers, start_writers, child_build, child_turn, Turn,
  parent_goes, child_goes, writers_turn, writers_run,
}
use linux_system_learning.Semaphore.Letters.{
  IsWritten, count_f, open_of, busy, owed, busy-le, rounds_left, rounds_left_up,
}
use linux_system_learning.Semaphore.Steps.{
  one_set, IsShared, IsOver, IsTurned, parent_step-IsTurned, child_step-IsTurned,
}
use linux_system_learning.Semaphore.Alone.{parent_step-over, child_step-over, build-over}

build-shared :
    (fresh v : ℕ) (k : Kernel) → k ≡ one_set v → build fresh true get_sem (pos 1) k ≡ (some 0, k)
unfolding build
build-shared fresh v k e = rw e refl

some_of :
    (fresh : ℕ) (k : Kernel) (o : Option ℕ)
    → (id : ℕ) × ((build_of fresh get_sem 1 k o).0 ≡ some id)
unfolding build_of
some_of fresh k none = (length k.sets, refl)
some_of fresh k (some id) = (id, refl)

get-some : (fresh : ℕ) (k : Kernel) → (id : ℕ) × ((build fresh true get_sem (pos 1) k).0 ≡ some id)
unfolding build
get-some fresh k = some_of fresh k k.key

the_id : (id : ℕ) → some id ≡ some 0 → id ≡ 0
the_id id e = ground arith

child_turn-shared :
    (fresh : ℕ) (root : Bool) (w : Writers) (csem : Option ℕ)
    → w.csem ≡ csem
    → IsShared w.kernel w.fsem w.cnt w.parent csem w.child w.output
    → Gives IsTurned (child_turn fresh true root w csem)
unfolding child_turn child_build
child_turn-shared fresh root w none e h = rw (build-shared fresh h.value w.kernel h.shape) (
    inl (record {
      value = h.value;
      shape = h.shape;
      share = h.share;
      handle = h.handle;
      joined = inl refl;
      parent_up = h.parent_up;
      child_up = h.child_up;
      counted = h.counted;
      written = h.written;
    }))
child_turn-shared fresh root w (some id) e h = elim h.joined [
  | inl j ↦ rw (the_id id j) (child_step-IsTurned root w w.child refl (rw e h))
  | inr j ↦ cc j
]

child_turn-over :
    (fresh : ℕ) (root : Bool) (w : Writers) (csem : Option ℕ)
    → IsOver w.parent w.child w.output
    → Gives IsTurned (child_turn fresh true root w csem)
unfolding child_turn
child_turn-over fresh root w none h =
    let (id, e) = get-some fresh w.kernel in
    build-over w (build fresh true get_sem (pos 1) w.kernel) id e h
child_turn-over fresh root w (some id) h = child_step-over root w id w.child refl h

turn-IsTurned :
    (fresh : ℕ) (root : Bool) (w : Writers) (t : Turn)
    → IsTurned w
    → Gives IsTurned (writers_turn fresh true root w t)
unfolding writers_turn
turn-IsTurned fresh root w parent_goes (inl h) = parent_step-IsTurned root w w.parent refl h
turn-IsTurned fresh root w parent_goes (inr h) = parent_step-over root w w.parent refl h
turn-IsTurned fresh root w child_goes (inl h) = child_turn-shared fresh root w w.csem refl h
turn-IsTurned fresh root w child_goes (inr h) = child_turn-over fresh root w w.csem h

run-IsTurned :
    (fresh : ℕ) (root : Bool) (w : Writers) (ts : List Turn)
    → IsTurned w
    → Gives IsTurned (writers_run fresh true root w ts)
unfolding writers_run
run-IsTurned fresh root w [] h = h
run-IsTurned fresh root w (t ∷ ts) h =
    Gives-bind IsTurned IsTurned (writers_turn fresh true root w t)
      (λ w'. writers_run fresh true root w' ts) (turn-IsTurned fresh root w t h)
      (λ w' h'. run-IsTurned fresh root w' ts h')

abbrev pub no_sets : Kernel
no_sets = record { sets = []; key = none }

start-IsTurned : (fresh : ℕ) → Gives IsTurned (start_writers fresh true no_sets)
unfolding start_writers
start-IsTurned fresh = inl (record {
  value = 1;
  shape = refl;
  share = refl;
  handle = refl;
  joined = inr refl;
  parent_up = cc;
  child_up = cc;
  counted = refl;
  written = tt;
})

-- What the two processes have printed
abbrev pub ArePairs : Writers → Type 0
ArePairs w =
    IsWritten w.output (open_of w.parent w.child)
    × (count_f w.output + owed w.parent + 2 * rounds_left w.parent w.cnt ≡ 100)
    × (busy w.parent + busy w.child ≤ 1)

IsTurned-ArePairs : (w : Writers) → IsTurned w → ArePairs w
IsTurned-ArePairs w (inl h) = (
  h.written,
  omega (arith, h.counted, rounds_left_up w.parent w.cnt h.parent_up),
  omega (arith, h.share),
)
IsTurned-ArePairs w (inr h) =
    rw h.parent_down (h.left_off, omega (arith, h.all), omega (arith, busy-le w.child))

-- Where ftok and semget succeed and no set is there before: however the parent and the child are interleaved, no pointer
-- is null, at most one of them is between its P and its V, and what they print is pairs of one letter, but for the pair
-- of the one that has printed half of it; with the letters of the rounds that it has left the parent prints 100.
pub writers_run-ArePairs :
    (fresh : ℕ) (root : Bool) (ts : List Turn)
    → Gives ArePairs (start_writers fresh true no_sets >>= λ w. writers_run fresh true root w ts)
writers_run-ArePairs fresh root ts =
    Gives-map IsTurned ArePairs
      (start_writers fresh true no_sets >>= λ w. writers_run fresh true root w ts)
      (Gives-bind IsTurned IsTurned (start_writers fresh true no_sets)
        (λ w. writers_run fresh true root w ts) (start-IsTurned fresh)
        (λ w h. run-IsTurned fresh root w ts h))
      IsTurned-ArePairs
