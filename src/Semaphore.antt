-- ===== src/Semaphore.antt =====
-- test_03_26: Sem.hpp, the System V semaphore and its builder, and Writer.cc, where a parent and a child print letters in
-- pairs between P and V. `fresh` is the value of a set that nobody initialised, `root` whether a process may use a set
-- without permission bits, `ok` whether ftok and the limits of the system let semget succeed.
pub mod Letters
pub mod Steps
pub mod Alone
pub mod Pairs
pub mod Orphan
use linux_system_learning.Prelude.{
  ℕ, zero, suc, ◌+◌, ◌||◌, Bool, true, false, List, [], ◌∷◌, ◌++◌, Option, none, some, length,
  get_elem?, set, ltb, if◌then◌else◌,
}
use linux_system_learning.Prelude.Int.{ℤ, pos, negsuc}
use linux_system_learning.Prelude.Outcome.{Outcome, returned, undefined, ◌>>=◌}

-- A set of one semaphore, and whether its permission bits are 0666
pub record SemSet : Type 0 where
  pub value : ℕ
  pub permitted : Bool

-- The sets by their id, a removed one as `none`, and the set that the key names
pub record Kernel : Type 0 where
  pub sets : List (Option SemSet)
  pub key : Option ℕ

pub data Flag : Type 0 where
  get_sem : Flag
  build_sem : Flag

pub data SemOp : Type 0 where
  sem_p : SemOp
  sem_v : SemOp

pub data OpResult : Type 0 where
  passed : Kernel → OpResult
  waits : OpResult
  failed : OpResult

-- The largest value of a semaphore
abbrev pub semvmx : ℕ
semvmx = 32767

abbrev pub set_of_id : Kernel → ℕ → Option SemSet
set_of_id k id = elim (get_elem? k.sets id) [ none ↦ none | some o ↦ o ]

unfoldable pub with_value : Kernel → ℕ → SemSet → ℕ → Kernel
with_value k id s v = record k { sets = set k.sets id (some (record s { value = v })) }

-- semop
unfoldable pub sem_down : Kernel → ℕ → SemSet → ℕ → OpResult
unfolding with_value
sem_down k id s zero = waits
sem_down k id s (suc v) = passed (with_value k id s v)

unfoldable pub sem_up : Kernel → ℕ → SemSet → OpResult
unfolding with_value
sem_up k id s = if ltb s.value semvmx then passed (with_value k id s (s.value + 1)) else failed

unfoldable pub sem_change : Kernel → ℕ → SemSet → SemOp → OpResult
unfolding sem_down sem_up
sem_change k id s sem_p = sem_down k id s s.value
sem_change k id s sem_v = sem_up k id s

unfoldable pub sem_on : Bool → Kernel → ℕ → SemOp → Option SemSet → OpResult
unfolding sem_change
sem_on root k id op none = failed
sem_on root k id op (some s) = if s.permitted || root then sem_change k id s op else failed

unfoldable pub pv : Bool → Kernel → ℕ → SemOp → OpResult
unfolding sem_on
pv root k id op = sem_on root k id op (set_of_id k id)

-- ~Semaphore
unfoldable pub remove_set : Kernel → ℕ → Kernel
remove_set k id = record k { sets = set k.sets id none; key = none }

-- semget
unfoldable pub new_set : ℕ → Bool → Kernel → Kernel
new_set fresh permitted k = record k {
  sets = k.sets ++ some (record { value = fresh; permitted = permitted }) ∷ [];
  key = some (length k.sets);
}

-- Init: what it returns is not looked at.
unfoldable pub init_set : Kernel → ℕ → SemSet → ℕ → Kernel
unfolding with_value
init_set k id s val = if ltb semvmx val then k else with_value k id s val

unfoldable pub build_of : ℕ → Flag → ℕ → Kernel → Option ℕ → Option ℕ × Kernel
unfolding new_set init_set
build_of fresh get_sem val k (some id) = (some id, k)
build_of fresh get_sem val k none = (some (length k.sets), new_set fresh false k)
build_of fresh build_sem val k (some id) = (none, k)
build_of fresh build_sem val k none = (
  some (length k.sets),
  init_set (new_set fresh true k) (length k.sets) (record { value = fresh; permitted = true }) val,
)

-- SemaphoreBuilder::Build, the value that SetVal left given
unfoldable pub build : ℕ → Bool → Flag → ℤ → Kernel → Option ℕ × Kernel
unfolding build_of
build fresh ok flag (negsuc n) k = (none, k)
build fresh ok flag (pos val) k = if ok then build_of fresh flag val k k.key else (none, k)

pub data Letter : Type 0 where
  letter_c : Letter
  letter_f : Letter

-- Where a process stands: before P, before the first and the second printf, before V, or it has ended.
pub data Place : Type 0 where
  before_p : Place
  before_first : Place
  before_second : Place
  before_v : Place
  ended : Place

pub record Writers : Type 0 where
  pub kernel : Kernel
  pub fsem : ℕ
  pub cnt : ℕ
  pub parent : Place
  pub csem : Option ℕ
  pub child : Place
  pub output : List Letter

-- main, up to the fork. A null pointer makes the first P undefined.
unfoldable pub forked : Option ℕ × Kernel → Outcome Writers
forked (none, k) = undefined
forked (some id, k) = returned (record {
  kernel = k;
  fsem = id;
  cnt = 50;
  parent = before_p;
  csem = none;
  child = before_p;
  output = [];
})

unfoldable pub start_writers : ℕ → Bool → Kernel → Outcome Writers
unfolding forked build
start_writers fresh ok k = forked (build fresh ok build_sem (pos 1) k)

-- P: a process whose semop fails exits.
unfoldable pub parent_p : Writers → ℕ → OpResult → Writers
parent_p w rest (passed k) = record w { kernel = k; cnt = rest; parent = before_first }
parent_p w rest waits = w
parent_p w rest failed = record w { parent = ended }

unfoldable pub parent_v : Writers → OpResult → Writers
parent_v w (passed k) = record w { kernel = k; parent = before_p }
parent_v w waits = w
parent_v w failed = record w { parent = ended }

-- The test of the loop and P; after the last round the destructor of fsem removes the set.
unfoldable pub parent_round : Bool → Writers → ℕ → Writers
unfolding parent_p pv remove_set
parent_round root w zero = record w { kernel = remove_set w.kernel w.fsem; parent = ended }
parent_round root w (suc rest) = parent_p w rest (pv root w.kernel w.fsem sem_p)

unfoldable pub parent_step : Bool → Writers → Place → Writers
unfolding parent_round parent_v
parent_step root w before_p = parent_round root w w.cnt
parent_step root w before_first = record w {
  parent = before_second;
  output = w.output ++ letter_f ∷ [];
}
parent_step root w before_second = record w {
  parent = before_v;
  output = w.output ++ letter_f ∷ [];
}
parent_step root w before_v = parent_v w (pv root w.kernel w.fsem sem_v)
parent_step root w ended = w

unfoldable pub child_build : Writers → Option ℕ × Kernel → Outcome Writers
child_build w (none, k) = undefined
child_build w (some id, k) = returned (record w { kernel = k; csem = some id })

unfoldable pub child_p : Writers → OpResult → Writers
child_p w (passed k) = record w { kernel = k; child = before_first }
child_p w waits = w
child_p w failed = record w { child = ended }

unfoldable pub child_v : Writers → OpResult → Writers
child_v w (passed k) = record w { kernel = k; child = before_p }
child_v w waits = w
child_v w failed = record w { child = ended }

unfoldable pub child_step : Bool → Writers → ℕ → Place → Writers
unfolding child_p child_v pv
child_step root w id before_p = child_p w (pv root w.kernel id sem_p)
child_step root w id before_first = record w {
  child = before_second;
  output = w.output ++ letter_c ∷ [];
}
child_step root w id before_second = record w {
  child = before_v;
  output = w.output ++ letter_c ∷ [];
}
child_step root w id before_v = child_v w (pv root w.kernel id sem_v)
child_step root w id ended = w

-- A statement of the child: its Build comes first.
unfoldable pub child_turn : ℕ → Bool → Bool → Writers → Option ℕ → Outcome Writers
unfolding child_step child_build build
child_turn fresh ok root w none = child_build w (build fresh ok get_sem (pos 1) w.kernel)
child_turn fresh ok root w (some id) = returned (child_step root w id w.child)

-- Which process goes on
pub data Turn : Type 0 where
  parent_goes : Turn
  child_goes : Turn

unfoldable pub writers_turn : ℕ → Bool → Bool → Writers → Turn → Outcome Writers
unfolding parent_step child_turn
writers_turn fresh ok root w parent_goes = returned (parent_step root w w.parent)
writers_turn fresh ok root w child_goes = child_turn fresh ok root w w.csem

unfoldable pub writers_run : ℕ → Bool → Bool → Writers → List Turn → Outcome Writers
unfolding writers_turn
writers_run fresh ok root w [] = returned w
writers_run fresh ok root w (t ∷ ts) =
    writers_turn fresh ok root w t >>= λ w'. writers_run fresh ok root w' ts
