-- ===== src/Tests/Semaphore.antt =====
-- The processes of test_03_26/Writer.cc at small inputs.
use linux_system_learning.Prelude.{◌≡◌, refl, true, List, [], ◌∷◌, some, none}
use linux_system_learning.Prelude.Int.{pos, negsuc}
use linux_system_learning.Prelude.Outcome.{Gives, ◌>>=◌}
use linux_system_learning.Semaphore.{
  build, build_of, new_set, init_set, with_value, build_sem, start_writers, before_p, ended,
  letter_f, Writers, Turn, parent_goes, child_goes, writers_run,
}
use linux_system_learning.Semaphore.Pairs.{no_sets, ArePairs, writers_run-ArePairs}
use linux_system_learning.Semaphore.Orphan.{orphan_waits}

-- The parent passes P, the child builds and waits, and goes on behind the parent's V.
abbrev eight_turns : List Turn
eight_turns =
    parent_goes ∷ child_goes ∷ child_goes ∷ parent_goes ∷ parent_goes ∷ parent_goes ∷ child_goes
    ∷ child_goes ∷ []

writers_run-ArePairs_example :
    Gives ArePairs (start_writers 0 true no_sets >>= λ w. writers_run 0 true true w eight_turns)
writers_run-ArePairs_example = writers_run-ArePairs 0 true eight_turns

abbrev late_child : Writers
late_child = record {
  kernel = record { sets = none ∷ []; key = none };
  fsem = 0;
  cnt = 0;
  parent = ended;
  csem = none;
  child = before_p;
  output = letter_f ∷ letter_f ∷ [];
}

orphan_waits_example :
    Gives
      (λ w. (w.child ≡ before_p) × (w.output ≡ letter_f ∷ letter_f ∷ []))
      (writers_run 0 true true late_child (child_goes ∷ child_goes ∷ []))
orphan_waits_example = orphan_waits late_child (child_goes ∷ child_goes ∷ []) refl refl refl refl

negative_value : (build 0 true build_sem (negsuc 0) no_sets).0 ≡ none
unfolding build
negative_value = refl

built_twice : (build 0 true build_sem (pos 1) (build 0 true build_sem (pos 1) no_sets).1).0 ≡ none
unfolding build build_of new_set init_set with_value
built_twice = refl

-- A value that is too large is not set, and Build gives the semaphore out as it is.
too_large :
    build 0 true build_sem (pos 40000) no_sets
    ≡ (some 0, record { sets = some (record { value = 0; permitted = true }) ∷ []; key = some 0 })
unfolding build build_of new_set init_set
too_large = refl
