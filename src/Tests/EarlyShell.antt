-- ===== src/Tests/EarlyShell.antt =====
-- The shell of test_02_13/myshell/myshell.cc at a small input.
use linux_system_learning.Prelude.{◌≡◌, refl, true, [], ◌∷◌, some, none}
use linux_system_learning.Text.{codes}
use linux_system_learning.Shell.{Shell, World, rounds}
use linux_system_learning.EarlyShell.{early_rounds}
use linux_system_learning.EarlyShell.Same.{rounds_same}

abbrev small_world : World
small_world = record { env = λ name. none; opens = λ kind name. true; program = λ argv. some 3 }

abbrev idle_shell : Shell
idle_shell = record { lastcode = 0; said = []; dirs = [] }

rounds_same_example :
    early_rounds small_world idle_shell (some (codes "ls -l\n") ∷ some (codes "echo $?\n") ∷ [])
    ≡ rounds small_world idle_shell (some (codes "ls -l\n") ∷ some (codes "echo $?\n") ∷ [])
rounds_same_example =
    rounds_same small_world idle_shell (some (codes "ls -l\n") ∷ some (codes "echo $?\n") ∷ []) (
      (
        (refl, refl),
        ((refl, refl), ((refl, refl), ((refl, refl), ((refl, refl), ((refl, refl), tt))))),
      ),
      (
        (
          (refl, refl),
          (
            (refl, refl),
            (
              (refl, refl),
              ((refl, refl), ((refl, refl), ((refl, refl), ((refl, refl), ((refl, refl), tt))))),
            ),
          ),
        ),
        tt,
      ),
    )
