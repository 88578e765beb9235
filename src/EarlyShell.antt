-- ===== src/EarlyShell.antt =====
-- test_02_13/myshell/myshell.cc: the shell before it had redirections. What reads and splits a line, Cd and Echo have the
-- text of test_02_22/myshell/myshell.cc and are those of `Shell`.
pub mod Same
use linux_system_learning.Prelude.{List, [], ◌∷◌, Option, none, some, if◌then◌else◌}
use linux_system_learning.Prelude.Outcome.{Outcome, returned, undefined, ◌>>=◌}
use linux_system_learning.Text.{Bytes, codes, eqb}
use linux_system_learning.Shell.{
  Shell, World, get_command_line, command_parse, cd, echo, exit_of, pointers,
}

-- Excute, where the wait for the child succeeds
unfoldable pub early_excute : World → Shell → List Bytes → Shell
early_excute w s argv = record s { lastcode = exit_of (w.program argv) }

-- CheckAndExecBuiltin, and Excute for what is not built in
unfoldable pub early_dispatch : World → Shell → List (Option Bytes) → Outcome Shell
unfolding cd echo early_excute
early_dispatch w s [] = undefined
early_dispatch w s (none ∷ args) = undefined
early_dispatch w s (some cmd ∷ args) =
    if eqb cmd (codes "cd")
    then cd w s args
    else if eqb cmd (codes "echo")
    then echo w s args
    else returned (early_excute w s (cmd ∷ pointers args))

unfoldable pub early_line : World → Shell → Option Bytes → Outcome Shell
unfolding command_parse early_dispatch
early_line w s none = returned s
early_line w s (some commandline) = command_parse commandline >>= λ argv. early_dispatch w s argv

-- A round of main's loop, and its rounds
unfoldable pub early_round : World → Shell → Option Bytes → Outcome Shell
unfolding get_command_line early_line
early_round w s input = get_command_line input >>= λ line. early_line w s line

unfoldable pub early_rounds : World → Shell → List (Option Bytes) → Outcome Shell
unfolding early_round
early_rounds w s [] = returned s
early_rounds w s (input ∷ inputs) = early_round w s input >>= λ s'. early_rounds w s' inputs
