-- ===== src/EarlyShell/Same.antt =====
-- The shell of test_02_22/myshell/myshell.cc on lines without operators does what that of test_02_13 does.
use linux_system_learning.Prelude.{
  ℕ, zero, suc, ◌-◌, ◌≡◌, refl, ap, ◌∙◌, List, [], ◌∷◌, Option, none, some, length, All, All-take,
  ◌==◌, if_cases,
}
use linux_system_learning.Prelude.Outcome.{Outcome, ◌>>=◌, bind_eq}
use linux_system_learning.Text.{Bytes, c_str}
use linux_system_learning.Shell.{
  none_redir, Shell, World, command_size, fgets, chomp, get_command_line, command_parse, child,
  dispatch, run_line, round, rounds,
}
use linux_system_learning.Shell.Redirect.{IsPlain, redir_check-none}
use linux_system_learning.EarlyShell.{early_dispatch, early_line, early_round, early_rounds}

dispatch_same :
    (w : World) (s : Shell) (argv : List (Option Bytes))
    → early_dispatch w s argv ≡ dispatch w s none_redir [] argv
unfolding early_dispatch dispatch child
dispatch_same w s [] = refl
dispatch_same w s (none ∷ args) = refl
dispatch_same w s (some cmd ∷ args) = refl

line_same :
    (w : World) (s : Shell) (commandline : Bytes)
    → All IsPlain commandline
    → early_line w s (some commandline) ≡ run_line w s (some commandline)
unfolding early_line run_line
line_same w s commandline h = rw (redir_check-none commandline h) (
    bind_eq (command_parse commandline) (early_dispatch w s) (dispatch w s none_redir [])
      (dispatch_same w s))

c_str-All : (P : ℕ → Type 0) (out : Bytes) → All P out → All P (c_str out)
unfolding c_str
c_str-All P [] h = tt
c_str-All P (c ∷ out) h =
    if_cases (λ (b : Bytes). All P b) (c == 0) (λ e. tt) (λ e. (h.0, c_str-All P out h.1))

fgets-All : (P : ℕ → Type 0) (n : ℕ) (input : Bytes) → All P input → All P (fgets n input)
unfolding fgets
fgets-All P zero input h = tt
fgets-All P (suc n) [] h = tt
fgets-All P (suc n) (c ∷ input) h =
    (h.0, if_cases (λ (b : Bytes). All P b) (c == 10) (λ e. tt) (λ e. fgets-All P n input h.1))

-- What GetCommandLine leaves of a line
abbrev pub IsPlainLine : Option Bytes → Type 0
IsPlainLine none = Unit
IsPlainLine (some line) = All IsPlain line

chomp-IsPlainLine : (out : Bytes) → All IsPlain out → IsPlainLine (chomp out)
unfolding chomp
chomp-IsPlainLine [] h = tt
chomp-IsPlainLine (c ∷ out) h = All-take IsPlain (length out) (c ∷ out) h

chomped_same :
    (w : World) (s : Shell) (line : Option Bytes)
    → IsPlainLine line
    → early_line w s line ≡ run_line w s line
unfolding early_line run_line
chomped_same w s none h = refl
chomped_same w s (some line) h = line_same w s line h

round_same :
    (w : World) (s : Shell) (input : Option Bytes)
    → IsPlainLine input
    → early_round w s input ≡ round w s input
unfolding early_round round get_command_line
round_same w s none h = refl
round_same w s (some input) h =
    let out = fgets (command_size - 1) input in
    chomped_same w s (chomp (c_str out)) (
      chomp-IsPlainLine (c_str out)
        (c_str-All IsPlain out (fgets-All IsPlain (command_size - 1) input h)))

-- On inputs without `<` and `>`, the end of the input included, the shell with redirections prints, changes the directory
-- and keeps exit statuses as the one before it, and is undefined where that is.
pub rounds_same :
    (w : World) (s : Shell) (inputs : List (Option Bytes))
    → All IsPlainLine inputs
    → early_rounds w s inputs ≡ rounds w s inputs
unfolding early_rounds rounds
rounds_same w s [] h = refl
rounds_same w s (input ∷ inputs) h =
    ap (λ (m : Outcome Shell). m >>= λ s'. early_rounds w s' inputs) (round_same w s input h.0)
    ∙ bind_eq (round w s input) (λ s'. early_rounds w s' inputs) (λ s'. rounds w s' inputs)
        (λ s'. rounds_same w s' inputs h.1)
