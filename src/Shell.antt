-- ===== src/Shell.antt =====
-- test_02_22/myshell/myshell.cc: a round of the loop of main, from the line that was read to the status of the child.
pub mod Words
pub mod Redirect
pub mod Rounds
use linux_system_learning.Prelude.{
  ℕ, zero, suc, ◌+◌, ◌-◌, Bool, true, false, ◌&&◌, List, [], ◌∷◌, ◌++◌, Option, none, some, ltb,
  ◌==◌, if◌then◌else◌, take, drop, length, get_or, map,
}
use linux_system_learning.Prelude.Outcome.{Outcome, returned, undefined, unfinished, ◌>>=◌}
use linux_system_learning.Text.{Bytes, codes, eqb, c_str, skip_spaces, to_string}

-- `redir`
pub data Redir : Type 0 where
  none_redir input_redir output_redir append_redir : Redir

-- The global data that a round uses; `said` and `dirs` record what was printed and the calls of chdir, the latest first.
pub record Shell : Type 0 where
  pub lastcode : ℕ
  pub said : List Bytes
  pub dirs : List Bytes

-- The environment, which files open with which flags, and the exit status of a program; `none` where execvp fails.
pub record World : Type 0 where
  pub env : Bytes → Option Bytes
  pub opens : Redir → Bytes → Bool
  pub program : List Bytes → Option ℕ

-- InitEnv: `g_env` has 100 entries, and one more string and the end go behind those of `environ`.
abbrev pub max_envs : ℕ
max_envs = 100

unfoldable pub init_env : List Bytes → Outcome (List Bytes)
init_env environ =
    if ltb max_envs (length environ + 2)
    then undefined
    else returned (environ ++ codes "HAA=for_tset" ∷ [])

-- DirName, and MakeCommandLine for what the calls for the user, the host and the directory gave
unfoldable pub after_slash : Bytes → Option Bytes
after_slash [] = none
after_slash (c ∷ s) = elim (after_slash s) [
  | some dir ↦ some dir
  | none ↦ if c == b'/' then some s else none
]

abbrev pub or_bug : Option Bytes → Bytes
or_bug none = codes "Bug"
or_bug (some dir) = dir

unfoldable pub dir_name : Bytes → Bytes
unfolding after_slash
dir_name dir = if eqb dir (codes "/") then codes "/" else or_bug (after_slash dir)

abbrev pub command_size : ℕ
command_size = 1024

unfoldable pub make_command_line : Bytes → Bytes → Bytes → Bytes
unfolding dir_name
make_command_line user host pwd =
    take (command_size - 1) (b'[' ∷ user ++ b'@' ∷ host ++ b' ' ∷ dir_name pwd ++ codes "]# ")

-- fgets with room for so many bytes and the zero byte behind them: up to the first new line, which it keeps, and no
-- more than there is room for. What it does not read stays in the input.
unfoldable pub fgets : ℕ → Bytes → Bytes
fgets zero input = []
fgets (suc n) [] = []
fgets (suc n) (c ∷ input) = let rest = fgets n input in c ∷ (if c == 10 then [] else rest)

-- GetCommandLine, on what stands in the input: at its end, `none`, it says that there is a line, and main goes on with
-- an array that was never written. A `none` given back is false.
unfoldable pub chomp : Bytes → Option Bytes
chomp [] = none
chomp (c ∷ s) = some (take (length s) (c ∷ s))

unfoldable pub get_command_line : Option Bytes → Outcome (Option Bytes)
unfolding chomp fgets
get_command_line none = undefined
get_command_line (some input) = returned (chomp (c_str (fgets (command_size - 1) input)))

-- strtok with " " on what is left of the line: the bytes up to the next space, and what follows that space
unfoldable pub skip_sep : Bytes → Bytes
skip_sep [] = []
skip_sep (c ∷ s) = let rest = skip_sep s in if c == b' ' then rest else c ∷ s

unfoldable pub token_front : Bytes → Bytes
token_front [] = []
token_front (c ∷ s) = let rest = token_front s in if c == b' ' then [] else c ∷ rest

unfoldable pub token_back : Bytes → Bytes
token_back [] = []
token_back (c ∷ s) = let rest = token_back s in if c == b' ' then s else rest

unfoldable pub strtok : Bytes → Option (Bytes × Bytes)
strtok [] = none
strtok (c ∷ s) = some (token_front (c ∷ s), token_back (c ∷ s))

-- The calls of strtok up to the null pointer, on fuel
unfoldable pub tokens : ℕ → Bytes → Outcome (List Bytes)
unfolding strtok skip_sep token_front token_back
tokens zero s = unfinished
tokens (suc f) s = elim (strtok (skip_sep s)) [
  | none ↦ returned []
  | some (token, rest) ↦ tokens f rest >>= λ others. returned (token ∷ others)
]

-- `g_argv` has 128 entries, and a null pointer goes behind the words. Without a word the first entry is the null
-- pointer, `g_argc` is 1, and the result is true.
abbrev pub max_argv : ℕ
max_argv = 128

unfoldable pub argv_of : List Bytes → Outcome (List (Option Bytes))
argv_of [] = returned (none ∷ [])
argv_of (word ∷ words) =
    if ltb (length (word ∷ words)) max_argv then returned (map some (word ∷ words)) else undefined

unfoldable pub command_parse : Bytes → Outcome (List (Option Bytes))
unfolding tokens argv_of
command_parse commandline = tokens (suc (length commandline)) commandline >>= argv_of

-- The body of RedirCheck's loop at a `>`, and the loop down from `end`: the command that is left, the kind, the file.
-- At index 0 the byte in front of the array is read.
unfoldable pub redir_out : Bytes → ℕ → Outcome (Bytes × Redir × Bytes)
redir_out cmd zero = undefined
redir_out cmd (suc p) =
    let filename = skip_spaces (drop (p + 2) cmd) in
    if get_or cmd p 0 == b'>'
    then returned (take p cmd, append_redir, filename)
    else returned (take (suc p) cmd, output_redir, filename)

unfoldable pub redir_from : Bytes → ℕ → Outcome (Bytes × Redir × Bytes)
unfolding redir_out
redir_from cmd zero = returned (cmd, none_redir, [])
redir_from cmd (suc end) =
    let rest = redir_from cmd end in
    if get_or cmd end 0 == b'<'
    then returned (take end cmd, input_redir, skip_spaces (drop (end + 1) cmd))
    else if get_or cmd end 0 == b'>'
    then redir_out cmd end
    else rest

unfoldable pub redir_check : Bytes → Outcome (Bytes × Redir × Bytes)
unfolding redir_from
redir_check cmd = redir_from cmd (length cmd)

-- Cd and Echo, on `g_argv` from index 1 on: a string made of the null pointer is undefined.
abbrev pub home_of : Option Bytes → Bytes
home_of none = []
home_of (some home) = home

abbrev pub chdir_to : Shell → Bytes → Shell
chdir_to s [] = s
chdir_to s (c ∷ path) = record s { dirs = (c ∷ path) ∷ s.dirs }

unfoldable pub cd : World → Shell → List (Option Bytes) → Outcome Shell
cd w s [] = returned (chdir_to s (home_of (w.env (codes "HOME"))))
cd w s (none ∷ args) = undefined
cd w s (some path ∷ args) = returned (record s { dirs = path ∷ s.dirs })

abbrev pub say_value : Shell → Option Bytes → Shell
say_value s none = s
say_value s (some value) = record s { said = value ∷ s.said }

unfoldable pub echo_word : World → Shell → Bytes → Shell
echo_word w s [] = record s { said = [] ∷ s.said }
echo_word w s (c ∷ opt) =
    if eqb (c ∷ opt) (codes "$?")
    then record s { said = to_string s.lastcode ∷ s.said; lastcode = 0 }
    else if c == b'$'
    then say_value s (w.env opt)
    else record s { said = (c ∷ opt) ∷ s.said }

unfoldable pub echo : World → Shell → List (Option Bytes) → Outcome Shell
unfolding echo_word
echo w s (some opt ∷ args) = returned (echo_word w s opt)
echo w s (none ∷ args) = undefined
echo w s [] = undefined

-- The exit status of Excute's child
abbrev pub exit_of : Option ℕ → ℕ
exit_of none = 1
exit_of (some code) = code

unfoldable pub child : World → Redir → Bytes → List Bytes → ℕ
child w none_redir filename argv = exit_of (w.program argv)
child w input_redir filename argv =
    if w.opens input_redir filename then exit_of (w.program argv) else 1
child w output_redir filename argv =
    if w.opens output_redir filename then exit_of (w.program argv) else 2
child w append_redir filename argv =
    if w.opens append_redir filename then exit_of (w.program argv) else 3

abbrev pub pointers : List (Option Bytes) → List Bytes
pointers [] = []
pointers (none ∷ argv) = []
pointers (some word ∷ argv) = word ∷ pointers argv

-- CheckAndExecBuiltin, and Excute where the wait for the child succeeds
unfoldable pub dispatch : World → Shell → Redir → Bytes → List (Option Bytes) → Outcome Shell
unfolding cd echo child
dispatch w s redir filename [] = undefined
dispatch w s redir filename (none ∷ args) = undefined
dispatch w s redir filename (some cmd ∷ args) =
    if eqb cmd (codes "cd")
    then cd w s args
    else if eqb cmd (codes "echo")
    then echo w s args
    else returned (record s { lastcode = child w redir filename (cmd ∷ pointers args) })

unfoldable pub run_line : World → Shell → Option Bytes → Outcome Shell
unfolding redir_check command_parse dispatch
run_line w s none = returned s
run_line w s (some commandline) =
    redir_check commandline >>= λ r. command_parse r.0 >>= λ argv. dispatch w s r.1 r.2 argv

-- A round of main's loop
unfoldable pub round : World → Shell → Option Bytes → Outcome Shell
unfolding get_command_line run_line
round w s input = get_command_line input >>= λ line. run_line w s line

-- Its rounds, with what stands in the input in front of each
unfoldable pub rounds : World → Shell → List (Option Bytes) → Outcome Shell
unfolding round
rounds w s [] = returned s
rounds w s (input ∷ inputs) = round w s input >>= λ s'. rounds w s' inputs
