-- ===== src/Shell/Rounds.antt =====
-- Whole rounds of the loop of main in test_02_22/myshell/myshell.cc.
use linux_system_learning.Prelude.{
  ℕ, zero, suc, ◌-◌, ◌==◌, ◌≡◌, ◌<◌, refl, ap, ◌∙◌, false, List, [], ◌∷◌, ◌++◌, some, arith, length,
  length-append, All, map, take, take-append, lt→ltb, All-append, replicate, ◌≢◌,
}
use linux_system_learning.Prelude.Outcome.{returned, undefined, ◌>>=◌}
use linux_system_learning.Text.{Bytes, codes, eqb, c_str}
use linux_system_learning.Text.Find.{c_str_of_All}
use linux_system_learning.Shell.{
  none_redir, Shell, World, command_size, fgets, chomp, get_command_line, argv_of, max_argv,
  pointers, child, dispatch, run_line, round,
}
use linux_system_learning.Shell.Words.{
  words_of, words_of-append, command_parse-words_of, IsToken, spaced, words_of-spaced,
}
use linux_system_learning.Shell.Redirect.{IsPlain, redir_check-none}

take_line : (line : Bytes) (n : ℕ) → n ≡ length line → take n (line ++ 10 ∷ []) ≡ line
take_line line n e = ap (λ k. take k (line ++ 10 ∷ [])) e ∙ take-append line (10 ∷ [])

chomp-append : (line : Bytes) → chomp (line ++ 10 ∷ []) ≡ some line
unfolding chomp
chomp-append [] = refl
chomp-append (c ∷ line) =
    ap some (
      take_line (c ∷ line) (length (line ++ 10 ∷ [])) (omega (arith, length-append line (10 ∷ []))))

-- A byte of a line: neither zero nor the new line
abbrev pub IsInner : ℕ → Type 0
IsInner c = (c ≢ 0) × ((c == 10) ≡ false)

-- fgets reads a line that has room, with its new line.
fgets-append :
    (n : ℕ) (line rest : Bytes)
    → All IsInner line
    → length line < n
    → fgets n (line ++ 10 ∷ rest) ≡ line ++ 10 ∷ []
unfolding fgets
fgets-append zero line rest h lt = absurd (omega arith)
fgets-append (suc n) [] rest h lt = refl
fgets-append (suc n) (c ∷ line) rest h lt =
    rw (h.0.1) (ap (◌∷◌ c) (fgets-append n line rest h.1 (omega arith)))

inner_bytes : (line : Bytes) → All IsInner line → All (λ c. c ≢ 0) line
inner_bytes [] h = tt
inner_bytes (c ∷ line) h = (h.0.0, inner_bytes line h.1)

get_command_line-append :
    (line rest : Bytes)
    → All IsInner line
    → length line < command_size - 1
    → get_command_line (some (line ++ 10 ∷ rest)) ≡ returned (some line)
unfolding get_command_line
get_command_line-append line rest h lt =
    let text =
      c_str_of_All (line ++ 10 ∷ []) (
        All-append (λ c. c ≢ 0) line (10 ∷ []) (inner_bytes line h)
          ((λ e. omega (arith, e)), tt)) in
    ap (λ t. returned (chomp (c_str t))) (fgets-append (command_size - 1) line rest h lt)
    ∙ ap (λ t. returned (chomp t)) text
    ∙ ap returned (chomp-append line)

-- A line without an operator goes to CommandParse as it is.
run_line_plain :
    (w : World) (s : Shell) (line : Bytes)
    → All IsPlain line
    → run_line w s (some line)
      ≡ (argv_of (words_of line) >>= λ argv. dispatch w s none_redir [] argv)
unfolding run_line
run_line_plain w s line h =
    rw (redir_check-none line h)
      (ap (λ m. m >>= λ argv. dispatch w s none_redir [] argv) (command_parse-words_of line))

round_plain :
    (w : World) (s : Shell) (line rest : Bytes)
    → All IsInner line
    → length line < command_size - 1
    → All IsPlain line
    → round w s (some (line ++ 10 ∷ rest))
      ≡ (argv_of (words_of line) >>= λ argv. dispatch w s none_redir [] argv)
unfolding round
round_plain w s line rest h lt p =
    ap (λ m. m >>= λ l. run_line w s l) (get_command_line-append line rest h lt)
    ∙ run_line_plain w s line p

words_of-replicate : (n : ℕ) → words_of (replicate n b' ') ≡ []
unfolding words_of
words_of-replicate zero = refl
words_of-replicate (suc n) = words_of-replicate n

All-replicate : (P : ℕ → Type 0) (n c : ℕ) → P c → All P (replicate n c)
All-replicate P zero c h = tt
All-replicate P (suc n) c h = (h, All-replicate P n c h)

length-replicate : (n c : ℕ) → length (replicate n c) ≡ n
length-replicate zero c = refl
length-replicate (suc n) c = ap suc (length-replicate n c)

-- A line of fewer than 1023 spaces and nothing else, or an empty one, makes the shell build a string from the null pointer.
pub round_blank :
    (w : World) (s : Shell) (n : ℕ) (rest : Bytes)
    → n < command_size - 1
    → round w s (some (replicate n b' ' ++ 10 ∷ rest)) ≡ undefined
unfolding argv_of dispatch
round_blank w s n rest lt =
    round_plain w s (replicate n b' ') rest
      (All-replicate IsInner n b' ' ((λ e. omega (arith, e)), refl))
      (omega (arith, length-replicate n b' ', lt)) (All-replicate IsPlain n b' ' (refl, refl))
    ∙ ap (λ words. argv_of words >>= λ argv. dispatch w s none_redir [] argv) (words_of-replicate n)

pointers-map : (words : List Bytes) → pointers (map some words) ≡ words
pointers-map [] = refl
pointers-map (word ∷ words) = ap (◌∷◌ word) (pointers-map words)

dispatch_program :
    (w : World) (s : Shell) (cmd : Bytes) (args : List Bytes)
    → eqb cmd (codes "cd") ≡ false
    → eqb cmd (codes "echo") ≡ false
    → length (cmd ∷ args) < max_argv
    → (argv_of (cmd ∷ args) >>= λ argv. dispatch w s none_redir [] argv)
      ≡ returned (record s { lastcode = child w none_redir [] (cmd ∷ args) })
unfolding argv_of dispatch
dispatch_program w s cmd args no_cd no_echo few =
    rw (argv_of, lt→ltb _ _ few, dispatch, no_cd, no_echo, pointers-map args) refl

-- A line of fewer than 1023 bytes and of words, fewer than 128, with a space between two of them, of which the first is
-- neither `cd` nor `echo` and none holds a zero byte, a new line, `<` or `>`, whatever follows the line in the input: the program that the first word names is run with the words as arguments
-- and without redirection, and all that changes is that its exit status is kept.
pub round_words :
    (w : World) (s : Shell) (c : ℕ) (cmd : Bytes) (args : List Bytes) (rest : Bytes)
    → All IsToken ((c ∷ cmd) ∷ args)
    → All IsInner (c ∷ cmd ++ spaced args)
    → length (c ∷ cmd ++ spaced args) < command_size - 1
    → All IsPlain (c ∷ cmd ++ spaced args)
    → length ((c ∷ cmd) ∷ args) < max_argv
    → eqb (c ∷ cmd) (codes "cd") ≡ false
    → eqb (c ∷ cmd) (codes "echo") ≡ false
    → round w s (some ((c ∷ cmd ++ spaced args) ++ 10 ∷ rest))
      ≡ returned (record s { lastcode = child w none_redir [] ((c ∷ cmd) ∷ args) })
round_words w s c cmd args rest tokens h lt p few no_cd no_echo =
    round_plain w s (c ∷ cmd ++ spaced args) rest h lt p
    ∙ ap (λ words. argv_of words >>= λ argv. dispatch w s none_redir [] argv)
        (words_of-append c cmd args tokens.0
          ∙ ap (λ words. (c ∷ cmd) ∷ words) (words_of-spaced args tokens.1))
    ∙ dispatch_program w s (c ∷ cmd) args no_cd no_echo few
