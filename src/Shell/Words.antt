-- ===== src/Shell/Words.antt =====
-- The words that CommandParse of test_02_22/myshell/myshell.cc makes of a line.
use linux_system_learning.Prelude.{
  ℕ, zero, suc, ◌≡◌, ◌<◌, ◌≤◌, refl, ap, sym, ◌∙◌, Bool, true, false, not, List, [], ◌∷◌, ◌++◌,
  arith, length, ◌==◌, if◌then◌else◌, All, if_cases,
}
use linux_system_learning.Prelude.Outcome.{returned, ◌>>=◌}
use linux_system_learning.Text.{Bytes}
use linux_system_learning.Shell.{
  skip_sep, token_front, token_back, strtok, tokens, argv_of, command_parse,
}

-- The words of a line, by recursion on its bytes: a byte that is no space goes in front of the first word of the rest
-- if the next byte is no space either, and is a word of its own otherwise.
abbrev pub in_word : Bytes → Bool
in_word [] = false
in_word (c ∷ s) = not (c == b' ')

abbrev pub put_front : ℕ → Bool → List Bytes → List Bytes
put_front c true (word ∷ words) = (c ∷ word) ∷ words
put_front c _ words = (c ∷ []) ∷ words

unfoldable pub words_of : Bytes → List Bytes
words_of [] = []
words_of (c ∷ s) = let rest = words_of s in if c == b' ' then rest else put_front c (in_word s) rest

words_of-skip_sep : (s : Bytes) → words_of (skip_sep s) ≡ words_of s
unfolding words_of skip_sep
words_of-skip_sep [] = refl
words_of-skip_sep (c ∷ s) = ground (arith, words_of-skip_sep s)

words_of_token :
    (c : ℕ) (s : Bytes)
    → (c == b' ') ≡ false
    → words_of (c ∷ s) ≡ token_front (c ∷ s) ∷ words_of (token_back (c ∷ s))
unfolding words_of token_front token_back
words_of_token c [] h = ground arith
words_of_token c (d ∷ s) h = ground (arith, words_of_token d s)

length-token_back : (s : Bytes) → length (token_back s) ≤ length s
unfolding token_back
length-token_back [] = omega arith
length-token_back (c ∷ s) = ground (arith, length-token_back s)

length-skip_sep : (s : Bytes) → length (skip_sep s) ≤ length s
unfolding skip_sep
length-skip_sep [] = omega arith
length-skip_sep (c ∷ s) = ground (arith, length-skip_sep s)

-- A word is taken off with a byte at least.
token_back_shorter :
    (c : ℕ) (s : Bytes) → (c == b' ') ≡ false → length (token_back (c ∷ s)) ≤ length s
unfolding token_back
token_back_shorter c s h = ground (arith, length-token_back s)

abbrev StartsWord : Bytes → Type 0
StartsWord [] = Unit
StartsWord (c ∷ s) = (c == b' ') ≡ false

skip_sep-StartsWord : (s : Bytes) → StartsWord (skip_sep s)
unfolding skip_sep
skip_sep-StartsWord [] = tt
skip_sep-StartsWord (c ∷ s) =
    if_cases StartsWord (c == b' ') (λ blank. skip_sep-StartsWord s) (λ word. word)

tokens_at :
    (f : ℕ) (s r : Bytes)
    → skip_sep s ≡ r
    → StartsWord r
    → ((s' : Bytes) → length s' < f → tokens f s' ≡ returned (words_of s'))
    → length s < suc f
    → tokens (suc f) s ≡ returned (words_of s)
unfolding tokens strtok words_of
tokens_at f s [] e w ih le =
    rw (tokens, e) (ap returned (sym (ap words_of e) ∙ words_of-skip_sep s))
tokens_at f s (c ∷ r) e w ih le =
    rw
      (
        tokens,
        e,
        ih (token_back (c ∷ r))
            (omega (arith, token_back_shorter c r w, length-skip_sep s, ap length e)),
      )
      (ap returned (sym (words_of_token c r w) ∙ sym (ap words_of e) ∙ words_of-skip_sep s))

tokens-words_of : (f : ℕ) (s : Bytes) → length s < f → tokens f s ≡ returned (words_of s)
tokens-words_of zero s h = absurd (omega arith)
tokens-words_of (suc f) s h =
    tokens_at f s (skip_sep s) refl (skip_sep-StartsWord s) (tokens-words_of f) h

-- CommandParse ends on every line. On one with a word, and with fewer words than `g_argv` has entries, it finds the words
-- of the line; on a line without a word it leaves a null pointer as the command and reports success; with
-- more words it writes behind `g_argv`.
pub command_parse-words_of : (s : Bytes) → command_parse s ≡ argv_of (words_of s)
unfolding command_parse
command_parse-words_of s =
    ap (λ m. m >>= argv_of) (tokens-words_of (suc (length s)) s (omega arith))

-- A word holds a byte, and no space.
abbrev pub IsToken : Bytes → Type 0
IsToken [] = ⊥
IsToken (c ∷ s) = All (λ d. (d == b' ') ≡ false) (c ∷ s)

-- Words with a space in front of each
abbrev pub spaced : List Bytes → Bytes
spaced [] = []
spaced (word ∷ words) = b' ' ∷ (word ++ spaced words)

pub words_of-append :
    (c : ℕ) (word : Bytes) (rest : List Bytes)
    → All (λ d. (d == b' ') ≡ false) (c ∷ word)
    → words_of (c ∷ word ++ spaced rest) ≡ (c ∷ word) ∷ words_of (spaced rest)
unfolding words_of
words_of-append c [] [] h = ground arith
words_of-append c [] (w ∷ ws) h = ground arith
words_of-append c (d ∷ word) rest h = ground (arith, words_of-append d word rest h.1)

pub words_of-spaced : (words : List Bytes) → All IsToken words → words_of (spaced words) ≡ words
unfolding words_of
words_of-spaced [] h = refl
words_of-spaced ([] ∷ words) h = absurd h.0
words_of-spaced ((c ∷ word) ∷ words) h =
    words_of-append c word words h.0 ∙ ap (λ ws. (c ∷ word) ∷ ws) (words_of-spaced words h.1)
