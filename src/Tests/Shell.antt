-- ===== src/Tests/Shell.antt =====
-- The shell at single lines.
use linux_system_learning.Prelude.{◌≡◌, refl, true, [], ◌∷◌, ◌++◌, none, some, arith, length, All}
use linux_system_learning.Prelude.Outcome.{returned}
use linux_system_learning.Text.{codes}
use linux_system_learning.Shell.{Shell, World, none_redir, command_parse, argv_of, child, round}
use linux_system_learning.Shell.Words.{words_of, spaced, command_parse-words_of}
use linux_system_learning.Shell.Redirect.{IsPlain}
use linux_system_learning.Shell.Rounds.{IsInner, round_words}

command_parse-words_of_example :
    command_parse (codes "ls  -l") ≡ argv_of (words_of (codes "ls  -l"))
command_parse-words_of_example = command_parse-words_of (codes "ls  -l")

abbrev quiet : World
quiet = record {
  env = λ name. none;
  opens = λ kind name. true;
  program = λ argv. some (length argv);
}

abbrev fresh : Shell
fresh = record { lastcode = 0; said = []; dirs = [] }

inner : All IsInner (b'l' ∷ codes "s" ++ spaced (codes "-l" ∷ []))
inner = (
  (λ e. omega (arith, e), refl),
  (
    (λ e. omega (arith, e), refl),
    (
      (λ e. omega (arith, e), refl),
      ((λ e. omega (arith, e), refl), ((λ e. omega (arith, e), refl), tt)),
    ),
  ),
)

plain : All IsPlain (b'l' ∷ codes "s" ++ spaced (codes "-l" ∷ []))
plain = ((refl, refl), ((refl, refl), ((refl, refl), ((refl, refl), ((refl, refl), tt)))))

round_words_example :
    round quiet fresh (some ((b'l' ∷ codes "s" ++ spaced (codes "-l" ∷ [])) ++ 10 ∷ codes "pwd\n"))
    ≡ returned (record fresh {
      lastcode = child quiet none_redir [] ((b'l' ∷ codes "s") ∷ codes "-l" ∷ []);
    })
round_words_example =
    round_words quiet fresh b'l' (codes "s") (codes "-l" ∷ []) (codes "pwd\n")
      ((refl, (refl, tt)), ((refl, (refl, tt)), tt)) inner (omega arith) plain (omega arith) refl
      refl
