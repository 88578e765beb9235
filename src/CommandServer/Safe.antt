-- ===== src/CommandServer/Safe.antt =====
-- The server of test_04_15/TcpEchoServer runs the commands of its list and no other.
use linux_system_learning.Prelude.{
  ℕ, ◌≡◌, ◌⊎◌, inl, inr, refl, sym, Bool, true, false, ◌||◌, List, [], ◌∷◌, Option, none, some, All,
  if_cases, lookup,
}
use linux_system_learning.Text.{Bytes, codes, eqb, c_str}
use linux_system_learning.Text.Equal.{eqb→eq}
use linux_system_learning.CommandServer.{
  white_list_commands, is_in, is_safe_command, excute_command, TcpServer, ReadResult, bytes,
  hang_up, broken, Step, no_accept, accepts, reads_of, close_fd, answer, service, tcp_step, tcp_run,
  tcp_init,
}

abbrev pub IsOneOf : Bytes → List Bytes → Type 0
IsOneOf cmd [] = ⊥
IsOneOf cmd (c ∷ list) = (cmd ≡ c) ⊎ IsOneOf cmd list

-- Every text is, byte for byte, one of the seven.
abbrev pub AreSafe : List Bytes → Type 0
AreSafe ran =
    All
      (λ cmd. IsOneOf cmd (
        codes "ls"
        ∷ codes "pwd"
        ∷ codes "ls -l"
        ∷ codes "ll"
        ∷ codes "touch haha.txt"
        ∷ codes "who"
        ∷ codes "whoami"
        ∷ []))
      ran

found-IsOneOf :
    (cmd c : Bytes) (list : List Bytes) (found rest : Bool)
    → eqb c cmd ≡ found
    → (found || rest) ≡ true
    → (rest ≡ true → IsOneOf cmd list)
    → IsOneOf cmd (c ∷ list)
found-IsOneOf cmd c list true rest e h further = inl (sym (eqb→eq c cmd e))
found-IsOneOf cmd c list false rest e h further = inr (further h)

is_in-IsOneOf : (cmd : Bytes) (list : List Bytes) → is_in cmd list ≡ true → IsOneOf cmd list
unfolding is_in
is_in-IsOneOf cmd [] h = cc
is_in-IsOneOf cmd (c ∷ list) h =
    found-IsOneOf cmd c list (eqb c cmd) (is_in cmd list) refl h (is_in-IsOneOf cmd list)

is_safe_command-IsOneOf :
    (cmd : Bytes) → is_safe_command cmd ≡ true → IsOneOf cmd white_list_commands
unfolding is_safe_command
is_safe_command-IsOneOf cmd h = is_in-IsOneOf cmd white_list_commands h

service-AreSafe :
    (s : TcpServer) (fd : ℕ) (who : Option Bytes) (r : ReadResult)
    → AreSafe s.ran
    → AreSafe (service s fd who r).ran
unfolding service excute_command answer close_fd
service-AreSafe s fd none r h = h
service-AreSafe s fd (some who) hang_up h = h
service-AreSafe s fd (some who) broken h = h
service-AreSafe s fd (some who) (bytes buffer popen) h =
    if_cases (λ (e : List Bytes × Bytes). AreSafe (answer s fd e).ran)
      (is_safe_command (c_str buffer)) (λ t. (is_safe_command-IsOneOf (c_str buffer) t, h)) (λ f. h)

step-AreSafe : (s : TcpServer) (step : Step) → AreSafe s.ran → AreSafe (tcp_step s step).ran
unfolding tcp_step
step-AreSafe s no_accept h = h
step-AreSafe s (accepts fd who) h = h
step-AreSafe s (reads_of fd r) h = service-AreSafe s fd (lookup fd s.served) r h

run-AreSafe : (s : TcpServer) (steps : List Step) → AreSafe s.ran → AreSafe (tcp_run s steps).ran
unfolding tcp_run
run-AreSafe s [] h = h
run-AreSafe s (step ∷ steps) h = run-AreSafe (tcp_step s step) steps (step-AreSafe s step h)

-- Whatever the clients send and however the threads are interleaved, every command that the server hands to popen is, byte
-- for byte, `ls`, `pwd`, `ls -l`, `ll`, `touch haha.txt`, `who` or `whoami`.
pub tcp_run-AreSafe : (steps : List Step) → AreSafe (tcp_run tcp_init steps).ran
unfolding tcp_init
tcp_run-AreSafe steps = run-AreSafe tcp_init steps tt
