-- ===== src/CommandServer.antt =====
-- test_04_15/TcpEchoServer: Command.hpp, which runs the commands of a list, and TcpServer.hpp, which serves each connection
-- in a thread of its own.
pub mod Safe
pub mod Threads
use linux_system_learning.Prelude.{
  ℕ, Bool, true, false, ◌||◌, List, [], ◌∷◌, ◌++◌, Option, none, some, if◌then◌else◌, lookup, erase,
  insert,
}
use linux_system_learning.Text.{Bytes, codes, eqb, c_str}

abbrev pub white_list_commands : List Bytes
white_list_commands =
    codes "ls"
    ∷ codes "pwd"
    ∷ codes "ls -l"
    ∷ codes "ll"
    ∷ codes "touch haha.txt"
    ∷ codes "who"
    ∷ codes "whoami"
    ∷ []

unfoldable pub is_in : Bytes → List Bytes → Bool
is_in cmd [] = false
is_in cmd (c ∷ list) = eqb c cmd || is_in cmd list

unfoldable pub is_safe_command : Bytes → Bool
unfolding is_in
is_safe_command cmd = is_in cmd white_list_commands

-- The literals that are not in ASCII, in UTF-8
abbrev pub refusal : Bytes
refusal =
    0xE8 ∷ 0xAF ∷ 0xA5 ∷ 0xE5 ∷ 0x91 ∷ 0xBD ∷ 0xE4 ∷ 0xBB ∷ 0xA4 ∷ 0xE6 ∷ 0x97 ∷ 0xA0 ∷ 0xE6 ∷ 0xB3
    ∷ 0x95 ∷ 0xE6 ∷ 0x89 ∷ 0xA7 ∷ 0xE8 ∷ 0xA1 ∷ 0x8C ∷ []

abbrev pub no_such_command : Bytes
no_such_command =
    0xE4 ∷ 0xBD ∷ 0xA0 ∷ 0xE8 ∷ 0xA6 ∷ 0x81 ∷ 0xE6 ∷ 0x89 ∷ 0xA7 ∷ 0xE8 ∷ 0xA1 ∷ 0x8C ∷ 0xE7 ∷ 0x9A
    ∷ 0x84 ∷ 0xE5 ∷ 0x91 ∷ 0xBD ∷ 0xE4 ∷ 0xBB ∷ 0xA4 ∷ 0xE4 ∷ 0xB8 ∷ 0x8D ∷ 0xE5 ∷ 0xAD ∷ 0x98
    ∷ 0xE5 ∷ 0x9C ∷ 0xA8 ∷ []

-- What the pieces that fgets reads of the output add to the result: each up to its first zero byte
unfoldable pub add_lines : List Bytes → Bytes
add_lines [] = []
add_lines (line ∷ lines) = c_str line ++ add_lines lines

unfoldable pub result_of : Bytes → Bytes → Option (List Bytes) → Bytes
unfolding add_lines
result_of cmd who none = no_such_command ++ cmd
result_of cmd who (some lines) = who ++ codes "excute done, result: \n" ++ add_lines lines

-- What `popen` runs, and what its output is read as; `none` where it fails.
abbrev pub Popen : Type 0
Popen = Bytes → Option (List Bytes)

-- Excute of Command: the commands handed to popen, and the answer
unfoldable pub excute_command : Popen → Bytes → Bytes → List Bytes × Bytes
unfolding is_safe_command result_of
excute_command popen cmd who =
    if is_safe_command cmd then (cmd ∷ [], result_of cmd who (popen cmd)) else ([], refusal)

-- The connections that are served, with their clients; `accepted`, `closed`, `sent` and `ran` record the calls, the latest
-- first.
pub record TcpServer : Type 0 where
  pub served : List (ℕ × Bytes)
  pub accepted : List ℕ
  pub closed : List ℕ
  pub sent : List (ℕ × Bytes)
  pub ran : List Bytes

unfoldable pub tcp_init : TcpServer
tcp_init = record { served = []; accepted = []; closed = []; sent = []; ran = [] }

-- What read gives: bytes, with what popen would give at that time, the end or an error; and what happens next: accept in Run, or a read of one connection's thread
pub data ReadResult : Type 0 where
  bytes : Bytes → Popen → ReadResult
  hang_up broken : ReadResult

pub data Step : Type 0 where
  no_accept : Step
  accepts : ℕ → Bytes → Step
  reads_of : ℕ → ReadResult → Step

unfoldable pub close_fd : TcpServer → ℕ → TcpServer
close_fd s fd = record s { served = erase fd s.served; closed = fd ∷ s.closed }

unfoldable pub answer : TcpServer → ℕ → List Bytes × Bytes → TcpServer
answer s fd (ran, echo_string) = record s { sent = (fd, echo_string) ∷ s.sent; ran = ran ++ s.ran }

-- A round of Service's loop
unfoldable pub service : TcpServer → ℕ → Option Bytes → ReadResult → TcpServer
unfolding excute_command close_fd answer
service s fd none r = s
service s fd (some who) (bytes buffer popen) = answer s fd (excute_command popen (c_str buffer) who)
service s fd (some who) hang_up = close_fd s fd
service s fd (some who) broken = close_fd s fd

-- A read of a descriptor that no thread serves changes nothing.
unfoldable pub tcp_step : TcpServer → Step → TcpServer
unfolding service
tcp_step s no_accept = s
tcp_step s (accepts sockfd who) = record s {
  served = (sockfd, who) ∷ s.served;
  accepted = sockfd ∷ s.accepted;
}
tcp_step s (reads_of fd r) = service s fd (lookup fd s.served) r

unfoldable pub tcp_run : TcpServer → List Step → TcpServer
unfolding tcp_step
tcp_run s [] = s
tcp_run s (step ∷ steps) = tcp_run (tcp_step s step) steps
