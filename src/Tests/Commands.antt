-- ===== src/Tests/Commands.antt =====
-- The command server with two clients.
use linux_system_learning.Prelude.{List, [], ◌∷◌, none, some}
use linux_system_learning.Text.{codes}
use linux_system_learning.CommandServer.{
  Popen, bytes, hang_up, Step, accepts, reads_of, tcp_run, tcp_init,
}
use linux_system_learning.CommandServer.Safe.{AreSafe, tcp_run-AreSafe}

abbrev two_lines : Popen
two_lines cmd = some (codes "a\n" ∷ codes "b\n" ∷ [])

abbrev no_shell : Popen
no_shell cmd = none

abbrev two_clients : List Step
two_clients =
    accepts 4 (codes "10.0.0.1:9")
    ∷ accepts 5 (codes "10.0.0.2:9")
    ∷ reads_of 4 (bytes (codes "ls") two_lines)
    ∷ reads_of 5 (bytes (codes "rm -rf /") two_lines)
    ∷ reads_of 4 (bytes (codes "who") no_shell)
    ∷ reads_of 5 hang_up
    ∷ []

tcp_run-AreSafe_example : AreSafe (tcp_run tcp_init two_clients).ran
tcp_run-AreSafe_example = tcp_run-AreSafe two_clients
