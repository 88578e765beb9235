-- ===== src/Tests/Session.antt =====
-- The connections and the log of the session server at small inputs.
use linux_system_learning.Prelude.{◌≡◌, List, [], ◌∷◌, ◌++◌, some, none}
use linux_system_learning.Prelude.Outcome.{Gives}
use linux_system_learning.Text.{codes}
use linux_system_learning.Http.{Http}
use linux_system_learning.Log.{Tm}
use linux_system_learning.SessionLog.{LogCall, enable, log_message, log_calls}
use linux_system_learning.SessionLog.Files.{content_at, lines_for, log_calls-lines_for}
use linux_system_learning.SessionServer.{TcpMove, accept_connection, run_task, tcp_start, tcp_moves}
use linux_system_learning.SessionServer.Accounted.{AreAccounted, tcp_moves-AreAccounted}

-- Two connections: one logs in, the other one hangs up.
abbrev two_connections : List TcpMove
two_connections =
    accept_connection (some 5)
    ∷ accept_connection (some 6)
    ∷ run_task 1 (some (codes "GET /login HTTP/1.0\r\n\r\n")) 9
    ∷ run_task 0 none 9
    ∷ []

abbrev no_sessions : Http
no_sessions = record { sessions = []; number = 0 }

tcp_moves-AreAccounted_example :
    Gives AreAccounted (tcp_moves (tcp_start no_sessions) two_connections)
tcp_moves-AreAccounted_example = tcp_moves-AreAccounted no_sessions two_connections

abbrev new_year : Tm
new_year = record { tm_year = 125; tm_mon = 0; tm_mday = 1; tm_hour = 0; tm_min = 0; tm_sec = 0 }

abbrev three_lines : List LogCall
three_lines =
    log_message 0 new_year 7 (codes "a\n")
    ∷ enable 12
    ∷ log_message 1 new_year 7 (codes "b\n")
    ∷ log_message 4 new_year 7 (codes "c\n")
    ∷ []

log_calls-lines_for_example :
    content_at
      (codes "log/log.Info")
      (log_calls 10 three_lines (record { screen = []; files = [] })).files
    ≡ [] ++ lines_for (codes "log/log.Info") 10 three_lines
log_calls-lines_for_example =
    log_calls-lines_for (codes "log/log.Info") 10 three_lines (record { screen = []; files = [] })
