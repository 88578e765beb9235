-- ===== src/SessionServer.antt =====
-- test_05_03/session: TcpServer.hpp over Socket.hpp, the connections of the session server, whose tasks the threads of the
-- pool run in any order. The handler of HttpProtocol.hpp is that of `Http`; two tasks in it at once are a data race and
-- are left out.
pub mod Accounted
use linux_system_learning.Prelude.{ℕ, List, [], ◌∷◌, Option, none, some, remove_at}
use linux_system_learning.Prelude.Outcome.{Outcome, returned, ◌>>=◌}
use linux_system_learning.Text.{Bytes, c_str}
use linux_system_learning.Http.{Http, handler_http}

-- `waiting` holds the descriptors of the tasks that have not run. `accepted` and `finished` record, the latest first, the
-- descriptors that were accepted, and those whose task has run: with what was sent in front of the close, or `none` where
-- the descriptor was left open.
pub record TcpServer : Type 0 where
  pub http : Http
  pub waiting : List ℕ
  pub accepted : List ℕ
  pub finished : List (ℕ × Option Bytes)

-- Accept, where it gives a descriptor, or the task of a connection: what recv gives, `none` for 0 and -1, and the sum
-- that AddSession draws
pub data TcpMove : Type 0 where
  accept_connection : Option ℕ → TcpMove
  run_task : ℕ → Option Bytes → ℕ → TcpMove

unfoldable pub tcp_start : Http → TcpServer
tcp_start h = record { http = h; waiting = []; accepted = []; finished = [] }

-- A turn of Start's loop
unfoldable pub accept_one : TcpServer → Option ℕ → TcpServer
accept_one s none = s
accept_one s (some fd) = record s { waiting = fd ∷ s.waiting; accepted = fd ∷ s.accepted }

-- Recv: what was received, up to a zero byte
unfoldable pub recv_string : Option Bytes → Option Bytes
recv_string none = none
recv_string (some inbuffer) = some (c_str inbuffer)

-- ProcessConnection
unfoldable pub process_connection : TcpServer → ℕ → List ℕ → Option Bytes → ℕ → Outcome TcpServer
process_connection s fd rest none sum =
    returned (record s { waiting = rest; finished = (fd, none) ∷ s.finished })
process_connection s fd rest (some request_str) sum = handler_http s.http sum request_str >>= λ r.
    returned (record s { http = r.0; waiting = rest; finished = (fd, some r.1) ∷ s.finished })

unfoldable pub run_one : TcpServer → Option (ℕ × List ℕ) → Option Bytes → ℕ → Outcome TcpServer
unfolding process_connection
run_one s none got sum = returned s
run_one s (some (fd, rest)) got sum = process_connection s fd rest got sum

unfoldable pub tcp_move : TcpServer → TcpMove → Outcome TcpServer
unfolding accept_one run_one recv_string
tcp_move s (accept_connection o) = returned (accept_one s o)
tcp_move s (run_task i got sum) = run_one s (remove_at s.waiting i) (recv_string got) sum

unfoldable pub tcp_moves : TcpServer → List TcpMove → Outcome TcpServer
unfolding tcp_move
tcp_moves s [] = returned s
tcp_moves s (m ∷ ms) = tcp_move s m >>= λ s'. tcp_moves s' ms
