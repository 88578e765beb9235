-- ===== src/SessionServer/Accounted.antt =====
-- What becomes of the connections of test_05_03/session/TcpServer.hpp.
use linux_system_learning.Prelude.{
  ℕ, ◌≡◌, refl, true, List, [], ◌∷◌, ◌++◌, Option, none, some, map, remove_at, Removed,
  remove_at-Removed, All,
}
use mathlib.Core.List.Perm
use mathlib.Core.List.{Perm, perm_middle}
use linux_system_learning.Prelude.Outcome.{returned, Gives, Gives-bind}
use linux_system_learning.Text.{Bytes, codes, starts_with, to_string}
use linux_system_learning.Http.{
  Http, HttpResponse, parse, answer, page, serialize, make_status_line, no_request, handler_http,
}
use linux_system_learning.Http.Lines.{deserialize_ends}
use linux_system_learning.SessionServer.{
  TcpServer, TcpMove, accept_connection, run_task, tcp_start, accept_one, recv_string,
  process_connection, run_one, tcp_move, tcp_moves,
}

-- A response that is a page
abbrev pub IsPage : Bytes → Type 0
IsPage text = starts_with (codes "HTTP/1.0 200 OK\r\n") text ≡ true

serialize-IsPage : (resp : HttpResponse) → IsPage (serialize (page resp))
unfolding serialize make_status_line to_string
serialize-IsPage resp = refl

handler_http-IsPage :
    (h : Http) (sum : ℕ) (request : Bytes) → Gives (λ r. IsPage r.1) (handler_http h sum request)
unfolding handler_http
handler_http-IsPage h sum request =
    let (d, e) = deserialize_ends no_request request in
    rw e (serialize-IsPage (answer h sum (parse d.1)).1)

abbrev pub IsSent : ℕ × Option Bytes → Type 0
IsSent (fd, none) = Unit
IsSent (fd, some response) = IsPage response

abbrev pub descriptors : List (ℕ × Option Bytes) → List ℕ
descriptors finished = map (λ (f : ℕ × Option Bytes). f.0) finished

-- Where the accepted descriptors are, and what was sent
abbrev pub AreAccounted : TcpServer → Type 0
AreAccounted s = Perm s.accepted (s.waiting ++ descriptors s.finished) × All IsSent s.finished

put-AreAccounted :
    (s : TcpServer) (h : Http) (fd : ℕ) (rest : List ℕ) (sent : Option Bytes)
    → Perm s.waiting (fd ∷ rest)
    → IsSent (fd, sent)
    → AreAccounted s
    → AreAccounted (record s { http = h; waiting = rest; finished = (fd, sent) ∷ s.finished })
put-AreAccounted s h fd rest sent p i v = (
  Perm.trans v.0 (
      Perm.trans (Perm.append_right (descriptors s.finished) p)
        (Perm.symm (perm_middle rest (descriptors s.finished)))),
  (i, v.1),
)

process-AreAccounted :
    (s : TcpServer) (fd : ℕ) (rest : List ℕ) (got : Option Bytes) (sum : ℕ)
    → Perm s.waiting (fd ∷ rest)
    → AreAccounted s
    → Gives AreAccounted (process_connection s fd rest got sum)
unfolding process_connection
process-AreAccounted s fd rest none sum p v = put-AreAccounted s s.http fd rest none p tt v
process-AreAccounted s fd rest (some request_str) sum p v =
    Gives-bind (λ (r : Http × Bytes). IsPage r.1) AreAccounted (handler_http s.http sum request_str)
      (λ r.
        returned (record s { http = r.0; waiting = rest; finished = (fd, some r.1) ∷ s.finished }))
      (handler_http-IsPage s.http sum request_str)
      (λ r i. put-AreAccounted s r.0 fd rest (some r.1) p i v)

run-AreAccounted :
    (s : TcpServer) (o : Option (ℕ × List ℕ)) (got : Option Bytes) (sum : ℕ)
    → Removed s.waiting o
    → AreAccounted s
    → Gives AreAccounted (run_one s o got sum)
unfolding run_one
run-AreAccounted s none got sum p v = v
run-AreAccounted s (some (fd, rest)) got sum p v = process-AreAccounted s fd rest got sum p.0 v

accept-AreAccounted :
    (s : TcpServer) (o : Option ℕ) → AreAccounted s → AreAccounted (accept_one s o)
unfolding accept_one
accept-AreAccounted s none v = v
accept-AreAccounted s (some fd) v = (Perm.cons fd v.0, v.1)

move-AreAccounted :
    (s : TcpServer) (m : TcpMove) → AreAccounted s → Gives AreAccounted (tcp_move s m)
unfolding tcp_move
move-AreAccounted s (accept_connection o) v = accept-AreAccounted s o v
move-AreAccounted s (run_task i got sum) v =
    run-AreAccounted s (remove_at s.waiting i) (recv_string got) sum (remove_at-Removed s.waiting i)
      v

moves-AreAccounted :
    (s : TcpServer) (ms : List TcpMove) → AreAccounted s → Gives AreAccounted (tcp_moves s ms)
unfolding tcp_moves
moves-AreAccounted s [] v = v
moves-AreAccounted s (m ∷ ms) v =
    Gives-bind AreAccounted AreAccounted (tcp_move s m) (λ s'. tcp_moves s' ms)
      (move-AreAccounted s m v) (λ s' v'. moves-AreAccounted s' ms v')

-- Whatever the clients send and in whatever order the tasks of the connections run, one after the other: every task ends,
-- each accepted descriptor waits for its task or has had it once, and what is sent in front of a close is a page with the
-- status 200.
pub tcp_moves-AreAccounted :
    (h : Http) (ms : List TcpMove) → Gives AreAccounted (tcp_moves (tcp_start h) ms)
unfolding tcp_start
tcp_moves-AreAccounted h ms = moves-AreAccounted (tcp_start h) ms (Perm.rfl, tt)
