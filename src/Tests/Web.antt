-- ===== src/Tests/Web.antt =====
-- Requests of a browser to the session server.
use linux_system_learning.Prelude.{◌≡◌, refl, List, [], ◌∷◌, ◌++◌, some, arith}
use linux_system_learning.Prelude.Outcome.{returned}
use linux_system_learning.Text.{Bytes, codes, skip_spaces}
use linux_system_learning.Http.{
  HttpRequest, parse, word_front, word_back, find_cookies, find_sessionid, Http, user_of,
  get_session, handler_http,
}
use linux_system_learning.Http.Sessions.{id_of, request_of, handler_http_login}

abbrev host : List Bytes
host = codes "Host: a" ∷ []

abbrev returning : HttpRequest
returning =
    request_of (codes "GET /a HTTP/1.1") (codes "Host: a" ∷ codes "Cookie: sessionid=17" ∷ []) []

abbrev empty_server : Http
empty_server = record { sessions = []; number = 0 }

handler_http_login_example :
    (handler_http empty_server 17 (codes "GET /login HTTP/1.1\r\nHost: a\r\n\r\n")
      ≡ returned (
        record { sessions = (id_of 17, user_of 0) ∷ []; number = 1 },
        codes "HTTP/1.0 200 OK\r\nSet-Cookie: sessionid="
            ++ id_of 17
            ++ codes ";\r\nContent-Type: text/html\r\n\r\n<html><h1>helloworld</h1></html>",
      ))
    × (get_session (id_of 17) ((id_of 17, user_of 0) ∷ []) ≡ some (user_of 0))
unfolding parse get_session word_front skip_spaces word_back find_sessionid find_cookies
handler_http_login_example =
    handler_http_login empty_server 17 (codes "GET /login HTTP/1.1") host [] (ground arith)
      (ground arith) refl refl refl
