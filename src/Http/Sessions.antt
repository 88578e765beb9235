-- ===== src/Http/Sessions.antt =====
-- Sessions of test_05_03/session: what a log in leaves behind, and what a browser's cookie finds.
use linux_system_learning.Prelude.{
  ℕ, ◌+◌, ◌%◌, ◌^◌, ◌≡◌, refl, ap, ◌∙◌, false, List, [], ◌∷◌, ◌++◌, none, some, All, if◌then◌else◌,
  append_assoc,
}
use linux_system_learning.Prelude.Outcome.{returned, ◌>>=◌}
use linux_system_learning.Text.{Bytes, codes, eqb, starts_with, to_string}
use linux_system_learning.Http.{
  http_sep, is_empty, HttpRequest, HttpResponse, no_request, find_cookies, find_sessionid, parse,
  Session, Sessions, get_session, insert_new, add_session, Http, user_of, login, answer,
  handler_http, serialize, make_status_line, page, no_response, add_header, prove_session,
}
use linux_system_learning.Text.Equal.{eqb_refl}
use linux_system_learning.Http.Lines.{lines, IsLine, deserialize-lines}

-- The id that AddSession makes.
abbrev pub id_of : ℕ → Bytes
id_of sum = to_string (sum % 2 ^ 32)

pub get_session-add_session :
    (sum : ℕ) (s : Session) (sessions : Sessions)
    → get_session (id_of sum) sessions ≡ none
    → add_session sum s sessions ≡ ((id_of sum, s) ∷ sessions, id_of sum)
unfolding add_session insert_new
get_session-add_session sum s sessions e =
    ap (λ o. (insert_new (id_of sum) s sessions o, id_of sum)) e

-- If the id that AddSession draws is in use, the new session is dropped, and the id that is returned is that of
-- the session of the other user.
pub add_session_taken :
    (sum : ℕ) (s other : Session) (sessions : Sessions)
    → get_session (id_of sum) sessions ≡ some other
    → ((add_session sum s sessions).0 ≡ sessions)
      × (get_session (add_session sum s sessions).1 (add_session sum s sessions).0 ≡ some other)
unfolding add_session insert_new
add_session_taken sum s other sessions e =
    let same : insert_new (id_of sum) s sessions (get_session (id_of sum) sessions) ≡ sessions =
      ap (insert_new (id_of sum) s sessions) e in
    (same, ap (get_session (id_of sum)) same ∙ e)

find_cookies-append :
    (before after : List Bytes) (cookie : Bytes)
    → All (λ line. starts_with (codes "Cookie: ") line ≡ false) before
    → find_cookies (before ++ (codes "Cookie: " ++ cookie) ∷ after) ≡ cookie ∷ []
unfolding find_cookies
find_cookies-append [] after cookie h = refl
find_cookies-append (line ∷ before) after cookie h =
    rw (find_cookies, h.0) (find_cookies-append before after cookie h.1)

-- If the first header line that starts with "Cookie: " goes on with "sessionid=" and an id, Parse finds that id.
pub parse_sessionid :
    (req : HttpRequest) (before after : List Bytes) (id : Bytes)
    → req.req_header ≡ before ++ (codes "Cookie: sessionid=" ++ id) ∷ after
    → req.cookies ≡ []
    → All (λ line. starts_with (codes "Cookie: ") line ≡ false) before
    → (parse req).sessionid ≡ id
unfolding parse find_sessionid
parse_sessionid req before after id hs cs h =
    ap (λ cookies. find_sessionid req.sessionid (cookies ++ find_cookies req.req_header)) cs
    ∙ ap (λ headers. find_sessionid req.sessionid (find_cookies headers)) hs
    ∙ ap (find_sessionid req.sessionid)
        (find_cookies-append before after (codes "sessionid=" ++ id) h)

abbrev pub request_of : Bytes → List Bytes → Bytes → HttpRequest
request_of line headers content = record no_request {
  req_line = line;
  req_header = headers;
  req_content = content;
}

abbrev pub logged_in : Http → ℕ → Http
logged_in h sum = record {
  sessions = (id_of sum, user_of h.number) ∷ h.sessions;
  number = h.number + 1;
}

login_fresh :
    (h : Http) (sum : ℕ) (resp : HttpResponse)
    → get_session (id_of sum) h.sessions ≡ none
    → login h sum [] resp ≡ (logged_in h sum, add_header (prove_session (id_of sum)) resp)
unfolding login
login_fresh h sum resp fresh =
    ap
      (λ added. (
        record h { sessions = added.0; number = h.number + 1 },
        add_header (prove_session added.1) resp,
      ))
      (get_session-add_session sum (user_of h.number) h.sessions fresh)

answer_login :
    (h : Http) (sum : ℕ) (req : HttpRequest)
    → req.url ≡ codes "/login"
    → req.sessionid ≡ []
    → get_session (id_of sum) h.sessions ≡ none
    → answer h sum req ≡ (logged_in h sum, add_header (prove_session (id_of sum)) no_response)
unfolding answer
answer_login h sum req url none_yet fresh =
    ap
      (λ u.
        if eqb u (codes "/login") then login h sum req.sessionid no_response else (h, no_response))
      url
    ∙ ap (λ id. login h sum id no_response) none_yet
    ∙ login_fresh h sum no_response fresh

page-prove_session :
    (id : Bytes)
    → serialize (page (add_header (prove_session id) no_response))
      ≡ codes "HTTP/1.0 200 OK\r\nSet-Cookie: sessionid="
        ++ id
        ++ codes ";\r\nContent-Type: text/html\r\n\r\n<html><h1>helloworld</h1></html>"
unfolding serialize make_status_line add_header prove_session to_string
page-prove_session id = simp append_assoc refl

-- A well-formed request of "/login" without a session id, where the id drawn is not in use, is answered by a
-- page that sets the id as cookie, and the session found by that id afterwards is the one of the new user.
pub handler_http_login :
    (h : Http) (sum : ℕ) (line : Bytes) (headers : List Bytes) (content : Bytes)
    → IsLine line
    → All (λ header. IsLine header × (is_empty header ≡ false)) headers
    → (parse (request_of line headers content)).url ≡ codes "/login"
    → (parse (request_of line headers content)).sessionid ≡ []
    → get_session (id_of sum) h.sessions ≡ none
    → (handler_http h sum (line ++ (http_sep ++ (lines headers ++ (http_sep ++ content))))
        ≡ returned (
          record { sessions = (id_of sum, user_of h.number) ∷ h.sessions; number = h.number + 1 },
          codes "HTTP/1.0 200 OK\r\nSet-Cookie: sessionid="
              ++ id_of sum
              ++ codes ";\r\nContent-Type: text/html\r\n\r\n<html><h1>helloworld</h1></html>",
        ))
      × (get_session (id_of sum) ((id_of sum, user_of h.number) ∷ h.sessions)
          ≡ some (user_of h.number))
unfolding handler_http get_session
handler_http_login h sum line headers content isl hs url none_yet fresh = (
  ap (λ d. d >>= (λ d. let r = answer h sum (parse d.1) in returned (r.0, serialize (page r.1))))
        (deserialize-lines no_request line headers content isl hs)
      ∙ ap (λ r. returned (r.0, serialize (page r.1)))
          (answer_login h sum (parse (request_of line headers content)) url none_yet fresh)
      ∙ ap (λ text. returned (logged_in h sum, text)) (page-prove_session (id_of sum)),
  rw (get_session, eqb_refl (id_of sum)) refl,
)
