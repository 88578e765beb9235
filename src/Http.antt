-- ===== src/Http.antt =====
-- test_05_03/session: the request, the response and the handler of HttpProtocol.hpp, with the sessions of
-- Session.hpp. The number that `AddSession` makes of `rand` and `time` is an argument.
pub mod Lines
pub mod Sessions
pub mod Expiry
use linux_system_learning.Prelude.{
  ℕ, zero, suc, ◌+◌, ◌%◌, ◌^◌, Bool, true, false, ◌&&◌, List, [], ◌∷◌, ◌++◌, Option, none, some,
  if◌then◌else◌, drop, length, take,
}
use linux_system_learning.Prelude.Outcome.{Outcome, returned, unfinished, ◌>>=◌}
use linux_system_learning.Text.{
  Bytes, codes, eqb, starts_with, find, to_string, is_space, skip_spaces,
}

abbrev pub http_sep : Bytes
http_sep = codes "\r\n"

abbrev pub is_empty : Bytes → Bool
is_empty [] = true
is_empty (c ∷ s) = false

-- GetLine: the line, and what is left of the text; `none` is false.
pub line_at : Bytes → Option ℕ → Option (Bytes × Bytes)
line_at str none = none
line_at str (some p) = some (take p str, drop (p + length http_sep) str)

unfoldable pub get_line : Bytes → Option (Bytes × Bytes)
unfolding line_at
get_line str = line_at str (find http_sep str)

-- The fields of `HttpRequest` that its operations use
pub record HttpRequest : Type 0 where
  pub req_line : Bytes
  pub req_header : List Bytes
  pub req_content : Bytes
  pub method : Bytes
  pub url : Bytes
  pub http_version : Bytes
  pub cookies : List Bytes
  pub sessionid : Bytes

abbrev pub no_request : HttpRequest
no_request = record {
  req_line = [];
  req_header = [];
  req_content = [];
  method = [];
  url = [];
  http_version = [];
  cookies = [];
  sessionid = [];
}

-- The loop of Deserialize behind the first line
unfoldable pub header_lines : ℕ → HttpRequest → Bytes → Outcome (HttpRequest × Bytes)
header_lines zero req request = unfinished
header_lines (suc f) req request = elim (get_line request) [
  | none ↦ returned (req, request)
  | some (line, rest) ↦
      let further = header_lines f (record req { req_header = req.req_header ++ line ∷ [] }) rest in
      if is_empty line then returned (record req { req_content = rest }, rest) else further
]

-- Deserialize: the value returned, the request, and what is left of the text
unfoldable pub deserialize : HttpRequest → Bytes → Outcome (Bool × HttpRequest × Bytes)
unfolding header_lines
deserialize req request = elim (get_line request) [
  | none ↦ returned (false, req, request)
  | some (line, rest) ↦
      header_lines (suc (length rest)) (record req { req_line = line }) rest >>= λ r.
      returned (true, r.0, r.1)
]

-- `ss >> word`: the bytes up to the next space, and what follows them
unfoldable pub word_front : Bytes → Bytes
word_front [] = []
word_front (c ∷ s) = let rest = word_front s in if is_space c then [] else c ∷ rest

unfoldable pub word_back : Bytes → Bytes
word_back [] = []
word_back (c ∷ s) = let rest = word_back s in if is_space c then c ∷ s else rest

-- The first header line that starts with "Cookie: ", without it
unfoldable pub find_cookies : List Bytes → List Bytes
find_cookies [] = []
find_cookies (line ∷ lines) =
    let rest = find_cookies lines in
    if starts_with (codes "Cookie: ") line then drop 8 line ∷ [] else rest

-- The value of the last cookie that starts with "sessionid=", or the one before the loop
unfoldable pub find_sessionid : Bytes → List Bytes → Bytes
find_sessionid id [] = id
find_sessionid id (cookie ∷ cookies) =
    find_sessionid (if starts_with (codes "sessionid=") cookie then drop 10 cookie else id) cookies

unfoldable pub parse : HttpRequest → HttpRequest
parse req =
    let ss = skip_spaces req.req_line in
    let ss' = skip_spaces (word_back ss) in
    let ss'' = skip_spaces (word_back ss') in
    let cookies = req.cookies ++ find_cookies req.req_header in
    record req {
      method = word_front ss;
      url = word_front ss';
      http_version = word_front ss'';
      cookies = cookies;
      sessionid = find_sessionid req.sessionid cookies;
    }

pub record HttpResponse : Type 0 where
  pub resp_header : List Bytes
  pub resp_content : Bytes
  pub status_code : ℕ
  pub status_code_desc : Bytes

pub add_header : Bytes → HttpResponse → HttpResponse
add_header header resp = record resp { resp_header = resp.resp_header ++ (header ++ http_sep) ∷ [] }

abbrev pub joined : List Bytes → Bytes
joined [] = []
joined (header ∷ headers) = header ++ joined headers

unfoldable pub make_status_line : HttpResponse → Bytes
make_status_line resp =
    codes "HTTP/1.0"
    ++ codes " "
    ++ to_string resp.status_code
    ++ codes " "
    ++ resp.status_code_desc
    ++ http_sep

unfoldable pub serialize : HttpResponse → Bytes
unfolding make_status_line
serialize resp = make_status_line resp ++ joined resp.resp_header ++ http_sep ++ resp.resp_content

-- What the handler uses of `Session`
pub record Session : Type 0 where
  pub username : Bytes
  pub status : Bytes

abbrev pub Sessions : Type 0
Sessions = List (Bytes × Session)

-- GetSession; `none` is a null pointer.
unfoldable pub get_session : Bytes → Sessions → Option Session
get_session sessionid [] = none
get_session sessionid (entry ∷ sessions) =
    if eqb entry.0 sessionid then some entry.1 else get_session sessionid sessions

-- `insert` of an unordered_map leaves a key that it has as it is.
unfoldable pub insert_new : Bytes → Session → Sessions → Option Session → Sessions
insert_new sessionid s sessions none = (sessionid, s) ∷ sessions
insert_new sessionid s sessions (some other) = sessions

-- AddSession, for the sum of `rand()` and `time(nullptr)`: the sessions, and the id
unfoldable pub add_session : ℕ → Session → Sessions → Sessions × Bytes
unfolding insert_new
add_session sum s sessions =
    let sessionid = to_string (sum % 2 ^ 32) in
    (insert_new sessionid s sessions (get_session sessionid sessions), sessionid)

-- The session manager, and the static counter of HandlerHttp
pub record Http : Type 0 where
  pub sessions : Sessions
  pub number : ℕ

pub prove_session : Bytes → Bytes
prove_session session_id = codes "Set-Cookie: sessionid=" ++ session_id ++ codes ";"

abbrev pub user_of : ℕ → Session
user_of number = record { username = codes "user-" ++ to_string number; status = codes "logined" }

-- The branch of "/login": the server, and the headers that it adds to the response
pub login : Http → ℕ → Bytes → HttpResponse → Http × HttpResponse
unfolding add_session prove_session add_header
login h sum sessionid resp =
    let added = add_session sum (user_of h.number) h.sessions in
    if is_empty sessionid
    then (
      record h { sessions = added.0; number = h.number + 1 },
      add_header (prove_session added.1) resp,
    )
    else (h, resp)

abbrev pub no_response : HttpResponse
no_response = record {
  resp_header = [];
  resp_content = [];
  status_code = 200;
  status_code_desc = codes "OK";
}

abbrev pub page : HttpResponse → HttpResponse
page resp = record (add_header (codes "Content-Type: text/html") resp) {
  resp_content = codes "<html><h1>helloworld</h1></html>";
  status_code = 200;
  status_code_desc = codes "OK";
}

-- HandlerHttp, once the request is parsed: other paths only log whether the session is there.
pub answer : Http → ℕ → HttpRequest → Http × HttpResponse
unfolding login
answer h sum req =
    if eqb req.url (codes "/login") then login h sum req.sessionid no_response else (h, no_response)

unfoldable pub handler_http : Http → ℕ → Bytes → Outcome (Http × Bytes)
unfolding deserialize parse answer serialize add_header
handler_http h sum request = deserialize no_request request >>= λ d.
    let r = answer h sum (parse d.1) in returned (r.0, serialize (page r.1))
