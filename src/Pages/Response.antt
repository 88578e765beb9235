-- ===== src/Pages/Response.antt =====
-- test_04_20: the response of Http.hpp with FileSize and ReadFileContent of Util.hpp, the handler of a connection with the
-- registered services, and the service of Main.cc.
use linux_system_learning.Prelude.{
  ℕ, suc, ◌==◌, List, [], ◌∷◌, ◌++◌, Option, none, some, length, if◌then◌else◌,
}
use linux_system_learning.Prelude.Int.{ℤ, pos, negsuc}
use linux_system_learning.Prelude.Outcome.{Outcome, returned, undefined, ◌>>=◌}
use linux_system_learning.Text.{Bytes, codes, eqb, to_string}
use linux_system_learning.Pages.{gline, webroot, PageRequest, deserialize_page, uri2suffix}

abbrev pub gspace : Bytes
gspace = codes " "

abbrev pub glinesep : Bytes
glinesep = codes ": "

abbrev pub page_404 : Bytes
page_404 = codes "/404.html"

abbrev pub Headers : Type 0
Headers = List (Bytes × Bytes)

-- `none` as the code is the member that no constructor and no default sets.
pub record PageResponse : Type 0 where
  pub version : Bytes
  pub code : Option ℕ
  pub desc : Bytes
  pub headers : Headers
  pub blankline : Bytes
  pub text : Bytes
  pub targetfile : Bytes

unfoldable pub new_response : PageResponse
new_response = record {
  version = codes "HTTP/1.0";
  code = none;
  desc = [];
  headers = [];
  blankline = gline;
  text = [];
  targetfile = [];
}

-- The contents of the files that can be opened
abbrev pub Disk : Type 0
Disk = Bytes → Option Bytes

-- FileSize and ReadFileContent, on what opening the file gives; `none` is false.
unfoldable pub file_size : Option Bytes → ℤ
file_size none = negsuc 0
file_size (some content) = pos (length content)

unfoldable pub read_file_content : Option Bytes → Option Bytes
read_file_content none = none
read_file_content (some []) = none
read_file_content (some (c ∷ content)) = some (c ∷ content)

-- to_string of an `int`
unfoldable pub int_string : ℤ → Bytes
int_string (pos n) = to_string n
int_string (negsuc n) = b'-' ∷ to_string (suc n)

unfoldable pub desc_of : ℕ → Bytes → Bytes
desc_of code desc =
    if code == 200
    then codes "ok"
    else if code == 404
    then codes "Not Found"
    else if code == 302
    then codes "See Other"
    else if code == 301
    then codes "Moved Permanently"
    else desc

unfoldable pub set_code : ℕ → PageResponse → PageResponse
unfolding desc_of
set_code code resp = record resp { code = some code; desc = desc_of code resp.desc }

unfoldable pub header_at : Bytes → Headers → Option Bytes
header_at key [] = none
header_at key (header ∷ headers) = if eqb header.0 key then some header.1 else header_at key headers

unfoldable pub new_header : Bytes → Bytes → PageResponse → Option Bytes → PageResponse
new_header key value resp none = record resp { headers = (key, value) ∷ resp.headers }
new_header key value resp (some old) = resp

unfoldable pub set_header : Bytes → Bytes → PageResponse → PageResponse
unfolding header_at new_header
set_header key value resp = new_header key value resp (header_at key resp.headers)

unfoldable pub header_lines : Headers → Bytes
header_lines [] = []
header_lines (header ∷ headers) =
    header.0 ++ (glinesep ++ (header.1 ++ (gline ++ header_lines headers)))

-- The two headers that are set for a file
unfoldable pub describe_file : Disk → PageResponse → PageResponse
unfolding set_header file_size int_string
describe_file disk resp =
    set_header (codes "Content-Length") (int_string (file_size (disk resp.targetfile)))
      (set_header (codes "Content-Type") (uri2suffix resp.targetfile) resp)

abbrev pub or_empty : Option Bytes → Bytes
or_empty none = []
or_empty (some content) = content

unfoldable pub not_found : Disk → PageResponse → PageResponse
unfolding set_code describe_file read_file_content
not_found disk resp =
    let resp404 = record (set_code 404 resp) { targetfile = webroot ++ page_404 } in
    describe_file disk
      (record resp404 { text = or_empty (read_file_content (disk (webroot ++ page_404))) })

unfoldable pub make_from : Disk → PageResponse → Option Bytes → PageResponse
unfolding not_found
make_from disk resp none = not_found disk (record resp { text = [] })
make_from disk resp (some content) =
    describe_file disk (set_code 200 (record resp { text = content }))

-- MakeResponse; `none` is false.
unfoldable pub make_response : Disk → PageResponse → Option PageResponse
unfolding make_from
make_response disk resp =
    if eqb resp.targetfile (codes "./wwwroot/favicon.ico")
    then none
    else if eqb resp.targetfile (codes "./wwwroot/redir_test")
    then some (set_header (codes "Location") (codes "https://www.qq.com") (set_code 302 resp))
    else some (make_from disk resp (read_file_content (disk resp.targetfile)))

abbrev pub Service : Type 0
Service = PageRequest → PageResponse → PageResponse

abbrev pub Route : Type 0
Route = List (Bytes × Service)

unfoldable pub service_at : Bytes → Route → Option Service
service_at key [] = none
service_at key (entry ∷ route) = if eqb entry.0 key then some entry.1 else service_at key route

unfoldable pub new_service : Bytes → Service → Route → Option Service → Route
new_service key h route none = (key, h) ∷ route
new_service key h route (some old) = route

-- RegisterService
unfoldable pub register_service : Bytes → Service → Route → Route
unfolding service_at new_service
register_service name h route =
    new_service (webroot ++ name) h route (service_at (webroot ++ name) route)

-- The order in which an unordered_map gives its elements is an argument.
module _ (order : Headers → Headers) where
  unfoldable pub serialize_code : PageResponse → Option ℕ → Outcome Bytes
  unfolding header_lines
  serialize_code resp none = undefined
  serialize_code resp (some code) = returned (
      (resp.version ++ (gspace ++ (to_string code ++ (gspace ++ (resp.desc ++ gline)))))
      ++ (header_lines (order resp.headers) ++ (resp.blankline ++ resp.text)))

  unfoldable pub serialize_page : PageResponse → Outcome Bytes
  unfolding serialize_code
  serialize_page resp = serialize_code resp resp.code

  -- What the handler hands to Send, for what Recv gave; `none` where it sends nothing.
  unfoldable pub send_page : Option PageResponse → Outcome (Option Bytes)
  send_page none = returned none
  send_page (some resp) = serialize_page resp >>= λ s. returned (some s)

  unfoldable pub serve_page : PageRequest → Option Service → Outcome (Option Bytes)
  unfolding send_page
  serve_page req none = returned none
  serve_page req (some h) = send_page (some (h req new_response))

  unfoldable pub handler_http_page : Disk → Route → Option Bytes → Outcome (Option Bytes)
  unfolding serve_page make_response service_at
  handler_http_page disk route none = returned none
  handler_http_page disk route (some httpbuffer) =
      let req = (deserialize_page httpbuffer).0 in
      if req.is_interact
      then serve_page req (service_at req.uri route)
      else send_page (make_response disk (record new_response { targetfile = req.uri }))

-- Login of Main.cc, and the services that main registers
unfoldable pub login_page : PageRequest → PageResponse → PageResponse
unfolding set_code set_header
login_page req resp =
    let text = codes "hello: " ++ req.args in
    record (set_header (codes "Content-Length") (to_string (length text))
      (set_header (codes "Content-Type") (codes "text/plain") (set_code 200 resp))) { text = text }

unfoldable pub main_route : Route
unfolding register_service
main_route = register_service (codes "/login") login_page []
