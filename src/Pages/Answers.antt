-- ===== src/Pages/Answers.antt =====
-- What a client of test_04_20 gets: the length and the status of a page, and the answer of the service of Main.cc.
use linux_system_learning.Prelude.{
  ℕ, ◌≡◌, ◌≢◌, refl, false, [], ◌∷◌, ◌++◌, Option, none, some, arith, All, length, ◌⊎◌, inl, inr,
}
use linux_system_learning.Prelude.Outcome.{returned}
use linux_system_learning.Text.{Bytes, codes, eqb, to_string}
use linux_system_learning.Pages.{gline, webroot}
use linux_system_learning.Pages.Requests.{IsWord, deserialize_page_args}
use linux_system_learning.Pages.Response.{
  page_404, Headers, PageResponse, new_response, Disk, file_size, read_file_content, int_string,
  set_code, desc_of, header_at, new_header, set_header, header_lines, describe_file, not_found,
  make_from, make_response, serialize_code, serialize_page, send_page, serve_page, service_at,
  register_service, new_service, handler_http_page, login_page, main_route,
}

-- The header says how many bytes the text has, and the text is the file's with the code 200 or the page for
-- what is not found with the code 404.
abbrev pub IsAnswer : Option Bytes → Bytes → Option PageResponse → Type 0
IsAnswer content lost none = ⊥
IsAnswer content lost (some resp) =
    (header_at (codes "Content-Length") resp.headers ≡ some (to_string (length resp.text)))
    × (((content ≡ some resp.text) × (resp.code ≡ some 200))
        ⊎ ((resp.text ≡ lost) × (resp.code ≡ some 404)))

make_from-IsAnswer :
    (disk : Disk) (target : Bytes) (c : ℕ) (lost : Bytes) (content : Option Bytes)
    → disk target ≡ content
    → disk (webroot ++ page_404) ≡ some (c ∷ lost)
    → IsAnswer content (c ∷ lost) (
        some (
          make_from disk (record new_response { targetfile = target }) (read_file_content content)))
unfolding make_from not_found describe_file set_header new_header header_at set_code
    read_file_content file_size int_string new_response
make_from-IsAnswer disk target c lost none e e404 = (rw e404 refl, inr (rw e404 refl, refl))
make_from-IsAnswer disk target c lost (some []) e e404 = (rw e404 refl, inr (rw e404 refl, refl))
make_from-IsAnswer disk target c lost (some (d ∷ content)) e e404 = (rw e refl, inl (refl, refl))

-- For a target that is neither of the two special ones, where the page for what is not found is there and not empty,
-- MakeResponse makes a response whose Content-Length is the length of its text, and that is the file's content
-- with the code 200 or the page for what is not found with the code 404.
pub make_response-IsAnswer :
    (disk : Disk) (target : Bytes) (c : ℕ) (lost : Bytes)
    → disk (webroot ++ page_404) ≡ some (c ∷ lost)
    → eqb target (codes "./wwwroot/favicon.ico") ≡ false
    → eqb target (codes "./wwwroot/redir_test") ≡ false
    → IsAnswer
        (disk target)
        (c ∷ lost)
        (make_response disk (record new_response { targetfile = target }))
unfolding make_response
make_response-IsAnswer disk target c lost e404 icon redir =
    rw (icon, redir) (make_from-IsAnswer disk target c lost (disk target) refl e404)

-- Where that page is missing, the client that asks for a missing file is told that -1 bytes follow.
pub not_found_lost :
    (disk : Disk) (target : Bytes)
    → disk (webroot ++ page_404) ≡ none
    → (header_at
          (codes "Content-Length")
          (not_found disk (record new_response { targetfile = target })).headers
        ≡ some (codes "-1"))
      × ((not_found disk (record new_response { targetfile = target })).text ≡ [])
unfolding make_from not_found describe_file set_header new_header header_at set_code
    read_file_content file_size int_string new_response to_string
not_found_lost disk target e = (rw e refl, rw e refl)

two_hundred : to_string 200 ≡ codes "200"
unfolding to_string
two_hundred = refl

-- A request line without a carriage return, whose second word is `/login`, a question mark and arguments, is answered
-- with the status 200, a header with the length of the text in some order with the other one, and a text with the
-- arguments.
pub handler_http_page_login :
    (order : Headers → Headers) (disk : Disk) (m : ℕ) (method args version rest : Bytes)
    → IsWord (m ∷ method)
    → IsWord (codes "login" ++ (b'?' ∷ args))
    → All
        (λ c. c ≢ 13)
        (m ∷ method ++ (b' ' ∷ b'/' ∷ (codes "login" ++ (b'?' ∷ args)) ++ (b' ' ∷ version)))
    → handler_http_page order disk main_route (
        some (
          (m ∷ method ++ (b' ' ∷ b'/' ∷ (codes "login" ++ (b'?' ∷ args)) ++ (b' ' ∷ version)))
          ++ (gline ++ rest)))
      ≡ returned (
          some (
            codes "HTTP/1.0 200 ok\r\n"
            ++ (header_lines (
                  order (
                    (codes "Content-Length", to_string (length (codes "hello: " ++ args)))
                    ∷ (codes "Content-Type", codes "text/plain")
                    ∷ []))
                ++ (gline ++ (codes "hello: " ++ args)))))
unfolding handler_http_page serve_page send_page serialize_page serialize_code main_route
    register_service new_service service_at login_page set_code desc_of set_header new_header
    header_at new_response
handler_http_page_login order disk m method args version rest hm hp hl =
    let parts =
      deserialize_page_args m method (codes "login") args version rest hm hp
        (
          λ e. omega (arith, e),
          (
            λ e. omega (arith, e),
            (λ e. omega (arith, e), (λ e. omega (arith, e), (λ e. omega (arith, e), tt))),
          ),
        )
        hl in
    rw (parts.2, parts.0, parts.1, two_hundred) refl
