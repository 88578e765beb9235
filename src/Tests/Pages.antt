-- ===== src/Tests/Pages.antt =====
-- The service of the file server, and a file that is not there.
use linux_system_learning.Prelude.{
  ◌≡◌, refl, [], ◌∷◌, ◌++◌, none, some, arith, length, if◌then◌else◌,
}
use linux_system_learning.Prelude.Outcome.{returned}
use linux_system_learning.Text.{codes, eqb, is_space, to_string}
use linux_system_learning.Pages.{gline, webroot}
use linux_system_learning.Pages.Response.{
  Disk, Headers, header_lines, handler_http_page, main_route, page_404,
}
use linux_system_learning.Pages.Answers.{handler_http_page_login}

-- A web root with one page, that for what is not found
abbrev one_page : Disk
one_page name = if eqb name (webroot ++ page_404) then some (codes "gone") else none

abbrev as_set : Headers → Headers
as_set headers = headers

handler_http_page_login_example :
    handler_http_page as_set one_page main_route (
      some (
        (b'G' ∷ codes "ET"
          ++ (b' ' ∷ b'/' ∷ (codes "login" ++ (b'?' ∷ codes "n=1")) ++ (b' ' ∷ codes "HTTP/1.1")))
        ++ (gline ++ codes "Host: a\r\n\r\n")))
    ≡ returned (
        some (
          codes "HTTP/1.0 200 ok\r\n"
          ++ (header_lines (
                as_set (
                  (codes "Content-Length", to_string (length (codes "hello: " ++ codes "n=1")))
                  ∷ (codes "Content-Type", codes "text/plain")
                  ∷ []))
              ++ (gline ++ (codes "hello: " ++ codes "n=1")))))
unfolding is_space
handler_http_page_login_example =
    handler_http_page_login as_set one_page b'G' (codes "ET") (codes "n=1") (codes "HTTP/1.1")
      (codes "Host: a\r\n\r\n") (refl, (refl, (refl, tt)))
      (refl, (refl, (refl, (refl, (refl, (refl, (refl, (refl, (refl, tt))))))))) (ground arith)
