-- ===== src/Http/Lines.antt =====
-- HttpRequest of test_05_03/session/HttpProtocol.hpp: what Deserialize makes of a request.
use linux_system_learning.Prelude.{
  ℕ, zero, suc, ◌+◌, ◌<◌, ◌≡◌, ◌≢◌, refl, ap, sym, true, false, List, [], ◌∷◌, ◌++◌, Option, none,
  some, arith, All, length, if_cases, append_assoc, append-nil, length-append, take-append,
  drop-append_add, length-drop,
}
use linux_system_learning.Prelude.Outcome.{returned, Returns, Returns-bind}
use linux_system_learning.Text.{Bytes, find}
use linux_system_learning.Text.Find.{find-append, find-nil}
use linux_system_learning.Http.{
  http_sep, is_empty, line_at, get_line, HttpRequest, header_lines, deserialize,
}

-- The lines of a request, each behind its separator.
abbrev pub lines : List Bytes → Bytes
lines [] = []
lines (line ∷ rest) = line ++ (http_sep ++ lines rest)

-- A line without a carriage return.
abbrev pub IsLine : Bytes → Type 0
IsLine line = All (λ c. c ≢ 13) line

pub get_line-append :
    (line rest : Bytes) → IsLine line → get_line (line ++ (http_sep ++ rest)) ≡ some (line, rest)
unfolding get_line line_at
get_line-append line rest h =
    rw
      (
        find-append line 13 (10 ∷ []) rest h,
        take-append line (http_sep ++ rest),
        drop-append_add line (http_sep ++ rest) 2,
      )
      refl

pub header_lines-append :
    (headers : List Bytes) (content : Bytes) (req : HttpRequest) (f : ℕ)
    → All (λ line. IsLine line × (is_empty line ≡ false)) headers
    → length headers < f
    → header_lines f req (lines headers ++ (http_sep ++ content))
      ≡ returned
          (record req { req_header = req.req_header ++ headers; req_content = content }, content)
unfolding header_lines
header_lines-append headers content req zero h f = absurd (omega arith)
header_lines-append [] content req (suc f) h less =
    rw (header_lines, get_line-append [] content tt)
      (ap (λ hs. returned (record req { req_header = hs; req_content = content }, content))
        (sym (append-nil req.req_header)))
header_lines-append (line ∷ headers) content req (suc f) h less =
    rw
      (
        header_lines,
        append_assoc line (http_sep ++ lines headers) (http_sep ++ content),
        get_line-append line (lines headers ++ (http_sep ++ content)) h.0.0,
        h.0.1,
        header_lines-append headers content
            (record req { req_header = req.req_header ++ line ∷ [] }) f h.1 (omega arith),
      )
      (ap (λ hs. returned (record req { req_header = hs; req_content = content }, content))
        (append_assoc req.req_header (line ∷ []) headers))

lines_longer :
    (headers : List Bytes) (rest : Bytes) → length headers < suc (length (lines headers ++ rest))
lines_longer [] rest = omega arith
lines_longer (line ∷ headers) rest = omega (
  arith,
  lines_longer headers rest,
  length-append (line ++ (http_sep ++ lines headers)) rest,
  length-append line (http_sep ++ lines headers),
  length-append (lines headers) rest,
)

abbrev pub first_line : Bytes → HttpRequest → HttpRequest
first_line line req = record req { req_line = line }

-- A request whose lines have no carriage return, and whose header lines are not empty, is taken apart into its first
-- line, its header lines in order and the content behind the empty line, whatever the content is.
pub deserialize-lines :
    (req : HttpRequest) (line : Bytes) (headers : List Bytes) (content : Bytes)
    → IsLine line
    → All (λ header. IsLine header × (is_empty header ≡ false)) headers
    → deserialize req (line ++ (http_sep ++ (lines headers ++ (http_sep ++ content))))
      ≡ returned (
        true,
        record req {
          req_line = line;
          req_header = req.req_header ++ headers;
          req_content = content;
        },
        content,
      )
unfolding deserialize
deserialize-lines req line headers content h hs =
    let rest = lines headers ++ (http_sep ++ content) in
    rw
      (
        deserialize,
        get_line-append line rest h,
        header_lines-append headers content (first_line line req) (suc (length rest)) hs
            (lines_longer headers (http_sep ++ content)),
      )
      refl

abbrev Shorter : Bytes → Option (Bytes × Bytes) → Type 0
Shorter str none = Unit
Shorter str (some (line, rest)) = length rest < length str

line_at-Shorter : (c : ℕ) (s : Bytes) (o : Option ℕ) → Shorter (c ∷ s) (line_at (c ∷ s) o)
unfolding line_at
line_at-Shorter c s none = tt
line_at-Shorter c s (some p) = omega (arith, length-drop (p + 2) (c ∷ s))

get_line-Shorter : (str : Bytes) → Shorter str (get_line str)
unfolding get_line line_at
get_line-Shorter [] = rw (find-nil http_sep) tt
get_line-Shorter (c ∷ s) = line_at-Shorter c s (find http_sep (c ∷ s))

header_lines_end_at :
    (f : ℕ) (req : HttpRequest) (request : Bytes) (o : Option (Bytes × Bytes))
    → get_line request ≡ o
    → Shorter request o
    → ((req' : HttpRequest) (rest : Bytes) → length rest < f → Returns (header_lines f req' rest))
    → length request < suc f
    → Returns (header_lines (suc f) req request)
unfolding header_lines
header_lines_end_at f req request none e s ih le = rw (header_lines, e) ((req, request), refl)
header_lines_end_at f req request (some (line, rest)) e s ih le =
    rw (header_lines, e)
      (if_cases Returns (is_empty line) (λ t. (_, refl)) (λ t. ih _ rest (omega arith)))

header_lines_end :
    (f : ℕ) (req : HttpRequest) (request : Bytes)
    → length request < f
    → Returns (header_lines f req request)
header_lines_end zero req request le = absurd (omega arith)
header_lines_end (suc f) req request le =
    header_lines_end_at f req request (get_line request) refl (get_line-Shorter request)
      (header_lines_end f) le

deserialize_end_at :
    (req : HttpRequest) (request : Bytes) (o : Option (Bytes × Bytes))
    → get_line request ≡ o
    → Returns (deserialize req request)
unfolding deserialize
deserialize_end_at req request none e = rw (deserialize, e) (_, refl)
deserialize_end_at req request (some (line, rest)) e =
    rw (deserialize, e)
      (Returns-bind (header_lines (suc (length rest)) (first_line line req) rest) _
        (header_lines_end (suc (length rest)) _ rest (omega arith)) (λ r. (_, refl)))

-- Deserialize returns on every text.
pub deserialize_ends : (req : HttpRequest) (request : Bytes) → Returns (deserialize req request)
deserialize_ends req request = deserialize_end_at req request (get_line request) refl
