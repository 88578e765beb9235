-- ===== src/Pages.antt =====
-- test_04_20: how Http.hpp takes a request apart, with ReadOneLine of Util.hpp, and the content type of a file.
pub mod Requests
pub mod Response
pub mod Answers
use linux_system_learning.Prelude.{
  ℕ, suc, ◌+◌, Bool, true, false, ◌&&◌, ◌||◌, List, [], ◌∷◌, ◌++◌, Option, none, some, ◌==◌,
  if◌then◌else◌, take, drop, length,
}
use linux_system_learning.Text.{Bytes, codes, eqb, find, is_space, skip_spaces}
use linux_system_learning.Http.{word_front, word_back}

abbrev pub gline : Bytes
gline = codes "\r\n"

abbrev pub webroot : Bytes
webroot = codes "./wwwroot"

abbrev pub homepage : Bytes
homepage = codes "index.html"

-- The fields of `HttpRequest` that its operations use
pub record PageRequest : Type 0 where
  pub method : Bytes
  pub uri : Bytes
  pub version : Bytes
  pub args : Bytes
  pub is_interact : Bool

-- ReadOneLine: the line and what is left; `none` is false, and leaves both as they are.
pub line_of : Bytes → Bytes → Option ℕ → Bytes × Bytes
line_of bigstr sep none = ([], bigstr)
line_of bigstr sep (some p) = (take p bigstr, drop (p + length sep) bigstr)

pub read_one_line : Bytes → Bytes → Bytes × Bytes
unfolding line_of
read_one_line bigstr sep = line_of bigstr sep (find sep bigstr)

pub parse_req_line : Bytes → PageRequest
parse_req_line reqline =
    let ss = skip_spaces reqline in
    let ss' = skip_spaces (word_back ss) in
    let ss'' = skip_spaces (word_back ss') in
    record {
      method = word_front ss;
      uri = word_front ss';
      version = word_front ss'';
      args = [];
      is_interact = false;
    }

pub place_of : Bytes → Bytes
place_of uri = if eqb uri (codes "/") then webroot ++ uri ++ homepage else webroot ++ uri

-- The rest of Deserialize, where the question mark is found at a position or not
pub split_args : PageRequest → Bytes → Option ℕ → PageRequest
split_args req uri none = record req { uri = uri }
split_args req uri (some p) = record req {
  uri = take p uri;
  args = drop (p + 1) uri;
  is_interact = true;
}

-- Deserialize: the request, and what is left of the text
pub deserialize_page : Bytes → PageRequest × Bytes
unfolding read_one_line parse_req_line place_of split_args
deserialize_page reqstr =
    let line = read_one_line reqstr gline in
    let req = parse_req_line line.0 in
    let uri = place_of req.uri in (split_args req uri (find (codes "?") uri), line.1)

-- One more byte in front of what was searched
abbrev last_dot_at : ℕ → Bytes → Option Bytes → Option Bytes
last_dot_at c s (some suffix) = some suffix
last_dot_at c s none = if c == b'.' then some (c ∷ s) else none

-- `rfind(".")` and the text from there on
pub last_dot : Bytes → Option Bytes
last_dot [] = none
last_dot (c ∷ s) = last_dot_at c s (last_dot s)

pub type_of : Option Bytes → Bytes
type_of none = codes "text/html"
type_of (some suffix) =
    if eqb suffix (codes ".html") || eqb suffix (codes ".htm")
    then codes "text/html"
    else if eqb suffix (codes ".jpg")
    then codes "image/jpeg"
    else if eqb suffix (codes ".png")
    then codes "image/png"
    else []

pub uri2suffix : Bytes → Bytes
unfolding last_dot type_of
uri2suffix targetfile = type_of (last_dot targetfile)
