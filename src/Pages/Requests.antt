-- ===== src/Pages/Requests.antt =====
-- What Deserialize and Uri2Suffix of test_04_20/Http.hpp make of a request and of a file name.
use linux_system_learning.Prelude.{
  ℕ, ◌+◌, ◌≡◌, ◌≢◌, refl, ap, ◌∙◌, true, false, [], ◌∷◌, ◌++◌, some, arith, All, drop, length,
  take-append, drop-append_add, All-append,
}
use linux_system_learning.Text.{Bytes, codes, eqb, find, is_space, skip_spaces}
use linux_system_learning.Text.Find.{find-append}
use linux_system_learning.Http.{word_front, word_back}
use linux_system_learning.Pages.{
  gline, webroot, PageRequest, line_of, read_one_line, parse_req_line, place_of, split_args,
  deserialize_page, last_dot, last_dot_at, type_of, uri2suffix,
}

-- A word of a request line: no space in it.
abbrev pub IsWord : Bytes → Type 0
IsWord word = All (λ c. is_space c ≡ false) word

word_front-append : (word rest : Bytes) → IsWord word → word_front (word ++ (b' ' ∷ rest)) ≡ word
unfolding word_front is_space
word_front-append [] rest h = refl
word_front-append (c ∷ word) rest h =
    rw (word_front, h.0) (ap (◌∷◌ c) (word_front-append word rest h.1))

word_back-append :
    (word rest : Bytes) → IsWord word → word_back (word ++ (b' ' ∷ rest)) ≡ b' ' ∷ rest
unfolding word_back is_space
word_back-append [] rest h = refl
word_back-append (c ∷ word) rest h = rw (word_back, h.0) (word_back-append word rest h.1)

skip_spaces-append :
    (c : ℕ) (word rest : Bytes)
    → is_space c ≡ false
    → skip_spaces (c ∷ word ++ rest) ≡ c ∷ word ++ rest
unfolding skip_spaces
skip_spaces-append c word rest h = rw (skip_spaces, h) refl

skip_one : (c : ℕ) (s : Bytes) → is_space c ≡ false → skip_spaces (b' ' ∷ c ∷ s) ≡ c ∷ s
unfolding skip_spaces is_space
skip_one c s h = rw (skip_spaces, h) refl

slash : is_space b'/' ≡ false
unfolding is_space
slash = refl

root_free :
    (path : Bytes) → All (λ c. c ≢ b'?') path → All (λ c. c ≢ b'?') (webroot ++ (b'/' ∷ path))
root_free path h =
    All-append (λ c. c ≢ b'?') webroot (b'/' ∷ path) (ground arith) ((λ e. omega (arith, e)), h)

words_of :
    (m : ℕ) (method path version : Bytes)
    → IsWord (m ∷ method)
    → IsWord path
    → (parse_req_line (m ∷ method ++ (b' ' ∷ b'/' ∷ path ++ (b' ' ∷ version)))).uri ≡ b'/' ∷ path
unfolding parse_req_line
words_of m method path version hm hp =
    let tail = b'/' ∷ path ++ (b' ' ∷ version) in
    ap (λ s. word_front (skip_spaces (word_back s)))
      (skip_spaces-append m method (b' ' ∷ tail) hm.0)
    ∙ ap (λ s. word_front (skip_spaces s)) (word_back-append (m ∷ method) tail hm)
    ∙ ap word_front (skip_one b'/' (path ++ (b' ' ∷ version)) slash)
    ∙ word_front-append (b'/' ∷ path) version (slash, hp)

nil-eqb : (path rest : Bytes) (c : ℕ) → eqb (path ++ (c ∷ rest)) [] ≡ false
nil-eqb [] rest c = refl
nil-eqb (d ∷ path) rest c = refl

place_of_path :
    (path args : Bytes)
    → place_of (b'/' ∷ path ++ (b'?' ∷ args)) ≡ webroot ++ (b'/' ∷ path ++ (b'?' ∷ args))
unfolding place_of
place_of_path path args = rw (nil-eqb path args b'?') refl

split_args_path :
    (req : PageRequest) (path args : Bytes)
    → All (λ c. c ≢ b'?') path
    → split_args req
        (webroot ++ (b'/' ∷ path ++ (b'?' ∷ args)))
        (find (codes "?") (webroot ++ (b'/' ∷ path ++ (b'?' ∷ args))))
      ≡ record req { uri = webroot ++ (b'/' ∷ path); args = args; is_interact = true }
unfolding split_args
split_args_path req path args h =
    let place = webroot ++ (b'/' ∷ path) in
    ap (split_args req (place ++ (b'?' ∷ args))) (find-append place b'?' [] args (root_free path h))
    ∙ ap
        (λ u. record req {
          uri = u;
          args = drop (length place + 1) (place ++ (b'?' ∷ args));
          is_interact = true;
        })
        (take-append place (b'?' ∷ args))
    ∙ ap (λ a. record req { uri = place; args = a; is_interact = true })
        (drop-append_add place (b'?' ∷ args) 1)

read_one_line-append :
    (line rest : Bytes)
    → All (λ c. c ≢ 13) line
    → read_one_line (line ++ (gline ++ rest)) gline ≡ (line, rest)
unfolding read_one_line line_of
read_one_line-append line rest h =
    rw
      (
        find-append line 13 (10 ∷ []) rest h,
        take-append line (gline ++ rest),
        drop-append_add line (gline ++ rest) 2,
      )
      refl

-- Of a request line without a carriage return, whose second word is a path from the root, a question mark and
-- arguments, Deserialize takes the path under the web root as the file, the arguments behind the first question
-- mark, and marks the request as one for a service; the lines behind are left in the text.
pub deserialize_page_args :
    (m : ℕ) (method path args version rest : Bytes)
    → IsWord (m ∷ method)
    → IsWord (path ++ (b'?' ∷ args))
    → All (λ c. c ≢ b'?') path
    → All (λ c. c ≢ 13) (m ∷ method ++ (b' ' ∷ b'/' ∷ (path ++ (b'?' ∷ args)) ++ (b' ' ∷ version)))
    → let text =
        (m ∷ method ++ (b' ' ∷ b'/' ∷ (path ++ (b'?' ∷ args)) ++ (b' ' ∷ version)))
        ++ (gline ++ rest) in
      ((deserialize_page text).0.uri ≡ webroot ++ (b'/' ∷ path))
      × ((deserialize_page text).0.args ≡ args)
      × ((deserialize_page text).0.is_interact ≡ true)
      × ((deserialize_page text).1 ≡ rest)
unfolding deserialize_page
deserialize_page_args m method path args version rest hm hp hq hl =
    let line = m ∷ method ++ (b' ' ∷ b'/' ∷ (path ++ (b'?' ∷ args)) ++ (b' ' ∷ version)) in
    let read = read_one_line-append line rest hl in
    let req = parse_req_line line in
    let uri = place_of req.uri in
    let whole =
      ap
        (λ l.
          let r = parse_req_line l.0 in
          let u = place_of r.uri in split_args r u (find (codes "?") u))
        read
      ∙ ap (λ w. let u = place_of w in split_args req u (find (codes "?") u))
          (words_of m method (path ++ (b'?' ∷ args)) version hm hp)
      ∙ ap (λ u. split_args req u (find (codes "?") u)) (place_of_path path args)
      ∙ split_args_path req path args hq in
    (
      ap (λ r. r.uri) whole,
      ap (λ r. r.args) whole,
      ap (λ r. r.is_interact) whole,
      ap (λ l. l.1) read,
    )

last_dot-append :
    (name s suffix : Bytes) → last_dot s ≡ some suffix → last_dot (name ++ s) ≡ some suffix
unfolding last_dot
last_dot-append [] s suffix h = h
last_dot-append (c ∷ name) s suffix h =
    ap (last_dot_at c (name ++ s)) (last_dot-append name s suffix h)

-- The content type of a file depends on what follows its last dot: a page, a JPEG and a PNG image are known
-- whatever stands in front, and a style sheet has none.
pub uri2suffix_of :
    (name : Bytes)
    → (uri2suffix (name ++ codes ".html") ≡ codes "text/html")
      × (uri2suffix (name ++ codes ".htm") ≡ codes "text/html")
      × (uri2suffix (name ++ codes ".jpg") ≡ codes "image/jpeg")
      × (uri2suffix (name ++ codes ".png") ≡ codes "image/png")
      × (uri2suffix (name ++ codes ".css") ≡ [])
unfolding uri2suffix type_of last_dot
uri2suffix_of name = (
  ap type_of (last_dot-append name (codes ".html") (codes ".html") refl),
  ap type_of (last_dot-append name (codes ".htm") (codes ".htm") refl),
  ap type_of (last_dot-append name (codes ".jpg") (codes ".jpg") refl),
  ap type_of (last_dot-append name (codes ".png") (codes ".png") refl),
  ap type_of (last_dot-append name (codes ".css") (codes ".css") refl),
)
