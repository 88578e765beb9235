-- ===== src/SessionLog/Files.antt =====
-- Which lines stand in which file of the log of test_05_03/session/Log.hpp.
use linux_system_learning.Prelude.{
  ℕ, ◌≡◌, refl, ap, sym, ◌∙◌, Bool, true, false, List, [], ◌∷◌, ◌++◌, Option, none, some, ◌==◌,
  if◌then◌else◌, arith, append-nil, append_assoc, Bool-cases, inl, inr,
}
use linux_system_learning.Text.{Bytes, codes, eqb}
use linux_system_learning.Text.Equal.{eqb→eq, eqb_sym}
use linux_system_learning.SessionLog.{
  screen_style, one_file, class_file, level_to_string, log_info, Logged, append_file,
  write_log_to_one_file, class_name, write_log, LogCall, enable, log_message, log_calls,
}

-- What a file holds
abbrev pub content_at : Bytes → List (Bytes × Bytes) → Bytes
content_at name [] = []
content_at name ((other, content) ∷ files) =
    if eqb other name then content else content_at name files

-- A file's share of a line
abbrev share : Bytes → Bytes → Bytes → Bytes
share logname name message = if eqb logname name then message else []

same_name : (a b c : Bytes) → eqb a b ≡ true → eqb a c ≡ eqb b c
same_name a b c h = ap (λ (x : Bytes). eqb x c) (eqb→eq a b h)

other_name : (a b c : Bytes) → eqb a b ≡ false → eqb a c ≡ true → eqb b c ≡ false
other_name a b c h k = elim (Bool-cases (eqb b c)) [
  | inl e ↦ cc (h, sym (eqb_sym b a) ∙ ap (eqb b) (eqb→eq a c k) ∙ e)
  | inr e ↦ e
]

-- With the answers of the three comparisons
appended :
    (a b c : Bool) (content message : Bytes) (name other : Bytes)
    (files files' : List (Bytes × Bytes))
    → (a ≡ true → b ≡ c)
    → (a ≡ false → b ≡ true → c ≡ false)
    → eqb other name ≡ b
    → content_at name files' ≡ content_at name files ++ (if c then message else [])
    → content_at name (if a then (other, content ++ message) ∷ files else (other, content) ∷ files')
      ≡ (if b then content else content_at name files) ++ (if c then message else [])
appended true true true content message name other files files' f g e ih = rw e refl
appended true true false content message name other files files' f g e ih = cc (f refl)
appended true false true content message name other files files' f g e ih = cc (f refl)
appended true false false content message name other files files' f g e ih =
    rw e (sym (append-nil (content_at name files)))
appended false true true content message name other files files' f g e ih = cc (g refl refl)
appended false true false content message name other files files' f g e ih =
    rw e (sym (append-nil content))
appended false false c content message name other files files' f g e ih = rw e ih

content_at-append_file :
    (logname message name : Bytes) (files : List (Bytes × Bytes))
    → content_at name (append_file logname message files)
      ≡ content_at name files ++ share logname name message
unfolding append_file
content_at-append_file logname message name [] = refl
content_at-append_file logname message name ((other, content) ∷ files) =
    appended (eqb other logname) (eqb other name) (eqb logname name) content message name other
      files (append_file logname message files) (same_name other logname name)
      (other_name other logname name) refl (content_at-append_file logname message name files)

-- The file that a style sends the lines of a level to
abbrev pub file_of : ℕ → Bytes → Option Bytes
file_of style levelstr =
    if style == one_file
    then some (codes "log/log.all")
    else if style == class_file
    then some (codes "log/log." ++ levelstr)
    else none

-- A file's share of a line that goes to `file`
abbrev share_of : Option Bytes → Bytes → Bytes → Bytes
share_of none name line = []
share_of (some file) name line = if eqb file name then line else []

-- The lines of the calls that a style sends to the file `name`, one behind the other
abbrev pub lines_for : Bytes → ℕ → List LogCall → Bytes
lines_for name style [] = []
lines_for name style (enable sty ∷ calls) = lines_for name sty calls
lines_for name style (log_message level now pid text ∷ calls) =
    share_of (file_of style (level_to_string level)) name (log_info level now pid text)
    ++ lines_for name style calls

write_log-share :
    (style : ℕ) (levelstr message name : Bytes) (s : Logged)
    → content_at name (write_log style true levelstr message s).files
      ≡ content_at name s.files ++ share_of (file_of style levelstr) name message
unfolding write_log write_log_to_one_file class_name
write_log-share style levelstr message name s = elim (Bool-cases (style == screen_style)) [
  | inl e ↦
      let ten : style ≡ screen_style = ground (arith, e) in
      rw ten (sym (append-nil (content_at name s.files)))
  | inr e ↦ elim (Bool-cases (style == one_file)) [
    | inl f ↦ rw (e, f) (content_at-append_file (codes "log/log.all") message name s.files)
    | inr f ↦ elim (Bool-cases (style == class_file)) [
      | inl g ↦
          rw (e, f, g) (content_at-append_file (codes "log/log." ++ levelstr) message name s.files)
      | inr g ↦ rw (e, f, g) (sym (append-nil (content_at name s.files)))
    ]
  ]
]

-- Where the files open: behind what it held before, every file holds the lines of the calls that were made while the
-- style sent their level there, whole, once and in order: with OneFile all of them in log/log.all, with ClassFile those of
-- a level in the file of that level, with other styles none.
pub log_calls-lines_for :
    (name : Bytes) (style : ℕ) (calls : List LogCall) (s : Logged)
    → content_at name (log_calls style calls s).files
      ≡ content_at name s.files ++ lines_for name style calls
unfolding log_calls
log_calls-lines_for name style [] s = sym (append-nil (content_at name s.files))
log_calls-lines_for name style (enable sty ∷ calls) s = log_calls-lines_for name sty calls s
log_calls-lines_for name style (log_message level now pid text ∷ calls) s =
    log_calls-lines_for name style calls
      (write_log style true (level_to_string level) (log_info level now pid text) s)
    ∙ ap (λ (b : Bytes). b ++ lines_for name style calls)
        (write_log-share style (level_to_string level) (log_info level now pid text) name s)
    ∙ append_assoc (content_at name s.files)
        (share_of (file_of style (level_to_string level)) name (log_info level now pid text))
        (lines_for name style calls)
