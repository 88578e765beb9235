-- ===== src/Log/Lines.antt =====
-- A line of test_06_18/Server/Log.hpp can be taken apart again.
use linux_system_learning.Prelude.{
  ℕ, zero, suc, ◌+◌, ◌-◌, ◌≡◌, refl, ap, sym, ◌∙◌, false, List, [], ◌∷◌, ◌++◌, arith, append_assoc,
  append-nil, All, All-append, All-take, length, if◌then◌else◌, ◌==◌,
}
use linux_system_learning.Text.{Bytes, to_string}
use linux_system_learning.Text.Decimal.{IsDigits, to_string-IsDigits}
use linux_system_learning.Log.{
  LogLevel, debug, info, warning, error, fatal, level2str, Tm, fill, padded, timebuffer,
  get_time_stamp, LogMessage, bracketed, prefix_of, add_infos,
}

-- A field in brackets in front of a line, without them, and what follows it
abbrev pub close_at : Bytes → Bytes × Bytes
close_at [] = ([], [])
close_at (c ∷ s) = let r = close_at s in if c == b']' then ([], s) else (c ∷ r.0, r.1)

abbrev pub open_at : Bytes → Bytes × Bytes
open_at [] = ([], [])
open_at (c ∷ s) = close_at s

abbrev pub fields : ℕ → Bytes → List Bytes × Bytes
fields zero s = ([], s)
fields (suc n) s = let f = open_at s in let r = fields n f.1 in (f.0 ∷ r.0, r.1)

abbrev pub joined_infos : List Bytes → Bytes
joined_infos [] = []
joined_infos (piece ∷ infos) = piece ++ joined_infos infos

abbrev pub IsUnclosed : Bytes → Type 0
IsUnclosed s = All (λ c. (c == b']') ≡ false) s

close_at-append : (s rest : Bytes) → IsUnclosed s → close_at (s ++ (b']' ∷ rest)) ≡ (s, rest)
close_at-append [] rest h = refl
close_at-append (c ∷ s) rest h =
    rw h.0 (ap (λ (r : Bytes × Bytes). (c ∷ r.0, r.1)) (close_at-append s rest h.1))

fields-bracketed :
    (n : ℕ) (s rest : Bytes)
    → IsUnclosed s
    → fields (suc n) (bracketed s rest) ≡ (s ∷ (fields n rest).0, (fields n rest).1)
fields-bracketed n s rest h =
    ap (λ (f : Bytes × Bytes). (f.0 ∷ (fields n f.1).0, (fields n f.1).1))
      (close_at-append s rest h)

add_infos-joined_infos :
    (s : Bytes) (infos : List Bytes) → add_infos s infos ≡ s ++ joined_infos infos
unfolding add_infos
add_infos-joined_infos s [] = sym (append-nil s)
add_infos-joined_infos s (piece ∷ infos) =
    add_infos-joined_infos (s ++ piece) infos ∙ append_assoc s piece (joined_infos infos)

bracketed-append : (s rest t : Bytes) → bracketed s rest ++ t ≡ bracketed s (rest ++ t)
bracketed-append s rest t = ap (λ u. b'[' ∷ u) (append_assoc s (b']' ∷ rest) t)

level-IsUnclosed : (level : LogLevel) → IsUnclosed (level2str level)
level-IsUnclosed debug = ground arith
level-IsUnclosed info = ground arith
level-IsUnclosed warning = ground arith
level-IsUnclosed error = ground arith
level-IsUnclosed fatal = ground arith

digits-IsUnclosed : (s : Bytes) → IsDigits s → IsUnclosed s
digits-IsUnclosed [] h = tt
digits-IsUnclosed (c ∷ s) h = (ground (arith, h.0), digits-IsUnclosed s h.1)

fill-IsUnclosed :
    (n c : ℕ) (s : Bytes) → (c == b']') ≡ false → IsUnclosed s → IsUnclosed (fill n c s)
unfolding fill
fill-IsUnclosed zero c s e h = h
fill-IsUnclosed (suc n) c s e h = (e, fill-IsUnclosed n c s e h)

padded-IsUnclosed : (width c n : ℕ) → (c == b']') ≡ false → IsUnclosed (padded width c n)
unfolding padded
padded-IsUnclosed width c n e =
    fill-IsUnclosed (width - length (to_string n)) c (to_string n) e
      (digits-IsUnclosed (to_string n) (to_string-IsDigits n))

before-IsUnclosed :
    (width c n d : ℕ) (rest : Bytes)
    → (c == b']') ≡ false
    → (d == b']') ≡ false
    → IsUnclosed rest
    → IsUnclosed (padded width c n ++ (d ∷ rest))
before-IsUnclosed width c n d rest e e' h =
    All-append (λ b. (b == b']') ≡ false) (padded width c n) (d ∷ rest)
      (padded-IsUnclosed width c n e) (e', h)

get_time_stamp-IsUnclosed : (t : Tm) → IsUnclosed (get_time_stamp t)
unfolding get_time_stamp
get_time_stamp-IsUnclosed t =
    All-take (λ b. (b == b']') ≡ false) (timebuffer - 1) _
      (before-IsUnclosed 4 b' ' (t.tm_year + 1900) b'-' _ refl refl (
        before-IsUnclosed 2 b'0' (t.tm_mon + 1) b'-' _ refl refl (
          before-IsUnclosed 2 b'0' t.tm_mday b' ' _ refl refl (
            before-IsUnclosed 2 b'0' t.tm_hour b':' _ refl refl (
              before-IsUnclosed 2 b'0' t.tm_min b':' _ refl refl
                (padded-IsUnclosed 2 b'0' t.tm_sec refl))))))

-- A field and what the rest is taken apart into
fields-step :
    (n : ℕ) (s rest : Bytes) (r : List Bytes × Bytes)
    → IsUnclosed s
    → fields n rest ≡ r
    → fields (suc n) (bracketed s rest) ≡ (s ∷ r.0, r.1)
fields-step n s rest r h e =
    fields-bracketed n s rest h ∙ ap (λ (f : List Bytes × Bytes). (s ∷ f.0, f.1)) e

-- The prefix with a text behind it
prefix_of-append :
    (m : LogMessage) (text : Bytes)
    → prefix_of m ++ text
      ≡ bracketed m.curr_time (
          bracketed (level2str m.level) (
            bracketed
              (to_string m.pid)
              (bracketed m.src_name (bracketed (to_string m.line_number) (b'-' ∷ text)))))
unfolding prefix_of
prefix_of-append m text =
    rw (bracketed-append, bracketed-append, bracketed-append, bracketed-append, bracketed-append)
      refl

-- A line of the log of a file whose name holds no closing bracket can be taken apart into the time stamp, the level, the
-- process, the file and the line number, and what was printed with `<<`, piece behind piece.
pub fields-add_infos :
    (t : Tm) (m : LogMessage) (infos : List Bytes)
    → m.curr_time ≡ get_time_stamp t
    → IsUnclosed m.src_name
    → fields 5 (add_infos (prefix_of m) infos) ≡ (
      get_time_stamp t
          ∷ level2str m.level
          ∷ to_string m.pid
          ∷ m.src_name
          ∷ to_string m.line_number
          ∷ [],
      b'-' ∷ joined_infos infos,
    )
fields-add_infos t m infos e h =
    let numbered : Bytes = bracketed (to_string m.line_number) (b'-' ∷ joined_infos infos) in
    let named : Bytes = bracketed m.src_name numbered in
    let of_process : Bytes = bracketed (to_string m.pid) named in
    let levelled : Bytes = bracketed (level2str m.level) of_process in
    ap (fields 5) (
      add_infos-joined_infos (prefix_of m) infos
      ∙ prefix_of-append m (joined_infos infos)
      ∙ ap (λ s. bracketed s levelled) e)
    ∙ fields-step 4 (get_time_stamp t) levelled _ (get_time_stamp-IsUnclosed t) (
        fields-step 3 (level2str m.level) of_process _ (level-IsUnclosed m.level) (
          fields-step 2 (to_string m.pid) named _
            (digits-IsUnclosed (to_string m.pid) (to_string-IsDigits m.pid))
            (fields-step 1 m.src_name numbered _ h (
              fields-step 0 (to_string m.line_number) (b'-' ∷ joined_infos infos) _
                (digits-IsUnclosed (to_string m.line_number) (to_string-IsDigits m.line_number))
                refl))))
