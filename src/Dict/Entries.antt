-- ===== src/Dict/Entries.antt =====
-- What test_04_03/2. dictserver/Dict.hpp knows after it has read a file.
use linux_system_learning.Prelude.{
  ℕ, ◌+◌, ◌≡◌, ◌≢◌, refl, ap, sym, ◌∙◌, false, ◌||◌, List, [], ◌∷◌, ◌++◌, Option, none, some, take,
  drop, All, take-append, drop-append_add, if_cases,
}
use linux_system_learning.Prelude.Outcome.{returned}
use linux_system_learning.Text.{Bytes, eqb, find}
use linux_system_learning.Text.Find.{find-append}
use linux_system_learning.Text.Equal.{eqb_refl, eqb→eq}
use linux_system_learning.Dict.{
  colon, is_empty, Words, find_word, insert_word, load_pair, load_at, load_dict, translate,
  translate_at,
}

absurd_none : (second : Bytes) → none ≡ some second → ⊥
absurd_none second e = cc

-- A word that is known keeps its meaning when another pair, or the same word again, is inserted.
insert_word-keeps :
    (en ch word second : Bytes) (dict : Words) (o : Option Bytes)
    → find_word en dict ≡ o
    → find_word word dict ≡ some second
    → find_word word (insert_word en ch dict o) ≡ some second
unfolding find_word insert_word
insert_word-keeps en ch word second dict (some old) e h = h
insert_word-keeps en ch word second dict none e h =
    if_cases (λ o. o ≡ some second) (eqb en word)
      (λ t. absurd (absurd_none second (sym e ∙ ap (λ w. find_word w dict) (eqb→eq en word t) ∙ h)))
      (λ f. h)

load_pair-keeps :
    (en ch word second : Bytes) (dict : Words)
    → find_word word dict ≡ some second
    → find_word word (load_pair dict en ch) ≡ some second
unfolding load_pair
load_pair-keeps en ch word second dict h =
    if_cases (λ d. find_word word d ≡ some second) (is_empty en || is_empty ch) (λ t. h)
      (λ f. insert_word-keeps en ch word second dict (find_word en dict) refl h)

load_at-keeps :
    (line word second : Bytes) (dict : Words) (o : Option ℕ)
    → find_word word dict ≡ some second
    → find_word word (load_at dict line o) ≡ some second
unfolding load_at
load_at-keeps line word second dict none h = h
load_at-keeps line word second dict (some p) h =
    load_pair-keeps (take p line) (drop (p + 1) line) word second dict h

load_dict-keeps :
    (lines : List Bytes) (word second : Bytes) (dict : Words)
    → find_word word dict ≡ some second
    → find_word word (load_dict dict lines) ≡ some second
unfolding load_dict
load_dict-keeps [] word second dict h = h
load_dict-keeps (line ∷ lines) word second dict h =
    load_dict-keeps lines word second (load_at dict line (find colon line))
      (load_at-keeps line word second dict (find colon line) h)

load_at_line :
    (dict : Words) (en ch : Bytes)
    → All (λ c. c ≢ 58) en
    → is_empty en ≡ false
    → is_empty ch ≡ false
    → find_word en dict ≡ none
    → find_word en (load_at dict (en ++ (colon ++ ch)) (find colon (en ++ (colon ++ ch)))) ≡ some ch
unfolding load_at load_pair insert_word find_word
load_at_line dict en ch h some_en some_ch new =
    rw
      (
        find-append en 58 [] ch h,
        take-append en (colon ++ ch),
        drop-append_add en (colon ++ ch) 1,
        some_en,
        some_ch,
        new,
        eqb_refl en,
      )
      refl

-- Of a line `en:ch`, where `en` has no colon, neither part is empty and `en` is not known before it, LoadDict
-- keeps `ch` as the meaning of `en` whatever lines follow; Translate then answers `en` with `en` itself.
pub load_dict_line :
    (dict : Words) (en ch : Bytes) (lines : List Bytes)
    → All (λ c. c ≢ 58) en
    → is_empty en ≡ false
    → is_empty ch ≡ false
    → find_word en dict ≡ none
    → (find_word en (load_dict dict ((en ++ (colon ++ ch)) ∷ lines)) ≡ some ch)
      × (translate (load_dict dict ((en ++ (colon ++ ch)) ∷ lines)) en ≡ returned en)
unfolding load_dict translate
load_dict_line dict en ch lines h some_en some_ch new =
    let known =
      load_dict-keeps lines en ch
        (load_at dict (en ++ (colon ++ ch)) (find colon (en ++ (colon ++ ch))))
        (load_at_line dict en ch h some_en some_ch new) in
    (known, ap (translate_at en) known)
