-- ===== src/Dict.antt =====
-- test_04_03/2. dictserver/Dict.hpp: the lines of the file, and a translation.
pub mod Entries
use linux_system_learning.Prelude.{
  ℕ, ◌+◌, Bool, true, false, ◌||◌, List, [], ◌∷◌, ◌++◌, Option, none, some, if◌then◌else◌, take,
  drop, length,
}
use linux_system_learning.Prelude.Outcome.{Outcome, returned, undefined}
use linux_system_learning.Text.{Bytes, codes, eqb, find}

abbrev pub colon : Bytes
colon = codes ":"

abbrev pub is_empty : Bytes → Bool
is_empty [] = true
is_empty (c ∷ s) = false

-- `_dict`, in which a key stands once
abbrev pub Words : Type 0
Words = List (Bytes × Bytes)

unfoldable pub find_word : Bytes → Words → Option Bytes
find_word word [] = none
find_word word (entry ∷ dict) = if eqb entry.0 word then some entry.1 else find_word word dict

-- `insert` leaves a key that is there as it is.
pub insert_word : Bytes → Bytes → Words → Option Bytes → Words
insert_word en ch dict none = (en, ch) ∷ dict
insert_word en ch dict (some old) = dict

pub load_pair : Words → Bytes → Bytes → Words
unfolding insert_word
load_pair dict en ch =
    if is_empty en || is_empty ch then dict else insert_word en ch dict (find_word en dict)

-- The body of the loop of LoadDict, where the separator is found at a position or not
pub load_at : Words → Bytes → Option ℕ → Words
unfolding load_pair
load_at dict line none = dict
load_at dict line (some p) = load_pair dict (take p line) (drop (p + length colon) line)

-- The loop of LoadDict over the lines of a file that is open
pub load_dict : Words → List Bytes → Words
unfolding load_at
load_dict dict [] = dict
load_dict dict (line ∷ lines) = load_dict (load_at dict line (find colon line)) lines

-- LoadDict, where the file opens, with these lines, or does not
pub load_dict_from : Words → Option (List Bytes) → Bool × Words
unfolding load_dict
load_dict_from dict none = (false, dict)
load_dict_from dict (some lines) = (true, load_dict dict lines)

-- Translate: `iter->second` is read for the log, also where `iter` is the end.
pub translate_at : Bytes → Option Bytes → Outcome Bytes
translate_at word none = undefined
translate_at word (some second) = returned word

pub translate : Words → Bytes → Outcome Bytes
unfolding translate_at
translate dict word = translate_at word (find_word word dict)
