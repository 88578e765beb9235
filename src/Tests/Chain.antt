-- ===== src/Tests/Chain.antt =====
-- The chain of handlers on three texts, with the clock going on between them.
use linux_system_learning.Prelude.{◌≡◌, true, List, [], ◌∷◌, ◌++◌, All, arith}
use linux_system_learning.Text.{Bytes, codes}
use linux_system_learning.Chain.{
  Moment, renamed, packed, content_of, handler_entry, run_texts, new_disk,
}
use linux_system_learning.Chain.Kept.{contents, IsStored, run_texts_keep}

-- An archive is the content with a byte in front.
abbrev boxed : Bytes → Bytes
boxed content = b'T' ∷ content

abbrev six_lines : Bytes
six_lines = 10 ∷ 10 ∷ 10 ∷ 10 ∷ 10 ∷ []

abbrev three_texts : List (Moment × Bytes)
three_texts =
    (record { now = 1; pid = 9; opens = true; later = 2; packing = packed }, six_lines)
    ∷ (record { now = 3; pid = 9; opens = true; later = 4; packing = renamed }, six_lines)
    ∷ (record { now = 5; pid = 9; opens = true; later = 6; packing = packed }, codes "end")
    ∷ []

run_texts_keep_example :
    ((run_texts boxed (handler_entry true true true) three_texts new_disk).0.written
      ≡ contents (run_texts boxed (handler_entry true true true) three_texts new_disk).0.made
        ++ content_of (run_texts boxed (handler_entry true true true) three_texts new_disk).0.file)
    × All
        (IsStored boxed (run_texts boxed (handler_entry true true true) three_texts new_disk).0)
        (run_texts boxed (handler_entry true true true) three_texts new_disk).0.made
run_texts_keep_example =
    run_texts_keep boxed true true true three_texts (omega arith, (omega arith, (omega arith, tt)))
