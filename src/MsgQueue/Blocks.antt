-- ===== src/MsgQueue/Blocks.antt =====
-- A text in the block that test_03_18/MsgQueue.hpp sends.
use linux_system_learning.Prelude.{
  ℕ, zero, suc, ◌-◌, ◌<◌, ◌≡◌, refl, true, [], ◌∷◌, ◌++◌, arith, length, replicate, All,
}
use linux_system_learning.Prelude.Outcome.{returned}
use linux_system_learning.Text.{Bytes, c_str}
use linux_system_learning.MsgQueue.{default_size, message_of, has_zero, text_of}

-- A text that fits into the block with a zero behind it, and that has none itself
abbrev pub FitsBlock : Bytes → Type 0
FitsBlock text = (length text < default_size) × All (λ c. 0 < c) text

abbrev pub block_of : Bytes → Bytes
block_of text = text ++ replicate (default_size - length text) 0

pub message_of-fits : (text : Bytes) → FitsBlock text → message_of text ≡ returned (block_of text)
unfolding message_of
message_of-fits text h = ground arith

zeros : (k : ℕ) → 0 < k → (has_zero (replicate k 0) ≡ true) × (c_str (replicate k 0) ≡ [])
unfolding has_zero c_str
zeros zero h = elim h [ ]
zeros (suc k) h = (refl, refl)

padded_text :
    (text : Bytes) (k : ℕ)
    → 0 < k
    → All (λ c. 0 < c) text
    → (has_zero (text ++ replicate k 0) ≡ true) × (c_str (text ++ replicate k 0) ≡ text)
unfolding has_zero c_str
padded_text [] k h a = zeros k h
padded_text (c ∷ text) k h a = ground (arith, padded_text text k h a.1)

pub text_of-block_of : (text : Bytes) → FitsBlock text → text_of (block_of text) ≡ returned text
unfolding text_of
text_of-block_of text h =
    let (z, e) = padded_text text (default_size - length text) (omega (arith, h.0)) h.1 in
    rw (z, e) refl
