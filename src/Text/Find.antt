-- ===== src/Text/Find.antt =====
-- Where a separator is found.
use linux_system_learning.Prelude.{
  zero, suc, ◌+◌, ◌<◌, none, take, ℕ, ◌≡◌, refl, ◌≢◌, true, [], ◌∷◌, ◌++◌, some, arith, length, All,
}
use linux_system_learning.Text.{Bytes, c_str, starts_with, find}

pub starts_with-append : (p s : Bytes) → starts_with p (p ++ s) ≡ true
starts_with-append [] s = refl
starts_with-append (c ∷ p) s = ground (arith, starts_with-append p s)

-- A line without the separator's first byte ends at the separator.
pub find-append :
    (line : Bytes) (c : ℕ) (sep rest : Bytes)
    → All (λ x. x ≢ c) line
    → find (c ∷ sep) (line ++ ((c ∷ sep) ++ rest)) ≡ some (length line)
unfolding find
find-append [] c sep rest h = ground (arith, starts_with-append (c ∷ sep) rest)
find-append (x ∷ line) c sep rest h = ground (arith, find-append line c sep rest h.1, h.0)

-- In a text that stops before the separator's end, a separator of two bytes is not found.
pub find-take :
    (k : ℕ) (line : Bytes) (c d : ℕ) (rest : Bytes)
    → All (λ x. x ≢ c) line
    → k < length line + 2
    → find (c ∷ d ∷ []) (take k (line ++ (c ∷ d ∷ rest))) ≡ none
unfolding find
find-take zero line c d rest h k = refl
find-take (suc zero) [] c d rest h k = ground arith
find-take (suc (suc n)) [] c d rest h k = absurd (omega arith)
find-take (suc n) (x ∷ line) c d rest h k =
    ground (arith, find-take n line c d rest h.1 (omega arith), h.0)

pub find-nil : (sep : Bytes) → find sep [] ≡ none
unfolding find
find-nil sep = refl

pub find_minus_six : (rest : Bytes) → find (13 ∷ 10 ∷ []) (b'-' ∷ b'6' ∷ 13 ∷ 10 ∷ rest) ≡ some 2
unfolding find
find_minus_six rest = refl

pub c_str_of_All : (s : Bytes) → All (λ c. c ≢ 0) s → c_str s ≡ s
unfolding c_str
c_str_of_All [] h = refl
c_str_of_All (c ∷ s) h = ground (arith, c_str_of_All s h.1, h.0)
