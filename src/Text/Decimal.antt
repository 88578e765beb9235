-- ===== src/Text/Decimal.antt =====
-- Decimal numbers are read back as they were printed.
use linux_system_learning.Prelude.{
  ◌==◌, ◌^◌, false, ℕ, zero, suc, ◌+◌, ◌/◌, ◌%◌, ◌≤◌, ◌<◌, ◌≡◌, refl, ◌≢◌, inl, inr, [], ◌∷◌, ◌++◌,
  none, some, arith, ltb, Bool-cases, if◌then◌else◌, All, All-append, append-nil, append_assoc,
}
use linux_system_learning.Prelude.Int.{ℤ, pos, negsuc}
use linux_system_learning.Text.{
  stoi_unsigned, stoi_signed, skip_spaces, is_space, Bytes, to_digits, to_string, scan_digits, stoi,
}

test_print : to_string 1050 ≡ 49 ∷ 48 ∷ 53 ∷ 48 ∷ []
unfolding to_string
test_print = refl

test_read : stoi (49 ∷ 48 ∷ 53 ∷ 48 ∷ []) ≡ some (pos 1050)
unfolding stoi
test_read = refl

abbrev pub IsDigits : Bytes → Type 0
IsDigits = All (λ c. (b'0' ≤ c) × (c ≤ b'9'))

pub to_digits-IsDigits : (f n : ℕ) → IsDigits (to_digits f n)
unfolding to_digits
to_digits-IsDigits zero n = omega arith
to_digits-IsDigits (suc f) n = elim (Bool-cases (ltb n 10)) [
  | inl small ↦ rw small (ground arith)
  | inr large ↦
      rw large (All-append _ (to_digits f (n / 10)) _ (to_digits-IsDigits f (n / 10)) (omega arith))
]

-- Reading goes on behind the printed number with the number as the value so far.
scan_digits-to_digits :
    (f n : ℕ) (rest : Bytes) → n ≤ f → scan_digits 0 (to_digits f n ++ rest) ≡ scan_digits n rest
unfolding to_digits scan_digits
scan_digits-to_digits zero n rest h = ground arith
scan_digits-to_digits (suc f) n rest h = elim (Bool-cases (ltb n 10)) [
  | inl small ↦ rw small (ground arith)
  | inr large ↦
      rw
        (
          large,
          append_assoc (to_digits f (n / 10)) ((b'0' + n % 10) ∷ []) rest,
          scan_digits-to_digits f (n / 10) ((b'0' + n % 10) ∷ rest) (ground arith),
        )
        (ground arith)
]

to_digits-ne-nil : (f n : ℕ) → to_digits f n ≢ []
unfolding to_digits
to_digits-ne-nil zero n = λ e. cc
to_digits-ne-nil (suc f) n = elim (Bool-cases (ltb n 10)) [
  | inl small ↦ rw small (λ e. cc)
  | inr large ↦ rw large (snoc (to_digits f (n / 10)) _)
]
  where
    snoc : (xs : Bytes) (x : ℕ) → xs ++ x ∷ [] ≢ []
    snoc [] x e = cc
    snoc (y ∷ xs) x e = cc

-- `stoi` reads the number that a run of digits stands for.
stoi-digits :
    (s : Bytes)
    → s ≢ []
    → IsDigits s
    → stoi s ≡ (if ltb (scan_digits 0 s) 0x8000_0000 then some (pos (scan_digits 0 s)) else none)
unfolding stoi
stoi-digits [] h d = absurd (h refl)
stoi-digits (c ∷ s) h d = ground (arith, d.0)

-- Every size below 2^31 is read back from its decimal print.
pub stoi-to_string : (n : ℕ) → n < 0x8000_0000 → stoi (to_string n) ≡ some (pos n)
unfolding to_string scan_digits
stoi-to_string n h =
    ground
      (arith, stoi-digits (to_digits n n) (to_digits-ne-nil n n) (to_digits-IsDigits n n), value)
  where
    value : scan_digits 0 (to_digits n n) ≡ n
    value = rw (append-nil (to_digits n n)) at (scan_digits-to_digits n n [] (omega arith))

pub to_string-IsDigits : (n : ℕ) → IsDigits (to_string n)
unfolding to_string
to_string-IsDigits n = to_digits-IsDigits n n

-- A text with no minus sign is not read as a negative number.
unsigned_nonneg :
    (s : Bytes) (n : ℤ) → stoi_unsigned false s ≡ some n → (m : ℕ) × (n ≡ pos m) × (m < 2 ^ 31)
unfolding stoi_unsigned
unsigned_nonneg [] n e = cc
unsigned_nonneg (c ∷ s) n e = (scan_digits 0 (c ∷ s), ground arith, ground arith)

signed_nonneg :
    (s : Bytes) (n : ℤ)
    → All (λ c. c ≢ b'-') s
    → stoi_signed s ≡ some n
    → (m : ℕ) × (n ≡ pos m) × (m < 2 ^ 31)
unfolding stoi_signed
signed_nonneg [] n h e = cc
signed_nonneg (c ∷ s) n h e = elim (Bool-cases (c == b'+')) [
  | inl plus ↦ unsigned_nonneg s n (ground (arith, h.0))
  | inr digit ↦ unsigned_nonneg (c ∷ s) n (ground (arith, h.0))
]

skip_spaces-All : (P : ℕ → Type 0) (s : Bytes) → All P s → All P (skip_spaces s)
unfolding skip_spaces
skip_spaces-All P [] h = tt
skip_spaces-All P (c ∷ s) h = elim (Bool-cases (is_space c)) [
  | inl e ↦ rw e (skip_spaces-All P s h.1)
  | inr e ↦ rw e h
]

pub stoi-nonneg :
    (s : Bytes) (n : ℤ)
    → All (λ c. c ≢ b'-') s
    → stoi s ≡ some n
    → (m : ℕ) × (n ≡ pos m) × (m < 2 ^ 31)
unfolding stoi
stoi-nonneg s n h e = signed_nonneg (skip_spaces s) n (skip_spaces-All (λ c. c ≢ b'-') s h) e

pub stoi_minus_six : stoi (b'-' ∷ b'6' ∷ []) ≡ some (negsuc 5)
unfolding stoi
stoi_minus_six = refl
