-- ===== src/Shell/Redirect.antt =====
-- What RedirCheck of test_02_22/myshell/myshell.cc cuts off a line.
use linux_system_learning.Prelude.{
  ℕ, zero, suc, ◌≡◌, ◌≤◌, refl, ap, ap₂, sym, ◌∙◌, false, [], ◌∷◌, ◌++◌, arith, length,
  length-append, append_assoc, ◌==◌, All, get_or, take, take-append, drop-append_add, dec_lt,
}
use linux_system_learning.Prelude.Outcome.{returned, undefined}
use linux_system_learning.Text.{Bytes, skip_spaces}
use linux_system_learning.Shell.{
  none_redir, input_redir, output_redir, append_redir, redir_out, redir_from, redir_check,
}

-- Neither `<` nor `>`
abbrev pub IsPlain : ℕ → Type 0
IsPlain c = ((c == b'<') ≡ false) × ((c == b'>') ≡ false)

get_or-IsPlain : (b : Bytes) (i : ℕ) → All IsPlain b → IsPlain (get_or b i 0)
get_or-IsPlain [] i h = (refl, refl)
get_or-IsPlain (c ∷ b) zero h = h.0
get_or-IsPlain (c ∷ b) (suc i) h = get_or-IsPlain b i h.1

get_or_at : (a b : Bytes) (c : ℕ) → get_or (a ++ c ∷ b) (length a) 0 ≡ c
get_or_at [] b c = refl
get_or_at (d ∷ a) b c = get_or_at a b c

get_or_behind : (a b : Bytes) (c d : ℕ) → get_or (a ++ c ∷ d ∷ b) (suc (length a)) 0 ≡ d
get_or_behind [] b c d = refl
get_or_behind (e ∷ a) b c d = get_or_behind a b c d

take_behind : (a b : Bytes) (c : ℕ) → take (suc (length a)) (a ++ c ∷ b) ≡ a ++ c ∷ []
take_behind [] b c = refl
take_behind (e ∷ a) b c = ap (◌∷◌ e) (take_behind a b c)

-- The loop passes over the bytes behind the last operator.
redir_from_plain :
    (cmd : Bytes) (n lo : ℕ)
    → ((j : ℕ) → lo ≤ j → IsPlain (get_or cmd j 0))
    → lo ≤ n
    → redir_from cmd n ≡ redir_from cmd lo
unfolding redir_from
redir_from_plain cmd zero lo h le = let e : zero ≡ lo = omega arith in ap (redir_from cmd) e
redir_from_plain cmd (suc n) lo h le = elim (dec_lt n lo) [
  | yes here ↦ let e : suc n ≡ lo = omega arith in ap (redir_from cmd) e
  | no further ↦
      rw (redir_from, (h n (omega arith)).0, (h n (omega arith)).1)
        (redir_from_plain cmd n lo h (omega arith))
]

IsPlain-behind :
    (a b : Bytes) (c j : ℕ) → All IsPlain b → suc (length a) ≤ j → IsPlain (get_or (a ++ c ∷ b) j 0)
IsPlain-behind [] b c zero h le = absurd (omega arith)
IsPlain-behind [] b c (suc j) h le = get_or-IsPlain b j h
IsPlain-behind (d ∷ a) b c zero h le = absurd (omega arith)
IsPlain-behind (d ∷ a) b c (suc j) h le = IsPlain-behind a b c j h (omega arith)

redir_check_plain :
    (a b : Bytes) (c : ℕ)
    → All IsPlain b
    → redir_check (a ++ c ∷ b) ≡ redir_from (a ++ c ∷ b) (suc (length a))
unfolding redir_check
redir_check_plain a b c h =
    redir_from_plain (a ++ c ∷ b) (length (a ++ c ∷ b)) (suc (length a))
      (λ j le. IsPlain-behind a b c j h le) (omega (arith, length-append a (c ∷ b)))

-- A line without `<` and `>` is left as it is.
pub redir_check-none :
    (cmd : Bytes) → All IsPlain cmd → redir_check cmd ≡ returned (cmd, none_redir, [])
unfolding redir_check redir_from
redir_check-none cmd h =
    redir_from_plain cmd (length cmd) 0 (λ j le. get_or-IsPlain cmd j h) (omega arith)

redir_check_in :
    (a b : Bytes)
    → All IsPlain b
    → redir_check (a ++ b'<' ∷ b) ≡ returned (a, input_redir, skip_spaces b)
unfolding redir_from
redir_check_in a b h =
    redir_check_plain a b b'<' h
    ∙ rw (redir_from, get_or_at a b b'<')
        (ap₂ (λ cmd file. returned (cmd, input_redir, skip_spaces file)) (take-append a (b'<' ∷ b))
          (drop-append_add a (b'<' ∷ b) 1))

redir_check_out :
    (a b : Bytes)
    → All IsPlain b
    → redir_check (a ++ b'>' ∷ b) ≡ redir_out (a ++ b'>' ∷ b) (length a)
unfolding redir_from
redir_check_out a b h = redir_check_plain a b b'>' h ∙ rw (redir_from, get_or_at a b b'>') refl

redir_out_single :
    (a b : Bytes) (c : ℕ)
    → (c == b'>') ≡ false
    → redir_out (a ++ c ∷ b'>' ∷ b) (suc (length a))
      ≡ returned (a ++ c ∷ [], output_redir, skip_spaces b)
unfolding redir_out
redir_out_single a b c other =
    rw (redir_out, get_or_at a (b'>' ∷ b) c, other)
      (ap₂ (λ cmd file. returned (cmd, output_redir, skip_spaces file)) (take_behind a (b'>' ∷ b) c)
        (drop-append_add a (c ∷ b'>' ∷ b) 2))

redir_out_double :
    (a b : Bytes)
    → redir_out (a ++ b'>' ∷ b'>' ∷ b) (suc (length a)) ≡ returned (a, append_redir, skip_spaces b)
unfolding redir_out
redir_out_double a b =
    rw (redir_out, get_or_at a (b'>' ∷ b) b'>')
      (ap₂ (λ cmd file. returned (cmd, append_redir, skip_spaces file))
        (take-append a (b'>' ∷ b'>' ∷ b)) (drop-append_add a (b'>' ∷ b'>' ∷ b) 2))

-- A `>` with a byte in front of it
redir_check_behind :
    (a b : Bytes) (c : ℕ)
    → All IsPlain b
    → redir_check (a ++ c ∷ b'>' ∷ b) ≡ redir_out (a ++ c ∷ b'>' ∷ b) (suc (length a))
redir_check_behind a b c h =
    let long : length (a ++ c ∷ []) ≡ suc (length a) = omega (arith, length-append a (c ∷ [])) in
    let whole = append_assoc a (c ∷ []) (b'>' ∷ b) in
    ap redir_check (sym whole) ∙ redir_check_out (a ++ c ∷ []) b h ∙ ap₂ redir_out whole long

-- Of a line whose last operator is `<`, `>` or `>>`, with a command in front of it that ends in another byte than
-- `>`, RedirCheck keeps the command, and what follows the operator and its spaces is the file; a line that begins with its
-- last operator, a `>`, makes it read in front of the array.
pub redir_check_last :
    (a b : Bytes) (c : ℕ)
    → (c == b'>') ≡ false
    → All IsPlain b
    → (redir_check (a ++ c ∷ b'<' ∷ b) ≡ returned (a ++ c ∷ [], input_redir, skip_spaces b))
      × (redir_check (a ++ c ∷ b'>' ∷ b) ≡ returned (a ++ c ∷ [], output_redir, skip_spaces b))
      × (redir_check (a ++ c ∷ b'>' ∷ b'>' ∷ b)
          ≡ returned (a ++ c ∷ [], append_redir, skip_spaces b))
      × (redir_check (b'>' ∷ b) ≡ undefined)
unfolding redir_out
redir_check_last a b c other h = (
  ap redir_check (sym (append_assoc a (c ∷ []) (b'<' ∷ b))) ∙ redir_check_in (a ++ c ∷ []) b h,
  redir_check_behind a b c h ∙ redir_out_single a b c other,
  ap redir_check (sym (append_assoc a (c ∷ []) (b'>' ∷ b'>' ∷ b)))
      ∙ redir_check_behind (a ++ c ∷ []) b b'>' h
      ∙ redir_out_double (a ++ c ∷ []) b,
  redir_check_out [] b h,
)
