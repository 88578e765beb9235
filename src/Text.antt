-- ===== src/Text.antt =====
-- std::string as a list of bytes: the members that the source calls, in its own words.
pub mod Find
pub mod Equal
pub mod Decimal
use Prim.Native.Char.{code}
use Prim.Native.String.{String}
use linux_system_learning.Prelude.{
  ℕ, zero, suc, ◌+◌, ◌-◌, ◌*◌, ◌/◌, ◌%◌, Bool, true, false, ◌&&◌, ◌||◌, List, [], ◌∷◌, ◌++◌, Option,
  none, some, ltb, leb, ◌==◌, if◌then◌else◌, take, drop, length,
}
use linux_system_learning.Prelude.Int.{ℤ, pos, negsuc}

abbrev pub Bytes : Type 0
Bytes = List ℕ

-- A literal of the source.
abbrev pub codes : String → Bytes
codes String.[] = []
codes (String.◌∷◌ c s) = code c ∷ codes s

-- s == t
abbrev pub eqb : Bytes → Bytes → Bool
eqb [] [] = true
eqb [] (d ∷ t) = false
eqb (c ∷ s) [] = false
eqb (c ∷ s) (d ∷ t) = c == d && eqb s t

-- strncmp(s, prefix, prefix.size()) == 0
abbrev pub starts_with : Bytes → Bytes → Bool
starts_with [] s = true
starts_with (p ∷ ps) [] = false
starts_with (p ∷ ps) (c ∷ s) = p == c && starts_with ps s

abbrev pub shift : Option ℕ → Option ℕ
shift none = none
shift (some i) = some (suc i)

-- s.find(sep), for a separator that is not empty; `none` is npos.
unfoldable pub find : Bytes → Bytes → Option ℕ
find sep [] = none
find sep (c ∷ s) = if starts_with sep (c ∷ s) then some 0 else shift (find sep s)

-- std::to_string of an unsigned number, on fuel: a number has fewer digits than its size.
pub to_digits : ℕ → ℕ → Bytes
to_digits zero n = (b'0' + n % 10) ∷ []
to_digits (suc f) n =
    let rest = to_digits f (n / 10) ++ (b'0' + n % 10) ∷ [] in
    if ltb n 10 then (b'0' + n) ∷ [] else rest

unfoldable pub to_string : ℕ → Bytes
unfolding to_digits
to_string n = to_digits n n

-- isspace in the C locale
unfoldable pub is_space : ℕ → Bool
is_space c = c == 32 || leb 9 c && leb c 13

pub is_digit : ℕ → Bool
is_digit c = leb b'0' c && leb c b'9'

unfoldable pub skip_spaces : Bytes → Bytes
unfolding is_space
skip_spaces [] = []
skip_spaces (c ∷ s) = let rest = skip_spaces s in if is_space c then rest else c ∷ s

-- the value of the digits in front, after those already read
pub scan_digits : ℕ → Bytes → ℕ
unfolding is_digit
scan_digits acc [] = acc
scan_digits acc (c ∷ s) =
    let rest = scan_digits (acc * 10 + (c - b'0')) s in if is_digit c then rest else acc

-- At least one digit must follow the sign, and the value must fit an `int`.
pub stoi_unsigned : Bool → Bytes → Option ℤ
unfolding scan_digits is_digit
stoi_unsigned minus [] = none
stoi_unsigned minus (c ∷ s) =
    let n = scan_digits 0 (c ∷ s) in
    if is_digit c
    then (if minus
        then (if n == 0
            then some (pos 0)
            else if leb n 0x8000_0000
            then some (negsuc (n - 1))
            else none)
        else (if ltb n 0x8000_0000 then some (pos n) else none))
    else none

pub stoi_signed : Bytes → Option ℤ
unfolding stoi_unsigned
stoi_signed [] = none
stoi_signed (c ∷ s) =
    if c == b'-'
    then stoi_unsigned true s
    else if c == b'+'
    then stoi_unsigned false s
    else stoi_unsigned false (c ∷ s)

-- std::stoi; `none` stands for the exception that it throws.
unfoldable pub stoi : Bytes → Option ℤ
unfolding stoi_signed skip_spaces
stoi s = stoi_signed (skip_spaces s)

-- `out += buffer` for a buffer of `char`: it ends at the first zero byte.
unfoldable pub c_str : Bytes → Bytes
c_str [] = []
c_str (c ∷ s) = let rest = c_str s in if c == 0 then [] else c ∷ rest
