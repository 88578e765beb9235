-- ===== src/Tests/Notation.antt =====
-- A notation for objects of `int` fields that meets what the code asks of its JSON library: each key
-- byte is written as two numbers, each value as two, and one is added so that no byte is zero.
use linux_system_learning.Prelude.{
  suc, ◌-◌, ◌≡◌, ◌≢◌, refl, ap, ◌∙◌, List, [], ◌∷◌, ◌++◌, Option, none, some, arith, ◌==◌,
  if◌then◌else◌, All, append_assoc, append-nil,
}
use linux_system_learning.Prelude.Int.{ℤ, pos, negsuc}
use linux_system_learning.Text.{Bytes}
use linux_system_learning.Calc.{IsInt}
use linux_system_learning.Message.{Json, assigned}

abbrev Fields : Type 0
Fields = List (Bytes × ℤ)

abbrev write_key : Bytes → Bytes → Bytes
write_key [] rest = rest
write_key (c ∷ key) rest = 1 ∷ suc c ∷ write_key key rest

abbrev write_value : ℤ → Bytes → Bytes
write_value (pos n) rest = 2 ∷ suc n ∷ rest
write_value (negsuc n) rest = 3 ∷ suc n ∷ rest

abbrev write_fields : Fields → Bytes
write_fields [] = []
write_fields ((k, v) ∷ fs) = write_key k (write_value v (write_fields fs))

cons_field : Bytes → ℤ → Option Fields → Option Fields
cons_field k v none = none
cons_field k v (some fs) = some ((k, v) ∷ fs)

unfoldable pub parse_from : Bytes → Bytes → Option Fields
unfolding cons_field
parse_from key [] = some []
parse_from key (t ∷ []) = none
parse_from key (t ∷ c ∷ s) =
    let more = parse_from (key ++ (c - 1) ∷ []) s in
    let plus = cons_field key (pos (c - 1)) (parse_from [] s) in
    let minus = cons_field key (negsuc (c - 1)) (parse_from [] s) in
    if t == 1 then more else if t == 2 then plus else minus

parse_key : (key k rest : Bytes) → parse_from key (write_key k rest) ≡ parse_from (key ++ k) rest
unfolding parse_from
parse_key key [] rest = rw append-nil refl
parse_key key (c ∷ k) rest =
    let e : suc c - 1 ≡ c = omega arith in
    rw e
      (parse_key (key ++ c ∷ []) k rest ∙ ap (λ b. parse_from b rest) (append_assoc key (c ∷ []) k))

pub parse-write : (fs : Fields) → parse_from [] (write_fields fs) ≡ some fs
unfolding parse_from
parse-write [] = refl
parse-write ((k, pos n) ∷ fs) =
    let e : suc n - 1 ≡ n = omega arith in
    parse_key [] k (2 ∷ suc n ∷ write_fields fs) ∙ rw (e, parse-write fs) refl
parse-write ((k, negsuc n) ∷ fs) =
    let e : suc n - 1 ≡ n = omega arith in
    parse_key [] k (3 ∷ suc n ∷ write_fields fs) ∙ rw (e, parse-write fs) refl

unfoldable pub value_of : Option ℤ → Option ℤ
value_of none = some (pos 0)
value_of (some v) = some v

pub as_int-assigned :
    (fs : Fields) (key : Bytes) (v : ℤ)
    → assigned key fs ≡ some v
    → IsInt v
    → value_of (assigned key fs) ≡ some v
unfolding value_of
as_int-assigned fs key v e h = rw e

key_text : (k rest : Bytes) → All (λ c. c ≢ 0) rest → All (λ c. c ≢ 0) (write_key k rest)
key_text [] rest h = h
key_text (c ∷ k) rest h = (omega arith, (omega arith, key_text k rest h))

pub write_text : (fs : Fields) → All (λ c. c ≢ 0) (write_fields fs)
write_text [] = tt
write_text ((k, pos n) ∷ fs) = key_text k _ (omega arith, (omega arith, write_text fs))
write_text ((k, negsuc n) ∷ fs) = key_text k _ (omega arith, (omega arith, write_text fs))

abbrev pub notation : Json
notation = record {
  Value = Fields;
  object = λ fs. fs;
  write = write_fields;
  parse = parse_from [];
  as_int = λ fs key. value_of (assigned key fs);
  parse-write = parse-write;
  as_int-object = as_int-assigned;
  write_text = write_text;
}
