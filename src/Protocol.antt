-- ===== src/Protocol.antt =====
-- test_06_18/Server/Protocol.hpp: the frames `len\r\n{json}\r\n` of the calculator's protocol, and
-- the loop of test_06_18/Server/Main.cc that takes the complete frames out of an input buffer.
pub mod Frame
pub mod Stream
pub mod Rounds
use linux_system_learning.Prelude.{
  ℕ, zero, suc, ◌+◌, ◌-◌, ◌*◌, ◌%◌, ◌^◌, Bool, List, [], ◌∷◌, ◌++◌, Option, none, some, ltb,
  if◌then◌else◌, take, drop, length,
}
use linux_system_learning.Prelude.Int.{ℤ, pos, negsuc}
use linux_system_learning.Prelude.Outcome.{Outcome, returned, thrown, unfinished, ◌>>=◌}
use linux_system_learning.Text.{Bytes, codes, find, to_string, stoi}

abbrev pub sep : Bytes
sep = codes "\r\n"

-- `Protocol::Encode`
unfoldable pub encode : Bytes → Bytes
encode jsonstr = let len = to_string (length jsonstr) in len ++ (sep ++ (jsonstr ++ sep))

-- an `int` converted to `size_t`
abbrev pub to_size : ℤ → ℕ
to_size (pos n) = n
to_size (negsuc n) = 2 ^ 64 - 1 - n

-- a `size_t` stored in an `int`, and converted back where it meets a `size_t` again
abbrev pub through_int : ℕ → ℕ
through_int n = let low = n % 2 ^ 32 in if ltb low (2 ^ 31) then low else 2 ^ 64 - 2 ^ 32 + low

pub target_len : Bytes → ℤ → ℕ
target_len package_len_str package_len_int =
    through_int ((length package_len_str + to_size package_len_int + 2 * length sep) % 2 ^ 64)

pub decode_sized : Bytes → ℕ → ℤ → Option (Bytes × Bytes)
decode_sized buffer p package_len_int =
    let target = target_len (take p buffer) package_len_int in
    if ltb (length buffer) target
    then none
    else some (take (to_size package_len_int) (drop (p + length sep) buffer), drop target buffer)

decode_at : Bytes → Option ℕ → Outcome (Option (Bytes × Bytes))
decode_at buffer none = returned none
decode_at buffer (some p) = elim (stoi (take p buffer)) [
  | none ↦ thrown
  | some package_len_int ↦ returned (decode_sized buffer p package_len_int)
]

-- `Protocol::Decode`: the package and what stays in the buffer, or nothing while the frame is not
-- complete. `std::stoi` throws on a length that it cannot read.
unfoldable pub decode : Bytes → Outcome (Option (Bytes × Bytes))
unfolding decode_at
decode buffer = decode_at buffer (find sep buffer)

-- The handler that Main.cc registers, for the function that executes one package: it collects the
-- responses until `Decode` fails, and leaves the rest of the buffer. Each round is one fuel.
unfoldable pub drain : (Bytes → Outcome Bytes) → ℕ → Bytes → Bytes → Outcome (Bytes × Bytes)
drain execute zero inbuffer response = unfinished
drain execute (suc f) inbuffer response = decode inbuffer >>= λ d. elim d [
  | none ↦ returned (response, inbuffer)
  | some (json_package, rest) ↦ execute json_package >>= λ r. drain execute f rest (response ++ r)
]

-- The handler of Main.cc. A buffer holds fewer frames than bytes, so that this fuel is enough for a
-- stream of frames; what comes of another buffer is in Protocol/Rounds.antt.
unfoldable pub serve : (Bytes → Outcome Bytes) → Bytes → Outcome (Bytes × Bytes)
serve execute inbuffer = drain execute (suc (length inbuffer)) inbuffer []
