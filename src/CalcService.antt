-- ===== src/CalcService.antt =====
-- test_04_16/NetCal/Protocol.hpp: GetRequest, which serves one connection of the calculator in a process of its own. Decode,
-- the messages and the calculator are those of test_06_18/Server.
pub mod Same
use linux_system_learning.Prelude.{ℕ, zero, suc, List, [], ◌∷◌, ◌++◌, Option, none, some, length}
use linux_system_learning.Prelude.Outcome.{Outcome, returned, unfinished, ◌>>=◌}
use linux_system_learning.Text.{Bytes}
use linux_system_learning.Protocol.{encode, decode}
use linux_system_learning.Calc.{execute}
use linux_system_learning.Message.{Json, deserialize_request, serialize_response}

-- What Recv gives: bytes behind those that are in the buffer, the end, or an error
pub data Incoming : Type 0 where
  arrived : Bytes → Incoming
  quit recv_error : Incoming

-- The body of the inner loop: what is sent for a package, `none` where it is no request
unfoldable pub answer_package : Json → Bytes → Outcome (Option Bytes)
answer_package json json_package = deserialize_request json json_package >>= λ d. elim d [
  | none ↦ returned none
  | some req ↦ execute req >>= λ resp. returned (some (encode (serialize_response json resp)))
]

abbrev pub send_answer : List Bytes → Option Bytes → List Bytes
send_answer sent none = sent
send_answer sent (some send_str) = sent ++ send_str ∷ []

-- The inner loop, a round for each fuel, and GetRequest: what was sent, the first one first. Without anything more that
-- comes it waits.
unfoldable pub answer_packages :
    (Bytes → Outcome (Option Bytes)) → ℕ → Bytes → List Bytes → Outcome (List Bytes × Bytes)
answer_packages answer zero inbuffer sent = unfinished
answer_packages answer (suc f) inbuffer sent = decode inbuffer >>= λ d. elim d [
  | none ↦ returned (sent, inbuffer)
  | some (json_package, rest) ↦
      answer json_package >>= λ o. answer_packages answer f rest (send_answer sent o)
]

unfoldable pub get_request :
    (Bytes → Outcome (Option Bytes)) → Bytes → List Bytes → List Incoming → Outcome (List Bytes)
unfolding answer_packages
get_request answer inbuffer sent [] = unfinished
get_request answer inbuffer sent (arrived piece ∷ later) =
    answer_packages answer (suc (length (inbuffer ++ piece))) (inbuffer ++ piece) sent >>= λ out.
    get_request answer out.1 out.0 later
get_request answer inbuffer sent (quit ∷ later) = returned sent
get_request answer inbuffer sent (recv_error ∷ later) = returned sent
