-- ===== src/Tests/Calculator.antt =====
-- The calculator's protocol on a small exchange.
use linux_system_learning.Prelude.{
  ◌≡◌, refl, ◌≢◌, List, [], ◌∷◌, ◌++◌, true, some, arith, drop, take,
}
use linux_system_learning.Prelude.Int.{pos, negsuc, quot}
use linux_system_learning.Prelude.Outcome.{returned, unfinished}
use linux_system_learning.Text.{Bytes, codes, to_string}
use linux_system_learning.Protocol.{encode, decode, drain}
use linux_system_learning.Protocol.Frame.{Fits, decode-encode}
use linux_system_learning.Protocol.Stream.{frames, deliver}
use linux_system_learning.Protocol.Rounds.{drain_ends, drain-minus_six, minus_six}
use linux_system_learning.Calc.{Request, Response, execute, fresh}
use linux_system_learning.Message.{
  bytes, excute, serialize_request, serialize_response, build_request_string, get_response,
}
use linux_system_learning.Message.Pipeline.{
  IsExchange, deliver_requests, remote_execute, request_texts, response_texts,
}
use linux_system_learning.Tests.Notation.{notation}

abbrev seven_by_two : Request
seven_by_two = record { x = negsuc 6; y = pos 2; oper = pos b'/' }

abbrev minus_three : Response
minus_three = record { result = negsuc 2; code = pos 0 }

seven_by_two_answered : execute seven_by_two ≡ returned minus_three
unfolding execute quot
seven_by_two_answered = refl

division : IsExchange notation (seven_by_two, minus_three)
unfolding encode to_string serialize_request serialize_response
division = record {
  request = omega arith;
  answered = seven_by_two_answered;
  request_fits = omega arith;
  response_fits = omega arith;
}

-- Two requests in one stream, cut in the middle of the first length and in the second text.
abbrev two_requests : Bytes
two_requests =
    frames (request_texts notation ((seven_by_two, minus_three) ∷ (seven_by_two, minus_three) ∷ []))

abbrev pub two_pieces : List Bytes
two_pieces = take 1 two_requests ∷ drop 1 (take 40 two_requests) ∷ drop 40 two_requests ∷ []

deliver_requests_example :
    deliver (excute notation) [] [] two_pieces
    ≡ returned (
      frames (
          response_texts notation ((seven_by_two, minus_three) ∷ (seven_by_two, minus_three) ∷ [])),
      [],
    )
unfolding encode to_string serialize_request
deliver_requests_example =
    deliver_requests notation ((seven_by_two, minus_three) ∷ (seven_by_two, minus_three) ∷ [])
      two_pieces (division, (division, tt)) refl

remote_execute_example :
    (sent : Bytes) × (deliver
        (excute notation)
        []
        []
        (build_request_string notation (negsuc 6) (pos 2) (pos b'/') ∷ [])
      ≡ returned (sent, []))
    × (get_response notation 1 (bytes sent) [] fresh ≡ returned (true, minus_three, []))
remote_execute_example =
    remote_execute notation (negsuc 6) (pos 2) (pos b'/') minus_three fresh 0 division

abbrev text : Bytes
text = codes "{1}"

text-Fits : Fits text
unfolding encode to_string
text-Fits = omega arith

decode-encode_example :
    decode (encode text ++ codes "4\r\n") ≡ returned (some (text, codes "4\r\n"))
decode-encode_example = decode-encode text (codes "4\r\n") text-Fits

drain_ends_example : drain (λ json. returned json) 9 (encode text) [] ≢ unfinished
unfolding encode to_string
drain_ends_example =
    drain_ends (λ json. returned json) 9 (encode text) [] (λ json e. cc) (ground arith)
      (omega arith) (omega arith)

drain-minus_six_example : drain (λ json. returned []) 100 (minus_six ++ text) [] ≡ unfinished
drain-minus_six_example = drain-minus_six (λ json. returned []) text [] 100 [] (omega arith) refl
