-- ===== src/Message/Exchange.antt =====
-- From a client's request over the server's loop back to the client's response.
use linux_system_learning.Prelude.{
  ℕ, zero, suc, ◌≡◌, ◌≢◌, refl, true, [], ◌++◌, none, some, All, arith, append-nil,
}
use linux_system_learning.Prelude.Int.{ℤ, pos, negsuc, ◌≤ℤ◌}
use linux_system_learning.Prelude.Outcome.{returned, unfinished}
use linux_system_learning.Text.{Bytes, codes, c_str}
use linux_system_learning.Text.Find.{c_str_of_All}
use linux_system_learning.Protocol.{encode, decode}
use linux_system_learning.Protocol.Frame.{Fits, decode-encode, encode_text}
use linux_system_learning.Calc.{Request, Response, IsInt, execute}
use linux_system_learning.Message.{
  Json, bytes, to_char, serialize_request, deserialize_request, serialize_response,
  deserialize_response, excute, get_response,
}

abbrev pub IsChar : ℤ → Type 0
IsChar v = (negsuc 127 ≤ℤ v) × (v ≤ℤ pos 127)

to_char_of_IsChar : (v : ℤ) → IsChar v → to_char v ≡ v
to_char_of_IsChar (pos n) h = ground arith
to_char_of_IsChar (negsuc n) h = ground arith

IsInt-of_IsChar : (v : ℤ) → IsChar v → IsInt v
IsInt-of_IsChar v h = omega arith

abbrev pub IsRequest : Request → Type 0
IsRequest req = IsInt req.x × IsInt req.y × IsChar req.oper

module _ (json : Json) where
  -- A request is read back from its text.
  pub deserialize-serialize_request :
      (req : Request)
      → IsRequest req
      → deserialize_request json (serialize_request json req) ≡ returned (some req)
  unfolding serialize_request deserialize_request
  deserialize-serialize_request req h = rw (
    json.parse-write _,
    json.as_int-object _ (codes "x") req.x refl h.0,
    json.as_int-object _ (codes "y") req.y refl h.1,
    json.as_int-object _ (codes "oper") req.oper refl (IsInt-of_IsChar req.oper h.2),
    to_char_of_IsChar req.oper h.2,
  )

  pub deserialize-serialize_response :
      (resp old : Response)
      → IsInt resp.result
      → IsInt resp.code
      → deserialize_response json (serialize_response json resp) old ≡ returned resp
  unfolding serialize_response deserialize_response
  deserialize-serialize_response resp old h k = rw (
    json.parse-write _,
    json.as_int-object _ (codes "result") resp.result refl h,
    json.as_int-object _ (codes "code") resp.code refl k,
  )

  -- What `Excute` makes of a request's text: the frame of the calculator's response.
  pub excute-serialize :
      (req : Request) (resp : Response)
      → IsRequest req
      → execute req ≡ returned resp
      → excute json (serialize_request json req) ≡ returned (encode (serialize_response json resp))
  unfolding excute
  excute-serialize req resp h e = rw (deserialize-serialize_request req h, e)

  -- The client gets the response out of the frame that comes, with whatever follows it left behind.
  pub get_response-encode :
      (f : ℕ) (resp old : Response)
      → IsInt resp.result
      → IsInt resp.code
      → Fits (serialize_response json resp)
      → get_response json (suc f) (bytes (encode (serialize_response json resp))) [] old
        ≡ returned (true, resp, [])
  unfolding get_response
  get_response-encode f resp old h k fits =
      rw (c_str_of_All _ (encode_text _ text), whole, deserialize-serialize_response resp old h k)
    where
      text : All (λ c. c ≢ 0) (serialize_response json resp)
      text = unfold serialize_response in json.write_text _

      whole :
          decode (encode (serialize_response json resp))
          ≡ returned (some (serialize_response json resp, []))
      whole = rw append-nil at (decode-encode (serialize_response json resp) [] fits)

  -- While the one piece that `GetResponse` receives is not a whole frame, it makes no end: it decodes
  -- the same buffer again in every round, and receives nothing more.
  pub get_response_incomplete :
      (f : ℕ) (piece buffer : Bytes) (resp : Response)
      → decode (buffer ++ c_str piece) ≡ returned none
      → get_response json f (bytes piece) buffer resp ≡ unfinished
  unfolding get_response
  get_response_incomplete zero piece buffer resp e = refl
  get_response_incomplete (suc f) piece buffer resp e =
      rw e (get_response_incomplete f piece buffer resp e)
