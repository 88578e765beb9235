-- ===== src/Message.antt =====
-- test_06_18/Server/Protocol.hpp: the JSON texts of a request and of a response, and the calls of
-- `Protocol` that put the frames, the texts and the calculator together.
pub mod Exchange
pub mod Pipeline
use linux_system_learning.Prelude.{
  ℕ, zero, suc, ◌-◌, ◌%◌, ◌^◌, ◌≡◌, ◌≢◌, Bool, true, false, List, [], ◌∷◌, ◌++◌, Option, none, some,
  ltb, if◌then◌else◌, All,
}
use linux_system_learning.Prelude.Int.{ℤ, pos, negsuc}
use linux_system_learning.Prelude.Outcome.{Outcome, returned, thrown, unfinished, ◌>>=◌}
use linux_system_learning.Text.{Bytes, codes, eqb, c_str}
use linux_system_learning.Protocol.{encode, decode}
use linux_system_learning.Calc.{Request, Response, IsInt, execute, set_result, set_code}

-- The value of a key after the assignments `root[key] = value` in order.
abbrev pub assigned : Bytes → List (Bytes × ℤ) → Option ℤ
assigned key [] = none
assigned key ((k, v) ∷ fs) = elim (assigned key fs) [
  | none ↦ if eqb k key then some v else none
  | some later ↦ some later
]

-- What the code relies on of the library jsoncpp: `StreamWriter::write`, `Reader::parse` and
-- `Value::asInt`, which throws on a value that is no `int`. A text that was written from an object
-- of `int` fields is read back as that object, and has no zero byte.
pub record Json : Type 1 where
  pub Value : Type 0
  pub object : List (Bytes × ℤ) → Value
  pub write : Value → Bytes
  pub parse : Bytes → Option Value
  pub as_int : Value → Bytes → Option ℤ
  pub parse-write : (fs : List (Bytes × ℤ)) → parse (write (object fs)) ≡ some (object fs)
  pub as_int-object :
      (fs : List (Bytes × ℤ)) (key : Bytes) (v : ℤ)
      → assigned key fs ≡ some v
      → IsInt v
      → as_int (object fs) key ≡ some v
  pub write_text : (fs : List (Bytes × ℤ)) → All (λ c. c ≢ 0) (write (object fs))

-- an `int` stored in a `char`, which is signed
abbrev pub to_char : ℤ → ℤ
to_char (pos n) = let low = n % 256 in if ltb low 128 then pos low else negsuc (255 - low)
to_char (negsuc n) = let low = n % 256 in if ltb low 128 then negsuc low else pos (255 - low)

-- A result of `Socket::Recv`: the bytes read, the end of the stream, or an error.
pub data Received : Type 0 where
  bytes : Bytes → Received
  closed : Received
  failed : Received

-- `asInt()`
abbrev pub or_throw : Option ℤ → Outcome ℤ
or_throw none = thrown
or_throw (some v) = returned v

module _ (json : Json) where
  open json use {Value, object, write, parse, as_int}

  abbrev pub request_object : Request → Value
  request_object req =
      object ((codes "x", req.x) ∷ (codes "y", req.y) ∷ (codes "oper", req.oper) ∷ [])

  -- `Request::Serialize`
  unfoldable pub serialize_request : Request → Bytes
  serialize_request req = write (request_object req)

  request_of : Option Value → Outcome (Option Request)
  request_of none = returned none
  request_of (some root) = or_throw (as_int root (codes "x")) >>= λ x.
      or_throw (as_int root (codes "y")) >>= λ y. or_throw (as_int root (codes "oper")) >>= λ oper.
      returned (some (record { x = x; y = y; oper = to_char oper }))

  -- `Request::Deserialize`
  pub deserialize_request : Bytes → Outcome (Option Request)
  unfolding request_of
  deserialize_request text = request_of (parse text)

  abbrev pub response_object : Response → Value
  response_object resp = object ((codes "result", resp.result) ∷ (codes "code", resp.code) ∷ [])

  -- `Response::Serialize`
  unfoldable pub serialize_response : Response → Bytes
  serialize_response resp = write (response_object resp)

  response_of : Option Value → Response → Outcome Response
  response_of none resp = returned resp
  response_of (some root) resp = or_throw (as_int root (codes "result")) >>= λ result.
      or_throw (as_int root (codes "code")) >>= λ code.
      returned (set_code (set_result resp result) code)

  -- `Response::Deserialize`, on the response that it fills in
  pub deserialize_response : Bytes → Response → Outcome Response
  unfolding response_of
  deserialize_response text resp = response_of (parse text) resp

  -- `Protocol::Excute`, with the calculator as its function
  unfoldable pub excute : Bytes → Outcome Bytes
  excute text = deserialize_request text >>= λ d. elim d [
    | none ↦ returned []
    | some req ↦ execute req >>= λ resp. returned (encode (serialize_response resp))
  ]

  -- `Protocol::BuildRequestString`
  unfoldable pub build_request_string : ℤ → ℤ → ℤ → Bytes
  build_request_string x y oper = encode (serialize_request (record { x = x; y = y; oper = oper }))

  -- The loop of `Protocol::GetResponse` after data has come, a round for each fuel: nothing more is
  -- received in it.
  pub await_response : ℕ → Bytes → Response → Outcome (Bool × Response × Bytes)
  await_response zero buffer resp = unfinished
  await_response (suc f) buffer resp = decode buffer >>= λ d. elim d [
    | none ↦ await_response f buffer resp
    | some (text, rest) ↦ deserialize_response text resp >>= λ filled. returned (true, filled, rest)
  ]

  -- `Protocol::GetResponse`, for what its one call of `Recv` comes to
  pub get_response : ℕ → Received → Bytes → Response → Outcome (Bool × Response × Bytes)
  unfolding await_response
  get_response f (bytes chunk) buffer resp = await_response f (buffer ++ c_str chunk) resp
  get_response f closed buffer resp = returned (true, resp, buffer)
  get_response f failed buffer resp = returned (false, resp, buffer)
