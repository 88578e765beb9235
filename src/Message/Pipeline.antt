-- ===== src/Message/Pipeline.antt =====
-- Many requests of one client, sent one behind the other.
use linux_system_learning.Prelude.{
  ℕ, suc, ◌≡◌, refl, ap, ap₂, sym, ◌∙◌, true, List, [], ◌∷◌, ◌++◌, All, arith, append-nil,
}
use linux_system_learning.Prelude.Int.{ℤ, pos, ◌≤ℤ◌}
use linux_system_learning.Prelude.Outcome.{Outcome, returned}
use linux_system_learning.Text.{Bytes}
use linux_system_learning.Protocol.{encode}
use linux_system_learning.Protocol.Frame.{Fits}
use linux_system_learning.Protocol.Stream.{
  frames, concat, deliver, deliver-frames, replies, Executes,
}
use linux_system_learning.Calc.{Request, Response, execute, IsInt}
use linux_system_learning.Calc.Defined.{execute_range}
use linux_system_learning.Message.{
  Json, bytes, serialize_request, serialize_response, excute, build_request_string, get_response,
}
use linux_system_learning.Message.Exchange.{IsRequest, excute-serialize, get_response-encode}

-- A request with the response that the calculator gives to it.
abbrev pub Exchange : Type 0
Exchange = Request × Response

abbrev value : Outcome Bytes → Bytes
value (returned r) = r
value _ = []

module _ (json : Json) where
  pub record IsExchange (e : Exchange) : Type 0 where
    pub request : IsRequest e.0
    pub answered : execute e.0 ≡ returned e.1
    pub request_fits : Fits (serialize_request json e.0)
    pub response_fits : Fits (serialize_response json e.1)

  abbrev pub request_texts : List Exchange → List Bytes
  request_texts [] = []
  request_texts (e ∷ es) = serialize_request json e.0 ∷ request_texts es

  abbrev pub response_texts : List Exchange → List Bytes
  response_texts [] = []
  response_texts (e ∷ es) = serialize_response json e.1 ∷ response_texts es

  -- The reply to a text, where there is one.
  abbrev reply : Bytes → Bytes
  reply text = value (excute json text)

  reply-eq :
      (e : Exchange)
      → IsExchange e
      → excute json (serialize_request json e.0) ≡ returned (encode (serialize_response json e.1))
  reply-eq e h = excute-serialize json e.0 e.1 h.request h.answered

  executes :
      (es : List Exchange) → All IsExchange es → Executes (excute json) reply (request_texts es)
  executes [] h = tt
  executes (e ∷ es) h =
      (reply-eq e h.0 ∙ ap (λ o. returned (value o)) (sym (reply-eq e h.0)), executes es h.1)

  replies-texts :
      (es : List Exchange)
      → All IsExchange es
      → replies reply (request_texts es) ≡ frames (response_texts es)
  replies-texts [] h = refl
  replies-texts (e ∷ es) h = ap₂ ◌++◌ (ap value (reply-eq e h.0)) (replies-texts es h.1)

  fits : (es : List Exchange) → All IsExchange es → All Fits (request_texts es)
  fits [] h = tt
  fits (e ∷ es) h = (h.0.request_fits, fits es h.1)

  -- However the requests of one client are cut into pieces on their way, the server sends the
  -- calculator's responses to all of them, in order, and its input buffer is empty at the end.
  pub deliver_requests :
      (es : List Exchange) (pieces : List Bytes)
      → All IsExchange es
      → concat pieces ≡ frames (request_texts es)
      → deliver (excute json) [] [] pieces ≡ returned (frames (response_texts es), [])
  deliver_requests es pieces h e = rw (
    deliver-frames (excute json) reply pieces (request_texts es) (fits es h) (executes es h) e,
    replies-texts es h,
  )

  -- One call: what the client builds for an operation makes the server send one frame, from which
  -- the client gets the calculator's response.
  pub remote_execute :
      (x y oper : ℤ) (resp old : Response) (f : ℕ)
      → IsExchange (record { x = x; y = y; oper = oper }, resp)
      → (sent : Bytes) × (deliver (excute json) [] [] (build_request_string json x y oper ∷ [])
          ≡ returned (sent, []))
        × (get_response json (suc f) (bytes sent) [] old ≡ returned (true, resp, []))
  unfolding build_request_string
  remote_execute x y oper resp old f h = (
    encode (serialize_response json resp) ++ [],
    deliver_requests ((req, resp) ∷ []) (encode (serialize_request json req) ∷ []) (h, tt) refl,
    rw (append-nil (encode (serialize_response json resp))) (
        get_response-encode json f resp old range.0 (omega (arith, range.1, range.2))
          h.response_fits),
  )
    where
      req : Request
      req = record { x = x; y = y; oper = oper }

      range : IsInt resp.result × (pos 0 ≤ℤ resp.code) × (resp.code ≤ℤ pos 3)
      range = execute_range req resp h.request.0 h.answered
