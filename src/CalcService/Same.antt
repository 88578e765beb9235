-- ===== src/CalcService/Same.antt =====
-- The calculator of test_04_16/NetCal sends what that of test_06_18/Server sends.
use linux_system_learning.Prelude.{
  ℕ, zero, suc, ◌≡◌, refl, ap, sym, ◌∙◌, List, [], ◌∷◌, ◌++◌, append_assoc, append-nil, Option,
  none, some, length, map,
}
use linux_system_learning.Prelude.Outcome.{Outcome, returned, ◌>>=◌, bind_assoc, bind_eq}
use linux_system_learning.Text.{Bytes}
use linux_system_learning.Protocol.{encode, decode, drain, serve}
use linux_system_learning.Protocol.Stream.{concat, deliver}
use linux_system_learning.Message.{Json, excute, deserialize_request, serialize_response}
use linux_system_learning.Calc.{Request, Response, execute}
use linux_system_learning.CalcService.{
  arrived, quit, answer_package, send_answer, answer_packages, get_request,
}

abbrev pub joined_with : List Bytes × Bytes → Bytes × Bytes
joined_with (sent, rest) = (concat sent, rest)

abbrev pub content : Option Bytes → Bytes
content none = []
content (some s) = s

concat-append : (sent : List Bytes) (s : Bytes) → concat (sent ++ s ∷ []) ≡ concat sent ++ s
concat-append [] s = append-nil s
concat-append (t ∷ sent) s =
    ap (λ u. t ++ u) (concat-append sent s) ∙ sym (append_assoc t (concat sent) s)

concat-send_answer :
    (sent : List Bytes) (o : Option Bytes) → concat (send_answer sent o) ≡ concat sent ++ content o
concat-send_answer sent none = sym (append-nil (concat sent))
concat-send_answer sent (some s) = concat-append sent s

module _ (answer : Bytes → Outcome (Option Bytes)) (execute : Bytes → Outcome Bytes)
    (same : (text : Bytes) → execute text ≡ (answer text >>= λ o. returned (content o))) where
  abbrev answered_step :
      ℕ → Bytes → List Bytes → Option (Bytes × Bytes) → Outcome (List Bytes × Bytes)
  answered_step f inbuffer sent none = returned (sent, inbuffer)
  answered_step f inbuffer sent (some (text, rest)) =
      answer text >>= λ o. answer_packages answer f rest (send_answer sent o)

  abbrev drained_step : ℕ → Bytes → Bytes → Option (Bytes × Bytes) → Outcome (Bytes × Bytes)
  drained_step f inbuffer response none = returned (response, inbuffer)
  drained_step f inbuffer response (some (text, rest)) =
      execute text >>= λ r. drain execute f rest (response ++ r)

  step_same :
      (f : ℕ) (inbuffer : Bytes) (sent : List Bytes)
      → ((rest : Bytes) (sent' : List Bytes)
          → (answer_packages answer f rest sent' >>= λ out. returned (joined_with out))
            ≡ drain execute f rest (concat sent'))
      → (d : Option (Bytes × Bytes))
      → (answered_step f inbuffer sent d >>= λ out. returned (joined_with out))
        ≡ drained_step f inbuffer (concat sent) d
  step_same f inbuffer sent h none = refl
  step_same f inbuffer sent h (some (text, rest)) =
      bind_assoc (answer text) (λ o. answer_packages answer f rest (send_answer sent o))
        (λ out. returned (joined_with out))
      ∙ bind_eq (answer text)
          (λ o. answer_packages answer f rest (send_answer sent o) >>= λ out.
            returned (joined_with out))
          (λ o. drain execute f rest (concat sent ++ content o))
          (λ o. h rest (send_answer sent o) ∙ ap (drain execute f rest) (concat-send_answer sent o))
      ∙ sym (
          bind_assoc (answer text) (λ o. returned (content o))
            (λ r. drain execute f rest (concat sent ++ r)))
      ∙ ap (λ (m : Outcome Bytes). m >>= λ r. drain execute f rest (concat sent ++ r))
          (sym (same text))

  drain-answer_packages :
      (f : ℕ) (inbuffer : Bytes) (sent : List Bytes)
      → (answer_packages answer f inbuffer sent >>= λ out. returned (joined_with out))
        ≡ drain execute f inbuffer (concat sent)
  unfolding drain answer_packages
  drain-answer_packages zero inbuffer sent = refl
  drain-answer_packages (suc f) inbuffer sent =
      bind_assoc (decode inbuffer) (answered_step f inbuffer sent)
        (λ out. returned (joined_with out))
      ∙ bind_eq (decode inbuffer)
          (λ d. answered_step f inbuffer sent d >>= λ out. returned (joined_with out))
          (drained_step f inbuffer (concat sent))
          (step_same f inbuffer sent (drain-answer_packages f))

  -- A response that is there already only goes in front.
  abbrev in_front : Bytes → Bytes × Bytes → Outcome (Bytes × Bytes)
  in_front pre out = returned (pre ++ out.0, out.1)

  front_step :
      (f : ℕ) (inbuffer pre r : Bytes)
      → ((rest r' : Bytes)
          → drain execute f rest (pre ++ r') ≡ (drain execute f rest r' >>= in_front pre))
      → (d : Option (Bytes × Bytes))
      → drained_step f inbuffer (pre ++ r) d ≡ (drained_step f inbuffer r d >>= in_front pre)
  front_step f inbuffer pre r h none = refl
  front_step f inbuffer pre r h (some (text, rest)) =
      bind_eq (execute text) (λ x. drain execute f rest ((pre ++ r) ++ x))
        (λ x. drain execute f rest (r ++ x) >>= in_front pre)
        (λ x. ap (drain execute f rest) (append_assoc pre r x) ∙ h rest (r ++ x))
      ∙ sym (bind_assoc (execute text) (λ x. drain execute f rest (r ++ x)) (in_front pre))

  drain_front :
      (f : ℕ) (inbuffer pre r : Bytes)
      → drain execute f inbuffer (pre ++ r) ≡ (drain execute f inbuffer r >>= in_front pre)
  unfolding drain
  drain_front zero inbuffer pre r = refl
  drain_front (suc f) inbuffer pre r =
      bind_eq (decode inbuffer) (drained_step f inbuffer (pre ++ r))
        (λ d. drained_step f inbuffer r d >>= in_front pre)
        (front_step f inbuffer pre r (λ rest r'. drain_front f rest pre r'))
      ∙ sym (bind_assoc (decode inbuffer) (drained_step f inbuffer r) (in_front pre))

  answered-serve :
      (buffer : Bytes) (sent : List Bytes)
      → (answer_packages answer (suc (length buffer)) buffer sent >>= λ out.
          returned (joined_with out))
        ≡ (serve execute buffer >>= in_front (concat sent))
  unfolding serve
  answered-serve buffer sent =
      drain-answer_packages (suc (length buffer)) buffer sent
      ∙ ap (drain execute (suc (length buffer)) buffer) (sym (append-nil (concat sent)))
      ∙ drain_front (suc (length buffer)) buffer (concat sent) []

  deliver-get_request :
      (inbuffer : Bytes) (sent : List Bytes) (pieces : List Bytes)
      → (get_request answer inbuffer sent (map arrived pieces ++ quit ∷ []) >>= λ s.
          returned (concat s))
        ≡ (deliver execute inbuffer (concat sent) pieces >>= λ r. returned r.0)
  unfolding get_request deliver
  deliver-get_request inbuffer sent [] = refl
  deliver-get_request inbuffer sent (piece ∷ pieces) =
      let buffer : Bytes = inbuffer ++ piece in
      let first = answer_packages answer (suc (length buffer)) buffer sent in
      let next : List Bytes × Bytes → Outcome (List Bytes) =
        λ out. get_request answer out.1 out.0 (map arrived pieces ++ quit ∷ []) in
      let onward : Bytes × Bytes → Outcome Bytes =
        λ w. deliver execute w.1 w.0 pieces >>= λ r. returned r.0 in
      bind_assoc first next (λ s. returned (concat s))
      ∙ bind_eq first (λ out. next out >>= λ s. returned (concat s))
          (λ out. onward (joined_with out)) (λ out. deliver-get_request out.1 out.0 pieces)
      ∙ sym (bind_assoc first (λ out. returned (joined_with out)) onward)
      ∙ ap (λ (m : Outcome (Bytes × Bytes)). m >>= onward) (answered-serve buffer sent)
      ∙ bind_assoc (serve execute buffer) (in_front (concat sent)) onward
      ∙ sym (
          bind_assoc (serve execute buffer)
            (λ out. deliver execute out.1 (concat sent ++ out.0) pieces) (λ r. returned r.0))

abbrev framed : Json → Response → Bytes
framed json resp = encode (serialize_response json resp)

abbrev excuted : Json → Option Request → Outcome Bytes
excuted json none = returned []
excuted json (some req) = execute req >>= λ resp. returned (framed json resp)

abbrev answered : Json → Option Request → Outcome (Option Bytes)
answered json none = returned none
answered json (some req) = execute req >>= λ resp. returned (some (framed json resp))

answered_content :
    (json : Json) (d : Option Request)
    → excuted json d ≡ (answered json d >>= λ o. returned (content o))
answered_content json none = refl
answered_content json (some req) = sym (
    bind_assoc (execute req) (λ resp. returned (some (framed json resp)))
      (λ o. returned (content o)))

-- For each package the two calculators send the same bytes.
excute-answer_package :
    (json : Json) (text : Bytes)
    → excute json text ≡ (answer_package json text >>= λ o. returned (content o))
unfolding excute answer_package
excute-answer_package json text =
    bind_eq (deserialize_request json text) (excuted json)
      (λ d. answered json d >>= λ o. returned (content o)) (answered_content json)
    ∙ sym (bind_assoc (deserialize_request json text) (answered json) (λ o. returned (content o)))

-- Whatever a client sends, in whatever pieces it arrives, and whether or not it is made of frames: up to the client's end
-- GetRequest sends the bytes that the handler of the reactor server puts into its output buffer for the same
-- pieces, and where the one throws, is undefined or does not end, so is the other.
pub get_request-deliver :
    (json : Json) (pieces : List Bytes)
    → (get_request (answer_package json) [] [] (map arrived pieces ++ quit ∷ []) >>= λ sent.
        returned (concat sent))
      ≡ (deliver (excute json) [] [] pieces >>= λ r. returned r.0)
get_request-deliver json pieces =
    deliver-get_request (answer_package json) (excute json) (excute-answer_package json) [] []
      pieces
