-- ===== src/Protocol/Stream.antt =====
-- A stream of frames, cut into pieces anywhere, as recv hands them to the input buffer.
use linux_system_learning.Prelude.{
  ℕ, zero, suc, ◌≤◌, ◌<◌, ◌≡◌, refl, ap, sym, ◌∙◌, subst, List, [], ◌∷◌, ◌++◌, none, arith, drop,
  length, All, length-append, append_assoc, append-nil, dec_lt, take_of_append, drop_of_append,
}
use linux_system_learning.Prelude.Outcome.{Outcome, returned, ◌>>=◌}
use linux_system_learning.Text.{Bytes}
use linux_system_learning.Protocol.{sep, encode, decode, drain, serve}
use linux_system_learning.Text.Find.{find-nil}
use linux_system_learning.Protocol.Frame.{Fits, decode-encode, decode-take-encode, length-encode}

-- What a client sends: one frame behind the other.
abbrev pub frames : List Bytes → Bytes
frames [] = []
frames (j ∷ js) = encode j ++ frames js

abbrev pub concat : List Bytes → Bytes
concat [] = []
concat (x ∷ xs) = x ++ concat xs

-- `Channel::Recver` for each piece that `_inbuffer += buffer` appends, which is what has arrived up to its first zero
-- byte: the handler runs on the input buffer, what it returns goes to the end of the output buffer, and what it leaves
-- stays for the next piece.
unfoldable pub deliver :
    (Bytes → Outcome Bytes) → Bytes → Bytes → List Bytes → Outcome (Bytes × Bytes)
deliver execute inbuffer outbuffer [] = returned (outbuffer, inbuffer)
deliver execute inbuffer outbuffer (piece ∷ pieces) =
    serve execute (inbuffer ++ piece) >>= λ out. deliver execute out.1 (outbuffer ++ out.0) pieces

-- A beginning of a stream: whole frames, and a tail that `Decode` waits on.
record Cut (js : List Bytes) (pre suf : Bytes) : Type 0 where
  done : List Bytes
  left : List Bytes
  tail : Bytes
  whole : js ≡ done ++ left
  shape : pre ≡ frames done ++ tail
  more : tail ++ suf ≡ frames left
  waits : decode tail ≡ returned none

decode-nil : decode [] ≡ returned none
unfolding decode
decode-nil = rw (find-nil sep)

cut : (js : List Bytes) (pre suf : Bytes) → All Fits js → pre ++ suf ≡ frames js → Cut js pre suf
cut [] [] suf h e = record {
  done = [];
  left = [];
  tail = [];
  whole = refl;
  shape = refl;
  more = e;
  waits = decode-nil;
}
cut [] (p ∷ pre) suf h e = cc
cut (j ∷ js) pre suf h e = elim (dec_lt (length pre) (length (encode j))) [
  | yes early ↦
      let cutoff = take_of_append pre suf (encode j) (frames js) e (omega arith) in
      record {
        done = [];
        left = j ∷ js;
        tail = pre;
        whole = refl;
        shape = refl;
        more = e;
        waits = ap decode cutoff ∙ decode-take-encode j (length pre) h.0 early;
      }
  | no late ↦
      let rest = drop_of_append pre suf (encode j) (frames js) e (omega arith) in
      let c = cut js (drop (length (encode j)) pre) suf h.1 rest.1 in
      record {
        done = j ∷ c.done;
        left = c.left;
        tail = c.tail;
        whole = ap (◌∷◌ j) c.whole;
        shape =
            rest.0
            ∙ ap (◌++◌ (encode j)) c.shape
            ∙ sym (append_assoc (encode j) (frames c.done) c.tail);
        more = c.more;
        waits = c.waits;
      }
]

-- What the server answers to a list of packages.
abbrev pub replies : (Bytes → Bytes) → List Bytes → Bytes
replies reply [] = []
replies reply (j ∷ js) = reply j ++ replies reply js

abbrev pub Executes : (Bytes → Outcome Bytes) → (Bytes → Bytes) → List Bytes → Type 0
Executes execute reply = All (λ j. execute j ≡ returned (reply j))

-- The handler answers every whole frame, in order, and leaves the tail, in as many rounds as there
-- are frames and one more.
pub drain-frames :
    (execute : Bytes → Outcome Bytes) (reply : Bytes → Bytes) (f : ℕ) (js : List Bytes)
    (tail response : Bytes)
    → All Fits js
    → Executes execute reply js
    → decode tail ≡ returned none
    → length js < f
    → drain execute f (frames js ++ tail) response ≡ returned (response ++ replies reply js, tail)
unfolding drain
drain-frames execute reply zero js tail response h x w lt = elim lt [ ]
drain-frames execute reply (suc f) [] tail response h x w lt = rw (w, append-nil response)
drain-frames execute reply (suc f) (j ∷ js) tail response h x w lt =
    rw (append_assoc (encode j) (frames js) tail, decode-encode j (frames js ++ tail) h.0, x.0)
      (drain-frames execute reply f js tail (response ++ reply j) h.1 x.1 w (omega arith)
        ∙ ap (λ r. returned (r, tail)) (append_assoc response (reply j) (replies reply js)))

length-le-frames : (js : List Bytes) → length js ≤ length (frames js)
length-le-frames [] = omega arith
length-le-frames (j ∷ js) =
    omega (arith, length-append (encode j) (frames js), length-encode j, length-le-frames js)

replies-append :
    (reply : Bytes → Bytes) (xs ys : List Bytes)
    → replies reply (xs ++ ys) ≡ replies reply xs ++ replies reply ys
replies-append reply [] ys = refl
replies-append reply (x ∷ xs) ys =
    rw (replies-append reply xs ys)
      (sym (append_assoc (reply x) (replies reply xs) (replies reply ys)))

All-left {ℓ} :
    {A : Type ℓ} (P : A → Type 0) (xs ys : List A) → All P (xs ++ ys) → All P xs × All P ys
All-left P [] ys h = (tt, h)
All-left P (x ∷ xs) ys h = let r = All-left P xs ys h.1 in ((h.0, r.0), r.1)

-- A stream of frames is at its end only behind its last frame.
frames-waits : (js : List Bytes) → All Fits js → decode (frames js) ≡ returned none → js ≡ []
frames-waits [] h e = refl
frames-waits (j ∷ js) h e = cc (decode-encode j (frames js) h.0)

-- The handler on whole frames and a tail.
pub serve-frames :
    (execute : Bytes → Outcome Bytes) (reply : Bytes → Bytes) (js : List Bytes) (tail : Bytes)
    → All Fits js
    → Executes execute reply js
    → decode tail ≡ returned none
    → serve execute (frames js ++ tail) ≡ returned (replies reply js, tail)
unfolding serve
serve-frames execute reply js tail h x w =
    drain-frames execute reply (suc (length (frames js ++ tail))) js tail [] h x w
      (omega (arith, length-le-frames js, length-append (frames js) tail))

deliver_from :
    (execute : Bytes → Outcome Bytes) (reply : Bytes → Bytes) (inbuffer outbuffer : Bytes)
    (pieces js : List Bytes)
    → All Fits js
    → Executes execute reply js
    → decode inbuffer ≡ returned none
    → inbuffer ++ concat pieces ≡ frames js
    → deliver execute inbuffer outbuffer pieces ≡ returned (outbuffer ++ replies reply js, [])
unfolding deliver
deliver_from execute reply inbuffer outbuffer [] js h x w e =
    let whole : inbuffer ≡ frames js = sym (append-nil inbuffer) ∙ e in
    let none_left = frames-waits js h (ap decode (sym whole) ∙ w) in
    rw (whole, none_left, append-nil outbuffer)
deliver_from execute reply inbuffer outbuffer (piece ∷ pieces) js h x w e =
    let c =
      cut js (inbuffer ++ piece) (concat pieces) h
        (append_assoc inbuffer piece (concat pieces) ∙ e) in
    let fits = All-left Fits c.done c.left (subst (All Fits) c.whole h) in
    let runs =
      All-left (λ j. execute j ≡ returned (reply j)) c.done c.left
        (subst (Executes execute reply) c.whole x) in
    rw (c.shape, serve-frames execute reply c.done c.tail fits.0 runs.0 c.waits)
      (deliver_from execute reply c.tail (outbuffer ++ replies reply c.done) pieces c.left fits.1
          runs.1 c.waits c.more
        ∙ ap (λ r. returned (r, []))
            (append_assoc outbuffer (replies reply c.done) (replies reply c.left)
              ∙ ap (◌++◌ outbuffer)
                  (sym (replies-append reply c.done c.left) ∙ ap (replies reply) (sym c.whole))))

-- However the stream of frames is cut into pieces on its way, the server sends the replies to all
-- packages in order and keeps nothing in its input buffer.
pub deliver-frames :
    (execute : Bytes → Outcome Bytes) (reply : Bytes → Bytes) (pieces js : List Bytes)
    → All Fits js
    → Executes execute reply js
    → concat pieces ≡ frames js
    → deliver execute [] [] pieces ≡ returned (replies reply js, [])
deliver-frames execute reply pieces js h x e =
    deliver_from execute reply [] [] pieces js h x decode-nil e
