-- ===== src/Protocol/Rounds.antt =====
-- How many rounds the handler's loop makes, and when it makes no end.
use linux_system_learning.Prelude.{
  ℕ, zero, suc, ◌-◌, ◌^◌, ◌<◌, ◌≡◌, ◌≢◌, refl, ap, inl, inr, [], ◌∷◌, ◌++◌, Option, none, some,
  false, arith, ltb, take, drop, length, All, length-drop, length-take, take_of_length_le,
  Option-cases, All-drop, All-take,
}
use linux_system_learning.Prelude.Int.{pos, negsuc}
use linux_system_learning.Prelude.Outcome.{Outcome, returned, thrown, unfinished, undefined, ◌>>=◌}
use linux_system_learning.Text.{Bytes, codes, find, stoi}
use linux_system_learning.Text.Find.{find-nil, find_minus_six}
use linux_system_learning.Text.Decimal.{stoi-nonneg, stoi_minus_six}
use linux_system_learning.Protocol.{sep, decode, decode_at, decode_sized, target_len, drain}

abbrev pub NoMinus : Bytes → Type 0
NoMinus = All (λ c. c ≢ b'-')

-- The target of a length that is not negative is positive, in a buffer below 2^30 bytes.
target_len_pos :
    (len : Bytes) (m : ℕ) → length len < 2 ^ 30 → m < 2 ^ 31 → 0 < target_len len (pos m)
unfolding target_len
target_len_pos len m h k = ground arith

sized_shrinks :
    (buffer : Bytes) (p m : ℕ) (json rest : Bytes)
    → length buffer < 2 ^ 30
    → buffer ≢ []
    → m < 2 ^ 31
    → decode_sized buffer p (pos m) ≡ some (json, rest)
    → (rest ≡ drop (target_len (take p buffer) (pos m)) buffer) × (length rest < length buffer)
unfolding decode_sized
sized_shrinks buffer p m json rest h ne lt e =
    let t = target_len (take p buffer) (pos m) in
    let grows = target_len_pos (take p buffer) m (omega (arith, length-take p buffer)) lt in
    (ground arith, ground (arith, length-drop t buffer, length_pos buffer ne))
  where
    length_pos : (xs : Bytes) → xs ≢ [] → 0 < length xs
    length_pos [] k = absurd (k refl)
    length_pos (x ∷ xs) k = omega arith

decode-ne-nil :
    (buffer json rest : Bytes) → decode buffer ≡ returned (some (json, rest)) → buffer ≢ []
unfolding decode
decode-ne-nil [] json rest e = cc (find-nil sep)
decode-ne-nil (b ∷ buffer) json rest e = λ k. cc

at_shrinks :
    (buffer json rest : Bytes) (o : Option ℕ)
    → length buffer < 2 ^ 30
    → NoMinus buffer
    → buffer ≢ []
    → decode_at buffer o ≡ returned (some (json, rest))
    → NoMinus rest × (length rest < length buffer)
unfolding decode_at
at_shrinks buffer json rest none h nm ne e = cc
at_shrinks buffer json rest (some p) h nm ne e = elim (Option-cases (stoi (take p buffer))) [
  | inl bad ↦ cc
  | inr (n, good) ↦
      let (m, eq, lt) = stoi-nonneg (take p buffer) n (All-take (λ c. c ≢ b'-') p buffer nm) good in
      let r = sized_shrinks buffer p m json rest h ne lt (ground arith) in
      (rw r.0 (All-drop (λ c. c ≢ b'-') _ buffer nm), r.1)
]

-- `Decode` takes at least one byte off a buffer with no minus sign, below 2^30 bytes.
decode-shrinks :
    (buffer json rest : Bytes)
    → length buffer < 2 ^ 30
    → NoMinus buffer
    → decode buffer ≡ returned (some (json, rest))
    → NoMinus rest × (length rest < length buffer)
decode-shrinks buffer json rest h nm e =
    at_shrinks buffer json rest (find sep buffer) h nm (decode-ne-nil buffer json rest e)
      (unfold decode in e)

at_ends : (buffer : Bytes) (o : Option ℕ) → decode_at buffer o ≢ unfinished
unfolding decode_at
at_ends buffer none = λ e. cc
at_ends buffer (some p) = ground arith

decode-ends : (buffer : Bytes) → decode buffer ≢ unfinished
unfolding decode
decode-ends buffer = at_ends buffer (find sep buffer)

-- The handler's loop does not go on for ever: it makes at most one round more than the buffer has
-- bytes, if no byte is a minus sign, the buffer is below 2^30 bytes, and the execution of each package
-- does not go on for ever. It may end by a response, by an exception, or in undefined behaviour.
pub drain_ends :
    (execute : Bytes → Outcome Bytes) (f : ℕ) (inbuffer response : Bytes)
    → ((json : Bytes) → execute json ≢ unfinished)
    → NoMinus inbuffer
    → length inbuffer < 2 ^ 30
    → length inbuffer < f
    → drain execute f inbuffer response ≢ unfinished
unfolding drain
drain_ends execute zero inbuffer response x nm h lt = elim lt [ ]
drain_ends execute (suc f) inbuffer response x nm h lt =
    by_result (λ rest out nm' lt'. drain_ends execute f rest out x nm' (omega arith) (omega arith))
      (decode inbuffer) refl
  where
    by_reply :
        ((rest out : Bytes)
          → NoMinus rest
          → length rest < length inbuffer
          → drain execute f rest out ≢ unfinished)
        → (json rest : Bytes) (r : Outcome Bytes) → execute json ≡ r
        → NoMinus rest × (length rest < length inbuffer)
        → (r >>= λ s. drain execute f rest (response ++ s)) ≢ unfinished
    by_reply again json rest (returned s) e shrinks = again rest (response ++ s) shrinks.0 shrinks.1
    by_reply again json rest thrown e shrinks = λ k. cc
    by_reply again json rest undefined e shrinks = λ k. cc
    by_reply again json rest unfinished e shrinks = absurd (x json e)

    by_result :
        ((rest out : Bytes)
          → NoMinus rest
          → length rest < length inbuffer
          → drain execute f rest out ≢ unfinished)
        → (d : Outcome (Option (Bytes × Bytes))) → decode inbuffer ≡ d
        → drain execute (suc f) inbuffer response ≢ unfinished
    by_result again thrown e = rw e (λ k. cc)
    by_result again undefined e = rw e (λ k. cc)
    by_result again unfinished e = absurd (decode-ends inbuffer e)
    by_result again (returned none) e = rw e (λ k. cc)
    by_result again (returned (some (json, rest))) e =
        rw e
          (by_reply again json rest (execute json) refl (decode-shrinks inbuffer json rest h nm e))

-- A header that announces minus six bytes.
abbrev pub minus_six : Bytes
minus_six = codes "-6\r\n"

target_minus_six : target_len (b'-' ∷ b'6' ∷ []) (negsuc 5) ≡ 0
unfolding target_len
target_minus_six = refl

ltb_zero : (n : ℕ) → ltb n 0 ≡ false
ltb_zero n = ground arith

sized_minus_six :
    (rest : Bytes)
    → length rest < 2 ^ 32
    → decode_sized (minus_six ++ rest) 2 (negsuc 5) ≡ some (rest, minus_six ++ rest)
unfolding decode_sized
sized_minus_six rest h =
    rw (target_minus_six, ltb_zero (length (minus_six ++ rest)))
      (ap (λ (r : Bytes). some (r, minus_six ++ rest))
        (take_of_length_le (2 ^ 64 - 6) rest (omega arith)))

decode-minus_six :
    (rest : Bytes)
    → length rest < 2 ^ 32
    → decode (minus_six ++ rest) ≡ returned (some (rest, minus_six ++ rest))
unfolding decode
decode-minus_six rest h =
    rw (find_minus_six rest, decode_at, stoi_minus_six) (ap returned (sized_minus_six rest h))

-- After a header that announces minus six bytes, with fewer than 2^32 bytes behind it, if the execution
-- of what follows the header as a package returns a reply, the handler's loop has no end: `Decode` reports
-- that package and takes nothing off the buffer, so that no number of rounds is enough.
pub drain-minus_six :
    (execute : Bytes → Outcome Bytes) (rest reply : Bytes) (f : ℕ) (response : Bytes)
    → length rest < 2 ^ 32
    → execute rest ≡ returned reply
    → drain execute f (minus_six ++ rest) response ≡ unfinished
unfolding drain
drain-minus_six execute rest reply zero response h e = refl
drain-minus_six execute rest reply (suc f) response h e =
    rw (decode-minus_six rest h, e) (drain-minus_six execute rest reply f (response ++ reply) h e)
