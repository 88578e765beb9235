-- ===== src/Protocol/Frame.antt =====
-- `Encode` and `Decode`: a frame is taken off whole, and not before it is complete.
use linux_system_learning.Prelude.{
  ℕ, suc, ◌+◌, ◌-◌, ◌^◌, ◌≤◌, ◌<◌, ◌≡◌, ◌≢◌, ap, ◌∙◌, [], ◌∷◌, ◌++◌, none, some, arith, ltb,
  if◌then◌else◌, take, drop, length, All, All-append, length-append, drop-append_add,
  take-append_add, length-take, dec_lt, take-append, append_assoc,
}
use linux_system_learning.Prelude.Int.{pos}
use linux_system_learning.Prelude.Outcome.{returned}
use linux_system_learning.Text.{Bytes, find, to_string}
use linux_system_learning.Text.Find.{find-append, find-take}
use linux_system_learning.Text.Decimal.{stoi-to_string, to_string-IsDigits}
use linux_system_learning.Protocol.{sep, encode, decode, decode_at, decode_sized, target_len}

-- A frame fits if its length is an `int`.
abbrev pub Fits : Bytes → Type 0
Fits json = length (encode json) < 2 ^ 31

pub digits-ne-cr : (s : Bytes) → All (λ c. (b'0' ≤ c) × (c ≤ b'9')) s → All (λ x. x ≢ 13) s
digits-ne-cr [] h = tt
digits-ne-cr (c ∷ s) h = (omega arith, digits-ne-cr s h.1)

pub length-encode :
    (json : Bytes) → length (encode json) ≡ length (to_string (length json)) + length json + 4
unfolding encode
length-encode json =
    omega (
      arith,
      length-append (to_string (length json)) (sep ++ (json ++ sep)),
      length-append json sep,
    )

-- The separator of a frame stands behind the length.
pub find-frame :
    (n : ℕ) (s : Bytes) → find sep (to_string n ++ (sep ++ s)) ≡ some (length (to_string n))
find-frame n s = find-append (to_string n) 13 (10 ∷ []) s (digits-ne-cr _ (to_string-IsDigits n))

-- What `Decode` makes of a buffer that starts with a readable length and the separator.
pub decode_header :
    (n : ℕ) (s : Bytes)
    → n < 2 ^ 31
    → decode (to_string n ++ (sep ++ s))
      ≡ returned (decode_sized (to_string n ++ (sep ++ s)) (length (to_string n)) (pos n))
unfolding decode
decode_header n s h =
    rw (find-frame n s, decode_at, take-append (to_string n) (sep ++ s), stoi-to_string n h)

-- The target length is that of the whole frame, as long as this fits an `int`.
target_len_small :
    (len : Bytes) (n : ℕ)
    → length len + n + 4 < 2 ^ 31
    → target_len len (pos n) ≡ length len + n + 4
unfolding target_len
target_len_small len n h = ground arith

-- Behind the header, `Decode` waits for the text and the second separator.
decode_body :
    (len t : Bytes) (n : ℕ)
    → length len + n + 4 < 2 ^ 31
    → decode_sized (len ++ (sep ++ t)) (length len) (pos n)
      ≡ (if ltb (length t) (n + 2) then none else some (take n t, drop (n + 2) t))
unfolding decode_sized
decode_body len t n h =
    rw (take-append len (sep ++ t), target_len_small len n h, drop-append_add len (sep ++ t) 2)
      (ground (arith, length-append len (sep ++ t), behind))
  where
    behind : drop (length len + n + 4) (len ++ (sep ++ t)) ≡ drop (n + 2) t
    behind =
        let e : length len + n + 4 ≡ length len + suc (suc (n + 2)) = omega arith in
        ap (λ k. drop k (len ++ (sep ++ t))) e ∙ drop-append_add len (sep ++ t) (suc (suc (n + 2)))

-- What `Decode` makes of a buffer that starts with the header of a frame that fits.
pub decode_header_body :
    (n : ℕ) (t : Bytes)
    → length (to_string n) + n + 4 < 2 ^ 31
    → decode (to_string n ++ (sep ++ t))
      ≡ returned (if ltb (length t) (n + 2) then none else some (take n t, drop (n + 2) t))
decode_header_body n t h =
    decode_header n t (omega arith) ∙ ap returned (decode_body (to_string n) t n h)

-- `Decode` takes exactly the frame off a buffer that starts with one, and gives back the text that
-- `Encode` was given, if the frame's length fits an `int`.
pub decode-encode :
    (json rest : Bytes) → Fits json → decode (encode json ++ rest) ≡ returned (some (json, rest))
unfolding encode
decode-encode json rest h =
    rw
      (
        append_assoc (to_string (length json)) (sep ++ (json ++ sep)) rest,
        append_assoc json sep rest,
      )
      (decode_header_body (length json) (json ++ (sep ++ rest)) (omega (arith, length-encode json))
        ∙ ground (
          arith,
          length-append json (sep ++ rest),
          take-append json (sep ++ rest),
          drop-append_add json (sep ++ rest) 2,
        ))

-- A length that has not arrived whole, or no separator yet.
decode_cut_header :
    (k n : ℕ) (t : Bytes)
    → k < length (to_string n) + 2
    → decode (take k (to_string n ++ (sep ++ t))) ≡ returned none
unfolding decode
decode_cut_header k n t h =
    rw (find-take k (to_string n) 13 10 t (digits-ne-cr _ (to_string-IsDigits n)) h)

-- The header has arrived, and the text or the second separator has not.
decode_cut_body :
    (j n : ℕ) (t : Bytes)
    → length (to_string n) + n + 4 < 2 ^ 31
    → j < n + 2
    → decode (take (length (to_string n) + (2 + j)) (to_string n ++ (sep ++ t))) ≡ returned none
decode_cut_body j n t fits h =
    rw (take-append_add (to_string n) (sep ++ t) (2 + j), two)
      (decode_header_body n (take j t) fits ∙ ground (arith, length-take j t))
  where
    two : take (2 + j) (sep ++ t) ≡ sep ++ take j t
    two = take-append_add sep t j

-- While a frame that fits has not arrived whole, `Decode` asks for more and throws nothing.
pub decode-take-encode :
    (json : Bytes) (k : ℕ)
    → Fits json
    → k < length (encode json)
    → decode (take k (encode json)) ≡ returned none
unfolding encode
decode-take-encode json k fits h = elim (dec_lt k (length len + 2)) [
  | yes early ↦ decode_cut_header k (length json) (json ++ sep) early
  | no late ↦
      let e : k ≡ length len + (2 + (k - length len - 2)) = omega arith in
      rw e (
        decode_cut_body (k - length len - 2) (length json) (json ++ sep)
          (omega (arith, length-encode json)) (omega (arith, length-encode json)))
]
  where
    len : Bytes
    len = to_string (length json)

-- A frame of a text without zero bytes has none.
pub encode_text : (json : Bytes) → All (λ c. c ≢ 0) json → All (λ c. c ≢ 0) (encode json)
unfolding encode
encode_text json h =
    All-append (λ c. c ≢ 0) (to_string (length json)) (sep ++ (json ++ sep))
      (nonzero _ (to_string-IsDigits (length json)))
      (omega arith, (omega arith, All-append (λ c. c ≢ 0) json sep h (omega arith)))
  where
    nonzero : (s : Bytes) → All (λ c. (b'0' ≤ c) × (c ≤ b'9')) s → All (λ x. x ≢ 0) s
    nonzero [] k = tt
    nonzero (c ∷ s) k = (omega arith, nonzero s k.1)
