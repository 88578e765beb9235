-- ===== src/Chat/Senders.antt =====
-- What a user of test_04_03/3.Chatserver/Route.hpp can read off a datagram.
use linux_system_learning.Prelude.{
  ℕ, ◌≡◌, ◌≢◌, ◌<◌, refl, ap, ap₂, sym, ◌∙◌, true, [], ◌∷◌, ◌++◌, Option, some, arith, All,
  append_assoc,
}
use linux_system_learning.Prelude.Int.{ℤ, pos}
use linux_system_learning.Text.{Bytes, to_string, stoi}
use linux_system_learning.Text.Equal.{eqb_refl}
use linux_system_learning.Text.Decimal.{IsDigits, to_string-IsDigits, stoi-to_string}
use linux_system_learning.Chat.{InetAddr, same, string_addr, send_message}

-- Two texts with one separator that stands in neither of the front parts
split_once :
    (c : ℕ) (x y r s : Bytes)
    → All (λ d. d ≢ c) x
    → All (λ d. d ≢ c) y
    → x ++ c ∷ r ≡ y ++ c ∷ s
    → (x ≡ y) × (r ≡ s)
split_once c [] [] r s h k e = (refl, cc e)
split_once c [] (d ∷ y) r s h k e = absurd (k.0 (cc e))
split_once c (d ∷ x) [] r s h k e = absurd (h.0 (cc e))
split_once c (d ∷ x) (d' ∷ y) r s h k e =
    let first : d ≡ d' = cc e in
    let rest = split_once c x y r s h.1 k.1 (cc e) in (ap₂ ◌∷◌ first rest.0, rest.1)

digits_only : (c : ℕ) (s : Bytes) → c < b'0' → IsDigits s → All (λ d. d ≢ c) s
digits_only c [] l h = tt
digits_only c (d ∷ s) l h = (λ e. omega (arith, h.0.0, e), digits_only c s l h.1)

send_message_parts :
    (a : InetAddr) (message : Bytes)
    → send_message a message ≡ a.ip ++ b':' ∷ (to_string a.port ++ b'#' ∷ message)
unfolding send_message string_addr
send_message_parts a message = simp append_assoc refl

number_of : (m n : ℕ) → ◌≡◌ {A = Option ℤ} (some (pos m)) (some (pos n)) → m ≡ n
number_of m n e = cc e

same_number : (m n : ℕ) → m < 65536 → n < 65536 → to_string m ≡ to_string n → m ≡ n
same_number m n p q e =
    number_of m n
      (sym (stoi-to_string m (omega (arith, p))) ∙ ap stoi e ∙ stoi-to_string n (omega (arith, q)))

same_of : (a b : InetAddr) → a.ip ≡ b.ip → a.port ≡ b.port → same a b ≡ true
same_of a b e f = rw (e, f) (ground (arith, eqb_refl b.ip))

-- Where ports are below 65536 and the printed addresses hold no colon: two texts that MessageRoute sends are equal only
-- if their senders are the same and so are the messages that they sent.
pub send_message_eq :
    (a b : InetAddr) (message message' : Bytes)
    → All (λ c. c ≢ b':') a.ip
    → All (λ c. c ≢ b':') b.ip
    → a.port < 65536
    → b.port < 65536
    → send_message a message ≡ send_message b message'
    → (same a b ≡ true) × (message ≡ message')
send_message_eq a b message message' h k p q e =
    let whole = sym (send_message_parts a message) ∙ e ∙ send_message_parts b message' in
    let (ips, rest) = split_once b':' a.ip b.ip _ _ h k whole in
    let (ports, texts) =
      split_once b'#' (to_string a.port) (to_string b.port) message message'
        (digits_only b'#' (to_string a.port) (omega arith) (to_string-IsDigits a.port))
        (digits_only b'#' (to_string b.port) (omega arith) (to_string-IsDigits b.port)) rest in
    (same_of a b ips (same_number a.port b.port p q ports), texts)
