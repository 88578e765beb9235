-- ===== src/Reactor/Answer.antt =====
-- One readable channel of the calculator's server: what a round of the dispatcher sends.
use linux_system_learning.Prelude.{
  ℕ, zero, suc, ◌≤◌, ◌≡◌, ◌≢◌, refl, ap, ◌∙◌, true, false, List, [], ◌∷◌, ◌++◌, none, some, arith,
  lookup, insert, lookup-insert, drop, length, length-append, All, take_of_length_le,
}
use linux_system_learning.Prelude.Outcome.{Outcome, returned}
use linux_system_learning.Text.{Bytes}
use linux_system_learning.Protocol.{encode, decode, serve}
use linux_system_learning.Protocol.Frame.{Fits, length-encode}
use linux_system_learning.Protocol.Stream.{frames, replies, Executes, serve-frames}
use linux_system_learning.Reactor.{
  Connection, channel, sent, ctl_mod, Reactor, Send, took, Recv, Ready, drained, enable_read_write,
  enable, sender, recver, respond, handled, interest_in, send_loop, is_empty, dispatch_one,
  on_input, on_output, readable, writeable,
}
use linux_system_learning.Reactor.Channel.{IsInput, input_text, recv_loop_drained, ==_self}

drop_of_length_le : (n : ℕ) (xs : Bytes) → length xs ≤ n → drop n xs ≡ []
drop_of_length_le zero [] h = refl
drop_of_length_le zero (x ∷ xs) h = absurd (omega arith)
drop_of_length_le (suc n) [] h = refl
drop_of_length_le (suc n) (x ∷ xs) h = drop_of_length_le n xs (omega arith)

-- One call of send that takes everything ends the loop.
send_loop_whole :
    (n : ℕ) (sends : List Send) (out : Bytes)
    → length out ≤ n
    → send_loop (took n ∷ sends) out ≡ returned (record { taken = out; left = []; script = sends })
unfolding send_loop
send_loop_whole n sends out h = rw (drop_of_length_le n out h, take_of_length_le n out h)

-- The state after an output buffer was sent whole.
abbrev pub flushed : Reactor → Connection → Bytes → Bytes → Reactor
flushed r conn inbuffer outbuffer = record r {
  connections =
      insert conn.sockfd
        (record conn { part = channel inbuffer []; events = interest_in true false })
        (insert conn.sockfd (record conn { part = channel inbuffer [] }) r.connections);
  calls =
      (r.calls ++ sent conn.sockfd outbuffer ∷ [])
      ++ ctl_mod conn.sockfd (interest_in true false) ∷ [];
}

sender_whole :
    (r : Reactor) (conn : Connection) (inbuffer outbuffer : Bytes) (n : ℕ) (sends : List Send)
    → length outbuffer ≤ n
    → sender r conn inbuffer outbuffer (took n ∷ sends)
      ≡ returned (flushed r conn inbuffer outbuffer, sends)
unfolding sender enable_read_write
sender_whole r conn inbuffer outbuffer n sends h =
    rw (send_loop_whole n sends outbuffer h, lookup-insert, ==_self conn.sockfd, enable) refl

handled-true :
    (handle : Bytes → Outcome (Bytes × Bytes)) (b : Bytes)
    → b ≢ []
    → handled handle true b ≡ handle b
unfolding handled
handled-true handle [] h = absurd (h refl)
handled-true handle (c ∷ b) h = refl

is_empty_ne : (b : Bytes) → b ≢ [] → is_empty b ≡ false
is_empty_ne [] h = absurd (h refl)
is_empty_ne (c ∷ b) h = refl

module _ (execute : Bytes → Outcome Bytes) (reply : Bytes → Bytes) where
  frames-ne-nil : (js : List Bytes) (tail : Bytes) → replies reply js ≢ [] → frames js ++ tail ≢ []
  frames-ne-nil [] tail ne e = ne refl
  frames-ne-nil (j ∷ js) tail ne e = omega (
    arith,
    ap length e,
    length-append (encode j ++ frames js) tail,
    length-append (encode j) (frames js),
    length-encode j,
  )

  respond-frames :
      (r : Reactor) (conn : Connection) (js : List Bytes) (tail : Bytes) (n : ℕ) (sends : List Send)
      → conn.handler ≡ true
      → All Fits js
      → Executes execute reply js
      → decode tail ≡ returned none
      → replies reply js ≢ []
      → length (replies reply js) ≤ n
      → respond (serve execute) r conn [] (took n ∷ sends) (drained (frames js ++ tail))
        ≡ returned (flushed r conn tail (replies reply js), sends)
  unfolding respond
  respond-frames r conn js tail n sends on h x w ne le =
      rw (answer, is_empty_ne (replies reply js) ne)
        (sender_whole r conn tail (replies reply js) n sends le)
    where
      buffer : Bytes
      buffer = frames js ++ tail

      answer : handled (serve execute) conn.handler buffer ≡ returned (replies reply js, tail)
      answer =
          ap (λ b. handled (serve execute) b buffer) on
          ∙ handled-true (serve execute) buffer (frames-ne-nil js tail ne)
          ∙ serve-frames execute reply js tail h x w

  -- A readable channel of the table, with a registered handler and an empty output buffer, whose
  -- input buffer and new bytes make up whole frames and a tail that is no whole frame: if the
  -- kernel takes the replies in one call of send, a round of the dispatcher sends exactly the replies
  -- to these frames, in order, keeps the tail as input, and goes on watching for input alone.
  pub dispatch_one-frames :
      (r : Reactor) (conn : Connection) (item : Ready) (inbuffer : Bytes) (script rest : List Recv)
      (js : List Bytes) (tail : Bytes) (n : ℕ) (sends : List Send)
      → lookup item.fd r.connections ≡ some conn
      → conn.part ≡ channel inbuffer []
      → conn.handler ≡ true
      → readable item.events ≡ true
      → writeable item.events ≡ false
      → item.recvs ≡ script ++ Recv.again ∷ rest
      → item.sends ≡ took n ∷ sends
      → IsInput script
      → inbuffer ++ input_text script ≡ frames js ++ tail
      → All Fits js
      → Executes execute reply js
      → decode tail ≡ returned none
      → replies reply js ≢ []
      → length (replies reply js) ≤ n
      → dispatch_one (serve execute) r item ≡ returned (flushed r conn tail (replies reply js))
  unfolding dispatch_one on_input on_output recver
  dispatch_one-frames r conn item inbuffer script rest js tail n sends found p on input output came
        takes quiet whole h x w ne le =
      rw
        (
          found,
          input,
          output,
          p,
          recver,
          came,
          recv_loop_drained script rest inbuffer quiet,
          whole,
          takes,
          respond-frames r conn js tail n sends on h x w ne le,
        )
        refl
