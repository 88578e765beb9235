-- ===== src/Reactor/Channel.antt =====
-- One channel: what its receive and send loops do with the answers of the kernel.
use linux_system_learning.Prelude.{
  ℕ, ◌≡◌, ◌≢◌, refl, ap, subst, ◌∙◌, true, false, not, List, [], ◌∷◌, ◌++◌, some, arith, lookup,
  lookup-insert, if_cases, take, drop, append_assoc, append-nil, take-append-drop, ◌==◌, ==_iff,
}
use linux_system_learning.Prelude.Outcome.{
  Outcome, returned, undefined, unfinished, Ensures, Ensures-bind, Returns, Returns-bind,
}
use linux_system_learning.Text.{Bytes, c_str}
use linux_system_learning.Reactor.{
  Connection, channel, sent, ctl_mod, Reactor, Send, took, Recv, got, eof, Ready, drained, hung_up,
  Sent, del_connection, enable_read_write, enable, sender, recver, respond, interest_in, send_loop,
  recv_loop, is_empty,
}

-- What came before the last answer of a script: bytes, and calls that were interrupted.
abbrev pub IsInput : List Recv → Type 0
IsInput [] = Unit
IsInput (got chunk ∷ script) = IsInput script
IsInput (Recv.interrupted ∷ script) = IsInput script
IsInput (_ ∷ script) = ⊥

-- The bytes of a script, each piece up to its first zero byte.
abbrev pub input_text : List Recv → Bytes
input_text [] = []
input_text (got chunk ∷ script) = c_str chunk ++ input_text script
input_text (Recv.interrupted ∷ script) = input_text script
input_text (_ ∷ script) = []

-- Up to EAGAIN the loop collects what came, in order.
pub recv_loop_drained :
    (script rest : List Recv) (inbuffer : Bytes)
    → IsInput script
    → recv_loop (script ++ Recv.again ∷ rest) inbuffer
      ≡ returned (drained (inbuffer ++ input_text script))
unfolding recv_loop
recv_loop_drained [] rest inbuffer h = rw append-nil refl
recv_loop_drained (got chunk ∷ script) rest inbuffer h =
    rw (recv_loop_drained script rest (inbuffer ++ c_str chunk) h)
      (ap (λ b. returned (drained b)) (append_assoc inbuffer (c_str chunk) (input_text script)))
recv_loop_drained (Recv.interrupted ∷ script) rest inbuffer h =
    recv_loop_drained script rest inbuffer h
recv_loop_drained (Recv.eof ∷ script) rest inbuffer h = absurd h
recv_loop_drained (Recv.again ∷ script) rest inbuffer h = absurd h
recv_loop_drained (Recv.broken ∷ script) rest inbuffer h = absurd h

recv_loop_hung_up :
    (script rest : List Recv) (inbuffer : Bytes)
    → IsInput script
    → recv_loop (script ++ eof ∷ rest) inbuffer ≡ returned hung_up
unfolding recv_loop
recv_loop_hung_up [] rest inbuffer h = refl
recv_loop_hung_up (got chunk ∷ script) rest inbuffer h = recv_loop_hung_up script rest _ h
recv_loop_hung_up (Recv.interrupted ∷ script) rest inbuffer h =
    recv_loop_hung_up script rest inbuffer h
recv_loop_hung_up (Recv.eof ∷ script) rest inbuffer h = absurd h
recv_loop_hung_up (Recv.again ∷ script) rest inbuffer h = absurd h
recv_loop_hung_up (Recv.broken ∷ script) rest inbuffer h = absurd h

recv_loop_broken :
    (script rest : List Recv) (inbuffer : Bytes)
    → IsInput script
    → recv_loop (script ++ Recv.broken ∷ rest) inbuffer ≡ undefined
unfolding recv_loop
recv_loop_broken [] rest inbuffer h = refl
recv_loop_broken (got chunk ∷ script) rest inbuffer h = recv_loop_broken script rest _ h
recv_loop_broken (Recv.interrupted ∷ script) rest inbuffer h =
    recv_loop_broken script rest inbuffer h
recv_loop_broken (Recv.eof ∷ script) rest inbuffer h = absurd h
recv_loop_broken (Recv.again ∷ script) rest inbuffer h = absurd h
recv_loop_broken (Recv.broken ∷ script) rest inbuffer h = absurd h

module _ (handle : Bytes → Outcome (Bytes × Bytes)) where
  -- A peer that closes its side right behind its data gets no answer: whatever bytes came in the same
  -- call of `Recver`, the handler does not see them, nothing is sent, and the connection is deleted.
  pub recver_hang_up :
      (r : Reactor) (conn : Connection) (item : Ready) (inbuffer outbuffer : Bytes)
      (script rest : List Recv)
      → conn.part ≡ channel inbuffer outbuffer
      → item.recvs ≡ script ++ eof ∷ rest
      → IsInput script
      → recver handle r conn item ≡ returned (del_connection r conn.sockfd, item.sends)
  unfolding recver respond
  recver_hang_up r conn item inbuffer outbuffer script rest p e h =
      rw (p, recver, e, recv_loop_hung_up script rest inbuffer h) refl

  -- An error of recv that is neither EAGAIN nor EINTR makes `Recver` undefined, whatever came before:
  -- it deletes the connection that it runs on, and goes on with its loop.
  pub recver_broken :
      (r : Reactor) (conn : Connection) (item : Ready) (inbuffer outbuffer : Bytes)
      (script rest : List Recv)
      → conn.part ≡ channel inbuffer outbuffer
      → item.recvs ≡ script ++ Recv.broken ∷ rest
      → IsInput script
      → recver handle r conn item ≡ undefined
  unfolding recver
  recver_broken r conn item inbuffer outbuffer script rest p e h =
      rw (p, recver, e, recv_loop_broken script rest inbuffer h) refl

-- What `send` took and what is left make up the output buffer.
pub send_loop_conserves :
    (script : List Send) (out : Bytes)
    → Ensures (λ s. s.taken ++ s.left ≡ out) (send_loop script out)
unfolding send_loop
send_loop_conserves [] out = tt
send_loop_conserves (took n ∷ script) out =
    if_cases (Ensures (λ s. s.taken ++ s.left ≡ out)) (is_empty (drop n out))
      (λ t. take-append-drop n out)
      λ t.
        Ensures-bind (λ s. s.taken ++ s.left ≡ drop n out) (λ s. s.taken ++ s.left ≡ out)
          (send_loop script (drop n out)) _ (send_loop_conserves script (drop n out))
          λ s e.
            append_assoc (take n out) s.taken s.left
            ∙ ap (◌++◌ (take n out)) e
            ∙ take-append-drop n out
send_loop_conserves (Send.zero ∷ script) out = refl
send_loop_conserves (Send.again ∷ script) out = refl
send_loop_conserves (Send.interrupted ∷ script) out = send_loop_conserves script out
send_loop_conserves (Send.broken ∷ script) out = send_loop_conserves script out

abbrev pub IsBroken : List Send → Type 0
IsBroken [] = Unit
IsBroken (Send.broken ∷ script) = IsBroken script
IsBroken (_ ∷ script) = ⊥

send_loop_broken :
    (script : List Send) (out : Bytes) → IsBroken script → send_loop script out ≡ unfinished
unfolding send_loop
send_loop_broken [] out h = refl
send_loop_broken (took n ∷ script) out h = absurd h
send_loop_broken (Send.zero ∷ script) out h = absurd h
send_loop_broken (Send.again ∷ script) out h = absurd h
send_loop_broken (Send.interrupted ∷ script) out h = absurd h
send_loop_broken (Send.broken ∷ script) out h = send_loop_broken script out h

-- As long as send fails with an error that is neither EAGAIN nor EINTR, `Sender` does not return.
pub sender_broken :
    (r : Reactor) (conn : Connection) (inbuffer outbuffer : Bytes) (script : List Send)
    → IsBroken script
    → sender r conn inbuffer outbuffer script ≡ unfinished
unfolding sender
sender_broken r conn inbuffer outbuffer script h = rw (send_loop_broken script outbuffer h)

-- The state that `Sender` leaves: it splits the output buffer into what was sent and what is left,
-- keeps the rest of the connection, and asks for output events exactly if something is left. Other
-- connections stay as they are.
pub record Flushed (r : Reactor) (conn : Connection) (inbuffer outbuffer : Bytes) (r' : Reactor)
    : Type 0 where
  pub taken : Bytes
  pub left : Bytes
  pub conserved : taken ++ left ≡ outbuffer
  pub stored :
      lookup conn.sockfd r'.connections
      ≡ some (record conn {
        part = channel inbuffer left;
        events = interest_in true (not (is_empty left));
      })
  pub others : (fd : ℕ) → fd ≢ conn.sockfd → lookup fd r'.connections ≡ lookup fd r.connections
  pub told :
      r'.calls
      ≡ r.calls
        ++ (sent conn.sockfd taken
            ∷ ctl_mod conn.sockfd (interest_in true (not (is_empty left)))
            ∷ [])

pub ==_self : (n : ℕ) → (n == n) ≡ true
==_self n = (==_iff n n).1 refl

==_ne : (m n : ℕ) → n ≢ m → (m == n) ≡ false
==_ne m n h = ground arith

sender-Ensures :
    (r : Reactor) (conn : Connection) (inbuffer outbuffer : Bytes) (script : List Send)
    → Ensures
        (λ out. Flushed r conn inbuffer outbuffer out.0)
        (sender r conn inbuffer outbuffer script)
unfolding sender enable_read_write
sender-Ensures r conn inbuffer outbuffer script =
    Ensures-bind (λ s. s.taken ++ s.left ≡ outbuffer)
      (λ (out : Reactor × List Send). Flushed r conn inbuffer outbuffer out.0)
      (send_loop script outbuffer) _ (send_loop_conserves script outbuffer)
      λ s e.
        rw (lookup-insert, ==_self conn.sockfd, enable)
          (record {
            taken = s.taken;
            left = s.left;
            conserved = e;
            stored = rw (lookup-insert, ==_self conn.sockfd);
            others = λ fd ne.
                rw (lookup-insert, ==_ne conn.sockfd fd ne, lookup-insert, ==_ne conn.sockfd fd ne);
            told = append_assoc r.calls (sent conn.sockfd s.taken ∷ []) _;
          })

-- The loop ends at the latest when send reports EAGAIN.
send_loop_returns :
    (script rest : List Send) (out : Bytes)
    → (s : Sent) × (send_loop (script ++ Send.again ∷ rest) out ≡ returned s)
unfolding send_loop
send_loop_returns [] rest out = (_, refl)
send_loop_returns (took n ∷ script) rest out =
    if_cases Returns (is_empty (drop n out)) (λ all. (_, refl))
      (λ some_left.
        Returns-bind (send_loop (script ++ Send.again ∷ rest) (drop n out)) _
          (send_loop_returns script rest (drop n out)) (λ s. (_, refl)))
send_loop_returns (Send.zero ∷ script) rest out = (_, refl)
send_loop_returns (Send.again ∷ script) rest out = (_, refl)
send_loop_returns (Send.interrupted ∷ script) rest out = send_loop_returns script rest out
send_loop_returns (Send.broken ∷ script) rest out = send_loop_returns script rest out

sender_returns :
    (r : Reactor) (conn : Connection) (inbuffer outbuffer : Bytes) (script rest : List Send)
    → (out : Reactor × List Send) × (sender r conn inbuffer outbuffer (script ++ Send.again ∷ rest)
        ≡ returned out)
unfolding sender
sender_returns r conn inbuffer outbuffer script rest =
    Returns-bind (send_loop (script ++ Send.again ∷ rest) outbuffer) _
      (send_loop_returns script rest outbuffer) (λ s. (_, refl))

-- If send reports EAGAIN in the end, or takes everything before, `Sender` returns: it has split the
-- output buffer into what was sent and what is left, has kept the rest of the connection and all other
-- connections, and asks for output events exactly if something is left.
pub sender-Flushed :
    (r : Reactor) (conn : Connection) (inbuffer outbuffer : Bytes) (script rest : List Send)
    → (out : Reactor × List Send) × (sender r conn inbuffer outbuffer (script ++ Send.again ∷ rest)
        ≡ returned out)
      × Flushed r conn inbuffer outbuffer out.0
sender-Flushed r conn inbuffer outbuffer script rest =
    let (out, e) = sender_returns r conn inbuffer outbuffer script rest in
    (
      out,
      e,
      subst (Ensures (λ o. Flushed r conn inbuffer outbuffer o.0)) e
          (sender-Ensures r conn inbuffer outbuffer (script ++ Send.again ∷ rest)),
    )
