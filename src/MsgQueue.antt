-- ===== src/MsgQueue.antt =====
-- test_03_18: MsgQueue.hpp, Server.cc and Client.cc. Clients put texts into a System V message queue, the server runs each
-- through the chain of ChainOfResponsibility.hpp until it reads "exit".
pub mod Blocks
pub mod Handled
use linux_system_learning.Prelude.{
  ℕ, zero, suc, ◌-◌, ◌||◌, Bool, true, false, List, [], ◌∷◌, ◌++◌, length, replicate, ltb, ◌==◌,
  if◌then◌else◌,
}
use linux_system_learning.Prelude.Outcome.{Outcome, returned, undefined, ◌>>=◌}
use linux_system_learning.Text.{Bytes, codes, eqb, c_str}
use linux_system_learning.Chain.{Moment, Disk, new_disk, Handler, handler_entry, excute_chain}

abbrev pub default_size : ℕ
default_size = 1024

abbrev pub exit_text : Bytes
exit_text = codes "exit"

-- Send: `mtext` is filled with zeros, and memcpy copies the whole text over it.
unfoldable pub message_of : Bytes → Outcome Bytes
message_of text =
    if ltb default_size (length text)
    then undefined
    else returned (text ++ replicate (default_size - length text) 0)

unfoldable pub has_zero : Bytes → Bool
has_zero [] = false
has_zero (c ∷ s) = c == 0 || has_zero s

-- Recv: the string in `mtext`; without a zero byte it would be read past its end.
unfoldable pub text_of : Bytes → Outcome Bytes
unfolding has_zero
text_of mtext = if has_zero mtext then returned (c_str mtext) else undefined

-- The loop of Client.cc: what it sends in `n` rounds. When the input ends getline leaves the string empty.
unfoldable pub client_texts : ℕ → List Bytes → List Bytes
client_texts zero lines = []
client_texts (suc n) [] = [] ∷ client_texts n []
client_texts (suc n) (input ∷ lines) =
    let rest = client_texts n lines in input ∷ (if eqb input exit_text then [] else rest)

-- The server runs, has left its loop and removed the queue, or has exited in the chain.
pub data Status : Type 0 where
  serving : Status
  left_loop : Status
  exited : Status

-- The messages in the queue, the server's `text`, and what the chain has written. `sent` and `runs` record what was put
-- into the queue and what Run was called with.
pub record MsgServer : Type 0 where
  pub queue : List Bytes
  pub status : Status
  pub text : Bytes
  pub disk : Disk
  pub sent : List Bytes
  pub runs : List (Moment × Bytes)

-- A client's Send, or a round of the server, with whether msgsnd or msgrcv succeeds
pub data MsgMove : Type 0 where
  send_text : Bool → Bytes → MsgMove
  recv_text : Bool → Moment → MsgMove

unfoldable pub new_server : MsgServer
new_server = record {
  queue = [];
  status = serving;
  text = [];
  disk = new_disk;
  sent = [];
  runs = [];
}

unfoldable pub put_in : MsgServer → Bytes → Bytes → Status → MsgServer
put_in s text mtext left_loop = s
put_in s text mtext serving = record s { queue = s.queue ++ mtext ∷ []; sent = s.sent ++ text ∷ [] }
put_in s text mtext exited = record s { queue = s.queue ++ mtext ∷ []; sent = s.sent ++ text ∷ [] }

unfoldable pub send : Bool → MsgServer → Bytes → Outcome MsgServer
unfolding message_of put_in
send ok s text =
    message_of text >>= λ mtext. returned (if ok then put_in s text mtext s.status else s)

module _ (tar : Bytes → Bytes) where
  unfoldable pub ran : MsgServer → Moment → Disk × Bool → MsgServer
  ran s m (d, go) = record s {
    disk = d;
    status = if go then serving else exited;
    runs = s.runs ++ (m, s.text) ∷ [];
  }

  -- The rest of a round of main: the test for "exit" and Run
  unfoldable pub handle_text : MsgServer → Moment → MsgServer
  unfolding ran
  handle_text s m =
      if eqb s.text exit_text
      then record s { status = left_loop; queue = [] }
      else ran s m (excute_chain tar (handler_entry true true true) m s.text s.disk)

  -- Recv waits while the queue is empty; where msgrcv fails, `text` is what it was.
  unfoldable pub recv_from : Bool → MsgServer → Moment → List Bytes → Outcome MsgServer
  unfolding text_of handle_text
  recv_from false s m queue = returned (handle_text s m)
  recv_from true s m [] = returned s
  recv_from true s m (mtext ∷ rest) =
      text_of mtext >>= λ text. returned (handle_text (record s { queue = rest; text = text }) m)

  unfoldable pub serve_round : Bool → MsgServer → Moment → Status → Outcome MsgServer
  unfolding recv_from
  serve_round ok s m serving = recv_from ok s m s.queue
  serve_round ok s m left_loop = returned s
  serve_round ok s m exited = returned s

  unfoldable pub msg_move : MsgServer → MsgMove → Outcome MsgServer
  unfolding send serve_round
  msg_move s (send_text ok text) = send ok s text
  msg_move s (recv_text ok m) = serve_round ok s m s.status

  unfoldable pub msg_moves : MsgServer → List MsgMove → Outcome MsgServer
  unfolding msg_move
  msg_moves s [] = returned s
  msg_moves s (mv ∷ mvs) = msg_move s mv >>= λ s'. msg_moves s' mvs
