-- ===== src/Tests/MsgQueue.antt =====
-- The message queue of the chain at small inputs.
use linux_system_learning.Prelude.{◌≡◌, refl, true, List, [], ◌∷◌, arith, replicate}
use linux_system_learning.Prelude.Outcome.{undefined, Gives, ◌>>=◌}
use linux_system_learning.Text.{codes}
use linux_system_learning.Chain.{Moment, packed}
use linux_system_learning.MsgQueue.{
  message_of, has_zero, text_of, client_texts, MsgMove, send_text, recv_text, new_server, msg_moves,
}
use linux_system_learning.MsgQueue.Handled.{IsHandled, msg_moves-IsHandled}

abbrev noon : Moment
noon = record { now = 12; pid = 1; opens = true; later = 13; packing = packed }

-- Two texts and "exit", of which the server reads the first two
abbrev three_texts : List MsgMove
three_texts =
    send_text true (codes "hi")
    ∷ recv_text true noon
    ∷ send_text true (codes "exit")
    ∷ send_text true (codes "lost")
    ∷ recv_text true noon
    ∷ []

msg_moves-IsHandled_example :
    Gives (IsHandled (λ content. content)) (msg_moves (λ content. content) new_server three_texts)
msg_moves-IsHandled_example =
    msg_moves-IsHandled (λ content. content) three_texts
      (omega arith, (refl, (omega arith, (omega arith, (refl, tt)))))

too_long : message_of (replicate 1025 b'a') ≡ undefined
unfolding message_of
too_long = refl

-- A text as long as the block is sent without a zero, and cannot be read.
full_block : (message_of (replicate 1024 b'a') >>= text_of) ≡ undefined
unfolding message_of text_of has_zero
full_block = refl

-- At the end of the input the client goes on with empty texts.
input_ends : client_texts 3 (codes "hi" ∷ []) ≡ codes "hi" ∷ [] ∷ [] ∷ []
unfolding client_texts
input_ends = refl
