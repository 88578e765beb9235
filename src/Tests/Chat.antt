-- ===== src/Tests/Chat.antt =====
-- A user of the chat server.
use linux_system_learning.Prelude.{◌≡◌, refl, true, arith}
use linux_system_learning.Text.{codes}
use linux_system_learning.Chat.{InetAddr, same}
use linux_system_learning.Chat.Senders.{send_message_eq}

abbrev anna : InetAddr
anna = record { ip = codes "10.0.0.1"; port = 4000 }

send_message_eq_example : (same anna anna ≡ true) × (codes "hi" ≡ codes "hi")
send_message_eq_example =
    send_message_eq anna anna (codes "hi") (codes "hi") (omega arith) (omega arith) (omega arith)
      (omega arith) refl
