-- ===== src/Tests/Poll.antt =====
-- The slots of the poll server.
use linux_system_learning.Prelude.{refl, true, List, [], ◌∷◌, some, arith}
use linux_system_learning.PollServer.{
  unused, watching, PollServer, Read, Sockets, Polled, poll_start,
}
use linux_system_learning.PollServer.Slots.{IsKept, poll_start-IsKept}

-- Slot 0 listens on 3, slot 1 holds 5 and slot 2 is free.
abbrev polling : PollServer
polling = record {
  listensock = 3;
  isrunning = true;
  fds = watching 3 ∷ watching 5 ∷ unused ∷ [];
  accepted = 5 ∷ [];
  closed = [];
  said = [];
}

abbrev sockets : Sockets
sockets = record { accept = λ i. some 6; recv = λ i. Read.quit }

-- A connection is accepted while the other one is closed; then the first one that is ready is closed.
abbrev polls : List (Polled × Sockets)
polls =
    (Polled.ready (λ i. true), sockets)
    ∷ (Polled.timeout, sockets)
    ∷ (Polled.ready (λ i. true), sockets)
    ∷ []

poll_start-IsKept_example : IsKept (poll_start polling polls)
poll_start-IsKept_example =
    poll_start-IsKept polling polls ((λ fd. omega arith), (refl, (refl, (refl, tt))))
