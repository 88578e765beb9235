-- ===== src/PollServer.antt =====
-- test_06_06/PollServer/PollServer.hpp: the array of pollfd, the loop of `Start`, the dispatcher and its
-- two handlers. What `poll`, `Accept` and `recv` return is an argument.
pub mod Slots
use linux_system_learning.Prelude.{
  ℕ, zero, suc, ◌+◌, ◌-◌, Bool, true, false, ◌&&◌, List, [], ◌∷◌, Option, none, some, ◌==◌,
  if◌then◌else◌, get_or, set, take, length, replicate,
}
use linux_system_learning.Text.{Bytes, c_str}

-- `struct pollfd`: `fd` is `none` where it is `defaultfd`; the flags are POLLIN's.
pub record PollFd : Type 0 where
  pub fd : Option ℕ
  pub events : Bool
  pub revents : Bool

abbrev pub unused : PollFd
unused = record { fd = none; events = false; revents = false }

abbrev pub watching : ℕ → PollFd
watching fd = record { fd = some fd; events = true; revents = false }

-- The fields; `accepted`, `closed` and `said` record, the latest first, what `Accept` returned, what was closed,
-- and what was printed.
pub record PollServer : Type 0 where
  pub listensock : ℕ
  pub isrunning : Bool
  pub fds : List PollFd
  pub accepted : List ℕ
  pub closed : List ℕ
  pub said : List Bytes

-- What `recv` returns: `n > 0` bytes, 0, or -1.
pub data Read : Type 0 where
  data_of : Bytes → Read
  quit error : Read

-- What `Accept` and `recv` return where the loop is at a slot; `none` is a negative descriptor.
pub record Sockets : Type 0 where
  pub accept : ℕ → Option ℕ
  pub recv : ℕ → Read

-- What `poll` returns: -1, 0, or which of the slots are ready for reading.
pub data Polled : Type 0 where
  failed timeout : Polled
  ready : (ℕ → Bool) → Polled

abbrev pub slots : ℕ
slots = 4096

unfoldable pub poll_init : ℕ → PollServer
poll_init fd = record {
  listensock = fd;
  isrunning = false;
  fds = set (replicate slots unused) 0 (watching fd);
  accepted = [];
  closed = [];
  said = [];
}

-- `poll` writes `revents`, and reports POLLIN where it was asked for.
abbrev polled : Bool → PollFd → PollFd
polled is_ready p = record p { revents = is_ready && p.events }

pub poll_from : (ℕ → Bool) → ℕ → List PollFd → List PollFd
poll_from is_ready i [] = []
poll_from is_ready i (p ∷ fds) = polled (is_ready i) p ∷ poll_from is_ready (i + 1) fds

-- The loop of `Accepter` over `pos`; `none` is `pos == size`.
abbrev after_used : Option ℕ → Option ℕ
after_used none = none
after_used (some pos) = some (suc pos)

-- `after_used` where the slot's descriptor is used
abbrev here_or : Option ℕ → Option ℕ → Option ℕ
here_or none pos = some 0
here_or (some fd) pos = after_used pos

pub unused_slot : List PollFd → Option ℕ
unused_slot [] = none
unused_slot (p ∷ fds) = here_or p.fd (unused_slot fds)

pub keep : PollServer → ℕ → Option ℕ → PollServer
keep s fd none = record s { accepted = fd ∷ s.accepted; closed = fd ∷ s.closed }
keep s fd (some pos) = record s { accepted = fd ∷ s.accepted; fds = set s.fds pos (watching fd) }

pub poll_accepter : PollServer → Option ℕ → PollServer
unfolding keep
poll_accepter s none = s
poll_accepter s (some fd) = keep s fd (unused_slot s.fds)

abbrev drop_slot : PollServer → ℕ → ℕ → PollServer
drop_slot s fd pos = record s { fds = set s.fds pos unused; closed = fd ∷ s.closed }

-- `buffer[n - 1] = 0`, and what is printed up to there
pub poll_recver : PollServer → ℕ → ℕ → Read → PollServer
poll_recver s fd pos (Read.data_of b) = record s { said = c_str (take (length b - 1) b) ∷ s.said }
poll_recver s fd pos Read.quit = drop_slot s fd pos
poll_recver s fd pos Read.error = drop_slot s fd pos

-- The body of the loop of `Dispatcher`, on the descriptor of the slot and its `revents`
pub poll_slot : Sockets → ℕ → PollServer → Option ℕ → Bool → PollServer
unfolding poll_accepter poll_recver
poll_slot k i s none revents = s
poll_slot k i s (some fd) revents =
    if revents
    then (if fd == s.listensock
        then poll_accepter s (k.accept i)
        else poll_recver s fd i (k.recv i))
    else s

-- `Dispatcher` from slot `i` on, with `n` slots left
pub poll_dispatch : Sockets → ℕ → ℕ → PollServer → PollServer
poll_dispatch k zero i s = s
poll_dispatch k (suc n) i s =
    let p = get_or s.fds i unused in poll_dispatch k n (i + 1) (poll_slot k i s p.fd p.revents)

-- One turn of the loop of `Start`
pub poll_turn : PollServer → Polled → Sockets → PollServer
unfolding poll_from
poll_turn s Polled.failed k = s
poll_turn s Polled.timeout k = s
poll_turn s (Polled.ready is_ready) k =
    poll_dispatch k slots 0 (record s { fds = poll_from is_ready 0 s.fds })

pub poll_turns : PollServer → List (Polled × Sockets) → PollServer
poll_turns s [] = s
poll_turns s ((n, k) ∷ rest) = poll_turns (poll_turn s n k) rest

-- `Start`: nothing clears the flag that its loop tests.
pub poll_start : PollServer → List (Polled × Sockets) → PollServer
poll_start s turns = poll_turns (record s { isrunning = true }) turns
