-- ===== src/EpollServer.antt =====
-- test_06_12/PollServer/EpollServer.hpp: the loop of `Start`, the dispatcher and its two handlers. What
-- `epoll_wait`, `Accept`, `epoll_ctl` and `recv` return is an argument.
pub mod Interest
use linux_system_learning.Prelude.{
  ℕ, ◌-◌, Bool, true, false, List, [], ◌∷◌, Option, none, some, ◌==◌, if◌then◌else◌, take, length,
}
use linux_system_learning.Text.{Bytes, c_str}

-- `watched` is what the kernel watches for the server. The other lists record, the latest first, what `Accept`
-- returned, what was closed, for what `epoll_ctl` failed, and what was printed.
pub record EpollServer : Type 0 where
  pub listensock : ℕ
  pub isrunning : Bool
  pub watched : List ℕ
  pub accepted : List ℕ
  pub closed : List ℕ
  pub refused : List ℕ
  pub said : List Bytes

-- What `recv` returns: `n > 0` bytes, 0, or -1.
pub data Input : Type 0 where
  chars : Bytes → Input
  quit error : Input

-- An entry of `_recvs`, with what the calls return that its handler makes; `added` is `epoll_ctl`'s success.
pub record Event : Type 0 where
  pub sockfd : ℕ
  pub epollin : Bool
  pub accept : Option ℕ
  pub added : Bool
  pub recv : Input

pub epoll_init : ℕ → EpollServer
epoll_init fd = record {
  listensock = fd;
  isrunning = false;
  watched = fd ∷ [];
  accepted = [];
  closed = [];
  refused = [];
  said = [];
}

-- EPOLL_CTL_DEL
unfoldable pub unwatch : ℕ → List ℕ → List ℕ
unwatch fd [] = []
unwatch fd (other ∷ fds) = let rest = unwatch fd fds in if fd == other then fds else other ∷ rest

pub epoll_add : EpollServer → ℕ → Bool → EpollServer
epoll_add s fd added =
    if added
    then record s { accepted = fd ∷ s.accepted; watched = fd ∷ s.watched }
    else record s { accepted = fd ∷ s.accepted; refused = fd ∷ s.refused }

pub epoll_accepter : EpollServer → Option ℕ → Bool → EpollServer
unfolding epoll_add
epoll_accepter s none added = s
epoll_accepter s (some fd) added = epoll_add s fd added

abbrev hang_up : EpollServer → ℕ → EpollServer
hang_up s fd = record s { watched = unwatch fd s.watched; closed = fd ∷ s.closed }

-- `buffer[n - 1] = 0`, and what is printed up to there
pub epoll_recver : EpollServer → ℕ → Input → EpollServer
epoll_recver s fd (Input.chars b) = record s { said = c_str (take (length b - 1) b) ∷ s.said }
epoll_recver s fd Input.quit = hang_up s fd
epoll_recver s fd Input.error = hang_up s fd

-- The body of the loop of `Dispatcher`
pub epoll_event : EpollServer → Event → EpollServer
unfolding epoll_accepter epoll_recver
epoll_event s e =
    if e.epollin
    then (if e.sockfd == s.listensock
        then epoll_accepter s e.accept e.added
        else epoll_recver s e.sockfd e.recv)
    else s

-- `Dispatcher` over the entries that `epoll_wait` filled
pub epoll_dispatch : EpollServer → List Event → EpollServer
epoll_dispatch s [] = s
epoll_dispatch s (e ∷ events) = epoll_dispatch (epoll_event s e) events

-- What `epoll_wait` returns: 0, -1, or how many entries it filled
pub data Waited : Type 0 where
  timed_out wait_error : Waited
  filled : List Event → Waited

pub epoll_turn : EpollServer → Waited → EpollServer
epoll_turn s timed_out = s
epoll_turn s wait_error = s
epoll_turn s (filled events) = epoll_dispatch s events

pub epoll_turns : EpollServer → List Waited → EpollServer
epoll_turns s [] = s
epoll_turns s (n ∷ rest) = epoll_turns (epoll_turn s n) rest

-- `Start`: nothing clears the flag that its loop tests.
pub epoll_start : EpollServer → List Waited → EpollServer
epoll_start s turns = epoll_turns (record s { isrunning = true }) turns
