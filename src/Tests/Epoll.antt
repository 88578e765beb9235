-- ===== src/Tests/Epoll.antt =====
-- Three events of the epoll server.
use linux_system_learning.Prelude.{true, false, List, [], ◌∷◌, some, none, arith}
use linux_system_learning.EpollServer.{EpollServer, Input, Event, timed_out, filled, epoll_start}
use linux_system_learning.EpollServer.Interest.{IsWatched, epoll_start-IsWatched}

-- It listens on 3 and watches 5.
abbrev watching_two : EpollServer
watching_two = record {
  listensock = 3;
  isrunning = false;
  watched = 5 ∷ 3 ∷ [];
  accepted = 5 ∷ [];
  closed = [];
  refused = [];
  said = [];
}

-- A connection is accepted, and the other one ends.
abbrev events : List Event
events =
    record { sockfd = 3; epollin = true; accept = some 6; added = true; recv = Input.quit }
    ∷ record { sockfd = 5; epollin = true; accept = none; added = true; recv = Input.quit }
    ∷ []

epoll_start-IsWatched_example :
    IsWatched (epoll_start watching_two (timed_out ∷ filled events ∷ []))
epoll_start-IsWatched_example =
    epoll_start-IsWatched watching_two (timed_out ∷ filled events ∷ [])
      ((omega arith, (((λ e. omega (arith, e)), tt)), (omega arith, tt, tt)), tt)
      (λ fd. omega arith)
