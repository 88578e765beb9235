-- ===== src/EpollServer/Interest.antt =====
-- What test_06_12/PollServer/EpollServer.hpp does with the descriptors that it accepts.
use linux_system_learning.Prelude.{
  ℕ, ◌+◌, ◌<◌, ◌≤◌, ◌≡◌, ◌≢◌, ap, Bool, true, false, List, [], ◌∷◌, Option, none, some, arith, ◌==◌,
  if◌then◌else◌, if_cases, All,
}
use linux_system_learning.SelectServer.Table.{occurs, number}
use linux_system_learning.EpollServer.{
  EpollServer, Input, Event, unwatch, epoll_add, epoll_accepter, hang_up, epoll_recver, epoll_event,
  epoll_dispatch, Waited, timed_out, wait_error, filled, epoll_turn, epoll_turns, epoll_start,
}

-- Every descriptor that was accepted, and the listening one, is watched, closed or refused by `epoll_ctl`.
abbrev pub IsWatched : EpollServer → Type 0
IsWatched s =
    (fd : ℕ)
    → number fd s.watched + number fd s.closed + number fd s.refused
      ≡ occurs fd (some s.listensock) + number fd s.accepted

-- The kernel reports descriptors that it watches, each once.
abbrev pub AreReported : List ℕ → List Event → Type 0
AreReported watched [] = Unit
AreReported watched (e ∷ events) =
    (0 < number e.sockfd watched)
    × All (λ other. other.sockfd ≢ e.sockfd) events
    × AreReported watched events

fd_eq : (a b : ℕ) → (a == b) ≡ true → a ≡ b
fd_eq a b h = ground arith

number-unwatch :
    (x fd : ℕ) (fds : List ℕ)
    → 0 < number fd fds
    → number x (unwatch fd fds) + occurs x (some fd) ≡ number x fds
unfolding unwatch
number-unwatch x fd [] h = absurd (omega arith)
number-unwatch x fd (other ∷ fds) h =
    if_cases (λ l. number x l + occurs x (some fd) ≡ number x (other ∷ fds)) (fd == other)
      (λ t. omega (arith, ap (λ k. occurs x (some k)) (fd_eq fd other t)))
      (λ f.
        omega (
          arith,
          number-unwatch x fd fds (omega (arith, ap {B = ℕ} (λ b. if b then 1 else 0) f, h)),
        ))

still_after_add :
    (s : EpollServer) (o : Option ℕ) (added : Bool) (g : ℕ)
    → number g s.watched ≤ number g (epoll_accepter s o added).watched
unfolding epoll_accepter epoll_add
still_after_add s none added g = omega arith
still_after_add s (some fd) true g = omega arith
still_after_add s (some fd) false g = omega arith

other_unwatched :
    (fd g : ℕ) (fds : List ℕ)
    → 0 < number fd fds
    → g ≢ fd
    → number g fds ≤ number g (unwatch fd fds)
other_unwatched fd g fds h ne = ground (arith, number-unwatch g fd fds h)

still_after_input :
    (s : EpollServer) (fd : ℕ) (r : Input) (g : ℕ)
    → 0 < number fd s.watched
    → g ≢ fd
    → number g s.watched ≤ number g (epoll_recver s fd r).watched
unfolding epoll_recver
still_after_input s fd (Input.chars b) g h ne = omega arith
still_after_input s fd Input.quit g h ne = other_unwatched fd g s.watched h ne
still_after_input s fd Input.error g h ne = other_unwatched fd g s.watched h ne

-- Another descriptor is watched as before, or once more.
still_watched :
    (s : EpollServer) (e : Event) (g : ℕ)
    → 0 < number e.sockfd s.watched
    → g ≢ e.sockfd
    → number g s.watched ≤ number g (epoll_event s e).watched
unfolding epoll_event epoll_accepter epoll_recver epoll_add
still_watched s e g h ne =
    if_cases (λ (t : EpollServer). number g s.watched ≤ number g t.watched) e.epollin
      (λ b.
        if_cases (λ (t : EpollServer). number g s.watched ≤ number g t.watched)
          (e.sockfd == s.listensock) (λ b. still_after_add s e.accept e.added g)
          (λ b. still_after_input s e.sockfd e.recv g h ne))
      (λ b. omega arith)

add-IsWatched :
    (s : EpollServer) (fd : ℕ) (added : Bool) → IsWatched s → IsWatched (epoll_add s fd added)
unfolding epoll_add
add-IsWatched s fd true h = λ x. omega (arith, h x)
add-IsWatched s fd false h = λ x. omega (arith, h x)

accepter-IsWatched :
    (s : EpollServer) (o : Option ℕ) (added : Bool)
    → IsWatched s
    → IsWatched (epoll_accepter s o added)
unfolding epoll_accepter
accepter-IsWatched s none added h = h
accepter-IsWatched s (some fd) added h = add-IsWatched s fd added h

hang_up-IsWatched :
    (s : EpollServer) (fd : ℕ) → 0 < number fd s.watched → IsWatched s → IsWatched (hang_up s fd)
hang_up-IsWatched s fd there h = λ x. omega (arith, h x, number-unwatch x fd s.watched there)

recver-IsWatched :
    (s : EpollServer) (fd : ℕ) (r : Input)
    → 0 < number fd s.watched
    → IsWatched s
    → IsWatched (epoll_recver s fd r)
unfolding epoll_recver
recver-IsWatched s fd (Input.chars b) there h = h
recver-IsWatched s fd Input.quit there h = hang_up-IsWatched s fd there h
recver-IsWatched s fd Input.error there h = hang_up-IsWatched s fd there h

event-IsWatched :
    (s : EpollServer) (e : Event)
    → 0 < number e.sockfd s.watched
    → IsWatched s
    → IsWatched (epoll_event s e)
unfolding epoll_event
event-IsWatched s e there h =
    if_cases IsWatched e.epollin
      (λ b.
        if_cases IsWatched (e.sockfd == s.listensock) (λ b. accepter-IsWatched s e.accept e.added h)
          (λ b. recver-IsWatched s e.sockfd e.recv there h))
      (λ b. h)

reported_after :
    (s : EpollServer) (e : Event) (events : List Event)
    → 0 < number e.sockfd s.watched
    → All (λ other. other.sockfd ≢ e.sockfd) events
    → AreReported s.watched events
    → AreReported (epoll_event s e).watched events
reported_after s e [] there ne r = tt
reported_after s e (other ∷ events) there ne r = (
  omega (arith, still_watched s e other.sockfd there ne.0, r.0),
  r.1,
  reported_after s e events there ne.1 r.2,
)

pub epoll_dispatch-IsWatched :
    (s : EpollServer) (events : List Event)
    → AreReported s.watched events
    → IsWatched s
    → IsWatched (epoll_dispatch s events)
unfolding epoll_dispatch
epoll_dispatch-IsWatched s [] r h = h
epoll_dispatch-IsWatched s (e ∷ events) r h =
    epoll_dispatch-IsWatched (epoll_event s e) events (reported_after s e events r.0 r.1 r.2)
      (event-IsWatched s e r.0 h)

-- What one `epoll_wait` reports is watched then.
abbrev pub AreWaited : EpollServer → List Waited → Type 0
AreWaited s [] = Unit
AreWaited s (timed_out ∷ rest) = AreWaited s rest
AreWaited s (wait_error ∷ rest) = AreWaited s rest
AreWaited s (filled events ∷ rest) =
    AreReported s.watched events × AreWaited (epoll_dispatch s events) rest

epoll_turns-IsWatched :
    (s : EpollServer) (turns : List Waited)
    → AreWaited s turns
    → IsWatched s
    → IsWatched (epoll_turns s turns)
unfolding epoll_turns epoll_turn
epoll_turns-IsWatched s [] r h = h
epoll_turns-IsWatched s (timed_out ∷ rest) r h = epoll_turns-IsWatched s rest r h
epoll_turns-IsWatched s (wait_error ∷ rest) r h = epoll_turns-IsWatched s rest r h
epoll_turns-IsWatched s (filled events ∷ rest) r h =
    epoll_turns-IsWatched (epoll_dispatch s events) rest r.1
      (epoll_dispatch-IsWatched s events r.0 h)

-- If every descriptor, the listening one and those that `Accept` returned, is watched, closed or refused by
-- `epoll_ctl`, as often as it came, and each `epoll_wait` reports watched descriptors, each once, this stays so in
-- `Start`: a descriptor is watched no longer when it is closed, and only one for which `epoll_ctl` failed is neither
-- watched nor closed.
pub epoll_start-IsWatched :
    (s : EpollServer) (turns : List Waited)
    → AreWaited (record s { isrunning = true }) turns
    → IsWatched s
    → IsWatched (epoll_start s turns)
unfolding epoll_start
epoll_start-IsWatched s turns r h = epoll_turns-IsWatched (record s { isrunning = true }) turns r h
