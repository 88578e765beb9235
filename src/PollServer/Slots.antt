-- ===== src/PollServer/Slots.antt =====
-- The slots of test_06_06/PollServer/PollServer.hpp are watched while they hold a descriptor, and none is lost.
use linux_system_learning.Prelude.{
  true, ℕ, zero, suc, ◌+◌, ◌<◌, ◌≡◌, refl, ap, Bool, List, [], ◌∷◌, Option, none, some, arith, ◌==◌,
  get_or, set, length, if_cases, is_some,
}
use linux_system_learning.SelectServer.Table.{occurs, number}
use linux_system_learning.PollServer.{
  PollFd, unused, watching, PollServer, Read, Sockets, Polled, poll_from, after_used, here_or,
  unused_slot, keep, poll_accepter, drop_slot, poll_recver, poll_slot, poll_dispatch, poll_turn,
  poll_turns, poll_start,
}

-- In how many slots a descriptor is.
abbrev pub held_in : ℕ → List PollFd → ℕ
held_in fd [] = 0
held_in fd (p ∷ fds) = occurs fd p.fd + held_in fd fds

-- A slot is asked for POLLIN if it holds a descriptor, and only then.
abbrev pub AreWatched : List PollFd → Type 0
AreWatched [] = Unit
AreWatched (p ∷ fds) = (p.events ≡ is_some p.fd) × AreWatched fds

abbrev pub IsKept : PollServer → Type 0
IsKept s =
    ((fd : ℕ)
      → held_in fd s.fds + number fd s.closed
        ≡ occurs fd (some s.listensock) + number fd s.accepted)
    × AreWatched s.fds

held_in-set :
    (fd : ℕ) (fds : List PollFd) (i : ℕ) (p : PollFd)
    → i < length fds
    → held_in fd (set fds i p) + occurs fd (get_or fds i unused).fd
      ≡ held_in fd fds + occurs fd p.fd
held_in-set fd [] i p h = absurd (omega arith)
held_in-set fd (q ∷ fds) zero p h = omega arith
held_in-set fd (q ∷ fds) (suc i) p h = omega (arith, held_in-set fd fds i p (omega arith))

set-AreWatched :
    (fds : List PollFd) (i : ℕ) (p : PollFd)
    → p.events ≡ is_some p.fd
    → AreWatched fds
    → AreWatched (set fds i p)
set-AreWatched [] i p e h = h
set-AreWatched (q ∷ fds) zero p e h = (e, h.1)
set-AreWatched (q ∷ fds) (suc i) p e h = (h.0, set-AreWatched fds i p e h.1)

used_within : (fds : List PollFd) (i fd : ℕ) → (get_or fds i unused).fd ≡ some fd → i < length fds
used_within [] i fd e = cc
used_within (q ∷ fds) zero fd e = omega arith
used_within (q ∷ fds) (suc i) fd e = omega (arith, used_within fds i fd e)

abbrev Unused : List PollFd → Option ℕ → Type 0
Unused fds none = Unit
Unused fds (some pos) = (pos < length fds) × ((get_or fds pos unused).fd ≡ none)

after_used-Unused :
    (p : PollFd) (fds : List PollFd) (o : Option ℕ) → Unused fds o → Unused (p ∷ fds) (after_used o)
after_used-Unused p fds none h = tt
after_used-Unused p fds (some pos) h = (omega (arith, h.0), h.1)

here_or-Unused :
    (p : PollFd) (fds : List PollFd) (fd o : Option ℕ)
    → p.fd ≡ fd
    → Unused fds o
    → Unused (p ∷ fds) (here_or fd o)
here_or-Unused p fds none o e h = (omega arith, e)
here_or-Unused p fds (some fd) o e h = after_used-Unused p fds o h

unused_slot-Unused : (fds : List PollFd) → Unused fds (unused_slot fds)
unfolding unused_slot
unused_slot-Unused [] = tt
unused_slot-Unused (p ∷ fds) =
    here_or-Unused p fds p.fd (unused_slot fds) refl (unused_slot-Unused fds)

keep-IsKept :
    (s : PollServer) (fd : ℕ) (o : Option ℕ) → Unused s.fds o → IsKept s → IsKept (keep s fd o)
unfolding keep
keep-IsKept s fd none u h = ((λ x. omega (arith, h.0 x)), h.1)
keep-IsKept s fd (some pos) u h = (
  (λ x. omega (arith, h.0 x, held_in-set x s.fds pos (watching fd) u.0, ap (occurs x) u.1)),
  set-AreWatched s.fds pos (watching fd) refl h.1,
)

poll_accepter-IsKept : (s : PollServer) (o : Option ℕ) → IsKept s → IsKept (poll_accepter s o)
unfolding poll_accepter
poll_accepter-IsKept s none h = h
poll_accepter-IsKept s (some fd) h =
    keep-IsKept s fd (unused_slot s.fds) (unused_slot-Unused s.fds) h

drop_slot-IsKept :
    (s : PollServer) (fd pos : ℕ)
    → (get_or s.fds pos unused).fd ≡ some fd
    → IsKept s
    → IsKept (drop_slot s fd pos)
drop_slot-IsKept s fd pos e h = (
  (λ x.
      omega (
        arith,
        h.0 x,
        held_in-set x s.fds pos unused (used_within s.fds pos fd e),
        ap (occurs x) e,
      )),
  set-AreWatched s.fds pos unused refl h.1,
)

poll_recver-IsKept :
    (s : PollServer) (fd pos : ℕ) (r : Read)
    → (get_or s.fds pos unused).fd ≡ some fd
    → IsKept s
    → IsKept (poll_recver s fd pos r)
unfolding poll_recver
poll_recver-IsKept s fd pos (Read.data_of b) e h = h
poll_recver-IsKept s fd pos Read.quit e h = drop_slot-IsKept s fd pos e h
poll_recver-IsKept s fd pos Read.error e h = drop_slot-IsKept s fd pos e h

poll_slot-IsKept :
    (k : Sockets) (i : ℕ) (s : PollServer) (o : Option ℕ) (revents : Bool)
    → (get_or s.fds i unused).fd ≡ o
    → IsKept s
    → IsKept (poll_slot k i s o revents)
unfolding poll_slot
poll_slot-IsKept k i s none revents e h = h
poll_slot-IsKept k i s (some fd) revents e h =
    if_cases IsKept revents
      (λ set.
        if_cases IsKept (fd == s.listensock) (λ listens. poll_accepter-IsKept s (k.accept i) h)
          (λ reads. poll_recver-IsKept s fd i (k.recv i) e h))
      (λ quiet. h)

poll_dispatch-IsKept :
    (k : Sockets) (n i : ℕ) (s : PollServer) → IsKept s → IsKept (poll_dispatch k n i s)
unfolding poll_dispatch
poll_dispatch-IsKept k zero i s h = h
poll_dispatch-IsKept k (suc n) i s h =
    let p = get_or s.fds i unused in
    poll_dispatch-IsKept k n (i + 1) (poll_slot k i s p.fd p.revents)
      (poll_slot-IsKept k i s p.fd p.revents refl h)

held_in-poll_from :
    (x i : ℕ) (is_ready : ℕ → Bool) (fds : List PollFd)
    → held_in x (poll_from is_ready i fds) ≡ held_in x fds
unfolding poll_from
held_in-poll_from x i is_ready [] = refl
held_in-poll_from x i is_ready (p ∷ fds) = omega (arith, held_in-poll_from x (i + 1) is_ready fds)

poll_from-AreWatched :
    (i : ℕ) (is_ready : ℕ → Bool) (fds : List PollFd)
    → AreWatched fds
    → AreWatched (poll_from is_ready i fds)
unfolding poll_from
poll_from-AreWatched i is_ready [] h = h
poll_from-AreWatched i is_ready (p ∷ fds) h = (h.0, poll_from-AreWatched (i + 1) is_ready fds h.1)

poll_turn-IsKept : (s : PollServer) (n : Polled) (k : Sockets) → IsKept s → IsKept (poll_turn s n k)
unfolding poll_turn
poll_turn-IsKept s Polled.failed k h = h
poll_turn-IsKept s Polled.timeout k h = h
poll_turn-IsKept s (Polled.ready is_ready) k h =
    poll_dispatch-IsKept k 4096 0 (record s { fds = poll_from is_ready 0 s.fds })
      (
        (λ x. omega (arith, h.0 x, held_in-poll_from x 0 is_ready s.fds)),
        poll_from-AreWatched 0 is_ready s.fds h.1,
      )

poll_turns-IsKept :
    (s : PollServer) (turns : List (Polled × Sockets)) → IsKept s → IsKept (poll_turns s turns)
unfolding poll_turns
poll_turns-IsKept s [] h = h
poll_turns-IsKept s ((n, k) ∷ rest) h =
    poll_turns-IsKept (poll_turn s n k) rest (poll_turn-IsKept s n k h)

-- From a server in which every descriptor, the listening one and those that `Accept` returned, is in as many slots as it
-- was not closed, and a slot asks for POLLIN exactly if it holds a descriptor, the loop of `Start` keeps it
-- so, whatever `poll`, `Accept` and `recv` return.
pub poll_start-IsKept :
    (s : PollServer) (turns : List (Polled × Sockets)) → IsKept s → IsKept (poll_start s turns)
unfolding poll_start
poll_start-IsKept s turns h = poll_turns-IsKept (record s { isrunning = true }) turns h
