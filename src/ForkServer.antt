-- ===== src/ForkServer.antt =====
-- test_04_16/NetCal/TcpServer.hpp: the loop that accepts and forks, and the two processes that each connection has. The
-- service of a connection is that of `CalcService`.
pub mod Reaped
use linux_system_learning.Prelude.{ℕ, zero, suc, Bool, true, false, List, [], ◌∷◌, if◌then◌else◌}

-- Where the child of a connection stands: in front of its own fork, in the service because that fork failed, with the
-- service in a grandchild and itself ended, or with the service ended, too
pub data Service : Type 0 where
  forking : Service
  by_child : Service
  by_grandchild : Service
  served : Service

-- The parent accepts, waits for the child of the latest connection, or has exited.
pub data Parent : Type 0 where
  accepting : Parent
  waiting : Parent
  gone : Parent

-- The connections, the latest first, and whether the parent has the descriptor of the latest one open
pub record ForkServer : Type 0 where
  pub parent : Parent
  pub services : List Service
  pub in_parent : Bool

-- Accept and fork, with whether the fork succeeds; the parent's Close, and the return of waitpid; the child's fork; the end
-- of a service, by the connection's place
pub data ForkMove : Type 0 where
  accept_fork : Bool → ForkMove
  close_sock : ForkMove
  wait_child : ForkMove
  fork_again : Bool → ForkMove
  end_service : ℕ → ForkMove

unfoldable pub fork_start : ForkServer
fork_start = record { parent = accepting; services = []; in_parent = false }

unfoldable pub accept_then_fork : ForkServer → Bool → Parent → ForkServer
accept_then_fork s ok accepting =
    if ok
    then record s { parent = waiting; services = forking ∷ s.services; in_parent = true }
    else record s { parent = gone }
accept_then_fork s ok waiting = s
accept_then_fork s ok gone = s

-- waitpid returns when the child has ended, which it has not while it serves the connection itself.
unfoldable pub has_ended : List Service → Bool
has_ended [] = false
has_ended (forking ∷ services) = false
has_ended (by_child ∷ services) = false
has_ended (by_grandchild ∷ services) = true
has_ended (served ∷ services) = true

unfoldable pub wait_returns : ForkServer → Parent → ForkServer
unfolding has_ended
wait_returns s waiting =
    if s.in_parent then s else if has_ended s.services then record s { parent = accepting } else s
wait_returns s accepting = s
wait_returns s gone = s

-- `if (fork() > 0) exit(OK);`: the child goes on where the fork fails.
unfoldable pub fork_child_again : Bool → List Service → List Service
fork_child_again ok (forking ∷ services) = (if ok then by_grandchild else by_child) ∷ services
fork_child_again ok services = services

unfoldable pub end_of : Service → Service
end_of forking = forking
end_of by_child = served
end_of by_grandchild = served
end_of served = served

unfoldable pub end_at : List Service → ℕ → List Service
unfolding end_of
end_at [] i = []
end_at (service ∷ services) zero = end_of service ∷ services
end_at (service ∷ services) (suc i) = service ∷ end_at services i

unfoldable pub fork_move : ForkServer → ForkMove → ForkServer
unfolding accept_then_fork wait_returns fork_child_again end_at
fork_move s (accept_fork ok) = accept_then_fork s ok s.parent
fork_move s close_sock = record s { in_parent = false }
fork_move s wait_child = wait_returns s s.parent
fork_move s (fork_again ok) = record s { services = fork_child_again ok s.services }
fork_move s (end_service i) = record s { services = end_at s.services i }

unfoldable pub fork_moves : ForkServer → List ForkMove → ForkServer
unfolding fork_move
fork_moves s [] = s
fork_moves s (m ∷ ms) = fork_moves (fork_move s m) ms
