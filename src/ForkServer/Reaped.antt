-- ===== src/ForkServer/Reaped.antt =====
-- For which processes the parent of test_04_16/NetCal/TcpServer.hpp waits.
use linux_system_learning.Prelude.{
  ℕ, zero, suc, ◌≡◌, refl, ap, Bool, true, false, List, [], ◌∷◌, All, if_cases,
}
use linux_system_learning.ForkServer.{
  Service, forking, by_child, by_grandchild, served, Parent, accepting, waiting, gone, ForkServer,
  ForkMove, accept_fork, close_sock, wait_child, fork_again, end_service, fork_start,
  accept_then_fork, has_ended, wait_returns, fork_child_again, end_of, end_at, fork_move,
  fork_moves,
}

-- The child that the parent forked has ended.
abbrev pub HasLeft : Service → Type 0
HasLeft forking = ⊥
HasLeft by_child = ⊥
HasLeft by_grandchild = Unit
HasLeft served = Unit

-- It has, or it is about to fork.
abbrev pub IsQuick : Service → Type 0
IsQuick forking = Unit
IsQuick by_child = ⊥
IsQuick by_grandchild = Unit
IsQuick served = Unit

-- All children but that of the latest connection have ended, and that one serves nobody.
abbrev pub IsQuickFirst : List Service → Type 0
IsQuickFirst [] = ⊥
IsQuickFirst (service ∷ services) = IsQuick service × All HasLeft services

-- How the connections are where the parent stands
abbrev pub AreReaped : Parent → Bool → List Service → Type 0
AreReaped accepting in_parent services = (in_parent ≡ false) × All HasLeft services
AreReaped waiting in_parent services = IsQuickFirst services
AreReaped gone in_parent services = All HasLeft services

abbrev IsReaped : ForkServer → Type 0
IsReaped s = AreReaped s.parent s.in_parent s.services

-- The child's fork succeeds.
abbrev pub Forks : ForkMove → Type 0
Forks (accept_fork ok) = Unit
Forks close_sock = Unit
Forks wait_child = Unit
Forks (fork_again ok) = ok ≡ true
Forks (end_service i) = Unit

accept-IsReaped :
    (s : ForkServer) (ok : Bool) (p : Parent)
    → s.parent ≡ p
    → AreReaped p s.in_parent s.services
    → IsReaped (accept_then_fork s ok p)
unfolding accept_then_fork
accept-IsReaped s true accepting e h = (tt, h.1)
accept-IsReaped s false accepting e h = h.1
accept-IsReaped s ok waiting e h = rw e h
accept-IsReaped s ok gone e h = rw e h

close-IsReaped :
    (s : ForkServer) (p : Parent)
    → AreReaped p s.in_parent s.services
    → AreReaped p false s.services
close-IsReaped s accepting h = (refl, h.1)
close-IsReaped s waiting h = h
close-IsReaped s gone h = h

left_of :
    (services : List Service)
    → has_ended services ≡ true
    → IsQuickFirst services
    → All HasLeft services
unfolding has_ended
left_of [] e h = cc
left_of (forking ∷ services) e h = cc
left_of (by_child ∷ services) e h = cc
left_of (by_grandchild ∷ services) e h = (tt, h.1)
left_of (served ∷ services) e h = (tt, h.1)

wait-IsReaped :
    (s : ForkServer) (p : Parent)
    → s.parent ≡ p
    → AreReaped p s.in_parent s.services
    → IsReaped (wait_returns s p)
unfolding wait_returns
wait-IsReaped s accepting e h = rw e h
wait-IsReaped s waiting e h =
    if_cases IsReaped s.in_parent (λ b. rw e h)
      (λ b.
        if_cases IsReaped (has_ended s.services) (λ t. (b, left_of s.services t h)) (λ f. rw e h))
wait-IsReaped s gone e h = rw e h

fork-IsReaped :
    (p : Parent) (b : Bool) (services : List Service)
    → AreReaped p b services
    → AreReaped p b (fork_child_again true services)
unfolding fork_child_again
fork-IsReaped accepting b [] h = h
fork-IsReaped accepting b (forking ∷ services) h = absurd h.1.0
fork-IsReaped accepting b (by_child ∷ services) h = h
fork-IsReaped accepting b (by_grandchild ∷ services) h = h
fork-IsReaped accepting b (served ∷ services) h = h
fork-IsReaped waiting b [] h = h
fork-IsReaped waiting b (forking ∷ services) h = (tt, h.1)
fork-IsReaped waiting b (by_child ∷ services) h = h
fork-IsReaped waiting b (by_grandchild ∷ services) h = h
fork-IsReaped waiting b (served ∷ services) h = h
fork-IsReaped gone b [] h = h
fork-IsReaped gone b (forking ∷ services) h = absurd h.0
fork-IsReaped gone b (by_child ∷ services) h = h
fork-IsReaped gone b (by_grandchild ∷ services) h = h
fork-IsReaped gone b (served ∷ services) h = h

end_of-HasLeft : (service : Service) → HasLeft service → HasLeft (end_of service)
unfolding end_of
end_of-HasLeft forking h = h
end_of-HasLeft by_child h = absurd h
end_of-HasLeft by_grandchild h = tt
end_of-HasLeft served h = tt

end_of-IsQuick : (service : Service) → IsQuick service → IsQuick (end_of service)
unfolding end_of
end_of-IsQuick forking h = tt
end_of-IsQuick by_child h = absurd h
end_of-IsQuick by_grandchild h = tt
end_of-IsQuick served h = tt

end_at-HasLeft :
    (services : List Service) (i : ℕ) → All HasLeft services → All HasLeft (end_at services i)
unfolding end_at
end_at-HasLeft [] i h = tt
end_at-HasLeft (service ∷ services) zero h = (end_of-HasLeft service h.0, h.1)
end_at-HasLeft (service ∷ services) (suc i) h = (h.0, end_at-HasLeft services i h.1)

end_at-IsQuickFirst :
    (services : List Service) (i : ℕ) → IsQuickFirst services → IsQuickFirst (end_at services i)
unfolding end_at
end_at-IsQuickFirst [] i h = h
end_at-IsQuickFirst (service ∷ services) zero h = (end_of-IsQuick service h.0, h.1)
end_at-IsQuickFirst (service ∷ services) (suc i) h = (h.0, end_at-HasLeft services i h.1)

end-IsReaped :
    (p : Parent) (b : Bool) (services : List Service) (i : ℕ)
    → AreReaped p b services
    → AreReaped p b (end_at services i)
end-IsReaped accepting b services i h = (h.0, end_at-HasLeft services i h.1)
end-IsReaped waiting b services i h = end_at-IsQuickFirst services i h
end-IsReaped gone b services i h = end_at-HasLeft services i h

move-IsReaped : (s : ForkServer) (m : ForkMove) → Forks m → IsReaped s → IsReaped (fork_move s m)
unfolding fork_move
move-IsReaped s (accept_fork ok) f h = accept-IsReaped s ok s.parent refl h
move-IsReaped s close_sock f h = close-IsReaped s s.parent h
move-IsReaped s wait_child f h = wait-IsReaped s s.parent refl h
move-IsReaped s (fork_again ok) f h = rw f (fork-IsReaped s.parent s.in_parent s.services h)
move-IsReaped s (end_service i) f h = end-IsReaped s.parent s.in_parent s.services i h

moves-IsReaped :
    (s : ForkServer) (ms : List ForkMove) → All Forks ms → IsReaped s → IsReaped (fork_moves s ms)
unfolding fork_moves
moves-IsReaped s [] f h = h
moves-IsReaped s (m ∷ ms) f h = moves-IsReaped (fork_move s m) ms f.1 (move-IsReaped s m f.0 h)

-- However the processes are interleaved, if every child's own fork succeeds: while the parent accepts, every child that it
-- forked has ended and has been waited for, and its descriptor of the last connection is closed; while it waits, all but
-- the last child have ended, and that one is about to fork and end, so that the parent never waits for a service.
pub fork_moves-AreReaped :
    (ms : List ForkMove)
    → All Forks ms
    → AreReaped
        (fork_moves fork_start ms).parent
        (fork_moves fork_start ms).in_parent
        (fork_moves fork_start ms).services
unfolding fork_start
fork_moves-AreReaped ms f = moves-IsReaped fork_start ms f (refl, tt)

-- The service of the latest connection does not end.
abbrev pub GoesOn : ForkMove → Type 0
GoesOn (accept_fork ok) = Unit
GoesOn close_sock = Unit
GoesOn wait_child = Unit
GoesOn (fork_again ok) = Unit
GoesOn (end_service zero) = ⊥
GoesOn (end_service (suc i)) = Unit

abbrev pub IsBlocked : ForkServer → Type 0
IsBlocked s = (s.parent ≡ waiting) × (rest : List Service) × (s.services ≡ by_child ∷ rest)

accept-waiting :
    (s : ForkServer) (ok : Bool) (p : Parent) → p ≡ waiting → accept_then_fork s ok p ≡ s
unfolding accept_then_fork
accept-waiting s ok accepting e = cc
accept-waiting s ok waiting e = refl
accept-waiting s ok gone e = cc

wait-blocked :
    (s : ForkServer) (p : Parent) (rest : List Service)
    → p ≡ waiting
    → s.services ≡ by_child ∷ rest
    → wait_returns s p ≡ s
unfolding wait_returns has_ended
wait-blocked s accepting rest e q = cc
wait-blocked s waiting rest e q =
    if_cases (λ (t : ForkServer). t ≡ s) s.in_parent (λ b. refl) (λ b. rw q refl)
wait-blocked s gone rest e q = cc

move-IsBlocked :
    (s : ForkServer) (m : ForkMove) → GoesOn m → IsBlocked s → IsBlocked (fork_move s m)
unfolding fork_move fork_child_again end_at
move-IsBlocked s (accept_fork ok) g (w, rest, e) = rw (accept-waiting s ok s.parent w) (w, rest, e)
move-IsBlocked s close_sock g (w, rest, e) = (w, rest, e)
move-IsBlocked s wait_child g (w, rest, e) = rw (wait-blocked s s.parent rest w e) (w, rest, e)
move-IsBlocked s (fork_again ok) g (w, rest, e) = (w, rest, ap (fork_child_again ok) e)
move-IsBlocked s (end_service zero) g h = absurd g
move-IsBlocked s (end_service (suc i)) g (w, rest, e) =
    (w, end_at rest i, ap (λ (l : List Service). end_at l (suc i)) e)

-- If the child's fork has failed, the child serves the connection itself: until that service ends the parent waits for
-- it, whatever else happens, and accepts nobody.
pub fork_moves-IsBlocked :
    (s : ForkServer) (ms : List ForkMove)
    → All GoesOn ms
    → IsBlocked s
    → IsBlocked (fork_moves s ms)
unfolding fork_moves
fork_moves-IsBlocked s [] g h = h
fork_moves-IsBlocked s (m ∷ ms) g h =
    fork_moves-IsBlocked (fork_move s m) ms g.1 (move-IsBlocked s m g.0 h)
