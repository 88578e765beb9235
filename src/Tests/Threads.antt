-- ===== src/Tests/Threads.antt =====
-- The queue of test_03_25/Cond and the counter of test_03_23/Lock at small inputs.
use linux_system_learning.Prelude.{ℕ, ◌≡◌, refl, true, false, List, [], ◌∷◌}
use linux_system_learning.Prelude.Outcome.{Gives, undefined}
use linux_system_learning.BlockQueue.{Turn, equeue, resume_equeue, pop, resume_pop, empty_queue}
use linux_system_learning.WaitQueue.{wait_turns, wait_turn, test_empty, wait_empty}
use linux_system_learning.WaitQueue.Flow.{IsFlowing, wait_turns-IsFlowing}
use linux_system_learning.ForkServer.{
  waiting, ForkMove, accept_fork, close_sock, wait_child, fork_again, end_service, fork_start,
  fork_moves, fork_move, accept_then_fork, fork_child_again,
}
use linux_system_learning.ForkServer.Reaped.{AreReaped, fork_moves-AreReaped}
use linux_system_learning.Tickets.{
  RouteMove, lock_mutex, go_on, open_booth, guard_lock, is_gone, route_step, holder_goes,
  route_move, route_moves,
}
use linux_system_learning.Tickets.Sold.{AreSold, route_moves-AreSold}

-- A consumer waits; an element comes, another consumer takes it first, and the woken one waits again.
abbrev overtaken : List (Turn ℕ)
overtaken =
    pop 0
    ∷ equeue 7
    ∷ pop 0
    ∷ resume_pop 0
    ∷ equeue 8
    ∷ equeue 9
    ∷ resume_pop 0
    ∷ resume_equeue 0
    ∷ []

wait_turns-IsFlowing_example : Gives IsFlowing (wait_turns true (empty_queue 1) overtaken)
wait_turns-IsFlowing_example = wait_turns-IsFlowing 1 overtaken

-- Where destroying a held mutex is not known to fail, the first wait is undefined.
pop_undefined : wait_turns {A = ℕ} false (empty_queue 1) (pop 0 ∷ []) ≡ undefined
unfolding empty_queue wait_turns wait_turn test_empty wait_empty
pop_undefined = refl

-- Two tickets and two threads
abbrev two_sales : List RouteMove
two_sales =
    lock_mutex 1
    ∷ go_on
    ∷ lock_mutex 2
    ∷ go_on
    ∷ go_on
    ∷ go_on
    ∷ lock_mutex 2
    ∷ go_on
    ∷ go_on
    ∷ go_on
    ∷ go_on
    ∷ lock_mutex 1
    ∷ go_on
    ∷ go_on
    ∷ []

route_moves-AreSold_example : AreSold 2 (route_moves (open_booth 2) two_sales)
route_moves-AreSold_example = route_moves-AreSold 2 two_sales

sold_out : (route_moves (open_booth 2) two_sales).sold ≡ (1, 2) ∷ (2, 1) ∷ []
unfolding open_booth route_moves route_move guard_lock is_gone holder_goes route_step
sold_out = refl

-- Two connections, the first of which is served while the second one comes
abbrev two_forks : List ForkMove
two_forks =
    accept_fork true
    ∷ close_sock
    ∷ fork_again true
    ∷ wait_child
    ∷ accept_fork true
    ∷ end_service 1
    ∷ fork_again true
    ∷ close_sock
    ∷ wait_child
    ∷ []

fork_moves-AreReaped_example :
    AreReaped
      (fork_moves fork_start two_forks).parent
      (fork_moves fork_start two_forks).in_parent
      (fork_moves fork_start two_forks).services
fork_moves-AreReaped_example =
    fork_moves-AreReaped two_forks (tt, (tt, (refl, (tt, (tt, (tt, (refl, (tt, (tt, tt)))))))))

-- The child's fork fails: the parent waits.
still_waiting :
    (fork_moves fork_start (accept_fork true ∷ fork_again false ∷ close_sock ∷ [])).parent ≡ waiting
unfolding fork_start fork_moves fork_move accept_then_fork fork_child_again
still_waiting = refl
