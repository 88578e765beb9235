-- ===== src/Thread/Detached.antt =====
-- What Detach of test_03_31/ThreadPool/Thread.hpp does to a thread, before and after Start.
use linux_system_learning.Prelude.{
  ℕ, ◌≡◌, ◌≢◌, refl, Bool, true, false, List, [], ◌∷◌, arith, if_cases,
}
use linux_system_learning.Prelude.Outcome.{undefined, Ensures, Ensures-bind}
use linux_system_learning.Thread.{
  Tid, no_tid, joinable, released, Thread, new_thread, release, enable_detach, detach,
  enable_running, create, start_thread, cancel, stop_thread, join_thread, ThreadCall, calls_detach,
  calls_join, calls_start, calls_stop, call_thread, call_all,
}

-- The flag is set, and no thread has been given back to the system.
abbrev pub IsLeaking : Thread → Type 0
IsLeaking t = (t.isdetach ≡ true) × (t.tid ≢ released)

cancel-IsLeaking :
    (t : Thread) (tid : Tid) (ok : Bool) → IsLeaking t → Ensures IsLeaking (cancel t tid ok)
unfolding cancel
cancel-IsLeaking t joinable true h = h
cancel-IsLeaking t joinable false h = h
cancel-IsLeaking t no_tid ok h = tt
cancel-IsLeaking t released ok h = tt

create-IsLeaking : (t : Thread) (ok : Bool) → IsLeaking t → IsLeaking (enable_running (create t ok))
unfolding create enable_running
create-IsLeaking t true h = (h.0, λ e. cc)
create-IsLeaking t false h = h

call-IsLeaking : (t : Thread) (c : ThreadCall) → IsLeaking t → Ensures IsLeaking (call_thread t c)
unfolding call_thread detach join_thread start_thread stop_thread
call-IsLeaking t calls_detach h =
    if_cases (Ensures IsLeaking) t.isdetach (λ e. h) (λ e. absurd (ground (arith, e, h.0)))
call-IsLeaking t calls_join h =
    if_cases (Ensures IsLeaking) t.isdetach (λ e. h) (λ e. absurd (ground (arith, e, h.0)))
call-IsLeaking t (calls_stop ok) h =
    if_cases (Ensures IsLeaking) t.isrunning (λ e. cancel-IsLeaking t t.tid ok h) (λ e. h)
call-IsLeaking t (calls_start ok) h =
    let t' : Thread = enable_running (create t ok) in
    let made : IsLeaking t' = create-IsLeaking t ok h in
    if_cases (Ensures IsLeaking) t.isrunning (λ e. h)
      (λ e.
        if_cases (Ensures IsLeaking) t'.isdetach
          (λ d.
            if_cases (Ensures IsLeaking) t'.isdetach (λ d'. made)
              (λ d'. absurd (ground (arith, d', made.0))))
          (λ d. made))

calls-IsLeaking :
    (t : Thread) (calls : List ThreadCall) → IsLeaking t → Ensures IsLeaking (call_all t calls)
unfolding call_all
calls-IsLeaking t [] h = h
calls-IsLeaking t (c ∷ calls) h =
    Ensures-bind IsLeaking IsLeaking (call_thread t c) (λ t'. call_all t' calls)
      (call-IsLeaking t c h) (λ t' h'. calls-IsLeaking t' calls h')

-- If Detach is called on a new object, then after whatever calls that return, the flag is set, and no thread that the
-- object has started was detached or joined.
pub detach_first-IsLeaking :
    (number : ℕ) (calls : List ThreadCall)
    → Ensures IsLeaking (call_all (new_thread number) (calls_detach ∷ calls))
unfolding call_all call_thread detach enable_detach new_thread
detach_first-IsLeaking number calls = calls-IsLeaking _ calls (refl, λ e. cc)

-- If Detach is called on a thread that was started, a further Detach or a Join is undefined: the flag says that the
-- thread can still be joined.
pub detach_running_twice :
    (number : ℕ)
    → (call_all (new_thread number) (calls_start true ∷ calls_detach ∷ calls_join ∷ []) ≡ undefined)
      × (call_all (new_thread number) (calls_start true ∷ calls_detach ∷ calls_detach ∷ [])
          ≡ undefined)
unfolding call_all call_thread detach enable_detach new_thread start_thread join_thread
    enable_running create release
detach_running_twice number = (refl, refl)
