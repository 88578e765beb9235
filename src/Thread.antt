-- ===== src/Thread.antt =====
-- test_03_31/ThreadPool/Thread.hpp: a thread object and the thread of the system that it stands for.
pub mod Detached
use linux_system_learning.Prelude.{ℕ, ◌+◌, Bool, true, false, List, [], ◌∷◌, ◌++◌, if◌then◌else◌}
use linux_system_learning.Prelude.Outcome.{Outcome, returned, undefined, ◌>>=◌}
use linux_system_learning.Text.{Bytes, codes, to_string}

-- `_tid` as what the system has under it: no thread, one that can be joined, or one that was detached or joined
pub data Tid : Type 0 where
  no_tid joinable released : Tid

pub record Thread : Type 0 where
  pub tid : Tid
  pub name : Bytes
  pub isdetach : Bool
  pub isrunning : Bool

-- The constructor, for the counter
unfoldable pub new_thread : ℕ → Thread
new_thread number = record {
  tid = no_tid;
  name = codes "thread-" ++ to_string number;
  isdetach = false;
  isrunning = false;
}

-- pthread_detach and pthread_join, which are undefined for what is not a thread that can be joined
unfoldable pub release : Thread → Tid → Outcome Thread
release t joinable = returned (record t { tid = released })
release t no_tid = undefined
release t released = undefined

unfoldable pub enable_detach : Thread → Thread
enable_detach t = if t.isrunning then t else record t { isdetach = true }

-- Detach: a thread that is running is detached, and the flag stays as it is.
unfoldable pub detach : Thread → Outcome Thread
unfolding release enable_detach
detach t =
    let running = release t t.tid >>= λ t'. returned (enable_detach t') in
    if t.isdetach then returned t else if t.isrunning then running else returned (enable_detach t)

unfoldable pub enable_running : Thread → Thread
enable_running t = record t { isrunning = true }

-- Start, for whether pthread_create succeeds; Routine's own Detach is that of an object whose flag is set.
unfoldable pub create : Thread → Bool → Thread
create t ok = if ok then record t { tid = joinable } else t

unfoldable pub start_thread : Thread → Bool → Outcome Thread
unfolding enable_running create detach
start_thread t ok =
    let t' = enable_running (create t ok) in
    let detached = detach t' in
    if t.isrunning then returned t else (if t'.isdetach then detached else returned t')

-- Stop, for whether pthread_cancel succeeds
unfoldable pub cancel : Thread → Tid → Bool → Outcome Thread
cancel t joinable ok = returned (if ok then record t { isrunning = false } else t)
cancel t no_tid ok = undefined
cancel t released ok = undefined

unfoldable pub stop_thread : Thread → Bool → Outcome Thread
unfolding cancel
stop_thread t ok = if t.isrunning then cancel t t.tid ok else returned t

-- Join
unfoldable pub join_thread : Thread → Outcome Thread
unfolding release
join_thread t = if t.isdetach then returned t else release t t.tid

pub data ThreadCall : Type 0 where
  calls_detach calls_join : ThreadCall
  calls_start calls_stop : Bool → ThreadCall

unfoldable pub call_thread : Thread → ThreadCall → Outcome Thread
unfolding detach join_thread start_thread stop_thread
call_thread t calls_detach = detach t
call_thread t calls_join = join_thread t
call_thread t (calls_start ok) = start_thread t ok
call_thread t (calls_stop ok) = stop_thread t ok

unfoldable pub call_all : Thread → List ThreadCall → Outcome Thread
unfolding call_thread
call_all t [] = returned t
call_all t (c ∷ calls) = call_thread t c >>= λ t'. call_all t' calls
