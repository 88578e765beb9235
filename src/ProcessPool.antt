-- ===== src/ProcessPool.antt =====
-- test_03_05/ProcessPool: ProcessPool.hpp and Task.hpp, with the descriptors that parent and children hold. The pipe and
-- the child of a round of Start carry the round's number; which descriptors `pipe` gives is an argument.
pub mod Ends
pub mod Stopping
pub mod Turns
use linux_system_learning.Prelude.{
  ℕ, zero, suc, ◌+◌, ◌%◌, Bool, true, false, ◌||◌, List, [], ◌∷◌, ◌++◌, Option, none, some, leb,
  ◌==◌, if◌then◌else◌, length, get_elem?, erase,
}
use linux_system_learning.Prelude.Outcome.{Outcome, returned, undefined, unfinished, ◌>>=◌}

-- What a descriptor is open on
pub data End : Type 0 where
  reads : ℕ → End
  writes : ℕ → End
  other : End

abbrev pub Files : Type 0
Files = List (ℕ × End)

pub record Channel : Type 0 where
  pub wfd : ℕ
  pub subid : ℕ

-- The pool with the parent's descriptors, the children that run with theirs, and the codes that were sent, in order.
pub record ProcessPool : Type 0 where
  pub channels : List Channel
  pub next : ℕ
  pub forks : ℕ
  pub files : Files
  pub children : List (ℕ × Files)
  pub sent : List (ℕ × ℕ)

-- What a round of Start gets from `pipe` and `fork`: the two ends, or a failure
pub data Made : Type 0 where
  made : ℕ → ℕ → Made
  no_pipe : Made
  no_fork : ℕ → ℕ → Made

unfoldable pub new_pool : Files → ProcessPool
new_pool files = record {
  channels = [];
  next = 0;
  forks = 0;
  files = files;
  children = [];
  sent = [];
}

-- CloseAll, in the table of the process that calls it
unfoldable pub close_all : List Channel → Files → Files
close_all [] files = files
close_all (c ∷ channels) files = close_all channels (erase c.wfd files)

abbrev pub piped : ℕ → ℕ → ℕ → Files → Files
piped k rfd wfd files = (rfd, reads k) ∷ (wfd, writes k) ∷ files

-- A round in which both calls succeed: what the child closes of its copy, and what the parent does
unfoldable pub fork_child : ProcessPool → ℕ → ℕ → ProcessPool
unfolding close_all
fork_child s rfd wfd =
    let files = piped s.forks rfd wfd s.files in
    record s {
      files = erase rfd files;
      channels = s.channels ++ record { wfd = wfd; subid = s.forks } ∷ [];
      children = s.children ++ (s.forks, erase wfd (close_all s.channels files)) ∷ [];
      forks = s.forks + 1;
    }

-- Start, on what the rounds get
unfoldable pub start : ProcessPool → List Made → Bool × ProcessPool
unfolding fork_child
start s [] = (true, s)
start s (made rfd wfd ∷ rounds) = start (fork_child s rfd wfd) rounds
start s (no_pipe ∷ rounds) = (false, s)
start s (no_fork rfd wfd ∷ rounds) =
    (false, record s { files = piped s.forks rfd wfd s.files; forks = s.forks + 1 })

-- select: without a channel the index is out of range, and the remainder by 0 undefined.
unfoldable pub selected : ProcessPool → Option Channel → Outcome (ProcessPool × Channel)
selected s none = undefined
selected s (some c) = returned (record s { next = (s.next + 1) % length s.channels }, c)

unfoldable pub select : ProcessPool → Outcome (ProcessPool × Channel)
unfolding selected
select s = selected s (get_elem? s.channels s.next)

-- Run, for the code that TaskManager::Code drew
unfoldable pub run : ProcessPool → ℕ → Outcome ProcessPool
unfolding select
run s code = select s >>= λ r. returned (record r.0 { sent = r.0.sent ++ (r.1.subid, code) ∷ [] })

unfoldable pub runs : ProcessPool → List ℕ → Outcome ProcessPool
unfolding run
runs s [] = returned s
runs s (code ∷ codes) = run s code >>= λ s'. runs s' codes

-- TaskManager::Code for the value of `rand`, and TaskManager::Excute, which runs a task or nothing
unfoldable pub code_of : ℕ → ℕ → Outcome ℕ
code_of zero drawn = undefined
code_of (suc size) drawn = returned (drawn % suc size)

unfoldable pub task_at {ℓ} : {A : Type ℓ} → Option A → Outcome (Option A)
task_at none = undefined
task_at (some t) = returned (some t)

unfoldable pub excute {ℓ} : {A : Type ℓ} → List A → ℕ → Outcome (Option A)
unfolding task_at
excute tasks code =
    if leb code (length tasks) then task_at (get_elem? tasks code) else returned none

-- Work: what the child's reads give, a code or a part of one, the end or an error. The tasks that it has run are
-- returned, `none` where Excute ran nothing; without a further read it waits.
pub data Got : Type 0 where
  whole : ℕ → Got
  part eof failed : Got

unfoldable pub work {ℓ} : {A : Type ℓ} → List A → List Got → Outcome (List (Option A))
unfolding excute
work tasks [] = unfinished
work tasks (whole code ∷ later) =
    excute tasks code >>= λ t. work tasks later >>= λ ts. returned (t ∷ ts)
work tasks (part ∷ later) = work tasks later
work tasks (eof ∷ later) = returned []
work tasks (failed ∷ later) = returned []

-- A write end of a pipe in a table, and in the tables of the children
unfoldable pub is_open : ℕ → Files → Bool
is_open k [] = false
is_open k ((fd, writes p) ∷ files) = k == p || is_open k files
is_open k ((fd, reads p) ∷ files) = is_open k files
is_open k ((fd, other) ∷ files) = is_open k files

unfoldable pub is_inherited : ℕ → List (ℕ × Files) → Bool
unfolding is_open
is_inherited k [] = false
is_inherited k (child ∷ children) = is_open k child.1 || is_inherited k children

-- waitpid: the child's `read` gives 0, and the child exits, when no process has the write end of its pipe any more;
-- until then both wait.
unfoldable pub wait_for : ProcessPool → ℕ → Outcome ProcessPool
unfolding is_inherited
wait_for s k =
    if is_open k s.files || is_inherited k s.children
    then unfinished
    else returned (record s { children = erase k s.children })

-- CloseAndWait over the channels, and Stop
unfoldable pub close_and_wait : ProcessPool → List Channel → Outcome ProcessPool
unfolding wait_for
close_and_wait s [] = returned s
close_and_wait s (c ∷ channels) =
    wait_for (record s { files = erase c.wfd s.files }) c.subid >>= λ s'. close_and_wait s' channels

unfoldable pub stop : ProcessPool → Outcome ProcessPool
unfolding close_and_wait
stop s = close_and_wait s s.channels
