-- ===== src/SelectServer.antt =====
-- test_06_05/SelectServer/SelectServer.hpp: the table of descriptors, the loop of `Start`, the
-- dispatcher and its two handlers. What `select`, `Accept` and `recv` return is an argument.
pub mod Table
pub mod Descriptors
pub mod Listening
use linux_system_learning.Prelude.{
  ℕ, zero, suc, ◌+◌, ◌-◌, Bool, true, false, ◌&&◌, ◌||◌, List, [], ◌∷◌, Option, none, some, ltb,
  ◌==◌, if◌then◌else◌, get_or, set, take, length, replicate,
}
use linux_system_learning.Prelude.Outcome.{Outcome, returned, undefined, ◌>>=◌}
use linux_system_learning.Text.{Bytes, c_str}

-- The fields: a slot that holds `defaultfd` is `none`. `accepted`, `closed` and `said` record, the latest first,
-- the descriptors that `Accept` returned, those that were closed, and what was printed.
pub record SelectServer : Type 0 where
  pub listensock : ℕ
  pub isrunning : Bool
  pub fd_arr : List (Option ℕ)
  pub accepted : List ℕ
  pub closed : List ℕ
  pub said : List Bytes

-- What `recv` returns: `n > 0` bytes, 0, or -1.
pub data Received : Type 0 where
  bytes : Bytes → Received
  quit failed : Received

-- What `Accept` and `recv` return where the loop is at a slot; `none` is a negative descriptor.
pub record Kernel : Type 0 where
  pub accept : ℕ → Option ℕ
  pub recv : ℕ → Received

-- What `select` returns: -1, 0, or which of the descriptors are ready.
pub data Selected : Type 0 where
  error timeout : Selected
  ready : (ℕ → Bool) → Selected

abbrev pub size : ℕ
size = 1024

unfoldable pub init : ℕ → SelectServer
init fd = record {
  listensock = fd;
  isrunning = false;
  fd_arr = set (replicate size none) 0 (some fd);
  accepted = [];
  closed = [];
  said = [];
}

-- The number of descriptors that an fd_set has room for: FD_SET and FD_ISSET are undefined from there on.
abbrev pub fd_setsize : ℕ
fd_setsize = 1024

-- FD_ZERO, and FD_SET of every slot that is used
unfoldable pub fd_set : List (Option ℕ) → Outcome (ℕ → Bool)
fd_set [] = returned (λ fd. false)
fd_set (none ∷ slots) = fd_set slots
fd_set (some other ∷ slots) = fd_set slots >>= λ rfds.
    if ltb other fd_setsize then returned (λ fd. fd == other || rfds fd) else undefined

unfoldable pub fd_isset : (ℕ → Bool) → ℕ → Outcome Bool
fd_isset rfds fd = if ltb fd fd_setsize then returned (rfds fd) else undefined

unfoldable pub max_fd : ℕ → List (Option ℕ) → ℕ
max_fd best [] = best
max_fd best (none ∷ slots) = max_fd best slots
max_fd best (some fd ∷ slots) = max_fd (if ltb best fd then fd else best) slots

-- The loop of `Accepter` over `pos`; `none` is `pos == size`.
abbrev further : Option ℕ → Option ℕ
further none = none
further (some pos) = some (suc pos)

unfoldable pub free_slot : List (Option ℕ) → Option ℕ
free_slot [] = none
free_slot (none ∷ slots) = some 0
free_slot (some fd ∷ slots) = further (free_slot slots)

unfoldable pub place : SelectServer → ℕ → Option ℕ → SelectServer
place s fd none = record s { accepted = fd ∷ s.accepted; closed = fd ∷ s.closed }
place s fd (some pos) = record s { accepted = fd ∷ s.accepted; fd_arr = set s.fd_arr pos (some fd) }

unfoldable pub accepter : SelectServer → Option ℕ → SelectServer
unfolding place
accepter s none = s
accepter s (some fd) = place s fd (free_slot s.fd_arr)

abbrev forget : SelectServer → ℕ → ℕ → SelectServer
forget s fd pos = record s { fd_arr = set s.fd_arr pos none; closed = fd ∷ s.closed }

-- `buffer[n - 1] = 0`, and what is printed up to there
unfoldable pub recver : SelectServer → ℕ → ℕ → Received → SelectServer
recver s fd pos (Received.bytes b) = record s { said = c_str (take (length b - 1) b) ∷ s.said }
recver s fd pos Received.quit = forget s fd pos
recver s fd pos Received.failed = forget s fd pos

-- The body of the loop of `Dispatcher`, on what FD_ISSET said of the slot, and on what the slot holds
unfoldable pub handle_slot : Kernel → ℕ → SelectServer → ℕ → Bool → SelectServer
unfolding accepter recver
handle_slot k i s fd false = s
handle_slot k i s fd true =
    if fd == s.listensock then accepter s (k.accept i) else recver s fd i (k.recv i)

pub dispatch_slot : Kernel → (ℕ → Bool) → ℕ → SelectServer → Option ℕ → Outcome SelectServer
unfolding handle_slot fd_isset
dispatch_slot k rfds i s none = returned s
dispatch_slot k rfds i s (some fd) =
    fd_isset rfds fd >>= λ isset. returned (handle_slot k i s fd isset)

-- `Dispatcher` from slot `i` on, with `n` slots left
pub dispatch_from : Kernel → (ℕ → Bool) → ℕ → ℕ → SelectServer → Outcome SelectServer
dispatch_from k rfds zero i s = returned s
dispatch_from k rfds (suc n) i s =
    dispatch_slot k rfds i s (get_or s.fd_arr i none) >>= λ s'. dispatch_from k rfds n (i + 1) s'

pub dispatcher : Kernel → (ℕ → Bool) → SelectServer → Outcome SelectServer
dispatcher k rfds s = dispatch_from k rfds size 0 s

-- What `select` comes to: it leaves in the set those that are ready.
unfoldable pub after_select : SelectServer → (ℕ → Bool) → Selected → Kernel → Outcome SelectServer
after_select s rfds Selected.error k = returned s
after_select s rfds Selected.timeout k = returned s
after_select s rfds (Selected.ready is_ready) k = dispatcher k (λ fd. rfds fd && is_ready fd) s

-- One turn of the loop of `Start`
pub turn : SelectServer → Selected → Kernel → Outcome SelectServer
unfolding fd_set after_select
turn s n k = fd_set s.fd_arr >>= λ rfds. after_select s rfds n k

pub turns_from : SelectServer → List (Selected × Kernel) → Outcome SelectServer
turns_from s [] = returned s
turns_from s ((n, k) ∷ rest) = turn s n k >>= λ s'. turns_from s' rest

-- `Start`: nothing clears the flag that its loop tests.
pub start : SelectServer → List (Selected × Kernel) → Outcome SelectServer
start s turns = turns_from (record s { isrunning = true }) turns
