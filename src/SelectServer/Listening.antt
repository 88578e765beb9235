-- ===== src/SelectServer/Listening.antt =====
-- What test_06_05/SelectServer/SelectServer.hpp watches with `select`, and what it prints.
use linux_system_learning.Prelude.{
  ℕ, zero, suc, ◌+◌, ◌<◌, ◌≤◌, ◌≡◌, ◌≢◌, refl, ap, sym, ◌∙◌, Bool, true, false, ◌&&◌, List, [], ◌∷◌,
  ◌++◌, Option, none, some, arith, ◌==◌, get_or, set, if_cases, ltb, get_or-set_ne, All, take,
  ltb→lt, length-append, take-append, ◌||◌,
}
use linux_system_learning.Prelude.Outcome.{Ensures, Ensures-bind, Ensures-any}
use linux_system_learning.Text.{Bytes, c_str}
use linux_system_learning.Text.Find.{c_str_of_All}
use linux_system_learning.SelectServer.{
  SelectServer, Kernel, Received, Selected, place, accepter, recver, dispatch_slot, dispatch_from,
  dispatcher, turn, turns_from, start, fd_set, max_fd, free_slot, fd_isset, handle_slot,
  after_select,
}
use linux_system_learning.SelectServer.Table.{Found, free_slot-Found}

abbrev pub Listening : SelectServer → Type 0
Listening s = get_or s.fd_arr 0 none ≡ some s.listensock

set-Listening :
    (s : SelectServer) (pos : ℕ) (o : Option ℕ)
    → Listening s
    → pos ≢ 0
    → get_or (set s.fd_arr pos o) 0 none ≡ some s.listensock
set-Listening s pos o l h = get_or-set_ne s.fd_arr pos 0 o none h ∙ l

absurd_some : {n : ℕ} → some n ≡ none → ⊥
absurd_some e = cc

place-Listening :
    (s : SelectServer) (fd : ℕ) (o : Option ℕ)
    → Found s.fd_arr o
    → Listening s
    → Listening (place s fd o)
unfolding place
place-Listening s fd none h l = l
place-Listening s fd (some pos) h l =
    set-Listening s pos (some fd) l
      (λ e. absurd_some (sym l ∙ ap (λ i. get_or s.fd_arr i none) (sym e) ∙ h.1))

accepter-Listening : (s : SelectServer) (o : Option ℕ) → Listening s → Listening (accepter s o)
unfolding accepter
accepter-Listening s none l = l
accepter-Listening s (some fd) l =
    place-Listening s fd (free_slot s.fd_arr) (free_slot-Found s.fd_arr) l

not_first :
    (s : SelectServer) (fd pos : ℕ)
    → get_or s.fd_arr pos none ≡ some fd
    → (fd == s.listensock) ≡ false
    → Listening s
    → pos ≢ 0
not_first s fd pos e other l h =
    let same : some fd ≡ some s.listensock = sym e ∙ ap (λ i. get_or s.fd_arr i none) h ∙ l in
    let same_fd : fd ≡ s.listensock = cc in ground (arith, same_fd, other)

recver-Listening :
    (s : SelectServer) (fd pos : ℕ) (r : Received)
    → get_or s.fd_arr pos none ≡ some fd
    → (fd == s.listensock) ≡ false
    → Listening s
    → Listening (recver s fd pos r)
unfolding recver
recver-Listening s fd pos (Received.bytes d) e other l = l
recver-Listening s fd pos Received.quit e other l =
    set-Listening s pos none l (not_first s fd pos e other l)
recver-Listening s fd pos Received.failed e other l =
    set-Listening s pos none l (not_first s fd pos e other l)

handle_slot-Listening :
    (k : Kernel) (i : ℕ) (s : SelectServer) (fd : ℕ) (isset : Bool)
    → get_or s.fd_arr i none ≡ some fd
    → Listening s
    → Listening (handle_slot k i s fd isset)
unfolding handle_slot
handle_slot-Listening k i s fd false e l = l
handle_slot-Listening k i s fd true e l =
    if_cases Listening (fd == s.listensock) (λ listens. accepter-Listening s (k.accept i) l)
      (λ reads. recver-Listening s fd i (k.recv i) e reads l)

dispatch_slot-Listening :
    (k : Kernel) (rfds : ℕ → Bool) (i : ℕ) (s : SelectServer) (o : Option ℕ)
    → get_or s.fd_arr i none ≡ o
    → Listening s
    → Ensures Listening (dispatch_slot k rfds i s o)
unfolding dispatch_slot
dispatch_slot-Listening k rfds i s none e l = l
dispatch_slot-Listening k rfds i s (some fd) e l =
    Ensures-bind (λ (isset : Bool). Unit {0}) Listening (fd_isset rfds fd) _
      (Ensures-any (fd_isset rfds fd)) (λ isset t. handle_slot-Listening k i s fd isset e l)

dispatch_from-Listening :
    (k : Kernel) (rfds : ℕ → Bool) (n i : ℕ) (s : SelectServer)
    → Listening s
    → Ensures Listening (dispatch_from k rfds n i s)
unfolding dispatch_from
dispatch_from-Listening k rfds zero i s l = l
dispatch_from-Listening k rfds (suc n) i s l =
    Ensures-bind Listening Listening (dispatch_slot k rfds i s (get_or s.fd_arr i none))
      (λ s'. dispatch_from k rfds n (i + 1) s')
      (dispatch_slot-Listening k rfds i s (get_or s.fd_arr i none) refl l)
      (λ s' l'. dispatch_from-Listening k rfds n (i + 1) s' l')

after_select-Listening :
    (s : SelectServer) (rfds : ℕ → Bool) (n : Selected) (k : Kernel)
    → Listening s
    → Ensures Listening (after_select s rfds n k)
unfolding after_select dispatcher
after_select-Listening s rfds Selected.error k l = l
after_select-Listening s rfds Selected.timeout k l = l
after_select-Listening s rfds (Selected.ready is_ready) k l =
    dispatch_from-Listening k (λ fd. rfds fd && is_ready fd) 1024 0 s l

turn-Listening :
    (s : SelectServer) (n : Selected) (k : Kernel) → Listening s → Ensures Listening (turn s n k)
unfolding turn
turn-Listening s n k l =
    Ensures-bind (λ (rfds : ℕ → Bool). Unit {0}) Listening (fd_set s.fd_arr)
      (λ rfds. after_select s rfds n k) (Ensures-any (fd_set s.fd_arr))
      (λ rfds t. after_select-Listening s rfds n k l)

turns_from-Listening :
    (s : SelectServer) (turns : List (Selected × Kernel))
    → Listening s
    → Ensures Listening (turns_from s turns)
unfolding turns_from
turns_from-Listening s [] l = l
turns_from-Listening s ((n, k) ∷ rest) l =
    Ensures-bind Listening Listening (turn s n k) (λ s'. turns_from s' rest)
      (turn-Listening s n k l) (λ s' l'. turns_from-Listening s' rest l')

-- From a server whose first slot holds the listening descriptor, that slot holds it after any number of turns of
-- `Start` that come to their end, whatever `select`, `Accept` and `recv` return.
pub start-Listening :
    (s : SelectServer) (turns : List (Selected × Kernel))
    → Listening s
    → Ensures Listening (start s turns)
unfolding start
start-Listening s turns l = turns_from-Listening (record s { isrunning = true }) turns l

-- The descriptors of the table, which are those that FD_SET puts into the set
abbrev is_among : List (Option ℕ) → ℕ → Bool
is_among [] fd = false
is_among (none ∷ slots) fd = is_among slots fd
is_among (some other ∷ slots) fd = fd == other || is_among slots fd

max_fd_best : (slots : List (Option ℕ)) (best : ℕ) → best ≤ max_fd best slots
unfolding max_fd
max_fd_best [] best = omega arith
max_fd_best (none ∷ slots) best = max_fd_best slots best
max_fd_best (some fd ∷ slots) best =
    if_cases (λ m. best ≤ max_fd m slots) (ltb best fd)
      (λ t. omega (arith, max_fd_best slots fd, ltb→lt best fd t)) (λ f. max_fd_best slots best)

-- A descriptor that stands first, or among the slots behind it.
first_or_further :
    (slots : List (Option ℕ)) (best fd other : ℕ) (first : Bool)
    → (fd == other) ≡ first
    → (first || is_among slots fd) ≡ true
    → other ≤ best
    → (is_among slots fd ≡ true → fd < max_fd best slots + 1)
    → fd < max_fd best slots + 1
first_or_further slots best fd other true e h le rest =
    let same : fd ≡ other = ground (arith, e) in omega (arith, max_fd_best slots best)
first_or_further slots best fd other false e h le rest = rest h

-- Every descriptor that is in the table, and so in the set given to `select`, is below the first argument, `maxfd + 1`.
pub is_among_below :
    (slots : List (Option ℕ)) (best fd : ℕ) → is_among slots fd ≡ true → fd < max_fd best slots + 1
unfolding max_fd
is_among_below [] best fd h = cc
is_among_below (none ∷ slots) best fd h = is_among_below slots best fd h
is_among_below (some other ∷ slots) best fd h =
    if_cases (λ m. fd < max_fd m slots + 1) (ltb best other)
      (λ t.
        first_or_further slots other fd other (fd == other) refl h (omega arith)
          (is_among_below slots other fd))
      (λ f.
        first_or_further slots best fd other (fd == other) refl h (ground (arith, f))
          (is_among_below slots best fd))

pub fd_set_among :
    (slots : List (Option ℕ)) (fd : ℕ)
    → Ensures (λ rfds. rfds fd ≡ is_among slots fd) (fd_set slots)
unfolding fd_set
fd_set_among [] fd = refl
fd_set_among (none ∷ slots) fd = fd_set_among slots fd
fd_set_among (some other ∷ slots) fd =
    Ensures-bind (λ (rfds : ℕ → Bool). rfds fd ≡ is_among slots fd)
      (λ (rfds : ℕ → Bool). rfds fd ≡ is_among (some other ∷ slots) fd) (fd_set slots) _
      (fd_set_among slots fd) (λ rfds e. ground (arith, e))

-- Of a message of `n` bytes without a zero byte, `Recver` prints all but the last one, and leaves the table as it is.
pub recver_bytes :
    (s : SelectServer) (fd pos : ℕ) (b : Bytes) (last : ℕ)
    → All (λ c. c ≢ 0) b
    → recver s fd pos (Received.bytes (b ++ last ∷ [])) ≡ record s { said = b ∷ s.said }
unfolding recver
recver_bytes s fd pos b last h =
    ap (λ line. record s { said = line ∷ s.said })
      (ap c_str (
          ap (λ n. take n (b ++ last ∷ [])) (omega (arith, length-append b (last ∷ [])))
          ∙ take-append b (last ∷ []))
        ∙ c_str_of_All b h)
