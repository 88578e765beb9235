-- ===== src/SelectServer/Descriptors.antt =====
-- No descriptor of test_06_05/SelectServer/SelectServer.hpp is lost, kept twice or closed while it is watched.
use linux_system_learning.Prelude.{
  true, ℕ, zero, suc, ◌+◌, ◌≡◌, refl, ap, Bool, ◌&&◌, List, [], ◌∷◌, Option, none, some, arith,
  ◌==◌, get_or, if_cases, All, ◌<◌, lt→ltb, false,
}
use linux_system_learning.Prelude.Outcome.{returned, Gives, Gives-bind, Gives-map}
use linux_system_learning.SelectServer.{
  SelectServer, Kernel, Received, Selected, place, accepter, recver, dispatch_slot, dispatch_from,
  dispatcher, turn, turns_from, start, fd_set, free_slot, forget, fd_setsize, fd_isset, handle_slot,
  after_select,
}
use linux_system_learning.SelectServer.Table.{
  occurs, count, number, count-set, used_below, Found, free_slot-Found, Fits, Fits-get, Fits-set,
}

-- Every descriptor that was accepted, and the listening one, is in as many slots as it was not closed.
abbrev pub Balanced : SelectServer → Type 0
Balanced s =
    (fd : ℕ)
    → count fd s.fd_arr + number fd s.closed ≡ occurs fd (some s.listensock) + number fd s.accepted

place-Balanced :
    (s : SelectServer) (fd : ℕ) (o : Option ℕ)
    → Found s.fd_arr o
    → Balanced s
    → Balanced (place s fd o)
unfolding place
place-Balanced s fd none h b = λ x. omega (arith, b x)
place-Balanced s fd (some pos) h b =
    λ x. omega (arith, b x, count-set x s.fd_arr pos (some fd) h.0, ap (occurs x) h.1)

accepter-Balanced : (s : SelectServer) (o : Option ℕ) → Balanced s → Balanced (accepter s o)
unfolding accepter
accepter-Balanced s none b = b
accepter-Balanced s (some fd) b =
    place-Balanced s fd (free_slot s.fd_arr) (free_slot-Found s.fd_arr) b

forget-Balanced :
    (s : SelectServer) (fd pos : ℕ)
    → get_or s.fd_arr pos none ≡ some fd
    → Balanced s
    → Balanced (forget s fd pos)
forget-Balanced s fd pos e b = λ x.
    omega
      (arith, b x, count-set x s.fd_arr pos none (used_below s.fd_arr pos fd e), ap (occurs x) e)

recver-Balanced :
    (s : SelectServer) (fd pos : ℕ) (r : Received)
    → get_or s.fd_arr pos none ≡ some fd
    → Balanced s
    → Balanced (recver s fd pos r)
unfolding recver
recver-Balanced s fd pos (Received.bytes d) e b = b
recver-Balanced s fd pos Received.quit e b = forget-Balanced s fd pos e b
recver-Balanced s fd pos Received.failed e b = forget-Balanced s fd pos e b

-- The table is balanced, and an fd_set has room for what it holds.
abbrev IsSound : SelectServer → Type 0
IsSound s = Balanced s × All Fits s.fd_arr

place-Fits :
    (s : SelectServer) (fd : ℕ) (o : Option ℕ)
    → fd < fd_setsize
    → All Fits s.fd_arr
    → All Fits (place s fd o).fd_arr
unfolding place
place-Fits s fd none f h = h
place-Fits s fd (some pos) f h = Fits-set s.fd_arr pos (some fd) h f

accepter-Fits :
    (s : SelectServer) (o : Option ℕ) → Fits o → All Fits s.fd_arr → All Fits (accepter s o).fd_arr
unfolding accepter
accepter-Fits s none f h = h
accepter-Fits s (some fd) f h = place-Fits s fd (free_slot s.fd_arr) f h

recver-Fits :
    (s : SelectServer) (fd pos : ℕ) (r : Received)
    → All Fits s.fd_arr
    → All Fits (recver s fd pos r).fd_arr
unfolding recver
recver-Fits s fd pos (Received.bytes d) h = h
recver-Fits s fd pos Received.quit h = Fits-set s.fd_arr pos none h tt
recver-Fits s fd pos Received.failed h = Fits-set s.fd_arr pos none h tt

handle_slot-IsSound :
    (k : Kernel) (i : ℕ) (s : SelectServer) (fd : ℕ) (isset : Bool)
    → get_or s.fd_arr i none ≡ some fd
    → Fits (k.accept i)
    → IsSound s
    → IsSound (handle_slot k i s fd isset)
unfolding handle_slot
handle_slot-IsSound k i s fd false e f v = v
handle_slot-IsSound k i s fd true e f v =
    if_cases IsSound (fd == s.listensock)
      (λ listens. (accepter-Balanced s (k.accept i) v.0, accepter-Fits s (k.accept i) f v.1))
      (λ reads. (recver-Balanced s fd i (k.recv i) e v.0, recver-Fits s fd i (k.recv i) v.1))

fd_isset-room : (rfds : ℕ → Bool) (fd : ℕ) → fd < fd_setsize → fd_isset rfds fd ≡ returned (rfds fd)
unfolding fd_isset
fd_isset-room rfds fd h = rw (lt→ltb fd fd_setsize h) refl

dispatch_slot-IsSound :
    (k : Kernel) (rfds : ℕ → Bool) (i : ℕ) (s : SelectServer) (o : Option ℕ)
    → get_or s.fd_arr i none ≡ o
    → Fits (k.accept i)
    → IsSound s
    → Gives IsSound (dispatch_slot k rfds i s o)
unfolding dispatch_slot
dispatch_slot-IsSound k rfds i s none e f v = v
dispatch_slot-IsSound k rfds i s (some fd) e f v =
    rw (fd_isset-room rfds fd (Fits-get s.fd_arr i fd v.1 e))
      (handle_slot-IsSound k i s fd (rfds fd) e f v)

dispatch_from-IsSound :
    (k : Kernel) (rfds : ℕ → Bool) (n i : ℕ) (s : SelectServer)
    → ((j : ℕ) → Fits (k.accept j))
    → IsSound s
    → Gives IsSound (dispatch_from k rfds n i s)
unfolding dispatch_from
dispatch_from-IsSound k rfds zero i s f v = v
dispatch_from-IsSound k rfds (suc n) i s f v =
    Gives-bind IsSound IsSound (dispatch_slot k rfds i s (get_or s.fd_arr i none))
      (λ s'. dispatch_from k rfds n (i + 1) s')
      (dispatch_slot-IsSound k rfds i s (get_or s.fd_arr i none) refl (f i) v)
      (λ s' v'. dispatch_from-IsSound k rfds n (i + 1) s' f v')

after_select-IsSound :
    (s : SelectServer) (rfds : ℕ → Bool) (n : Selected) (k : Kernel)
    → ((j : ℕ) → Fits (k.accept j))
    → IsSound s
    → Gives IsSound (after_select s rfds n k)
unfolding after_select dispatcher
after_select-IsSound s rfds Selected.error k f v = v
after_select-IsSound s rfds Selected.timeout k f v = v
after_select-IsSound s rfds (Selected.ready is_ready) k f v =
    dispatch_from-IsSound k (λ fd. rfds fd && is_ready fd) 1024 0 s f v

fd_set-room : (slots : List (Option ℕ)) → All Fits slots → Gives (λ rfds. Unit) (fd_set slots)
unfolding fd_set
fd_set-room [] h = tt
fd_set-room (none ∷ slots) h = fd_set-room slots h.1
fd_set-room (some fd ∷ slots) h =
    Gives-bind (λ (rfds : ℕ → Bool). Unit) (λ (rfds : ℕ → Bool). Unit) (fd_set slots) _
      (fd_set-room slots h.1) (λ rfds t. rw (lt→ltb fd fd_setsize h.0) tt)

turn-IsSound :
    (s : SelectServer) (n : Selected) (k : Kernel)
    → ((j : ℕ) → Fits (k.accept j))
    → IsSound s
    → Gives IsSound (turn s n k)
unfolding turn
turn-IsSound s n k f v =
    Gives-bind (λ (rfds : ℕ → Bool). Unit) IsSound (fd_set s.fd_arr)
      (λ rfds. after_select s rfds n k) (fd_set-room s.fd_arr v.1)
      (λ rfds t. after_select-IsSound s rfds n k f v)

turns_from-IsSound :
    (s : SelectServer) (turns : List (Selected × Kernel))
    → All (λ t. (j : ℕ) → Fits (t.1.accept j)) turns
    → IsSound s
    → Gives IsSound (turns_from s turns)
unfolding turns_from
turns_from-IsSound s [] f v = v
turns_from-IsSound s ((n, k) ∷ rest) f v =
    Gives-bind IsSound IsSound (turn s n k) (λ s'. turns_from s' rest) (turn-IsSound s n k f.0 v)
      (λ s' v'. turns_from-IsSound s' rest f.1 v')

-- From a server in which every descriptor, the listening one and those that `Accept` returned, is in as many slots
-- of the table as it was not closed, and each is below FD_SETSIZE: if `Accept` returns descriptors below FD_SETSIZE
-- alone, every turn of the loop of `Start` comes to its end and keeps it so, whatever `select` and `recv` return. A
-- descriptor leaves the table when it is closed, one that finds no slot is closed, and none is lost.
pub start-Balanced :
    (s : SelectServer) (turns : List (Selected × Kernel))
    → All Fits s.fd_arr
    → All (λ t. (j : ℕ) → Fits (t.1.accept j)) turns
    → ((fd : ℕ)
        → count fd s.fd_arr + number fd s.closed
          ≡ occurs fd (some s.listensock) + number fd s.accepted)
    → Gives
        (λ s'.
          (fd : ℕ)
          → count fd s'.fd_arr + number fd s'.closed
            ≡ occurs fd (some s'.listensock) + number fd s'.accepted)
        (start s turns)
unfolding start
start-Balanced s turns h f b =
    Gives-map IsSound Balanced (turns_from (record s { isrunning = true }) turns)
      (turns_from-IsSound (record s { isrunning = true }) turns f (b, h)) (λ s' v. v.0)
