-- ===== src/Reactor/Sync.antt =====
-- What the kernel watches is what the connection table says, where it took the requests.
use linux_system_learning.Prelude.{
  append-nil, ℕ, suc, ◌||◌, ◌⊎◌, ◌≡◌, refl, ap, ◌∙◌, Bool, true, false, not, List, [], ◌∷◌, ◌++◌,
  Option, none, some, arith, ◌==◌, if◌then◌else◌, lookup, insert, lookup-insert, lookup-erase,
  is_some, inl, inr, Option-cases, if_cases,
}
use linux_system_learning.Prelude.Outcome.{
  Outcome, returned, Ensures, Ensures-bind, Ensures-map, Ensures-any,
}
use linux_system_learning.Text.{Bytes}
use linux_system_learning.Reactor.{
  Events, Connection, Call, ctl_add, ctl_mod, ctl_del, close, sent, Reactor, Send, Accept, Ready,
  Drained, Part, listening, channel, is_empty, send_loop, recv_loop, respond, handled, sender_of,
  on_input, on_output, rounds, loop, hung_up, drained, enable, readable, writeable, add_connection,
  del_connection, enable_read_write, sender, accept_loop, recver, dispatch_one, dispatcher,
  interest_in,
}

-- What the calls say about a descriptor, in order: the events last asked for, until it is deleted.
abbrev interest_after : ℕ → Option Events → Call → Option Events
interest_after fd before (ctl_add j ev) = if j == fd then some ev else before
interest_after fd before (ctl_mod j ev) = if j == fd then some ev else before
interest_after fd before (ctl_del j) = if j == fd then none else before
interest_after fd before (close j) = before
interest_after fd before (sent j bytes) = before

interest_from : ℕ → Option Events → List Call → Option Events
interest_from fd before [] = before
interest_from fd before (c ∷ cs) = interest_from fd (interest_after fd before c) cs

unfoldable pub interest : ℕ → List Call → Option Events
unfolding interest_from
interest fd calls = interest_from fd none calls

abbrev pub events_of : Option Connection → Option Events
events_of none = none
events_of (some conn) = some conn.events

-- The loop asked the kernel for what the table says, and every connection stands under its own descriptor, with its owner.
pub record IsSync (r : Reactor) : Type 0 where
  pub asked : (fd : ℕ) → interest fd r.calls ≡ events_of (lookup fd r.connections)
  pub owned :
      (fd : ℕ) (conn : Connection)
      → lookup fd r.connections ≡ some conn
      → (conn.sockfd ≡ fd) × (conn.owner ≡ true)

interest_from-append :
    (fd : ℕ) (before : Option Events) (cs ds : List Call)
    → interest_from fd before (cs ++ ds) ≡ interest_from fd (interest_from fd before cs) ds
unfolding interest_from
interest_from-append fd before [] ds = refl
interest_from-append fd before (c ∷ cs) ds =
    interest_from-append fd (interest_after fd before c) cs ds

interest-append :
    (fd : ℕ) (cs ds : List Call) → interest fd (cs ++ ds) ≡ interest_from fd (interest fd cs) ds
unfolding interest
interest-append fd cs ds = interest_from-append fd none cs ds

-- Storing a connection under its descriptor, with calls that tell the kernel its events.
stored :
    (r : Reactor) (key : ℕ) (conn : Connection) (cs : List Call)
    → IsSync r
    → conn.sockfd ≡ key
    → conn.owner ≡ true
    → ((fd : ℕ)
        → interest_from fd (interest fd r.calls) cs
          ≡ (if key == fd then some conn.events else interest fd r.calls))
    → IsSync (record r { connections = insert key conn r.connections; calls = r.calls ++ cs })
stored r key conn cs v at_key own e = record {
  asked = λ fd. ground (
    arith,
    interest-append fd r.calls cs,
    e fd,
    lookup-insert key fd conn r.connections,
    v.asked fd,
  );
  owned = λ fd c h. ground (arith, lookup-insert key fd conn r.connections, v.owned fd c);
}

pub add_connection-IsSync :
    (r : Reactor) (conn : Connection) → IsSync r → IsSync (add_connection r conn)
unfolding add_connection interest_from
add_connection-IsSync r conn v =
    if_cases IsSync (is_some (lookup conn.sockfd r.connections)) (λ old. v)
      (λ new.
        stored r conn.sockfd (record conn { owner = true }) (ctl_add conn.sockfd conn.events ∷ []) v
          refl refl (λ fd. refl))

pub del_connection-IsSync : (r : Reactor) (fd : ℕ) → IsSync r → IsSync (del_connection r fd)
unfolding del_connection interest_from
del_connection-IsSync r fd v = record {
  asked = λ j. ground (
    arith,
    interest-append j r.calls (ctl_del fd ∷ close fd ∷ []),
    lookup-erase fd j r.connections,
    v.asked j,
  );
  owned = λ j c h. ground (arith, lookup-erase fd j r.connections, v.owned j c);
}

pub enable_read_write-IsSync :
    (r : Reactor) (fd : ℕ) (input output : Bool)
    → IsSync r
    → IsSync (enable_read_write r fd input output)
unfolding enable_read_write interest_from
enable_read_write-IsSync r fd input output v = elim (Option-cases (lookup fd r.connections)) [
  | inl missing ↦ rw (missing, enable) v
  | inr (conn, found) ↦
      let ev = interest_in input output in
      rw (found, enable)
        (stored r fd (record conn { events = ev }) (ctl_mod fd ev ∷ []) v (v.owned fd conn found).0
          (v.owned fd conn found).1 (λ j. refl))
]

-- Writing a connection of the table back with other buffers.
rewritten :
    (r : Reactor) (conn : Connection) (p : Part) (cs : List Call)
    → IsSync r
    → lookup conn.sockfd r.connections ≡ some conn
    → ((fd : ℕ) (before : Option Events) → interest_from fd before cs ≡ before)
    → IsSync (record r {
      connections = insert conn.sockfd (record conn { part = p }) r.connections;
      calls = r.calls ++ cs;
    })
rewritten r conn p cs v found e =
    stored r conn.sockfd (record conn { part = p }) cs v refl (v.owned conn.sockfd conn found).1
      (λ fd. ground (arith, e fd (interest fd r.calls), v.asked fd))

sender-IsSync :
    (r : Reactor) (conn : Connection) (inbuffer outbuffer : Bytes) (script : List Send)
    → IsSync r
    → lookup conn.sockfd r.connections ≡ some conn
    → Ensures (λ out. IsSync out.0) (sender r conn inbuffer outbuffer script)
unfolding sender interest_from
sender-IsSync r conn inbuffer outbuffer script v found =
    Ensures-bind (λ s. Unit {0}) (λ (out : Reactor × List Send). IsSync out.0)
      (send_loop script outbuffer) _ (Ensures-any (send_loop script outbuffer))
      λ s _. enable_read_write-IsSync _ conn.sockfd true (not (is_empty s.left)) (
        rewritten r conn (channel inbuffer s.left) (sent conn.sockfd s.taken ∷ []) v found
          (λ fd before. refl))

accept_loop-IsSync :
    (listener : Connection) (script : List Accept) (r : Reactor)
    → IsSync r
    → Ensures IsSync (accept_loop listener script r)
unfolding accept_loop
accept_loop-IsSync listener [] r v = tt
accept_loop-IsSync listener (Accept.fresh fd ∷ script) r v =
    accept_loop-IsSync listener script _ (add_connection-IsSync r _ v)
accept_loop-IsSync listener (Accept.done ∷ script) r v = v
accept_loop-IsSync listener (Accept.continue ∷ script) r v = accept_loop-IsSync listener script r v
accept_loop-IsSync listener (Accept.failed ∷ script) r v = v

rewritten_quiet :
    (r : Reactor) (conn : Connection) (p : Part)
    → IsSync r
    → lookup conn.sockfd r.connections ≡ some conn
    → IsSync
        (record r { connections = insert conn.sockfd (record conn { part = p }) r.connections })
unfolding interest_from
rewritten_quiet r conn p v found =
    rw append-nil at (rewritten r conn p [] v found (λ fd before. refl))

-- The connection that a ready descriptor names is in the table under its own descriptor.
self_lookup :
    (r : Reactor) (fd : ℕ) (conn : Connection)
    → IsSync r
    → lookup fd r.connections ≡ some conn
    → lookup conn.sockfd r.connections ≡ some conn
self_lookup r fd conn v found = ap (λ k. lookup k r.connections) (v.owned fd conn found).0 ∙ found

-- What the kernel watches a descriptor for when it takes or refuses the calls, in order: a refused one changes nothing.
abbrev watched_after : ℕ → Option Events → Bool → Call → Option Events
watched_after fd before true c = interest_after fd before c
watched_after fd before false c = before

unfoldable pub watched_from : (ℕ → Bool) → ℕ → Option Events → List Call → Option Events
watched_from takes fd before [] = before
watched_from takes fd before (c ∷ cs) =
    watched_from (λ k. takes (suc k)) fd (watched_after fd before (takes 0) c) cs

abbrev is_about : ℕ → Call → Bool
is_about fd (ctl_add j ev) = j == fd
is_about fd (ctl_mod j ev) = j == fd
is_about fd (ctl_del j) = j == fd
is_about fd (close j) = false
is_about fd (sent j bytes) = false

-- The kernel refuses a call of epoll_ctl for the descriptor.
abbrev pub is_refused : (ℕ → Bool) → ℕ → List Call → Bool
is_refused takes fd [] = false
is_refused takes fd (c ∷ cs) =
    not (takes 0 || not (is_about fd c)) || is_refused (λ k. takes (suc k)) fd cs

taken_one :
    (fd : ℕ) (before : Option Events) (b : Bool) (c : Call)
    → (b || not (is_about fd c)) ≡ true
    → watched_after fd before b c ≡ interest_after fd before c
taken_one fd before true c h = refl
taken_one fd before false (ctl_add j ev) h = ground (arith, h)
taken_one fd before false (ctl_mod j ev) h = ground (arith, h)
taken_one fd before false (ctl_del j) h = ground (arith, h)
taken_one fd before false (close j) h = refl
taken_one fd before false (sent j bytes) h = refl

by_refusal :
    (taken refused : Bool) → (not taken || refused) ≡ false → (taken ≡ true) × (refused ≡ false)
by_refusal true false h = (refl, refl)
by_refusal true true h = cc
by_refusal false refused h = cc

taken_all :
    (takes : ℕ → Bool) (fd : ℕ) (before : Option Events) (cs : List Call)
    → is_refused takes fd cs ≡ false
    → watched_from takes fd before cs ≡ interest_from fd before cs
unfolding watched_from interest_from
taken_all takes fd before [] h = refl
taken_all takes fd before (c ∷ cs) h =
    let k = by_refusal (takes 0 || not (is_about fd c)) (is_refused (λ k. takes (suc k)) fd cs) h in
    taken_all (λ k. takes (suc k)) fd (watched_after fd before (takes 0) c) cs k.1
    ∙ ap (λ b. interest_from fd b cs) (taken_one fd before (takes 0) c k.0)

-- A descriptor for which the kernel refused no epoll_ctl is watched for what its connection in the table asks for.
abbrev pub IsWatched : (ℕ → Bool) → Reactor → Type 0
IsWatched takes r =
    (fd : ℕ)
    → (is_refused takes fd r.calls ≡ true)
      ⊎ (watched_from takes fd none r.calls ≡ events_of (lookup fd r.connections))

sync-IsWatched : (takes : ℕ → Bool) (r : Reactor) → IsSync r → IsWatched takes r
unfolding interest
sync-IsWatched takes r v fd = by_test (is_refused takes fd r.calls) refl
  where
    by_test :
        (b : Bool)
        → is_refused takes fd r.calls ≡ b
        → (is_refused takes fd r.calls ≡ true)
          ⊎ (watched_from takes fd none r.calls ≡ events_of (lookup fd r.connections))
    by_test true e = inl e
    by_test false e = inr (taken_all takes fd none r.calls e ∙ v.asked fd)

module _ (handle : Bytes → Outcome (Bytes × Bytes)) where
  abbrev IsSyncPair : Reactor × List Send → Type 0
  IsSyncPair out = IsSync out.0

  respond-IsSync :
      (r : Reactor) (conn : Connection) (outbuffer : Bytes) (sends : List Send) (d : Drained)
      → IsSync r
      → lookup conn.sockfd r.connections ≡ some conn
      → Ensures IsSyncPair (respond handle r conn outbuffer sends d)
  unfolding respond
  respond-IsSync r conn outbuffer sends hung_up v found = del_connection-IsSync r conn.sockfd v
  respond-IsSync r conn outbuffer sends (drained inbuffer) v found =
      Ensures-bind (λ out. Unit {0}) IsSyncPair (handled handle conn.handler inbuffer) _
        (Ensures-any (handled handle conn.handler inbuffer))
        λ out _.
          if_cases (Ensures IsSyncPair) (is_empty (outbuffer ++ out.0))
            (λ t. rewritten_quiet r conn (channel out.1 (outbuffer ++ out.0)) v found)
            (λ t. sender-IsSync r conn out.1 (outbuffer ++ out.0) sends v found)

  recver-IsSync :
      (r : Reactor) (conn : Connection) (item : Ready) (p : Part)
      → conn.part ≡ p
      → IsSync r
      → lookup conn.sockfd r.connections ≡ some conn
      → Ensures IsSyncPair (recver handle r conn item)
  unfolding recver
  recver-IsSync r conn item listening e v found =
      rw (e, recver)
        (Ensures-bind IsSync IsSyncPair (accept_loop conn item.accepts r)
          (λ r'. returned (r', item.sends)) (accept_loop-IsSync conn item.accepts r v)
          (λ r' v'. v'))
  recver-IsSync r conn item (channel inbuffer outbuffer) e v found =
      rw (e, recver)
        (Ensures-bind (λ d. Unit {0}) IsSyncPair (recv_loop item.recvs inbuffer) _
          (Ensures-any (recv_loop item.recvs inbuffer))
          (λ d _. respond-IsSync r conn outbuffer item.sends d v found))

  sender_of-IsSync :
      (r : Reactor) (conn : Connection) (sends : List Send) (p : Part)
      → conn.part ≡ p
      → IsSync r
      → lookup conn.sockfd r.connections ≡ some conn
      → Ensures IsSync (sender_of handle r conn sends)
  unfolding sender_of
  sender_of-IsSync r conn sends listening e v found = rw (e, sender_of) v
  sender_of-IsSync r conn sends (channel inbuffer outbuffer) e v found =
      rw (e, sender_of)
        (Ensures-bind IsSyncPair IsSync (sender r conn inbuffer outbuffer sends) _
          (sender-IsSync r conn inbuffer outbuffer sends v found) (λ out v'. v'))

  on_input-IsSync :
      (r : Reactor) (item : Ready) (b : Bool) (o : Option Connection)
      → lookup item.fd r.connections ≡ o
      → IsSync r
      → Ensures IsSyncPair (on_input handle r item b o)
  unfolding on_input
  on_input-IsSync r item true (some conn) e v =
      recver-IsSync r conn item conn.part refl v (self_lookup r item.fd conn v e)
  on_input-IsSync r item true none e v = v
  on_input-IsSync r item false o e v = v

  on_output-IsSync :
      (r : Reactor) (fd : ℕ) (sends : List Send) (b : Bool) (o : Option Connection)
      → lookup fd r.connections ≡ o
      → IsSync r
      → Ensures IsSync (on_output handle r sends b o)
  unfolding on_output
  on_output-IsSync r fd sends true (some conn) e v =
      sender_of-IsSync r conn sends conn.part refl v (self_lookup r fd conn v e)
  on_output-IsSync r fd sends true none e v = v
  on_output-IsSync r fd sends false o e v = v

  pub dispatch_one-IsSync :
      (r : Reactor) (item : Ready) → IsSync r → Ensures IsSync (dispatch_one handle r item)
  unfolding dispatch_one
  dispatch_one-IsSync r item v =
      Ensures-bind IsSyncPair IsSync (on_input handle r item input (lookup item.fd r.connections))
        (λ out. on_output handle out.0 out.1 output (lookup item.fd out.0.connections))
        (on_input-IsSync r item input _ refl v)
        (λ out v'. on_output-IsSync out.0 item.fd out.1 output _ refl v')
    where
      input : Bool
      input = readable item.events

      output : Bool
      output = writeable item.events

  dispatcher-IsSync :
      (r : Reactor) (items : List Ready) → IsSync r → Ensures IsSync (dispatcher handle r items)
  unfolding dispatcher
  dispatcher-IsSync r [] v = v
  dispatcher-IsSync r (item ∷ items) v =
      Ensures-bind IsSync IsSync (dispatch_one handle r item) (λ r'. dispatcher handle r' items)
        (dispatch_one-IsSync r item v) (λ r' v'. dispatcher-IsSync r' items v')

  rounds-IsSync :
      (r : Reactor) (waits : List (List Ready)) → IsSync r → Ensures IsSync (rounds handle r waits)
  unfolding rounds
  rounds-IsSync r [] v = v
  rounds-IsSync r (items ∷ waits) v =
      Ensures-bind IsSync IsSync (dispatcher handle r items) (λ r'. rounds handle r' waits)
        (dispatcher-IsSync r items v) (λ r' v'. rounds-IsSync r' waits v')

  loop_asks-IsSync :
      (r : Reactor) (waits : List (List Ready)) → IsSync r → Ensures IsSync (loop handle r waits)
  unfolding loop
  loop_asks-IsSync r waits v = by_table r.connections refl
    where
      by_table :
          (m : List (ℕ × Connection)) → r.connections ≡ m → Ensures IsSync (loop handle r waits)
      by_table [] e = rw (e, loop) v
      by_table (c ∷ m) e = rw (e, loop) (rounds-IsSync r waits v)

  -- From a state in which what the loop asked of epoll is what its table says, in every state that it reaches by returned
  -- operations, whichever calls the kernel refuses: a descriptor for which it refused no epoll_ctl is watched for
  -- exactly the events that its connection in the table asks for, and not at all if it has none; for each descriptor
  -- what was asked last is what the table says; and every connection stands under its own descriptor with its owner set.
  pub loop-IsSync :
      (r : Reactor) (waits : List (List Ready)) (takes : ℕ → Bool)
      → IsSync r
      → Ensures (λ r'. IsWatched takes r' × IsSync r') (loop handle r waits)
  loop-IsSync r waits takes v =
      Ensures-map IsSync (λ r'. IsWatched takes r' × IsSync r') (loop handle r waits)
        (loop_asks-IsSync r waits v) (λ r' v'. (sync-IsWatched takes r' v', v'))
