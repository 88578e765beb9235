-- ===== src/Reactor.antt =====
-- test_06_18/Server: Connection.hpp, Reactor.hpp, Channel.hpp and Listener.hpp, the event loop with
-- its connections. What the kernel answers to recv, send and accept stands in a script, one entry for
-- each call; what the code asks of the kernel is written down in a list of calls.
pub mod Sync
pub mod Channel
pub mod Answer
use linux_system_learning.Prelude.{
  ℕ, Bool, true, false, not, ◌||◌, List, [], ◌∷◌, ◌++◌, Option, none, some, if◌then◌else◌, take,
  drop, lookup, insert, erase, is_some,
}
use linux_system_learning.Prelude.Outcome.{Outcome, returned, undefined, unfinished, ◌>>=◌}
use linux_system_learning.Text.{Bytes, c_str}

-- The bits of an `uint32_t` of events that the code sets or tests.
pub record Events : Type 0 where
  pub input : Bool
  pub output : Bool
  pub error : Bool
  pub hangup : Bool
  pub edge : Bool

-- The two subclasses of `Connection`, with the buffers of a channel.
pub data Part : Type 0 where
  listening : Part
  channel : (inbuffer outbuffer : Bytes) → Part

-- `Connection`: `owner` says that the pointer back is set, `handler` that one is registered.
pub record Connection : Type 0 where
  pub sockfd : ℕ
  pub events : Events
  pub owner : Bool
  pub handler : Bool
  pub part : Part

-- The system calls of the loop that change the kernel's state, as the loop makes them. What epoll_ctl answers is not
-- part of the state: Epoller::ModEventHelper logs a failure and returns nothing, Epoller::DelEvent drops the answer,
-- and the loop goes on in the same way.
pub data Call : Type 0 where
  ctl_add ctl_mod : ℕ → Events → Call
  ctl_del close : ℕ → Call
  sent : ℕ → Bytes → Call

pub record Reactor : Type 0 where
  pub connections : List (ℕ × Connection)
  pub calls : List Call

-- `recv`: some bytes, the end of the stream, EAGAIN, EINTR, or another error; `send` alike.
pub data Recv : Type 0 where
  got : Bytes → Recv
  eof again interrupted broken : Recv

pub data Send : Type 0 where
  took : ℕ → Send
  zero again interrupted broken : Send

-- `TcpSocket::Accept`: a descriptor, ACCEPT_DONE, ACCEPT_CONTINUE, or ACCEPT_ERR.
pub data Accept : Type 0 where
  fresh : ℕ → Accept
  done continue failed : Accept

-- An entry of `_recvs`, with what the kernel answers while it is handled.
pub record Ready : Type 0 where
  pub fd : ℕ
  pub events : Events
  pub recvs : List Recv
  pub sends : List Send
  pub accepts : List Accept

abbrev pub interest_in : Bool → Bool → Events
interest_in input output = record {
  input = input;
  output = output;
  error = false;
  hangup = false;
  edge = true;
}

-- Errors and hang-ups count as input and as output.
abbrev pub readable : Events → Bool
readable ev = ev.input || (ev.error || ev.hangup)

abbrev pub writeable : Events → Bool
writeable ev = ev.output || (ev.error || ev.hangup)

-- `Reactor::IsConnectionExists`
pub exists : Reactor → ℕ → Bool
exists r sockfd = is_some (lookup sockfd r.connections)

-- `Reactor::AddConnection`
pub add_connection : Reactor → Connection → Reactor
unfolding exists
add_connection r conn = if exists r conn.sockfd then r else record r {
  calls = r.calls ++ ctl_add conn.sockfd conn.events ∷ [];
  connections = insert conn.sockfd (record conn { owner = true }) r.connections;
}

-- `Reactor::DelConnection`
pub del_connection : Reactor → ℕ → Reactor
del_connection r sockfd = record r {
  calls = r.calls ++ ctl_del sockfd ∷ close sockfd ∷ [];
  connections = erase sockfd r.connections;
}

enable : Reactor → ℕ → Events → Option Connection → Reactor
enable r sockfd ev none = r
enable r sockfd ev (some conn) = record r {
  connections = insert sockfd (record conn { events = ev }) r.connections;
  calls = r.calls ++ ctl_mod sockfd ev ∷ [];
}

-- `Reactor::EnableReadWrite`
pub enable_read_write : Reactor → ℕ → Bool → Bool → Reactor
unfolding enable
enable_read_write r sockfd input output =
    enable r sockfd (interest_in input output) (lookup sockfd r.connections)

abbrev pub is_empty : Bytes → Bool
is_empty [] = true
is_empty (c ∷ s) = false

-- What the loop of `Channel::Sender` leaves: the bytes that `send` took, the rest of the output
-- buffer, and the rest of the script. The loop goes on after EINTR and after any other error.
pub record Sent : Type 0 where
  pub taken : Bytes
  pub left : Bytes
  pub script : List Send

abbrev after_taking : Bytes → Sent → Sent
after_taking chunk s = record s { taken = chunk ++ s.taken }

pub send_loop : List Send → Bytes → Outcome Sent
send_loop [] out = unfinished
send_loop (took n ∷ script) out =
    let rest = drop n out in
    let more = send_loop script rest >>= λ s. returned (after_taking (take n out) s) in
    if is_empty rest
    then returned (record { taken = take n out; left = rest; script = script })
    else more
send_loop (Send.zero ∷ script) out = returned (record { taken = []; left = out; script = script })
send_loop (Send.again ∷ script) out = returned (record { taken = []; left = out; script = script })
send_loop (Send.interrupted ∷ script) out = send_loop script out
send_loop (Send.broken ∷ script) out = send_loop script out

-- `Channel::Sender` on a channel of the table, with the rest of the script
pub sender : Reactor → Connection → Bytes → Bytes → List Send → Outcome (Reactor × List Send)
sender r conn inbuffer outbuffer script = send_loop script outbuffer >>= λ s.
    let conn' = record conn { part = channel inbuffer s.left } in
    let r' = record r {
      connections = insert conn.sockfd conn' r.connections;
      calls = r.calls ++ sent conn.sockfd s.taken ∷ [];
    } in
    returned (enable_read_write r' conn.sockfd true (not (is_empty s.left)), s.script)

-- How the loop of `Channel::Recver` ends: by EAGAIN with the input buffer, or by the end of the
-- stream. After another error the code deletes the connection, and with it the object whose member
-- function is running, and goes on with the loop: that is undefined.
pub data Drained : Type 0 where
  drained : Bytes → Drained
  hung_up : Drained

pub recv_loop : List Recv → Bytes → Outcome Drained
recv_loop [] inbuffer = unfinished
recv_loop (got chunk ∷ script) inbuffer = recv_loop script (inbuffer ++ c_str chunk)
recv_loop (eof ∷ script) inbuffer = returned hung_up
recv_loop (Recv.again ∷ script) inbuffer = returned (drained inbuffer)
recv_loop (Recv.interrupted ∷ script) inbuffer = recv_loop script inbuffer
recv_loop (Recv.broken ∷ script) inbuffer = undefined

-- The loop of `Listener::Recver`.
pub accept_loop : Connection → List Accept → Reactor → Outcome Reactor
accept_loop listener [] r = unfinished
accept_loop listener (fresh fd ∷ script) r = accept_loop listener script (
    add_connection r (record {
      sockfd = fd;
      events = interest_in true false;
      owner = false;
      handler = listener.handler;
      part = channel [] [];
    }))
accept_loop listener (done ∷ script) r = returned r
accept_loop listener (continue ∷ script) r = accept_loop listener script r
accept_loop listener (failed ∷ script) r = returned r

-- The handler takes the input buffer and gives back its response and what it leaves in the buffer.
module _ (handle : Bytes → Outcome (Bytes × Bytes)) where
  -- The handler is called if there is input; without a handler the input is dropped.
  pub handled : Bool → Bytes → Outcome (Bytes × Bytes)
  handled handler [] = returned ([], [])
  handled true (c ∷ inbuffer) = handle (c ∷ inbuffer)
  handled false (c ∷ inbuffer) = returned ([], [])

  -- `Channel::Recver` after its loop
  respond : Reactor → Connection → Bytes → List Send → Drained → Outcome (Reactor × List Send)
  respond r conn outbuffer sends hung_up = returned (del_connection r conn.sockfd, sends)
  respond r conn outbuffer sends (drained inbuffer) = handled conn.handler inbuffer >>= λ out.
      let outbuffer' = outbuffer ++ out.0 in
      let quiet = record r {
        connections =
            insert conn.sockfd (record conn { part = channel out.1 outbuffer' }) r.connections;
      } in
      if is_empty outbuffer' then returned (quiet, sends) else sender r conn out.1 outbuffer' sends

  -- The virtual `Recver`
  pub recver : Reactor → Connection → Ready → Outcome (Reactor × List Send)
  unfolding respond
  recver r conn item = elim conn.part [
    | listening ↦ accept_loop conn item.accepts r >>= λ r'. returned (r', item.sends)
    | channel inbuffer outbuffer ↦
        recv_loop item.recvs inbuffer >>= λ d. respond r conn outbuffer item.sends d
  ]

  -- The virtual `Sender`
  sender_of : Reactor → Connection → List Send → Outcome Reactor
  sender_of r conn sends = elim conn.part [
    | listening ↦ returned r
    | channel inbuffer outbuffer ↦ sender r conn inbuffer outbuffer sends >>= λ out. returned out.0
  ]

  on_input : Reactor → Ready → Bool → Option Connection → Outcome (Reactor × List Send)
  on_input r item true (some conn) = recver r conn item
  on_input r item _ _ = returned (r, item.sends)

  on_output : Reactor → List Send → Bool → Option Connection → Outcome Reactor
  unfolding sender_of
  on_output r sends true (some conn) = sender_of r conn sends
  on_output r sends _ _ = returned r

  -- A round of the loop of `Reactor::Dispatcher`.
  pub dispatch_one : Reactor → Ready → Outcome Reactor
  unfolding on_input on_output
  dispatch_one r item =
      on_input r item (readable item.events) (lookup item.fd r.connections) >>= λ out.
      on_output out.0 out.1 (writeable item.events) (lookup item.fd out.0.connections)

  -- `Reactor::Dispatcher`
  pub dispatcher : Reactor → List Ready → Outcome Reactor
  dispatcher r [] = returned r
  dispatcher r (item ∷ items) = dispatch_one r item >>= λ r'. dispatcher r' items

  rounds : Reactor → List (List Ready) → Outcome Reactor
  rounds r [] = returned r
  rounds r (items ∷ waits) = dispatcher r items >>= λ r'. rounds r' waits

  -- `Reactor::Loop`, for the results of its calls of `epoll_wait` in order: nothing in the program
  -- clears `_isrunning`, so it goes on as long as there are results.
  pub loop : Reactor → List (List Ready) → Outcome Reactor
  unfolding rounds
  loop r waits = elim r.connections [ [] ↦ returned r | c ∷ cs ↦ rounds r waits ]
