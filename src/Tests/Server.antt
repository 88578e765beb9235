-- ===== src/Tests/Server.antt =====
-- The event loop on small tables.
use linux_system_learning.Prelude.{
  ℕ, Bool, ltb, ◌≡◌, refl, List, [], ◌∷◌, true, false, arith, lookup,
}
use linux_system_learning.Prelude.Outcome.{Outcome, returned, Ensures}
use linux_system_learning.Text.{Bytes, codes, to_string, c_str, find}
use linux_system_learning.Protocol.{encode, decode, serve}
use linux_system_learning.Reactor.{
  Connection, channel, listening, Reactor, Ready, Recv, got, Send, took, Accept, interest_in, loop,
  dispatch_one, ctl_add, sender,
}
use linux_system_learning.Reactor.Sync.{IsSync, loop-IsSync, interest, IsWatched}
use linux_system_learning.Reactor.Channel.{sender-Flushed, Flushed}
use linux_system_learning.Reactor.Answer.{dispatch_one-frames, flushed}

-- `{1}` is answered by `{1}`.
abbrev echo : Bytes → Outcome Bytes
echo json = returned json

abbrev listener : Connection
listener = record {
  sockfd = 3;
  events = interest_in true false;
  owner = true;
  handler = true;
  part = listening;
}

abbrev client : Connection
client = record {
  sockfd = 7;
  events = interest_in true false;
  owner = true;
  handler = true;
  part = channel [] [];
}

abbrev server : Reactor
server = record {
  connections = (3, listener) ∷ (7, client) ∷ [];
  calls = ctl_add 3 (interest_in true false) ∷ ctl_add 7 (interest_in true false) ∷ [];
}

server-IsSync : IsSync server
unfolding interest lookup
server-IsSync = record { asked = λ fd. ground arith; owned = λ fd conn h. ground arith }

-- A new connection, then the frame of `{1}` from the first one.
abbrev accepting : Ready
accepting = record {
  fd = 3;
  events = interest_in true false;
  recvs = [];
  sends = [];
  accepts = Accept.fresh 8 ∷ Accept.done ∷ [];
}

abbrev frame : Bytes
frame = codes "3\r\n{1}\r\n"

abbrev reading : Ready
reading = record {
  fd = 7;
  events = interest_in true false;
  recvs = got frame ∷ Recv.again ∷ [];
  sends = took 3 ∷ [];
  accepts = [];
}

-- The kernel refuses the calls behind the third, those for the descriptor 7.
abbrev takes : ℕ → Bool
takes k = ltb k 3

loop-IsSync_example :
    Ensures
      (λ r. IsWatched takes r × IsSync r)
      (loop (serve echo) server ((accepting ∷ reading ∷ []) ∷ []))
loop-IsSync_example =
    loop-IsSync (serve echo) server ((accepting ∷ reading ∷ []) ∷ []) takes server-IsSync

dispatch_one-frames_example :
    dispatch_one (serve echo) server reading ≡ returned (flushed server client [] (codes "{1}"))
unfolding lookup c_str encode to_string decode find
dispatch_one-frames_example =
    dispatch_one-frames echo (λ json. json) server client reading [] (got frame ∷ []) []
      (codes "{1}" ∷ []) [] 3 [] refl refl refl refl refl refl refl tt refl (omega arith, tt)
      (refl, tt) refl (λ e. cc) (omega arith)

sender-Flushed_example :
    (out : Reactor × List Send) × (sender server client [] (codes "{1}") (took 2 ∷ Send.again ∷ [])
      ≡ returned out)
    × Flushed server client [] (codes "{1}") out.0
sender-Flushed_example = sender-Flushed server client [] (codes "{1}") (took 2 ∷ []) []
