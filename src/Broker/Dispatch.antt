-- ===== src/Broker/Dispatch.antt =====
-- A round of `Broker::event_loop` in broker/broker.cpp: the response queue, and the events of the poller in
-- their order. What sockets take and give is in the events.
pub mod Registered
pub mod Publishing
pub mod Handlers
pub mod Reads
pub mod Kept
pub mod Removed
use fell.Base.{
  ℕ, ◌-◌, Bool, true, false, List, [], ◌∷◌, ◌++◌, Option, none, some, length, if◌then◌else◌,
}
use fell.Storage.Reader.{Outcome, ok, threw, stuck}
use fell.Broker.Topics.{Disk}
use fell.Broker.Requests.{ConnectionState, Node, Deferred}
use fell.Broker.Outbound.{
  Interest, Sent, Connections, get_conn, remove_conn, put_conn, on_writable, drain_response_queue,
}
use fell.Broker.Reading.{Received, on_readable, accept_all}

-- The flags of an event, what `recv` returns, and what `send` makes of a number of bytes offered.
pub record SocketEvent : Type 0 where
  pub hup : Bool
  pub read : Bool
  pub write : Bool
  pub reads : List Received
  pub sends : ℕ → Sent

-- An event of the notify pipe, of the acceptor with the sockets that wait, or of a connection.
pub data Event : Type 0 where
  notified : Event
  incoming : List ℕ → Event
  socket : ℕ → SocketEvent → Event

pub record Serving : Type 0 where
  pub node : Node
  pub deferred : List Deferred
  pub conns : Connections

-- The connection behind the event's pointer after an operation on it, or its removal.
abbrev pub keep : ℕ → Option (ConnectionState × Interest) → Connections → Connections
keep fd none cs = remove_conn fd cs
keep fd (some c) cs = put_conn fd c cs

-- `on_readable` where the event has `PF_READ`.
unfoldable pub read_part :
    ℕ → Disk → ℕ → SocketEvent → ConnectionState → Interest → Serving → Outcome Serving
unfolding on_readable
read_part now disk fd e conn interest s =
    if e.read
    then elim (on_readable now disk e.reads s.node conn interest) [
      | threw ↦ threw
      | stuck ↦ stuck
      | ok served ↦ ok (record {
        node = served.node;
        deferred = s.deferred ++ served.deferred;
        conns = keep fd served.conn s.conns;
      })
    ]
    else ok s

-- `on_writable` where the event has `PF_WRITE`: `none` where the connection was removed before.
unfoldable pub write_part : ℕ → SocketEvent → Serving → Option Serving
unfolding on_writable
write_part fd e s =
    if e.write
    then elim (get_conn fd s.conns) [
      | none ↦ none
      | some (conn, interest) ↦ some (record s {
        conns =
            keep fd (on_writable (e.sends (length conn.outbound - conn.write_offset)) conn interest)
              s.conns;
      })
    ]
    else some s

-- An event of a connection. `ok none` is the use of a connection that is removed.
unfoldable pub socket_event : ℕ → Disk → ℕ → SocketEvent → Serving → Outcome (Option Serving)
unfolding read_part write_part
socket_event now disk fd e s = elim (get_conn fd s.conns) [
  | none ↦ ok none
  | some (conn, interest) ↦
      if e.hup
      then ok (some (record s { conns = remove_conn fd s.conns }))
      else elim (read_part now disk fd e conn interest s) [
        | threw ↦ threw
        | stuck ↦ stuck
        | ok t ↦ ok (write_part fd e t)
      ]
]

-- The body of the loop over the events; `fresh` is the state of a new connection on a socket.
unfoldable pub dispatch :
    ℕ → Disk → (ℕ → ConnectionState) → Event → Serving → Outcome (Option Serving)
unfolding socket_event accept_all
dispatch now disk fresh notified s = ok (some s)
dispatch now disk fresh (incoming fds) s =
    ok (some (record s { conns = accept_all fds fresh s.conns }))
dispatch now disk fresh (socket fd e) s = socket_event now disk fd e s

unfoldable pub dispatch_all :
    ℕ → Disk → (ℕ → ConnectionState) → List Event → Serving → Outcome (Option Serving)
unfolding dispatch
dispatch_all now disk fresh [] s = ok (some s)
dispatch_all now disk fresh (ev ∷ evs) s = elim (dispatch now disk fresh ev s) [
  | threw ↦ threw
  | stuck ↦ stuck
  | ok none ↦ ok none
  | ok (some t) ↦ dispatch_all now disk fresh evs t
]

-- A round of the loop, with the responses that wait in the queue.
unfoldable pub event_round :
    ℕ
    → Disk
    → (ℕ → ConnectionState)
    → List (ℕ × List ℕ)
    → List Event
    → Serving
    → Outcome (Option Serving)
unfolding drain_response_queue dispatch_all
event_round now disk fresh queue evs s =
    dispatch_all now disk fresh evs (record s { conns = drain_response_queue queue s.conns })
