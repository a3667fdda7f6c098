-- ===== src/Broker/DispatchTests.antt =====
-- A round of the event loop on concrete connections, and its theorems there.
use fell.Base.{◌↔◌, ℕ, ◌-◌, ◌≤◌, ◌≡◌, refl, true, false, List, [], ◌∷◌, none, arith}
use fell.Storage.{default_options}
use fell.Storage.Reader.{ok}
use fell.Broker.Topics.{Disk}
use fell.Broker.Requests.{Node, ConnectionState}
use fell.Broker.Outbound.{Interest, wrote, Connections}
use fell.Broker.Reading.{blocked, ended}
use fell.Broker.Dispatch.{
  SocketEvent, Event, notified, incoming, socket, Serving, socket_event, event_round,
}
use fell.Broker.Dispatch.Registered.{AllTidy}
use fell.Broker.Dispatch.Kept.{event_round-Tidy}
use fell.Broker.Dispatch.Removed.{ClosesItself, socket_event-ClosesItself}

abbrev no_files : Disk
no_files name partition = []

abbrev node : Node
node = record {
  topics = [];
  options = default_options;
  cfg = none;
  meta_reg = none;
  defers = true;
  publish_requests_total = 0;
  publish_busy_total = 0;
  bytes_published_total = 0;
}

-- A connection with bytes to send from the second on.
abbrev conn : ℕ → List ℕ → ℕ → ConnectionState
conn fd outbound write_offset = record {
  fd = fd;
  decoder = record { buf = []; max_frame_size = 1024; read_idx = 0 };
  sub_topic = [];
  sub_partition = 0;
  fetch_offset = 0;
  subscribed = false;
  rr_counter = 0;
  outbound = outbound;
  write_offset = write_offset;
  read_disabled = false;
}

abbrev both : Interest
both = record { read = true; write = true }

abbrev serving : Connections → Serving
serving conns = record { node = node; deferred = []; conns = conns }

abbrev before : Serving
before = serving ((9, (conn 9 (1 ∷ 2 ∷ 3 ∷ []) 1, both)) ∷ [])

-- A deferred response for the connection, then a wake-up, a new connection, and a socket that takes all
-- but one of the bytes offered.
abbrev queue : List (ℕ × List ℕ)
queue = (9, 4 ∷ 5 ∷ []) ∷ []

abbrev takes_most : SocketEvent
takes_most = record {
  hup = false;
  read = true;
  write = true;
  reads = blocked ∷ [];
  sends = λ k. wrote (k - 1);
}

abbrev events : List Event
events = notified ∷ incoming (7 ∷ []) ∷ socket 9 takes_most ∷ []

abbrev after : Serving
after = serving (
    (9, (conn 9 (1 ∷ 2 ∷ 3 ∷ 4 ∷ 5 ∷ []) 4, both))
    ∷ (7, (conn 7 [] 0, record { read = true; write = false }))
    ∷ [])

abbrev fresh : ℕ → ConnectionState
fresh fd = conn fd [] 0

sent→le : (k n : ℕ) → wrote (k - 1) ≡ wrote n → n ≤ k
sent→le k n e = ground (arith, e)

event_round-Tidy_example : AllTidy after.conns
unfolding event_round
event_round-Tidy_example =
    event_round-Tidy 0 no_files fresh
      (λ fd. record { no_bytes = refl; at_start = refl; reading = refl }) queue events before after
      (tt, (tt, (sent→le, tt)))
      (record { inside = omega arith; watched = λ h. refl; reads = refl }, tt) refl

-- The peer has closed, and the socket can still be written.
abbrev closing : SocketEvent
closing = record { hup = false; read = true; write = true; reads = ended ∷ []; sends = wrote }

socket_event-ClosesItself_example :
    (socket_event 0 no_files 9 closing before ≡ ok none)
    ↔ ClosesItself 0 no_files closing before (conn 9 (1 ∷ 2 ∷ 3 ∷ []) 1) both
socket_event-ClosesItself_example =
    socket_event-ClosesItself 0 no_files 9 closing before (conn 9 (1 ∷ 2 ∷ 3 ∷ []) 1) both refl
      (tt, tt)

closing_used : socket_event 0 no_files 9 closing before ≡ ok none
unfolding socket_event
closing_used = refl
