-- ===== src/Replication/Client.antt =====
-- `ReplicationClient` of replication/replication_client.cpp: a follower's connection to its leader. A
-- closure that the client gives to the store is the position of its header in `callbacks`.
use fell.Base.{
  ℕ, ◌+◌, ◌%◌, ◌^◌, List, [], ◌∷◌, ◌++◌, Option, none, some, length, take, drop, get_elem?, ltb,
  leb, ◌==◌, if◌then◌else◌,
}
use fell.Storage.Store.{PartitionStore, append, set_once_commit_callback, written_offset}
use fell.Replication.Meta.{PartitionMeta}
use fell.Replication.Protocol.{
  FetchLogReq, ReplicaSyncHeader, ReplicaAck, LeaderElection, repl_frame, fetch_log_bytes,
  read_sync_header, ack_bytes, election_bytes, fetch_log, replica_sync, replica_ack,
  leader_election,
}
use fell.Replication.Election.{maybe_elect_self}
use fell.Replication.Stream.{Call, Handled, kept, dropped, stopped}

pub record ReplicationClient : Type 0 where
  pub topic : List ℕ
  pub partition : ℕ
  pub broker_id : ℕ
  pub fd : Option ℕ
  pub recv_buf : List ℕ
  pub out_acks : List ReplicaAck
  pub callbacks : List ReplicaSyncHeader

-- The end of the connection: the event loop will connect again.
unfoldable pub disconnect : ReplicationClient → ReplicationClient
disconnect c = record c { fd = none; recv_buf = [] }

unfoldable pub build_fetch_log_request : Option ℕ → ReplicationClient → FetchLogReq
build_fetch_log_request committed c = record {
  topic = c.topic;
  partition = c.partition;
  start_offset = elim committed [ none ↦ 0 | some offset ↦ offset ];
  follower_id = c.broker_id;
}

-- `send_fetch_log`: the bytes for the leader.
unfoldable pub send_fetch_log : Option ℕ → ReplicationClient → List ℕ
unfolding repl_frame fetch_log_bytes build_fetch_log_request
send_fetch_log committed c =
    repl_frame fetch_log (fetch_log_bytes (build_fetch_log_request committed c))

-- The acknowledgement that the closure for a header builds.
abbrev pub ack_of : ℕ → ReplicaSyncHeader → ReplicaAck
ack_of broker_id hdr = record {
  topic = hdr.topic;
  partition = hdr.partition;
  epoch = hdr.epoch;
  acked_offset = (hdr.offset + 1) % 2 ^ 64;
  follower_id = broker_id;
}

-- The closures that the store calls.
unfoldable pub run_callbacks : List ℕ → ReplicationClient → ReplicationClient
run_callbacks [] c = c
run_callbacks (cb ∷ cbs) c = elim (get_elem? c.callbacks cb) [
  | none ↦ run_callbacks cbs c
  | some hdr ↦
      run_callbacks cbs (record c { out_acks = c.out_acks ++ (ack_of c.broker_id hdr ∷ []) })
]

-- `on_replica_sync` with the clock and the bytes of the buffer behind the header, for the partition that
-- the header names: the partition and the client after it, or `none` where the payload would be read
-- past the end of the buffer.
unfoldable pub on_replica_sync :
    ℕ
    → ReplicaSyncHeader
    → List ℕ
    → Option PartitionStore
    → ReplicationClient
    → Option (Option PartitionStore × ReplicationClient)
unfolding disconnect run_callbacks set_once_commit_callback append written_offset
on_replica_sync now hdr bytes none c = some (none, c)
on_replica_sync now hdr bytes (some p) c =
    let (called, q) = set_once_commit_callback hdr.offset (length c.callbacks) p in
    let registered = run_callbacks called (record c { callbacks = c.callbacks ++ (hdr ∷ []) }) in
    let (result, r) = append now (take hdr.payload_size bytes) q in
    if hdr.offset == written_offset p
    then (if ltb (length bytes) hdr.payload_size
        then none
        else some (some r, if result.accepted then registered else disconnect registered))
    else some (some p, disconnect c)

-- `handle_frame`
unfoldable pub handle_frame :
    ℕ
    → Call
    → Option PartitionStore
    → ReplicationClient
    → Option (Option PartitionStore × ReplicationClient)
unfolding on_replica_sync read_sync_header
handle_frame now call p c =
    if call.opcode == replica_sync
    then (if leb 282 call.size
        then on_replica_sync now (read_sync_header call.bytes) (drop 282 call.bytes) p c
        else some (p, c))
    else some (p, c)

abbrev pub buffer_after :
    Option ℕ
    → Option PartitionStore
    → ReplicationClient
    → Handled (Option PartitionStore × ReplicationClient)
buffer_after none q d = dropped (q, d)
buffer_after (some fd) q d = kept (q, d)

-- A call in the loop of `on_readable`: what ends the connection clears the receive buffer.
unfoldable pub client_call :
    ℕ
    → Call
    → Option PartitionStore × ReplicationClient
    → Handled (Option PartitionStore × ReplicationClient)
unfolding handle_frame
client_call now call (p, c) = elim (handle_frame now call p c) [
  | none ↦ stopped
  | some (q, d) ↦ buffer_after d.fd q d
]

-- The bytes of these acknowledgements.
abbrev pub acks_bytes : List ReplicaAck → List ℕ
acks_bytes [] = []
acks_bytes (a ∷ acks) = repl_frame replica_ack (ack_bytes a) ++ acks_bytes acks

-- What the event loop does when it is notified: the queued acknowledgements are taken and, where there is
-- a connection, sent.
unfoldable pub on_notify : ReplicationClient → List ℕ × ReplicationClient
unfolding repl_frame ack_bytes
on_notify c =
    (elim c.fd [ none ↦ [] | some fd ↦ acks_bytes c.out_acks ], record c { out_acks = [] })

-- A peer of the configuration: its id, and what `connect_socket` answers for its address.
abbrev pub Peer : Type 0
Peer = ℕ × Option ℕ

abbrev pub find_peer : ℕ → List Peer → Option Peer
find_peer leader_id [] = none
find_peer leader_id ((id, socket) ∷ peers) =
    if id == leader_id then some (id, socket) else find_peer leader_id peers

-- The loop of `maybe_elect_self` with `broadcast_election`: the sockets with their bytes.
unfoldable pub broadcast_election : ℕ → LeaderElection → List Peer → List (ℕ × List ℕ)
unfolding repl_frame election_bytes
broadcast_election broker_id le [] = []
broadcast_election broker_id le ((id, none) ∷ peers) = broadcast_election broker_id le peers
broadcast_election broker_id le ((id, some fd) ∷ peers) =
    let rest = broadcast_election broker_id le peers in
    if id == broker_id then rest else (fd, repl_frame leader_election (election_bytes le)) ∷ rest

-- What connecting leads to: the bytes sent to sockets, the client and the partition's metadata.
pub record Connecting : Type 0 where
  pub sends : List (ℕ × List ℕ)
  pub client : ReplicationClient
  pub meta : PartitionMeta

unfoldable pub elect : Option ℕ → List Peer → PartitionMeta → ReplicationClient → Connecting
unfolding maybe_elect_self broadcast_election
elect committed peers meta c =
    let (after, claim) = maybe_elect_self c.broker_id committed c.topic c.partition meta in
    record {
      sends = elim claim [ none ↦ [] | some le ↦ broadcast_election c.broker_id le peers ];
      client = c;
      meta = after;
    }

-- `connect_to_leader`, with the committed offset of the partition, if the broker has it.
unfoldable pub connect_to_leader :
    Option ℕ → List Peer → PartitionMeta → ReplicationClient → Connecting
unfolding elect send_fetch_log
connect_to_leader committed peers meta c =
    let stays : Connecting = record { sends = []; client = c; meta = meta } in
    let connects : Connecting = elim (find_peer meta.leader_id peers) [
      | none ↦ stays
      | some (id, none) ↦ elect committed peers meta c
      | some (id, some fd) ↦ record {
        sends = (fd, send_fetch_log committed c) ∷ [];
        client = record c { fd = some fd };
        meta = meta;
      }
    ] in
    elim c.fd [
      | some fd ↦ stays
      | none ↦ if meta.leader_id == c.broker_id then elect committed peers meta c else connects
    ]
