-- ===== src/Replication/Server.antt =====
-- `ReplicationServer` of replication/replication_server.cpp: the leader's side of a follower's
-- connection. What the handler reads of other threads' state is an argument, and what it does to sockets
-- and callbacks is a list of effects.
use fell.Base.{
  Bool, true, false, ℕ, zero, suc, ◌+◌, List, [], ◌∷◌, ◌++◌, Option, none, some, length, ltb, leb,
  ◌==◌, if◌then◌else◌,
}
use fell.Storage.{StoredMessage}
use fell.Storage.Reader.{Outcome, ok, threw, stuck}
use fell.Storage.Store.{PartitionStore, fetch}
use fell.Replication.Meta.{Registry, get, set}
use fell.Replication.Protocol.{
  FetchLogReq, read_fetch_log, read_ack, read_election, repl_frame, sync_frame, sync_header_bytes,
  fetch_log, replica_sync_end, replica_ack, leader_election,
}
use fell.Replication.Election.{handle_leader_election}
use fell.Replication.Stream.{Call, Handled, kept, dropped, stopped}

-- What the server sees of the broker while it handles one frame. A partition that exists is seen as
-- often as the handler looks at it, each time as the other threads have left it. `epoch` is the
-- partition's epoch when the record with an offset is sent.
pub record View : Type 0 where
  pub broker_id : ℕ
  pub partition : List ℕ → ℕ → Option (ℕ → PartitionStore)
  pub epoch : List ℕ → ℕ → ℕ → ℕ

-- Bytes given to a socket, the end of a connection, and the calls of the two callbacks.
pub data Effect : Type 0 where
  sent : ℕ → List ℕ → Effect
  closed : ℕ → Effect
  fetch_log_cb : ℕ → List ℕ → ℕ → ℕ → Effect
  replica_ack_cb : ℕ → ℕ → List ℕ → ℕ → Effect

-- The frames of the `for` loop in `handle_fetch_log`.
abbrev pub sync_frames : (ℕ → ℕ) → List ℕ → ℕ → List StoredMessage → List ℕ
sync_frames epoch topic partition [] = []
sync_frames epoch topic partition (m ∷ ms) =
    sync_frame topic partition (epoch m.offset) m ++ sync_frames epoch topic partition ms

abbrev pub behind : List ℕ → Outcome (List ℕ) → Outcome (List ℕ)
behind bytes (ok more) = ok (bytes ++ more)
behind bytes threw = threw
behind bytes stuck = stuck

-- The `while` loop of `handle_fetch_log` with `fuel` rounds: the bytes that it sends. Look `k` is for
-- the committed offset, and the next one for the fetch.
unfoldable pub catch_up : ℕ → (ℕ → PartitionStore) → (ℕ → ℕ) → List ℕ → ℕ → ℕ → ℕ → Outcome (List ℕ)
unfolding fetch sync_frame
catch_up zero look epoch topic partition k offset = stuck
catch_up (suc fuel) look epoch topic partition k offset =
    let went_on : Outcome (List ℕ) = elim (fetch offset 128 (look (k + 1))).0 [
      | threw ↦ threw
      | stuck ↦ stuck
      | ok msgs ↦ elim msgs [
        | [] ↦ ok []
        | m ∷ ms ↦
            behind (sync_frames epoch topic partition (m ∷ ms))
              (catch_up fuel look epoch topic partition (k + 2) (offset + length (m ∷ ms)))
      ]
    ] in
    if ltb offset (look k).committed_offset then went_on else ok []

-- The frame that ends a catch-up: its header has only the topic and the partition.
unfoldable pub sync_end_frame : List ℕ → ℕ → List ℕ
unfolding repl_frame sync_header_bytes
sync_end_frame topic partition = repl_frame replica_sync_end (
    sync_header_bytes (record {
      topic = topic;
      partition = partition;
      epoch = 0;
      offset = 0;
      timestamp_ms = 0;
      payload_size = 0;
    }))

unfoldable pub handle_fetch_log : ℕ → View → ℕ → FetchLogReq → Outcome (List Effect)
unfolding catch_up sync_end_frame
handle_fetch_log fuel view fd req = elim (view.partition req.topic req.partition) [
  | none ↦ ok (closed fd ∷ [])
  | some look ↦
      elim (catch_up fuel look (view.epoch req.topic req.partition) req.topic req.partition 0
        req.start_offset) [
          | threw ↦ threw
          | stuck ↦ stuck
          | ok bytes ↦ ok (
              fetch_log_cb req.follower_id req.topic req.partition fd
              ∷ sent fd (bytes ++ sync_end_frame req.topic req.partition)
              ∷ [])
        ]
]

abbrev pub committed_at_look : Option (ℕ → PartitionStore) → Option ℕ
committed_at_look none = none
committed_at_look (some look) = some (look 0).committed_offset

-- `handle_frame`: a frame that is too short for its struct is ignored, like one with another opcode. A
-- heartbeat is read and dropped.
unfoldable pub handle_frame : ℕ → View → ℕ → Call → Registry → Outcome (List Effect × Registry)
unfolding handle_fetch_log handle_leader_election read_fetch_log read_ack read_election get
handle_frame fuel view fd c reg =
    let req = read_fetch_log c.bytes in
    let ack = read_ack c.bytes in
    let le = read_election c.bytes in
    if c.opcode == fetch_log
    then (if leb 270 c.size
        then elim (handle_fetch_log fuel view fd req) [
          | threw ↦ threw
          | stuck ↦ stuck
          | ok effects ↦ ok (effects, reg)
        ]
        else ok ([], reg))
    else if c.opcode == replica_ack
    then (if leb 274 c.size
        then ok (replica_ack_cb ack.follower_id ack.acked_offset ack.topic ack.partition ∷ [], reg)
        else ok ([], reg))
    else if c.opcode == leader_election
    then (if leb 274 c.size
        then (let (meta, reg') = get le.topic le.partition reg in
            ok (
              [],
              set le.topic le.partition
                  (handle_leader_election view.broker_id
                    (committed_at_look (view.partition le.topic le.partition)) le meta)
                  reg',
            ))
        else ok ([], reg))
    else ok ([], reg)

abbrev pub closes : List Effect → Bool
closes [] = false
closes (closed fd ∷ effects) = true
closes (sent fd bytes ∷ effects) = closes effects
closes (fetch_log_cb follower topic partition fd ∷ effects) = closes effects
closes (replica_ack_cb follower offset topic partition ∷ effects) = closes effects

-- A call in the loop of `on_readable`, with the effects so far: closing the socket removes the buffer that the
-- loop goes on with.
unfoldable pub server_call :
    ℕ → View → ℕ → Call → List Effect × Registry → Handled (List Effect × Registry)
unfolding handle_frame
server_call fuel view fd call (effects, reg) = elim (handle_frame fuel view fd call reg) [
  | threw ↦ stopped
  | stuck ↦ stopped
  | ok (more, after) ↦
      if closes more then dropped (effects ++ more, after) else kept (effects ++ more, after)
]
