-- ===== src/Replication/Protocol.antt =====
-- replication/include/replication/repl_protocol.hpp: the frames between brokers. The structs are
-- packed and their integers big-endian. A topic field has 255 bytes, which the sender has cleared.
use fell.Base.{
  ℕ, ◌+◌, ◌-◌, ◌%◌, ◌^◌, ◌≤◌, ◌≡◌, refl, sym, ap, ◌∙◌, min, List, ◌∷◌, ◌++◌, length, take, drop,
  replicate, length-append, length-take, length-replicate, append_assoc, take-append_self, take_all,
  drop-append_self, drop-drop, arith,
}
use fell.Wire.{byte_at, read_be16, read_be32, read_be64, write_be16, write_be32, write_be64}
use fell.Storage.{StoredMessage}

abbrev pub fetch_log : ℕ
fetch_log = 1

abbrev pub replica_sync : ℕ
replica_sync = 2

abbrev pub replica_sync_end : ℕ
replica_sync_end = 3

abbrev pub replica_ack : ℕ
replica_ack = 4

abbrev pub heartbeat : ℕ
heartbeat = 5

abbrev pub leader_election : ℕ
leader_election = 7

pub record FetchLogReq : Type 0 where
  pub topic : List ℕ
  pub partition : ℕ
  pub start_offset : ℕ
  pub follower_id : ℕ

pub record ReplicaSyncHeader : Type 0 where
  pub topic : List ℕ
  pub partition : ℕ
  pub epoch : ℕ
  pub offset : ℕ
  pub timestamp_ms : ℕ
  pub payload_size : ℕ

pub record ReplicaAck : Type 0 where
  pub topic : List ℕ
  pub partition : ℕ
  pub epoch : ℕ
  pub acked_offset : ℕ
  pub follower_id : ℕ

pub record LeaderElection : Type 0 where
  pub topic : List ℕ
  pub partition : ℕ
  pub new_leader_id : ℕ
  pub epoch : ℕ
  pub committed_offset : ℕ

-- `topic_len` and `topic`: a longer name is cut at 255.
unfoldable pub topic_bytes : List ℕ → List ℕ
topic_bytes t = min (length t) 255 ∷ (take 255 t ++ replicate (255 - length t) 0)

-- `std::string(req.topic, req.topic_len)`
unfoldable pub read_topic : List ℕ → List ℕ
read_topic b = take (byte_at b 0) (drop 1 b)

unfoldable pub fetch_log_bytes : FetchLogReq → List ℕ
unfolding topic_bytes
fetch_log_bytes r =
    topic_bytes r.topic
    ++ (write_be16 r.partition ++ (write_be64 r.start_offset ++ write_be32 r.follower_id))

unfoldable pub read_fetch_log : List ℕ → FetchLogReq
unfolding read_topic
read_fetch_log b = record {
  topic = read_topic b;
  partition = read_be16 (drop 256 b);
  start_offset = read_be64 (drop 258 b);
  follower_id = read_be32 (drop 266 b);
}

unfoldable pub sync_header_bytes : ReplicaSyncHeader → List ℕ
unfolding topic_bytes
sync_header_bytes h =
    topic_bytes h.topic
    ++ (write_be16 h.partition
        ++ (write_be32 h.epoch
            ++ (write_be64 h.offset ++ (write_be64 h.timestamp_ms ++ write_be32 h.payload_size))))

unfoldable pub read_sync_header : List ℕ → ReplicaSyncHeader
unfolding read_topic
read_sync_header b = record {
  topic = read_topic b;
  partition = read_be16 (drop 256 b);
  epoch = read_be32 (drop 258 b);
  offset = read_be64 (drop 262 b);
  timestamp_ms = read_be64 (drop 270 b);
  payload_size = read_be32 (drop 278 b);
}

unfoldable pub ack_bytes : ReplicaAck → List ℕ
unfolding topic_bytes
ack_bytes r =
    topic_bytes r.topic
    ++ (write_be16 r.partition
        ++ (write_be32 r.epoch ++ (write_be64 r.acked_offset ++ write_be32 r.follower_id)))

unfoldable pub read_ack : List ℕ → ReplicaAck
unfolding read_topic
read_ack b = record {
  topic = read_topic b;
  partition = read_be16 (drop 256 b);
  epoch = read_be32 (drop 258 b);
  acked_offset = read_be64 (drop 262 b);
  follower_id = read_be32 (drop 270 b);
}

unfoldable pub election_bytes : LeaderElection → List ℕ
unfolding topic_bytes
election_bytes e =
    topic_bytes e.topic
    ++ (write_be16 e.partition
        ++ (write_be32 e.new_leader_id ++ (write_be32 e.epoch ++ write_be64 e.committed_offset)))

unfoldable pub read_election : List ℕ → LeaderElection
unfolding read_topic
read_election b = record {
  topic = read_topic b;
  partition = read_be16 (drop 256 b);
  new_leader_id = read_be32 (drop 258 b);
  epoch = read_be32 (drop 262 b);
  committed_offset = read_be64 (drop 266 b);
}

-- A frame on the wire: the length counts the opcode, in uint32_t.
unfoldable pub repl_frame : ℕ → List ℕ → List ℕ
repl_frame opcode body = write_be32 ((length body + 1) % 2 ^ 32) ++ (opcode ∷ body)

-- The frame that carries a committed record to a follower.
unfoldable pub sync_frame : List ℕ → ℕ → ℕ → StoredMessage → List ℕ
unfolding repl_frame sync_header_bytes
sync_frame topic partition epoch m = repl_frame replica_sync (
    sync_header_bytes (record {
      topic = topic;
      partition = partition;
      epoch = epoch;
      offset = m.offset;
      timestamp_ms = m.timestamp_ms;
      payload_size = length m.payload % 2 ^ 32;
    })
    ++ m.payload)

pub length-topic_bytes : (t : List ℕ) → length (topic_bytes t) ≡ 256
unfolding topic_bytes
length-topic_bytes t = omega (
  arith,
  length-append (take 255 t) (replicate (255 - length t) 0),
  length-take 255 t,
  length-replicate {A = ℕ} (255 - length t) 0,
)

pub read_topic-topic_bytes :
    (t rest : List ℕ) → length t ≤ 255 → read_topic (topic_bytes t ++ rest) ≡ t
unfolding read_topic topic_bytes
read_topic-topic_bytes t rest h =
    ap (λ n. take n ((take 255 t ++ replicate (255 - length t) 0) ++ rest)) {x = min (length t) 255}
      {y = length t} (omega (arith, h))
    ∙ ap (λ u. take (length t) ((u ++ replicate (255 - length t) 0) ++ rest)) (take_all 255 t h)
    ∙ ap (take (length t)) (append_assoc t (replicate (255 - length t) 0) rest)
    ∙ take-append_self (length t) t _ refl

module _ (t : List ℕ) (rest : List ℕ) where
  pub after_topic : drop 256 (topic_bytes t ++ rest) ≡ rest
  after_topic = drop-append_self 256 (topic_bytes t) rest (sym (length-topic_bytes t))

  pub after_topic_more : (n : ℕ) → drop (256 + n) (topic_bytes t ++ rest) ≡ drop n rest
  after_topic_more n = sym (drop-drop n 256 (topic_bytes t ++ rest)) ∙ ap (drop n) after_topic
