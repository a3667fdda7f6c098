-- ===== src/Replication/Messages.antt =====
-- The structs between brokers survive the wire.
use fell.Base.{ℕ, ◌^◌, ◌≤◌, ◌<◌, ◌≡◌, ap, ◌∙◌, List, ◌++◌, length, append_assoc, arith}
use fell.Wire.{read_be16, read_be32, read_be64, write_be16, write_be32, write_be64}
use fell.Replication.Protocol.{
  ReplicaAck, LeaderElection, topic_bytes, ack_bytes, read_ack, election_bytes, read_election,
  read_topic-topic_bytes, after_topic, after_topic_more,
}

-- An election claim with a topic of at most 255 bytes and fields in their ranges is read as it was
-- written.
pub read_election-election_bytes :
    (e : LeaderElection) (rest : List ℕ)
    → length e.topic ≤ 255
    → e.partition < 2 ^ 16
    → e.new_leader_id < 2 ^ 32
    → e.epoch < 2 ^ 32
    → e.committed_offset < 2 ^ 64
    → read_election (election_bytes e ++ rest) ≡ e
unfolding read_election election_bytes read_be16 read_be32 read_be64 write_be16 write_be32
    write_be64
read_election-election_bytes e rest short p l ep c =
    ap read_election (append_assoc (topic_bytes e.topic) _ rest)
    ∙ rw
        (
          read_topic-topic_bytes e.topic _ short,
          after_topic e.topic _,
          after_topic_more e.topic _ 2,
          after_topic_more e.topic _ 6,
          after_topic_more e.topic _ 10,
        )
        (ground (arith, p, l, ep, c))

-- A follower's acknowledgement with a topic of at most 255 bytes and fields in their ranges is read as it
-- was written.
pub read_ack-ack_bytes :
    (a : ReplicaAck) (rest : List ℕ)
    → length a.topic ≤ 255
    → a.partition < 2 ^ 16
    → a.epoch < 2 ^ 32
    → a.acked_offset < 2 ^ 64
    → a.follower_id < 2 ^ 32
    → read_ack (ack_bytes a ++ rest) ≡ a
unfolding read_ack ack_bytes read_be16 read_be32 read_be64 write_be16 write_be32 write_be64
read_ack-ack_bytes a rest short p ep o f =
    ap read_ack (append_assoc (topic_bytes a.topic) _ rest)
    ∙ rw
        (
          read_topic-topic_bytes a.topic _ short,
          after_topic a.topic _,
          after_topic_more a.topic _ 2,
          after_topic_more a.topic _ 6,
          after_topic_more a.topic _ 14,
        )
        (ground (arith, p, ep, o, f))
