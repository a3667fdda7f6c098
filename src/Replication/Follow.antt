-- ===== src/Replication/Follow.antt =====
-- A follower takes the leader's records: the frames of the leader at the client, with the follower's
-- store behind it.
use fell.Base.{
  ℕ, ◌+◌, ◌%◌, ◌^◌, ◌≤◌, ◌<◌, ◌≡◌, ◌≢◌, refl, sym, ap, ◌∙◌, inl, inr, true, false, List, [], ◌∷◌,
  ◌++◌, Option, some, length, append_assoc, leb, ltb, ◌==◌, length-append, take-append_self,
  drop-append_self, arith,
}
use fell.Wire.{read_be16, read_be32, read_be64, write_be16, write_be32, write_be64}
use fell.Storage.{StoredMessage}
use fell.Storage.Store.{PartitionStore, set_once_commit_callback, written_offset}
use fell.Storage.Store.Inv.{append_cases, accepted_store}
use fell.Replication.Protocol.{
  ReplicaSyncHeader, topic_bytes, sync_header_bytes, read_sync_header, read_topic-topic_bytes,
  after_topic, after_topic_more, replica_sync, length-topic_bytes,
}
use fell.Replication.Stream.{Call}
use fell.Replication.Client.{
  ReplicationClient, on_replica_sync, handle_frame, disconnect, run_callbacks,
}

-- The header of a record's frame.
abbrev pub header_of : List ℕ → ℕ → ℕ → StoredMessage → ReplicaSyncHeader
header_of topic partition epoch m = record {
  topic = topic;
  partition = partition;
  epoch = epoch;
  offset = m.offset;
  timestamp_ms = m.timestamp_ms;
  payload_size = length m.payload % 2 ^ 32;
}

pub record IsHeader (h : ReplicaSyncHeader) : Type 0 where
  pub topic_u8 : length h.topic ≤ 255
  pub partition_u16 : h.partition < 2 ^ 16
  pub epoch_u32 : h.epoch < 2 ^ 32
  pub offset_u64 : h.offset < 2 ^ 64
  pub timestamp_u64 : h.timestamp_ms < 2 ^ 64
  pub size_u32 : h.payload_size < 2 ^ 32

pub read_sync_header-bytes :
    (h : ReplicaSyncHeader) (rest : List ℕ)
    → IsHeader h
    → read_sync_header (sync_header_bytes h ++ rest) ≡ h
unfolding read_sync_header sync_header_bytes read_be16 read_be32 read_be64 write_be16 write_be32
    write_be64
read_sync_header-bytes h rest v =
    ap read_sync_header (append_assoc (topic_bytes h.topic) _ rest)
    ∙ rw
        (
          read_topic-topic_bytes h.topic _ v.topic_u8,
          after_topic h.topic _,
          after_topic_more h.topic _ 2,
          after_topic_more h.topic _ 6,
          after_topic_more h.topic _ 14,
          after_topic_more h.topic _ 22,
        )
        (ground (arith, v.partition_u16, v.epoch_u32, v.offset_u64, v.timestamp_u64, v.size_u32))

pub length-sync_header_bytes : (h : ReplicaSyncHeader) → length (sync_header_bytes h) ≡ 282
unfolding sync_header_bytes write_be16 write_be32 write_be64
length-sync_header_bytes h =
    length-append (topic_bytes h.topic) _ ∙ omega (arith, length-topic_bytes h.topic)

-- The call that the frame of a record leads to.
abbrev pub sync_call : ReplicaSyncHeader → List ℕ → List ℕ → Call
sync_call h payload later = record {
  opcode = replica_sync;
  size = 282 + length payload;
  bytes = (sync_header_bytes h ++ payload) ++ later;
}

pub handle_frame_sync :
    (now : ℕ) (h : ReplicaSyncHeader) (payload later : List ℕ) (p : Option PartitionStore)
    (c : ReplicationClient)
    → IsHeader h
    → handle_frame now (sync_call h payload later) p c
      ≡ on_replica_sync now h (payload ++ later) p c
unfolding handle_frame
handle_frame_sync now h payload later p c v =
    let regroup = append_assoc (sync_header_bytes h) payload later in
    let long : leb 282 (282 + length payload) ≡ true = ground arith in
    rw
      (
        long,
        regroup,
        read_sync_header-bytes h (payload ++ later) v,
        drop-append_self 282 (sync_header_bytes h) (payload ++ later)
            (sym (length-sync_header_bytes h)),
      )
      refl

module _ (now : ℕ) (h : ReplicaSyncHeader) (payload later : List ℕ) (p : PartitionStore)
    (c : ReplicationClient) where
  -- The store in which the client has registered its closure.
  abbrev pub expecting : PartitionStore
  expecting = record p {
    once_callbacks = p.once_callbacks ++ ((h.offset, length c.callbacks) ∷ []);
  }

  abbrev pub registered : ReplicationClient
  registered = record c { callbacks = c.callbacks ++ (h ∷ []) }

  -- A record with the next offset to write is appended under that offset with the follower's own
  -- timestamp, behind a closure for its acknowledgement, and the connection stays.
  pub on_replica_sync_takes :
      h.offset ≡ p.writer.next_offset
      → p.committed_offset ≡ p.writer.next_offset
      → h.payload_size ≡ length payload
      → p.shutdown ≡ false
      → length p.queue < p.options.queue_capacity
      → p.pending_bytes + length payload ≤ p.options.max_pending_bytes
      → on_replica_sync now h (payload ++ later) (some p) c
        ≡ some (some (accepted_store now payload expecting), registered)
  unfolding on_replica_sync set_once_commit_callback written_offset run_callbacks
  on_replica_sync_takes next committed size runs fits small =
      let wanted : (h.offset == p.writer.next_offset) ≡ true = ground (arith, next) in
      let coming : ltb h.offset p.committed_offset ≡ false = ground (arith, next, committed) in
      let whole : ltb (length (payload ++ later)) h.payload_size ≡ false =
        ground (arith, size, length-append payload later) in
      let cut = take-append_self h.payload_size payload later size in
      rw (coming, wanted, whole, cut)
        (elim (append_cases now payload expecting) [
          | inl (down, _) ↦ absurd (ground (arith, down, runs))
          | inr (inl (_, full, _)) ↦ absurd (ground (arith, full, fits, small))
          | inr (inr (_, _, _, e)) ↦ rw e refl
        ])

  -- A record with any other offset ends the connection, and the store stays as it is. That is so for the
  -- record behind one that is still queued, since the offset compared is the writer's.
  pub on_replica_sync_refuses :
      h.offset ≢ p.writer.next_offset
      → on_replica_sync now h (payload ++ later) (some p) c ≡ some (some p, disconnect c)
  unfolding on_replica_sync written_offset
  on_replica_sync_refuses other =
      let unwanted : (h.offset == p.writer.next_offset) ≡ false = ground (arith, other) in
      rw unwanted refl
