-- ===== src/Replication/Streamed.antt =====
-- What the sockets of the followers are given, as frames of the replication protocol.
use fell.Base.{ℕ, ◌≡◌, refl, ap, ◌∙◌, List, [], ◌∷◌, ◌++◌, map}
use fell.Storage.{CommittedRecord}
use fell.Replication.Meta.{PartitionMeta}
use fell.Replication.Protocol.{sync_frame}
use fell.Replication.Server.{sync_frames}
use fell.Replication.Stream.{sent_frames}
use fell.Replication.Streaming.{
  stream_committed, bytes_for, registrations, copies, stream_committed-copies,
}
use fell.Replication.Pipeline.{record_frame}

module _ (meta : PartitionMeta) where
  -- The opcode and the body of a record's frame: a header with the partition, its epoch, and the record's
  -- offset, timestamp and size, and the payload.
  abbrev pub framed : CommittedRecord → ℕ × List ℕ
  framed = record_frame (λ offset. meta.epoch) meta.topic meta.partition_idx

  sync_frames-sent_frames :
      (recs : List CommittedRecord)
      → sync_frames (λ offset. meta.epoch) meta.topic meta.partition_idx recs
        ≡ sent_frames (map framed recs)
  unfolding sync_frame
  sync_frames-sent_frames [] = refl
  sync_frames-sent_frames (r ∷ recs) =
      ap (◌++◌ (sync_frame meta.topic meta.partition_idx meta.epoch r))
        (sync_frames-sent_frames recs)

  -- A socket is given a frame for each committed record, in order, with the record's header and payload, as
  -- often as it stands in the list of the followers: none where it does not, once where one follower has
  -- it, and the whole run again for each further follower that is registered with it.
  pub stream_committed-sent_frames :
      (fd : ℕ) (fds : List (ℕ × ℕ)) (recs : List CommittedRecord)
      → bytes_for fd (stream_committed meta fds recs)
        ≡ copies (registrations fd fds) (sent_frames (map framed recs))
  stream_committed-sent_frames fd fds recs =
      stream_committed-copies meta fd recs fds
      ∙ ap (copies (registrations fd fds)) (sync_frames-sent_frames recs)
