-- ===== src/Replication/SyncTests.antt =====
-- Concrete runs of the replication between a leader and a follower, and the theorems applied to them.
use fell.Base.{ℕ, ◌≡◌, ◌≢◌, refl, inl, Bool, true, List, [], ◌∷◌, ◌++◌, none, some, map, arith}
use fell.Storage.{StoredMessage, default_options}
use fell.Storage.Format.{log_of}
use fell.Storage.Reader.{ok}
use fell.Storage.Index.Load.{index_of}
use fell.Storage.Index.Lookup.{due_entries}
use fell.Storage.Store.{PartitionStore}
use fell.Storage.Store.Growth.{partition_log}
use fell.Storage.Samples.{first, second, two, first-IsStorable, store_with, new-Inv}
use fell.Replication.Meta.{PartitionMeta, new_meta, candidate}
use fell.Replication.Streaming.{stream_committed, bytes_for, copies}
use fell.Replication.Streamed.{framed, stream_committed-sent_frames}
use fell.Replication.Stream.{sent_frames}
use fell.Replication.Client.{
  ReplicationClient, connect_to_leader, on_replica_sync, disconnect, ack_of,
}
use fell.Replication.Follow.{header_of}
use fell.Replication.Settle.{Ready}
use fell.Replication.Convergence.{follow, kept, follow-kept}
use fell.Replication.Pipeline.{pipelined_refused}
use fell.Replication.Candidate.{candidate_stays}

abbrev orders : List ℕ
orders = 111 ∷ 45 ∷ 49 ∷ []

-- A leader's partition with two committed records.
abbrev leading : PartitionStore
leading = record (store_with [] 2 0) {
  active = record { base_offset = 0; log = log_of two; index = index_of (due_entries 0 0 two) };
  writer = record { base_offset = 0; next_offset = 2; bytes_written = 43 };
  committed_offset = 2;
}

abbrev always_seven : ℕ → ℕ
always_seven offset = 7

abbrev meta : PartitionMeta
meta = new_meta orders 3

-- A socket that two followers are registered with.
stream_committed-sent_frames_example :
    bytes_for 31 (stream_committed meta ((1, 31) ∷ (3, 30) ∷ (2, 31) ∷ []) two)
    ≡ copies 2 (sent_frames (map (framed meta) two))
stream_committed-sent_frames_example =
    stream_committed-sent_frames meta 31 ((1, 31) ∷ (3, 30) ∷ (2, 31) ∷ []) two

abbrev follower_2 : ReplicationClient
follower_2 = record {
  topic = orders;
  partition = 3;
  broker_id = 2;
  fd = some 40;
  recv_buf = [];
  out_acks = [];
  callbacks = [];
}

abbrev always : ℕ → Bool
always i = true

empty-Ready : Ready default_options (store_with [] 0 0)
empty-Ready = record {
  recs = [];
  inv = new-Inv;
  idle = refl;
  quiet = refl;
  running = refl;
  options = refl;
}

abbrev one : List StoredMessage
one = first ∷ []

follow-kept_example :
    (t : PartitionStore) × (d : ReplicationClient) × (news : List StoredMessage) × (follow always
        (λ i. 9)
        orders
        3
        7
        one
        (store_with [] 0 0)
        follower_2
      ≡ ok (t, d))
    × (partition_log t ≡ log_of news)
    × (map kept news ≡ map kept one)
    × (d.fd ≡ follower_2.fd)
    × (d.out_acks ≡ ack_of 2 (header_of orders 3 7 first) ∷ [])
follow-kept_example =
    follow-kept always (λ j. refl) default_options (omega arith) (λ i. 9) (λ i. omega arith) orders
      3 7 (omega arith) (omega arith) (omega arith) one (store_with [] 0 0) follower_2 empty-Ready
      (refl, tt) ((first-IsStorable, omega arith), tt)

pipelined_refused_example :
    (r : PartitionStore) × (d : ReplicationClient) × (on_replica_sync 9
        (header_of orders 3 7 first)
        (first.payload ++ [])
        (some (store_with [] 0 0))
        follower_2
      ≡ some (some r, d))
    × (r.queue ≢ [])
    × (d.fd ≡ some 40)
    × (on_replica_sync 9 (header_of orders 3 7 second) [] (some r) d ≡ some (some r, disconnect d))
pipelined_refused_example =
    pipelined_refused 9 (header_of orders 3 7 first) first.payload (store_with [] 0 0) follower_2 9
      (header_of orders 3 7 second) [] refl refl refl refl (omega arith) (omega arith) refl

abbrev idle_client : ReplicationClient
idle_client = record follower_2 { fd = none }

candidate_stays_example :
    let after = (connect_to_leader (some 4) ((0, none) ∷ []) meta idle_client).meta in
    (after.role ≡ candidate)
    × (after.leader_id ≡ 0)
    × (after.epoch ≡ 1)
    × (connect_to_leader (some 5) ((0, none) ∷ []) after idle_client
        ≡ record { sends = []; client = idle_client; meta = after })
candidate_stays_example =
    candidate_stays 4 5 ((0, none) ∷ []) idle_client meta refl refl (inl (0, refl))

-- The two records of the leader in one buffer.
abbrev empty : PartitionStore
empty = store_with [] 0 0
