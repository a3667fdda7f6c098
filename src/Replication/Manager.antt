-- ===== src/Replication/Manager.antt =====
-- replication/replica_manager.cpp: the acknowledgements to producers that wait for a quorum. A socket
-- is a number and a response a list of bytes. Each method is a step under its locks, and a round of
-- `worker_loop` up to the streaming is one step. The counts of acknowledgements stay below 2 ^ 32, since a
-- follower is counted once for an entry.
use fell.Base.{
  ℕ, ◌+◌, ◌-◌, ◌%◌, ◌^◌, max, Bool, true, false, not, ◌&&◌, ◌||◌, List, [], ◌∷◌, ◌++◌, length,
  select, ltb, leb, ◌==◌, if◌then◌else◌,
}
use fell.Storage.{CommittedRecord}
use fell.Replication.Meta.{
  PartitionMeta, ReplicaState, isr_ids, on_replica_ack, leader_committed_offset,
}

pub record PendingAck : Type 0 where
  pub offset : ℕ
  pub ack_response : List ℕ
  pub producer_fd : ℕ
  pub leader_committed : Bool
  pub isr_acked : ℕ
  pub isr_required : ℕ
  pub acked_followers : List ℕ

pub record ReplicaManager : Type 0 where
  pub partition : PartitionMeta
  pub max_lag_messages : ℕ
  pub pending : List PendingAck
  pub follower_fds : List (ℕ × ℕ)
  pub commit_queue : List (ℕ × List CommittedRecord)

abbrev pub Response : Type 0
Response = ℕ × List ℕ

-- `register_pending`: followers only are counted, in `int`, and not below zero.
unfoldable pub register_pending : ℕ → List ℕ → ℕ → ReplicaManager → ReplicaManager
unfolding isr_ids
register_pending offset ack_response producer_fd s = record s {
  pending =
      s.pending
      ++ (record {
        offset = offset;
        ack_response = ack_response;
        producer_fd = producer_fd;
        leader_committed = false;
        isr_acked = 0;
        isr_required = length (isr_ids s.partition.replicas) - 1;
        acked_followers = [];
      }
          ∷ []);
}

unfoldable pub enqueue_committed : ℕ → List CommittedRecord → ReplicaManager → ReplicaManager
enqueue_committed base_offset records s = record s {
  commit_queue = s.commit_queue ++ ((base_offset, records) ∷ []);
}

abbrev pub set_fd : ℕ → ℕ → List (ℕ × ℕ) → List (ℕ × ℕ)
set_fd broker_id fd [] = (broker_id, fd) ∷ []
set_fd broker_id fd ((b, f) ∷ fds) =
    if b == broker_id then (b, fd) ∷ fds else (b, f) ∷ set_fd broker_id fd fds

unfoldable pub set_follower_fd : ℕ → ℕ → ReplicaManager → ReplicaManager
set_follower_fd broker_id fd s = record s { follower_fds = set_fd broker_id fd s.follower_fds }

abbrev pub quorum_met : PendingAck → Bool
quorum_met pa =
    if pa.isr_required == 0
    then pa.leader_committed
    else (pa.leader_committed && leb pa.isr_required pa.isr_acked)

-- `try_release`: the response is moved out of the entry.
unfoldable pub try_release : PendingAck → List Response × PendingAck
try_release pa =
    if quorum_met pa
    then (
      (if length pa.ack_response == 0 then [] else ((pa.producer_fd, pa.ack_response) ∷ [])),
      record pa { ack_response = [] },
    )
    else ([], pa)

-- The predicate of `remove_if`.
abbrev pub is_done : PendingAck → Bool
is_done pa = pa.leader_committed && leb pa.isr_required pa.isr_acked

abbrev pub member : ℕ → List ℕ → Bool
member x [] = false
member x (y ∷ ys) = (x == y) || member x ys

abbrev pub acked_by : ℕ → PendingAck → PendingAck
acked_by follower_id pa = record pa {
  isr_acked = pa.isr_acked + 1;
  acked_followers = follower_id ∷ pa.acked_followers;
}

-- The loop of `on_replica_ack` over the entries, before those that are done are removed.
unfoldable pub ack_loop : ℕ → ℕ → List PendingAck → List Response × List PendingAck
unfolding try_release
ack_loop follower_id acked_offset [] = ([], [])
ack_loop follower_id acked_offset (pa ∷ pas) =
    let (to_send, rest) = ack_loop follower_id acked_offset pas in
    let (ready, pa') = try_release (acked_by follower_id pa) in
    if ltb pa.offset acked_offset && not (member follower_id pa.acked_followers)
    then (ready ++ to_send, pa' ∷ rest)
    else (to_send, pa ∷ rest)

-- `ReplicaManager::on_replica_ack`: what to send, and the state.
unfoldable pub release_on_ack : ℕ → ℕ → ReplicaManager → List Response × ReplicaManager
unfolding ack_loop on_replica_ack leader_committed_offset
release_on_ack follower_id acked_offset s =
    let (to_send, marked) = ack_loop follower_id acked_offset s.pending in
    (
      to_send,
      record s {
        partition = record s.partition {
          replicas =
              on_replica_ack follower_id acked_offset s.max_lag_messages
                (leader_committed_offset s.partition.leader_id s.partition.replicas)
                s.partition.replicas;
        };
        pending = select (λ pa. not (is_done pa)) marked;
      },
    )

-- The loop of `worker_loop` over the entries: `count` records were committed from `base_offset` on,
-- with the end of the range taken in uint64_t.
unfoldable pub commit_loop : ℕ → ℕ → List PendingAck → List Response × List PendingAck
unfolding try_release
commit_loop base_offset count [] = ([], [])
commit_loop base_offset count (pa ∷ pas) =
    let (to_send, rest) = commit_loop base_offset count pas in
    let (ready, pa') = try_release (record pa { leader_committed = true }) in
    if leb base_offset pa.offset && ltb pa.offset ((base_offset + count) % 2 ^ 64)
    then (ready ++ to_send, pa' ∷ rest)
    else (to_send, pa ∷ rest)

abbrev pub raise_first : ℕ → ℕ → List ReplicaState → List ReplicaState
raise_first leader_id committed [] = []
raise_first leader_id committed (r ∷ rs) =
    if r.broker_id == leader_id
    then record r { ack_offset = max r.ack_offset committed } ∷ rs
    else r ∷ raise_first leader_id committed rs

abbrev last_committed : ℕ → List CommittedRecord → ℕ
last_committed offset [] = offset
last_committed offset (m ∷ ms) = last_committed m.offset ms

-- The leader's own replica state after the records were committed.
unfoldable pub note_committed : List CommittedRecord → PartitionMeta → PartitionMeta
note_committed [] m = m
note_committed (rec ∷ recs) m = record m {
  replicas = raise_first m.leader_id (last_committed rec.offset recs + 1) m.replicas;
}

-- A round of `worker_loop` up to the streaming: the responses for the callback.
unfoldable pub worker_round : ReplicaManager → List Response × ReplicaManager
unfolding commit_loop note_committed
worker_round s = elim s.commit_queue [
  | [] ↦ ([], s)
  | (base_offset, records) ∷ queue ↦
      let (to_send, marked) = commit_loop base_offset (length records) s.pending in
      (
        to_send,
        record s {
          partition = note_committed records s.partition;
          pending = select (λ pa. not (is_done pa)) marked;
          commit_queue = queue;
        },
      )
]
