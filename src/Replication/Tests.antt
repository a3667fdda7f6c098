-- ===== src/Replication/Tests.antt =====
-- Concrete runs of the replication code, and the theorems at concrete inputs.
use fell.Base.{
  ℕ, ◌≤◌, ◌<◌, ◌≡◌, ◌≢◌, refl, ◌⊎◌, inl, true, false, List, [], ◌∷◌, ◌++◌, some, length, ◌==◌,
  if◌then◌else◌, arith,
}
use fell.Wire.{read_be32}
use fell.Replication.Meta.{
  ReplicaState, PartitionMeta, leader, follower, assigned, new_meta, get, assign_roles,
  on_replica_ack,
}
use fell.Replication.Roles.{IsAssigned, assign_roles-IsAssigned}
use fell.Replication.Isr.{Pairwise, Advances, on_replica_ack-Advances}
use fell.Replication.Manager.{PendingAck, ReplicaManager, register_pending, worker_round}
use fell.Replication.Quorum.{AllWait, worker_round-AllWait, register_pending-AllWait}
use fell.Replication.Protocol.{LeaderElection}
use fell.Replication.Election.{handle_leader_election, handle_leader_election-cases}
use fell.Replication.Stream.{
  Call, Handled, kept, dropped, overran, call_at, frame_loop, sent_frames, calls_of,
  frame_loop-sent_frames, frame_loop_overruns,
}

abbrev orders : List ℕ
orders = 111 ∷ 45 ∷ 49 ∷ []

abbrev meta : PartitionMeta
meta = assigned 0 3 0 (new_meta orders 0)

assign_roles-IsAssigned_example :
    IsAssigned 1 3 1
      (new_meta orders 1)
      (get orders 1 (assign_roles 1 3 (orders ∷ []) (2 ∷ []) [])).0
unfolding get
assign_roles-IsAssigned_example =
    assign_roles-IsAssigned 1 3 orders 2 1 [] (omega arith) (omega arith) (omega arith)

abbrev partition : ℕ
partition = 21

-- A follower that is out of the ISR, four behind.
abbrev replicas : List ReplicaState
replicas =
    record { broker_id = 0; next_offset = 0; ack_offset = 10; last_seen_ms = 0; in_isr = true }
    ∷ record { broker_id = 1; next_offset = 0; ack_offset = 2; last_seen_ms = 100; in_isr = false }
    ∷ []

on_replica_ack-Advances_example :
    Pairwise (Advances 1 6 5 10) replicas (on_replica_ack 1 6 5 10 replicas)
on_replica_ack-Advances_example = on_replica_ack-Advances 1 6 5 10 replicas

-- An entry that the leader has committed and one of two followers has acknowledged.
abbrev entry : PendingAck
entry = record {
  offset = 4;
  ack_response = 1 ∷ 2 ∷ [];
  producer_fd = 30;
  leader_committed = true;
  isr_acked = 1;
  isr_required = 2;
  acked_followers = 1 ∷ [];
}

abbrev manager : ReplicaManager
manager = record {
  partition = meta;
  max_lag_messages = 1000;
  pending =
      entry
      ∷ record entry { offset = 9; leader_committed = false; isr_acked = 2; producer_fd = 31 }
      ∷ [];
  follower_fds = [];
  commit_queue = (9, record { offset = 9; timestamp_ms = 0; payload = [] } ∷ []) ∷ [];
}

manager-AllWait : AllWait manager.pending
manager-AllWait = (refl, (refl, tt))

worker_round-AllWait_example :
    ((worker_round manager).0 ≡ (31, 1 ∷ 2 ∷ []) ∷ [])
    × ((worker_round manager).1.pending ≡ entry ∷ [])
    × AllWait (worker_round manager).1.pending
worker_round-AllWait_example =
    worker_round-AllWait 9 (record { offset = 9; timestamp_ms = 0; payload = [] } ∷ []) [] manager
      refl manager-AllWait

register_pending-AllWait_example : AllWait (register_pending 12 (3 ∷ []) 32 manager).pending
register_pending-AllWait_example = register_pending-AllWait 12 (3 ∷ []) 32 manager manager-AllWait

abbrev claim : LeaderElection
claim = record {
  topic = orders;
  partition = 3;
  new_leader_id = 2;
  epoch = 7;
  committed_offset = 40;
}

handle_leader_election-cases_example :
    let after = handle_leader_election 1 (some 40) claim meta in
    ((0 < 7)
      × (40 ≤ 40)
      × (after.epoch ≡ 7)
      × (after.leader_id ≡ 2)
      × (claim.new_leader_id ≡ 1 → after.role ≡ leader)
      × (claim.new_leader_id ≢ 1 → after.role ≡ follower)
      × (after.replicas ≡ meta.replicas))
    ⊎ (((7 ≤ 0) ⊎ (40 < 40)) × (after ≡ meta))
handle_leader_election-cases_example = handle_leader_election-cases 1 40 claim meta

abbrev frames : List (ℕ × List ℕ)
frames = (4, 9 ∷ 9 ∷ []) ∷ (5, []) ∷ []

-- A handler that notes its calls and clears the buffer when it is called with opcode 5.
abbrev noting : Call → List Call → Handled (List Call)
noting call calls =
    if call.opcode == 5 then dropped (calls ++ (call ∷ [])) else kept (calls ++ (call ∷ []))

frame_loop-sent_frames_example :
    frame_loop noting 3 (sent_frames frames ++ (0 ∷ 0 ∷ [])) []
    ≡ overran (calls_of frames (0 ∷ 0 ∷ []))
frame_loop-sent_frames_example =
    frame_loop-sent_frames noting frames (0 ∷ 0 ∷ []) 3 [] (omega arith, (omega arith, tt))
      (inl (omega arith)) (omega arith)

abbrev huge : List ℕ
huge = 255 ∷ 255 ∷ 255 ∷ 252 ∷ 1 ∷ []

frame_loop_overruns_example :
    (length (call_at huge).bytes < (call_at huge).size)
    × (frame_loop noting 1 huge [] ≡ overran (call_at huge ∷ []))
unfolding read_be32
frame_loop_overruns_example =
    frame_loop_overruns noting 0 huge [] (call_at huge ∷ []) (omega arith) (omega arith)
      (omega arith) (omega arith) (inl refl)
