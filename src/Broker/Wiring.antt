-- ===== src/Broker/Wiring.antt =====
-- How broker/broker.cpp ties the parts together: which partition has a replica manager and which a
-- replication client, and where the callbacks lead. A manager has a reference to the metadata in the
-- registry: its copy is taken from there before a call and put back after it.
use fell.Base.{
  ℕ, zero, suc, ◌+◌, ◌%◌, ◌^◌, List, [], ◌∷◌, ◌++◌, Option, none, some, map, find, put,
  if◌then◌else◌,
}
use fell.Storage.{CommittedRecord}
use fell.Storage.Store.{PartitionStore}
use fell.Replication.Meta.{PartitionMeta, Registry, get, assign_roles, dash, to_string}
use fell.Replication.Manager.{
  ReplicaManager, Response, release_on_ack, set_follower_fd, register_pending, enqueue_committed,
}
use fell.Replication.Streaming.{worker_step}
use fell.Replication.Client.{ReplicationClient}
use fell.Broker.Requests.{is_leader}
use fell.Broker.Topics.{Topics, get_partition, list_topics}

-- The fields of `Broker` that replication works on. `commit_callbacks` has the key of each partition
-- whose store calls its manager.
pub record Broker : Type 0 where
  pub broker_id : ℕ
  pub peers : ℕ
  pub max_lag_messages : ℕ
  pub topics : Topics
  pub meta_reg : Registry
  pub replica_managers : List (List ℕ × ReplicaManager)
  pub replica_clients : List (List ℕ × ReplicationClient)
  pub commit_callbacks : List (List ℕ)
  pub response_queue : List Response

unfoldable pub replication_key : List ℕ → ℕ → List ℕ
replication_key topic partition = topic ++ (dash ∷ to_string partition)

unfoldable pub post_response : Response → Broker → Broker
post_response r b = record b { response_queue = b.response_queue ++ (r ∷ []) }

abbrev pub post_responses : List Response → Broker → Broker
post_responses [] b = b
post_responses (r ∷ rs) b = post_responses rs (post_response r b)

abbrev pub new_manager : PartitionMeta → ℕ → ReplicaManager
new_manager meta max_lag = record {
  partition = meta;
  max_lag_messages = max_lag;
  pending = [];
  follower_fds = [];
  commit_queue = [];
}

abbrev pub new_client : List ℕ → ℕ → ℕ → ReplicationClient
new_client topic partition broker_id = record {
  topic = topic;
  partition = partition;
  broker_id = broker_id;
  fd = none;
  recv_buf = [];
  out_acks = [];
  callbacks = [];
}

abbrev pub with_callback : List ℕ → Option PartitionStore → List (List ℕ) → List (List ℕ)
with_callback key none keys = keys
with_callback key (some p) keys = key ∷ keys

unfoldable pub get_or_create_replica_manager : List ℕ → ℕ → Broker → Broker
unfolding replication_key get get_partition
get_or_create_replica_manager topic partition b =
    let key = replication_key topic partition in
    let (meta, reg) = get topic partition b.meta_reg in
    elim (find key b.replica_managers) [
      | some rm ↦ b
      | none ↦ record b {
        meta_reg = reg;
        commit_callbacks =
            with_callback key (get_partition topic partition b.topics) b.commit_callbacks;
        replica_managers = put key (new_manager meta b.max_lag_messages) b.replica_managers;
      }
    ]

unfoldable pub get_or_create_replication_client : List ℕ → ℕ → Broker → Broker
unfolding replication_key
get_or_create_replication_client topic partition b =
    let key = replication_key topic partition in
    elim (find key b.replica_clients) [
      | some rc ↦ b
      | none ↦ record b {
        replica_clients = put key (new_client topic partition b.broker_id) b.replica_clients;
      }
    ]

-- A manager as it is now: with the registry's metadata.
abbrev pub current : ReplicaManager → Option PartitionMeta → ReplicaManager
current rm none = rm
current rm (some meta) = record rm { partition = meta }

abbrev pub put_manager : List ℕ → ReplicaManager → Broker → Broker
put_manager key rm b = record b {
  replica_managers = put key rm b.replica_managers;
  meta_reg = put key rm.partition b.meta_reg;
}

-- The callback for a follower's acknowledgement, which `init_broker_` sets.
unfoldable pub on_ack : ℕ → ℕ → List ℕ → ℕ → Broker → Broker
unfolding replication_key release_on_ack post_response
on_ack follower_id acked_offset topic partition b =
    let key = replication_key topic partition in
    elim (find key b.replica_managers) [
      | none ↦ b
      | some rm ↦
          let (to_send, after) =
            release_on_ack follower_id acked_offset (current rm (find key b.meta_reg)) in
          post_responses to_send (put_manager key after b)
    ]

-- The callback for a follower's fetch request.
unfoldable pub on_fetch_log : ℕ → List ℕ → ℕ → ℕ → Broker → Broker
unfolding replication_key set_follower_fd
on_fetch_log follower_id topic partition fd b =
    let key = replication_key topic partition in
    elim (find key b.replica_managers) [
      | none ↦ b
      | some rm ↦
          put_manager key (set_follower_fd follower_id fd (current rm (find key b.meta_reg))) b
    ]

-- The commit callback that `get_or_create_replica_manager` sets in the store.
unfoldable pub on_commit : List ℕ → ℕ → List CommittedRecord → Broker → Broker
unfolding enqueue_committed
on_commit key base_offset records b = elim (find key b.replica_managers) [
  | none ↦ b
  | some rm ↦
      put_manager key (enqueue_committed base_offset records (current rm (find key b.meta_reg))) b
]

-- A round of a manager's worker thread, with the callback that it posts responses to: the bytes for
-- followers, and the broker.
unfoldable pub run_worker : List ℕ → Broker → List (ℕ × List ℕ) × Broker
unfolding worker_step post_response
run_worker key b = elim (find key b.replica_managers) [
  | none ↦ ([], b)
  | some rm ↦
      let (to_send, streamed, after) = worker_step (current rm (find key b.meta_reg)) in
      (streamed, post_responses to_send (put_manager key after b))
]

-- The callback with which the request handler defers an acknowledgement.
unfoldable pub on_defer : List ℕ → ℕ → ℕ → List ℕ → ℕ → Broker → Broker
unfolding replication_key get_or_create_replica_manager register_pending
on_defer topic partition offset ack_resp producer_fd b =
    let key = replication_key topic partition in
    let created = get_or_create_replica_manager topic partition b in
    elim (find key created.replica_managers) [
      | none ↦ created
      | some rm ↦
          put_manager key
            (register_pending offset ack_resp producer_fd (current rm (find key created.meta_reg)))
            created
    ]

-- The body of the loops of `initialize_replication`.
unfoldable pub start_partition : List ℕ → ℕ → Broker → Broker
unfolding get get_or_create_replica_manager get_or_create_replication_client
start_partition topic partition b =
    let (meta, reg) = get topic partition b.meta_reg in
    let seen : Broker = record b { meta_reg = reg } in
    if is_leader meta.role
    then get_or_create_replica_manager topic partition seen
    else get_or_create_replication_client topic partition seen

unfoldable pub start_partitions : List ℕ → ℕ → ℕ → Broker → Broker
unfolding start_partition
start_partitions topic partition zero b = b
start_partitions topic partition (suc count) b =
    start_partitions topic (suc partition) count (start_partition topic partition b)

unfoldable pub start_topics : List (List ℕ × ℕ) → Broker → Broker
unfolding start_partitions
start_topics [] b = b
start_topics ((topic, count) ∷ topics) b = start_topics topics (start_partitions topic 0 count b)

unfoldable pub initialize_replication : Broker → Broker
unfolding list_topics assign_roles start_topics
initialize_replication b =
    let topics = list_topics b.topics in
    start_topics topics (record b {
      meta_reg =
          assign_roles b.broker_id ((1 + b.peers) % 2 ^ 32) (map (λ t. t.0) topics)
            (map (λ t. t.1) topics) b.meta_reg;
    })
