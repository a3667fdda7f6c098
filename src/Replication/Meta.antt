-- ===== src/Replication/Meta.antt =====
-- replication/partition_meta.cpp: the metadata of a topic-partition and the registry of them.
use fell.Base.{
  ℕ, zero, suc, ◌+◌, ◌-◌, ◌%◌, ◌/◌, ◌^◌, max, Bool, true, false, not, ◌&&◌, List, [], ◌∷◌, ◌++◌,
  none, some, ltb, leb, ◌==◌, if◌then◌else◌, find, put,
}

pub data PartitionRole : Type 0 where
  leader follower candidate : PartitionRole

pub record ReplicaState : Type 0 where
  pub broker_id : ℕ
  pub next_offset : ℕ
  pub ack_offset : ℕ
  pub last_seen_ms : ℕ
  pub in_isr : Bool

pub record PartitionMeta : Type 0 where
  pub topic : List ℕ
  pub partition_idx : ℕ
  pub role : PartitionRole
  pub leader_id : ℕ
  pub epoch : ℕ
  pub replicas : List ReplicaState

unfoldable pub isr_ids : List ReplicaState → List ℕ
isr_ids [] = []
isr_ids (r ∷ rs) = if r.in_isr then r.broker_id ∷ isr_ids rs else isr_ids rs

unfoldable pub isr_acked : ℕ → List ReplicaState → Bool
isr_acked offset [] = true
isr_acked offset (r ∷ rs) =
    if r.in_isr && ltb r.ack_offset offset then false else isr_acked offset rs

-- What `on_replica_ack` does to the replica that it finds.
abbrev pub acknowledged : ℕ → ℕ → ℕ → ReplicaState → ReplicaState
acknowledged acked_offset max_lag leader_committed r =
    let ack = max r.ack_offset acked_offset in
    record r {
      ack_offset = ack;
      in_isr =
          if not r.in_isr && leb ack leader_committed && leb (leader_committed - ack) max_lag
          then true
          else r.in_isr;
    }

-- `PartitionMeta::on_replica_ack`: only the first replica of that id changes.
unfoldable pub on_replica_ack : ℕ → ℕ → ℕ → ℕ → List ReplicaState → List ReplicaState
on_replica_ack broker_id acked_offset max_lag leader_committed [] = []
on_replica_ack broker_id acked_offset max_lag leader_committed (r ∷ rs) =
    if r.broker_id == broker_id
    then acknowledged acked_offset max_lag leader_committed r ∷ rs
    else r ∷ on_replica_ack broker_id acked_offset max_lag leader_committed rs

unfoldable pub leader_committed_offset : ℕ → List ReplicaState → ℕ
leader_committed_offset leader_id [] = 0
leader_committed_offset leader_id (r ∷ rs) =
    if r.broker_id == leader_id then r.ack_offset else leader_committed_offset leader_id rs

-- `tick_isr`: the difference of times is taken in uint64_t.
unfoldable pub tick_isr : ℕ → ℕ → ℕ → List ReplicaState → List ReplicaState
tick_isr leader_id now_ms timeout_ms [] = []
tick_isr leader_id now_ms timeout_ms (r ∷ rs) =
    let rest = tick_isr leader_id now_ms timeout_ms rs in
    if r.broker_id == leader_id
    then r ∷ rest
    else if r.in_isr && ltb timeout_ms ((now_ms + 2 ^ 64 - r.last_seen_ms) % 2 ^ 64)
    then record r { in_isr = false } ∷ rest
    else r ∷ rest

-- `std::to_string` of a uint16_t: at most five digits, without leading zeros.
abbrev pub digits : ℕ → ℕ → List ℕ → List ℕ
digits zero n later = later
digits (suc fuel) n later =
    let rest = digits fuel (n / 10) ((48 + n % 10) ∷ later) in
    if n / 10 == 0 then (48 + n % 10) ∷ later else rest

abbrev pub to_string : ℕ → List ℕ
to_string n = digits 5 n []

-- The character `-`.
abbrev pub dash : ℕ
dash = 45

unfoldable pub make_key : List ℕ → ℕ → List ℕ
make_key topic partition = topic ++ (dash ∷ to_string partition)

-- The registry's map.
abbrev pub Registry : Type 0
Registry = List (List ℕ × PartitionMeta)

-- The entry that `get` creates.
abbrev pub new_meta : List ℕ → ℕ → PartitionMeta
new_meta topic partition = record {
  topic = topic;
  partition_idx = partition;
  role = follower;
  leader_id = 0;
  epoch = 0;
  replicas = [];
}

-- `PartitionMetaRegistry::get`: the entry, and the registry in which it exists.
unfoldable pub get : List ℕ → ℕ → Registry → PartitionMeta × Registry
unfolding make_key
get topic partition reg = elim (find (make_key topic partition) reg) [
  | some m ↦ (m, reg)
  | none ↦ (new_meta topic partition, put (make_key topic partition) (new_meta topic partition) reg)
]

unfoldable pub epoch : List ℕ → ℕ → Registry → ℕ × Registry
unfolding get
epoch topic partition reg = let (m, reg') = get topic partition reg in (m.epoch, reg')

-- A write through the reference that `get` returned.
abbrev pub set : List ℕ → ℕ → PartitionMeta → Registry → Registry
set topic partition m reg = put (make_key topic partition) m reg

-- The replicas `rid`, `rid + 1`, and so on, all in the ISR.
abbrev pub fresh_replicas : ℕ → ℕ → List ReplicaState
fresh_replicas zero rid = []
fresh_replicas (suc n) rid =
    record { broker_id = rid; next_offset = 0; ack_offset = 0; last_seen_ms = 0; in_isr = true }
    ∷ fresh_replicas n (suc rid)

abbrev pub assigned : ℕ → ℕ → ℕ → PartitionMeta → PartitionMeta
assigned broker_id num_brokers p m = record m {
  leader_id = p % num_brokers;
  role = if p % num_brokers == broker_id then leader else follower;
  replicas = fresh_replicas num_brokers 0;
}

-- The body of the inner loop of `assign_roles`.
unfoldable pub assign_partition : ℕ → ℕ → List ℕ → ℕ → Registry → Registry
unfolding get
assign_partition broker_id num_brokers topic p reg =
    let (m, reg') = get topic p reg in set topic p (assigned broker_id num_brokers p m) reg'

-- The inner loop: `count` partitions from `p` on.
unfoldable pub assign_partitions : ℕ → ℕ → List ℕ → ℕ → ℕ → Registry → Registry
assign_partitions broker_id num_brokers topic p zero reg = reg
assign_partitions broker_id num_brokers topic p (suc count) reg =
    assign_partitions broker_id num_brokers topic (suc p) count
      (assign_partition broker_id num_brokers topic p reg)

-- The outer loop: a topic without a count has one partition.
unfoldable pub assign_topics : ℕ → ℕ → List (List ℕ) → List ℕ → Registry → Registry
assign_topics broker_id num_brokers [] counts reg = reg
assign_topics broker_id num_brokers (topic ∷ topics) [] reg =
    assign_topics broker_id num_brokers topics []
      (assign_partitions broker_id num_brokers topic 0 1 reg)
assign_topics broker_id num_brokers (topic ∷ topics) (count ∷ counts) reg =
    assign_topics broker_id num_brokers topics counts
      (assign_partitions broker_id num_brokers topic 0 count reg)

unfoldable pub assign_roles : ℕ → ℕ → List (List ℕ) → List ℕ → Registry → Registry
unfolding assign_topics
assign_roles broker_id num_brokers topics counts reg =
    if num_brokers == 0 then reg else assign_topics broker_id num_brokers topics counts reg
