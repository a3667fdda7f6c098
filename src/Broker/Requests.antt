-- ===== src/Broker/Requests.antt =====
-- What the handlers of broker/request_handler.cpp work on and give back. A handler takes the frame, what
-- it may change of the broker and the connection, and gives the reply with both. `cfg_` and `meta_reg_`
-- may be null; `meta_reg_->get` does not throw, so that the `catch` branches are dead.
use fell.Base.{ℕ, Bool, true, false, not, List, [], Option, none, some}
use fell.Frame.{FrameDecoder}
use fell.Storage.{StorageOptions}
use fell.Replication.Meta.{PartitionRole, leader, follower, candidate, Registry, get}
use fell.Broker.Topics.{Topics}

pub record BrokerAddr : Type 0 where
  pub broker_id : ℕ
  pub host : List ℕ
  pub repl_port : ℕ
  pub client_port : ℕ

-- What the handler reads of `ClusterConfig`. `acks_all` is `acks == -1`.
pub record ClusterConfig : Type 0 where
  pub broker_id : ℕ
  pub client_port : ℕ
  pub peers : List BrokerAddr
  pub acks_all : Bool

-- `ConnectionState`, with the fields of its `OutboundState`.
pub record ConnectionState : Type 0 where
  pub fd : ℕ
  pub decoder : FrameDecoder
  pub sub_topic : List ℕ
  pub sub_partition : ℕ
  pub fetch_offset : ℕ
  pub subscribed : Bool
  pub rr_counter : ℕ
  pub outbound : List ℕ
  pub write_offset : ℕ
  pub read_disabled : Bool

-- What the handler works on: the topics, the metadata, the configuration, whether it was given a
-- callback to defer acknowledgements, and its counters.
pub record Node : Type 0 where
  pub topics : Topics
  pub options : StorageOptions
  pub cfg : Option ClusterConfig
  pub meta_reg : Option Registry
  pub defers : Bool
  pub publish_requests_total : ℕ
  pub publish_busy_total : ℕ
  pub bytes_published_total : ℕ

-- An acknowledgement handed to the callback, with its topic, partition and offset.
pub record Deferred : Type 0 where
  pub topic : List ℕ
  pub partition : ℕ
  pub offset : ℕ
  pub ack_resp : List ℕ
  pub producer_fd : ℕ

pub record Reply : Type 0 where
  pub bytes : List ℕ
  pub deferred : List Deferred
  pub node : Node
  pub conn : ConnectionState

abbrev pub reply : List ℕ → Node → ConnectionState → Reply
reply bytes node conn = record { bytes = bytes; deferred = []; node = node; conn = conn }

-- The check `meta_reg_->get(topic_name, partition).role != Leader`, which creates the entry.
abbrev pub is_leader : PartitionRole → Bool
is_leader leader = true
is_leader follower = false
is_leader candidate = false

unfoldable pub denies : List ℕ → ℕ → Node → Bool × Node
unfolding get
denies topic partition node = elim node.meta_reg [
  | none ↦ (false, node)
  | some reg ↦
      let (m, reg') = get topic partition reg in
      (not (is_leader m.role), record node { meta_reg = some reg' })
]
