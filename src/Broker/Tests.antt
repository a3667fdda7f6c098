-- ===== src/Broker/Tests.antt =====
-- Concrete runs of the broker, and the theorems at concrete inputs.
use fell.Frame.{Frame}
use fell.Broker.Wiring.{Broker, initialize_replication}
use fell.Broker.Startup.{Wired, AllServed, initialize_replication-Wired}
use fell.Base.{◌+◌, ◌*◌, ◌<◌, ◌≤◌, ℕ, ◌≡◌, refl, ◌⊎◌, true, false, List, [], ◌∷◌, none, some, arith}
use fell.Storage.{default_options}
use fell.Storage.Store.{PartitionStore, append}
use fell.Storage.Store.Inv.{accepted_store}
use fell.Storage.Recovery.{open_store}
use fell.Broker.Protocol.{codes, encode_ack, encode_error, busy, internal_error}
use fell.Broker.Topics.{Disk, get_partition, list_topics}
use fell.Broker.Requests.{Node, ConnectionState, denies}
use fell.Broker.Publish.{publish_to, waits_for_all}
use fell.Broker.Outbound.{Interest, wrote, on_writable}
use fell.Broker.Config.{Ini, no_keys, read_peer, stoul}
use fell.Broker.Config.Peers.{PeerText}
use fell.Broker.Routing.{publish_to-cases}
use fell.Broker.Sending.{waiting, Tidy, on_writable-waiting}

abbrev conn : ConnectionState
conn = record {
  fd = 9;
  decoder = record { buf = []; max_frame_size = 1024; read_idx = 0 };
  sub_topic = [];
  sub_partition = 0;
  fetch_offset = 0;
  subscribed = false;
  rr_counter = 5;
  outbound = 1 ∷ 2 ∷ 3 ∷ [];
  write_offset = 1;
  read_disabled = false;
}

abbrev both : Interest
both = record { read = true; write = true }

conn-Tidy : Tidy conn both
conn-Tidy = record { inside = omega arith; watched = λ h. refl; reads = refl }

on_writable-waiting_example :
    (kept : ConnectionState) × (i : Interest) × (on_writable (wrote 1) conn both ≡ some (kept, i))
    × (2 ∷ waiting kept ≡ 2 ∷ 3 ∷ [])
    × Tidy kept i
on_writable-waiting_example = on_writable-waiting 1 conn both conn-Tidy (omega arith) (omega arith)

abbrev no_files : Disk
no_files name partition = []

abbrev logs : List ℕ
logs = codes "logs"

abbrev round_robin : ℕ
round_robin = 65535

abbrev store : PartitionStore
store = open_store 0 default_options []

abbrev node : Node
node = record {
  topics = (logs, some store ∷ []) ∷ [];
  options = default_options;
  cfg = none;
  meta_reg = none;
  defers = true;
  publish_requests_total = 0;
  publish_busy_total = 0;
  bytes_published_total = 0;
}

abbrev Roomy : Type 0
Roomy = (store.shutdown ≡ false) × (0 < 65536) × (0 + 1 ≤ 64 * 1024 * 1024)

publish_to-cases_example :
    let r = publish_to 3 logs 0 (8 ∷ []) node conn in
    (get_partition logs 0 r.node.topics ≡ some (append 3 (8 ∷ []) store).1)
    × (((store.shutdown ≡ true)
          × (r.deferred ≡ [])
          × (r.bytes ≡ encode_error internal_error (codes "Partition is closed")))
        ⊎ ((store.shutdown ≡ false)
            × ((65536 ≤ 0) ⊎ (64 * 1024 * 1024 < 0 + 1))
            × (r.deferred ≡ [])
            × (r.bytes ≡ encode_error busy (codes "Partition append queue is full")))
        ⊎ (Roomy
            × (waits_for_all node ≡ false)
            × (r.deferred ≡ [])
            × (r.bytes ≡ encode_ack store.next_offset)
            × ((append 3 (8 ∷ []) store).1 ≡ accepted_store 3 (8 ∷ []) store))
        ⊎ (Roomy
            × (waits_for_all node ≡ true)
            × (r.bytes ≡ [])
            × (r.deferred
                ≡ record {
                  topic = logs;
                  partition = 0;
                  offset = store.next_offset;
                  ack_resp = encode_ack store.next_offset;
                  producer_fd = 9;
                }
                  ∷ [])
            × ((append 3 (8 ∷ []) store).1 ≡ accepted_store 3 (8 ∷ []) store)))
unfolding denies get_partition open_store
publish_to-cases_example = publish_to-cases 3 logs 0 (8 ∷ []) node conn store refl refl

-- Broker 0 of three, with a topic of two partitions.
abbrev new_broker : Broker
new_broker = record {
  broker_id = 0;
  peers = 2;
  max_lag_messages = 1000;
  topics = (111 ∷ [], none ∷ none ∷ []) ∷ [];
  meta_reg = [];
  replica_managers = [];
  replica_clients = [];
  commit_callbacks = [];
  response_queue = [];
}

initialize_replication-Wired_example :
    Wired (initialize_replication new_broker)
    × AllServed (list_topics new_broker.topics) (initialize_replication new_broker)
initialize_replication-Wired_example = initialize_replication-Wired new_broker refl refl

-- Two requests that the broker does not know, cut between them.
abbrev unknown : Frame
unknown = record { op = 99; payload = [] }

-- The entry `7 = a.b:8701:7701`.
abbrev peer : PeerText
peer = record { id = codes "7"; host = codes "a.b"; repl = codes "8701"; client = codes "7701" }

abbrev peer_file : Ini
peer_file = record no_keys { id = some 7; peers = (codes "7", codes "a.b:8701:7701") ∷ [] }

-- An entry without the second port is passed over, and one whose port is no number stops the start.
peers_run :
    (read_peer (codes "7") (codes "a.b:8701") ≡ some [])
    × (read_peer (codes "7") (codes "a.b:x:7701") ≡ none)
unfolding read_peer stoul
peers_run = (refl, refl)
