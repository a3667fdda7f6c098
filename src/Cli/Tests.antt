-- ===== src/Cli/Tests.antt =====
-- A metadata request for a topic of two partitions at one of three brokers, and what the tool reads.
use fell.Base.{ℕ, ◌≡◌, refl, true, List, [], ◌∷◌, none, some, replicate, arith}
use fell.Storage.{default_options}
use fell.Frame.{Frame, encode_frame}
use fell.Replication.Meta.{Registry, get}
use fell.Broker.Protocol.{codes, op_metadata_req, op_metadata_resp}
use fell.Broker.Topics.{num_partitions}
use fell.Broker.Requests.{BrokerAddr, ClusterConfig, ConnectionState, Node}
use fell.Broker.Admin.{handle_metadata_req}
use fell.Cli.{fetch_metadata}
use fell.Cli.Roundtrip.{IsAddress, info, fetch_metadata-handle_metadata_req}

abbrev request : Frame
request = record { op = op_metadata_req; payload = 1 ∷ 111 ∷ replicate 254 0 }

abbrev peer : BrokerAddr
peer = record { broker_id = 1; host = codes "b1"; repl_port = 8701; client_port = 7701 }

peer-IsAddress : IsAddress peer
peer-IsAddress = record { id_u32 = omega arith; host_u8 = omega arith; port_u16 = omega arith }

abbrev config : ClusterConfig
config = record { broker_id = 0; client_port = 7700; peers = peer ∷ []; acks_all = true }

abbrev registry : Registry
registry = []

abbrev node : Node
node = record {
  topics = (111 ∷ [], none ∷ none ∷ []) ∷ [];
  options = default_options;
  cfg = some config;
  meta_reg = some registry;
  defers = true;
  publish_requests_total = 0;
  publish_busy_total = 0;
  bytes_published_total = 0;
}

abbrev conn : ConnectionState
conn = record {
  fd = 9;
  decoder = record { buf = []; max_frame_size = 1024; read_idx = 0 };
  sub_topic = [];
  sub_partition = 0;
  fetch_offset = 0;
  subscribed = true;
  rr_counter = 0;
  outbound = [];
  write_offset = 0;
  read_disabled = true;
}

fetch_metadata-handle_metadata_req_example :
    (payload : List ℕ) × ((handle_metadata_req request node conn).bytes
      ≡ encode_frame op_metadata_resp payload)
    × (fetch_metadata op_metadata_resp payload
        ≡ some (record {
          brokers =
              record { id = 0; host = codes "127.0.0.1"; client_port = 7700 } ∷ info peer ∷ [];
          partition_leaders = (0, 0) ∷ (1, 0) ∷ [];
        }))
unfolding num_partitions get
fetch_metadata-handle_metadata_req_example =
    fetch_metadata-handle_metadata_req request node conn config registry (omega arith) refl refl
      (omega arith) (omega arith) (omega arith) (peer-IsAddress, tt)
      (omega arith, (omega arith, tt))
