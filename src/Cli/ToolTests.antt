-- ===== src/Cli/ToolTests.antt =====
-- Concrete runs of the producer and the consumer, and the theorems at concrete inputs.
use fell.Base.{
  ℕ, zero, suc, ◌≤◌, ◌<◌, ◌≡◌, refl, inl, inr, true, false, List, [], ◌∷◌, none, some, length, take,
  subst, map, arith,
}
use fell.Wire.{write_be64, write_be32}
use fell.Storage.Format.{log_of, header_bytes}
use fell.Storage.Index.Load.{index_of}
use fell.Storage.Index.Lookup.{due_entries}
use fell.Storage.{default_options}
use fell.Storage.Samples.{two, two-IsStorable, store_with}
use fell.Storage.Store.{PartitionStore}
use fell.Storage.Store.Inv.{Holds}
use fell.Broker.Protocol.{codes, op_ack, op_publish_v2}
use fell.Broker.Topics.{num_partitions, get_partition}
use fell.Broker.Requests.{Node, ConnectionState, denies}
use fell.Broker.Publish.{publish_to, handle_publish_v2}
use fell.Broker.Consume.{resolve}
use fell.Cli.{Metadata, BrokerInfo, leader_in, broker_in}
use fell.Cli.Requests.{publish_request}
use fell.Cli.Consumer.{Options, consume, start_at, done}
use fell.Cli.Consumer.Turns.{IsLog}
use fell.Cli.Consumer.Served.{Visit, session_of, consume-served}
use fell.Cli.Consumer.Answers.{Moment, Keeps, AnswersFrom, one_segment-AnswersFrom}
use fell.Cli.Producer.{Message, Attempt, choose_partition, send_message, acked, gave_up, pending}
use fell.Cli.Producer.Routing.{counted, handle_publish_v2-publish_request}
use fell.Cli.Producer.Retries.{Drops, send_message_tries}

abbrev store : PartitionStore
store = record (store_with [] 2 0) {
  active = record { base_offset = 0; log = log_of two; index = index_of (due_entries 0 0 two) };
  writer = record { base_offset = 0; next_offset = 2; bytes_written = length (log_of two) };
  committed_offset = 2;
}

abbrev node : Node
node = record {
  topics = (codes "logs", some store ∷ []) ∷ [];
  options = default_options;
  cfg = none;
  meta_reg = none;
  defers = false;
  publish_requests_total = 0;
  publish_busy_total = 0;
  bytes_published_total = 0;
}

abbrev conn : ConnectionState
conn = record {
  fd = 9;
  decoder = record { buf = []; max_frame_size = 1024; read_idx = 0 };
  sub_topic = [];
  sub_partition = 0;
  fetch_offset = 0;
  subscribed = false;
  rr_counter = 0;
  outbound = [];
  write_offset = 0;
  read_disabled = false;
}

abbrev moment : Moment
moment = record { now = 9; disk = λ topic partition. []; node = node; conn = conn }

abbrev options : Options
options = record { topic = codes "logs"; partition = 0; count = some 2 }

two-IsLog : IsLog two
two-IsLog = record {
  consecutive = (refl, (refl, tt));
  storable = two-IsStorable;
  small = omega arith;
}

store-Holds : Holds store.active two
store-Holds = record {
  log = refl;
  index = refl;
  consecutive = (refl, (refl, tt));
  storable = two-IsStorable;
}

store-AnswersFrom : AnswersFrom two store
unfolding header_bytes write_be64 write_be32
store-AnswersFrom =
    one_segment-AnswersFrom store two [] refl refl refl store-Holds (inl refl) (omega arith)

moment-Keeps : Keeps options two moment
unfolding resolve num_partitions get_partition denies
moment-Keeps n p e =
    let same : store ≡ p = ground (arith, e) in subst (AnswersFrom two) same store-AnswersFrom

-- No leader at first, and then one that answers two fetches.
abbrev visits : List Visit
visits =
    none
    ∷ some (λ request. some (record { op = op_ack; payload = write_be64 0 }), moment ∷ moment ∷ [])
    ∷ []

consume-served_example :
    let (c, left) = consume options (map session_of visits) (start_at 0) in
    (c.printed ≡ take (length c.printed) two)
    × (length c.printed ≤ 2)
    × (left ≡ done → length c.printed ≡ 2)
consume-served_example =
    consume-served options two two-IsLog (omega arith) (omega arith) (omega arith) 0 visits
      (omega arith) (tt, ((moment-Keeps, (moment-Keeps, tt)), tt))

abbrev message : Message
message = record {
  topic = codes "logs";
  key = codes "k";
  payload = 7 ∷ 8 ∷ [];
  retry_on_busy = true;
}

handle_publish_v2-publish_request_example :
    let p = (choose_partition (codes "k") 0 1).0 in
    (p < 1)
    × (bytes : List ℕ) × (publish_request (codes "logs") p (codes "k") (7 ∷ 8 ∷ []) ≡ some bytes)
    × (handle_publish_v2 5 (record { op = op_publish_v2; payload = bytes }) node conn
        ≡ publish_to 5 (codes "logs") p (7 ∷ 8 ∷ []) (counted node) conn)
unfolding num_partitions
handle_publish_v2-publish_request_example =
    handle_publish_v2-publish_request 5 0 (codes "logs") (codes "k") (7 ∷ 8 ∷ []) node conn
      (omega arith) (omega arith) (omega arith) (omega arith) (omega arith) (omega arith)

abbrev metadata : Metadata
metadata = record {
  brokers = record { id = 4; host = codes "b4"; client_port = 7700 } ∷ [];
  partition_leaders = (0, 4) ∷ [];
}

abbrev unreachable : Attempt
unreachable = record { metadata = none; connects = true; answers = [] }

abbrev dropped : Attempt
dropped = record { metadata = some metadata; connects = true; answers = none ∷ [] }

dropped_leads :
    (p : ℕ)
    → p < 1
    → (leader : ℕ) × (broker : BrokerInfo) × (leader_in p metadata.partition_leaders ≡ some leader)
      × (broker_in leader metadata.brokers ≡ some broker)
dropped_leads zero h = (4, record { id = 4; host = codes "b4"; client_port = 7700 }, refl, refl)
dropped_leads (suc p) h = absurd (omega arith)

dropped-Drops : Drops message dropped
dropped-Drops = record {
  found = metadata;
  metadata = refl;
  some_partition = omega arith;
  u16 = omega arith;
  leads = dropped_leads;
  connects = refl;
  later = [];
  lost = refl;
}

-- Two dropped connections and one failure: the message was sent twice, and the producer goes on.
send_message_tries_example :
    let r = send_message message 0 0 (dropped ∷ unreachable ∷ dropped ∷ []) in
    (1 < 3 → (r.0 ≡ pending) × (r.2 ≡ 2)) × (3 ≤ 1 → r.0 ≡ gave_up)
send_message_tries_example =
    send_message_tries message (omega arith) (omega arith) (omega arith) 0 0
      (dropped ∷ unreachable ∷ dropped ∷ [])
      (inr dropped-Drops, (inl (inl refl), (inr dropped-Drops, tt)))

abbrev accepted : Attempt
accepted = record {
  metadata = some metadata;
  connects = true;
  answers = some (record { op = op_ack; payload = write_be64 5 }) ∷ [];
}

accepted_run : (send_message message 0 0 (unreachable ∷ accepted ∷ [])).0 ≡ acked 5
unfolding send_message write_be64
accepted_run = refl
