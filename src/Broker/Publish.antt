-- ===== src/Broker/Publish.antt =====
-- `handle_publish` and `handle_publish_v2` of broker/request_handler.cpp.
use fell.Base.{
  ℕ, ◌+◌, ◌*◌, ◌%◌, ◌^◌, Bool, true, false, not, ◌&&◌, List, [], ◌∷◌, Option, none, some, length,
  take, drop, ltb, leb, ◌==◌, if◌then◌else◌,
}
use Prim.Native.Nat.{bit_xor}
use fell.Wire.{byte_at, read_be32}
use fell.Frame.{Frame}
use fell.Storage.Store.{AppendError, append}
use fell.Broker.Protocol.{
  unknown_topic, unknown_partition, malformed_request, busy, internal_error, not_leader, codes,
  encode_ack, encode_error, topic_of, partition_of, size_publish, size_publish_v2,
}
use fell.Broker.Topics.{get_partition, num_partitions, set_partition}
use fell.Broker.Requests.{ConnectionState, Node, Reply, reply, denies}

abbrev pub is_closed : AppendError → Bool
is_closed AppendError.busy = false
is_closed AppendError.closed = true

abbrev pub waits_for_all : Node → Bool
waits_for_all node = elim node.cfg [ none ↦ false | some cfg ↦ cfg.acks_all && node.defers ]

-- The end of both publish handlers, once the partition is chosen.
unfoldable pub publish_to : ℕ → List ℕ → ℕ → List ℕ → Node → ConnectionState → Reply
unfolding denies append get_partition set_partition encode_ack encode_error
publish_to now topic partition payload node conn =
    let (denied, n) = denies topic partition node in
    if denied
    then reply (encode_error not_leader (codes "Not leader for partition")) n conn
    else elim (get_partition topic partition n.topics) [
      | none ↦
          reply (encode_error unknown_partition (codes "Partition registry lookup failed")) n conn
      | some p ↦
          let (result, p') = append now payload p in
          let t = set_partition topic partition p' n.topics in
          if not result.accepted
          then reply
              (if is_closed result.error
                then encode_error internal_error (codes "Partition is closed")
                else encode_error busy (codes "Partition append queue is full"))
              (record n { topics = t; publish_busy_total = n.publish_busy_total + 1 }) conn
          else let published : Node = record n {
            topics = t;
            bytes_published_total = n.bytes_published_total + length payload;
          } in
            if waits_for_all n
            then record {
              bytes = [];
              deferred =
                  record {
                    topic = topic;
                    partition = partition;
                    offset = result.offset;
                    ack_resp = encode_ack result.offset;
                    producer_fd = conn.fd;
                  }
                  ∷ [];
              node = published;
              conn = conn;
            }
            else reply (encode_ack result.offset) published conn
    ]

-- A partition for the request, or `none` where it names one out of bounds; and whether the connection's
-- counter was used.
unfoldable pub choose : ℕ → ℕ → ℕ → Option (ℕ × Bool)
choose partition rr_counter total =
    if partition == 65535
    then some (rr_counter % total, true)
    else if leb total partition
    then none
    else some (partition, false)

-- `fnv1a`, from a hash on. A byte changes the lowest bits only.
unfoldable pub fnv1a : ℕ → List ℕ → ℕ
fnv1a hash [] = hash
fnv1a hash (c ∷ key) = fnv1a (bit_xor hash c * 1099511628211 % 2 ^ 64) key

abbrev pub fnv_basis : ℕ
fnv_basis = 14695981039346656037

-- The routing of a keyed request: by the key, or as above where there is none.
unfoldable pub choose_v2 : List ℕ → ℕ → ℕ → ℕ → Option (ℕ × Bool)
unfolding choose fnv1a
choose_v2 key partition rr_counter total =
    if ltb 0 (length key)
    then some (fnv1a fnv_basis key % total % 2 ^ 16, false)
    else choose partition rr_counter total

-- The counter after a request, in uint16_t.
abbrev pub advance : Bool → ConnectionState → ConnectionState
advance used conn =
    if used then record conn { rr_counter = (conn.rr_counter + 1) % 2 ^ 16 } else conn

-- What the publish handlers share between the size checks and the end.
unfoldable pub route : ℕ → List ℕ → Option (ℕ × Bool) → List ℕ → Node → ConnectionState → Reply
unfolding publish_to num_partitions encode_error
route now topic chosen body node conn =
    if length topic == 0
    then reply (encode_error malformed_request (codes "Topic name cannot be empty")) node conn
    else if num_partitions topic node.topics == 0
    then reply (encode_error unknown_topic (codes "Topic does not exist")) node conn
    else elim chosen [
      | none ↦
          reply (encode_error unknown_partition (codes "Partition index out of bounds")) node conn
      | some (partition, used) ↦ publish_to now topic partition body node (advance used conn)
    ]

unfoldable pub handle_publish : ℕ → Frame → Node → ConnectionState → Reply
unfolding route choose read_be32 partition_of num_partitions encode_error
handle_publish now f node conn =
    let n : Node = record node { publish_requests_total = node.publish_requests_total + 1 } in
    if ltb (length f.payload) size_publish
    then reply (encode_error malformed_request (codes "payload too small for PUBLISH header")) n
        conn
    else if not (length f.payload == size_publish + read_be32 (drop 258 f.payload))
    then reply (encode_error malformed_request (codes "Payload size mismatch in PUBLISH")) n conn
    else route now (topic_of f.payload)
        (choose (partition_of f.payload) conn.rr_counter
          (num_partitions (topic_of f.payload) n.topics))
        (drop size_publish f.payload) n conn

unfoldable pub handle_publish_v2 : ℕ → Frame → Node → ConnectionState → Reply
unfolding route choose_v2 read_be32 partition_of num_partitions encode_error
handle_publish_v2 now f node conn =
    let n : Node = record node { publish_requests_total = node.publish_requests_total + 1 } in
    if ltb (length f.payload) size_publish_v2
    then reply (encode_error malformed_request (codes "payload too small for PUBLISH_V2 header")) n
        conn
    else if not (length f.payload == size_publish_v2 + read_be32 (drop 514 f.payload))
    then reply (encode_error malformed_request (codes "Payload size mismatch in PUBLISH_V2")) n conn
    else route now (topic_of f.payload)
        (choose_v2 (take (byte_at f.payload 258) (drop 259 f.payload)) (partition_of f.payload)
          conn.rr_counter (num_partitions (topic_of f.payload) n.topics))
        (drop size_publish_v2 f.payload) n conn
