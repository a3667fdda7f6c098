-- ===== src/Broker/Consume.antt =====
-- `handle_subscribe` and `handle_fetch` of broker/request_handler.cpp.
use fell.Base.{
  ℕ, ◌+◌, ◌%◌, ◌^◌, ◌≤◌, ◌≡◌, refl, arith, true, false, not, ◌&&◌, List, [], ◌∷◌, ◌++◌, none, some,
  length, drop, ltb, leb, ◌==◌, ◌⊎◌, inl, inr, if◌then◌else◌,
}
use fell.Wire.{read_be16, read_be64, write_be32, write_be64}
use fell.Frame.{Frame, encode_frame}
use fell.Storage.{StoredMessage}
use fell.Storage.Reader.{Outcome, ok, threw, stuck}
use fell.Storage.Store.{PartitionStore, fetch, written_offset}
use fell.Broker.Protocol.{
  op_fetch_response, unknown_topic, unknown_partition, invalid_offset, malformed_request,
  not_leader, codes, encode_ack, encode_error, topic_of, partition_of, size_subscribe, size_fetch,
}
use fell.Broker.Topics.{get_partition, num_partitions, set_partition}
use fell.Broker.Requests.{ConnectionState, Node, Reply, reply, denies}

-- The checks that subscribe and fetch share: the reply to a request that is refused, or the node and
-- the partition.
unfoldable pub resolve : List ℕ → ℕ → Node → ConnectionState → Reply ⊎ (Node × PartitionStore)
unfolding denies num_partitions get_partition encode_error
resolve topic partition node conn =
    let (denied, n) = denies topic partition node in
    if length topic == 0
    then inl (reply (encode_error malformed_request (codes "Topic name cannot be empty")) node conn)
    else if num_partitions topic node.topics == 0
    then inl (reply (encode_error unknown_topic (codes "Topic does not exist")) node conn)
    else if leb (num_partitions topic node.topics) partition
    then inl
        (reply (encode_error unknown_partition (codes "Partition index out of bounds")) node conn)
    else if denied
    then inl (reply (encode_error not_leader (codes "Not leader for partition")) n conn)
    else elim (get_partition topic partition n.topics) [
      | none ↦
          inl (
            reply (encode_error unknown_partition (codes "Partition registry lookup failed")) n
              conn)
      | some p ↦ inr (n, p)
    ]

abbrev pub latest : ℕ
latest = 18446744073709551615

-- `handle_subscribe` behind the checks, on what they gave.
unfoldable pub subscribe_resolved :
    Frame → ConnectionState → Reply ⊎ (Node × PartitionStore) → Reply
subscribe_resolved f conn (inl refused) = refused
subscribe_resolved f conn (inr (n, p)) =
    let start = read_be64 (drop 258 f.payload) in
    let from = if start == latest then written_offset p else start in
    if not (start == latest) && ltb (written_offset p) start
    then reply (encode_error invalid_offset (codes "Start offset lies in the future")) n conn
    else reply (encode_ack from) n (record conn {
      sub_topic = topic_of f.payload;
      sub_partition = partition_of f.payload;
      fetch_offset = from;
      subscribed = true;
    })

unfoldable pub handle_subscribe : Frame → Node → ConnectionState → Reply
unfolding resolve partition_of subscribe_resolved encode_error
handle_subscribe f node conn =
    if ltb (length f.payload) size_subscribe
    then reply (encode_error malformed_request (codes "Payload too small for SUBSCRIBE")) node conn
    else subscribe_resolved f conn (resolve (topic_of f.payload) (partition_of f.payload) node conn)

-- A request that is long enough is answered by what the checks give.
pub handle_subscribe-resolve :
    (f : Frame) (node : Node) (conn : ConnectionState)
    → size_subscribe ≤ length f.payload
    → handle_subscribe f node conn
      ≡ subscribe_resolved f conn (resolve (topic_of f.payload) (partition_of f.payload) node conn)
unfolding handle_subscribe
handle_subscribe-resolve f node conn h =
    let long : ltb (length f.payload) size_subscribe ≡ false = ground (arith, h) in rw long refl

-- One FETCH_RESPONSE frame for each message.
unfoldable pub response_frames : List StoredMessage → List ℕ
unfolding encode_frame write_be64 write_be32
response_frames [] = []
response_frames (m ∷ ms) =
    encode_frame op_fetch_response (
      write_be64 m.offset
      ++ (write_be64 m.timestamp_ms ++ (write_be32 (length m.payload % 2 ^ 32) ++ m.payload)))
    ++ response_frames ms

abbrev pub next_fetch : ℕ → List StoredMessage → ℕ
next_fetch offset [] = offset
next_fetch offset (m ∷ ms) = next_fetch (m.offset + 1) ms

-- `handle_fetch` behind the checks, on what they gave. An exception of the store's `fetch` goes through.
unfoldable pub fetch_resolved :
    Frame → ConnectionState → Reply ⊎ (Node × PartitionStore) → Outcome Reply
fetch_resolved f conn (inl refused) = ok refused
fetch_resolved f conn (inr (n, p)) =
    let (found, p') = fetch (read_be64 (drop 258 f.payload)) (read_be16 (drop 266 f.payload)) p in
    elim found [
      | threw ↦ threw
      | stuck ↦ stuck
      | ok messages ↦ ok (
          reply (if length messages == 0 then encode_ack 0 else response_frames messages)
            (record n {
              topics = set_partition (topic_of f.payload) (partition_of f.payload) p' n.topics;
            })
            (record conn { fetch_offset = next_fetch conn.fetch_offset messages }))
    ]

unfoldable pub handle_fetch : Frame → Node → ConnectionState → Outcome Reply
unfolding resolve partition_of fetch_resolved encode_error
handle_fetch f node conn =
    if ltb (length f.payload) size_fetch
    then ok (reply (encode_error malformed_request (codes "Payload too small for FETCH")) node conn)
    else fetch_resolved f conn (resolve (topic_of f.payload) (partition_of f.payload) node conn)

-- A request that is long enough is answered by what the checks give.
pub handle_fetch-resolve :
    (f : Frame) (node : Node) (conn : ConnectionState)
    → size_fetch ≤ length f.payload
    → handle_fetch f node conn
      ≡ fetch_resolved f conn (resolve (topic_of f.payload) (partition_of f.payload) node conn)
unfolding handle_fetch
handle_fetch-resolve f node conn h =
    let long : ltb (length f.payload) size_fetch ≡ false = ground (arith, h) in rw long refl
