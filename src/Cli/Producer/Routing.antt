-- ===== src/Cli/Producer/Routing.antt =====
-- Where a broker puts what the producer sends.
use fell.Base.{
  ℕ, suc, ◌+◌, ◌%◌, ◌^◌, ◌≤◌, ◌<◌, ◌≡◌, refl, ◌∙◌, true, false, List, [], ◌∷◌, some, length, take,
  drop, ltb, leb, ◌==◌, le→ltb_false, ==_iff, arith,
}
use fell.Wire.{byte_at, read_be32}
use fell.Frame.{Frame}
use fell.Broker.Protocol.{op_publish_v2, topic_of, partition_of, size_publish_v2}
use fell.Broker.Topics.{num_partitions}
use fell.Broker.Requests.{ConnectionState, Node}
use fell.Broker.Publish.{choose_v2, route, publish_to, handle_publish_v2}
use fell.Cli.Requests.{publish_request, publish_request-ReadsPublish}
use fell.Cli.Producer.{choose_partition}

-- The broker behind a publish request: the request is counted.
abbrev pub counted : Node → Node
counted node = record node { publish_requests_total = node.publish_requests_total + 1 }

pub choose_partition-lt :
    (key : List ℕ) (rr_counter total : ℕ)
    → 0 < total
    → total < 65536
    → (choose_partition key rr_counter total).0 < total
unfolding choose_partition
choose_partition-lt [] rr_counter total some_partition small = omega (arith, some_partition)
choose_partition-lt (c ∷ key) rr_counter total some_partition small =
    let keyed : ltb 0 (suc (length key)) ≡ true = ground arith in
    rw keyed (omega (arith, some_partition, small))

-- The tool's partition exists, and the broker's routing keeps it.
choose_v2-choose_partition :
    (key : List ℕ) (rr_counter conn_counter total : ℕ)
    → 0 < total
    → total < 65536
    → let p = (choose_partition key rr_counter total).0 in
      (p < total) × (choose_v2 key p conn_counter total ≡ some (p, false))
unfolding choose_v2 choose_partition
choose_v2-choose_partition [] rr_counter conn_counter total some_partition small =
    let below : rr_counter % total < total = omega (arith, some_partition) in
    let named : (rr_counter % total == 65535) ≡ false = ground (arith, below, small) in
    let inside : leb total (rr_counter % total) ≡ false = ground (arith, below) in
    (below, rw (named, inside) refl)
choose_v2-choose_partition (c ∷ key) rr_counter conn_counter total some_partition small =
    let keyed : ltb 0 (suc (length key)) ≡ true = ground arith in
    rw keyed (omega (arith, some_partition, small), refl)

handle_publish_v2-route :
    (now : ℕ) (f : Frame) (node : Node) (conn : ConnectionState) (size : ℕ)
    → length f.payload ≡ size_publish_v2 + size
    → read_be32 (drop 514 f.payload) ≡ size
    → handle_publish_v2 now f node conn
      ≡ route now
          (topic_of f.payload)
          (choose_v2
            (take (byte_at f.payload 258) (drop 259 f.payload))
            (partition_of f.payload)
            conn.rr_counter
            (num_partitions (topic_of f.payload) node.topics))
          (drop size_publish_v2 f.payload)
          (counted node)
          conn
unfolding handle_publish_v2
handle_publish_v2-route now f node conn size whole read =
    let long : ltb (length f.payload) size_publish_v2 ≡ false =
      le→ltb_false (length f.payload) size_publish_v2 (omega (arith, whole)) in
    let exact : (length f.payload == size_publish_v2 + read_be32 (drop 514 f.payload)) ≡ true =
      (==_iff (length f.payload) (size_publish_v2 + read_be32 (drop 514 f.payload))).1
        (omega (arith, whole, read)) in
    rw (long, exact) refl

route-publish_to :
    (now : ℕ) (topic : List ℕ) (p : ℕ) (body : List ℕ) (n : Node) (conn : ConnectionState)
    → 0 < length topic
    → 0 < num_partitions topic n.topics
    → route now topic (some (p, false)) body n conn ≡ publish_to now topic p body n conn
unfolding route
route-publish_to now topic p body n conn named there =
    let not_empty : (length topic == 0) ≡ false = ground (arith, named) in
    let known : (num_partitions topic n.topics == 0) ≡ false = ground (arith, there) in
    rw (not_empty, known) refl

-- The producer's request, for a topic that the broker has with as many partitions as the metadata said, goes
-- through the checks of `handle_publish_v2`, and the broker publishes exactly the message, to exactly the
-- partition that the producer chose, whatever its own routing would prefer for the connection; with a key
-- that is the partition that the broker's hash of the key gives.
pub handle_publish_v2-publish_request :
    (now rr_counter : ℕ) (topic key payload : List ℕ) (node : Node) (conn : ConnectionState)
    → 0 < length topic
    → length topic ≤ 255
    → length key ≤ 255
    → length payload < 2 ^ 32
    → 0 < num_partitions topic node.topics
    → num_partitions topic node.topics < 65536
    → let p = (choose_partition key rr_counter (num_partitions topic node.topics)).0 in
      (p < num_partitions topic node.topics)
      × (bytes : List ℕ) × (publish_request topic p key payload ≡ some bytes)
      × (handle_publish_v2 now (record { op = op_publish_v2; payload = bytes }) node conn
          ≡ publish_to now topic p payload (counted node) conn)
handle_publish_v2-publish_request now rr_counter topic key payload node conn named short k s there
      small =
    let total = num_partitions topic node.topics in
    let p = (choose_partition key rr_counter total).0 in
    let (inside, kept) =
      choose_v2-choose_partition key rr_counter conn.rr_counter total there small in
    let (bytes, made, r) =
      publish_request-ReadsPublish topic p key payload short (omega (arith, inside, small)) k s in
    let f : Frame = record { op = op_publish_v2; payload = bytes } in
    (
      inside,
      bytes,
      made,
      handle_publish_v2-route now f node conn (length payload) r.whole r.size_read
          ∙ rw (r.topic_read, r.key_read, r.partition_read, r.payload_read, kept) refl
          ∙ route-publish_to now topic p payload (counted node) conn named there,
    )
