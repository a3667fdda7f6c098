-- ===== src/Broker/Admin.antt =====
-- `handle_create_topic` and `handle_metadata_req` of broker/request_handler.cpp.
use fell.Base.{
  ℕ, zero, suc, ◌+◌, ◌%◌, ◌^◌, max, not, List, [], ◌∷◌, ◌++◌, none, some, length, ltb, ◌==◌,
  if◌then◌else◌,
}
use fell.Wire.{byte_at, write_be16, write_be32}
use fell.Frame.{Frame, encode_frame}
use fell.Replication.Meta.{Registry, get, assign_roles}
use fell.Broker.Protocol.{
  op_metadata_resp, malformed_request, metadata_unavailable, codes, encode_ack, encode_error,
  topic_of, partition_of, size_create_topic, size_metadata,
}
use fell.Broker.Topics.{Disk, create_topic, num_partitions}
use fell.Broker.Requests.{BrokerAddr, ConnectionState, Node, Reply, reply}

unfoldable pub handle_create_topic : ℕ → Disk → Frame → Node → ConnectionState → Reply
unfolding create_topic assign_roles partition_of encode_ack encode_error
handle_create_topic now disk f node conn =
    let name = topic_of f.payload in
    let count = partition_of f.payload in
    let (success, topics) = create_topic now node.options disk name count node.topics in
    let created : Node = record node { topics = topics } in
    let seeded : Node = elim node.cfg [
      | none ↦ created
      | some cfg ↦ elim node.meta_reg [
        | none ↦ created
        | some reg ↦ record created {
          meta_reg = some (
              assign_roles cfg.broker_id (max 1 ((1 + length cfg.peers) % 2 ^ 32)) (name ∷ [])
                (count ∷ []) reg);
        }
      ]
    ] in
    if ltb (length f.payload) size_create_topic
    then reply (encode_error malformed_request (codes "payload too small for CREATE_TOPIC")) node
        conn
    else if byte_at f.payload 0 == 0
    then reply (encode_error malformed_request (codes "Topic name cannot be empty")) node conn
    else if count == 0
    then reply (encode_error malformed_request (codes "Partition count must be at least 1")) node
        conn
    else if not success
    then reply (encode_error malformed_request (codes "Topic already exists")) node conn
    else reply (encode_ack 0) seeded conn

unfoldable pub broker_bytes : ℕ → List ℕ → ℕ → List ℕ
unfolding write_be32 write_be16
broker_bytes id host client_port =
    write_be32 id ++ ((length host % 256 ∷ host) ++ write_be16 client_port)

abbrev pub peers_bytes : List BrokerAddr → List ℕ
peers_bytes [] = []
peers_bytes (p ∷ ps) = broker_bytes p.broker_id p.host p.client_port ++ peers_bytes ps

-- The leaders of the partitions from `i` on, and the registry with their entries.
unfoldable pub leaders_bytes : List ℕ → ℕ → ℕ → Registry → List ℕ × Registry
unfolding get write_be16 write_be32
leaders_bytes topic i zero reg = ([], reg)
leaders_bytes topic i (suc n) reg =
    let (m, reg') = get topic i reg in
    let (more, reg'') = leaders_bytes topic (suc i) n reg' in
    (write_be16 i ++ (write_be32 m.leader_id ++ more), reg'')

unfoldable pub handle_metadata_req : Frame → Node → ConnectionState → Reply
unfolding leaders_bytes broker_bytes num_partitions encode_frame encode_error
handle_metadata_req f node conn =
    let topic = topic_of f.payload in
    let count = num_partitions topic node.topics in
    let unavailable : Reply =
      reply (encode_error metadata_unavailable (codes "Cluster metadata unavailable")) node conn in
    if ltb (length f.payload) size_metadata
    then reply (encode_error malformed_request (codes "payload too small for METADATA_REQ")) node
        conn
    else elim node.cfg [
      | none ↦ unavailable
      | some cfg ↦ elim node.meta_reg [
        | none ↦ unavailable
        | some reg ↦
            let (leaders, reg') = leaders_bytes topic 0 count reg in
            reply
              (encode_frame op_metadata_resp (
                write_be16 ((1 + length cfg.peers) % 2 ^ 16)
                ++ (broker_bytes cfg.broker_id (codes "127.0.0.1") cfg.client_port
                    ++ (peers_bytes cfg.peers ++ (write_be16 count ++ leaders)))))
              (record node { meta_reg = some reg' }) conn
      ]
    ]
