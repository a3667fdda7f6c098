-- ===== src/Cli/Roundtrip.antt =====
-- The metadata that the broker sends is what the command line tools read.
use fell.Base.{
  Option-cases, inl, inr, find, ℕ, zero, suc, ◌+◌, ◌%◌, ◌^◌, ◌≤◌, ◌<◌, ◌≡◌, refl, sym, ap, ◌∙◌,
  false, List, [], ◌∷◌, ◌++◌, All, some, length, drop, map, length-append, append_assoc,
  take-append_self, drop-append_self, drop-drop, ltb, arith,
}
use fell.Wire.{read_be16, write_be16, write_be32, read_be16-write_be16, read_be32-write_be32}
use fell.Replication.Meta.{Registry, get}
use fell.Broker.Admin.{broker_bytes, peers_bytes, leaders_bytes}
use fell.Broker.Admin.{handle_metadata_req}
use fell.Broker.Topics.{Topics, num_partitions}
use fell.Broker.Protocol.{op_metadata_resp, codes, size_metadata, topic_of}
use fell.Frame.{Frame, encode_frame}
use fell.Broker.Requests.{BrokerAddr, ClusterConfig, ConnectionState, Node}
use fell.Cli.{BrokerInfo, read_brokers, read_leaders, parse_metadata, fetch_metadata}

pub record IsAddress (p : BrokerAddr) : Type 0 where
  pub id_u32 : p.broker_id < 2 ^ 32
  pub host_u8 : length p.host < 256
  pub port_u16 : p.client_port < 2 ^ 16

abbrev pub info : BrokerAddr → BrokerInfo
info p = record { id = p.broker_id; host = p.host; client_port = p.client_port }

length-write_be16 : (n : ℕ) (rest : List ℕ) → length (write_be16 n ++ rest) ≡ 2 + length rest
unfolding write_be16
length-write_be16 n rest = omega arith

drop-write_be16 : (n : ℕ) (rest : List ℕ) → drop 2 (write_be16 n ++ rest) ≡ rest
unfolding write_be16
drop-write_be16 n rest = refl

module _ (p : BrokerAddr) (v : IsAddress p) (rest : List ℕ) where
  whole :
      broker_bytes p.broker_id p.host p.client_port ++ rest
      ≡ write_be32 p.broker_id
        ++ (length p.host % 256 ∷ (p.host ++ (write_be16 p.client_port ++ rest)))
  unfolding broker_bytes
  whole =
      append_assoc (write_be32 p.broker_id)
        ((length p.host % 256 ∷ p.host) ++ write_be16 p.client_port) rest
      ∙ ap (λ l. write_be32 p.broker_id ++ (length p.host % 256 ∷ l))
          (append_assoc p.host (write_be16 p.client_port) rest)

  one_broker :
      (n : ℕ) (bs : List BrokerInfo) (left : List ℕ)
      → read_brokers n rest ≡ some (bs, left)
      → read_brokers (suc n) (
          write_be32 p.broker_id
          ++ (length p.host % 256 ∷ (p.host ++ (write_be16 p.client_port ++ rest))))
        ≡ some (info p ∷ bs, left)
  unfolding read_brokers write_be32
  one_broker n bs left e =
      let tail = p.host ++ (write_be16 p.client_port ++ rest) in
      let size : length p.host % 256 ≡ length p.host = omega (arith, v.host_u8) in
      let whole_head : ltb (length (write_be32 p.broker_id ++ (length p.host % 256 ∷ tail))) 5
          ≡ false =
        ground arith in
      let whole_tail : ltb (length tail) (length p.host % 256 + 2) ≡ false = ground (
        arith,
        size,
        length-append p.host (write_be16 p.client_port ++ rest),
        length-write_be16 p.client_port rest,
      ) in
      let next : drop (length p.host % 256 + 2) tail ≡ rest =
        sym (drop-drop 2 (length p.host % 256) tail)
        ∙ ap (drop 2) (drop-append_self (length p.host % 256) p.host _ size)
        ∙ drop-write_be16 p.client_port rest in
      let id = read_be32-write_be32 p.broker_id (length p.host % 256 ∷ tail) v.id_u32 in
      let host = take-append_self (length p.host % 256) p.host _ size in
      let port =
        ap read_be16 (drop-append_self (length p.host % 256) p.host _ size)
        ∙ read_be16-write_be16 p.client_port rest v.port_u16 in
      rw (whole_head, whole_tail, next, e)
        (λ i. some (record { id = id i; host = host i; client_port = port i } ∷ bs, left))

read_brokers-peers_bytes :
    (ps : List BrokerAddr) (rest : List ℕ)
    → All IsAddress ps
    → read_brokers (length ps) (peers_bytes ps ++ rest) ≡ some (map info ps, rest)
unfolding read_brokers
read_brokers-peers_bytes [] rest v = refl
read_brokers-peers_bytes (p ∷ ps) rest (vp, v) =
    ap (read_brokers (suc (length ps))) (
      append_assoc (broker_bytes p.broker_id p.host p.client_port) (peers_bytes ps) rest
      ∙ whole p vp (peers_bytes ps ++ rest))
    ∙ one_broker p vp (peers_bytes ps ++ rest) (length ps) (map info ps) rest
        (read_brokers-peers_bytes ps rest v)

-- The leaders of the partitions from `i` on, as the registry has them.
abbrev pub leaders_of : List ℕ → ℕ → ℕ → Registry → List (ℕ × ℕ)
leaders_of topic i zero reg = []
leaders_of topic i (suc n) reg =
    (i, (get topic i reg).0.leader_id) ∷ leaders_of topic (suc i) n (get topic i reg).1

module _ (i leader : ℕ) (rest : List ℕ) (i_u16 : i < 2 ^ 16) (leader_u32 : leader < 2 ^ 32) where
  one_leader :
      (n : ℕ) (ls : List (ℕ × ℕ))
      → read_leaders n rest ≡ some ls
      → read_leaders (suc n) (write_be16 i ++ (write_be32 leader ++ rest)) ≡ some ((i, leader) ∷ ls)
  unfolding read_leaders write_be16 write_be32
  one_leader n ls e =
      let enough : ltb (length (write_be16 i ++ (write_be32 leader ++ rest))) 6 ≡ false =
        ground arith in
      let first = read_be16-write_be16 i (write_be32 leader ++ rest) i_u16 in
      let second = read_be32-write_be32 leader rest leader_u32 in
      rw (enough, e) (λ k. some ((first k, second k) ∷ ls))

read_leaders-leaders_bytes :
    (topic : List ℕ) (i n : ℕ) (reg : Registry)
    → i + n ≤ 2 ^ 16
    → All (λ l. l.1 < 2 ^ 32) (leaders_of topic i n reg)
    → read_leaders n (leaders_bytes topic i n reg).0 ≡ some (leaders_of topic i n reg)
unfolding leaders_bytes read_leaders
read_leaders-leaders_bytes topic i zero reg room small = refl
read_leaders-leaders_bytes topic i (suc n) reg room (here, small) =
    one_leader i (get topic i reg).0.leader_id (leaders_bytes topic (suc i) n (get topic i reg).1).0
      (omega (arith, room)) here n (leaders_of topic (suc i) n (get topic i reg).1)
      (read_leaders-leaders_bytes topic (suc i) n (get topic i reg).1 (omega (arith, room)) small)

num_partitions_small : (topic : List ℕ) (topics : Topics) → num_partitions topic topics < 2 ^ 16
unfolding num_partitions
num_partitions_small topic topics = elim (Option-cases (find topic topics)) [
  | inl absent ↦ rw (num_partitions, absent) (omega arith)
  | inr (ps, there) ↦ rw (num_partitions, there) (omega arith)
]

parsed :
    (payload rest : List ℕ) (n count : ℕ) (bs : List BrokerInfo) (ls : List (ℕ × ℕ))
    → 2 ≤ length payload
    → read_be16 payload ≡ n
    → read_brokers n (drop 2 payload) ≡ some (bs, rest)
    → 2 ≤ length rest
    → read_be16 rest ≡ count
    → read_leaders count (drop 2 rest) ≡ some ls
    → parse_metadata payload ≡ some (record { brokers = bs; partition_leaders = ls })
unfolding parse_metadata
parsed payload rest n count bs ls long en eb more ec el =
    let enough : ltb (length payload) 2 ≡ false = ground (arith, long) in
    let left : ltb (length rest) 2 ≡ false = ground (arith, more) in
    rw (parse_metadata, enough, en, eb, left, ec, el) refl

module _ (self : BrokerAddr) (peers : List BrokerAddr) (topic : List ℕ) (count : ℕ)
    (reg : Registry) where
  -- The payload of the broker's answer.
  abbrev pub metadata_payload : List ℕ
  metadata_payload =
      write_be16 ((1 + length peers) % 2 ^ 16)
      ++ (broker_bytes self.broker_id self.host self.client_port
          ++ (peers_bytes peers ++ (write_be16 count ++ (leaders_bytes topic 0 count reg).0)))

  parse-metadata_payload :
      1 + length peers < 2 ^ 16
      → All IsAddress (self ∷ peers)
      → count < 2 ^ 16
      → All (λ l. l.1 < 2 ^ 32) (leaders_of topic 0 count reg)
      → parse_metadata metadata_payload
        ≡ some (record {
          brokers = map info (self ∷ peers);
          partition_leaders = leaders_of topic 0 count reg;
        })
  unfolding parse_metadata
  parse-metadata_payload few addresses small leaders =
      let rest = write_be16 count ++ (leaders_bytes topic 0 count reg).0 in
      let behind =
        broker_bytes self.broker_id self.host self.client_port ++ (peers_bytes peers ++ rest) in
      let number : read_be16 metadata_payload ≡ suc (length peers) =
        read_be16-write_be16 ((1 + length peers) % 2 ^ 16) behind (omega arith)
        ∙ omega (arith, few) in
      let found : read_brokers (suc (length peers)) behind ≡ some (map info (self ∷ peers), rest) =
        ap (read_brokers (suc (length peers))) (
          sym (
            append_assoc (broker_bytes self.broker_id self.host self.client_port)
              (peers_bytes peers) rest))
        ∙ read_brokers-peers_bytes (self ∷ peers) rest addresses in
      let parts : read_be16 rest ≡ count =
        read_be16-write_be16 count (leaders_bytes topic 0 count reg).0 small in
      let led = read_leaders-leaders_bytes topic 0 count reg (omega (arith, small)) leaders in
      parsed metadata_payload rest (suc (length peers)) count (map info (self ∷ peers))
        (leaders_of topic 0 count reg)
        (omega (arith, length-write_be16 ((1 + length peers) % 2 ^ 16) behind)) number
        (ap (read_brokers (suc (length peers)))
            (drop-write_be16 ((1 + length peers) % 2 ^ 16) behind)
          ∙ found)
        (omega (arith, length-write_be16 count (leaders_bytes topic 0 count reg).0)) parts
        (ap (read_leaders count) (drop-write_be16 count (leaders_bytes topic 0 count reg).0) ∙ led)

-- A broker with a configuration and metadata answers a metadata request for a topic, with the struct's
-- size at least, by a frame whose payload the tool reads as the broker's own address, those of all peers in
-- order, and the leader of each partition of the topic as the registry has it. The addresses are in the
-- ranges of their fields, and there are fewer than 2^16 - 1 peers.
pub fetch_metadata-handle_metadata_req :
    (f : Frame) (node : Node) (conn : ConnectionState) (cfg : ClusterConfig) (reg : Registry)
    → size_metadata ≤ length f.payload
    → node.cfg ≡ some cfg
    → node.meta_reg ≡ some reg
    → 1 + length cfg.peers < 2 ^ 16
    → cfg.broker_id < 2 ^ 32
    → cfg.client_port < 2 ^ 16
    → All IsAddress cfg.peers
    → All
        (λ l. l.1 < 2 ^ 32)
        (leaders_of (topic_of f.payload) 0 (num_partitions (topic_of f.payload) node.topics) reg)
    → (payload : List ℕ) × ((handle_metadata_req f node conn).bytes
        ≡ encode_frame op_metadata_resp payload)
      × (fetch_metadata op_metadata_resp payload
          ≡ some (record {
            brokers =
                record {
                  id = cfg.broker_id;
                  host = codes "127.0.0.1";
                  client_port = cfg.client_port;
                }
                ∷ map info cfg.peers;
            partition_leaders =
                leaders_of
                  (topic_of f.payload)
                  0
                  (num_partitions (topic_of f.payload) node.topics)
                  reg;
          }))
unfolding handle_metadata_req fetch_metadata num_partitions
fetch_metadata-handle_metadata_req f node conn cfg reg long has_cfg has_reg few id port peers
      leaders =
    let self : BrokerAddr = record {
      broker_id = cfg.broker_id;
      host = codes "127.0.0.1";
      repl_port = 0;
      client_port = cfg.client_port;
    } in
    let topic = topic_of f.payload in
    let count = num_partitions topic node.topics in
    let fits : ltb (length f.payload) size_metadata ≡ false = ground (arith, long) in
    (
      metadata_payload self cfg.peers topic count reg,
      rw (handle_metadata_req, fits, has_cfg, has_reg) refl,
      parse-metadata_payload self cfg.peers topic count reg few
          (record { id_u32 = id; host_u8 = omega arith; port_u16 = port }, peers)
          (num_partitions_small topic node.topics) leaders,
    )
