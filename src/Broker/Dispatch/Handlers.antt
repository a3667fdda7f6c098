-- ===== src/Broker/Dispatch/Handlers.antt =====
-- The handlers leave the buffers of a connection to the event loop.
use fell.Base.{
  ℕ, ◌≡◌, refl, sym, ap, ◌∙◌, ◌⊎◌, inl, inr, true, not, Bool-cases, Option-cases, length, drop, ltb,
  ltb_false→le, ◌&&◌, subst, ◌==◌,
}
use fell.Frame.{Frame}
use fell.Storage.Reader.{Outcome, ok, threw, stuck, Outcome-cases}
use fell.Storage.Store.{PartitionStore, fetch}
use fell.Wire.{read_be16, read_be64, byte_at}
use fell.Broker.Protocol.{
  op_create_topic, op_publish, op_subscribe, op_fetch, op_publish_v2, op_metadata_req, topic_of,
  partition_of, size_create_topic, size_metadata, size_subscribe, size_fetch, codes, encode_error,
  malformed_request,
}
use fell.Broker.Topics.{Disk, create_topic}
use fell.Broker.Requests.{ConnectionState, Node, Reply, reply}
use fell.Broker.Handler.{handle}
use fell.Broker.Publish.{handle_publish, handle_publish_v2}
use fell.Storage.Store.{written_offset}
use fell.Broker.Refused.{resolve_refused}
use fell.Broker.Consume.{
  resolve, latest, handle_subscribe, subscribe_resolved, handle_subscribe-resolve, handle_fetch,
  fetch_resolved, handle_fetch-resolve,
}
use fell.Broker.Admin.{handle_create_topic, handle_metadata_req}
use fell.Broker.Dispatch.Publishing.{
  SameBuffers, SameBuffers-refl, handle_publish-SameBuffers, handle_publish_v2-SameBuffers,
}

abbrev pub conn_in : ConnectionState → Outcome Reply → ConnectionState
conn_in conn (ok r) = r.conn
conn_in conn threw = conn
conn_in conn stuck = conn

handle_subscribe_short :
    (f : Frame) (node : Node) (conn : ConnectionState)
    → ltb (length f.payload) size_subscribe ≡ true
    → handle_subscribe f node conn
      ≡ reply (encode_error malformed_request (codes "Payload too small for SUBSCRIBE")) node conn
unfolding handle_subscribe
handle_subscribe_short f node conn short = rw short refl

handle_fetch_short :
    (f : Frame) (node : Node) (conn : ConnectionState)
    → ltb (length f.payload) size_fetch ≡ true
    → handle_fetch f node conn
      ≡ ok (reply (encode_error malformed_request (codes "Payload too small for FETCH")) node conn)
unfolding handle_fetch
handle_fetch_short f node conn short = rw short refl

module _ (f : Frame) (node : Node) (conn : ConnectionState) where
  abbrev checks : Reply ⊎ (Node × PartitionStore)
  checks = resolve (topic_of f.payload) (partition_of f.payload) node conn

  checks-conn : (refused : Reply) → checks ≡ inl refused → refused.conn ≡ conn
  checks-conn refused e =
      let (_, _, _, is) =
        resolve_refused (topic_of f.payload) (partition_of f.payload) node conn refused e in
      ap (λ (q : Reply). q.conn) is

  subscribe_resolved-SameBuffers :
      (x : Reply ⊎ (Node × PartitionStore))
      → checks ≡ x
      → SameBuffers (subscribe_resolved f conn x).conn conn
  unfolding subscribe_resolved
  subscribe_resolved-SameBuffers (inl refused) e =
      subst (λ c. SameBuffers c conn) (sym (checks-conn refused e)) (SameBuffers-refl conn)
  subscribe_resolved-SameBuffers (inr (n, p)) e =
      let start = read_be64 (drop 258 f.payload) in
      elim (Bool-cases (not (start == latest) && ltb (written_offset p) start)) [
        | inl future ↦ rw (subscribe_resolved, future) (SameBuffers-refl conn)
        | inr present ↦
            rw (subscribe_resolved, present)
              (record { outbound = refl; write_offset = refl; read_disabled = refl })
      ]

  handle_subscribe-SameBuffers : SameBuffers (handle_subscribe f node conn).conn conn
  handle_subscribe-SameBuffers = elim (Bool-cases (ltb (length f.payload) size_subscribe)) [
    | inl short ↦
        subst (λ (r : Reply). SameBuffers r.conn conn)
          (sym (handle_subscribe_short f node conn short)) (SameBuffers-refl conn)
    | inr long ↦
        subst (λ (r : Reply). SameBuffers r.conn conn)
          (sym (
            handle_subscribe-resolve f node conn
              (ltb_false→le (length f.payload) size_subscribe long)))
          (subscribe_resolved-SameBuffers checks refl)
  ]

  fetch_resolved-SameBuffers :
      (x : Reply ⊎ (Node × PartitionStore)) (r : Reply)
      → checks ≡ x
      → fetch_resolved f conn x ≡ ok r
      → SameBuffers r.conn conn
  unfolding fetch_resolved
  fetch_resolved-SameBuffers (inl refused) r c e =
      let is : refused ≡ r = cc in
      subst (λ k. SameBuffers k conn) (sym (checks-conn refused c) ∙ ap (λ (q : Reply). q.conn) is)
        (SameBuffers-refl conn)
  fetch_resolved-SameBuffers (inr (n, p)) r c e =
      elim (Outcome-cases
        (fetch (read_be64 (drop 258 f.payload)) (read_be16 (drop 266 f.payload)) p).0) [
          | inl throws ↦ let w = rw (fetch_resolved, throws) at e in cc
          | inr (inl sticks) ↦ let w = rw (fetch_resolved, sticks) at e in cc
          | inr (inr (messages, found)) ↦
              let w = rw (fetch_resolved, found) at e in
              subst (λ k. SameBuffers k conn) (ap (conn_in conn) w)
                (record { outbound = refl; write_offset = refl; read_disabled = refl })
        ]

  handle_fetch-SameBuffers : (r : Reply) → handle_fetch f node conn ≡ ok r → SameBuffers r.conn conn
  handle_fetch-SameBuffers r e = elim (Bool-cases (ltb (length f.payload) size_fetch)) [
    | inl short ↦
        subst (λ k. SameBuffers k conn)
          (ap (conn_in conn) (sym (handle_fetch_short f node conn short) ∙ e))
          (SameBuffers-refl conn)
    | inr long ↦ fetch_resolved-SameBuffers checks r refl (
        sym (handle_fetch-resolve f node conn (ltb_false→le (length f.payload) size_fetch long))
        ∙ e)
  ]

handle_create_topic-conn :
    (now : ℕ) (disk : Disk) (f : Frame) (node : Node) (conn : ConnectionState)
    → (handle_create_topic now disk f node conn).conn ≡ conn
unfolding handle_create_topic
handle_create_topic-conn now disk f node conn =
    elim (Bool-cases (ltb (length f.payload) size_create_topic)) [
      | inl short ↦ rw (handle_create_topic, short) refl
      | inr long ↦ elim (Bool-cases (byte_at f.payload 0 == 0)) [
        | inl empty ↦ rw (handle_create_topic, long, empty) refl
        | inr named ↦ elim (Bool-cases (partition_of f.payload == 0)) [
          | inl nothing ↦ rw (handle_create_topic, long, named, nothing) refl
          | inr some_partition ↦
              elim (Bool-cases
                (create_topic now node.options disk (topic_of f.payload) (partition_of f.payload)
                  node.topics).0) [
                    | inr exists ↦
                        rw (handle_create_topic, long, named, some_partition, exists) refl
                    | inl made ↦ rw (handle_create_topic, long, named, some_partition, made) refl
                  ]
        ]
      ]
    ]

handle_metadata_req-conn :
    (f : Frame) (node : Node) (conn : ConnectionState)
    → (handle_metadata_req f node conn).conn ≡ conn
unfolding handle_metadata_req
handle_metadata_req-conn f node conn = elim (Bool-cases (ltb (length f.payload) size_metadata)) [
  | inl short ↦ rw (handle_metadata_req, short) refl
  | inr long ↦ elim (Option-cases node.cfg) [
    | inl alone ↦ rw (handle_metadata_req, long, alone) refl
    | inr (cfg, has) ↦ elim (Option-cases node.meta_reg) [
      | inl bare ↦ rw (handle_metadata_req, long, has, bare) refl
      | inr (reg, knows) ↦ rw (handle_metadata_req, long, has, knows) refl
    ]
  ]
]

-- Whatever a frame asks for, its handler changes neither what waits to be sent on the connection nor whether
-- it is read from.
pub handle-SameBuffers :
    (now : ℕ) (disk : Disk) (f : Frame) (node : Node) (conn : ConnectionState) (r : Reply)
    → handle now disk f node conn ≡ ok r
    → SameBuffers r.conn conn
unfolding handle
handle-SameBuffers now disk f node conn r e = elim (Bool-cases (f.op == op_metadata_req)) [
  | inl asks ↦
      same_conn (handle_metadata_req f node conn) (handle_metadata_req-conn f node conn)
        (rw asks at e)
  | inr not_metadata ↦ elim (Bool-cases (f.op == op_create_topic)) [
    | inl creates ↦
        same_conn (handle_create_topic now disk f node conn)
          (handle_create_topic-conn now disk f node conn) (rw (not_metadata, creates) at e)
    | inr not_create ↦ elim (Bool-cases (f.op == op_publish)) [
      | inl publishes ↦
          same_buffers (handle_publish now f node conn) (handle_publish-SameBuffers now f node conn)
            (rw (not_metadata, not_create, publishes) at e)
      | inr not_publish ↦ elim (Bool-cases (f.op == op_publish_v2)) [
        | inl keyed ↦
            same_buffers (handle_publish_v2 now f node conn)
              (handle_publish_v2-SameBuffers now f node conn)
              (rw (not_metadata, not_create, not_publish, keyed) at e)
        | inr not_keyed ↦ elim (Bool-cases (f.op == op_subscribe)) [
          | inl subscribes ↦
              same_buffers (handle_subscribe f node conn) (handle_subscribe-SameBuffers f node conn)
                (rw (not_metadata, not_create, not_publish, not_keyed, subscribes) at e)
          | inr not_subscribe ↦ elim (Bool-cases (f.op == op_fetch)) [
            | inl fetches ↦
                handle_fetch-SameBuffers f node conn r (
                  rw (not_metadata, not_create, not_publish, not_keyed, not_subscribe, fetches) at
                    e)
            | inr unknown ↦
                subst (λ k. SameBuffers k conn)
                  (ap (conn_in conn) (
                    rw (not_metadata, not_create, not_publish, not_keyed, not_subscribe, unknown) at
                      e))
                  (SameBuffers-refl conn)
          ]
        ]
      ]
    ]
  ]
]
  where
    same_buffers : (q : Reply) → SameBuffers q.conn conn → ok q ≡ ok r → SameBuffers r.conn conn
    same_buffers q s is = subst (λ k. SameBuffers k conn) (ap (conn_in conn) is) s

    same_conn : (q : Reply) → q.conn ≡ conn → ok q ≡ ok r → SameBuffers r.conn conn
    same_conn q s is =
        same_buffers q (subst (λ k. SameBuffers k conn) (sym s) (SameBuffers-refl conn)) is
