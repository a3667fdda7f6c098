-- ===== src/Broker/Dispatch/Publishing.antt =====
-- Publishing leaves the outgoing bytes of a connection and its reading alone.
use fell.Base.{
  ℕ, ◌+◌, ◌≡◌, refl, sym, inl, inr, Bool, true, false, Bool-cases, Option-cases, List, Option,
  length, take, drop, ltb, subst, ◌==◌,
}
use fell.Frame.{Frame}
use fell.Storage.Store.{append}
use fell.Wire.{read_be32, byte_at}
use fell.Broker.Protocol.{topic_of, partition_of, size_publish, size_publish_v2}
use fell.Broker.Topics.{num_partitions, get_partition}
use fell.Broker.Requests.{ConnectionState, Node, denies}
use fell.Broker.Publish.{
  publish_to, route, advance, choose, choose_v2, waits_for_all, handle_publish, handle_publish_v2,
}

-- A handler leaves what the loop keeps of a connection alone.
pub record SameBuffers (a b : ConnectionState) : Type 0 where
  pub outbound : a.outbound ≡ b.outbound
  pub write_offset : a.write_offset ≡ b.write_offset
  pub read_disabled : a.read_disabled ≡ b.read_disabled

pub SameBuffers-refl : (a : ConnectionState) → SameBuffers a a
SameBuffers-refl a = record { outbound = refl; write_offset = refl; read_disabled = refl }

publish_to-conn :
    (now : ℕ) (topic : List ℕ) (partition : ℕ) (payload : List ℕ) (node : Node)
    (conn : ConnectionState)
    → (publish_to now topic partition payload node conn).conn ≡ conn
unfolding publish_to
publish_to-conn now topic partition payload node conn =
    let n = (denies topic partition node).1 in
    elim (Bool-cases (denies topic partition node).0) [
      | inl denied ↦ rw (publish_to, denied) refl
      | inr leads ↦ elim (Option-cases (get_partition topic partition n.topics)) [
        | inl lost ↦ rw (publish_to, leads, lost) refl
        | inr (p, found) ↦ elim (Bool-cases (append now payload p).0.accepted) [
          | inr turned_away ↦ rw (publish_to, leads, found, turned_away) refl
          | inl taken ↦ elim (Bool-cases (waits_for_all n)) [
            | inl all ↦ rw (publish_to, leads, found, taken, all) refl
            | inr one ↦ rw (publish_to, leads, found, taken, one) refl
          ]
        ]
      ]
    ]

advance-SameBuffers : (used : Bool) (conn : ConnectionState) → SameBuffers (advance used conn) conn
advance-SameBuffers true conn = record {
  outbound = refl;
  write_offset = refl;
  read_disabled = refl;
}
advance-SameBuffers false conn = SameBuffers-refl conn

route-SameBuffers :
    (now : ℕ) (topic : List ℕ) (chosen : Option (ℕ × Bool)) (body : List ℕ) (node : Node)
    (conn : ConnectionState)
    → SameBuffers (route now topic chosen body node conn).conn conn
unfolding route
route-SameBuffers now topic chosen body node conn = elim (Bool-cases (length topic == 0)) [
  | inl empty ↦ rw (route, empty) (SameBuffers-refl conn)
  | inr named ↦ elim (Bool-cases (num_partitions topic node.topics == 0)) [
    | inl absent ↦ rw (route, named, absent) (SameBuffers-refl conn)
    | inr there ↦ elim (Option-cases chosen) [
      | inl outside ↦ rw (route, named, there, outside) (SameBuffers-refl conn)
      | inr ((p, used), inside) ↦
          rw (route, named, there, inside)
            (subst (λ c. SameBuffers c conn)
              (sym (publish_to-conn now topic p body node (advance used conn)))
              (advance-SameBuffers used conn))
    ]
  ]
]

abbrev counted : Node → Node
counted node = record node { publish_requests_total = node.publish_requests_total + 1 }

pub handle_publish-SameBuffers :
    (now : ℕ) (f : Frame) (node : Node) (conn : ConnectionState)
    → SameBuffers (handle_publish now f node conn).conn conn
unfolding handle_publish
handle_publish-SameBuffers now f node conn =
    elim (Bool-cases (ltb (length f.payload) size_publish)) [
      | inl short ↦ rw (handle_publish, short) (SameBuffers-refl conn)
      | inr long ↦
          elim (Bool-cases (length f.payload == size_publish + read_be32 (drop 258 f.payload))) [
            | inr torn ↦ rw (handle_publish, long, torn) (SameBuffers-refl conn)
            | inl whole ↦
                rw (handle_publish, long, whole)
                  (route-SameBuffers now (topic_of f.payload)
                    (choose (partition_of f.payload) conn.rr_counter
                      (num_partitions (topic_of f.payload) node.topics))
                    (drop size_publish f.payload) (counted node) conn)
          ]
    ]

pub handle_publish_v2-SameBuffers :
    (now : ℕ) (f : Frame) (node : Node) (conn : ConnectionState)
    → SameBuffers (handle_publish_v2 now f node conn).conn conn
unfolding handle_publish_v2
handle_publish_v2-SameBuffers now f node conn =
    elim (Bool-cases (ltb (length f.payload) size_publish_v2)) [
      | inl short ↦ rw (handle_publish_v2, short) (SameBuffers-refl conn)
      | inr long ↦
          elim (Bool-cases (length f.payload == size_publish_v2 + read_be32 (drop 514 f.payload))) [
            | inr torn ↦ rw (handle_publish_v2, long, torn) (SameBuffers-refl conn)
            | inl whole ↦
                rw (handle_publish_v2, long, whole)
                  (route-SameBuffers now (topic_of f.payload)
                    (choose_v2 (take (byte_at f.payload 258) (drop 259 f.payload))
                      (partition_of f.payload) conn.rr_counter
                      (num_partitions (topic_of f.payload) node.topics))
                    (drop size_publish_v2 f.payload) (counted node) conn)
          ]
    ]
