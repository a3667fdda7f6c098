-- ===== src/Broker/Refused.antt =====
-- The refusals of the checks that subscribe and fetch share.
use fell.Base.{
  ℕ, ◌≡◌, refl, ◌⊎◌, inl, inr, Bool-cases, Option-cases, List, length, leb, ◌==◌, arith,
}
use fell.Storage.Store.{PartitionStore}
use fell.Broker.Protocol.{
  ErrCode, malformed_request, unknown_topic, unknown_partition, not_leader, codes, encode_error,
}
use fell.Broker.Topics.{num_partitions, get_partition}
use fell.Broker.Requests.{ConnectionState, Node, Reply, reply, denies}
use fell.Broker.Consume.{resolve}

-- A request that is refused is answered with an error.
refused_as :
    (x : Reply ⊎ (Node × PartitionStore)) (r : Reply) (code : ErrCode) (text : List ℕ) (n : Node)
    (conn : ConnectionState)
    → x ≡ inl r
    → x ≡ inl (reply (encode_error code text) n conn)
    → (c : ErrCode) × (t : List ℕ) × (k : Node) × (r ≡ reply (encode_error c t) k conn)
refused_as x r code text n conn e d =
    let same : r ≡ reply (encode_error code text) n conn = cc in (code, text, n, same)

pub resolve_refused :
    (topic : List ℕ) (partition : ℕ) (node : Node) (conn : ConnectionState) (r : Reply)
    → resolve topic partition node conn ≡ inl r
    → (code : ErrCode) × (text : List ℕ) × (n : Node) × (r ≡ reply (encode_error code text) n conn)
unfolding resolve
resolve_refused topic partition node conn r e =
    let x = resolve topic partition node conn in
    let n = (denies topic partition node).1 in
    elim (Bool-cases (length topic == 0)) [
      | inl empty ↦
          refused_as x r malformed_request (codes "Topic name cannot be empty") node conn e
            (rw (resolve, empty) refl)
      | inr named ↦ elim (Bool-cases (num_partitions topic node.topics == 0)) [
        | inl absent ↦
            refused_as x r unknown_topic (codes "Topic does not exist") node conn e
              (rw (resolve, named, absent) refl)
        | inr there ↦ elim (Bool-cases (leb (num_partitions topic node.topics) partition)) [
          | inl outside ↦
              refused_as x r unknown_partition (codes "Partition index out of bounds") node conn e
                (rw (resolve, named, there, outside) refl)
          | inr inside ↦ elim (Bool-cases (denies topic partition node).0) [
            | inl denied ↦
                refused_as x r not_leader (codes "Not leader for partition") n conn e
                  (rw (resolve, named, there, inside, denied) refl)
            | inr leads ↦ elim (Option-cases (get_partition topic partition n.topics)) [
              | inl lost ↦
                  refused_as x r unknown_partition (codes "Partition registry lookup failed") n conn
                    e (rw (resolve, named, there, inside, leads, lost) refl)
              | inr (p, found) ↦
                  let gives : x ≡ inr (n, p) =
                    rw (resolve, named, there, inside, leads, found) refl in
                  absurd (ground (arith, e, gives))
            ]
          ]
        ]
      ]
    ]
