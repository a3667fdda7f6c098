-- ===== src/Broker/Routing.antt =====
-- Where a published message goes.
use fell.Base.{
  ℕ, zero, suc, ◌+◌, ◌%◌, ◌^◌, ◌≤◌, ◌<◌, ◌≡◌, ◌≢◌, ◌⊎◌, refl, ap, ◌∙◌, inl, inr, Bool, true, false,
  Bool-cases, List, [], ◌∷◌, Option, none, some, length, get_elem?, find, find-put, Option-cases,
  ltb, leb, ◌==◌, arith,
}
use fell.Storage.Store.{PartitionStore, append}
use fell.Storage.Store.Inv.{append_cases, accepted_store}
use fell.Broker.Protocol.{codes, encode_ack, encode_error, busy, internal_error}
use fell.Broker.Topics.{Topics, get_partition, set_partition, put_at}
use fell.Broker.Requests.{Node, Reply, denies, ConnectionState}
use fell.Broker.Publish.{publish_to, waits_for_all, choose, choose_v2, fnv1a, fnv_basis}

-- The partition that a request is sent to exists. Without a key, the request's own is taken, or, for
-- 65535, the one that the connection's counter points to; only a partition that is out of bounds is
-- refused.
pub choose_bounded :
    (partition rr_counter total : ℕ)
    → 0 < total
    → ((p : ℕ) × (used : Bool) × (choose partition rr_counter total ≡ some (p, used))
        × (p < total)
        × ((partition ≢ 65535 → p ≡ partition)
            × (partition ≡ 65535 → (p ≡ rr_counter % total) × (used ≡ true))))
      ⊎ ((choose partition rr_counter total ≡ none) × (total ≤ partition) × (partition ≢ 65535))
unfolding choose
choose_bounded partition rr_counter total some_partition = elim (Bool-cases (partition == 65535)) [
  | inl rr ↦ inl (
    rr_counter % total,
    true,
    rw rr refl,
    omega (arith, some_partition),
    (λ h. absurd (h (ground (arith, rr))), λ h. (refl, refl)),
  )
  | inr given ↦ elim (Bool-cases (leb total partition)) [
    | inl outside ↦ inr (rw (given, outside) refl, ground (arith, outside), ground (arith, given))
    | inr inside ↦ inl (
      partition,
      false,
      rw (given, inside) refl,
      ground (arith, inside),
      (λ h. refl, λ h. absurd (ground (arith, given, h))),
    )
  ]
]

-- Requests with the same key go to the same partition of a topic, whatever the connection and the
-- partition field say, and that partition exists.
pub choose_v2_keyed :
    (c : ℕ) (key : List ℕ) (partition rr_counter partition' rr_counter' total : ℕ)
    → 0 < total
    → total < 2 ^ 16
    → (p : ℕ) × (choose_v2 (c ∷ key) partition rr_counter total ≡ some (p, false))
      × (choose_v2 (c ∷ key) partition' rr_counter' total ≡ some (p, false))
      × (p < total)
unfolding choose_v2
choose_v2_keyed c key partition rr_counter partition' rr_counter' total some_partition small =
    let keyed : ltb 0 (suc (length key)) ≡ true = ground arith in
    (
      fnv1a fnv_basis (c ∷ key) % total % 2 ^ 16,
      rw keyed refl,
      rw keyed refl,
      omega (arith, some_partition, small),
    )

get_elem-put_at :
    (i : ℕ) (s t : PartitionStore) (ps : List (Option PartitionStore))
    → get_elem? ps i ≡ some (some t)
    → get_elem? (put_at i s ps) i ≡ some (some s)
get_elem-put_at i s t [] e = absurd (ground (arith, e))
get_elem-put_at zero s t (p ∷ ps) e = refl
get_elem-put_at (suc i) s t (p ∷ ps) e = get_elem-put_at i s t ps e

get_partition-set_partition :
    (topic : List ℕ) (partition : ℕ) (s t : PartitionStore) (topics : Topics)
    → get_partition topic partition topics ≡ some t
    → get_partition topic partition (set_partition topic partition s topics) ≡ some s
unfolding get_partition set_partition
get_partition-set_partition topic partition s t topics e = elim (Option-cases (find topic topics)) [
  | inl absent ↦ absurd (ground (arith, e, absent))
  | inr (ps, present) ↦ elim (Option-cases (get_elem? ps partition)) [
    | inl outside ↦ absurd (ground (arith, e, present, outside))
    | inr (p, there) ↦
        let same : p ≡ some t = ground (arith, e, present, there) in
        rw
          (
            get_partition,
            set_partition,
            present,
            find-put topic (put_at partition s ps) topics,
            get_elem-put_at partition s t ps (there ∙ ap some same),
          )
          refl
  ]
]

module _ (now : ℕ) (topic : List ℕ) (partition : ℕ) (payload : List ℕ) (node : Node)
    (conn : ConnectionState) (p : PartitionStore) where
  -- The node after the check of the role.
  abbrev checked : Node
  checked = (denies topic partition node).1

  -- The store has as many records queued as it may have, or the message does not fit its memory.
  abbrev pub IsFull : Type 0
  IsFull =
      (p.options.queue_capacity ≤ length p.queue)
      ⊎ (p.options.max_pending_bytes < p.pending_bytes + length payload)

  abbrev pub HasRoom : Type 0
  HasRoom =
      (p.shutdown ≡ false)
      × (length p.queue < p.options.queue_capacity)
      × (p.pending_bytes + length payload ≤ p.options.max_pending_bytes)

  abbrev answer : Reply
  answer = publish_to now topic partition payload node conn

  -- A message for a partition that this broker leads and has: the store decides the reply. Where
  -- it is closed, or open and full in records or bytes, it gives the error for that and defers nothing. Where
  -- it is open and has room, the message is accepted and answered with its offset, at once or, where all replicas must have it, by one deferred acknowledgement of that
  -- offset. In every case the partition is what the append made of it.
  pub publish_to-cases :
      (denies topic partition node).0 ≡ false
      → get_partition topic partition checked.topics ≡ some p
      → (get_partition topic partition answer.node.topics ≡ some (append now payload p).1)
        × (((p.shutdown ≡ true)
              × (answer.deferred ≡ [])
              × (answer.bytes ≡ encode_error internal_error (codes "Partition is closed")))
            ⊎ ((p.shutdown ≡ false)
                × IsFull
                × (answer.deferred ≡ [])
                × (answer.bytes ≡ encode_error busy (codes "Partition append queue is full")))
            ⊎ (HasRoom
                × (waits_for_all checked ≡ false)
                × (answer.deferred ≡ [])
                × (answer.bytes ≡ encode_ack p.next_offset)
                × ((append now payload p).1 ≡ accepted_store now payload p))
            ⊎ (HasRoom
                × (waits_for_all checked ≡ true)
                × (answer.bytes ≡ [])
                × (answer.deferred
                    ≡ record {
                      topic = topic;
                      partition = partition;
                      offset = p.next_offset;
                      ack_resp = encode_ack p.next_offset;
                      producer_fd = conn.fd;
                    }
                      ∷ [])
                × ((append now payload p).1 ≡ accepted_store now payload p)))
  unfolding publish_to
  publish_to-cases leads there = elim (append_cases now payload p) [
    | inl (down, e) ↦
        rw (publish_to, leads, there, e)
          (
            get_partition-set_partition topic partition p p checked.topics there,
            inl (down, refl, refl),
          )
    | inr (inl (up, full, e)) ↦
        rw (publish_to, leads, there, e)
          (
            get_partition-set_partition topic partition _ p checked.topics there,
            inr (inl (up, full, refl, refl)),
          )
    | inr (inr (up, fits, small, e)) ↦ elim (Bool-cases (waits_for_all checked)) [
      | inl all ↦
          rw (publish_to, leads, there, e, all)
            (
              get_partition-set_partition topic partition _ p checked.topics there,
              inr (inr (inr ((up, fits, small), refl, refl, refl, refl))),
            )
      | inr one ↦
          rw (publish_to, leads, there, e, one)
            (
              get_partition-set_partition topic partition _ p checked.topics there,
              inr (inr (inl ((up, fits, small), refl, refl, refl, refl))),
            )
    ]
  ]
