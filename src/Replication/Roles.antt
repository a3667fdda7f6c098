-- ===== src/Replication/Roles.antt =====
-- What `assign_roles` leaves in the registry.
use fell.Base.{
  ℕ, zero, suc, ◌+◌, ◌^◌, ◌≤◌, ◌<◌, ◌≡◌, ◌≢◌, refl, ap, ◌∙◌, inl, inr, false, Bool-cases, List, [],
  ◌∷◌, some, Option-cases, subst, find, sym, true, length, get_elem?, ◌%◌, find-put, find-put_other,
  ◌==◌, arith,
}
use fell.Replication.Meta.{
  ReplicaState, PartitionMeta, leader, follower, fresh_replicas, Registry, make_key, new_meta, get,
  assigned, assign_partition, assign_partitions, assign_roles, assign_topics,
}
use fell.Replication.Keys.{make_key-injective}

-- A replica in the ISR that has acknowledged nothing.
abbrev pub fresh_replica : ℕ → ReplicaState
fresh_replica id = record {
  broker_id = id;
  next_offset = 0;
  ack_offset = 0;
  last_seen_ms = 0;
  in_isr = true;
}

-- The metadata of a partition after its assignment, and what they were before: its leader, this broker's
-- role, and the replicas `0` to `num_brokers - 1`, all in the ISR and with nothing acknowledged.
pub record IsAssigned (broker_id num_brokers p : ℕ) (before after : PartitionMeta) : Type 0 where
  pub led_by : after.leader_id ≡ p % num_brokers
  pub leads : p % num_brokers ≡ broker_id → after.role ≡ leader
  pub follows : p % num_brokers ≢ broker_id → after.role ≡ follower
  pub all_replicas : length after.replicas ≡ num_brokers
  pub replica : (id : ℕ) → id < num_brokers → get_elem? after.replicas id ≡ some (fresh_replica id)
  pub same_epoch : after.epoch ≡ before.epoch
  pub same_topic : after.topic ≡ before.topic
  pub same_partition : after.partition_idx ≡ before.partition_idx

length-fresh_replicas : (n rid : ℕ) → length (fresh_replicas n rid) ≡ n
length-fresh_replicas zero rid = refl
length-fresh_replicas (suc n) rid = ap suc (length-fresh_replicas n (suc rid))

get_elem-fresh_replicas :
    (n rid i : ℕ) → i < n → get_elem? (fresh_replicas n rid) i ≡ some (fresh_replica (rid + i))
get_elem-fresh_replicas zero rid i h = absurd (omega (arith, h))
get_elem-fresh_replicas (suc n) rid zero h =
    ap (λ k. some (fresh_replica k)) {x = rid} {y = rid + 0} (omega arith)
get_elem-fresh_replicas (suc n) rid (suc i) h =
    get_elem-fresh_replicas n (suc rid) i (omega (arith, h))
    ∙ ap (λ k. some (fresh_replica k)) {x = suc rid + i} {y = rid + suc i} (omega arith)

assigned-IsAssigned :
    (broker_id num_brokers p : ℕ) (m : PartitionMeta)
    → IsAssigned broker_id num_brokers p m (assigned broker_id num_brokers p m)
assigned-IsAssigned broker_id num_brokers p m = record {
  led_by = refl;
  leads = λ e. let same : (p % num_brokers == broker_id) ≡ true = ground (arith, e) in rw same refl;
  follows =
      λ e. let other : (p % num_brokers == broker_id) ≡ false = ground (arith, e) in rw other refl;
  all_replicas = length-fresh_replicas num_brokers 0;
  replica = λ id h.
      get_elem-fresh_replicas num_brokers 0 id h
      ∙ ap (λ k. some (fresh_replica k)) {x = 0 + id} {y = id} (omega arith);
  same_epoch = refl;
  same_topic = refl;
  same_partition = refl;
}

module _ (broker_id num_brokers : ℕ) (topic : List ℕ) where
  pub get-found :
      (p : ℕ) (reg : Registry)
      → find (make_key topic p) (get topic p reg).1 ≡ some (get topic p reg).0
  unfolding get
  get-found p reg = elim (Option-cases (find (make_key topic p) reg)) [
    | inl absent ↦ rw (get, absent) (find-put (make_key topic p) (new_meta topic p) reg)
    | inr (m, present) ↦ rw (get, present) present
  ]

  pub get_other :
      (p : ℕ) (key : List ℕ) (reg : Registry)
      → make_key topic p ≢ key
      → find key (get topic p reg).1 ≡ find key reg
  unfolding get
  get_other p key reg h = elim (Option-cases (find (make_key topic p) reg)) [
    | inl absent ↦ rw (get, absent) (find-put_other (make_key topic p) key (new_meta topic p) reg h)
    | inr (m, present) ↦ rw (get, present) refl
  ]

  get-cong :
      (p : ℕ) (r t : Registry)
      → find (make_key topic p) r ≡ find (make_key topic p) t
      → (get topic p r).0 ≡ (get topic p t).0
  unfolding get
  get-cong p r t e = elim (Option-cases (find (make_key topic p) t)) [
    | inl absent ↦ rw (get, e ∙ absent, absent) refl
    | inr (m, present) ↦ rw (get, e ∙ present, present) refl
  ]

  assign_partition_here :
      (p : ℕ) (reg : Registry)
      → find (make_key topic p) (assign_partition broker_id num_brokers topic p reg)
        ≡ some (assigned broker_id num_brokers p (get topic p reg).0)
  unfolding assign_partition
  assign_partition_here p reg = find-put (make_key topic p) _ (get topic p reg).1

  assign_partition_other :
      (p : ℕ) (key : List ℕ) (reg : Registry)
      → make_key topic p ≢ key
      → find key (assign_partition broker_id num_brokers topic p reg) ≡ find key reg
  unfolding assign_partition
  assign_partition_other p key reg h =
      find-put_other (make_key topic p) key _ (get topic p reg).1 h ∙ get_other p key reg h

  keys_differ : (p q : ℕ) → p < 2 ^ 16 → q < 2 ^ 16 → p ≢ q → make_key topic p ≢ make_key topic q
  keys_differ p q hp hq differ e = differ (make_key-injective topic topic p q hp hq e).1

  assign_partitions_before :
      (count p q : ℕ) (reg : Registry)
      → p + count ≤ 2 ^ 16
      → q < p
      → find (make_key topic q) (assign_partitions broker_id num_brokers topic p count reg)
        ≡ find (make_key topic q) reg
  unfolding assign_partitions
  assign_partitions_before zero p q reg room h = refl
  assign_partitions_before (suc count) p q reg room h =
      assign_partitions_before count (suc p) q _ (omega (arith, room)) (omega (arith, h))
      ∙ assign_partition_other p (make_key topic q) reg (
          keys_differ p q (omega (arith, room)) (omega (arith, room, h))
            (λ e. absurd (omega (arith, e, h))))

  assign_partitions_in :
      (count p q : ℕ) (reg : Registry)
      → p + count ≤ 2 ^ 16
      → p ≤ q
      → q < p + count
      → find (make_key topic q) (assign_partitions broker_id num_brokers topic p count reg)
        ≡ some (assigned broker_id num_brokers q (get topic q reg).0)
  unfolding assign_partitions
  assign_partitions_in zero p q reg room low high = absurd (omega (arith, low, high))
  assign_partitions_in (suc count) p q reg room low high = elim (Bool-cases (p == q)) [
    | inl here ↦
        assign_partitions_before count (suc p) q _ (omega (arith, room)) (ground (arith, here))
        ∙ subst
            (λ k.
              find (make_key topic k) (assign_partition broker_id num_brokers topic p reg)
              ≡ some (assigned broker_id num_brokers k (get topic k reg).0))
            {x = p} {y = q} (ground (arith, here)) (assign_partition_here p reg)
    | inr later ↦
        assign_partitions_in count (suc p) q _ (omega (arith, room)) (ground (arith, low, later))
          (omega (arith, high))
        ∙ ap (λ m. some (assigned broker_id num_brokers q m))
            (get-cong q _ reg (
              assign_partition_other p (make_key topic q) reg (
                keys_differ p q (omega (arith, room)) (omega (arith, room, high))
                  (λ e. absurd (ground (arith, e, later))))))
  ]

  -- The entry of each partition of the topic is made from what it was.
  assign_roles-assigned :
      (count q : ℕ) (reg : Registry)
      → 0 < num_brokers
      → count < 2 ^ 16
      → q < count
      → (get topic q (assign_roles broker_id num_brokers (topic ∷ []) (count ∷ []) reg)).0
        ≡ assigned broker_id num_brokers q (get topic q reg).0
  unfolding assign_roles assign_topics get
  assign_roles-assigned count q reg some_broker room inside =
      let none_zero : (num_brokers == 0) ≡ false = ground (arith, some_broker) in
      let found =
        assign_partitions_in count 0 q reg (omega (arith, room)) (omega arith)
          (omega (arith, inside)) in
      rw (none_zero, get, found) refl

  -- With at least one broker, `assign_roles` for a topic makes broker `q % num_brokers` the leader of each of
  -- its partitions `q`. This broker has the role of a leader exactly there where that is its id, and that
  -- of a follower elsewhere. The replicas are the brokers from 0 to `num_brokers - 1`, each in the ISR and
  -- with nothing acknowledged. The partition's epoch stays what it was.
  pub assign_roles-IsAssigned :
      (count q : ℕ) (reg : Registry)
      → 0 < num_brokers
      → count < 2 ^ 16
      → q < count
      → IsAssigned broker_id num_brokers q
          (get topic q reg).0
          (get topic q (assign_roles broker_id num_brokers (topic ∷ []) (count ∷ []) reg)).0
  assign_roles-IsAssigned count q reg some_broker room inside =
      subst (IsAssigned broker_id num_brokers q (get topic q reg).0)
        (sym (assign_roles-assigned count q reg some_broker room inside))
        (assigned-IsAssigned broker_id num_brokers q (get topic q reg).0)
