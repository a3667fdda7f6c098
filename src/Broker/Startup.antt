-- ===== src/Broker/Startup.antt =====
-- What `initialize_replication` starts: a manager where this broker leads, and a client elsewhere.
use fell.Base.{
  map, ◌%◌, ◌^◌, ℕ, zero, suc, ◌+◌, ◌≤◌, ◌<◌, ◌≡◌, ◌≢◌, refl, sym, ◌∙◌, ◌⊎◌, inl, inr, Bool, true,
  false, Bool-cases, List, [], ◌∷◌, All, some, Option-cases, find, find-put, find-put_cases,
  find-put_keeps, same_text, same_text→≡, same_text-differ, subst, arith, ◌==◌,
}
use fell.Replication.Meta.{PartitionMeta, Registry, get, make_key, assign_roles}
use fell.Replication.Roles.{get-found, get_other}
use fell.Replication.Manager.{ReplicaManager}
use fell.Replication.Client.{ReplicationClient}
use fell.Broker.Requests.{is_leader}
use fell.Broker.Topics.{list_topics}
use fell.Broker.Wiring.{
  Broker, replication_key, get_or_create_replica_manager, get_or_create_replication_client,
  start_partition, start_partitions, start_topics, initialize_replication,
}

-- The registry's entry for a key exists and leads, or does not lead.
abbrev pub Leads : Bool → List ℕ → Registry → Type 0
Leads leads key reg = (m : PartitionMeta) × (find key reg ≡ some m) × (is_leader m.role ≡ leads)

-- Every manager is for a partition that this broker leads, and every client for one that it does not.
pub record Wired (b : Broker) : Type 0 where
  pub managers :
      (key : List ℕ) (rm : ReplicaManager)
      → find key b.replica_managers ≡ some rm
      → Leads true key b.meta_reg
  pub clients :
      (key : List ℕ) (rc : ReplicationClient)
      → find key b.replica_clients ≡ some rc
      → Leads false key b.meta_reg

-- A partition is served: it has a manager, or a client.
abbrev pub Served : List ℕ → Broker → Type 0
Served key b =
    ((rm : ReplicaManager) × (find key b.replica_managers ≡ some rm))
    ⊎ ((rc : ReplicationClient) × (find key b.replica_clients ≡ some rc))

key_same : (topic : List ℕ) (p : ℕ) → replication_key topic p ≡ make_key topic p
unfolding replication_key make_key
key_same topic p = refl

module _ (topic : List ℕ) (p : ℕ) where
  -- `get` takes no entry away and changes none.
  get-keeps :
      (reg : Registry) (key : List ℕ) (m : PartitionMeta)
      → find key reg ≡ some m
      → find key (get topic p reg).1 ≡ some m
  unfolding get
  get-keeps reg key m e = elim (Option-cases (find (make_key topic p) reg)) [
    | inl absent ↦ elim (Bool-cases (same_text (make_key topic p) key)) [
      | inl same ↦ absurd (
          ground (
            arith,
            absent,
            subst (λ k. find k reg ≡ some m) (sym (same_text→≡ (make_key topic p) key same)) e,
          ))
      | inr differs ↦
          get_other 0 0 topic p key reg (same_text-differ (make_key topic p) key differs) ∙ e
    ]
    | inr (x, present) ↦ rw (get, present) e
  ]

  get-Leads :
      (leads : Bool) (reg : Registry) (key : List ℕ)
      → Leads leads key reg
      → Leads leads key (get topic p reg).1
  get-Leads leads reg key (m, e, l) = (m, get-keeps reg key m e, l)

  seen-Wired : (b : Broker) → Wired b → Wired (record b { meta_reg = (get topic p b.meta_reg).1 })
  seen-Wired b v = record {
    managers = λ key rm e. get-Leads true b.meta_reg key (v.managers key rm e);
    clients = λ key rc e. get-Leads false b.meta_reg key (v.clients key rc e);
  }

  here_Leads :
      (leads : Bool) (reg : Registry)
      → is_leader (get topic p reg).0.role ≡ leads
      → Leads leads (replication_key topic p) (get topic p reg).1
  here_Leads leads reg l = (
    (get topic p reg).0,
    subst (λ k. find k (get topic p reg).1 ≡ some (get topic p reg).0) (sym (key_same topic p))
        (get-found 0 0 topic p reg),
    l,
  )

  manager-Wired :
      (b : Broker)
      → Leads true (replication_key topic p) b.meta_reg
      → Wired b
      → Wired (get_or_create_replica_manager topic p b)
  unfolding get_or_create_replica_manager
  manager-Wired b here v = elim (Option-cases (find (replication_key topic p) b.replica_managers)) [
    | inr (rm, present) ↦ rw (get_or_create_replica_manager, present) v
    | inl absent ↦
        rw (get_or_create_replica_manager, absent)
          (record {
            managers = λ key rm e.
                elim (find-put_cases (replication_key topic p) key _ rm b.replica_managers e) [
                  | inl same ↦
                      subst (λ k. Leads true k (get topic p b.meta_reg).1) same
                        (get-Leads true b.meta_reg (replication_key topic p) here)
                  | inr old ↦ get-Leads true b.meta_reg key (v.managers key rm old)
                ];
            clients = λ key rc e. get-Leads false b.meta_reg key (v.clients key rc e);
          })
  ]

  client-Wired :
      (b : Broker)
      → Leads false (replication_key topic p) b.meta_reg
      → Wired b
      → Wired (get_or_create_replication_client topic p b)
  unfolding get_or_create_replication_client
  client-Wired b here v = elim (Option-cases (find (replication_key topic p) b.replica_clients)) [
    | inr (rc, present) ↦ rw (get_or_create_replication_client, present) v
    | inl absent ↦
        rw (get_or_create_replication_client, absent)
          (record {
            managers = v.managers;
            clients = λ key rc e.
                elim (find-put_cases (replication_key topic p) key _ rc b.replica_clients e) [
                  | inl same ↦ subst (λ k. Leads false k b.meta_reg) same here
                  | inr old ↦ v.clients key rc old
                ];
          })
  ]

  manager-Served :
      (b : Broker)
      → Served (replication_key topic p) (get_or_create_replica_manager topic p b)
        × ((key : List ℕ) → Served key b → Served key (get_or_create_replica_manager topic p b))
  unfolding get_or_create_replica_manager
  manager-Served b = elim (Option-cases (find (replication_key topic p) b.replica_managers)) [
    | inr (rm, present) ↦
        rw (get_or_create_replica_manager, present) (inl (rm, present), λ key s. s)
    | inl absent ↦
        rw (get_or_create_replica_manager, absent)
          (
            inl (_, find-put (replication_key topic p) _ b.replica_managers),
            λ key s. elim s [
              | inl (rm, e) ↦
                  inl (find-put_keeps (replication_key topic p) key _ rm b.replica_managers e)
              | inr held ↦ inr held
            ],
          )
  ]

  client-Served :
      (b : Broker)
      → Served (replication_key topic p) (get_or_create_replication_client topic p b)
        × ((key : List ℕ) → Served key b → Served key (get_or_create_replication_client topic p b))
  unfolding get_or_create_replication_client
  client-Served b = elim (Option-cases (find (replication_key topic p) b.replica_clients)) [
    | inr (rc, present) ↦
        rw (get_or_create_replication_client, present) (inr (rc, present), λ key s. s)
    | inl absent ↦
        rw (get_or_create_replication_client, absent)
          (
            inr (_, find-put (replication_key topic p) _ b.replica_clients),
            λ key s. elim s [
              | inl held ↦ inl held
              | inr (rc, e) ↦
                  inr (find-put_keeps (replication_key topic p) key _ rc b.replica_clients e)
            ],
          )
  ]

  -- What starting one partition does.
  start_partition-Wired :
      (b : Broker)
      → Wired b
      → Wired (start_partition topic p b)
        × (Served (replication_key topic p) (start_partition topic p b)
            × ((key : List ℕ) → Served key b → Served key (start_partition topic p b)))
  unfolding start_partition
  start_partition-Wired b v =
      let seen : Broker = record b { meta_reg = (get topic p b.meta_reg).1 } in
      elim (Bool-cases (is_leader (get topic p b.meta_reg).0.role)) [
        | inl leads ↦
            rw (start_partition, leads)
              (
                manager-Wired seen (here_Leads true b.meta_reg leads) (seen-Wired b v),
                manager-Served seen,
              )
        | inr elsewhere ↦
            rw (start_partition, elsewhere)
              (
                client-Wired seen (here_Leads false b.meta_reg elsewhere) (seen-Wired b v),
                client-Served seen,
              )
      ]

start_partitions-Wired :
    (topic : List ℕ) (p count : ℕ) (b : Broker)
    → Wired b
    → let c = start_partitions topic p count b in
      Wired c
      × ((q : ℕ) → p ≤ q → q < p + count → Served (replication_key topic q) c)
      × ((key : List ℕ) → Served key b → Served key c)
unfolding start_partitions
start_partitions-Wired topic p zero b v =
    (v, λ q low high. absurd (omega (arith, low, high)), λ key s. s)
start_partitions-Wired topic p (suc count) b v =
    let (w, (served, kept)) = start_partition-Wired topic p b v in
    let (last, rest, keeps) =
      start_partitions-Wired topic (suc p) count (start_partition topic p b) w in
    (
      last,
      λ q low high. elim (Bool-cases (p == q)) [
        | inl here ↦
            subst
              (λ i.
                Served (replication_key topic i)
                  (start_partitions topic (suc p) count (start_partition topic p b)))
              {x = p} {y = q} (ground (arith, here)) (keeps (replication_key topic p) served)
        | inr later ↦ rest q (ground (arith, low, later)) (omega (arith, high))
      ],
      λ key s. keeps key (kept key s),
    )

find-none :
    {A : Type 0} (key : List ℕ) (a : A) (m : List (List ℕ × A)) → m ≡ [] → find key m ≢ some a
find-none key a m e f = absurd (ground (arith, subst (λ l. find key l ≡ some a) e f))

-- Every partition of these topics is served.
abbrev pub AllServed : List (List ℕ × ℕ) → Broker → Type 0
AllServed topics b = All (λ t. (p : ℕ) → p < t.1 → Served (replication_key t.0 p) b) topics

start_topics-Wired :
    (topics : List (List ℕ × ℕ)) (b : Broker)
    → Wired b
    → let c = start_topics topics b in
      Wired c × AllServed topics c × ((key : List ℕ) → Served key b → Served key c)
unfolding start_topics
start_topics-Wired [] b v = (v, tt, λ key s. s)
start_topics-Wired ((topic, count) ∷ topics) b v =
    let (w, served, kept) = start_partitions-Wired topic 0 count b v in
    let (last, rest, keeps) = start_topics-Wired topics (start_partitions topic 0 count b) w in
    (
      last,
      (λ p h. keeps (replication_key topic p) (served p (omega arith) (omega (arith, h))), rest),
      λ key s. keeps key (kept key s),
    )

-- A broker without managers and clients has, after `initialize_replication`, a manager or a client for
-- each partition of each of its topics, managers only for partitions whose metadata says that it leads
-- them, and clients only for others.
pub initialize_replication-Wired :
    (b : Broker)
    → b.replica_managers ≡ []
    → b.replica_clients ≡ []
    → let c = initialize_replication b in Wired c × AllServed (list_topics b.topics) c
unfolding initialize_replication
initialize_replication-Wired b no_managers no_clients =
    let assigned =
      assign_roles b.broker_id ((1 + b.peers) % 2 ^ 32) (map (λ t. t.0) (list_topics b.topics))
        (map (λ t. t.1) (list_topics b.topics)) b.meta_reg in
    let (wired, served, _) =
      start_topics-Wired (list_topics b.topics) (record b { meta_reg = assigned })
        (record {
          managers = λ key rm e. absurd (find-none key rm b.replica_managers no_managers e);
          clients = λ key rc e. absurd (find-none key rc b.replica_clients no_clients e);
        }) in
    (wired, served)
