-- ===== src/Replication/Convergence.antt =====
-- A follower that commits each record before the next one arrives: its log becomes the leader's, up to
-- timestamps.
use fell.Base.{
  All, ℕ, suc, ◌^◌, ◌≤◌, ◌<◌, ◌≡◌, refl, sym, ap, ap₂, ◌∙◌, true, Bool, List, [], ◌∷◌, ◌++◌, length,
  map, append_assoc, append-nil, arith, subst,
}
use fell.Storage.{StoredMessage, StorageOptions, IsStorable}
use fell.Storage.Index.Lookup.{Consecutive}
use fell.Storage.Format.{log_of, log_of-append}
use fell.Storage.Reader.{Outcome, ok, threw, stuck}
use fell.Storage.Store.{PartitionStore}
use fell.Storage.Store.Inv.{IsInput}
use fell.Storage.Store.Growth.{partition_log}
use fell.Replication.Client.{ReplicationClient, ack_of}
use fell.Replication.Follow.{header_of, IsHeader}
use fell.Replication.Settle.{Ready, Received, receive, receive-Received}

-- The frames of these records, each committed before the next one.
unfoldable pub follow :
    (ℕ → Bool)
    → (ℕ → ℕ)
    → List ℕ
    → ℕ
    → ℕ
    → List StoredMessage
    → PartitionStore
    → ReplicationClient
    → Outcome (PartitionStore × ReplicationClient)
unfolding receive
follow io clock topic partition epoch [] s c = ok (s, c)
follow io clock topic partition epoch (m ∷ ms) s c =
    elim (receive io (clock m.offset) (header_of topic partition epoch m) m.payload s c) [
      | threw ↦ threw
      | stuck ↦ stuck
      | ok (t, d) ↦ follow io clock topic partition epoch ms t d
    ]

-- What a follower keeps of a record.
abbrev pub kept : StoredMessage → ℕ × List ℕ
kept m = (m.offset, m.payload)

record Followed (ms : List StoredMessage) (topic : List ℕ) (partition epoch : ℕ)
    (s : PartitionStore) (c : ReplicationClient)
    (outcome : Outcome (PartitionStore × ReplicationClient)) : Type 0 where
  store : PartitionStore
  client : ReplicationClient
  news : List StoredMessage
  returns : outcome ≡ ok (store, client)
  log : partition_log store ≡ partition_log s ++ log_of news
  same : map kept news ≡ map kept ms
  connected : client.fd ≡ c.fd
  acks :
      client.out_acks
      ≡ c.out_acks ++ map (λ m. ack_of c.broker_id (header_of topic partition epoch m)) ms

-- A record received and the others behind it.
receive-Followed :
    (io : ℕ → Bool) (clock : ℕ → ℕ) (topic : List ℕ) (partition epoch : ℕ) (o : StorageOptions)
    (m : StoredMessage) (ms : List StoredMessage) (s : PartitionStore) (c : ReplicationClient)
    (one : Received o
      (header_of topic partition epoch m)
      m.payload
      s
      c
      (receive io (clock m.offset) (header_of topic partition epoch m) m.payload s c))
    → Followed ms topic partition epoch one.store one.client
        (follow io clock topic partition epoch ms one.store one.client)
    → Followed
        (m ∷ ms)
        topic
        partition
        epoch
        s
        c
        (follow io clock topic partition epoch (m ∷ ms) s c)
unfolding follow
receive-Followed io clock topic partition epoch o m ms s c one rest =
    let new : StoredMessage = record {
      offset = m.offset;
      timestamp_ms = one.stamp;
      payload = m.payload;
    } in
    record {
      store = rest.store;
      client = rest.client;
      news = new ∷ rest.news;
      returns = rw (follow, one.returns) rest.returns;
      log =
          rest.log
          ∙ ap (λ l. l ++ log_of rest.news) one.log
          ∙ append_assoc (partition_log s) (log_of (new ∷ [])) (log_of rest.news)
          ∙ ap (◌++◌ (partition_log s)) (sym (log_of-append (new ∷ []) rest.news));
      same = ap (◌∷◌ (kept m)) rest.same;
      connected = rest.connected ∙ one.connected;
      acks =
          rest.acks
          ∙ ap₂ (λ a b. a ++ map (λ x. ack_of b (header_of topic partition epoch x)) ms) one.acks
              one.same_broker
          ∙ append_assoc c.out_acks _ _;
    }

module _ (io : ℕ → Bool) (all : (j : ℕ) → io j ≡ true) (o : StorageOptions)
    (room : 0 < o.queue_capacity) (clock : ℕ → ℕ) (ticks : (i : ℕ) → clock i < 2 ^ 64)
    (topic : List ℕ) (partition epoch : ℕ) (short : length topic ≤ 255) (few : partition < 2 ^ 16)
    (early : epoch < 2 ^ 32) where
  follow-Followed :
      (ms : List StoredMessage) (s : PartitionStore) (c : ReplicationClient)
      → Ready o s
      → Consecutive s.writer.next_offset ms
      → All (λ m. IsStorable m × (length m.payload ≤ o.max_pending_bytes)) ms
      → Followed ms topic partition epoch s c (follow io clock topic partition epoch ms s c)
  unfolding follow
  follow-Followed [] s c ready next fit = record {
    store = s;
    client = c;
    news = [];
    returns = refl;
    log = sym (append-nil (partition_log s));
    same = refl;
    connected = refl;
    acks = sym (append-nil c.out_acks);
  }
  follow-Followed (m ∷ ms) s c ready (next, nexts) ((storable, small), fit) =
      let h = header_of topic partition epoch m in
      let size : h.payload_size ≡ length m.payload = omega (arith, storable.size_u32) in
      let header : IsHeader h = record {
        topic_u8 = short;
        partition_u16 = few;
        epoch_u32 = early;
        offset_u64 = storable.offset_u64;
        timestamp_u64 = storable.timestamp_u64;
        size_u32 = omega arith;
      } in
      let input : IsInput (clock m.offset) m.payload = record {
        now_u64 = ticks m.offset;
        size_u32 = storable.size_u32;
        bytes = storable.payload_bytes;
      } in
      let one =
        receive-Received io all o room (clock m.offset) h m.payload s c ready header next size small
          input in
      let rest =
        follow-Followed ms one.store one.client one.ready
          (subst (λ n. Consecutive n ms) (ap suc (sym next) ∙ sym one.next) nexts) fit in
      receive-Followed io clock topic partition epoch o m ms s c one rest

  -- A follower with an idle store, whose writes all go through and who commits each record before the
  -- next frame arrives, takes every record of the leader: its log grows by records with the leader's
  -- offsets and payloads, in order, its connection stays, and it acknowledges each of them with the
  -- offset behind it. The timestamps are its own.
  pub follow-kept :
      (ms : List StoredMessage) (s : PartitionStore) (c : ReplicationClient)
      → Ready o s
      → Consecutive s.writer.next_offset ms
      → All (λ m. IsStorable m × (length m.payload ≤ o.max_pending_bytes)) ms
      → (t : PartitionStore) × (d : ReplicationClient) × (news : List StoredMessage) × (follow io
            clock topic partition epoch ms s c
          ≡ ok (t, d))
        × (partition_log t ≡ partition_log s ++ log_of news)
        × (map kept news ≡ map kept ms)
        × (d.fd ≡ c.fd)
        × (d.out_acks
            ≡ c.out_acks ++ map (λ m. ack_of c.broker_id (header_of topic partition epoch m)) ms)
  follow-kept ms s c ready next fit =
      let f = follow-Followed ms s c ready next fit in
      (f.store, f.client, f.news, f.returns, f.log, f.same, f.connected, f.acks)
