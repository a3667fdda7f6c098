-- ===== src/Replication/Settle.antt =====
-- One record at a follower: its frame is handled, the I/O thread commits it, and the closure runs.
use fell.Base.{
  ℕ, suc, ◌+◌, ◌≤◌, ◌<◌, ◌≡◌, refl, sym, ap, ◌∙◌, true, false, Bool, List, [], ◌∷◌, ◌++◌, none,
  some, length, get_elem?, arith,
}
use fell.Storage.{StoredMessage, StorageOptions}
use fell.Storage.Format.{log_of}
use fell.Storage.Reader.{Outcome, ok, threw, stuck}
use fell.Storage.Store.{
  PartitionStore, Commit, take_batch, gather, pop_front, io_round, due_callbacks,
}
use fell.Storage.Store.Inv.{Inv, IsInput, payload_bytes, command, accepted_store, accepted-Inv}
use fell.Storage.Store.Gather.{pop_front-Inv}
use fell.Storage.Store.Growth.{partition_log}
use fell.Storage.Store.Rounds.{calm-Inv, io_round-Advanced, io_round_total, io_round-due_callbacks}
use fell.Replication.Protocol.{ReplicaSyncHeader}
use fell.Replication.Client.{ReplicationClient, handle_frame, run_callbacks, ack_of}
use fell.Replication.Follow.{
  IsHeader, sync_call, handle_frame_sync, on_replica_sync_takes, expecting,
}

-- The follower's I/O thread takes what is queued and writes it, and the closures run.
unfoldable pub commit_queued :
    (ℕ → Bool)
    → ℕ
    → PartitionStore
    → ReplicationClient
    → Outcome (PartitionStore × ReplicationClient)
unfolding take_batch io_round run_callbacks
commit_queued io now s c =
    let (batch, taken) = take_batch [] s in
    elim (io_round io now batch taken) [
      | threw ↦ threw
      | stuck ↦ stuck
      | ok (t, commit) ↦ ok (t, run_callbacks commit.fired c)
    ]

-- The frame of one record arrives and the record is committed. A read past the buffer counts as an
-- exception.
unfoldable pub receive :
    (ℕ → Bool)
    → ℕ
    → ReplicaSyncHeader
    → List ℕ
    → PartitionStore
    → ReplicationClient
    → Outcome (PartitionStore × ReplicationClient)
unfolding commit_queued handle_frame
receive io now h payload s c = elim (handle_frame now (sync_call h payload []) (some s) c) [
  | none ↦ threw
  | some (none, after) ↦ threw
  | some (some r, after) ↦ commit_queued io now r after
]

get_elem?-last :
    (xs : List ReplicaSyncHeader) (x : ReplicaSyncHeader)
    → get_elem? (xs ++ (x ∷ [])) (length xs) ≡ some x
get_elem?-last [] x = refl
get_elem?-last (y ∷ xs) x = get_elem?-last xs x

run_last :
    (h : ReplicaSyncHeader) (c : ReplicationClient)
    → run_callbacks (length c.callbacks ∷ []) (record c { callbacks = c.callbacks ++ (h ∷ []) })
      ≡ record c {
        callbacks = c.callbacks ++ (h ∷ []);
        out_acks = c.out_acks ++ (ack_of c.broker_id h ∷ []);
      }
unfolding run_callbacks
run_last h c = rw (run_callbacks, get_elem?-last c.callbacks h) refl

commit_queued_runs :
    (io : ℕ → Bool) (now : ℕ) (r taken t : PartitionStore) (batch : List StoredMessage)
    (commit : Commit) (c : ReplicationClient)
    → take_batch [] r ≡ (batch, taken)
    → io_round io now batch taken ≡ ok (t, commit)
    → commit_queued io now r c ≡ ok (t, run_callbacks commit.fired c)
unfolding commit_queued
commit_queued_runs io now r taken t batch commit c e run = rw (commit_queued, e, run) refl

received :
    (io : ℕ → Bool) (now : ℕ) (h : ReplicaSyncHeader) (payload : List ℕ) (s : PartitionStore)
    (c : ReplicationClient) (r : PartitionStore) (after : ReplicationClient)
    → handle_frame now (sync_call h payload []) (some s) c ≡ some (some r, after)
    → receive io now h payload s c ≡ commit_queued io now r after
unfolding receive
received io now h payload s c r after e = rw (receive, e) refl

take_one :
    (cmd : StoredMessage) (r : PartitionStore)
    → r.queue ≡ cmd ∷ []
    → take_batch [] r ≡ (cmd ∷ [], pop_front r cmd [])
unfolding take_batch gather
take_one cmd r e = ap (λ q. gather [] [] 0 q r) e

due_now :
    (offset cb committed : ℕ) (cbs : List (ℕ × ℕ))
    → cbs ≡ (offset, cb) ∷ []
    → offset < committed
    → due_callbacks committed cbs ≡ (cb ∷ [], [])
unfolding due_callbacks
due_now offset cb committed cbs e h = ap (due_callbacks committed) e ∙ ground (arith, h)

-- A follower's store between two records.
pub record Ready (o : StorageOptions) (s : PartitionStore) : Type 0 where
  pub recs : List StoredMessage
  pub inv : Inv [] recs s
  pub idle : s.queue ≡ []
  pub quiet : s.once_callbacks ≡ []
  pub running : s.shutdown ≡ false
  pub options : s.options ≡ o

-- The record as the follower stores it: with its own clock's timestamp.
pub record Received (o : StorageOptions) (h : ReplicaSyncHeader) (payload : List ℕ)
    (s : PartitionStore) (c : ReplicationClient)
    (outcome : Outcome (PartitionStore × ReplicationClient)) : Type 0 where
  pub store : PartitionStore
  pub client : ReplicationClient
  pub stamp : ℕ
  pub returns : outcome ≡ ok (store, client)
  pub ready : Ready o store
  pub next : store.writer.next_offset ≡ suc h.offset
  pub log :
      partition_log store
      ≡ partition_log s
        ++ log_of (record { offset = h.offset; timestamp_ms = stamp; payload = payload } ∷ [])
  pub connected : client.fd ≡ c.fd
  pub same_broker : client.broker_id ≡ c.broker_id
  pub acks : client.out_acks ≡ c.out_acks ++ (ack_of c.broker_id h ∷ [])

module _ (io : ℕ → Bool) (all : (j : ℕ) → io j ≡ true) (o : StorageOptions)
    (room : 0 < o.queue_capacity) where
  settle_one :
      (now : ℕ) (cmd : StoredMessage) (h : ReplicaSyncHeader) (recs : List StoredMessage)
      (r : PartitionStore) (c : ReplicationClient)
      → Inv [] recs r
      → r.queue ≡ cmd ∷ []
      → r.once_callbacks ≡ (h.offset, length c.callbacks) ∷ []
      → h.offset ≡ r.writer.next_offset
      → r.shutdown ≡ false
      → r.options ≡ o
      → cmd.offset ≡ h.offset
      → (t : PartitionStore) × (commit_queued io now r
            (record c { callbacks = c.callbacks ++ (h ∷ []) })
          ≡ ok (
            t,
            record c {
              callbacks = c.callbacks ++ (h ∷ []);
              out_acks = c.out_acks ++ (ack_of c.broker_id h ∷ []);
            },
          ))
        × Ready o t
        × (t.writer.next_offset ≡ suc h.offset)
        × (partition_log t ≡ partition_log r ++ log_of (cmd ∷ []))
  unfolding commit_queued
  settle_one now cmd h recs r c v one waiting next runs opts same =
      let taken = pop_front r cmd [] in
      let inv = pop_front-Inv recs [] cmd [] r (sym one) v in
      let (t, commit, run, out) = io_round_total io now cmd [] recs taken inv all in
      let a = io_round-Advanced io now cmd [] recs taken inv t commit run in
      let (fired, kept) = io_round-due_callbacks io now cmd [] recs taken inv t commit run in
      let due =
        due_now h.offset (length c.callbacks) (r.committed_offset + length (cmd ∷ []))
          r.once_callbacks waiting (omega (arith, next, v.committed)) in
      (
        t,
        commit_queued_runs io now r taken t (cmd ∷ []) commit _ (take_one cmd r one) run
            ∙ ap
                (λ cbs.
                  ok (t, run_callbacks cbs (record c { callbacks = c.callbacks ++ (h ∷ []) })))
                (fired ∙ ap (λ d. d.0) due)
            ∙ ap (λ d. ok (t, d)) (run_last h c),
        record {
          recs = a.recs;
          inv = a.inv;
          idle = a.leaves.queue;
          quiet = kept ∙ ap (λ d. d.1) due;
          running = a.leaves.shutdown ∙ runs;
          options = a.leaves.options ∙ opts;
        },
        omega (arith, a.inv.committed, a.committed, v.committed, next),
        a.log,
      )

  pub receive-Received :
      (now : ℕ) (h : ReplicaSyncHeader) (payload : List ℕ) (s : PartitionStore)
      (c : ReplicationClient)
      → Ready o s
      → IsHeader h
      → h.offset ≡ s.writer.next_offset
      → h.payload_size ≡ length payload
      → length payload ≤ o.max_pending_bytes
      → IsInput now payload
      → Received o h payload s c (receive io now h payload s c)
  unfolding receive
  receive-Received now h payload s c ready header next size small input =
      let q = expecting now h payload [] s c in
      let r = accepted_store now payload q in
      let cmd = command now payload q in
      let opts : s.options ≡ o = ready.options in
      let empty = ap length ready.idle in
      let fits : length s.queue < s.options.queue_capacity =
        omega (arith, empty, room, ap (λ u. u.queue_capacity) opts) in
      let light : s.pending_bytes + length payload ≤ s.options.max_pending_bytes = omega (
        arith,
        small,
        ready.inv.pending,
        ap payload_bytes ready.idle,
        ap (λ u. u.max_pending_bytes) opts,
      ) in
      let quiet =
        calm-Inv [] ready.recs s s.segment_cache
          (s.once_callbacks ++ ((h.offset, length c.callbacks) ∷ [])) s.shutdown ready.inv in
      let assigned : s.next_offset ≡ h.offset = omega (arith, next, ready.inv.assigned, empty) in
      let v =
        accepted-Inv now payload q [] ready.recs quiet input
          (omega (arith, assigned, header.offset_u64)) fits light in
      let handled =
        handle_frame_sync now h payload [] (some s) c header
        ∙ on_replica_sync_takes now h payload [] s c next ready.inv.committed size ready.running
            fits light in
      let (t, run, ready', next', log) =
        settle_one now cmd h ready.recs r c v (ap (λ l. l ++ (cmd ∷ [])) ready.idle)
          (ap (λ l. l ++ ((h.offset, length c.callbacks) ∷ [])) ready.quiet) next ready.running opts
          assigned in
      record {
        store = t;
        client = record c {
          callbacks = c.callbacks ++ (h ∷ []);
          out_acks = c.out_acks ++ (ack_of c.broker_id h ∷ []);
        };
        stamp = cmd.timestamp_ms;
        returns = received io now h payload s c r _ handled ∙ run;
        ready = ready';
        next = next';
        log =
            log
            ∙ ap
                (λ n.
                  partition_log s
                  ++ log_of (
                      record { offset = n; timestamp_ms = cmd.timestamp_ms; payload = payload }
                      ∷ []))
                assigned;
        connected = refl;
        same_broker = refl;
        acks = refl;
      }
