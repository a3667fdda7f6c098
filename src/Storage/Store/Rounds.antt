-- ===== src/Storage/Store/Rounds.antt =====
-- A round of the I/O thread with a batch in hand: what it keeps and what it adds to the partition's log.
use fell.Base.{
  ◌+◌, ℕ, ◌≡◌, refl, sym, ap, ap₂, ◌∙◌, inl, inr, Bool, true, List, [], ◌∷◌, ◌++◌, length, subst,
  length-append, append_assoc, append-nil, arith,
}
use fell.Storage.{StoredMessage, IndexEntry}
use fell.Storage.Format.{log_of, log_of-append}
use fell.Storage.Reader.{ok, Outcome-cases}
use fell.Storage.Store.{
  PartitionStore, Segment, Commit, io_round, write_batch, fire_once_callbacks, rotate_or_flush,
  due_callbacks,
}
use fell.Storage.Store.Inv.{Inv}
use fell.Storage.Store.Write.{
  write_batch-Inv, write_batch_keeps, write_batch-Leaves, write_batch_callbacks, Leaves,
  write_batch_total, Rotated, rotate_or_flush-Rotated,
}
use fell.Storage.Store.Growth.{logs, partition_log, Grown}

-- The invariant says nothing of the callbacks, the cache and the shutdown.
pub calm-Inv :
    (batch recs : List StoredMessage) (s : PartitionStore) (cache : List (ℕ × List IndexEntry))
    (cbs : List (ℕ × ℕ)) (down : Bool)
    → Inv batch recs s
    → Inv batch recs (record s { segment_cache = cache; once_callbacks = cbs; shutdown = down })
calm-Inv batch recs s cache cbs down v = record {
  holds = v.holds;
  same_base = v.same_base;
  next = v.next;
  written = v.written;
  committed = v.committed;
  in_flight = v.in_flight;
  assigned = v.assigned;
  storable = v.storable;
  pending = v.pending;
  capacity = v.capacity;
  memory = v.memory;
  stamp = v.stamp;
}

logs-append : (gs hs : List Segment) → logs (gs ++ hs) ≡ logs gs ++ logs hs
logs-append [] hs = refl
logs-append (g ∷ gs) hs =
    ap (◌++◌ g.log) (logs-append gs hs) ∙ sym (append_assoc g.log (logs gs) (logs hs))

-- What a step keeps and adds.
pub record After (batch : List StoredMessage) (s t : PartitionStore) : Type 0 where
  pub recs : List StoredMessage
  pub inv : Inv batch recs t
  pub grown : Grown s t

Rotated-log :
    (recs : List StoredMessage) (s t : PartitionStore)
    → Rotated recs s t
    → partition_log t ≡ partition_log s
Rotated-log recs s t r = elim r.published [
  | inl (none_now, sealed, _, _) ↦
      ap₂ (λ gs l. logs gs ++ l) sealed (r.inv.holds.log ∙ ap log_of none_now)
      ∙ append-nil (logs (s.sealed_segments ++ (s.active ∷ [])))
      ∙ logs-append s.sealed_segments (s.active ∷ [])
      ∙ ap (◌++◌ (logs s.sealed_segments)) (append-nil s.active.log)
  | inr (_, sealed, active, _) ↦ ap₂ (λ gs g. logs gs ++ g.log) sealed active
]

Rotated-committed :
    (recs : List StoredMessage) (s t : PartitionStore)
    → Inv [] recs s
    → Rotated recs s t
    → t.committed_offset ≡ s.committed_offset
Rotated-committed recs s t v r = elim r.published [
  | inl (none_now, _, base, _) ↦
      omega (arith, r.inv.committed, r.inv.next, ap length none_now, base, v.committed, v.next)
  | inr (same, _, active, _) ↦ omega (
    arith,
    r.inv.committed,
    r.inv.next,
    ap length same,
    ap (λ g. g.base_offset) active,
    v.committed,
    v.next,
  )
]

-- What a round with a batch does to the store: the batch is behind the other records, the committed
-- offset has moved by its length, and what waits in the queue is untouched.
pub record Advanced (batch : List StoredMessage) (s t : PartitionStore) : Type 0 where
  pub recs : List StoredMessage
  pub inv : Inv [] recs t
  pub log : partition_log t ≡ partition_log s ++ log_of batch
  pub committed : t.committed_offset ≡ s.committed_offset + length batch
  pub leaves : Leaves s t

rotate_or_flush-Leaves :
    (now count : ℕ) (s : PartitionStore) → Leaves s (rotate_or_flush now count s)
unfolding rotate_or_flush
rotate_or_flush-Leaves now count s = record {
  queue = ground arith;
  shutdown = ground arith;
  next_offset = ground arith;
  options = ground arith;
}

rotate_or_flush_callbacks :
    (now count : ℕ) (s : PartitionStore)
    → (rotate_or_flush now count s).once_callbacks ≡ s.once_callbacks
unfolding rotate_or_flush
rotate_or_flush_callbacks now count s = ground arith

module _ (io : ℕ → Bool) (now : ℕ) (cmd : StoredMessage) (cmds recs : List StoredMessage)
    (s : PartitionStore) (v : Inv (cmd ∷ cmds) recs s) where
  written-log :
      (w : PartitionStore) (out : List StoredMessage)
      → write_batch io (cmd ∷ cmds) s ≡ ok (w, out)
      → partition_log w ≡ partition_log s ++ log_of (cmd ∷ cmds)
  written-log w out e =
      let (inv, _) = write_batch-Inv io cmd cmds recs s v w out e in
      let (sealed, base) = write_batch_keeps io cmd cmds recs s v w out e in
      ap₂ (λ gs l. logs gs ++ l) sealed
        (inv.holds.log
          ∙ log_of-append recs (cmd ∷ cmds)
          ∙ ap (λ l. l ++ log_of (cmd ∷ cmds)) (sym v.holds.log))
      ∙ sym (append_assoc (logs s.sealed_segments) s.active.log (log_of (cmd ∷ cmds)))

  written-committed :
      (w : PartitionStore) (out : List StoredMessage)
      → write_batch io (cmd ∷ cmds) s ≡ ok (w, out)
      → w.committed_offset ≡ s.committed_offset + length (cmd ∷ cmds)
  written-committed w out e =
      let (inv, _) = write_batch-Inv io cmd cmds recs s v w out e in
      let (sealed, base) = write_batch_keeps io cmd cmds recs s v w out e in
      omega
        (arith, inv.committed, inv.next, v.committed, v.next, base, length-append recs (cmd ∷ cmds))

  rounded-Advanced :
      (w : PartitionStore) (out : List StoredMessage)
      → write_batch io (cmd ∷ cmds) s ≡ ok (w, out)
      → (cbs : List (ℕ × ℕ))
      → Advanced
          (cmd ∷ cmds)
          s
          (rotate_or_flush now (length (cmd ∷ cmds)) (record w { once_callbacks = cbs }))
  rounded-Advanced w out e cbs =
      let (inv, _) = write_batch-Inv io cmd cmds recs s v w out e in
      let fired : PartitionStore = record w { once_callbacks = cbs } in
      let quiet = calm-Inv [] (recs ++ (cmd ∷ cmds)) w w.segment_cache cbs w.shutdown inv in
      let r =
        rotate_or_flush-Rotated now (length (cmd ∷ cmds)) (recs ++ (cmd ∷ cmds)) fired quiet in
      let l = rotate_or_flush-Leaves now (length (cmd ∷ cmds)) fired in
      let k = write_batch-Leaves io cmd cmds recs s v w out e in
      record {
        recs = r.now_active;
        inv = r.inv;
        log = Rotated-log (recs ++ (cmd ∷ cmds)) fired _ r ∙ written-log w out e;
        committed =
            Rotated-committed (recs ++ (cmd ∷ cmds)) fired _ quiet r ∙ written-committed w out e;
        leaves = record {
          queue = l.queue ∙ k.queue;
          shutdown = l.shutdown ∙ k.shutdown;
          next_offset = l.next_offset ∙ k.next_offset;
          options = l.options ∙ k.options;
        };
      }

  -- A round that does not throw.
  pub io_round-Advanced :
      (t : PartitionStore) (c : Commit)
      → io_round io now (cmd ∷ cmds) s ≡ ok (t, c)
      → Advanced (cmd ∷ cmds) s t
  unfolding io_round fire_once_callbacks
  io_round-Advanced t c e = elim (Outcome-cases (write_batch io (cmd ∷ cmds) s)) [
    | inl throws ↦ absurd (ground (arith, e, throws))
    | inr (inl sticks) ↦ absurd (ground (arith, e, sticks))
    | inr (inr ((w, out), runs)) ↦
        let cbs = (due_callbacks w.committed_offset w.once_callbacks).1 in
        let same : rotate_or_flush now (length (cmd ∷ cmds)) (record w { once_callbacks = cbs })
            ≡ t =
          ground (arith, e, runs) in
        subst (Advanced (cmd ∷ cmds) s) same (rounded-Advanced w out runs cbs)
  ]

  -- The round calls the callbacks that are due at the new committed offset, and keeps the others.
  pub io_round-due_callbacks :
      (t : PartitionStore) (c : Commit)
      → io_round io now (cmd ∷ cmds) s ≡ ok (t, c)
      → (c.fired ≡ (due_callbacks (s.committed_offset + length (cmd ∷ cmds)) s.once_callbacks).0)
        × (t.once_callbacks
            ≡ (due_callbacks (s.committed_offset + length (cmd ∷ cmds)) s.once_callbacks).1)
  unfolding io_round fire_once_callbacks
  io_round-due_callbacks t c e = elim (Outcome-cases (write_batch io (cmd ∷ cmds) s)) [
    | inl throws ↦ absurd (ground (arith, e, throws))
    | inr (inl sticks) ↦ absurd (ground (arith, e, sticks))
    | inr (inr ((w, out), runs)) ↦
        let due = due_callbacks w.committed_offset w.once_callbacks in
        let here : due ≡ due_callbacks (s.committed_offset + length (cmd ∷ cmds)) s.once_callbacks =
          ap₂ due_callbacks (written-committed w out runs)
            (write_batch_callbacks io cmd cmds recs s v w out runs) in
        let fires : due.0 ≡ c.fired = ground (arith, e, runs) in
        let same : rotate_or_flush now (length (cmd ∷ cmds)) (record w { once_callbacks = due.1 })
            ≡ t =
          ground (arith, e, runs) in
        (
          sym fires ∙ ap (λ d. d.0) here,
          ap (λ u. u.once_callbacks) (sym same)
              ∙ rotate_or_flush_callbacks now (length (cmd ∷ cmds))
                  (record w { once_callbacks = due.1 })
              ∙ ap (λ d. d.1) here,
        )
  ]

  pub io_round-After :
      (t : PartitionStore) (c : Commit) → io_round io now (cmd ∷ cmds) s ≡ ok (t, c) → After [] s t
  io_round-After t c e =
      let a = io_round-Advanced t c e in
      record {
        recs = a.recs;
        inv = a.inv;
        grown = record { news = cmd ∷ cmds; log = a.log; committed = a.committed };
      }

  -- With all writes going through, a round does not throw, and hands out the batch.
  pub io_round_total :
      ((j : ℕ) → io j ≡ true)
      → (t : PartitionStore) × (c : Commit) × (io_round io now (cmd ∷ cmds) s ≡ ok (t, c))
        × (c.records ≡ cmd ∷ cmds)
  unfolding io_round
  io_round_total all =
      let (w, runs) = write_batch_total io cmd cmds recs s v all in
      let (fired, f) = fire_once_callbacks w.committed_offset w in
      (
        rotate_or_flush now (length (cmd ∷ cmds)) f,
        record { fired = fired; base_offset = cmd.offset; records = cmd ∷ cmds },
        rw (io_round, runs) refl,
        refl,
      )
