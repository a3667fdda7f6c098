-- ===== src/Storage/Store/Write.antt =====
-- `write_batch` and rotation: what a batch adds to the files, and that the invariant holds after it.
use fell.Base.{
  ℕ, suc, ◌+◌, ◌-◌, ◌≤◌, ◌<◌, ◌≡◌, refl, sym, ap, ap₂, ◌∙◌, ◌⊎◌, inl, inr, Bool, true, false, ◌||◌,
  Bool-cases, Option-cases, List, [], ◌∷◌, ◌++◌, some, length, leb, leb→le, ◌*◌, All, All-append,
  length-append, append_assoc, subst, arith,
}
use fell.Storage.{StoredMessage, IsStorable, IndexEntry}
use fell.Storage.Format.{
  log_of, log_of-append, encode_record, is_due, length-encode_record, index_entry_bytes,
}
use fell.Storage.Reader.{ok}
use fell.Storage.Index.Load.{index_of}
use fell.Storage.Index.Lookup.{Consecutive, due_entries}
use fell.Storage.Store.{
  PartitionStore, Segment, write_loop, write_batch, last_offset, rotate_or_flush,
}
use fell.Storage.Store.Inv.{Inv, Holds, Consecutive-append, Consecutive-back, Consecutive-front}

index_of-append : (xs ys : List IndexEntry) → index_of (xs ++ ys) ≡ index_of xs ++ index_of ys
index_of-append [] ys = refl
index_of-append (x ∷ xs) ys =
    ap (◌++◌ (index_entry_bytes x)) (index_of-append xs ys)
    ∙ sym (append_assoc (index_entry_bytes x) (index_of xs) (index_of ys))

due_entries-append :
    (base position : ℕ) (xs ys : List StoredMessage)
    → due_entries base position (xs ++ ys)
      ≡ due_entries base position xs ++ due_entries base (position + length (log_of xs)) ys
due_entries-append base position [] ys = ap (λ p. due_entries base p ys) (omega arith)
due_entries-append base position (x ∷ xs) ys = ground (
  arith,
  due_entries-append base (position + (20 + length x.payload)) xs ys,
  ap (λ p. due_entries base p ys) {x = position + (20 + length x.payload) + length (log_of xs)}
      {y = position + length (log_of (x ∷ xs))}
      (omega (arith, length-append (encode_record x) (log_of xs), length-encode_record x)),
)

-- What the loop appends to the index file and to the buffer.
write_loop-some :
    (io : ℕ → Bool) (i base position : ℕ) (cmds : List StoredMessage) (r : List ℕ × List ℕ)
    → write_loop io i base position cmds ≡ some r
    → (r.0 ≡ index_of (due_entries base position cmds)) × (r.1 ≡ log_of cmds)
unfolding write_loop
write_loop-some io i base position [] r e = ground arith
write_loop-some io i base position (cmd ∷ cmds) r e =
    elim (Option-cases (write_loop io (i + 1) base (position + (20 + length cmd.payload)) cmds)) [
      | inl fails ↦ ground (arith, fails)
      | inr (rest, goes_on) ↦ ground (
        arith,
        goes_on,
        write_loop-some io (i + 1) base (position + (20 + length cmd.payload)) cmds rest goes_on,
      )
    ]

-- With all writes going through, the loop does not throw.
write_loop_total :
    (io : ℕ → Bool) (i base position : ℕ) (cmds : List StoredMessage)
    → ((j : ℕ) → io j ≡ true)
    → (r : List ℕ × List ℕ) × (write_loop io i base position cmds ≡ some r)
unfolding write_loop
write_loop_total io i base position [] all = (([], []), refl)
write_loop_total io i base position (cmd ∷ cmds) all =
    let (rest, e) =
      write_loop_total io (i + 1) base (position + (20 + length cmd.payload)) cmds all in
    elim (Bool-cases (is_due base cmd)) [
      | inl due ↦ (
        (
          index_entry_bytes (record { offset = cmd.offset; file_position = position }) ++ rest.0,
          encode_record cmd ++ rest.1,
        ),
        ground (arith, e, due, all i),
      )
      | inr undue ↦ ((rest.0, encode_record cmd ++ rest.1), ground (arith, e, undue))
    ]

last_offset_lem :
    (n : ℕ) (cmd : StoredMessage) (cmds : List StoredMessage)
    → Consecutive n (cmd ∷ cmds)
    → last_offset (cmd ∷ cmds) + 1 ≡ n + length (cmd ∷ cmds)
last_offset_lem n cmd [] c = omega (arith, c.0)
last_offset_lem n cmd (x ∷ cmds) c = omega (arith, last_offset_lem (suc n) x cmds c.1)

Holds-append :
    (g : Segment) (recs batch : List StoredMessage) (index buffer : List ℕ)
    → Holds g recs
    → index ≡ index_of (due_entries g.base_offset (length g.log) batch)
    → buffer ≡ log_of batch
    → Consecutive (g.base_offset + length recs) batch
    → All IsStorable batch
    → Holds
        (record { base_offset = g.base_offset; log = g.log ++ buffer; index = g.index ++ index })
        (recs ++ batch)
Holds-append g recs batch index buffer h ei eb c s = record {
  log = ap₂ ◌++◌ h.log eb ∙ sym (log_of-append recs batch);
  index =
      ap₂ ◌++◌ h.index (ei ∙ ap (λ l. index_of (due_entries g.base_offset (length l) batch)) h.log)
      ∙ sym (
          ap index_of (
            due_entries-append g.base_offset 0 recs batch
            ∙ ap (λ p. due_entries g.base_offset 0 recs ++ due_entries g.base_offset p batch)
                {x = 0 + length (log_of recs)} {y = length (log_of recs)} (omega arith))
          ∙ index_of-append (due_entries g.base_offset 0 recs)
              (due_entries g.base_offset (length (log_of recs)) batch));
  consecutive = Consecutive-append g.base_offset recs batch h.consecutive c;
  storable = All-append IsStorable recs batch h.storable s;
}

All-front {κ} : {A : Type 0} (P : A → Type κ) (xs ys : List A) → All P (xs ++ ys) → All P xs
All-front P [] ys h = tt
All-front P (x ∷ xs) ys h = (h.0, All-front P xs ys h.1)

All-back {κ} : {A : Type 0} (P : A → Type κ) (xs ys : List A) → All P (xs ++ ys) → All P ys
All-back P [] ys h = h
All-back P (x ∷ xs) ys h = All-back P xs ys h.1

-- What the I/O thread does not touch when it writes.
pub record Leaves (s t : PartitionStore) : Type 0 where
  pub queue : t.queue ≡ s.queue
  pub shutdown : t.shutdown ≡ s.shutdown
  pub next_offset : t.next_offset ≡ s.next_offset
  pub options : t.options ≡ s.options

-- The store after a batch was written.
abbrev written_store : List ℕ × List ℕ → List StoredMessage → PartitionStore → PartitionStore
written_store r batch s = record s {
  active = record {
    base_offset = s.active.base_offset;
    log = s.active.log ++ r.1;
    index = s.active.index ++ r.0;
  };
  writer = record {
    base_offset = s.writer.base_offset;
    next_offset = s.writer.next_offset + length batch;
    bytes_written = s.writer.bytes_written + length r.1;
  };
  committed_offset = last_offset batch + 1;
}

module _ (io : ℕ → Bool) (cmd : StoredMessage) (cmds recs : List StoredMessage) (s : PartitionStore)
    (v : Inv (cmd ∷ cmds) recs s) where
  written-Inv :
      (r : List ℕ × List ℕ)
      → r.0 ≡ index_of (due_entries s.writer.base_offset s.writer.bytes_written (cmd ∷ cmds))
      → r.1 ≡ log_of (cmd ∷ cmds)
      → Inv [] (recs ++ (cmd ∷ cmds)) (written_store r (cmd ∷ cmds) s)
  written-Inv r ei eb = record {
    holds =
        Holds-append s.active recs (cmd ∷ cmds) r.0 r.1 v.holds
          (ei ∙ ap₂ (λ b p. index_of (due_entries b p (cmd ∷ cmds))) v.same_base v.written) eb
          (subst (λ n. Consecutive n (cmd ∷ cmds)) v.next front)
          (All-front IsStorable (cmd ∷ cmds) s.queue v.storable);
    same_base = v.same_base;
    next = omega (arith, v.next, length-append recs (cmd ∷ cmds));
    written = omega (arith, v.written, length-append s.active.log r.1);
    committed = last_offset_lem s.writer.next_offset cmd cmds front;
    in_flight = Consecutive-back s.writer.next_offset (cmd ∷ cmds) s.queue v.in_flight;
    assigned = omega (arith, v.assigned, length-append (cmd ∷ cmds) s.queue);
    storable = All-back IsStorable (cmd ∷ cmds) s.queue v.storable;
    pending = v.pending;
    capacity = v.capacity;
    memory = v.memory;
    stamp = v.stamp;
  }
    where
      front : Consecutive s.writer.next_offset (cmd ∷ cmds)
      front = Consecutive-front s.writer.next_offset (cmd ∷ cmds) s.queue v.in_flight

  -- Where `write_batch` does not throw, it commits the whole batch: the records follow those of the
  -- active segment in its log, its index gets an entry for each of them that is due, and the
  -- committed offset is the next one to write.
  pub write_batch-Inv :
      (t : PartitionStore) (out : List StoredMessage)
      → write_batch io (cmd ∷ cmds) s ≡ ok (t, out)
      → Inv [] (recs ++ (cmd ∷ cmds)) t × (out ≡ cmd ∷ cmds)
  unfolding write_batch
  write_batch-Inv t out e =
      elim (Option-cases
        (write_loop io 0 s.writer.base_offset s.writer.bytes_written (cmd ∷ cmds))) [
          | inl fails ↦ absurd (ground (arith, fails))
          | inr (r, runs) ↦
              let (ei, eb) =
                write_loop-some io 0 s.writer.base_offset s.writer.bytes_written (cmd ∷ cmds) r
                  runs in
              let same : (written_store r (cmd ∷ cmds) s ≡ t) × (cmd ∷ cmds ≡ out) =
                ground (arith, runs) in
              (subst (Inv [] (recs ++ (cmd ∷ cmds))) same.0 (written-Inv r ei eb), sym same.1)
        ]

  pub write_batch_keeps :
      (t : PartitionStore) (out : List StoredMessage)
      → write_batch io (cmd ∷ cmds) s ≡ ok (t, out)
      → (t.sealed_segments ≡ s.sealed_segments) × (t.active.base_offset ≡ s.active.base_offset)
  unfolding write_batch
  write_batch_keeps t out e =
      elim (Option-cases
        (write_loop io 0 s.writer.base_offset s.writer.bytes_written (cmd ∷ cmds))) [
          | inl fails ↦ absurd (ground (arith, fails))
          | inr (r, runs) ↦
              let same : written_store r (cmd ∷ cmds) s ≡ t = ground (arith, runs) in
              (ap (λ u. u.sealed_segments) (sym same), ap (λ u. u.active.base_offset) (sym same))
        ]

  pub write_batch-Leaves :
      (t : PartitionStore) (out : List StoredMessage)
      → write_batch io (cmd ∷ cmds) s ≡ ok (t, out)
      → Leaves s t
  unfolding write_batch
  write_batch-Leaves t out e =
      elim (Option-cases
        (write_loop io 0 s.writer.base_offset s.writer.bytes_written (cmd ∷ cmds))) [
          | inl fails ↦ absurd (ground (arith, fails))
          | inr (r, runs) ↦
              let same : written_store r (cmd ∷ cmds) s ≡ t = ground (arith, runs) in
              record {
                queue = ap (λ u. u.queue) (sym same);
                shutdown = ap (λ u. u.shutdown) (sym same);
                next_offset = ap (λ u. u.next_offset) (sym same);
                options = ap (λ u. u.options) (sym same);
              }
        ]

  pub write_batch_callbacks :
      (t : PartitionStore) (out : List StoredMessage)
      → write_batch io (cmd ∷ cmds) s ≡ ok (t, out)
      → t.once_callbacks ≡ s.once_callbacks
  unfolding write_batch
  write_batch_callbacks t out e =
      elim (Option-cases
        (write_loop io 0 s.writer.base_offset s.writer.bytes_written (cmd ∷ cmds))) [
          | inl fails ↦ absurd (ground (arith, fails))
          | inr (r, runs) ↦
              let same : written_store r (cmd ∷ cmds) s ≡ t = ground (arith, runs) in
              ap (λ u. u.once_callbacks) (sym same)
        ]

  -- With all writes going through, `write_batch` does not throw.
  pub write_batch_total :
      ((j : ℕ) → io j ≡ true)
      → (t : PartitionStore) × (write_batch io (cmd ∷ cmds) s ≡ ok (t, cmd ∷ cmds))
  unfolding write_batch
  write_batch_total all =
      let (r, runs) =
        write_loop_total io 0 s.writer.base_offset s.writer.bytes_written (cmd ∷ cmds) all in
      (written_store r (cmd ∷ cmds) s, ground (arith, runs, all (length (cmd ∷ cmds))))

-- How a store may look at the end of a round.
pub record Rotated (recs : List StoredMessage) (s t : PartitionStore) : Type 0 where
  pub now_active : List StoredMessage
  pub inv : Inv [] now_active t
  pub published :
      ((now_active ≡ [])
        × (t.sealed_segments ≡ s.sealed_segments ++ (s.active ∷ []))
        × (t.active.base_offset ≡ s.active.base_offset + length recs)
        × (64 * 1024 * 1024 ≤ length s.active.log))
      ⊎ ((now_active ≡ recs)
          × (t.sealed_segments ≡ s.sealed_segments)
          × (t.active ≡ s.active)
          × (length s.active.log < 64 * 1024 * 1024))

-- The end of a round keeps the invariant. At the size limit the active segment joins the sealed ones as
-- it is and an empty one starts at the next offset; below the limit the files are left alone.
pub rotate_or_flush-Rotated :
    (now count : ℕ) (recs : List StoredMessage) (s : PartitionStore)
    → Inv [] recs s
    → Rotated recs s (rotate_or_flush now count s)
unfolding rotate_or_flush
rotate_or_flush-Rotated now count recs s v =
    elim (Bool-cases (leb (64 * 1024 * 1024) s.writer.bytes_written)) [
      | inl large ↦ rw large (record {
        now_active = [];
        inv = record {
          holds = record { log = refl; index = refl; consecutive = tt; storable = tt };
          same_base = refl;
          next = omega arith;
          written = refl;
          committed = v.committed;
          in_flight = v.in_flight;
          assigned = v.assigned;
          storable = v.storable;
          pending = v.pending;
          capacity = v.capacity;
          memory = v.memory;
          stamp = v.stamp;
        };
        published = inl (refl, refl, v.next, omega (arith, leb→le _ _ large, v.written));
      })
      | inr small ↦
          rw small
            (elim (Bool-cases (
              leb s.options.flush_every_records (s.records_since_flush + count)
              || leb s.options.flush_every_ms (now - s.last_flush_time))) [
                | inl flushes ↦ rw flushes (kept (ltb_false small) 0 now)
                | inr waits ↦
                    rw waits
                      (kept (ltb_false small) (s.records_since_flush + count) s.last_flush_time)
              ])
    ]
  where
    ltb_false :
        leb (64 * 1024 * 1024) s.writer.bytes_written ≡ false
        → length s.active.log < 64 * 1024 * 1024
    ltb_false h = ground (arith, v.written)

    kept :
        length s.active.log < 64 * 1024 * 1024
        → (a b : ℕ) → Rotated recs s (record s { records_since_flush = a; last_flush_time = b })
    kept h a b = record {
      now_active = recs;
      inv = record {
        holds = v.holds;
        same_base = v.same_base;
        next = v.next;
        written = v.written;
        committed = v.committed;
        in_flight = v.in_flight;
        assigned = v.assigned;
        storable = v.storable;
        pending = v.pending;
        capacity = v.capacity;
        memory = v.memory;
        stamp = v.stamp;
      };
      published = inr (refl, refl, refl, h);
    }
