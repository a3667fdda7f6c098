-- ===== src/Storage/Store/Inv.antt =====
-- The invariant of a partition store, and that an append keeps it.
use fell.Base.{
  ℕ, suc, ◌+◌, ◌^◌, ◌≤◌, ◌<◌, ◌≡◌, ap, ◌⊎◌, inl, inr, true, false, List, [], ◌∷◌, ◌++◌, length, All,
  All-append, length-append, append_assoc, leb, subst, if◌then◌else◌, ◌==◌, arith,
}
use fell.Wire.{IsByte}
use fell.Storage.{StoredMessage, IsStorable}
use fell.Storage.Format.{log_of}
use fell.Storage.Index.Load.{index_of}
use fell.Storage.Index.Lookup.{Consecutive, due_entries}
use fell.Storage.Store.{
  PartitionStore, Segment, append, get_cached_timestamp, result_ok, result_busy, result_closed,
}

-- A segment's files are the log and the index of consecutive records from its base on.
pub record Holds (g : Segment) (recs : List StoredMessage) : Type 0 where
  pub log : g.log ≡ log_of recs
  pub index : g.index ≡ index_of (due_entries g.base_offset 0 recs)
  pub consecutive : Consecutive g.base_offset recs
  pub storable : All IsStorable recs

abbrev pub payload_bytes : List StoredMessage → ℕ
payload_bytes [] = 0
payload_bytes (m ∷ ms) = length m.payload + payload_bytes ms

-- The state between two steps, with the batch that the I/O thread holds and the records of the
-- active segment.
pub record Inv (batch recs : List StoredMessage) (s : PartitionStore) : Type 0 where
  pub holds : Holds s.active recs
  pub same_base : s.writer.base_offset ≡ s.active.base_offset
  pub next : s.writer.next_offset ≡ s.active.base_offset + length recs
  pub written : s.writer.bytes_written ≡ length s.active.log
  pub committed : s.committed_offset ≡ s.writer.next_offset
  pub in_flight : Consecutive s.writer.next_offset (batch ++ s.queue)
  pub assigned : s.next_offset ≡ s.writer.next_offset + length (batch ++ s.queue)
  pub storable : All IsStorable (batch ++ s.queue)
  pub pending : s.pending_bytes ≡ payload_bytes s.queue
  pub capacity : length s.queue ≤ s.options.queue_capacity
  pub memory : s.pending_bytes ≤ s.options.max_pending_bytes
  pub stamp : s.last_timestamp_ms < 2 ^ 64

pub record IsInput (now : ℕ) (payload : List ℕ) : Type 0 where
  pub now_u64 : now < 2 ^ 64
  pub size_u32 : length payload < 2 ^ 32
  pub bytes : All IsByte payload

pub Consecutive-snoc :
    (n : ℕ) (ms : List StoredMessage) (m : StoredMessage)
    → Consecutive n ms
    → m.offset ≡ n + length ms
    → Consecutive n (ms ++ (m ∷ []))
Consecutive-snoc n [] m c e = (omega arith, tt)
Consecutive-snoc n (x ∷ ms) m c e = (c.0, Consecutive-snoc (suc n) ms m c.1 (omega arith))

pub Consecutive-append :
    (n : ℕ) (xs ys : List StoredMessage)
    → Consecutive n xs
    → Consecutive (n + length xs) ys
    → Consecutive n (xs ++ ys)
Consecutive-append n [] ys c d = subst (λ k. Consecutive k ys) (omega arith) d
Consecutive-append n (x ∷ xs) ys c d =
    (c.0, Consecutive-append (suc n) xs ys c.1 (subst (λ k. Consecutive k ys) (omega arith) d))

pub Consecutive-back :
    (n : ℕ) (xs ys : List StoredMessage) → Consecutive n (xs ++ ys) → Consecutive (n + length xs) ys
Consecutive-back n [] ys c = subst (λ k. Consecutive k ys) (omega arith) c
Consecutive-back n (x ∷ xs) ys c =
    subst (λ k. Consecutive k ys) (omega arith) (Consecutive-back (suc n) xs ys c.1)

pub Consecutive-front :
    (n : ℕ) (xs ys : List StoredMessage) → Consecutive n (xs ++ ys) → Consecutive n xs
Consecutive-front n [] ys c = tt
Consecutive-front n (x ∷ xs) ys c = (c.0, Consecutive-front (suc n) xs ys c.1)

pub payload_bytes-append :
    (xs ys : List StoredMessage) → payload_bytes (xs ++ ys) ≡ payload_bytes xs + payload_bytes ys
payload_bytes-append [] ys = omega arith
payload_bytes-append (x ∷ xs) ys = omega (arith, payload_bytes-append xs ys)

module _ (now : ℕ) (payload : List ℕ) (s : PartitionStore) where
  -- The timestamp of a record that is accepted.
  abbrev pub stamp_of : ℕ
  stamp_of = if s.ts_counter == 0 then now else s.last_timestamp_ms

  abbrev pub command : StoredMessage
  command = record { offset = s.next_offset; timestamp_ms = stamp_of; payload = payload }

  abbrev pub accepted_store : PartitionStore
  accepted_store = record s {
    last_timestamp_ms = stamp_of;
    ts_counter = if leb 16 (s.ts_counter + 1) then 0 else s.ts_counter + 1;
    next_offset = s.next_offset + 1;
    pending_bytes = s.pending_bytes + length payload;
    queue = s.queue ++ (command ∷ []);
  }

  -- `append` refuses for good after the shutdown, refuses under backpressure and counts that, or
  -- else queues the record under the next offset.
  pub append_cases :
      ((s.shutdown ≡ true) × (append now payload s ≡ (result_closed, s)))
      ⊎ ((s.shutdown ≡ false)
          × ((s.options.queue_capacity ≤ length s.queue)
              ⊎ (s.options.max_pending_bytes < s.pending_bytes + length payload))
          × (append now payload s ≡ (result_busy, record s { busy_count = s.busy_count + 1 })))
      ⊎ ((s.shutdown ≡ false)
          × (length s.queue < s.options.queue_capacity)
          × (s.pending_bytes + length payload ≤ s.options.max_pending_bytes)
          × (append now payload s ≡ (result_ok s.next_offset, accepted_store)))
  unfolding append get_cached_timestamp
  append_cases = ground arith

  pub accepted-Inv :
      (batch recs : List StoredMessage)
      → Inv batch recs s
      → IsInput now payload
      → s.next_offset < 2 ^ 64
      → length s.queue < s.options.queue_capacity
      → s.pending_bytes + length payload ≤ s.options.max_pending_bytes
      → Inv batch recs accepted_store
  accepted-Inv batch recs v i room fits small = record {
    holds = v.holds;
    same_base = v.same_base;
    next = v.next;
    written = v.written;
    committed = v.committed;
    in_flight =
        subst (Consecutive s.writer.next_offset) regroup
          (Consecutive-snoc s.writer.next_offset (batch ++ s.queue) command v.in_flight v.assigned);
    assigned =
        omega
          (arith, v.assigned, ap length regroup, length-append (batch ++ s.queue) (command ∷ []));
    storable =
        subst (All IsStorable) regroup
          (All-append IsStorable (batch ++ s.queue) _ v.storable (new, tt));
    pending = omega (arith, v.pending, payload_bytes-append s.queue (command ∷ []));
    capacity = omega (arith, length-append s.queue (command ∷ []), fits);
    memory = small;
    stamp = stamp_u64;
  }
    where
      regroup : (batch ++ s.queue) ++ (command ∷ []) ≡ batch ++ (s.queue ++ (command ∷ []))
      regroup = append_assoc batch s.queue (command ∷ [])

      stamp_u64 : stamp_of < 2 ^ 64
      stamp_u64 = ground (arith, v.stamp, i.now_u64)

      new : IsStorable command
      new = record {
        offset_u64 = room;
        timestamp_u64 = stamp_u64;
        size_u32 = i.size_u32;
        payload_bytes = i.bytes;
      }

  -- Whatever `append` answers, it keeps the invariant: offsets stay consecutive, the queue within
  -- both of its limits, and the count of pending bytes exact.
  pub append-Inv :
      (batch recs : List StoredMessage)
      → Inv batch recs s
      → IsInput now payload
      → s.next_offset < 2 ^ 64
      → Inv batch recs (append now payload s).1
  append-Inv batch recs v i room = elim append_cases [
    | inl (_, e) ↦ rw e v
    | inr (inl (_, _, e)) ↦ rw e (counted v)
    | inr (inr (_, fits, small, e)) ↦ rw e (accepted-Inv batch recs v i room fits small)
  ]
    where
      counted : Inv batch recs s → Inv batch recs (record s { busy_count = s.busy_count + 1 })
      counted w = record {
        holds = w.holds;
        same_base = w.same_base;
        next = w.next;
        written = w.written;
        committed = w.committed;
        in_flight = w.in_flight;
        assigned = w.assigned;
        storable = w.storable;
        pending = w.pending;
        capacity = w.capacity;
        memory = w.memory;
        stamp = w.stamp;
      }
