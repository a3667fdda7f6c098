-- ===== src/Storage/Store.antt =====
-- storage/partition_store.cpp and storage/segment_writer.hpp: the engine of one partition.
-- Each method is a function on the store's state. What the environment decides is an argument: the
-- clock, whether a write succeeds, and what producers append while `take_batch` waits. The methods
-- that hold `queue_mu_` or run on the I/O thread are single steps; `Storage.Store.Run` interleaves them.
-- A callback is a number, and a step returns those that it calls; those of different offsets are kept in
-- the order of their registration, where the program's hash map has an order of its own.
pub mod Inv
pub mod Gather
pub mod Write
pub mod Fetch
pub mod Segments
pub mod Growth
pub mod Rounds
pub mod Loop
pub mod Drain
pub mod Run
mod Tests
use fell.Base.{
  ℕ, zero, suc, ◌+◌, ◌-◌, ◌*◌, ◌%◌, ◌^◌, Bool, true, false, ◌||◌, List, [], ◌∷◌, ◌++◌, Option, none,
  some, length, get_or, map, ltb, leb, ◌==◌, if◌then◌else◌,
}
use fell.Storage.{
  StorageOptions, StoredMessage, AppendCommand, CommittedRecord, IndexEntry, log_record_header_size,
  log_segment_max_bytes,
}
use fell.Storage.Format.{encode_record, index_entry_bytes, is_due}
use fell.Storage.Reader.{Outcome, ok, threw, stuck, read}
use fell.Storage.Index.{load, lookup}

-- The two files of a segment.
pub record Segment : Type 0 where
  pub base_offset : ℕ
  pub log : List ℕ
  pub index : List ℕ

pub record SegmentWriter : Type 0 where
  pub base_offset : ℕ
  pub next_offset : ℕ
  pub bytes_written : ℕ

pub record PartitionStore : Type 0 where
  pub options : StorageOptions
  -- The segments of `sealed_segments_` with their files, and the files that `writer_` has open.
  pub sealed_segments : List Segment
  pub active : Segment
  pub writer : SegmentWriter
  -- `segment_cache_`: the entries that were in an index file when a fetch first opened it.
  pub segment_cache : List (ℕ × List IndexEntry)
  pub last_timestamp_ms : ℕ
  pub ts_counter : ℕ
  pub queue : List AppendCommand
  pub pending_bytes : ℕ
  pub shutdown : Bool
  pub next_offset : ℕ
  pub committed_offset : ℕ
  pub busy_count : ℕ
  pub records_since_flush : ℕ
  pub last_flush_time : ℕ
  pub once_callbacks : List (ℕ × ℕ)

pub data AppendError : Type 0 where
  busy closed : AppendError

pub record AppendResult : Type 0 where
  pub accepted : Bool
  pub offset : ℕ
  pub error : AppendError

abbrev pub result_ok : ℕ → AppendResult
result_ok value = record { accepted = true; offset = value; error = busy }

abbrev pub result_busy : AppendResult
result_busy = record { accepted = false; offset = 0; error = busy }

abbrev pub result_closed : AppendResult
result_closed = record { accepted = false; offset = 0; error = closed }

abbrev pub timestamp_refresh_every : ℕ
timestamp_refresh_every = 16

-- `get_cached_timestamp_locked`, with the clock's milliseconds.
unfoldable pub get_cached_timestamp : ℕ → PartitionStore → ℕ × PartitionStore
get_cached_timestamp now s =
    let ts : ℕ = if s.ts_counter == 0 then now else s.last_timestamp_ms in
    let counter : ℕ = s.ts_counter + 1 in
    (
      ts,
      record s {
        last_timestamp_ms = ts;
        ts_counter = if leb timestamp_refresh_every counter then 0 else counter;
      },
    )

unfoldable pub append : ℕ → List ℕ → PartitionStore → AppendResult × PartitionStore
unfolding get_cached_timestamp
append now payload s =
    let (ts, t) = get_cached_timestamp now s in
    let cmd : AppendCommand = record {
      offset = s.next_offset;
      timestamp_ms = ts;
      payload = payload;
    } in
    if s.shutdown
    then (result_closed, s)
    else if leb s.options.queue_capacity (length s.queue)
        || ltb s.options.max_pending_bytes (s.pending_bytes + length payload)
    then (result_busy, record s { busy_count = s.busy_count + 1 })
    else (
      result_ok s.next_offset,
      record t {
        next_offset = s.next_offset + 1;
        pending_bytes = s.pending_bytes + length payload;
        queue = s.queue ++ (cmd ∷ []);
      },
    )

-- The destructor's first half, before it joins the I/O thread.
unfoldable pub shut_down : PartitionStore → PartitionStore
shut_down s = record s { shutdown = true }

-- `set_once_commit_callback`: the callbacks that it calls at once, and the store.
unfoldable pub set_once_commit_callback : ℕ → ℕ → PartitionStore → List ℕ × PartitionStore
set_once_commit_callback offset cb s =
    if ltb offset s.committed_offset
    then (cb ∷ [], s)
    else ([], record s { once_callbacks = s.once_callbacks ++ ((offset, cb) ∷ []) })

-- The loop of `fire_once_callbacks`: those to call, and those that stay.
unfoldable pub due_callbacks : ℕ → List (ℕ × ℕ) → List ℕ × List (ℕ × ℕ)
due_callbacks committed [] = ([], [])
due_callbacks committed ((offset, cb) ∷ cbs) =
    let rest = due_callbacks committed cbs in
    if ltb offset committed then (cb ∷ rest.0, rest.1) else (rest.0, (offset, cb) ∷ rest.1)

unfoldable pub fire_once_callbacks : ℕ → PartitionStore → List ℕ × PartitionStore
unfolding due_callbacks
fire_once_callbacks committed s =
    let r = due_callbacks committed s.once_callbacks in (r.0, record s { once_callbacks = r.1 })

-- What happens in one round of the gathering loop of `take_batch` after a command was taken: whether
-- the deadline has passed, and, where the queue is empty, the appends made while the loop waits, each
-- with the clock and the payload.
pub record Round : Type 0 where
  pub late : Bool
  pub arrivals : List (ℕ × List ℕ)

abbrev pub append_all : List (ℕ × List ℕ) → PartitionStore → PartitionStore
append_all [] s = s
append_all ((now, payload) ∷ more) s = append_all more (append now payload s).1

-- The part of the loop before its breaks: the front of the queue goes to the batch.
abbrev pub pop_front : PartitionStore → AppendCommand → List AppendCommand → PartitionStore
pop_front s cmd rest = record s {
  queue = rest;
  pending_bytes = s.pending_bytes - length cmd.payload;
}

abbrev pub batch_full : StorageOptions → ℕ → ℕ → Bool
batch_full options count bytes =
    leb options.max_batch_records count || leb options.max_batch_bytes bytes

-- The `while (!queue_.empty())` loop of `take_batch` with the commands and bytes gathered so far.
-- Where the rounds given run out, the deadline has passed.
unfoldable pub gather :
    List Round
    → List AppendCommand
    → ℕ
    → List AppendCommand
    → PartitionStore
    → List AppendCommand × PartitionStore
gather rounds batch bytes [] s = (batch, s)
gather [] batch bytes (cmd ∷ rest) s = (batch ++ (cmd ∷ []), pop_front s cmd rest)
gather (r ∷ rounds) batch bytes (cmd ∷ rest) s =
    let popped = pop_front s cmd rest in
    let batch' = batch ++ (cmd ∷ []) in
    let bytes' = bytes + (log_record_header_size + length cmd.payload) in
    let waited = if length rest == 0 then append_all r.arrivals popped else popped in
    let next = gather rounds batch' bytes' waited.queue waited in
    if batch_full s.options (length batch') bytes'
    then (batch', popped)
    else if r.late
    then (batch', popped)
    else next

-- `take_batch`, called when the wait for a command or the shutdown is over.
unfoldable pub take_batch : List Round → PartitionStore → List AppendCommand × PartitionStore
unfolding gather append
take_batch rounds s = gather rounds [] 0 s.queue s

-- The loop of `write_batch`: the bytes appended to the index file and the batch buffer, or `none`
-- where a write to the index fails and it throws. `io i` tells whether the write for command `i`
-- succeeds.
unfoldable pub write_loop : (ℕ → Bool) → ℕ → ℕ → ℕ → List AppendCommand → Option (List ℕ × List ℕ)
write_loop io i base position [] = some ([], [])
write_loop io i base position (cmd ∷ cmds) =
    let entry = index_entry_bytes (record { offset = cmd.offset; file_position = position }) in
    let rest =
      write_loop io (i + 1) base (position + (log_record_header_size + length cmd.payload)) cmds in
    elim rest [
      | none ↦ none
      | some (index, buffer) ↦
          if is_due base cmd
          then (if io i then some (entry ++ index, encode_record cmd ++ buffer) else none)
          else some (index, encode_record cmd ++ buffer)
    ]

abbrev pub last_offset : List AppendCommand → ℕ
last_offset [] = 0
last_offset (cmd ∷ []) = cmd.offset
last_offset (cmd ∷ more ∷ cmds) = last_offset (more ∷ cmds)

-- `write_batch`: the store and the committed records. The write of the whole buffer to the log is
-- number `length batch`.
unfoldable pub write_batch :
    (ℕ → Bool)
    → List AppendCommand
    → PartitionStore
    → Outcome (PartitionStore × List CommittedRecord)
unfolding write_loop
write_batch io [] s = ok (s, [])
write_batch io (cmd ∷ cmds) s =
    let batch = cmd ∷ cmds in
    elim (write_loop io 0 s.writer.base_offset s.writer.bytes_written batch) [
      | none ↦ threw
      | some (index, buffer) ↦
          if io (length batch)
          then ok (
            record s {
              active = record {
                base_offset = s.active.base_offset;
                log = s.active.log ++ buffer;
                index = s.active.index ++ index;
              };
              writer = record {
                base_offset = s.writer.base_offset;
                next_offset = s.writer.next_offset + length batch;
                bytes_written = s.writer.bytes_written + length buffer;
              };
              committed_offset = last_offset batch + 1;
            },
            batch,
          )
          else threw
    ]

-- `segment_cache_.erase`
abbrev pub erase_cached : ℕ → List (ℕ × List IndexEntry) → List (ℕ × List IndexEntry)
erase_cached base [] = []
erase_cached base ((b, es) ∷ cache) =
    if b == base then erase_cached base cache else (b, es) ∷ erase_cached base cache

-- The end of a round of `io_loop`: rotation at the size limit, or else the flush policy. A flush
-- moves no byte of the files as the model has them. A new segment's files are created empty.
unfoldable pub rotate_or_flush : ℕ → ℕ → PartitionStore → PartitionStore
rotate_or_flush now count s =
    let base = s.writer.next_offset in
    let pending = s.records_since_flush + count in
    if leb log_segment_max_bytes s.writer.bytes_written
    then record s {
      sealed_segments = s.sealed_segments ++ (s.active ∷ []);
      segment_cache = erase_cached s.writer.base_offset s.segment_cache;
      active = record { base_offset = base; log = []; index = [] };
      writer = record { base_offset = base; next_offset = base; bytes_written = 0 };
      records_since_flush = 0;
      last_flush_time = now;
    }
    else if leb s.options.flush_every_records pending
        || leb s.options.flush_every_ms (now - s.last_flush_time)
    then record s { records_since_flush = 0; last_flush_time = now }
    else record s { records_since_flush = pending }

-- What a round of `io_loop` hands out: the once-callbacks that it calls, and the arguments of the
-- commit callback.
pub record Commit : Type 0 where
  pub fired : List ℕ
  pub base_offset : ℕ
  pub records : List CommittedRecord

-- A round of `io_loop` with a batch that is not empty.
unfoldable pub io_round :
    (ℕ → Bool) → ℕ → List AppendCommand → PartitionStore → Outcome (PartitionStore × Commit)
unfolding write_batch fire_once_callbacks rotate_or_flush
io_round io now [] s = ok (s, record { fired = []; base_offset = 0; records = [] })
io_round io now (cmd ∷ cmds) s = elim (write_batch io (cmd ∷ cmds) s) [
  | threw ↦ threw
  | stuck ↦ stuck
  | ok (w, records) ↦
      let (fired, f) = fire_once_callbacks w.committed_offset w in
      ok (
        rotate_or_flush now (length (cmd ∷ cmds)) f,
        record { fired = fired; base_offset = cmd.offset; records = records },
      )
]

-- `std::upper_bound` over the bases of the sealed segments.
unfoldable pub segments_upto : List Segment → ℕ → ℕ
segments_upto [] offset = 0
segments_upto (g ∷ gs) offset =
    if ltb offset g.base_offset then 0 else suc (segments_upto gs offset)

unfoldable pub find_segment_for : ℕ → PartitionStore → Option Segment
unfolding segments_upto
find_segment_for offset s =
    if segments_upto s.sealed_segments offset == 0
    then (if leb s.writer.base_offset offset then some s.active else none)
    else some (get_or s.sealed_segments (segments_upto s.sealed_segments offset - 1) s.active)

abbrev pub cached : ℕ → List (ℕ × List IndexEntry) → Option (List IndexEntry)
cached base [] = none
cached base ((b, es) ∷ cache) = if b == base then some es else cached base cache

-- The index that a fetch uses, and the cache after it: a segment's index file is read once.
unfoldable pub cached_index : Segment → PartitionStore → List IndexEntry × PartitionStore
cached_index g s = elim (cached g.base_offset s.segment_cache) [
  | some es ↦ (es, s)
  | none ↦ (
    load (some g.index),
    record s { segment_cache = (g.base_offset, load (some g.index)) ∷ s.segment_cache },
  )
]

unfoldable pub fetch : ℕ → ℕ → PartitionStore → Outcome (List StoredMessage) × PartitionStore
unfolding find_segment_for cached_index
fetch offset max_count s = elim (find_segment_for offset s) [
  | none ↦ (ok [], s)
  | some g ↦
      let (entries, t) = cached_index g s in
      (read (some g.log) (lookup entries offset) offset max_count, t)
]

-- `PartitionStore::next_offset`: the writer's, not the one that `append` assigns next.
unfoldable pub written_offset : PartitionStore → ℕ
written_offset s = s.writer.next_offset
