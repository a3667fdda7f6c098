-- ===== src/Storage/Store/Tests.antt =====
-- Concrete runs of a partition's store, and its theorems at concrete inputs.
use fell.Base.{ℕ, ◌≡◌, refl, inl, Bool, true, false, List, [], ◌∷◌, some, length, take, arith}
use fell.Wire.{write_be32, write_be64}
use fell.Storage.{StoredMessage}
use fell.Storage.Format.{log_of, header_bytes}
use fell.Storage.Reader.{ok}
use fell.Storage.Index.Load.{index_of}
use fell.Storage.Index.Lookup.{due_entries}
use fell.Storage.Store.{
  PartitionStore, Segment, Round, append, take_batch, write_batch, fetch, find_segment_for,
}
use fell.Storage.Store.Inv.{Inv, IsInput}
use fell.Storage.Store.Write.{write_batch-Inv}
use fell.Storage.Store.Fetch.{fetch-Holds}
use fell.Storage.Store.Growth.{Grown}
use fell.Storage.Store.Run.{produces, done, moves, Steps-Inv}
use fell.Base.{◌≤◌, ◌<◌}
use fell.Storage.Store.{Commit}
use fell.Storage.Store.Growth.{partition_log}
use fell.Storage.Store.Segments.{Chain, fetch-sealed, fetch_active_hidden}
use fell.Storage.Store.Loop.{Surroundings, io_loop, committed_records}
use fell.Storage.Store.Drain.{io_loop_flushes}
use fell.Storage.Samples.{store_with, empty-Holds, first, second, two, two-IsStorable}

queued-Inv : Inv [] [] (store_with two 2 3)
queued-Inv = record {
  holds = empty-Holds;
  same_base = refl;
  next = refl;
  written = refl;
  committed = refl;
  in_flight = (refl, (refl, tt));
  assigned = refl;
  storable = two-IsStorable;
  pending = refl;
  capacity = omega arith;
  memory = omega arith;
  stamp = omega arith;
}

taken-Inv : Inv two [] (store_with [] 2 0)
taken-Inv = record {
  holds = empty-Holds;
  same_base = refl;
  next = refl;
  written = refl;
  committed = refl;
  in_flight = (refl, (refl, tt));
  assigned = refl;
  storable = two-IsStorable;
  pending = refl;
  capacity = omega arith;
  memory = omega arith;
  stamp = omega arith;
}

input : IsInput 9 (4 ∷ [])
input = record { now_u64 = omega arith; size_u32 = omega arith; bytes = (omega arith, tt) }

-- One command is taken, then the queue has one more, then the deadline passes.
abbrev rounds : List Round
rounds =
    record { late = false; arrivals = [] }
    ∷ record { late = false; arrivals = (9, 4 ∷ []) ∷ [] }
    ∷ record { late = true; arrivals = [] }
    ∷ []

rounds_run : length (take_batch rounds (store_with two 2 3)).0 ≡ 3
unfolding take_batch
rounds_run = refl

abbrev always : ℕ → Bool
always i = true

abbrev written : PartitionStore
written = record (store_with [] 2 0) {
  active = record { base_offset = 0; log = log_of two; index = index_of (due_entries 0 0 two) };
  writer = record { base_offset = 0; next_offset = 2; bytes_written = 43 };
  committed_offset = 2;
}

written_run : write_batch always two (store_with [] 2 0) ≡ ok (written, two)
unfolding write_batch header_bytes write_be64 write_be32
written_run = refl

written-Inv : Inv [] two written
written-Inv =
    (write_batch-Inv always first (second ∷ []) [] (store_with [] 2 0) taken-Inv written two
      written_run).0

fetch-Holds_example : (fetch 1 10 written).0 ≡ ok (second ∷ [])
unfolding find_segment_for header_bytes write_be64 write_be32
fetch-Holds_example =
    fetch-Holds 1 10 written written.active two refl written-Inv.holds (inl refl) (omega arith)

Steps-Inv_example :
    (now_active : List StoredMessage) × (Inv [] now_active
        (append 9 (4 ∷ []) (store_with two 2 3)).1
      × Grown (store_with two 2 3) (append 9 (4 ∷ []) (store_with two 2 3)).1)
Steps-Inv_example = Steps-Inv [] queued-Inv (moves (produces 9 (4 ∷ []) input (omega arith)) done)

abbrev sealed_two : Segment
sealed_two = record { base_offset = 0; log = log_of two; index = index_of (due_entries 0 0 two) }

-- After a rotation: two records in a sealed segment, and one more committed in the active one.
abbrev third : StoredMessage
third = record { offset = 2; timestamp_ms = 7; payload = 5 ∷ [] }

abbrev rotated : PartitionStore
rotated = record (store_with [] 3 0) {
  sealed_segments = sealed_two ∷ [];
  active = record {
    base_offset = 2;
    log = log_of (third ∷ []);
    index = index_of (due_entries 2 0 (third ∷ []));
  };
  writer = record { base_offset = 2; next_offset = 3; bytes_written = 21 };
  committed_offset = 3;
}

two-Chain : Chain rotated 0 ((sealed_two, two) ∷ []) 2
unfolding header_bytes write_be64 write_be32
two-Chain = (
  refl,
  record { log = refl; index = refl; consecutive = (refl, (refl, tt)); storable = two-IsStorable },
  inl refl,
  omega arith,
  refl,
)

fetch-sealed_example :
    (n : ℕ) × (n ≤ 10) × (0 < 10 → 0 < n) × ((fetch 1 10 rotated).0 ≡ ok (take n (second ∷ [])))
fetch-sealed_example =
    fetch-sealed rotated 0 2 1 10 ((sealed_two, two) ∷ []) two-Chain refl (omega arith)
      (omega arith)

-- The third record is committed, but cannot be fetched.
fetch_active_hidden_example : (fetch 2 10 rotated).0 ≡ ok []
fetch_active_hidden_example =
    fetch_active_hidden rotated 0 2 2 10 (sealed_two, two) [] two-Chain refl (omega arith)

abbrev closing_store : PartitionStore
closing_store = record (store_with two 2 3) { shutdown = true }

closing-Inv : Inv [] [] closing_store
closing-Inv = record {
  holds = empty-Holds;
  same_base = refl;
  next = refl;
  written = refl;
  committed = refl;
  in_flight = (refl, (refl, tt));
  assigned = refl;
  storable = two-IsStorable;
  pending = refl;
  capacity = omega arith;
  memory = omega arith;
  stamp = omega arith;
}

-- Each batch has one record, and a producer goes on trying.
abbrev late_producer : ℕ → Surroundings
late_producer i = record {
  arrivals = (9, 4 ∷ []) ∷ [];
  closing = false;
  gathering = [];
  io = always;
  now = 0;
}

io_loop_flushes_example :
    (last : PartitionStore) × (commits : List Commit) × (io_loop 3 late_producer 0 closing_store
      ≡ some (ok (last, commits)))
    × (last.queue ≡ [])
    × (last.committed_offset ≡ 2)
    × (partition_log last ≡ log_of two)
    × (committed_records commits ≡ two)
io_loop_flushes_example =
    io_loop_flushes late_producer 3 0 [] closing_store (λ i j. refl) closing-Inv refl (omega arith)
