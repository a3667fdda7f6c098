-- ===== src/Storage/Samples.antt =====
-- Records and a store that the tests share.
use fell.Base.{List, [], ◌∷◌, All, arith}
use fell.Storage.{StoredMessage, IsStorable}
use fell.Base.{false, ℕ, refl}
use fell.Storage.{default_options}
use fell.Storage.Store.{PartitionStore, Segment}
use fell.Storage.Store.Inv.{Inv, Holds}

abbrev pub first : StoredMessage
first = record { offset = 0; timestamp_ms = 5; payload = 7 ∷ 8 ∷ 9 ∷ [] }

abbrev pub second : StoredMessage
second = record { offset = 1; timestamp_ms = 6; payload = [] }

abbrev pub two : List StoredMessage
two = first ∷ second ∷ []

pub first-IsStorable : IsStorable first
first-IsStorable = record {
  offset_u64 = omega arith;
  timestamp_u64 = omega arith;
  size_u32 = omega arith;
  payload_bytes = omega arith;
}

pub second-IsStorable : IsStorable second
second-IsStorable = record {
  offset_u64 = omega arith;
  timestamp_u64 = omega arith;
  size_u32 = omega arith;
  payload_bytes = tt;
}

pub two-IsStorable : All IsStorable two
two-IsStorable = (first-IsStorable, (second-IsStorable, tt))

-- A store that has just been opened on an empty directory, with these commands queued.
abbrev pub store_with : List StoredMessage → ℕ → ℕ → PartitionStore
store_with queue next pending = record {
  options = default_options;
  sealed_segments = [];
  active = record { base_offset = 0; log = []; index = [] };
  writer = record { base_offset = 0; next_offset = 0; bytes_written = 0 };
  segment_cache = [];
  last_timestamp_ms = 0;
  ts_counter = 0;
  queue = queue;
  pending_bytes = pending;
  shutdown = false;
  next_offset = next;
  committed_offset = 0;
  busy_count = 0;
  records_since_flush = 0;
  last_flush_time = 0;
  once_callbacks = [];
}

abbrev pub empty_segment : Segment
empty_segment = record { base_offset = 0; log = []; index = [] }

pub empty-Holds : Holds empty_segment []
empty-Holds = record { log = refl; index = refl; consecutive = tt; storable = tt }

pub new-Inv : Inv [] [] (store_with [] 0 0)
new-Inv = record {
  holds = empty-Holds;
  same_base = refl;
  next = refl;
  written = refl;
  committed = refl;
  in_flight = tt;
  assigned = refl;
  storable = tt;
  pending = refl;
  capacity = omega arith;
  memory = omega arith;
  stamp = omega arith;
}
