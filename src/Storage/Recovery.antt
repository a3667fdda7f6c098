-- ===== src/Storage/Recovery.antt =====
-- storage/log_recovery.cpp and the constructor of storage/partition_store.cpp: what a broker does with
-- the files of a partition when it starts. A log file is its base offset, which is the number in its
-- name of twenty digits, with its bytes, so that sorting the paths sorts the bases.
use fell.Base.{
  ℕ, suc, ◌+◌, ◌-◌, ◌%◌, ◌^◌, ◌≡◌, refl, sym, ap, ◌∙◌, inl, inr, Bool, false, Bool-cases, List, [],
  ◌∷◌, ◌++◌, Option, none, some, length, All, take, leb, ltb, if◌then◌else◌, append-nil, arith,
  take-append_self, length-append,
}
use fell.Storage.{StorageOptions, StoredMessage, DiskRecord, IsStorable}
use fell.Storage.Format.{log_of}
use fell.Storage.Reader.{scan_valid}
use fell.Storage.Reader.Crash.{kept, Cut-log, kept-IsStorable, scan_valid-take}
use fell.Storage.Index.Load.{index_of}
use fell.Storage.Index.Lookup.{Consecutive, due_entries}
use fell.Storage.Store.Inv.{Inv}
use fell.Storage.Store.{Segment, PartitionStore}

pub record RecoveryResult : Type 0 where
  pub next_offset : ℕ
  pub log_end_position : ℕ
  pub records_recovered : ℕ
  pub truncated : Bool

-- `std::sort` of the paths.
abbrev pub insert : Segment → List Segment → List Segment
insert g [] = g ∷ []
insert g (h ∷ gs) = if leb g.base_offset h.base_offset then g ∷ h ∷ gs else h ∷ insert g gs

abbrev pub sort : List Segment → List Segment
sort [] = []
sort (g ∷ gs) = insert g (sort gs)

-- `back()` and the elements before it.
abbrev pub split_last : List Segment → Option (List Segment × Segment)
split_last [] = none
split_last (g ∷ gs) = elim (split_last gs) [
  | none ↦ some ([], g)
  | some (sealed, last) ↦ some (g ∷ sealed, last)
]

abbrev pub last_record : DiskRecord → List DiskRecord → DiskRecord
last_record m [] = m
last_record m (n ∷ ms) = last_record n ms

-- The offset after the last record, or the segment's base.
unfoldable pub next_after : ℕ → List DiskRecord → ℕ
next_after base [] = base
next_after base (m ∷ ms) = (last_record m ms).offset + 1

-- `recover_partition` on the last of the log files: its result and the file that it leaves.
unfoldable pub recover_last : Segment → RecoveryResult × Segment
unfolding next_after
recover_last g =
    let (records, end_pos) = scan_valid (some g.log) 0 in
    (
      record {
        next_offset = next_after g.base_offset records;
        log_end_position = end_pos;
        records_recovered = length records % 2 ^ 32;
        truncated = ltb end_pos (length g.log);
      },
      record {
        base_offset = g.base_offset;
        log = if ltb end_pos (length g.log) then take end_pos g.log else g.log;
        index = g.index;
      },
    )

-- `recover_partition` on the log files of a directory, and those that it leaves: all but the last as
-- they were, and the last. Where there is none, the last are the files that the writer creates.
unfoldable pub recover_partition : List Segment → RecoveryResult × (List Segment × Segment)
unfolding recover_last
recover_partition files = elim (split_last (sort files)) [
  | none ↦ (
    record { next_offset = 0; log_end_position = 0; records_recovered = 0; truncated = false },
    ([], record { base_offset = 0; log = []; index = [] }),
  )
  | some (sealed, last) ↦ let (rr, left) = recover_last last in (rr, (sealed, left))
]

-- `PartitionStore::PartitionStore` on the files of the partition's directory, at time `now`.
unfoldable pub open_store : ℕ → StorageOptions → List Segment → PartitionStore
unfolding recover_partition
open_store now options files =
    let (rr, (sealed, active)) = recover_partition files in
    record {
      options = options;
      sealed_segments = sealed;
      active = active;
      writer = record {
        base_offset = active.base_offset;
        next_offset = rr.next_offset;
        bytes_written = rr.log_end_position;
      };
      segment_cache = [];
      last_timestamp_ms = 0;
      ts_counter = 0;
      queue = [];
      pending_bytes = 0;
      shutdown = false;
      next_offset = rr.next_offset;
      committed_offset = rr.next_offset;
      busy_count = 0;
      records_since_flush = 0;
      last_flush_time = now;
      once_callbacks = [];
    }

next_after-Consecutive :
    (n : ℕ) (ms : List StoredMessage) → Consecutive n ms → next_after n ms ≡ n + length ms
unfolding next_after
next_after-Consecutive n [] c = omega arith
next_after-Consecutive n (m ∷ ms) (e, c) = last-offset n m ms e c
  where
    last-offset :
        (k : ℕ) (m : StoredMessage) (ms : List StoredMessage)
        → m.offset ≡ k
        → Consecutive (suc k) ms
        → (last_record m ms).offset + 1 ≡ k + suc (length ms)
    last-offset k m [] e c = omega (arith, e)
    last-offset k m (o ∷ ms) e c = omega (arith, last-offset (suc k) o ms c.0 c.1)

kept-Consecutive :
    (n : ℕ) (ms : List StoredMessage) (cut : ℕ) → Consecutive n ms → Consecutive n (kept cut ms)
kept-Consecutive n [] cut c = tt
kept-Consecutive n (m ∷ ms) cut (e, c) =
    let rest = kept-Consecutive (suc n) ms (cut - (20 + length m.payload)) c in
    elim (Bool-cases (leb (20 + length m.payload) cut)) [
      | inl whole ↦ rw whole (e, rest)
      | inr torn ↦ rw torn tt
    ]

split_last-snoc :
    (sealed : List Segment) (g : Segment) → split_last (sealed ++ (g ∷ [])) ≡ some (sealed, g)
split_last-snoc [] g = refl
split_last-snoc (h ∷ sealed) g = rw (split_last-snoc sealed g) refl

trim :
    (front tail : List ℕ)
    → (if ltb (length front) (length (front ++ tail))
        then take (length front) (front ++ tail)
        else (front ++ tail))
      ≡ front
trim front [] = ground (arith, append-nil front)
trim front (b ∷ tail) =
    ground
      (arith, length-append front (b ∷ tail), take-append_self (length front) front (b ∷ tail) refl)

module _ (n : ℕ) (ms : List StoredMessage) (g : Segment)
    (consecutive : Consecutive g.base_offset ms) (storable : All IsStorable ms)
    (cut : g.log ≡ take n (log_of ms)) where
  -- Recovery of a segment whose log was cut anywhere: the next offset is that of the first record
  -- that is not whole, the file ends behind the last whole record, and it says whether it cut any.
  pub recover_last-take :
      ((recover_last g).0.next_offset ≡ g.base_offset + length (kept n ms))
      × ((recover_last g).0.log_end_position ≡ length (log_of (kept n ms)))
      × ((recover_last g).1.log ≡ log_of (kept n ms))
      × ((recover_last g).1.base_offset ≡ g.base_offset)
      × ((recover_last g).1.index ≡ g.index)
      × ((recover_last g).0.truncated ≡ ltb (length (log_of (kept n ms))) (length g.log))
  unfolding recover_last
  recover_last-take =
      let scanned = ap (λ b. scan_valid (some b) 0) cut ∙ scan_valid-take n ms storable in
      (
        ap (λ r. next_after g.base_offset r.0) scanned
            ∙ next_after-Consecutive g.base_offset (kept n ms)
                (kept-Consecutive g.base_offset ms n consecutive),
        ap (λ r. r.1) scanned,
        ap (λ r. if ltb r.1 (length g.log) then take r.1 g.log else g.log) scanned
            ∙ ap
                (λ b.
                  if ltb (length (log_of (kept n ms))) (length b)
                  then take (length (log_of (kept n ms))) b
                  else b)
                (cut ∙ (Cut-log n ms storable).parts)
            ∙ trim (log_of (kept n ms)) (Cut-log n ms storable).tail,
        refl,
        refl,
        ap (λ r. ltb r.1 (length g.log)) scanned,
      )

  -- A broker that starts on a partition whose last log was cut anywhere, with an index that names only
  -- records that are whole, has a store that satisfies the invariant with the whole records: it goes
  -- on at the offset after them.
  pub open_store-Inv :
      (now : ℕ) (options : StorageOptions) (files sealed : List Segment)
      → sort files ≡ sealed ++ (g ∷ [])
      → g.index ≡ index_of (due_entries g.base_offset 0 (kept n ms))
      → Inv [] (kept n ms) (open_store now options files)
  unfolding open_store recover_partition
  open_store-Inv now options files sealed sorted index =
      let (next, position, log, base, idx, trimmed) = recover_last-take in
      rw (open_store, recover_partition, sorted, split_last-snoc sealed g)
        (record {
          holds = record {
            log = log;
            index = index;
            consecutive = kept-Consecutive g.base_offset ms n consecutive;
            storable = kept-IsStorable n ms storable;
          };
          same_base = refl;
          next = next;
          written = position ∙ ap length (sym log);
          committed = refl;
          in_flight = tt;
          assigned = omega arith;
          storable = tt;
          pending = refl;
          capacity = omega arith;
          memory = omega arith;
          stamp = omega arith;
        })
