-- ===== src/Storage/Tests.antt =====
-- Concrete runs of the readers and of the recovery, and the theorems at concrete inputs.
use fell.Base.{◌≡◌, refl, [], ◌∷◌, some, take}
use fell.Wire.{write_be32, write_be64}
use fell.Storage.{IndexEntry, default_options}
use fell.Storage.Format.{log_of, header_bytes}
use fell.Storage.Reader.{scan_valid}
use fell.Storage.Reader.Crash.{scan_valid-take}
use fell.Storage.Index.Load.{index_of}
use fell.Storage.Index.Lookup.{due_entries}
use fell.Storage.Store.{Segment}
use fell.Storage.Store.Inv.{Inv}
use fell.Storage.Recovery.{open_store, open_store-Inv}
use fell.Storage.Samples.{first, two, two-IsStorable}

-- A log that was cut two bytes before its end keeps its first record.
scan_valid-take_example : scan_valid (some (take 41 (log_of two))) 0 ≡ (first ∷ [], 23)
unfolding header_bytes write_be64 write_be32
scan_valid-take_example = scan_valid-take 41 two two-IsStorable

abbrev entry : IndexEntry
entry = record { offset = 128; file_position = 2560 }

abbrev cut_segment : Segment
cut_segment = record {
  base_offset = 0;
  log = take 41 (log_of two);
  index = index_of (due_entries 0 0 (first ∷ []));
}

open_store-Inv_example : Inv [] (first ∷ []) (open_store 0 default_options (cut_segment ∷ []))
open_store-Inv_example =
    open_store-Inv 41 two cut_segment (refl, (refl, tt)) two-IsStorable refl 0 default_options
      (cut_segment ∷ []) [] refl refl
