-- ===== src/Storage/Index.antt =====
-- storage/offset_index.cpp: the sparse index of a segment. `std::upper_bound` on the entries is the
-- number of leading entries that are not above the target, which is what it finds on sorted entries.
pub mod Load
pub mod Lookup
use fell.Base.{
  ℕ, zero, suc, ◌+◌, ◌-◌, ◌*◌, ◌/◌, Bool, List, [], ◌∷◌, length, take, drop, get_or, ltb, ◌==◌,
  if◌then◌else◌, Option, none, some,
}
use fell.Wire.{read_be64}
use fell.Storage.{IndexEntry}

-- One entry of sixteen bytes, converted to host order.
unfoldable pub decode_entry : List ℕ → IndexEntry
decode_entry b = record { offset = read_be64 b; file_position = read_be64 (drop 8 b) }

-- The first `n` entries of the file's bytes.
unfoldable pub decode_entries : ℕ → List ℕ → List IndexEntry
decode_entries zero bytes = []
decode_entries (suc n) bytes = decode_entry (take 16 bytes) ∷ decode_entries n (drop 16 bytes)

-- The constructor: no entries where the file cannot be opened. The read of `fsize` bytes of a regular
-- file that has `fsize` bytes is whole; a torn last entry is not loaded.
unfoldable pub load : Option (List ℕ) → List IndexEntry
load none = []
load (some bytes) = decode_entries (length bytes / 16) bytes

unfoldable pub upper_bound : List IndexEntry → ℕ → ℕ
upper_bound [] target = 0
upper_bound (e ∷ es) target = if ltb target e.offset then 0 else suc (upper_bound es target)

abbrev none_entry : IndexEntry
none_entry = record { offset = 0; file_position = 0 }

-- `OffsetIndex::lookup`
unfoldable pub lookup : List IndexEntry → ℕ → ℕ
unfolding upper_bound
lookup entries target =
    if length entries == 0
    then 0
    else if upper_bound entries target == 0
    then 0
    else (get_or entries (upper_bound entries target - 1) none_entry).file_position
