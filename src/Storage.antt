-- ===== src/Storage.antt =====
-- The storage engine under storage/: the constants of storage/log_format.hpp, the options of
-- storage/storage_options.hpp, and the structs that pass between its parts.
-- A uint64_t or uint32_t is a number, with its range stated where a property needs it. A directory
-- entry `%020llu.log` is its base offset: the names have twenty digits, so that they sort as the
-- numbers do.
pub mod Format
pub mod Files
pub mod Reader
pub mod Index
pub mod Store
pub mod Recovery
pub mod Samples
mod Tests
use fell.Base.{ℕ, ◌*◌, ◌<◌, ◌^◌, Bool, List, length, All}
use fell.Wire.{IsByte}

abbrev pub log_record_header_size : ℕ
log_record_header_size = 20

abbrev pub log_segment_max_bytes : ℕ
log_segment_max_bytes = 64 * 1024 * 1024

abbrev pub index_interval : ℕ
index_interval = 128

pub record LogRecordHeader : Type 0 where
  pub offset : ℕ
  pub timestamp_ms : ℕ
  pub payload_size : ℕ

pub record IndexEntry : Type 0 where
  pub offset : ℕ
  pub file_position : ℕ

-- `StoredMessage`, `DiskRecord`, `CommittedRecord` and `AppendCommand` have the same three fields.
pub record StoredMessage : Type 0 where
  pub offset : ℕ
  pub timestamp_ms : ℕ
  pub payload : List ℕ

abbrev pub DiskRecord : Type 0
DiskRecord = StoredMessage

abbrev pub CommittedRecord : Type 0
CommittedRecord = StoredMessage

abbrev pub AppendCommand : Type 0
AppendCommand = StoredMessage

pub record StorageOptions : Type 0 where
  pub max_pending_bytes : ℕ
  pub queue_capacity : ℕ
  pub max_batch_bytes : ℕ
  pub max_batch_records : ℕ
  pub batch_wait_us : ℕ
  pub flush_every_records : ℕ
  pub flush_every_ms : ℕ

-- The values that the fields of `StorageOptions` start with.
abbrev pub default_options : StorageOptions
default_options = record {
  max_pending_bytes = 64 * 1024 * 1024;
  queue_capacity = 65536;
  max_batch_bytes = 1024 * 1024;
  max_batch_records = 4096;
  batch_wait_us = 1000;
  flush_every_records = 8192;
  flush_every_ms = 25;
}

-- The fields are in the range of their C++ types.
pub record IsStorable (m : StoredMessage) : Type 0 where
  pub offset_u64 : m.offset < 2 ^ 64
  pub timestamp_u64 : m.timestamp_ms < 2 ^ 64
  pub size_u32 : length m.payload < 2 ^ 32
  pub payload_bytes : All IsByte m.payload
