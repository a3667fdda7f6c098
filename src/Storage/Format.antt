-- ===== src/Storage/Format.antt =====
-- The bytes of a log record and of an index entry, as `PartitionStore::write_batch` of
-- storage/partition_store.cpp writes them and the readers take them apart. The packed structs of
-- storage/log_format.hpp are their fields in order, each converted to big-endian.
use fell.Base.{
  ℕ, Bool, ◌==◌, ◌-◌, ◌+◌, ◌%◌, ◌^◌, ◌≡◌, refl, ◌∙◌, ap, List, [], ◌∷◌, ◌++◌, length, drop,
  length-append, append_assoc, sym, arith,
}
use fell.Wire.{read_be32, read_be64, write_be32, write_be64}
use fell.Storage.{LogRecordHeader, IndexEntry, StoredMessage, IsStorable, index_interval}

unfoldable pub header_bytes : LogRecordHeader → List ℕ
header_bytes h = write_be64 h.offset ++ (write_be64 h.timestamp_ms ++ write_be32 h.payload_size)

abbrev pub header_of : StoredMessage → LogRecordHeader
header_of m = record {
  offset = m.offset;
  timestamp_ms = m.timestamp_ms;
  payload_size = length m.payload % 2 ^ 32;
}

-- One record in the batch buffer: the header, then the payload.
abbrev pub encode_record : StoredMessage → List ℕ
encode_record m = header_bytes (header_of m) ++ m.payload

-- The header in a buffer of 20 bytes, converted to host order.
unfoldable pub decode_header : List ℕ → LogRecordHeader
decode_header b = record {
  offset = read_be64 b;
  timestamp_ms = read_be64 (drop 8 b);
  payload_size = read_be32 (drop 16 b);
}

-- `(offset - base) % INDEX_INTERVAL == 0` on uint64_t.
abbrev pub is_due : ℕ → StoredMessage → Bool
is_due base m = (m.offset + 2 ^ 64 - base) % 2 ^ 64 % index_interval == 0

unfoldable pub index_entry_bytes : IndexEntry → List ℕ
index_entry_bytes e = write_be64 e.offset ++ write_be64 e.file_position

-- A log segment that holds these records.
abbrev pub log_of : List StoredMessage → List ℕ
log_of [] = []
log_of (m ∷ ms) = encode_record m ++ log_of ms

pub length-header_bytes : (h : LogRecordHeader) → length (header_bytes h) ≡ 20
unfolding header_bytes write_be32 write_be64
length-header_bytes h = refl

pub length-encode_record : (m : StoredMessage) → length (encode_record m) ≡ 20 + length m.payload
length-encode_record m =
    omega (
      arith,
      length-append (header_bytes (header_of m)) m.payload,
      length-header_bytes (header_of m),
    )

pub decode_header-header_bytes :
    (m : StoredMessage)
    → IsStorable m
    → decode_header (header_bytes (header_of m))
      ≡ record { offset = m.offset; timestamp_ms = m.timestamp_ms; payload_size = length m.payload }
unfolding header_bytes decode_header write_be32 write_be64 read_be32 read_be64
decode_header-header_bytes m s = ground (arith, s.offset_u64, s.timestamp_u64, s.size_u32)

pub log_of-append : (xs ys : List StoredMessage) → log_of (xs ++ ys) ≡ log_of xs ++ log_of ys
log_of-append [] ys = refl
log_of-append (x ∷ xs) ys = append-front (log_of-append xs ys)
  where
    append-front :
        log_of (xs ++ ys) ≡ log_of xs ++ log_of ys
        → log_of (x ∷ xs ++ ys) ≡ log_of (x ∷ xs) ++ log_of ys
    append-front e =
        ap (◌++◌ (encode_record x)) e ∙ sym (append_assoc (encode_record x) (log_of xs) (log_of ys))
