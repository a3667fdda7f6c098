-- ===== src/Storage/Reader.antt =====
-- storage/segment_reader.cpp: `SegmentReader::read` and `SegmentReader::scan_valid`.
pub mod Steps
pub mod Scan
pub mod Read
pub mod Crash
use fell.Base.{
  ℕ, zero, suc, ◌+◌, ◌-◌, ◌/◌, List, [], ◌∷◌, Bool, length, Option, none, some, ltb, if◌then◌else◌,
  ◌≡◌, refl, ◌⊎◌, inl, inr,
}
use fell.Storage.{DiskRecord, LogRecordHeader, log_record_header_size}
use fell.Storage.Format.{decode_header}
use fell.Storage.Files.{File, Got, failed, short, full, pread_file}

-- The result of a function that may throw. `stuck` is no result of the program: fuel ran out.
pub data Outcome {ℓ} (A : Type ℓ) : Type ℓ where
  ok : A → Outcome A
  threw : Outcome A
  stuck : Outcome A

pub Outcome-cases {ℓ} :
    {A : Type ℓ} (o : Outcome A) → (o ≡ threw) ⊎ ((o ≡ stuck) ⊎ ((a : A) × (o ≡ ok a)))
Outcome-cases (ok a) = inr (inr (a, refl))
Outcome-cases threw = inl refl
Outcome-cases stuck = inr (inl refl)

abbrev pub disk_record : LogRecordHeader → List ℕ → DiskRecord
disk_record h payload = record {
  offset = h.offset;
  timestamp_ms = h.timestamp_ms;
  payload = payload;
}

abbrev pub map_ok {ℓ} : {A : Type ℓ} → (A → A) → Outcome A → Outcome A
map_ok f (ok a) = ok (f a)
map_ok f threw = threw
map_ok f stuck = stuck

-- The loop of `read` with room for `room` more records, from `position` on.
unfoldable pub read_loop : ℕ → File → ℕ → ℕ → ℕ → Outcome (List DiskRecord)
read_loop fuel file position start_offset zero = ok []
read_loop zero file position start_offset (suc room) = stuck
read_loop (suc fuel) file position start_offset (suc room) =
    elim (pread_file file log_record_header_size position) [
      | failed ↦ threw
      | short ↦ ok []
      | full b ↦
          let h = decode_header b in
          let body = position + log_record_header_size in
          let skipped = read_loop fuel file (body + h.payload_size) start_offset (suc room) in
          let taken = read_loop fuel file (body + h.payload_size) start_offset room in
          if ltb h.offset start_offset
          then skipped
          else elim (pread_file file h.payload_size body) [
            | failed ↦ threw
            | short ↦ ok []
            | full payload ↦ map_ok (λ rest. disk_record h payload ∷ rest) taken
          ]
    ]

-- The rounds that are enough for a file: each moves on by a header at least.
abbrev pub rounds : File → ℕ
rounds none = 1
rounds (some bytes) = suc (length bytes)

unfoldable pub read : File → ℕ → ℕ → ℕ → Outcome (List DiskRecord)
read file file_position start_offset max_count =
    read_loop (rounds file) file file_position start_offset max_count

-- The loop of `scan_valid`: the records appended to `out`, and the position after the last of them.
unfoldable pub scan_loop : ℕ → File → ℕ → List DiskRecord × ℕ
scan_loop zero file position = ([], position)
scan_loop (suc fuel) file position = elim (pread_file file log_record_header_size position) [
  | failed ↦ ([], position)
  | short ↦ ([], position)
  | full b ↦
      let h = decode_header b in
      let rest = scan_loop fuel file (position + (log_record_header_size + h.payload_size)) in
      elim (pread_file file h.payload_size (position + log_record_header_size)) [
        | failed ↦ ([], position)
        | short ↦ ([], position)
        | full payload ↦ (disk_record h payload ∷ rest.0, rest.1)
      ]
]

unfoldable pub scan_valid : File → ℕ → List DiskRecord × ℕ
scan_valid file from_position = scan_loop (rounds file) file from_position
