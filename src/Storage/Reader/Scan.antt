-- ===== src/Storage/Reader/Scan.antt =====
-- `scan_valid`: it finds exactly the whole records of a segment, on every file.
use fell.Base.{
  ℕ, zero, suc, ◌+◌, ◌%◌, ◌^◌, ◌≤◌, ◌<◌, ◌≡◌, refl, sym, ap, ap₂, ◌∙◌, ◌⊎◌, inl, inr, Bool-cases,
  List, [], ◌∷◌, ◌++◌, some, length, All, All-drop, All-take, take, drop, length-append,
  length-take, length-drop, append_assoc, take-append_self, take_all, take-append-drop,
  drop-append_self, drop-drop, subst, ltb, ltb→lt, ltb_false→le, arith,
}
use fell.Wire.{
  IsByte, read_be32-lt, read_be64-lt, write_be32-read_be32-take, write_be64-read_be64-take,
}
use fell.Storage.{StoredMessage, IsStorable}
use fell.Storage.Format.{
  header_bytes, header_of, encode_record, decode_header, log_of, length-encode_record,
}
use fell.Storage.Reader.{disk_record, scan_loop, scan_valid}
use fell.Storage.Reader.Steps.{IsTorn, scan_record, scan_torn, drop_record}

scan_loop-log_of :
    (ms : List StoredMessage) (t bytes : List ℕ) (position fuel : ℕ)
    → All IsStorable ms
    → IsTorn t
    → drop position bytes ≡ log_of ms ++ t
    → length (drop position bytes) < fuel
    → scan_loop fuel (some bytes) position ≡ (ms, position + length (log_of ms))
scan_loop-log_of ms t bytes position zero s torn h enough = absurd (omega arith)
scan_loop-log_of [] t bytes position (suc fuel) s torn h enough =
    scan_torn bytes position (rw h torn) fuel ∙ ap (λ (p : ℕ). ([], p)) (omega arith)
scan_loop-log_of (m ∷ ms) t bytes position (suc fuel) (sm, s) torn h enough =
    scan_record bytes position m (log_of ms ++ t) sm at_record fuel
    ∙ ap (λ (r : List StoredMessage × ℕ). (m ∷ r.0, r.1))
        (scan_loop-log_of ms t bytes next fuel s torn
          (drop_record bytes position m (log_of ms ++ t) sm at_record)
          (omega (
            arith,
            length-drop position bytes,
            length-drop next bytes,
            sizes,
            length-append (encode_record m) (log_of ms ++ t),
          )))
    ∙ ap (λ (p : ℕ). (m ∷ ms, p))
        (omega (arith, length-append (encode_record m) (log_of ms), length-encode_record m))
  where
    next : ℕ
    next = position + (20 + length m.payload)

    at_record : drop position bytes ≡ encode_record m ++ (log_of ms ++ t)
    at_record = h ∙ append_assoc (encode_record m) (log_of ms) t

    sizes : length (drop position bytes) ≡ 20 + length m.payload + length (log_of ms ++ t)
    sizes =
        ap length at_record
        ∙ omega (arith, length-append (encode_record m) (log_of ms ++ t), length-encode_record m)

-- Records written one after the other and then bytes that are too few for a further record: the scan
-- from the start returns those records and the position where they end.
pub scan_valid-log_of :
    (ms : List StoredMessage) (t : List ℕ)
    → All IsStorable ms
    → IsTorn t
    → scan_valid (some (log_of ms ++ t)) 0 ≡ (ms, length (log_of ms))
unfolding scan_valid
scan_valid-log_of ms t s torn =
    scan_loop-log_of ms t (log_of ms ++ t) 0 _ s torn refl (omega arith)
    ∙ ap (λ (p : ℕ). (ms, p)) (omega arith)

-- The header that any twenty bytes are.
header_bytes-decode_header :
    (b : List ℕ) → length b ≡ 20 → All IsByte b → header_bytes (decode_header b) ≡ b
unfolding header_bytes decode_header
header_bytes-decode_header b h bytes =
    ap₂ ◌++◌ (write_be64-read_be64-take b (omega arith) bytes) (
      ap₂ ◌++◌
        (write_be64-read_be64-take (drop 8 b) (omega (arith, length-drop 8 b))
          (All-drop IsByte 8 b bytes))
        (write_be32-read_be32-take (drop 16 b) (omega (arith, length-drop 16 b))
            (All-drop IsByte 16 b bytes)
          ∙ take_all 4 (drop 16 b) (omega (arith, length-drop 16 b))))
    ∙ ap (λ r. take 8 b ++ (take 8 (drop 8 b) ++ r)) (sym (drop-drop 8 8 b))
    ∙ ap (λ r. take 8 b ++ r) (take-append-drop 8 (drop 8 b))
    ∙ take-append-drop 8 b

-- Any bytes are whole records and then a torn end.
record Split (bytes : List ℕ) : Type 0 where
  records : List StoredMessage
  tail : List ℕ
  whole : bytes ≡ log_of records ++ tail
  storable : All IsStorable records
  torn : IsTorn tail

abbrev first_record : List ℕ → StoredMessage
first_record b =
    let h = decode_header (take 20 b) in disk_record h (take h.payload_size (drop 20 b))

-- The bytes of a file whose first record is whole.
record IsWhole (b : List ℕ) : Type 0 where
  header : 20 ≤ length b
  payload : 20 + (decode_header (take 20 b)).payload_size ≤ length b

first_record_front :
    (b : List ℕ)
    → IsWhole b
    → All IsByte b
    → (b ≡ encode_record (first_record b) ++ drop (20 + (decode_header (take 20 b)).payload_size) b)
      × IsStorable (first_record b)
first_record_front b w bytes = (sym front, storable)
  where
    q : List ℕ
    q = take 20 b

    size : ℕ
    size = (decode_header q).payload_size

    body : List ℕ
    body = take size (drop 20 b)

    q_bytes : All IsByte q
    q_bytes = All-take IsByte 20 b bytes

    size_u32 : size < 2 ^ 32
    size_u32 = unfold decode_header in read_be32-lt (drop 16 q) (All-drop IsByte 16 q q_bytes)

    size_body : length body ≡ size
    size_body = omega (arith, length-take size (drop 20 b), length-drop 20 b, w.payload)

    header : header_bytes (header_of (first_record b)) ≡ q
    header =
        ap
          (λ (n : ℕ). header_bytes (record {
            offset = (decode_header q).offset;
            timestamp_ms = (decode_header q).timestamp_ms;
            payload_size = n;
          }))
          {x = length body % 2 ^ 32} {y = size} (omega (arith, size_body, size_u32))
        ∙ header_bytes-decode_header q (omega (arith, length-take 20 b, w.header)) q_bytes

    front : encode_record (first_record b) ++ drop (20 + size) b ≡ b
    front =
        ap (λ r. (r ++ body) ++ drop (20 + size) b) header
        ∙ append_assoc q body (drop (20 + size) b)
        ∙ ap (λ r. q ++ (body ++ r)) (sym (drop-drop size 20 b))
        ∙ ap (◌++◌ q) (take-append-drop size (drop 20 b))
        ∙ take-append-drop 20 b

    storable : IsStorable (first_record b)
    storable = record {
      offset_u64 = unfold decode_header in read_be64-lt q q_bytes;
      timestamp_u64 = unfold decode_header in read_be64-lt (drop 8 q) (All-drop IsByte 8 q q_bytes);
      size_u32 = omega (arith, size_body, size_u32);
      payload_bytes = All-take IsByte size (drop 20 b) (All-drop IsByte 20 b bytes);
    }

IsTorn-or_IsWhole : (b : List ℕ) → IsTorn b ⊎ IsWhole b
IsTorn-or_IsWhole b = elim (Bool-cases (ltb (length b) 20)) [
  | inl few ↦ inl (inl (ltb→lt _ _ few))
  | inr many ↦ elim (Bool-cases (ltb (length b) (20 + (decode_header (take 20 b)).payload_size))) [
    | inl cut ↦ inl (inr (ltb→lt _ _ cut))
    | inr all ↦ inr (record { header = ltb_false→le _ _ many; payload = ltb_false→le _ _ all })
  ]
]

Split-bytes : (fuel : ℕ) (b : List ℕ) → length b < fuel → All IsByte b → Split b
Split-bytes zero b enough bytes = absurd (omega arith)
Split-bytes (suc fuel) b enough bytes = elim (IsTorn-or_IsWhole b) [
  | inl torn ↦ record { records = []; tail = b; whole = refl; storable = tt; torn = torn }
  | inr w ↦ grow w (
      Split-bytes fuel (rest b)
        (omega (arith, length-drop (20 + (decode_header (take 20 b)).payload_size) b, w.header))
        (All-drop IsByte (20 + (decode_header (take 20 b)).payload_size) b bytes))
]
  where
    rest : List ℕ → List ℕ
    rest c = drop (20 + (decode_header (take 20 c)).payload_size) c

    grow : IsWhole b → Split (rest b) → Split b
    grow w s =
        let (front, storable) = first_record_front b w bytes in
        record {
          records = first_record b ∷ s.records;
          tail = s.tail;
          whole =
              front
              ∙ ap (◌++◌ (encode_record (first_record b))) s.whole
              ∙ sym (append_assoc (encode_record (first_record b)) (log_of s.records) s.tail);
          storable = (storable, s.storable);
          torn = s.torn;
        }

-- What a scan of any file of bytes returns: records whose encodings are the file's bytes up to the
-- position returned, behind which no whole record begins.
pub record Scanned (bytes : List ℕ) (r : List StoredMessage × ℕ) : Type 0 where
  pub front : take r.1 bytes ≡ log_of r.0
  pub storable : All IsStorable r.0
  pub torn : IsTorn (drop r.1 bytes)
  pub within : r.1 ≤ length bytes

-- On every file the scan from the start ends where the whole records end, and returns them: what is
-- before the position is their encoding, and what is behind it is too short for another record.
pub scan_valid-Scanned :
    (bytes : List ℕ) → All IsByte bytes → Scanned bytes (scan_valid (some bytes) 0)
scan_valid-Scanned bytes all_bytes =
    let s = Split-bytes (suc (length bytes)) bytes (omega arith) all_bytes in
    rw
      (ap (λ b. scan_valid (some b) 0) s.whole
        ∙ scan_valid-log_of s.records s.tail s.storable s.torn)
      (record {
        front = ap (take _) s.whole ∙ take-append_self _ (log_of s.records) s.tail refl;
        storable = s.storable;
        torn =
            subst IsTorn
              (sym (ap (drop _) s.whole ∙ drop-append_self _ (log_of s.records) s.tail refl))
              s.torn;
        within = omega (arith, ap length s.whole, length-append (log_of s.records) s.tail);
      })
