-- ===== src/Storage/Reader/Read.antt =====
-- `read`: it returns what filtering all records from a position would.
use fell.Base.{
  ℕ, zero, suc, ◌+◌, ◌≤◌, ◌<◌, ◌≡◌, refl, ap, ◌∙◌, inl, inr, Bool-cases, List, [], ◌∷◌, ◌++◌, some,
  length, All, take, drop, select, length-append, length-take, length-drop, append_assoc,
  take-append-drop, drop-append_self, ltb, leb, ltb→lt, ltb_false→le, arith,
}
use fell.Storage.{StoredMessage, IsStorable}
use fell.Storage.Format.{encode_record, decode_header, log_of, length-encode_record}
use fell.Storage.Reader.{ok, map_ok, read_loop, read}
use fell.Storage.Reader.Steps.{IsTorn, pread_full, pread_short, read_skip, read_take, drop_record}

-- The records that `read` is asked for.
abbrev pub from_offset : ℕ → List StoredMessage → List StoredMessage
from_offset start = select (λ m. leb start m.offset)

read_past_end :
    (bytes : List ℕ) (position start room fuel : ℕ)
    → length (drop position bytes) < 20
    → read_loop (suc fuel) (some bytes) position start room ≡ ok []
unfolding read_loop
read_past_end bytes position start zero fuel h = refl
read_past_end bytes position start (suc room) fuel h = ground (arith, pread_short bytes position 20)

read_torn_long :
    (bytes : List ℕ) (position start room fuel : ℕ)
    → 20 ≤ length (drop position bytes)
    → length (drop position bytes)
      < 20 + (decode_header (take 20 (drop position bytes))).payload_size
    → read_loop (suc (suc fuel)) (some bytes) position start (suc room) ≡ ok []
unfolding read_loop
read_torn_long bytes position start room fuel h k =
    let size = (decode_header (take 20 (drop position bytes))).payload_size in
    ground (
      arith,
      pread_full bytes position 20 (take 20 (drop position bytes)) (drop 20 (drop position bytes)),
      length-take 20 (drop position bytes),
      take-append-drop 20 (drop position bytes),
      pread_short bytes (position + 20) size,
      length-drop position bytes,
      length-drop (position + 20) bytes,
      length-drop (position + 20 + size) bytes,
      pread_short bytes (position + 20 + size) 20,
    )

read_torn :
    (bytes : List ℕ) (position start room fuel : ℕ)
    → IsTorn (drop position bytes)
    → length (drop position bytes) < fuel
    → read_loop fuel (some bytes) position start room ≡ ok []
read_torn bytes position start room zero torn enough = absurd (omega arith)
read_torn bytes position start zero (suc fuel) torn enough = unfold read_loop in refl
read_torn bytes position start (suc room) (suc zero) torn enough =
    read_past_end bytes position start (suc room) zero (omega arith)
read_torn bytes position start (suc room) (suc (suc fuel)) torn enough =
    elim (Bool-cases (ltb (length (drop position bytes)) 20)) [
      | inl few ↦ read_past_end bytes position start (suc room) (suc fuel) (ltb→lt _ _ few)
      | inr many ↦ elim torn [
        | inl few ↦ read_past_end bytes position start (suc room) (suc fuel) few
        | inr cut ↦ read_torn_long bytes position start room fuel (ltb_false→le _ _ many) cut
      ]
    ]

read_loop-log_of :
    (ms : List StoredMessage) (t bytes : List ℕ) (position start room fuel : ℕ)
    → All IsStorable ms
    → IsTorn t
    → drop position bytes ≡ log_of ms ++ t
    → length (drop position bytes) < fuel
    → read_loop fuel (some bytes) position start room ≡ ok (take room (from_offset start ms))
read_loop-log_of ms t bytes position start room zero s torn h enough = absurd (omega arith)
read_loop-log_of ms t bytes position start zero (suc fuel) s torn h enough =
    unfold read_loop in refl
read_loop-log_of [] t bytes position start (suc room) (suc fuel) s torn h enough =
    read_torn bytes position start (suc room) (suc fuel) (rw h torn) enough
read_loop-log_of (m ∷ ms) t bytes position start (suc room) (suc fuel) (sm, s) torn h enough =
    elim (Bool-cases (leb start m.offset)) [
      | inl wanted ↦ rw wanted (
          read_take bytes position m rest sm at_record fuel start room (ground arith)
          ∙ ap (map_ok (λ out. m ∷ out))
              (read_loop-log_of ms t bytes next start room fuel s torn at_next fewer))
      | inr unwanted ↦ rw unwanted (
          read_skip bytes position m rest sm at_record fuel start room (ground arith)
          ∙ read_loop-log_of ms t bytes next start (suc room) fuel s torn at_next fewer)
    ]
  where
    rest : List ℕ
    rest = log_of ms ++ t

    next : ℕ
    next = position + 20 + length m.payload

    at_record : drop position bytes ≡ encode_record m ++ rest
    at_record = h ∙ append_assoc (encode_record m) (log_of ms) t

    at_next : drop next bytes ≡ rest
    at_next =
        ap (λ k. drop k bytes) {x = next} {y = position + (20 + length m.payload)} (omega arith)
        ∙ drop_record bytes position m rest sm at_record

    fewer : length (drop next bytes) < fuel
    fewer = omega (
      arith,
      length-drop position bytes,
      length-drop next bytes,
      ap length at_record,
      length-append (encode_record m) rest,
      length-encode_record m,
    )

-- On a segment that holds `before`, then `ms`, then bytes too few for a record, `read` from the
-- position where `ms` begins returns the first `max_count` of those records of `ms` whose offset is
-- `start_offset` or more.
pub read-log_of :
    (before ms : List StoredMessage) (t : List ℕ) (start_offset max_count : ℕ)
    → All IsStorable ms
    → IsTorn t
    → read
        (some (log_of before ++ (log_of ms ++ t)))
        (length (log_of before))
        start_offset
        max_count
      ≡ ok (take max_count (from_offset start_offset ms))
unfolding read
read-log_of before ms t start_offset max_count s torn =
    read_loop-log_of ms t (log_of before ++ (log_of ms ++ t)) (length (log_of before)) start_offset
      max_count _ s torn (drop-append_self _ (log_of before) (log_of ms ++ t) refl)
      (omega (arith, length-drop (length (log_of before)) (log_of before ++ (log_of ms ++ t))))
