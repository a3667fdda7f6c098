-- ===== src/Storage/Reader/Steps.antt =====
-- One round of the readers' loops on a file: at a whole record, and at the end of the whole records.
use fell.Base.{
  ℕ, suc, ◌+◌, ◌≤◌, ◌<◌, ◌≡◌, refl, sym, ap, ◌∙◌, ◌⊎◌, inl, inr, Bool-cases, List, [], ◌∷◌, ◌++◌,
  some, length, take, drop, length-take, length-drop, append_assoc, take-append_self, take_all,
  take-append-drop, drop-append_self, drop-drop, ltb, ltb→lt, ltb_false→le, arith,
}
use fell.Storage.{StoredMessage, IsStorable}
use fell.Storage.Format.{
  header_bytes, header_of, encode_record, decode_header, length-header_bytes, length-encode_record,
  decode_header-header_bytes,
}
use fell.Storage.Files.{short, full, pread_file}
use fell.Storage.Reader.{read_loop, scan_loop, map_ok}

-- The bytes that end the whole records of a log: too few for a header, or for its payload.
abbrev pub IsTorn : List ℕ → Type 0
IsTorn t = (length t < 20) ⊎ (length t < 20 + (decode_header (take 20 t)).payload_size)

module _ (bytes : List ℕ) (position n : ℕ) where
  pub pread_full :
      (chunk rest : List ℕ)
      → length chunk ≡ n
      → drop position bytes ≡ chunk ++ rest
      → pread_file (some bytes) n position ≡ full chunk
  unfolding pread_file
  pread_full chunk rest e h = ground (arith, ap (take n) h ∙ take-append_self n chunk rest (sym e))

  pub pread_short : length (drop position bytes) < n → pread_file (some bytes) n position ≡ short
  unfolding pread_file
  pread_short h = ground (arith, take_all n (drop position bytes))

module _ (bytes : List ℕ) (position : ℕ) (m : StoredMessage) (rest : List ℕ) (s : IsStorable m)
    (h : drop position bytes ≡ encode_record m ++ rest) where
  pub pread_header : pread_file (some bytes) 20 position ≡ full (header_bytes (header_of m))
  pread_header =
      pread_full bytes position 20 (header_bytes (header_of m)) (m.payload ++ rest)
        (length-header_bytes (header_of m))
        (h ∙ append_assoc (header_bytes (header_of m)) m.payload rest)

  pub pread_payload : pread_file (some bytes) (length m.payload) (position + 20) ≡ full m.payload
  pread_payload = pread_full bytes (position + 20) (length m.payload) m.payload rest refl (
      sym (drop-drop 20 position bytes)
      ∙ ap (drop 20) (h ∙ append_assoc (header_bytes (header_of m)) m.payload rest)
      ∙ drop-append_self 20 (header_bytes (header_of m)) (m.payload ++ rest)
          (sym (length-header_bytes (header_of m))))

  pub drop_record : drop (position + (20 + length m.payload)) bytes ≡ rest
  drop_record =
      sym (drop-drop (20 + length m.payload) position bytes)
      ∙ ap (drop (20 + length m.payload)) h
      ∙ drop-append_self (20 + length m.payload) (encode_record m) rest
          (sym (length-encode_record m))

  pub scan_record :
      (fuel : ℕ)
      → let r = scan_loop fuel (some bytes) (position + (20 + length m.payload)) in
        scan_loop (suc fuel) (some bytes) position ≡ (m ∷ r.0, r.1)
  unfolding scan_loop
  scan_record fuel = ground (arith, pread_header, decode_header-header_bytes m s, pread_payload)

  pub read_skip :
      (fuel start room : ℕ)
      → m.offset < start
      → read_loop (suc fuel) (some bytes) position start (suc room)
        ≡ read_loop fuel (some bytes) (position + 20 + length m.payload) start (suc room)
  unfolding read_loop
  read_skip fuel start room k = ground (arith, pread_header, decode_header-header_bytes m s)

  pub read_take :
      (fuel start room : ℕ)
      → start ≤ m.offset
      → read_loop (suc fuel) (some bytes) position start (suc room)
        ≡ map_ok
            (λ out. m ∷ out)
            (read_loop fuel (some bytes) (position + 20 + length m.payload) start room)
  unfolding read_loop
  read_take fuel start room k =
      ground (arith, pread_header, decode_header-header_bytes m s, pread_payload)

-- At the end of the whole records both loops stop.
module _ (bytes : List ℕ) (position : ℕ) (torn : IsTorn (drop position bytes)) where
  scan_torn_long :
      (fuel : ℕ)
      → 20 ≤ length (drop position bytes)
      → length (drop position bytes)
        < 20 + (decode_header (take 20 (drop position bytes))).payload_size
      → scan_loop (suc fuel) (some bytes) position ≡ ([], position)
  unfolding scan_loop
  scan_torn_long fuel h k = ground (
    arith,
    pread_full bytes position 20 (take 20 (drop position bytes)) (drop 20 (drop position bytes)),
    length-take 20 (drop position bytes),
    take-append-drop 20 (drop position bytes),
    pread_short bytes (position + 20) (decode_header (take 20 (drop position bytes))).payload_size,
    length-drop position bytes,
    length-drop (position + 20) bytes,
  )

  scan_torn_short :
      (fuel : ℕ)
      → length (drop position bytes) < 20
      → scan_loop (suc fuel) (some bytes) position ≡ ([], position)
  unfolding scan_loop
  scan_torn_short fuel h = ground (arith, pread_short bytes position 20)

  pub scan_torn : (fuel : ℕ) → scan_loop (suc fuel) (some bytes) position ≡ ([], position)
  scan_torn fuel = elim torn [
    | inl few ↦ scan_torn_short fuel few
    | inr cut ↦ elim (Bool-cases (ltb (length (drop position bytes)) 20)) [
      | inl few ↦ scan_torn_short fuel (ltb→lt _ _ few)
      | inr many ↦ scan_torn_long fuel (ltb_false→le _ _ many) cut
    ]
  ]
