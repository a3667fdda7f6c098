-- ===== src/Storage/Reader/Crash.antt =====
-- `scan_valid` after a crash: a log that was cut anywhere gives back its whole records.
use fell.Base.{
  take-nil, leb→le, le→leb, if◌then◌else◌, ℕ, ◌+◌, ◌-◌, ◌≤◌, ◌<◌, ◌≡◌, sym, ap, ◌∙◌, inl, inr,
  Bool-cases, List, [], ◌∷◌, ◌++◌, some, length, All, take, length-take, append_assoc,
  take-append_self, take-take, take-append_ge, ltb, leb, ltb→lt, ltb_false→le, arith,
}
use fell.Storage.{StoredMessage, IsStorable}
use fell.Storage.Format.{
  header_bytes, header_of, encode_record, log_of, length-header_bytes, length-encode_record,
  decode_header-header_bytes,
}
use fell.Storage.Reader.{scan_valid}
use fell.Storage.Reader.Steps.{IsTorn}
use fell.Storage.Reader.Scan.{scan_valid-log_of}

-- A torn write: what a crash leaves of a log is its whole records and a torn end.
pub IsTorn-prefix :
    (m : StoredMessage) (rest : List ℕ) (n : ℕ)
    → IsStorable m
    → n < 20 + length m.payload
    → IsTorn (take n (encode_record m ++ rest))
IsTorn-prefix m rest n s h = elim (Bool-cases (ltb n 20)) [
  | inl few ↦ inl (omega (arith, length-take n (encode_record m ++ rest), ltb→lt _ _ few))
  | inr many ↦ inr (
      rw (header_kept (ltb_false→le _ _ many), decode_header-header_bytes m s)
        (omega (arith, length-take n (encode_record m ++ rest))))
]
  where
    header_kept : 20 ≤ n → take 20 (take n (encode_record m ++ rest)) ≡ header_bytes (header_of m)
    header_kept k =
        take-take 20 n (encode_record m ++ rest) k
        ∙ ap (take 20) (append_assoc (header_bytes (header_of m)) m.payload rest)
        ∙ take-append_self 20 (header_bytes (header_of m)) (m.payload ++ rest)
            (sym (length-header_bytes (header_of m)))

-- The records that lie wholly within the first `n` bytes of their log.
abbrev pub kept : ℕ → List StoredMessage → List StoredMessage
kept n [] = []
kept n (m ∷ ms) =
    if leb (20 + length m.payload) n then m ∷ kept (n - (20 + length m.payload)) ms else []

pub record Cut (n : ℕ) (ms : List StoredMessage) : Type 0 where
  pub tail : List ℕ
  pub parts : take n (log_of ms) ≡ log_of (kept n ms) ++ tail
  pub torn : IsTorn tail

pub Cut-log : (n : ℕ) (ms : List StoredMessage) → All IsStorable ms → Cut n ms
Cut-log n [] s = record { tail = []; parts = take-nil n; torn = inl (omega arith) }
Cut-log n (m ∷ ms) (sm, s) = elim (Bool-cases (leb (20 + length m.payload) n)) [
  | inl whole ↦ grow (leb→le _ _ whole) (Cut-log (n - (20 + length m.payload)) ms s)
  | inr cut ↦ record {
    tail = take n (log_of (m ∷ ms));
    parts = rw cut;
    torn = IsTorn-prefix m (log_of ms) n sm (ground arith);
  }
]
  where
    kept_whole :
        20 + length m.payload ≤ n → kept n (m ∷ ms) ≡ m ∷ kept (n - (20 + length m.payload)) ms
    kept_whole h = rw (le→leb _ _ h)

    grow : 20 + length m.payload ≤ n → Cut (n - (20 + length m.payload)) ms → Cut n (m ∷ ms)
    grow h c = record {
      tail = c.tail;
      parts =
          take-append_ge n (encode_record m) (log_of ms) (omega (arith, length-encode_record m))
          ∙ ap (λ k. encode_record m ++ take k (log_of ms)) {x = n - length (encode_record m)}
              {y = n - (20 + length m.payload)} (omega (arith, length-encode_record m))
          ∙ ap (◌++◌ (encode_record m)) c.parts
          ∙ sym (
              append_assoc (encode_record m) (log_of (kept (n - (20 + length m.payload)) ms))
                c.tail)
          ∙ ap (λ l. log_of l ++ c.tail) (sym (kept_whole h));
      torn = c.torn;
    }

pub kept-IsStorable :
    (n : ℕ) (ms : List StoredMessage) → All IsStorable ms → All IsStorable (kept n ms)
kept-IsStorable n [] s = tt
kept-IsStorable n (m ∷ ms) (sm, s) =
    let rest = kept-IsStorable (n - (20 + length m.payload)) ms s in ground arith

-- A crash that leaves the first `n` bytes of a log, wherever it cuts, loses exactly the records that
-- were not yet written whole: the scan returns the others, in order, and ends behind them.
pub scan_valid-take :
    (n : ℕ) (ms : List StoredMessage)
    → All IsStorable ms
    → scan_valid (some (take n (log_of ms))) 0 ≡ (kept n ms, length (log_of (kept n ms)))
scan_valid-take n ms s =
    let c = Cut-log n ms s in
    ap (λ b. scan_valid (some b) 0) c.parts
    ∙ scan_valid-log_of (kept n ms) c.tail (kept-IsStorable n ms s) c.torn
