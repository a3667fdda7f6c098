-- ===== src/Frame/Scan.antt =====
-- One round of the decoder's loop: what it does where a frame lies whole at the cursor, where it is
-- cut short, and where too few bytes for a length are left.
use fell.Base.{
  ℕ, suc, ◌+◌, ◌-◌, ◌^◌, ◌≤◌, ◌<◌, ◌≡◌, refl, ap, ◌∙◌, List, [], ◌∷◌, ◌++◌, length, take, drop,
  length-append, length-drop, append_assoc, take-append_self, arith,
}
use fell.Wire.{IsByte, byte_at, read_be32, write_be32, read_be32-write_be32}
use fell.Frame.{Frame, waits, cleared, oversized, scan, encode_frame, sub_size}

-- The frame that the loop cuts out at the front of the bytes that are left.
abbrev pub frame_at : List ℕ → Frame
frame_at p = record { op = byte_at p 4; payload = take (read_be32 p - 1) (drop 5 p) }

-- The bytes that `encode_frame` writes for a frame.
abbrev pub encode : Frame → List ℕ
encode f = encode_frame f.op f.payload

-- A frame that fits the limit with the slack of three bytes that `push` needs.
pub record IsLegal (limit : ℕ) (f : Frame) : Type 0 where
  pub op_byte : IsByte f.op
  pub fits : length f.payload + 4 ≤ limit

pub length-encode : (f : Frame) → length (encode f) ≡ length f.payload + 5
unfolding encode_frame write_be32
length-encode f = omega arith

module _ (limit : ℕ) (f : Frame) (small : limit < 2 ^ 32) (legal : IsLegal limit f) where
  pub read_be32-encode : (rest : List ℕ) → read_be32 (encode f ++ rest) ≡ 1 + length f.payload
  unfolding encode_frame
  read_be32-encode rest =
      rw append_assoc (read_be32-write_be32 _ _ (omega arith) ∙ omega (arith, legal.fits))

  pub op-encode : (rest : List ℕ) → byte_at (encode f ++ rest) 4 ≡ f.op
  unfolding encode_frame write_be32
  op-encode rest = omega (arith, legal.op_byte)

  pub payload-encode :
      (rest : List ℕ) → take (length f.payload) (drop 5 (encode f ++ rest)) ≡ f.payload
  unfolding encode_frame write_be32
  payload-encode rest = take-append_self (length f.payload) f.payload rest refl

-- `buf_.size() - cursor` counts what is left.
pub sub_size-drop :
    (buf : List ℕ) (cursor : ℕ)
    → cursor ≤ length buf
    → length buf < 2 ^ 63
    → sub_size (length buf) cursor ≡ length (drop cursor buf)
sub_size-drop buf cursor h k = omega (arith, length-drop cursor buf)

module _ (fuel limit : ℕ) (buf : List ℕ) (cursor : ℕ) (within : cursor ≤ length buf)
    (addressable : length buf < 2 ^ 63) where
  pub scan_short :
      length (drop cursor buf) < 4 → scan (suc fuel) limit buf cursor ≡ ([], waits cursor)
  unfolding scan
  scan_short h = ground (arith, sub_size-drop buf cursor within addressable)

  pub scan_cut :
      4 ≤ length (drop cursor buf)
      → 1 ≤ read_be32 (drop cursor buf)
      → read_be32 (drop cursor buf) ≤ limit
      → length (drop cursor buf) < 4 + read_be32 (drop cursor buf)
      → scan (suc fuel) limit buf cursor ≡ ([], waits cursor)
  unfolding scan
  scan_cut a b c d = ground (arith, sub_size-drop buf cursor within addressable)

  pub scan_whole :
      (f : Frame) (rest : List ℕ)
      → limit < 2 ^ 32
      → IsLegal limit f
      → drop cursor buf ≡ encode f ++ rest
      → let r = scan fuel limit buf (cursor + (4 + (1 + length f.payload))) in
        scan (suc fuel) limit buf cursor ≡ (f ∷ r.0, r.1)
  unfolding scan
  scan_whole f rest small legal e = ground (
    arith,
    sub_size-drop buf cursor within addressable,
    ap length e,
    length-append (encode f) rest,
    length-encode f,
    legal.fits,
    ap read_be32 e,
    read_be32-encode limit f small legal rest,
    ap (λ (p : List ℕ). byte_at p 4) e,
    op-encode limit f small legal rest,
    ap (λ (p : List ℕ). take (length f.payload) (drop 5 p)) e,
    payload-encode limit f small legal rest,
  )

  pub scan_zero :
      4 ≤ length (drop cursor buf)
      → read_be32 (drop cursor buf) < 1
      → scan (suc fuel) limit buf cursor ≡ ([], cleared cursor)
  unfolding scan
  scan_zero a b = ground (arith, sub_size-drop buf cursor within addressable)

  pub scan_over :
      4 ≤ length (drop cursor buf)
      → 1 ≤ read_be32 (drop cursor buf)
      → limit < read_be32 (drop cursor buf)
      → scan (suc fuel) limit buf cursor ≡ ([], oversized)
  unfolding scan
  scan_over a b c = ground (arith, sub_size-drop buf cursor within addressable)

  -- A whole frame is emitted, whatever its bytes are.
  pub scan_emit :
      4 ≤ length (drop cursor buf)
      → 1 ≤ read_be32 (drop cursor buf)
      → read_be32 (drop cursor buf) ≤ limit
      → 4 + read_be32 (drop cursor buf) ≤ length (drop cursor buf)
      → let r = scan fuel limit buf (cursor + (4 + read_be32 (drop cursor buf))) in
        scan (suc fuel) limit buf cursor ≡ (frame_at (drop cursor buf) ∷ r.0, r.1)
  unfolding scan
  scan_emit a b c d = ground (arith, sub_size-drop buf cursor within addressable)
