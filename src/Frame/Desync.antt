-- ===== src/Frame/Desync.antt =====
-- Two ways in which the decoder loses a stream of frames.
use fell.Base.{
  ℕ, zero, suc, ◌+◌, ◌^◌, ◌≤◌, ◌<◌, ◌≡◌, refl, ap, ◌∙◌, List, [], ◌∷◌, ◌++◌, none, some, length,
  take, drop, length-append, length-drop, length-take, drop-append_self, arith,
}
use fell.Wire.{read_be32}
use fell.Frame.{Frame, FrameDecoder, Stop, cleared, scan, push, finish, settle}
use fell.Frame.Scan.{encode, IsLegal, length-encode, scan_whole, scan_zero}
use fell.Frame.Stream.{fresh, pending}

-- Four zero bytes, a frame length of zero.
abbrev pub zero_length : List ℕ
zero_length = 0 ∷ 0 ∷ 0 ∷ 0 ∷ []

module _ (limit : ℕ) (f : Frame) (rest : List ℕ) (small : limit < 2 ^ 32) (legal : IsLegal limit f)
    (fits : length f.payload + 9 + length rest ≤ limit + 4096) where
  abbrev sent : List ℕ
  sent = encode f ++ (zero_length ++ rest)

  size_sent : length sent ≡ length f.payload + 9 + length rest
  size_sent = omega (arith, length-append (encode f) (zero_length ++ rest), length-encode f)

  at_zero : drop (4 + (1 + length f.payload)) sent ≡ zero_length ++ rest
  at_zero =
      drop-append_self (4 + (1 + length f.payload)) (encode f) (zero_length ++ rest)
        (omega (arith, length-encode f))

  scan_sent : scan (suc (length sent)) limit sent 0 ≡ (f ∷ [], cleared (4 + (1 + length f.payload)))
  scan_sent =
      scan_whole (length sent) limit sent 0 (omega arith) big f (zero_length ++ rest) small legal
        refl
      ∙ ap (λ (r : List Frame × Stop). (f ∷ r.0, r.1))
          (ap (scan (length sent) limit sent) {x = 0 + (4 + (1 + length f.payload))}
              {y = 4 + (1 + length f.payload)} (omega arith)
            ∙ inner)
    where
      big : length sent < 2 ^ 63
      big = omega (arith, size_sent, fits, small)

      shorter :
          (n : ℕ)
          → n ≡ length sent
          → 4 + (1 + length f.payload) ≤ length sent
          → (m : ℕ) × (n ≡ suc m)
      shorter zero e h = absurd (omega arith)
      shorter (suc m) e h = (m, refl)

      inner :
          scan (length sent) limit sent (4 + (1 + length f.payload))
          ≡ ([], cleared (4 + (1 + length f.payload)))
      inner =
          let (m, e) = shorter (length sent) refl (omega (arith, size_sent)) in
          rw e (
            scan_zero m limit sent (4 + (1 + length f.payload)) (omega (arith, size_sent)) big
              (rw at_zero (omega arith)) (rw at_zero (unfold read_be32 in omega arith)))

  desynced :
      push (fresh limit) sent
      ≡ finish (fresh limit) sent (f ∷ []) (cleared (4 + (1 + length f.payload)))
  unfolding push
  desynced = ground (arith, scan_sent, size_sent, fits, small)

  -- A legal frame, then a length of zero in the same read: `push` reports one frame and no error,
  -- its buffer is empty and its read index is past the end of it, so that every later read that is
  -- shorter than the first frame is refused, whatever it holds.
  pub zero_length_refuses :
      (bytes : List ℕ)
      → length f.payload + 5 < 8192
      → length bytes < length f.payload + 5
      → limit + 4096 < 2 ^ 63
      → let r = push (fresh limit) sent in
        (r.count ≡ some 1)
        × (length r.decoder.buf < r.decoder.read_idx)
        × ((push r.decoder bytes).count ≡ none)
  zero_length_refuses bytes low short addressable =
      rw (desynced, settled) (refl, omega arith, refused_after)
    where
      settled :
          settle (fresh limit) [] (4 + (1 + length f.payload))
          ≡ record { buf = []; max_frame_size = limit; read_idx = 4 + (1 + length f.payload) }
      settled = ground arith

      refused_after :
          (push
            (record { buf = []; max_frame_size = limit; read_idx = 4 + (1 + length f.payload) })
            bytes).count
          ≡ none
      refused_after = unfold push in ground arith

-- A decoder that holds all of a frame of the largest size but its last byte refuses a full read of
-- 4096 bytes, although the frame is within the limit and the read completes it.
pub full_read_refuses :
    (d : FrameDecoder) (f : Frame) (bytes : List ℕ)
    → 1 + length f.payload ≡ d.max_frame_size
    → d.max_frame_size < 2 ^ 32
    → d.read_idx ≤ length d.buf
    → length d.buf < 2 ^ 63
    → pending d ≡ take (length f.payload + 4) (encode f)
    → length bytes ≡ 4096
    → (push d bytes).count ≡ none
unfolding push
full_read_refuses d f bytes size small inside addressable held full = ground (
  arith,
  ap length held,
  length-take (length f.payload + 4) (encode f),
  length-encode f,
  length-drop d.read_idx d.buf,
)
