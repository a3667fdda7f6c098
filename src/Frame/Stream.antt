-- ===== src/Frame/Stream.antt =====
-- The decoder on a stream: however the bytes of a sequence of frames are cut into reads, the frames
-- come out whole, in order and once.
use fell.Base.{
  ℕ, zero, suc, ◌+◌, ◌^◌, ◌≤◌, ◌<◌, ◌≡◌, refl, sym, ap, ◌∙◌, inl, inr, Bool-cases, List, [], ◌∷◌,
  ◌++◌, Option, none, some, length, All, drop, length-append, length-drop, append_assoc, append-nil,
  append_split, drop-append_le, drop-drop, ltb, ltb→lt, ltb_false→le, arith,
}
use fell.Wire.{read_be32, read_be32-append}
use fell.Frame.{Frame, FrameDecoder, Stop, waits, Pushed, scan, push, settle, finish}
use fell.Frame.Scan.{
  encode, IsLegal, length-encode, read_be32-encode, scan_short, scan_cut, scan_whole,
}

-- The bytes of a sequence of frames.
abbrev pub wire : List Frame → List ℕ
wire [] = []
wire (f ∷ fs) = encode f ++ wire fs

-- The bytes that the decoder holds and has not decoded.
abbrev pub pending : FrameDecoder → List ℕ
pending d = drop d.read_idx d.buf

-- What is left over is less than the next frame.
abbrev pub IsShort : List ℕ → List Frame → Type 0
IsShort p [] = Unit {0}
IsShort p (f ∷ fs) = length p < length f.payload + 5

-- A run of the loop that splits the frames still to come into those emitted and those left.
record Synced (buf more : List ℕ) (fs : List Frame) (r : List Frame × Stop) : Type 0 where
  emitted : List Frame
  left : List Frame
  cursor : ℕ
  split : fs ≡ emitted ++ left
  result : r ≡ (emitted, waits cursor)
  within : cursor ≤ length buf
  rest : drop cursor buf ++ more ≡ wire left
  short : IsShort (drop cursor buf) left

module _ (limit : ℕ) (small : limit < 2 ^ 32) (buf : List ℕ)
    (addressable : length buf < 2 ^ 63) where
  -- The loop, started where the bytes of `fs` begin.
  scan-Synced :
      (fs : List Frame) (fuel cursor : ℕ) (more : List ℕ)
      → All (IsLegal limit) fs
      → cursor ≤ length buf
      → length (drop cursor buf) < fuel
      → drop cursor buf ++ more ≡ wire fs
      → Synced buf more fs (scan fuel limit buf cursor)
  scan-Synced fs zero cursor more legal within enough e = absurd (omega arith)
  scan-Synced [] (suc fuel) cursor more legal within enough e = record {
    emitted = [];
    left = [];
    cursor = cursor;
    split = refl;
    result =
        scan_short fuel limit buf cursor within addressable
          (omega (arith, ap length e, length-append (drop cursor buf) more));
    within = within;
    rest = e;
    short = tt;
  }
  scan-Synced (f ∷ fs) (suc fuel) cursor more (legal_f, legal) within enough e =
      elim (Bool-cases (ltb (length (drop cursor buf)) (length f.payload + 5))) [
        | inl cut ↦ record {
          emitted = [];
          left = f ∷ fs;
          cursor = cursor;
          split = refl;
          result = held (ltb→lt _ _ cut);
          within = within;
          rest = e;
          short = ltb→lt _ _ cut;
        }
        | inr whole ↦ extend (ltb_false→le _ _ whole) (
            scan-Synced fs fuel next more legal (next_within (ltb_false→le _ _ whole))
              (fewer (ltb_false→le _ _ whole)) (next_rest (ltb_false→le _ _ whole)))
      ]
    where
      p : List ℕ
      p = drop cursor buf

      size : 4 ≤ length p → read_be32 p ≡ 1 + length f.payload
      size h =
          sym (read_be32-append p more h)
          ∙ ap read_be32 e
          ∙ read_be32-encode limit f small legal_f (wire fs)

      next : ℕ
      next = cursor + (4 + (1 + length f.payload))

      at_next : drop next buf ≡ drop (length (encode f)) p
      at_next = sym (
          drop-drop (length (encode f)) cursor buf
          ∙ ap (λ k. drop k buf) (omega (arith, length-encode f)))

      parts :
          length f.payload + 5 ≤ length p
          → (p ≡ encode f ++ drop (length (encode f)) p)
            × (drop (length (encode f)) p ++ more ≡ wire fs)
      parts h = append_split p more (encode f) (wire fs) e (omega (arith, length-encode f))

      next_within : length f.payload + 5 ≤ length p → next ≤ length buf
      next_within h = omega (arith, length-drop cursor buf)

      fewer : length f.payload + 5 ≤ length p → length (drop next buf) < fuel
      fewer h = omega (arith, length-drop cursor buf, length-drop next buf)

      next_rest : length f.payload + 5 ≤ length p → drop next buf ++ more ≡ wire fs
      next_rest h = rw at_next (parts h).1

      extend :
          length f.payload + 5 ≤ length p
          → Synced buf more fs (scan fuel limit buf next)
          → Synced buf more (f ∷ fs) (scan (suc fuel) limit buf cursor)
      extend h s = record {
        emitted = f ∷ s.emitted;
        left = s.left;
        cursor = s.cursor;
        split = ap (◌∷◌ f) s.split;
        result =
            scan_whole fuel limit buf cursor within addressable f _ small legal_f (parts h).0
            ∙ ap (λ (r : List Frame × Stop). (f ∷ r.0, r.1)) s.result;
        within = s.within;
        rest = s.rest;
        short = s.short;
      }

      held : length p < length f.payload + 5 → scan (suc fuel) limit buf cursor ≡ ([], waits cursor)
      held h = elim (Bool-cases (ltb (length p) 4)) [
        | inl few ↦ scan_short fuel limit buf cursor within addressable (ltb→lt _ _ few)
        | inr some_len ↦
            let s = size (ltb_false→le _ _ some_len) in
            scan_cut fuel limit buf cursor within addressable (ltb_false→le _ _ some_len)
              (omega (arith, s)) (omega (arith, s, legal_f.fits)) (omega (arith, s))
      ]

-- What holds between two calls of `push`: the cursor lies in the buffer and below the compaction
-- threshold, and the bytes held with those still to come are the frames still to come.
pub record InSync (more : List ℕ) (fs : List Frame) (d : FrameDecoder) : Type 0 where
  pub limit_small : d.max_frame_size < 2 ^ 32
  pub in_bounds : d.read_idx ≤ length d.buf
  pub compacted : d.read_idx < 8192
  pub in_order : pending d ++ more ≡ wire fs
  pub held_short : IsShort (pending d) fs
  pub legal : All (IsLegal d.max_frame_size) fs

-- One read of the stream: `push` accepts it, and the frames split into those emitted and those left.
pub record Fed (more : List ℕ) (fs : List Frame) (r : Pushed) : Type 0 where
  pub left : List Frame
  pub split : fs ≡ r.out ++ left
  pub accepted : r.count ≡ some (length r.out)
  pub in_sync : InSync more left r.decoder

pending_bound :
    (limit : ℕ) (p : List ℕ) (fs : List Frame) (more : List ℕ)
    → All (IsLegal limit) fs
    → IsShort p fs
    → p ++ more ≡ wire fs
    → length p ≤ limit
pending_bound limit p [] more l s e = omega (arith, ap length e, length-append p more)
pending_bound limit p (f ∷ fs) more l s e = omega (arith, l.0.fits)

All-split {ℓ} : {A : Type ℓ} (P : A → Type 0) (xs ys : List A) → All P (xs ++ ys) → All P ys
All-split P [] ys h = h
All-split P (x ∷ xs) ys h = All-split P xs ys h.1

settle_pending :
    (d : FrameDecoder) (buf : List ℕ) (cursor : ℕ)
    → cursor ≤ length buf
    → let e = settle d buf cursor in
      (pending e ≡ drop cursor buf)
      × (e.read_idx ≤ length e.buf)
      × (e.read_idx < 8192)
      × (e.max_frame_size ≡ d.max_frame_size)
settle_pending d buf cursor h = ground arith

module _ {d : FrameDecoder} {fs : List Frame} (bytes more : List ℕ)
    (v : InSync (bytes ++ more) fs d) (one_read : length bytes ≤ 4096) where
  held_bound : length (pending d) ≤ d.max_frame_size
  held_bound =
      pending_bound d.max_frame_size (pending d) fs (bytes ++ more) v.legal v.held_short v.in_order

  at_cursor : drop d.read_idx (d.buf ++ bytes) ≡ pending d ++ bytes
  at_cursor = drop-append_le d.read_idx d.buf bytes v.in_bounds

  buf_bound : length (d.buf ++ bytes) < 2 ^ 63
  buf_bound = omega (
    arith,
    length-append d.buf bytes,
    length-drop d.read_idx d.buf,
    held_bound,
    v.compacted,
    v.limit_small,
  )

  loop :
      Synced
        (d.buf ++ bytes)
        more
        fs
        (scan (suc (length (d.buf ++ bytes))) d.max_frame_size (d.buf ++ bytes) d.read_idx)
  loop =
      scan-Synced d.max_frame_size v.limit_small (d.buf ++ bytes) buf_bound fs _ d.read_idx more
        v.legal (omega (arith, v.in_bounds, length-append d.buf bytes))
        (omega (arith, length-drop d.read_idx (d.buf ++ bytes)))
        (rw (at_cursor, append_assoc) v.in_order)

  push_result : push d bytes ≡ finish d (d.buf ++ bytes) loop.emitted (waits loop.cursor)
  unfolding push
  push_result = ground (
    arith,
    loop.result,
    held_bound,
    length-drop d.read_idx d.buf,
    v.in_bounds,
    v.limit_small,
    v.compacted,
  )

  still-InSync : InSync more loop.left (settle d (d.buf ++ bytes) loop.cursor)
  still-InSync =
      let (kept, inside, low, same) = settle_pending d (d.buf ++ bytes) loop.cursor loop.within in
      record {
        limit_small = rw same v.limit_small;
        in_bounds = inside;
        compacted = low;
        in_order = rw kept loop.rest;
        held_short = rw kept loop.short;
        legal = rw same (
            All-split (IsLegal d.max_frame_size) loop.emitted loop.left (rw loop.split at v.legal));
      }

  -- A read of at most 4096 bytes of a stream of legal frames is accepted. The frames that it
  -- completes are emitted, the rest stays to come, and the decoder stays in step with the stream.
  pub push-Fed : Fed more fs (push d bytes)
  push-Fed =
      rw push_result
        (record { left = loop.left; split = loop.split; accepted = refl; in_sync = still-InSync })

-- The reads of one connection in order, as `Broker::on_readable` makes them: `none` where `push`
-- returns -1 and the broker hangs up.
unfoldable pub feed : FrameDecoder → List (List ℕ) → Option (FrameDecoder × List Frame)
feed d [] = some (d, [])
feed d (bytes ∷ reads) =
    let r = push d bytes in
    let rest = feed r.decoder reads in
    elim r.count [
      | none ↦ none
      | some n ↦ elim rest [ none ↦ none | some (e, out) ↦ some (e, r.out ++ out) ]
    ]

abbrev pub concat : List (List ℕ) → List ℕ
concat [] = []
concat (bytes ∷ reads) = bytes ++ concat reads

feed-cons :
    (d e : FrameDecoder) (bytes : List ℕ) (reads : List (List ℕ)) (n : ℕ) (out : List Frame)
    → (push d bytes).count ≡ some n
    → feed (push d bytes).decoder reads ≡ some (e, out)
    → feed d (bytes ∷ reads) ≡ some (e, (push d bytes).out ++ out)
unfolding feed
feed-cons d e bytes reads n out h k = ground arith

-- Nothing is left to come once all bytes were read.
InSync-drained :
    (fs : List Frame) {d : FrameDecoder} → InSync [] fs d → (fs ≡ []) × (pending d ≡ [])
InSync-drained [] v = (refl, sym (append-nil _) ∙ v.in_order)
InSync-drained (f ∷ fs) {d} v = absurd (
    omega (
      arith,
      v.held_short,
      ap length v.in_order,
      length-append (pending d) [],
      length-append (encode f) (wire fs),
      length-encode f,
    ))

feed-InSync :
    (reads : List (List ℕ)) (fs : List Frame) (d : FrameDecoder)
    → InSync (concat reads) fs d
    → All (λ r. length r ≤ 4096) reads
    → (e : FrameDecoder) × (feed d reads ≡ some (e, fs)) × (pending e ≡ [])
feed-InSync [] fs d v small =
    let (none_left, empty) = InSync-drained fs v in (d, unfold feed in rw none_left, empty)
feed-InSync (bytes ∷ reads) fs d v (one, small) =
    let r = push-Fed bytes (concat reads) v one in
    let (e, fed, empty) = feed-InSync reads r.left (push d bytes).decoder r.in_sync small in
    (
      e,
      feed-cons d e bytes reads _ _ r.accepted fed
          ∙ ap (λ (o : List Frame). some (e, o)) (sym r.split),
      empty,
    )

abbrev pub fresh : ℕ → FrameDecoder
fresh limit = record { buf = []; max_frame_size = limit; read_idx = 0 }

fresh-InSync :
    (limit : ℕ) (fs : List Frame)
    → limit < 2 ^ 32
    → All (IsLegal limit) fs
    → InSync (wire fs) fs (fresh limit)
fresh-InSync limit fs small legal = record {
  limit_small = small;
  in_bounds = omega arith;
  compacted = omega arith;
  in_order = refl;
  held_short = start fs;
  legal = legal;
}
  where
    start : (gs : List Frame) → IsShort [] gs
    start [] = tt
    start (g ∷ gs) = omega arith

-- Frames whose payload is at least four bytes below the limit, encoded one after the other and cut
-- in any way into reads of at most 4096 bytes, are decoded to exactly those frames, and no read is
-- refused. The decoder holds nothing afterwards.
pub feed-wire :
    (limit : ℕ) (fs : List Frame) (reads : List (List ℕ))
    → limit < 2 ^ 32
    → All (IsLegal limit) fs
    → All (λ r. length r ≤ 4096) reads
    → concat reads ≡ wire fs
    → (e : FrameDecoder) × (feed (fresh limit) reads ≡ some (e, fs)) × (pending e ≡ [])
feed-wire limit fs reads small legal sizes e =
    feed-InSync reads fs (fresh limit) (rw e (fresh-InSync limit fs small legal)) sizes
