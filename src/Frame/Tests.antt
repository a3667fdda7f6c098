-- ===== src/Frame/Tests.antt =====
-- Concrete runs of the decoder, and the theorems at concrete inputs.
use fell.Base.{
  true, false, inr, ◌+◌, ◌≢◌, ℕ, ◌<◌, ◌≡◌, refl, ◌⊎◌, List, [], ◌∷◌, ◌++◌, none, some, length,
  replicate, length-replicate, arith,
}
use fell.Wire.{read_be32, write_be32}
use fell.Frame.{Frame, FrameDecoder, scan, push, encode_frame}
use fell.Frame.Scan.{encode}
use fell.Frame.Stream.{concat, feed, feed-wire, fresh, pending}
use fell.Frame.Payload.{
  Heap, SmallPayload, Holds, heap_data, inline_data, free_heap, assign, move_assign, move_construct,
  owned, move_assign-Holds,
}
use fell.Frame.Desync.{zero_length, zero_length_refuses, full_read_refuses}

abbrev publish : Frame
publish = record { op = 2; payload = 7 ∷ 8 ∷ 9 ∷ [] }

abbrev fetch : Frame
fetch = record { op = 4; payload = [] }

publish_bytes : encode publish ≡ 0 ∷ 0 ∷ 0 ∷ 4 ∷ 2 ∷ 7 ∷ 8 ∷ 9 ∷ []
unfolding encode_frame write_be32
publish_bytes = refl

-- Two frames in three reads, cut inside the length and inside the payload.
abbrev reads : List (List ℕ)
reads = (0 ∷ 0 ∷ []) ∷ (0 ∷ 4 ∷ 2 ∷ 7 ∷ []) ∷ (8 ∷ 9 ∷ 0 ∷ 0 ∷ 0 ∷ 1 ∷ 4 ∷ []) ∷ []

reads_run :
    feed (fresh 64) reads
    ≡ some (record { buf = concat reads; max_frame_size = 64; read_idx = 13 }, publish ∷ fetch ∷ [])
unfolding feed push scan read_be32
reads_run = refl

feed-wire_example :
    (e : FrameDecoder) × (feed (fresh 64) reads ≡ some (e, publish ∷ fetch ∷ [])) × (pending e ≡ [])
unfolding encode_frame write_be32
feed-wire_example =
    feed-wire 64 (publish ∷ fetch ∷ []) reads (omega arith) (omega arith) (omega arith) refl

abbrev garbage : List ℕ
garbage = 0 ∷ 0 ∷ 0 ∷ 2 ∷ 255 ∷ 1 ∷ 0 ∷ 0 ∷ 9 ∷ []

zero_length_refuses_example :
    let r = push (fresh 64) (encode publish ++ (zero_length ++ [])) in
    (r.count ≡ some 1)
    × (length r.decoder.buf < r.decoder.read_idx)
    × ((push r.decoder (encode fetch)).count ≡ none)
unfolding encode_frame write_be32
zero_length_refuses_example =
    zero_length_refuses 64 publish [] (omega arith) (omega arith) (omega arith) (encode fetch)
      (omega arith) (omega arith) (omega arith)

-- A limit of one byte: the decoder holds the length of a frame without payload.
full_read_refuses_example :
    (push
      (record { buf = 0 ∷ 0 ∷ 0 ∷ 1 ∷ []; max_frame_size = 1; read_idx = 0 })
      (replicate 4096 4)).count
    ≡ none
unfolding encode_frame write_be32
full_read_refuses_example =
    full_read_refuses (record { buf = 0 ∷ 0 ∷ 0 ∷ 1 ∷ []; max_frame_size = 1; read_idx = 0 }) fetch
      (replicate 4096 4) (omega arith) (omega arith) (omega arith) (omega arith) refl
      (length-replicate {A = ℕ} 4096 4)

abbrev heap : Heap
heap = record { next = 5; blocks = (4, 1 ∷ 2 ∷ 3 ∷ []) ∷ (2, 6 ∷ 7 ∷ 8 ∷ []) ∷ [] }

abbrev first : SmallPayload
first = record { size = 3; is_small = false; storage = heap_data (some 4) }

abbrev second : SmallPayload
second = record { size = 3; is_small = false; storage = heap_data (some 2) }

first-Holds : Holds heap first (1 ∷ 2 ∷ 3 ∷ [])
first-Holds = record { counted = refl; kept = inr (refl, (4, (refl, refl))) }

second-Holds : Holds heap second (6 ∷ 7 ∷ 8 ∷ [])
second-Holds = record { counted = refl; kept = inr (refl, (2, (refl, refl))) }

-- A long payload that is assigned few bytes gives its block back.
assign_run :
    assign 2 (9 ∷ []) heap first
    ≡ some (
      record { next = 5; blocks = (2, 6 ∷ 7 ∷ 8 ∷ []) ∷ [] },
      record { size = 1; is_small = true; storage = inline_data (9 ∷ []) },
    )
unfolding assign free_heap
assign_run = refl

-- The new payload has the block, and the old one nothing.
move_construct_run :
    move_construct first
    ≡ some (first, record { size = 0; is_small = true; storage = heap_data none })
move_construct_run = refl

apart : (a : ℕ) → heap_data (some 2) ≡ heap_data (some a) → heap_data (some 4) ≢ heap_data (some a)
apart a e d = ground (arith, e, d)

move_assign-Holds_example :
    (g : Heap) × (q o : SmallPayload) × (rest : List ℕ) × (move_assign heap first second
      ≡ some (g, (q, o)))
    × Holds g q (6 ∷ 7 ∷ 8 ∷ [])
    × Holds g o rest
    × ((rest ≡ 6 ∷ 7 ∷ 8 ∷ []) ⊎ (rest ≡ []))
    × (length g.blocks + 2 ≡ 2 + (owned q + owned o))
move_assign-Holds_example =
    move_assign-Holds heap first (1 ∷ 2 ∷ 3 ∷ []) first-Holds second (6 ∷ 7 ∷ 8 ∷ []) second-Holds
      apart
