-- ===== src/Frame/Sound.antt =====
-- The decoder on any bytes at all: it never runs out of rounds, and what it emits is what it read.
use fell.Base.{ℕ, ◌^◌, ◌≤◌, ◌<◌, ◌≡◌, List, ◌++◌, length, All, drop}
use fell.Wire.{IsByte, read_be32}
use fell.Frame.{Frame, FrameDecoder, Stop, waits, cleared, oversized, stuck, push, finish}
use fell.Frame.Stream.{wire, pending}

-- The bytes from the cursor on are accounted for: those of the emitted frames, then what is kept, or a length
-- over the limit with what stands behind it.
abbrev pub Accounts : ℕ → List ℕ → List ℕ → List Frame → Stop → Type 0
Accounts limit buf start out (waits c) = (c ≤ length buf) × (wire out ++ drop c buf ≡ start)
Accounts limit buf start out (cleared c) = (c ≤ length buf) × (wire out ++ drop c buf ≡ start)
Accounts limit buf start out oversized =
    (c : ℕ) × (c ≤ length buf)
    × (wire out ++ drop c buf ≡ start)
    × (4 ≤ length (drop c buf))
    × (limit < read_be32 (drop c buf))
Accounts limit buf start out stuck = ⊥

module _ (limit : ℕ) (buf : List ℕ) (bytes : All IsByte buf)
    (addressable : length buf < 2 ^ 63) where
  abbrev Good : ℕ → List Frame × Stop → Type 0
  Good cursor r = Accounts limit buf (drop cursor buf) r.0 r.1

-- A run of the loop to its end, and what `push` made of it.
pub record Consumed (d : FrameDecoder) (bytes : List ℕ) : Type 0 where
  pub out : List Frame
  pub stop : Stop
  pub accounts : Accounts d.max_frame_size (d.buf ++ bytes) (pending d ++ bytes) out stop
  pub result : push d bytes ≡ finish d (d.buf ++ bytes) out stop
