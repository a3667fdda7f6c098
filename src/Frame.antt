-- ===== src/Frame.antt =====
-- broker/frame_decoder.cpp and broker/include/broker/frame_decoder.hpp (`FrameDecoder`), and
-- `RequestHandler::encode_frame` of broker/request_handler.cpp, which writes what the decoder reads.
-- A vector of bytes is a list, a size_t is a number below 2 ^ 64 whose subtraction wraps, and an
-- opcode is its byte, since `static_cast<Op>` keeps every byte. Erasing more than the buffer holds
-- is undefined in C++; the model's buffer is empty after it.
pub mod Scan
pub mod Stream
pub mod Sound
pub mod Payload
pub mod Desync
mod Tests
use fell.Base.{
  ℕ, zero, suc, ◌+◌, ◌-◌, ◌%◌, ◌^◌, ◌≤◌, ◌<◌, Bool, List, [], ◌∷◌, ◌++◌, Option, none, some, length,
  take, drop, ltb, leb, if◌then◌else◌,
}
use fell.Wire.{byte_at, read_be32, write_be32}

pub record Frame : Type 0 where
  pub op : ℕ
  pub payload : List ℕ

pub record FrameDecoder : Type 0 where
  pub buf : List ℕ
  pub max_frame_size : ℕ
  pub read_idx : ℕ

-- `a - b` on size_t
abbrev pub sub_size : ℕ → ℕ → ℕ
sub_size a b = (a + 2 ^ 64 - b) % 2 ^ 64

-- `a + b` on size_t
abbrev pub add_size : ℕ → ℕ → ℕ
add_size a b = (a + b) % 2 ^ 64

-- How the loop of `push` ends: it waits for bytes at a cursor, it met a frame of length zero at a
-- cursor, or it met a frame over the limit. `stuck` is no end of the program: fuel ran out.
pub data Stop : Type 0 where
  waits : ℕ → Stop
  cleared : ℕ → Stop
  oversized : Stop
  stuck : Stop

-- The `while (true)` loop of `push`, from `cursor` on, with the frames that it emits.
unfoldable pub scan : ℕ → ℕ → List ℕ → ℕ → List Frame × Stop
scan zero limit buf cursor = ([], stuck)
scan (suc fuel) limit buf cursor =
    let frame_len = read_be32 (drop cursor buf) in
    let f : Frame = record {
      op = byte_at (drop cursor buf) 4;
      payload = take (frame_len - 1) (drop 5 (drop cursor buf));
    } in
    let rest = scan fuel limit buf (cursor + (4 + frame_len)) in
    if ltb (sub_size (length buf) cursor) 4
    then ([], waits cursor)
    else if ltb frame_len 1
    then ([], cleared cursor)
    else if ltb limit frame_len
    then ([], oversized)
    else if ltb (sub_size (length buf) cursor) (4 + frame_len)
    then ([], waits cursor)
    else (f ∷ rest.0, rest.1)

-- What one call of `push` leaves behind: the decoder, the frames added to `out`, and the count that
-- it returns, `none` for -1.
pub record Pushed : Type 0 where
  pub decoder : FrameDecoder
  pub out : List Frame
  pub count : Option ℕ

-- The lines after the loop: `read_idx_ = cursor`, and compaction past 8192.
abbrev pub settle : FrameDecoder → List ℕ → ℕ → FrameDecoder
settle d buf cursor =
    if leb 8192 cursor
    then record d { buf = drop cursor buf; read_idx = 0 }
    else record d { buf = buf; read_idx = cursor }

-- How `push` goes on after its loop. After a zero length the buffer is empty, and `read_idx_` is
-- first set to 0 and then, below the loop, to the cursor.
abbrev pub finish : FrameDecoder → List ℕ → List Frame → Stop → Pushed
finish d buf out (waits cursor) = record {
  decoder = settle d buf cursor;
  out = out;
  count = some (length out);
}
finish d buf out (cleared cursor) = record {
  decoder = settle d [] cursor;
  out = out;
  count = some (length out);
}
finish d buf out oversized = record { decoder = record d { buf = buf }; out = out; count = none }
finish d buf out stuck = record { decoder = record d { buf = buf }; out = out; count = none }

unfoldable pub push : FrameDecoder → List ℕ → Pushed
push d bytes =
    let buf = d.buf ++ bytes in
    let loop = scan (suc (length buf)) d.max_frame_size buf d.read_idx in
    if ltb (d.max_frame_size + 4096) (add_size (sub_size (length d.buf) d.read_idx) (length bytes))
    then record { decoder = d; out = []; count = none }
    else finish d buf loop.0 loop.1

unfoldable pub reset : FrameDecoder → FrameDecoder
reset d = record d { buf = []; read_idx = 0 }

-- `encode_frame`: the length counts the opcode.
unfoldable pub encode_frame : ℕ → List ℕ → List ℕ
encode_frame op payload = write_be32 ((1 + length payload) % 2 ^ 32) ++ (op % 256 ∷ payload)
