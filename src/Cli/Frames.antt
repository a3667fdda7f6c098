-- ===== src/Cli/Frames.antt =====
-- Frames of the command line tools: `read_exact`, `write_frame` and `read_frame` of cli/producer_cli.cpp. What
-- the broker will send until it closes the connection is a list of bytes.
use fell.Base.{
  ℕ, ◌+◌, ◌-◌, ◌%◌, ◌^◌, ◌<◌, ◌≡◌, refl, sym, ap, ◌∙◌, List, [], ◌∷◌, ◌++◌, Option, none, some,
  length, take, drop, ltb, false, length-append, if◌then◌else◌, arith, take-append_self,
  drop-append_self,
}
use fell.Wire.{byte_at, read_be32, write_be32, read_be32-write_be32, length-write_be32}
use fell.Frame.{Frame, encode_frame}

-- `read_exact`
abbrev pub read_exact : ℕ → List ℕ → Option (List ℕ × List ℕ)
read_exact n incoming =
    if ltb (length incoming) n then none else some (take n incoming, drop n incoming)

-- `write_frame`
unfoldable pub write_frame : ℕ → List ℕ → List ℕ
unfolding write_be32
write_frame op payload = write_be32 ((1 + length payload % 2 ^ 32) % 2 ^ 32) ++ (op ∷ payload)

-- `read_frame`
unfoldable pub read_frame : List ℕ → Option (Frame × List ℕ)
unfolding read_be32
read_frame incoming = elim (read_exact 4 incoming) [
  | none ↦ none
  | some (len_be, behind) ↦
      let len = read_be32 len_be in
      if ltb len 1 then none else elim (read_exact 1 behind) [
        | none ↦ none
        | some (op_byte, body) ↦ elim (read_exact (len - 1) body) [
          | none ↦ none
          | some (payload, left) ↦ some (record { op = byte_at op_byte 0; payload = payload }, left)
        ]
      ]
]

read_exact-append :
    (n : ℕ) (xs ys : List ℕ) → n ≡ length xs → read_exact n (xs ++ ys) ≡ some (xs, ys)
read_exact-append n xs ys e =
    let whole : ltb (length (xs ++ ys)) n ≡ false = ground (arith, length-append xs ys, e) in
    rw (whole, take-append_self n xs ys e, drop-append_self n xs ys e) refl

-- The tools and the broker write the same frames.
write_frame-encode_frame :
    (op : ℕ) (payload : List ℕ) → op < 256 → write_frame op payload ≡ encode_frame op payload
unfolding write_frame encode_frame
write_frame-encode_frame op payload h =
    let len : (1 + length payload % 2 ^ 32) % 2 ^ 32 ≡ (1 + length payload) % 2 ^ 32 =
      omega arith in
    let byte : op % 256 ≡ op = omega (arith, h) in rw (len, byte) refl

-- What the broker encodes as a frame is read as that frame, whatever follows it: nothing of what follows is
-- taken.
pub read_frame-encode_frame :
    (op : ℕ) (payload rest : List ℕ)
    → op < 256
    → 1 + length payload < 2 ^ 32
    → read_frame (encode_frame op payload ++ rest)
      ≡ some (record { op = op; payload = payload }, rest)
unfolding read_frame encode_frame write_be32
read_frame-encode_frame op payload rest h k =
    let len : (1 + length payload) % 2 ^ 32 ≡ 1 + length payload = omega (arith, k) in
    let byte : op % 256 ≡ op = omega (arith, h) in
    let n = 1 + length payload in
    let wire : encode_frame op payload ++ rest ≡ write_be32 n ++ (op ∷ (payload ++ rest)) =
      rw (len, byte) refl in
    let first : read_exact 4 (write_be32 n ++ (op ∷ (payload ++ rest)))
        ≡ some (write_be32 n, op ∷ (payload ++ rest)) =
      read_exact-append 4 (write_be32 n) (op ∷ (payload ++ rest)) (sym (length-write_be32 n)) in
    let back : read_be32 (write_be32 n) ≡ n = read_be32-write_be32 n [] k in
    let some_byte : ltb n 1 ≡ false = ground arith in
    let second : read_exact 1 (op ∷ (payload ++ rest)) ≡ some (op ∷ [], payload ++ rest) =
      read_exact-append 1 (op ∷ []) (payload ++ rest) refl in
    let third : read_exact (n - 1) (payload ++ rest) ≡ some (payload, rest) =
      read_exact-append (n - 1) payload rest (omega arith) in
    ap read_frame wire ∙ rw (read_frame, first, back, some_byte, second, back, third) refl
