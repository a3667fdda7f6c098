-- ===== src/Replication/Stream.antt =====
-- The frame loops of `on_readable` in replication/replication_server.cpp and in
-- replication/replication_client.cpp: lengths are uint32_t, and so is the sum that
-- is compared with the size of the buffer. The handler is an argument.
use fell.Base.{
  ℕ, zero, suc, ◌+◌, ◌-◌, ◌%◌, ◌^◌, ◌<◌, ◌≡◌, refl, sym, ap, ◌∙◌, ◌⊎◌, inl, inr, true, false, List,
  [], ◌∷◌, ◌++◌, length, drop, All, length-append, length-drop, append_assoc, Bool-cases, ◌≤◌,
  drop-append_self, drop-drop, ltb, leb, if◌then◌else◌, arith,
}
use fell.Wire.{byte_at, read_be32, write_be32, read_be32-write_be32, length-write_be32}
use fell.Replication.Protocol.{repl_frame}

-- What `handle_frame` is called with: the opcode, the size that it is told, and the bytes of the
-- buffer from its pointer on, which it may read.
pub record Call : Type 0 where
  pub opcode : ℕ
  pub size : ℕ
  pub bytes : List ℕ

-- What a call of the handler leaves: the state of everything but the buffer, and whether the buffer is as
-- it was. `stopped` is a handler that throws, never returns or reads past the buffer.
pub data Handled {ℓ} (S : Type ℓ) : Type ℓ where
  kept dropped : S → Handled S
  stopped : Handled S

-- How the loop ends: with the bytes that it leaves in the buffer; with an erase past the end of the buffer, which
-- is undefined, where the handler has cleared or removed the buffer or `4 + len` is more than it holds; in the
-- handler; or the rounds given do not suffice.
pub data Looped {ℓ} (S : Type ℓ) : Type ℓ where
  drained : S → List ℕ → Looped S
  overran : S → Looped S
  halted more_rounds : Looped S

-- The call for the frame at the front of a buffer: `len - 1` is a uint32_t.
abbrev pub call_at : List ℕ → Call
call_at buf = record {
  opcode = byte_at buf 4;
  size = (read_be32 buf + 2 ^ 32 - 1) % 2 ^ 32;
  bytes = drop 5 buf;
}

-- The loop over the buffer with `fuel` rounds. The sum that is compared with the size is a uint32_t; that of the
-- erase is a sum of iterators, which does not wrap.
unfoldable pub frame_loop {ℓ} : {S : Type ℓ} → (Call → S → Handled S) → ℕ → List ℕ → S → Looped S
unfolding read_be32
frame_loop handle zero buf s = more_rounds
frame_loop handle (suc fuel) buf s =
    let len = read_be32 buf in
    if ltb (length buf) 5
    then drained s buf
    else if leb ((4 + len) % 2 ^ 32) (length buf)
    then elim (handle (call_at buf) s) [
      | kept after ↦
          let next = frame_loop handle fuel (drop (4 + len) buf) after in
          if leb (4 + len) (length buf) then next else overran after
      | dropped after ↦ overran after
      | stopped ↦ halted
    ]
    else drained s buf

-- The bytes of these frames, one after the other.
abbrev pub sent_frames : List (ℕ × List ℕ) → List ℕ
sent_frames [] = []
sent_frames ((opcode, body) ∷ fs) = repl_frame opcode body ++ sent_frames fs

-- The calls for these frames, with `t` behind them in the buffer.
abbrev pub calls_of : List (ℕ × List ℕ) → List ℕ → List Call
calls_of [] t = []
calls_of ((opcode, body) ∷ fs) t =
    record { opcode = opcode; size = length body; bytes = body ++ (sent_frames fs ++ t) }
    ∷ calls_of fs t

-- Bytes in which no frame is whole.
abbrev pub IsPartial : List ℕ → Type 0
IsPartial t = (length t < 5) ⊎ (length t < (4 + read_be32 t) % 2 ^ 32)

-- The calls one after the other, as long as the buffer is as it was.
abbrev pub handle_calls {ℓ} : {S : Type ℓ} → (Call → S → Handled S) → List Call → S → Handled S
handle_calls handle [] s = kept s
handle_calls handle (call ∷ calls) s = elim (handle call s) [
  | kept after ↦ handle_calls handle calls after
  | dropped after ↦ dropped after
  | stopped ↦ stopped
]

-- The end of the loop after these calls, with bytes behind the last frame.
abbrev pub loop_end {ℓ} : {S : Type ℓ} → List ℕ → Handled S → Looped S
loop_end t (kept s) = drained s t
loop_end t (dropped s) = overran s
loop_end t stopped = halted

pub Handled-cases {ℓ} :
    {S : Type ℓ}
    → (h : Handled S) → ((s : S) × (h ≡ kept s)) ⊎ ((s : S) × (h ≡ dropped s)) ⊎ (h ≡ stopped)
Handled-cases (kept s) = inl (s, refl)
Handled-cases (dropped s) = inr (inl (s, refl))
Handled-cases stopped = inr (inr refl)

loop_partial {ℓ} :
    {S : Type ℓ}
    → (handle : Call → S → Handled S) (fuel : ℕ) (t : List ℕ) (s : S) → IsPartial t
    → frame_loop handle (suc fuel) t s ≡ drained s t
unfolding frame_loop
loop_partial handle fuel t s (inl few) =
    let short : ltb (length t) 5 ≡ true = ground (arith, few) in rw (frame_loop, short) refl
loop_partial handle fuel t s (inr cut) = elim (Bool-cases (ltb (length t) 5)) [
  | inl short ↦ rw (frame_loop, short) refl
  | inr five ↦
      let waits : leb ((4 + read_be32 t) % 2 ^ 32) (length t) ≡ false = ground (arith, cut) in
      rw (frame_loop, five, waits) refl
]

module _ (opcode : ℕ) (body rest : List ℕ) (small : length body + 5 < 2 ^ 32) where
  framed : List ℕ
  framed = repl_frame opcode body ++ rest

  framed_whole : framed ≡ write_be32 ((length body + 1) % 2 ^ 32) ++ (opcode ∷ body ++ rest)
  unfolding framed repl_frame
  framed_whole = append_assoc (write_be32 ((length body + 1) % 2 ^ 32)) (opcode ∷ body) rest

  framed-length : read_be32 framed ≡ length body + 1
  framed-length =
      ap read_be32 framed_whole
      ∙ read_be32-write_be32 ((length body + 1) % 2 ^ 32) (opcode ∷ body ++ rest) (omega arith)
      ∙ omega (arith, small)

  framed_size : length framed ≡ 5 + (length body + length rest)
  framed_size =
      ap length framed_whole
      ∙ omega (
        arith,
        length-append (write_be32 ((length body + 1) % 2 ^ 32)) (opcode ∷ body ++ rest),
        length-write_be32 ((length body + 1) % 2 ^ 32),
        length-append body rest,
      )

  framed_opcode : byte_at framed 4 ≡ opcode
  unfolding framed repl_frame write_be32
  framed_opcode = refl

  framed_body : drop 5 framed ≡ body ++ rest
  unfolding framed repl_frame write_be32
  framed_body = refl

  framed_next : drop (4 + read_be32 framed) framed ≡ rest
  framed_next =
      ap (λ n. drop n framed) {x = 4 + read_be32 framed} {y = 5 + length body}
        (omega (arith, framed-length, small))
      ∙ sym (drop-drop (length body) 5 framed)
      ∙ ap (drop (length body)) framed_body
      ∙ drop-append_self (length body) body rest refl

  abbrev framed_call : Call
  framed_call = record { opcode = opcode; size = length body; bytes = body ++ rest }

  call_at-framed : call_at framed ≡ framed_call
  call_at-framed =
      let size : (read_be32 framed + 2 ^ 32 - 1) % 2 ^ 32 ≡ length body =
        omega (arith, framed-length, small) in
      rw (framed_opcode, framed_body, size) refl

  loop_framed {ℓ} :
      {S : Type ℓ}
      → (handle : Call → S → Handled S) (fuel : ℕ) (s : S) (calls : List Call) (t : List ℕ)
      → ((after : S)
          → frame_loop handle fuel rest after ≡ loop_end t (handle_calls handle calls after))
      → frame_loop handle (suc fuel) framed s
        ≡ loop_end t (handle_calls handle (framed_call ∷ calls) s)
  unfolding frame_loop
  loop_framed handle fuel s calls t later =
      let enough : ltb (length framed) 5 ≡ false = ground (arith, framed_size) in
      let compared : leb ((4 + read_be32 framed) % 2 ^ 32) (length framed) ≡ true =
        ground (arith, framed_size, framed-length, small) in
      let fits : leb (4 + read_be32 framed) (length framed) ≡ true =
        ground (arith, framed_size, framed-length, small) in
      elim (Handled-cases (handle framed_call s)) [
        | inl (after, goes_on) ↦
            rw
              (
                frame_loop, handle_calls, enough, compared, call_at-framed, goes_on, fits,
                framed_next,
              )
              (later after)
        | inr (inl (after, drops)) ↦
            rw (frame_loop, handle_calls, enough, compared, call_at-framed, drops) refl
        | inr (inr stops) ↦
            rw (frame_loop, handle_calls, enough, compared, call_at-framed, stops) refl
      ]

-- However many frames are in the buffer and whatever the handler does, the loop calls the handler for each
-- of them, in order, with its opcode, its size and a pointer to its body, and leaves the bytes of the frame
-- that is not yet whole, as long as the handler leaves the buffer alone. The first call that clears or
-- removes the buffer ends the loop with an erase past its end, and one that does not return ends it there.
-- Each body has less than 2^32 - 5 bytes, and a round for each frame and one more suffice.
pub frame_loop-sent_frames {ℓ} :
    {S : Type ℓ}
    → (handle : Call → S → Handled S) (fs : List (ℕ × List ℕ)) (t : List ℕ) (fuel : ℕ) (s : S)
    → All (λ f. length f.1 + 5 < 2 ^ 32) fs
    → IsPartial t
    → length fs < fuel
    → frame_loop handle fuel (sent_frames fs ++ t) s
      ≡ loop_end t (handle_calls handle (calls_of fs t) s)
unfolding framed
frame_loop-sent_frames handle fs t zero s small torn enough = absurd (omega (arith, enough))
frame_loop-sent_frames handle [] t (suc fuel) s small torn enough =
    loop_partial handle fuel t s torn
frame_loop-sent_frames handle ((opcode, body) ∷ fs) t (suc fuel) s (fits, small) torn enough =
    ap (λ b. frame_loop handle (suc fuel) b s)
      (append_assoc (repl_frame opcode body) (sent_frames fs) t)
    ∙ loop_framed opcode body (sent_frames fs ++ t) fits handle fuel s (calls_of fs t) t
        (λ after. frame_loop-sent_frames handle fs t fuel after small torn (omega (arith, enough)))

-- In a buffer of less than 2^32 - 4 bytes a frame whose length is one of the four largest is taken as whole as
-- soon as five bytes are there, since the
-- sum that is compared wraps around. The handler is told a size that is more than the buffer holds, and if
-- it returns, the loop erases past the end of the buffer.
pub frame_loop_overruns {ℓ} :
    {S : Type ℓ}
    → (handle : Call → S → Handled S) (fuel : ℕ) (buf : List ℕ) (s after : S)
    → 2 ^ 32 ≤ 4 + read_be32 buf
    → read_be32 buf < 2 ^ 32
    → 5 ≤ length buf
    → length buf < 2 ^ 32 - 4
    → (handle (call_at buf) s ≡ kept after) ⊎ (handle (call_at buf) s ≡ dropped after)
    → (length (call_at buf).bytes < (call_at buf).size)
      × (frame_loop handle (suc fuel) buf s ≡ overran after)
unfolding frame_loop
frame_loop_overruns handle fuel buf s after huge u32 five small returns =
    let enough : ltb (length buf) 5 ≡ false = ground (arith, five) in
    let compared : leb ((4 + read_be32 buf) % 2 ^ 32) (length buf) ≡ true =
      ground (arith, five, huge, u32) in
    let past : leb (4 + read_be32 buf) (length buf) ≡ false = ground (arith, huge, small) in
    (
      omega (arith, huge, u32, small, five, length-drop 5 buf),
      elim returns [
        | inl keeps ↦ rw (frame_loop, enough, compared, keeps, past) refl
        | inr drops ↦ rw (frame_loop, enough, compared, drops) refl
      ],
    )
