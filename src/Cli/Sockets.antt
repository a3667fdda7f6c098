-- ===== src/Cli/Sockets.antt =====
-- `read_exact` and `write_exact` of cli/consumer_cli.cpp and cli/producer_cli.cpp, call by call. What a call
-- of `recv_data` or `send_data` gives is an argument that knows the number of the call.
use fell.Base.{
  subst, ℕ, zero, suc, ◌+◌, ◌-◌, ◌≤◌, ◌<◌, ◌≡◌, refl, sym, ap, ap₂, ◌∙◌, inl, inr, true, false,
  Bool-cases, List, [], ◌∷◌, ◌++◌, Option, none, some, length, take, drop, ltb, ◌==◌, drop-drop,
  take_all, append_assoc, append-nil, take-append-drop, length-drop, if◌then◌else◌, arith,
  Option-cases,
}
use fell.Cli.Frames.{read_exact}

-- The bytes read with those that are left, the end of the stream or an error, or more calls than are looked
-- at.
pub data Reading : Type 0 where
  whole : List ℕ → List ℕ → Reading
  broken more_calls : Reading

-- The loop of `read_exact`, for `left` more bytes behind those in the buffer. `recv call left available` is
-- what the call returns, where a negative number is 0.
unfoldable pub receive_loop : (ℕ → ℕ → ℕ → ℕ) → ℕ → ℕ → List ℕ → ℕ → List ℕ → Reading
receive_loop recv zero call buf left incoming = if left == 0 then whole buf incoming else more_calls
receive_loop recv (suc calls) call buf left incoming =
    let n = recv call left (length incoming) in
    let rest =
      receive_loop recv calls (suc call) (buf ++ take n incoming) (left - n) (drop n incoming) in
    if left == 0 then whole buf incoming else if n == 0 then broken else rest

-- Whether all bytes were sent, with the bytes that were.
pub data Writing : Type 0 where
  written cut_off unfinished : List ℕ → Writing

-- The loop of `write_exact`. `send call offered` is the count of bytes taken, or `none` where it is negative.
unfoldable pub send_loop : (ℕ → ℕ → Option ℕ) → ℕ → ℕ → List ℕ → List ℕ → Writing
send_loop send zero call sent bytes = if length bytes == 0 then written sent else unfinished sent
send_loop send (suc calls) call sent bytes =
    let later : ℕ → Writing =
      λ n. send_loop send calls (suc call) (sent ++ take n bytes) (drop n bytes) in
    if length bytes == 0
    then written sent
    else elim (send call (length bytes)) [ none ↦ cut_off sent | some n ↦ later n ]

-- `recv` gives what is there, up to what is asked for, and nothing exactly at the end of the stream.
pub record Receives (recv : ℕ → ℕ → ℕ → ℕ) : Type 0 where
  pub some_byte : (call k available : ℕ) → 0 < k → 0 < available → 0 < recv call k available
  pub at_most : (call k available : ℕ) → recv call k available ≤ k
  pub there : (call k available : ℕ) → recv call k available ≤ available

-- What is read behind bytes that were read before.
abbrev pub behind : List ℕ → Option (List ℕ × List ℕ) → Reading
behind buf none = broken
behind buf (some (bytes, left)) = whole (buf ++ bytes) left

take-take-drop : (n m : ℕ) (xs : List ℕ) → take n xs ++ take m (drop n xs) ≡ take (n + m) xs
take-take-drop zero m xs = ap (λ k. take k xs) (omega arith)
take-take-drop (suc n) m [] =
    take_all m [] (omega arith) ∙ sym (take_all (suc n + m) [] (omega arith))
take-take-drop (suc n) m (x ∷ xs) =
    ap (◌∷◌ x) (take-take-drop n m xs)
    ∙ ap (λ k. take k (x ∷ xs)) {x = suc (n + m)} {y = suc n + m} (omega arith)

-- Reading some bytes and then the rest is reading all of them.
behind-read_exact :
    (buf : List ℕ) (n left : ℕ) (incoming : List ℕ)
    → n ≤ left
    → n ≤ length incoming
    → behind (buf ++ take n incoming) (read_exact (left - n) (drop n incoming))
      ≡ behind buf (read_exact left incoming)
behind-read_exact buf n left incoming h k = elim (Bool-cases (ltb (length incoming) left)) [
  | inl short ↦
      let still : ltb (length (drop n incoming)) (left - n) ≡ true =
        ground (arith, short, h, k, length-drop n incoming) in
      rw (short, still) refl
  | inr enough ↦
      let still : ltb (length (drop n incoming)) (left - n) ≡ false =
        ground (arith, enough, h, k, length-drop n incoming) in
      let all : n + (left - n) ≡ left = omega (arith, h) in
      rw (enough, still)
        (ap₂ whole
          (append_assoc buf (take n incoming) (take (left - n) (drop n incoming))
            ∙ ap (◌++◌ buf) (take-take-drop n (left - n) incoming ∙ ap (λ k. take k incoming) all))
          (drop-drop (left - n) n incoming ∙ ap (λ k. drop k incoming) all))
]

nothing_left : (buf incoming : List ℕ) → whole buf incoming ≡ behind buf (read_exact 0 incoming)
nothing_left buf incoming =
    let there : ltb (length incoming) 0 ≡ false = ground arith in
    rw there (ap (λ b. whole b incoming) (sym (append-nil buf)))

module _ (recv : ℕ → ℕ → ℕ → ℕ) (receives : Receives recv) where
  receive_loop-behind :
      (calls call : ℕ) (buf : List ℕ) (left : ℕ) (incoming : List ℕ)
      → left ≤ calls
      → receive_loop recv calls call buf left incoming ≡ behind buf (read_exact left incoming)
  unfolding receive_loop
  receive_loop-behind zero call buf zero incoming h = nothing_left buf incoming
  receive_loop-behind (suc calls) call buf zero incoming h = nothing_left buf incoming
  receive_loop-behind zero call buf (suc left) incoming h = absurd (omega (arith, h))
  receive_loop-behind (suc calls) call buf (suc left) [] h =
      let ends : recv call (suc left) 0 ≡ 0 = omega (arith, receives.there call (suc left) 0) in
      let wants : (suc left == 0) ≡ false = ground arith in
      let short : ltb 0 (suc left) ≡ true = ground arith in
      rw (receive_loop, wants, ends, short) refl
  receive_loop-behind (suc calls) call buf (suc left) (b ∷ incoming) h =
      let n = recv call (suc left) (length (b ∷ incoming)) in
      let more : (n == 0) ≡ false = ground (
        arith,
        receives.some_byte call (suc left) (length (b ∷ incoming)) (omega arith) (omega arith),
      ) in
      let wants : (suc left == 0) ≡ false = ground arith in
      let fits = receives.at_most call (suc left) (length (b ∷ incoming)) in
      let some_byte =
        receives.some_byte call (suc left) (length (b ∷ incoming)) (omega arith) (omega arith) in
      rw (receive_loop, wants, more)
        (receive_loop-behind calls (suc call) (buf ++ take n (b ∷ incoming)) (suc left - n)
            (drop n (b ∷ incoming)) (omega (arith, h, fits, some_byte))
          ∙ behind-read_exact buf n (suc left) (b ∷ incoming) fits
              (receives.there call (suc left) (length (b ∷ incoming))))

-- However the stream arrives, where `recv` gives some of the bytes that are there and asked for, and nothing
-- exactly at the end, the loop of `read_exact` takes at most one call for each byte. It reads the next `len`
-- bytes of the stream, where there are as many, and fails else.
pub receive_loop-read_exact :
    (recv : ℕ → ℕ → ℕ → ℕ)
    → Receives recv
    → (len : ℕ) (incoming : List ℕ)
    → receive_loop recv len 0 [] len incoming ≡ behind [] (read_exact len incoming)
receive_loop-read_exact recv receives len incoming =
    receive_loop-behind recv receives len 0 [] len incoming (omega arith)

-- `send` takes some of the bytes that are offered, or fails.
pub record Sends (send : ℕ → ℕ → Option ℕ) : Type 0 where
  pub progress : (call k n : ℕ) → 0 < k → send call k ≡ some n → 0 < n
  pub offered : (call k n : ℕ) → send call k ≡ some n → n ≤ k

-- All of the bytes were sent, or a part from the front and then an error came.
abbrev pub AllOrPart : Writing → List ℕ → Type 0
AllOrPart (written sent) bytes = sent ≡ bytes
AllOrPart (cut_off sent) bytes = (rest : List ℕ) × (sent ++ rest ≡ bytes) × (0 < length rest)
AllOrPart (unfinished sent) bytes = ⊥

module _ (send : ℕ → ℕ → Option ℕ) (sends : Sends send) where
  send_loop-behind :
      (calls call : ℕ) (sent bytes : List ℕ)
      → length bytes ≤ calls
      → AllOrPart (send_loop send calls call sent bytes) (sent ++ bytes)
  unfolding send_loop
  send_loop-behind zero call sent [] h = sym (append-nil sent)
  send_loop-behind (suc calls) call sent [] h = sym (append-nil sent)
  send_loop-behind zero call sent (b ∷ bytes) h = absurd (omega (arith, h))
  send_loop-behind (suc calls) call sent (b ∷ bytes) h =
      let more : (length (b ∷ bytes) == 0) ≡ false = ground arith in
      elim (Option-cases (send call (length (b ∷ bytes)))) [
        | inl fails ↦ rw (AllOrPart, send_loop, more, fails) (b ∷ bytes, refl, omega arith)
        | inr (n, takes) ↦
            let some_byte = sends.progress call (length (b ∷ bytes)) n (omega arith) takes in
            let later =
              send_loop-behind calls (suc call) (sent ++ take n (b ∷ bytes)) (drop n (b ∷ bytes))
                (omega (arith, h, some_byte, length-drop n (b ∷ bytes))) in
            let all : (sent ++ take n (b ∷ bytes)) ++ drop n (b ∷ bytes) ≡ sent ++ (b ∷ bytes) =
              append_assoc sent (take n (b ∷ bytes)) (drop n (b ∷ bytes))
              ∙ ap (◌++◌ sent) (take-append-drop n (b ∷ bytes)) in
            rw (AllOrPart, send_loop, more, takes)
              (subst
                (AllOrPart (
                  send_loop send calls (suc call) (sent ++ take n (b ∷ bytes))
                    (drop n (b ∷ bytes))))
                all later)
      ]

-- Where each call of `send` takes some of the bytes offered or fails, the loop of `write_exact` takes at most
-- one call for each byte, and has sent all of the bytes when it reports success, and else a part of them
-- from the front.
pub send_loop-AllOrPart :
    (send : ℕ → ℕ → Option ℕ)
    → Sends send
    → (bytes : List ℕ) → AllOrPart (send_loop send (length bytes) 0 [] bytes) bytes
send_loop-AllOrPart send sends bytes =
    send_loop-behind send sends (length bytes) 0 [] bytes (omega arith)
