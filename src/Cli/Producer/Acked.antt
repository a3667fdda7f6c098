-- ===== src/Cli/Producer/Acked.antt =====
-- What it takes for the producer to report a message as published.
use fell.Base.{
  ℕ, ◌+◌, ◌≡◌, refl, sym, ap, ◌∙◌, ◌⊎◌, inl, inr, Bool, Bool-cases, Option-cases, List, [], ◌∷◌,
  Option, none, some, ltb, ◌==◌, if◌then◌else◌, arith,
}
use fell.Wire.{read_be64}
use fell.Frame.{Frame}
use fell.Broker.Protocol.{op_ack}
use fell.Cli.{leader_in, broker_in}
use fell.Cli.Requests.{publish_request}
use fell.Cli.Producer.{
  map_size, choose_partition, published, moved, broke, refused, waits, take_response, request_loop,
  Attempt, Message, Round, retried, overrun, answered, attempt_round, after_round, Sent, acked,
  gave_up, send_message,
}

abbrev pub Somewhere {ℓ} : {A : Type ℓ} → (A → Type 0) → List A → Type 0
Somewhere P [] = ⊥
Somewhere P (x ∷ xs) = P x ⊎ Somewhere P xs

-- An acknowledgement of an offset.
abbrev pub Acknowledges : ℕ → Option Frame → Type 0
Acknowledges offset none = ⊥
Acknowledges offset (some f) = (f.op ≡ op_ack) × (read_be64 f.payload ≡ offset)

take_response-published :
    (retry : Bool) (f : Frame) (offset : ℕ)
    → take_response retry f ≡ some (published offset)
    → Acknowledges offset (some f)
unfolding take_response
take_response-published retry f offset e = ground (arith, e)

request_loop-published :
    (retry : Bool) (answers : List (Option Frame)) (offset : ℕ)
    → (request_loop retry answers).0 ≡ published offset
    → Somewhere (Acknowledges offset) answers
unfolding request_loop
request_loop-published retry [] offset e = cc
request_loop-published retry (none ∷ answers) offset e = cc
request_loop-published retry (some f ∷ answers) offset e =
    elim (Option-cases (take_response retry f)) [
      | inl again ↦
          inr
            (request_loop-published retry answers offset (sym (rw (request_loop, again) refl) ∙ e))
      | inr (end, ended) ↦
          let same : end ≡ published offset = sym (rw (request_loop, ended) refl) ∙ e in
          inl (take_response-published retry f offset (ended ∙ ap some same))
    ]

-- A message is acknowledged in a round, or after it.
after_round-acked :
    (r : Round) (counted again : Sent × ℕ × ℕ) (rr sent offset : ℕ)
    → (after_round r counted again rr sent).0 ≡ acked offset
    → (r ≡ answered (published offset)) ⊎ ((counted.0 ≡ acked offset) ⊎ (again.0 ≡ acked offset))
after_round-acked retried counted again rr sent offset e = inr (inl e)
after_round-acked overrun counted again rr sent offset e = cc
after_round-acked (answered (published o)) counted again rr sent offset e = inl (cc)
after_round-acked (answered refused) counted again rr sent offset e = cc
after_round-acked (answered waits) counted again rr sent offset e = cc
after_round-acked (answered moved) counted again rr sent offset e = inr (inr e)
after_round-acked (answered broke) counted again rr sent offset e = inr (inr e)

send_message-step :
    (m : Message) (md_retries rr_counter : ℕ) (a : Attempt) (attempts : List Attempt)
    → let r = attempt_round m rr_counter a in
      send_message m md_retries rr_counter (a ∷ attempts) ≡ (
        if ltb md_retries 3
        then after_round r.0
            (send_message m (md_retries + 1) r.1 attempts)
            (send_message m md_retries r.1 attempts)
            r.1
            r.2
        else (gave_up, rr_counter, 0))
unfolding send_message
send_message-step m md_retries rr_counter a attempts = refl

step_acked :
    (m : Message) (offset md_retries rr_counter : ℕ) (a : Attempt) (attempts : List Attempt)
    → (send_message m md_retries rr_counter (a ∷ attempts)).0 ≡ acked offset
    → let r = attempt_round m rr_counter a in
      (r.0 ≡ answered (published offset))
      ⊎ (((send_message m (md_retries + 1) r.1 attempts).0 ≡ acked offset)
          ⊎ ((send_message m md_retries r.1 attempts).0 ≡ acked offset))
step_acked m offset md_retries rr_counter a attempts e =
    let r = attempt_round m rr_counter a in
    let step = rw (send_message-step m md_retries rr_counter a attempts) at e in
    elim (Bool-cases (ltb md_retries 3)) [
      | inl more ↦ after_round-acked r.0 _ _ r.1 r.2 offset (rw more at step)
      | inr no_more ↦ let w = rw no_more at step in cc
    ]

module _ (m : Message) (offset : ℕ) where
  attempt_round-published :
      (rr_counter : ℕ) (a : Attempt)
      → (attempt_round m rr_counter a).0 ≡ answered (published offset)
      → Somewhere (Acknowledges offset) a.answers
  unfolding attempt_round
  attempt_round-published rr_counter a e = elim (Option-cases a.metadata) [
    | inl none_came ↦ absurd (ground (arith, e, none_came))
    | inr (found, came) ↦
        let total = map_size found.partition_leaders in
        let chosen = choose_partition m.key rr_counter total in
        elim (Bool-cases (total == 0)) [
          | inl empty ↦ let w = rw (attempt_round, came, empty) at e in cc
          | inr full ↦ elim (Option-cases (leader_in chosen.0 found.partition_leaders)) [
            | inl unknown ↦ let w = rw (attempt_round, came, full, unknown) at e in cc
            | inr (leader, knows) ↦ elim (Option-cases (broker_in leader found.brokers)) [
              | inl absent ↦ let w = rw (attempt_round, came, full, knows, absent) at e in cc
              | inr (broker, has) ↦ elim (Bool-cases a.connects) [
                | inr down ↦ let w = rw (attempt_round, came, full, knows, has, down) at e in cc
                | inl up ↦ elim (Option-cases (publish_request m.topic chosen.0 m.key m.payload)) [
                  | inl too_long ↦
                      let w = rw (attempt_round, came, full, knows, has, up, too_long) at e in cc
                  | inr (bytes, made) ↦
                      let same = rw (attempt_round, came, full, knows, has, up, made) at e in
                      request_loop-published m.retry_on_busy a.answers offset (cc)
                ]
              ]
            ]
          ]
        ]
  ]

  -- A message is reported as published with an offset only where a broker acknowledged that offset, in an
  -- answer to a request of one of the attempts.
  pub send_message-acked :
      (md_retries rr_counter : ℕ) (attempts : List Attempt)
      → (send_message m md_retries rr_counter attempts).0 ≡ acked offset
      → Somewhere (λ a. Somewhere (Acknowledges offset) a.answers) attempts
  unfolding send_message
  send_message-acked md_retries rr_counter [] e = elim (Bool-cases (ltb md_retries 3)) [
    | inl more ↦ let w = rw more at e in cc
    | inr no_more ↦ let w = rw no_more at e in cc
  ]
  send_message-acked md_retries rr_counter (a ∷ attempts) e =
      let r = attempt_round m rr_counter a in
      elim (step_acked m offset md_retries rr_counter a attempts e) [
        | inl here ↦ inl (attempt_round-published rr_counter a here)
        | inr (inl counted) ↦ inr (send_message-acked (md_retries + 1) r.1 attempts counted)
        | inr (inr again) ↦ inr (send_message-acked md_retries r.1 attempts again)
      ]
