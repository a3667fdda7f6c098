-- ===== src/Cli/Producer/Retries.antt =====
-- How often the producer tries to send a message.
use fell.Base.{
  ℕ, suc, ◌+◌, ◌^◌, ◌≤◌, ◌<◌, ◌≡◌, refl, ap, ◌⊎◌, inl, inr, true, false, Bool-cases, Option-cases,
  List, [], ◌∷◌, Option, none, some, length, All, ltb, ◌==◌, arith,
}
use fell.Frame.{Frame}
use fell.Cli.{Metadata, BrokerInfo, leader_in, broker_in}
use fell.Cli.Requests.{publish_request-ReadsPublish}
use fell.Cli.Producer.{
  map_size, choose_partition, broke, Attempt, Message, Round, retried, answered, attempt_round,
  Sent, gave_up, pending, send_message,
}
use fell.Cli.Producer.Routing.{choose_partition-lt}

module _ (m : Message) where
  -- No metadata comes, or the leader takes no connection.
  abbrev pub Fails : Attempt → Type 0
  Fails a = (a.metadata ≡ none) ⊎ (a.connects ≡ false)

  -- The leader of every partition is known and takes the connection, and then drops it before an answer.
  pub record Drops (a : Attempt) : Type 0 where
    pub found : Metadata
    pub metadata : a.metadata ≡ some found
    pub some_partition : 0 < map_size found.partition_leaders
    pub u16 : map_size found.partition_leaders < 65536
    pub leads :
        (p : ℕ)
        → p < map_size found.partition_leaders
        → (leader : ℕ) × (broker : BrokerInfo) × (leader_in p found.partition_leaders ≡ some leader)
          × (broker_in leader found.brokers ≡ some broker)
    pub connects : a.connects ≡ true
    pub later : List (Option Frame)
    pub lost : a.answers ≡ none ∷ later

  attempt_round-Drops :
      (rr_counter : ℕ) (a : Attempt)
      → length m.topic ≤ 255
      → length m.key ≤ 255
      → length m.payload < 2 ^ 32
      → Drops a
      → (rr : ℕ) × (attempt_round m rr_counter a ≡ (answered broke, rr, 1))
  unfolding attempt_round
  attempt_round-Drops rr_counter a t k s d =
      let total = map_size d.found.partition_leaders in
      let chosen = choose_partition m.key rr_counter total in
      let inside = choose_partition-lt m.key rr_counter total d.some_partition d.u16 in
      let (leader, broker, knows, has) = d.leads chosen.0 inside in
      let (bytes, made, _) =
        publish_request-ReadsPublish m.topic chosen.0 m.key m.payload t
          (omega (arith, inside, d.u16)) k s in
      let not_empty : (total == 0) ≡ false = ground (arith, d.some_partition) in
      (
        chosen.1,
        rw (attempt_round, d.metadata, not_empty, knows, has, d.connects, made, d.lost) refl,
      )

  attempt_round-Fails :
      (rr_counter : ℕ) (a : Attempt)
      → Fails a
      → (rr : ℕ) × (attempt_round m rr_counter a ≡ (retried, rr, 0))
  unfolding attempt_round
  attempt_round-Fails rr_counter a (inl none_came) = (rr_counter, rw none_came refl)
  attempt_round-Fails rr_counter a (inr down) = elim (Option-cases a.metadata) [
    | inl none_came ↦ (rr_counter, rw none_came refl)
    | inr (found, came) ↦
        let total = map_size found.partition_leaders in
        let chosen = choose_partition m.key rr_counter total in
        elim (Bool-cases (total == 0)) [
          | inl empty ↦ (rr_counter, rw (attempt_round, came, empty) refl)
          | inr some_partition ↦ elim (Option-cases (leader_in chosen.0 found.partition_leaders)) [
            | inl unknown ↦ (chosen.1, rw (attempt_round, came, some_partition, unknown) refl)
            | inr (leader, knows) ↦ elim (Option-cases (broker_in leader found.brokers)) [
              | inl absent ↦
                  (chosen.1, rw (attempt_round, came, some_partition, knows, absent) refl)
              | inr (broker, has) ↦
                  (chosen.1, rw (attempt_round, came, some_partition, knows, has, down) refl)
            ]
          ]
        ]
  ]

  abbrev pub NoAnswer : Attempt → Type 0
  NoAnswer a = Fails a ⊎ Drops a

  -- The attempts that fail before the request, and those whose connection is dropped behind it.
  abbrev pub failures : (attempts : List Attempt) → All NoAnswer attempts → ℕ
  failures [] h = 0
  failures (a ∷ attempts) (inl fails, h) = suc (failures attempts h)
  failures (a ∷ attempts) (inr drops, h) = failures attempts h

  abbrev pub drops : (attempts : List Attempt) → All NoAnswer attempts → ℕ
  drops [] h = 0
  drops (a ∷ attempts) (inl fails, h) = drops attempts h
  drops (a ∷ attempts) (inr dropped, h) = suc (drops attempts h)

  -- What becomes of a message that nobody answers.
  abbrev pub Retries : ℕ → (attempts : List Attempt) → All NoAnswer attempts → Sent × ℕ × ℕ → Type 0
  Retries md_retries attempts h (end, rr, sent) =
      (md_retries + failures attempts h < 3 → (end ≡ pending) × (sent ≡ drops attempts h))
      × (3 ≤ md_retries + failures attempts h → end ≡ gave_up)

  module _ (t : length m.topic ≤ 255) (k : length m.key ≤ 255) (s : length m.payload < 2 ^ 32) where
    -- A message that no broker answers: the producer gives up with the third attempt that fails before the
    -- request, and only then. An attempt whose connection is dropped behind the request is not counted: as
    -- long as fewer than three fail, it goes on, however many were dropped, and has sent the message once for
    -- each of these.
    pub send_message_tries :
        (md_retries rr_counter : ℕ) (attempts : List Attempt) (h : All NoAnswer attempts)
        → Retries md_retries attempts h (send_message m md_retries rr_counter attempts)
    unfolding send_message
    send_message_tries md_retries rr_counter [] h = elim (Bool-cases (ltb md_retries 3)) [
      | inl more ↦ rw more (λ few. (refl, refl), λ many. absurd (ground (arith, more, many)))
      | inr no_more ↦ rw no_more (λ few. absurd (ground (arith, no_more, few)), λ many. refl)
    ]
    send_message_tries md_retries rr_counter (a ∷ attempts) (inl fails, h) =
        let (_, ended) = attempt_round-Fails rr_counter a fails in
        let round = attempt_round m rr_counter a in
        let kind : round.0 ≡ retried = ap (λ (r : Round × ℕ × ℕ). r.0) ended in
        elim (Bool-cases (ltb md_retries 3)) [
          | inl more ↦
              let (few, many) = send_message_tries (md_retries + 1) round.1 attempts h in
              rw (send_message, more, kind)
                (λ x. few (omega (arith, x)), λ x. many (omega (arith, x)))
          | inr no_more ↦
              rw (send_message, no_more)
                (λ few. absurd (ground (arith, no_more, few)), λ many. refl)
        ]
    send_message_tries md_retries rr_counter (a ∷ attempts) (inr dropped, h) =
        let (_, ended) = attempt_round-Drops rr_counter a t k s dropped in
        let round = attempt_round m rr_counter a in
        let kind : round.0 ≡ answered broke = ap (λ (r : Round × ℕ × ℕ). r.0) ended in
        let sent : round.2 ≡ 1 = ap (λ (r : Round × ℕ × ℕ). r.2) ended in
        elim (Bool-cases (ltb md_retries 3)) [
          | inl more ↦
              let (few, many) = send_message_tries md_retries round.1 attempts h in
              rw (send_message, more, kind, sent)
                (λ x. ((few x).0, omega (arith, (few x).1)), λ x. many x)
          | inr no_more ↦
              rw (send_message, no_more)
                (λ few. absurd (ground (arith, no_more, few)), λ many. refl)
        ]
