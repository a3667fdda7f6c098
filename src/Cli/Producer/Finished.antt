-- ===== src/Cli/Producer/Finished.antt =====
-- What it takes for the producer to end with success.
use fell.Base.{
  ℕ, zero, suc, ◌≡◌, ◌≢◌, ◌⊎◌, none, some, ◌==◌, Option-cases, same_text, same_text→≡, refl, ap,
  inl, inr, true, not, ◌&&◌, Bool-cases, List, [], ◌∷◌, subst, length, arith,
}
use fell.Frame.{Frame}
use fell.Broker.Protocol.{codes, op_err}
use fell.Cli.Requests.{create_topic_request}
use fell.Cli.Args.{ProducerArgs, legal_topic}
use fell.Cli.Producer.{Attempt, Sent, acked, gave_up, stopped, undefined, pending, send_message}
use fell.Cli.Producer.Acked.{Somewhere, Acknowledges, send_message-acked}
use fell.Cli.Producer.Main.{
  message_of, Creation, refuses, unwritten, answers, error_text, take_created, create_topic, Exit,
  succeeded, after_sent, publish_all, messages, produce,
}

-- Each offset was acknowledged in an attempt of its message, from message `i` on.
abbrev pub AllAcknowledged : (ℕ → List Attempt) → ℕ → List ℕ → Type 0
AllAcknowledged attempts i [] = Unit {0}
AllAcknowledged attempts i (offset ∷ offsets) =
    Somewhere (λ a. Somewhere (Acknowledges offset) a.answers) (attempts i)
    × AllAcknowledged attempts (suc i) offsets

after_sent-succeeded :
    (s : Sent) (later : List ℕ × Exit) (offsets : List ℕ)
    → after_sent s later ≡ (offsets, succeeded)
    → (offset : ℕ) × (s ≡ acked offset) × (offset ∷ later.0 ≡ offsets) × (later.1 ≡ succeeded)
after_sent-succeeded (acked offset) later offsets e =
    (offset, refl, ap (λ r. r.0) e, ap (λ r. r.1) e)
after_sent-succeeded gave_up later offsets e = cc
after_sent-succeeded stopped later offsets e = cc
after_sent-succeeded undefined later offsets e = cc
after_sent-succeeded pending later offsets e = cc

-- The request for the topic was sent, and its answer could not be read, is no error, or is the error that the topic
-- already exists.
abbrev pub NotRefused : ProducerArgs → Creation → Type 0
NotRefused o refuses = ⊥
NotRefused o unwritten = ⊥
NotRefused o (answers answer) =
    (answer (create_topic_request o.topic o.partitions) ≡ none)
    ⊎ ((f : Frame) × (answer (create_topic_request o.topic o.partitions) ≡ some f)
        × ((f.op ≢ op_err) ⊎ (error_text f.payload ≡ codes "Topic already exists")))

create_topic-NotRefused :
    (o : ProducerArgs) (creation : Creation)
    → create_topic o creation ≡ true
    → NotRefused o creation
unfolding create_topic take_created
create_topic-NotRefused o refuses e = cc
create_topic-NotRefused o unwritten e = cc
create_topic-NotRefused o (answers answer) e =
    elim (Option-cases (answer (create_topic_request o.topic o.partitions))) [
      | inl unread ↦ inl unread
      | inr (f, came) ↦ elim (Bool-cases (f.op == op_err)) [
        | inr no_error ↦ inr (f, came, inl (λ h. absurd (ground (arith, h, no_error))))
        | inl error ↦
            let w : same_text (error_text f.payload) (codes "Topic already exists") ≡ true =
              rw (create_topic, came, take_created, error) at e in
            inr (f, came, inr (same_text→≡ (error_text f.payload) (codes "Topic already exists") w))
      ]
    ]

module _ (o : ProducerArgs) (attempts : ℕ → List Attempt) where
  publish_all-succeeded :
      (count left i rr : ℕ) (offsets : List ℕ)
      → publish_all o count attempts left i rr ≡ (offsets, succeeded)
      → (length offsets ≡ left) × AllAcknowledged attempts i offsets
  unfolding publish_all
  publish_all-succeeded count zero i rr offsets e =
      subst (λ os. (length os ≡ 0) × AllAcknowledged attempts i os) (ap (λ r. r.0) e) (refl, tt)
  publish_all-succeeded count (suc left) i rr offsets e =
      let m = message_of o count i in
      let r = send_message m 0 rr (attempts i) in
      let later = publish_all o count attempts left (suc i) r.1 in
      let (offset, sent, same, done) = after_sent-succeeded r.0 later offsets e in
      let rest =
        publish_all-succeeded count left (suc i) r.1 later.0 (ap (λ x. (later.0, x)) done) in
      subst (λ os. (length os ≡ suc left) × AllAcknowledged attempts i os) same
        (ap suc rest.0, (send_message-acked m offset 0 rr (attempts i) sent, rest.1))

  -- The producer ends with success only where the topic has a legal name, the request to create it was sent
  -- and no answer was read that refuses it, if that was asked for, and for each of the messages, as many as were asked for, a broker acknowledged
  -- the offset that is printed for it in an answer to a request for that message.
  pub produce-succeeded :
      (creation : Creation) (offsets : List ℕ)
      → produce o creation attempts ≡ (offsets, succeeded)
      → (legal_topic o.topic ≡ true)
        × (o.create ≡ true → NotRefused o creation)
        × (length offsets ≡ messages o)
        × AllAcknowledged attempts 0 offsets
  unfolding produce
  produce-succeeded creation offsets e = elim (Bool-cases (legal_topic o.topic)) [
    | inr illegal ↦ let w = rw (produce, illegal) at e in cc
    | inl legal ↦ elim (Bool-cases (o.create && not (create_topic o creation))) [
      | inl fails ↦ let w = rw (produce, legal, fails) at e in cc
      | inr goes_on ↦
          let sent =
            publish_all-succeeded (messages o) (messages o) 0 0 offsets
              (rw (produce, legal, goes_on) at e) in
          (
            legal,
            (λ asked. create_topic-NotRefused o creation (ground (arith, goes_on, asked))),
            sent.0,
            sent.1,
          )
    ]
  ]
