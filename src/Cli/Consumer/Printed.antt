-- ===== src/Cli/Consumer/Printed.antt =====
-- What the consumer prints, where the brokers answer from one log.
use fell.Base.{
  ℕ, suc, ◌+◌, ◌<◌, ◌≡◌, refl, sym, ap, ◌∙◌, ◌⊎◌, inl, inr, true, Bool-cases, Option-cases, List,
  [], ◌∷◌, ◌++◌, Option, none, some, length, All, get_elem?, take, drop, subst, length-append,
  arith,
}
use native.Mathlib.Decide.{ℕ_discrete}
use fell.Storage.{StoredMessage, IsStorable}
use fell.Broker.Protocol.{op_fetch_response}
use fell.Broker.Consume.{latest}
use fell.Cli.Requests.{fetch_request}
use fell.Cli.Consumer.{
  Exchange, Session, Options, Consumer, Left, done, goes_on, fetch_round, fetch_loop, subscribe,
  run_session, consume, start_at,
}
use fell.Cli.Consumer.Turns.{
  printed_also, take_answer-response, IsLog, Honest, Follows, get_elem?-drop, take-suc, record-at,
  Left-cases, Turn-cases, take_answer-other, Within, Reached, Within-start, Within-more, Within-end,
}

-- A subscription moves only a consumer that asks for the latest offset.
subscribe-same :
    (o : Options) (e : Exchange) (c : Consumer) → c.offset < latest → (subscribe o e c).0 ≡ c
unfolding subscribe
subscribe-same o e c h = ground arith

module _ (o : Options) (log : List StoredMessage) (l : IsLog log) (start : ℕ) where
  printed_also-Follows :
      (m : StoredMessage) (c : Consumer) (s : IsStorable m)
      → Follows log start c
      → get_elem? log c.offset ≡ some m
      → Follows log start (printed_also m c s)
  printed_also-Follows m c s v e =
      let (place, _, inside) = record-at 0 c.offset log m l.consecutive l.storable e in
      let there : get_elem? (drop start log) c.read_count ≡ some m =
        get_elem?-drop start c.read_count log ∙ ap (get_elem? log) (sym v.at) ∙ e in
      record {
        at = omega (arith, place, inside, l.small, v.at);
        in_front = omega (arith, place, inside, l.small);
        printed =
            ap (λ ms. ms ++ (m ∷ [])) v.printed
            ∙ sym (take-suc c.read_count (drop start log) m there)
            ∙ ap (λ k. take k (drop start log)) {x = suc c.read_count} {y = c.read_count + 1}
                (omega arith);
        counted = omega (arith, length-append c.printed (m ∷ []), v.counted);
      }

  -- One round prints the next record or changes nothing.
  fetch_round-Follows :
      (e : Exchange) (c : Consumer)
      → Honest o log e
      → Follows log start c
      → ((fetch_round o e c).0 ≡ c)
        ⊎ (((fetch_round o e c).0.read_count ≡ c.read_count + 1)
            × Follows log start (fetch_round o e c).0)
  unfolding fetch_round
  fetch_round-Follows e c honest v =
      elim (Option-cases (e (fetch_request o.topic o.partition c.offset))) [
        | inl lost ↦ inl (rw (fetch_round, lost) refl)
        | inr (f, came) ↦ elim (ℕ_discrete f.op op_fetch_response) [
          | no other ↦ inl (rw (fetch_round, came) (take_answer-other f c other))
          | yes op ↦
              let (m, there, body) = honest c.offset f (omega (arith, v.in_front)) came op in
              let (_, s, _) = record-at 0 c.offset log m l.consecutive l.storable there in
              let next : (fetch_round o e c).0 ≡ printed_also m c s =
                rw (fetch_round, came, take_answer-response m c s f op body) refl in
              inr (
                ap (λ (d : Consumer). d.read_count) next,
                subst (Follows log start) (sym next) (printed_also-Follows m c s v there),
              )
        ]
      ]

  -- What holds of the consumer between rounds.
  abbrev Stands : Consumer → Type 0
  Stands c = Follows log start c × Within o.count c.read_count

  fetch_round-Stands :
      (e : Exchange) (c : Consumer)
      → Honest o log e
      → goes_on o.count c.read_count ≡ true
      → Stands c
      → Stands (fetch_round o e c).0
  fetch_round-Stands e c honest more (v, w) = elim (fetch_round-Follows e c honest v) [
    | inl same ↦ subst Stands (sym same) (v, w)
    | inr (count, next) ↦
        (next, subst (Within o.count) (sym count) (Within-more o.count c.read_count w more))
  ]

  fetch_loop-Stands :
      (es : List Exchange) (c : Consumer)
      → All (Honest o log) es
      → Stands c
      → Stands (fetch_loop o es c).0
  unfolding fetch_loop
  fetch_loop-Stands [] c h v = v
  fetch_loop-Stands (e ∷ es) c h v = elim (Bool-cases (goes_on o.count c.read_count)) [
    | inr stop ↦ rw (fetch_loop, stop) v
    | inl more ↦
        let next = fetch_round-Stands e c h.0 more v in
        elim (Turn-cases (fetch_round o e c).1) [
          | inl goes ↦
              rw (fetch_loop, more, goes) (fetch_loop-Stands es (fetch_round o e c).0 h.1 next)
          | inr (inl leaves) ↦ rw (fetch_loop, more, leaves) next
          | inr (inr fails) ↦ rw (fetch_loop, more, fails) next
        ]
  ]

  run_session-Stands :
      (s : Session) (c : Consumer)
      → All (Honest o log) s.fetched
      → Stands c
      → Stands (run_session o s c).0
  unfolding run_session
  run_session-Stands s c h (v, w) =
      let same = subscribe-same o s.subscribed c v.in_front in
      elim (Turn-cases (subscribe o s.subscribed c).1) [
        | inl goes ↦ rw (run_session, goes, same) (fetch_loop-Stands s.fetched c h (v, w))
        | inr (inl leaves) ↦ rw (run_session, leaves, same) (v, w)
        | inr (inr fails) ↦ rw (run_session, fails, same) (v, w)
      ]

  abbrev pub HonestSession : Option Session → Type 0
  HonestSession none = Unit {0}
  HonestSession (some s) = All (Honest o log) s.fetched

  abbrev Ends : Consumer × Left → Type 0
  Ends (c, left) = Stands c × (left ≡ done → Reached o.count c.read_count)

  consume-Ends :
      (ss : List (Option Session)) (c : Consumer)
      → All HonestSession ss
      → Stands c
      → Ends (consume o ss c)
  unfolding consume
  consume-Ends [] c h (v, w) = elim (Bool-cases (goes_on o.count c.read_count)) [
    | inl more ↦ rw (consume, more) ((v, w), λ e. cc)
    | inr stop ↦ rw (consume, stop) ((v, w), λ e. Within-end o.count c.read_count w stop)
  ]
  consume-Ends (none ∷ ss) c h (v, w) = elim (Bool-cases (goes_on o.count c.read_count)) [
    | inl more ↦ rw (consume, more) (consume-Ends ss c h.1 (v, w))
    | inr stop ↦ rw (consume, stop) ((v, w), λ e. Within-end o.count c.read_count w stop)
  ]
  consume-Ends (some s ∷ ss) c h (v, w) = elim (Bool-cases (goes_on o.count c.read_count)) [
    | inr stop ↦ rw (consume, stop) ((v, w), λ e. Within-end o.count c.read_count w stop)
    | inl more ↦
        let next = run_session-Stands s c h.0 (v, w) in
        elim (Left-cases (run_session o s c).1) [
          | inl waits ↦ rw (consume, more, waits) (next, λ e. cc)
          | inr (inl ended) ↦
              rw (consume, more, ended) (consume-Ends ss (run_session o s c).0 h.1 next)
          | inr (inr fails) ↦ rw (consume, more, fails) (next, λ e. cc)
        ]
  ]

  -- However often connections are lost, leaders move and brokers have nothing yet, a consumer that starts
  -- at an offset prints records of the log from that offset on, in order, none left out and none twice,
  -- as long as each message that answers a fetch is the record that was asked for. It prints no more than
  -- its count, and where it ends by itself it has printed that many.
  pub consume_prints :
      (ss : List (Option Session))
      → start < latest
      → All HonestSession ss
      → let (c, left) = consume o ss (start_at start) in
        (c.printed ≡ take (length c.printed) (drop start log))
        × Within o.count (length c.printed)
        × (left ≡ done → Reached o.count (length c.printed))
  consume_prints ss inside h =
      let begin : Stands (start_at start) = (
        record { at = omega arith; in_front = inside; printed = refl; counted = refl },
        Within-start o.count,
      ) in
      let ((v, w), ends) = consume-Ends ss (start_at start) h begin in
      rw v.counted (v.printed, w, ends)
