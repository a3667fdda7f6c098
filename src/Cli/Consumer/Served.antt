-- ===== src/Cli/Consumer/Served.antt =====
-- The consumer against `RequestHandler::handle` of broker/request_handler.cpp: a broker whose partition
-- holds the log answers a fetch with the record that was asked for.
use fell.Base.{
  ℕ, zero, suc, ◌+◌, ◌%◌, ◌^◌, ◌≤◌, ◌<◌, ◌≡◌, ◌≢◌, refl, sym, ap, ◌∙◌, ◌⊎◌, inl, inr, List, [], ◌∷◌,
  Option, none, some, length, All, get_elem?, take, drop, map, if◌then◌else◌, ◌==◌, subst, arith,
}
use fell.Frame.{Frame}
use fell.Storage.{StoredMessage}
use fell.Storage.Reader.{Outcome, ok, threw, stuck, Outcome-cases}
use fell.Storage.Store.{PartitionStore, fetch}
use fell.Broker.Protocol.{
  encode_ack, encode_error, op_fetch, op_fetch_response, topic_of, partition_of,
}
use fell.Broker.Requests.{Node, Reply}
use fell.Broker.Consume.{
  resolve, handle_fetch, handle_fetch-resolve, fetch_resolved, response_frames, latest,
}
use fell.Broker.Refused.{resolve_refused}
use fell.Broker.Handler.{handle}
use fell.Cli.Frames.{read_frame, read_frame-encode_frame}
use fell.Cli.Requests.{fetch_request, ReadsFetch, fetch_request-ReadsFetch}
use fell.Cli.Consumer.{Exchange, Session, Options, done, consume, start_at}
use fell.Cli.Consumer.Printed.{HonestSession, consume_prints}
use fell.Cli.Consumer.Turns.{Honest, IsLog, Within, Reached, response_payload, response-cut}
use fell.Cli.Consumer.Answers.{
  Moment, frame_in, answer_bytes, served, Keeps, read-encode_ack, read-encode_error,
}

-- The length of a message fits the frame that carries it.
abbrev pub IsShort : StoredMessage → Type 0
IsShort m = length m.payload + 21 < 2 ^ 32

read-response_frames :
    (m : StoredMessage)
    → IsShort m
    → read_frame (response_frames (m ∷ []))
      ≡ some (record { op = op_fetch_response; payload = response_payload m }, [])
unfolding response_frames
read-response_frames m short =
    let size : length m.payload % 2 ^ 32 ≡ length m.payload = omega (arith, short) in
    let (_, _, _, n) = response-cut m in
    rw size (
      read_frame-encode_frame op_fetch_response (response_payload m) [] (omega arith)
        (omega (arith, n, short)))

handle-fetch :
    (t : Moment) (payload : List ℕ)
    → handle t.now t.disk (record { op = op_fetch; payload = payload }) t.node t.conn
      ≡ handle_fetch (record { op = op_fetch; payload = payload }) t.node t.conn
unfolding handle
handle-fetch t payload = refl

module _ (o : Options) (t : Moment) (offset : ℕ)
    (r : ReadsFetch (fetch_request o.topic o.partition offset) o.topic o.partition offset) where
  abbrev request : List ℕ
  request = fetch_request o.topic o.partition offset

  -- The handler's answer, from what the checks give.
  served-resolve :
      (x : Reply ⊎ (Node × PartitionStore))
      → resolve o.topic o.partition t.node t.conn ≡ x
      → served t request
        ≡ answer_bytes (fetch_resolved (record { op = op_fetch; payload = request }) t.conn x)
  served-resolve x e =
      let f : Frame = record { op = op_fetch; payload = request } in
      let checks : resolve (topic_of request) (partition_of request) t.node t.conn ≡ x =
        rw (r.topic_read, r.partition_read) e in
      ap answer_bytes (
        handle-fetch t request
        ∙ handle_fetch-resolve f t.node t.conn (omega (arith, r.long_enough))
        ∙ ap (fetch_resolved f t.conn) checks)

  served_refused :
      (refused : Reply)
      → resolve o.topic o.partition t.node t.conn ≡ inl refused
      → served t request ≡ frame_in refused.bytes
  unfolding fetch_resolved
  served_refused refused e = served-resolve (inl refused) e

  served_store :
      (n : Node) (p : PartitionStore) (found : Outcome (List StoredMessage))
      → resolve o.topic o.partition t.node t.conn ≡ inr (n, p)
      → (fetch offset 1 p).0 ≡ found
      → served t request ≡ elim found [
        | threw ↦ none
        | stuck ↦ none
        | ok messages ↦
            frame_in (if length messages == 0 then encode_ack 0 else response_frames messages)
      ]
  unfolding fetch_resolved
  served_store n p threw e here =
      served-resolve (inr (n, p)) e ∙ rw (fetch_resolved, r.offset_read, r.one_message, here) refl
  served_store n p stuck e here =
      served-resolve (inr (n, p)) e ∙ rw (fetch_resolved, r.offset_read, r.one_message, here) refl
  served_store n p (ok messages) e here =
      served-resolve (inr (n, p)) e ∙ rw (fetch_resolved, r.offset_read, r.one_message, here) refl

⊎-cases {ℓ κ} :
    {A : Type ℓ} {B : Type κ} (x : A ⊎ B) → ((a : A) × (x ≡ inl a)) ⊎ ((b : B) × (x ≡ inr b))
⊎-cases (inl a) = inl (a, refl)
⊎-cases (inr b) = inr (b, refl)

-- A frame with one opcode does not have another.
frame_in-other :
    (bytes : List ℕ) (g f : Frame)
    → read_frame bytes ≡ some (g, [])
    → frame_in bytes ≡ some f
    → g.op ≢ op_fetch_response
    → f.op ≡ op_fetch_response
    → ⊥
frame_in-other bytes g f reads came other op =
    let in_it : frame_in bytes ≡ some g = rw (frame_in, reads) refl in
    let same : g ≡ f = ground (arith, in_it, came) in other (ap (λ (h : Frame). h.op) same ∙ op)

All-at :
    (log : List StoredMessage) (i : ℕ) (m : StoredMessage)
    → All IsShort log
    → get_elem? log i ≡ some m
    → IsShort m
All-at [] i m h e = absurd (ground (arith, e))
All-at (x ∷ log) zero m h e = let same : x ≡ m = ground (arith, e) in subst IsShort same h.0
All-at (x ∷ log) (suc i) m h e = All-at log i m h.1 e

abbrev payload_in : Option Frame → List ℕ
payload_in none = []
payload_in (some f) = f.payload

-- Whatever a broker whose partition keeps to the log has become, a message with which its handler answers
-- the consumer's fetch is the record of the log at the offset that was asked for.
pub served-Honest :
    (o : Options) (log : List StoredMessage) (t : Moment)
    → length o.topic ≤ 255
    → o.partition < 2 ^ 16
    → All IsShort log
    → Keeps o log t
    → Honest o log (served t)
served-Honest o log t topic partition short keeps offset f fits came op =
    let r = fetch_request-ReadsFetch o.topic o.partition offset topic partition fits in
    elim (⊎-cases (resolve o.topic o.partition t.node t.conn)) [
      | inl (refused, e) ↦
          let (code, text, n, is) = resolve_refused o.topic o.partition t.node t.conn refused e in
          let bytes : refused.bytes ≡ encode_error code text = ap (λ (q : Reply). q.bytes) is in
          let (g, reads, err) = read-encode_error code text in
          absurd (
            frame_in-other refused.bytes g f (ap read_frame bytes ∙ reads)
              (sym (served_refused o t offset r refused e) ∙ came)
              (λ same. absurd (ground (arith, err, same))) op)
      | inr ((n, p), e) ↦ elim (Outcome-cases (fetch offset 1 p).0) [
        | inl throws ↦ absurd (ground (arith, served_store o t offset r n p threw e throws, came))
        | inr (inl sticks) ↦
            absurd (ground (arith, served_store o t offset r n p stuck e sticks, came))
        | inr (inr (messages, found)) ↦
            let answer = served_store o t offset r n p (ok messages) e found in
            elim (keeps n p e offset messages found) [
              | inl empty ↦
                  let (g, reads, ack) = read-encode_ack 0 in
                  absurd (
                    frame_in-other (encode_ack 0) g f reads (sym (rw empty at answer) ∙ came)
                      (λ same. absurd (ground (arith, ack, same))) op)
              | inr (m, one, there) ↦
                  let one_frame : frame_in (response_frames (m ∷ []))
                      ≡ some (record { op = op_fetch_response; payload = response_payload m }) =
                    rw (frame_in, read-response_frames m (All-at log offset m short there)) refl in
                  let same : some (record { op = op_fetch_response; payload = response_payload m })
                      ≡ some f =
                    sym one_frame ∙ sym (rw one at answer) ∙ came in
                  let body : response_payload m ≡ f.payload = ap payload_in same in
                  (m, there, sym body)
            ]
      ]
    ]

-- A connection to brokers: how the subscription is answered, and the broker at each fetch.
abbrev pub Visit : Type 0
Visit = Option (Exchange × List Moment)

abbrev pub session_of : Visit → Option Session
session_of none = none
session_of (some (subscribed, ts)) =
    some (record { subscribed = subscribed; fetched = map served ts })

abbrev pub KeepsAll : Options → List StoredMessage → Visit → Type 0
KeepsAll o log none = Unit {0}
KeepsAll o log (some (subscribed, ts)) = All (Keeps o log) ts

module _ (o : Options) (log : List StoredMessage) (l : IsLog log) (topic : length o.topic ≤ 255)
    (partition : o.partition < 2 ^ 16) (short : All IsShort log) where
  All-served : (ts : List Moment) → All (Keeps o log) ts → All (Honest o log) (map served ts)
  All-served [] k = tt
  All-served (t ∷ ts) k = (served-Honest o log t topic partition short k.0, All-served ts k.1)

  sessions-Honest :
      (start : ℕ) (vs : List Visit)
      → All (KeepsAll o log) vs
      → All (HonestSession o log l start) (map session_of vs)
  sessions-Honest start [] k = tt
  sessions-Honest start (none ∷ vs) k = (tt, sessions-Honest start vs k.1)
  sessions-Honest start (some (subscribed, ts) ∷ vs) k =
      (All-served ts k.0, sessions-Honest start vs k.1)

  -- A consumer on brokers that may change between any two requests, as long as the partition of each that
  -- leads it keeps to one log: what it prints is a stretch of that log from its start offset on, in order
  -- and without a gap, at most its count of records, and exactly so many where it ends by itself.
  pub consume-served :
      (start : ℕ) (vs : List Visit)
      → start < latest
      → All (KeepsAll o log) vs
      → let (c, left) = consume o (map session_of vs) (start_at start) in
        (c.printed ≡ take (length c.printed) (drop start log))
        × Within o.count (length c.printed)
        × (left ≡ done → Reached o.count (length c.printed))
  consume-served start vs inside k =
      consume_prints o log l start (map session_of vs) inside (sessions-Honest start vs k)
