-- ===== src/Cli/Consumer/Answers.antt =====
-- What a broker answers to a consumer, and how the consumer reads its frames.
use fell.Base.{
  ℕ, zero, suc, ◌-◌, ◌^◌, ◌<◌, ◌≡◌, refl, sym, ap, ◌∙◌, ◌⊎◌, inl, inr, true, List, [], ◌∷◌, ◌++◌,
  Option, none, some, length, get_elem?, take, drop, min, leb, replicate, subst, length-append,
  length-take, length-replicate, append-nil, arith,
}
use fell.Frame.{Frame, encode_frame}
use fell.Storage.{StoredMessage}
use fell.Storage.Reader.{Outcome, ok, threw, stuck}
use fell.Storage.Store.{PartitionStore, fetch, find_segment_for}
use fell.Storage.Store.Inv.{Holds}
use fell.Storage.Store.Fetch.{IsCacheOf, fetch-Holds}
use fell.Wire.{length-write_be64, write_be64}
use fell.Broker.Protocol.{ErrCode, err_byte, encode_ack, encode_error, op_ack, op_err, op_fetch}
use fell.Broker.Topics.{Disk}
use fell.Broker.Requests.{ConnectionState, Node, Reply}
use fell.Broker.Consume.{resolve}
use fell.Broker.Handler.{handle}
use fell.Cli.Frames.{read_frame, read_frame-encode_frame}
use fell.Cli.Consumer.{Exchange, Options}

-- A broker when a request reaches it.
pub record Moment : Type 0 where
  pub now : ℕ
  pub disk : Disk
  pub node : Node
  pub conn : ConnectionState

abbrev pub frame_in : List ℕ → Option Frame
frame_in bytes = elim (read_frame bytes) [ none ↦ none | some (f, left) ↦ some f ]

abbrev pub answer_bytes : Outcome Reply → Option Frame
answer_bytes (ok r) = frame_in r.bytes
answer_bytes threw = none
answer_bytes stuck = none

-- The frame that the consumer reads from what the handler answers to its fetch.
abbrev pub served : Moment → Exchange
served t payload =
    answer_bytes (handle t.now t.disk (record { op = op_fetch; payload = payload }) t.node t.conn)

-- A store whose fetches for one message give the record of the log at that offset, or none.
abbrev pub AnswersFrom : List StoredMessage → PartitionStore → Type 0
AnswersFrom log p =
    (offset : ℕ) (messages : List StoredMessage)
    → (fetch offset 1 p).0 ≡ ok messages
    → (messages ≡ [])
      ⊎ ((m : StoredMessage) × (messages ≡ m ∷ []) × (get_elem? log offset ≡ some m))

-- The partition of the consumer, if this broker has and leads it, answers from the log.
abbrev pub Keeps : Options → List StoredMessage → Moment → Type 0
Keeps o log t =
    (n : Node) (p : PartitionStore)
    → resolve o.topic o.partition t.node t.conn ≡ inr (n, p)
    → AnswersFrom log p

head-take :
    (recs later : List StoredMessage) (offset : ℕ)
    → (take 1 (drop offset recs) ≡ [])
      ⊎ ((m : StoredMessage) × (take 1 (drop offset recs) ≡ m ∷ [])
          × (get_elem? (recs ++ later) offset ≡ some m))
head-take [] later zero = inl refl
head-take [] later (suc offset) = inl refl
head-take (m ∷ recs) later zero = inr (m, refl, refl)
head-take (m ∷ recs) later (suc offset) = head-take recs later offset

-- A store with one segment that starts at 0, whatever of the index a fetch has cached: it answers from any
-- log that its records begin.
pub one_segment-AnswersFrom :
    (p : PartitionStore) (recs later : List StoredMessage)
    → p.sealed_segments ≡ []
    → p.writer.base_offset ≡ 0
    → p.active.base_offset ≡ 0
    → Holds p.active recs
    → IsCacheOf p.active recs p
    → length p.active.log < 2 ^ 64
    → AnswersFrom (recs ++ later) p
unfolding find_segment_for
one_segment-AnswersFrom p recs later sealed base start h cache small offset messages e =
    let inside : leb p.writer.base_offset offset ≡ true = ground (arith, base) in
    let found : find_segment_for offset p ≡ some p.active =
      rw (find_segment_for, sealed, inside) refl in
    let all = fetch-Holds offset 1 p p.active recs found h cache small in
    let from : take 1 (drop (offset - p.active.base_offset) recs) ≡ take 1 (drop offset recs) =
      ap (λ k. take 1 (drop k recs)) {x = offset - p.active.base_offset} {y = offset}
        (omega (arith, start)) in
    let same : messages ≡ take 1 (drop offset recs) =
      let both : ok messages ≡ ok (take 1 (drop offset recs)) = sym e ∙ all ∙ ap ok from in cc in
    subst
      (λ ms.
        (ms ≡ [])
        ⊎ ((m : StoredMessage) × (ms ≡ m ∷ []) × (get_elem? (recs ++ later) offset ≡ some m)))
      (sym same) (head-take recs later offset)

-- What the consumer reads of an acknowledgement and of an error.
pub read-encode_ack :
    (value : ℕ) → (f : Frame) × (read_frame (encode_ack value) ≡ some (f, [])) × (f.op ≡ op_ack)
unfolding encode_ack
read-encode_ack value = (
  record { op = op_ack; payload = write_be64 value },
  ap read_frame (sym (append-nil (encode_frame op_ack (write_be64 value))))
      ∙ read_frame-encode_frame op_ack (write_be64 value) [] (omega arith)
          (omega (arith, length-write_be64 value)),
  refl,
)

pub read-encode_error :
    (code : ErrCode) (text : List ℕ)
    → (f : Frame) × (read_frame (encode_error code text) ≡ some (f, [])) × (f.op ≡ op_err)
unfolding encode_error
read-encode_error code text =
    let msg = take 255 text ++ replicate (255 - length text) 0 in
    let payload = err_byte code ∷ min (length text) 255 ∷ msg in
    (
      record { op = op_err; payload = payload },
      ap read_frame (sym (append-nil (encode_frame op_err payload)))
          ∙ read_frame-encode_frame op_err payload [] (omega arith) (
              omega (
                arith,
                length-append (take 255 text) (replicate (255 - length text) 0),
                length-take 255 text,
                length-replicate {A = ℕ} (255 - length text) 0,
              )),
      refl,
    )
