-- ===== src/Cli/Consumer/Turns.antt =====
-- What the consumer does with an answer, and what it keeps while it goes on.
use fell.Base.{
  ℕ, zero, suc, ◌+◌, ◌%◌, ◌^◌, ◌≤◌, ◌<◌, ◌≡◌, ◌≢◌, refl, sym, ap, ◌∙◌, ◌⊎◌, inl, inr, true, false,
  List, [], ◌∷◌, ◌++◌, Option, none, some, length, All, get_elem?, take, drop, ltb, ◌==◌, subst,
  arith,
}
use fell.Wire.{
  read_be32, read_be64, write_be32, write_be64, read_be32-write_be32, read_be64-write_be64,
}
use fell.Frame.{Frame}
use fell.Storage.{StoredMessage, IsStorable}
use fell.Storage.Index.Lookup.{Consecutive}
use fell.Broker.Protocol.{op_fetch_response}
use fell.Broker.Consume.{latest}
use fell.Cli.Requests.{fetch_request}
use fell.Cli.Consumer.{
  Exchange, Options, Consumer, Left, waiting, done, failed, Turn, again, leave, fail, goes_on,
  print_message, take_answer,
}

-- The payload of the frame that carries a message.
abbrev pub response_payload : StoredMessage → List ℕ
response_payload m =
    write_be64 m.offset
    ++ (write_be64 m.timestamp_ms ++ (write_be32 (length m.payload) ++ m.payload))

-- A log whose records have the offsets from 0 on.
pub record IsLog (log : List StoredMessage) : Type 0 where
  pub consecutive : Consecutive 0 log
  pub storable : All IsStorable log
  pub small : length log < latest

-- An exchange whose messages are those of the log: a message that answers a fetch is the record at the
-- offset that was asked for. Any other answer, and none at all, may come at any time.
abbrev pub Honest : Options → List StoredMessage → Exchange → Type 0
Honest o log e =
    (offset : ℕ) (f : Frame)
    → offset < 2 ^ 64
    → e (fetch_request o.topic o.partition offset) ≡ some f
    → f.op ≡ op_fetch_response
    → (m : StoredMessage) × (get_elem? log offset ≡ some m) × (f.payload ≡ response_payload m)

-- The consumer has printed a stretch of the log and stands behind it.
pub record Follows (log : List StoredMessage) (start : ℕ) (c : Consumer) : Type 0 where
  pub at : c.offset ≡ start + c.read_count
  pub in_front : c.offset < latest
  pub printed : c.printed ≡ take c.read_count (drop start log)
  pub counted : length c.printed ≡ c.read_count

pub get_elem?-drop :
    (n i : ℕ) (xs : List StoredMessage) → get_elem? (drop n xs) i ≡ get_elem? xs (n + i)
get_elem?-drop zero i xs = ap (get_elem? xs) (omega arith)
get_elem?-drop (suc n) i [] = refl
get_elem?-drop (suc n) i (x ∷ xs) =
    get_elem?-drop n i xs ∙ ap (get_elem? (x ∷ xs)) {x = suc (n + i)} {y = suc n + i} (omega arith)

pub take-suc :
    (n : ℕ) (xs : List StoredMessage) (m : StoredMessage)
    → get_elem? xs n ≡ some m
    → take (suc n) xs ≡ take n xs ++ (m ∷ [])
take-suc n [] m e = absurd (ground (arith, e))
take-suc zero (x ∷ xs) m e = ground (arith, e)
take-suc (suc n) (x ∷ xs) m e = ap (◌∷◌ x) (take-suc n xs m e)

-- A record of a log: its offset is its place, and its fields fit.
pub record-at :
    (n i : ℕ) (log : List StoredMessage) (m : StoredMessage)
    → Consecutive n log
    → All IsStorable log
    → get_elem? log i ≡ some m
    → (m.offset ≡ n + i) × IsStorable m × (i < length log)
record-at n i [] m c s e = absurd (ground (arith, e))
record-at n zero (x ∷ log) m c s e =
    let same : x ≡ m = ground (arith, e) in
    (
      ap (λ (r : StoredMessage). r.offset) (sym same) ∙ c.0 ∙ omega arith,
      subst IsStorable same s.0,
      omega arith,
    )
record-at n (suc i) (x ∷ log) m c s e =
    let (o, t, l) = record-at (suc n) i log m c.1 s.1 e in (omega (arith, o), t, omega (arith, l))

-- Where the fields of a message stand.
pub response-cut :
    (m : StoredMessage)
    → (drop 8 (response_payload m)
        ≡ write_be64 m.timestamp_ms ++ (write_be32 (length m.payload) ++ m.payload))
      × (drop 16 (response_payload m) ≡ write_be32 (length m.payload) ++ m.payload)
      × (drop 20 (response_payload m) ≡ m.payload)
      × (length (response_payload m) ≡ 20 + length m.payload)
unfolding write_be32 write_be64
response-cut m = (refl, refl, refl, omega arith)

module _ (m : StoredMessage) (c : Consumer) (s : IsStorable m) where
  -- The consumer after it has printed a message.
  abbrev pub printed_also : Consumer
  printed_also = record {
    offset = (m.offset + 1) % 2 ^ 64;
    read_count = c.read_count + 1;
    printed = c.printed ++ (m ∷ []);
  }

  print_message-response : print_message (response_payload m) c ≡ printed_also
  print_message-response =
      let (b, _, p, _) = response-cut m in
      let o : read_be64 (response_payload m) ≡ m.offset =
        read_be64-write_be64 m.offset _ s.offset_u64 in
      let t : read_be64 (drop 8 (response_payload m)) ≡ m.timestamp_ms =
        ap read_be64 b ∙ read_be64-write_be64 m.timestamp_ms _ s.timestamp_u64 in
      rw (o, t, p) refl

  pub take_answer-response :
      (f : Frame)
      → f.op ≡ op_fetch_response
      → f.payload ≡ response_payload m
      → take_answer f c ≡ (printed_also, again)
  unfolding take_answer
  take_answer-response f op body =
      let (_, b, _, n) = response-cut m in
      let size : read_be32 (drop 16 (response_payload m)) ≡ length m.payload =
        ap read_be32 b ∙ read_be32-write_be32 (length m.payload) m.payload s.size_u32 in
      let enough : ltb (length (response_payload m)) 20 ≡ false = ground (arith, n) in
      let exact : (length (response_payload m) == 20 + read_be32 (drop 16 (response_payload m)))
          ≡ true =
        ground (arith, n, size) in
      rw (take_answer, op, body, enough, exact) (ap (λ c. (c, again)) print_message-response)

pub Left-cases : (t : Left) → (t ≡ waiting) ⊎ ((t ≡ done) ⊎ (t ≡ failed))
Left-cases waiting = inl refl
Left-cases done = inr (inl refl)
Left-cases failed = inr (inr refl)

pub Turn-cases : (t : Turn) → (t ≡ again) ⊎ ((t ≡ leave) ⊎ (t ≡ fail))
Turn-cases again = inl refl
Turn-cases leave = inr (inl refl)
Turn-cases fail = inr (inr refl)

-- Of any answer, only a message changes the consumer.
pub take_answer-other :
    (f : Frame) (c : Consumer) → f.op ≢ op_fetch_response → (take_answer f c).0 ≡ c
unfolding take_answer
take_answer-other f c h = ground arith

-- A count is not exceeded; it is reached where the consumer ends.
abbrev pub Within : Option ℕ → ℕ → Type 0
Within none n = Unit {0}
Within (some count) n = n ≤ count

abbrev pub Reached : Option ℕ → ℕ → Type 0
Reached none n = ⊥
Reached (some count) n = n ≡ count

pub Within-start : (count : Option ℕ) → Within count 0
Within-start none = tt
Within-start (some count) = omega arith

pub Within-more :
    (count : Option ℕ) (n : ℕ) → Within count n → goes_on count n ≡ true → Within count (n + 1)
Within-more none n w h = tt
Within-more (some count) n w h = ground (arith, h)

pub Within-end :
    (count : Option ℕ) (n : ℕ) → Within count n → goes_on count n ≡ false → Reached count n
Within-end none n w h = cc
Within-end (some count) n w h = ground (arith, h, w)
