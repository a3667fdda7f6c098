-- ===== src/Cli/Consumer.antt =====
-- The consumer of cli/consumer_cli.cpp: subscribing, the fetch loop, and reconnecting. The brokers and the
-- network are arguments: an exchange gives the frame that answers a request, or `none` where it is not
-- written whole or no whole frame comes back.
pub mod Turns
pub mod Printed
pub mod Answers
pub mod Served
use fell.Base.{
  ℕ, ◌+◌, ◌%◌, ◌^◌, Bool, true, false, not, ◌&&◌, List, [], ◌∷◌, ◌++◌, Option, none, some, length,
  drop, ltb, leb, ◌==◌, if◌then◌else◌,
}
use fell.Wire.{byte_at, read_be32, read_be64}
use fell.Frame.{Frame}
use fell.Storage.{StoredMessage}
use fell.Broker.Protocol.{op_ack, op_err, op_fetch_response, not_leader, err_byte}
use fell.Broker.Consume.{latest}
use fell.Cli.Requests.{subscribe_request, fetch_request}

abbrev pub Exchange : Type 0
Exchange = List ℕ → Option Frame

-- One connection to the leader: the answer to the subscription, and the answers to the fetches.
pub record Session : Type 0 where
  pub subscribed : Exchange
  pub fetched : List Exchange

-- The options; `count` is `none` where it is negative.
pub record Options : Type 0 where
  pub topic : List ℕ
  pub partition : ℕ
  pub count : Option ℕ

-- The variables of `main`, and the lines printed: each message with its timestamp and offset.
pub record Consumer : Type 0 where
  pub offset : ℕ
  pub read_count : ℕ
  pub printed : List StoredMessage

-- How a loop was left: the answers given ran out, `break` or the end of the loop, or `return 1`.
pub data Left : Type 0 where
  waiting done failed : Left

-- `count < 0 || read_count < count`
abbrev pub goes_on : Option ℕ → ℕ → Bool
goes_on none read_count = true
goes_on (some count) read_count = ltb read_count count

-- What the body of the fetch loop does next.
pub data Turn : Type 0 where
  again leave fail : Turn

abbrev pub print_message : List ℕ → Consumer → Consumer
print_message payload c = record {
  offset = (read_be64 payload + 1) % 2 ^ 64;
  read_count = c.read_count + 1;
  printed =
      c.printed
      ++ (record {
        offset = read_be64 payload;
        timestamp_ms = read_be64 (drop 8 payload);
        payload = drop 20 payload;
      }
          ∷ []);
}

-- A frame that answers a fetch. The message of an error frame is read without a look at its length.
unfoldable pub take_answer : Frame → Consumer → Consumer × Turn
unfolding read_be64 read_be32
take_answer f c =
    if f.op == op_err
    then (c, if byte_at f.payload 0 == err_byte not_leader then leave else fail)
    else if f.op == op_ack
    then (c, again)
    else if f.op == op_fetch_response
    then (if ltb (length f.payload) 20
        then (c, leave)
        else if length f.payload == 20 + read_be32 (drop 16 f.payload)
        then (print_message f.payload c, again)
        else (c, leave))
    else (c, leave)

-- One round of the fetch loop.
unfoldable pub fetch_round : Options → Exchange → Consumer → Consumer × Turn
unfolding take_answer fetch_request
fetch_round o e c = elim (e (fetch_request o.topic o.partition c.offset)) [
  | none ↦ (c, leave)
  | some f ↦ take_answer f c
]

-- `while (fetching && (count < 0 || read_count < count))`
unfoldable pub fetch_loop : Options → List Exchange → Consumer → Consumer × Left
unfolding fetch_round
fetch_loop o [] c = (c, if goes_on o.count c.read_count then waiting else done)
fetch_loop o (e ∷ es) c =
    let (next, turn) = fetch_round o e c in
    let rest = fetch_loop o es next in
    if goes_on o.count c.read_count
    then elim turn [ again ↦ rest | leave ↦ (next, done) | fail ↦ (next, failed) ]
    else (c, done)

-- What the answer to the subscription leads to.
unfoldable pub take_subscription : Frame → Consumer → Consumer × Turn
unfolding read_be64
take_subscription f c =
    if f.op == op_err
    then (c, if byte_at f.payload 0 == err_byte not_leader then leave else fail)
    else if f.op == op_ack && leb 8 (length f.payload) && c.offset == latest
    then (record c { offset = read_be64 f.payload }, again)
    else (c, again)

unfoldable pub subscribe : Options → Exchange → Consumer → Consumer × Turn
unfolding take_subscription subscribe_request
subscribe o e c = elim (e (subscribe_request o.topic o.partition c.offset)) [
  | none ↦ (c, leave)
  | some f ↦ take_subscription f c
]

-- The body of the outer loop on a connection.
unfoldable pub run_session : Options → Session → Consumer → Consumer × Left
unfolding subscribe fetch_loop
run_session o s c =
    let (next, turn) = subscribe o s.subscribed c in
    elim turn [ again ↦ fetch_loop o s.fetched next | leave ↦ (next, done) | fail ↦ (next, failed) ]

-- The outer loop: `none` where no leader was found or the connection was refused.
unfoldable pub consume : Options → List (Option Session) → Consumer → Consumer × Left
unfolding run_session
consume o [] c = (c, if goes_on o.count c.read_count then waiting else done)
consume o (none ∷ ss) c =
    let rest = consume o ss c in if goes_on o.count c.read_count then rest else (c, done)
consume o (some s ∷ ss) c =
    let (next, left) = run_session o s c in
    let rest = consume o ss next in
    if goes_on o.count c.read_count
    then elim left [ waiting ↦ (next, waiting) | done ↦ rest | failed ↦ (next, failed) ]
    else (c, done)

-- The variables at the start of the loop.
abbrev pub start_at : ℕ → Consumer
start_at offset = record { offset = offset; read_count = 0; printed = [] }
