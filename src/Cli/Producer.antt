-- ===== src/Cli/Producer.antt =====
-- The producer of cli/producer_cli.cpp: the partition of a message, the request and its answers, and the
-- attempts. The brokers and the network are arguments.
pub mod Routing
pub mod Retries
pub mod Acked
pub mod Main
pub mod Finished
pub mod Numbered
use fell.Base.{
  ℕ, suc, ◌+◌, ◌%◌, ◌^◌, Bool, true, false, ◌&&◌, List, [], ◌∷◌, Option, none, some, length, ltb,
  ◌==◌, if◌then◌else◌,
}
use fell.Wire.{byte_at, read_be64}
use fell.Frame.{Frame}
use fell.Broker.Protocol.{op_ack, op_err, not_leader, busy, err_byte}
use fell.Broker.Publish.{fnv1a, fnv_basis}
use fell.Cli.{Metadata, BrokerInfo, leader_in, broker_in}
use fell.Cli.Requests.{publish_request}

-- `part_leaders.size()`: a partition that is assigned again counts once.
abbrev pub map_size : List (ℕ × ℕ) → ℕ
map_size [] = 0
map_size ((i, leader) ∷ leaders) = elim (leader_in i leaders) [
  | none ↦ suc (map_size leaders)
  | some later ↦ map_size leaders
]

-- The partition of a message, and the counter after it.
unfoldable pub choose_partition : List ℕ → ℕ → ℕ → ℕ × ℕ
unfolding fnv1a
choose_partition key rr_counter total =
    if ltb 0 (length key)
    then (fnv1a fnv_basis key % total % 2 ^ 16, rr_counter)
    else (rr_counter % total, (rr_counter + 1) % 2 ^ 16)

-- How the loop over the answers to one request ended: the offset of the acknowledgement, the leader has
-- moved, the connection broke, an error that ends the program, or the answers given ran out.
pub data Answered : Type 0 where
  published : ℕ → Answered
  moved broke refused waits : Answered

-- What an answer leads to: the end of the loop, or the request is sent again.
unfoldable pub take_response : Bool → Frame → Option Answered
unfolding read_be64
take_response retry_on_busy f =
    if f.op == op_err
    then (if byte_at f.payload 0 == err_byte not_leader
        then some moved
        else if (byte_at f.payload 0 == err_byte busy) && retry_on_busy
        then none
        else some refused)
    else if f.op == op_ack
    then some (published (read_be64 f.payload))
    else none

-- `while (!request_done)`: each answer follows on a request that is sent; `none` where the write or the
-- read fails. The result comes with the count of requests sent.
unfoldable pub request_loop : Bool → List (Option Frame) → Answered × ℕ
unfolding take_response
request_loop retry_on_busy [] = (waits, 0)
request_loop retry_on_busy (none ∷ answers) = (broke, 1)
request_loop retry_on_busy (some f ∷ answers) =
    let rest = request_loop retry_on_busy answers in
    elim (take_response retry_on_busy f) [ some end ↦ (end, 1) | none ↦ (rest.0, suc rest.1) ]

-- One round of the loop over the attempts: the answer to the metadata request, whether the leader takes
-- the connection, and the answers to the requests.
pub record Attempt : Type 0 where
  pub metadata : Option Metadata
  pub connects : Bool
  pub answers : List (Option Frame)

-- The options, and the message.
pub record Message : Type 0 where
  pub topic : List ℕ
  pub key : List ℕ
  pub payload : List ℕ
  pub retry_on_busy : Bool

-- How a round ends: another retry is counted, or the request was answered. `overrun` is a key that does not
-- fit the array it is copied into.
pub data Round : Type 0 where
  retried overrun : Round
  answered : Answered → Round

-- The round, with the counter for messages without a key and the count of requests sent.
unfoldable pub attempt_round : Message → ℕ → Attempt → Round × ℕ × ℕ
unfolding choose_partition request_loop publish_request
attempt_round m rr_counter a = elim a.metadata [
  | none ↦ (retried, rr_counter, 0)
  | some found ↦
      let total = map_size found.partition_leaders in
      let (partition, rr) = choose_partition m.key rr_counter total in
      if total == 0
      then (retried, rr_counter, 0)
      else elim (leader_in partition found.partition_leaders) [
        | none ↦ (retried, rr, 0)
        | some leader ↦ elim (broker_in leader found.brokers) [
          | none ↦ (retried, rr, 0)
          | some broker ↦
              if a.connects
              then elim (publish_request m.topic partition m.key m.payload) [
                | none ↦ (overrun, rr, 0)
                | some bytes ↦
                    let (end, sent) = request_loop m.retry_on_busy a.answers in
                    (answered end, rr, sent)
              ]
              else (retried, rr, 0)
        ]
      ]
]

-- How the sending of one message ends: acknowledged with an offset, given up after three retries, an error
-- that ends the program, an overrun, or the attempts given ran out.
pub data Sent : Type 0 where
  acked : ℕ → Sent
  gave_up stopped undefined pending : Sent

-- What follows on a round: with a retry counted, without, or the end.
abbrev pub after_round : Round → Sent × ℕ × ℕ → Sent × ℕ × ℕ → ℕ → ℕ → Sent × ℕ × ℕ
after_round retried counted again rr sent = counted
after_round overrun counted again rr sent = (undefined, rr, sent)
after_round (answered (published offset)) counted again rr sent = (acked offset, rr, sent)
after_round (answered refused) counted again rr sent = (stopped, rr, sent)
after_round (answered waits) counted again rr sent = (pending, rr, sent)
after_round (answered moved) counted again rr sent = (again.0, again.1, sent + again.2)
after_round (answered broke) counted again rr sent = (again.0, again.1, sent + again.2)

-- `while (!success && md_retries < 3)`: the result, the counter, and the requests sent.
unfoldable pub send_message : Message → ℕ → ℕ → List Attempt → Sent × ℕ × ℕ
unfolding attempt_round
send_message m md_retries rr_counter [] =
    (if ltb md_retries 3 then pending else gave_up, rr_counter, 0)
send_message m md_retries rr_counter (a ∷ attempts) =
    let (end, rr, sent) = attempt_round m rr_counter a in
    let counted = send_message m (md_retries + 1) rr attempts in
    let again = send_message m md_retries rr attempts in
    let next = after_round end counted again rr sent in
    if ltb md_retries 3 then next else (gave_up, rr_counter, 0)
