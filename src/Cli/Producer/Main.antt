-- ===== src/Cli/Producer/Main.antt =====
-- `main` of cli/producer_cli.cpp behind its arguments: the topic is created where that is asked for, and the
-- messages are sent one after the other.

use fell.Base.{
  ℕ, zero, suc, Bool, true, false, not, ◌&&◌, ◌||◌, List, [], ◌∷◌, ◌++◌, Option, none, some, take,
  drop, ltb, ◌==◌, same_text, if◌then◌else◌,
}
use fell.Wire.{byte_at}
use fell.Frame.{Frame}
use fell.Broker.Protocol.{codes, op_err}
use fell.Replication.Meta.{digits}
use fell.Cli.Args.{ProducerArgs, count_of, legal_topic}
use fell.Cli.Requests.{create_topic_request}
use fell.Cli.Producer.{
  Attempt, Message, Sent, acked, gave_up, stopped, undefined, pending, send_message,
}

-- `std::to_string` of an int that is not negative: at most ten digits.
abbrev pub index_text : ℕ → List ℕ
index_text i = digits 10 i []

-- The message with its number, where there is more than one.
abbrev pub payload_of : ProducerArgs → ℕ → ℕ → List ℕ
payload_of o count i = if ltb 1 count then o.message ++ (codes " #" ++ index_text i) else o.message

abbrev pub message_of : ProducerArgs → ℕ → ℕ → Message
message_of o count i = record {
  topic = o.topic;
  key = o.key;
  payload = payload_of o count i;
  retry_on_busy = o.retry_on_busy;
}

-- The creation of the topic meets a broker that refuses the connection, a write that fails, or what is read
-- of the answer to the request.
pub data Creation : Type 0 where
  refuses unwritten : Creation
  answers : (List ℕ → Option Frame) → Creation

-- `std::string(err->msg, err->msg_len)`
abbrev pub error_text : List ℕ → List ℕ
error_text payload = take (byte_at payload 1) (drop 2 payload)

-- Whether the tool goes on after the answer. One that cannot be read is taken as a success.
unfoldable pub take_created : Option Frame → Bool
take_created none = true
take_created (some f) =
    not (f.op == op_err) || same_text (error_text f.payload) (codes "Topic already exists")

unfoldable pub create_topic : ProducerArgs → Creation → Bool
unfolding take_created create_topic_request
create_topic o refuses = false
create_topic o unwritten = false
create_topic o (answers answer) = take_created (answer (create_topic_request o.topic o.partitions))

-- How `main` ends: `return 0`, `return 1`, with the overrun of a key, or the attempts given ran out.
pub data Exit : Type 0 where
  succeeded failed overran stalled : Exit

-- What follows on the sending of a message.
abbrev pub after_sent : Sent → List ℕ × Exit → List ℕ × Exit
after_sent (acked offset) later = (offset ∷ later.0, later.1)
after_sent gave_up later = ([], failed)
after_sent stopped later = ([], failed)
after_sent undefined later = ([], overran)
after_sent pending later = ([], stalled)

-- `for (int i = 0; i < count; ++i)`, for the messages that are left: the offsets printed, and the end.
unfoldable pub publish_all : ProducerArgs → ℕ → (ℕ → List Attempt) → ℕ → ℕ → ℕ → List ℕ × Exit
unfolding send_message
publish_all o count attempts zero i rr = ([], succeeded)
publish_all o count attempts (suc left) i rr =
    let (sent, rr', requests) = send_message (message_of o count i) 0 rr (attempts i) in
    let later = publish_all o count attempts left (suc i) rr' in after_sent sent later

-- The number of messages. Where the option is negative there is none.
abbrev pub messages : ProducerArgs → ℕ
messages o = elim (count_of o.count) [ none ↦ 0 | some n ↦ n ]

-- `main`: the attempts are given for each message.
unfoldable pub produce : ProducerArgs → Creation → (ℕ → List Attempt) → List ℕ × Exit
unfolding create_topic publish_all
produce o creation attempts =
    if not (legal_topic o.topic)
    then ([], failed)
    else if o.create && not (create_topic o creation)
    then ([], failed)
    else publish_all o (messages o) attempts (messages o) 0 0
