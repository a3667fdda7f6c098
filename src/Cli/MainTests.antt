-- ===== src/Cli/MainTests.antt =====
-- Command lines of the tools, whole runs of the producer, and their theorems at concrete inputs.
use fell.Base.{
  none, Option, min, if◌then◌else◌, ◌==◌, ℕ, ◌≡◌, ◌^◌, refl, ◌++◌, true, List, [], ◌∷◌, some,
  length, arith,
}
use fell.Wire.{write_be64}
use fell.Broker.Protocol.{codes, op_ack, op_err}
use fell.Broker.Config.Peers.{IsDecimal}
use fell.Cli.{Metadata}
use fell.Cli.Args.{
  consumer_args, consumer_defaults, ProducerArgs, producer_args, producer_defaults, config_path,
  legal_topic,
}
use fell.Cli.Args.Given.{ConsumerOption, host, from, from_latest, count, consumer_args-words}
use fell.Cli.Args.Given as Given
use fell.Cli.Args.Switched as Switched
use fell.Cli.Args.Switched.{ProducerOption, producer_args-words}
use fell.Cli.Producer.{Attempt}
use fell.Cli.Producer.Main.{Creation, answers, messages, produce, succeeded}
use fell.Cli.Producer.Finished.{AllAcknowledged, NotRefused, produce-succeeded}
use fell.Cli.Frames.{read_exact}
use fell.Cli.Sockets.{
  Receives, receive_loop, whole, behind, receive_loop-read_exact, Sends, send_loop, cut_off,
  AllOrPart, send_loop-AllOrPart,
}

digits-IsDecimal : IsDecimal (2 ^ 16) (codes "42")
digits-IsDecimal = record {
  digit = ((omega arith, omega arith), ((omega arith, omega arith), tt));
  some_digit = omega arith;
  below = omega arith;
}

-- A host whose name looks like an option.
abbrev given : List ConsumerOption
given = host (codes "--port") ∷ Given.port (codes "42") ∷ from_latest ∷ []

consumer_args-words_example :
    (consumer_args (Given.words given) consumer_defaults
      ≡ some (Given.set_all given consumer_defaults))
    × (consumer_args (Given.words given ++ (codes "--topic" ∷ [])) consumer_defaults
        ≡ some (Given.set_all given consumer_defaults))
consumer_args-words_example =
    consumer_args-words given consumer_defaults (codes "--topic") (tt, (digits-IsDecimal, (tt, tt)))

abbrev switched : List ProducerOption
switched =
    Switched.create ∷ Switched.topic (codes "--create") ∷ Switched.partitions (codes "42") ∷ []

producer_args-words_example :
    producer_args (Switched.words switched) producer_defaults
    ≡ some (Switched.set_all switched producer_defaults)
producer_args-words_example =
    producer_args-words switched producer_defaults (tt, (tt, (digits-IsDecimal, tt)))

config_path_run : config_path (codes "--config" ∷ codes "a" ∷ codes "--config" ∷ []) [] ≡ codes "a"
unfolding config_path
config_path_run = refl

-- Two messages to a new topic, each acknowledged at the first attempt.
abbrev args : ProducerArgs
args = record producer_defaults { topic = codes "logs"; create = true; count = 2 }

abbrev metadata : Metadata
metadata = record {
  brokers = record { id = 4; host = codes "b4"; client_port = 7700 } ∷ [];
  partition_leaders = (0, 4) ∷ [];
}

abbrev accepted : ℕ → List Attempt
accepted i =
    record {
      metadata = some metadata;
      connects = true;
      answers = some (record { op = op_ack; payload = write_be64 i }) ∷ [];
    }
    ∷ []

abbrev already : Creation
already =
    answers
      (λ request. some (record { op = op_err; payload = 2 ∷ 20 ∷ codes "Topic already exists" }))

produce_run : produce args already accepted ≡ (0 ∷ 1 ∷ [], succeeded)
unfolding produce write_be64
produce_run = refl

produce-succeeded_example :
    (legal_topic args.topic ≡ true)
    × (args.create ≡ true → NotRefused args already)
    × (length {A = ℕ} (0 ∷ 1 ∷ []) ≡ messages args)
    × AllAcknowledged accepted 0 (0 ∷ 1 ∷ [])
produce-succeeded_example = produce-succeeded args accepted already (0 ∷ 1 ∷ []) produce_run

-- A socket that moves at most two bytes in a call.
abbrev recv : ℕ → ℕ → ℕ → ℕ
recv call k available = min k (min available 2)

recv-Receives : Receives recv
recv-Receives = record {
  some_byte = λ call k available h a. ground (arith, h, a);
  at_most = λ call k available. ground arith;
  there = λ call k available. ground arith;
}

receive_loop-read_exact_example :
    receive_loop recv 5 0 [] 5 (codes "abcdefg") ≡ behind [] (read_exact 5 (codes "abcdefg"))
receive_loop-read_exact_example = receive_loop-read_exact recv recv-Receives 5 (codes "abcdefg")

receive_loop_run : receive_loop recv 5 0 [] 5 (codes "abcdefg") ≡ whole (codes "abcde") (codes "fg")
unfolding receive_loop
receive_loop_run = refl

-- One that fails at its third call.
abbrev send : ℕ → ℕ → Option ℕ
send call k = if call == 2 then none else some (min k 2)

send-Sends : Sends send
send-Sends = record {
  progress = λ call k n h e. ground (arith, h, e);
  offered = λ call k n e. ground (arith, e);
}

send_loop-AllOrPart_example : AllOrPart (send_loop send 5 0 [] (codes "abcde")) (codes "abcde")
send_loop-AllOrPart_example = send_loop-AllOrPart send send-Sends (codes "abcde")

send_loop_run : send_loop send 5 0 [] (codes "abcde") ≡ cut_off (codes "abcd")
unfolding send_loop
send_loop_run = refl
