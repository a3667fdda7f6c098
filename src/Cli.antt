-- ===== src/Cli.antt =====
-- The command line tools, under cli/: how `fetch_metadata` of cli/cli_util.hpp reads the answer.
pub mod Frames
pub mod Args
pub mod Sockets
pub mod Requests
pub mod Consumer
pub mod Producer
pub mod Roundtrip
mod Tests
mod ToolTests
mod MainTests
use fell.Base.{
  ℕ, zero, suc, ◌+◌, List, [], ◌∷◌, Option, none, some, length, take, drop, min, replicate, ◌++◌,
  ◌-◌, ltb, ◌==◌, if◌then◌else◌,
}
use fell.Wire.{byte_at, read_be16, read_be32, write_be32}
use fell.Broker.Protocol.{op_metadata_req, op_metadata_resp}

pub record BrokerInfo : Type 0 where
  pub id : ℕ
  pub host : List ℕ
  pub client_port : ℕ

-- What the tool puts in its two maps, in the order of the assignments.
pub record Metadata : Type 0 where
  pub brokers : List BrokerInfo
  pub partition_leaders : List (ℕ × ℕ)

-- The request: the frame's length, the opcode, and the topic, cut at 255 bytes, in a cleared struct.
unfoldable pub metadata_request : List ℕ → List ℕ
unfolding write_be32
metadata_request topic =
    write_be32 257
    ++ (op_metadata_req
        ∷ min (length topic) 255
        ∷ (take 255 topic ++ replicate (255 - length topic) 0))

-- The loop over the brokers: `rest` is the payload from `offset` on. `none` where the payload ends too
-- early.
unfoldable pub read_brokers : ℕ → List ℕ → Option (List BrokerInfo × List ℕ)
unfolding read_be32 read_be16
read_brokers zero rest = some ([], rest)
read_brokers (suc n) rest =
    let host_len = byte_at rest 4 in
    let behind = drop 5 rest in
    let broker : BrokerInfo = record {
      id = read_be32 rest;
      host = take host_len behind;
      client_port = read_be16 (drop host_len behind);
    } in
    let more = read_brokers n (drop (host_len + 2) behind) in
    if ltb (length rest) 5
    then none
    else if ltb (length behind) (host_len + 2)
    then none
    else elim more [ none ↦ none | some (brokers, left) ↦ some (broker ∷ brokers, left) ]

-- The loop over the partitions.
unfoldable pub read_leaders : ℕ → List ℕ → Option (List (ℕ × ℕ))
unfolding read_be32 read_be16
read_leaders zero rest = some []
read_leaders (suc n) rest =
    let more = read_leaders n (drop 6 rest) in
    if ltb (length rest) 6 then none else elim more [
      | none ↦ none
      | some leaders ↦ some ((read_be16 rest, read_be32 (drop 2 rest)) ∷ leaders)
    ]

-- What `fetch_metadata` makes of the payload of the answer.
unfoldable pub parse_metadata : List ℕ → Option Metadata
unfolding read_be16 read_brokers read_leaders
parse_metadata payload =
    let found = read_brokers (read_be16 payload) (drop 2 payload) in
    if ltb (length payload) 2 then none else elim found [
      | none ↦ none
      | some (brokers, rest) ↦
          if ltb (length rest) 2 then none else elim (read_leaders (read_be16 rest) (drop 2 rest)) [
            | none ↦ none
            | some leaders ↦ some (record { brokers = brokers; partition_leaders = leaders })
          ]
    ]

-- `fetch_metadata` on an answer with an opcode and a payload.
unfoldable pub fetch_metadata : ℕ → List ℕ → Option Metadata
unfolding parse_metadata
fetch_metadata op payload = if op == op_metadata_resp then parse_metadata payload else none

-- The maps' entries: the last assignment counts.
abbrev pub leader_in : ℕ → List (ℕ × ℕ) → Option ℕ
leader_in partition [] = none
leader_in partition ((i, leader) ∷ leaders) = elim (leader_in partition leaders) [
  | some later ↦ some later
  | none ↦ if i == partition then some leader else none
]

abbrev pub broker_in : ℕ → List BrokerInfo → Option BrokerInfo
broker_in id [] = none
broker_in id (b ∷ brokers) = elim (broker_in id brokers) [
  | some later ↦ some later
  | none ↦ if b.id == id then some b else none
]

-- `connect_to_leader` up to the connection: the broker to connect to, from the metadata that was fetched.
unfoldable pub leader_to_connect : ℕ → Option Metadata → Option BrokerInfo
leader_to_connect partition none = none
leader_to_connect partition (some m) = elim (leader_in partition m.partition_leaders) [
  | none ↦ none
  | some leader_id ↦ broker_in leader_id m.brokers
]
