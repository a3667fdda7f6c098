-- ===== src/Broker/Config.antt =====
-- `ClusterConfig::load` of replication/cluster_config.cpp. The inipp library reads the file: what it extracts is data here, `none` where `extract` leaves the default. A text is its
-- bytes, and an exception is `none`.
pub mod Peers
use fell.Base.{
  ℕ, zero, suc, ◌+◌, ◌-◌, ◌*◌, ◌%◌, ◌^◌, ◌≤◌, ◌<◌, ◌≡◌, ◌≢◌, refl, sym, ap, ◌∙◌, ◌⊎◌, inl, inr,
  Bool, true, false, Bool-cases, List, [], ◌∷◌, ◌++◌, All, Option, none, some, length, take, drop,
  leb, ltb, ◌==◌, ◌&&◌, ◌||◌, if◌then◌else◌, arith, map, take-append_self, drop-drop,
}
use fell.Broker.Protocol.{codes}
use fell.Broker.Requests.{BrokerAddr, ClusterConfig}

infixl 5 ◌>>=◌
abbrev pub ◌>>=◌ {ℓ κ} : {A : Type ℓ} {B : Type κ} → Option A → (A → Option B) → Option B
none >>= next = none
some a >>= next = next a

abbrev pub is_digit : ℕ → Bool
is_digit c = leb 48 c && ltb c 58

abbrev pub is_space : ℕ → Bool
is_space c = (c == 32) || (leb 9 c && leb c 13)

abbrev pub skip_spaces : List ℕ → List ℕ
skip_spaces [] = []
skip_spaces (c ∷ text) = let rest = skip_spaces text in if is_space c then rest else c ∷ text

-- The number that the digits at the front continue.
abbrev pub read_digits : ℕ → List ℕ → ℕ
read_digits acc [] = acc
read_digits acc (c ∷ text) =
    let more = read_digits (acc * 10 + (c - 48)) text in if is_digit c then more else acc

-- The number at the front of a text: it throws where there is no digit or the number is too large.
abbrev pub read_unsigned : List ℕ → Option ℕ
read_unsigned [] = none
read_unsigned (c ∷ text) =
    if is_digit c
    then (let n = read_digits 0 (c ∷ text) in if ltb n (2 ^ 64) then some n else none)
    else none

abbrev pub read_signed : List ℕ → Option ℕ
read_signed [] = none
read_signed (c ∷ text) =
    if c == 43
    then read_unsigned text
    else if c == 45
    then elim (read_unsigned text) [ none ↦ none | some n ↦ some ((2 ^ 64 - n) % 2 ^ 64) ]
    else read_unsigned (c ∷ text)

-- `std::stoul`
unfoldable pub stoul : List ℕ → Option ℕ
stoul text = read_signed (skip_spaces text)

abbrev pub find_char : ℕ → List ℕ → Option ℕ
find_char c [] = none
find_char c (x ∷ text) =
    let rest = find_char c text in
    if x == c then some 0 else elim rest [ none ↦ none | some i ↦ some (suc i) ]

-- `text.find(c, from)`
abbrev pub find_from : ℕ → ℕ → List ℕ → Option ℕ
find_from c from text = elim (find_char c (drop from text)) [
  | none ↦ none
  | some i ↦ some (from + i)
]

abbrev pub make_addr : ℕ → List ℕ → ℕ → ℕ → BrokerAddr
make_addr id host repl client = record {
  broker_id = id % 2 ^ 32;
  host = host;
  repl_port = repl % 2 ^ 16;
  client_port = client % 2 ^ 16;
}

-- One entry of the section `peers`: a text without two colons is passed over.
unfoldable pub read_peer : List ℕ → List ℕ → Option (List BrokerAddr)
read_peer key text = elim (find_from 58 0 text) [
  | none ↦ some []
  | some colon1 ↦ elim (find_from 58 (colon1 + 1) text) [
    | none ↦ some []
    | some colon2 ↦ do
      id ← stoul key
      repl ← stoul (take (colon2 - colon1 - 1) (drop (colon1 + 1) text))
      client ← stoul (drop (colon2 + 1) text)
      some (make_addr id (take colon1 text) repl client ∷ [])
  ]
]

abbrev pub read_peers : List (List ℕ × List ℕ) → Option (List BrokerAddr)
read_peers [] = some []
read_peers ((key, text) ∷ entries) = do
  addr ← read_peer key text
  addrs ← read_peers entries
  some (addr ++ addrs)

-- What inipp extracts from a file. An int is its 32 bits.
pub record Ini : Type 0 where
  pub id : Option ℕ
  pub data_dir : Option (List ℕ)
  pub client_port : Option ℕ
  pub repl_port : Option ℕ
  pub replication_factor : Option ℕ
  pub acks : Option ℕ
  pub heartbeat_interval_ms : Option ℕ
  pub heartbeat_timeout_ms : Option ℕ
  pub max_lag_messages : Option ℕ
  pub peers : List (List ℕ × List ℕ)

-- The fields of the configuration that `ClusterConfig` of Broker.Requests leaves out.
pub record Settings : Type 0 where
  pub data_dir : List ℕ
  pub repl_port : ℕ
  pub replication_factor : ℕ
  pub acks : ℕ
  pub heartbeat_interval_ms : ℕ
  pub heartbeat_timeout_ms : ℕ
  pub max_lag_messages : ℕ

abbrev pub extract {ℓ} : {A : Type ℓ} → A → Option A → A
extract default none = default
extract default (some value) = value

-- The configuration with these peers, with the defaults for what the file leaves open.
abbrev pub configure : Ini → List BrokerAddr → ClusterConfig × Settings
configure ini peers = (
  record {
    broker_id = extract 0 ini.id;
    client_port = extract 7700 ini.client_port;
    peers = peers;
    acks_all = extract 1 ini.acks == 2 ^ 32 - 1;
  },
  record {
    data_dir = extract (codes "fell-data") ini.data_dir;
    repl_port = extract 8700 ini.repl_port;
    replication_factor = extract 3 ini.replication_factor;
    acks = extract 1 ini.acks;
    heartbeat_interval_ms = extract 500 ini.heartbeat_interval_ms;
    heartbeat_timeout_ms = extract 1500 ini.heartbeat_timeout_ms;
    max_lag_messages = extract 1000 ini.max_lag_messages;
  },
)

-- A file that says nothing.
abbrev pub no_keys : Ini
no_keys = record {
  id = none;
  data_dir = none;
  client_port = none;
  repl_port = none;
  replication_factor = none;
  acks = none;
  heartbeat_interval_ms = none;
  heartbeat_timeout_ms = none;
  max_lag_messages = none;
  peers = [];
}

abbrev pub local_addr : ℕ → ℕ → ℕ → BrokerAddr
local_addr id repl client = make_addr id (codes "127.0.0.1") repl client

abbrev pub default_peers : List BrokerAddr
default_peers = local_addr 0 8700 7700 ∷ local_addr 1 8701 7701 ∷ local_addr 2 8702 7702 ∷ []

-- `load`, for the files that can be opened.
unfoldable pub load_config : (List ℕ → Option Ini) → List ℕ → Option (ClusterConfig × Settings)
load_config files path =
    if length path == 0 then some (configure no_keys default_peers) else elim (files path) [
      | none ↦ none
      | some ini ↦ do peers ← read_peers ini.peers; some (configure ini peers)
    ]
