-- ===== src/Cli/Args.antt =====
-- The arguments of the command line: the loops at the start of `main` in cli/consumer_cli.cpp and
-- cli/producer_cli.cpp, and in felld/main.cpp. A text is its bytes, an int is its 32 bits, and an exception
-- is `none`.
pub mod Given
pub mod Switched
use fell.Base.{
  ℕ, ◌-◌, ◌%◌, ◌^◌, Bool, true, false, ◌||◌, ◌&&◌, List, [], ◌∷◌, Option, none, some, length, ltb,
  leb, ◌==◌, same_text, if◌then◌else◌,
}
use fell.Broker.Protocol.{codes}
use fell.Broker.Consume.{latest}
use fell.Broker.Config.{is_digit, skip_spaces, read_digits, stoul}

-- The digits at the front of a text, where there are some and their number is at most a limit.
abbrev pub digits_upto : ℕ → List ℕ → Option ℕ
digits_upto limit [] = none
digits_upto limit (c ∷ text) =
    if is_digit c
    then (let n = read_digits 0 (c ∷ text) in if leb n limit then some n else none)
    else none

abbrev pub signed_int : List ℕ → Option ℕ
signed_int [] = none
signed_int (c ∷ text) =
    if c == 43
    then digits_upto (2 ^ 31 - 1) text
    else if c == 45
    then elim (digits_upto (2 ^ 31) text) [ none ↦ none | some n ↦ some ((2 ^ 32 - n) % 2 ^ 32) ]
    else digits_upto (2 ^ 31 - 1) (c ∷ text)

-- `std::stoi`
unfoldable pub stoi : List ℕ → Option ℕ
stoi text = signed_int (skip_spaces text)

-- An int that is not negative.
abbrev pub count_of : ℕ → Option ℕ
count_of bits = if ltb bits (2 ^ 31) then some bits else none

-- What an argument with another behind it is: the name of no option that takes a value, an exception, or
-- the options with the value in them.
pub data Taken {ℓ} (A : Type ℓ) : Type ℓ where
  passed threw : Taken A
  took : A → Taken A

-- The options that a number gives, where there is one.
abbrev pub with_number {ℓ} : {A : Type ℓ} → Option ℕ → (ℕ → A) → Taken A
with_number none set = threw
with_number (some n) set = took (set n)

abbrev pub is_host : List ℕ → Bool
is_host arg = same_text arg (codes "--host") || same_text arg (codes "--bootstrap-host")

abbrev pub is_port : List ℕ → Bool
is_port arg = same_text arg (codes "--port") || same_text arg (codes "--bootstrap-port")

-- The options of the consumer.
pub record ConsumerArgs : Type 0 where
  pub bootstrap_host : List ℕ
  pub bootstrap_port : ℕ
  pub topic : List ℕ
  pub partition : ℕ
  pub offset : ℕ
  pub count : ℕ

abbrev pub consumer_defaults : ConsumerArgs
consumer_defaults = record {
  bootstrap_host = codes "127.0.0.1";
  bootstrap_port = 7700;
  topic = [];
  partition = 0;
  offset = 0;
  count = 2 ^ 32 - 1;
}

unfoldable pub consumer_value : List ℕ → List ℕ → ConsumerArgs → Taken ConsumerArgs
unfolding stoi stoul
consumer_value arg value o =
    if is_host arg
    then took (record o { bootstrap_host = value })
    else if is_port arg
    then with_number (stoi value) (λ n. record o { bootstrap_port = n % 2 ^ 16 })
    else if same_text arg (codes "--topic")
    then took (record o { topic = value })
    else if same_text arg (codes "--partition")
    then with_number (stoi value) (λ n. record o { partition = n % 2 ^ 16 })
    else if same_text arg (codes "--offset")
    then (if same_text value (codes "latest")
        then took (record o { offset = latest })
        else with_number (stoul value) (λ n. record o { offset = n }))
    else if same_text arg (codes "--count")
    then with_number (stoi value) (λ n. record o { count = n })
    else passed

-- The loop over `argv`. An option without a value behind it is passed over.
unfoldable pub consumer_args : List (List ℕ) → ConsumerArgs → Option ConsumerArgs
unfolding consumer_value
consumer_args [] o = some o
consumer_args (arg ∷ []) o = some o
consumer_args (arg ∷ value ∷ rest) o = elim (consumer_value arg value o) [
  | passed ↦ consumer_args (value ∷ rest) o
  | threw ↦ none
  | took next ↦ consumer_args rest next
]

-- The options of the producer.
pub record ProducerArgs : Type 0 where
  pub bootstrap_host : List ℕ
  pub bootstrap_port : ℕ
  pub topic : List ℕ
  pub create : Bool
  pub partitions : ℕ
  pub message : List ℕ
  pub count : ℕ
  pub retry_on_busy : Bool
  pub key : List ℕ

abbrev pub producer_defaults : ProducerArgs
producer_defaults = record {
  bootstrap_host = codes "127.0.0.1";
  bootstrap_port = 7700;
  topic = [];
  create = false;
  partitions = 1;
  message = codes "hello fell";
  count = 1;
  retry_on_busy = false;
  key = [];
}

unfoldable pub producer_value : List ℕ → List ℕ → ProducerArgs → Taken ProducerArgs
unfolding stoi
producer_value arg value o =
    if is_host arg
    then took (record o { bootstrap_host = value })
    else if is_port arg
    then with_number (stoi value) (λ n. record o { bootstrap_port = n % 2 ^ 16 })
    else if same_text arg (codes "--topic")
    then took (record o { topic = value })
    else if same_text arg (codes "--partitions")
    then with_number (stoi value) (λ n. record o { partitions = n % 2 ^ 16 })
    else if same_text arg (codes "--message")
    then took (record o { message = value })
    else if same_text arg (codes "--count")
    then with_number (stoi value) (λ n. record o { count = n })
    else if same_text arg (codes "--key")
    then took (record o { key = value })
    else passed

-- The options that take no value.
unfoldable pub producer_switch : List ℕ → ProducerArgs → ProducerArgs
producer_switch arg o =
    if same_text arg (codes "--create")
    then record o { create = true }
    else if same_text arg (codes "--retry-on-busy")
    then record o { retry_on_busy = true }
    else o

-- The loop over `argv`.
unfoldable pub producer_args : List (List ℕ) → ProducerArgs → Option ProducerArgs
unfolding producer_value producer_switch
producer_args [] o = some o
producer_args (arg ∷ []) o = some (producer_switch arg o)
producer_args (arg ∷ value ∷ rest) o = elim (producer_value arg value o) [
  | passed ↦ producer_args (value ∷ rest) (producer_switch arg o)
  | threw ↦ none
  | took next ↦ producer_args rest next
]

-- The topic that both tools ask for behind their loops.
abbrev pub legal_topic : List ℕ → Bool
legal_topic topic = ltb 0 (length topic) && leb (length topic) 255

-- The loop over `argv` in felld/main.cpp.
unfoldable pub config_path : List (List ℕ) → List ℕ → List ℕ
config_path [] path = path
config_path (arg ∷ []) path = path
config_path (arg ∷ value ∷ rest) path =
    let passed_over = config_path (value ∷ rest) path in
    let taken = config_path rest value in
    if same_text arg (codes "--config") then taken else passed_over
