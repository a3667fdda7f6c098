-- ===== src/Cli/Args/Switched.antt =====
-- What options with and without a value make of the arguments of cli/producer_cli.cpp.
use fell.Base.{ℕ, ◌^◌, ◌≡◌, refl, ◌∙◌, true, List, [], ◌∷◌, some, All, arith}
use fell.Broker.Protocol.{codes}
use fell.Broker.Config.Peers.{decimal, IsDecimal}
use fell.Cli.Args.{ProducerArgs, producer_value, producer_switch, producer_args}
use fell.Cli.Args.Given.{stoi-decimal, port_fits}

-- An option of the producer as it is given, numbers as their digits.
pub data ProducerOption : Type 0 where
  host port topic partitions message count key : List ℕ → ProducerOption
  create retry_on_busy : ProducerOption

abbrev pub IsLegal : ProducerOption → Type 0
IsLegal (host h) = Unit {0}
IsLegal (port d) = IsDecimal (2 ^ 16) d
IsLegal (topic t) = Unit {0}
IsLegal (partitions d) = IsDecimal (2 ^ 16) d
IsLegal (message t) = Unit {0}
IsLegal (count d) = IsDecimal (2 ^ 31) d
IsLegal (key k) = Unit {0}
IsLegal create = Unit {0}
IsLegal retry_on_busy = Unit {0}

-- Its words before others.
abbrev pub add_words : ProducerOption → List (List ℕ) → List (List ℕ)
add_words (host h) rest = codes "--host" ∷ h ∷ rest
add_words (port d) rest = codes "--port" ∷ d ∷ rest
add_words (topic t) rest = codes "--topic" ∷ t ∷ rest
add_words (partitions d) rest = codes "--partitions" ∷ d ∷ rest
add_words (message t) rest = codes "--message" ∷ t ∷ rest
add_words (count d) rest = codes "--count" ∷ d ∷ rest
add_words (key k) rest = codes "--key" ∷ k ∷ rest
add_words create rest = codes "--create" ∷ rest
add_words retry_on_busy rest = codes "--retry-on-busy" ∷ rest

-- What it sets.
abbrev pub sets : ProducerOption → ProducerArgs → ProducerArgs
sets (host h) o = record o { bootstrap_host = h }
sets (port d) o = record o { bootstrap_port = decimal 0 d }
sets (topic t) o = record o { topic = t }
sets (partitions d) o = record o { partitions = decimal 0 d }
sets (message t) o = record o { message = t }
sets (count d) o = record o { count = decimal 0 d }
sets (key k) o = record o { key = k }
sets create o = record o { create = true }
sets retry_on_busy o = record o { retry_on_busy = true }

abbrev pub words : List ProducerOption → List (List ℕ)
words [] = []
words (g ∷ gs) = add_words g (words gs)

abbrev pub set_all : List ProducerOption → ProducerArgs → ProducerArgs
set_all [] o = o
set_all (g ∷ gs) o = set_all gs (sets g o)

-- The loop over the words of one option and others.
producer_args-add_words :
    (g : ProducerOption) (rest : List (List ℕ)) (o : ProducerArgs)
    → IsLegal g
    → producer_args (add_words g rest) o ≡ producer_args rest (sets g o)
unfolding producer_args producer_value producer_switch
producer_args-add_words (host h) rest o legal = refl
producer_args-add_words (port d) rest o legal =
    rw (producer_args, stoi-decimal (2 ^ 16) d (omega arith) legal, port_fits d legal) refl
producer_args-add_words (topic t) rest o legal = refl
producer_args-add_words (partitions d) rest o legal =
    rw (producer_args, stoi-decimal (2 ^ 16) d (omega arith) legal, port_fits d legal) refl
producer_args-add_words (message t) rest o legal = refl
producer_args-add_words (count d) rest o legal =
    rw (producer_args, stoi-decimal (2 ^ 31) d (omega arith) legal) refl
producer_args-add_words (key k) rest o legal = refl
producer_args-add_words create [] o legal = refl
producer_args-add_words create (w ∷ rest) o legal = refl
producer_args-add_words retry_on_busy [] o legal = refl
producer_args-add_words retry_on_busy (w ∷ rest) o legal = refl

-- Options of the producer in any order, each with a legal value, set exactly what they name, a later one
-- over an earlier one, whatever the values look like. Those without a value take no other word.
pub producer_args-words :
    (gs : List ProducerOption) (o : ProducerArgs)
    → All IsLegal gs
    → producer_args (words gs) o ≡ some (set_all gs o)
unfolding producer_args
producer_args-words [] o legal = refl
producer_args-words (g ∷ gs) o legal =
    producer_args-add_words g (words gs) o legal.0 ∙ producer_args-words gs (sets g o) legal.1
