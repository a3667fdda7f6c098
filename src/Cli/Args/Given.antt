-- ===== src/Cli/Args/Given.antt =====
-- What the options given on a command line make of the arguments.
use fell.Base.{
  ℕ, ◌+◌, ◌-◌, ◌%◌, ◌^◌, ◌≤◌, ◌≡◌, refl, true, false, List, [], ◌∷◌, ◌++◌, some, leb, ◌==◌,
  same_text, arith, All,
}
use fell.Broker.Protocol.{codes}
use fell.Broker.Config.{is_space, read_digits}
use fell.Broker.Config.Peers.{decimal, IsDecimal, is_digit_lem, read_digits-decimal, stoul-decimal}
use fell.Cli.Args.{stoi, took, ConsumerArgs, consumer_value, consumer_args}

pub stoi-decimal :
    (bound : ℕ) (digits : List ℕ)
    → bound ≤ 2 ^ 31
    → IsDecimal bound digits
    → stoi digits ≡ some (decimal 0 digits)
unfolding stoi
stoi-decimal bound [] small d = absurd (omega (arith, d.some_digit))
stoi-decimal bound (c ∷ digits) small d =
    let no_space : is_space c ≡ false = ground (arith, d.digit.0.0, d.digit.0.1) in
    let no_plus : (c == 43) ≡ false = ground (arith, d.digit.0.0) in
    let no_minus : (c == 45) ≡ false = ground (arith, d.digit.0.0) in
    let value : read_digits (0 + (c - 48)) digits ≡ decimal (0 + (c - 48)) digits =
      read_digits-decimal (0 + (c - 48)) digits d.digit.1 in
    let fits : leb (decimal (0 + (c - 48)) digits) (2 ^ 31 - 1) ≡ true =
      ground (arith, small, d.below) in
    rw (no_space, no_plus, no_minus, is_digit_lem c d.digit.0, value, fits) refl

pub port_fits :
    (digits : List ℕ) → IsDecimal (2 ^ 16) digits → decimal 0 digits % 2 ^ 16 ≡ decimal 0 digits
port_fits digits d = omega (arith, d.below)

-- A number is not the word for the end of the log.
not_latest :
    (bound : ℕ) (digits : List ℕ)
    → IsDecimal bound digits
    → same_text digits (codes "latest") ≡ false
not_latest bound [] d = refl
not_latest bound (c ∷ digits) d = ground (arith, d.digit.0.1)

-- An option of the consumer as it is given, numbers as their digits.
pub data ConsumerOption : Type 0 where
  host port topic partition from count : List ℕ → ConsumerOption
  from_latest : ConsumerOption

abbrev pub IsLegal : ConsumerOption → Type 0
IsLegal (host h) = Unit {0}
IsLegal (port d) = IsDecimal (2 ^ 16) d
IsLegal (topic t) = Unit {0}
IsLegal (partition d) = IsDecimal (2 ^ 16) d
IsLegal (from d) = IsDecimal (2 ^ 64) d
IsLegal (count d) = IsDecimal (2 ^ 31) d
IsLegal from_latest = Unit {0}

-- Its words.
abbrev pub flag_of : ConsumerOption → List ℕ
flag_of (host h) = codes "--host"
flag_of (port d) = codes "--port"
flag_of (topic t) = codes "--topic"
flag_of (partition d) = codes "--partition"
flag_of (from d) = codes "--offset"
flag_of (count d) = codes "--count"
flag_of from_latest = codes "--offset"

abbrev pub value_of : ConsumerOption → List ℕ
value_of (host h) = h
value_of (port d) = d
value_of (topic t) = t
value_of (partition d) = d
value_of (from d) = d
value_of (count d) = d
value_of from_latest = codes "latest"

-- What it sets.
abbrev pub sets : ConsumerOption → ConsumerArgs → ConsumerArgs
sets (host h) o = record o { bootstrap_host = h }
sets (port d) o = record o { bootstrap_port = decimal 0 d }
sets (topic t) o = record o { topic = t }
sets (partition d) o = record o { partition = decimal 0 d }
sets (from d) o = record o { offset = decimal 0 d }
sets (count d) o = record o { count = decimal 0 d }
sets from_latest o = record o { offset = 18446744073709551615 }

abbrev pub words : List ConsumerOption → List (List ℕ)
words [] = []
words (g ∷ gs) = flag_of g ∷ value_of g ∷ words gs

abbrev pub set_all : List ConsumerOption → ConsumerArgs → ConsumerArgs
set_all [] o = o
set_all (g ∷ gs) o = set_all gs (sets g o)

consumer_value_lem :
    (g : ConsumerOption) (o : ConsumerArgs)
    → IsLegal g
    → consumer_value (flag_of g) (value_of g) o ≡ took (sets g o)
unfolding consumer_value
consumer_value_lem (host h) o legal = refl
consumer_value_lem (port d) o legal =
    rw (stoi-decimal (2 ^ 16) d (omega arith) legal, port_fits d legal) refl
consumer_value_lem (topic t) o legal = refl
consumer_value_lem (partition d) o legal =
    rw (stoi-decimal (2 ^ 16) d (omega arith) legal, port_fits d legal) refl
consumer_value_lem (from d) o legal =
    rw (not_latest (2 ^ 64) d legal, stoul-decimal (2 ^ 64) d (omega arith) legal) refl
consumer_value_lem (count d) o legal = rw (stoi-decimal (2 ^ 31) d (omega arith) legal) refl
consumer_value_lem from_latest o legal = refl

-- Options in any order, each with a legal value, set exactly what they name, a later one over an earlier
-- one, whatever the values look like, and an option at the end that lacks its value is passed over.
pub consumer_args-words :
    (gs : List ConsumerOption) (o : ConsumerArgs) (last : List ℕ)
    → All IsLegal gs
    → (consumer_args (words gs) o ≡ some (set_all gs o))
      × (consumer_args (words gs ++ (last ∷ [])) o ≡ some (set_all gs o))
unfolding consumer_args
consumer_args-words [] o last legal = (refl, refl)
consumer_args-words (g ∷ gs) o last legal =
    let first = consumer_value_lem g o legal.0 in
    let rest = consumer_args-words gs (sets g o) last legal.1 in
    (rw (consumer_args, first) rest.0, rw (consumer_args, first) rest.1)
