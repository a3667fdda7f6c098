-- ===== src/Broker/Config/Peers.antt =====
-- The peers that a configuration file names: what replication/cluster_config.cpp makes of the texts that
-- people write.
use fell.Base.{
  ℕ, ◌+◌, ◌-◌, ◌*◌, ◌^◌, ◌≤◌, ◌<◌, ◌≡◌, ◌≢◌, refl, true, false, List, [], ◌∷◌, ◌++◌, All, some,
  length, ltb, ◌==◌, arith,
}
use fell.Broker.Requests.{BrokerAddr}
use fell.Broker.Config.{is_digit, is_space, read_digits, stoul}

-- The number that decimal digits stand for.
abbrev pub decimal : ℕ → List ℕ → ℕ
decimal acc [] = acc
decimal acc (c ∷ digits) = decimal (acc * 10 + (c - 48)) digits

-- Decimal digits of a number below a bound.
pub record IsDecimal (bound : ℕ) (digits : List ℕ) : Type 0 where
  pub digit : All (λ c. (48 ≤ c) × (c < 58)) digits
  pub some_digit : 0 < length digits
  pub below : decimal 0 digits < bound

-- A peer as a configuration file writes it.
pub record PeerText : Type 0 where
  pub id : List ℕ
  pub host : List ℕ
  pub repl : List ℕ
  pub client : List ℕ

pub record IsPeer (t : PeerText) : Type 0 where
  pub id_ok : IsDecimal (2 ^ 32) t.id
  pub repl_ok : IsDecimal (2 ^ 16) t.repl
  pub client_ok : IsDecimal (2 ^ 16) t.client
  pub host_ok : All (λ c. c ≢ 58) t.host

abbrev pub entry : PeerText → List ℕ × List ℕ
entry t = (t.id, t.host ++ (58 ∷ (t.repl ++ (58 ∷ t.client))))

abbrev pub addr_of : PeerText → BrokerAddr
addr_of t = record {
  broker_id = decimal 0 t.id;
  host = t.host;
  repl_port = decimal 0 t.repl;
  client_port = decimal 0 t.client;
}

pub is_digit_lem : (c : ℕ) → (48 ≤ c) × (c < 58) → is_digit c ≡ true
is_digit_lem c h = ground (arith, h.0, h.1)

pub read_digits-decimal :
    (acc : ℕ) (digits : List ℕ)
    → All (λ c. (48 ≤ c) × (c < 58)) digits
    → read_digits acc digits ≡ decimal acc digits
read_digits-decimal acc [] h = refl
read_digits-decimal acc (c ∷ digits) h =
    rw (is_digit_lem c h.0) (read_digits-decimal (acc * 10 + (c - 48)) digits h.1)

pub stoul-decimal :
    (bound : ℕ) (digits : List ℕ)
    → bound ≤ 2 ^ 64
    → IsDecimal bound digits
    → stoul digits ≡ some (decimal 0 digits)
unfolding stoul
stoul-decimal bound [] small d = absurd (omega (arith, d.some_digit))
stoul-decimal bound (c ∷ digits) small d =
    let no_space : is_space c ≡ false = ground (arith, d.digit.0.0, d.digit.0.1) in
    let no_plus : (c == 43) ≡ false = ground (arith, d.digit.0.0) in
    let no_minus : (c == 45) ≡ false = ground (arith, d.digit.0.0) in
    let value : read_digits (0 + (c - 48)) digits ≡ decimal (0 + (c - 48)) digits =
      read_digits-decimal (0 + (c - 48)) digits d.digit.1 in
    let fits : ltb (decimal (0 + (c - 48)) digits) (2 ^ 64) ≡ true =
      ground (arith, small, d.below) in
    rw (no_space, no_plus, no_minus, is_digit_lem c d.digit.0, value, fits) refl

-- The parts of `host:repl:client`.
abbrev both_ports : List ℕ → List ℕ → List ℕ
both_ports repl client = repl ++ (58 ∷ client)
