-- ===== src/Cli/Producer/Numbered.antt =====
-- The numbers that the producer writes behind its messages.
use fell.Base.{
  ◌^◌, ℕ, ◌<◌, ◌≡◌, ◌≢◌, refl, sym, ap, ◌∙◌, true, List, [], ◌++◌, length, drop, ltb,
  drop-append_self, arith,
}
use fell.Broker.Protocol.{codes}
use fell.Replication.Keys.{parse, parse-digits}
use fell.Cli.Args.{ProducerArgs}
use fell.Cli.Producer.Main.{index_text, payload_of}

append_cancel : (xs ys zs : List ℕ) → xs ++ ys ≡ xs ++ zs → ys ≡ zs
append_cancel xs ys zs e =
    sym (drop-append_self (length xs) xs ys refl)
    ∙ (ap (drop (length xs)) e ∙ drop-append_self (length xs) xs zs refl)

-- The number can be read back from a message that has one.
payload_of-injective :
    (o : ProducerArgs) (count i j : ℕ)
    → i < 2 ^ 31
    → j < 2 ^ 31
    → 1 < count
    → payload_of o count i ≡ payload_of o count j
    → i ≡ j
payload_of-injective o count i j hi hj several e =
    let many : ltb 1 count ≡ true = ground (arith, several) in
    let numbered = rw many at e in
    let tails =
      append_cancel o.message (codes " #" ++ index_text i) (codes " #" ++ index_text j) numbered in
    sym (parse-digits 10 i [] (omega (arith, hi)))
    ∙ (ap (parse 0) (append_cancel (codes " #") (index_text i) (index_text j) tails)
        ∙ parse-digits 10 j [] (omega (arith, hj)))

-- Of several messages no two are alike.
pub payload_of-differ :
    (o : ProducerArgs) (count i j : ℕ)
    → i < 2 ^ 31
    → j < 2 ^ 31
    → 1 < count
    → i ≢ j
    → payload_of o count i ≢ payload_of o count j
payload_of-differ o count i j hi hj several differ e =
    differ (payload_of-injective o count i j hi hj several e)
