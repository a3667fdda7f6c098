-- ===== src/Replication/Keys.antt =====
-- `make_key`: a topic-partition is known by its key.
use fell.Base.{
  ℕ, zero, suc, ◌+◌, ◌-◌, ◌*◌, ◌/◌, ◌%◌, ◌^◌, ◌<◌, ◌≡◌, ◌≢◌, refl, sym, ap, ap₂, ◌∙◌, inl, inr,
  Bool-cases, List, [], ◌∷◌, ◌++◌, get_or, drop, All, ◌==◌, arith,
}
use fell.Replication.Meta.{digits, to_string, make_key, dash}

-- The number that decimal digits stand for, after `n`.
abbrev pub parse : ℕ → List ℕ → ℕ
parse n [] = n
parse n (c ∷ t) = parse (10 * n + (c - 48)) t

pub parse-digits :
    (fuel n : ℕ) (later : List ℕ) → n < 10 ^ fuel → parse 0 (digits fuel n later) ≡ parse n later
parse-digits zero n later h = ap (λ k. parse k later) {x = 0} {y = n} (omega (arith, h))
parse-digits (suc fuel) n later h = elim (Bool-cases (n / 10 == 0)) [
  | inl small ↦
      rw small
        (ap (λ k. parse k later) {x = 10 * 0 + (48 + n % 10 - 48)} {y = n} (ground (arith, small)))
  | inr large ↦ rw large (
      parse-digits fuel (n / 10) ((48 + n % 10) ∷ later) (omega (arith, h))
      ∙ ap (λ k. parse k later) {x = 10 * (n / 10) + (48 + n % 10 - 48)} {y = n} (omega arith))
]

to_string-injective : (p q : ℕ) → p < 2 ^ 16 → q < 2 ^ 16 → to_string p ≡ to_string q → p ≡ q
to_string-injective p q hp hq e =
    sym (parse-digits 5 p [] (omega (arith, hp)))
    ∙ ap (parse 0) e
    ∙ parse-digits 5 q [] (omega (arith, hq))

abbrev NoDash : List ℕ → Type 0
NoDash = All (λ c. c ≢ dash)

NoDash-digits : (fuel n : ℕ) (later : List ℕ) → NoDash later → NoDash (digits fuel n later)
NoDash-digits zero n later v = v
NoDash-digits (suc fuel) n later v =
    let d : (48 + n % 10) ≢ dash = λ e. absurd (omega (arith, e)) in
    let rest = NoDash-digits fuel (n / 10) ((48 + n % 10) ∷ later) (d, v) in
    elim (Bool-cases (n / 10 == 0)) [ inl small ↦ rw small (d, v) | inr large ↦ rw large rest ]

tails : {a b : ℕ} {xs ys : List ℕ} → a ∷ xs ≡ b ∷ ys → xs ≡ ys
tails e = ap (drop 1) e

heads : {a b : ℕ} {xs ys : List ℕ} → a ∷ xs ≡ b ∷ ys → a ≡ b
heads e = ap (λ l. get_or l 0 0) e

dash_late : (ds xs es : List ℕ) → NoDash ds → ds ≢ xs ++ (dash ∷ es)
dash_late [] [] es v e = absurd (ground (arith, e))
dash_late [] (x ∷ xs) es v e = absurd (ground (arith, e))
dash_late (d ∷ ds) [] es v e = v.0 (heads e)
dash_late (d ∷ ds) (x ∷ xs) es v e = dash_late ds xs es v.1 (tails e)

split_dash :
    (xs ys ds es : List ℕ)
    → NoDash ds
    → NoDash es
    → xs ++ (dash ∷ ds) ≡ ys ++ (dash ∷ es)
    → (xs ≡ ys) × (ds ≡ es)
split_dash [] [] ds es v w e = (refl, tails e)
split_dash [] (y ∷ ys) ds es v w e = absurd (dash_late ds ys es v (tails e))
split_dash (x ∷ xs) [] ds es v w e = absurd (dash_late es xs ds w (sym (tails e)))
split_dash (x ∷ xs) (y ∷ ys) ds es v w e =
    let (front, back) = split_dash xs ys ds es v w (tails e) in (ap₂ ◌∷◌ (heads e) front, back)

-- Two topic-partitions with the same key are the same, whatever characters the topics' names have.
pub make_key-injective :
    (t u : List ℕ) (p q : ℕ)
    → p < 2 ^ 16
    → q < 2 ^ 16
    → make_key t p ≡ make_key u q
    → (t ≡ u) × (p ≡ q)
unfolding make_key
make_key-injective t u p q hp hq e =
    let (topics, parts) =
      split_dash t u (to_string p) (to_string q) (NoDash-digits 5 p [] tt) (NoDash-digits 5 q [] tt)
        e in
    (topics, to_string-injective p q hp hq parts)
