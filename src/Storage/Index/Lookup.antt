-- ===== src/Storage/Index/Lookup.antt =====
-- What a lookup finds: the position of a record that is not above the target, with all records
-- before it below the target.
use fell.Base.{
  ℕ, zero, suc, ◌+◌, ◌-◌, ◌≤◌, ◌<◌, ◌≡◌, refl, sym, ap, ◌∙◌, inl, inr, subst, Bool-cases, List, [],
  ◌∷◌, ◌++◌, length, All, All-append, take, get_or, length-append, append_assoc, ltb, ◌==◌,
  if◌then◌else◌, ltb_false→le, arith,
}
use fell.Storage.{IndexEntry, StoredMessage}
use fell.Storage.Format.{is_due, encode_record, log_of, log_of-append, length-encode_record}
use fell.Storage.Index.{lookup, upper_bound, none_entry}

-- Offsets that count up by one.
abbrev pub Consecutive : ℕ → List StoredMessage → Type 0
Consecutive n [] = Unit {0}
Consecutive n (m ∷ ms) = (m.offset ≡ n) × Consecutive (suc n) ms

-- The index entries that belong to records which start at a position of the log.
abbrev pub due_entries : ℕ → ℕ → List StoredMessage → List IndexEntry
due_entries base position [] = []
due_entries base position (m ∷ ms) =
    let rest = due_entries base (position + (20 + length m.payload)) ms in
    if is_due base m then record { offset = m.offset; file_position = position } ∷ rest else rest

-- The same lookup, with the last position that was not above the target carried along.
abbrev last_le : ℕ → List IndexEntry → ℕ → ℕ
last_le d [] target = d
last_le d (e ∷ es) target =
    let rest = last_le e.file_position es target in if ltb target e.offset then d else rest

entry_position : (d : ℕ) (es : List IndexEntry) (target : ℕ) → ℕ
entry_position d es target =
    if upper_bound es target == 0
    then d
    else (get_or es (upper_bound es target - 1) none_entry).file_position

entry_position-last_le :
    (d : ℕ) (es : List IndexEntry) (target : ℕ) → entry_position d es target ≡ last_le d es target
unfolding entry_position upper_bound
entry_position-last_le d [] target = refl
entry_position-last_le d (e ∷ es) target =
    ground (arith, entry_position-last_le e.file_position es target)

lookup-last_le : (es : List IndexEntry) (target : ℕ) → lookup es target ≡ last_le 0 es target
unfolding lookup entry_position
lookup-last_le [] target = refl
lookup-last_le (e ∷ es) target = ground (arith, entry_position-last_le 0 (e ∷ es) target)

-- A place in the log where a scan for the target may start.
pub record Found (total : List StoredMessage) (target position : ℕ) : Type 0 where
  pub before : List StoredMessage
  pub after : List StoredMessage
  pub whole : total ≡ before ++ after
  pub at : position ≡ length (log_of before)
  pub below : All (λ m. m.offset < target) before

abbrev Below : ℕ → List StoredMessage → Type 0
Below n = All (λ m. m.offset < n)

Below-mono : (a b : ℕ) (ms : List StoredMessage) → a ≤ b → Below a ms → Below b ms
Below-mono a b [] h v = tt
Below-mono a b (m ∷ ms) h v = (omega (arith, v.0), Below-mono a b ms h v.1)

module _ (base target : ℕ) (total : List StoredMessage) where
  last_le-Found :
      (ms passed : List StoredMessage) (n k d : ℕ)
      → total ≡ passed ++ ms
      → Below n passed
      → Consecutive n ms
      → Found total target d
      → Found total target
          (last_le d (take k (due_entries base (length (log_of passed)) ms)) target)
  last_le-Found [] passed n zero d e b c f = f
  last_le-Found [] passed n (suc k) d e b c f = f
  last_le-Found (m ∷ ms) passed n zero d e b c f = f
  last_le-Found (m ∷ ms) passed n (suc k) d e b (cm, c) f = elim (Bool-cases (is_due base m)) [
    | inl due ↦ elim (Bool-cases (ltb target m.offset)) [
      | inl above ↦ rw (due, above) f
      | inr reached ↦
          rw (due, reached)
            (at_next k _ (
              last_le-Found ms (passed ++ (m ∷ [])) (suc n) k _ regroup passed_below c (record {
                before = passed;
                after = m ∷ ms;
                whole = e;
                at = refl;
                below = Below-mono n target passed (omega (arith, ltb_false→le _ _ reached)) b;
              })))
    ]
    | inr undue ↦ rw undue (
        at_next (suc k) d
          (last_le-Found ms (passed ++ (m ∷ [])) (suc n) (suc k) d regroup passed_below c f))
  ]
    where
      regroup : total ≡ (passed ++ (m ∷ [])) ++ ms
      regroup = e ∙ sym (append_assoc passed (m ∷ []) ms)

      passed_below : Below (suc n) (passed ++ (m ∷ []))
      passed_below =
          All-append (λ r. r.offset < suc n) passed (m ∷ [])
            (Below-mono n (suc n) passed (omega arith) b) (omega arith)

      grown :
          length (log_of (passed ++ (m ∷ []))) ≡ length (log_of passed) + (20 + length m.payload)
      grown =
          ap length (log_of-append passed (m ∷ []))
          ∙ omega (
            arith,
            length-append (log_of passed) (log_of (m ∷ [])),
            length-append (encode_record m) [],
            length-encode_record m,
          )

      at_next :
          (j e : ℕ)
          → Found total target (
              last_le e
                (take j (due_entries base (length (log_of (passed ++ (m ∷ [])))) ms))
                target)
          → Found total target (
              last_le e
                (take j (due_entries base (length (log_of passed) + (20 + length m.payload)) ms))
                target)
      at_next j e =
          subst (λ p. Found total target (last_le e (take j (due_entries base p ms)) target)) grown

-- With the entries that were written for a segment, or any number of the first of them, which an
-- index loaded earlier has, a lookup gives a position at which a record of the segment begins, and
-- all records before that position are below the target.
pub lookup-Found :
    (base target n k : ℕ) (ms : List StoredMessage)
    → Consecutive n ms
    → Found ms target (lookup (take k (due_entries base 0 ms)) target)
lookup-Found base target n k ms c = rw lookup-last_le (
    last_le-Found base target ms ms [] n k 0 refl tt c
      (record { before = []; after = ms; whole = refl; at = refl; below = tt }))
