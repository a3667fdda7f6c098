-- ===== src/Storage/Store/Growth.antt =====
-- How a partition's log grows, and the steps that leave the files alone.
use fell.Base.{
  ℕ, ◌+◌, ◌≡◌, refl, sym, ap, ap₂, ◌∙◌, inl, inr, Bool-cases, List, [], ◌∷◌, ◌++◌, length,
  append-nil, ◌==◌, arith,
}
use fell.Storage.{StoredMessage}
use fell.Storage.Format.{log_of}
use fell.Storage.Store.{
  PartitionStore, Segment, Round, append, append_all, pop_front, batch_full, gather,
}
use fell.Storage.Store.Inv.{append_cases}

-- The bytes of all log files of the partition, the oldest segment first.
abbrev pub logs : List Segment → List ℕ
logs [] = []
logs (g ∷ gs) = g.log ++ logs gs

abbrev pub partition_log : PartitionStore → List ℕ
partition_log s = logs s.sealed_segments ++ s.active.log

-- From one state to a later one, the partition's log has grown by the records that were committed
-- in between.
pub record Grown (s t : PartitionStore) : Type 0 where
  pub news : List StoredMessage
  pub log : partition_log t ≡ partition_log s ++ log_of news
  pub committed : t.committed_offset ≡ s.committed_offset + length news

-- The files and the committed offset as they were.
pub record Same (s t : PartitionStore) : Type 0 where
  pub sealed : t.sealed_segments ≡ s.sealed_segments
  pub active : t.active ≡ s.active
  pub committed : t.committed_offset ≡ s.committed_offset

pub Same-refl : (s : PartitionStore) → Same s s
Same-refl s = record { sealed = refl; active = refl; committed = refl }

pub Same-trans : (s t u : PartitionStore) → Same s t → Same t u → Same s u
Same-trans s t u a b = record {
  sealed = b.sealed ∙ a.sealed;
  active = b.active ∙ a.active;
  committed = b.committed ∙ a.committed;
}

pub Same-Grown : (s t : PartitionStore) → Same s t → Grown s t
Same-Grown s t a = record {
  news = [];
  log =
      ap₂ (λ x y. logs x ++ y) a.sealed (ap (λ g. g.log) a.active)
      ∙ sym (append-nil (partition_log s));
  committed = omega (arith, a.committed);
}

pub append-Same :
    (now : ℕ) (payload : List ℕ) (s : PartitionStore) → Same s (append now payload s).1
append-Same now payload s = elim (append_cases now payload s) [
  | inl (_, e) ↦ rw e (Same-refl s)
  | inr (inl (_, _, e)) ↦ rw e (record { sealed = refl; active = refl; committed = refl })
  | inr (inr (_, _, _, e)) ↦ rw e (record { sealed = refl; active = refl; committed = refl })
]

pub append_all-Same : (calls : List (ℕ × List ℕ)) (s : PartitionStore) → Same s (append_all calls s)
append_all-Same [] s = Same-refl s
append_all-Same ((now, payload) ∷ calls) s =
    Same-trans s _ _ (append-Same now payload s) (append_all-Same calls (append now payload s).1)

pub gather-Same :
    (rounds : List Round) (batch : List StoredMessage) (bytes : ℕ) (q : List StoredMessage)
    (s : PartitionStore)
    → Same s (gather rounds batch bytes q s).1
unfolding gather
gather-Same [] batch bytes [] s = Same-refl s
gather-Same (r ∷ rounds) batch bytes [] s = Same-refl s
gather-Same [] batch bytes (cmd ∷ rest) s = record {
  sealed = refl;
  active = refl;
  committed = refl;
}
gather-Same (r ∷ rounds) batch bytes (cmd ∷ rest) s =
    elim (Bool-cases
      (batch_full s.options (length (batch ++ (cmd ∷ []))) (bytes + (20 + length cmd.payload)))) [
        | inl full ↦ rw full popped
        | inr not_full ↦ rw not_full (elim (Bool-cases r.late) [
          | inl late ↦ rw late popped
          | inr early ↦ rw early (elim (Bool-cases (length rest == 0)) [
            | inl empty ↦ rw empty (
                Same-trans s _ _ popped (
                  Same-trans (pop_front s cmd rest) _ _
                    (append_all-Same r.arrivals (pop_front s cmd rest))
                    (gather-Same rounds (batch ++ (cmd ∷ [])) (bytes + (20 + length cmd.payload)) _
                      (append_all r.arrivals (pop_front s cmd rest)))))
            | inr more ↦ rw more (
                Same-trans s _ _ popped (
                  gather-Same rounds (batch ++ (cmd ∷ [])) (bytes + (20 + length cmd.payload)) rest
                    (pop_front s cmd rest)))
          ])
        ])
      ]
  where
    popped : Same s (pop_front s cmd rest)
    popped = record { sealed = refl; active = refl; committed = refl }
