-- ===== src/Storage/Store/Gather.antt =====
-- `take_batch`: what it moves from the queue to the batch, whatever arrives while it waits.
use fell.Base.{
  ℕ, ◌+◌, ◌^◌, ◌≤◌, ◌<◌, ◌≡◌, refl, sym, ap, ◌∙◌, inl, inr, Bool-cases, List, [], ◌∷◌, ◌++◌, length,
  All, length-append, append_assoc, subst, if◌then◌else◌, ◌==◌, arith,
}
use fell.Storage.{StoredMessage}
use fell.Storage.Index.Lookup.{Consecutive}
use fell.Storage.Store.{
  PartitionStore, Round, append, append_all, pop_front, gather, take_batch, batch_full,
}
use fell.Storage.Store.Inv.{Inv, IsInput, append-Inv, append_cases}

abbrev pub AreInputs : List (ℕ × List ℕ) → Type 0
AreInputs = All (λ a. IsInput a.0 a.1)

-- The appends that may happen in these rounds.
abbrev pub arrivals : List Round → ℕ
arrivals [] = 0
arrivals (r ∷ rounds) = length r.arrivals + arrivals rounds

next_offset-append :
    (now : ℕ) (payload : List ℕ) (s : PartitionStore)
    → (append now payload s).1.next_offset ≤ s.next_offset + 1
next_offset-append now payload s = elim (append_cases now payload s) [
  | inl (_, e) ↦ rw e (omega arith)
  | inr (inl (_, _, e)) ↦ rw e (omega arith)
  | inr (inr (_, _, _, e)) ↦ rw e (omega arith)
]

module _ (recs : List StoredMessage) where
  pub pop_front-Inv :
      (batch : List StoredMessage) (cmd : StoredMessage) (rest : List StoredMessage)
      (s : PartitionStore)
      → cmd ∷ rest ≡ s.queue
      → Inv batch recs s
      → Inv (batch ++ (cmd ∷ [])) recs (pop_front s cmd rest)
  pop_front-Inv batch cmd rest s e v = record {
    holds = v.holds;
    same_base = v.same_base;
    next = v.next;
    written = v.written;
    committed = v.committed;
    in_flight = subst (Consecutive s.writer.next_offset) moved v.in_flight;
    assigned = v.assigned ∙ ap (λ l. s.writer.next_offset + length l) moved;
    storable = subst (All _) moved v.storable;
    pending = ground (arith, v.pending);
    capacity = ground (arith, v.capacity);
    memory = omega (arith, v.memory);
    stamp = v.stamp;
  }
    where
      moved : batch ++ s.queue ≡ (batch ++ (cmd ∷ [])) ++ rest
      moved = ap (◌++◌ batch) (sym e) ∙ sym (append_assoc batch (cmd ∷ []) rest)

  append_all-Inv :
      (batch : List StoredMessage) (calls : List (ℕ × List ℕ)) (s : PartitionStore)
      → Inv batch recs s
      → AreInputs calls
      → s.next_offset + length calls ≤ 2 ^ 64
      → Inv batch recs (append_all calls s)
        × ((append_all calls s).next_offset ≤ s.next_offset + length calls)
  append_all-Inv batch [] s v i room = (v, omega arith)
  append_all-Inv batch ((now, payload) ∷ calls) s v i room =
      let step = next_offset-append now payload s in
      let (w, bound) =
        append_all-Inv batch calls (append now payload s).1
          (append-Inv now payload s batch recs v i.0 (omega arith)) i.1 (omega (arith, step)) in
      (w, omega (arith, bound, step))

  gather-Inv :
      (rounds : List Round) (batch : List StoredMessage) (bytes : ℕ) (q : List StoredMessage)
      (s : PartitionStore)
      → q ≡ s.queue
      → Inv batch recs s
      → All (λ r. AreInputs r.arrivals) rounds
      → s.next_offset + arrivals rounds ≤ 2 ^ 64
      → let r = gather rounds batch bytes q s in Inv r.0 recs r.1
  unfolding gather
  gather-Inv [] batch bytes [] s e v i room = v
  gather-Inv (r ∷ rounds) batch bytes [] s e v i room = v
  gather-Inv [] batch bytes (cmd ∷ rest) s e v i room = pop_front-Inv batch cmd rest s e v
  gather-Inv (r ∷ rounds) batch bytes (cmd ∷ rest) s e v i room =
      elim (Bool-cases
        (batch_full s.options (length (batch ++ (cmd ∷ []))) (bytes + (20 + length cmd.payload)))) [
          | inl full ↦ rw full popped
          | inr not_full ↦ rw not_full (elim (Bool-cases r.late) [
            | inl late ↦ rw late popped
            | inr early ↦ rw early (elim (Bool-cases (length rest == 0)) [
              | inl empty ↦ rw empty (
                  let (w, bound) =
                    append_all-Inv (batch ++ (cmd ∷ [])) r.arrivals (pop_front s cmd rest) popped
                      i.0 (omega arith) in
                  gather-Inv rounds (batch ++ (cmd ∷ [])) (bytes + (20 + length cmd.payload)) _
                    (append_all r.arrivals (pop_front s cmd rest)) refl w i.1
                    (omega (arith, bound)))
              | inr more ↦ rw more (
                  gather-Inv rounds (batch ++ (cmd ∷ [])) (bytes + (20 + length cmd.payload)) rest
                    (pop_front s cmd rest) refl popped i.1 (omega arith))
            ])
          ])
        ]
    where
      popped : Inv (batch ++ (cmd ∷ [])) recs (pop_front s cmd rest)
      popped = pop_front-Inv batch cmd rest s e v

-- `take_batch` keeps the invariant with the batch that it returns: no command is lost, doubled or
-- reordered between the queue and the batch, whatever is appended while it waits.
pub take_batch-Inv :
    (rounds : List Round) (recs : List StoredMessage) (s : PartitionStore)
    → Inv [] recs s
    → All (λ r. AreInputs r.arrivals) rounds
    → s.next_offset + arrivals rounds ≤ 2 ^ 64
    → let r = take_batch rounds s in Inv r.0 recs r.1
unfolding take_batch
take_batch-Inv rounds recs s v i room = gather-Inv recs rounds [] 0 s.queue s refl v i room

pub gather-grows :
    (rounds : List Round) (batch : List StoredMessage) (bytes : ℕ) (q : List StoredMessage)
    (s : PartitionStore)
    → length batch ≤ length (gather rounds batch bytes q s).0
unfolding gather
gather-grows [] batch bytes [] s = omega arith
gather-grows (r ∷ rounds) batch bytes [] s = omega arith
gather-grows [] batch bytes (cmd ∷ rest) s = omega (arith, length-append batch (cmd ∷ []))
gather-grows (r ∷ rounds) batch bytes (cmd ∷ rest) s =
    let popped = pop_front s cmd rest in
    let waited = if length rest == 0 then append_all r.arrivals popped else popped in
    let ih =
      gather-grows rounds (batch ++ (cmd ∷ [])) (bytes + (20 + length cmd.payload)) waited.queue
        waited in
    ground (arith, ih, length-append batch (cmd ∷ []))

-- From a queue that is not empty, something is taken.
pub gather_takes :
    (rounds : List Round) (batch : List StoredMessage) (bytes : ℕ) (cmd : StoredMessage)
    (rest : List StoredMessage) (s : PartitionStore)
    → length batch < length (gather rounds batch bytes (cmd ∷ rest) s).0
unfolding gather
gather_takes [] batch bytes cmd rest s = omega (arith, length-append batch (cmd ∷ []))
gather_takes (r ∷ rounds) batch bytes cmd rest s =
    let popped = pop_front s cmd rest in
    let waited = if length rest == 0 then append_all r.arrivals popped else popped in
    let grows =
      gather-grows rounds (batch ++ (cmd ∷ [])) (bytes + (20 + length cmd.payload)) waited.queue
        waited in
    ground (arith, grows, length-append batch (cmd ∷ []))
