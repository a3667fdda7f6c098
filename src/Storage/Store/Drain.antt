-- ===== src/Storage/Store/Drain.antt =====
-- How the destructor drains the queue: the proofs about `io_loop` after the shutdown.
use fell.Base.{
  List-cases, ℕ, zero, suc, ◌+◌, ◌<◌, ◌≡◌, refl, sym, ap, ap₂, ◌∙◌, inl, inr, true, Bool-cases,
  List, [], ◌∷◌, ◌++◌, some, length, length-append, append_assoc, append-nil, if◌then◌else◌, ◌==◌,
  arith, subst,
}
use fell.Storage.{AppendCommand, StoredMessage}
use fell.Storage.Format.{log_of, log_of-append}
use fell.Storage.Reader.{ok}
use fell.Storage.Store.{
  PartitionStore, Round, Commit, append, append_all, result_closed, pop_front, batch_full, gather,
  take_batch, io_round, shut_down,
}
use fell.Storage.Store.Inv.{Inv, append_cases}
use fell.Storage.Store.Gather.{pop_front-Inv, gather_takes}
use fell.Storage.Store.Growth.{partition_log}
use fell.Storage.Store.Rounds.{Advanced, io_round-Advanced, io_round_total}
use fell.Storage.Store.Loop.{
  Surroundings, Ended, begin_round, loop_round, io_loop, committed_records,
}

append_closed :
    (now : ℕ) (payload : List ℕ) (s : PartitionStore)
    → s.shutdown ≡ true
    → append now payload s ≡ (result_closed, s)
append_closed now payload s closed = elim (append_cases now payload s) [
  | inl (_, e) ↦ e
  | inr (inl (runs, _, _)) ↦ absurd (ground (arith, closed, runs))
  | inr (inr (runs, _, _, _)) ↦ absurd (ground (arith, closed, runs))
]

-- After the shutdown, appends change nothing.
append_all_closed :
    (calls : List (ℕ × List ℕ)) (s : PartitionStore) → s.shutdown ≡ true → append_all calls s ≡ s
append_all_closed [] s closed = refl
append_all_closed ((now, payload) ∷ calls) s closed =
    ap (append_all calls) (ap (λ r. r.1) (append_closed now payload s closed))
    ∙ append_all_closed calls s closed

-- What gathering does after the shutdown.
record Drained (batch q : List StoredMessage) (s : PartitionStore)
    (r : List AppendCommand × PartitionStore) : Type 0 where
  queue : r.0 ++ r.1.queue ≡ batch ++ q
  shutdown : r.1.shutdown ≡ true
  next_offset : r.1.next_offset ≡ s.next_offset
  committed : r.1.committed_offset ≡ s.committed_offset
  log : partition_log r.1 ≡ partition_log s
  inv : (recs : List StoredMessage) → Inv batch recs s → Inv r.0 recs r.1

popped-Drained :
    (batch : List StoredMessage) (cmd : StoredMessage) (rest : List StoredMessage)
    (s : PartitionStore)
    → cmd ∷ rest ≡ s.queue
    → s.shutdown ≡ true
    → Drained batch (cmd ∷ rest) s (batch ++ (cmd ∷ []), pop_front s cmd rest)
popped-Drained batch cmd rest s e closed = record {
  queue = append_assoc batch (cmd ∷ []) rest;
  shutdown = closed;
  next_offset = refl;
  committed = refl;
  log = refl;
  inv = λ recs v. pop_front-Inv recs batch cmd rest s e v;
}

nothing-Drained :
    (batch : List StoredMessage) (s : PartitionStore)
    → [] ≡ s.queue
    → s.shutdown ≡ true
    → Drained batch [] s (batch, s)
nothing-Drained batch s e closed = record {
  queue = ap (◌++◌ batch) (sym e);
  shutdown = closed;
  next_offset = refl;
  committed = refl;
  log = refl;
  inv = λ recs v. v;
}

gather-Drained :
    (rounds : List Round) (batch : List StoredMessage) (bytes : ℕ) (q : List StoredMessage)
    (s : PartitionStore)
    → q ≡ s.queue
    → s.shutdown ≡ true
    → Drained batch q s (gather rounds batch bytes q s)
unfolding gather
gather-Drained [] batch bytes [] s e closed = nothing-Drained batch s e closed
gather-Drained (r ∷ rounds) batch bytes [] s e closed = nothing-Drained batch s e closed
gather-Drained [] batch bytes (cmd ∷ rest) s e closed = popped-Drained batch cmd rest s e closed
gather-Drained (r ∷ rounds) batch bytes (cmd ∷ rest) s e closed =
    let popped = pop_front s cmd rest in
    let waited = if length rest == 0 then append_all r.arrivals popped else popped in
    let bytes' = bytes + (20 + length cmd.payload) in
    let same : popped ≡ waited =
      ground (arith, append_all_closed r.arrivals (pop_front s cmd rest) closed) in
    let d = gather-Drained rounds (batch ++ (cmd ∷ [])) bytes' rest popped refl closed in
    let on : Drained batch (cmd ∷ rest) s (gather rounds (batch ++ (cmd ∷ [])) bytes' rest popped) =
      record {
        queue = d.queue ∙ append_assoc batch (cmd ∷ []) rest;
        shutdown = d.shutdown;
        next_offset = d.next_offset;
        committed = d.committed;
        log = d.log;
        inv = λ recs v. d.inv recs (pop_front-Inv recs batch cmd rest s e v);
      } in
    let more =
      subst
        (λ w. Drained batch (cmd ∷ rest) s (gather rounds (batch ++ (cmd ∷ [])) bytes' w.queue w))
        same on in
    elim (Bool-cases (batch_full s.options (length (batch ++ (cmd ∷ []))) bytes')) [
      | inl full ↦ rw full (popped-Drained batch cmd rest s e closed)
      | inr not_full ↦ rw not_full (elim (Bool-cases r.late) [
        | inl late ↦ rw late (popped-Drained batch cmd rest s e closed)
        | inr early ↦ rw early more
      ])
    ]

begin_round_closed :
    (e : Surroundings) (s : PartitionStore) → s.shutdown ≡ true → begin_round e s ≡ s
unfolding begin_round shut_down
begin_round_closed e s closed =
    let same = append_all_closed e.arrivals s closed in
    elim (Bool-cases e.closing) [
      | inl closes ↦ rw closes (
          ap shut_down same
          ∙ ap (λ b. record s { shutdown = b }) {x = true} {y = s.shutdown} (sym closed))
      | inr stays ↦ rw stays same
    ]

-- What the destructor waits for.
record Flushed (s : PartitionStore) (ended : Ended) : Type 0 where
  last : PartitionStore
  commits : List Commit
  returns : ended ≡ some (ok (last, commits))
  emptied : last.queue ≡ []
  committed : last.committed_offset ≡ s.next_offset
  log : partition_log last ≡ partition_log s ++ log_of s.queue
  handed : committed_records commits ≡ s.queue

take_batch-Drained :
    (rounds : List Round) (s : PartitionStore)
    → s.shutdown ≡ true
    → Drained [] s.queue s (take_batch rounds s)
unfolding take_batch
take_batch-Drained rounds s closed = gather-Drained rounds [] 0 s.queue s refl closed

take_batch_takes :
    (rounds : List Round) (s : PartitionStore) → (take_batch rounds s).0 ≡ [] → s.queue ≡ []
unfolding take_batch
take_batch_takes rounds s e = elim (List-cases s.queue) [
  | inl empty ↦ empty
  | inr (cmd, rest, busy) ↦
      let taken =
        subst (λ q. 0 < length (gather rounds [] 0 q s).0) (sym busy)
          (gather_takes rounds [] 0 cmd rest s) in
      absurd (omega (arith, taken, ap length e))
]

-- A round that finds nothing.
idle_round :
    (next : PartitionStore → Ended) (e : Surroundings) (s : PartitionStore)
    (recs : List StoredMessage)
    → Inv [] recs s
    → s.shutdown ≡ true
    → (take_batch e.gathering s).0 ≡ []
    → Flushed s (loop_round next e s)
unfolding loop_round
idle_round next e s recs v closed nothing =
    let d = take_batch-Drained e.gathering s closed in
    let empty = take_batch_takes e.gathering s nothing in
    record {
      last = (take_batch e.gathering s).1;
      commits = [];
      returns = rw (loop_round, nothing, d.shutdown) refl;
      emptied = ap (λ b. b ++ (take_batch e.gathering s).1.queue) (sym nothing) ∙ d.queue ∙ empty;
      committed = omega (arith, d.committed, v.committed, v.assigned, ap length empty);
      log =
          d.log
          ∙ sym (append-nil (partition_log s))
          ∙ ap (λ q. partition_log s ++ log_of q) (sym empty);
      handed = sym empty;
    }

-- A round that writes a batch, with what the rounds behind it do.
busy_round :
    (next : PartitionStore → Ended) (e : Surroundings) (s t : PartitionStore) (cmd : StoredMessage)
    (cmds : List StoredMessage) (c : Commit)
    → Drained [] s.queue s (take_batch e.gathering s)
    → (take_batch e.gathering s).0 ≡ cmd ∷ cmds
    → io_round e.io e.now (cmd ∷ cmds) (take_batch e.gathering s).1 ≡ ok (t, c)
    → c.records ≡ cmd ∷ cmds
    → Advanced (cmd ∷ cmds) (take_batch e.gathering s).1 t
    → Flushed t (next t)
    → Flushed s (loop_round next e s)
unfolding loop_round
busy_round next e s t cmd cmds c d some_taken run out a f =
    let taken = (take_batch e.gathering s).1 in
    let whole : (cmd ∷ cmds) ++ t.queue ≡ s.queue =
      ap (◌++◌ (cmd ∷ cmds)) a.leaves.queue
      ∙ ap (λ b. b ++ taken.queue) (sym some_taken)
      ∙ d.queue in
    record {
      last = f.last;
      commits = c ∷ f.commits;
      returns = rw (loop_round, some_taken, run, f.returns) refl;
      emptied = f.emptied;
      committed = f.committed ∙ a.leaves.next_offset ∙ d.next_offset;
      log =
          f.log
          ∙ ap (λ l. l ++ log_of t.queue) (a.log ∙ ap (λ l. l ++ log_of (cmd ∷ cmds)) d.log)
          ∙ append_assoc (partition_log s) (log_of (cmd ∷ cmds)) (log_of t.queue)
          ∙ ap (◌++◌ (partition_log s)) (sym (log_of-append (cmd ∷ cmds) t.queue))
          ∙ ap (λ q. partition_log s ++ log_of q) whole;
      handed = ap₂ (◌++◌) out f.handed ∙ whole;
    }

module _ (env : ℕ → Surroundings) (all : (i j : ℕ) → (env i).io j ≡ true) where
  flush :
      (fuel i : ℕ) (recs : List StoredMessage) (s : PartitionStore)
      → Inv [] recs s
      → s.shutdown ≡ true
      → length s.queue < fuel
      → Flushed s (io_loop fuel env i s)
  unfolding io_loop
  flush zero i recs s v closed enough = absurd (omega (arith, enough))
  flush (suc fuel) i recs s v closed enough =
      subst (λ w. Flushed s (loop_round (io_loop fuel env (suc i)) (env i) w))
        (sym (begin_round_closed (env i) s closed))
        (elim (List-cases (take_batch (env i).gathering s).0) [
          | inl nothing ↦ idle_round (io_loop fuel env (suc i)) (env i) s recs v closed nothing
          | inr (cmd, cmds, some_taken) ↦
              let taken = (take_batch (env i).gathering s).1 in
              let d = take_batch-Drained (env i).gathering s closed in
              let inv =
                subst (λ b. Inv b recs (take_batch (env i).gathering s).1) some_taken
                  (d.inv recs v) in
              let (t, c, run, out) =
                io_round_total (env i).io (env i).now cmd cmds recs taken inv (all i) in
              let a = io_round-Advanced (env i).io (env i).now cmd cmds recs taken inv t c run in
              let fewer : length t.queue < fuel = omega (
                arith,
                enough,
                ap length some_taken,
                ap length d.queue,
                ap length a.leaves.queue,
                length-append (take_batch (env i).gathering s).0 taken.queue,
              ) in
              busy_round (io_loop fuel env (suc i)) (env i) s t cmd cmds c d some_taken run out a
                (flush fuel (suc i) a.recs t a.inv (a.leaves.shutdown ∙ d.shutdown) fewer)
        ])

-- After the shutdown, `io_loop` ends within as many rounds as there are commands in the queue and one
-- more, if all writes go through, whatever other threads still try to append: every accepted record is
-- then in the log behind the earlier ones and in order, is counted by the committed offset, and was
-- handed to the commit callback exactly once.
pub io_loop_flushes :
    (env : ℕ → Surroundings) (fuel i : ℕ) (recs : List StoredMessage) (s : PartitionStore)
    → ((i j : ℕ) → (env i).io j ≡ true)
    → Inv [] recs s
    → s.shutdown ≡ true
    → length s.queue < fuel
    → (last : PartitionStore) × (commits : List Commit) × (io_loop fuel env i s
        ≡ some (ok (last, commits)))
      × (last.queue ≡ [])
      × (last.committed_offset ≡ s.next_offset)
      × (partition_log last ≡ partition_log s ++ log_of s.queue)
      × (committed_records commits ≡ s.queue)
io_loop_flushes env fuel i recs s all v closed enough =
    let f = flush env all fuel i recs s v closed enough in
    (f.last, f.commits, f.returns, f.emptied, f.committed, f.log, f.handed)
