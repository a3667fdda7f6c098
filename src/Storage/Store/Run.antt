-- ===== src/Storage/Store/Run.antt =====
-- The threads of a partition store as a step relation: producers append, consumers fetch, callbacks
-- are registered, and the I/O thread takes a batch and writes it, in any order. A step holds the lock
-- that its method holds. Between taking and writing, the I/O thread has the batch.
use fell.Base.{
  ℕ, ◌+◌, ◌^◌, ◌≤◌, ◌<◌, ◌≡◌, refl, sym, ap, ◌∙◌, inl, inr, Bool, true, Bool-cases, List, [], ◌∷◌,
  ◌++◌, All, subst, some, Option-cases, length-append, append_assoc, ltb, arith,
}
use fell.Storage.{StoredMessage, IndexEntry}
use fell.Storage.Format.{log_of, log_of-append}
use fell.Storage.Reader.{ok}
use fell.Storage.Index.{load}
use fell.Storage.Store.{
  PartitionStore, Round, Commit, append, take_batch, io_round, shut_down, set_once_commit_callback,
  fetch, cached, cached_index, find_segment_for,
}
use fell.Storage.Store.Inv.{Inv, IsInput, append-Inv}
use fell.Storage.Store.Gather.{AreInputs, arrivals, take_batch-Inv}
use fell.Storage.Store.Rounds.{After, calm-Inv, io_round-After}
use fell.Storage.Store.Growth.{
  partition_log, Grown, Same-refl, Same-Grown, append-Same, gather-Same,
}

pub data Step
    : List StoredMessage → PartitionStore → List StoredMessage → PartitionStore → Type 0 where
  produces :
      {batch : List StoredMessage} {s : PartitionStore} (now : ℕ) (payload : List ℕ)
      → IsInput now payload
      → s.next_offset < 2 ^ 64
      → Step batch s batch (append now payload s).1
  registers :
      {batch : List StoredMessage} {s : PartitionStore} (offset cb : ℕ)
      → Step batch s batch (set_once_commit_callback offset cb s).1
  fetches :
      {batch : List StoredMessage} {s : PartitionStore} (offset max_count : ℕ)
      → Step batch s batch (fetch offset max_count s).1
  closes : {batch : List StoredMessage} {s : PartitionStore} → Step batch s batch (shut_down s)
  takes :
      {s : PartitionStore} (rounds : List Round)
      → All (λ r. AreInputs r.arrivals) rounds
      → s.next_offset + arrivals rounds ≤ 2 ^ 64
      → Step [] s (take_batch rounds s).0 (take_batch rounds s).1
  writes :
      {s t : PartitionStore} (io : ℕ → Bool) (now : ℕ) (cmd : StoredMessage)
      (cmds : List StoredMessage) (c : Commit)
      → io_round io now (cmd ∷ cmds) s ≡ ok (t, c)
      → Step (cmd ∷ cmds) s [] t

pub data Steps
    : List StoredMessage → PartitionStore → List StoredMessage → PartitionStore → Type 0 where
  done : {batch : List StoredMessage} {s : PartitionStore} → Steps batch s batch s
  moves :
      {a b c : List StoredMessage} {s t u : PartitionStore}
      → Step a s b t
      → Steps b t c u
      → Steps a s c u

register-After :
    (batch recs : List StoredMessage) (s : PartitionStore) (offset cb : ℕ)
    → Inv batch recs s
    → After batch s (set_once_commit_callback offset cb s).1
unfolding set_once_commit_callback
register-After batch recs s offset cb v = elim (Bool-cases (ltb offset s.committed_offset)) [
  | inl past ↦ rw past (record { recs = recs; inv = v; grown = Same-Grown s s (Same-refl s) })
  | inr coming ↦ rw coming (record {
    recs = recs;
    inv =
        calm-Inv batch recs s s.segment_cache (s.once_callbacks ++ ((offset, cb) ∷ [])) s.shutdown
          v;
    grown = Same-Grown s _ (record { sealed = refl; active = refl; committed = refl });
  })
]

fetch_keeps :
    (offset max_count : ℕ) (s : PartitionStore)
    → (cache : List (ℕ × List IndexEntry)) × ((fetch offset max_count s).1
        ≡ record s { segment_cache = cache })
unfolding fetch
fetch_keeps offset max_count s = elim (Option-cases (find_segment_for offset s)) [
  | inl nowhere ↦ (s.segment_cache, rw (fetch, nowhere) refl)
  | inr (g, there) ↦ elim (Option-cases (cached g.base_offset s.segment_cache)) [
    | inl fresh ↦ (
      (g.base_offset, load (some g.index)) ∷ s.segment_cache,
      rw (fetch, there, cached_index, fresh) refl,
    )
    | inr (es, known) ↦ (s.segment_cache, rw (fetch, there, cached_index, known) refl)
  ]
]

fetch-After :
    (batch recs : List StoredMessage) (s : PartitionStore) (offset max_count : ℕ)
    → Inv batch recs s
    → After batch s (fetch offset max_count s).1
fetch-After batch recs s offset max_count v =
    let (cache, e) = fetch_keeps offset max_count s in
    subst (After batch s) (sym e) (record {
      recs = recs;
      inv = calm-Inv batch recs s cache s.once_callbacks s.shutdown v;
      grown = Same-Grown s _ (record { sealed = refl; active = refl; committed = refl });
    })

Step-After :
    {a b : List StoredMessage} {s t : PartitionStore} (recs : List StoredMessage)
    → Inv a recs s
    → Step a s b t
    → After b s t
unfolding take_batch shut_down
Step-After {a} {b} {s} {t} recs v (produces now payload i room) = record {
  recs = recs;
  inv = append-Inv now payload s a recs v i room;
  grown = Same-Grown s _ (append-Same now payload s);
}
Step-After {a} {b} {s} {t} recs v (registers offset cb) = register-After a recs s offset cb v
Step-After {a} {b} {s} {t} recs v (fetches offset max_count) =
    fetch-After a recs s offset max_count v
Step-After {a} {b} {s} {t} recs v closes = record {
  recs = recs;
  inv = calm-Inv a recs s s.segment_cache s.once_callbacks true v;
  grown = Same-Grown s _ (record { sealed = refl; active = refl; committed = refl });
}
Step-After {a} {b} {s} {t} recs v (takes rounds i room) = record {
  recs = recs;
  inv = take_batch-Inv rounds recs s v i room;
  grown = Same-Grown s _ (gather-Same rounds [] 0 s.queue s);
}
Step-After {a} {b} {s} {t} recs v (writes io now cmd cmds c e) =
    io_round-After io now cmd cmds recs s v t c e

-- However the threads interleave, a store that satisfies the invariant goes on satisfying it, its
-- committed offset never falls, and no byte of its logs that was there is changed: what is added is
-- the encoding of as many records as the committed offset has moved.
pub Steps-Inv :
    {a b : List StoredMessage} {s t : PartitionStore} (recs : List StoredMessage)
    → Inv a recs s
    → Steps a s b t
    → (now_active : List StoredMessage) × (Inv b now_active t × Grown s t)
Steps-Inv {a} {b} {s} {t} recs v done = (recs, (v, Same-Grown s s (Same-refl s)))
Steps-Inv {a} {b} {s} {t} recs v (moves step more) =
    let first = Step-After recs v step in
    let (now_active, (inv, later)) = Steps-Inv first.recs first.inv more in
    (
      now_active,
      (
        inv,
        record {
          news = first.grown.news ++ later.news;
          log =
              later.log
              ∙ ap (λ l. l ++ log_of later.news) first.grown.log
              ∙ append_assoc (partition_log s) (log_of first.grown.news) (log_of later.news)
              ∙ ap (◌++◌ (partition_log s)) (sym (log_of-append first.grown.news later.news));
          committed = omega (
            arith,
            first.grown.committed,
            later.committed,
            length-append first.grown.news later.news,
          );
        },
      ),
    )
