-- ===== src/Storage/Store/Loop.antt =====
-- `PartitionStore::io_loop`: the I/O thread from one batch to the next, and how the destructor drains
-- the queue. What other threads and the disk do in a round is an argument.
use fell.Base.{
  ℕ, zero, suc, Bool, true, false, List, [], ◌∷◌, ◌++◌, Option, none, some, if◌then◌else◌,
}
use fell.Storage.{CommittedRecord}
use fell.Storage.Reader.{Outcome, ok, threw, stuck}
use fell.Storage.Store.{
  PartitionStore, Round, Commit, append, append_all, take_batch, io_round, shut_down,
}

-- What surrounds one round: the appends since the last one, whether the destructor has begun by now,
-- what happens while `take_batch` gathers, which writes succeed, and the clock.
pub record Surroundings : Type 0 where
  pub arrivals : List (ℕ × List ℕ)
  pub closing : Bool
  pub gathering : List Round
  pub io : ℕ → Bool
  pub now : ℕ

abbrev pub Ended : Type 0
Ended = Option (Outcome (PartitionStore × List Commit))

-- The state in which the round's `take_batch` finds the store.
unfoldable pub begin_round : Surroundings → PartitionStore → PartitionStore
unfolding append shut_down
begin_round e s =
    let arrived = append_all e.arrivals s in if e.closing then shut_down arrived else arrived

abbrev pub with_commit : Commit → Ended → Ended
with_commit c none = none
with_commit c (some threw) = some threw
with_commit c (some stuck) = some stuck
with_commit c (some (ok (last, commits))) = some (ok (last, c ∷ commits))

-- The body of the loop, with the rounds to come. A round that finds the queue empty ends the loop
-- after the shutdown, and waits for the next one before it.
unfoldable pub loop_round : (PartitionStore → Ended) → Surroundings → PartitionStore → Ended
unfolding take_batch io_round
loop_round next e s =
    let (batch, taken) = take_batch e.gathering s in
    elim batch [
      | [] ↦ elim taken.shutdown [ true ↦ some (ok (taken, [])) | false ↦ next taken ]
      | cmd ∷ cmds ↦ elim (io_round e.io e.now (cmd ∷ cmds) taken) [
        | threw ↦ some threw
        | stuck ↦ some stuck
        | ok (t, commit) ↦ with_commit commit (next t)
      ]
    ]

-- `io_loop` with `fuel` rounds from round `i` on: the store at its end and the commits that it handed
-- out, or `none` where it goes on.
unfoldable pub io_loop : ℕ → (ℕ → Surroundings) → ℕ → PartitionStore → Ended
unfolding begin_round loop_round
io_loop zero env i s = none
io_loop (suc fuel) env i s = loop_round (io_loop fuel env (suc i)) (env i) (begin_round (env i) s)

abbrev pub committed_records : List Commit → List CommittedRecord
committed_records [] = []
committed_records (c ∷ cs) = c.records ++ committed_records cs
