-- ===== src/Replication/Quorum.antt =====
-- The quorum of `ReplicaManager`: which responses go out, when, and how often.
use fell.Base.{
  ℕ, ◌+◌, ◌%◌, ◌^◌, ◌≡◌, refl, ap, inl, inr, true, false, not, ◌&&◌, Bool-cases, List, [], ◌∷◌,
  ◌++◌, length, All, All-append, map, select, ltb, leb, ◌==◌, if◌then◌else◌, arith,
}
use fell.Storage.{CommittedRecord}
use fell.Replication.Manager.{
  PendingAck, ReplicaManager, Response, register_pending, try_release, quorum_met, is_done, member,
  acked_by, commit_loop, worker_round,
}

-- What an entry's response is on the wire: nothing, where it is empty.
abbrev pub response_of : PendingAck → List Response
response_of pa =
    if length pa.ack_response == 0 then [] else ((pa.producer_fd, pa.ack_response) ∷ [])

abbrev pub responses : List PendingAck → List Response
responses [] = []
responses (pa ∷ pas) = response_of pa ++ responses pas

-- An entry after the follower's acknowledgement, before anything is released.
abbrev pub after_ack : ℕ → ℕ → PendingAck → PendingAck
after_ack follower_id acked_offset pa =
    if ltb pa.offset acked_offset && not (member follower_id pa.acked_followers)
    then acked_by follower_id pa
    else pa

-- An entry after the leader's commit of `count` records from `base_offset` on.
abbrev pub after_commit : ℕ → ℕ → PendingAck → PendingAck
after_commit base_offset count pa =
    if leb base_offset pa.offset && ltb pa.offset ((base_offset + count) % 2 ^ 64)
    then record pa { leader_committed = true }
    else pa

-- No entry that waits has its quorum.
abbrev pub AllWait : List PendingAck → Type 0
AllWait = All (λ pa. is_done pa ≡ false)

quorum_met-is_done : (pa : PendingAck) → quorum_met pa ≡ is_done pa
quorum_met-is_done pa = ground arith

-- What a loop must do with the entries that it has changed.
record Settles (marked : List PendingAck) (to_send : List Response) (kept : List PendingAck)
    : Type 0 where
  sent : to_send ≡ responses (select is_done marked)
  waits : select (λ pa. not (is_done pa)) kept ≡ select (λ pa. not (is_done pa)) marked

ack_one :
    (pa : PendingAck) (marked : List PendingAck) (to_send : List Response) (kept : List PendingAck)
    → Settles marked to_send kept
    → Settles (pa ∷ marked) ((try_release pa).0 ++ to_send) ((try_release pa).1 ∷ kept)
unfolding try_release
ack_one pa marked to_send kept v = elim (Bool-cases (is_done pa)) [
  | inl done ↦
      rw (quorum_met-is_done pa, done)
        (record { sent = rw done (ap (◌++◌ (response_of pa)) v.sent); waits = rw done v.waits })
  | inr waiting ↦
      rw (quorum_met-is_done pa, waiting)
        (record { sent = rw waiting v.sent; waits = rw waiting (ap (◌∷◌ pa) v.waits) })
]

same_one :
    (pa : PendingAck) (marked : List PendingAck) (to_send : List Response) (kept : List PendingAck)
    → is_done pa ≡ false
    → Settles marked to_send kept
    → Settles (pa ∷ marked) to_send (pa ∷ kept)
same_one pa marked to_send kept waiting v = record {
  sent = rw waiting v.sent;
  waits = rw waiting (ap (◌∷◌ pa) v.waits);
}

commit_loop-Settles :
    (base_offset count : ℕ) (pas : List PendingAck)
    → AllWait pas
    → Settles
        (map (after_commit base_offset count) pas)
        (commit_loop base_offset count pas).0
        (commit_loop base_offset count pas).1
unfolding commit_loop
commit_loop-Settles base_offset count [] w = record { sent = refl; waits = refl }
commit_loop-Settles base_offset count (pa ∷ pas) (wp, w) =
    let rest = commit_loop-Settles base_offset count pas w in
    elim (Bool-cases
      (leb base_offset pa.offset && ltb pa.offset ((base_offset + count) % 2 ^ 64))) [
        | inl counts ↦ rw counts (ack_one (record pa { leader_committed = true }) _ _ _ rest)
        | inr ignored ↦ rw ignored (same_one pa _ _ _ wp rest)
      ]

AllWait-select : (pas : List PendingAck) → AllWait (select (λ pa. not (is_done pa)) pas)
AllWait-select [] = tt
AllWait-select (pa ∷ pas) = elim (Bool-cases (is_done pa)) [
  | inl done ↦ rw done (AllWait-select pas)
  | inr waiting ↦ rw waiting (waiting, AllWait-select pas)
]

-- A commit of the leader marks the entries of the committed range. Those that have their quorum with
-- it are removed and their responses sent, in order; all others wait on.
pub worker_round-AllWait :
    (base_offset : ℕ) (records : List CommittedRecord) (queue : List (ℕ × List CommittedRecord))
    (s : ReplicaManager)
    → s.commit_queue ≡ (base_offset, records) ∷ queue
    → AllWait s.pending
    → let r = worker_round s in
      let marked = map (after_commit base_offset (length records)) s.pending in
      (r.0 ≡ responses (select is_done marked))
      × (r.1.pending ≡ select (λ pa. not (is_done pa)) marked)
      × AllWait r.1.pending
unfolding worker_round
worker_round-AllWait base_offset records queue s e w =
    let v = commit_loop-Settles base_offset (length records) s.pending w in
    rw e (v.sent, v.waits, AllWait-select (commit_loop base_offset (length records) s.pending).1)

-- A new entry waits: not even a partition without followers answers before the leader's commit.
pub register_pending-AllWait :
    (offset : ℕ) (ack_response : List ℕ) (producer_fd : ℕ) (s : ReplicaManager)
    → AllWait s.pending
    → AllWait (register_pending offset ack_response producer_fd s).pending
unfolding register_pending
register_pending-AllWait offset ack_response producer_fd s w =
    All-append (λ pa. is_done pa ≡ false) s.pending _ w (refl, tt)
