-- ===== src/Replication/Isr.antt =====
-- The in-sync replicas of `PartitionMeta`.
use fell.Base.{
  ℕ, ◌+◌, ◌-◌, ◌%◌, ◌^◌, ◌≤◌, ◌<◌, ◌≡◌, ◌≢◌, refl, inl, inr, true, false, ◌&&◌, Bool-cases, List,
  [], ◌∷◌, All, ltb, ◌==◌, arith,
}
use fell.Replication.Meta.{ReplicaState, isr_acked, acknowledged, on_replica_ack, tick_isr}

-- Two lists of replicas in step, related one by one.
abbrev pub Pairwise :
    (ReplicaState → ReplicaState → Type 0) → List ReplicaState → List ReplicaState → Type 0
Pairwise R [] [] = Unit {0}
Pairwise R [] (y ∷ ys) = ⊥
Pairwise R (x ∷ xs) [] = ⊥
Pairwise R (x ∷ xs) (y ∷ ys) = R x y × Pairwise R xs ys

-- What an acknowledgement may do to a replica: its own moves its offset up to the one acknowledged,
-- and may bring it back into the ISR where it is within the lag; the others are left alone.
pub record Advances (broker_id acked_offset max_lag leader_committed : ℕ) (r t : ReplicaState)
    : Type 0 where
  pub same_id : t.broker_id ≡ r.broker_id
  pub forward : r.ack_offset ≤ t.ack_offset
  pub stays : r.in_isr ≡ true → t.in_isr ≡ true
  pub others : r.broker_id ≢ broker_id → t ≡ r
  pub joins :
      r.in_isr ≡ false
      → t.in_isr ≡ true
      → (t.ack_offset ≤ leader_committed) × (leader_committed - t.ack_offset ≤ max_lag)

module _ (broker_id acked_offset max_lag leader_committed : ℕ) where
  unmoved :
      (rs : List ReplicaState)
      → Pairwise (Advances broker_id acked_offset max_lag leader_committed) rs rs
  unmoved [] = tt
  unmoved (r ∷ rs) = (
    record {
      same_id = refl;
      forward = omega arith;
      stays = λ h. h;
      others = λ h. refl;
      joins = λ out now. absurd (ground (arith, out, now));
    },
    unmoved rs,
  )

  acknowledged-Advances :
      (r : ReplicaState)
      → r.broker_id ≡ broker_id
      → Advances broker_id acked_offset max_lag leader_committed r
          (acknowledged acked_offset max_lag leader_committed r)
  acknowledged-Advances r e = record {
    same_id = refl;
    forward = omega arith;
    stays = λ h. ground (arith, h);
    others = λ h. absurd (h e);
    joins = λ out now. ground (arith, out, now);
  }

  -- An acknowledgement never moves a replica's offset back nor takes a replica out of the ISR, it
  -- changes no replica but the one that sent it, and it brings back only one that is within the
  -- allowed lag of the leader's committed offset.
  pub on_replica_ack-Advances :
      (rs : List ReplicaState)
      → Pairwise
          (Advances broker_id acked_offset max_lag leader_committed)
          rs
          (on_replica_ack broker_id acked_offset max_lag leader_committed rs)
  unfolding on_replica_ack
  on_replica_ack-Advances [] = tt
  on_replica_ack-Advances (r ∷ rs) = elim (Bool-cases (r.broker_id == broker_id)) [
    | inl here ↦ rw here (acknowledged-Advances r (ground (arith, here)), unmoved rs)
    | inr there ↦ rw there ((unmoved (r ∷ rs)).0, on_replica_ack-Advances rs)
  ]

-- Every replica of the ISR has the offset.
abbrev pub AllAcked : ℕ → List ReplicaState → Type 0
AllAcked offset = All (λ r. r.in_isr ≡ true → offset ≤ r.ack_offset)

-- `isr_acked` decides that all replicas of the ISR have acknowledged the offset.
pub isr_acked-AllAcked :
    (offset : ℕ) (rs : List ReplicaState)
    → (isr_acked offset rs ≡ true → AllAcked offset rs)
      × (AllAcked offset rs → isr_acked offset rs ≡ true)
unfolding isr_acked
isr_acked-AllAcked offset [] = (λ e. tt, λ a. refl)
isr_acked-AllAcked offset (r ∷ rs) =
    let (to, from) = isr_acked-AllAcked offset rs in
    elim (Bool-cases (r.in_isr && ltb r.ack_offset offset)) [
      | inl behind ↦ rw behind (
        λ e. absurd (ground (arith, e)),
        λ a. absurd (ground (arith, behind, a.0 (ground (arith, behind)))),
      )
      | inr fine ↦ rw fine (λ e. (λ inside. ground (arith, inside, fine), to e), λ a. from a.1)
    ]

-- What a tick may do to a replica.
pub record Ticked (leader_id now_ms timeout_ms : ℕ) (r t : ReplicaState) : Type 0 where
  pub same_id : t.broker_id ≡ r.broker_id
  pub same_ack : t.ack_offset ≡ r.ack_offset
  pub leader_kept : r.broker_id ≡ leader_id → t ≡ r
  pub recent_kept : now_ms - r.last_seen_ms ≤ timeout_ms → t ≡ r
  pub late_out : r.broker_id ≢ leader_id → timeout_ms < now_ms - r.last_seen_ms → t.in_isr ≡ false

-- Where no replica was seen after `now_ms`, a tick takes out of the ISR the followers that were last
-- seen longer ago than the timeout, and changes neither another follower nor the leader.
pub tick_isr-Ticked :
    (leader_id now_ms timeout_ms : ℕ) (rs : List ReplicaState)
    → now_ms < 2 ^ 64
    → All (λ r. r.last_seen_ms ≤ now_ms) rs
    → Pairwise (Ticked leader_id now_ms timeout_ms) rs (tick_isr leader_id now_ms timeout_ms rs)
unfolding tick_isr
tick_isr-Ticked leader_id now_ms timeout_ms [] bound seen = tt
tick_isr-Ticked leader_id now_ms timeout_ms (r ∷ rs) bound (seen_r, seen) =
    let rest = tick_isr-Ticked leader_id now_ms timeout_ms rs bound seen in
    let no_wrap : (now_ms + 2 ^ 64 - r.last_seen_ms) % 2 ^ 64 ≡ now_ms - r.last_seen_ms =
      omega (arith, bound, seen_r) in
    elim (Bool-cases (r.broker_id == leader_id)) [
      | inl leads ↦ rw leads (
        record {
          same_id = refl;
          same_ack = refl;
          leader_kept = λ h. refl;
          recent_kept = λ h. refl;
          late_out = λ h. absurd (h (ground (arith, leads)));
        },
        rest,
      )
      | inr follows ↦
          elim (Bool-cases
            (r.in_isr && ltb timeout_ms ((now_ms + 2 ^ 64 - r.last_seen_ms) % 2 ^ 64))) [
              | inl late ↦
                  rw (follows, late)
                    (
                      record {
                        same_id = refl;
                        same_ack = refl;
                        leader_kept = λ h. absurd (ground (arith, h, follows));
                        recent_kept = λ h. absurd (ground (arith, h, late, no_wrap));
                        late_out = λ h k. refl;
                      },
                      rest,
                    )
              | inr kept ↦
                  rw (follows, kept)
                    (
                      record {
                        same_id = refl;
                        same_ack = refl;
                        leader_kept = λ h. refl;
                        recent_kept = λ h. refl;
                        late_out = λ h k. ground (arith, k, kept, no_wrap);
                      },
                      rest,
                    )
            ]
    ]
