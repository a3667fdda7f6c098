-- ===== src/Replication/Candidate.antt =====
-- What becomes of a follower whose leader is down.
use fell.Base.{
  ℕ, ◌%◌, ◌+◌, ◌^◌, ◌≡◌, refl, sym, ap, ◌∙◌, ◌⊎◌, inl, inr, true, Bool-cases, subst, List, [], none,
  some, Option, ◌==◌, arith,
}
use fell.Replication.Meta.{PartitionMeta, follower, candidate}
use fell.Replication.Election.{maybe_elect_self}
use fell.Replication.Client.{ReplicationClient, Peer, find_peer, elect, connect_to_leader}

module _ (committed later : ℕ) (peers : List Peer) (c : ReplicationClient) where
  -- The leader cannot be reached: connecting to it fails, or the broker itself is noted as the leader.
  abbrev pub IsDown : PartitionMeta → Type 0
  IsDown meta =
      ((id : ℕ) × (find_peer meta.leader_id peers ≡ some (id, none)))
      ⊎ (meta.leader_id ≡ c.broker_id)

  down_elects :
      (offset : Option ℕ) (meta : PartitionMeta)
      → c.fd ≡ none
      → IsDown meta
      → connect_to_leader offset peers meta c ≡ elect offset peers meta c
  unfolding connect_to_leader
  down_elects offset meta idle (inr own) =
      let here : (meta.leader_id == c.broker_id) ≡ true = ground (arith, own) in
      simp (connect_to_leader, idle, here)
  down_elects offset meta idle (inl (id, down)) =
      elim (Bool-cases (meta.leader_id == c.broker_id)) [
        | inl here ↦ simp (connect_to_leader, idle, here)
        | inr other ↦ simp (connect_to_leader, idle, other, down)
      ]

  waits :
      (offset : Option ℕ) (meta : PartitionMeta)
      → meta.role ≡ candidate
      → elect offset peers meta c ≡ record { sends = []; client = c; meta = meta }
  unfolding elect maybe_elect_self
  waits none meta r = refl
  waits (some n) meta r = rw r refl

  claimed_role :
      (meta : PartitionMeta)
      → meta.role ≡ follower
      → let after = (elect (some committed) peers meta c).meta in
        (after.role ≡ candidate)
        × (after.leader_id ≡ meta.leader_id)
        × (after.epoch ≡ (meta.epoch + 1) % 2 ^ 32)
  unfolding elect maybe_elect_self
  claimed_role meta r = rw r (refl, refl, refl)

  -- A follower that cannot reach its leader becomes a candidate of the next epoch, with the leader that
  -- it had. As long as that leader stays down, connecting again sends nothing and changes nothing: the
  -- candidate neither leads nor claims again.
  pub candidate_stays :
      (meta : PartitionMeta)
      → meta.role ≡ follower
      → c.fd ≡ none
      → IsDown meta
      → let after = (connect_to_leader (some committed) peers meta c).meta in
        (after.role ≡ candidate)
        × (after.leader_id ≡ meta.leader_id)
        × (after.epoch ≡ (meta.epoch + 1) % 2 ^ 32)
        × (connect_to_leader (some later) peers after c
            ≡ record { sends = []; client = c; meta = after })
  candidate_stays meta r idle down =
      let (role, leader, epoch) = claimed_role meta r in
      let after = (elect (some committed) peers meta c).meta in
      let still_down : IsDown after =
        subst (λ l. ((id : ℕ) × (find_peer l peers ≡ some (id, none))) ⊎ (l ≡ c.broker_id))
          (sym leader) down in
      subst
        (λ m.
          (m.role ≡ candidate)
          × (m.leader_id ≡ meta.leader_id)
          × (m.epoch ≡ (meta.epoch + 1) % 2 ^ 32)
          × (connect_to_leader (some later) peers m c
              ≡ record { sends = []; client = c; meta = m }))
        (ap (λ x. x.meta) (sym (down_elects (some committed) meta idle down)))
        (
          role,
          leader,
          epoch,
          down_elects (some later) after idle still_down ∙ waits (some later) after role,
        )
