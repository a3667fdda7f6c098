-- ===== src/Replication/Election.antt =====
-- Elections: `ReplicationServer::handle_leader_election` of replication/replication_server.cpp and
-- `ReplicationClient::maybe_elect_self` of replication/replication_client.cpp. The partition's
-- committed offset is an argument, `none` where the broker does not have the partition.
use fell.Base.{
  ℕ, ◌+◌, ◌%◌, ◌^◌, ◌≤◌, ◌<◌, ◌≡◌, ◌≢◌, refl, ◌⊎◌, Bool, true, false, List, Option, none, some, ltb,
  leb, ◌==◌, if◌then◌else◌, arith,
}
use fell.Replication.Meta.{PartitionRole, leader, follower, candidate, PartitionMeta}
use fell.Replication.Protocol.{LeaderElection}

-- `p && incoming_offset < p->committed_offset()`
abbrev pub is_behind : ℕ → Option ℕ → Bool
is_behind incoming_offset none = false
is_behind incoming_offset (some committed) = ltb incoming_offset committed

unfoldable pub handle_leader_election :
    ℕ → Option ℕ → LeaderElection → PartitionMeta → PartitionMeta
handle_leader_election broker_id committed le meta =
    if leb le.epoch meta.epoch
    then meta
    else if is_behind le.committed_offset committed
    then meta
    else record meta {
      epoch = le.epoch;
      leader_id = le.new_leader_id;
      role = if le.new_leader_id == broker_id then leader else follower;
    }

abbrev pub is_candidate : PartitionRole → Bool
is_candidate leader = false
is_candidate follower = false
is_candidate candidate = true

-- `maybe_elect_self`: the state after it, and the claim that it broadcasts, if any. The epoch is a
-- uint32_t.
unfoldable pub maybe_elect_self :
    ℕ → Option ℕ → List ℕ → ℕ → PartitionMeta → PartitionMeta × Option LeaderElection
maybe_elect_self broker_id none topic partition meta = (meta, none)
maybe_elect_self broker_id (some committed) topic partition meta =
    let epoch = (meta.epoch + 1) % 2 ^ 32 in
    if is_candidate meta.role then (meta, none) else (
      record meta { role = candidate; epoch = epoch },
      some (record {
        topic = topic;
        partition = partition;
        new_leader_id = broker_id;
        epoch = epoch;
        committed_offset = committed;
      }),
    )

-- A claim is taken exactly where its epoch is newer and its claimant has all that this broker has
-- committed; then the claimant leads with the claim's epoch. Any other claim changes nothing.
pub handle_leader_election-cases :
    (broker_id committed : ℕ) (le : LeaderElection) (meta : PartitionMeta)
    → let after = handle_leader_election broker_id (some committed) le meta in
      ((meta.epoch < le.epoch)
        × (committed ≤ le.committed_offset)
        × (after.epoch ≡ le.epoch)
        × (after.leader_id ≡ le.new_leader_id)
        × (le.new_leader_id ≡ broker_id → after.role ≡ leader)
        × (le.new_leader_id ≢ broker_id → after.role ≡ follower)
        × (after.replicas ≡ meta.replicas))
      ⊎ (((le.epoch ≤ meta.epoch) ⊎ (le.committed_offset < committed)) × (after ≡ meta))
unfolding handle_leader_election
handle_leader_election-cases broker_id committed le meta = ground arith

-- Epochs only grow: in every case a claim leaves the epoch at least as high, and where the leader
-- changes, strictly higher.
pub handle_leader_election-epoch :
    (broker_id : ℕ) (committed : Option ℕ) (le : LeaderElection) (meta : PartitionMeta)
    → let after = handle_leader_election broker_id committed le meta in
      (meta.epoch ≤ after.epoch) × ((after.leader_id ≡ meta.leader_id) ⊎ (meta.epoch < after.epoch))
unfolding handle_leader_election
handle_leader_election-epoch broker_id committed le meta = ground arith

-- A follower's claim at a peer that has the follower's old epoch, or an older one, and has committed
-- no more than the follower: the peer takes it.
pub elected :
    (me peer mine theirs : ℕ) (topic : List ℕ) (partition : ℕ) (meta other : PartitionMeta)
    → meta.role ≡ follower
    → meta.epoch + 1 < 2 ^ 32
    → other.epoch ≤ meta.epoch
    → theirs ≤ mine
    → (le : LeaderElection) × ((maybe_elect_self me (some mine) topic partition meta).1 ≡ some le)
      × ((handle_leader_election peer (some theirs) le other).leader_id ≡ me)
      × ((handle_leader_election peer (some theirs) le other).epoch ≡ meta.epoch + 1)
unfolding maybe_elect_self handle_leader_election
elected me peer mine theirs topic partition meta other r small older behind = (
  record {
    topic = topic;
    partition = partition;
    new_leader_id = me;
    epoch = (meta.epoch + 1) % 2 ^ 32;
    committed_offset = mine;
  },
  rw r refl,
  ground (arith, small, older, behind),
  ground (arith, small, older, behind),
)
