-- ===== src/Replication/Overrun.antt =====
-- What a follower makes of a catch-up whose bytes arrive in one read: its loop over the buffer with its handler.
use fell.Base.{Option, ℕ, ◌≡◌, List, [], ◌∷◌, some}
use fell.Storage.{StoredMessage}
use fell.Storage.Store.{PartitionStore}
use fell.Replication.Stream.{Looped, drained, overran}
use fell.Replication.Client.{ReplicationClient, disconnect}

module _ (now : ℕ) (epoch : ℕ → ℕ) (topic : List ℕ) (partition : ℕ) (p : PartitionStore)
    (c : ReplicationClient) (fd : ℕ) (connected : c.fd ≡ some fd) where
  -- How the loop ends behind a first record that was taken: where another one follows, its call disconnects.
  abbrev pub ends :
      PartitionStore
      → ReplicationClient
      → List StoredMessage
      → Looped (Option PartitionStore × ReplicationClient)
  ends r d [] = drained (some r, d) []
  ends r d (n ∷ ms) = overran (some r, disconnect d)
