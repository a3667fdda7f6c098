-- ===== src/Replication/CatchUp.antt =====
-- The catch-up of a follower: what `handle_fetch_log` sends, and that its loop ends.
use fell.Base.{
  ℕ, ◌+◌, ◌≤◌, ◌<◌, ◌≡◌, refl, sym, ap, ◌∙◌, List, [], ◌∷◌, ◌++◌, length, take, drop, ◌^◌,
  append_assoc,
}
use fell.Storage.{StoredMessage}
use fell.Storage.Reader.{ok}
use fell.Storage.Store.{PartitionStore, fetch}
use fell.Storage.Store.Inv.{Holds}
use fell.Storage.Store.Fetch.{IsCacheOf}
use fell.Replication.Protocol.{sync_frame}
use fell.Replication.Server.{sync_frames}

-- Whenever the handler looks, the committed offset counts records of this list, and a fetch below it
-- returns some of them, in order and none left out.
abbrev pub Serves : List StoredMessage → (ℕ → PartitionStore) → Type 0
Serves recs look =
    (k offset : ℕ)
    → offset < (look k).committed_offset
    → (n : ℕ) × (0 < n)
      × (offset + n ≤ length recs)
      × ((fetch offset 128 (look (k + 1))).0 ≡ ok (take n (drop offset recs)))

-- A partition whose records so far are in one segment from offset 0 on, of the records of this list.
pub record Unrotated (recs : List StoredMessage) (s : PartitionStore) : Type 0 where
  pub held : List StoredMessage
  pub later : List StoredMessage
  pub begins : recs ≡ held ++ later
  pub unsealed : s.sealed_segments ≡ []
  pub from_zero : s.writer.base_offset ≡ 0
  pub active_from_zero : s.active.base_offset ≡ 0
  pub holds : Holds s.active held
  pub cache : IsCacheOf s.active held s
  pub small : length s.active.log < 2 ^ 64
  pub written : s.committed_offset ≤ length held

module _ (epoch : ℕ → ℕ) (topic : List ℕ) (partition : ℕ) where
  pub sync_frames-append :
      (xs ys : List StoredMessage)
      → sync_frames epoch topic partition (xs ++ ys)
        ≡ sync_frames epoch topic partition xs ++ sync_frames epoch topic partition ys
  sync_frames-append [] ys = refl
  sync_frames-append (x ∷ xs) ys =
      ap (◌++◌ (sync_frame topic partition (epoch x.offset) x)) (sync_frames-append xs ys)
      ∙ sym (append_assoc (sync_frame topic partition (epoch x.offset) x) _ _)
