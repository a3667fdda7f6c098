-- ===== src/Broker/Topics.antt =====
-- broker/topic_registry.cpp: the topics and their partitions. A partition that the recovery left out
-- is a null pointer, here `none`. What is on the disk is an argument.
use fell.Base.{
  ℕ, zero, suc, ◌%◌, ◌^◌, Bool, true, false, List, [], ◌∷◌, Option, none, some, length, get_elem?,
  find, put,
}
use fell.Storage.{StorageOptions, default_options}
use fell.Storage.Store.{PartitionStore, Segment}
use fell.Storage.Recovery.{open_store}

abbrev pub Topics : Type 0
Topics = List (List ℕ × List (Option PartitionStore))

-- The log files in the directory of each partition.
abbrev pub Disk : Type 0
Disk = List ℕ → ℕ → List Segment

-- The loop of `create_topic` from partition `i` on.
abbrev pub open_partitions :
    ℕ → StorageOptions → Disk → List ℕ → ℕ → ℕ → List (Option PartitionStore)
open_partitions now options disk name i zero = []
open_partitions now options disk name i (suc n) =
    some (open_store now options (disk name i)) ∷ open_partitions now options disk name (suc i) n

unfoldable pub create_topic : ℕ → StorageOptions → Disk → List ℕ → ℕ → Topics → Bool × Topics
create_topic now options disk name num_partitions topics = elim (find name topics) [
  | some partitions ↦ (false, topics)
  | none ↦ (true, put name (open_partitions now options disk name 0 num_partitions) topics)
]

unfoldable pub get_partition : List ℕ → ℕ → Topics → Option PartitionStore
get_partition topic partition topics = elim (find topic topics) [
  | none ↦ none
  | some partitions ↦ elim (get_elem? partitions partition) [ none ↦ none | some p ↦ p ]
]

unfoldable pub num_partitions : List ℕ → Topics → ℕ
num_partitions topic topics = elim (find topic topics) [
  | none ↦ 0
  | some partitions ↦ length partitions % 2 ^ 16
]

unfoldable pub list_topics : Topics → List (List ℕ × ℕ)
list_topics [] = []
list_topics ((name, partitions) ∷ topics) = (name, length partitions % 2 ^ 16) ∷ list_topics topics

-- `partitions[idx] = …`, after the vector was resized with null pointers where it is too short.
abbrev pub put_at : ℕ → PartitionStore → List (Option PartitionStore) → List (Option PartitionStore)
put_at zero s [] = some s ∷ []
put_at zero s (p ∷ ps) = some s ∷ ps
put_at (suc i) s [] = none ∷ put_at i s []
put_at (suc i) s (p ∷ ps) = p ∷ put_at i s ps

-- The store behind the pointer that `get_partition` returned, after it has changed.
unfoldable pub set_partition : List ℕ → ℕ → PartitionStore → Topics → Topics
set_partition topic partition s topics = elim (find topic topics) [
  | none ↦ topics
  | some partitions ↦ put topic (put_at partition s partitions) topics
]

-- `recover_all` for one topic's directory: the numbers of its partition directories, in the order in
-- which the directory lists them. The stores have the default options.
unfoldable pub recover_topic :
    ℕ → Disk → List ℕ → List ℕ → List (Option PartitionStore) → List (Option PartitionStore)
recover_topic now disk name [] partitions = partitions
recover_topic now disk name (idx ∷ dirs) partitions =
    recover_topic now disk name dirs
      (put_at idx (open_store now default_options (disk name idx)) partitions)

-- `recover_all`: the topics' directories with their partition directories.
unfoldable pub recover_all : ℕ → Disk → List (List ℕ × List ℕ) → Topics → Topics
unfolding recover_topic
recover_all now disk [] topics = topics
recover_all now disk ((name, []) ∷ dirs) topics = recover_all now disk dirs topics
recover_all now disk ((name, p ∷ ps) ∷ dirs) topics =
    recover_all now disk dirs (put name (recover_topic now disk name (p ∷ ps) []) topics)
