-- ===== src/Broker/Catalog.antt =====
-- The topic registry: what `create_topic` makes visible.
use fell.Base.{
  ℕ, zero, suc, ◌+◌, ◌^◌, ◌<◌, ◌≡◌, ◌≢◌, refl, ap, ◌∙◌, true, false, List, Option, none, some,
  length, get_elem?, find, find-put, find-put_other, arith,
}
use fell.Storage.{StorageOptions}
use fell.Storage.Store.{PartitionStore}
use fell.Storage.Recovery.{open_store}
use fell.Broker.Topics.{Topics, Disk, open_partitions, create_topic, get_partition, num_partitions}

length-open_partitions :
    (now : ℕ) (options : StorageOptions) (disk : Disk) (name : List ℕ) (i n : ℕ)
    → length (open_partitions now options disk name i n) ≡ n
length-open_partitions now options disk name i zero = refl
length-open_partitions now options disk name i (suc n) =
    ap suc (length-open_partitions now options disk name (suc i) n)

open_partitions-at :
    (now : ℕ) (options : StorageOptions) (disk : Disk) (name : List ℕ) (i n p : ℕ)
    → p < n
    → get_elem? (open_partitions now options disk name i n) p
      ≡ some (some (open_store now options (disk name (i + p))))
open_partitions-at now options disk name i zero p h = absurd (omega (arith, h))
open_partitions-at now options disk name i (suc n) zero h =
    ap (λ k. some (some (open_store now options (disk name k)))) {x = i} {y = i + 0} (omega arith)
open_partitions-at now options disk name i (suc n) (suc p) h =
    open_partitions-at now options disk name (suc i) n p (omega (arith, h))
    ∙ ap (λ k. some (some (open_store now options (disk name k)))) {x = suc i + p} {y = i + suc p}
        (omega arith)

module _ (now : ℕ) (options : StorageOptions) (disk : Disk) (name : List ℕ) (n : ℕ)
    (topics : Topics) where
  -- A topic that is not there yet is created with just the partitions asked for, each opened on its
  -- own directory. No other topic changes.
  pub create_topic_new :
      find name topics ≡ none
      → n < 2 ^ 16
      → let r = create_topic now options disk name n topics in
        (r.0 ≡ true)
        × (num_partitions name r.1 ≡ n)
        × ((p : ℕ) → p < n → get_partition name p r.1 ≡ some (open_store now options (disk name p)))
        × ((other : List ℕ) → name ≢ other → find other r.1 ≡ find other topics)
  unfolding create_topic num_partitions get_partition
  create_topic_new absent small =
      rw (create_topic, absent)
        (
          refl,
          rw (num_partitions, find-put name (open_partitions now options disk name 0 n) topics)
              (omega (arith, length-open_partitions now options disk name 0 n, small)),
          λ p h.
              rw
                (
                  get_partition,
                  find-put name (open_partitions now options disk name 0 n) topics,
                  open_partitions-at now options disk name 0 n p h,
                )
                (ap (λ k. some (open_store now options (disk name k))) {x = 0 + p} {y = p}
                  (omega arith)),
          λ other h. find-put_other name other _ topics h,
        )

  -- A topic that is there is left alone, with its partitions and all that they hold.
  pub create_topic_again :
      (partitions : List (Option PartitionStore))
      → find name topics ≡ some partitions
      → create_topic now options disk name n topics ≡ (false, topics)
  unfolding create_topic
  create_topic_again partitions present = rw (create_topic, present) refl
