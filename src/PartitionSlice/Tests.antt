-- ===== src/PartitionSlice/Tests.antt =====
-- The tests of partition_slice.rs: multiples of ten go to the front.
use cretonne.Prelude.{ℕ, ◌≡◌, refl, ◌%◌, Bool, ◌==◌, some, [], ◌∷◌}
use cretonne.PartitionSlice.{partition_slice}
use cretonne.PartitionSlice.Laws.{Partitioned, partition_slice-Partitioned}

abbrev tens : ℕ → Bool
tens n = n % 10 == 0

longer : partition_slice tens (1 ∷ 20 ∷ 3 ∷ 10 ∷ []) ≡ some (20 ∷ 10 ∷ 3 ∷ 1 ∷ [], 2)
unfolding partition_slice
longer = refl

partition_slice-Partitioned_example :
    Partitioned tens (1 ∷ 20 ∷ 3 ∷ 10 ∷ []) (partition_slice tens (1 ∷ 20 ∷ 3 ∷ 10 ∷ []))
partition_slice-Partitioned_example = partition_slice-Partitioned tens (1 ∷ 20 ∷ 3 ∷ 10 ∷ [])
