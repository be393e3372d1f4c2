-- ===== src/PartitionSlice.antt =====
-- lib/cretonne/src/partition_slice.rs: a slice is rearranged by a predicate. `none` is the panic of an
-- index out of range. The predicate is a function: a call of it leaves no trace.
pub mod Counts
pub mod Laws
mod Tests
use cretonne.Prelude.{
  ℕ, zero, suc, ◌+◌, ◌-◌, Bool, true, false, ◌&&◌, not, ltb, Option, none, some, List, [], ◌∷◌,
  length, get_elem?, set, if◌then◌else◌,
}
use cretonne.Prelude.Panic.{◌>>=◌}

module _ {A : Type 0} where
  -- `slice::swap`.
  unfoldable pub swap : List A → ℕ → ℕ → Option (List A)
  swap xs i j = do a ← get_elem? xs i; b ← get_elem? xs j; some (set (set xs i b) j a)

  module _ (p : A → Bool) where
    -- `Iterator::position` of the first element where `p` fails.
    unfoldable pub position : List A → Option ℕ
    position [] = none
    position (x ∷ xs) = elim (p x) [
      | true ↦ elim (position xs) [ none ↦ none | some i ↦ some (suc i) ]
      | false ↦ some 0
    ]

    -- `for i in count + 1..s.len()`, with the rounds that are left.
    unfoldable pub swap_rest : ℕ → List A → ℕ → ℕ → Option (List A × ℕ)
    unfolding swap
    swap_rest zero xs count i = some (xs, count)
    swap_rest (suc rounds) xs count i = do
      x ← get_elem? xs i
      elim (p x) [
        | true ↦ swap xs count i >>= λ ys. swap_rest rounds ys (count + 1) (i + 1)
        | false ↦ swap_rest rounds xs count (i + 1)
      ]

    unfoldable pub partition_slice : List A → Option (List A × ℕ)
    unfolding position swap_rest
    partition_slice xs = elim (position xs) [
      | none ↦ some (xs, length xs)
      | some count ↦ swap_rest (length xs - (count + 1)) xs count (count + 1)
    ]
