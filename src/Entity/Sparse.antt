-- ===== src/Entity/Sparse.antt =====
-- lib/cretonne/src/entity/sparse.rs: `SparseMap`, a dense vector of values that know their key,
-- and an index from keys into it that may hold stale entries.
pub mod Valid
pub mod Laws
pub mod Refines
mod Tests
use cretonne.Prelude.{
  ℕ, ◌+◌, ◌-◌, ◌%◌, ◌^◌, List, [], ◌∷◌, ◌++◌, Option, none, some, Bool, true, false, ◌==◌,
  if◌then◌else◌, length, get_elem?, set,
}
use cretonne.Prelude.Swap.{but_last, get_last?}
use cretonne.Entity.Map
use cretonne.Entity.Map.{EntityMap}

pub record SparseMap (V : Type 0) : Type 0 where
  pub sparse : EntityMap ℕ
  pub dense : List V

pub new : {V : Type 0} → SparseMap V
new = record { sparse = Map.with_default 0; dense = [] }

-- `key` is the method of `SparseMapValue`.
module _ {V : Type 0} (key : V → ℕ) where
  pub len : SparseMap V → ℕ
  len m = length m.dense

  pub clear : SparseMap V → SparseMap V
  clear m = record m { dense = [] }

  -- Does this entry of `dense` hold the key?
  entry_index : ℕ → ℕ → Option V → Option ℕ
  entry_index k idx none = none
  entry_index k idx (some entry) = if key entry == k then some idx else none

  entry_value : ℕ → Option V → Option V
  entry_value k none = none
  entry_value k (some entry) = if key entry == k then some entry else none

  -- What `sparse` holds for the key may be stale: the entry is checked.
  index_at : SparseMap V → ℕ → Option ℕ → Option ℕ
  unfolding entry_index
  index_at m k none = none
  index_at m k (some idx) = entry_index k idx (get_elem? m.dense idx)

  value_at : SparseMap V → ℕ → Option ℕ → Option V
  unfolding entry_value
  value_at m k none = none
  value_at m k (some idx) = entry_value k (get_elem? m.dense idx)

  -- The index into `dense` of the value with this key. `get_mut` finds its entry the same way.
  pub index : SparseMap V → ℕ → Option ℕ
  unfolding index_at
  index m k = index_at m k (Map.get m.sparse k)

  pub get : SparseMap V → ℕ → Option V
  unfolding value_at
  get m k = value_at m k (Map.get m.sparse k)

  pub contains_key : SparseMap V → ℕ → Bool
  contains_key m k = elim (get m k) [ none ↦ false | some _ ↦ true ]

  -- The new map, and the value that was replaced. An index is cast to `u32`.
  pub insert : SparseMap V → V → SparseMap V × Option V
  insert m v = elim (index m (key v)) [
    | some i ↦ (record m { dense = set m.dense i v }, get_elem? m.dense i)
    | none ↦ (
      record {
        sparse = Map.assign m.sparse (key v) (length m.dense % 2 ^ 32);
        dense = m.dense ++ v ∷ [];
      },
      none,
    )
  ]

  -- The back of `dense`, which is popped, takes the place of the removed value.
  refill : SparseMap V → ℕ → V → SparseMap V × Option V
  refill m i back =
      let rest = but_last m.dense in
      if i == length rest then (record m { dense = rest }, some back) else (
        record { sparse = Map.assign m.sparse (key back) (i % 2 ^ 32); dense = set rest i back },
        get_elem? rest i,
      )

  -- `none` is the panic of `pop().unwrap()`.
  pub remove : SparseMap V → ℕ → Option (SparseMap V × Option V)
  unfolding refill
  remove m k = elim (index m k) [
    | none ↦ some (m, none)
    | some i ↦ elim (get_last? m.dense) [ none ↦ none | some back ↦ some (refill m i back) ]
  ]

  pub pop : SparseMap V → SparseMap V × Option V
  pop m = (record m { dense = but_last m.dense }, get_last? m.dense)
