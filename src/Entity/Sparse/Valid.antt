-- ===== src/Entity/Sparse/Valid.antt =====
-- The invariant of `SparseMap`: the index of a stored value's key leads to it. Each operation
-- keeps it.
use cretonne.Prelude.{
  ℕ, ◌-◌, ◌%◌, ◌^◌, ◌≤◌, ◌<◌, ◌≡◌, refl, List, [], ◌∷◌, ◌++◌, Option, none, some, arith, ◌==◌,
  Option-cases, Bool-cases, ap, inl, inr, length, get_elem?, set, length-append, length-set,
}
use cretonne.Prelude.Swap.{
  but_last, get_last?, get_elem?-set, get_elem?-push, get_elem?-take, get_elem?_lt,
  get_elem?_within, length-but_last,
}
use cretonne.Entity.Map
use cretonne.Entity.Map.{EntityMap, get-assign, get_lt}
use cretonne.Entity.Sparse.{
  SparseMap, new, clear, index, insert, refill, remove, pop, entry_index, index_at,
}

module _ {V : Type 0} (key : V → ℕ) where
  -- The result of `remove`, or the map as it is.
  unfoldable pub removed_at : SparseMap V → ℕ → Option V → SparseMap V × Option V
  unfolding refill
  removed_at m i none = (m, none)
  removed_at m i (some back) = refill key m i back

  unfoldable pub removed : SparseMap V → ℕ → SparseMap V × Option V
  unfolding removed_at
  removed m k = elim (index key m k) [
    | none ↦ (m, none)
    | some i ↦ removed_at m i (get_last? m.dense)
  ]

  pub record IsValid (m : SparseMap V) : Type 0 where
    pub small : length m.dense ≤ 2 ^ 32
    pub linked : (i : ℕ) (v : V) → get_elem? m.dense i ≡ some v → Map.get m.sparse (key v) ≡ some i

  pub new-IsValid : IsValid new
  unfolding new
  new-IsValid = record { small = omega arith; linked = λ i v e. cc }

  entry_index-some :
      (k j : ℕ) (o : Option V) {i : ℕ}
      → entry_index key k j o ≡ some i
      → (v : V) × (o ≡ some v) × (key v ≡ k) × (j ≡ i)
  unfolding entry_index
  entry_index-some k j none e = cc
  entry_index-some k j (some v) e = (v, refl, ground arith, ground arith)

  index_at-some :
      (m : SparseMap V) (k i : ℕ) (o : Option ℕ)
      → index_at key m k o ≡ some i
      → (v : V) × (get_elem? m.dense i ≡ some v) × (key v ≡ k) × (o ≡ some i)
  unfolding index_at
  index_at-some m k i none e = cc
  index_at-some m k i (some j) e =
      let found = entry_index-some k j (get_elem? m.dense j) {i = i} e in
      (found.0, rw (← found.3) (found.1), found.2, ap some found.3)

  pub clear-IsValid : (m : SparseMap V) → IsValid m → IsValid (clear key m)
  unfolding clear
  clear-IsValid m h = record { small = omega arith; linked = λ i v e. cc }

  -- An index that is found leads to a value of that key.
  pub index-some :
      (m : SparseMap V) (k i : ℕ)
      → index key m k ≡ some i
      → (v : V) × (get_elem? m.dense i ≡ some v) × (key v ≡ k) × (Map.get m.sparse k ≡ some i)
  unfolding index
  index-some m k i e = index_at-some m k i (Map.get m.sparse k) e

  -- In a valid map no stored value is missed.
  pub index-none :
      (m : SparseMap V) (k : ℕ)
      → IsValid m
      → index key m k ≡ none
      → (i : ℕ) (v : V) → get_elem? m.dense i ≡ some v
      → key v ≡ k
      → ⊥
  unfolding index
  index-none m k h e i v at same = ground (arith, h.linked i v)

  insert_found :
      (m : SparseMap V) (v : V) (i : ℕ)
      → IsValid m
      → index key m (key v) ≡ some i
      → IsValid (record m { dense = set m.dense i v })
  insert_found m v i h e =
      let (old, at, same, link) = index-some m (key v) i e in
      record {
        small = omega (arith, length-set m.dense i v, h.small);
        linked = λ j w p.
            ground (arith, get_elem?-set m.dense i j v (get_elem?_lt m.dense i at), h.linked j w);
      }

  insert_fresh :
      (m : SparseMap V) (v : V)
      → IsValid m
      → length m.dense < 2 ^ 32
      → index key m (key v) ≡ none
      → IsValid (record {
        sparse = Map.assign m.sparse (key v) (length m.dense % 2 ^ 32);
        dense = m.dense ++ v ∷ [];
      })
  insert_fresh m v h room e = record {
    small = omega (arith, length-append m.dense (v ∷ []));
    linked = λ j w p. ground (
      arith,
      get_elem?-push m.dense v j,
      get-assign m.sparse (key v) (key w) (length m.dense % 2 ^ 32),
      h.linked j w,
      get_lt m.sparse (key w) {v = j},
      index-none m (key v) h e j w,
    );
  }

  pub insert-IsValid :
      (m : SparseMap V) (v : V) → IsValid m → length m.dense < 2 ^ 32 → IsValid (insert key m v).0
  unfolding insert
  insert-IsValid m v h room = elim (Option-cases (index key m (key v))) [
    | inl absent ↦ rw (absent, insert) (insert_fresh m v h room absent)
    | inr (i, found) ↦ rw (found, insert) (insert_found m v i h found)
  ]

  pub pop-IsValid : (m : SparseMap V) → IsValid m → IsValid (pop key m).0
  unfolding pop
  pop-IsValid m h = record {
    small = omega (arith, length-but_last m.dense, h.small);
    linked = λ i v e. ground (arith, get_elem?-take (length m.dense - 1) m.dense i, h.linked i v);
  }

  removed_at-IsValid :
      (m : SparseMap V) (i : ℕ) (o : Option V)
      → IsValid m
      → i < length m.dense
      → get_last? m.dense ≡ o
      → IsValid (removed_at m i o).0
  unfolding removed_at refill pop
  removed_at-IsValid m i none h lt e = h
  removed_at-IsValid m i (some back) h lt e = elim (Bool-cases (i == length (but_last m.dense))) [
    | inl last ↦ rw last (pop-IsValid m h)
    | inr inner ↦ rw inner (record {
      small = omega (arith, length-set (but_last m.dense) i back, length-but_last m.dense, h.small);
      linked = λ j w p. ground (
        arith,
        get_elem?-set (but_last m.dense) i j back,
        get_elem?-take (length m.dense - 1) m.dense j,
        length-but_last m.dense,
        get-assign m.sparse (key back) (key w) (i % 2 ^ 32),
        h.linked j w,
        h.linked (length m.dense - 1) back,
        get_lt m.sparse (key w) {v = j},
      );
    })
  ]

  pub removed-IsValid : (m : SparseMap V) (k : ℕ) → IsValid m → IsValid (removed m k).0
  unfolding removed
  removed-IsValid m k h = elim (Option-cases (index key m k)) [
    | inl absent ↦ rw (absent, removed) h
    | inr (i, found) ↦
        rw (found, removed)
          (let (v, at, same, link) = index-some m k i found in
            removed_at-IsValid m i (get_last? m.dense) h (get_elem?_lt m.dense i at) refl)
  ]

  -- `remove` does not panic: an index that is found leads to a value, so there is a back.
  pub remove-some : (m : SparseMap V) (k : ℕ) → remove key m k ≡ some (removed m k)
  unfolding remove removed removed_at
  remove-some m k = elim (Option-cases (index key m k)) [
    | inl absent ↦ rw (absent, remove, removed) refl
    | inr (i, found) ↦
        let (v, at, same, link) = index-some m k i found in
        let (back, last) = back_of m.dense i (get_elem?_lt m.dense i at) in
        rw (found, remove, removed, last) refl
  ]
    where
      back_of : (xs : List V) (i : ℕ) → i < length xs → (x : V) × (get_last? xs ≡ some x)
      back_of xs i lt = get_elem?_within xs (length xs - 1) (omega arith)
