-- ===== src/Entity/Sparse/Refines.antt =====
-- Any sequence of calls of a `SparseMap`, against the same calls on a function.
use cretonne.Prelude.{
  ℕ, ◌+◌, ◌^◌, ◌≤◌, ◌≡◌, refl, List, [], ◌∷◌, Option, none, some, arith, ◌==◌, if◌then◌else◌,
  length, fun_ext, length-append, Option-cases, inl, inr, length-set,
}
use cretonne.Prelude.Swap.{but_last, get_last?, length-but_last}
use cretonne.Entity.Sparse.{SparseMap, new, clear, index, get, insert, refill, remove}
use cretonne.Prelude.Panic.{◌>>=◌}
use cretonne.Entity.Sparse.Valid.{
  removed, removed_at, remove-some, IsValid, new-IsValid, insert-IsValid, removed-IsValid,
  clear-IsValid,
}
use cretonne.Entity.Sparse.Laws.{get-insert, get-removed, get-clear, get-new}

pub data Op (V : Type 0) : Type 0 where
  put : V → Op V
  delete : ℕ → Op V
  reset : Op V

module _ {V : Type 0} (key : V → ℕ) where
  -- `none` is the panic of a call.
  unfoldable pub run : List (Op V) → SparseMap V → Option (SparseMap V)
  run [] m = some m
  run (put v ∷ ops) m = run ops (insert key m v).0
  run (delete k ∷ ops) m = remove key m k >>= λ r. run ops r.0
  run (reset ∷ ops) m = run ops (clear key m)

  -- The same calls on a function.
  pub replay : List (Op V) → (ℕ → Option V) → ℕ → Option V
  replay [] f = f
  replay (put v ∷ ops) f = replay ops (λ k. if k == key v then some v else f k)
  replay (delete k ∷ ops) f = replay ops (λ j. if j == k then none else f j)
  replay (reset ∷ ops) f = replay ops (λ _. none)

  -- The run ends without a panic in a valid map that reads as the function.
  abbrev pub Reads : Option (SparseMap V) → (ℕ → Option V) → Type 0
  Reads o f = (m : SparseMap V) × (o ≡ some m) × IsValid key m × (get key m ≡ f)

  length-insert : (m : SparseMap V) (v : V) → length (insert key m v).0.dense ≤ length m.dense + 1
  unfolding insert
  length-insert m v = elim (Option-cases (index key m (key v))) [
    | inl absent ↦ rw (absent, insert) (omega (arith, length-append m.dense (v ∷ [])))
    | inr (i, found) ↦ rw (found, insert) (omega (arith, length-set m.dense i v))
  ]

  length-removed_at :
      (m : SparseMap V) (i : ℕ) (o : Option V)
      → length (removed_at key m i o).0.dense ≤ length m.dense
  unfolding removed_at refill
  length-removed_at m i none = omega arith
  length-removed_at m i (some back) =
      ground (arith, length-but_last m.dense, length-set (but_last m.dense) i back)

  length-removed : (m : SparseMap V) (k : ℕ) → length (removed key m k).0.dense ≤ length m.dense
  unfolding removed
  length-removed m k = elim (Option-cases (index key m k)) [
    | inl absent ↦ rw (absent, removed) (omega arith)
    | inr (i, found) ↦ rw (found, removed) (length-removed_at m i (get_last? m.dense))
  ]

  run_refines :
      (ops : List (Op V)) (m : SparseMap V)
      → IsValid key m
      → length m.dense + length ops ≤ 2 ^ 32
      → Reads (run ops m) (replay ops (get key m))
  unfolding run replay
  run_refines [] m h room = (m, refl, h, refl)
  run_refines (put v ∷ ops) m h room = rw (← fun_ext λ k. get-insert key m v k h (omega arith)) (
      run_refines ops (insert key m v).0 (insert-IsValid key m v h (omega arith))
        (omega (arith, length-insert m v)))
  run_refines (delete k ∷ ops) m h room =
      rw (← fun_ext λ j. get-removed key m k j h, remove-some key m k)
        (run_refines ops (removed key m k).0 (removed-IsValid key m k h)
          (omega (arith, length-removed m k)))
  run_refines (reset ∷ ops) m h room =
      rw (← fun_ext λ j. get-clear key m j)
        (run_refines ops (clear key m) (clear-IsValid key m h) (unfold clear in omega arith))

  -- Over any at most 2 ^ 32 calls of `insert`, `remove` and `clear` from a new map, no call panics, the
  -- map is valid and reads as the function on which the same calls were made.
  pub run-new_refines :
      (ops : List (Op V)) → length ops ≤ 2 ^ 32 → Reads (run ops new) (replay ops (λ _. none))
  run-new_refines ops room =
      rw (← fun_ext λ j. get-new key j)
        (run_refines ops new (new-IsValid key) (unfold new in omega arith))
