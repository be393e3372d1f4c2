-- ===== src/Entity/Sparse/Tests.antt =====
-- `SparseMap` on small inputs.
use cretonne.Prelude.{ℕ, ◌≡◌, refl, List, [], ◌∷◌, Option, none, some, arith}
use cretonne.Entity.Map.{EntityMap, with_default, get, assign, resize}
use cretonne.Entity.Sparse
use cretonne.Entity.Sparse.{SparseMap}
use cretonne.Entity.Sparse.Refines.{Op, run, replay, Reads, run-new_refines}

abbrev key : ℕ × ℕ → ℕ
key v = v.0

-- Replacing a value, and removing from the middle.
abbrev calls : List (Op (ℕ × ℕ))
calls = Op.put (7, 70) ∷ Op.put (3, 30) ∷ Op.put (5, 50) ∷ Op.put (3, 33) ∷ Op.delete 7 ∷ []

abbrev or_new : Option (SparseMap (ℕ × ℕ)) → SparseMap (ℕ × ℕ)
or_new none = Sparse.new
or_new (some m) = m

built : SparseMap (ℕ × ℕ)
unfolding run Sparse.new Sparse.insert Sparse.remove Sparse.index Sparse.clear assign get resize
built = or_new (run key calls Sparse.new)

-- The back of `dense` has taken the place of the removed value.
built_dense : built.dense ≡ (5, 50) ∷ (3, 33) ∷ []
unfolding built with_default
built_dense = refl

built_reads :
    (Sparse.get key built 7 ≡ none)
    × (Sparse.get key built 3 ≡ some (3, 33))
    × (Sparse.get key built 5 ≡ some (5, 50))
unfolding built Sparse.get with_default
built_reads = (refl, refl, refl)

run-new_refines_example : Reads key (run key calls Sparse.new) (replay key calls (λ _. none))
run-new_refines_example = run-new_refines key calls (omega arith)

abbrev empty_map : EntityMap ℕ
empty_map = record { elems = 4 ∷ []; default = 9 }
