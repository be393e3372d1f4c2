-- ===== src/Prelude/Below.antt =====
-- Tests of every number below a bound.
use Prim.Native.Nat.{ℕ, zero, suc, ◌<◌}
use native.Mathlib.Decide.{ℕ_discrete}
use native.Mathlib.Omega.{arith}
use mathlib.Core.Path.{◌≡◌}
use mathlib.Core.Bool.{Bool, true, ◌&&◌}

unfoldable pub all_below : ℕ → (ℕ → Bool) → Bool
all_below zero p = true
all_below (suc n) p = p n && all_below n p

pub all_below_lem : (n : ℕ) (p : ℕ → Bool) (k : ℕ) → all_below n p ≡ true → k < n → p k ≡ true
unfolding all_below
all_below_lem zero p k h lt = absurd (omega arith)
all_below_lem (suc n) p k h lt = elim (ℕ_discrete k n) [
  | yes same ↦ rw same (ground arith)
  | no differs ↦ all_below_lem n p k (ground arith) (omega arith)
]
