-- ===== src/Ir/Layout/Numbered.antt =====
-- The positions of program points in a layout, and when a layout is numbered by them.
use native.Mathlib.Decide.{dec_lt}
use cretonne.Prelude.{
  ℕ, zero, suc, ◌+◌, ◌*◌, ◌%◌, ◌^◌, ◌≤◌, ◌≡◌, List, [], ◌∷◌, some, arith, length, get_elem?,
}
use cretonne.Ir.Layout.{Layout, ebb_node, inst_node}

-- How many program points stand before the EBB at an index: the EBBs before it and their
-- instructions.
abbrev pub start : (ℕ → List ℕ) → List ℕ → ℕ → ℕ
start body [] k = 0
start body (e ∷ es) zero = 0
start body (e ∷ es) (suc k) = suc (length (body e)) + start body es k

pub start_next :
    (body : ℕ → List ℕ) (es : List ℕ) (k e : ℕ)
    → get_elem? es k ≡ some e
    → start body es (suc k) ≡ start body es k + 1 + length (body e)
start_next body [] k e at = absurd (ground arith)
start_next body (x ∷ es) zero e at = let same : x ≡ e = ground arith in rw (← same) (first es)
  where
    first : (es : List ℕ) → suc (length (body x)) + start body es 0 ≡ 0 + 1 + length (body x)
    first [] = omega arith
    first (y ∷ es) = omega arith
start_next body (x ∷ es) (suc k) e at = omega (arith, start_next body es k e at)

-- The number of every program point is ten times its position.
pub record Numbered (es : List ℕ) (body : ℕ → List ℕ) (l : Layout) : Type 0 where
  pub ebbs :
      (k e : ℕ) → get_elem? es k ≡ some e → (ebb_node l e).seq ≡ 10 * start body es k % 2 ^ 32
  pub insts :
      (k e j i : ℕ)
      → get_elem? es k ≡ some e
      → get_elem? (body e) j ≡ some i
      → (inst_node l i).seq ≡ 10 * (start body es k + 1 + j) % 2 ^ 32

start-suc : (body : ℕ → List ℕ) (es : List ℕ) (k : ℕ) → start body es k ≤ start body es (suc k)
start-suc body [] k = omega arith
start-suc body (e ∷ es) zero = omega arith
start-suc body (e ∷ es) (suc k) = omega (arith, start-suc body es k)

-- The later EBB has as many points before it or more.
pub start_mono :
    (body : ℕ → List ℕ) (es : List ℕ) (j k : ℕ) → j ≤ k → start body es j ≤ start body es k
start_mono body es zero zero le = omega arith
start_mono body es (suc j) zero le = absurd (omega arith)
start_mono body es j (suc k) le = elim (dec_lt k j) [
  | yes last ↦ let e : j ≡ suc k = omega arith in rw e (omega arith)
  | no before ↦ omega (arith, start-suc body es k, start_mono body es j k (omega arith))
]
