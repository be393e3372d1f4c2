-- ===== src/Ir/ProgPoint/Laws.antt =====
-- Packed program points stand for the expanded ones.
use native.Mathlib.Decide.{ℕ_discrete}
use cretonne.Prelude.{ℕ, ◌+◌, ◌-◌, ◌*◌, ◌/◌, ◌%◌, ◌^◌, ◌<◌, ◌≡◌, arith}
use cretonne.Ir.ProgPoint.{
  ValueDef, ProgramPoint, point, ExpandedProgramPoint, from_inst, from_ebb, from_value_def,
  expand_value_def, expand,
}

-- The entity number of a definition's program point.
abbrev pub place : ValueDef → ℕ
place (ValueDef.result i n) = i
place (ValueDef.param e n) = e

abbrev pub pack : ExpandedProgramPoint → ProgramPoint
pack (ExpandedProgramPoint.inst i) = from_inst i
pack (ExpandedProgramPoint.ebb e) = from_ebb e

expand-even : (i : ℕ) → i < (2 ^ 32 - 1) / 2 → expand (from_inst i) ≡ ExpandedProgramPoint.inst i
unfolding expand from_inst
expand-even i lt =
    let e : i * 2 % 2 ^ 32 ≡ i * 2 = omega arith in
    let h : i * 2 / 2 ≡ i = omega arith in let r : i * 2 % 2 ≡ 0 = omega arith in rw (e, h, r)

expand-odd : (i : ℕ) → i < (2 ^ 32 - 1) / 2 → expand (from_ebb i) ≡ ExpandedProgramPoint.ebb i
unfolding expand from_ebb
expand-odd i lt =
    let e : (i * 2 + 1) % 2 ^ 32 ≡ i * 2 + 1 = omega arith in
    let h : (i * 2 + 1) / 2 ≡ i = omega arith in
    let r : (i * 2 + 1) % 2 ≡ 1 = omega arith in rw (e, h, r)

-- The packed program point of a definition, of an entity within the asserted limit, a number below `u32::MAX / 2`, expands to the
-- expanded program point of the definition.
pub expand-from_value_def :
    (d : ValueDef) → place d < (2 ^ 32 - 1) / 2 → expand (from_value_def d) ≡ expand_value_def d
unfolding from_value_def expand_value_def
expand-from_value_def (ValueDef.result i n) lt = expand-even i lt
expand-from_value_def (ValueDef.param e n) lt = expand-odd e lt

-- Each `u32` of an entity within the asserted limit, with a number below `u32::MAX / 2`, is the
-- packed form of what it expands to.
pub pack-expand : (n : ℕ) → n / 2 < (2 ^ 32 - 1) / 2 → pack (expand (point n)) ≡ point n
unfolding expand from_inst from_ebb
pack-expand n lt = elim (ℕ_discrete (n % 2) 0) [
  | yes even ↦ let e : n / 2 * 2 % 2 ^ 32 ≡ n = omega arith in rw (even, e)
  | no odd ↦
      let one : n % 2 ≡ 1 = omega arith in
      let e : (n / 2 * 2 + 1) % 2 ^ 32 ≡ n = omega arith in rw (one, e)
]
