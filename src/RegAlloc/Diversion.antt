-- ===== src/RegAlloc/Diversion.antt =====
-- lib/cretonne/src/regalloc/diversion.rs: values that are, for a part of an EBB, not where the
-- allocator put them. Values are numbers, and a debug assertion is a hypothesis of the theorems.
pub mod Valid
pub mod Laws
pub mod Apply
mod Tests
use cretonne.Prelude.{
  ℕ, zero, suc, ◌+◌, List, [], ◌∷◌, ◌++◌, Option, none, some, Bool, true, false, ◌==◌,
  if◌then◌else◌, get_elem?, set,
}
use cretonne.Prelude.Swap.{swap_remove}
use cretonne.Entity.Map
use cretonne.Entity.Map.{EntityMap}
use cretonne.Ir.ValueLoc.{ValueLoc, loc_eq, unwrap_reg, unwrap_stack}

pub record Diversion : Type 0 where
  pub value : ℕ
  pub from : ValueLoc
  pub to : ValueLoc

-- The field `current` of `RegDiversions`.
abbrev pub RegDiversions : Type 0
RegDiversions = List Diversion

-- `Iterator::find` and `Iterator::position` of the value.
pub diversion : RegDiversions → ℕ → Option Diversion
diversion [] v = none
diversion (d ∷ ds) v = if d.value == v then some d else diversion ds v

pub position : RegDiversions → ℕ → Option ℕ
position [] v = none
position (d ∷ ds) v =
    if d.value == v then some 0 else elim (position ds v) [ none ↦ none | some i ↦ some (suc i) ]

pub is_empty : RegDiversions → Bool
is_empty [] = true
is_empty (d ∷ ds) = false

pub get : RegDiversions → EntityMap ValueLoc → ℕ → ValueLoc
get ds locations v = elim (diversion ds v) [ none ↦ Map.index locations v | some d ↦ d.to ]

-- `none` is the panic of `unwrap_reg` and `unwrap_stack`.
pub reg : RegDiversions → EntityMap ValueLoc → ℕ → Option ℕ
unfolding get
reg ds locations v = unwrap_reg (get ds locations v)

pub stack : RegDiversions → EntityMap ValueLoc → ℕ → Option ℕ
unfolding get
stack ds locations v = unwrap_stack (get ds locations v)

-- A value that moves back to where it came from is not diverted any more.
redirect : RegDiversions → ℕ → ValueLoc → Option Diversion → RegDiversions
redirect ds i to none = ds
redirect ds i to (some d) =
    if loc_eq d.from to then swap_remove ds i else set ds i (record d { to = to })

pub divert : RegDiversions → ℕ → ValueLoc → ValueLoc → RegDiversions
unfolding redirect
divert ds v from to = elim (position ds v) [
  | none ↦ ds ++ record { value = v; from = from; to = to } ∷ []
  | some i ↦ redirect ds i to (get_elem? ds i)
]

pub regmove : RegDiversions → ℕ → ℕ → ℕ → RegDiversions
regmove ds v from to = divert ds v (ValueLoc.reg from) (ValueLoc.reg to)

pub regspill : RegDiversions → ℕ → ℕ → ℕ → RegDiversions
regspill ds v from to = divert ds v (ValueLoc.reg from) (ValueLoc.stack to)

pub regfill : RegDiversions → ℕ → ℕ → ℕ → RegDiversions
regfill ds v from to = divert ds v (ValueLoc.stack from) (ValueLoc.reg to)

-- The instructions that `apply` looks at; the fields are `arg`, `src` and `dst`.
pub data Instruction : Type 0 where
  reg_move : ℕ → ℕ → ℕ → Instruction
  reg_spill : ℕ → ℕ → ℕ → Instruction
  reg_fill : ℕ → ℕ → ℕ → Instruction
  other : Instruction

pub apply : RegDiversions → Instruction → RegDiversions
unfolding regmove regspill regfill
apply ds (Instruction.reg_move arg src dst) = regmove ds arg src dst
apply ds (Instruction.reg_spill arg src dst) = regspill ds arg src dst
apply ds (Instruction.reg_fill arg src dst) = regfill ds arg src dst
apply ds Instruction.other = ds

-- The remaining diversions, and where the value was.
pub remove : RegDiversions → ℕ → RegDiversions × Option ValueLoc
remove ds v = elim (position ds v) [
  | none ↦ (ds, none)
  | some i ↦ (swap_remove ds i, elim (get_elem? ds i) [ none ↦ none | some d ↦ some d.to ])
]
