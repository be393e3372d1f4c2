-- ===== src/RegAlloc/Affinity.antt =====
-- lib/cretonne/src/regalloc/affinity.rs: where a value would best be kept.
mod Tests
pub mod Laws
use cretonne.Prelude.{ℕ, List, Bool, true, false, ◌||◌, Option, none, some, if◌then◌else◌}
use cretonne.Isa.Registers.{
  RegClass, intersect_index, has_subclass, rc, is_stack_kind, OperandConstraint,
}

-- `Affinity::None`, of a value that no real instruction defines or uses, is `ghost`.
pub data Affinity : Type 0 where
  ghost : Affinity
  stack : Affinity
  reg : ℕ → Affinity

unfoldable pub new : OperandConstraint → Affinity
unfolding is_stack_kind
new c = if is_stack_kind c.kind then Affinity.stack else Affinity.reg c.regclass.index

unfoldable pub is_reg : Affinity → Bool
is_reg (Affinity.reg i) = true
is_reg _ = false

unfoldable pub is_stack : Affinity → Bool
is_stack Affinity.stack = true
is_stack _ = false

-- `Affinity::is_none`.
unfoldable pub is_ghost : Affinity → Bool
is_ghost Affinity.ghost = true
is_ghost _ = false

-- The preferred class after the constraint's class may have shrunk it. `none` is the panic of
-- `RegInfo::rc`.
unfoldable pub shrink : RegClass → ℕ → Option RegClass → Option Affinity
unfolding intersect_index
shrink wanted i none = none
shrink wanted i (some preferred) = elim (intersect_index wanted preferred) [
  | none ↦ some (Affinity.reg i)
  | some subclass ↦ some (Affinity.reg subclass)
]

unfoldable pub merge : List RegClass → Affinity → OperandConstraint → Option Affinity
unfolding new shrink rc is_stack_kind has_subclass
merge classes Affinity.ghost c = some (new c)
merge classes (Affinity.reg i) c =
    if is_stack_kind c.kind || has_subclass c.regclass i
    then some (Affinity.reg i)
    else shrink c.regclass i (rc classes i)
merge classes Affinity.stack c = some Affinity.stack
