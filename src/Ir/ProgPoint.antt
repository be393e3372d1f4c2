-- ===== src/Ir/ProgPoint.antt =====
-- lib/cretonne/src/ir/progpoint.rs: program points, packed in a `u32`, and expanded.
mod Tests
pub mod Laws
use cretonne.Prelude.{ℕ, ◌+◌, ◌*◌, ◌/◌, ◌%◌, ◌^◌, Option, none, some, ◌==◌, if◌then◌else◌}

-- ir/dfg.rs: where a value is defined, by the number of the result or of the parameter.
pub data ValueDef : Type 0 where
  result : (inst num : ℕ) → ValueDef
  param : (ebb num : ℕ) → ValueDef

pub record ProgramPoint : Type 0 where
  pub bits : ℕ

pub data ExpandedProgramPoint : Type 0 where
  inst ebb : ℕ → ExpandedProgramPoint

-- `ProgramPoint(bits)`.
abbrev pub point : ℕ → ProgramPoint
point n = record { bits = n }

unfoldable pub from_inst : ℕ → ProgramPoint
from_inst i = point (i * 2 % 2 ^ 32)

unfoldable pub from_ebb : ℕ → ProgramPoint
from_ebb e = point ((e * 2 + 1) % 2 ^ 32)

unfoldable pub from_value_def : ValueDef → ProgramPoint
unfolding from_inst from_ebb
from_value_def (ValueDef.result i n) = from_inst i
from_value_def (ValueDef.param e n) = from_ebb e

unfoldable pub expand_value_def : ValueDef → ExpandedProgramPoint
expand_value_def (ValueDef.result i n) = ExpandedProgramPoint.inst i
expand_value_def (ValueDef.param e n) = ExpandedProgramPoint.ebb e

unfoldable pub expand : ProgramPoint → ExpandedProgramPoint
expand pp =
    if pp.bits % 2 == 0
    then ExpandedProgramPoint.inst (pp.bits / 2)
    else ExpandedProgramPoint.ebb (pp.bits / 2)

-- `none` is the panic.
unfoldable pub unwrap_inst : ExpandedProgramPoint → Option ℕ
unwrap_inst (ExpandedProgramPoint.inst i) = some i
unwrap_inst (ExpandedProgramPoint.ebb e) = none
