-- ===== src/Ir/ValueLoc.antt =====
-- lib/cretonne/src/ir/valueloc.rs: where a value is kept. Registers and stack slots are numbers.
use cretonne.Prelude.{ℕ, ◌≡◌, ◌↔◌, Bool, true, false, Option, none, some, arith, ◌==◌}

pub data ValueLoc : Type 0 where
  unassigned : ValueLoc
  reg : ℕ → ValueLoc
  stack : ℕ → ValueLoc

unfoldable pub is_assigned : ValueLoc → Bool
is_assigned ValueLoc.unassigned = false
is_assigned _ = true

-- `none` is the panic.
unfoldable pub unwrap_reg : ValueLoc → Option ℕ
unwrap_reg (ValueLoc.reg ru) = some ru
unwrap_reg _ = none

unfoldable pub unwrap_stack : ValueLoc → Option ℕ
unwrap_stack (ValueLoc.stack ss) = some ss
unwrap_stack _ = none

-- The derived `PartialEq`.
unfoldable pub loc_eq : ValueLoc → ValueLoc → Bool
loc_eq ValueLoc.unassigned ValueLoc.unassigned = true
loc_eq (ValueLoc.reg a) (ValueLoc.reg b) = a == b
loc_eq (ValueLoc.stack a) (ValueLoc.stack b) = a == b
loc_eq _ _ = false

pub loc_eq_iff : (a b : ValueLoc) → (loc_eq a b ≡ true) ↔ (a ≡ b)
unfolding loc_eq
loc_eq_iff a b = ground arith
