-- ===== src/Isa/Registers.antt =====
-- lib/cretonne/src/isa/registers.rs and constraints.rs: register classes and operand constraints.
-- The build generates the classes of a target. A class's name, bank and mask of units are left out.
use Prim.Native.Nat.{bit_and}
use cretonne.Prelude.{
  ℕ, zero, suc, ◌+◌, ◌*◌, ◌/◌, ◌%◌, ◌^◌, Bool, true, false, not, Option, none, some, List, ◌==◌,
  if◌then◌else◌, get_elem?,
}

pub record RegClass : Type 0 where
  pub index : ℕ
  pub width : ℕ
  pub toprc : ℕ
  pub first : ℕ
  pub subclasses : ℕ

-- `trailing_zeros` of a number below `2 ^ fuel`.
unfoldable pub lowest_bit : ℕ → ℕ → ℕ
lowest_bit zero n = 0
lowest_bit (suc fuel) n = if n % 2 == 1 then 0 else suc (lowest_bit fuel (n / 2))

unfoldable pub intersect_index : RegClass → RegClass → Option ℕ
unfolding lowest_bit
intersect_index a b =
    let mask = bit_and a.subclasses b.subclasses in
    if mask == 0 then none else some (lowest_bit 32 mask)

unfoldable pub has_subclass : RegClass → ℕ → Bool
has_subclass a i = not (bit_and a.subclasses (2 ^ i % 2 ^ 32) == 0)

unfoldable pub unit : RegClass → ℕ → ℕ
unit a offset = (a.first + offset * a.width % 2 ^ 16) % 2 ^ 16

-- `RegInfo::rc`; `none` is the panic.
unfoldable pub rc : List RegClass → ℕ → Option RegClass
rc classes i = get_elem? classes i

pub data ConstraintKind : Type 0 where
  reg : ConstraintKind
  fixed_reg : ℕ → ConstraintKind
  tied : ℕ → ConstraintKind
  fixed_tied : ℕ → ConstraintKind
  stack : ConstraintKind

-- `kind == ConstraintKind::Stack`.
unfoldable pub is_stack_kind : ConstraintKind → Bool
is_stack_kind ConstraintKind.stack = true
is_stack_kind _ = false

pub record OperandConstraint : Type 0 where
  pub kind : ConstraintKind
  pub regclass : RegClass
