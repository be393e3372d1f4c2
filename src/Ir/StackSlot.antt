-- ===== src/Ir/StackSlot.antt =====
-- lib/cretonne/src/ir/stackslot.rs: the kinds of stack slots and the slots' data. An offset is an
-- `i32` and is not computed with here.
mod Tests
pub mod Alignment
pub mod Frame
pub mod Laws
use cretonne.Prelude.Bits.{is_power_of_two}
use Prim.Native.Nat.{bit_and, bit_or}
use Prim.Native.String.{String}
use text.Mathlib.Text.{◌==◌}
use cretonne.Prelude.{
  ℕ, ◌-◌, ◌%◌, ◌^◌, max, Bool, not, ◌&&◌, ltb, Option, none, some, if◌then◌else◌,
}
use cretonne.Prelude.Int.{ℤ}
use cretonne.Ir.Types.{ValueType, bytes}

unfoldable pub spill_size : ValueType → ℕ
spill_size t = max 4 (bytes t)

pub data StackSlotKind : Type 0 where
  spill_slot explicit_slot incoming_arg outgoing_arg emergency_slot : StackSlotKind

unfoldable pub from_str : String → Option StackSlotKind
from_str s =
    if s == "explicit_slot"
    then some StackSlotKind.explicit_slot
    else if s == "spill_slot"
    then some StackSlotKind.spill_slot
    else if s == "incoming_arg"
    then some StackSlotKind.incoming_arg
    else if s == "outgoing_arg"
    then some StackSlotKind.outgoing_arg
    else if s == "emergency_slot"
    then some StackSlotKind.emergency_slot
    else none

unfoldable pub to_str : StackSlotKind → String
to_str StackSlotKind.explicit_slot = "explicit_slot"
to_str StackSlotKind.spill_slot = "spill_slot"
to_str StackSlotKind.incoming_arg = "incoming_arg"
to_str StackSlotKind.outgoing_arg = "outgoing_arg"
to_str StackSlotKind.emergency_slot = "emergency_slot"

pub record StackSlotData : Type 0 where
  pub kind : StackSlotKind
  pub size : ℕ
  pub offset : Option ℤ

unfoldable pub new : StackSlotKind → ℕ → StackSlotData
new k n = record { kind = k; size = n; offset = none }

-- `none` where the assertion fails.
unfoldable pub alignment : StackSlotData → ℕ → Option ℕ
unfolding is_power_of_two
alignment slot max_align =
    let x = bit_or slot.size max_align in
    if is_power_of_two max_align then some (bit_and x ((2 ^ 32 - x) % 2 ^ 32)) else none
