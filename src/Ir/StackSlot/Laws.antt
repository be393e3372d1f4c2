-- ===== src/Ir/StackSlot/Laws.antt =====
-- Printing and parsing the kinds of stack slots.
use Prim.Native.String.{String}
use text.Mathlib.Text
use cretonne.Prelude.{◌≡◌, ◌↔◌, refl, Option, some, if◌then◌else◌}
use cretonne.Prelude.Keyword.{keyword_arm}
use cretonne.Ir.StackSlot.{StackSlotKind, from_str, to_str}

from_str-to_str : (k : StackSlotKind) → from_str (to_str k) ≡ some k
unfolding from_str to_str
from_str-to_str StackSlotKind.spill_slot = refl
from_str-to_str _ = refl

to_str-from_str : (s : String) (k : StackSlotKind) → from_str s ≡ some k → to_str k ≡ s
unfolding from_str to_str
to_str-from_str s k = arm "explicit_slot" StackSlotKind.explicit_slot refl (
    arm "spill_slot" StackSlotKind.spill_slot refl (
      arm "incoming_arg" StackSlotKind.incoming_arg refl (
        arm "outgoing_arg" StackSlotKind.outgoing_arg refl
          (arm "emergency_slot" StackSlotKind.emergency_slot refl (λ e. cc)))))
  where
    arm :
        (t : String) (d : StackSlotKind) {rest : Option StackSlotKind}
        → to_str d ≡ t
        → (rest ≡ some k → to_str k ≡ s)
        → (if Text.◌==◌ s t then some d else rest) ≡ some k
        → to_str k ≡ s
    arm t d {rest} prints = keyword_arm to_str s t k d rest prints

-- A text parses as a kind of stack slot exactly if it is what that kind prints.
pub from_str_iff : (s : String) (k : StackSlotKind) → (from_str s ≡ some k) ↔ (to_str k ≡ s)
from_str_iff s k = (to_str-from_str s k, λ e. rw⁻¹ e (from_str-to_str k))
