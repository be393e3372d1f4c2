-- ===== src/Ir/StackSlot/Frame/Tests.antt =====
-- Runs of the frame manager.
use cretonne.Prelude.{zero, suc, ◌≡◌, refl, none, some, [], ◌∷◌, arith}
use cretonne.Prelude.Int.{pos}
use cretonne.Prelude.Panic.{◌>>=◌}
use cretonne.Prelude.Splice.{insert_at}
use cretonne.Ir.Types.{i32, i64, bytes}
use cretonne.Ir.StackSlot.{StackSlotKind, spill_size}
use cretonne.Ir.StackSlot.Frame.{StackSlots, in_list, new, get_emergency_slot, get_outgoing_arg}
use cretonne.Ir.StackSlot.Frame.Emergency.{Given, Listed, get_emergency_slot-Given}

-- Two slots are made, the first is reused, and the second is made larger for want of another.
emergency_slots :
    (get_emergency_slot new i32 [] >>= λ (a, f).
    get_emergency_slot f i32 (some 0 ∷ []) >>= λ (b, g).
    get_emergency_slot g i64 (some 0 ∷ none ∷ []) >>= λ (c, h). some (a ∷ b ∷ c ∷ []))
    ≡ some (0 ∷ 1 ∷ 1 ∷ [])
unfolding new get_emergency_slot bytes
emergency_slots = refl

outgoing_slots :
    (get_outgoing_arg new i32 (pos 8) >>= λ (a, f). get_outgoing_arg f i32 (pos 0) >>= λ (b, g).
    get_outgoing_arg g i32 (pos 8) >>= λ (c, h). some (a ∷ b ∷ c ∷ h.outgoing))
    ≡ some (0 ∷ 1 ∷ 0 ∷ 1 ∷ 0 ∷ [])
unfolding new get_outgoing_arg insert_at bytes
outgoing_slots = refl

abbrev one_slot : StackSlots
one_slot = record {
  slots = record { kind = StackSlotKind.emergency_slot; size = 4; offset = none } ∷ [];
  outgoing = [];
  emergency = 0 ∷ [];
  frame_size = none;
}

one_slot-Listed : Listed one_slot
one_slot-Listed zero ss at = ground arith
one_slot-Listed (suc i) ss at = absurd (ground arith)

get_emergency_slot-Given_example :
    Given one_slot (spill_size i64) [] (get_emergency_slot one_slot i64 [])
unfolding in_list
get_emergency_slot-Given_example =
    get_emergency_slot-Given one_slot i64 [] one_slot-Listed (λ ss used. absurd (ground arith))
