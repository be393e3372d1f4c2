-- ===== src/Ir/StackSlot/Tests.antt =====
-- Kinds and sizes of stack slots.
use cretonne.Prelude.{◌≡◌, refl, none}
use cretonne.Ir.Types.{b1, i64, bytes, bits, lane_bits, lane_type, lane_count, log2_lane_count}
use cretonne.Ir.StackSlot.{from_str, spill_size}

-- A `b1` gets a full spill slot.
sizes : (spill_size b1 ≡ 4) × (spill_size i64 ≡ 8) × (from_str "slot" ≡ none)
unfolding spill_size from_str bytes bits lane_bits lane_type lane_count log2_lane_count
sizes = (refl, refl, refl)
