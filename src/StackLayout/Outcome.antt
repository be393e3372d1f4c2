-- ===== src/StackLayout/Outcome.antt =====
-- When a frame is laid out, and why one is refused.

use cretonne.Prelude.{
  ℕ, ◌+◌, ◌%◌, ◌^◌, ◌≤◌, ◌<◌, ◌≡◌, ◌≢◌, Bool, true, false, Option, some, List, length, get_elem?,
  ◌⊎◌,
}
use cretonne.Prelude.Int.{ℤ, pos, ◌+ℤ◌, ◌≤ℤ◌}
use cretonne.Result.{Result, ok, err, CtonError}
use cretonne.Ir.StackSlot.{StackSlotData, StackSlotKind}
use cretonne.Ir.StackSlot.Alignment.{twos}
use cretonne.Ir.StackSlot.Frame.{StackSlots}
use cretonne.StackLayout.Depth.{below}
use cretonne.StackLayout.Placed.{lowered, demand}
use cretonne.StackLayout.Rounds.{movable}
use cretonne.StackLayout.Slot.{Oversized, StartsFrom, EndsBy, Every}

-- The frame after, of size n. A slot at offset o takes the bytes from o up to o + size, and the outgoing
-- arguments' offsets are relative to the frame's low end.
pub record LaidOut (k : ℕ) (frame after : StackSlots) (n : ℕ) : Type 0 where
  pub whole : n % 2 ^ k ≡ 0
  pub bound : n ≤ 2 ^ 31
  pub saved : after.frame_size ≡ some n
  pub lists : (after.outgoing ≡ frame.outgoing) × (after.emergency ≡ frame.emergency)
  pub same : length after.slots ≡ length frame.slots
  -- Argument slots stay.
  pub kept :
      (i : ℕ) (s : StackSlotData)
      → get_elem? frame.slots i ≡ some s
      → movable s.kind ≡ false
      → get_elem? after.slots i ≡ some s
  -- The others are in the frame, at a multiple of their alignment.
  pub depth : ℕ → ℕ
  pub moved :
      (i : ℕ) (s : StackSlotData)
      → get_elem? frame.slots i ≡ some s
      → movable s.kind ≡ true
      → (get_elem? after.slots i ≡ some (lowered s (depth i)))
        × (s.size ≤ depth i)
        × (depth i ≤ n)
        × (depth i % 2 ^ twos k s.size ≡ 0)
  pub apart :
      (i j : ℕ) (s t : StackSlotData)
      → i ≢ j
      → get_elem? frame.slots i ≡ some s
      → get_elem? frame.slots j ≡ some t
      → movable s.kind ≡ true
      → movable t.kind ≡ true
      → (depth i + t.size ≤ depth j) ⊎ (depth j + s.size ≤ depth i)
  pub under_incoming :
      (i j : ℕ) (s t : StackSlotData) (o : ℤ)
      → get_elem? frame.slots i ≡ some s
      → get_elem? frame.slots j ≡ some t
      → movable s.kind ≡ true
      → t.kind ≡ StackSlotKind.incoming_arg
      → t.offset ≡ some o
      → below (depth i) +ℤ pos s.size ≤ℤ o
  pub over_outgoing :
      (i j : ℕ) (s t : StackSlotData) (o : ℤ)
      → get_elem? frame.slots i ≡ some s
      → get_elem? frame.slots j ≡ some t
      → movable s.kind ≡ true
      → t.kind ≡ StackSlotKind.outgoing_arg
      → t.offset ≡ some o
      → below n +ℤ (o +ℤ pos t.size) ≤ℤ below (depth i)

abbrev pub movable_slot : StackSlotData → Bool
movable_slot s = movable s.kind

-- Why a frame is refused: for one slot, or since whatever bounds the argument slots have, the slots' demand
-- between them goes beyond 2 GB.
pub data Excess (k : ℕ) (slots : List StackSlotData) : Type 0 where
  oversized :
      (i : ℕ) (s : StackSlotData) → get_elem? slots i ≡ some s → Oversized s → Excess k slots
  overfull :
      ((least most : ℕ)
        → Every (StartsFrom least) slots
        → Every (EndsBy most) slots
        → 2 ^ 31 < least + demand k movable_slot slots + most)
      → Excess k slots

-- An outcome of `layout_stack`.
pub data LayoutEnds (k : ℕ) (frame : StackSlots) : Option (Result ℕ × StackSlots) → Type 0 where
  laid_out :
      (after : StackSlots) (n : ℕ)
      → LaidOut k frame after n
      → LayoutEnds k frame (some (ok n, after))
  exceeds :
      (after : StackSlots)
      → Excess k frame.slots
      → LayoutEnds k frame (some (err CtonError.impl_limit_exceeded, after))
