-- ===== src/StackLayout/Tests.antt =====
-- Layouts of small frames.
use mathlib.Core.Path.{subst}
use cretonne.Prelude.{
  ℕ, zero, suc, ◌≡◌, refl, sym, true, Option, none, some, List, [], ◌∷◌, arith, ◌≤◌, ◌^◌, ◌-◌,
}
use cretonne.Prelude.Int.{ℤ, pos, negsuc, ◌+ℤ◌, ◌≤ℤ◌}
use cretonne.Prelude.Int32.{in_i32}
use cretonne.Result.{ok, err, CtonError}
use cretonne.Ir.StackSlot.{StackSlotData, StackSlotKind, alignment}
use cretonne.Ir.StackSlot.Alignment.{Largest, alignment-Largest}
use cretonne.Ir.StackSlot.Frame.{StackSlots}
use cretonne.StackLayout.{layout_stack, max_size}
use cretonne.StackLayout.Outcome.{LaidOut, LayoutEnds}
use cretonne.StackLayout.Safe.{layout_stack-LayoutEnds, layout_stack-Oversized, layout_stack_roomy}
use cretonne.StackLayout.Slot.{HasOffset, Every, StartsFrom, EndsBy, ends_too_high}

abbrev frame_of : List StackSlotData → StackSlots
frame_of slots = record { slots = slots; outgoing = []; emergency = []; frame_size = none }

abbrev slot_of : StackSlotKind → ℕ → Option ℤ → StackSlotData
slot_of kind size offset = record { kind = kind; size = size; offset = offset }

abbrev spill : ℕ → Option ℤ → StackSlotData
spill = slot_of StackSlotKind.spill_slot

abbrev return_address : StackSlotData
return_address = slot_of StackSlotKind.incoming_arg 4 (some (negsuc 3))

abbrev argument : StackSlotData
argument = slot_of StackSlotKind.outgoing_arg 4 (some (pos 0))

abbrev small_frame : StackSlots
small_frame = frame_of (spill 8 none ∷ spill 4 none ∷ return_address ∷ argument ∷ [])

aligned_frame :
    layout_stack small_frame 16
    ≡ some (
      ok 32,
      record (frame_of (
          spill 8 (some (negsuc 15))
          ∷ spill 4 (some (negsuc 7))
          ∷ return_address
          ∷ argument
          ∷ [])) { frame_size = some 32 },
    )
unfolding layout_stack
aligned_frame = refl

packed_frame :
    layout_stack small_frame 1
    ≡ some (
      ok 20,
      record (frame_of (
          spill 8 (some (negsuc 11))
          ∷ spill 4 (some (negsuc 15))
          ∷ return_address
          ∷ argument
          ∷ [])) { frame_size = some 20 },
    )
unfolding layout_stack
packed_frame = refl

Every-four :
    (P : StackSlotData → Type 0) (a b c d : StackSlotData)
    → P a
    → P b
    → P c
    → P d
    → Every P (a ∷ b ∷ c ∷ d ∷ [])
Every-four P a b c d p q r t zero s at = let e : a ≡ s = ground arith in subst P e p
Every-four P a b c d p q r t (suc zero) s at = let e : b ≡ s = ground arith in subst P e q
Every-four P a b c d p q r t (suc (suc zero)) s at = let e : c ≡ s = ground arith in subst P e r
Every-four P a b c d p q r t (suc (suc (suc zero))) s at =
    let e : d ≡ s = ground arith in subst P e t
Every-four P a b c d p q r t (suc (suc (suc (suc i)))) s at = absurd (ground arith)

-- The last slot an argument at any offset.
abbrev frame_with : ℤ → StackSlots
frame_with o = frame_of (
    spill 8 none
    ∷ spill 4 none
    ∷ return_address
    ∷ slot_of StackSlotKind.outgoing_arg 4 (some o)
    ∷ [])

frame_with-HasOffset : (o : ℤ) → in_i32 o ≡ true → Every HasOffset (frame_with o).slots
frame_with-HasOffset o range =
    Every-four HasOffset (spill 8 none) (spill 4 none) return_address
      (slot_of StackSlotKind.outgoing_arg 4 (some o)) (λ e. absurd (ground arith))
      (λ e. absurd (ground arith)) (λ _. (negsuc 3, refl, refl)) (λ _. (o, refl, range))

alignment-Largest_example : Largest (spill 12 none) 4 (alignment (spill 12 none) (2 ^ 4))
alignment-Largest_example = alignment-Largest (spill 12 none) 4 (omega arith) (omega arith)

layout_stack-LayoutEnds_example : LayoutEnds 4 small_frame (layout_stack small_frame (2 ^ 4))
layout_stack-LayoutEnds_example =
    layout_stack-LayoutEnds 4 (omega arith) small_frame (frame_with-HasOffset (pos 0) refl)

abbrev far : ℤ
far = pos (2 ^ 31 - 2)

far_end : pos (2 ^ 31) ≤ℤ far +ℤ pos 4
unfolding ◌+ℤ◌
far_end = omega arith

layout_stack-Oversized_example :
    layout_stack (frame_with far) (2 ^ 0) ≡ some (err CtonError.impl_limit_exceeded, frame_with far)
layout_stack-Oversized_example =
    layout_stack-Oversized 0 (omega arith) (frame_with far) (frame_with-HasOffset far refl) 3
      (slot_of StackSlotKind.outgoing_arg 4 (some far)) refl (ends_too_high far refl refl far_end)

abbrev Moderate : StackSlotData → Type 0
Moderate s = (s.size ≤ max_size) × EndsBy 4 s

argument_end : EndsBy 4 argument
unfolding ◌+ℤ◌
argument_end o e e' =
    let same : o ≡ pos 0 = ground arith in subst (λ z. z +ℤ pos 4 ≤ℤ pos 4) (sym same) (omega arith)

small_frame-Moderate : Every Moderate small_frame.slots
small_frame-Moderate =
    Every-four Moderate (spill 8 none) (spill 4 none) return_address argument
      (omega arith, λ o e e'. absurd (ground arith)) (omega arith, λ o e e'. absurd (ground arith))
      (omega arith, λ o e e'. absurd (ground arith)) (omega arith, argument_end)

small_frame-StartsFrom : Every (StartsFrom 4) small_frame.slots
small_frame-StartsFrom =
    Every-four (StartsFrom 4) (spill 8 none) (spill 4 none) return_address argument
      (λ o e e'. absurd (ground arith)) (λ o e e'. absurd (ground arith))
      (λ o e e'.
        let same : negsuc 3 ≡ o = ground arith in subst (λ z. negsuc 3 ≤ℤ z) same (omega arith))
      (λ o e e'. absurd (ground arith))

layout_stack_roomy_example :
    (after : StackSlots) × ((n : ℕ) × (layout_stack small_frame (2 ^ 4) ≡ some (ok n, after))
      × LaidOut 4 small_frame after n)
layout_stack_roomy_example =
    layout_stack_roomy 4 (omega arith) small_frame 4 4 (frame_with-HasOffset (pos 0) refl)
      small_frame-Moderate small_frame-StartsFrom (omega arith) (omega arith)
