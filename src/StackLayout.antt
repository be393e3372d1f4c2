-- ===== src/StackLayout.antt =====
-- lib/cretonne/src/stack_layout.rs: the offsets of the stack slots and the size of the frame. `none` is
-- a panic: an argument slot without an offset, a failed assertion, an overflow of `min_align`, or the end
-- of the fuel. The frame comes back with an error too: what was written stays written.
pub mod Depth
pub mod Outcome
pub mod Placed
pub mod Rounds
pub mod Safe
pub mod Scanned
pub mod Slot
mod Tests
use cretonne.Prelude.{
  ℕ, zero, suc, ◌-◌, ◌*◌, ◌%◌, ◌^◌, Bool, true, false, ◌&&◌, ltb, leb, ◌==◌, Option, none, some,
  List, [], ◌∷◌, if◌then◌else◌,
}
use cretonne.Prelude.Int.{ℤ, pos}
use cretonne.Prelude.Int32.{
  checked_add, checked_sub, as_u32, as_i32, and_i32, neg_i32, min_ℤ, max_ℤ,
}
use cretonne.Prelude.Panic.{◌>>=◌}
use cretonne.Result.{CtonError, Result, ok, err}
use cretonne.Prelude.Bits.{is_power_of_two}
use cretonne.Ir.StackSlot.{StackSlotData, StackSlotKind, alignment}
use cretonne.Ir.StackSlot.Frame.{StackSlots}

abbrev pub max_size : ℕ
max_size = 2 ^ 31 - 1

abbrev too_big : {A : Type 0} → Result A
too_big = err CtonError.impl_limit_exceeded

-- What the first loop keeps.
pub record Scan : Type 0 where
  pub incoming_min : ℤ
  pub outgoing_max : ℤ
  pub min_align : ℕ

-- The `match` of the first loop.
unfoldable pub scan_kind : StackSlotKind → StackSlotData → Scan → Option (Result Scan)
unfolding alignment checked_add
scan_kind StackSlotKind.incoming_arg slot s =
    slot.offset >>= λ offset. some (ok (record s { incoming_min = min_ℤ s.incoming_min offset }))
scan_kind StackSlotKind.outgoing_arg slot s = slot.offset >>= λ start.
    elim (checked_add start (as_i32 slot.size)) [
      | none ↦ some too_big
      | some offset ↦ some (ok (record s { outgoing_max = max_ℤ s.outgoing_max offset }))
    ]
scan_kind _ slot s =
    alignment slot s.min_align >>= λ align. some (ok (record s { min_align = align }))

-- `for slot in frame.values()`.
unfoldable pub scan : List StackSlotData → Scan → Option (Result Scan)
unfolding scan_kind
scan [] s = some (ok s)
scan (slot ∷ slots) s =
    if ltb max_size slot.size
    then some too_big
    else scan_kind slot.kind slot s >>= λ r. elim r [ ok t ↦ scan slots t | err e ↦ some (err e) ]

-- Whether a round with `min_align` places a slot of the kind.
unfoldable pub picked : StackSlotKind → StackSlotData → ℕ → ℕ → Option Bool
unfolding alignment
picked StackSlotKind.incoming_arg slot align min_align = some false
picked StackSlotKind.outgoing_arg slot align min_align = some false
picked _ slot align min_align = alignment slot align >>= λ own. some (own == min_align)

-- `for slot in frame.values_mut()`, from `offset` on: the slots after, and the offset reached.
unfoldable pub place_slots : ℕ → ℕ → List StackSlotData → ℤ → Option (List StackSlotData × Result ℤ)
unfolding picked checked_sub and_i32 neg_i32
place_slots align min_align [] offset = some ([], ok offset)
place_slots align min_align (slot ∷ slots) offset =
    picked slot.kind slot align min_align >>= λ here. elim here [
      | true ↦ elim (checked_sub offset (as_i32 slot.size)) [
        | none ↦ some (slot ∷ slots, too_big)
        | some low ↦
            let next = and_i32 low (neg_i32 (as_i32 min_align)) in
            place_slots align min_align slots next >>= λ (rest, r).
            some (record slot { offset = some next } ∷ rest, r)
      ]
      | false ↦ place_slots align min_align slots offset >>= λ (rest, r). some (slot ∷ rest, r)
    ]

-- `while min_align <= alignment`.
unfoldable pub place_rounds :
    ℕ → ℕ → ℕ → List StackSlotData → ℤ → Option (List StackSlotData × Result ℤ)
unfolding place_slots
place_rounds zero align min_align slots offset = none
place_rounds (suc fuel) align min_align slots offset = elim (leb min_align align) [
  | false ↦ some (slots, ok offset)
  | true ↦ place_slots align min_align slots offset >>= λ (placed, r). elim r [
    | err e ↦ some (placed, err e)
    | ok low ↦ elim (ltb (min_align * 2) (2 ^ 32)) [
      | true ↦ place_rounds fuel align (min_align * 2) placed low
      | false ↦ none
    ]
  ]
]

-- Room for the outgoing arguments, and the size.
unfoldable pub finish : StackSlots → ℕ → ℤ → ℤ → Result ℕ × StackSlots
unfolding checked_sub and_i32 neg_i32
finish frame align outgoing_max offset = elim (checked_sub offset outgoing_max) [
  | none ↦ (too_big, frame)
  | some low ↦
      let size = (2 ^ 32 - as_u32 (and_i32 low (neg_i32 (as_i32 align)))) % 2 ^ 32 in
      (ok size, record frame { frame_size = some size })
]

-- The second half. A `u32` doubles at most 32 times.
unfoldable pub place : StackSlots → ℕ → Scan → Option (Result ℕ × StackSlots)
unfolding place_rounds finish is_power_of_two
place frame align s =
    if is_power_of_two s.min_align
    then (place_rounds 33 align s.min_align frame.slots s.incoming_min >>= λ (slots, o). elim o [
      | err e ↦ some (err e, record frame { slots = slots })
      | ok offset ↦ some (finish (record frame { slots = slots }) align s.outgoing_max offset)
    ])
    else none

unfoldable pub layout_stack : StackSlots → ℕ → Option (Result ℕ × StackSlots)
unfolding scan place is_power_of_two
layout_stack frame align =
    let start : Scan = record { incoming_min = pos 0; outgoing_max = pos 0; min_align = align } in
    if is_power_of_two align && leb align max_size
    then (scan frame.slots start >>= λ r. elim r [
      | err e ↦ some (err e, frame)
      | ok s ↦ place frame align s
    ])
    else none
