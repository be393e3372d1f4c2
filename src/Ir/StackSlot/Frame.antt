-- ===== src/Ir/StackSlot/Frame.antt =====
-- `StackSlots` of lib/cretonne/src/ir/stackslot.rs: all the slots of a function. The `PrimaryMap` of the slots
-- is the list of its values, and a slot's reference is its place there. `none` is the panic of a reference
-- out of range or of a missing offset.
pub mod Emergency
mod Tests
use cretonne.Prelude.{
  ℕ, zero, suc, ◌+◌, Bool, true, false, not, ◌&&◌, ◌||◌, ltb, leb, ◌==◌, Option, none, some, List,
  [], ◌∷◌, ◌++◌, length, get_elem?, set, if◌then◌else◌,
}
use cretonne.Prelude.Int.{ℤ, ltb_ℤ}
use cretonne.Prelude.Panic.{◌>>=◌}
use cretonne.Prelude.Splice.{insert_at}
use cretonne.Ir.Types.{ValueType, bytes}
use cretonne.Ir.StackSlot.{StackSlotData, StackSlotKind, spill_size}

pub record StackSlots : Type 0 where
  pub slots : List StackSlotData
  pub outgoing : List ℕ
  pub emergency : List ℕ
  pub frame_size : Option ℕ

unfoldable pub new : StackSlots
new = record { slots = []; outgoing = []; emergency = []; frame_size = none }

unfoldable pub clear : StackSlots → StackSlots
clear f = record { slots = []; outgoing = []; emergency = []; frame_size = none }

unfoldable pub next_key : StackSlots → ℕ
next_key f = length f.slots

unfoldable pub push : StackSlots → StackSlotData → ℕ × StackSlots
unfolding next_key
push f slot = (next_key f, record f { slots = f.slots ++ (slot ∷ []) })

unfoldable pub is_valid : StackSlots → ℕ → Bool
is_valid f ss = ltb ss (length f.slots)

unfoldable pub set_offset : StackSlots → ℕ → ℤ → Option StackSlots
set_offset f ss offset = do
  slot ← get_elem? f.slots ss
  some (record f { slots = set f.slots ss (record slot { offset = some offset }) })

unfoldable pub make_spill_slot : StackSlots → ValueType → ℕ × StackSlots
unfolding push spill_size
make_spill_slot f t =
    push f (record { kind = StackSlotKind.spill_slot; size = spill_size t; offset = none })

unfoldable pub make_incoming_arg : StackSlots → ValueType → ℤ → ℕ × StackSlots
unfolding push
make_incoming_arg f t offset =
    push f (record { kind = StackSlotKind.incoming_arg; size = bytes t; offset = some offset })

-- `Result<usize, usize>`: the place of the key, or the place to insert it.
pub data Search : Type 0 where
  found insert_pos : ℕ → Search

unfoldable pub later : Search → Search
later (Search.found i) = Search.found (suc i)
later (Search.insert_pos i) = Search.insert_pos (suc i)

-- What `binary_search_by_key` finds in a list in ascending order of offsets and sizes, as `outgoing` is
-- kept. The whole list is read here, so a missing offset is a panic wherever it is.
unfoldable pub outgoing_search : List StackSlotData → List ℕ → ℤ → ℕ → Option Search
unfolding later
outgoing_search slots [] offset size = some (Search.insert_pos 0)
outgoing_search slots (ss ∷ rest) offset size = do
  slot ← get_elem? slots ss
  start ← slot.offset
  after ← outgoing_search slots rest offset size
  some (
      if ltb_ℤ start offset || (not (ltb_ℤ offset start) && ltb slot.size size)
      then later after
      else if not (ltb_ℤ offset start) && slot.size == size
      then Search.found 0
      else Search.insert_pos 0)

unfoldable pub get_outgoing_arg : StackSlots → ValueType → ℤ → Option (ℕ × StackSlots)
unfolding outgoing_search next_key
get_outgoing_arg f t offset = outgoing_search f.slots f.outgoing offset (bytes t) >>= λ r. elim r [
  | Search.found i ↦ get_elem? f.outgoing i >>= λ ss. some (ss, f)
  | Search.insert_pos i ↦
      let slot : StackSlotData = record {
        kind = StackSlotKind.outgoing_arg;
        size = bytes t;
        offset = some offset;
      } in
      some (
        next_key f,
        record f { slots = f.slots ++ (slot ∷ []); outgoing = insert_at f.outgoing i (next_key f) },
      )
]

-- Slots with their sizes.
unfoldable pub sized : List StackSlotData → List ℕ → Option (List (ℕ × ℕ))
sized slots [] = some []
sized slots (ss ∷ rest) = do
  slot ← get_elem? slots ss
  others ← sized slots rest
  some ((ss, slot.size) ∷ others)

-- `in_use.contains(&ss.into())`.
unfoldable pub in_list : List (Option ℕ) → ℕ → Bool
in_list [] ss = false
in_list (none ∷ rest) ss = in_list rest ss
in_list (some used ∷ rest) ss = used == ss || in_list rest ss

unfoldable pub filter : (ℕ × ℕ → Bool) → List (ℕ × ℕ) → List (ℕ × ℕ)
filter p [] = []
filter p (x ∷ xs) = if p x then x ∷ filter p xs else filter p xs

-- `min_by_key` of the sizes is the first slot of the least.
unfoldable pub min_by_size : List (ℕ × ℕ) → Option (ℕ × ℕ)
min_by_size [] = none
min_by_size ((ss, n) ∷ rest) = elim (min_by_size rest) [
  | none ↦ some (ss, n)
  | some (other, least) ↦ if leb n least then some (ss, n) else some (other, least)
]

-- `max_by_key` is the last slot of the greatest.
unfoldable pub max_by_size : List (ℕ × ℕ) → Option (ℕ × ℕ)
max_by_size [] = none
max_by_size ((ss, n) ∷ rest) = elim (max_by_size rest) [
  | none ↦ some (ss, n)
  | some (other, most) ↦ if leb n most then some (other, most) else some (ss, n)
]

-- The slot of least size that fits, else the largest made larger, else a new one.
unfoldable pub choose_emergency : StackSlots → ℕ → List (ℕ × ℕ) → Option (ℕ × StackSlots)
unfolding filter min_by_size max_by_size next_key
choose_emergency f size free = elim (min_by_size (filter (λ (ss, n). leb size n) free)) [
  | some (ss, n) ↦ some (ss, f)
  | none ↦ elim (max_by_size free) [
    | some (ss, n) ↦ do
      slot ← get_elem? f.slots ss
      some (ss, record f { slots = set f.slots ss (record slot { size = size }) })
    | none ↦
        let slot : StackSlotData = record {
          kind = StackSlotKind.emergency_slot;
          size = size;
          offset = none;
        } in
        some (
          next_key f,
          record f { slots = f.slots ++ (slot ∷ []); emergency = f.emergency ++ (next_key f ∷ []) },
        )
  ]
]

unfoldable pub get_emergency_slot :
    StackSlots → ValueType → List (Option ℕ) → Option (ℕ × StackSlots)
unfolding sized in_list choose_emergency spill_size
get_emergency_slot f t in_use = do
  sizes ← sized f.slots f.emergency
  choose_emergency f (spill_size t) (filter (λ (ss, n). not (in_list in_use ss)) sizes)
