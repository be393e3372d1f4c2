-- ===== src/Ir/Layout/Seq.antt =====
-- Sequence numbers of program points. A loop over the linked lists takes fuel; `none` means that
-- it ran out. Arithmetic is that of `u32`.
use cretonne.Prelude.{ℕ, zero, suc, ◌+◌, ◌-◌, ◌/◌, ◌%◌, ◌^◌, Option, none, some, ltb, if◌then◌else◌}
use cretonne.Ir.Layout.{Layout, ebb_node, inst_node, set_ebb, set_inst}

abbrev pub u32_add : ℕ → ℕ → ℕ
u32_add a b = (a + b) % 2 ^ 32

abbrev pub u32_sub : ℕ → ℕ → ℕ
u32_sub a b = (a + 2 ^ 32 - b) % 2 ^ 32

abbrev pub major_stride : ℕ
major_stride = 10

abbrev pub minor_stride : ℕ
minor_stride = 2

abbrev pub local_limit : ℕ
local_limit = 200

-- What the code does where its assertion `a < b` holds, and without it.
unfoldable pub midpoint : ℕ → ℕ → Option ℕ
midpoint a b = let m = u32_add a (u32_sub b a / 2) in if ltb a m then some m else none

unfoldable pub set_ebb_seq : Layout → ℕ → ℕ → Layout
set_ebb_seq l e s = set_ebb l e (record (ebb_node l e) { seq = s })

unfoldable pub set_inst_seq : Layout → ℕ → ℕ → Layout
set_inst_seq l i s = set_inst l i (record (inst_node l i) { seq = s })

unfoldable pub last_ebb_seq : Layout → ℕ → ℕ
last_ebb_seq l e = elim (ebb_node l e).last_inst [
  | none ↦ (ebb_node l e).seq
  | some i ↦ (inst_node l i).seq
]

-- The inner loop of `full_renumber`: the layout and the next number.
unfoldable pub number_insts : ℕ → Layout → Option ℕ → ℕ → Option (Layout × ℕ)
number_insts fuel l none s = some (l, s)
number_insts zero l (some i) s = none
number_insts (suc fuel) l (some i) s =
    let l' = set_inst_seq l i s in
    number_insts fuel l' (inst_node l' i).next (u32_add s major_stride)

-- The outer loop; each inner loop starts on the whole fuel.
unfoldable pub number_ebbs : ℕ → ℕ → Layout → Option ℕ → ℕ → Option Layout
number_ebbs whole fuel l none s = some l
number_ebbs whole zero l (some e) s = none
number_ebbs whole (suc fuel) l (some e) s =
    let l' = set_ebb_seq l e s in
    elim (number_insts whole l' (ebb_node l' e).first_inst (u32_add s major_stride)) [
      | none ↦ none
      | some (l'', s') ↦ number_ebbs whole fuel l'' (ebb_node l' e).next s'
    ]

unfoldable pub full_renumber : ℕ → Layout → Option Layout
full_renumber whole l = number_ebbs whole whole l l.first_ebb 0

-- Too many instructions are pushed in front: the numbers are monotonic after the full renumbering.
unfoldable pub give_up : ℕ → Layout → Option (Layout × Option ℕ)
give_up whole l = elim (full_renumber whole l) [ none ↦ none | some l' ↦ some (l', none) ]

-- The new layout, and the last number used if the numbers have not caught up.
unfoldable pub renumber_insts : ℕ → ℕ → Layout → ℕ → ℕ → ℕ → Option (Layout × Option ℕ)
unfolding give_up
renumber_insts whole zero l i s limit = none
renumber_insts whole (suc fuel) l i s limit =
    let l' = set_inst_seq l i s in
    elim (inst_node l' i).next [
      | none ↦ some (l', some s)
      | some next ↦
          let rest = renumber_insts whole fuel l' next (u32_add s minor_stride) limit in
          if ltb s (inst_node l' next).seq
          then some (l', none)
          else if ltb limit s
          then give_up whole l'
          else rest
    ]

-- The instructions of one EBB, in `renumber_from_ebb`.
unfoldable pub renumber_body : ℕ → Layout → Option ℕ → ℕ → ℕ → Option (Layout × Option ℕ)
renumber_body whole l none s limit = some (l, some s)
renumber_body whole l (some i) s limit =
    renumber_insts whole whole l i (u32_add s minor_stride) limit

unfoldable pub renumber_from_ebb : ℕ → ℕ → Layout → ℕ → ℕ → ℕ → Option Layout
unfolding renumber_body
renumber_from_ebb whole zero l e s limit = none
renumber_from_ebb whole (suc fuel) l e s limit =
    let l' = set_ebb_seq l e s in
    elim (renumber_body whole l' (ebb_node l' e).first_inst s limit) [
      | none ↦ none
      | some (l'', none) ↦ some l''
      | some (l'', some s') ↦ elim (ebb_node l'' e).next [
        | none ↦ some l''
        | some next ↦
            let rest = renumber_from_ebb whole fuel l'' next (u32_add s' minor_stride) limit in
            if ltb s' (ebb_node l'' next).seq then some l'' else rest
      ]
    ]

-- The `unwrap` of the EBB of `i` and of the link to the next.
unfoldable pub spill_over : ℕ → Layout → ℕ → ℕ → ℕ → Option Layout
spill_over whole l i s limit = elim (inst_node l i).ebb [
  | none ↦ none
  | some e ↦ elim (ebb_node l e).next [
    | none ↦ some l
    | some next ↦ renumber_from_ebb whole whole l next (u32_add s minor_stride) limit
  ]
]

unfoldable pub renumber_from_inst : ℕ → Layout → ℕ → ℕ → ℕ → Option Layout
unfolding spill_over
renumber_from_inst whole l i s limit = elim (renumber_insts whole whole l i s limit) [
  | none ↦ none
  | some (l', none) ↦ some l'
  | some (l', some s') ↦ spill_over whole l' i s' limit
]

-- The number that follows `e`, of its first instruction or of the next EBB.
unfoldable pub ebb_next_seq : Layout → ℕ → Option ℕ
ebb_next_seq l e = elim (ebb_node l e).first_inst [
  | some i ↦ some (inst_node l i).seq
  | none ↦ elim (ebb_node l e).next [ none ↦ none | some next ↦ some (ebb_node l next).seq ]
]

unfoldable pub ebb_prev_seq : Layout → ℕ → ℕ
unfolding last_ebb_seq
ebb_prev_seq l e = elim (ebb_node l e).prev [ none ↦ 0 | some p ↦ last_ebb_seq l p ]

unfoldable pub assign_ebb_seq : ℕ → Layout → ℕ → Option Layout
unfolding ebb_next_seq ebb_prev_seq
assign_ebb_seq whole l e =
    let prev = ebb_prev_seq l e in
    elim (ebb_next_seq l e) [
      | none ↦ some (set_ebb_seq l e (u32_add prev major_stride))
      | some next ↦ elim (midpoint prev next) [
        | some s ↦ some (set_ebb_seq l e s)
        | none ↦
            renumber_from_ebb whole whole l e (u32_add prev minor_stride) (u32_add prev local_limit)
      ]
    ]

-- The number that follows `i`, of the next instruction or of the EBB after `e`.
unfoldable pub inst_next_seq : Layout → ℕ → ℕ → Option ℕ
inst_next_seq l i e = elim (inst_node l i).next [
  | some next ↦ some (inst_node l next).seq
  | none ↦ elim (ebb_node l e).next [ none ↦ none | some next ↦ some (ebb_node l next).seq ]
]

unfoldable pub inst_prev_seq : Layout → ℕ → ℕ → ℕ
inst_prev_seq l i e = elim (inst_node l i).prev [
  | none ↦ (ebb_node l e).seq
  | some p ↦ (inst_node l p).seq
]

unfoldable pub assign_in : ℕ → Layout → ℕ → ℕ → Option Layout
unfolding inst_next_seq inst_prev_seq
assign_in whole l i e =
    let prev = inst_prev_seq l i e in
    elim (inst_next_seq l i e) [
      | none ↦ some (set_inst_seq l i (u32_add prev major_stride))
      | some next ↦ elim (midpoint prev next) [
        | some s ↦ some (set_inst_seq l i s)
        | none ↦ renumber_from_inst whole l i (u32_add prev minor_stride) (u32_add prev local_limit)
      ]
    ]

-- `none` also stands for the panic on an instruction that is in no EBB.
unfoldable pub assign_inst_seq : ℕ → Layout → ℕ → Option Layout
unfolding assign_in
assign_inst_seq whole l i = elim (inst_node l i).ebb [
  | none ↦ none
  | some e ↦ assign_in whole l i e
]
