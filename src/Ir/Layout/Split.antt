-- ===== src/Ir/Layout/Split.antt =====
-- `split_ebb`: the instructions from one on move to a new EBB right after the old one.
use cretonne.Prelude.{ℕ, zero, suc, Option, none, some, if◌then◌else◌}
use cretonne.Ir.Layout.{Layout, ebb_node, inst_node, set_ebb, set_inst}
use cretonne.Ir.Layout.Points.{same}
use cretonne.Ir.Layout.Seq.{assign_ebb_seq}

-- The new EBB's node, and the link of the old one to it.
unfoldable pub link_new_ebb : Layout → ℕ → ℕ → ℕ → Layout
link_new_ebb l new_ebb old_ebb first =
    let node = ebb_node l old_ebb in
    let l' = set_ebb l new_ebb (record (ebb_node l new_ebb) {
      prev = some old_ebb;
      next = node.next;
      first_inst = some first;
      last_inst = node.last_inst;
    }) in
    set_ebb l' old_ebb (record (ebb_node l' old_ebb) { next = some new_ebb })

-- The backwards link, with the `unwrap` of the EBB after the old one.
unfoldable pub fix_backwards : Layout → ℕ → ℕ → Option ℕ → Option Layout
unfolding same
fix_backwards l new_ebb old_ebb next_ebb =
    if same (some old_ebb) l.last_ebb
    then some (record l { last_ebb = some new_ebb })
    else elim next_ebb [
      | none ↦ none
      | some b ↦ some (set_ebb l b (record (ebb_node l b) { prev = some new_ebb }))
    ]

unfoldable pub disconnect : Layout → ℕ → ℕ → Layout
disconnect l old_ebb first =
    let prev_inst = (inst_node l first).prev in
    let l' = set_inst l first (record (inst_node l first) { prev = none }) in
    let l'' = set_ebb l' old_ebb (record (ebb_node l' old_ebb) { last_inst = prev_inst }) in
    elim prev_inst [
      | none ↦ set_ebb l'' old_ebb (record (ebb_node l'' old_ebb) { first_inst = none })
      | some i ↦ set_inst l'' i (record (inst_node l'' i) { next = none })
    ]

-- The loop over the moved instructions; `none` is out of fuel.
unfoldable pub move_insts : ℕ → Layout → Option ℕ → ℕ → Option Layout
move_insts fuel l none new_ebb = some l
move_insts zero l (some i) new_ebb = none
move_insts (suc fuel) l (some i) new_ebb =
    let l' = set_inst l i (record (inst_node l i) { ebb = some new_ebb }) in
    move_insts fuel l' (inst_node l' i).next new_ebb

-- The layout before its new EBB gets a number.
unfoldable pub split_links : ℕ → Layout → ℕ → ℕ → Option Layout
unfolding link_new_ebb fix_backwards disconnect move_insts
split_links fuel l new_ebb first = elim (inst_node l first).ebb [
  | none ↦ none
  | some old_ebb ↦
      elim (fix_backwards (link_new_ebb l new_ebb old_ebb first) new_ebb old_ebb
        (ebb_node l old_ebb).next) [
          | none ↦ none
          | some l' ↦ move_insts fuel (disconnect l' old_ebb first) (some first) new_ebb
        ]
]

unfoldable pub split_ebb : ℕ → Layout → ℕ → ℕ → Option Layout
split_ebb fuel l new_ebb first = elim (split_links fuel l new_ebb first) [
  | none ↦ none
  | some l' ↦ assign_ebb_seq fuel l' new_ebb
]
