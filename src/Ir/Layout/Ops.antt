-- ===== src/Ir/Layout/Ops.antt =====
-- The operations of `Layout` that move EBBs and instructions. Each changes links first and then
-- assigns a sequence number, with the fuel of that. `none` is also the panic of an `expect`.
use cretonne.Prelude.{ℕ, Option, none, some, Bool, true, false, ◌||◌, ◌==◌}
use cretonne.Ir.Layout.{Layout, ebb_node, inst_node, set_ebb, set_inst}
use cretonne.Ir.Layout.Seq.{assign_ebb_seq, assign_inst_seq}

-- `match o { None => self.first_ebb = x, Some(a) => self.ebbs[a].next = x }`.
unfoldable pub set_next_of : Layout → Option ℕ → Option ℕ → Layout
set_next_of l none x = record l { first_ebb = x }
set_next_of l (some a) x = set_ebb l a (record (ebb_node l a) { next = x })

-- `match o { None => self.last_ebb = x, Some(b) => self.ebbs[b].prev = x }`.
unfoldable pub set_prev_of : Layout → Option ℕ → Option ℕ → Layout
set_prev_of l none x = record l { last_ebb = x }
set_prev_of l (some b) x = set_ebb l b (record (ebb_node l b) { prev = x })

unfoldable pub set_ebb_links : Layout → ℕ → Option ℕ → Option ℕ → Layout
set_ebb_links l e p n = set_ebb l e (record (ebb_node l e) { prev = p; next = n })

-- `match o { None => self.ebbs[e].first_inst = x, Some(a) => self.insts[a].next = x }`.
unfoldable pub set_next_inst_of : Layout → ℕ → Option ℕ → Option ℕ → Layout
set_next_inst_of l e none x = set_ebb l e (record (ebb_node l e) { first_inst = x })
set_next_inst_of l e (some a) x = set_inst l a (record (inst_node l a) { next = x })

-- `match o { None => self.ebbs[e].last_inst = x, Some(b) => self.insts[b].prev = x }`.
unfoldable pub set_prev_inst_of : Layout → ℕ → Option ℕ → Option ℕ → Layout
set_prev_inst_of l e none x = set_ebb l e (record (ebb_node l e) { last_inst = x })
set_prev_inst_of l e (some b) x = set_inst l b (record (inst_node l b) { prev = x })

unfoldable pub set_inst_links : Layout → ℕ → Option ℕ → Option ℕ → Option ℕ → Layout
set_inst_links l i e p n = set_inst l i (record (inst_node l i) { ebb = e; prev = p; next = n })

unfoldable pub is_some_ebb : Option ℕ → ℕ → Bool
is_some_ebb none e = false
is_some_ebb (some a) e = e == a

unfoldable pub is_some : Option ℕ → Bool
is_some none = false
is_some (some a) = true

unfoldable pub is_ebb_inserted : Layout → ℕ → Bool
unfolding is_some_ebb is_some
is_ebb_inserted l e = is_some_ebb l.first_ebb e || is_some (ebb_node l e).prev

unfoldable pub append_ebb_links : Layout → ℕ → Layout
append_ebb_links l e =
    let l' = set_next_of (set_ebb_links l e l.last_ebb none) l.last_ebb (some e) in
    record l' { last_ebb = some e }

unfoldable pub append_ebb : ℕ → Layout → ℕ → Option Layout
append_ebb fuel l e = assign_ebb_seq fuel (append_ebb_links l e) e

unfoldable pub insert_ebb_links : Layout → ℕ → ℕ → Layout
insert_ebb_links l e before =
    let after = (ebb_node l before).prev in
    let l' = set_prev_of (set_ebb_links l e after (some before)) (some before) (some e) in
    set_next_of l' after (some e)

unfoldable pub insert_ebb : ℕ → Layout → ℕ → ℕ → Option Layout
insert_ebb fuel l e before = assign_ebb_seq fuel (insert_ebb_links l e before) e

unfoldable pub insert_ebb_after_links : Layout → ℕ → ℕ → Layout
insert_ebb_after_links l e after =
    let before = (ebb_node l after).next in
    let l' = set_next_of (set_ebb_links l e (some after) before) (some after) (some e) in
    set_prev_of l' before (some e)

unfoldable pub insert_ebb_after : ℕ → Layout → ℕ → ℕ → Option Layout
insert_ebb_after fuel l e after = assign_ebb_seq fuel (insert_ebb_after_links l e after) e

unfoldable pub remove_ebb : Layout → ℕ → Layout
remove_ebb l e =
    let prev = (ebb_node l e).prev in
    let next = (ebb_node l e).next in
    set_prev_of (set_next_of (set_ebb_links l e none none) prev next) next prev

-- The `next` of the appended instruction is left as it is.
unfoldable pub append_inst_links : Layout → ℕ → ℕ → Option Layout
append_inst_links l i e =
    let last = (ebb_node l e).last_inst in
    let l' = set_inst_links l i (some e) last (inst_node l i).next in
    elim (ebb_node l e).first_inst [
      | none ↦ some (set_prev_inst_of (set_next_inst_of l' e none (some i)) e none (some i))
      | some first ↦ elim last [
        | none ↦ none
        | some a ↦ some (set_prev_inst_of (set_next_inst_of l' e (some a) (some i)) e none (some i))
      ]
    ]

unfoldable pub append_inst : ℕ → Layout → ℕ → ℕ → Option Layout
append_inst fuel l i e = elim (append_inst_links l i e) [
  | none ↦ none
  | some l' ↦ assign_inst_seq fuel l' i
]

unfoldable pub insert_inst_links : Layout → ℕ → ℕ → Option Layout
insert_inst_links l i before = elim (inst_node l before).ebb [
  | none ↦ none
  | some e ↦
      let after = (inst_node l before).prev in
      let l' = set_inst_links l i (some e) after (some before) in
      some (set_next_inst_of (set_prev_inst_of l' e (some before) (some i)) e after (some i))
]

unfoldable pub insert_inst : ℕ → Layout → ℕ → ℕ → Option Layout
insert_inst fuel l i before = elim (insert_inst_links l i before) [
  | none ↦ none
  | some l' ↦ assign_inst_seq fuel l' i
]

unfoldable pub remove_inst : Layout → ℕ → Option Layout
remove_inst l i = elim (inst_node l i).ebb [
  | none ↦ none
  | some e ↦
      let prev = (inst_node l i).prev in
      let next = (inst_node l i).next in
      some (
        set_prev_inst_of (set_next_inst_of (set_inst_links l i none none none) e prev next) e next
          prev)
]
