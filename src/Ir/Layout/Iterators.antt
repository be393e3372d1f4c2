-- ===== src/Ir/Layout/Iterators.antt =====
-- The iterators over a layout: `Ebbs`, and `Insts`, which goes from both ends.
use cretonne.Prelude.{ℕ, zero, suc, Option, none, some, List, [], ◌∷◌, if◌then◌else◌}
use cretonne.Ir.Layout.{Layout, ebb_node, inst_node, next_ebb}
use cretonne.Ir.Layout.Points.{same}

-- The state of `Ebbs` is its `next`. A step returns an EBB and the new state.
unfoldable pub ebbs_next : Layout → Option ℕ → Option ℕ × Option ℕ
unfolding next_ebb
ebbs_next l none = (none, none)
ebbs_next l (some e) = (some e, next_ebb l e)

unfoldable pub ebbs : Layout → Option ℕ
ebbs l = l.first_ebb

-- A client's `for` loop, which calls `next` until the end; `none` is out of fuel.
unfoldable pub collect : ℕ → Layout → Option ℕ → Option (List ℕ)
unfolding ebbs_next
collect zero l o = none
collect (suc fuel) l o =
    let (item, rest) = ebbs_next l o in
    elim item [
      | none ↦ some []
      | some e ↦ elim (collect fuel l rest) [ none ↦ none | some xs ↦ some (e ∷ xs) ]
    ]

pub record Insts : Type 0 where
  pub head : Option ℕ
  pub tail : Option ℕ

unfoldable pub ebb_insts : Layout → ℕ → Insts
ebb_insts l e = record { head = (ebb_node l e).first_inst; tail = (ebb_node l e).last_inst }

abbrev pub finished : Insts
finished = record { head = none; tail = none }

unfoldable pub next : Layout → Insts → Option ℕ × Insts
unfolding same
next l it = elim it.head [
  | none ↦ (none, it)
  | some i ↦ (
    some i,
    (if same it.head it.tail
        then finished
        else record { head = (inst_node l i).next; tail = it.tail }),
  )
]

unfoldable pub next_back : Layout → Insts → Option ℕ × Insts
unfolding same
next_back l it = elim it.tail [
  | none ↦ (none, it)
  | some i ↦ (
    some i,
    (if same it.head it.tail
        then finished
        else record { head = it.head; tail = (inst_node l i).prev }),
  )
]

-- The calls of an iterator's user.
pub data Side : Type 0 where
  front back : Side

unfoldable pub step : Layout → Insts → Side → Option ℕ × Insts
unfolding next next_back
step l it Side.front = next l it
step l it Side.back = next_back l it

unfoldable pub items : Layout → Insts → List Side → List (Option ℕ)
unfolding step
items l it [] = []
items l it (s ∷ ss) = let (item, it') = step l it s in item ∷ items l it' ss
