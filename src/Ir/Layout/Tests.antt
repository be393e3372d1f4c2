-- ===== src/Ir/Layout/Tests.antt =====
-- `Layout` on a function of a few EBBs and instructions.
use cretonne.Prelude.{
  ℕ, zero, suc, ◌≡◌, ◌<◌, ◌↔◌, refl, List, [], ◌∷◌, Option, none, some, Bool, true, false, ◌||◌,
  arith, ◌==◌, length,
}
use cretonne.Prelude.Splice.{insert_at, remove_at}
use cretonne.Entity.Map
use cretonne.Ir.Layout.{next_ebb, Layout, new}
use cretonne.Ir.Layout.Links.{before}
use cretonne.Ir.Layout.Seq.{
  renumber_insts, renumber_from_inst, spill_over, full_renumber, midpoint, assign_ebb_seq,
  assign_inst_seq, assign_in, ebb_next_seq, ebb_prev_seq, inst_next_seq, inst_prev_seq, set_ebb_seq,
  set_inst_seq, last_ebb_seq, renumber_from_ebb, renumber_body,
}
use cretonne.Ir.Layout.Ops.{
  append_ebb, append_ebb_links, insert_ebb, insert_ebb_links, insert_ebb_after,
  insert_ebb_after_links, append_inst, append_inst_links, insert_inst, insert_inst_links,
  remove_ebb, remove_inst, set_next_of, set_prev_of, set_ebb_links, set_next_inst_of,
  set_prev_inst_of, set_inst_links,
}
use cretonne.Ir.Layout.Shape.{shape}
use cretonne.Ir.Layout.Valid.{IsLayout, Absent}
use cretonne.Ir.Layout.ValidInst.{with_body}
use cretonne.Ir.Layout.Numbering.{Renumbered, full_renumber-Renumbered}
use cretonne.Ir.Layout.Ebbs.{remove_ebb-IsLayout}
use cretonne.Ir.Layout.Insts.{remove_inst-IsLayout}
use cretonne.Ir.ProgPoint.{ExpandedProgramPoint}
use cretonne.Ir.Layout.Points.{same, is_ebb_gap, pp_ebb, is_ebb_gap_iff}
use cretonne.Ir.Layout.Split.{
  split_ebb, split_links, link_new_ebb, fix_backwards, disconnect, move_insts,
}
use cretonne.Ir.Layout.Iterators
use cretonne.Ir.Layout.Iterators.{collect, ebb_insts, items, Side}
use cretonne.Ir.Layout.Ranges.{expected, collect-ebbs, items-ebb_insts}
use cretonne.Ir.Layout.Refines.{
  Gives, HasRoom, new-IsLayout, append_ebb-Gives, insert_ebb-Gives, insert_ebb_after-Gives,
  append_inst-Gives, insert_inst-Gives,
}

occurs : ℕ → List ℕ → Bool
occurs a [] = false
occurs a (x ∷ xs) = (x == a) || occurs a xs

Absent-occurs : (a : ℕ) (xs : List ℕ) → occurs a xs ≡ false → Absent a xs
unfolding occurs
Absent-occurs a [] h k p = cc
Absent-occurs a (x ∷ xs) h zero p = ground arith
Absent-occurs a (x ∷ xs) h (suc k) p = Absent-occurs a xs (ground arith) k p

abbrev or_new : Option Layout → Layout
or_new none = new
or_new (some l) = l

or_new-IsLayout :
    {es : List ℕ} {body : ℕ → List ℕ} (o : Option Layout)
    → Gives o es body
    → IsLayout (shape (or_new o)) es body
unfolding shape
or_new-IsLayout none (l, runs, h) = cc
or_new-IsLayout (some r) (l, runs, h) = rw runs h

-- No EBB has an instruction.
abbrev bare : ℕ → List ℕ
bare _ = []

abbrev one : Layout
one = or_new (append_ebb 3 new 7)

append_ebb-Gives_example : Gives (append_ebb 3 new 7) (7 ∷ []) bare
unfolding occurs
append_ebb-Gives_example =
    append_ebb-Gives 3 new [] bare new-IsLayout 7 (Absent-occurs 7 [] refl)
      (record { ebbs = omega arith; insts = λ e. omega arith })

one-IsLayout : IsLayout (shape one) (7 ∷ []) bare
one-IsLayout = or_new-IsLayout (append_ebb 3 new 7) append_ebb-Gives_example

abbrev two : Layout
two = or_new (insert_ebb_after 4 one 2 7)

insert_ebb_after-Gives_example : Gives (insert_ebb_after 4 one 2 7) (7 ∷ 2 ∷ []) bare
unfolding occurs insert_at
insert_ebb_after-Gives_example =
    insert_ebb_after-Gives 4 one (7 ∷ []) bare one-IsLayout 2 7 0 (Absent-occurs 2 (7 ∷ []) refl)
      refl (record { ebbs = omega arith; insts = λ e. omega arith })

two-IsLayout : IsLayout (shape two) (7 ∷ 2 ∷ []) bare
two-IsLayout = or_new-IsLayout (insert_ebb_after 4 one 2 7) insert_ebb_after-Gives_example

abbrev three : Layout
three = or_new (insert_ebb 4 two 9 2)

-- The new EBB stands between the numbers 10 and 20.
room : (n : ℕ) → some 20 ≡ some n → 10 < n
room n e = ground arith

two-HasRoom : HasRoom (insert_ebb_links two 9 2) 9
unfolding new append_ebb append_ebb_links insert_ebb_links insert_ebb_after insert_ebb_after_links
    set_next_of set_prev_of set_ebb_links assign_ebb_seq ebb_next_seq ebb_prev_seq set_ebb_seq
    last_ebb_seq Map.index Map.assign Map.get Map.resize Map.with_default
two-HasRoom = room

insert_ebb-Gives_example : Gives (insert_ebb 4 two 9 2) (7 ∷ 9 ∷ 2 ∷ []) bare
unfolding occurs insert_at
insert_ebb-Gives_example =
    insert_ebb-Gives 4 two (7 ∷ 2 ∷ []) bare two-IsLayout 9 2 1 (Absent-occurs 9 (7 ∷ 2 ∷ []) refl)
      refl (record { ebbs = omega arith; insts = λ e. omega arith }) two-HasRoom

three-IsLayout : IsLayout (shape three) (7 ∷ 9 ∷ 2 ∷ []) bare
three-IsLayout = or_new-IsLayout (insert_ebb 4 two 9 2) insert_ebb-Gives_example

abbrev four : Layout
four = or_new (append_inst 4 three 5 9)

abbrev one_inst : ℕ → List ℕ
one_inst = with_body bare 9 (5 ∷ [])

append_inst-Gives_example : Gives (append_inst 4 three 5 9) (7 ∷ 9 ∷ 2 ∷ []) one_inst
unfolding new append_ebb append_ebb_links insert_ebb insert_ebb_links insert_ebb_after
    insert_ebb_after_links set_next_of set_prev_of set_ebb_links assign_ebb_seq ebb_next_seq
    ebb_prev_seq set_ebb_seq last_ebb_seq midpoint renumber_from_ebb renumber_body Map.index
    Map.assign Map.get Map.resize Map.with_default
append_inst-Gives_example =
    append_inst-Gives 4 three (7 ∷ 9 ∷ 2 ∷ []) bare three-IsLayout 5 9 1 refl refl refl
      (record { ebbs = omega arith; insts = λ e. ground arith })

four-IsLayout : IsLayout (shape four) (7 ∷ 9 ∷ 2 ∷ []) one_inst
four-IsLayout = or_new-IsLayout (append_inst 4 three 5 9) append_inst-Gives_example

abbrev five : Layout
five = or_new (insert_inst 4 four 8 5)

abbrev two_insts : ℕ → List ℕ
two_insts = with_body one_inst 9 (8 ∷ 5 ∷ [])

insert_inst-Gives_example : Gives (insert_inst 4 four 8 5) (7 ∷ 9 ∷ 2 ∷ []) two_insts
unfolding insert_at new append_ebb append_ebb_links insert_ebb insert_ebb_links insert_ebb_after
    insert_ebb_after_links set_next_of set_prev_of set_ebb_links assign_ebb_seq ebb_next_seq
    ebb_prev_seq set_ebb_seq last_ebb_seq midpoint renumber_from_ebb renumber_body Map.index
    Map.assign Map.get Map.resize Map.with_default append_inst append_inst_links set_inst_links
    set_prev_inst_of set_next_inst_of assign_inst_seq assign_in inst_next_seq inst_prev_seq
    set_inst_seq
insert_inst-Gives_example =
    insert_inst-Gives 4 four (7 ∷ 9 ∷ 2 ∷ []) one_inst four-IsLayout 8 5 9 1 0 refl refl refl
      (record { ebbs = omega arith; insts = λ e. ground arith })

five-IsLayout : IsLayout (shape five) (7 ∷ 9 ∷ 2 ∷ []) two_insts
five-IsLayout = or_new-IsLayout (insert_inst 4 four 8 5) insert_inst-Gives_example

-- The EBBs of `five`.
abbrev ebbs : List ℕ
ebbs = 7 ∷ 9 ∷ 2 ∷ []

remove_ebb-IsLayout_example : IsLayout (shape (remove_ebb five 2)) (remove_at ebbs 2) two_insts
remove_ebb-IsLayout_example = remove_ebb-IsLayout five ebbs two_insts 2 2 five-IsLayout refl refl

remove_inst-IsLayout_example :
    (l : Layout) × (remove_inst five 5 ≡ some l)
    × IsLayout (shape l) ebbs (with_body two_insts 9 (remove_at (two_insts 9) 1))
remove_inst-IsLayout_example =
    remove_inst-IsLayout five ebbs two_insts 1 9 1 5 five-IsLayout refl refl

full_renumber-Renumbered_example : Renumbered ebbs two_insts five (full_renumber 4 five)
full_renumber-Renumbered_example =
    full_renumber-Renumbered ebbs two_insts five five-IsLayout 4
      (record { ebbs = omega arith; insts = λ e. ground arith })

is_ebb_gap_iff_example :
    (is_ebb_gap five 5 2 ≡ true) ↔ ((2 ≡ length (two_insts 9)) × (before ebbs 2 ≡ some 9))
is_ebb_gap_iff_example = is_ebb_gap_iff five ebbs two_insts five-IsLayout 5 9 1 2 2 refl refl

collect-ebbs_example : collect 4 five (Iterators.ebbs five) ≡ some ebbs
collect-ebbs_example = collect-ebbs five ebbs two_insts five-IsLayout 4 (omega arith)

abbrev from_both_ends : List Side
from_both_ends = Side.back ∷ Side.front ∷ Side.front ∷ []

-- The last instruction, the first, and no more.
items-ebb_insts_example : items five (ebb_insts five 9) from_both_ends ≡ some 5 ∷ some 8 ∷ none ∷ []
unfolding expected
items-ebb_insts_example = items-ebb_insts five ebbs two_insts five-IsLayout 9 from_both_ends

abbrev split : Layout
split = or_new (split_ebb 5 five 3 5)

-- The new EBB 3 stands after the EBB 9, and has the instruction 5.
split_reads :
    (collect 5 split (Iterators.ebbs split) ≡ some (7 ∷ 9 ∷ 3 ∷ 2 ∷ []))
    × (items split (ebb_insts split 9) from_both_ends ≡ some 8 ∷ none ∷ none ∷ [])
    × (items split (ebb_insts split 3) from_both_ends ≡ some 5 ∷ none ∷ none ∷ [])
    × (pp_ebb split (ExpandedProgramPoint.inst 5) ≡ some 3)
unfolding insert_at new append_ebb append_ebb_links insert_ebb insert_ebb_links insert_ebb_after
    insert_ebb_after_links set_next_of set_prev_of set_ebb_links assign_ebb_seq ebb_next_seq
    ebb_prev_seq set_ebb_seq last_ebb_seq midpoint renumber_from_ebb renumber_body Map.index
    Map.assign Map.get Map.resize Map.with_default append_inst append_inst_links set_inst_links
    set_prev_inst_of set_next_inst_of assign_inst_seq assign_in inst_next_seq inst_prev_seq
    set_inst_seq split_ebb split_links link_new_ebb fix_backwards disconnect move_insts same collect
    Iterators.ebbs Iterators.ebbs_next items ebb_insts Iterators.step Iterators.next
    Iterators.next_back pp_ebb next_ebb renumber_insts renumber_from_inst spill_over insert_inst
    insert_inst_links
split_reads = (refl, refl, refl, refl)
