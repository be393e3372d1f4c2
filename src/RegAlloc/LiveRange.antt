-- ===== src/RegAlloc/LiveRange.antt =====
-- lib/cretonne/src/regalloc/liverange.rs: the live range of a value. The map of the live-in intervals,
-- a B-tree of bforest/map.rs, is the list of its entries by key, and a cursor an index in that list.
pub mod Intervals
pub mod Goto
pub mod Coalesce
pub mod Extend
pub mod Reach
pub mod Query
pub mod Uses
pub mod LayoutOrder
mod Tests
use cretonne.Prelude.{
  ℕ, zero, suc, ◌+◌, ◌-◌, Bool, true, false, ◌&&◌, ◌||◌, ◌==◌, ltb, leb, Option, none, some, List,
  [], ◌∷◌, get_elem?, set, if◌then◌else◌,
}
use cretonne.Prelude.Splice.{insert_at, remove_at}
use cretonne.Ir.ProgPoint.{ProgramPoint, ExpandedProgramPoint, from_inst, expand}
use cretonne.Ir.Layout.{Layout}
use cretonne.Ir.Layout.Points
use cretonne.RegAlloc.Affinity.{Affinity}

-- ir/progpoint.rs: a program order. Points are compared through their places, as in a layout.
pub record ProgramOrder : Type 0 where
  pub seq : ExpandedProgramPoint → ℕ
  pub is_ebb_gap : ℕ → ℕ → Bool

unfoldable pub layout_order : Layout → ProgramOrder
layout_order l = record { seq = Points.seq l; is_ebb_gap = Points.is_ebb_gap l }

-- An entry of the map: live-in to the EBB, and up to the instruction.
pub record Livein : Type 0 where
  pub ebb : ℕ
  pub last : ℕ

pub record LiveRange : Type 0 where
  pub value : ℕ
  pub affinity : Affinity
  pub def_begin : ProgramPoint
  pub def_end : ProgramPoint
  pub liveins : List Livein

abbrev pub ebb_seq : ProgramOrder → ℕ → ℕ
ebb_seq o e = o.seq (ExpandedProgramPoint.ebb e)

abbrev pub inst_seq : ProgramOrder → ℕ → ℕ
inst_seq o i = o.seq (ExpandedProgramPoint.inst i)

unfoldable pub new : ℕ → ProgramPoint → Affinity → LiveRange
new value def affinity = record {
  value = value;
  affinity = affinity;
  def_begin = def;
  def_end = def;
  liveins = [];
}

-- The first entry whose key is not less, or the end.
unfoldable pub goto : ProgramOrder → List Livein → ℕ → ℕ
goto o [] ebb = 0
goto o (x ∷ xs) ebb =
    let rest = goto o xs ebb in if ltb (ebb_seq o x.ebb) (ebb_seq o ebb) then suc rest else 0

-- The entry whose value `goto` returns.
unfoldable pub found : ProgramOrder → List Livein → ℕ → ℕ → Option Livein
found o xs i ebb = elim (get_elem? xs i) [
  | none ↦ none
  | some x ↦ if ebb_seq o x.ebb == ebb_seq o ebb then some x else none
]

-- The entry that `prev` moves to.
unfoldable pub prev : List Livein → ℕ → Option Livein
prev xs zero = none
prev xs (suc i) = get_elem? xs i

-- `*c.value_mut().unwrap() = to` at an entry.
unfoldable pub set_last : List Livein → ℕ → Livein → ℕ → List Livein
set_last xs i x to = set xs i (record x { last = to })

-- The entry at the index ends at `to`: the next one joins it over a gap.
unfoldable pub coalesce : ProgramOrder → List Livein → ℕ → Livein → ℕ → List Livein
unfolding set_last
coalesce o xs i x to = elim (get_elem? xs (suc i)) [
  | none ↦ xs
  | some y ↦ if o.is_ebb_gap to y.ebb then set_last (remove_at xs (suc i)) i x y.last else xs
]

-- An entry is moved up to `to`.
unfoldable pub reach : ProgramOrder → List Livein → ℕ → Livein → ℕ → List Livein
unfolding set_last coalesce
reach o xs i x to = coalesce o (set_last xs i x to) i x to

-- An entry that overlaps the EBB.
unfoldable pub extend_entry : ProgramOrder → List Livein → ℕ → Livein → ℕ → List Livein
unfolding reach
extend_entry o xs i x to = if ltb (inst_seq o x.last) (inst_seq o to) then reach o xs i x to else xs

-- A new entry.
unfoldable pub insert_entry : ProgramOrder → List Livein → ℕ → ℕ → ℕ → List Livein
unfolding coalesce
insert_entry o xs i ebb to =
    let x : Livein = record { ebb = ebb; last = to } in coalesce o (insert_at xs i x) i x to

-- With no entry for the EBB itself: the previous entry, at `i - 1`, may reach it.
unfoldable pub extend_after : ProgramOrder → List Livein → ℕ → Livein → ℕ → ℕ → List Livein × Bool
unfolding extend_entry reach insert_entry
extend_after o xs i x ebb to =
    if ltb (ebb_seq o ebb) (inst_seq o x.last)
    then (extend_entry o xs (i - 1) x to, false)
    else if o.is_ebb_gap x.last ebb
    then (reach o xs (i - 1) x to, true)
    else (insert_entry o xs i ebb to, true)

unfoldable pub extend_livein : ProgramOrder → List Livein → ℕ → ℕ → List Livein × Bool
unfolding goto found prev extend_entry extend_after insert_entry
extend_livein o xs ebb to =
    let i = goto o xs ebb in
    elim (found o xs i ebb) [
      | some x ↦ (extend_entry o xs i x to, false)
      | none ↦ elim (prev xs i) [
        | some x ↦ extend_after o xs i x ebb to
        | none ↦ (insert_entry o xs i ebb to, true)
      ]
    ]

-- The place of a packed program point.
abbrev pub place : ProgramOrder → ProgramPoint → ℕ
place o pp = o.seq (expand pp)

-- Is the def interval the one to extend?
unfoldable pub in_def : ProgramOrder → LiveRange → ℕ → ℕ → Bool
in_def o r ebb to =
    leb (ebb_seq o ebb) (place o r.def_end) && leb (place o r.def_begin) (inst_seq o to)

unfoldable pub extend_in_ebb : ProgramOrder → LiveRange → ℕ → ℕ → LiveRange × Bool
unfolding in_def extend_livein
extend_in_ebb o r ebb to =
    if in_def o r ebb to
    then (
      if ltb (place o r.def_end) (inst_seq o to) then record r { def_end = from_inst to } else r,
      false,
    )
    else (let (liveins, first_time_livein) = extend_livein o r.liveins ebb to in
        (record r { liveins = liveins }, first_time_livein))

unfoldable pub is_dead : LiveRange → Bool
is_dead r = r.def_begin.bits == r.def_end.bits

unfoldable pub is_local : LiveRange → Bool
is_local r = elim r.liveins [ [] ↦ true | x ∷ xs ↦ false ]

unfoldable pub move_def_locally : LiveRange → ProgramPoint → LiveRange
move_def_locally r def = record r { def_begin = def }

-- `bforest::Map::get_or_less`.
unfoldable pub get_or_less : ProgramOrder → List Livein → ℕ → Option Livein
unfolding goto found prev
get_or_less o xs ebb =
    let i = goto o xs ebb in elim (found o xs i ebb) [ some x ↦ some x | none ↦ prev xs i ]

unfoldable pub livein_local_end : ProgramOrder → LiveRange → ℕ → Option ℕ
unfolding get_or_less
livein_local_end o r ebb = elim (get_or_less o r.liveins ebb) [
  | none ↦ none
  | some x ↦ if ltb (ebb_seq o ebb) (inst_seq o x.last) then some x.last else none
]

unfoldable pub is_livein : ProgramOrder → LiveRange → ℕ → Bool
unfolding livein_local_end
is_livein o r ebb = elim (livein_local_end o r ebb) [ none ↦ false | some i ↦ true ]

unfoldable pub same_point : ExpandedProgramPoint → ExpandedProgramPoint → Bool
same_point (ExpandedProgramPoint.inst i) (ExpandedProgramPoint.inst j) = i == j
same_point (ExpandedProgramPoint.ebb e) (ExpandedProgramPoint.ebb e') = e == e'
same_point _ _ = false

unfoldable pub overlaps_def : ProgramOrder → LiveRange → ExpandedProgramPoint → ℕ → Bool
unfolding livein_local_end same_point
overlaps_def o r def ebb =
    same_point def (expand r.def_begin)
    || ((leb (place o r.def_begin) (o.seq def) && ltb (o.seq def) (place o r.def_end))
        || elim (livein_local_end o r ebb) [
          | none ↦ false
          | some i ↦ ltb (o.seq def) (inst_seq o i)
        ])

unfoldable pub reaches_use : ProgramOrder → LiveRange → ℕ → ℕ → Bool
unfolding livein_local_end
reaches_use o r user ebb =
    (ltb (place o r.def_begin) (inst_seq o user) && leb (inst_seq o user) (place o r.def_end))
    || elim (livein_local_end o r ebb) [
      | none ↦ false
      | some i ↦ leb (inst_seq o user) (inst_seq o i)
    ]

unfoldable pub killed_at : ProgramOrder → LiveRange → ℕ → ℕ → Bool
unfolding livein_local_end
killed_at o r user ebb =
    r.def_end.bits == (from_inst user).bits
    || elim (livein_local_end o r ebb) [ none ↦ false | some i ↦ i == user ]
