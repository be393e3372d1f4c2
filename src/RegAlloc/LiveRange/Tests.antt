-- ===== src/RegAlloc/LiveRange/Tests.antt =====
-- Live ranges in a layout of three EBBs, with one instruction each.
use cretonne.Prelude.{
  leb, ◌&&◌, ℕ, zero, suc, ◌+◌, ◌*◌, ◌<◌, ◌≡◌, refl, false, ◌||◌, not, ◌==◌, Option, none, some,
  List, [], ◌∷◌, get_elem?, arith,
}
use cretonne.Entity.Map
use cretonne.Ir.ProgPoint.{ExpandedProgramPoint, point, expand}
use cretonne.Ir.Layout.{Layout, new}
use cretonne.Ir.Layout.Seq.{
  assign_ebb_seq, ebb_next_seq, ebb_prev_seq, set_ebb_seq, last_ebb_seq, midpoint, assign_inst_seq,
  assign_in, inst_next_seq, inst_prev_seq, set_inst_seq, full_renumber,
}
use cretonne.Ir.Layout.Ops.{
  append_ebb, append_ebb_links, append_inst, append_inst_links, set_next_of, set_prev_of,
  set_ebb_links, set_inst_links, set_prev_inst_of, set_next_inst_of,
}
use cretonne.Ir.Layout.Shape.{shape}
use cretonne.Ir.Layout.Valid.{IsLayout, Absent}
use cretonne.Ir.Layout.ValidInst.{with_body}
use cretonne.Ir.Layout.Refines.{Gives, new-IsLayout, append_ebb-Gives, append_inst-Gives}
use cretonne.Ir.Layout.Numbered.{start, Numbered}
use cretonne.Ir.Layout.Numbering.{Renumbered, full_renumber-Renumbered}
use cretonne.RegAlloc.Affinity.{Affinity}
use cretonne.RegAlloc.LiveRange.{
  ProgramOrder, Livein, LiveRange, layout_order, extend_livein, extend_in_ebb, is_livein,
  reaches_use, ebb_seq, inst_seq, in_def,
}
use cretonne.RegAlloc.LiveRange.Intervals.{AreApart, covers}
use cretonne.RegAlloc.LiveRange.Coalesce.{IsOrder}
use cretonne.RegAlloc.LiveRange.Extend.{Extended}
use cretonne.RegAlloc.LiveRange.Reach.{extend_livein-Extended}
use cretonne.RegAlloc.LiveRange.Uses.{reaches_use-extend_in_ebb}
use cretonne.RegAlloc.LiveRange.Query.{is_livein-covers, extend_in_ebb-is_livein}
use cretonne.RegAlloc.LiveRange.LayoutOrder.{LaidOut, layout_order-IsOrder, ebb_place, inst_place}

abbrev or_new : Option Layout → Layout
or_new none = new
or_new (some l) = l

given :
    {es : List ℕ} {body : ℕ → List ℕ} (o : Option Layout)
    → Gives o es body
    → IsLayout (shape (or_new o)) es body
unfolding shape
given none (l, runs, h) = cc
given (some r) (l, runs, h) = rw runs h

abbrev bare : ℕ → List ℕ
bare _ = []

abbrev ebbs : List ℕ
ebbs = 7 ∷ 9 ∷ 2 ∷ []

abbrev seven : Layout
seven = or_new (append_ebb 5 new 7)

abbrev nine : Layout
nine = or_new (append_ebb 5 seven 9)

abbrev two : Layout
two = or_new (append_ebb 5 nine 2)

two-IsLayout : IsLayout (shape two) ebbs bare
two-IsLayout =
    let first = given (append_ebb 5 new 7) (
      append_ebb-Gives 5 new [] bare new-IsLayout 7 (λ k p. cc)
        (record { ebbs = omega arith; insts = λ e. omega arith })) in
    let second = given (append_ebb 5 seven 9) (
      append_ebb-Gives 5 seven (7 ∷ []) bare first 9 absent_first
        (record { ebbs = omega arith; insts = λ e. omega arith })) in
    given (append_ebb 5 nine 2) (
      append_ebb-Gives 5 nine (7 ∷ 9 ∷ []) bare second 2 absent_second
        (record { ebbs = omega arith; insts = λ e. omega arith }))
  where
    absent_first : Absent 9 (7 ∷ [])
    absent_first zero p = ground arith
    absent_first (suc k) p = cc

    absent_second : Absent 2 (7 ∷ 9 ∷ [])
    absent_second zero p = ground arith
    absent_second (suc zero) p = ground arith
    absent_second (suc (suc k)) p = cc

abbrev one_inst : Layout
one_inst = or_new (append_inst 5 two 1 7)

abbrev two_insts : Layout
two_insts = or_new (append_inst 5 one_inst 4 9)

abbrev three_insts : Layout
three_insts = or_new (append_inst 5 two_insts 8 2)

abbrev body_one : ℕ → List ℕ
body_one = with_body bare 7 (1 ∷ [])

abbrev body_two : ℕ → List ℕ
body_two = with_body body_one 9 (4 ∷ [])

abbrev body : ℕ → List ℕ
body = with_body body_two 2 (8 ∷ [])

three_insts-IsLayout : IsLayout (shape three_insts) ebbs body
unfolding new append_ebb append_ebb_links set_next_of set_prev_of set_ebb_links assign_ebb_seq
    ebb_next_seq ebb_prev_seq set_ebb_seq last_ebb_seq midpoint Map.index Map.assign Map.get
    Map.resize Map.with_default append_inst append_inst_links set_inst_links set_prev_inst_of
    set_next_inst_of assign_inst_seq assign_in inst_next_seq inst_prev_seq set_inst_seq
three_insts-IsLayout =
    let first = given (append_inst 5 two 1 7) (
      append_inst-Gives 5 two ebbs bare two-IsLayout 1 7 0 refl refl refl
        (record { ebbs = omega arith; insts = λ e. ground arith })) in
    let second = given (append_inst 5 one_inst 4 9) (
      append_inst-Gives 5 one_inst ebbs body_one first 4 9 1 refl refl refl
        (record { ebbs = omega arith; insts = λ e. ground arith })) in
    given (append_inst 5 two_insts 8 2) (
      append_inst-Gives 5 two_insts ebbs body_two second 8 2 2 refl refl refl
        (record { ebbs = omega arith; insts = λ e. ground arith }))

renumbered : Renumbered ebbs body three_insts (full_renumber 5 three_insts)
renumbered =
    full_renumber-Renumbered ebbs body three_insts three_insts-IsLayout 5
      (record { ebbs = omega arith; insts = λ e. ground arith })

abbrev program : Layout
program = or_new (full_renumber 5 three_insts)

program-IsLayout : IsLayout (shape program) ebbs body
program-IsLayout = let r = renumbered in rw (r.runs, r.links) three_insts-IsLayout

program-Numbered : Numbered ebbs body program
program-Numbered = let r = renumbered in rw r.runs r.numbered

abbrev order : ProgramOrder
order = layout_order program

abbrev Laid : ExpandedProgramPoint → Type 0
Laid = LaidOut ebbs body

order-IsOrder : IsOrder order Laid
order-IsOrder =
    layout_order-IsOrder program ebbs body program-IsLayout program-Numbered (omega arith)

-- A parameter of EBB 7 that is live to its end, and live-in to EBB 2.
abbrev range : LiveRange
range = record {
  value = 0;
  affinity = Affinity.ghost;
  def_begin = point 15;
  def_end = point 2;
  liveins = record { ebb = 2; last = 8 } ∷ [];
}

ebb_at : (k e : ℕ) → get_elem? ebbs k ≡ some e → ebb_seq order e ≡ 10 * start body ebbs k
ebb_at = ebb_place program ebbs body program-IsLayout program-Numbered (omega arith)

inst_at :
    (k e i : ℕ)
    → get_elem? ebbs k ≡ some e
    → get_elem? (body e) 0 ≡ some i
    → inst_seq order i ≡ 10 * (start body ebbs k + 1 + 0)
inst_at k e = inst_place program ebbs body program-IsLayout program-Numbered (omega arith) k e 0

at_nine : ebb_seq order 9 ≡ 20
at_nine = ebb_at 1 9 refl

at_two : ebb_seq order 2 ≡ 40
at_two = ebb_at 2 2 refl

at_seven : ebb_seq order 7 ≡ 0
at_seven = ebb_at 0 7 refl

end_of_seven : inst_seq order 1 ≡ 10
end_of_seven = inst_at 0 7 1 refl refl

end_of_nine : inst_seq order 4 ≡ 30
end_of_nine = inst_at 1 9 4 refl refl

end_of_two : inst_seq order 8 ≡ 50
end_of_two = inst_at 2 2 8 refl refl

nine_laid : Laid (ExpandedProgramPoint.ebb 9)
nine_laid = (1, refl)

four_laid : Laid (ExpandedProgramPoint.inst 4)
four_laid = (1, 9, 0, refl, refl)

laid_lem :
    (k : ℕ) (x : Livein)
    → get_elem? range.liveins k ≡ some x
    → Laid (ExpandedProgramPoint.ebb x.ebb) × Laid (ExpandedProgramPoint.inst x.last)
laid_lem zero x here =
    let e : record { ebb = 2; last = 8 } ≡ x = ground arith in
    rw (← e) ((2, refl), (2, 2, 0, refl, refl))
laid_lem (suc k) x here = absurd (ground arith)

run_lem :
    (k : ℕ) (x : Livein)
    → get_elem? range.liveins k ≡ some x
    → ebb_seq order x.ebb < inst_seq order x.last
run_lem zero x here =
    let e : record { ebb = 2; last = 8 } ≡ x = ground arith in
    rw (← e) (omega (arith, at_two, end_of_two))
run_lem (suc k) x here = absurd (ground arith)

range-AreApart : AreApart order Laid range.liveins
range-AreApart = record {
  laid = laid_lem;
  runs = run_lem;
  apart = λ k x y here next. absurd (ground arith);
}

run : ebb_seq order 9 < inst_seq order 4
run = omega (arith, at_nine, end_of_nine)

same_ebb :
    (e : ℕ)
    → Laid (ExpandedProgramPoint.ebb e)
    → ebb_seq order 9 < ebb_seq order e
    → inst_seq order 4 < ebb_seq order e
same_ebb e (zero, at) lt =
    let n : ebb_seq order e ≡ 0 = ebb_at 0 e at in absurd (omega (arith, at_nine))
same_ebb e (suc zero, at) lt =
    let n : ebb_seq order e ≡ 20 = ebb_at 1 e at in absurd (omega (arith, at_nine))
same_ebb e (suc (suc zero), at) lt =
    let n : ebb_seq order e ≡ 40 = ebb_at 2 e at in omega (arith, end_of_nine)
same_ebb e (suc (suc (suc k)), at) lt = absurd (ground arith)

outside : in_def order range 9 4 ≡ false
unfolding in_def expand
outside = ground (arith, at_nine, end_of_seven)

extend_livein-Extended_example :
    Extended order Laid range.liveins 9 4 (extend_livein order range.liveins 9 4)
extend_livein-Extended_example =
    extend_livein-Extended order Laid order-IsOrder range.liveins range-AreApart 9 4 run nine_laid
      four_laid same_ebb

is_livein-covers_example : is_livein order range 9 ≡ covers order range.liveins (ebb_seq order 9)
is_livein-covers_example =
    is_livein-covers order Laid order-IsOrder range range-AreApart 9 nine_laid

extend_in_ebb-is_livein_example :
    AreApart order Laid (extend_in_ebb order range 9 4).0.liveins
    × ((e : ℕ)
        → Laid (ExpandedProgramPoint.ebb e)
        → is_livein order (extend_in_ebb order range 9 4).0 e
          ≡ (is_livein order range e || ebb_seq order e == ebb_seq order 9))
    × ((extend_in_ebb order range 9 4).1 ≡ not (is_livein order range 9))
extend_in_ebb-is_livein_example =
    extend_in_ebb-is_livein order Laid order-IsOrder range range-AreApart 9 4 run nine_laid
      four_laid same_ebb outside

reaches_use-extend_in_ebb_example : reaches_use order (extend_in_ebb order range 9 4).0 4 9 ≡ (
    reaches_use order range 4 9
    || (leb (ebb_seq order 9) (inst_seq order 4) && leb (inst_seq order 4) (inst_seq order 4)))
reaches_use-extend_in_ebb_example =
    reaches_use-extend_in_ebb order Laid order-IsOrder range range-AreApart 9 4 run nine_laid
      four_laid same_ebb outside 9 4 nine_laid four_laid run same_ebb
