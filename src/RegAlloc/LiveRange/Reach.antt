-- ===== src/RegAlloc/LiveRange/Reach.antt =====
-- `extend_in_ebb` beyond the def interval: the entries cover the EBB up to the use, and the answer
-- says if that was new.
use cretonne.Prelude.{
  ℕ, suc, ◌-◌, ◌≤◌, ◌<◌, ◌≡◌, refl, true, false, ◌||◌, ltb, none, some, List, length, get_elem?,
  arith, Option-cases, Bool-cases, inl, inr,
}
use native.Mathlib.Decide.{ℕ_discrete}
use cretonne.Ir.ProgPoint.{ExpandedProgramPoint}
use cretonne.RegAlloc.LiveRange.{
  ProgramOrder, Livein, ebb_seq, inst_seq, goto, found, prev, reach, extend_entry, insert_entry,
  extend_after, extend_livein,
}
use cretonne.RegAlloc.LiveRange.Intervals.{covers, AreApart}
use cretonne.RegAlloc.LiveRange.Goto.{
  within?, goto-next, goto-prev, length-goto, covers-goto, found_lem, not_found,
}
use cretonne.RegAlloc.LiveRange.Coalesce.{IsOrder, covers-elem}
use cretonne.RegAlloc.LiveRange.Extend.{
  Extended, reach-Grown, insert-Grown, reach-stretch, extend_entry-Grown,
}

module _ (o : ProgramOrder) (Laid : ExpandedProgramPoint → Type 0) (order : IsOrder o Laid)
    (xs : List Livein) (h : AreApart o Laid xs) (ebb to : ℕ) (run : ebb_seq o ebb < inst_seq o to)
    (at_ebb : Laid (ExpandedProgramPoint.ebb ebb)) (at_to : Laid (ExpandedProgramPoint.inst to))
    (same_ebb : (e : ℕ)
      → Laid (ExpandedProgramPoint.ebb e)
      → ebb_seq o ebb < ebb_seq o e
      → inst_seq o to < ebb_seq o e) where
  -- An entry for the EBB itself.
  here-Extended :
      (i : ℕ) (x : Livein)
      → get_elem? xs i ≡ some x
      → ebb_seq o x.ebb ≡ ebb_seq o ebb
      → Extended o Laid xs ebb to (extend_entry o xs i x to, false)
  here-Extended i x here same =
      let r = h.runs i x here in
      let inside : covers o xs (ebb_seq o ebb) ≡ true =
        covers-elem o Laid order xs i x (ebb_seq o ebb) here (ground arith) in
      record {
        grown =
            extend_entry-Grown o Laid order xs h ebb to run at_to same_ebb i x here (omega arith)
              (omega arith);
        first_time = rw inside refl;
      }

  extend_after_overlap :
      (i : ℕ) (x : Livein)
      → ltb (ebb_seq o ebb) (inst_seq o x.last) ≡ true
      → extend_after o xs i x ebb to ≡ (extend_entry o xs (i - 1) x to, false)
  unfolding extend_after
  extend_after_overlap i x e = rw (extend_after, e) refl

  extend_after_gap :
      (i : ℕ) (x : Livein)
      → ltb (ebb_seq o ebb) (inst_seq o x.last) ≡ false
      → o.is_ebb_gap x.last ebb ≡ true
      → extend_after o xs i x ebb to ≡ (reach o xs (i - 1) x to, true)
  unfolding extend_after
  extend_after_gap i x e g = rw (extend_after, e, g) refl

  extend_after_new :
      (i : ℕ) (x : Livein)
      → ltb (ebb_seq o ebb) (inst_seq o x.last) ≡ false
      → o.is_ebb_gap x.last ebb ≡ false
      → extend_after o xs i x ebb to ≡ (insert_entry o xs i ebb to, true)
  unfolding extend_after
  extend_after_new i x e g = rw (extend_after, e, g) refl

  module _ (i : ℕ) (at_goto : goto o xs ebb ≡ i) (absent : found o xs i ebb ≡ none) where
    after : (y : Livein) → get_elem? xs i ≡ some y → inst_seq o to < ebb_seq o y.ebb
    after y here = same_ebb y.ebb (h.laid i y here).0 (
        omega
          (arith, goto-next o Laid xs ebb y (rw at_goto here), not_found o xs ebb i y absent here))

    next_out : within? o (get_elem? xs i) (ebb_seq o ebb) ≡ false
    next_out = elim (Option-cases (get_elem? xs i)) [
      | inl end ↦ rw end refl
      | inr (y, here) ↦ rw here (ground (arith, after y here))
    ]

    before_first :
        within? o (prev xs i) (ebb_seq o ebb) ≡ false → covers o xs (ebb_seq o ebb) ≡ false
    before_first out =
        let split : covers o xs (ebb_seq o ebb) ≡ (
            within? o (get_elem? xs i) (ebb_seq o ebb) || within? o (prev xs i) (ebb_seq o ebb)) =
          rw (← at_goto) (covers-goto o Laid xs ebb h) in
        ground (arith, next_out)

    fits : i ≤ length xs
    fits = rw (← at_goto) (length-goto o Laid xs ebb)

    -- No entry before the EBB.
    first-Extended : prev xs i ≡ none → Extended o Laid xs ebb to (insert_entry o xs i ebb to, true)
    first-Extended e =
        let out = before_first (rw e refl) in
        record {
          grown =
              insert-Grown o Laid order xs h i ebb to at_ebb at_to fits run
                (λ x at. absurd (ground arith)) after;
          first_time = rw out refl;
        }

    module _ (j : ℕ) (x : Livein) (e : i ≡ suc j) (here : get_elem? xs j ≡ some x) where
      before_ebb : ebb_seq o x.ebb < ebb_seq o ebb
      unfolding prev
      before_ebb = goto-prev o Laid xs ebb x (rw (at_goto, e) here)

      prev_here : prev xs i ≡ some x
      unfolding prev
      prev_here = rw e here

      back : i - 1 ≡ j
      back = omega arith

      not_reached :
          ltb (ebb_seq o ebb) (inst_seq o x.last) ≡ false
          → (inst_seq o x.last < ebb_seq o ebb) × (covers o xs (ebb_seq o ebb) ≡ false)
      not_reached short =
          let low : inst_seq o x.last < ebb_seq o ebb =
            ground (arith, order.distinct x.last ebb (h.laid j x here).1 at_ebb) in
          (low, before_first (rw prev_here (ground arith)))

      overlap-Extended :
          ltb (ebb_seq o ebb) (inst_seq o x.last) ≡ true
          → Extended o Laid xs ebb to (extend_entry o xs j x to, false)
      overlap-Extended up =
          let low = before_ebb in
          let inside = covers-elem o Laid order xs j x (ebb_seq o ebb) here (ground arith) in
          record {
            grown =
                extend_entry-Grown o Laid order xs h ebb to run at_to same_ebb j x here
                  (omega arith) (ground arith);
            first_time = rw inside refl;
          }

      gap-Extended :
          ltb (ebb_seq o ebb) (inst_seq o x.last) ≡ false
          → o.is_ebb_gap x.last ebb ≡ true
          → Extended o Laid xs ebb to (reach o xs j x to, true)
      gap-Extended short gap =
          let (low, out) = not_reached short in
          let up : inst_seq o x.last < inst_seq o to = omega arith in
          record {
            grown =
                reach-stretch o Laid order xs h j x ebb to here (omega (arith, before_ebb)) up
                  (λ pt at_pt past.
                    order.nothing_between x.last ebb pt (h.laid j x here).1 at_ebb at_pt gap past)
                  (reach-Grown o Laid order xs h j x to here at_to up
                    (λ y next. after y (rw e next)));
            first_time = rw out refl;
          }

      new-Extended :
          ltb (ebb_seq o ebb) (inst_seq o x.last) ≡ false
          → Extended o Laid xs ebb to (insert_entry o xs i ebb to, true)
      new-Extended short =
          let (low, out) = not_reached short in
          record {
            grown =
                insert-Grown o Laid order xs h i ebb to at_ebb at_to fits run
                  (λ z there. let same : x ≡ z = ground (arith, prev_here) in rw (← same) low)
                  after;
            first_time = rw out refl;
          }

      -- An entry before the EBB.
      after-Extended : Extended o Laid xs ebb to (extend_after o xs i x ebb to)
      after-Extended = elim (Bool-cases (ltb (ebb_seq o ebb) (inst_seq o x.last))) [
        | inl up ↦ rw (extend_after_overlap i x up, back) (overlap-Extended up)
        | inr short ↦ elim (Bool-cases (o.is_ebb_gap x.last ebb)) [
          | inl gap ↦ rw (extend_after_gap i x short gap, back) (gap-Extended short gap)
          | inr between ↦ rw (extend_after_new i x short between) (new-Extended short)
        ]
      ]

    prev_cases :
        (x : Livein) → prev xs i ≡ some x → (j : ℕ) × (i ≡ suc j) × (get_elem? xs j ≡ some x)
    unfolding prev
    prev_cases x e = elim (ℕ_discrete i 0) [
      | yes first ↦ let e' : prev xs 0 ≡ some x = rw first at e in absurd (ground arith)
      | no later ↦ let back : i ≡ suc (i - 1) = omega arith in (i - 1, back, rw back at e)
    ]

  extend_livein-found :
      (x : Livein)
      → found o xs (goto o xs ebb) ebb ≡ some x
      → extend_livein o xs ebb to ≡ (extend_entry o xs (goto o xs ebb) x to, false)
  unfolding extend_livein
  extend_livein-found x e = rw (extend_livein, e) refl

  extend_livein-after :
      (x : Livein)
      → found o xs (goto o xs ebb) ebb ≡ none
      → prev xs (goto o xs ebb) ≡ some x
      → extend_livein o xs ebb to ≡ extend_after o xs (goto o xs ebb) x ebb to
  unfolding extend_livein
  extend_livein-after x e e' = rw (extend_livein, e, e') refl

  extend_livein-first :
      found o xs (goto o xs ebb) ebb ≡ none
      → prev xs (goto o xs ebb) ≡ none
      → extend_livein o xs ebb to ≡ (insert_entry o xs (goto o xs ebb) ebb to, true)
  unfolding extend_livein
  extend_livein-first e e' = rw (extend_livein, e, e') refl

  -- In a program order of what is laid out, let `to` be an instruction of the EBB, both laid
  -- out, and the live-in intervals, of what is laid out, each end before the next begins. Then
  -- they do after `extend_in_ebb`. Of the program points that are laid out they cover those
  -- that they did and those from the head of the EBB to `to`, and no others, and the answer is
  -- true exactly if the head of the EBB was not covered before.
  pub extend_livein-Extended : Extended o Laid xs ebb to (extend_livein o xs ebb to)
  extend_livein-Extended =
      let i = goto o xs ebb in
      elim (Option-cases (found o xs i ebb)) [
        | inr (x, e) ↦
            let (here, same) = found_lem o xs ebb i x e in
            rw (extend_livein-found x e) (here-Extended i x here same)
        | inl absent ↦ elim (Option-cases (prev xs i)) [
          | inl first ↦ rw (extend_livein-first absent first) (first-Extended i refl absent first)
          | inr (x, e) ↦
              let (j, at_j, here) = prev_cases i refl absent x e in
              rw (extend_livein-after x absent e) (after-Extended i refl absent j x at_j here)
        ]
      ]
