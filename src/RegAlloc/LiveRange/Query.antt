-- ===== src/RegAlloc/LiveRange/Query.antt =====
-- `is_livein` and `extend_in_ebb` of a live range.
use cretonne.Prelude.{
  ℕ, zero, suc, List, ◌<◌, ◌≡◌, refl, sym, ◌∙◌, ap, true, false, ◌||◌, not, ◌==◌, ltb, Option, none,
  some, get_elem?, arith, Option-cases, Bool-cases, inl, inr,
}
use cretonne.Ir.ProgPoint.{ExpandedProgramPoint}
use cretonne.RegAlloc.LiveRange.{
  ProgramOrder, Livein, LiveRange, ebb_seq, inst_seq, goto, found, prev, get_or_less, in_def,
  livein_local_end, is_livein, extend_livein, extend_in_ebb,
}
use cretonne.RegAlloc.LiveRange.Intervals.{covers, AreApart}
use cretonne.RegAlloc.LiveRange.Goto.{
  within?, goto-next, goto-prev, covers-goto, found_lem, not_found,
}
use cretonne.RegAlloc.LiveRange.Coalesce.{IsOrder, covers-elem}
use cretonne.RegAlloc.LiveRange.Extend.{stretch}
use cretonne.RegAlloc.LiveRange.Reach.{extend_livein-Extended}

prev_elem :
    (xs : List Livein) (i : ℕ) (x : Livein)
    → prev xs i ≡ some x
    → (j : ℕ) × (get_elem? xs j ≡ some x)
unfolding prev
prev_elem xs zero x e = absurd (ground arith)
prev_elem xs (suc j) x e = (j, e)

module _ (o : ProgramOrder) (Laid : ExpandedProgramPoint → Type 0) (order : IsOrder o Laid)
    (r : LiveRange) (h : AreApart o Laid r.liveins) (ebb : ℕ)
    (at_ebb : Laid (ExpandedProgramPoint.ebb ebb)) where
  -- `is_livein`, by what `get_or_less` finds.
  is_livein_step :
      (p : Option Livein)
      → get_or_less o r.liveins ebb ≡ p
      → is_livein o r ebb
        ≡ elim p [ none ↦ false | some x ↦ ltb (ebb_seq o ebb) (inst_seq o x.last) ]
  unfolding is_livein livein_local_end
  is_livein_step none e = rw (is_livein, e) refl
  is_livein_step (some x) e = elim (Bool-cases (ltb (ebb_seq o ebb) (inst_seq o x.last))) [
    | inl up ↦ rw (is_livein, e, up) refl
    | inr short ↦ rw (is_livein, e, short) refl
  ]

  pub get_or_less-found :
      (x : Livein)
      → found o r.liveins (goto o r.liveins ebb) ebb ≡ some x
      → get_or_less o r.liveins ebb ≡ some x
  unfolding get_or_less
  get_or_less-found x e = rw (get_or_less, e) refl

  pub get_or_less-prev :
      found o r.liveins (goto o r.liveins ebb) ebb ≡ none
      → get_or_less o r.liveins ebb ≡ prev r.liveins (goto o r.liveins ebb)
  unfolding get_or_less
  get_or_less-prev e = rw (get_or_less, e) refl

  next_out :
      found o r.liveins (goto o r.liveins ebb) ebb ≡ none
      → within? o (get_elem? r.liveins (goto o r.liveins ebb)) (ebb_seq o ebb) ≡ false
  next_out absent = elim (Option-cases (get_elem? r.liveins (goto o r.liveins ebb))) [
    | inl end ↦ rw end refl
    | inr (y, here) ↦
        let ne = not_found o r.liveins ebb (goto o r.liveins ebb) y absent here in
        let le = goto-next o Laid r.liveins ebb y here in rw here (ground arith)
  ]

  prev_within :
      (p : Option Livein)
      → prev r.liveins (goto o r.liveins ebb) ≡ p
      → within? o p (ebb_seq o ebb)
        ≡ elim p [ none ↦ false | some x ↦ ltb (ebb_seq o ebb) (inst_seq o x.last) ]
  prev_within none e = refl
  prev_within (some x) e =
      let low = goto-prev o Laid r.liveins ebb x e in
      let (j, here) = prev_elem r.liveins (goto o r.liveins ebb) x e in
      ground (arith, order.distinct x.last ebb (h.laid j x here).1 at_ebb)

  -- In a program order of what is laid out, for an EBB that is laid out, and live-in intervals,
  -- of what is laid out, that each end before the next begins, `is_livein` holds exactly if
  -- they cover the head of the EBB.
  pub is_livein-covers : is_livein o r ebb ≡ covers o r.liveins (ebb_seq o ebb)
  is_livein-covers =
      let xs = r.liveins in
      let i = goto o xs ebb in
      elim (Option-cases (found o xs i ebb)) [
        | inr (x, e) ↦
            let (here, same) = found_lem o xs ebb i x e in
            let run = h.runs i x here in
            let inside : covers o xs (ebb_seq o ebb) ≡ true =
              covers-elem o Laid order xs i x (ebb_seq o ebb) here (ground arith) in
            let step : is_livein o r ebb ≡ ltb (ebb_seq o ebb) (inst_seq o x.last) =
              is_livein_step (some x) (get_or_less-found x e) in
            rw (step, inside) (ground arith)
        | inl absent ↦
            let p = prev xs i in
            let step = is_livein_step p (get_or_less-prev absent) in
            let split = covers-goto o Laid xs ebb h in
            step
            ∙ sym (prev_within p refl)
            ∙ sym (split ∙ ap (λ b. b || within? o p (ebb_seq o ebb)) (next_out absent))
      ]

module _ (o : ProgramOrder) (Laid : ExpandedProgramPoint → Type 0) (order : IsOrder o Laid)
    (r : LiveRange) (h : AreApart o Laid r.liveins) (ebb to : ℕ)
    (run : ebb_seq o ebb < inst_seq o to) (at_ebb : Laid (ExpandedProgramPoint.ebb ebb))
    (at_to : Laid (ExpandedProgramPoint.inst to))
    (same_ebb : (e : ℕ)
      → Laid (ExpandedProgramPoint.ebb e)
      → ebb_seq o ebb < ebb_seq o e
      → inst_seq o to < ebb_seq o e)
    (elsewhere : in_def o r ebb to ≡ false) where
  pub extend_in_ebb_step : extend_in_ebb o r ebb to ≡ (
    record r { liveins = (extend_livein o r.liveins ebb to).0 },
    (extend_livein o r.liveins ebb to).1,
  )
  unfolding extend_in_ebb
  extend_in_ebb_step = rw elsewhere refl

  -- The head of an EBB is in the stretch exactly if it is that EBB's.
  stretch_head :
      (e : ℕ)
      → Laid (ExpandedProgramPoint.ebb e)
      → stretch o ebb to (ebb_seq o e) ≡ (ebb_seq o e == ebb_seq o ebb)
  stretch_head e at_e = ground (arith, same_ebb e at_e)

  -- In a program order of what is laid out, let `to` be an instruction of the EBB, both laid
  -- out, outside the def interval, and the live-in intervals, of what is laid out, each end
  -- before the next begins. After `extend_in_ebb` they do again. Of the EBBs that are laid out
  -- the value is live-in to that EBB, to every one that it was live-in to, and to no other; and
  -- the answer says if it was not live-in to the EBB before.
  pub extend_in_ebb-is_livein :
      AreApart o Laid (extend_in_ebb o r ebb to).0.liveins
      × ((e : ℕ)
          → Laid (ExpandedProgramPoint.ebb e)
          → is_livein o (extend_in_ebb o r ebb to).0 e
            ≡ (is_livein o r e || ebb_seq o e == ebb_seq o ebb))
      × ((extend_in_ebb o r ebb to).1 ≡ not (is_livein o r ebb))
  extend_in_ebb-is_livein =
      let x = extend_livein-Extended o Laid order r.liveins h ebb to run at_ebb at_to same_ebb in
      let r' = record r { liveins = (extend_livein o r.liveins ebb to).0 } in
      let was = λ (e : ℕ) (at_e : Laid (ExpandedProgramPoint.ebb e)).
        is_livein-covers o Laid order r h e at_e in
      let now = λ (e : ℕ) (at_e : Laid (ExpandedProgramPoint.ebb e)).
        is_livein-covers o Laid order r' x.grown.are_apart e at_e in
      rw extend_in_ebb_step (
        x.grown.are_apart,
        (λ e at_e.
            now e at_e
            ∙ x.grown.covered (ExpandedProgramPoint.ebb e) at_e
            ∙ ap (λ b. covers o r.liveins (ebb_seq o e) || b) (stretch_head e at_e)
            ∙ ap (λ b. b || ebb_seq o e == ebb_seq o ebb) (sym (was e at_e))),
        x.first_time ∙ ap not (sym (was ebb at_ebb)),
      )
