-- ===== src/RegAlloc/LiveRange/Uses.antt =====
-- `reaches_use` of a live range, before and after `extend_in_ebb`.
use cretonne.Prelude.{
  ℕ, zero, suc, ◌<◌, ◌≤◌, ◌≡◌, Bool, leb, ◌&&◌, refl, sym, ◌∙◌, ap, false, ◌||◌, ltb, Option, none,
  some, get_elem?, arith, Option-cases, Bool-cases, inl, inr,
}
use cretonne.Ir.ProgPoint.{ExpandedProgramPoint}
use cretonne.RegAlloc.LiveRange.{
  ProgramOrder, Livein, LiveRange, ebb_seq, inst_seq, goto, found, prev, get_or_less, in_def,
  livein_local_end, extend_livein, extend_in_ebb, reaches_use, place,
}
use cretonne.RegAlloc.LiveRange.Intervals.{within, covers, AreApart}
use cretonne.RegAlloc.LiveRange.Goto.{
  within?, goto-next, goto-prev, covers-place, found_lem, not_found,
}
use cretonne.RegAlloc.LiveRange.Coalesce.{IsOrder}
use cretonne.RegAlloc.LiveRange.Extend.{stretch}
use cretonne.RegAlloc.LiveRange.Reach.{extend_livein-Extended}
use cretonne.RegAlloc.LiveRange.Query.{get_or_less-found, get_or_less-prev, extend_in_ebb_step}

-- The live-in part of `reaches_use`.
abbrev livein_reaches : ProgramOrder → LiveRange → ℕ → ℕ → Bool
livein_reaches o r user ebb = elim (livein_local_end o r ebb) [
  | none ↦ false
  | some i ↦ leb (inst_seq o user) (inst_seq o i)
]

module _ (o : ProgramOrder) (Laid : ExpandedProgramPoint → Type 0) (order : IsOrder o Laid)
    (r : LiveRange) (h : AreApart o Laid r.liveins) (ebb user : ℕ)
    (run : ebb_seq o ebb < inst_seq o user) (at_ebb : Laid (ExpandedProgramPoint.ebb ebb))
    (same_ebb : (e : ℕ)
      → Laid (ExpandedProgramPoint.ebb e)
      → ebb_seq o ebb < ebb_seq o e
      → inst_seq o user < ebb_seq o e) where
  reaches_step :
      (p : Option Livein)
      → get_or_less o r.liveins ebb ≡ p
      → ((x : Livein) → p ≡ some x → ebb_seq o x.ebb ≤ ebb_seq o ebb)
      → livein_reaches o r user ebb ≡ within? o p (inst_seq o user)
  unfolding livein_local_end
  reaches_step none e low = rw (livein_reaches, e) refl
  reaches_step (some x) e low = elim (Bool-cases (ltb (ebb_seq o ebb) (inst_seq o x.last))) [
    | inl up ↦ let below = low x refl in rw (livein_reaches, e, up) (ground arith)
    | inr short ↦ let below = low x refl in rw (livein_reaches, e, short) (ground arith)
  ]

  next_out :
      found o r.liveins (goto o r.liveins ebb) ebb ≡ none
      → within? o (get_elem? r.liveins (goto o r.liveins ebb)) (inst_seq o user) ≡ false
  next_out absent = elim (Option-cases (get_elem? r.liveins (goto o r.liveins ebb))) [
    | inl end ↦ rw end refl
    | inr (y, here) ↦
        let ne = not_found o r.liveins ebb (goto o r.liveins ebb) y absent here in
        let le = goto-next o Laid r.liveins ebb y here in
        let past = same_ebb y.ebb (h.laid (goto o r.liveins ebb) y here).0 (omega arith) in
        rw here (ground arith)
  ]

  -- An entry for the EBB itself is the only one that covers a place of the EBB.
  prev_out :
      (x : Livein)
      → get_elem? r.liveins (goto o r.liveins ebb) ≡ some x
      → ebb_seq o x.ebb ≡ ebb_seq o ebb
      → within? o (prev r.liveins (goto o r.liveins ebb)) (inst_seq o user) ≡ false
  unfolding prev
  prev_out x here same = go (goto o r.liveins ebb) here
    where
      go :
          (i : ℕ)
          → get_elem? r.liveins i ≡ some x
          → within? o (prev r.liveins i) (inst_seq o user) ≡ false
      go zero at = refl
      go (suc j) at = elim (Option-cases (get_elem? r.liveins j)) [
        | inl end ↦ rw end refl
        | inr (w, there) ↦ let low = h.apart j w x there at in rw there (ground arith)
      ]

  livein_reaches-covers : livein_reaches o r user ebb ≡ covers o r.liveins (inst_seq o user)
  livein_reaches-covers =
      let xs = r.liveins in
      let i = goto o xs ebb in
      let s = inst_seq o user in
      let split = covers-place o Laid xs ebb s h (omega arith) same_ebb in
      elim (Option-cases (found o xs i ebb)) [
        | inr (x, e) ↦
            let (here, same) = found_lem o xs ebb i x e in
            let step =
              reaches_step (some x) (get_or_less-found o Laid order r h ebb at_ebb x e)
                (λ y same'. let same'' : x ≡ y = ground arith in rw (← same'') (omega arith)) in
            let alone = prev_out x here same in
            let all : covers o xs s ≡ (within? o (some x) s || false) = rw (here, alone) at split in
            step ∙ sym (all ∙ or_false (within o x s))
        | inl absent ↦
            let p = prev xs i in
            let step =
              reaches_step p (get_or_less-prev o Laid order r h ebb at_ebb absent)
                (λ x e. omega (arith, goto-prev o Laid xs ebb x e)) in
            let alone = next_out absent in
            let all : covers o xs s ≡ (false || within? o p s) = rw alone at split in step ∙ sym all
      ]
    where
      or_false : (a : Bool) → (a || false) ≡ a
      or_false a = ground arith

  reaches_use_step : reaches_use o r user ebb ≡ (
      (ltb (place o r.def_begin) (inst_seq o user) && leb (inst_seq o user) (place o r.def_end))
      || livein_reaches o r user ebb)
  unfolding reaches_use
  reaches_use_step = refl

  -- A use in an EBB is reached if it is in the def interval or the live-in intervals cover it.
  pub reaches_use-covers : reaches_use o r user ebb ≡ (
      (ltb (place o r.def_begin) (inst_seq o user) && leb (inst_seq o user) (place o r.def_end))
      || covers o r.liveins (inst_seq o user))
  reaches_use-covers =
      reaches_use_step
      ∙ ap
          (λ b.
            (ltb (place o r.def_begin) (inst_seq o user)
              && leb (inst_seq o user) (place o r.def_end))
            || b)
          livein_reaches-covers

module _ (o : ProgramOrder) (Laid : ExpandedProgramPoint → Type 0) (order : IsOrder o Laid)
    (r : LiveRange) (h : AreApart o Laid r.liveins) (ebb to : ℕ)
    (run : ebb_seq o ebb < inst_seq o to) (at_ebb : Laid (ExpandedProgramPoint.ebb ebb))
    (at_to : Laid (ExpandedProgramPoint.inst to))
    (same_ebb : (e : ℕ)
      → Laid (ExpandedProgramPoint.ebb e)
      → ebb_seq o ebb < ebb_seq o e
      → inst_seq o to < ebb_seq o e)
    (elsewhere : in_def o r ebb to ≡ false) where
  -- In a program order of what is laid out, let `to` be an instruction of the EBB, both laid
  -- out, outside the def interval, and the live-in intervals, of what is laid out, each end
  -- before the next begins. After `extend_in_ebb`, a use in any EBB, both laid out, is reached
  -- exactly if it was before, or stands between the head of the EBB and `to`; so `to` itself is
  -- reached.
  pub reaches_use-extend_in_ebb :
      (e user : ℕ)
      → Laid (ExpandedProgramPoint.ebb e)
      → Laid (ExpandedProgramPoint.inst user)
      → ebb_seq o e < inst_seq o user
      → ((e' : ℕ)
          → Laid (ExpandedProgramPoint.ebb e')
          → ebb_seq o e < ebb_seq o e'
          → inst_seq o user < ebb_seq o e')
      → reaches_use o (extend_in_ebb o r ebb to).0 user e ≡ (
          reaches_use o r user e
          || (leb (ebb_seq o ebb) (inst_seq o user) && leb (inst_seq o user) (inst_seq o to)))
  reaches_use-extend_in_ebb e user at_e at_user in_e same_e =
      let x = extend_livein-Extended o Laid order r.liveins h ebb to run at_ebb at_to same_ebb in
      let r' = record r { liveins = (extend_livein o r.liveins ebb to).0 } in
      let was = reaches_use-covers o Laid order r h e user in_e at_e same_e in
      let now = reaches_use-covers o Laid order r' x.grown.are_apart e user in_e at_e same_e in
      let more = x.grown.covered (ExpandedProgramPoint.inst user) at_user in
      rw (extend_in_ebb_step o Laid order r h ebb to run at_ebb at_to same_ebb elsewhere) (
        now
        ∙ go
            (ltb (place o r.def_begin) (inst_seq o user)
              && leb (inst_seq o user) (place o r.def_end))
            (covers o r.liveins (inst_seq o user)) (covers o r'.liveins (inst_seq o user))
            (stretch o ebb to (inst_seq o user)) (reaches_use o r user e) was more)
    where
      go : (d c c' s b : Bool) → b ≡ (d || c) → c' ≡ (c || s) → (d || c') ≡ (b || s)
      go d c c' s b p q = ground arith
