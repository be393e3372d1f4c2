-- ===== src/RegAlloc/LiveRange/Extend.antt =====
-- `extend_in_ebb` covers the places from the head of the EBB to the use, and no others.
use cretonne.Prelude.{
  ℕ, suc, ◌-◌, ◌≤◌, ◌<◌, ◌≡◌, refl, sym, Bool, true, false, ◌&&◌, ◌||◌, not, ltb, leb, some, List,
  length, get_elem?, set, arith, Bool-cases, inl, inr,
}
use mathlib.Core.Path.{subst}
use native.Mathlib.Decide.{ℕ_discrete, dec_lt}
use cretonne.Prelude.Swap.{get_elem?-set, get_elem?_lt}
use cretonne.Prelude.Splice.{insert_at, get_elem?-insert_at}
use cretonne.Ir.ProgPoint.{ExpandedProgramPoint}
use cretonne.RegAlloc.LiveRange.{
  ProgramOrder, Livein, ebb_seq, inst_seq, prev, set_last, coalesce, reach, extend_entry,
  insert_entry,
}
use cretonne.RegAlloc.LiveRange.Intervals.{within, covers, AreApart, covers-insert_at}
use cretonne.RegAlloc.LiveRange.Coalesce.{
  IsOrder, Grown, set_last-AreApart, covers-set_last, coalesce-Grown, covers-elem,
}

coalesce_key :
    (o : ProgramOrder) (xs : List Livein) (i : ℕ) (x : Livein) (to : ℕ)
    → coalesce o xs i x to ≡ coalesce o xs i (record x { last = to }) to
unfolding coalesce set_last
coalesce_key o xs i x to = refl

join_more : (a b c d : Bool) → d ≡ (c || false) → c ≡ (a || b) → d ≡ (a || b)
join_more a b c d p q = ground arith

-- The places from the head of an EBB to an instruction.
abbrev pub stretch : ProgramOrder → ℕ → ℕ → ℕ → Bool
stretch o ebb to s = leb (ebb_seq o ebb) s && leb s (inst_seq o to)

-- The entries after the call, what they cover, and the answer: was the EBB not covered before?
pub record Extended (o : ProgramOrder) (Laid : ExpandedProgramPoint → Type 0) (xs : List Livein)
    (ebb to : ℕ) (r : List Livein × Bool) : Type 0 where
  pub grown : Grown o Laid xs (stretch o ebb to) r.0
  pub first_time : r.1 ≡ not (covers o xs (ebb_seq o ebb))

module _ (o : ProgramOrder) (Laid : ExpandedProgramPoint → Type 0) (order : IsOrder o Laid)
    (xs : List Livein) (h : AreApart o Laid xs) where
  -- An entry is moved up, and may join the next.
  pub reach-Grown :
      (i : ℕ) (x : Livein) (to : ℕ)
      → get_elem? xs i ≡ some x
      → Laid (ExpandedProgramPoint.inst to)
      → inst_seq o x.last < inst_seq o to
      → ((y : Livein) → get_elem? xs (suc i) ≡ some y → inst_seq o to < ebb_seq o y.ebb)
      → Grown o Laid xs (within o (record x { last = to })) (reach o xs i x to)
  unfolding reach set_last
  reach-Grown i x to here at_to low next =
      let moved : Livein = record x { last = to } in
      let ys = set xs i moved in
      let ap =
        set_last-AreApart o Laid order xs h i x here to at_to (omega (arith, h.runs i x here))
          next in
      let at_i : get_elem? ys i ≡ some moved =
        ground (arith, get_elem?-set xs i i moved (get_elem?_lt xs i here)) in
      let g = coalesce-Grown o Laid order ys ap i moved at_i in
      let more = λ (s : ℕ). covers-set_last o Laid order xs h i x here to s (omega arith) in
      subst (Grown o Laid xs (within o moved)) (sym (coalesce_key o ys i x to)) record {
        are_apart = g.are_apart;
        covered = λ pt at_pt.
            join_more (covers o xs (o.seq pt)) (within o moved (o.seq pt)) (covers o ys (o.seq pt))
              (covers o (coalesce o ys i moved to) (o.seq pt)) (g.covered pt at_pt)
              (more (o.seq pt));
      }

  inserted-AreApart :
      (i ebb to : ℕ)
      → Laid (ExpandedProgramPoint.ebb ebb)
      → Laid (ExpandedProgramPoint.inst to)
      → i ≤ length xs
      → ebb_seq o ebb < inst_seq o to
      → ((x : Livein) → prev xs i ≡ some x → inst_seq o x.last < ebb_seq o ebb)
      → ((y : Livein) → get_elem? xs i ≡ some y → inst_seq o to < ebb_seq o y.ebb)
      → AreApart o Laid (insert_at xs i (record { ebb = ebb; last = to }))
  unfolding prev
  inserted-AreApart i ebb to at_ebb at_to fits run before after =
      let x : Livein = record { ebb = ebb; last = to } in
      let reads = λ (j : ℕ). get_elem?-insert_at xs i x j fits in
      record {
        laid = λ k y there. elim (ℕ_discrete k i) [
          | yes same ↦ let e : x ≡ y = ground (arith, reads k) in rw (← e) (at_ebb, at_to)
          | no other ↦ elim (dec_lt k i) [
            | yes low ↦ h.laid k y (ground (arith, reads k))
            | no high ↦ h.laid (k - 1) y (ground (arith, reads k))
          ]
        ];
        runs = λ k y there. elim (ℕ_discrete k i) [
          | yes same ↦ let e : x ≡ y = ground (arith, reads k) in rw (← e) run
          | no other ↦ ground (arith, reads k, h.runs k y, h.runs (k - 1) y)
        ];
        apart = λ k y z there next. elim (ℕ_discrete k i) [
          | yes same ↦
              let e : x ≡ y = ground (arith, reads k) in
              let next' : get_elem? xs i ≡ some z = ground (arith, reads (suc k)) in
              rw (← e) (after z next')
          | no other ↦ elim (ℕ_discrete (suc k) i) [
            | yes same ↦
                let e : x ≡ z = ground (arith, reads (suc k)) in
                let there' : get_elem? xs k ≡ some y = ground (arith, reads k) in
                let low = before y (rw (← same) there') in rw (← e) low
            | no other' ↦ ground (arith, reads k, reads (suc k), h.apart k y z, h.apart (k - 1) y z)
          ]
        ];
      }

  -- A new entry between two others, which may join the second.
  pub insert-Grown :
      (i ebb to : ℕ)
      → Laid (ExpandedProgramPoint.ebb ebb)
      → Laid (ExpandedProgramPoint.inst to)
      → i ≤ length xs
      → ebb_seq o ebb < inst_seq o to
      → ((x : Livein) → prev xs i ≡ some x → inst_seq o x.last < ebb_seq o ebb)
      → ((y : Livein) → get_elem? xs i ≡ some y → inst_seq o to < ebb_seq o y.ebb)
      → Grown o Laid xs (within o (record { ebb = ebb; last = to })) (insert_entry o xs i ebb to)
  unfolding insert_entry
  insert-Grown i ebb to at_ebb at_to fits run before after =
      let x : Livein = record { ebb = ebb; last = to } in
      let ys = insert_at xs i x in
      let at_i : get_elem? ys i ≡ some x = ground (arith, get_elem?-insert_at xs i x i fits) in
      let g =
        coalesce-Grown o Laid order ys
          (inserted-AreApart i ebb to at_ebb at_to fits run before after) i x at_i in
      record {
        are_apart = g.are_apart;
        covered = λ pt at_pt.
            join_more (covers o xs (o.seq pt)) (within o x (o.seq pt)) (covers o ys (o.seq pt))
              (covers o (coalesce o ys i x to) (o.seq pt)) (g.covered pt at_pt)
              (covers-insert_at o xs i x (o.seq pt));
      }

  -- An entry that covers up to the EBB, or to a gap before it, and then up to the use.
  pub reach-stretch :
      (i : ℕ) (x : Livein) (ebb to : ℕ)
      → get_elem? xs i ≡ some x
      → ebb_seq o x.ebb ≤ ebb_seq o ebb
      → inst_seq o x.last < inst_seq o to
      → ((pt : ExpandedProgramPoint)
          → Laid pt
          → inst_seq o x.last < o.seq pt
          → ebb_seq o ebb ≤ o.seq pt)
      → Grown o Laid xs (within o (record x { last = to })) (reach o xs i x to)
      → Grown o Laid xs (stretch o ebb to) (reach o xs i x to)
  reach-stretch i x ebb to here low up between g = record {
    are_apart = g.are_apart;
    covered = λ pt at_pt.
        go (o.seq pt) (covers o xs (o.seq pt)) (covers o (reach o xs i x to) (o.seq pt))
          (g.covered pt at_pt) (covers-elem o Laid order xs i x (o.seq pt) here) (between pt at_pt);
  }
    where
      go :
          (s : ℕ) (c d : Bool)
          → d ≡ (c || within o (record x { last = to }) s)
          → (within o x s ≡ true → c ≡ true)
          → (inst_seq o x.last < s → ebb_seq o ebb ≤ s)
          → d ≡ (c || stretch o ebb to s)
      go s c d e inside past = ground arith

  -- An entry that covers all of it.
  stays-stretch :
      (i : ℕ) (x : Livein) (ebb to : ℕ)
      → get_elem? xs i ≡ some x
      → ebb_seq o x.ebb ≤ ebb_seq o ebb
      → inst_seq o to ≤ inst_seq o x.last
      → Grown o Laid xs (stretch o ebb to) xs
  stays-stretch i x ebb to here low up = record {
    are_apart = h;
    covered = λ pt at_pt.
        go (o.seq pt) (covers o xs (o.seq pt)) (covers-elem o Laid order xs i x (o.seq pt) here);
  }
    where
      go : (s : ℕ) (c : Bool) → (within o x s ≡ true → c ≡ true) → c ≡ (c || stretch o ebb to s)
      go s c inside = ground arith

  module _ (ebb to : ℕ) (run : ebb_seq o ebb < inst_seq o to)
      (at_to : Laid (ExpandedProgramPoint.inst to))
      (same_ebb : (e : ℕ)
        → Laid (ExpandedProgramPoint.ebb e)
        → ebb_seq o ebb < ebb_seq o e
        → inst_seq o to < ebb_seq o e) where
    -- The next entry begins after the use.
    pub next_after :
        (i : ℕ) (x y : Livein)
        → get_elem? xs i ≡ some x
        → get_elem? xs (suc i) ≡ some y
        → ebb_seq o ebb < inst_seq o x.last
        → inst_seq o to < ebb_seq o y.ebb
    next_after i x y here next up =
        same_ebb y.ebb (h.laid (suc i) y next).0 (omega (arith, h.apart i x y here next))

    pub extend_entry-Grown :
        (i : ℕ) (x : Livein)
        → get_elem? xs i ≡ some x
        → ebb_seq o x.ebb ≤ ebb_seq o ebb
        → ebb_seq o ebb < inst_seq o x.last
        → Grown o Laid xs (stretch o ebb to) (extend_entry o xs i x to)
    unfolding extend_entry
    extend_entry-Grown i x here low up =
        elim (Bool-cases (ltb (inst_seq o x.last) (inst_seq o to))) [
          | inl short ↦ rw short (
              reach-stretch i x ebb to here low (ground arith) (λ pt at_pt past. omega arith)
                (reach-Grown i x to here at_to (ground arith)
                  (λ y next. next_after i x y here next up)))
          | inr long ↦ rw long (stays-stretch i x ebb to here low (ground arith))
        ]
