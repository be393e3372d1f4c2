-- ===== src/RegAlloc/LiveRange/LayoutOrder.antt =====
-- `ProgramOrder for Layout` of ir/layout.rs keeps the promises of a program order, for a layout that
-- `full_renumber` has numbered.
use native.Mathlib.Decide.{dec_lt}
use cretonne.Prelude.{
  ℕ, zero, suc, ap, ◌+◌, ◌*◌, ◌^◌, ◌<◌, ◌≤◌, ◌≡◌, ◌∙◌, List, some, true, arith, length, get_elem?,
}
use cretonne.Prelude.Swap.{get_elem?_lt}
use cretonne.Ir.ProgPoint.{ExpandedProgramPoint}
use cretonne.Ir.Layout.{Layout, ebb_node, inst_node}
use cretonne.Ir.Layout.Shape.{shape}
use cretonne.Ir.Layout.Valid.{IsLayout}
use cretonne.Ir.Layout.Numbered.{start, start_next, start_mono, Numbered}
use cretonne.Ir.Layout.Points
use cretonne.Ir.Layout.Points.{is_ebb_gap_iff}
use cretonne.RegAlloc.LiveRange.{layout_order, ebb_seq, inst_seq}
use cretonne.RegAlloc.LiveRange.Coalesce.{IsOrder}

-- The EBBs of a layout and their instructions.
abbrev pub LaidOut : List ℕ → (ℕ → List ℕ) → ExpandedProgramPoint → Type 0
LaidOut es body (ExpandedProgramPoint.ebb e) = (k : ℕ) × (get_elem? es k ≡ some e)
LaidOut es body (ExpandedProgramPoint.inst i) =
    (k e j : ℕ) × (get_elem? es k ≡ some e) × (get_elem? (body e) j ≡ some i)

module _ (l : Layout) (es : List ℕ) (body : ℕ → List ℕ) (h : IsLayout (shape l) es body)
    (numbered : Numbered es body l) (small : 10 * start body es (length es) < 2 ^ 32) where
  -- An EBB and its instructions stand before the next EBB.
  room :
      (k e j : ℕ)
      → get_elem? es k ≡ some e
      → k < j
      → start body es k + 1 + length (body e) ≤ start body es j
  room k e j at lt = omega (arith, start_next body es k e at, start_mono body es (suc k) j lt)

  ebb_number : (k e : ℕ) → get_elem? es k ≡ some e → (ebb_node l e).seq ≡ 10 * start body es k
  ebb_number k e at =
      let fits = room k e (length es) at (get_elem?_lt es k at) in
      omega (arith, numbered.ebbs k e at)

  inst_number :
      (k e j i : ℕ)
      → get_elem? es k ≡ some e
      → get_elem? (body e) j ≡ some i
      → (inst_node l i).seq ≡ 10 * (start body es k + 1 + j)
  inst_number k e j i at there =
      let fits = room k e (length es) at (get_elem?_lt es k at) in
      let lt = get_elem?_lt (body e) j there in omega (arith, numbered.insts k e j i at there)

  -- The numbers around a gap.
  gap_numbers :
      (i e : ℕ)
      → LaidOut es body (ExpandedProgramPoint.inst i)
      → LaidOut es body (ExpandedProgramPoint.ebb e)
      → Points.is_ebb_gap l i e ≡ true
      → (m d : ℕ) × (get_elem? es m ≡ some d)
        × ((inst_node l i).seq ≡ 10 * (start body es m + length (body d)))
        × ((ebb_node l e).seq ≡ 10 * start body es (suc m))
  gap_numbers i e (k, d, j, at, there) (suc m, here) gap =
      let (last, prev) = (is_ebb_gap_iff l es body h i d j e (suc m) there here).0 gap in
      let same : k ≡ m = h.ebb_links.distinct k m d at prev in
      (m, d, prev, inst_number k d j i at there ∙ rw same (omega arith), ebb_number (suc m) e here)
  gap_numbers i e (k, d, j, at, there) (zero, here) gap =
      let (last, prev) = (is_ebb_gap_iff l es body h i d j e 0 there here).0 gap in
      absurd (ground arith)

  after_gap :
      (m d : ℕ) (pt : ExpandedProgramPoint)
      → get_elem? es m ≡ some d
      → LaidOut es body pt
      → 10 * (start body es m + length (body d)) < Points.seq l pt
      → 10 * start body es (suc m) ≤ Points.seq l pt
  unfolding Points.seq
  after_gap m d (ExpandedProgramPoint.ebb e) at (k, here) past =
      let number = ebb_number k e here in
      elim (dec_lt m k) [
        | yes later ↦ omega (arith, start_mono body es (suc m) k later)
        | no earlier ↦ absurd (omega (arith, start_mono body es k m (omega arith)))
      ]
  after_gap m d (ExpandedProgramPoint.inst i) at (k, e, j, here, there) past =
      let number = inst_number k e j i here there in
      let lt = get_elem?_lt (body e) j there in
      elim (dec_lt m k) [
        | yes later ↦ omega (arith, start_mono body es (suc m) k later)
        | no earlier ↦ elim (dec_lt k m) [
          | yes lower ↦ absurd (omega (arith, room k e m here lower))
          | no same ↦
              let e' : m ≡ k = omega arith in
              let d' : get_elem? es k ≡ some d = rw e' at at in
              let de : length (body d) ≡ length (body e) = ground arith in
              absurd (omega (arith, ap (start body es) e'))
        ]
      ]

  -- In a layout that is numbered by positions, with fewer than 2 ^ 32 / 10 program points, the order
  -- by numbers and `is_ebb_gap` are a program order of the EBBs and instructions that are laid out.
  pub layout_order-IsOrder : IsOrder (layout_order l) (LaidOut es body)
  unfolding layout_order Points.seq
  layout_order-IsOrder = record {
    gap = λ i e at_i at_e g.
        let (m, d, at, low, high) = gap_numbers i e at_i at_e g in
        omega (arith, start_next body es m d at);
    nothing_between = λ i e pt at_i at_e at_pt g past.
        let (m, d, at, low, high) = gap_numbers i e at_i at_e g in
        rw high (after_gap m d pt at at_pt (rw low at past));
    distinct = λ i e (k, d, j, at, there) (m, here) same.
        let a = inst_number k d j i at there in
        let b = ebb_number m e here in
        let lt = get_elem?_lt (body d) j there in
        elim (dec_lt k m) [
          | yes lower ↦ omega (arith, room k d m at lower)
          | no after ↦ omega (arith, start_mono body es m k (omega arith))
        ];
  }

  pub ebb_place :
      (k e : ℕ) → get_elem? es k ≡ some e → ebb_seq (layout_order l) e ≡ 10 * start body es k
  unfolding layout_order Points.seq
  ebb_place k e at = ebb_number k e at

  pub inst_place :
      (k e j i : ℕ)
      → get_elem? es k ≡ some e
      → get_elem? (body e) j ≡ some i
      → inst_seq (layout_order l) i ≡ 10 * (start body es k + 1 + j)
  unfolding layout_order Points.seq
  inst_place k e j i at there = inst_number k e j i at there
