-- ===== src/Ir/Layout/Renumber.antt =====
-- The loops that assign sequence numbers end, on fuel beyond the number of EBBs and of the
-- instructions in each, and leave every link as it was.
use cretonne.Prelude.{
  ℕ, zero, suc, ◌+◌, ◌<◌, ◌≡◌, refl, sym, ◌∙◌, List, Option, none, some, arith, length, get_elem?,
}
use cretonne.Prelude.Swap.{get_elem?_lt}
use cretonne.Ir.Layout.{Layout, ebb_node, inst_node}
use cretonne.Ir.Layout.Seq.{
  u32_add, major_stride, set_ebb_seq, set_inst_seq, number_insts, number_ebbs, full_renumber,
}
use cretonne.Ir.Layout.Shape.{
  shape, shape-set_ebb_seq, shape-set_inst_seq, shape-next_inst, shape-next, shape-first_inst,
  shape-first_ebb,
}
use cretonne.Ir.Layout.Valid.{IsLayout}

-- The fuel exceeds the length of each list.
pub record Enough (fuel : ℕ) (es : List ℕ) (body : ℕ → List ℕ) : Type 0 where
  pub ebbs : length es < fuel
  pub insts : (e : ℕ) → length (body e) < fuel

-- The run returns a layout with the same links.
abbrev pub Keeps {ℓ} : {R : Type ℓ} → (R → Layout) → Layout → Option R → Type ℓ
Keeps {R = R} layout l o = (r : R) × (o ≡ some r) × (shape (layout r) ≡ shape l)

module _ (es : List ℕ) (body : ℕ → List ℕ) where
  pub next_of :
      (l : Layout) (e k i s : ℕ)
      → IsLayout (shape l) es body
      → get_elem? (body e) k ≡ some i
      → (inst_node (set_inst_seq l i s) i).next ≡ get_elem? (body e) (suc k)
  next_of l e k i s h at = ground (
    arith,
    shape-next_inst (set_inst_seq l i s) i,
    shape-set_inst_seq l i s,
    (h.inst_links e).nexts k i at,
  )

  number_insts-Keeps :
      (n : ℕ) (l : Layout) (e k : ℕ) (o : Option ℕ) (s : ℕ)
      → IsLayout (shape l) es body
      → o ≡ get_elem? (body e) k
      → length (body e) < n + k
      → Keeps (λ r. r.0) l (number_insts n l o s)
  unfolding number_insts
  number_insts-Keeps zero l e k none s h at room = ((l, s), refl, refl)
  number_insts-Keeps zero l e k (some i) s h at room =
      absurd (omega (arith, get_elem?_lt (body e) k (sym at)))
  number_insts-Keeps (suc n) l e k none s h at room = ((l, s), refl, refl)
  number_insts-Keeps (suc n) l e k (some i) s h at room =
      let l1 = set_inst_seq l i s in
      let same = shape-set_inst_seq l i s in
      let (r, runs, keeps) =
        number_insts-Keeps n l1 e (suc k) (inst_node l1 i).next (u32_add s major_stride) (rw same h)
          (next_of l e k i s h (sym at)) (omega arith) in
      (r, runs, keeps ∙ same)

  module _ (whole : ℕ) (enough : Enough whole es body) where
    number_ebbs-Keeps :
        (n : ℕ) (l : Layout) (k : ℕ) (o : Option ℕ) (s : ℕ)
        → IsLayout (shape l) es body
        → o ≡ get_elem? es k
        → length es < n + k
        → Keeps (λ r. r) l (number_ebbs whole n l o s)
    unfolding number_ebbs
    number_ebbs-Keeps zero l k none s h at room = (l, refl, refl)
    number_ebbs-Keeps zero l k (some e) s h at room =
        absurd (omega (arith, get_elem?_lt es k (sym at)))
    number_ebbs-Keeps (suc n) l k none s h at room = (l, refl, refl)
    number_ebbs-Keeps (suc n) l k (some e) s h at room =
        let l1 = set_ebb_seq l e s in
        let same = shape-set_ebb_seq l e s in
        let (r, runs, keeps) =
          number_insts-Keeps whole l1 e 0 (ebb_node l1 e).first_inst (u32_add s major_stride)
            (rw same h) (ground (arith, shape-first_inst l1 e, (h.inst_links e).firsts))
            (omega (arith, enough.insts e)) in
        let (r', runs', keeps') =
          number_ebbs-Keeps n r.0 (suc k) (ebb_node l1 e).next r.1 (rw (keeps, same) h)
            (ground (arith, shape-next l1 e, h.ebb_links.nexts k e (sym at))) (omega arith) in
        (r', ground arith, keeps' ∙ keeps ∙ same)

    -- With fuel for the EBBs and for the instructions of each, a full renumbering ends and keeps
    -- every link.
    pub full_renumber-Keeps :
        (l : Layout) → IsLayout (shape l) es body → Keeps (λ r. r) l (full_renumber whole l)
    unfolding full_renumber
    full_renumber-Keeps l h =
        number_ebbs-Keeps whole l 0 l.first_ebb 0 h
          (ground (arith, shape-first_ebb l, h.ebb_links.firsts)) (omega (arith, enough.ebbs))
