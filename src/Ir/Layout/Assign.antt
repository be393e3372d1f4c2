-- ===== src/Ir/Layout/Assign.antt =====
-- `assign_ebb_seq` and `assign_inst_seq` return, and leave every link as it was.
use cretonne.Prelude.{
  ℕ, zero, suc, ◌+◌, ◌<◌, ◌≡◌, refl, sym, ◌∙◌, List, Option, none, some, arith, ltb, length,
  get_elem?, Option-cases, Bool-cases, inl, inr,
}
use cretonne.Prelude.Swap.{get_elem?_lt}
use cretonne.Ir.Layout.{Layout, ebb_node, inst_node}
use cretonne.Ir.Layout.Seq.{
  u32_add, major_stride, minor_stride, local_limit, set_ebb_seq, set_inst_seq, give_up,
  renumber_insts, renumber_body, renumber_from_ebb, spill_over, renumber_from_inst, assign_ebb_seq,
  assign_in, assign_inst_seq, ebb_next_seq, ebb_prev_seq, inst_next_seq, inst_prev_seq, midpoint,
}
use cretonne.Ir.Layout.Shape.{
  shape, shape-set_ebb_seq, shape-set_inst_seq, shape-next, shape-first_inst, shape-ebb,
}
use cretonne.Ir.Layout.Valid.{IsLayout}
use cretonne.Ir.Layout.Renumber.{Enough, Keeps, next_of, full_renumber-Keeps}

module _ (es : List ℕ) (body : ℕ → List ℕ) (whole : ℕ) (enough : Enough whole es body) where
  give_up-Keeps : (l : Layout) → IsLayout (shape l) es body → Keeps (λ r. r.0) l (give_up whole l)
  unfolding give_up
  give_up-Keeps l h =
      let (r, runs, keeps) = full_renumber-Keeps es body whole enough l h in
      ((r, none), ground arith, keeps)

  renumber_insts-Keeps :
      (n : ℕ) (l : Layout) (e k i s limit : ℕ)
      → IsLayout (shape l) es body
      → get_elem? (body e) k ≡ some i
      → length (body e) < n + k
      → Keeps (λ r. r.0) l (renumber_insts whole n l i s limit)
  unfolding renumber_insts
  renumber_insts-Keeps zero l e k i s limit h at room =
      absurd (omega (arith, get_elem?_lt (body e) k at))
  renumber_insts-Keeps (suc n) l e k i s limit h at room =
      let l1 = set_inst_seq l i s in
      let same = shape-set_inst_seq l i s in
      let link = next_of es body l e k i s h at in
      elim (Option-cases (inst_node l1 i).next) [
        | inl last ↦ ((l1, some s), ground arith, same)
        | inr (next, more) ↦ elim (Bool-cases (ltb s (inst_node l1 next).seq)) [
          | inl caught ↦ ((l1, none), ground arith, same)
          | inr behind ↦ elim (Bool-cases (ltb limit s)) [
            | inl over ↦
                let (r, runs, keeps) = give_up-Keeps l1 (rw same h) in
                (r, ground arith, keeps ∙ same)
            | inr under ↦
                let (r, runs, keeps) =
                  renumber_insts-Keeps n l1 e (suc k) next (u32_add s minor_stride) limit
                    (rw same h) (sym link ∙ more) (omega arith) in
                (r, ground arith, keeps ∙ same)
          ]
        ]
      ]

  renumber_body-Keeps :
      (l : Layout) (e : ℕ) (o : Option ℕ) (s limit : ℕ)
      → IsLayout (shape l) es body
      → o ≡ get_elem? (body e) 0
      → Keeps (λ r. r.0) l (renumber_body whole l o s limit)
  unfolding renumber_body
  renumber_body-Keeps l e none s limit h at = ((l, some s), refl, refl)
  renumber_body-Keeps l e (some i) s limit h at =
      renumber_insts-Keeps whole l e 0 i (u32_add s minor_stride) limit h (sym at)
        (omega (arith, enough.insts e))

  renumber_from_ebb-Keeps :
      (n : ℕ) (l : Layout) (k e s limit : ℕ)
      → IsLayout (shape l) es body
      → get_elem? es k ≡ some e
      → length es < n + k
      → Keeps (λ r. r) l (renumber_from_ebb whole n l e s limit)
  unfolding renumber_from_ebb
  renumber_from_ebb-Keeps zero l k e s limit h at room =
      absurd (omega (arith, get_elem?_lt es k at))
  renumber_from_ebb-Keeps (suc n) l k e s limit h at room =
      let l1 = set_ebb_seq l e s in
      let same = shape-set_ebb_seq l e s in
      let ((l2, o), runs, keeps) =
        renumber_body-Keeps l1 e (ebb_node l1 e).first_inst s limit (rw same h)
          (ground (arith, shape-first_inst l1 e, (h.inst_links e).firsts)) in
      let link : (ebb_node l2 e).next ≡ get_elem? es (suc k) =
        ground (arith, shape-next l2 e, h.ebb_links.nexts k e at) in
      elim (Option-cases o) [
        | inl caught ↦ (l2, ground arith, keeps ∙ same)
        | inr (s', more) ↦ elim (Option-cases (ebb_node l2 e).next) [
          | inl last ↦ (l2, ground arith, keeps ∙ same)
          | inr (next, there) ↦ elim (Bool-cases (ltb s' (ebb_node l2 next).seq)) [
            | inl caught ↦ (l2, ground arith, keeps ∙ same)
            | inr behind ↦
                let (r, runs', keeps') =
                  renumber_from_ebb-Keeps n l2 (suc k) next (u32_add s' minor_stride) limit
                    (rw (keeps, same) h) (sym link ∙ there) (omega arith) in
                (r, ground arith, keeps' ∙ keeps ∙ same)
          ]
        ]
      ]

  -- `assign_ebb_seq` returns and keeps every link.
  pub assign_ebb_seq-Keeps :
      (l : Layout) (k e : ℕ)
      → IsLayout (shape l) es body
      → get_elem? es k ≡ some e
      → Keeps (λ r. r) l (assign_ebb_seq whole l e)
  unfolding assign_ebb_seq
  assign_ebb_seq-Keeps l k e h at =
      let prev = ebb_prev_seq l e in
      let (r, runs, keeps) =
        renumber_from_ebb-Keeps whole l k e (u32_add prev minor_stride) (u32_add prev local_limit) h
          at (omega (arith, enough.ebbs)) in
      elim (Option-cases (ebb_next_seq l e)) [
        | inl last ↦
            (set_ebb_seq l e (u32_add prev major_stride), ground arith, shape-set_ebb_seq l e _)
        | inr (next, more) ↦ elim (Option-cases (midpoint prev next)) [
          | inl crowded ↦ (r, ground arith, keeps)
          | inr (s, room) ↦ (set_ebb_seq l e s, ground arith, shape-set_ebb_seq l e s)
        ]
      ]

  spill_over-Keeps :
      (l : Layout) (j e k i s limit : ℕ)
      → IsLayout (shape l) es body
      → get_elem? es j ≡ some e
      → get_elem? (body e) k ≡ some i
      → Keeps (λ r. r) l (spill_over whole l i s limit)
  unfolding spill_over
  spill_over-Keeps l j e k i s limit h here at =
      let owner : (inst_node l i).ebb ≡ some e = ground (arith, shape-ebb l i, h.owner e k i at) in
      let link : (ebb_node l e).next ≡ get_elem? es (suc j) =
        ground (arith, shape-next l e, h.ebb_links.nexts j e here) in
      elim (Option-cases (ebb_node l e).next) [
        | inl last ↦ (l, ground arith, refl)
        | inr (next, there) ↦
            let (r, runs, keeps) =
              renumber_from_ebb-Keeps whole l (suc j) next (u32_add s minor_stride) limit h
                (sym link ∙ there) (omega (arith, enough.ebbs)) in
            (r, ground arith, keeps)
      ]

  renumber_from_inst-Keeps :
      (l : Layout) (j e k i s limit : ℕ)
      → IsLayout (shape l) es body
      → get_elem? es j ≡ some e
      → get_elem? (body e) k ≡ some i
      → Keeps (λ r. r) l (renumber_from_inst whole l i s limit)
  unfolding renumber_from_inst
  renumber_from_inst-Keeps l j e k i s limit h here at =
      let ((l', o), runs, keeps) =
        renumber_insts-Keeps whole l e k i s limit h at (omega (arith, enough.insts e)) in
      elim (Option-cases o) [
        | inl caught ↦ (l', ground arith, keeps)
        | inr (s', more) ↦
            let (r, runs', keeps') = spill_over-Keeps l' j e k i s' limit (rw keeps h) here at in
            (r, ground arith, keeps' ∙ keeps)
      ]

  -- `assign_inst_seq` returns and keeps every link.
  pub assign_inst_seq-Keeps :
      (l : Layout) (j e k i : ℕ)
      → IsLayout (shape l) es body
      → get_elem? es j ≡ some e
      → get_elem? (body e) k ≡ some i
      → Keeps (λ r. r) l (assign_inst_seq whole l i)
  unfolding assign_inst_seq assign_in
  assign_inst_seq-Keeps l j e k i h here at =
      let owner : (inst_node l i).ebb ≡ some e = ground (arith, shape-ebb l i, h.owner e k i at) in
      let prev = inst_prev_seq l i e in
      let (r, runs, keeps) =
        renumber_from_inst-Keeps l j e k i (u32_add prev minor_stride) (u32_add prev local_limit) h
          here at in
      elim (Option-cases (inst_next_seq l i e)) [
        | inl last ↦
            (set_inst_seq l i (u32_add prev major_stride), ground arith, shape-set_inst_seq l i _)
        | inr (next, more) ↦ elim (Option-cases (midpoint prev next)) [
          | inl crowded ↦ (r, ground arith, keeps)
          | inr (s, room) ↦ (set_inst_seq l i s, ground arith, shape-set_inst_seq l i s)
        ]
      ]
