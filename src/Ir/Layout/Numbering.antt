-- ===== src/Ir/Layout/Numbering.antt =====
-- `full_renumber` numbers the program points by their positions in the layout.
use native.Mathlib.Decide.{ℕ_discrete, dec_lt}
use cretonne.Prelude.{
  ℕ, zero, suc, ◌+◌, ◌*◌, ◌%◌, ◌^◌, ◌<◌, ◌≤◌, ◌≡◌, ◌≢◌, refl, sym, ◌∙◌, List, [], ◌∷◌, Option, none,
  some, ◌==◌, if◌then◌else◌, arith, length, get_elem?,
}
use cretonne.Prelude.Swap.{get_elem?_lt, get_elem?_within}
use cretonne.Entity.Map.{index-assign}
use cretonne.Ir.Layout.Numbered.{start, start_next, Numbered}
use cretonne.Ir.Layout.{Layout, ebb_node, inst_node}
use cretonne.Ir.Layout.Seq.{
  u32_add, major_stride, set_ebb_seq, set_inst_seq, number_insts, number_ebbs, full_renumber,
}
use cretonne.Ir.Layout.Shape.{
  shape, shape-set_ebb_seq, shape-set_inst_seq, shape-next, shape-first_inst, shape-first_ebb,
}
use cretonne.Ir.Layout.Valid.{IsLayout}
use cretonne.Ir.Layout.Renumber.{Enough, next_of}

-- The run returns a layout with the same links, numbered by positions.
pub record Renumbered (es : List ℕ) (body : ℕ → List ℕ) (l : Layout) (o : Option Layout)
    : Type 0 where
  pub layout : Layout
  pub runs : o ≡ some layout
  pub links : shape layout ≡ shape l
  pub numbered : Numbered es body layout

seq-set_inst_seq :
    (l : Layout) (i s x : ℕ)
    → (inst_node (set_inst_seq l i s) x).seq ≡ (if x == i then s else (inst_node l x).seq)
unfolding set_inst_seq
seq-set_inst_seq l i s x =
    ground (arith, index-assign l.insts i x (record (inst_node l i) { seq = s }))

seq-set_ebb_seq :
    (l : Layout) (e s x : ℕ)
    → (ebb_node (set_ebb_seq l e s) x).seq ≡ (if x == e then s else (ebb_node l x).seq)
unfolding set_ebb_seq
seq-set_ebb_seq l e s x =
    ground (arith, index-assign l.ebbs e x (record (ebb_node l e) { seq = s }))

ebb_seq-set_inst_seq :
    (l : Layout) (i s x : ℕ) → (ebb_node (set_inst_seq l i s) x).seq ≡ (ebb_node l x).seq
unfolding set_inst_seq
ebb_seq-set_inst_seq l i s x = refl

inst_seq-set_ebb_seq :
    (l : Layout) (e s x : ℕ) → (inst_node (set_ebb_seq l e s) x).seq ≡ (inst_node l x).seq
unfolding set_ebb_seq
inst_seq-set_ebb_seq l e s x = refl

-- The first `k` instructions of an EBB are numbered, from `t` on, and nothing else is changed.
record Body (body : ℕ → List ℕ) (e t : ℕ) (old : Layout) (k : ℕ) (l : Layout) : Type 0 where
  links : shape l ≡ shape old
  ebbs : (x : ℕ) → (ebb_node l x).seq ≡ (ebb_node old x).seq
  others :
      (x : ℕ)
      → ((j : ℕ) → get_elem? (body e) j ≢ some x)
      → (inst_node l x).seq ≡ (inst_node old x).seq
  done :
      (j i : ℕ)
      → j < k
      → get_elem? (body e) j ≡ some i
      → (inst_node l i).seq ≡ (t + 10 * j) % 2 ^ 32

-- The EBBs before an index, and their instructions, are numbered.
record Before (es : List ℕ) (body : ℕ → List ℕ) (old : Layout) (k : ℕ) (l : Layout) : Type 0 where
  links : shape l ≡ shape old
  ebbs :
      (j e : ℕ)
      → j < k
      → get_elem? es j ≡ some e
      → (ebb_node l e).seq ≡ 10 * start body es j % 2 ^ 32
  insts :
      (j e m i : ℕ)
      → j < k
      → get_elem? es j ≡ some e
      → get_elem? (body e) m ≡ some i
      → (inst_node l i).seq ≡ 10 * (start body es j + 1 + m) % 2 ^ 32

module _ (es : List ℕ) (body : ℕ → List ℕ) (old : Layout) (h : IsLayout (shape old) es body) where
  Body-next :
      (e t k i s : ℕ) (first l : Layout)
      → Body body e t first k l
      → get_elem? (body e) k ≡ some i
      → s ≡ (t + 10 * k) % 2 ^ 32
      → Body body e t first (suc k) (set_inst_seq l i s)
  Body-next e t k i s first l b at number = record {
    links = shape-set_inst_seq l i s ∙ b.links;
    ebbs = λ x. ebb_seq-set_inst_seq l i s x ∙ b.ebbs x;
    others = λ x away.
        let ne : x ≢ i = (λ e'. away k (rw e' at)) in
        ground (arith, seq-set_inst_seq l i s x, b.others x away);
    done = λ j x lt there. elim (ℕ_discrete j k) [
      | yes here ↦
          let e' : i ≡ x = ground arith in
          rw (← e', here) (ground (arith, seq-set_inst_seq l i s i))
      | no other ↦
          let ne : x ≢ i = (λ e'. other ((h.inst_links e).distinct j k x there (rw e' at))) in
          ground (arith, seq-set_inst_seq l i s x, b.done j x (omega arith) there)
    ];
  }

  number_insts-Body :
      (n : ℕ) (first l : Layout) (e t k : ℕ) (o : Option ℕ) (s : ℕ)
      → shape first ≡ shape old
      → Body body e t first k l
      → o ≡ get_elem? (body e) k
      → k ≤ length (body e)
      → length (body e) < n + k
      → s ≡ (t + 10 * k) % 2 ^ 32
      → (r : Layout × ℕ) × (number_insts n l o s ≡ some r)
        × Body body e t first (length (body e)) r.0
        × (r.1 ≡ (t + 10 * length (body e)) % 2 ^ 32)
  unfolding number_insts
  number_insts-Body n first l e t k none s same b at fits room number =
      let end : k ≡ length (body e) = elim (dec_lt k (length (body e))) [
        | yes lt ↦ let (x, there) = get_elem?_within (body e) k lt in absurd (ground arith)
        | no ge ↦ omega arith
      ] in
      ((l, s), ended n, rw end at b, rw end at number)
    where
      ended : (n : ℕ) → number_insts n l none s ≡ some (l, s)
      ended zero = refl
      ended (suc n) = refl
  number_insts-Body zero first l e t k (some i) s same b at fits room number =
      absurd (omega (arith, get_elem?_lt (body e) k (sym at)))
  number_insts-Body (suc n) first l e t k (some i) s same b at fits room number =
      let l1 = set_inst_seq l i s in
      let lt = get_elem?_lt (body e) k (sym at) in
      let held : IsLayout (shape l) es body = rw (b.links, same) h in
      number_insts-Body n first l1 e t (suc k) (inst_node l1 i).next (u32_add s major_stride) same
        (Body-next e t k i s first l b (sym at) number) (next_of es body l e k i s held (sym at))
        (omega arith) (omega arith) (omega arith)

  -- One round of the outer loop.
  Before-next :
      (k e s : ℕ) (l r : Layout)
      → Before es body old k l
      → get_elem? es k ≡ some e
      → s ≡ 10 * start body es k % 2 ^ 32
      → Body body e (10 * (start body es k + 1)) (set_ebb_seq l e s) (length (body e)) r
      → Before es body old (suc k) r
  Before-next k e s l r b at number inner = record {
    links = inner.links ∙ shape-set_ebb_seq l e s ∙ b.links;
    ebbs = λ j x lt there. elim (ℕ_discrete j k) [
      | yes here ↦
          let e' : e ≡ x = ground arith in
          rw (← e', here) (ground (arith, inner.ebbs e, seq-set_ebb_seq l e s e))
      | no other ↦
          let ne : x ≢ e = (λ e'. other (h.ebb_links.distinct j k x there (rw e' at))) in
          ground (arith, inner.ebbs x, seq-set_ebb_seq l e s x, b.ebbs j x (omega arith) there)
    ];
    insts = λ j x m i lt there within. elim (ℕ_discrete j k) [
      | yes here ↦
          let e' : x ≡ e = ground arith in
          let within' : get_elem? (body e) m ≡ some i = rw e' at within in
          let done = inner.done m i (get_elem?_lt (body e) m within') within' in
          rw here (omega arith)
      | no other ↦
          let ne : x ≢ e = (λ e'. other (h.ebb_links.distinct j k x there (rw e' at))) in
          let away : (q : ℕ) → get_elem? (body e) q ≢ some i =
            λ q p. ne (owner_unique x e i (h.owner x m i within) (h.owner e q i p)) in
          inner.others i away
          ∙ inst_seq-set_ebb_seq l e s i
          ∙ b.insts j x m i (omega arith) there within
    ];
  }
    where
      owner_unique : (x e i : ℕ) → (shape old).ebb i ≡ some x → (shape old).ebb i ≡ some e → x ≡ e
      owner_unique x e i p q = ground arith

  unchanged : (e t : ℕ) (l : Layout) → Body body e t l 0 l
  unchanged e t l = record {
    links = refl;
    ebbs = λ x. refl;
    others = λ x away. refl;
    done = λ j i lt. absurd (omega arith);
  }

  first_of :
      (l : Layout) (e : ℕ) → shape l ≡ shape old → (ebb_node l e).first_inst ≡ get_elem? (body e) 0
  first_of l e same =
      let held : IsLayout (shape l) es body = rw same h in
      ground (arith, shape-first_inst l e, (held.inst_links e).firsts)

  after_of :
      (l : Layout) (k e : ℕ)
      → shape l ≡ shape old
      → get_elem? es k ≡ some e
      → (ebb_node l e).next ≡ get_elem? es (suc k)
  after_of l k e same at =
      let held : IsLayout (shape l) es body = rw same h in
      ground (arith, shape-next l e, held.ebb_links.nexts k e at)

  module _ (whole : ℕ) (enough : Enough whole es body) where
    number_ebbs-Numbered :
        (n : ℕ) (l : Layout) (k : ℕ) (o : Option ℕ) (s : ℕ)
        → Before es body old k l
        → o ≡ get_elem? es k
        → length es < n + k
        → s ≡ 10 * start body es k % 2 ^ 32
        → Renumbered es body old (number_ebbs whole n l o s)
    unfolding number_ebbs
    number_ebbs-Numbered n l k none s b at room number = record {
      layout = l;
      runs = ended n;
      links = b.links;
      numbered = record {
        ebbs = λ j e there. b.ebbs j e (early j e there) there;
        insts = λ j e m i there. b.insts j e m i (early j e there) there;
      };
    }
      where
        ended : (n : ℕ) → number_ebbs whole n l none s ≡ some l
        ended zero = refl
        ended (suc n) = refl

        early : (j e : ℕ) → get_elem? es j ≡ some e → j < k
        early j e there = elim (dec_lt k (length es)) [
          | yes lt ↦ let (x, here) = get_elem?_within es k lt in absurd (ground arith)
          | no ge ↦ omega (arith, get_elem?_lt es j there)
        ]
    number_ebbs-Numbered zero l k (some e) s b at room number =
        absurd (omega (arith, get_elem?_lt es k (sym at)))
    number_ebbs-Numbered (suc n) l k (some e) s b at room number =
        let l1 = set_ebb_seq l e s in
        let held : IsLayout (shape l) es body = rw b.links h in
        let same : shape l1 ≡ shape old = shape-set_ebb_seq l e s ∙ b.links in
        let (r, runs, inner, number') =
          number_insts-Body whole l1 l1 e (10 * (start body es k + 1)) 0 (ebb_node l1 e).first_inst
            (u32_add s major_stride) same (unchanged e (10 * (start body es k + 1)) l1)
            (first_of l1 e same) (omega arith) (omega (arith, enough.insts e)) (omega arith) in
        let next = start_next body es k e (sym at) in
        let after : r.1 ≡ 10 * start body es (suc k) % 2 ^ 32 = omega arith in
        let rest =
          number_ebbs-Numbered n r.0 (suc k) (ebb_node l1 e).next r.1
            (Before-next k e s l r.0 b (sym at) number inner) (after_of l1 k e same (sym at))
            (omega arith) after in
        rw (number_ebbs, runs) rest

    -- With fuel for the EBBs and for the instructions of each, a full renumbering ends, keeps every
    -- link, and gives every program point ten times its position in the layout, as a `u32`.
    pub full_renumber-Renumbered : Renumbered es body old (full_renumber whole old)
    unfolding full_renumber
    full_renumber-Renumbered =
        number_ebbs-Numbered whole old 0 old.first_ebb 0
          (record {
            links = refl;
            ebbs = λ j e lt. absurd (omega arith);
            insts = λ j e m i lt. absurd (omega arith);
          })
          (ground (arith, shape-first_ebb old, h.ebb_links.firsts)) (omega (arith, enough.ebbs))
          (start_zero es)
      where
        start_zero : (es : List ℕ) → 0 ≡ 10 * start body es 0 % 2 ^ 32
        start_zero [] = refl
        start_zero (e ∷ es) = refl
