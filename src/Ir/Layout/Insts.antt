-- ===== src/Ir/Layout/Insts.antt =====
-- The operations on instructions, as insertions into and removals from the list of one EBB.
use cretonne.Prelude.{
  ℕ, suc, ◌-◌, ◌≡◌, ◌≢◌, ◌↔◌, refl, List, Option, none, some, arith, length, get_elem?,
}
use cretonne.Prelude.Swap.{get_elem?_lt, get_elem?_beyond}
use cretonne.Prelude.Splice.{insert_at, remove_at}
use cretonne.Ir.Layout.{Layout, ebb_node, inst_node}
use cretonne.Ir.Layout.Links.{before_lem, prev_within, next_within, head_within}
use cretonne.Ir.Layout.Ops.{
  append_inst_links, insert_inst_links, remove_inst, set_inst_links, set_prev_inst_of,
  set_next_inst_of,
}
use cretonne.Ir.Layout.Shape.{
  shape, shape_laws, shape-ebb, shape-prev_inst, shape-next_inst, shape-first_inst, shape-last_inst,
}
use cretonne.Ir.Layout.Valid.{IsLayout}
use cretonne.Ir.Layout.ValidInst.{with_body, IsLayout-insert_inst, IsLayout-remove_inst}

-- The layout that `insert_inst` makes of the links it reads.
insert_between : Layout → ℕ → ℕ → ℕ → Option ℕ → Layout
insert_between l i b e after =
    set_next_inst_of
      (set_prev_inst_of (set_inst_links l i (some e) after (some b)) e (some b) (some i)) e after
      (some i)

insert_inst_step :
    (l : Layout) (i b e : ℕ)
    → (inst_node l b).ebb ≡ some e
    → insert_inst_links l i b ≡ some (insert_between l i b e (inst_node l b).prev)
unfolding insert_inst_links insert_between
insert_inst_step l i b e p = ground arith

-- `insert_inst` puts the instruction before the given one, in its EBB.
pub insert_inst_links-IsLayout :
    (l : Layout) (es : List ℕ) (body : ℕ → List ℕ) (j e k b i : ℕ)
    → IsLayout (shape l) es body
    → get_elem? es j ≡ some e
    → get_elem? (body e) k ≡ some b
    → (inst_node l i).ebb ≡ none
    → (l' : Layout) × (insert_inst_links l i b ≡ some l')
      × IsLayout (shape l') es (with_body body e (insert_at (body e) k i))
insert_inst_links-IsLayout l es body j e k b i h here there loose =
    let lt = get_elem?_lt (body e) k there in
    let links = h.inst_links e in
    let owner = h.owner e k b there in
    let prev = links.prevs k b there in
    let read_ebb = shape-ebb l b in
    let read_loose = shape-ebb l i in
    let read_prev = shape-prev_inst l b in
    let after = (inst_node l b).prev in
    let fresh : (a : ℕ) → get_elem? (body e) a ≢ some i = λ a p. ground (arith, h.owner e a i p) in
    (
      insert_between l i b e after,
      insert_inst_step l i b e (ground arith),
      unfold insert_between in
          simp shape_laws (
            IsLayout-insert_inst (shape l) _ es body j e k i h here (omega arith) (ground arith)
              (λ x. ground (arith, fresh k))
              (λ x. ground (arith, before_lem (body e) k, fresh (k - 1))) (λ x. refl)
              (λ x. ground (arith, prev_within (body e) k, before_lem (body e) k))
              (λ x. ground arith) refl refl refl refl),
    )

-- The layout that `append_inst` makes of the links it reads.
append_after : Layout → ℕ → ℕ → Option ℕ → Layout
append_after l i e last =
    set_prev_inst_of
      (set_next_inst_of (set_inst_links l i (some e) last (inst_node l i).next) e last (some i)) e
      none (some i)

append_inst_step :
    (l : Layout) (i e : ℕ) (first last : Option ℕ)
    → (ebb_node l e).first_inst ≡ first
    → (ebb_node l e).last_inst ≡ last
    → (first ≡ none) ↔ (last ≡ none)
    → append_inst_links l i e ≡ some (append_after l i e last)
unfolding append_inst_links append_after
append_inst_step l i e none none p q both = ground arith
append_inst_step l i e none (some b) p q both = cc (both.0 refl)
append_inst_step l i e (some a) none p q both = cc (both.1 refl)
append_inst_step l i e (some a) (some b) p q both = ground arith

-- `append_inst` puts the instruction at the end of the EBB.
pub append_inst_links-IsLayout :
    (l : Layout) (es : List ℕ) (body : ℕ → List ℕ) (j e i : ℕ)
    → IsLayout (shape l) es body
    → get_elem? es j ≡ some e
    → (inst_node l i).ebb ≡ none
    → (inst_node l i).next ≡ none
    → (l' : Layout) × (append_inst_links l i e ≡ some l')
      × IsLayout (shape l') es (with_body body e (insert_at (body e) (length (body e)) i))
append_inst_links-IsLayout l es body j e i h here loose unlinked =
    let is = body e in
    let links = h.inst_links e in
    let read_loose = shape-ebb l i in
    let read_first = shape-first_inst l e in
    let read_last = shape-last_inst l e in
    let firsts = links.firsts in
    let lasts = links.lasts in
    let beyond = get_elem?_beyond is (length is) (omega arith) in
    let fresh : (a : ℕ) → get_elem? (body e) a ≢ some i = λ a p. ground (arith, h.owner e a i p) in
    (
      append_after l i e (ebb_node l e).last_inst,
      append_inst_step l i e (ebb_node l e).first_inst (ebb_node l e).last_inst refl refl (
        λ p. ground (arith, head_within is, before_lem is (length is)),
        λ p. ground (arith, prev_within is (length is), get_elem?_beyond is 0),
      ),
      unfold append_after in
          simp shape_laws (
            IsLayout-insert_inst (shape l) _ es body j e (length is) i h here (omega arith)
              (ground arith) (λ x. ground (arith, beyond))
              (λ x. ground (arith, beyond, before_lem is (length is), fresh (length is - 1)))
              (λ x. refl)
              (λ x. ground (arith, prev_within is (length is), before_lem is (length is)))
              (λ x. ground arith) refl refl refl refl),
    )

-- The layout that `remove_inst` makes of the links it reads.
unlinked_inst : Layout → ℕ → ℕ → Option ℕ → Option ℕ → Layout
unlinked_inst l i e prev next =
    set_prev_inst_of (set_next_inst_of (set_inst_links l i none none none) e prev next) e next prev

remove_inst_step :
    (l : Layout) (i e : ℕ)
    → (inst_node l i).ebb ≡ some e
    → remove_inst l i ≡ some (unlinked_inst l i e (inst_node l i).prev (inst_node l i).next)
unfolding remove_inst unlinked_inst
remove_inst_step l i e p = ground arith

-- `remove_inst` of an instruction in an EBB that is laid out returns, and takes it out of the EBB;
-- all else is as before.
pub remove_inst-IsLayout :
    (l : Layout) (es : List ℕ) (body : ℕ → List ℕ) (j e k i : ℕ)
    → IsLayout (shape l) es body
    → get_elem? es j ≡ some e
    → get_elem? (body e) k ≡ some i
    → (l' : Layout) × (remove_inst l i ≡ some l')
      × IsLayout (shape l') es (with_body body e (remove_at (body e) k))
remove_inst-IsLayout l es body j e k i h here there =
    let is = body e in
    let lt = get_elem?_lt is k there in
    let links = h.inst_links e in
    let owner = h.owner e k i there in
    let prev = links.prevs k i there in
    let next = links.nexts k i there in
    let read_ebb = shape-ebb l i in
    let read_prev = shape-prev_inst l i in
    let read_next = shape-next_inst l i in
    (
      unlinked_inst l i e (inst_node l i).prev (inst_node l i).next,
      remove_inst_step l i e (ground arith),
      unfold unlinked_inst in
          simp shape_laws (
            IsLayout-remove_inst (shape l) _ es body j e k i h here there
              (λ x. ground (arith, links.distinct k (suc k) x))
              (λ x. ground (arith, before_lem is k, links.distinct k (k - 1) x)) (λ x. refl)
              (λ x. ground (arith, before_lem is k, prev_within is k))
              (λ x. ground (arith, get_elem?_beyond is (suc k), next_within is k)) refl refl refl
              refl),
    )
