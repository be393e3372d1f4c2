-- ===== src/Ir/Layout/Ebbs.antt =====
-- The operations on EBBs, as insertions into and removals from the list of EBBs.
use cretonne.Prelude.{ℕ, suc, ◌-◌, ◌≡◌, refl, List, [], none, some, arith, length, get_elem?}
use cretonne.Prelude.Swap.{get_elem?_lt, get_elem?_beyond}
use cretonne.Prelude.Splice.{insert_at, remove_at}
use cretonne.Ir.Layout.{Layout, ebb_node}
use cretonne.Ir.Layout.Links.{before_lem, prev_within, next_within}
use cretonne.Ir.Layout.Ops.{append_ebb_links, insert_ebb_links, insert_ebb_after_links, remove_ebb}
use cretonne.Ir.Layout.Shape.{
  shape, shape_laws, update, update_if, or_else, shape_set_last, shape-last_ebb, shape-prev,
  shape-next,
}
use cretonne.Ir.Layout.Valid.{IsLayout, Absent, IsLayout-insert_ebb, IsLayout-remove_ebb}

append_ebb_shape :
    (l : Layout) (e : ℕ)
    → shape (append_ebb_links l e) ≡ record (shape l) {
      prev = update (shape l).prev e l.last_ebb;
      next = update_if (update (shape l).next e none) l.last_ebb (some e);
      first_ebb = or_else l.last_ebb (some e) (shape l).first_ebb;
      last_ebb = some e;
    }
unfolding append_ebb_links
append_ebb_shape l e = rw shape_set_last (simp shape_laws)

-- `append_ebb` puts the EBB at the end of the list of EBBs, and changes nothing else.
pub append_ebb_links-IsLayout :
    (l : Layout) (es : List ℕ) (body : ℕ → List ℕ) (e : ℕ)
    → IsLayout (shape l) es body
    → Absent e es
    → IsLayout (shape (append_ebb_links l e)) (insert_at es (length es) e) body
append_ebb_links-IsLayout l es body e h fresh =
    let last = h.ebb_links.lasts in
    let reads = shape-last_ebb l in
    let beyond = get_elem?_beyond es (length es) (omega arith) in
    rw append_ebb_shape (
      IsLayout-insert_ebb (shape l) _ es body (length es) e h (omega arith) fresh
        (λ x. ground (arith, beyond))
        (λ x. ground (arith, beyond, before_lem es (length es), fresh (length es - 1)))
        (ground (arith, prev_within es (length es), h.ebb_links.firsts)) (ground arith) refl refl
        refl refl refl)

insert_ebb_shape :
    (l : Layout) (e b : ℕ)
    → shape (insert_ebb_links l e b) ≡ record (shape l) {
      prev = update_if (update (shape l).prev e (ebb_node l b).prev) (some b) (some e);
      next = update_if (update (shape l).next e (some b)) (ebb_node l b).prev (some e);
      first_ebb = or_else (ebb_node l b).prev (some e) (shape l).first_ebb;
    }
unfolding insert_ebb_links
insert_ebb_shape l e b = simp shape_laws

-- `insert_ebb` puts the EBB before the given one.
pub insert_ebb_links-IsLayout :
    (l : Layout) (es : List ℕ) (body : ℕ → List ℕ) (e b k : ℕ)
    → IsLayout (shape l) es body
    → Absent e es
    → get_elem? es k ≡ some b
    → IsLayout (shape (insert_ebb_links l e b)) (insert_at es k e) body
insert_ebb_links-IsLayout l es body e b k h fresh there =
    let lt = get_elem?_lt es k there in
    let reads = shape-prev l b in
    let prev = h.ebb_links.prevs k b there in
    rw insert_ebb_shape (
      IsLayout-insert_ebb (shape l) _ es body k e h (omega arith) fresh
        (λ x. ground (arith, fresh k)) (λ x. ground (arith, before_lem es k, fresh (k - 1)))
        (ground (arith, before_lem es k, get_elem?_lt es k there, prev_within es k (omega arith)))
        (ground arith) refl refl refl refl refl)

insert_ebb_after_shape :
    (l : Layout) (e b : ℕ)
    → shape (insert_ebb_after_links l e b) ≡ record (shape l) {
      prev = update_if (update (shape l).prev e (some b)) (ebb_node l b).next (some e);
      next = update_if (update (shape l).next e (ebb_node l b).next) (some b) (some e);
      last_ebb = or_else (ebb_node l b).next (some e) (shape l).last_ebb;
    }
unfolding insert_ebb_after_links
insert_ebb_after_shape l e b = simp shape_laws

-- `insert_ebb_after` puts the EBB after the given one.
pub insert_ebb_after_links-IsLayout :
    (l : Layout) (es : List ℕ) (body : ℕ → List ℕ) (e b k : ℕ)
    → IsLayout (shape l) es body
    → Absent e es
    → get_elem? es k ≡ some b
    → IsLayout (shape (insert_ebb_after_links l e b)) (insert_at es (suc k) e) body
insert_ebb_after_links-IsLayout l es body e b k h fresh there =
    let lt = get_elem?_lt es k there in
    let reads = shape-next l b in
    let next = h.ebb_links.nexts k b there in
    rw insert_ebb_after_shape (
      IsLayout-insert_ebb (shape l) _ es body (suc k) e h (omega arith) fresh
        (λ x. ground (arith, fresh (suc k))) (λ x. ground (arith, fresh k)) (ground arith)
        (ground (arith, get_elem?_beyond es (suc k), next_within es k)) refl refl refl refl refl)

shape-remove_ebb :
    (l : Layout) (e : ℕ)
    → shape (remove_ebb l e) ≡ record (shape l) {
      prev = update_if (update (shape l).prev e none) (ebb_node l e).next (ebb_node l e).prev;
      next = update_if (update (shape l).next e none) (ebb_node l e).prev (ebb_node l e).next;
      first_ebb = or_else (ebb_node l e).prev (ebb_node l e).next (shape l).first_ebb;
      last_ebb = or_else (ebb_node l e).next (ebb_node l e).prev (shape l).last_ebb;
    }
unfolding remove_ebb
shape-remove_ebb l e = simp shape_laws

-- `remove_ebb` of an EBB that is laid out and has no instructions takes it out of the list; all
-- else is as before.
pub remove_ebb-IsLayout :
    (l : Layout) (es : List ℕ) (body : ℕ → List ℕ) (e k : ℕ)
    → IsLayout (shape l) es body
    → get_elem? es k ≡ some e
    → body e ≡ []
    → IsLayout (shape (remove_ebb l e)) (remove_at es k) body
remove_ebb-IsLayout l es body e k h there empty =
    let lt = get_elem?_lt es k there in
    let prev = h.ebb_links.prevs k e there in
    let next = h.ebb_links.nexts k e there in
    let reads = shape-prev l e in
    let reads' = shape-next l e in
    rw shape-remove_ebb (
      IsLayout-remove_ebb (shape l) _ es body k e h there empty
        (λ x. ground (arith, h.ebb_links.distinct k (suc k) x))
        (λ x. ground (arith, before_lem es k, h.ebb_links.distinct k (k - 1) x))
        (ground (arith, before_lem es k, prev_within es k (omega arith)))
        (ground (arith, get_elem?_beyond es (suc k), next_within es k)) refl refl refl refl refl)
