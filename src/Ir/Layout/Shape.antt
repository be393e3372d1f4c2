-- ===== src/Ir/Layout/Shape.antt =====
-- The links of a `Layout` without its sequence numbers, and how each write changes them.
use cretonne.Prelude.{ℕ, ◌≡◌, refl, ◌∙◌, Option, none, some, arith, ◌==◌, if◌then◌else◌}
use cretonne.Entity.Map.{index-assign}
use cretonne.Ir.Layout.{Layout, EbbNode, InstNode, ebb_node, inst_node, set_ebb, set_inst}
use cretonne.Ir.Layout.Links.{is}
use cretonne.Ir.Layout.Seq.{set_ebb_seq, set_inst_seq}
use cretonne.Ir.Layout.Ops.{
  set_next_of, set_prev_of, set_ebb_links, set_next_inst_of, set_prev_inst_of, set_inst_links,
}

pub record Shape : Type 0 where
  pub prev : ℕ → Option ℕ
  pub next : ℕ → Option ℕ
  pub first_inst : ℕ → Option ℕ
  pub last_inst : ℕ → Option ℕ
  pub ebb : ℕ → Option ℕ
  pub prev_inst : ℕ → Option ℕ
  pub next_inst : ℕ → Option ℕ
  pub first_ebb : Option ℕ
  pub last_ebb : Option ℕ

unfoldable pub shape : Layout → Shape
shape l = record {
  prev = λ e. (ebb_node l e).prev;
  next = λ e. (ebb_node l e).next;
  first_inst = λ e. (ebb_node l e).first_inst;
  last_inst = λ e. (ebb_node l e).last_inst;
  ebb = λ i. (inst_node l i).ebb;
  prev_inst = λ i. (inst_node l i).prev;
  next_inst = λ i. (inst_node l i).next;
  first_ebb = l.first_ebb;
  last_ebb = l.last_ebb;
}

abbrev pub update : (ℕ → Option ℕ) → ℕ → Option ℕ → ℕ → Option ℕ
update f a v x = if x == a then v else f x

abbrev pub update_if : (ℕ → Option ℕ) → Option ℕ → Option ℕ → ℕ → Option ℕ
update_if f o v x = if is o x then v else f x

abbrev pub or_update : (ℕ → Option ℕ) → Option ℕ → ℕ → Option ℕ → ℕ → Option ℕ
or_update f none e v = update f e v
or_update f (some a) e v = f

abbrev pub or_else : Option ℕ → Option ℕ → Option ℕ → Option ℕ
or_else none v w = v
or_else (some a) v w = w

-- Shapes with the same links are equal.
Shape_ext :
    (s t : Shape)
    → ((x : ℕ) → s.prev x ≡ t.prev x)
    → ((x : ℕ) → s.next x ≡ t.next x)
    → ((x : ℕ) → s.first_inst x ≡ t.first_inst x)
    → ((x : ℕ) → s.last_inst x ≡ t.last_inst x)
    → ((x : ℕ) → s.ebb x ≡ t.ebb x)
    → ((x : ℕ) → s.prev_inst x ≡ t.prev_inst x)
    → ((x : ℕ) → s.next_inst x ≡ t.next_inst x)
    → s.first_ebb ≡ t.first_ebb
    → s.last_ebb ≡ t.last_ebb
    → s ≡ t
Shape_ext s t p n fi li e pi ni fe le = λ i. record {
  prev = λ x. p x i;
  next = λ x. n x i;
  first_inst = λ x. fi x i;
  last_inst = λ x. li x i;
  ebb = λ x. e x i;
  prev_inst = λ x. pi x i;
  next_inst = λ x. ni x i;
  first_ebb = fe i;
  last_ebb = le i;
}

-- A change of an EBB's node is a change of four links.
abbrev with_ebb : Shape → ℕ → EbbNode → Shape
with_ebb s e n = record s {
  prev = update s.prev e n.prev;
  next = update s.next e n.next;
  first_inst = update s.first_inst e n.first_inst;
  last_inst = update s.last_inst e n.last_inst;
}

shape-set_ebb : (l : Layout) (e : ℕ) (n : EbbNode) → shape (set_ebb l e n) ≡ with_ebb (shape l) e n
unfolding shape
shape-set_ebb l e n =
    Shape_ext _ _ (λ x. ground (arith, index-assign l.ebbs e x n))
      (λ x. ground (arith, index-assign l.ebbs e x n))
      (λ x. ground (arith, index-assign l.ebbs e x n))
      (λ x. ground (arith, index-assign l.ebbs e x n)) (λ x. refl) (λ x. refl) (λ x. refl) refl refl

abbrev with_inst : Shape → ℕ → InstNode → Shape
with_inst s i n = record s {
  ebb = update s.ebb i n.ebb;
  prev_inst = update s.prev_inst i n.prev;
  next_inst = update s.next_inst i n.next;
}

shape-set_inst :
    (l : Layout) (i : ℕ) (n : InstNode) → shape (set_inst l i n) ≡ with_inst (shape l) i n
unfolding shape
shape-set_inst l i n =
    Shape_ext _ _ (λ x. refl) (λ x. refl) (λ x. refl) (λ x. refl)
      (λ x. ground (arith, index-assign l.insts i x n))
      (λ x. ground (arith, index-assign l.insts i x n))
      (λ x. ground (arith, index-assign l.insts i x n)) refl refl

-- A function is not changed by writing what it reads.
update_same : (f : ℕ → Option ℕ) (a : ℕ) (v : Option ℕ) → v ≡ f a → (x : ℕ) → update f a v x ≡ f x
update_same f a v e x = ground arith

-- Sequence numbers are no links.
pub shape-set_ebb_seq : (l : Layout) (e s : ℕ) → shape (set_ebb_seq l e s) ≡ shape l
unfolding set_ebb_seq
shape-set_ebb_seq l e s =
    shape-set_ebb l e _
    ∙ unfold shape in
      Shape_ext _ _ (update_same _ e _ refl) (update_same _ e _ refl) (update_same _ e _ refl)
        (update_same _ e _ refl) (λ x. refl) (λ x. refl) (λ x. refl) refl refl

pub shape-set_inst_seq : (l : Layout) (i s : ℕ) → shape (set_inst_seq l i s) ≡ shape l
unfolding set_inst_seq
shape-set_inst_seq l i s =
    shape-set_inst l i _
    ∙ unfold shape in
      Shape_ext _ _ (λ x. refl) (λ x. refl) (λ x. refl) (λ x. refl) (update_same _ i _ refl)
        (update_same _ i _ refl) (update_same _ i _ refl) refl refl

pub shape-set_ebb_links :
    (l : Layout) (e : ℕ) (p n : Option ℕ)
    → shape (set_ebb_links l e p n)
      ≡ record (shape l) { prev = update (shape l).prev e p; next = update (shape l).next e n }
unfolding set_ebb_links
shape-set_ebb_links l e p n =
    shape-set_ebb l e _
    ∙ unfold shape in
      Shape_ext _ _ (λ x. refl) (λ x. refl) (update_same _ e _ refl) (update_same _ e _ refl)
        (λ x. refl) (λ x. refl) (λ x. refl) refl refl

pub shape-set_next_of :
    (l : Layout) (o v : Option ℕ)
    → shape (set_next_of l o v) ≡ record (shape l) {
      next = update_if (shape l).next o v;
      first_ebb = or_else o v (shape l).first_ebb;
    }
unfolding set_next_of
shape-set_next_of l none v = unfold shape in refl
shape-set_next_of l (some a) v =
    shape-set_ebb l a _
    ∙ unfold shape in
      Shape_ext _ _ (update_same _ a _ refl) (λ x. ground arith) (update_same _ a _ refl)
        (update_same _ a _ refl) (λ x. refl) (λ x. refl) (λ x. refl) refl refl

pub shape-set_prev_of :
    (l : Layout) (o v : Option ℕ)
    → shape (set_prev_of l o v) ≡ record (shape l) {
      prev = update_if (shape l).prev o v;
      last_ebb = or_else o v (shape l).last_ebb;
    }
unfolding set_prev_of
shape-set_prev_of l none v = unfold shape in refl
shape-set_prev_of l (some a) v =
    shape-set_ebb l a _
    ∙ unfold shape in
      Shape_ext _ _ (λ x. ground arith) (update_same _ a _ refl) (update_same _ a _ refl)
        (update_same _ a _ refl) (λ x. refl) (λ x. refl) (λ x. refl) refl refl

pub shape-set_inst_links :
    (l : Layout) (i : ℕ) (e p n : Option ℕ)
    → shape (set_inst_links l i e p n) ≡ record (shape l) {
      ebb = update (shape l).ebb i e;
      prev_inst = update (shape l).prev_inst i p;
      next_inst = update (shape l).next_inst i n;
    }
unfolding set_inst_links
shape-set_inst_links l i e p n = shape-set_inst l i _

pub shape-set_next_inst_of :
    (l : Layout) (e : ℕ) (o v : Option ℕ)
    → shape (set_next_inst_of l e o v) ≡ record (shape l) {
      next_inst = update_if (shape l).next_inst o v;
      first_inst = or_update (shape l).first_inst o e v;
    }
unfolding set_next_inst_of
shape-set_next_inst_of l e none v =
    shape-set_ebb l e _
    ∙ unfold shape in
      Shape_ext _ _ (update_same _ e _ refl) (update_same _ e _ refl) (λ x. refl)
        (update_same _ e _ refl) (λ x. refl) (λ x. refl) (λ x. refl) refl refl
shape-set_next_inst_of l e (some a) v =
    shape-set_inst l a _
    ∙ unfold shape in
      Shape_ext _ _ (λ x. refl) (λ x. refl) (λ x. refl) (λ x. refl) (update_same _ a _ refl)
        (update_same _ a _ refl) (λ x. ground arith) refl refl

pub shape-set_prev_inst_of :
    (l : Layout) (e : ℕ) (o v : Option ℕ)
    → shape (set_prev_inst_of l e o v) ≡ record (shape l) {
      prev_inst = update_if (shape l).prev_inst o v;
      last_inst = or_update (shape l).last_inst o e v;
    }
unfolding set_prev_inst_of
shape-set_prev_inst_of l e none v =
    shape-set_ebb l e _
    ∙ unfold shape in
      Shape_ext _ _ (update_same _ e _ refl) (update_same _ e _ refl) (update_same _ e _ refl)
        (λ x. refl) (λ x. refl) (λ x. refl) (λ x. refl) refl refl
shape-set_prev_inst_of l e (some a) v =
    shape-set_inst l a _
    ∙ unfold shape in
      Shape_ext _ _ (λ x. refl) (λ x. refl) (λ x. refl) (λ x. refl) (update_same _ a _ refl)
        (λ x. ground arith) (update_same _ a _ refl) refl refl

pub ruleset shape_laws = (
  shape-set_ebb_links, shape-set_next_of, shape-set_prev_of, shape-set_inst_links,
  shape-set_next_inst_of, shape-set_prev_inst_of,
)

pub shape_set_last :
    (l : Layout) (o : Option ℕ)
    → shape (record l { last_ebb = o }) ≡ record (shape l) { last_ebb = o }
unfolding shape
shape_set_last l o = refl

pub shape-last_ebb : (l : Layout) → (shape l).last_ebb ≡ l.last_ebb
unfolding shape
shape-last_ebb l = refl

pub shape-prev : (l : Layout) (e : ℕ) → (shape l).prev e ≡ (ebb_node l e).prev
unfolding shape
shape-prev l e = refl

pub shape-next : (l : Layout) (e : ℕ) → (shape l).next e ≡ (ebb_node l e).next
unfolding shape
shape-next l e = refl

pub shape-ebb : (l : Layout) (i : ℕ) → (shape l).ebb i ≡ (inst_node l i).ebb
unfolding shape
shape-ebb l i = refl

pub shape-prev_inst : (l : Layout) (i : ℕ) → (shape l).prev_inst i ≡ (inst_node l i).prev
unfolding shape
shape-prev_inst l i = refl

pub shape-next_inst : (l : Layout) (i : ℕ) → (shape l).next_inst i ≡ (inst_node l i).next
unfolding shape
shape-next_inst l i = refl

pub shape-first_inst : (l : Layout) (e : ℕ) → (shape l).first_inst e ≡ (ebb_node l e).first_inst
unfolding shape
shape-first_inst l e = refl

pub shape-last_inst : (l : Layout) (e : ℕ) → (shape l).last_inst e ≡ (ebb_node l e).last_inst
unfolding shape
shape-last_inst l e = refl

pub shape-first_ebb : (l : Layout) → (shape l).first_ebb ≡ l.first_ebb
unfolding shape
shape-first_ebb l = refl
