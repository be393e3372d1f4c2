-- ===== src/Ir/Layout/Points.antt =====
-- Program points in a layout: `ProgramOrder for Layout`, `seq` and `pp_ebb`.
use native.Mathlib.Decide.{ℕ_discrete}
use cretonne.Prelude.{
  ℕ, suc, ◌≡◌, ◌↔◌, List, Option, none, some, Bool, true, false, ◌&&◌, ◌==◌, compare, Ordering,
  arith, length, get_elem?,
}
use cretonne.Prelude.Swap.{get_elem?_lt, get_elem?_beyond, get_elem?_within}
use cretonne.Ir.ProgPoint.{ExpandedProgramPoint}
use cretonne.Ir.Layout.{Layout, ebb_node, inst_node}
use cretonne.Ir.Layout.Links.{before}
use cretonne.Ir.Layout.Shape.{shape, shape-ebb, shape-prev, shape-next_inst}
use cretonne.Ir.Layout.Valid.{IsLayout}

unfoldable pub seq : Layout → ExpandedProgramPoint → ℕ
seq l (ExpandedProgramPoint.ebb e) = (ebb_node l e).seq
seq l (ExpandedProgramPoint.inst i) = (inst_node l i).seq

unfoldable pub cmp : Layout → ExpandedProgramPoint → ExpandedProgramPoint → Ordering
unfolding seq
cmp l a b = compare (seq l a) (seq l b)

unfoldable pub is_none : Option ℕ → Bool
is_none none = true
is_none (some a) = false

-- `==` of two `PackedOption`.
unfoldable pub same : Option ℕ → Option ℕ → Bool
same none none = true
same none (some b) = false
same (some a) none = false
same (some a) (some b) = a == b

unfoldable pub is_ebb_gap : Layout → ℕ → ℕ → Bool
unfolding is_none same
is_ebb_gap l i e = is_none (inst_node l i).next && same (inst_node l i).ebb (ebb_node l e).prev

-- `none` is the panic on an instruction that is in no EBB.
unfoldable pub pp_ebb : Layout → ExpandedProgramPoint → Option ℕ
pp_ebb l (ExpandedProgramPoint.ebb e) = some e
pp_ebb l (ExpandedProgramPoint.inst i) = (inst_node l i).ebb

same_iff : (o : Option ℕ) (a : ℕ) → (same (some a) o ≡ true) ↔ (o ≡ some a)
unfolding same
same_iff none a = ground arith
same_iff (some b) a = ground arith

is_none_iff : (o : Option ℕ) → (is_none o ≡ true) ↔ (o ≡ none)
unfolding is_none
is_none_iff none = ground arith
is_none_iff (some b) = ground arith

last_iff :
    (is : List ℕ) (k i : ℕ)
    → get_elem? is k ≡ some i
    → (get_elem? is (suc k) ≡ none) ↔ (suc k ≡ length is)
last_iff is k i at =
    let lt = get_elem?_lt is k at in
    (
      (λ e. elim (ℕ_discrete (suc k) (length is)) [
        | yes same ↦ same
        | no differs ↦
            let (a, p) = get_elem?_within is (suc k) (omega arith) in absurd (ground arith)
      ]),
      λ e. get_elem?_beyond is (suc k) (omega arith),
    )

module _ (l : Layout) (es : List ℕ) (body : ℕ → List ℕ) (h : IsLayout (shape l) es body) where
  -- For an instruction of one EBB and an EBB that is laid out, `is_ebb_gap` holds exactly if the
  -- instruction is the last of its EBB and its EBB stands right before the other one.
  pub is_ebb_gap_iff :
      (i e k b j : ℕ)
      → get_elem? (body e) k ≡ some i
      → get_elem? es j ≡ some b
      → (is_ebb_gap l i b ≡ true) ↔ ((suc k ≡ length (body e)) × (before es j ≡ some e))
  unfolding is_ebb_gap
  is_ebb_gap_iff i e k b j there here = ground (
    arith,
    shape-ebb l i,
    shape-prev l b,
    shape-next_inst l i,
    h.owner e k i there,
    (h.inst_links e).nexts k i there,
    h.ebb_links.prevs j b here,
    last_iff (body e) k i there,
    is_none_iff (get_elem? (body e) (suc k)),
    same_iff (before es j) e,
  )
