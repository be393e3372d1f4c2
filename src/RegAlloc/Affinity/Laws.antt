-- ===== src/RegAlloc/Affinity/Laws.antt =====
-- An affinity that is settled stays of its kind.
use cretonne.Prelude.{
  ℕ, ◌≡◌, List, Bool, true, false, ◌||◌, Option, none, some, if◌then◌else◌, arith,
}
use cretonne.Isa.Registers.{RegClass, has_subclass, rc, is_stack_kind, OperandConstraint}
use cretonne.RegAlloc.Affinity.{Affinity, is_reg, shrink, merge}

shrink_lem :
    (wanted : RegClass) (i : ℕ) (o : Option RegClass) (a : Affinity)
    → shrink wanted i o ≡ some a
    → is_reg a ≡ true
unfolding shrink is_reg
shrink_lem wanted i none a e = cc
shrink_lem wanted i (some preferred) a e = ground arith

settled :
    (b : Bool) (i : ℕ) (o : Option Affinity) (a : Affinity)
    → (o ≡ some a → is_reg a ≡ true)
    → (if b then some (Affinity.reg i) else o) ≡ some a
    → is_reg a ≡ true
unfolding is_reg
settled true i o a h e = ground arith
settled false i o a h e = h e

-- Merging a constraint into a register affinity leaves one, wherever it returns.
pub is_reg-merge :
    (classes : List RegClass) (i : ℕ) (c : OperandConstraint) (a : Affinity)
    → merge classes (Affinity.reg i) c ≡ some a
    → is_reg a ≡ true
unfolding merge
is_reg-merge classes i c a e =
    settled (is_stack_kind c.kind || has_subclass c.regclass i) i
      (shrink c.regclass i (rc classes i)) a (shrink_lem c.regclass i (rc classes i) a) e
