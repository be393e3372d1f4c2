-- ===== src/RegAlloc/Affinity/Tests.antt =====
-- Affinities of a target with a class, a subclass of it, and another class.
use cretonne.Prelude.{◌≡◌, refl, List, [], ◌∷◌, some}
use cretonne.Isa.Registers.{
  RegClass, ConstraintKind, OperandConstraint, intersect_index, has_subclass, rc, lowest_bit,
  is_stack_kind, unit,
}
use cretonne.RegAlloc.Affinity.{Affinity, new, shrink, merge}

abbrev general : RegClass
general = record { index = 0; width = 1; toprc = 0; first = 0; subclasses = 5 }

abbrev float : RegClass
float = record { index = 1; width = 2; toprc = 1; first = 16; subclasses = 2 }

abbrev low : RegClass
low = record { index = 2; width = 1; toprc = 0; first = 0; subclasses = 4 }

abbrev classes : List RegClass
classes = general ∷ float ∷ low ∷ []

abbrev in_class : RegClass → OperandConstraint
in_class c = record { kind = ConstraintKind.reg; regclass = c }

-- The class shrinks to the subclass, and keeps to itself where there is no overlap.
merges :
    (merge classes Affinity.ghost (in_class low) ≡ some (Affinity.reg 2))
    × (merge classes (Affinity.reg 0) (in_class low) ≡ some (Affinity.reg 2))
    × (merge classes (Affinity.reg 2) (in_class general) ≡ some (Affinity.reg 2))
    × (merge classes (Affinity.reg 0) (in_class float) ≡ some (Affinity.reg 0))
    × (unit float 3 ≡ 22)
unfolding merge new shrink intersect_index has_subclass rc lowest_bit is_stack_kind unit
merges = (refl, refl, refl, refl, refl)
