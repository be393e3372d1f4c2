-- ===== src/RegAlloc/Diversion/Tests.antt =====
-- `RegDiversions` on small inputs.
use cretonne.Prelude.{◌≡◌, refl, List, [], ◌∷◌, arith}
use cretonne.Prelude.Swap.{swap_remove}
use cretonne.Entity.Map
use cretonne.Entity.Map.{EntityMap}
use cretonne.Ir.ValueLoc.{ValueLoc, loc_eq}
use cretonne.RegAlloc.Diversion.{get, diversion, position, divert, Instruction, apply}
use cretonne.RegAlloc.Diversion.Valid.{IsValid, empty-IsValid}
use cretonne.RegAlloc.Diversion.Apply.{AllFit, apply_all, place, place_all, apply_all_refines}

-- Value 1 in register 10, value 2 in register 11.
abbrev places : EntityMap ValueLoc
places = record {
  elems = ValueLoc.unassigned ∷ ValueLoc.reg 10 ∷ ValueLoc.reg 11 ∷ [];
  default = ValueLoc.unassigned;
}

abbrev moves : List Instruction
moves =
    Instruction.reg_move 1 10 12
    ∷ Instruction.reg_spill 2 11 0
    ∷ Instruction.reg_move 1 12 13
    ∷ Instruction.reg_fill 2 0 11
    ∷ []

-- The value that came home has no diversion left.
after : apply_all moves [] ≡ record { value = 1; from = ValueLoc.reg 10; to = ValueLoc.reg 13 } ∷ []
unfolding apply_all apply divert position loc_eq swap_remove
after = refl

moves_fit : AllFit moves (get [] places)
unfolding get diversion Map.index place
moves_fit = ((refl, omega arith), (refl, ((refl, omega arith), (refl, tt))))

apply_all_refines_example :
    IsValid places (apply_all moves [])
    × (get (apply_all moves []) places ≡ place_all moves (get [] places))
apply_all_refines_example = apply_all_refines places moves [] (empty-IsValid places) moves_fit
