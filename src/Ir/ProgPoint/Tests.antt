-- ===== src/Ir/ProgPoint/Tests.antt =====
-- Program points of small entity numbers.
use cretonne.Prelude.{◌≡◌, refl, arith, some, none}
use cretonne.Ir.ProgPoint.{point, from_inst, from_ebb, expand, unwrap_inst}
use cretonne.Ir.ProgPoint.Laws.{pack, pack-expand}

points : (from_inst 5 ≡ point 10) × (from_ebb 3 ≡ point 7)
unfolding from_inst from_ebb
points = (refl, refl)

unwraps : (unwrap_inst (expand (point 10)) ≡ some 5) × (unwrap_inst (expand (point 7)) ≡ none)
unfolding unwrap_inst expand
unwraps = (refl, refl)

pack-expand_example : pack (expand (point 7)) ≡ point 7
pack-expand_example = pack-expand 7 (omega arith)
