-- ===== src/RegAlloc/Diversion/Apply.antt =====
-- A sequence of register moves, spills and fills against a function from values to places.
use cretonne.Prelude.{ℕ, ◌≡◌, ◌≢◌, refl, List, [], ◌∷◌, ◌==◌, if◌then◌else◌, fun_ext}
use cretonne.Entity.Map.{EntityMap}
use cretonne.Ir.ValueLoc.{ValueLoc}
use cretonne.RegAlloc.Diversion.{RegDiversions, get, regmove, regspill, regfill, Instruction, apply}
use cretonne.RegAlloc.Diversion.Valid.{IsValid, divert-IsValid}
use cretonne.RegAlloc.Diversion.Laws.{get-divert}

-- The places of values, changed at one value.
abbrev update : (ℕ → ValueLoc) → ℕ → ValueLoc → ℕ → ValueLoc
update f v to w = if w == v then to else f w

-- What an instruction means for the places.
unfoldable pub place : Instruction → (ℕ → ValueLoc) → ℕ → ValueLoc
place (Instruction.reg_move v src dst) f = update f v (ValueLoc.reg dst)
place (Instruction.reg_spill v src dst) f = update f v (ValueLoc.stack dst)
place (Instruction.reg_fill v src dst) f = update f v (ValueLoc.reg dst)
place Instruction.other f = f

-- The instruction starts where the value is, and goes somewhere else.
abbrev pub Fits : Instruction → (ℕ → ValueLoc) → Type 0
Fits (Instruction.reg_move v src dst) f = (f v ≡ ValueLoc.reg src) × (src ≢ dst)
Fits (Instruction.reg_spill v src dst) f = f v ≡ ValueLoc.reg src
Fits (Instruction.reg_fill v src dst) f = f v ≡ ValueLoc.stack src
Fits Instruction.other f = Unit

abbrev pub AllFit : List Instruction → (ℕ → ValueLoc) → Type 0
AllFit [] f = Unit
AllFit (i ∷ is) f = Fits i f × AllFit is (place i f)

unfoldable pub apply_all : List Instruction → RegDiversions → RegDiversions
apply_all [] ds = ds
apply_all (i ∷ is) ds = apply_all is (apply ds i)

pub place_all : List Instruction → (ℕ → ValueLoc) → ℕ → ValueLoc
place_all [] f = f
place_all (i ∷ is) f = place_all is (place i f)

module _ (locations : EntityMap ValueLoc) where
  pub apply_lem :
      (i : Instruction) (ds : RegDiversions)
      → IsValid locations ds
      → Fits i (get ds locations)
      → IsValid locations (apply ds i) × (get (apply ds i) locations ≡ place i (get ds locations))
  unfolding apply regmove regspill regfill place
  apply_lem (Instruction.reg_move v src dst) ds h (here, moves) =
      let differ : ValueLoc.reg src ≢ ValueLoc.reg dst = λ e. moves (cc) in
      (
        divert-IsValid locations ds v _ _ h here differ,
        fun_ext λ w. get-divert locations ds v w _ _ h here differ,
      )
  apply_lem (Instruction.reg_spill v src dst) ds h here =
      let differ : ValueLoc.reg src ≢ ValueLoc.stack dst = λ e. cc in
      (
        divert-IsValid locations ds v _ _ h here differ,
        fun_ext λ w. get-divert locations ds v w _ _ h here differ,
      )
  apply_lem (Instruction.reg_fill v src dst) ds h here =
      let differ : ValueLoc.stack src ≢ ValueLoc.reg dst = λ e. cc in
      (
        divert-IsValid locations ds v _ _ h here differ,
        fun_ext λ w. get-divert locations ds v w _ _ h here differ,
      )
  apply_lem Instruction.other ds h here = (h, refl)

  -- From valid diversions, over any instructions each of which starts where its value is at that
  -- point, and each `reg_move` of which goes to another register than it starts from, the diversions
  -- stay valid, and `get` reads the places that the instructions lead to.
  pub apply_all_refines :
      (is : List Instruction) (ds : RegDiversions)
      → IsValid locations ds
      → AllFit is (get ds locations)
      → IsValid locations (apply_all is ds)
        × (get (apply_all is ds) locations ≡ place_all is (get ds locations))
  unfolding apply_all place_all
  apply_all_refines [] ds h fit = (h, refl)
  apply_all_refines (i ∷ is) ds h fit =
      let (valid, e) = apply_lem i ds h fit.0 in
      rw (← e) (apply_all_refines is (apply ds i) valid (rw e fit.1))
