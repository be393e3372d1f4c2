-- ===== src/RegAlloc/RegisterSet/Tests.antt =====
-- The register classes of the source's tests.
use cretonne.Prelude.{
  ℕ, zero, suc, ◌≡◌, ◌<◌, ◌^◌, refl, Bool, true, false, not, ◌&&◌, none, some, get_elem?, List, [],
  ◌∷◌, arith,
}
use cretonne.Prelude.Panic.{◌>>=◌}
use cretonne.Isa.Registers.{RegClass}
use cretonne.RegAlloc.RegisterSet.{
  RegisterSet, new, is_avail, take, iter, next, interferes_with, intersect,
}
use cretonne.RegAlloc.RegisterSet.Units.{IsWords, available, covers, is_avail_iff, take_lem}

abbrev gpr : RegClass
gpr = record { index = 0; width = 1; toprc = 0; first = 28; subclasses = 0 }

abbrev dpr : RegClass
dpr = record { index = 0; width = 2; toprc = 0; first = 28; subclasses = 0 }

abbrev dpr_mask : List ℕ
dpr_mask = 0x50000000 ∷ 0x0000000a ∷ 0 ∷ []

-- Every register that the iterator gives, at most `fuel`.
collect : ℕ → List ℕ → List ℕ
unfolding next
collect zero words = []
collect (suc fuel) words = elim (next 0 words) [
  | none ↦ []
  | some (unit, rest) ↦ unit ∷ collect fuel rest
]

pairs_left :
    (take new gpr 29 >>= λ s. some (collect 10 (iter s dpr dpr_mask))) ≡ some (30 ∷ 33 ∷ 35 ∷ [])
unfolding new take iter collect
pairs_left = refl

interference :
    (take new gpr 32 >>= λ a.
    take new gpr 31 >>= λ b. some (interferes_with a b ∷ interferes_with (intersect a b) b ∷ []))
    ≡ some (false ∷ true ∷ [])
unfolding new take interferes_with intersect
interference = refl

new-IsWords : IsWords new
unfolding new
new-IsWords = record { three = refl; words = bounds }
  where
    bounds : (i w : ℕ) → get_elem? new.avail i ≡ some w → w < 2 ^ 32
    bounds zero w at = ground arith
    bounds (suc zero) w at = ground arith
    bounds (suc (suc zero)) w at = ground arith
    bounds (suc (suc (suc i))) w at = absurd (ground arith)

is_avail_iff_example :
    (b : Bool) × (is_avail new dpr 33 ≡ some b)
    × ((b ≡ true) → (u : ℕ) → covers dpr 33 u ≡ true → available new u ≡ true)
    × (((u : ℕ) → covers dpr 33 u ≡ true → available new u ≡ true) → b ≡ true)
is_avail_iff_example = is_avail_iff dpr 33 (omega arith) (omega arith) (omega arith) new new-IsWords

dpr_avail : is_avail new dpr 33 ≡ some true
unfolding new is_avail
dpr_avail = refl

take_lem_example :
    (s' : RegisterSet) × (take new dpr 33 ≡ some s')
    × ((u : ℕ) → available s' u ≡ (available new u && not (covers dpr 33 u)))
    × IsWords s'
take_lem_example =
    take_lem dpr 33 (omega arith) (omega arith) (omega arith) new new-IsWords dpr_avail
