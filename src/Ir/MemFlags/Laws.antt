-- ===== src/Ir/MemFlags/Laws.antt =====
-- Setting and reading flags.
use cretonne.Prelude.{ℕ, ◌<◌, ◌≡◌, refl, Bool, true, false, not, ◌||◌, some, ◌==◌, arith}
use cretonne.Prelude.Below.{all_below, all_below_lem}
use cretonne.Ir.MemFlags.{FlagBit, MemFlags, index, name, read, set, set_by_name, position}

-- The same flag.
abbrev pub same : FlagBit → FlagBit → Bool
same a b = index a == index b

abbrev flags : ℕ → MemFlags
flags n = record { bits = n }

abbrev agree : Bool → Bool → Bool
agree true b = b
agree false b = not b

agree_lem : (a b : Bool) → agree a b ≡ true → a ≡ b
agree_lem true b h = ground arith
agree_lem false b h = ground arith

abbrev sets : FlagBit → FlagBit → ℕ → Bool
sets a b n = agree (read (set (flags n) a) b) (same a b || read (flags n) b)

test_sets : (a b : FlagBit) → all_below 256 (sets a b) ≡ true
unfolding all_below read set index
test_sets FlagBit.notrap FlagBit.notrap = refl
test_sets FlagBit.notrap FlagBit.aligned = refl
test_sets FlagBit.aligned FlagBit.notrap = refl
test_sets FlagBit.aligned FlagBit.aligned = refl

position-name : (b : FlagBit) → position (name b) ≡ some b
unfolding position name
position-name FlagBit.notrap = refl
position-name FlagBit.aligned = refl

-- Setting a flag of a `u8`, by itself or by its name, which is found, makes that flag read as set
-- and no other one.
pub read-set_by_name :
    (f : MemFlags) (a b : FlagBit)
    → f.bits < 256
    → (read (set f a) b ≡ (same a b || read f b)) × (set_by_name f (name a) ≡ (set f a, true))
unfolding set_by_name
read-set_by_name f a b lt = (
  agree_lem (read (set f a) b) (same a b || read f b)
      (all_below_lem 256 (sets a b) f.bits (test_sets a b) lt),
  rw (position-name a, set_by_name) refl,
)
