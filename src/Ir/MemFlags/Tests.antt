-- ===== src/Ir/MemFlags/Tests.antt =====
-- Flags set one after the other.
use cretonne.Prelude.{◌≡◌, refl, false, [], ◌∷◌}
use cretonne.Ir.MemFlags.{
  FlagBit, MemFlags, new, index, name, read, set, set_by_name, position, written,
}

abbrev aligned_only : MemFlags
aligned_only = record { bits = 2 }

prints :
    (set new FlagBit.aligned ≡ aligned_only)
    × (written aligned_only ≡ "aligned" ∷ [])
    × (set_by_name new "volatile" ≡ (new, false))
unfolding new set index written read name set_by_name position
prints = (refl, refl, refl)
