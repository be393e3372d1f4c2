-- ===== src/PackedOption/Tests.antt =====
-- Packed options of 32-bit entity references, whose reserved value is `u32::MAX`.
use cretonne.Prelude.{ℕ, ◌-◌, ◌^◌, ◌≡◌, refl, true, none, some, ◌==◌, ==_iff}
use cretonne.PackedOption.{ReservedValue, PackedOption, is_some, is_none, from, default, pack}

abbrev entity : ReservedValue ℕ
entity = record { eq = ◌==◌; eq_iff = ==_iff; reserved_value = 2 ^ 32 - 1 }

packs : (is_some entity (from entity (some 3)) ≡ true) × (is_none entity (from entity none) ≡ true)
unfolding is_some is_none from default pack
packs = (refl, refl)

abbrev three : PackedOption ℕ
three = record { value = 3 }
