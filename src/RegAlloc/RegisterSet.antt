-- ===== src/RegAlloc/RegisterSet.antt =====
-- lib/cretonne/src/regalloc/register_set.rs: the register units that are available, as bits of words of 32.
-- `none` is the panic of an index out of range. The mask of a class, which the build generates, is an
-- argument.
pub mod Units
mod Tests
use Prim.Native.Nat.{bit_and, bit_or}
use cretonne.Prelude.{
  ℕ, zero, suc, ◌+◌, ◌-◌, ◌*◌, ◌/◌, ◌%◌, ◌^◌, Bool, true, false, not, ◌||◌, ◌==◌, Option, none,
  some, List, [], ◌∷◌, get_elem?, set, if◌then◌else◌,
}
use cretonne.Prelude.Panic.{◌>>=◌}
use cretonne.Isa.Registers.{RegClass, lowest_bit}

pub record RegisterSet : Type 0 where
  pub avail : List ℕ

-- A shift of a `u32` by 32 or more is an overflow, which takes the lowest five bits of the number.
unfoldable pub bitmask : RegClass → ℕ → ℕ × ℕ
bitmask rc reg = (reg / 32, (2 ^ (rc.width % 32) - 1) * 2 ^ (reg % 32) % 2 ^ 32)

unfoldable pub new : RegisterSet
new = record { avail = (2 ^ 32 - 1) ∷ (2 ^ 32 - 1) ∷ (2 ^ 32 - 1) ∷ [] }

unfoldable pub empty : RegisterSet
empty = record { avail = 0 ∷ 0 ∷ 0 ∷ [] }

unfoldable pub is_avail : RegisterSet → RegClass → ℕ → Option Bool
unfolding bitmask
is_avail s rc reg =
    let (idx, bits) = bitmask rc reg in
    get_elem? s.avail idx >>= λ word. some (bit_and word bits == bits)

unfoldable pub take : RegisterSet → RegClass → ℕ → Option RegisterSet
unfolding bitmask
take s rc reg =
    let (idx, bits) = bitmask rc reg in
    get_elem? s.avail idx >>= λ word.
    some (record { avail = set s.avail idx (bit_and word (2 ^ 32 - 1 - bits)) })

unfoldable pub free : RegisterSet → RegClass → ℕ → Option RegisterSet
unfolding bitmask
free s rc reg =
    let (idx, bits) = bitmask rc reg in
    get_elem? s.avail idx >>= λ word. some (record { avail = set s.avail idx (bit_or word bits) })

-- `for i in 0..rc.width`, on one word.
unfoldable pub iter_word : ℕ → ℕ → ℕ → ℕ
iter_word zero word mask = mask
iter_word (suc i) word mask = bit_and (iter_word i word mask) (word / 2 ^ i)

unfoldable pub iter_words : ℕ → List ℕ → List ℕ → List ℕ
unfolding iter_word
iter_words width (word ∷ words) (mask ∷ masks) =
    iter_word width word mask ∷ iter_words width words masks
iter_words width _ masks = masks

unfoldable pub iter : RegisterSet → RegClass → List ℕ → List ℕ
unfolding iter_words
iter s rc mask = iter_words rc.width s.avail mask

-- `RegSetIter::next`, from the unit `unit_offset` on.
unfoldable pub next : ℕ → List ℕ → Option (ℕ × List ℕ)
unfolding lowest_bit
next unit_offset [] = none
next unit_offset (word ∷ words) = elim (word == 0) [
  | true ↦ next (unit_offset + 32) words >>= λ (unit, rest). some (unit, word ∷ rest)
  | false ↦ some (unit_offset + lowest_bit 32 word, bit_and word (word - 1) ∷ words)
]

unfoldable pub any_interferes : List ℕ → List ℕ → Bool
any_interferes (x ∷ xs) (y ∷ ys) = not (bit_or x y == 2 ^ 32 - 1) || any_interferes xs ys
any_interferes _ _ = false

unfoldable pub interferes_with : RegisterSet → RegisterSet → Bool
unfolding any_interferes
interferes_with s other = any_interferes s.avail other.avail

unfoldable pub zip_and : List ℕ → List ℕ → List ℕ
zip_and (x ∷ xs) (y ∷ ys) = bit_and x y ∷ zip_and xs ys
zip_and xs _ = xs

unfoldable pub intersect : RegisterSet → RegisterSet → RegisterSet
unfolding zip_and
intersect s other = record { avail = zip_and s.avail other.avail }
