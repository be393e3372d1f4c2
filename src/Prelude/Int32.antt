-- ===== src/Prelude/Int32.antt =====
-- `i32` arithmetic on integers: checked sums, casts from and to `u32`, and `&` of the two's complements.
use Prim.Native.Nat.{bit_and}
use cretonne.Prelude.{ℕ, ◌-◌, ◌^◌, Bool, ◌&&◌, ltb, Option, none, some, if◌then◌else◌}
use cretonne.Prelude.Int.{ℤ, pos, negsuc, ◌+ℤ◌, ◌-ℤ◌, leb_ℤ}

abbrev pub in_i32 : ℤ → Bool
in_i32 a = leb_ℤ (negsuc (2 ^ 31 - 1)) a && leb_ℤ a (pos (2 ^ 31 - 1))

unfoldable pub checked_add : ℤ → ℤ → Option ℤ
unfolding ◌+ℤ◌
checked_add a b = if in_i32 (a +ℤ b) then some (a +ℤ b) else none

unfoldable pub checked_sub : ℤ → ℤ → Option ℤ
unfolding ◌-ℤ◌
checked_sub a b = if in_i32 (a -ℤ b) then some (a -ℤ b) else none

-- The casts, of values in range.
abbrev pub as_u32 : ℤ → ℕ
as_u32 (pos n) = n
as_u32 (negsuc n) = 2 ^ 32 - 1 - n

abbrev pub as_i32 : ℕ → ℤ
as_i32 n = if ltb n (2 ^ 31) then pos n else negsuc (2 ^ 32 - 1 - n)

unfoldable pub and_i32 : ℤ → ℤ → ℤ
and_i32 a b = as_i32 (bit_and (as_u32 a) (as_u32 b))

unfoldable pub neg_i32 : ℤ → ℤ
unfolding ◌-ℤ◌
neg_i32 a = pos 0 -ℤ a

abbrev pub min_ℤ : ℤ → ℤ → ℤ
min_ℤ a b = if leb_ℤ a b then a else b

abbrev pub max_ℤ : ℤ → ℤ → ℤ
max_ℤ a b = if leb_ℤ a b then b else a
