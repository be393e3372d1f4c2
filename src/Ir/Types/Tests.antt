-- ===== src/Ir/Types/Tests.antt =====
-- Operations on single types.
use cretonne.Prelude.{ℕ, ◌≡◌, refl, true, none, some}
use cretonne.Ir.Types.{
  lane_type, lane_bits, is_void, is_lane, is_vector, is_float, is_flags, as_bool, log2_lane_count,
  lane_count, bits, by, wider_or_equal, trailing_zeros, is_power_of_two, void, iflags, b1, i8, i16,
  i32, i64, f32,
}

-- `i32x4`.
abbrev i32x4 : ℕ
i32x4 = 151

vectors :
    (by i32 4 ≡ some i32x4)
    × (by i32 3 ≡ none)
    × (by iflags 2 ≡ none)
    × (by i32 512 ≡ none)
    × (lane_type i32x4 ≡ i32)
    × (bits i32x4 ≡ 128)
unfolding by lane_bits lane_type is_power_of_two trailing_zeros bits lane_count log2_lane_count
vectors = (refl, refl, refl, refl, refl, refl)

kinds :
    (is_void void ≡ true)
    × (is_lane i8 ≡ true)
    × (is_vector i32x4 ≡ true)
    × (is_float f32 ≡ true)
    × (is_flags iflags ≡ true)
    × (wider_or_equal i64 f32 ≡ true)
    × (as_bool i16 ≡ b1)
unfolding is_void is_lane is_vector is_float is_flags wider_or_equal lane_count lane_bits lane_type
    log2_lane_count as_bool
kinds = (refl, refl, refl, refl, refl, refl, refl)
