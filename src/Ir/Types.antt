-- ===== src/Ir/Types.antt =====
-- lib/cretonne/src/ir/types.rs: the types of SSA values, each a `u8`. The numbers of the scalar
-- types are those that lib/cretonne/meta/base/types.py declares, in its order.
mod Tests
pub mod Laws
use cretonne.Prelude.{
  ℕ, zero, suc, ◌+◌, ◌-◌, ◌*◌, ◌/◌, ◌%◌, ◌^◌, Bool, true, false, ◌||◌, ◌&&◌, not, Option, none,
  some, ◌==◌, ltb, leb, if◌then◌else◌,
}

-- `Type(u8)`.
abbrev pub ValueType : Type 0
ValueType = ℕ

abbrev pub void : ValueType
void = 0

abbrev pub lane_base : ℕ
lane_base = 112

abbrev pub vector_base : ℕ
vector_base = lane_base + 16

abbrev pub iflags : ValueType
iflags = 1

abbrev pub fflags : ValueType
fflags = 2

abbrev pub b1 : ValueType
b1 = 112

abbrev pub b8 : ValueType
b8 = 113

abbrev pub b16 : ValueType
b16 = 114

abbrev pub b32 : ValueType
b32 = 115

abbrev pub b64 : ValueType
b64 = 116

abbrev pub i8 : ValueType
i8 = 117

abbrev pub i16 : ValueType
i16 = 118

abbrev pub i32 : ValueType
i32 = 119

abbrev pub i64 : ValueType
i64 = 120

abbrev pub f32 : ValueType
f32 = 121

abbrev pub f64 : ValueType
f64 = 122

-- The bits of `LANE_BASE` are above the low four.
unfoldable pub lane_type : ValueType → ValueType
lane_type t = if ltb t vector_base then t else lane_base + t % 16

unfoldable pub log2_lane_bits : ValueType → ℕ
unfolding lane_type
log2_lane_bits t =
    let l = lane_type t in
    if l == b1
    then 0
    else if (l == b8) || (l == i8)
    then 3
    else if (l == b16) || (l == i16)
    then 4
    else if (l == b32) || ((l == i32) || (l == f32))
    then 5
    else if (l == b64) || ((l == i64) || (l == f64))
    then 6
    else 0

unfoldable pub lane_bits : ValueType → ℕ
unfolding lane_type
lane_bits t =
    let l = lane_type t in
    if l == b1
    then 1
    else if (l == b8) || (l == i8)
    then 8
    else if (l == b16) || (l == i16)
    then 16
    else if (l == b32) || ((l == i32) || (l == f32))
    then 32
    else if (l == b64) || ((l == i64) || (l == f64))
    then 64
    else 0

unfoldable pub int : ℕ → Option ValueType
int n =
    if n == 8
    then some i8
    else if n == 16
    then some i16
    else if n == 32
    then some i32
    else if n == 64
    then some i64
    else none

-- The low four bits of the lane type, the high four of the type.
unfoldable pub replace_lanes : ValueType → ValueType → ValueType
replace_lanes t lane = lane % 16 + t / 16 * 16

unfoldable pub is_void : ValueType → Bool
is_void t = t == void

unfoldable pub is_special : ValueType → Bool
is_special t = ltb t lane_base

unfoldable pub is_lane : ValueType → Bool
is_lane t = leb lane_base t && ltb t vector_base

unfoldable pub is_vector : ValueType → Bool
is_vector t = leb vector_base t

unfoldable pub is_bool : ValueType → Bool
is_bool t = (t == b1) || ((t == b8) || ((t == b16) || ((t == b32) || (t == b64))))

unfoldable pub is_int : ValueType → Bool
is_int t = (t == i8) || ((t == i16) || ((t == i32) || (t == i64)))

unfoldable pub is_float : ValueType → Bool
is_float t = (t == f32) || (t == f64)

unfoldable pub is_flags : ValueType → Bool
is_flags t = (t == iflags) || (t == fflags)

unfoldable pub as_bool_pedantic : ValueType → ValueType
unfolding lane_type replace_lanes
as_bool_pedantic t =
    let l = lane_type t in
    replace_lanes t (
      if (l == b8) || (l == i8)
      then b8
      else if (l == b16) || (l == i16)
      then b16
      else if (l == b32) || ((l == i32) || (l == f32))
      then b32
      else if (l == b64) || ((l == i64) || (l == f64))
      then b64
      else b1)

unfoldable pub as_bool : ValueType → ValueType
unfolding is_vector as_bool_pedantic
as_bool t = if not (is_vector t) then b1 else as_bool_pedantic t

unfoldable pub half_width : ValueType → Option ValueType
unfolding lane_type replace_lanes
half_width t =
    let l = lane_type t in
    if l == i16
    then some (replace_lanes t i8)
    else if l == i32
    then some (replace_lanes t i16)
    else if l == i64
    then some (replace_lanes t i32)
    else if l == f64
    then some (replace_lanes t f32)
    else if l == b16
    then some (replace_lanes t b8)
    else if l == b32
    then some (replace_lanes t b16)
    else if l == b64
    then some (replace_lanes t b32)
    else none

unfoldable pub double_width : ValueType → Option ValueType
unfolding lane_type replace_lanes
double_width t =
    let l = lane_type t in
    if l == i8
    then some (replace_lanes t i16)
    else if l == i16
    then some (replace_lanes t i32)
    else if l == i32
    then some (replace_lanes t i64)
    else if l == f32
    then some (replace_lanes t f64)
    else if l == b8
    then some (replace_lanes t b16)
    else if l == b16
    then some (replace_lanes t b32)
    else if l == b32
    then some (replace_lanes t b64)
    else none

-- `-` on ℕ is the saturating subtraction.
unfoldable pub log2_lane_count : ValueType → ℕ
log2_lane_count t = (t - lane_base) / 16

unfoldable pub lane_count : ValueType → ℕ
unfolding log2_lane_count
lane_count t = 2 ^ log2_lane_count t % 2 ^ 16

unfoldable pub bits : ValueType → ℕ
unfolding lane_bits lane_count
bits t = lane_bits t * lane_count t % 2 ^ 16

unfoldable pub bytes : ValueType → ℕ
unfolding bits
bytes t = (bits t + 7) / 8

-- `trailing_zeros` of a number below `2 ^ fuel`.
unfoldable pub trailing_zeros : ℕ → ℕ → ℕ
trailing_zeros zero n = 0
trailing_zeros (suc fuel) n = if n % 2 == 1 then 0 else suc (trailing_zeros fuel (n / 2))

unfoldable pub is_power_of_two : ℕ → Bool
unfolding trailing_zeros
is_power_of_two n = n == 2 ^ trailing_zeros 16 n

unfoldable pub by : ValueType → ℕ → Option ValueType
unfolding lane_bits is_power_of_two trailing_zeros
by t n =
    if (lane_bits t == 0) || not (is_power_of_two n)
    then none
    else (let new_type = t + trailing_zeros 16 n * 16 in
        if ltb new_type 256 then some new_type else none)

unfoldable pub half_vector : ValueType → Option ValueType
unfolding is_vector
half_vector t = if is_vector t then some (t - 16) else none

unfoldable pub wider_or_equal : ValueType → ValueType → Bool
unfolding lane_count lane_bits
wider_or_equal t u = (lane_count t == lane_count u) && leb (lane_bits u) (lane_bits t)
