-- ===== src/Ir/Types/Laws.antt =====
-- What the operations on types do to lanes and bits. Facts about single types are tested for
-- every `u8`.

use cretonne.Prelude.{
  ℕ, zero, suc, ◌+◌, ◌*◌, ◌^◌, ◌<◌, ◌≤◌, ◌≡◌, ◌≢◌, refl, sym, ap, ◌∙◌, Bool, true, false, ◌||◌,
  ◌&&◌, not, Option, none, some, ◌==◌, ltb, leb, if◌then◌else◌, arith,
}
use cretonne.Prelude.Below.{all_below, all_below_lem}
use cretonne.Ir.Types.{
  ValueType, lane_type, log2_lane_bits, lane_bits, is_special, is_vector, is_bool, as_bool,
  as_bool_pedantic, half_width, double_width, log2_lane_count, lane_count, bits, bytes,
  trailing_zeros, is_power_of_two, by, half_vector, replace_lanes,
}

abbrev gives : Option ℕ → ℕ → Bool
gives none t = false
gives (some u) t = u == t

gives_lem : (o : Option ℕ) (t : ℕ) → gives o t ≡ true → o ≡ some t
gives_lem none t h = cc
gives_lem (some u) t h = ground arith

-- The test of a result, if there is one.
abbrev if_some : Option ℕ → (ℕ → Bool) → Bool
if_some none p = true
if_some (some u) p = p u

three_tests :
    (a : Bool) (x y u v : ℕ) → (a && ((x == y) && (u == v))) ≡ true → (a ≡ true) × (x ≡ y) × (u ≡ v)
three_tests a x y u v h = (ground arith, ground arith, ground arith)

-- The narrower type widens to the type, has as many lanes, and half the bits.
narrows : ValueType → ValueType → Bool
unfolding double_width lane_count bits
narrows t h = gives (double_width h) t && ((lane_count h == lane_count t) && (bits t == 2 * bits h))

test_narrows : all_below 256 (λ t. if_some (half_width t) (narrows t)) ≡ true
unfolding all_below narrows half_width double_width lane_count bits lane_bits lane_type
    replace_lanes log2_lane_count
test_narrows = refl

-- If a `u8` type has a half width, that type doubles to it, with the same lanes and half the bits.
pub double_width-half_width :
    (t h : ValueType)
    → t < 256
    → half_width t ≡ some h
    → (double_width h ≡ some t) × (lane_count h ≡ lane_count t) × (bits t ≡ 2 * bits h)
unfolding narrows
double_width-half_width t h lt e =
    let p = all_below_lem 256 (λ t. if_some (half_width t) (narrows t)) t test_narrows lt in
    let q : narrows t h ≡ true = rw e at p in
    let (a, b, c) =
      three_tests (gives (double_width h) t) (lane_count h) (lane_count t) (bits t) (2 * bits h)
        q in
    (gives_lem (double_width h) t a, b, c)

-- The bits of a type as an independent product.
sized : ValueType → Bool
unfolding lane_count bits bytes lane_bits log2_lane_bits
sized t =
    (bits t == lane_bits t * lane_count t)
    && (((lane_bits t == 0) || (lane_bits t == 2 ^ log2_lane_bits t))
        && ((lane_count t == 2 ^ log2_lane_count t) && leb (bits t) (bytes t * 8)))

test_sized : all_below 256 sized ≡ true
unfolding all_below sized bits bytes lane_bits lane_type log2_lane_bits lane_count log2_lane_count
test_sized = refl

-- For a `u8` type no `u16` overflows: the bits are the lanes' bits times the lane count, both
-- powers of two (or the lanes have none), and the bytes have room for them.
pub bits_lem :
    (t : ValueType)
    → t < 256
    → (bits t ≡ lane_bits t * lane_count t)
      × (lane_count t ≡ 2 ^ log2_lane_count t)
      × (lane_bits t ≢ 0 → lane_bits t ≡ 2 ^ log2_lane_bits t)
      × (bits t ≤ bytes t * 8)
unfolding sized
bits_lem t lt =
    let p = all_below_lem 256 sized t test_sized lt in
    (ground arith, ground arith, λ n. ground arith, ground arith)

-- A vector type has the lanes of its half, twice.
abbrev halves : ValueType → ValueType → Bool
halves t h =
    (lane_type h == lane_type t)
    && ((lane_count t == 2 * lane_count h) && ((lane_bits t == 0) || gives (by h 2) t))

test_halves : all_below 256 (λ t. if_some (half_vector t) (halves t)) ≡ true
unfolding all_below half_vector is_vector lane_bits lane_type lane_count log2_lane_count by
    trailing_zeros is_power_of_two
test_halves = refl

-- If a `u8` type has a half vector, that has the same lane type and half the lanes, and `by` with
-- 2 gives the vector back if its lanes have bits.
pub by-half_vector :
    (t h : ValueType)
    → t < 256
    → half_vector t ≡ some h
    → (lane_type h ≡ lane_type t)
      × (lane_count t ≡ 2 * lane_count h)
      × (lane_bits t ≢ 0 → by h 2 ≡ some t)
by-half_vector t h lt e =
    let p = all_below_lem 256 (λ t. if_some (half_vector t) (halves t)) t test_halves lt in
    let q : halves t h ≡ true = rw e at p in
    (ground arith, ground arith, λ n. gives_lem (by h 2) t (ground arith))

-- What `as_bool` promises of a type with lanes.
abbrev boolean : ValueType → Bool
boolean t =
    is_special t
    || ((lane_count (as_bool t) == lane_count t)
        && (is_bool (lane_type (as_bool t))
            && ((lane_bits t == 0) || (lane_bits (as_bool_pedantic t) == lane_bits t))))

test_boolean : all_below 256 boolean ≡ true
unfolding all_below is_special lane_count as_bool as_bool_pedantic is_vector is_bool lane_type
    lane_bits replace_lanes log2_lane_count
test_boolean = refl

-- `as_bool` keeps the lane count of a `u8` type that is not special and gives it Boolean lanes,
-- and `as_bool_pedantic` keeps the size of lanes that have bits.
pub as_bool_lem :
    (t : ValueType)
    → t < 256
    → is_special t ≡ false
    → (lane_count (as_bool t) ≡ lane_count t)
      × (is_bool (lane_type (as_bool t)) ≡ true)
      × (lane_bits t ≢ 0 → lane_bits (as_bool_pedantic t) ≡ lane_bits t)
as_bool_lem t lt e =
    let p = all_below_lem 256 boolean t test_boolean lt in
    (ground arith, ground arith, λ n. ground arith)

-- The number is the power of two of its trailing zeros.
power : (n : ℕ) → is_power_of_two n ≡ true → n ≡ 2 ^ trailing_zeros 16 n
unfolding is_power_of_two
power n h = ground arith

-- The lane types and counts are read off the number.
lane_type-add : (t k : ℕ) → 112 ≤ t → t + k * 16 < 256 → lane_type (t + k * 16) ≡ lane_type t
unfolding lane_type
lane_type-add t k low high = ground arith

log2_lane_count-add : (t k : ℕ) → 112 ≤ t → log2_lane_count (t + k * 16) ≡ log2_lane_count t + k
unfolding log2_lane_count
log2_lane_count-add t k low = omega arith

-- A type below the lanes has no lane bits.
lane_bits-low : (t : ℕ) → t < 112 → lane_bits t ≡ 0
unfolding lane_bits lane_type
lane_bits-low t low = ground arith

by_body :
    (b : ℕ) (p : Bool) (s r : ℕ)
    → (if (b == 0) || not p then none else if ltb s 256 then some s else none) ≡ some r
    → (b ≢ 0) × (p ≡ true) × (r ≡ s) × (r < 256)
by_body b p s r e = (ground arith, ground arith, ground arith, ground arith)

by_step :
    (t n r : ℕ)
    → by t n ≡ some r
    → (lane_bits t ≢ 0)
      × (is_power_of_two n ≡ true)
      × (r ≡ t + trailing_zeros 16 n * 16)
      × (r < 256)
unfolding by
by_step t n r e = by_body (lane_bits t) (is_power_of_two n) (t + trailing_zeros 16 n * 16) r e

pow_suc : (b : ℕ) → 2 ^ suc b ≡ 2 * 2 ^ b
pow_suc b = omega arith

pow_add : (a b : ℕ) → 2 ^ (a + b) ≡ 2 ^ b * 2 ^ a
pow_add a zero = let s : a + 0 ≡ a = omega arith in rw s (omega arith)
pow_add a (suc b) =
    let s : a + suc b ≡ suc (a + b) = omega arith in
    rw s (grind (arith, pow_suc (a + b), pow_suc b, pow_add a b))

-- Where `by` gives a type for a `u8` type and a factor, the new type has the same lane type and
-- the lanes times the factor.
pub lane_count-by :
    (t n r : ℕ)
    → t < 256
    → by t n ≡ some r
    → (lane_type r ≡ lane_type t) × (lane_count r ≡ n * lane_count t)
lane_count-by t n r lt e =
    let k = trailing_zeros 16 n in
    let (some_bits, is_power, r≡, high) = by_step t n r e in
    let low : 112 ≤ t = ground (arith, lane_bits-low t) in
    let high' : t + k * 16 < 256 = ground arith in
    let (_, counts, _, _) = bits_lem t lt in
    let (_, counts', _, _) = bits_lem r high in
    (
      rw r≡ (lane_type-add t k low high'),
      (counts'
          ∙ ap (λ x. 2 ^ log2_lane_count x) r≡
          ∙ ap (λ x. 2 ^ x) (log2_lane_count-add t k low)
          ∙ pow_add (log2_lane_count t) k
          ∙ ap (λ x. x * 2 ^ log2_lane_count t) (sym (power n is_power))
          ∙ ap (λ x. n * x) (sym counts)),
    )
