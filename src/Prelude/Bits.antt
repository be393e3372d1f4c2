-- ===== src/Prelude/Bits.antt =====
-- `&` and `|` of binary digits as arithmetic, at every width.
use Prim.Native.Nat.{digits, bit_and, bit_or, bit_and-bitwise, bit_or-bitwise}
use native.Mathlib.Decide.{dec_lt}
use native.Mathlib.Nat.{
  pow-suc, one-le-pow, add-mul-mod_self_left, mod-eq_of_lt, mod-lt, mod-add-div, mod_self,
}
use cretonne.Prelude.{
  ℕ, zero, suc, Bool, true, ltb, ◌&&◌, not, ◌+◌, ◌-◌, ◌*◌, ◌/◌, ◌%◌, ◌^◌, ◌≤◌, ◌<◌, min, max, ◌≡◌,
  refl, sym, ap, ◌∙◌, arith,
}

-- Fuel beyond the first number's size makes no difference.
digits_extra :
    (z : ℕ → ℕ) (f : ℕ → ℕ → ℕ) (m n a b : ℕ) → a ≤ m → m ≤ n → digits z f n a b ≡ digits z f m a b
digits_extra z f zero zero zero b le le' = refl
digits_extra z f zero (suc n) zero b le le' = refl
digits_extra z f zero n (suc a) b le le' = absurd (omega arith)
digits_extra z f (suc m) zero a b le le' = absurd (omega arith)
digits_extra z f (suc m) (suc n) zero b le le' = refl
digits_extra z f (suc m) (suc n) (suc a) b le le' =
    ap (λ t. t * 2 + f (suc a % 2) (b % 2))
      (digits_extra z f m n (suc a / 2) (b / 2) (omega arith) (omega arith))

pub bit_and-halves : (a b : ℕ) → bit_and a b ≡ bit_and (a / 2) (b / 2) * 2 + min (a % 2) (b % 2)
bit_and-halves zero b = simp bit_and-bitwise (omega arith)
bit_and-halves (suc a) b = simp bit_and-bitwise (
    ap (λ t. t * 2 + min (suc a % 2) (b % 2))
      (digits_extra (λ _. 0) min (suc a / 2) a (suc a / 2) (b / 2) (omega arith) (omega arith)))

pub bit_or-halves : (a b : ℕ) → bit_or a b ≡ bit_or (a / 2) (b / 2) * 2 + max (a % 2) (b % 2)
bit_or-halves zero b = simp bit_or-bitwise (omega arith)
bit_or-halves (suc a) b = simp bit_or-bitwise (
    ap (λ t. t * 2 + max (suc a % 2) (b % 2))
      (digits_extra (λ y. y) max (suc a / 2) a (suc a / 2) (b / 2) (omega arith) (omega arith)))

-- The digits of a remainder by 2 m: those of the half by m, then the last.
mod_halves : (a m : ℕ) → 0 < m → a / 2 % m * 2 + a % 2 ≡ a % (2 * m)
mod_halves a m pos =
    let r = a / 2 % m in
    let whole : a ≡ r * 2 + a % 2 + 2 * m * (a / 2 / m) = omega (arith, mod-add-div (a / 2) m) in
    let small = mod-lt (a / 2) {m = m} pos in
    sym (
      ap (λ z. z % (2 * m)) whole
      ∙ add-mul-mod_self_left (r * 2 + a % 2) (2 * m) (a / 2 / m)
      ∙ mod-eq_of_lt (omega arith))

pub mod_pow-suc : (a k : ℕ) → a % 2 ^ suc k ≡ a / 2 % 2 ^ k * 2 + a % 2
mod_pow-suc a k =
    let e = pow-suc 2 k in
    let double : 2 ^ suc k ≡ 2 * 2 ^ k = omega arith in
    ap (λ z. a % z) double ∙ sym (mod_halves a (2 ^ k) (omega (arith, one-le-pow k 2)))

pub bit_and-zero : (n a : ℕ) → a ≤ n → bit_and a 0 ≡ 0
bit_and-zero zero zero le = refl
bit_and-zero zero (suc a) le = absurd (omega arith)
bit_and-zero (suc n) a le = elim (dec_lt 0 a) [
  | yes pos ↦ ground (arith, bit_and-halves a 0, bit_and-zero n (a / 2) (omega arith))
  | no none_left ↦ let e : a ≡ 0 = omega arith in rw e refl
]

-- A mask of k low digits.
pub bit_and_low : (k a : ℕ) → bit_and a (2 ^ k - 1) ≡ a % 2 ^ k
bit_and_low zero a = omega (arith, bit_and-zero a a (omega arith))
bit_and_low (suc k) a =
    let half : (2 ^ suc k - 1) / 2 ≡ 2 ^ k - 1 = omega (arith, pow-suc 2 k, one-le-pow k 2) in
    let last : (2 ^ suc k - 1) % 2 ≡ 1 = omega (arith, pow-suc 2 k, one-le-pow k 2) in
    let least : min (a % 2) 1 ≡ a % 2 = ground arith in
    bit_and-halves a (2 ^ suc k - 1)
    ∙ rw (half, last, least, bit_and_low k (a / 2), mod_pow-suc a k) refl

sum_suc : (j d : ℕ) → suc j + d ≡ suc (j + d)
sum_suc j d = omega arith

-- A mask of all but j low digits, among w.
pub bit_and_high : (j d a : ℕ) → a < 2 ^ (j + d) → bit_and a (2 ^ (j + d) - 2 ^ j) + a % 2 ^ j ≡ a
bit_and_high zero d a lt =
    let e : 2 ^ (0 + d) ≡ 2 ^ d = ap (λ z. 2 ^ z) (omega arith) in
    let same : bit_and a (2 ^ (0 + d) - 2 ^ 0) ≡ bit_and a (2 ^ d - 1) =
      ap (bit_and a) (omega (arith, e)) in
    omega (arith, e, same, bit_and_low d a, mod-eq_of_lt {n = a} {m = 2 ^ d} (omega arith))
bit_and_high (suc j) d a lt =
    let e = pow-suc 2 j in
    let e' : 2 ^ (suc j + d) ≡ 2 * 2 ^ (j + d) =
      ap (λ z. 2 ^ z) (sum_suc j d) ∙ omega (arith, pow-suc 2 (j + d)) in
    let half : (2 ^ (suc j + d) - 2 ^ suc j) / 2 ≡ 2 ^ (j + d) - 2 ^ j = omega arith in
    let last : (2 ^ (suc j + d) - 2 ^ suc j) % 2 ≡ 0 = omega arith in
    let least : min (a % 2) 0 ≡ 0 = ground arith in
    let shorter = bit_and_high j d (a / 2) (omega arith) in
    rw (bit_and-halves a (2 ^ (suc j + d) - 2 ^ suc j), half, last, least, mod_pow-suc a j)
      (omega arith)

pub bit_or_lt : (w a b : ℕ) → a < 2 ^ w → b < 2 ^ w → bit_or a b < 2 ^ w
bit_or_lt zero a b lt lt' =
    let e : a ≡ 0 = omega arith in let e' : b ≡ 0 = omega arith in rw (e, e') (omega arith)
bit_or_lt (suc w) a b lt lt' = ground (
  arith,
  pow-suc 2 w,
  bit_or-halves a b,
  bit_or_lt w (a / 2) (b / 2) (omega (arith, pow-suc 2 w)) (omega (arith, pow-suc 2 w)),
)

pub bit_and_lt : (w a b : ℕ) → a < 2 ^ w → bit_and a b < 2 ^ w
bit_and_lt zero a b lt = let e : a ≡ 0 = omega arith in rw e (simp bit_and-bitwise (omega arith))
bit_and_lt (suc w) a b lt = ground (
  arith,
  pow-suc 2 w,
  bit_and-halves a b,
  bit_and_lt w (a / 2) (b / 2) (omega (arith, pow-suc 2 w)),
)

-- A number and its complement have no digit in common.
complement_disjoint : (w a : ℕ) → a < 2 ^ w → bit_and a (2 ^ w - 1 - a) ≡ 0
complement_disjoint zero a lt = let e : a ≡ 0 = omega arith in rw e refl
complement_disjoint (suc w) a lt =
    let e = pow-suc 2 w in
    let half : (2 ^ suc w - 1 - a) / 2 ≡ 2 ^ w - 1 - a / 2 = omega arith in
    let last : min (a % 2) ((2 ^ suc w - 1 - a) % 2) ≡ 0 = ground arith in
    bit_and-halves a (2 ^ suc w - 1 - a)
    ∙ rw (half, last, complement_disjoint w (a / 2) (omega arith)) refl

-- `x & -x` of an odd number, and of an even one.
pub negate_odd : (w a : ℕ) → a < 2 ^ suc w → a % 2 ≡ 1 → bit_and a (2 ^ suc w - a) ≡ 1
negate_odd w a lt odd =
    let e = pow-suc 2 w in
    let half : (2 ^ suc w - a) / 2 ≡ 2 ^ w - 1 - a / 2 = omega arith in
    let last : min (a % 2) ((2 ^ suc w - a) % 2) ≡ 1 = ground arith in
    bit_and-halves a (2 ^ suc w - a)
    ∙ rw (half, last, complement_disjoint w (a / 2) (omega arith)) refl

pub negate_even :
    (w a : ℕ)
    → a < 2 ^ suc w
    → a % 2 ≡ 0
    → bit_and a (2 ^ suc w - a) ≡ bit_and (a / 2) (2 ^ w - a / 2) * 2
negate_even w a lt even =
    let e = pow-suc 2 w in
    let half : (2 ^ suc w - a) / 2 ≡ 2 ^ w - a / 2 = omega arith in
    let last : min (a % 2) ((2 ^ suc w - a) % 2) ≡ 0 = ground arith in
    bit_and-halves a (2 ^ suc w - a) ∙ rw (half, last) (omega arith)

pub le-bit_or : (w a b : ℕ) → b < 2 ^ w → b ≤ bit_or a b
le-bit_or zero a b lt = let e : b ≡ 0 = omega arith in rw e (omega arith)
le-bit_or (suc w) a b lt = ground (
  arith,
  pow-suc 2 w,
  bit_or-halves a b,
  le-bit_or w (a / 2) (b / 2) (omega (arith, pow-suc 2 w)),
)

pub bit_or-zero : (n a : ℕ) → a ≤ n → bit_or a 0 ≡ a
bit_or-zero zero a le = let e : a ≡ 0 = omega arith in rw e refl
bit_or-zero (suc n) a le = elim (dec_lt 0 a) [
  | yes pos ↦ ground (arith, bit_or-halves a 0, bit_or-zero n (a / 2) (omega arith))
  | no none_left ↦ let e : a ≡ 0 = omega arith in rw e refl
]

pub bit_or_half : (a b : ℕ) → bit_or a b / 2 ≡ bit_or (a / 2) (b / 2)
bit_or_half a b = ground (arith, bit_or-halves a b)

-- `is_power_of_two` of an unsigned integer.
unfoldable pub is_power_of_two : ℕ → Bool
is_power_of_two n = ltb 0 n && not (ltb 0 (bit_and n (n - 1)))

pub pow-is_power_of_two : (k : ℕ) → is_power_of_two (2 ^ k) ≡ true
unfolding is_power_of_two
pow-is_power_of_two k =
    let pos = one-le-pow k 2 in
    let clear : bit_and (2 ^ k) (2 ^ k - 1) ≡ 0 = bit_and_low k (2 ^ k) ∙ mod_self (2 ^ k) in
    ground arith
