-- ===== src/Prelude/Digits.antt =====
-- The binary digits of a number, through `&` and `|` with one bit.
use Prim.Native.Nat.{bit_and, bit_or}
use native.Mathlib.Nat.{pow-suc, one-le-pow, div-div-eq-div-mul}
use cretonne.Prelude.{
  ℕ, zero, suc, ◌-◌, ltb, ◌+◌, ◌*◌, ◌/◌, ◌%◌, ◌^◌, ◌<◌, ◌≡◌, refl, sym, ap, ◌∙◌, min, max, ◌==◌,
  if◌then◌else◌, arith,
}
use cretonne.Prelude.Bits.{
  mod_pow-suc, bit_and-halves, bit_or-halves, bit_and-zero, bit_or-zero, bit_or_half,
}

abbrev pub digit : ℕ → ℕ → ℕ
digit zero b = b % 2
digit (suc i) b = digit i (b / 2)

pub digit-zero : (i : ℕ) → digit i 0 ≡ 0
digit-zero zero = refl
digit-zero (suc i) = digit-zero i

pub digit_lt : (i b : ℕ) → digit i b < 2
digit_lt zero b = omega arith
digit_lt (suc i) b = digit_lt i (b / 2)

pub bit_and-pow : (i b : ℕ) → bit_and b (2 ^ i) ≡ digit i b * 2 ^ i
bit_and-pow zero b = ground (arith, bit_and-halves b 1, bit_and-zero (b / 2) (b / 2) (omega arith))
bit_and-pow (suc i) b =
    let e = pow-suc 2 i in
    let half : 2 ^ suc i / 2 ≡ 2 ^ i = omega arith in
    let last : min (b % 2) (2 ^ suc i % 2) ≡ 0 = ground arith in
    bit_and-halves b (2 ^ suc i) ∙ rw (half, last, bit_and-pow i (b / 2), pow-suc 2 i) (omega arith)

pub digit-bit_or : (j i b : ℕ) → digit j (bit_or b (2 ^ i)) ≡ (if j == i then 1 else digit j b)
digit-bit_or zero zero b = ground (arith, bit_or-halves b 1)
digit-bit_or zero (suc i) b = ground (arith, bit_or-halves b (2 ^ suc i), pow-suc 2 i)
digit-bit_or (suc j) zero b =
    let half : bit_or b 1 / 2 ≡ b / 2 =
      ground (arith, bit_or-halves b 1, bit_or-zero (b / 2) (b / 2) (omega arith)) in
    ap (digit j) half ∙ ground arith
digit-bit_or (suc j) (suc i) b =
    let e = pow-suc 2 i in
    let half : bit_or b (2 ^ suc i) / 2 ≡ bit_or (b / 2) (2 ^ i) =
      bit_or_half b (2 ^ suc i) ∙ ap (bit_or (b / 2)) (omega arith) in
    ap (digit j) half ∙ digit-bit_or j i (b / 2) ∙ ground arith

pub digit-bit_and : (j a b : ℕ) → digit j (bit_and a b) ≡ min (digit j a) (digit j b)
digit-bit_and zero a b = ground (arith, bit_and-halves a b)
digit-bit_and (suc j) a b =
    let half : bit_and a b / 2 ≡ bit_and (a / 2) (b / 2) = ground (arith, bit_and-halves a b) in
    ap (digit j) half ∙ digit-bit_and j (a / 2) (b / 2)

pub digit-bit_or-max : (j a b : ℕ) → digit j (bit_or a b) ≡ max (digit j a) (digit j b)
digit-bit_or-max zero a b = ground (arith, bit_or-halves a b)
digit-bit_or-max (suc j) a b = ap (digit j) (bit_or_half a b) ∙ digit-bit_or-max j (a / 2) (b / 2)

pub digit_complement : (w j a : ℕ) → a < 2 ^ w → j < w → digit j (2 ^ w - 1 - a) + digit j a ≡ 1
digit_complement zero j a lt lt' = absurd (omega arith)
digit_complement (suc w) zero a lt lt' = omega (arith, pow-suc 2 w)
digit_complement (suc w) (suc j) a lt lt' =
    let half : (2 ^ suc w - 1 - a) / 2 ≡ 2 ^ w - 1 - a / 2 = omega (arith, pow-suc 2 w) in
    ap (λ z. digit j z + digit j (a / 2)) half
    ∙ digit_complement w j (a / 2) (omega (arith, pow-suc 2 w)) (omega arith)

pub digit_mask : (w j : ℕ) → digit j (2 ^ w - 1) ≡ (if ltb j w then 1 else 0)
digit_mask zero j = digit-zero j ∙ ground arith
digit_mask (suc w) zero = ground (arith, pow-suc 2 w, one-le-pow w 2)
digit_mask (suc w) (suc j) =
    let half : (2 ^ suc w - 1) / 2 ≡ 2 ^ w - 1 = omega (arith, pow-suc 2 w, one-le-pow w 2) in
    ap (digit j) half ∙ digit_mask w j ∙ ground arith

pub digit_shift : (s j b : ℕ) → digit j (b * 2 ^ s) ≡ (if ltb j s then 0 else digit (j - s) b)
digit_shift zero j b =
    let same : b * 2 ^ 0 ≡ b = omega arith in
    let same' : j ≡ j - 0 = omega arith in
    ap (digit j) same ∙ ap (λ z. digit z b) same' ∙ ground arith
digit_shift (suc s) zero b = rw (pow-suc 2 s) (ground arith)
digit_shift (suc s) (suc j) b =
    let half : b * 2 ^ suc s / 2 ≡ b * 2 ^ s = rw (pow-suc 2 s) (omega arith) in
    ap (digit j) half ∙ digit_shift s j b ∙ ground arith

pub digit-mod : (w j b : ℕ) → j < w → digit j (b % 2 ^ w) ≡ digit j b
digit-mod zero j b lt = absurd (omega arith)
digit-mod (suc w) zero b lt = omega (arith, mod_pow-suc b w)
digit-mod (suc w) (suc j) b lt =
    let half : b % 2 ^ suc w / 2 ≡ b / 2 % 2 ^ w = omega (arith, mod_pow-suc b w) in
    ap (digit j) half ∙ digit-mod w j (b / 2) (omega arith)

-- Numbers of w digits are equal if their digits are.
pub eq_of_digits :
    (w a b : ℕ) → a < 2 ^ w → b < 2 ^ w → ((j : ℕ) → j < w → digit j a ≡ digit j b) → a ≡ b
eq_of_digits zero a b lt lt' same = omega arith
eq_of_digits (suc w) a b lt lt' same =
    let half =
      eq_of_digits w (a / 2) (b / 2) (omega (arith, pow-suc 2 w)) (omega (arith, pow-suc 2 w))
        (λ j up. same (suc j) (omega arith)) in
    omega (arith, half, same 0 (omega arith))

pub digit_shifted_down : (i j b : ℕ) → digit j (b / 2 ^ i) ≡ digit (i + j) b
digit_shifted_down zero j b =
    let same : b / 2 ^ 0 ≡ b = omega arith in
    let same' : j ≡ 0 + j = omega arith in ap (digit j) same ∙ ap (λ z. digit z b) same'
digit_shifted_down (suc i) j b =
    let e : 2 * 2 ^ i ≡ 2 ^ suc i = omega (arith, pow-suc 2 i) in
    let up : suc (i + j) ≡ suc i + j = omega arith in
    ap (λ z. digit j (b / z)) (sym e)
    ∙ ap (digit j) (sym (div-div-eq-div-mul b 2 (2 ^ i)))
    ∙ digit_shifted_down i j (b / 2)
    ∙ ap (λ z. digit z b) up
