-- ===== src/Ir/StackSlot/Alignment.antt =====
-- The alignment of a slot, by how often 2 divides its size.
use Prim.Native.Nat.{bit_and, bit_or}
use native.Mathlib.Nat.{pow-suc, one-le-pow, pow-le-pow_right, mod-eq_of_lt}
use native.Mathlib.Decide.{ℕ_discrete}
use cretonne.Prelude.{
  ℕ, zero, suc, ◌-◌, ◌/◌, ◌%◌, ◌^◌, ◌≤◌, ◌<◌, ◌≡◌, refl, ap, ◌∙◌, ltb, Option, some, if◌then◌else◌,
  arith,
}
use cretonne.Prelude.Bits.{
  bit_or-halves, bit_or_lt, le-bit_or, mod_pow-suc, negate_odd, negate_even, pow-is_power_of_two,
}
use cretonne.Ir.StackSlot.{StackSlotData, alignment}

-- How often 2 divides n, at most k times.
abbrev pub twos : ℕ → ℕ → ℕ
twos zero n = 0
twos (suc k) n = if ltb 0 (n % 2) then 0 else suc (twos k (n / 2))

low_bit :
    (k w n : ℕ)
    → k ≤ w
    → n < 2 ^ suc w
    → bit_and (bit_or n (2 ^ k)) (2 ^ suc w - bit_or n (2 ^ k)) ≡ 2 ^ twos k n
low_bit zero w n le lt =
    let small = bit_or_lt (suc w) n 1 lt (omega (arith, pow-suc 2 w, one-le-pow w 2)) in
    negate_odd w (bit_or n 1) small (ground (arith, bit_or-halves n 1))
low_bit (suc k) zero n le lt = absurd (omega arith)
low_bit (suc k) (suc w) n le lt =
    let e = pow-suc 2 k in
    let e' = pow-suc 2 (suc w) in
    let x = bit_or n (2 ^ suc k) in
    let bound : 2 ^ suc k < 2 ^ suc (suc w) =
      omega (arith, pow-le-pow_right {n = 2} (omega arith) le, one-le-pow (suc k) 2) in
    let small = bit_or_lt (suc (suc w)) n (2 ^ suc k) lt bound in
    let halves = bit_or-halves n (2 ^ suc k) in
    let half : 2 ^ suc k / 2 ≡ 2 ^ k = omega arith in
    let even : 2 ^ suc k % 2 ≡ 0 = omega arith in
    elim (ℕ_discrete (n % 2) 0) [
      | no odd ↦
          let none_yet : twos (suc k) n ≡ 0 = ground arith in
          negate_odd (suc w) x small (ground arith) ∙ rw none_yet refl
      | yes twice ↦
          let one_more : twos (suc k) n ≡ suc (twos k (n / 2)) = ground arith in
          let rest : x / 2 ≡ bit_or (n / 2) (2 ^ k) = rw⁻¹ half (ground arith) in
          negate_even (suc w) x small (ground arith)
          ∙ rw (rest, low_bit k w (n / 2) (omega arith) (omega arith), one_more)
              (omega (arith, pow-suc 2 (twos k (n / 2))))
    ]

-- The result of `alignment`, for a size of 32 bits.
pub alignment_lem :
    (slot : StackSlotData) (k : ℕ)
    → slot.size < 2 ^ 32
    → k ≤ 31
    → alignment slot (2 ^ k) ≡ some (2 ^ twos k slot.size)
unfolding alignment
alignment_lem slot k lt le =
    let x = bit_or slot.size (2 ^ k) in
    let wide : 2 ^ k ≤ 2 ^ 31 = pow-le-pow_right {n = 2} (omega arith) le in
    let positive : 0 < x =
      omega (arith, le-bit_or 32 slot.size (2 ^ k) (omega arith), one-le-pow k 2) in
    let negated : (2 ^ 32 - x) % 2 ^ 32 ≡ 2 ^ 32 - x = mod-eq_of_lt (omega arith) in
    rw (pow-is_power_of_two k)
      (ap (λ z. some z) (ap (bit_and x) negated ∙ low_bit k 31 slot.size le lt))

pub twos_le : (k n : ℕ) → twos k n ≤ k
twos_le zero n = omega arith
twos_le (suc k) n = ground (arith, twos_le k (n / 2))

pub twos_mono : (j k n : ℕ) → j ≤ k → twos j n ≤ twos k n
twos_mono zero k n le = omega arith
twos_mono (suc j) zero n le = absurd (omega arith)
twos_mono (suc j) (suc k) n le = ground (arith, twos_mono j k (n / 2) (omega arith))

pub twos-divides : (k n : ℕ) → n % 2 ^ twos k n ≡ 0
twos-divides zero n = omega arith
twos-divides (suc k) n = elim (ℕ_discrete (n % 2) 0) [
  | no odd ↦ let e : twos (suc k) n ≡ 0 = ground arith in rw e (omega arith)
  | yes even ↦
      let e : twos (suc k) n ≡ suc (twos k (n / 2)) = ground arith in
      rw (e, mod_pow-suc n (twos k (n / 2)), twos-divides k (n / 2), even) refl
]

twos_largest : (k n j : ℕ) → j ≤ k → n % 2 ^ j ≡ 0 → j ≤ twos k n
twos_largest k n zero le e = omega arith
twos_largest zero n (suc j) le e = absurd (omega arith)
twos_largest (suc k) n (suc j) le e =
    let split = mod_pow-suc n j in
    let even : n % 2 ≡ 0 = omega arith in
    ground (arith, twos_largest k (n / 2) j (omega arith) (omega arith))

-- `alignment` is a power of two that divides the bound and the slot's size, and the largest of those.
pub record Largest (slot : StackSlotData) (k : ℕ) (o : Option ℕ) : Type 0 where
  pub exponent : ℕ
  pub runs : o ≡ some (2 ^ exponent)
  pub within : exponent ≤ k
  pub divides : slot.size % 2 ^ exponent ≡ 0
  pub largest : (j : ℕ) → j ≤ k → slot.size % 2 ^ j ≡ 0 → j ≤ exponent

-- For a size of 32 bits and a bound 2 ^ k of 32 bits, `alignment` is the largest power of two that divides
-- both.
pub alignment-Largest :
    (slot : StackSlotData) (k : ℕ)
    → slot.size < 2 ^ 32
    → k ≤ 31
    → Largest slot k (alignment slot (2 ^ k))
alignment-Largest slot k lt le = record {
  exponent = twos k slot.size;
  runs = alignment_lem slot k lt le;
  within = twos_le k slot.size;
  divides = twos-divides k slot.size;
  largest = twos_largest k slot.size;
}
