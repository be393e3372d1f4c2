-- ===== src/StackLayout/Depth.antt =====
-- Offsets of a frame that grows downwards, by their distance below the frame's top.
use Prim.Native.Nat.{bit_and}
use mathlib.Core.Path.{subst}
use native.Mathlib.Nat.{pow-suc, mul-le-mul_left, one-le-pow, mod-lt, mod-add-div, pow-le-pow_right}
use native.Mathlib.Decide.{dec_lt}
use cretonne.Prelude.{
  ℕ, zero, suc, ◌+◌, ◌-◌, ◌*◌, ◌/◌, ◌%◌, ◌^◌, ◌≤◌, ◌<◌, ◌≡◌, ap, ◌∙◌, leb, none, some,
  if◌then◌else◌, arith,
}
use cretonne.Prelude.Bits.{bit_and_high}
use cretonne.Prelude.Int.{ℤ, pos, negsuc, ◌-ℤ◌}
use cretonne.Prelude.Int32.{checked_sub, as_u32, as_i32, and_i32, neg_i32}

abbrev pub below : ℕ → ℤ
below zero = pos 0
below (suc d) = negsuc d

pub sub_below :
    (d s : ℕ)
    → d ≤ 2 ^ 31
    → s < 2 ^ 31
    → checked_sub (below d) (as_i32 s)
      ≡ (if leb (d + s) (2 ^ 31) then some (below (d + s)) else none)
unfolding checked_sub ◌-ℤ◌
sub_below d s le lt = ground arith

pow_split : (j i : ℕ) → 2 ^ (j + i) ≡ 2 ^ j * 2 ^ i
pow_split zero i = let e : 0 + i ≡ i = omega arith in ap (λ z. 2 ^ z) e ∙ omega arith
pow_split (suc j) i =
    ap (λ z. 2 ^ z) (carry j i) ∙ rw (pow-suc 2 (j + i), pow_split j i, pow-suc 2 j) (omega arith)
  where
    carry : (j i : ℕ) → suc j + i ≡ suc (j + i)
    carry j i = omega arith

whole_power : (j k : ℕ) → j ≤ k → 2 ^ k ≡ 2 ^ j * 2 ^ (k - j)
whole_power j k le = ap (λ z. 2 ^ z) (omega arith) ∙ pow_split j (k - j)

mask_u32 : (j : ℕ) → j ≤ 30 → as_u32 (neg_i32 (as_i32 (2 ^ j))) ≡ 2 ^ 32 - 2 ^ j
unfolding neg_i32 ◌-ℤ◌
mask_u32 j le =
    let narrow : 2 ^ j ≤ 2 ^ 30 = pow-le-pow_right {n = 2} (omega arith) le in
    let pos = one-le-pow j 2 in ground arith

masked : (j x : ℕ) → j ≤ 30 → x < 2 ^ 32 → bit_and x (2 ^ 32 - 2 ^ j) + x % 2 ^ j ≡ x
masked j x le lt =
    let e : j + (32 - j) ≡ 32 = omega arith in
    subst (λ z. bit_and x (2 ^ z - 2 ^ j) + x % 2 ^ j ≡ x) e (bit_and_high j (32 - j) x (rw e lt))

-- Clearing the low digits of a negative offset rounds its depth up.
round_depth :
    (m q r x d W : ℕ) → x + suc d ≡ m * W → r + m * q ≡ x → r < m → suc d + r ≡ m * (W - q)
round_depth m q r x d W e e' lt =
    let low : q ≤ W = elim (dec_lt W q) [
      | yes high ↦ let wide = mul-le-mul_left m high in absurd (omega arith)
      | no le ↦ omega arith
    ] in
    let split : W ≡ q + (W - q) = omega arith in
    let prod : m * W ≡ m * q + m * (W - q) = ap (λ z. m * z) split ∙ omega arith in omega arith

half_kept : (m q r x W : ℕ) → m * W ≤ x → r + m * q ≡ x → r < m → m * W ≤ m * q
half_kept m q r x W le e lt = elim (dec_lt q W) [
  | yes low ↦ let wide = mul-le-mul_left m low in absurd (omega arith)
  | no high ↦ mul-le-mul_left m (omega arith)
]

-- The next multiple of m from d on.
pub record RoundedUp (d m : ℕ) (o : ℤ) : Type 0 where
  pub depth : ℕ
  pub runs : o ≡ below depth
  pub above : d ≤ depth
  pub least : depth < d + m
  pub bound : depth ≤ 2 ^ 31
  pub factor : ℕ
  pub multiple : depth ≡ m * factor

pub and-RoundedUp :
    (d j : ℕ)
    → d ≤ 2 ^ 31
    → j ≤ 30
    → RoundedUp d (2 ^ j) (and_i32 (below d) (neg_i32 (as_i32 (2 ^ j))))
unfolding and_i32
and-RoundedUp zero j le le' =
    let pos = one-le-pow j 2 in
    let cleared : bit_and 0 (2 ^ 32 - 2 ^ j) ≡ 0 = omega (arith, masked j 0 le' (omega arith)) in
    record {
      depth = 0;
      runs = rw (mask_u32 j le') (ground arith);
      above = omega arith;
      least = omega arith;
      bound = omega arith;
      factor = 0;
      multiple = omega arith;
    }
and-RoundedUp (suc d) j le le' =
    let m = 2 ^ j in
    let x = 2 ^ 32 - 1 - d in
    let pos = one-le-pow j 2 in
    let small : x % m < m = mod-lt x {m = m} (omega arith) in
    let kept = masked j x le' (omega arith) in
    let quotient = mod-add-div x m in
    let all = whole_power j 32 (omega arith) in
    let half = whole_power j 31 (omega arith) in
    let high = half_kept m (x / m) (x % m) x (2 ^ (31 - j)) (omega arith) quotient small in
    record {
      depth = suc d + x % m;
      runs = rw (mask_u32 j le') (ground arith);
      above = omega arith;
      least = omega arith;
      bound = omega arith;
      factor = 2 ^ (32 - j) - x / m;
      multiple = round_depth m (x / m) (x % m) x d (2 ^ (32 - j)) (omega arith) quotient small;
    }
