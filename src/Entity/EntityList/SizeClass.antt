-- ===== src/Entity/EntityList/SizeClass.antt =====
-- The size class of a length: its block has room for the elements and the length field, and no
-- smaller class has.
use cretonne.Prelude.{
  ℕ, zero, suc, ◌+◌, ◌-◌, ◌*◌, ◌/◌, ◌%◌, ◌^◌, ◌≤◌, ◌<◌, ◌≡◌, ◌≢◌, refl, sym, ◌∙◌, ap, true, ◌==◌,
  if◌then◌else◌, arith, Bool-cases, inl, inr,
}
use native.Mathlib.Decide.{ℕ_discrete, dec_lt}
use cretonne.Entity.EntityList.{
  sclass_size, bit_length, leading_zeros, sclass_for_length, is_power_of_two, is_sclass_min_length,
}

pow_suc : (b : ℕ) → 2 ^ suc b ≡ 2 * 2 ^ b
pow_suc b = omega arith

pow_mono : (a d : ℕ) → 2 ^ a ≤ 2 ^ (a + d)
pow_mono a zero = let e : a + 0 ≡ a = omega arith in rw e (omega arith)
pow_mono a (suc d) =
    let e : a + suc d ≡ suc (a + d) = omega arith in
    rw e (omega (arith, pow_suc (a + d), pow_mono a d))

pow_pos : (a : ℕ) → 1 ≤ 2 ^ a
pow_pos zero = omega arith
pow_pos (suc a) = omega (arith, pow_suc a, pow_pos a)

bit_length_step :
    (f n : ℕ) → bit_length (suc f) n ≡ (if n == 0 then 0 else suc (bit_length f (n / 2)))
unfolding bit_length
bit_length_step f n = refl

bit_length-zero : (f : ℕ) → bit_length f 0 ≡ 0
unfolding bit_length
bit_length-zero zero = refl
bit_length-zero (suc f) = refl

-- `n` is below `2 ^ k`, and not below the power before that one.
abbrev Tops : ℕ → ℕ → Type 0
Tops n k = (n < 2 ^ k) × (2 ^ k ≤ 2 * n)

bit_length-Tops : (f n : ℕ) → 0 < n → n < 2 ^ f → Tops n (bit_length f n) × (bit_length f n ≤ f)
bit_length-Tops zero n pos lt = absurd (omega arith)
bit_length-Tops (suc f) n pos lt = elim (ℕ_discrete n 1) [
  | yes one ↦
      let small : bit_length (suc f) n ≡ suc (bit_length f (n / 2)) =
        ground (arith, bit_length_step f n) in
      let half : n / 2 ≡ 0 = omega arith in rw (small, half, bit_length-zero f) (omega arith)
  | no more ↦
      let ((top, low), fits) = bit_length-Tops f (n / 2) (omega arith) (omega (arith, pow_suc f)) in
      let big : bit_length (suc f) n ≡ suc (bit_length f (n / 2)) =
        ground (arith, bit_length_step f n) in
      rw big (omega (arith, pow_suc (bit_length f (n / 2))))
]

-- The exponent is the only one.
below : (n j k : ℕ) → 2 ^ j ≤ 2 * n → n < 2 ^ k → j ≤ k
below n j k low top = elim (dec_lt k j) [
  | yes lt ↦
      let e : j ≡ suc k + (j - suc k) = omega arith in
      let m = pow_mono (suc k) (j - suc k) in absurd (omega (arith, pow_suc k, rw e at low))
  | no ge ↦ omega arith
]

Tops-unique : (n j k : ℕ) → Tops n j → Tops n k → j ≡ k
Tops-unique n j k (a, b) (c, d) = let p = below n j k b c in let q = below n k j d a in omega arith

pub sclass_size-pos : (c : ℕ) → 4 ≤ sclass_size c
unfolding sclass_size
sclass_size-pos c = omega (arith, pow_pos c)

pow_two : (c : ℕ) → 2 ^ (c + 2) ≡ sclass_size c
unfolding sclass_size
pow_two c =
    let e : c + 2 ≡ suc (suc c) = omega arith in rw e (omega (arith, pow_suc c, pow_suc (suc c)))

sclass_size-four : (c : ℕ) → sclass_size c % 4 ≡ 0
unfolding sclass_size
sclass_size-four c = omega arith

-- What a length asks of its class.
unfoldable pub Fits : ℕ → ℕ → Type 0
Fits n c = (n < sclass_size c) × (c ≢ 0 → sclass_size c ≤ 2 * n)

-- The class is two less than the number of bits.
class_of_bits : (k : ℕ) → 2 ≤ k → k ≤ 32 → sclass_size (30 - (32 - k)) ≡ 2 ^ k
class_of_bits k low high =
    let e : k ≡ (30 - (32 - k)) + 2 = omega arith in
    sym (pow_two (30 - (32 - k))) ∙ ap (λ j. 2 ^ j) (sym e)

-- The size of a class is a multiple of four, and twice that unless it is the first.
sclass_size-suc : (c : ℕ) → sclass_size (suc c) ≡ 2 * sclass_size c
unfolding sclass_size
sclass_size-suc c = omega (arith, pow_suc c)

pub sclass_for_length-Fits : (n : ℕ) → n < 2 ^ 32 → Fits n (sclass_for_length n)
unfolding sclass_for_length leading_zeros Fits
sclass_for_length-Fits n lt =
    let m : ℕ = n % 2 ^ 32 / 4 * 4 + 3 in
    let k = bit_length 32 m in
    let ((top, low), fits) = bit_length-Tops 32 m (omega arith) (omega arith) in
    let two : 2 ≤ k = below 2 2 k (omega arith) (omega arith) in
    let c = 30 - (32 - k) in
    let size = class_of_bits k two fits in
    (
      omega (arith, size),
      λ big.
          let half = sclass_size-suc (c - 1) in
          let e : suc (c - 1) ≡ c = omega arith in
          let half' : sclass_size c ≡ 2 * sclass_size (c - 1) = ap sclass_size (sym e) ∙ half in
          omega (arith, size, half', sclass_size-four (c - 1)),
    )

sclass_size_mono : (a d : ℕ) → sclass_size a ≤ sclass_size (a + d)
unfolding sclass_size
sclass_size_mono a d = omega (arith, pow_mono a d)

Fits-below : (n a b : ℕ) → Fits n a → Fits n b → a ≤ b
unfolding Fits
Fits-below n a b (p, q) (r, s) = elim (dec_lt b a) [
  | yes lt ↦
      let e : a ≡ suc b + (a - suc b) = omega arith in
      let m = sclass_size_mono (suc b) (a - suc b) in
      absurd (omega (arith, sclass_size-suc b, ap sclass_size e, q))
  | no ge ↦ omega arith
]

pub Fits-unique : (n a b : ℕ) → Fits n a → Fits n b → a ≡ b
Fits-unique n a b p q = let l = Fits-below n a b p q in let r = Fits-below n b a q p in omega arith

suc-Fits : (n c : ℕ) → Fits n c → Fits (suc n) (if suc n == sclass_size c then suc c else c)
unfolding Fits
suc-Fits n c (room, tight) = elim (ℕ_discrete (suc n) (sclass_size c)) [
  | yes full ↦ ground (arith, sclass_size-suc c)
  | no more ↦ ground arith
]

is_power_of_two_lem : (m j : ℕ) → m ≡ 2 ^ j → m < 2 ^ 64 → is_power_of_two m ≡ true
unfolding is_power_of_two
is_power_of_two_lem m j e lt =
    let pos : 0 < m = omega (arith, pow_pos j) in
    let (tops, _) = bit_length-Tops 64 m pos lt in
    let only = Tops-unique m (bit_length 64 m) (suc j) tops (omega (arith, pow_suc j)) in
    let exact : bit_length 64 m - 1 ≡ j = omega arith in rw exact (ground arith)

min_length-full :
    (n c : ℕ)
    → suc n < 2 ^ 32
    → Fits n c
    → suc n ≡ sclass_size c
    → is_sclass_min_length (suc n) ≡ true
unfolding is_sclass_min_length
min_length-full n c lt fits full =
    let power = is_power_of_two_lem (suc n) (c + 2) (full ∙ sym (pow_two c)) (omega arith) in
    ground (arith, sclass_size-pos c)

last-Fits : (n c : ℕ) → 1 ≤ n → suc n ≡ sclass_size c → Fits n c
unfolding Fits
last-Fits n c pos e = (omega arith, λ big. omega arith)

full-min_length : (n c : ℕ) → Fits n c → is_sclass_min_length (suc n) ≡ true → suc n ≡ sclass_size c
unfolding is_sclass_min_length is_power_of_two
full-min_length n c fits e =
    let j = bit_length 64 (suc n) - 1 in
    let power : suc n ≡ 2 ^ j = ground arith in
    let big : 3 < suc n = ground arith in
    let two : 2 ≤ j = below 2 2 j (omega arith) (omega arith) in
    let back : j ≡ (j - 2) + 2 = omega arith in
    let size : suc n ≡ sclass_size (j - 2) = power ∙ ap (λ i. 2 ^ i) back ∙ pow_two (j - 2) in
    let fits' = last-Fits n (j - 2) (omega arith) size in
    size ∙ ap sclass_size (Fits-unique n (j - 2) c fits' fits)

-- One more element needs the next class exactly if that number is the minimum of a class.
pub sclass_for_length-suc :
    (n : ℕ)
    → suc n < 2 ^ 32
    → sclass_for_length (suc n)
      ≡ (if is_sclass_min_length (suc n) then suc (sclass_for_length n) else sclass_for_length n)
sclass_for_length-suc n lt =
    let c = sclass_for_length n in
    let fits = sclass_for_length-Fits n (omega arith) in
    let next =
      Fits-unique (suc n) (sclass_for_length (suc n)) _ (sclass_for_length-Fits (suc n) lt)
        (suc-Fits n c fits) in
    elim (Bool-cases (is_sclass_min_length (suc n))) [
      | inl min ↦ let full = full-min_length n c fits min in rw min (ground arith)
      | inr more ↦ ground (arith, min_length-full n c lt fits)
    ]
