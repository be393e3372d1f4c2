-- ===== src/ConstantHash/Triangle.antt =====
-- Sums of consecutive steps: the distance from the hash to the entry of a step of the probe.
use cretonne.Prelude.{
  ℕ, zero, suc, ◌+◌, ◌-◌, ◌*◌, ◌/◌, ◌%◌, ◌^◌, ◌<◌, ◌≡◌, refl, sym, ap, ◌∙◌, arith, inl, inr, ◌⊎◌,
}
use mathlib.Core.Path.{subst}
use native.Mathlib.Nat.{
  pow-suc, one-le-pow, add-mod-mod, add-mul-mod_self_left, mod-eq_of_lt, mod-lt, mod-add-div,
}
use native.Mathlib.Decide.{dec_lt}

-- 1 + 2 + ... + s.
abbrev pub triangle : ℕ → ℕ
triangle zero = 0
triangle (suc s) = triangle s + suc s

triangle_last : (m : ℕ) → triangle (2 * m - 1) + m ≡ 2 * (m * m)
triangle_last zero = refl
triangle_last (suc zero) = refl
triangle_last (suc (suc m)) =
    let e = triangle_last (suc m) in
    let e' : 2 * suc (suc m) - 1 ≡ suc (suc (2 * suc m - 1)) = omega arith in rw e' (omega arith)

-- The step as far from the end of 2 m steps lands m further on, up to whole rounds.
triangle_mirror :
    (m s r : ℕ) → s + r + 1 ≡ 2 * m → triangle r + m + 2 * (m * s) ≡ triangle s + 2 * (m * m)
triangle_mirror m zero r e =
    let e' : r ≡ 2 * m - 1 = omega arith in rw e' (omega (arith, triangle_last m))
triangle_mirror m (suc s) r e = omega (arith, triangle_mirror m s (suc r) (omega arith))

parity : (q : ℕ) → ((h : ℕ) × (q ≡ 2 * h)) ⊎ ((h : ℕ) × (q ≡ 2 * h + 1))
parity zero = inl (0, refl)
parity (suc q) = elim (parity q) [
  | inl (h, e) ↦ inr (h, omega arith)
  | inr (h, e) ↦ inl (suc h, omega arith)
]

pub record Visit (n t : ℕ) : Type 0 where
  pub step : ℕ
  pub rounds : ℕ
  pub early : step < n
  pub lands : triangle step ≡ t + n * rounds

-- With m = s + 1 + d, the two distances of the mirrored step by the parity of the whole rounds.
even_rounds :
    (s d t h x q m : ℕ)
    → m ≡ s + 1 + d
    → q ≡ 2 * h
    → x + m + 2 * (m * s) ≡ t + m * q + 2 * (m * m)
    → x ≡ t + m + 2 * m * (h + d)
even_rounds s d t h x q m e e' eq =
    let eq' : x + (s + 1 + d) + 2 * ((s + 1 + d) * s)
        ≡ t + (s + 1 + d) * (2 * h) + 2 * ((s + 1 + d) * (s + 1 + d)) =
      subst (λ z. x + z + 2 * (z * s) ≡ t + z * (2 * h) + 2 * (z * z)) e
        (subst (λ z. x + m + 2 * (m * s) ≡ t + m * z + 2 * (m * m)) e' eq) in
    rw e (omega arith)

odd_rounds :
    (s d t h x q m : ℕ)
    → m ≡ s + 1 + d
    → q ≡ 2 * h + 1
    → x + m + 2 * (m * s) ≡ t + m * q + 2 * (m * m)
    → x ≡ t + 2 * m * (h + d + 1)
odd_rounds s d t h x q m e e' eq =
    let eq' : x + (s + 1 + d) + 2 * ((s + 1 + d) * s)
        ≡ t + (s + 1 + d) * (2 * h + 1) + 2 * ((s + 1 + d) * (s + 1 + d)) =
      subst (λ z. x + z + 2 * (z * s) ≡ t + z * (2 * h + 1) + 2 * (z * z)) e
        (subst (λ z. x + m + 2 * (m * s) ≡ t + m * z + 2 * (m * m)) e' eq) in
    rw e (omega arith)

-- Of the steps s and 2 m - 1 - s one lands on t and the other m further on.
Visit-double : (m t : ℕ) → t < m → Visit m t → Visit (2 * m) t × Visit (2 * m) (t + m)
Visit-double m t lt v =
    let s = v.step in
    let early = v.early in
    let lands = v.lands in
    let r = 2 * m - 1 - s in
    let mirror = triangle_mirror m s r (omega arith) in
    let d = m - s - 1 in
    let split : m ≡ s + 1 + d = omega arith in
    elim (parity v.rounds) [
      | inl (h, e) ↦ (
        record { step = s; rounds = h; early = omega arith; lands = lands ∙ rw e (omega arith) },
        record {
          step = r;
          rounds = h + d;
          early = omega arith;
          lands = even_rounds s d t h (triangle r) v.rounds m split e (omega arith);
        },
      )
      | inr (h, e) ↦ (
        record {
          step = r;
          rounds = h + d + 1;
          early = omega arith;
          lands = odd_rounds s d t h (triangle r) v.rounds m split e (omega arith);
        },
        record { step = s; rounds = h; early = omega arith; lands = lands ∙ rw e (omega arith) },
      )
    ]

-- With a power of two of entries every entry is landed on within one step for each.
triangle-Visit : (k t : ℕ) → t < 2 ^ k → Visit (2 ^ k) t
triangle-Visit zero t lt = record { step = 0; rounds = 0; early = omega arith; lands = omega arith }
triangle-Visit (suc k) t lt =
    let e = pow-suc 2 k in
    let e' : 2 ^ suc k ≡ 2 * 2 ^ k = omega arith in
    elim (dec_lt t (2 ^ k)) [
      | yes low ↦ let (near, _) = Visit-double (2 ^ k) t low (triangle-Visit k t low) in rw e' near
      | no high ↦
          let low : t - 2 ^ k < 2 ^ k = omega arith in
          let (_, far) = Visit-double (2 ^ k) (t - 2 ^ k) low (triangle-Visit k (t - 2 ^ k) low) in
          let back : t ≡ t - 2 ^ k + 2 ^ k = omega arith in
          subst (λ z. Visit (2 ^ suc k) z) (sym back) (rw e' far)
    ]

pub record Reached (hash n t : ℕ) : Type 0 where
  pub step : ℕ
  pub early : step < n
  pub lands : (hash + triangle step) % n ≡ t

regroup : (a b c : ℕ) → a + (b + c) ≡ a + b + c
regroup a b c = omega arith

-- The same from any hash.
pub hash-Reached : (k hash t : ℕ) → t < 2 ^ k → Reached hash (2 ^ k) t
hash-Reached k hash t lt =
    let n = 2 ^ k in
    let pos = one-le-pow k 2 in
    let low = mod-lt hash {m = n} (omega (arith, pos)) in
    let back = n - hash % n in
    let whole : hash + (t + back) ≡ t + n * (hash / n + 1) = omega (arith, mod-add-div hash n) in
    let small = mod-lt (t + back) {m = n} (omega (arith, pos)) in
    let v = triangle-Visit k ((t + back) % n) small in
    record {
      step = v.step;
      early = v.early;
      lands =
          ap (λ z. (hash + z) % n) v.lands
          ∙ ap (λ z. z % n) (regroup hash ((t + back) % n) (n * v.rounds))
          ∙ add-mul-mod_self_left (hash + (t + back) % n) n v.rounds
          ∙ add-mod-mod hash (t + back) n
          ∙ ap (λ z. z % n) whole
          ∙ add-mul-mod_self_left t n (hash / n + 1)
          ∙ mod-eq_of_lt lt;
    }
