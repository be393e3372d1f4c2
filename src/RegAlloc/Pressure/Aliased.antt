-- ===== src/RegAlloc/Pressure/Aliased.antt =====
-- The loop of `check_avail_aliased` against the sum of the units that the aliasing classes claim.
use mathlib.Core.Path.{subst}
use cretonne.Prelude.{
  ℕ, zero, suc, ◌+◌, ◌*◌, ◌%◌, ◌^◌, ◌<◌, ◌≤◌, ◌≡◌, ◌≢◌, ◌↔◌, refl, List, [], ◌∷◌, Bool, true, false,
  ◌==◌, ◌||◌, not, leb, if◌then◌else◌, arith, length,
}
use cretonne.Prelude.Below.{all_below, all_below_lem}
use cretonne.RegAlloc.Pressure.{
  TopRc, Pressure, claimed, Scan, scan, prefix, skip, aliases, check_avail_aliased, answer, mask_of,
}

-- The units of all classes, without wrapping.
unfoldable pub units : ℕ → List TopRc → ℕ
units w [] = 0
units w (t ∷ ts) = claimed w t + units w ts

-- What the loop finds.
Found : ℕ → ℕ → ℕ → ℕ → ℕ → Scan → Type 0
Found ulimit lo hi sum n (Scan.over r) = (lo ≤ r) × (r < hi) × (ulimit ≤ sum)
Found ulimit lo hi sum n (Scan.counted u) = u ≡ n + sum

weaken :
    (ulimit r l sum c n : ℕ) (s : Scan)
    → Found ulimit (suc r) (suc r + l) sum (n + c) s
    → Found ulimit r (r + suc l) (c + sum) n s
unfolding Found
weaken ulimit r l sum c n (Scan.over k) (a, b, d) = (omega arith, omega arith, omega arith)
weaken ulimit r l sum c n (Scan.counted u) e = omega arith

either :
    (P : Scan → Type 0) (b : Bool) (x y : Scan) → (b ≡ true → P x) → P y → P (if b then x else y)
either P true x y f h = f refl
either P false x y f h = h

scan-Found :
    (w ulimit : ℕ) (ts : List TopRc) (r n : ℕ)
    → n + units w ts < 2 ^ 32
    → Found ulimit r (r + length ts) (units w ts) n (scan w ulimit ts r n)
unfolding scan units Found
scan-Found w ulimit [] r n small = omega arith
scan-Found w ulimit (t ∷ ts) r n small =
    let c = claimed w t in
    let n' = (n + c) % 2 ^ 32 in
    let exact : n' ≡ n + c = omega arith in
    let rest = scan-Found w ulimit ts (suc r) n' (omega arith) in
    either (Found ulimit r (r + suc (length ts)) (c + units w ts) n) (leb ulimit c) (Scan.over r)
      (scan w ulimit ts (suc r) n') (λ big. (omega arith, omega arith, ground arith))
      (weaken ulimit r (length ts) (units w ts) c n (scan w ulimit ts (suc r) n') (
        subst
          (λ m.
            Found ulimit (suc r) (suc r + length ts) (units w ts) m (scan w ulimit ts (suc r) n'))
          exact rest))

masks : all_below 5 (λ f. all_below 5 (λ n. (n == 0) || not (mask_of f n == 0))) ≡ true
unfolding all_below mask_of
masks = refl

bits : all_below 5 (λ r. not (2 ^ r % 2 ^ 32 == 0)) ≡ true
unfolding all_below
bits = refl

mask_lem : (f n : ℕ) → 0 < n → f + n ≤ 4 → mask_of f n ≢ 0
mask_lem f n some_class fits e =
    let row =
      all_below_lem 5 (λ f. all_below 5 (λ n. (n == 0) || not (mask_of f n == 0))) f masks
        (omega arith) in
    let cell = all_below_lem 5 (λ n. (n == 0) || not (mask_of f n == 0)) n row (omega arith) in
    ground arith

pub bit_lem : (r : ℕ) → r < 5 → 2 ^ r % 2 ^ 32 ≢ 0
bit_lem r lt e =
    let cell = all_below_lem 5 (λ r. not (2 ^ r % 2 ^ 32 == 0)) r bits lt in ground arith

length-prefix : (n : ℕ) (ts : List TopRc) → length (prefix n ts) ≤ n
unfolding prefix
length-prefix zero ts = omega arith
length-prefix (suc n) [] = omega arith
length-prefix (suc n) (t ∷ ts) = omega (arith, length-prefix n ts)

length-aliases : (p : Pressure) (t : TopRc) → length (aliases p t) ≤ t.num_toprcs
unfolding aliases
length-aliases p t = length-prefix t.num_toprcs (skip t.first_toprc p.toprc)

answer_iff :
    (s : Scan) (u f n l sum : ℕ)
    → Found u f (f + l) sum 0 s
    → 0 < n
    → l ≤ n
    → f + n ≤ 4
    → (answer s u f n ≡ 0) ↔ (sum < u)
unfolding answer Found
answer_iff (Scan.over r) u f n l sum (a, b, c) some_class short fits =
    ((λ e. absurd (bit_lem r (omega arith) e)), λ lt. absurd (omega arith))
answer_iff (Scan.counted k) u f n l sum e some_class short fits =
    ground (arith, mask_lem f n some_class fits)

mod_small : (n : ℕ) → n < 2 ^ 32 → n % 2 ^ 32 ≡ n
mod_small n lt = omega arith

-- For a bank of one to four tracked classes, the last below index 4, and no `u32` overflow,
-- `check_avail_aliased` returns 0 exactly if the units that the aliasing classes claim in all are
-- below the units of the class.
pub check_avail_aliased-units :
    (p : Pressure) (t : TopRc)
    → 0 < t.num_toprcs
    → t.first_toprc + t.num_toprcs ≤ 4
    → t.limit * t.width < 2 ^ 32
    → units t.width (aliases p t) < 2 ^ 32
    → (check_avail_aliased p t ≡ 0) ↔ (units t.width (aliases p t) < t.limit * t.width)
unfolding check_avail_aliased
check_avail_aliased-units p t some_class fits small small' =
    let ts = aliases p t in
    let u = t.limit * t.width % 2 ^ 32 in
    let exact : u ≡ t.limit * t.width = mod_small (t.limit * t.width) small in
    let found = scan-Found t.width u ts t.first_toprc 0 (omega arith) in
    let (a, b) =
      answer_iff (scan t.width u ts t.first_toprc 0) u t.first_toprc t.num_toprcs (length ts)
        (units t.width ts) found some_class (length-aliases p t) fits in
    ((λ e. rw⁻¹ exact (a e)), λ lt. b (rw exact lt))
