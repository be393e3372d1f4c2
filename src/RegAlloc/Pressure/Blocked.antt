-- ===== src/RegAlloc/Pressure/Blocked.antt =====
-- `check_avail_aliased` against the register units that the registers in use block, counted without
-- wrapping.
use cretonne.Prelude.{
  ℕ, zero, suc, ◌+◌, ◌*◌, ◌%◌, ◌^◌, ◌<◌, ◌≤◌, ◌≡◌, ◌↔◌, refl, true, false, none, some, List, [],
  ◌∷◌, min, if◌then◌else◌, ltb, get_elem?, arith, length,
}
use cretonne.Prelude.Swap.{get_elem?_beyond}
use cretonne.Prelude.Panic.{get_elem?-ext}
use cretonne.RegAlloc.Pressure.{
  TopRc, Pressure, total_count, claimed, prefix, skip, aliases, check_avail_aliased,
}
use cretonne.RegAlloc.Pressure.Aliased.{units, check_avail_aliased-units}

-- The registers of a class that are in use.
abbrev pub used : TopRc → ℕ
used t = t.base_count + t.transient_count

-- The units that the classes block for registers of the width `w`. A register as wide or wider blocks
-- its own units, a narrower one a register, and all narrower ones no more than the units of their
-- class.
pub data Blocked (w : ℕ) : List TopRc → ℕ → Type 0 where
  nothing : Blocked w [] 0
  wide_class :
      (t : TopRc) (ts : List TopRc) (n : ℕ)
      → w ≤ t.width
      → Blocked w ts n
      → Blocked w (t ∷ ts) (used t * t.width + n)
  one_each :
      (t : TopRc) (ts : List TopRc) (n : ℕ)
      → t.width < w
      → used t * w ≤ t.limit * t.width
      → Blocked w ts n
      → Blocked w (t ∷ ts) (used t * w + n)
  whole_class :
      (t : TopRc) (ts : List TopRc) (n : ℕ)
      → t.width < w
      → t.limit * t.width ≤ used t * w
      → Blocked w ts n
      → Blocked w (t ∷ ts) (t.limit * t.width + n)

-- The products of the classes are numbers of 32 bits.
pub record IsSmall (w : ℕ) (t : TopRc) : Type 0 where
  pub count : used t < 2 ^ 32
  pub by_width : used t * w < 2 ^ 32
  pub by_own : used t * t.width < 2 ^ 32
  pub in_class : t.limit * t.width < 2 ^ 32

abbrev pub AllSmall : ℕ → List TopRc → Type 0
AllSmall w ts = (k : ℕ) (t : TopRc) → get_elem? ts k ≡ some t → IsSmall w t

min_left : (a b : ℕ) → a ≤ b → min a b ≡ a
min_left a b le = ground arith

min_right : (a b : ℕ) → b ≤ a → min a b ≡ b
min_right a b le = ground arith

mod_small : (n : ℕ) → n < 2 ^ 32 → n % 2 ^ 32 ≡ n
mod_small n lt = omega arith

module _ (w : ℕ) (t : TopRc) (small : IsSmall w t) where
  count_lem : total_count t ≡ used t
  unfolding total_count
  count_lem = mod_small (used t) small.count

  claimed_wide : w ≤ t.width → claimed w t ≡ used t * t.width
  unfolding claimed
  claimed_wide le =
      let test : ltb t.width w ≡ false = ground arith in
      rw (claimed, test, count_lem) (mod_small (used t * t.width) small.by_own)

  claimed_narrow : t.width < w → claimed w t ≡ min (used t * w) (t.limit * t.width)
  unfolding claimed
  claimed_narrow lt =
      let test : ltb t.width w ≡ true = ground arith in
      rw
        (
          claimed,
          test,
          count_lem,
          mod_small (used t * w) small.by_width,
          mod_small (t.limit * t.width) small.in_class,
        )
        refl

units-Blocked : (w : ℕ) (ts : List TopRc) (n : ℕ) → Blocked w ts n → AllSmall w ts → units w ts ≡ n
unfolding units
units-Blocked w _ _ nothing small = refl
units-Blocked w _ _ (wide_class t ts n le rest) small =
    let e = units-Blocked w ts n rest (λ k. small (suc k)) in
    rw (claimed_wide w t (small 0 t refl) le, e) refl
units-Blocked w _ _ (one_each t ts n lt le rest) small =
    let e = units-Blocked w ts n rest (λ k. small (suc k)) in
    rw (claimed_narrow w t (small 0 t refl) lt, min_left (used t * w) (t.limit * t.width) le, e)
      refl
units-Blocked w _ _ (whole_class t ts n lt le rest) small =
    let e = units-Blocked w ts n rest (λ k. small (suc k)) in
    rw (claimed_narrow w t (small 0 t refl) lt, min_right (used t * w) (t.limit * t.width) le, e)
      refl

get_elem?-prefix :
    (n : ℕ) (ts : List TopRc) (k : ℕ)
    → get_elem? (prefix n ts) k ≡ (if ltb k n then get_elem? ts k else none)
unfolding prefix
get_elem?-prefix zero ts k = ground arith
get_elem?-prefix (suc n) [] k = ground arith
get_elem?-prefix (suc n) (t ∷ ts) zero = ground arith
get_elem?-prefix (suc n) (t ∷ ts) (suc k) = ground (arith, get_elem?-prefix n ts k)

get_elem?-skip : (n : ℕ) (ts : List TopRc) (k : ℕ) → get_elem? (skip n ts) k ≡ get_elem? ts (n + k)
unfolding skip
get_elem?-skip zero ts k = let e : 0 + k ≡ k = omega arith in rw e refl
get_elem?-skip (suc n) [] k = ground arith
get_elem?-skip (suc n) (t ∷ ts) k =
    let e : suc n + k ≡ suc (n + k) = omega arith in rw e (get_elem?-skip n ts k)

-- Let `ts` be the classes of the bank, one to four tracked classes, the last below index 4, and no
-- product or sum of theirs overflow a `u32`. Then `check_avail_aliased` returns 0 exactly if the units
-- that the registers in use block, all classes together, are below the units of the class.
pub check_avail_aliased-Blocked :
    (p : Pressure) (t : TopRc) (ts : List TopRc) (n : ℕ)
    → 0 < t.num_toprcs
    → t.first_toprc + t.num_toprcs ≤ 4
    → length ts ≡ t.num_toprcs
    → ((k : ℕ) → k < t.num_toprcs → get_elem? p.toprc (t.first_toprc + k) ≡ get_elem? ts k)
    → Blocked t.width ts n
    → n < 2 ^ 32
    → AllSmall t.width ts
    → t.limit * t.width < 2 ^ 32
    → (check_avail_aliased p t ≡ 0) ↔ (n < t.limit * t.width)
unfolding aliases
check_avail_aliased-Blocked p t ts n some_class fits len same blocked small all small' =
    let slice : aliases p t ≡ ts = get_elem?-ext (aliases p t) ts (λ k. ground (
      arith,
      get_elem?-prefix t.num_toprcs (skip t.first_toprc p.toprc) k,
      get_elem?-skip t.first_toprc p.toprc k,
      same k,
      get_elem?_beyond ts k,
    )) in
    let sum : units t.width (aliases p t) ≡ n = rw slice (units-Blocked t.width ts n blocked all) in
    rw sum at (check_avail_aliased-units p t some_class fits small' (rw sum small))
