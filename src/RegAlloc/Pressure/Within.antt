-- ===== src/RegAlloc/Pressure/Within.antt =====
-- `take_transient` keeps every class without aliases within its limit.
use cretonne.Prelude.{
  ℕ, zero, suc, ◌^◌, ◌<◌, ◌≤◌, ◌≡◌, refl, ap, List, [], ◌∷◌, false, none, some, ◌==◌, if◌then◌else◌,
  get_elem?, length, arith, Option-cases, inl, inr,
}
use cretonne.Prelude.Swap.{get_elem?_lt}
use native.Mathlib.Decide.{ℕ_discrete}
use cretonne.Isa.Registers.{RegClass}
use cretonne.RegAlloc.Pressure.{
  TopRc, Pressure, total_count, update, is_aliased, check_avail, Taken, take_one, take_transient,
}
use cretonne.RegAlloc.Pressure.Aliased.{bit_lem}
use cretonne.RegAlloc.Pressure.Counts.{check_avail_in}

get_elem?-update :
    (ts : List TopRc) (i j : ℕ) (f : TopRc → TopRc)
    → get_elem? (update ts i f) j ≡ (
        if i == j
        then elim (get_elem? ts j) [ none ↦ none | some t ↦ some (f t) ]
        else get_elem? ts j)
unfolding update
get_elem?-update [] i j f = ground arith
get_elem?-update (t ∷ ts) zero zero f = refl
get_elem?-update (t ∷ ts) zero (suc j) f = ground arith
get_elem?-update (t ∷ ts) (suc i) zero f = ground arith
get_elem?-update (t ∷ ts) (suc i) (suc j) f = ground (arith, get_elem?-update ts i j f)

-- No class without aliases is over its limit. There are four tracked classes at most, and limits fit
-- a `u32`.
pub record IsWithin (p : Pressure) : Type 0 where
  pub slots : length p.toprc ≤ 4
  pub fits :
      (i : ℕ) (t : TopRc)
      → get_elem? p.toprc i ≡ some t
      → is_aliased p i ≡ false
      → total_count t ≤ t.limit
  pub limits : (i : ℕ) (t : TopRc) → get_elem? p.toprc i ≡ some t → t.limit < 2 ^ 32

took :
    (m : ℕ) (p q : Pressure)
    → (if m == 0 then Taken.ok p else Taken.err m) ≡ Taken.ok q
    → (m ≡ 0) × (q ≡ p)
took m p q e = (ground arith, ground arith)

take_transient_step :
    (p q : Pressure) (rc : RegClass)
    → take_transient p rc ≡ Taken.ok q
    → (check_avail p rc ≡ 0) × (q ≡ record p { toprc = update p.toprc rc.toprc take_one })
unfolding take_transient
take_transient_step p q rc e =
    took (check_avail p rc) (record p { toprc = update p.toprc rc.toprc take_one }) q e

total_count-take_one :
    (t : TopRc)
    → total_count t < t.limit
    → t.limit < 2 ^ 32
    → total_count (take_one t) ≡ suc (total_count t)
unfolding total_count
total_count-take_one t lt small = omega arith

is_aliased-record :
    (p : Pressure) (ts : List TopRc) (i : ℕ)
    → is_aliased (record p { toprc = ts }) i ≡ is_aliased p i
unfolding is_aliased
is_aliased-record p ts i = refl

length-update : (ts : List TopRc) (i : ℕ) (f : TopRc → TopRc) → length (update ts i f) ≡ length ts
unfolding update
length-update [] i f = refl
length-update (t ∷ ts) zero f = refl
length-update (t ∷ ts) (suc i) f = ap suc (length-update ts i f)

-- A class without aliases that has a register available is below its limit.
below_limit :
    (p : Pressure) (rc : RegClass) (t : TopRc)
    → IsWithin p
    → get_elem? p.toprc rc.toprc ≡ some t
    → is_aliased p rc.toprc ≡ false
    → check_avail p rc ≡ 0
    → total_count t < t.limit
below_limit p rc t h here simple free =
    let lt = get_elem?_lt p.toprc rc.toprc here in
    let bit = bit_lem rc.toprc (omega (arith, h.slots)) in
    ground (arith, check_avail_in p rc t here)

-- Wherever `take_transient` succeeds, no class without aliases goes over its limit, if none was
-- over before, there are at most four classes, and limits fit a `u32`.
pub take_transient-IsWithin :
    (p q : Pressure) (rc : RegClass) → IsWithin p → take_transient p rc ≡ Taken.ok q → IsWithin q
take_transient-IsWithin p q rc h e =
    let (free, q≡) = take_transient_step p q rc e in
    let i = rc.toprc in
    let ts = update p.toprc i take_one in
    let reads = get_elem?-update p.toprc i in
    rw q≡ (record {
      slots = omega (arith, h.slots, length-update p.toprc i take_one);
      fits = λ j t here simple.
          let was = is_aliased-record p ts j in
          elim (Option-cases (get_elem? p.toprc j)) [
            | inl out ↦ absurd (ground (arith, reads j take_one))
            | inr (s, there) ↦ elim (ℕ_discrete i j) [
              | no differs ↦ ground (arith, reads j take_one, h.fits j s there)
              | yes same ↦
                  let lt = below_limit p rc s h (rw same there) (ground arith) free in
                  let more = total_count-take_one s lt (h.limits j s there) in
                  let is : t ≡ take_one s = ground (arith, reads j take_one) in rw is (omega arith)
            ]
          ];
      limits = λ j t here. elim (Option-cases (get_elem? p.toprc j)) [
        | inl out ↦ absurd (ground (arith, reads j take_one))
        | inr (s, there) ↦ ground (arith, reads j take_one, h.limits j s there)
      ];
    })
