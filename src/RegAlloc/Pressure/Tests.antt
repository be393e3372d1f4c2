-- ===== src/RegAlloc/Pressure/Tests.antt =====
-- The pressure of a target with one plain class and a bank of two aliasing ones.
use cretonne.Prelude.{
  ℕ, zero, suc, ◌+◌, ◌*◌, ◌^◌, ◌<◌, ◌≤◌, ◌≡◌, ◌↔◌, refl, [], ◌∷◌, false, some, arith, get_elem?,
}
use cretonne.Isa.Registers.{RegClass}
use cretonne.RegAlloc.Pressure.{
  TopRc, Pressure, total_count, update, claimed, scan, prefix, skip, aliases, answer, mask_of,
  check_avail_aliased, is_aliased, check_avail, take_transient, take_one, reset_transient,
}
use cretonne.RegAlloc.Pressure.Blocked.{
  Blocked, nothing, wide_class, whole_class, AllSmall, check_avail_aliased-Blocked,
}
use cretonne.RegAlloc.Pressure.Counts.{IsCounted}
use cretonne.RegAlloc.Pressure.Within.{IsWithin, take_transient-IsWithin}

-- Three registers, and one in use.
abbrev general : TopRc
general = record {
  base_count = 1;
  transient_count = 0;
  limit = 3;
  width = 1;
  first_toprc = 0;
  num_toprcs = 1;
}

abbrev narrow : TopRc
narrow = record {
  base_count = 3;
  transient_count = 1;
  limit = 8;
  width = 1;
  first_toprc = 1;
  num_toprcs = 2;
}

abbrev wide : TopRc
wide = record {
  base_count = 1;
  transient_count = 0;
  limit = 4;
  width = 2;
  first_toprc = 1;
  num_toprcs = 2;
}

-- The classes 1 and 2 are aliased.
abbrev target : Pressure
target = record { aliased = 6; toprc = general ∷ narrow ∷ wide ∷ [] }

abbrev class : ℕ → RegClass
class n = record { index = n; width = 1; toprc = n; first = 0; subclasses = 2 ^ n }

-- Four narrow registers may block all four wide ones, but leave narrow ones.
answers :
    (check_avail target (class 0) ≡ 0)
    × (check_avail target (class 1) ≡ 0)
    × (check_avail target (class 2) ≡ 2)
    × (check_avail target (class 7) ≡ 0)
unfolding check_avail is_aliased check_avail_aliased aliases prefix skip scan claimed answer
    total_count mask_of
answers = (refl, refl, refl, refl)

resets :
    (reset_transient target).toprc ≡ general ∷ record narrow { transient_count = 0 } ∷ wide ∷ []
unfolding reset_transient
resets = refl

target-IsCounted : IsCounted target
target-IsCounted zero t e = ground arith
target-IsCounted (suc zero) t e = ground arith
target-IsCounted (suc (suc zero)) t e = ground arith
target-IsCounted (suc (suc (suc i))) t e = cc

-- The narrow registers in use block four wide ones, all their units, and the wide one its own.
wide-Blocked : Blocked 2 (narrow ∷ wide ∷ []) 10
wide-Blocked =
    whole_class narrow (wide ∷ []) 2 (omega arith) (omega arith)
      (wide_class wide [] 0 (omega arith) nothing)

wide-AllSmall : AllSmall 2 (narrow ∷ wide ∷ [])
wide-AllSmall zero t e =
    let same : narrow ≡ t = ground arith in
    rw (← same) (record {
      count = omega arith;
      by_width = omega arith;
      by_own = omega arith;
      in_class = omega arith;
    })
wide-AllSmall (suc zero) t e =
    let same : wide ≡ t = ground arith in
    rw (← same) (record {
      count = omega arith;
      by_width = omega arith;
      by_own = omega arith;
      in_class = omega arith;
    })
wide-AllSmall (suc (suc k)) t e = absurd (ground arith)

bank : (k : ℕ) → k < 2 → get_elem? target.toprc (1 + k) ≡ get_elem? (narrow ∷ wide ∷ []) k
bank zero lt = refl
bank (suc zero) lt = refl
bank (suc (suc k)) lt = absurd (omega arith)

check_avail_aliased-Blocked_example : (check_avail_aliased target wide ≡ 0) ↔ (10 < 4 * 2)
check_avail_aliased-Blocked_example =
    check_avail_aliased-Blocked target wide (narrow ∷ wide ∷ []) 10 (omega arith) (omega arith) refl
      bank wide-Blocked (omega arith) wide-AllSmall (omega arith)

target-IsWithin : IsWithin target
unfolding is_aliased total_count
target-IsWithin = record { slots = omega arith; fits = fits; limits = limits }
  where
    fits :
        (i : ℕ) (t : TopRc)
        → get_elem? target.toprc i ≡ some t
        → is_aliased target i ≡ false
        → total_count t ≤ t.limit
    fits zero t e s = ground arith
    fits (suc zero) t e s = cc
    fits (suc (suc zero)) t e s = cc
    fits (suc (suc (suc i))) t e s = cc

    limits : (i : ℕ) (t : TopRc) → get_elem? target.toprc i ≡ some t → t.limit < 2 ^ 32
    limits zero t e = ground arith
    limits (suc zero) t e = ground arith
    limits (suc (suc zero)) t e = ground arith
    limits (suc (suc (suc i))) t e = cc

abbrev taken : Pressure
taken = record target { toprc = update target.toprc 0 take_one }

take_transient-IsWithin_example : IsWithin taken
unfolding take_transient check_avail is_aliased total_count
take_transient-IsWithin_example =
    take_transient-IsWithin target taken (class 0) target-IsWithin refl
