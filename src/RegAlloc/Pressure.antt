-- ===== src/RegAlloc/Pressure.antt =====
-- lib/cretonne/src/regalloc/pressure.rs: how many registers of each top-level class are in use.
-- The register classes are tables that the build generates. Arithmetic is that of `u32`.
mod Tests
pub mod Aliased
pub mod Blocked
pub mod Counts
pub mod Within
use cretonne.Isa.Registers.{RegClass}
use cretonne.Prelude.{
  ℕ, zero, suc, ◌+◌, ◌-◌, ◌*◌, ◌/◌, ◌%◌, ◌^◌, min, List, [], ◌∷◌, map, Bool, Option, none, some,
  ◌==◌, ltb, leb, if◌then◌else◌, get_elem?,
}

pub record TopRc : Type 0 where
  pub base_count : ℕ
  pub transient_count : ℕ
  pub limit : ℕ
  pub width : ℕ
  pub first_toprc : ℕ
  pub num_toprcs : ℕ

pub record Pressure : Type 0 where
  pub aliased : ℕ
  pub toprc : List TopRc

unfoldable pub total_count : TopRc → ℕ
total_count t = (t.base_count + t.transient_count) % 2 ^ 32

-- `get_mut(i).map(f)`.
unfoldable pub update : List TopRc → ℕ → (TopRc → TopRc) → List TopRc
update [] i f = []
update (t ∷ ts) zero f = f t ∷ ts
update (t ∷ ts) (suc i) f = t ∷ update ts i f

-- The register units that a class may take from one of the given width.
unfoldable pub claimed : ℕ → TopRc → ℕ
unfolding total_count
claimed width rc =
    if ltb rc.width width
    then min (total_count rc * width % 2 ^ 32) (rc.limit * rc.width % 2 ^ 32)
    else total_count rc * rc.width % 2 ^ 32

-- The end of the loop: a class that is over the limit on its own, or the units of all.
pub data Scan : Type 0 where
  over : ℕ → Scan
  counted : ℕ → Scan

unfoldable pub scan : ℕ → ℕ → List TopRc → ℕ → ℕ → Scan
unfolding claimed
scan width ulimit [] rci units = Scan.counted units
scan width ulimit (rc ∷ rcs) rci units =
    let u = claimed width rc in
    let rest = scan width ulimit rcs (suc rci) ((units + u) % 2 ^ 32) in
    if leb ulimit u then Scan.over rci else rest

unfoldable pub prefix : ℕ → List TopRc → List TopRc
prefix zero ts = []
prefix (suc n) [] = []
prefix (suc n) (t ∷ ts) = t ∷ prefix n ts

unfoldable pub skip : ℕ → List TopRc → List TopRc
skip zero ts = ts
skip (suc n) [] = []
skip (suc n) (t ∷ ts) = skip n ts

-- `((1 << num) - 1) << first`.
unfoldable pub mask_of : ℕ → ℕ → ℕ
mask_of first num = (2 ^ num - 1) * 2 ^ first % 2 ^ 32

-- `self.toprc[first..first + num]`.
unfoldable pub aliases : Pressure → TopRc → List TopRc
unfolding prefix skip
aliases p entry = prefix entry.num_toprcs (skip entry.first_toprc p.toprc)

-- What the check returns after the loop.
unfoldable pub answer : Scan → ℕ → ℕ → ℕ → ℕ
unfolding mask_of
answer (Scan.over rci) ulimit first num = 2 ^ rci % 2 ^ 32
answer (Scan.counted units) ulimit first num = if ltb units ulimit then 0 else mask_of first num

unfoldable pub check_avail_aliased : Pressure → TopRc → ℕ
unfolding aliases scan answer
check_avail_aliased p entry =
    let ulimit = entry.limit * entry.width % 2 ^ 32 in
    answer (scan entry.width ulimit (aliases p entry) entry.first_toprc 0) ulimit entry.first_toprc
      entry.num_toprcs

-- Is the class of the index aliased?
unfoldable pub is_aliased : Pressure → ℕ → Bool
is_aliased p i = p.aliased / 2 ^ i % 2 == 1

unfoldable pub check_avail : Pressure → RegClass → ℕ
unfolding is_aliased check_avail_aliased total_count
check_avail p rc = elim (get_elem? p.toprc rc.toprc) [
  | none ↦ 0
  | some entry ↦
      let mask = 2 ^ rc.toprc % 2 ^ 32 in
      if is_aliased p rc.toprc
      then check_avail_aliased p entry
      else if ltb (total_count entry) entry.limit
      then 0
      else mask
]

abbrev pub take_base : TopRc → TopRc
take_base t = record t { base_count = (t.base_count + 1) % 2 ^ 32 }

abbrev pub free_base : TopRc → TopRc
free_base t = record t { base_count = (t.base_count + 2 ^ 32 - 1) % 2 ^ 32 }

abbrev pub take_one : TopRc → TopRc
take_one t = record t { transient_count = (t.transient_count + 1) % 2 ^ 32 }

unfoldable pub take : Pressure → RegClass → Pressure
unfolding update
take p rc = record p { toprc = update p.toprc rc.toprc take_base }

unfoldable pub free : Pressure → RegClass → Pressure
unfolding update
free p rc = record p { toprc = update p.toprc rc.toprc free_base }

abbrev pub zeroed : TopRc → TopRc
zeroed t = record t { base_count = 0; transient_count = 0 }

unfoldable pub reset : Pressure → Pressure
reset p = record p { toprc = map zeroed p.toprc }

-- `Result<(), RegClassMask>`, with the new state.
pub data Taken : Type 0 where
  ok : Pressure → Taken
  err : ℕ → Taken

unfoldable pub take_transient : Pressure → RegClass → Taken
unfolding check_avail update
take_transient p rc =
    let mask = check_avail p rc in
    if mask == 0
    then Taken.ok (record p { toprc = update p.toprc rc.toprc take_one })
    else Taken.err mask

abbrev pub stay : TopRc → TopRc
stay t = record t { transient_count = 0 }

unfoldable pub reset_transient : Pressure → Pressure
reset_transient p = record p { toprc = map stay p.toprc }

abbrev pub preserve : TopRc → TopRc
preserve t = record t {
  base_count = (t.base_count + t.transient_count) % 2 ^ 32;
  transient_count = 0;
}

unfoldable pub preserve_transient : Pressure → Pressure
preserve_transient p = record p { toprc = map preserve p.toprc }
