-- ===== src/RegAlloc/RegisterSet/Units.antt =====
-- A register set against the set of its units.
use Prim.Native.Nat.{bit_and, bit_or}
use native.Mathlib.Nat.{mod-lt}
use native.Mathlib.Decide.{ℕ_discrete}
use cretonne.Prelude.{
  ℕ, ◌+◌, ◌-◌, ◌*◌, ◌/◌, ◌%◌, ◌^◌, ◌≤◌, ◌<◌, ◌≡◌, refl, sym, ap, ◌∙◌, Bool, true, false, not, ◌&&◌,
  ◌||◌, ltb, leb, ◌==◌, some, List, length, get_elem?, get_or, set, length-set, min, if◌then◌else◌,
  arith, Bool-cases, inl, inr,
}
use cretonne.Prelude.Bits.{bit_or_lt, bit_and_lt}
use cretonne.Prelude.Digits.{
  digit, digit_lt, digit-bit_and, digit-bit_or-max, digit_complement, digit_mask, digit_shift,
  digit-mod, eq_of_digits,
}
use cretonne.Prelude.Swap.{get_elem?_within, get_elem?_lt, get_elem?-set, get_or-set}
use cretonne.Entity.Map.{get_or-get}
use cretonne.Isa.Registers.{RegClass}
use cretonne.RegAlloc.RegisterSet.{RegisterSet, bitmask, is_avail, take, free}

abbrev pub unit_digit : List ℕ → ℕ → ℕ
unit_digit words u = digit (u % 32) (get_or words (u / 32) 0)

abbrev pub available : RegisterSet → ℕ → Bool
available s u = unit_digit s.avail u == 1

-- Three words of 32 bits.
pub record IsWords (s : RegisterSet) : Type 0 where
  pub three : length s.avail ≡ 3
  pub words : (i w : ℕ) → get_elem? s.avail i ≡ some w → w < 2 ^ 32

-- The units of a register.
abbrev pub covers : RegClass → ℕ → ℕ → Bool
covers rc reg u = leb reg u && ltb u (reg + rc.width)

module _ (rc : RegClass) (reg : ℕ) (inside : reg < 96) (narrow : rc.width < 32)
    (straight : reg % 32 + rc.width ≤ 32) where
  abbrev bits : ℕ
  bits = (2 ^ (rc.width % 32) - 1) * 2 ^ (reg % 32) % 2 ^ 32

  bits_lt : bits < 2 ^ 32
  bits_lt = mod-lt ((2 ^ (rc.width % 32) - 1) * 2 ^ (reg % 32)) {m = 2 ^ 32} (omega arith)

  digit_bits :
      (j : ℕ)
      → j < 32
      → digit j bits ≡ (if leb (reg % 32) j && ltb j (reg % 32 + rc.width) then 1 else 0)
  digit_bits j lt =
      let e : rc.width % 32 ≡ rc.width = omega arith in
      digit-mod 32 j ((2 ^ (rc.width % 32) - 1) * 2 ^ (reg % 32)) lt
      ∙ digit_shift (reg % 32) j (2 ^ (rc.width % 32) - 1)
      ∙ rw e (ground (arith, digit_mask rc.width (j - reg % 32)))

  module _ (s : RegisterSet) (h : IsWords s) where
    word : (w : ℕ) × (get_elem? s.avail (reg / 32) ≡ some w) × (w < 2 ^ 32)
    word =
        let three = h.three in
        let (w, at) = get_elem?_within s.avail (reg / 32) (omega arith) in
        (w, at, h.words (reg / 32) w at)

    -- For a register of fewer than 32 units, within the 96 units and not across words, and a
    -- set of three words of 32 bits, `is_avail` ends without a panic, and holds exactly if
    -- every unit of the register is available.
    pub is_avail_iff :
        (b : Bool) × (is_avail s rc reg ≡ some b)
        × ((b ≡ true) → (u : ℕ) → covers rc reg u ≡ true → available s u ≡ true)
        × (((u : ℕ) → covers rc reg u ≡ true → available s u ≡ true) → b ≡ true)
    unfolding is_avail bitmask
    is_avail_iff =
        let (w, at, lt) = word in
        let here : get_or s.avail (reg / 32) 0 ≡ w = get_or-get s.avail (reg / 32) 0 ∙ rw at refl in
        (
          bit_and w bits == bits,
          rw at refl,
          (λ e u c.
              let same : bit_and w bits ≡ bits = ground arith in
              let block : u / 32 ≡ reg / 32 = ground arith in
              let one : digit (u % 32) bits ≡ 1 =
                digit_bits (u % 32) (omega arith) ∙ ground arith in
              let both : min (digit (u % 32) w) (digit (u % 32) bits) ≡ 1 =
                sym (digit-bit_and (u % 32) w bits) ∙ ap (digit (u % 32)) same ∙ one in
              let small = digit_lt (u % 32) w in
              let there : unit_digit s.avail u ≡ digit (u % 32) w =
                ap (λ z. digit (u % 32) (get_or s.avail z 0)) block ∙ ap (digit (u % 32)) here in
              rw there (ground arith)),
          (λ all.
              let agree : (j : ℕ) → j < 32 → digit j (bit_and w bits) ≡ digit j bits =
                λ j lt'. digit-bit_and j w bits ∙ masked w here all j lt' in
              let same =
                eq_of_digits 32 (bit_and w bits) bits (bit_and_lt 32 w bits lt) bits_lt agree in
              ground arith),
        )
      where
        masked :
            (w : ℕ)
            → get_or s.avail (reg / 32) 0 ≡ w
            → ((u : ℕ) → covers rc reg u ≡ true → available s u ≡ true)
            → (j : ℕ) → j < 32
            → min (digit j w) (digit j bits) ≡ digit j bits
        masked w here all j lt' =
            let u = reg / 32 * 32 + j in
            let block : u / 32 ≡ reg / 32 = omega arith in
            let place : u % 32 ≡ j = omega arith in
            let there : unit_digit s.avail u ≡ digit j w =
              ap (λ z. digit (u % 32) (get_or s.avail z 0)) block
              ∙ ap (λ z. digit z (get_or s.avail (reg / 32) 0)) place
              ∙ ap (digit j) here in
            let small = digit_lt j w in
            let mask = digit_bits j lt' in
            elim (Bool-cases (covers rc reg u)) [
              | inl c ↦
                  let full : digit j w ≡ 1 = sym there ∙ ground (arith, all u c) in ground arith
              | inr c ↦ let clear : digit j bits ≡ 0 = mask ∙ ground arith in ground arith
            ]

    written :
        (w v : ℕ)
        → get_elem? s.avail (reg / 32) ≡ some w
        → v < 2 ^ 32
        → (f : ℕ → ℕ)
        → ((j : ℕ)
            → j < 32
            → digit j v ≡ (
                if leb (reg % 32) j && ltb j (reg % 32 + rc.width)
                then f (digit j w)
                else digit j w))
        → (u : ℕ)
        → unit_digit (set s.avail (reg / 32) v) u
          ≡ (if covers rc reg u then f (unit_digit s.avail u) else unit_digit s.avail u)
    written w v at lt f changes u =
        let here : get_or s.avail (reg / 32) 0 ≡ w = get_or-get s.avail (reg / 32) 0 ∙ rw at refl in
        let set_at =
          get_or-set s.avail (reg / 32) (u / 32) v 0 (get_elem?_lt s.avail (reg / 32) at) in
        elim (ℕ_discrete (u / 32) (reg / 32)) [
          | yes e ↦
              let test : (u / 32 == reg / 32) ≡ true = ground arith in
              let now : get_or (set s.avail (reg / 32) v) (u / 32) 0 ≡ v = set_at ∙ rw test refl in
              let old : get_or s.avail (u / 32) 0 ≡ w = ap (λ z. get_or s.avail z 0) e ∙ here in
              let range : (leb (reg % 32) (u % 32) && ltb (u % 32) (reg % 32 + rc.width))
                  ≡ covers rc reg u =
                ground arith in
              ap (digit (u % 32)) now
              ∙ changes (u % 32) (omega arith)
              ∙ ap (λ z. if z then f (digit (u % 32) w) else digit (u % 32) w) range
              ∙ ap (λ z. if covers rc reg u then f (digit (u % 32) z) else digit (u % 32) z)
                  (sym old)
          | no ne ↦
              let test : (u / 32 == reg / 32) ≡ false = ground arith in
              let out : covers rc reg u ≡ false = ground arith in
              let stays : get_or (set s.avail (reg / 32) v) (u / 32) 0 ≡ get_or s.avail (u / 32) 0 =
                set_at ∙ rw test refl in
              rw out (ap (digit (u % 32)) stays)
        ]

    stays-IsWords : (v : ℕ) → v < 2 ^ 32 → IsWords (record { avail = set s.avail (reg / 32) v })
    stays-IsWords v lt =
        let (w, at, _) = word in
        record {
          three = length-set s.avail (reg / 32) v ∙ h.three;
          words = λ i x here. ground (
            arith,
            get_elem?-set s.avail (reg / 32) i v (get_elem?_lt s.avail (reg / 32) at),
            h.words i x,
          );
        }

    -- For a register of fewer than 32 units, within the 96 units and not across words, that is
    -- available in a set of three words of 32 bits, `take` ends without a panic. It makes the
    -- units of the register unavailable, and no others, and the words are three of 32 bits
    -- again.
    pub take_lem :
        is_avail s rc reg ≡ some true
        → (s' : RegisterSet) × (take s rc reg ≡ some s')
          × ((u : ℕ) → available s' u ≡ (available s u && not (covers rc reg u)))
          × IsWords s'
    unfolding take bitmask
    take_lem _ =
        let (w, at, lt) = word in
        let v = bit_and w (2 ^ 32 - 1 - bits) in
        let below = bit_and_lt 32 w (2 ^ 32 - 1 - bits) lt in
        let units =
          written w v at below (λ _. 0)
            (λ j lt'. ground (
              arith,
              digit-bit_and j w (2 ^ 32 - 1 - bits),
              digit_bits j lt',
              digit_complement 32 j bits bits_lt lt',
              digit_lt j w,
            )) in
        (
          record { avail = set s.avail (reg / 32) v },
          rw at refl,
          (λ u. ground (arith, units u)),
          stays-IsWords v below,
        )

    -- For such a register with no available unit, `free` ends without a panic. It makes the
    -- units of the register available, and no others.
    pub free_lem :
        ((u : ℕ) → covers rc reg u ≡ true → available s u ≡ false)
        → (s' : RegisterSet) × (free s rc reg ≡ some s')
          × ((u : ℕ) → available s' u ≡ (available s u || covers rc reg u))
          × IsWords s'
    unfolding free bitmask
    free_lem _ =
        let (w, at, lt) = word in
        let v = bit_or w bits in
        let below = bit_or_lt 32 w bits lt bits_lt in
        let units =
          written w v at below (λ _. 1)
            (λ j lt'. ground (arith, digit-bit_or-max j w bits, digit_bits j lt', digit_lt j w)) in
        (
          record { avail = set s.avail (reg / 32) v },
          rw at refl,
          (λ u. ground (arith, units u)),
          stays-IsWords v below,
        )
