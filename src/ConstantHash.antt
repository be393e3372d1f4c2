-- ===== src/ConstantHash.antt =====
-- lib/cretonne/src/constant_hash.rs: lookups in a precomputed hash table with quadratic probing. `none` is
-- the panic of a debug assertion or of an overflow, or the end of the fuel.
pub mod Triangle
pub mod Laws
mod Tests
use Prim.Native.Nat.{bit_and, bit_xor}
use cretonne.Prelude.Bits.{is_power_of_two}
use cretonne.Prelude.{
  ℕ, zero, suc, ◌+◌, ◌-◌, ◌*◌, ◌/◌, ◌%◌, ◌^◌, Bool, true, false, ltb, List, [], ◌∷◌, Option, none,
  some, if◌then◌else◌,
}

-- `trait Table`: the number of entries, and the key of an entry or `none` for an empty one.
pub record Table (K : Type 0) : Type 0 where
  pub entries : ℕ
  pub key : ℕ → Option K

-- `Result<usize, usize>`: the entry of the key, or the empty entry where the search ended.
pub data Probe : Type 0 where
  found vacant : ℕ → Probe

-- `eq` is the keys' `==`.
module _ {K : Type 0} (eq : K → K → Bool) (table : Table K) (wanted : K) where
  -- The loop, from `idx &= mask` on, with the rounds that are left.
  unfoldable pub probe_loop : ℕ → ℕ → ℕ → Option Probe
  probe_loop zero idx step = none
  probe_loop (suc rounds) idx step =
      let mask = table.entries - 1 in
      let at = bit_and idx mask in
      let next = step + 1 in
      let rest = if ltb (at + next) (2 ^ 64) then probe_loop rounds (at + next) next else none in
      elim (table.key at) [
        | none ↦ some (Probe.vacant at)
        | some k ↦
            if eq k wanted
            then some (Probe.found at)
            else if ltb next table.entries
            then rest
            else none
      ]

  -- The fuel is the table's size: the steps are bounded by it.
  unfoldable pub probe : ℕ → Option Probe
  unfolding probe_loop is_power_of_two
  probe hash = if is_power_of_two table.entries then probe_loop table.entries hash 0 else none

-- `u32::rotate_right(6)`.
unfoldable pub rotate_right_6 : ℕ → ℕ
rotate_right_6 h = h / 2 ^ 6 + h % 2 ^ 6 * 2 ^ 26

-- `simple_hash` from `h` on; a `char` is its code.
unfoldable pub hash_chars : ℕ → List ℕ → ℕ
unfolding rotate_right_6
hash_chars h [] = h
hash_chars h (c ∷ cs) = hash_chars ((bit_xor h c + rotate_right_6 h) % 2 ^ 32) cs

unfoldable pub simple_hash : List ℕ → ℕ
unfolding hash_chars
simple_hash cs = hash_chars 5381 cs
