-- ===== src/Ir/MemFlags.antt =====
-- lib/cretonne/src/ir/memflags.rs: the flags of memory operations, a bit of a `u8` each.
mod Tests
pub mod Laws
use Prim.Native.String.{String}
use text.Mathlib.Text
use cretonne.Prelude.{
  ℕ, ◌+◌, ◌/◌, ◌%◌, ◌^◌, Bool, true, false, not, Option, none, some, List, [], ◌∷◌, ◌++◌, ◌==◌,
  if◌then◌else◌,
}

pub data FlagBit : Type 0 where
  notrap aligned : FlagBit

-- `bit as usize`, and `NAMES[bit]`.
unfoldable pub index : FlagBit → ℕ
index FlagBit.notrap = 0
index FlagBit.aligned = 1

unfoldable pub name : FlagBit → String
name FlagBit.notrap = "notrap"
name FlagBit.aligned = "aligned"

pub record MemFlags : Type 0 where
  pub bits : ℕ

unfoldable pub new : MemFlags
new = record { bits = 0 }

-- Bit `i` of the bits.
abbrev pub has_bit : ℕ → ℕ → Bool
has_bit n i = not (n / 2 ^ i % 2 == 0)

unfoldable pub read : MemFlags → FlagBit → Bool
unfolding index
read f b = has_bit f.bits (index b)

-- `|=` with a single bit.
unfoldable pub set : MemFlags → FlagBit → MemFlags
unfolding index
set f b = if has_bit f.bits (index b) then f else record f { bits = f.bits + 2 ^ index b }

pub set_notrap : MemFlags → MemFlags
set_notrap f = set f FlagBit.notrap

pub set_aligned : MemFlags → MemFlags
set_aligned f = set f FlagBit.aligned

-- `NAMES.iter().position(...)`.
unfoldable pub position : String → Option FlagBit
unfolding name
position s =
    if Text.◌==◌ (name FlagBit.notrap) s
    then some FlagBit.notrap
    else if Text.◌==◌ (name FlagBit.aligned) s
    then some FlagBit.aligned
    else none

unfoldable pub set_by_name : MemFlags → String → MemFlags × Bool
unfolding position set
set_by_name f s = elim (position s) [ none ↦ (f, false) | some b ↦ (set f b, true) ]

-- The names that `fmt` writes, each after a space.
unfoldable pub written : MemFlags → List String
unfolding read name
written f =
    (if read f FlagBit.notrap then name FlagBit.notrap ∷ [] else [])
    ++ (if read f FlagBit.aligned then name FlagBit.aligned ∷ [] else [])
