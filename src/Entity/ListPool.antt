-- ===== src/Entity/ListPool.antt =====
-- lib/cretonne/src/entity/list.rs: the memory of a pool, in blocks of size classes. `none` is a panic;
-- debug assertions are off. An entity reference is its index, and `EntityRef::new` keeps 32 bits of
-- it.
use cretonne.Prelude.{
  ℕ, zero, suc, ◌+◌, ◌-◌, ◌*◌, ◌/◌, ◌%◌, ◌^◌, Bool, ◌&&◌, Option, none, some, List, [], ◌++◌, ◌==◌,
  ltb, leb, if◌then◌else◌, length, get_elem?, set, take, drop, replicate,
}
use cretonne.Prelude.Panic.{◌>>=◌, write, overwrite}

-- The index of the first element in the pool's memory, or 0.
pub record EntityList : Type 0 where
  pub index : ℕ

pub record ListPool : Type 0 where
  pub words : List ℕ
  pub heads : List ℕ

abbrev pub entity : ℕ → ℕ
entity n = n % 2 ^ 32

unfoldable pub sclass_size : ℕ → ℕ
sclass_size c = 4 * 2 ^ c

-- The number of bits up to the highest one set, of a number below `2 ^ fuel`.
unfoldable pub bit_length : ℕ → ℕ → ℕ
bit_length zero n = 0
bit_length (suc fuel) n = let rest = bit_length fuel (n / 2) in if n == 0 then 0 else suc rest

-- `leading_zeros` of a `u32`.
unfoldable pub leading_zeros : ℕ → ℕ
unfolding bit_length
leading_zeros n = 32 - bit_length 32 n

-- `len as u32 | 3` sets the low two bits.
unfoldable pub sclass_for_length : ℕ → ℕ
unfolding leading_zeros
sclass_for_length n = 30 - leading_zeros (n % 2 ^ 32 / 4 * 4 + 3)

-- `is_power_of_two` of a `usize`.
unfoldable pub is_power_of_two : ℕ → Bool
unfolding bit_length
is_power_of_two n = n == 2 ^ (bit_length 64 n - 1)

unfoldable pub is_sclass_min_length : ℕ → Bool
unfolding is_power_of_two
is_sclass_min_length n = ltb 3 n && is_power_of_two n

unfoldable pub new : ListPool
new = record { words = []; heads = [] }

unfoldable pub clear_pool : ListPool → ListPool
clear_pool p = record { words = []; heads = [] }

-- `idx.wrapping_sub(1)` of 0 is beyond the end of any vector.
unfoldable pub len_of : ListPool → EntityList → Option ℕ
len_of p l = if l.index == 0 then none else get_elem? p.words (l.index - 1)

unfoldable pub pop_free : ListPool → ℕ → ℕ → Option (ListPool × ℕ)
pop_free p c head = do
  next ← get_elem? p.words head
  some (record p { heads = set p.heads c next }, head - 1)

unfoldable pub extend_words : ListPool → ℕ → ListPool × ℕ
unfolding sclass_size
extend_words p c = (record p { words = p.words ++ replicate (sclass_size c) 0 }, length p.words)

unfoldable pub alloc : ListPool → ℕ → Option (ListPool × ℕ)
unfolding pop_free extend_words
alloc p c = elim (get_elem? p.heads c) [
  | none ↦ some (extend_words p c)
  | some head ↦ if ltb 0 head then pop_free p c head else some (extend_words p c)
]

-- The free-list heads with one for the class.
unfoldable pub heads_for : List ℕ → ℕ → List ℕ
heads_for hs c = if leb (length hs) c then hs ++ replicate (suc c - length hs) 0 else hs

unfoldable pub free : ListPool → ℕ → ℕ → Option ListPool
unfolding heads_for write
free p block c = do
  let hs = heads_for p.heads c
  head ← get_elem? hs c
  d ← write p.words block 0
  d' ← write d (block + 1) (entity head)
  some (record { words = d'; heads = set hs c (block + 1) })

-- `split_at_mut`: the part before the block that comes second, and from it on.
unfoldable pub mut_slices : List ℕ → ℕ → ℕ → List ℕ × List ℕ
mut_slices d block0 block1 =
    if ltb block0 block1
    then (drop block0 (take block1 d), drop block1 d)
    else (drop block0 d, drop block1 (take block0 d))

-- `new[0..n].copy_from_slice(old[0..n])`, with the checks of both slices.
unfoldable pub copy : List ℕ → ℕ → ℕ → ℕ → Option (List ℕ)
unfolding mut_slices overwrite
copy d old new n =
    let (from, to) = mut_slices d old new in
    if leb n (length from) && leb n (length to) then some (overwrite d new (take n from)) else none

unfoldable pub realloc : ListPool → ℕ → ℕ → ℕ → ℕ → Option (ListPool × ℕ)
unfolding alloc copy free
realloc p block from to n = do
  (p', new_block) ← alloc p to
  d ← if ltb 0 n then copy p'.words block new_block n else some p'.words
  p'' ← free (record p' { words = d }) block from
  some (p'', new_block)
