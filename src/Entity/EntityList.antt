-- ===== src/Entity/EntityList.antt =====
-- lib/cretonne/src/entity/list.rs: lists of entity references in the memory of a pool.
pub mod SizeClass
pub mod Blocks
pub mod Alloc
pub mod Fresh
pub mod Store
pub mod Realloc
pub mod Relocate
pub mod Append
pub mod Push
pub mod Read
pub mod Clear
pub mod Remove
pub mod InPlace
pub mod Insert
pub mod SwapRemove
mod Tests
pub use cretonne.Entity.ListPool.{EntityList, ListPool}
unfoldable pub use cretonne.Entity.ListPool.{
  entity, sclass_size, bit_length, leading_zeros, sclass_for_length, is_power_of_two,
  is_sclass_min_length, new, clear_pool, len_of, pop_free, extend_words, alloc, heads_for, free,
  mut_slices, copy, realloc,
}
use cretonne.Prelude.{
  ℕ, zero, suc, ◌+◌, ◌-◌, ◌*◌, ◌/◌, ◌%◌, ◌^◌, Bool, true, false, ◌&&◌, ◌||◌, not, Option, none,
  some, List, [], ◌∷◌, ◌++◌, ◌==◌, ltb, leb, if◌then◌else◌, length, get_elem?, get_or, set, take,
  drop, replicate,
}
use cretonne.Prelude.Panic.{◌>>=◌, write, overwrite}

unfoldable pub empty : EntityList
empty = record { index = 0 }

unfoldable pub is_empty : EntityList → Bool
is_empty l = l.index == 0

unfoldable pub list_len : EntityList → ListPool → ℕ
unfolding len_of
list_len l p = elim (len_of p l) [ none ↦ 0 | some n ↦ n ]

unfoldable pub is_valid : EntityList → ListPool → Bool
unfolding is_empty len_of
is_valid l p = is_empty l || elim (len_of p l) [ none ↦ false | some n ↦ true ]

-- `&pool.data[idx..idx + len]`.
unfoldable pub slice : List ℕ → ℕ → ℕ → Option (List ℕ)
slice d at n = if leb (at + n) (length d) then some (take n (drop at d)) else none

unfoldable pub as_slice : EntityList → ListPool → Option (List ℕ)
unfolding len_of slice
as_slice l p = elim (len_of p l) [ none ↦ some [] | some n ↦ slice p.words l.index n ]

unfoldable pub get : EntityList → ℕ → ListPool → Option (Option ℕ)
unfolding as_slice
get l i p = do xs ← as_slice l p; some (get_elem? xs i)

unfoldable pub first : EntityList → ListPool → Option (Option ℕ)
unfolding is_empty
first l p = if is_empty l then some none else do x ← get_elem? p.words l.index; some (some x)

-- The list and the pool after the call.
unfoldable pub clear : EntityList → ListPool → Option (EntityList × ListPool)
unfolding len_of free
clear l p = elim (len_of p l) [
  | none ↦ some (empty, p)
  | some n ↦ do p' ← free p (l.index - 1) (sclass_for_length n); some (empty, p')
]

-- What is taken, and what is left.
unfoldable pub take_list : EntityList → EntityList × EntityList
take_list l = (l, empty)

abbrev pub list_at : ℕ → EntityList
list_at block = record { index = (block + 1) % 2 ^ 32 }

-- The list in a block of another class, or where it is; and its block.
unfoldable pub relocate :
    EntityList → ListPool → Bool → ℕ → ℕ → ℕ → Option (EntityList × ListPool × ℕ)
unfolding realloc
relocate l p moves from to n =
    if moves
    then (do (p', block) ← realloc p (l.index - 1) from to n; some (list_at block, p', block))
    else some (l, p, l.index - 1)

unfoldable pub push_first : ListPool → ℕ → Option (EntityList × ListPool × ℕ)
unfolding alloc write
push_first p x = do
  (p', block) ← alloc p (sclass_for_length 1)
  d ← write p'.words block (entity 1)
  d' ← write d (block + 1) x
  some (list_at block, record p' { words = d' }, 0)

unfoldable pub push_more : EntityList → ListPool → ℕ → ℕ → Option (EntityList × ListPool × ℕ)
unfolding relocate write
push_more l p n x = do
  let c = sclass_for_length n
  (l', p', block) ← relocate l p (is_sclass_min_length (n + 1)) c (c + 1) (n + 1)
  d ← write p'.words (block + (n + 1)) x
  d' ← write d block (entity (n + 1))
  some (l', record p' { words = d' }, n)

-- The list, the pool and the index of the element.
unfoldable pub push : EntityList → ℕ → ListPool → Option (EntityList × ListPool × ℕ)
unfolding len_of push_first push_more
push l x p = elim (len_of p l) [ none ↦ push_first p x | some n ↦ push_more l p n x ]

unfoldable pub extend : EntityList → List ℕ → ListPool → Option (EntityList × ListPool)
unfolding push
extend l [] p = some (l, p)
extend l (x ∷ xs) p = do (l', p', _) ← push l x p; extend l' xs p'

-- `for i in (0..k).rev() { d[at + by + i] = d[at + i] }`.
unfoldable pub shift_up : List ℕ → ℕ → ℕ → ℕ → Option (List ℕ)
unfolding write
shift_up d at by zero = some d
shift_up d at by (suc k) = do
  v ← get_elem? d (at + k)
  d' ← write d (at + by + k) v
  shift_up d' at by k

-- `for i in 0..k { d[at + i] = d[at + i + 1] }`.
unfoldable pub shift_down : List ℕ → ℕ → ℕ → Option (List ℕ)
unfolding write
shift_down d at zero = some d
shift_down d at (suc k) = do v ← get_elem? d (at + 1); d' ← write d at v; shift_down d' (at + 1) k

-- The tail from the index on moves up, if there is one.
unfoldable pub open_gap : List ℕ → ℕ → ℕ → ℕ → ℕ → Option (List ℕ)
unfolding shift_up write
open_gap d at n i x =
    if ltb i n then (do d' ← shift_up d (at + i) 1 (n - i - 1); write d' (at + i) x) else some d

unfoldable pub insert : EntityList → ℕ → ℕ → ListPool → Option (EntityList × ListPool)
unfolding push slice open_gap
insert l i x p = do
  (l', p', _) ← push l x p
  seq ← as_slice l' p'
  d ← open_gap p'.words l'.index (length seq) i x
  some (l', record p' { words = d })

-- The last step of a removal, with the elements moved down: a list that gets empty is cleared.
unfoldable pub drop_last : EntityList → ListPool → ℕ → Option (EntityList × ListPool)
unfolding clear relocate write
drop_last l p n = if n == 1 then clear l p else (do
  let c = sclass_for_length n
  (l', p', block) ← relocate l p (is_sclass_min_length n) c (c - 1) n
  d ← write p'.words block (entity (n - 1))
  some (l', record p' { words = d }))

-- Of an empty list, the loop from the index to `len - 1` runs out of the slice.
unfoldable pub remove : EntityList → ℕ → ListPool → Option (EntityList × ListPool)
unfolding as_slice shift_down drop_last
remove l i p = do
  seq ← as_slice l p
  if length seq == 0 then none else (do
    d ← shift_down p.words (l.index + i) (length seq - 1 - i)
    drop_last l (record p { words = d }) (length seq))

-- `seq.swap(i, j)` of a slice of `n` elements.
unfoldable pub swap : List ℕ → ℕ → ℕ → ℕ → ℕ → Option (List ℕ)
unfolding write
swap d at n i j =
    if ltb i n && ltb j n
    then (do
      a ← get_elem? d (at + i)
      b ← get_elem? d (at + j)
      d' ← write d (at + i) b
      write d' (at + j) a)
    else none

unfoldable pub swap_remove : EntityList → ℕ → ListPool → Option (EntityList × ListPool)
unfolding list_len as_slice swap remove
swap_remove l i p =
    let n = list_len l p in
    if n == 0 then none else if i == n - 1 then remove l i p else (do
      seq ← as_slice l p
      d ← swap p.words l.index (length seq) i (n - 1)
      remove l (n - 1) (record p { words = d }))

-- The list, the pool and the length of the slice.
unfoldable pub grow : EntityList → ℕ → ListPool → Option (EntityList × ListPool × ℕ)
unfolding len_of alloc relocate write slice
grow l count p = elim (len_of p l) [
  | none ↦ if count == 0 then some (l, p, 0) else (do
    (p', block) ← alloc p (sclass_for_length count)
    d ← write p'.words block (entity count)
    seq ← slice d (block + 1) count
    some (list_at block, record p' { words = d }, count))
  | some n ↦ do
    let c = sclass_for_length n
    let c' = sclass_for_length (n + count)
    (l', p', block) ← relocate l p (not (c' == c)) c c' (n + 1)
    d ← write p'.words block (entity (n + count))
    seq ← slice d (block + 1) (n + count)
    some (l', record p' { words = d }, n + count)
]

unfoldable pub grow_at : EntityList → ℕ → ℕ → ListPool → Option (EntityList × ListPool)
unfolding grow shift_up
grow_at l i count p = do
  (l', p', n) ← grow l count p
  d ← shift_up p'.words (l'.index + i) count (n - (i + count))
  some (l', record p' { words = d })
