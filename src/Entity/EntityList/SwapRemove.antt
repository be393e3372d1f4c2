-- ===== src/Entity/EntityList/SwapRemove.antt =====
-- `swap_remove` fills the place of the removed element with the last, and leaves every other list
-- alone.
use cretonne.Prelude.{
  ℕ, suc, ◌+◌, ◌-◌, ◌^◌, ◌≤◌, ◌<◌, ◌≡◌, ◌≢◌, refl, ◌∙◌, true, false, ◌==◌, some, List, length,
  get_elem?, set, length-set, ltb, if◌then◌else◌, arith,
}
use native.Mathlib.Decide.{ℕ_discrete}
use cretonne.Prelude.Swap.{
  get_elem?-set, get_elem?_lt, get_elem?_within, get_elem?_beyond, length-swap_remove,
  get_elem?-swap_remove,
}
use cretonne.Prelude.Swap
use cretonne.Prelude.Splice.{remove_at, get_elem?-remove_at}
use cretonne.Prelude.Panic.{write-some, get_elem?-ext}
use cretonne.Entity.EntityList.{
  EntityList, ListPool, sclass_size, sclass_for_length, list_len, as_slice, swap, remove,
  swap_remove,
}
use cretonne.Entity.EntityList.Blocks.{Use, IsPool}
use cretonne.Entity.EntityList.Store.{Represents, Filled, live-Represents}
use cretonne.Entity.EntityList.Read.{reads-Represents, room_of_live}
use cretonne.Entity.EntityList.Clear.{Updated}
use cretonne.Entity.EntityList.Remove.{remove-Represents}
use cretonne.Entity.EntityList.InPlace.{
  block_of, rewritten, in_place-IsPool, rewritten_here, rewritten_there,
}

swap_step :
    (d : List ℕ) (at n i j a c : ℕ)
    → i < n
    → j < n
    → at + n ≤ length d
    → get_elem? d (at + i) ≡ some a
    → get_elem? d (at + j) ≡ some c
    → swap d at n i j ≡ some (set (set d (at + i) c) (at + j) a)
unfolding swap
swap_step d at n i j a c lt lt' fits e e' =
    let t : ltb i n ≡ true = ground arith in
    let t' : ltb j n ≡ true = ground arith in
    let first = write-some d (at + i) c (omega arith) in
    let second =
      write-some (set d (at + i) c) (at + j) a (omega (arith, length-set d (at + i) c)) in
    rw (t, t', e, e', first, second) refl

swap_remove_last :
    (l : EntityList) (i : ℕ) (p : ListPool) (n : ℕ)
    → list_len l p ≡ n
    → i < n
    → i ≡ n - 1
    → swap_remove l i p ≡ remove l i p
unfolding swap_remove
swap_remove_last l i p n len lt e =
    let t : (n == 0) ≡ false = ground arith in
    let t' : (i == n - 1) ≡ true = ground arith in rw (swap_remove, len, t, t') refl

swap_remove_inner :
    (l : EntityList) (i : ℕ) (p : ListPool) (seq d : List ℕ)
    → list_len l p ≡ length seq
    → as_slice l p ≡ some seq
    → i < length seq - 1
    → swap p.words l.index (length seq) i (length seq - 1) ≡ some d
    → swap_remove l i p ≡ remove l (length seq - 1) (record p { words = d })
unfolding swap_remove
swap_remove_inner l i p seq d len e lt s =
    let t : (length seq == 0) ≡ false = ground arith in
    let t' : (i == length seq - 1) ≡ false = ground arith in rw (swap_remove, len, t, t', e, s) refl

-- The last element, removed, or put in the place of another and removed there.
remove_at_last :
    (xs : List ℕ) (i : ℕ)
    → i < length xs
    → i ≡ length xs - 1
    → remove_at xs i ≡ Swap.swap_remove xs i
remove_at_last xs i lt e = get_elem?-ext (remove_at xs i) (Swap.swap_remove xs i) (λ j. ground (
  arith,
  get_elem?-remove_at xs i j,
  get_elem?-swap_remove xs i j lt,
  get_elem?_beyond xs (suc j),
))

remove_at_swapped :
    (xs : List ℕ) (i a c : ℕ)
    → i < length xs - 1
    → get_elem? xs i ≡ some a
    → get_elem? xs (length xs - 1) ≡ some c
    → remove_at (set (set xs i c) (length xs - 1) a) (length xs - 1) ≡ Swap.swap_remove xs i
remove_at_swapped xs i a c lt e e' =
    let last = length xs - 1 in
    let zs = set (set xs i c) last a in
    let len = length-set xs i c in
    get_elem?-ext (remove_at zs last) (Swap.swap_remove xs i) (λ j. ground (
      arith,
      get_elem?-remove_at zs last j,
      get_elem?-swap_remove xs i j (omega arith),
      get_elem?-set (set xs i c) last j a (omega (arith, len)),
      get_elem?-set (set xs i c) last (suc j) a (omega (arith, len)),
      get_elem?-set xs i j c (omega arith),
      get_elem?-set xs i (suc j) c (omega arith),
      get_elem?_beyond xs (suc j),
    ))

module _ (p : ListPool) (u : ℕ → Use) (h : IsPool p u) (b : ℕ) (xs : List ℕ) (i a c : ℕ)
    (live : u b ≡ Use.live xs) (lt : i < length xs - 1) (first : get_elem? xs i ≡ some a)
    (last : get_elem? xs (length xs - 1) ≡ some c) where
  zs : List ℕ
  zs = set (set xs i c) (length xs - 1) a

  words : List ℕ
  words = set (set p.words (suc b + i) c) (suc b + (length xs - 1)) a

  fits : suc b + length xs ≤ length p.words
  fits = room_of_live p u h b xs live

  word : (k y : ℕ) → get_elem? xs k ≡ some y → get_elem? p.words (suc b + k) ≡ some y
  word k y at =
      let e : suc b + k ≡ b + suc k = omega arith in rw e ((h.contents b xs live).elems k y at)

  swap_runs : swap p.words (suc b) (length xs) i (length xs - 1) ≡ some words
  unfolding words
  swap_runs =
      swap_step p.words (suc b) (length xs) i (length xs - 1) a c (omega arith) (omega arith) fits
        (word i a first) (word (length xs - 1) c last)

  length-zs : length zs ≡ length xs
  unfolding zs
  length-zs = length-set (set xs i c) (length xs - 1) a ∙ length-set xs i c

  length-words : length words ≡ length p.words
  unfolding words
  length-words =
      length-set (set p.words (suc b + i) c) (suc b + (length xs - 1)) a
      ∙ length-set p.words (suc b + i) c

  reads :
      (j : ℕ)
      → get_elem? words j ≡ (
          if j == suc b + (length xs - 1)
          then some a
          else if j == suc b + i
          then some c
          else get_elem? p.words j)
  unfolding words
  reads j = ground (
    arith,
    get_elem?-set (set p.words (suc b + i) c) (suc b + (length xs - 1)) j a
        (omega (arith, fits, length-set p.words (suc b + i) c)),
    get_elem?-set p.words (suc b + i) j c (omega (arith, fits)),
  )

  elsewhere :
      (j : ℕ) → (suc b ≤ j → suc b + length xs ≤ j) → get_elem? words j ≡ get_elem? p.words j
  elsewhere j out = ground (arith, reads j)

  zs_elem :
      (k : ℕ)
      → get_elem? zs k
        ≡ (if k == length xs - 1 then some a else if k == i then some c else get_elem? xs k)
  unfolding zs
  zs_elem k = ground (
    arith,
    get_elem?-set (set xs i c) (length xs - 1) k a (omega (arith, length-set xs i c)),
    get_elem?-set xs i k c (omega arith),
  )

  swap-Filled : Filled words b zs
  swap-Filled k y at =
      ground (arith, reads (b + suc k), zs_elem k, (h.contents b xs live).elems k y)

  uses : ℕ → Use
  uses = rewritten p u h b xs zs words live length-zs length-words elsewhere swap-Filled

  uses-IsPool : IsPool (record p { words = words }) uses
  unfolding uses
  uses-IsPool =
      in_place-IsPool p u h b xs zs words live length-zs length-words elsewhere swap-Filled

  uses-Represents : (l : EntityList) → l.index ≡ suc b → Represents uses l zs
  unfolding uses
  uses-Represents l index =
      live-Represents uses l b zs (omega (arith, length-zs)) index
        (rewritten_here p u h b xs zs words live length-zs length-words elsewhere swap-Filled)

  uses_there : (j : ℕ) → j ≢ b → uses j ≡ u j
  unfolding uses
  uses_there = rewritten_there p u h b xs zs words live length-zs length-words elsewhere swap-Filled

  inner-Updated :
      (l : EntityList)
      → l.index ≡ suc b
      → Represents u l xs
      → length p.words + sclass_size (sclass_for_length (length xs - 1)) < 2 ^ 32
      → Updated u l (Swap.swap_remove xs i) (swap_remove l i p)
  unfolding zs
  inner-Updated l index r room =
      let (seq, len, _, _) = reads-Represents p u h l xs i r in
      let runs : swap_remove l i p ≡ remove l (length xs - 1) (record p { words = words }) =
        swap_remove_inner l i p xs words len seq lt (rw index swap_runs) in
      let n : length zs ≡ length xs = length-zs in
      let removed =
        remove-Represents (record p { words = words }) uses l zs (length xs - 1) uses-IsPool
          (uses-Represents l index) (omega arith) (rw n (omega (arith, length-words, room))) in
      let final : remove_at zs (length xs - 1) ≡ Swap.swap_remove xs i =
        remove_at_swapped xs i a c lt first last in
      record {
        list = removed.list;
        pool = removed.pool;
        uses = removed.uses;
        runs = runs ∙ removed.runs;
        valid = removed.valid;
        holds = rw (← final) removed.holds;
        others = λ j ys ne e. removed.others j ys ne (uses_there j (λ same. ne (omega arith)) ∙ e);
      }

-- With room for the block of the shorter list, `swap_remove` of an element of the list does not
-- panic. The list then stands for its elements with the last one in the place of the removed one,
-- every other list of the pool stands for what it did, and the blocks of the pool are sound again.
pub swap_remove-Represents :
    (p : ListPool) (u : ℕ → Use) (l : EntityList) (xs : List ℕ) (i : ℕ)
    → IsPool p u
    → Represents u l xs
    → i < length xs
    → length p.words + sclass_size (sclass_for_length (length xs - 1)) < 2 ^ 32
    → Updated u l (Swap.swap_remove xs i) (swap_remove l i p)
swap_remove-Represents p u l xs i h r lt room =
    let (_, len, _, _) = reads-Represents p u h l xs i r in
    elim (ℕ_discrete i (length xs - 1)) [
      | yes last ↦
          let same = swap_remove_last l i p (length xs) len lt last in
          rw (same, ← remove_at_last xs i lt last) (remove-Represents p u l xs i h r lt room)
      | no inner ↦
          let (b, index, live) = block_of u l xs (omega arith) r in
          let (a, first) = get_elem?_within xs i lt in
          let (c, last) = get_elem?_within xs (length xs - 1) (omega arith) in
          inner-Updated p u h b xs i a c live (omega arith) first last l index r room
    ]
