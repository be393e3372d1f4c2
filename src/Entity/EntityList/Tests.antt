-- ===== src/Entity/EntityList/Tests.antt =====
-- Runs on small pools: two lists, one of which fills its block.
use cretonne.Prelude.{ℕ, ◌+◌, ◌^◌, ◌<◌, ◌≡◌, refl, ◌==◌, some, List, [], ◌∷◌, if◌then◌else◌, arith}
use native.Mathlib.Decide.{ℕ_discrete}
use cretonne.Prelude.Swap
use cretonne.Prelude.Panic.{◌>>=◌}
use cretonne.Prelude.Splice.{insert_at, remove_at}
use cretonne.Entity.EntityList.{
  EntityList, ListPool, sclass_size, sclass_for_length, is_sclass_min_length, as_slice, get, first,
  list_len, alloc, free, push, insert, remove, swap_remove, extend, grow_at, empty,
}
use cretonne.Entity.EntityList.Blocks.{Use, size_of, Holds, IsPool}
use cretonne.Entity.EntityList.Store.{Represents}
use cretonne.Entity.EntityList.Append.{Pushed}
use cretonne.Entity.EntityList.Clear.{Updated, Cleared, clear-Cleared}
use cretonne.Entity.EntityList.Fresh.{Allocated, alloc-Allocated}
use cretonne.Entity.EntityList.Push.{push-Pushed}
use cretonne.Entity.EntityList.Read.{reads-Represents}
use cretonne.Entity.EntityList.Remove.{remove-Represents}
use cretonne.Entity.EntityList.Insert.{insert-Represents}
use cretonne.Entity.EntityList.SwapRemove.{swap_remove-Represents}

abbrev three : List ℕ
three = 10 ∷ 11 ∷ 12 ∷ []

abbrev one : List ℕ
one = 7 ∷ []

abbrev pool : ListPool
pool = record { words = 3 ∷ 10 ∷ 11 ∷ 12 ∷ 1 ∷ 7 ∷ 0 ∷ 0 ∷ []; heads = [] }

abbrev at_three : EntityList
at_three = record { index = 1 }

abbrev uses : ℕ → Use
uses b = if b == 0 then Use.live three else if b == 4 then Use.live one else Use.vacant

three_size : size_of (Use.live three) ≡ 4
unfolding size_of sclass_size sclass_for_length
three_size = refl

one_size : size_of (Use.live one) ≡ 4
unfolding size_of sclass_size sclass_for_length
one_size = refl

sizes : (b : ℕ) → size_of (uses b) ≡ (if b == 0 then 4 else if b == 4 then 4 else 0)
unfolding size_of
sizes b = elim (ℕ_discrete b 0) [
  | yes e ↦ rw e three_size
  | no e ↦ elim (ℕ_discrete b 4) [
    | yes e' ↦ rw e' one_size
    | no e' ↦ let same : uses b ≡ Use.vacant = ground arith in rw same (ground arith)
  ]
]

three-Holds : Holds pool.words 0 three
three-Holds = record {
  some_elem = omega arith;
  short = omega arith;
  header = refl;
  elems = λ k x at. ground arith;
}

one-Holds : Holds pool.words 4 one
one-Holds = record {
  some_elem = omega arith;
  short = omega arith;
  header = refl;
  elems = λ k x at. ground arith;
}

pool-IsPool : IsPool pool uses
pool-IsPool = record {
  small = omega arith;
  fits = λ b pos. ground (arith, sizes b);
  apart = λ b b' lt pos. ground (arith, sizes b, sizes b');
  contents = λ b xs e. elim (ℕ_discrete b 0) [
    | yes at ↦ let same : three ≡ xs = ground arith in rw (at, ← same) three-Holds
    | no away ↦ elim (ℕ_discrete b 4) [
      | yes at ↦ let same : one ≡ xs = ground arith in rw (at, ← same) one-Holds
      | no away' ↦ let same : uses b ≡ Use.vacant = ground arith in absurd (ground arith)
    ]
  ];
  chains = λ c. ([], refl);
}

push_runs :
    push at_three 13 pool
    ≡ some (
      record { index = 9 },
      record {
        words = 0 ∷ 0 ∷ 11 ∷ 12 ∷ 1 ∷ 7 ∷ 0 ∷ 0 ∷ 4 ∷ 10 ∷ 11 ∷ 12 ∷ 13 ∷ 0 ∷ 0 ∷ 0 ∷ [];
        heads = 1 ∷ [];
      },
      3,
    )
unfolding push is_sclass_min_length sclass_for_length sclass_size alloc free
push_runs = refl

remove_runs :
    remove at_three 0 pool
    ≡ some (at_three, record { words = 2 ∷ 11 ∷ 12 ∷ 12 ∷ 1 ∷ 7 ∷ 0 ∷ 0 ∷ []; heads = [] })
unfolding remove is_sclass_min_length
remove_runs = refl

grow_at_runs :
    grow_at at_three 1 2 pool
    ≡ some (
      record { index = 9 },
      record {
        words = 0 ∷ 0 ∷ 11 ∷ 12 ∷ 1 ∷ 7 ∷ 0 ∷ 0 ∷ 5 ∷ 10 ∷ 11 ∷ 12 ∷ 11 ∷ 12 ∷ 0 ∷ 0 ∷ [];
        heads = 1 ∷ [];
      },
    )
unfolding grow_at sclass_for_length sclass_size alloc free
grow_at_runs = refl

extend_runs :
    (do (l, p) ← extend empty (5 ∷ 6 ∷ 7 ∷ 8 ∷ []) pool; as_slice l p) ≡ some (5 ∷ 6 ∷ 7 ∷ 8 ∷ [])
unfolding extend is_sclass_min_length sclass_for_length sclass_size alloc free empty as_slice
extend_runs = refl

at_three-Represents : Represents uses at_three three
at_three-Represents = (0, refl, refl)

room :
    (n : ℕ)
    → sclass_size (sclass_for_length n) < 100
    → 8 + sclass_size (sclass_for_length n) < 2 ^ 32
room n lt = omega arith

four_small : sclass_size (sclass_for_length 4) < 100
unfolding sclass_size sclass_for_length
four_small = omega arith

two_small : sclass_size (sclass_for_length 2) < 100
unfolding sclass_size sclass_for_length
two_small = omega arith

eight_small : 8 + sclass_size 1 < 2 ^ 32
unfolding sclass_size
eight_small = omega arith

push-Pushed_example : Pushed uses at_three three 13 (push at_three 13 pool)
push-Pushed_example =
    push-Pushed pool uses at_three three 13 pool-IsPool at_three-Represents (room 4 four_small)

insert-Represents_example : Updated uses at_three (insert_at three 1 13) (insert at_three 1 13 pool)
insert-Represents_example =
    insert-Represents pool uses at_three three 1 13 pool-IsPool at_three-Represents (omega arith)
      (room 4 four_small)

remove-Represents_example : Updated uses at_three (remove_at three 0) (remove at_three 0 pool)
remove-Represents_example =
    remove-Represents pool uses at_three three 0 pool-IsPool at_three-Represents (omega arith)
      (room 2 two_small)

swap_remove-Represents_example :
    Updated uses at_three (Swap.swap_remove three 0) (swap_remove at_three 0 pool)
swap_remove-Represents_example =
    swap_remove-Represents pool uses at_three three 0 pool-IsPool at_three-Represents (omega arith)
      (room 2 two_small)

clear-Cleared_example : Cleared pool uses at_three three
clear-Cleared_example = clear-Cleared pool uses at_three three pool-IsPool at_three-Represents

reads-Represents_example :
    (as_slice at_three pool ≡ some three)
    × (list_len at_three pool ≡ 3)
    × (get at_three 1 pool ≡ some (some 11))
    × (first at_three pool ≡ some (some 10))
reads-Represents_example =
    reads-Represents pool uses pool-IsPool at_three three 1 at_three-Represents

alloc-Allocated_example : Allocated pool uses 1 (alloc pool 1)
alloc-Allocated_example = alloc-Allocated pool uses pool-IsPool 1 eight_small
