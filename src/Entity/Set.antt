-- ===== src/Entity/Set.antt =====
-- lib/cretonne/src/entity/set.rs: `EntitySet`, a set of entities as bits in bytes. `none` is the panic of an
-- index out of range.
pub mod Laws
mod Tests
use Prim.Native.Nat.{bit_and, bit_or}
use cretonne.Prelude.{
  ℕ, ◌+◌, ◌/◌, ◌%◌, ◌^◌, Bool, true, false, not, ltb, leb, ◌==◌, Option, none, some, List, [],
  get_elem?, if◌then◌else◌,
}
use cretonne.Prelude.Panic.{◌>>=◌, write}
use cretonne.Entity.Map.{vec_resize}

-- The field `len` is `set_len`.
pub record EntitySet : Type 0 where
  pub elems : List ℕ
  pub set_len : ℕ

unfoldable pub new : EntitySet
new = record { elems = []; set_len = 0 }

unfoldable pub contains : EntitySet → ℕ → Option Bool
contains s k =
    if ltb k s.set_len
    then (get_elem? s.elems (k / 8) >>= λ byte. some (not (bit_and byte (2 ^ (k % 8)) == 0)))
    else some false

unfoldable pub is_empty : EntitySet → Bool
is_empty s = s.set_len == 0

unfoldable pub clear : EntitySet → EntitySet
clear s = record { elems = []; set_len = 0 }

unfoldable pub resize : EntitySet → ℕ → EntitySet
unfolding vec_resize
resize s n = record { elems = vec_resize s.elems ((n + 7) / 8) 0; set_len = n }

-- The result is whether the element is new.
unfoldable pub insert : EntitySet → ℕ → Option (Bool × EntitySet)
unfolding contains resize write
insert s k = do
  grown ← some (if leb s.set_len k then resize s (k + 1) else s)
  here ← contains grown k
  byte ← get_elem? grown.elems (k / 8)
  elems ← write grown.elems (k / 8) (bit_or byte (2 ^ (k % 8)))
  some (not here, record grown { elems = elems })
