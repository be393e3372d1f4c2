-- ===== src/ScopedHashMap.antt =====
-- lib/cretonne/src/scoped_hash_map.rs: a map whose entries are removed with the scope that inserted them. The
-- `HashMap` inside is a list of entries, the latest first: it is used by lookup, insertion of an absent key
-- and removal only. `none` is a panic or the end of the fuel.
pub mod Fill
pub mod Scopes
mod Tests
use cretonne.Prelude.{
  ℕ, zero, suc, ◌+◌, ◌-◌, ◌^◌, Bool, true, false, ltb, ◌==◌, Option, none, some, List, [], ◌∷◌,
  length, if◌then◌else◌,
}
use cretonne.Prelude.Panic.{◌>>=◌}

pub record Val (K V : Type 0) : Type 0 where
  pub value : V
  pub next_key : Option K
  pub depth : ℕ

pub record VacantEntry (K : Type 0) : Type 0 where
  pub key : K
  pub next_key : Option K
  pub depth : ℕ

pub data Entry (K V : Type 0) : Type 0 where
  occupied : V → Entry K V
  vacant : VacantEntry K → Entry K V

pub record ScopedHashMap (K V : Type 0) : Type 0 where
  pub map : List (K × Val K V)
  pub last_insert : Option K
  pub current_depth : ℕ

module _ {K V : Type 0} where
  unfoldable pub new : ScopedHashMap K V
  new = record { map = []; last_insert = none; current_depth = 0 }

  -- `VacantEntry::insert`.
  unfoldable pub insert : VacantEntry K → V → ScopedHashMap K V → ScopedHashMap K V
  insert e v m = record m {
    map = (e.key, record { value = v; next_key = e.next_key; depth = e.depth }) ∷ m.map;
  }

  -- A depth is a `usize`.
  unfoldable pub increment_depth : ScopedHashMap K V → Option (ScopedHashMap K V)
  increment_depth m =
      if ltb (m.current_depth + 1) (2 ^ 64)
      then some (record m { current_depth = m.current_depth + 1 })
      else none

  -- `eq` is the keys' `==`.
  module _ (eq : K → K → Bool) where
    -- `HashMap::get`.
    unfoldable pub lookup : List (K × Val K V) → K → Option (Val K V)
    lookup [] k = none
    lookup ((k', val) ∷ map) k = if eq k' k then some val else lookup map k

    -- `OccupiedEntry::remove_entry`.
    unfoldable pub remove : List (K × Val K V) → K → List (K × Val K V)
    remove [] k = []
    remove ((k', val) ∷ map) k = if eq k' k then map else (k', val) ∷ remove map k

    -- The entry of a vacant key becomes the last insertion at once.
    unfoldable pub entry : ScopedHashMap K V → K → Entry K V × ScopedHashMap K V
    unfolding lookup
    entry m k = elim (lookup m.map k) [
      | some val ↦ (Entry.occupied val.value, m)
      | none ↦ (
        Entry.vacant (record { key = k; next_key = m.last_insert; depth = m.current_depth }),
        record m { last_insert = some k },
      )
    ]

    -- `while let Some(key) = self.last_insert.clone()`.
    unfoldable pub remove_scope : ℕ → ScopedHashMap K V → Option (ScopedHashMap K V)
    unfolding lookup remove
    remove_scope zero m = none
    remove_scope (suc fuel) m = elim m.last_insert [
      | none ↦ some m
      | some k ↦ elim (lookup m.map k) [
        | none ↦ none
        | some val ↦ elim (val.depth == m.current_depth) [
          | true ↦ remove_scope fuel (record m { map = remove m.map k; last_insert = val.next_key })
          | false ↦ some m
        ]
      ]
    ]

    -- A round removes an entry, so one round for each and one to end are enough.
    unfoldable pub decrement_depth : ScopedHashMap K V → Option (ScopedHashMap K V)
    unfolding remove_scope
    decrement_depth m = remove_scope (suc (length m.map)) m >>= λ m'.
        if ltb 0 m'.current_depth
        then some (record m' { current_depth = m'.current_depth - 1 })
        else none
