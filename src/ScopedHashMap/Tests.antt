-- ===== src/ScopedHashMap/Tests.antt =====
-- Runs of a scoped map with numbers as keys and values.
use cretonne.Prelude.{
  ℕ, ◌+◌, ◌≡◌, ◌↔◌, refl, Bool, true, ◌==◌, none, some, [], ◌∷◌, if◌then◌else◌, arith,
}
use cretonne.Prelude.Panic.{◌>>=◌}
use cretonne.ScopedHashMap.{
  ScopedHashMap, new, insert, entry, increment_depth, decrement_depth, lookup,
}
use cretonne.ScopedHashMap.Fill.{
  IsValid, nil, cons, get_or_insert, insert_all, new-IsValid, insert_all-IsValid,
  lookup-get_or_insert,
}
use cretonne.ScopedHashMap.Scopes.{outer, decrement_depth-outer, decrement_depth-insert_all}

abbrev eq : ℕ → ℕ → Bool
eq a b = a == b

eq_iff : (a b : ℕ) → (eq a b ≡ true) ↔ (a ≡ b)
eq_iff a b = (λ e. ground arith, λ e. ground arith)

abbrev two_entries : ScopedHashMap ℕ ℕ
two_entries = insert_all eq eq_iff ((0, 1) ∷ (2, 8) ∷ []) new

two_entries-IsValid : IsValid eq eq_iff two_entries
two_entries-IsValid =
    insert_all-IsValid eq eq_iff ((0, 1) ∷ (2, 8) ∷ []) new (new-IsValid eq eq_iff)

-- A vacant entry that is looked at and not filled makes the end of the scope panic.
unfilled_entry :
    (let (_, m) = entry eq (new {K = ℕ} {V = ℕ}) 5 in
      increment_depth m >>= λ m'. decrement_depth eq m')
    ≡ none
unfolding new entry increment_depth decrement_depth
unfilled_entry = refl

decrement_depth-insert_all_example :
    (increment_depth two_entries >>= λ inner.
    decrement_depth eq (insert_all eq eq_iff ((1, 3) ∷ (2, 9) ∷ []) inner))
    ≡ some two_entries
unfolding new insert entry lookup
decrement_depth-insert_all_example =
    decrement_depth-insert_all eq eq_iff two_entries ((1, 3) ∷ (2, 9) ∷ []) two_entries-IsValid
      (omega arith)

lookup-get_or_insert_example :
    lookup eq (get_or_insert eq eq_iff two_entries 1 3).map 2 ≡ elim (lookup eq two_entries.map 2) [
      | some val ↦ some val
      | none ↦
          if eq 1 2
          then some (record {
            value = 3;
            next_key = two_entries.last_insert;
            depth = two_entries.current_depth;
          })
          else none
    ]
lookup-get_or_insert_example = lookup-get_or_insert eq eq_iff two_entries 1 3 2

-- A map with one entry, inside a scope.
abbrev inner_scope : ScopedHashMap ℕ ℕ
inner_scope = record {
  map = (7, record { value = 9; next_key = none; depth = 1 }) ∷ [];
  last_insert = some 7;
  current_depth = 1;
}

inner_scope-IsValid : IsValid eq eq_iff inner_scope
unfolding lookup
inner_scope-IsValid = record {
  last = refl;
  chained = cons 1 7 _ [] refl (omega arith) refl (nil 1);
}

decrement_depth-outer_example :
    (m' : ScopedHashMap ℕ ℕ) × (decrement_depth eq inner_scope ≡ some m')
    × (m'.map ≡ outer eq eq_iff 1 inner_scope.map)
    × (m'.current_depth + 1 ≡ 1)
    × IsValid eq eq_iff m'
decrement_depth-outer_example =
    decrement_depth-outer eq eq_iff inner_scope inner_scope-IsValid (omega arith)
