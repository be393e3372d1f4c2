-- ===== src/Entity/Sparse/Laws.antt =====
-- `SparseMap` as a finite map: what `get` reads after each operation, and what each returns.
use cretonne.Prelude.{
  ℕ, ◌-◌, ◌^◌, ◌<◌, ◌≡◌, ◌≢◌, refl, ◌∙◌, Option, none, some, arith, ◌==◌, Option-cases, inl, inr,
  if◌then◌else◌, length, get_elem?,
}
use cretonne.Prelude.Swap.{
  get_elem?-set, get_elem?-push, get_elem?-take, get_elem?_lt, length-but_last, swap_remove,
  get_elem?-swap_remove, get_elem?_within,
}
use native.Mathlib.Decide.{ℕ_discrete}
use cretonne.Entity.Map
use cretonne.Entity.Sparse.{
  SparseMap, new, clear, index, index_at, get, value_at, entry_index, entry_value, insert, refill,
  pop,
}
use cretonne.Entity.Sparse.Valid.{
  IsValid, removed, removed_at, index-some, index-none, insert-IsValid, removed-IsValid,
  pop-IsValid,
}

module _ {V : Type 0} (key : V → ℕ) where
  -- The value is stored, under this key.
  abbrev pub Holds : SparseMap V → ℕ → V → Type 0
  Holds m k v = (i : ℕ) × (get_elem? m.dense i ≡ some v) × (key v ≡ k)

  value_at-index_at :
      (m : SparseMap V) (k : ℕ) (o : Option ℕ)
      → value_at key m k o
        ≡ elim (index_at key m k o) [ none ↦ none | some i ↦ get_elem? m.dense i ]
  unfolding value_at index_at
  value_at-index_at m k none = refl
  value_at-index_at m k (some j) = there (get_elem? m.dense j) refl
    where
      there :
          (o : Option V)
          → get_elem? m.dense j ≡ o
          → entry_value key k (get_elem? m.dense j)
            ≡ elim (entry_index key k j (get_elem? m.dense j)) [
              | none ↦ none
              | some i ↦ get_elem? m.dense i
            ]
      there none e = ground arith
      there (some v) e = ground arith

  pub get-index :
      (m : SparseMap V) (k : ℕ)
      → get key m k ≡ elim (index key m k) [ none ↦ none | some i ↦ get_elem? m.dense i ]
  unfolding get index
  get-index m k = value_at-index_at m k (Map.get m.sparse k)

  pub get-some : (m : SparseMap V) (k : ℕ) (v : V) → get key m k ≡ some v → Holds m k v
  get-some m k v e = elim (Option-cases (index key m k)) [
    | inl absent ↦ absurd (ground (arith, get-index m k))
    | inr (i, found) ↦
        let at = index-some key m k i found in
        (i, ground (arith, get-index m k), ground (arith, get-index m k, at))
  ]

  pub get-none :
      (m : SparseMap V) (k : ℕ) → IsValid key m → get key m k ≡ none → (v : V) → ¬ Holds m k v
  get-none m k h e v (j, at, same) = elim (Option-cases (index key m k)) [
    | inl absent ↦ index-none key m k h absent j v at same
    | inr (i, found) ↦
        let there = index-some key m k i found in ground (arith, get-index m k, there)
  ]

  -- A stored value is found, and the values found for one key are one.
  pub get_of_Holds :
      (m : SparseMap V) (k : ℕ) (v : V) → IsValid key m → Holds m k v → get key m k ≡ some v
  get_of_Holds m k v h (j, at, same) = elim (Option-cases (get key m k)) [
    | inl absent ↦ absurd (get-none m k h absent v (j, at, same))
    | inr (w, found) ↦
        let (i, at', same') = get-some m k w found in
        ground (arith, h.linked i w at', h.linked j v at)
  ]

  -- What `get` reads is settled by what is stored.
  get_unique :
      (m : SparseMap V) (k : ℕ) (o : Option V)
      → IsValid key m
      → ((v : V) → o ≡ some v → Holds m k v)
      → (o ≡ none → (v : V) → ¬ Holds m k v)
      → get key m k ≡ o
  get_unique m k none h present none_held = elim (Option-cases (get key m k)) [
    | inl absent ↦ absent
    | inr (w, found) ↦ absurd (none_held refl w (get-some m k w found))
  ]
  get_unique m k (some v) h present none_held = get_of_Holds m k v h (present v refl)

  Holds-put_self : (m : SparseMap V) (v : V) → IsValid key m → Holds (insert key m v).0 (key v) v
  unfolding insert
  Holds-put_self m v h = elim (Option-cases (index key m (key v))) [
    | inl absent ↦
        rw (absent, insert)
          (length m.dense, ground (arith, get_elem?-push m.dense v (length m.dense)), refl)
    | inr (i, found) ↦
        let at = index-some key m (key v) i found in
        rw (found, insert)
          (i, ground (arith, get_elem?-set m.dense i i v (get_elem?_lt m.dense i at.1)), refl)
  ]

  Holds-put :
      (m : SparseMap V) (v : V) (k : ℕ) (w : V)
      → IsValid key m
      → k ≢ key v
      → Holds m k w
      → Holds (insert key m v).0 k w
  unfolding insert
  Holds-put m v k w h n (j, at, same) = elim (Option-cases (index key m (key v))) [
    | inl absent ↦
        rw (absent, insert)
          (j, ground (arith, get_elem?-push m.dense v j, get_elem?_lt m.dense j at), same)
    | inr (i, found) ↦
        let there = index-some key m (key v) i found in
        rw (found, insert)
          (j, ground (arith, get_elem?-set m.dense i j v (get_elem?_lt m.dense i there.1)), same)
  ]

  Holds-unput :
      (m : SparseMap V) (v : V) (k : ℕ) (w : V)
      → IsValid key m
      → k ≢ key v
      → Holds (insert key m v).0 k w
      → Holds m k w
  unfolding insert
  Holds-unput m v k w h n held = elim (Option-cases (index key m (key v))) [
    | inl absent ↦
        let (j, at, same) = rw (absent, insert) at held in
        (j, ground (arith, get_elem?-push m.dense v j), same)
    | inr (i, found) ↦
        let there = index-some key m (key v) i found in
        let (j, at, same) = rw (found, insert) at held in
        (j, ground (arith, get_elem?-set m.dense i j v (get_elem?_lt m.dense i there.1)), same)
  ]

  -- After `insert` the key of the value reads the value, and every other key reads as before.
  pub get-insert :
      (m : SparseMap V) (v : V) (k : ℕ)
      → IsValid key m
      → length m.dense < 2 ^ 32
      → get key (insert key m v).0 k ≡ (if k == key v then some v else get key m k)
  get-insert m v k h room = elim (ℕ_discrete k (key v)) [
    | yes e ↦
        let new_valid = insert-IsValid key m v h room in
        ground (arith, get_of_Holds (insert key m v).0 (key v) v new_valid (Holds-put_self m v h))
    | no n ↦
        let same =
          get_unique (insert key m v).0 k (get key m k) (insert-IsValid key m v h room)
            (λ w e. Holds-put m v k w h n (get-some m k w e))
            (λ e w held. get-none m k h e w (Holds-unput m v k w h n held)) in
        ground arith
  ]

  -- `insert` returns the value that the key had.
  pub insert-old : (m : SparseMap V) (v : V) → (insert key m v).1 ≡ get key m (key v)
  unfolding insert
  insert-old m v = ground (arith, get-index m (key v))

  -- `remove` returns the value that the key had.
  pub removed-old : (m : SparseMap V) (k : ℕ) → IsValid key m → (removed key m k).1 ≡ get key m k
  unfolding removed removed_at refill
  removed-old m k h = elim (Option-cases (index key m k)) [
    | inl absent ↦ ground (arith, get-index m k)
    | inr (i, found) ↦
        let there = index-some key m k i found in
        let lt = get_elem?_lt m.dense i there.1 in
        let last = get_elem?_within m.dense (length m.dense - 1) (omega arith) in
        ground (
          arith,
          get-index m k,
          last,
          length-but_last m.dense,
          get_elem?-take (length m.dense - 1) m.dense i,
        )
  ]

  dense-removed :
      (m : SparseMap V) (k i : ℕ)
      → index key m k ≡ some i
      → (removed key m k).0.dense ≡ swap_remove m.dense i
  unfolding removed removed_at refill swap_remove
  dense-removed m k i found =
      let there = index-some key m k i found in
      let lt = get_elem?_lt m.dense i there.1 in
      let last = get_elem?_within m.dense (length m.dense - 1) (omega arith) in
      ground (arith, last, length-but_last m.dense)

  Holds-removed :
      (m : SparseMap V) (k j : ℕ) (w : V)
      → IsValid key m
      → j ≢ k
      → Holds m j w
      → Holds (removed key m k).0 j w
  unfolding removed
  Holds-removed m k j w h n (a, at, same) = elim (Option-cases (index key m k)) [
    | inl absent ↦ rw (absent, removed) (a, at, same)
    | inr (i, found) ↦
        let there = index-some key m k i found in
        let lt = get_elem?_lt m.dense i there.1 in
        let moved = if a == length m.dense - 1 then i else a in
        (
          moved,
          rw (dense-removed m k i found) (
              ground (
                arith,
                get_elem?-swap_remove m.dense i moved lt,
                get_elem?_lt m.dense a at,
                there,
              )),
          same,
        )
  ]

  Holds-unremoved :
      (m : SparseMap V) (k j : ℕ) (w : V)
      → IsValid key m
      → Holds (removed key m k).0 j w
      → Holds m j w × (j ≢ k)
  unfolding removed
  Holds-unremoved m k j w h held = elim (Option-cases (index key m k)) [
    | inl absent ↦
        let (a, at, same) = rw (absent, removed) at held in
        ((a, at, same), λ e. index-none key m k h absent a w at (same ∙ e))
    | inr (i, found) ↦
        let there = index-some key m k i found in
        let lt = get_elem?_lt m.dense i there.1 in
        let (a, at, same) = held in
        let at' = rw (dense-removed m k i found) at at in
        let origin = if a == i then length m.dense - 1 else a in
        let read : get_elem? m.dense origin ≡ some w =
          ground (arith, get_elem?-swap_remove m.dense i a lt) in
        (
          (origin, read, same),
          λ e. ground (arith, get_elem?-swap_remove m.dense i a lt, h.linked origin w read, there),
        )
  ]

  -- After `remove` the key is absent, and every other key reads as before.
  pub get-removed :
      (m : SparseMap V) (k j : ℕ)
      → IsValid key m
      → get key (removed key m k).0 j ≡ (if j == k then none else get key m j)
  get-removed m k j h =
      let valid = removed-IsValid key m k h in
      elim (ℕ_discrete j k) [
        | yes e ↦
            let gone =
              get_unique (removed key m k).0 j none valid (λ w p. cc)
                (λ p w held. (Holds-unremoved m k j w h held).1 e) in
            ground arith
        | no n ↦
            let same =
              get_unique (removed key m k).0 j (get key m j) valid
                (λ w p. Holds-removed m k j w h n (get-some m j w p))
                (λ p w held. get-none m j h p w (Holds-unremoved m k j w h held).0) in
            ground arith
      ]

  -- `pop` removes the value that it returns, and only on an empty map is that nothing.
  pub get-pop :
      (m : SparseMap V) (j : ℕ) (back : V)
      → IsValid key m
      → (pop key m).1 ≡ some back
      → get key (pop key m).0 j ≡ (if j == key back then none else get key m j)
  unfolding pop
  get-pop m j back h last =
      let valid = pop-IsValid key m h in
      let kept = λ (i : ℕ). get_elem?-take (length m.dense - 1) m.dense i in
      elim (ℕ_discrete j (key back)) [
        | yes e ↦
            let gone =
              get_unique (pop key m).0 j none valid (λ w p. cc)
                (λ p w (i, at, same).
                  ground (arith, kept i, h.linked i w, h.linked (length m.dense - 1) back last)) in
            ground arith
        | no n ↦
            let same =
              get_unique (pop key m).0 j (get key m j) valid
                (λ w p.
                  let (i, at, e) = get-some m j w p in
                  (i, ground (arith, kept i, get_elem?_lt m.dense i at), e))
                (λ p w (i, at, e). get-none m j h p w (i, ground (arith, kept i), e)) in
            ground arith
      ]

  pub get-clear : (m : SparseMap V) (j : ℕ) → get key (clear key m) j ≡ none
  unfolding get value_at entry_value clear
  get-clear m j = ground arith

  pub get-new : (j : ℕ) → get key new j ≡ none
  unfolding get value_at entry_value new
  get-new j = ground arith
