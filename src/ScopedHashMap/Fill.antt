-- ===== src/ScopedHashMap/Fill.antt =====
-- The invariant of a scoped map, and insertions through `entry`.
use mathlib.Core.Path.{subst}
use cretonne.Prelude.{
  ℕ, ◌≤◌, ◌≡◌, ◌↔◌, refl, sym, ap, ◌∙◌, Bool, true, false, Option, none, some, List, [], ◌∷◌,
  if◌then◌else◌, arith, Option-cases, Bool-cases, inl, inr,
}
use cretonne.ScopedHashMap.{Val, VacantEntry, Entry, ScopedHashMap, new, insert, lookup, entry}

module _ {K : Type 0} (eq : K → K → Bool) (eq_iff : (a b : K) → (eq a b ≡ true) ↔ (a ≡ b)) where
  pub same_key : (k : K) → eq k k ≡ true
  same_key k = let (_, back) = eq_iff k k in back refl

module _ {K V : Type 0} (eq : K → K → Bool) (eq_iff : (a b : K) → (eq a b ≡ true) ↔ (a ≡ b)) where
  abbrev pub first_key : List (K × Val K V) → Option K
  first_key [] = none
  first_key ((k, _) ∷ _) = some k

  -- Every entry leads to the one before it, no key is there twice, and the depths do not decrease.
  pub data Chained : ℕ → List (K × Val K V) → Type 0 where
    nil : (d : ℕ) → Chained d []
    cons :
        (d : ℕ) (k : K) (val : Val K V) (map : List (K × Val K V))
        → val.next_key ≡ first_key map
        → val.depth ≤ d
        → lookup eq map k ≡ none
        → Chained val.depth map
        → Chained d ((k, val) ∷ map)

  pub record IsValid (m : ScopedHashMap K V) : Type 0 where
    pub last : m.last_insert ≡ first_key m.map
    pub chained : Chained m.current_depth m.map

  -- The way a client uses `entry`: insert where the key is vacant.
  abbrev pub fill : V → Entry K V × ScopedHashMap K V → ScopedHashMap K V
  fill v (Entry.occupied _, m) = m
  fill v (Entry.vacant at, m) = insert at v m

  abbrev pub get_or_insert : ScopedHashMap K V → K → V → ScopedHashMap K V
  get_or_insert m k v = fill v (entry eq m k)

  abbrev pub insert_all : List (K × V) → ScopedHashMap K V → ScopedHashMap K V
  insert_all [] m = m
  insert_all ((k, v) ∷ kvs) m = insert_all kvs (get_or_insert m k v)

  pub Chained-mono : (d d' : ℕ) (map : List (K × Val K V)) → d ≤ d' → Chained d map → Chained d' map
  Chained-mono d d' _ le (nil _) = nil d'
  Chained-mono _ d' _ le (cons d k val map next low absent rest) =
      cons d' k val map next (omega arith) absent rest

  pub new-IsValid : IsValid new
  unfolding new
  new-IsValid = record { last = refl; chained = nil 0 }

  abbrev pub with_entry : ScopedHashMap K V → K → V → ScopedHashMap K V
  with_entry m k v = record {
    map = (k, record { value = v; next_key = m.last_insert; depth = m.current_depth }) ∷ m.map;
    last_insert = some k;
    current_depth = m.current_depth;
  }

  pub fill_vacant :
      (m : ScopedHashMap K V) (k : K) (v : V)
      → lookup eq m.map k ≡ none
      → get_or_insert m k v ≡ with_entry m k v
  unfolding entry insert
  fill_vacant m k v absent =
      let at : VacantEntry K = record {
        key = k;
        next_key = m.last_insert;
        depth = m.current_depth;
      } in
      let e : entry eq m k ≡ (Entry.vacant at, record m { last_insert = some k }) =
        rw (entry, absent) refl in
      ap (fill v) e

  pub fill_occupied :
      (m : ScopedHashMap K V) (k : K) (v : V) (val : Val K V)
      → lookup eq m.map k ≡ some val
      → get_or_insert m k v ≡ m
  unfolding entry
  fill_occupied m k v val there =
      let e : entry eq m k ≡ (Entry.occupied val.value, m) = rw (entry, there) refl in ap (fill v) e

  pub get_or_insert-IsValid :
      (m : ScopedHashMap K V) (k : K) (v : V) → IsValid m → IsValid (get_or_insert m k v)
  get_or_insert-IsValid m k v h = elim (Option-cases (lookup eq m.map k)) [
    | inl absent ↦ subst IsValid (sym (fill_vacant m k v absent)) record {
      last = refl;
      chained = cons m.current_depth k _ m.map h.last (omega arith) absent h.chained;
    }
    | inr (val, there) ↦ subst IsValid (sym (fill_occupied m k v val there)) h
  ]

  pub insert_all-IsValid :
      (kvs : List (K × V)) (m : ScopedHashMap K V) → IsValid m → IsValid (insert_all kvs m)
  insert_all-IsValid [] m h = h
  insert_all-IsValid ((k, v) ∷ kvs) m h =
      insert_all-IsValid kvs (get_or_insert m k v) (get_or_insert-IsValid m k v h)

  -- After `get_or_insert` a key has the value that it had, or the new one if it is the key and had none.
  pub lookup-get_or_insert :
      (m : ScopedHashMap K V) (k : K) (v : V) (k' : K)
      → lookup eq (get_or_insert m k v).map k' ≡ elim (lookup eq m.map k') [
        | some val ↦ some val
        | none ↦
            if eq k k'
            then some (record { value = v; next_key = m.last_insert; depth = m.current_depth })
            else none
      ]
  unfolding lookup
  lookup-get_or_insert m k v k' =
      let new : Val K V = record { value = v; next_key = m.last_insert; depth = m.current_depth } in
      elim (Bool-cases (eq k k')) [
        | inl match ↦
            let (to, _) = eq_iff k k' in
            let key = ap (lookup eq m.map) (to match) in
            elim (Option-cases (lookup eq m.map k)) [
              | inl absent ↦
                  let gone = sym key ∙ absent in
                  ap (λ z. lookup eq z.map k') (fill_vacant m k v absent)
                  ∙ rw (match, gone, match) refl
              | inr (val, there) ↦
                  let kept = sym key ∙ there in
                  ap (λ z. lookup eq z.map k') (fill_occupied m k v val there) ∙ rw kept refl
            ]
        | inr other ↦ elim (Option-cases (lookup eq m.map k)) [
          | inl absent ↦
              ap (λ z. lookup eq z.map k') (fill_vacant m k v absent)
              ∙ rw other (unchanged other (lookup eq m.map k'))
          | inr (val, there) ↦
              ap (λ z. lookup eq z.map k') (fill_occupied m k v val there)
              ∙ unchanged other (lookup eq m.map k')
        ]
      ]
    where
      unchanged :
          eq k k' ≡ false
          → (o : Option (Val K V))
          → o ≡ elim o [
            | some val ↦ some val
            | none ↦
                if eq k k'
                then some (record { value = v; next_key = m.last_insert; depth = m.current_depth })
                else none
          ]
      unchanged other none = rw other refl
      unchanged other (some val) = refl
