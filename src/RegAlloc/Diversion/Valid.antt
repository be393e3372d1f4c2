-- ===== src/RegAlloc/Diversion/Valid.antt =====
-- The invariant of `RegDiversions`: one entry for a value, that starts where the allocator put the
-- value and leads elsewhere. `divert` and `remove` keep it.
use native.Mathlib.Decide.{ℕ_discrete}
use cretonne.Prelude.{
  ℕ, zero, suc, ◌+◌, ◌-◌, ◌<◌, ◌≡◌, ◌≢◌, refl, [], ◌∷◌, ◌++◌, none, some, arith, ◌==◌, ltb,
  if◌then◌else◌, length, get_elem?, set, sym, ◌∙◌, Bool-cases, Option-cases, inl, inr,
}
use cretonne.Prelude.Swap.{
  swap_remove, get_last?, get_elem?-swap_remove, get_elem?-set, get_elem?-push, get_elem?_lt,
}
use cretonne.Entity.Map
use cretonne.Entity.Map.{EntityMap}
use cretonne.Ir.ValueLoc.{ValueLoc, loc_eq, loc_eq_iff}
use cretonne.RegAlloc.Diversion.{
  Diversion, RegDiversions, diversion, position, get, redirect, divert, remove,
}

pub position-some :
    (ds : RegDiversions) (v i : ℕ)
    → position ds v ≡ some i
    → (d : Diversion) × (get_elem? ds i ≡ some d) × (d.value ≡ v) × (diversion ds v ≡ some d)
unfolding position diversion
position-some [] v i e = cc
position-some (d ∷ ds) v i e = elim (ℕ_discrete d.value v) [
  | yes same ↦ (d, ground arith, same, ground arith)
  | no differs ↦ elim (Option-cases (position ds v)) [
    | inl absent ↦ absurd (ground arith)
    | inr (j, found) ↦
        let (c, at, same, first) = position-some ds v j found in
        (c, ground arith, same, ground arith)
  ]
]

pub position-none : (ds : RegDiversions) (v : ℕ) → position ds v ≡ none → diversion ds v ≡ none
unfolding position diversion
position-none [] v e = refl
position-none (d ∷ ds) v e = ground (arith, position-none ds v)

-- `find` finds an entry that is there.
pub diversion-some :
    (ds : RegDiversions) (v : ℕ) (d : Diversion)
    → diversion ds v ≡ some d
    → (i : ℕ) × (get_elem? ds i ≡ some d) × (d.value ≡ v)
unfolding diversion
diversion-some [] v d e = cc
diversion-some (c ∷ ds) v d e = elim (ℕ_discrete c.value v) [
  | yes same ↦ (0, ground arith, ground arith)
  | no differs ↦ let (i, at, same) = diversion-some ds v d (ground arith) in (suc i, at, same)
]

-- If it finds none, there is none.
pub diversion-none :
    (ds : RegDiversions) (v i : ℕ) (d : Diversion)
    → diversion ds v ≡ none
    → get_elem? ds i ≡ some d
    → d.value ≢ v
unfolding diversion
diversion-none [] v i d e at same = cc
diversion-none (c ∷ ds) v zero d e at same = ground arith
diversion-none (c ∷ ds) v (suc i) d e at same = diversion-none ds v i d (ground arith) at same

pub divert_fresh :
    (ds : RegDiversions) (v : ℕ) (from to : ValueLoc)
    → position ds v ≡ none
    → divert ds v from to ≡ ds ++ record { value = v; from = from; to = to } ∷ []
unfolding divert
divert_fresh ds v from to e = ground arith

pub divert_found :
    (ds : RegDiversions) (v i : ℕ) (d : Diversion) (from to : ValueLoc)
    → position ds v ≡ some i
    → get_elem? ds i ≡ some d
    → divert ds v from to
      ≡ (if loc_eq d.from to then swap_remove ds i else set ds i (record d { to = to }))
unfolding divert redirect
divert_found ds v i d from to found at = rw (found, divert, at)

module _ (locations : EntityMap ValueLoc) where
  pub record IsValid (ds : RegDiversions) : Type 0 where
    pub distinct :
        (i j : ℕ) (c d : Diversion)
        → get_elem? ds i ≡ some c
        → get_elem? ds j ≡ some d
        → c.value ≡ d.value
        → i ≡ j
    pub origin :
        (i : ℕ) (d : Diversion) → get_elem? ds i ≡ some d → d.from ≡ Map.index locations d.value
    pub moved : (i : ℕ) (d : Diversion) → get_elem? ds i ≡ some d → d.to ≢ d.from

  pub empty-IsValid : IsValid []
  empty-IsValid = record {
    distinct = λ i j c d p q e. cc;
    origin = λ i d p. cc;
    moved = λ i d p. cc;
  }

  swap_remove-IsValid :
      (ds : RegDiversions) (i : ℕ) → i < length ds → IsValid ds → IsValid (swap_remove ds i)
  swap_remove-IsValid ds i lt h = record {
    distinct = λ j k b c p q e. ground (
      arith,
      read j,
      read k,
      h.distinct j k b c,
      h.distinct (length ds - 1) k b c,
      h.distinct j (length ds - 1) b c,
    );
    origin = λ j c p. ground (arith, read j, h.origin j c, h.origin (length ds - 1) c);
    moved = λ j c p. ground (arith, read j, h.moved j c, h.moved (length ds - 1) c);
  }
    where
      read :
          (j : ℕ)
          → get_elem? (swap_remove ds i) j ≡ (
              if ltb (j + 1) (length ds)
              then (if j == i then get_last? ds else get_elem? ds j)
              else none)
      read j = get_elem?-swap_remove ds i j lt

  push-IsValid :
      (ds : RegDiversions) (v : ℕ) (to : ValueLoc)
      → diversion ds v ≡ none
      → to ≢ Map.index locations v
      → IsValid ds
      → IsValid (ds ++ record { value = v; from = Map.index locations v; to = to } ∷ [])
  push-IsValid ds v to fresh moves h = record {
    distinct = λ j k b c p q e. ground (
      arith,
      read j,
      read k,
      h.distinct j k b c,
      diversion-none ds v j b fresh,
      diversion-none ds v k c fresh,
    );
    origin = λ j c p. ground (arith, read j, h.origin j c);
    moved = λ j c p. ground (arith, read j, h.moved j c);
  }
    where
      read :
          (j : ℕ)
          → get_elem? (ds ++ record { value = v; from = Map.index locations v; to = to } ∷ []) j ≡ (
              if j == length ds
              then some (record { value = v; from = Map.index locations v; to = to })
              else get_elem? ds j)
      read j = get_elem?-push ds (record { value = v; from = Map.index locations v; to = to }) j

  set-IsValid :
      (ds : RegDiversions) (i : ℕ) (d : Diversion) (to : ValueLoc)
      → get_elem? ds i ≡ some d
      → to ≢ d.from
      → IsValid ds
      → IsValid (set ds i (record d { to = to }))
  set-IsValid ds i d to at moves h = record {
    distinct = λ j k b c p q e.
        ground
          (arith, read j, read k, h.distinct j k b c, h.distinct i k d c, h.distinct j i b d, at);
    origin = λ j c p. ground (arith, read j, h.origin j c, h.origin i d at);
    moved = λ j c p. ground (arith, read j, h.moved j c);
  }
    where
      read :
          (j : ℕ)
          → get_elem? (set ds i (record d { to = to })) j
            ≡ (if j == i then some (record d { to = to }) else get_elem? ds j)
      read j = get_elem?-set ds i j (record d { to = to }) (get_elem?_lt ds i at)

  -- Without a diversion the value is where the allocator put it.
  pub get_undiverted :
      (ds : RegDiversions) (v : ℕ)
      → diversion ds v ≡ none
      → get ds locations v ≡ Map.index locations v
  unfolding get
  get_undiverted ds v e = ground arith

  pub get_diverted :
      (ds : RegDiversions) (v : ℕ) (d : Diversion)
      → diversion ds v ≡ some d
      → get ds locations v ≡ d.to
  unfolding get
  get_diverted ds v d e = ground arith

  pub divert-IsValid :
      (ds : RegDiversions) (v : ℕ) (from to : ValueLoc)
      → IsValid ds
      → get ds locations v ≡ from
      → from ≢ to
      → IsValid (divert ds v from to)
  divert-IsValid ds v from to h here moves = elim (Option-cases (position ds v)) [
    | inl absent ↦
        let fresh = position-none ds v absent in
        let e = get_undiverted ds v fresh in
        rw (divert_fresh ds v from to absent, ← here, e)
          (push-IsValid ds v to fresh (λ p. moves (sym here ∙ e ∙ sym p)) h)
    | inr (i, found) ↦
        let (d, at, same, first) = position-some ds v i found in
        rw (divert_found ds v i d from to found at) (elim (Bool-cases (loc_eq d.from to)) [
          | inl back ↦ rw back (swap_remove-IsValid ds i (get_elem?_lt ds i at) h)
          | inr on ↦ rw on (set-IsValid ds i d to at (λ p. cc ((loc_eq_iff d.from to).1 (sym p))) h)
        ])
  ]

  pub remove-IsValid : (ds : RegDiversions) (v : ℕ) → IsValid ds → IsValid (remove ds v).0
  unfolding remove
  remove-IsValid ds v h = elim (Option-cases (position ds v)) [
    | inl absent ↦ rw (absent, remove) h
    | inr (i, found) ↦
        let (d, at, same, first) = position-some ds v i found in
        rw (found, remove) (swap_remove-IsValid ds i (get_elem?_lt ds i at) h)
  ]
