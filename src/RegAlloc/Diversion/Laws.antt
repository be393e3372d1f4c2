-- ===== src/RegAlloc/Diversion/Laws.antt =====
-- What `RegDiversions::get` reads after `divert`, `apply` and `remove`.
use native.Mathlib.Decide.{ℕ_discrete}
use cretonne.Prelude.{
  ℕ, ◌+◌, ◌-◌, ◌≡◌, ◌≢◌, ◌↔◌, refl, sym, ◌∙◌, [], ◌∷◌, ◌++◌, none, some, arith, ◌==◌, ltb,
  if◌then◌else◌, length, get_elem?, set, Option-cases, Bool-cases, inl, inr,
}
use cretonne.Prelude.Swap.{
  swap_remove, get_last?, get_elem?-swap_remove, get_elem?-set, get_elem?_lt,
}
use cretonne.Entity.Map
use cretonne.Entity.Map.{EntityMap}
use cretonne.Ir.ValueLoc.{ValueLoc, loc_eq, loc_eq_iff}
use cretonne.RegAlloc.Diversion.{Diversion, RegDiversions, diversion, position, get, divert, remove}
use cretonne.RegAlloc.Diversion.Valid.{
  position-some, position-none, diversion-some, diversion-none, divert_fresh, divert_found, IsValid,
  get_undiverted, get_diverted, divert-IsValid, remove-IsValid,
}

module _ (locations : EntityMap ValueLoc) where
  -- In a valid list an entry that is there is the one that is found.
  diversion_of_at :
      (ds : RegDiversions) (i : ℕ) (d : Diversion)
      → IsValid locations ds
      → get_elem? ds i ≡ some d
      → diversion ds d.value ≡ some d
  diversion_of_at ds i d h at = elim (Option-cases (diversion ds d.value)) [
    | inl absent ↦ absurd (diversion-none ds d.value i d absent at refl)
    | inr (c, found) ↦
        let (j, at', same) = diversion-some ds d.value c found in
        ground (arith, h.distinct i j d c at at' (sym same))
  ]

  -- A list reads as another at `w` if each entry for `w` in one is an entry of the other.
  diversion_same :
      (ds es : RegDiversions) (w : ℕ)
      → IsValid locations es
      → ((i : ℕ) (d : Diversion)
          → get_elem? ds i ≡ some d
          → d.value ≡ w
          → (j : ℕ) × (get_elem? es j ≡ some d))
      → ((i : ℕ) (d : Diversion)
          → get_elem? es i ≡ some d
          → d.value ≡ w
          → (j : ℕ) × (get_elem? ds j ≡ some d))
      → diversion es w ≡ diversion ds w
  diversion_same ds es w h there back = elim (Option-cases (diversion ds w)) [
    | inl absent ↦ elim (Option-cases (diversion es w)) [
      | inl absent' ↦ absent' ∙ sym absent
      | inr (d, found) ↦
          let (i, at, same) = diversion-some es w d found in
          let (j, at') = back i d at same in absurd (diversion-none ds w j d absent at' same)
    ]
    | inr (d, found) ↦
        let (i, at, same) = diversion-some ds w d found in
        let (j, at') = there i d at same in ground (arith, diversion_of_at es j d h at')
  ]

  removed :
      (ds : RegDiversions) (i w : ℕ) (d : Diversion)
      → IsValid locations ds
      → IsValid locations (swap_remove ds i)
      → get_elem? ds i ≡ some d
      → diversion (swap_remove ds i) w ≡ (if w == d.value then none else diversion ds w)
  removed ds i w d h h' at = elim (ℕ_discrete w d.value) [
    | yes e ↦ elim (Option-cases (diversion (swap_remove ds i) w)) [
      | inl gone ↦ ground arith
      | inr (c, found) ↦
          let (j, at', same) = diversion-some (swap_remove ds i) w c found in
          absurd
            (ground (arith, read j, h.distinct i j d c at, h.distinct i (length ds - 1) d c at))
    ]
    | no n ↦
        let same =
          diversion_same ds (swap_remove ds i) w h'
            (λ j c p q.
              let moved = if j == length ds - 1 then i else j in
              (moved, ground (arith, read moved, get_elem?_lt ds j p, get_elem?_lt ds i at, at)))
            (λ j c p q.
              let origin = if j == i then length ds - 1 else j in
              (origin, ground (arith, read j))) in
        ground arith
  ]
    where
      read :
          (j : ℕ)
          → get_elem? (swap_remove ds i) j ≡ (
              if ltb (j + 1) (length ds)
              then (if j == i then get_last? ds else get_elem? ds j)
              else none)
      read j = get_elem?-swap_remove ds i j (get_elem?_lt ds i at)

  changed :
      (ds : RegDiversions) (i w : ℕ) (d : Diversion) (to : ValueLoc)
      → IsValid locations ds
      → IsValid locations (set ds i (record d { to = to }))
      → get_elem? ds i ≡ some d
      → diversion (set ds i (record d { to = to })) w
        ≡ (if w == d.value then some (record d { to = to }) else diversion ds w)
  changed ds i w d to h h' at = elim (ℕ_discrete w d.value) [
    | yes e ↦ ground (
      arith,
      diversion_of_at (set ds i (record d { to = to })) i (record d { to = to }) h',
      read i,
    )
    | no n ↦
        let same =
          diversion_same ds (set ds i (record d { to = to })) w h'
            (λ j c p q. (j, ground (arith, read j))) (λ j c p q. (j, ground (arith, read j))) in
        ground arith
  ]
    where
      read :
          (j : ℕ)
          → get_elem? (set ds i (record d { to = to })) j
            ≡ (if j == i then some (record d { to = to }) else get_elem? ds j)
      read j = get_elem?-set ds i j (record d { to = to }) (get_elem?_lt ds i at)

  pushed :
      (ds : RegDiversions) (w : ℕ) (d : Diversion)
      → diversion ds d.value ≡ none
      → diversion (ds ++ d ∷ []) w ≡ (if w == d.value then some d else diversion ds w)
  unfolding diversion
  pushed [] w d e = ground arith
  pushed (c ∷ ds) w d e = ground (arith, pushed ds w d)

  -- After `divert` from where the value is, the value is at the new place, also if that is the
  -- place that the allocator gave it, and every other value is where it was.
  pub get-divert :
      (ds : RegDiversions) (v w : ℕ) (from to : ValueLoc)
      → IsValid locations ds
      → get ds locations v ≡ from
      → from ≢ to
      → get (divert ds v from to) locations w ≡ (if w == v then to else get ds locations w)
  unfolding get
  get-divert ds v w from to h here moves =
      let valid = divert-IsValid locations ds v from to h here moves in
      elim (Option-cases (position ds v)) [
        | inl absent ↦
            let added : Diversion = record { value = v; from = from; to = to } in
            rw (divert_fresh ds v from to absent)
              (ground (arith, pushed ds w added (position-none ds v absent)))
        | inr (i, found) ↦
            let (d, at, same, first) = position-some ds v i found in
            let step = divert_found ds v i d from to found at in
            let back = h.origin i d at in
            elim (Bool-cases (loc_eq d.from to)) [
              | inl home ↦
                  let e : divert ds v from to ≡ swap_remove ds i = ground arith in
                  rw e (
                    ground (
                      arith,
                      removed ds i w d h (rw e at valid) at,
                      (loc_eq_iff d.from to).0 home,
                      back,
                    ))
              | inr on ↦
                  let e : divert ds v from to ≡ set ds i (record d { to = to }) = ground arith in
                  rw e (ground (arith, changed ds i w d to h (rw e at valid) at))
            ]
      ]

  -- `remove` gives the value back to the place that the allocator gave it, leaves every other
  -- value, and returns the place where a diverted value was.
  pub get-remove :
      (ds : RegDiversions) (v w : ℕ)
      → IsValid locations ds
      → (get (remove ds v).0 locations w
          ≡ (if w == v then Map.index locations w else get ds locations w))
        × ((remove ds v).1
            ≡ elim (diversion ds v) [ none ↦ none | some _ ↦ some (get ds locations v) ])
  unfolding get remove
  get-remove ds v w h = elim (Option-cases (position ds v)) [
    | inl absent ↦
        (ground (arith, position-none ds v absent), ground (arith, position-none ds v absent))
    | inr (i, found) ↦
        let (d, at, same, first) = position-some ds v i found in
        let e : (remove ds v).0 ≡ swap_remove ds i = ground arith in
        let valid = rw e at (remove-IsValid locations ds v h) in
        (rw e (ground (arith, removed ds i w d h valid at)), ground arith)
  ]

  -- A value has a diversion exactly when it is not where the allocator put it.
  pub diversion_iff :
      (ds : RegDiversions) (v : ℕ)
      → IsValid locations ds
      → (diversion ds v ≡ none) ↔ (get ds locations v ≡ Map.index locations v)
  diversion_iff ds v h = (
    get_undiverted locations ds v,
    λ e. elim (Option-cases (diversion ds v)) [
      | inl absent ↦ absent
      | inr (d, found) ↦
          let (i, at, same) = diversion-some ds v d found in
          absurd
            (h.moved i d at (ground (arith, h.origin i d at, get_diverted locations ds v d found)))
    ],
  )
