-- ===== src/Entity/Map.antt =====
-- lib/cretonne/src/entity/map.rs: `EntityMap`, a vector that reads as a default beyond its end.
use cretonne.Prelude.{
  ◌≤◌, ◌<◌, ℕ, zero, suc, ◌+◌, ◌-◌, ◌≡◌, List, [], ◌∷◌, ◌++◌, Option, none, some, arith, leb, ltb,
  ◌==◌, if◌then◌else◌, length, get_elem?, get_or, set, take, replicate, length-append,
  length-replicate,
}
use cretonne.Prelude.Swap.{get_elem?-append, get_elem?-set, get_elem?_beyond, get_elem?_lt}

pub record EntityMap {ℓ} (V : Type ℓ) : Type ℓ where
  pub elems : List V
  pub default : V

-- `Vec::resize`: truncate, or fill up with copies.
unfoldable pub vec_resize {ℓ} : {V : Type ℓ} → List V → ℕ → V → List V
vec_resize xs n v = if leb n (length xs) then take n xs else xs ++ replicate (n - length xs) v

module _ {ℓ} {V : Type ℓ} where
  unfoldable pub with_default : V → EntityMap V
  with_default d = record { elems = []; default = d }

  unfoldable pub get : EntityMap V → ℕ → Option V
  get m k = get_elem? m.elems k

  -- `Index::index`.
  unfoldable pub index : EntityMap V → ℕ → V
  index m k = get_or m.elems k m.default

  pub clear : EntityMap V → EntityMap V
  clear m = record m { elems = [] }

  unfoldable pub resize : EntityMap V → ℕ → EntityMap V
  unfolding vec_resize
  resize m n = record m { elems = vec_resize m.elems n m.default }

  -- `*map.index_mut(k) = v`: the map grows as needed.
  unfoldable pub assign : EntityMap V → ℕ → V → EntityMap V
  unfolding resize
  assign m k v =
      let m' = if leb (length m.elems) k then resize m (k + 1) else m in
      record m' { elems = set m'.elems k v }

module _ {V : Type 0} where
  pub get_or-get :
      (xs : List V) (k : ℕ) (d : V)
      → get_or xs k d ≡ elim (get_elem? xs k) [ none ↦ d | some v ↦ v ]
  get_or-get [] k d = ground arith
  get_or-get (x ∷ xs) zero d = ground arith
  get_or-get (x ∷ xs) (suc k) d = get_or-get xs k d

  pub get_elem?-replicate :
      (n : ℕ) (d : V) (j : ℕ) → get_elem? (replicate n d) j ≡ (if ltb j n then some d else none)
  get_elem?-replicate zero d j = ground arith
  get_elem?-replicate (suc n) d zero = ground arith
  get_elem?-replicate (suc n) d (suc j) = ground (arith, get_elem?-replicate n d j)

  -- The entry at the assigned key is the value, also beyond the old end; entries that existed stay.
  pub get-assign :
      (m : EntityMap V) (k j : ℕ) (v : V)
      → get (assign m k v) j ≡ (
          if j == k
          then some v
          else if ltb j (length m.elems)
          then get m j
          else if ltb j k
          then some m.default
          else none)
  unfolding get assign resize vec_resize
  get-assign m k j v =
      let gap = replicate (k + 1 - length m.elems) m.default in
      ground (
        arith,
        get_elem?-set m.elems k j v,
        get_elem?-set (m.elems ++ gap) k j v,
        get_elem?-append m.elems gap j,
        get_elem?-replicate (k + 1 - length m.elems) m.default (j - length m.elems),
        get_elem?_beyond m.elems j,
        length-append m.elems gap,
        length-replicate (k + 1 - length m.elems) m.default,
      )

  default-assign : (m : EntityMap V) (k : ℕ) (v : V) → (assign m k v).default ≡ m.default
  unfolding assign resize
  default-assign m k v = ground arith

  index-get :
      (m : EntityMap V) (k : ℕ) → index m k ≡ elim (get m k) [ none ↦ m.default | some v ↦ v ]
  unfolding index get
  index-get m k = get_or-get m.elems k m.default

  get_beyond : (m : EntityMap V) (k : ℕ) → length m.elems ≤ k → get m k ≡ none
  unfolding get
  get_beyond m k = get_elem?_beyond m.elems k

  pub get_lt : (m : EntityMap V) (k : ℕ) {v : V} → get m k ≡ some v → k < length m.elems
  unfolding get
  get_lt m k e = get_elem?_lt m.elems k e

  -- A write changes what its key reads and no other key, whether or not the map has to grow.
  pub index-assign :
      (m : EntityMap V) (k j : ℕ) (v : V)
      → index (assign m k v) j ≡ (if j == k then v else index m j)
  index-assign m k j v = ground (
    arith,
    get-assign m k j v,
    index-get m j,
    index-get (assign m k v) j,
    default-assign m k v,
    get_beyond m j,
  )
