-- ===== src/Entity/EntityList/Read.antt =====
-- What is read of a list in a pool.
use cretonne.Prelude.{
  ℕ, suc, ◌+◌, ◌≤◌, ◌≡◌, refl, ◌∙◌, ap, none, some, List, [], ◌∷◌, length, get_elem?, take, drop,
  arith,
}
use native.Mathlib.Decide.{dec_lt}
use cretonne.Prelude.Swap.{get_elem?_within, get_elem?_beyond, get_elem?-take}
use cretonne.Prelude.Panic.{get_elem?-drop, get_elem?-ext}
use cretonne.Entity.EntityList.{
  EntityList, ListPool, len_of, list_len, is_empty, slice, as_slice, get, first,
}
use cretonne.Entity.EntityList.Blocks.{Use, IsPool, live_block}
use cretonne.Entity.EntityList.Store.{Represents, Filled}
use cretonne.Entity.EntityList.Relocate.{len_of_live}

slice_elem :
    (d xs : List ℕ) (at : ℕ)
    → ((k x : ℕ) → get_elem? xs k ≡ some x → get_elem? d (at + k) ≡ some x)
    → (j : ℕ) → get_elem? (take (length xs) (drop at d)) j ≡ get_elem? xs j
slice_elem d xs at filled j = elim (dec_lt j (length xs)) [
  | yes lt ↦
      let (x, there) = get_elem?_within xs j lt in
      ground (arith, get_elem?-take (length xs) (drop at d) j, get_elem?-drop at d j, filled j x)
  | no ge ↦ ground (arith, get_elem?-take (length xs) (drop at d) j, get_elem?_beyond xs j)
]

slice-Filled :
    (d xs : List ℕ) (b : ℕ)
    → Filled d b xs
    → suc b + length xs ≤ length d
    → slice d (suc b) (length xs) ≡ some xs
unfolding slice
slice-Filled d xs b filled fits =
    let same : take (length xs) (drop (suc b) d) ≡ xs =
      get_elem?-ext (take (length xs) (drop (suc b) d)) xs (
        slice_elem d xs (suc b)
          (λ k x at. let e : suc b + k ≡ b + suc k = omega arith in rw e (filled k x at))) in
    rw same (ground arith)

as_slice_live :
    (p : ListPool) (l : EntityList) (n : ℕ)
    → len_of p l ≡ some n
    → as_slice l p ≡ slice p.words l.index n
unfolding as_slice
as_slice_live p l n e = rw (as_slice, e) refl

pub len_of_empty : (p : ListPool) (l : EntityList) → l.index ≡ 0 → len_of p l ≡ none
unfolding len_of
len_of_empty p l e = rw e refl

as_slice_empty : (p : ListPool) (l : EntityList) → len_of p l ≡ none → as_slice l p ≡ some []
unfolding as_slice
as_slice_empty p l e = rw (as_slice, e) refl

module _ (p : ListPool) (u : ℕ → Use) (h : IsPool p u) where
  pub room_of_live : (b : ℕ) (xs : List ℕ) → u b ≡ Use.live xs → suc b + length xs ≤ length p.words
  room_of_live b xs e = omega (arith, h.fits b, live_block p u h b xs e)

  -- `as_slice` of a list of the pool does not panic and is what the list stands for.
  pub as_slice-Represents :
      (l : EntityList) (xs : List ℕ) → Represents u l xs → as_slice l p ≡ some xs
  as_slice-Represents l [] e = as_slice_empty p l (len_of_empty p l e)
  as_slice-Represents l (x ∷ xs) (b, e, live) =
      let held = h.contents b (x ∷ xs) live in
      as_slice_live p l (length (x ∷ xs)) (len_of_live p l b (length (x ∷ xs)) e held.header)
      ∙ ap (λ i. slice p.words i (length (x ∷ xs))) e
      ∙ slice-Filled p.words (x ∷ xs) b held.elems (room_of_live b (x ∷ xs) live)

  -- The other reads of a list, in terms of what it stands for.
  get-Represents :
      (l : EntityList) (xs : List ℕ) (i : ℕ) → Represents u l xs → get l i p ≡ some (get_elem? xs i)
  unfolding get
  get-Represents l xs i r = rw (as_slice-Represents l xs r) refl

  first-Represents :
      (l : EntityList) (xs : List ℕ) → Represents u l xs → first l p ≡ some (get_elem? xs 0)
  unfolding first is_empty
  first-Represents l [] e = rw e refl
  first-Represents l (x ∷ xs) (b, e, live) =
      let at : get_elem? p.words (b + 1) ≡ some x = (h.contents b (x ∷ xs) live).elems 0 x refl in
      let e' : suc b ≡ b + 1 = omega arith in rw (e, e', at) (ground arith)

  length-Represents : (l : EntityList) (xs : List ℕ) → Represents u l xs → list_len l p ≡ length xs
  unfolding list_len
  length-Represents l [] e = rw (list_len, len_of_empty p l e) refl
  length-Represents l (x ∷ xs) (b, e, live) =
      rw (list_len, len_of_live p l b (length (x ∷ xs)) e (h.contents b (x ∷ xs) live).header) refl

  -- The reads of a list that is sound: its length, its elements, the first of them and whether
  -- there are any.
  pub reads-Represents :
      (l : EntityList) (xs : List ℕ) (i : ℕ)
      → Represents u l xs
      → (as_slice l p ≡ some xs)
        × (list_len l p ≡ length xs)
        × (get l i p ≡ some (get_elem? xs i))
        × (first l p ≡ some (get_elem? xs 0))
  reads-Represents l xs i r = (
    as_slice-Represents l xs r,
    length-Represents l xs r,
    get-Represents l xs i r,
    first-Represents l xs r,
  )
