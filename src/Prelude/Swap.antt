-- ===== src/Prelude/Swap.antt =====
-- `Vec::pop` and `Vec::swap_remove` on lists, by index.
use Prim.Native.Nat.{ℕ, zero, suc, ◌+◌, ◌-◌, ◌<◌, ◌≤◌}
use mathlib.Core.Path.{◌≡◌, refl}
use mathlib.Core.Logic.{◌≢◌}
use mathlib.Core.List.{List, [], ◌∷◌, ◌++◌}
use mathlib.Core.Option.{Option, none, some}
use native.Mathlib.Omega.{arith}
use cretonne.Prelude.Tests.{ltb, ◌==◌, if◌then◌else◌}
use cretonne.Prelude.Lists.{get_or, length, get_elem?, set, take, length-set, length-take}

module _ {ℓ} {A : Type ℓ} where
  pub get_elem?-take :
      (n : ℕ) (xs : List A) (j : ℕ)
      → get_elem? (take n xs) j ≡ (if ltb j n then get_elem? xs j else none)
  get_elem?-take zero xs j = ground arith
  get_elem?-take (suc n) [] j = ground arith
  get_elem?-take (suc n) (x ∷ xs) zero = ground arith
  get_elem?-take (suc n) (x ∷ xs) (suc j) = ground (arith, get_elem?-take n xs j)

  pub get_elem?_lt : (xs : List A) (j : ℕ) {x : A} → get_elem? xs j ≡ some x → j < length xs
  get_elem?_lt [] j e = cc
  get_elem?_lt (x ∷ xs) zero e = omega arith
  get_elem?_lt (x ∷ xs) (suc j) e = omega (arith, get_elem?_lt xs j e)

  pub get_elem?_beyond : (xs : List A) (j : ℕ) → length xs ≤ j → get_elem? xs j ≡ none
  get_elem?_beyond [] j h = refl
  get_elem?_beyond (x ∷ xs) zero h = absurd (omega arith)
  get_elem?_beyond (x ∷ xs) (suc j) h = get_elem?_beyond xs j (omega arith)

  pub get_elem?_within : (xs : List A) (j : ℕ) → j < length xs → (x : A) × (get_elem? xs j ≡ some x)
  get_elem?_within [] j h = absurd (omega arith)
  get_elem?_within (x ∷ xs) zero h = (x, refl)
  get_elem?_within (x ∷ xs) (suc j) h = get_elem?_within xs j (omega arith)

  pub get_elem?-set :
      (xs : List A) (i j : ℕ) (v : A)
      → i < length xs
      → get_elem? (set xs i v) j ≡ (if j == i then some v else get_elem? xs j)
  get_elem?-set [] i j v h = absurd (omega arith)
  get_elem?-set (x ∷ xs) zero zero v h = refl
  get_elem?-set (x ∷ xs) zero (suc j) v h = ground arith
  get_elem?-set (x ∷ xs) (suc i) zero v h = ground arith
  get_elem?-set (x ∷ xs) (suc i) (suc j) v h = ground (arith, get_elem?-set xs i j v)

  pub get_or-set :
      (xs : List A) (i j : ℕ) (v d : A)
      → i < length xs
      → get_or (set xs i v) j d ≡ (if j == i then v else get_or xs j d)
  get_or-set [] i j v d h = absurd (omega arith)
  get_or-set (x ∷ xs) zero zero v d h = refl
  get_or-set (x ∷ xs) zero (suc j) v d h = ground arith
  get_or-set (x ∷ xs) (suc i) zero v d h = ground arith
  get_or-set (x ∷ xs) (suc i) (suc j) v d h = ground (arith, get_or-set xs i j v d)

  pub get_elem?-append :
      (xs ys : List A) (j : ℕ)
      → get_elem? (xs ++ ys) j
        ≡ (if ltb j (length xs) then get_elem? xs j else get_elem? ys (j - length xs))
  get_elem?-append [] ys j = ground arith
  get_elem?-append (x ∷ xs) ys zero = ground arith
  get_elem?-append (x ∷ xs) ys (suc j) = ground (arith, get_elem?-append xs ys j)

  -- `push` at the end.
  pub get_elem?-push :
      (xs : List A) (v : A) (j : ℕ)
      → get_elem? (xs ++ v ∷ []) j ≡ (if j == length xs then some v else get_elem? xs j)
  get_elem?-push [] v zero = refl
  get_elem?-push [] v (suc j) = ground arith
  get_elem?-push (x ∷ xs) v zero = ground arith
  get_elem?-push (x ∷ xs) v (suc j) = ground (arith, get_elem?-push xs v j)

  -- What `pop` leaves.
  abbrev pub but_last : List A → List A
  but_last xs = take (length xs - 1) xs

  -- What `pop` returns.
  abbrev pub get_last? : List A → Option A
  get_last? xs = get_elem? xs (length xs - 1)

  replace_at : List A → ℕ → Option A → List A
  replace_at xs i none = xs
  replace_at xs i (some v) = set xs i v

  -- The last element takes the place of the removed one.
  unfoldable pub swap_remove : List A → ℕ → List A
  unfolding replace_at
  swap_remove xs i =
      if i == length xs - 1 then but_last xs else replace_at (but_last xs) i (get_last? xs)

  replace_at-get :
      (xs : List A) (i j : ℕ) (o : Option A)
      → i < length xs
      → o ≢ none
      → get_elem? (replace_at xs i o) j ≡ (if j == i then o else get_elem? xs j)
  unfolding replace_at
  replace_at-get xs i j none h n = absurd (n refl)
  replace_at-get xs i j (some v) h n = get_elem?-set xs i j v h

  length-replace_at : (xs : List A) (i : ℕ) (o : Option A) → length (replace_at xs i o) ≡ length xs
  unfolding replace_at
  length-replace_at xs i none = refl
  length-replace_at xs i (some v) = length-set xs i v

  get_last?-ne-none : (xs : List A) → 0 < length xs → get_last? xs ≢ none
  get_last?-ne-none xs h e = let (x, p) = get_elem?_within xs (length xs - 1) (omega arith) in cc

  pub length-but_last : (xs : List A) → length (but_last xs) ≡ length xs - 1
  length-but_last xs = omega (arith, length-take (length xs - 1) xs)

  pub length-swap_remove :
      (xs : List A) (i : ℕ) → i < length xs → length (swap_remove xs i) ≡ length xs - 1
  unfolding swap_remove
  length-swap_remove xs i h =
      ground (arith, length-but_last xs, length-replace_at (but_last xs) i (get_last? xs))

module _ {A : Type 0} where
  pub get_elem?-swap_remove :
      (xs : List A) (i j : ℕ)
      → i < length xs
      → get_elem? (swap_remove xs i) j ≡ (
          if ltb (j + 1) (length xs)
          then (if j == i then get_last? xs else get_elem? xs j)
          else none)
  unfolding swap_remove
  get_elem?-swap_remove xs i j h = ground (
    arith,
    get_elem?-take (length xs - 1) xs j,
    replace_at-get (but_last xs) i j (get_last? xs),
    get_last?-ne-none xs,
    length-but_last xs,
  )
