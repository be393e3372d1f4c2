-- ===== src/Prelude/Splice.antt =====
-- Insertion into and removal from a list at an index, read index by index.
use Prim.Native.Nat.{ℕ, zero, suc, ◌+◌, ◌-◌, ◌<◌, ◌≤◌}
use mathlib.Core.Path.{◌≡◌, refl, ap}
use mathlib.Core.List.{List, [], ◌∷◌, ◌++◌}
use mathlib.Core.Option.{some}
use native.Mathlib.Omega.{arith}
use cretonne.Prelude.Tests.{ltb, ◌==◌, if◌then◌else◌}
use cretonne.Prelude.Lists.{length, get_elem?}

module _ {ℓ} {A : Type ℓ} where
  -- Beyond the end the element is put at the end.
  unfoldable pub insert_at : List A → ℕ → A → List A
  insert_at xs zero a = a ∷ xs
  insert_at [] (suc k) a = a ∷ []
  insert_at (x ∷ xs) (suc k) a = x ∷ insert_at xs k a

  unfoldable pub remove_at : List A → ℕ → List A
  remove_at [] k = []
  remove_at (x ∷ xs) zero = xs
  remove_at (x ∷ xs) (suc k) = x ∷ remove_at xs k

module _ {A : Type 0} where
  pub get_elem?-insert_at :
      (xs : List A) (k : ℕ) (a : A) (j : ℕ)
      → k ≤ length xs
      → get_elem? (insert_at xs k a) j
        ≡ (if ltb j k then get_elem? xs j else if j == k then some a else get_elem? xs (j - 1))
  unfolding insert_at
  get_elem?-insert_at xs zero a zero h = ground arith
  get_elem?-insert_at xs zero a (suc j) h = ground arith
  get_elem?-insert_at [] (suc k) a j h = absurd (omega arith)
  get_elem?-insert_at (x ∷ xs) (suc k) a zero h = ground arith
  get_elem?-insert_at (x ∷ xs) (suc k) a (suc zero) h = ground (arith, get_elem?-insert_at xs k a 0)
  get_elem?-insert_at (x ∷ xs) (suc k) a (suc (suc j)) h =
      ground (arith, get_elem?-insert_at xs k a (suc j))

  pub length-insert_at : (xs : List A) (k : ℕ) (a : A) → length (insert_at xs k a) ≡ length xs + 1
  unfolding insert_at
  length-insert_at xs zero a = omega arith
  length-insert_at [] (suc k) a = omega arith
  length-insert_at (x ∷ xs) (suc k) a = omega (arith, length-insert_at xs k a)

  pub get_elem?-remove_at :
      (xs : List A) (k j : ℕ)
      → get_elem? (remove_at xs k) j ≡ (if ltb j k then get_elem? xs j else get_elem? xs (suc j))
  unfolding remove_at
  get_elem?-remove_at [] k j = ground arith
  get_elem?-remove_at (x ∷ xs) zero j = ground arith
  get_elem?-remove_at (x ∷ xs) (suc k) zero = ground arith
  get_elem?-remove_at (x ∷ xs) (suc k) (suc j) = ground (arith, get_elem?-remove_at xs k j)

  pub length-remove_at :
      (xs : List A) (k : ℕ) → k < length xs → length (remove_at xs k) ≡ length xs - 1
  unfolding remove_at
  length-remove_at [] k h = absurd (omega arith)
  length-remove_at (x ∷ xs) zero h = omega arith
  length-remove_at (x ∷ xs) (suc k) h = omega (arith, length-remove_at xs k)

  pub insert_at-length : (xs : List A) (a : A) → insert_at xs (length xs) a ≡ xs ++ a ∷ []
  unfolding insert_at
  insert_at-length [] a = refl
  insert_at-length (x ∷ xs) a = ap (λ ys. x ∷ ys) (insert_at-length xs a)
