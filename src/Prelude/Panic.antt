-- ===== src/Prelude/Panic.antt =====
-- Code that may panic: `none` is a panic. Slices and vectors with checked indexes.
use Prim.Native.Nat.{ℕ, zero, suc, ◌+◌, ◌-◌, ◌<◌, ◌≤◌}
use mathlib.Core.Path.{◌≡◌, refl}
use mathlib.Core.List.{List, [], ◌∷◌, ◌++◌}
use mathlib.Core.Option.{Option, none, some}
use native.Mathlib.Omega.{arith}
use cretonne.Prelude.Tests.{ltb, if◌then◌else◌}
use cretonne.Prelude.Lists.{
  length, get_elem?, set, take, drop, length-append, length-take, length-drop,
}
use cretonne.Prelude.Swap.{get_elem?-take, get_elem?-append}

infixl 5 ◌>>=◌
abbrev pub ◌>>=◌ {ℓ κ} : {A : Type ℓ} {B : Type κ} → Option A → (A → Option B) → Option B
none >>= f = none
some a >>= f = f a

module _ {ℓ} {A : Type ℓ} where
  -- `xs[i] = v`.
  unfoldable pub write : List A → ℕ → A → Option (List A)
  write xs i v = if ltb i (length xs) then some (set xs i v) else none

  pub write-some : (xs : List A) (i : ℕ) (v : A) → i < length xs → write xs i v ≡ some (set xs i v)
  unfolding write
  write-some xs i v h = ground arith

  -- The elements from `at` on are replaced by those of `ys`.
  unfoldable pub overwrite : List A → ℕ → List A → List A
  overwrite xs at ys = take at xs ++ (ys ++ drop (at + length ys) xs)

module _ {A : Type 0} where
  pub get_elem?-drop :
      (n : ℕ) (xs : List A) (j : ℕ) → get_elem? (drop n xs) j ≡ get_elem? xs (n + j)
  get_elem?-drop zero xs j = ground arith
  get_elem?-drop (suc n) [] j = refl
  get_elem?-drop (suc n) (x ∷ xs) j = ground (arith, get_elem?-drop n xs j)

  pub length-overwrite :
      (xs : List A) (at : ℕ) (ys : List A)
      → at + length ys ≤ length xs
      → length (overwrite xs at ys) ≡ length xs
  unfolding overwrite
  length-overwrite xs at ys h = omega (
    arith,
    length-append (take at xs) (ys ++ drop (at + length ys) xs),
    length-append ys (drop (at + length ys) xs),
    length-take at xs,
    length-drop (at + length ys) xs,
  )

  pub get_elem?-overwrite :
      (xs : List A) (at : ℕ) (ys : List A) (j : ℕ)
      → at + length ys ≤ length xs
      → get_elem? (overwrite xs at ys) j ≡ (
          if ltb j at
          then get_elem? xs j
          else if ltb j (at + length ys)
          then get_elem? ys (j - at)
          else get_elem? xs j)
  unfolding overwrite
  get_elem?-overwrite xs at ys j h = ground (
    arith,
    get_elem?-append (take at xs) (ys ++ drop (at + length ys) xs) j,
    get_elem?-append ys (drop (at + length ys) xs) (j - at),
    length-take at xs,
    get_elem?-take at xs j,
    get_elem?-drop (at + length ys) xs (j - at - length ys),
  )

  -- Lists that read alike are equal.
  pub get_elem?-ext : (xs ys : List A) → ((j : ℕ) → get_elem? xs j ≡ get_elem? ys j) → xs ≡ ys
  get_elem?-ext [] [] same = refl
  get_elem?-ext [] (y ∷ ys) same = absurd (ground (arith, same 0))
  get_elem?-ext (x ∷ xs) [] same = absurd (ground (arith, same 0))
  get_elem?-ext (x ∷ xs) (y ∷ ys) same =
      let head : x ≡ y = ground (arith, same 0) in
      let tail : xs ≡ ys = get_elem?-ext xs ys (λ j. same (suc j)) in ground arith
