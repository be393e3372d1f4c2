-- ===== src/PartitionSlice/Counts.antt =====
-- How often elements occur in a slice, and what a swap of two does.
use cretonne.Prelude.{
  ℕ, zero, suc, ◌+◌, ◌<◌, ◌≤◌, ◌≡◌, ◌≢◌, refl, ◌∙◌, ap, Bool, ◌==◌, some, List, [], ◌∷◌, ◌++◌,
  length, get_elem?, set, take, length-set, if◌then◌else◌, arith,
}
use cretonne.Prelude.Swap.{get_elem?-set, get_elem?_lt, get_elem?-take}
use cretonne.Prelude.Panic.{get_elem?-ext}
use cretonne.PartitionSlice.{swap}

one_if : Bool → ℕ
one_if b = if b then 1 else 0

module _ {A : Type 0} where
  abbrev pub filter : (A → Bool) → List A → List A
  filter p [] = []
  filter p (x ∷ xs) = if p x then x ∷ filter p xs else filter p xs

  -- How many elements pass.
  abbrev pub count : (A → Bool) → List A → ℕ
  count p xs = length (filter p xs)

  count-cons : (q : A → Bool) (x : A) (xs : List A) → count q (x ∷ xs) ≡ one_if (q x) + count q xs
  unfolding one_if
  count-cons q x xs = ground arith

  -- A write trades one element for another.
  count-set :
      (q : A → Bool) (xs : List A) (i : ℕ) (v x : A)
      → get_elem? xs i ≡ some x
      → count q (set xs i v) + one_if (q x) ≡ count q xs + one_if (q v)
  count-set q [] i v x at = absurd (ground arith)
  count-set q (y ∷ xs) zero v x at =
      let e : y ≡ x = ground arith in rw e (omega (arith, count-cons q v xs, count-cons q x xs))
  count-set q (y ∷ xs) (suc i) v x at =
      omega (arith, count-cons q y (set xs i v), count-cons q y xs, count-set q xs i v x at)

  -- What a swap does.
  pub record Swapped (xs : List A) (i j : ℕ) (a b : A) (ys : List A) : Type 0 where
    pub runs : swap xs i j ≡ some ys
    pub same : length ys ≡ length xs
    pub reads :
        (k : ℕ)
        → get_elem? ys k ≡ (if k == j then some a else if k == i then some b else get_elem? xs k)
    pub counts : (q : A → Bool) → count q ys ≡ count q xs

  pub swap-Swapped :
      (xs : List A) (i j : ℕ) (a b : A)
      → i ≢ j
      → get_elem? xs i ≡ some a
      → get_elem? xs j ≡ some b
      → Swapped xs i j a b (set (set xs i b) j a)
  unfolding swap
  swap-Swapped xs i j a b ne e e' =
      let lt = get_elem?_lt xs i e in
      let lt' = get_elem?_lt xs j e' in
      let len = length-set xs i b in
      let second : get_elem? (set xs i b) j ≡ some b = ground (arith, get_elem?-set xs i j b lt) in
      record {
        runs = rw (e, e') refl;
        same = length-set (set xs i b) j a ∙ len;
        reads = λ k.
            ground
              (arith, get_elem?-set (set xs i b) j k a (omega arith), get_elem?-set xs i k b lt);
        counts = λ q. omega (arith, count-set q xs i b a e, count-set q (set xs i b) j a b second);
      }

  pub take-suc :
      (n : ℕ) (xs : List A) (x : A)
      → get_elem? xs n ≡ some x
      → take (suc n) xs ≡ take n xs ++ (x ∷ [])
  take-suc n [] x at = absurd (ground arith)
  take-suc zero (y ∷ xs) x at = ground arith
  take-suc (suc n) (y ∷ xs) x at = ap (λ zs. y ∷ zs) (take-suc n xs x at)

  pub filter-append :
      (p : A → Bool) (xs ys : List A) → filter p (xs ++ ys) ≡ filter p xs ++ filter p ys
  filter-append p [] ys = refl
  filter-append p (x ∷ xs) ys = ground (arith, filter-append p xs ys)

  pub take-cong :
      (n : ℕ) (xs ys : List A)
      → ((k : ℕ) → k < n → get_elem? xs k ≡ get_elem? ys k)
      → take n xs ≡ take n ys
  take-cong n xs ys same =
      get_elem?-ext (take n xs) (take n ys)
        (λ k. ground (arith, get_elem?-take n xs k, get_elem?-take n ys k, same k))

  pub length-take_le : (n : ℕ) (xs : List A) → n ≤ length xs → length (take n xs) ≡ n
  length-take_le zero xs le = refl
  length-take_le (suc n) [] le = absurd (omega arith)
  length-take_le (suc n) (x ∷ xs) le = omega (arith, length-take_le n xs (omega arith))

  pub take-all : (xs : List A) → take (length xs) xs ≡ xs
  take-all [] = refl
  take-all (x ∷ xs) = ap (λ zs. x ∷ zs) (take-all xs)
