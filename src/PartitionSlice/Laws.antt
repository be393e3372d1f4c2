-- ===== src/PartitionSlice/Laws.antt =====
-- What a partitioned slice is, and the rounds of `partition_slice`.
use cretonne.Prelude.{
  ℕ, zero, suc, ◌+◌, ◌-◌, ◌≤◌, ◌<◌, ◌≡◌, refl, sym, ◌∙◌, ap, Bool, true, false, Option, none, some,
  List, [], ◌∷◌, ◌++◌, length, get_elem?, set, take, if◌then◌else◌, arith, Option-cases, Bool-cases,
  inl, inr,
}
use mathlib.Core.List.{append-nil}
use cretonne.Prelude.Swap.{get_elem?_lt, get_elem?_within}
use cretonne.Prelude.Panic.{◌>>=◌}
use cretonne.PartitionSlice.{swap, position, swap_rest, partition_slice}
use cretonne.PartitionSlice.Counts.{
  filter, count, Swapped, swap-Swapped, take-suc, filter-append, take-cong, take-all,
  length-take_le,
}

-- The slice and the count after: the elements that pass are in front in their order, the count is
-- their number, the others stand behind them, and every element is there as often as before.
pub record Partitioned {A : Type 0} (p : A → Bool) (xs : List A) (o : Option (List A × ℕ))
    : Type 0 where
  pub slice : List A
  pub passed : ℕ
  pub runs : o ≡ some (slice, passed)
  pub number : passed ≡ count p xs
  pub front : take passed slice ≡ filter p xs
  pub behind : (k : ℕ) (x : A) → passed ≤ k → get_elem? slice k ≡ some x → p x ≡ false
  pub counts : (q : A → Bool) → count q slice ≡ count q xs

module _ {A : Type 0} (p : A → Bool) (xs : List A) where
  record Inv (ys : List A) (c i : ℕ) : Type 0 where
    order : c < i
    same : length ys ≡ length xs
    kept : take c ys ≡ filter p (take i xs)
    gap : (k : ℕ) (y : A) → c ≤ k → k < i → get_elem? ys k ≡ some y → p y ≡ false
    ahead : (k : ℕ) → i ≤ k → get_elem? ys k ≡ get_elem? xs k
    counts : (q : A → Bool) → count q ys ≡ count q xs

  filter_one : (x : A) → filter p (x ∷ []) ≡ (if p x then x ∷ [] else [])
  filter_one x = refl

  -- An element that passes changes places with the first that does not.
  pass-Inv :
      (ys zs : List A) (c i : ℕ) (x y : A)
      → Inv ys c i
      → get_elem? ys i ≡ some x
      → get_elem? ys c ≡ some y
      → p x ≡ true
      → Swapped ys c i y x zs
      → Inv zs (suc c) (suc i)
  pass-Inv ys zs c i x y h at at' pass w =
      let order = h.order in
      let failed = h.gap c y (omega arith) order at' in
      let there : get_elem? xs i ≡ some x = sym (h.ahead i (omega arith)) ∙ at in
      let front : take c zs ≡ take c ys = take-cong c zs ys (λ k lt. ground (arith, w.reads k)) in
      let last : get_elem? zs c ≡ some x = ground (arith, w.reads c) in
      record {
        order = omega arith;
        same = w.same ∙ h.same;
        kept =
            take-suc c zs x last
            ∙ ap (λ l. l ++ (x ∷ [])) (front ∙ h.kept)
            ∙ sym (
                ap (filter p) (take-suc i xs x there)
                ∙ filter-append p (take i xs) (x ∷ [])
                ∙ ap (λ l. filter p (take i xs) ++ l) (rw pass refl));
        gap = λ k z low high here. ground (arith, w.reads k, h.gap k z);
        ahead = λ k le. ground (arith, w.reads k, h.ahead k);
        counts = λ q. w.counts q ∙ h.counts q;
      }

  -- An element that does not stays.
  fail-Inv :
      (ys : List A) (c i : ℕ) (x : A)
      → Inv ys c i
      → get_elem? ys i ≡ some x
      → p x ≡ false
      → Inv ys c (suc i)
  fail-Inv ys c i x h at failed =
      let order = h.order in
      let there : get_elem? xs i ≡ some x = sym (h.ahead i (omega arith)) ∙ at in
      record {
        order = omega arith;
        same = h.same;
        kept =
            h.kept
            ∙ sym (
                ap (filter p) (take-suc i xs x there)
                ∙ filter-append p (take i xs) (x ∷ [])
                ∙ ap (λ l. filter p (take i xs) ++ l) (rw failed refl)
                ∙ append-nil (filter p (take i xs)));
        gap = λ k z low high here. ground (arith, h.gap k z);
        ahead = λ k le. h.ahead k (omega arith);
        counts = h.counts;
      }

  pass_step :
      (r : ℕ) (ys zs : List A) (c i : ℕ) (x : A)
      → get_elem? ys i ≡ some x
      → p x ≡ true
      → swap ys c i ≡ some zs
      → swap_rest p (suc r) ys c i ≡ swap_rest p r zs (suc c) (suc i)
  unfolding swap_rest
  pass_step r ys zs c i x at pass w =
      let e : c + 1 ≡ suc c = omega arith in
      let e' : i + 1 ≡ suc i = omega arith in rw (at, ◌>>=◌, pass, w, ← e, ← e') refl

  fail_step :
      (r : ℕ) (ys : List A) (c i : ℕ) (x : A)
      → get_elem? ys i ≡ some x
      → p x ≡ false
      → swap_rest p (suc r) ys c i ≡ swap_rest p r ys c (suc i)
  unfolding swap_rest
  fail_step r ys c i x at failed =
      let e' : i + 1 ≡ suc i = omega arith in rw (at, ◌>>=◌, failed, ← e') refl

  swap_rest-Partitioned :
      (r : ℕ) (ys : List A) (c i : ℕ)
      → Inv ys c i
      → i + r ≡ length xs
      → Partitioned p xs (swap_rest p r ys c i)
  unfolding swap_rest
  swap_rest-Partitioned zero ys c i h end =
      let all : i ≡ length xs = omega arith in
      record {
        slice = ys;
        passed = c;
        runs = refl;
        number =
            sym (length-take_le c ys (omega (arith, h.order, h.same)))
            ∙ ap length (h.kept ∙ ap (λ n. filter p (take n xs)) all ∙ ap (filter p) (take-all xs));
        front = h.kept ∙ ap (λ n. filter p (take n xs)) all ∙ ap (filter p) (take-all xs);
        behind = λ k x le at. h.gap k x le (omega (arith, get_elem?_lt ys k at, h.same)) at;
        counts = h.counts;
      }
  swap_rest-Partitioned (suc r) ys c i h end =
      let order = h.order in
      let same = h.same in
      let (x, at) = get_elem?_within ys i (omega arith) in
      let (y, at') = get_elem?_within ys c (omega arith) in
      elim (Bool-cases (p x)) [
        | inl pass ↦
            let w = swap-Swapped ys c i y x (λ e. omega arith) at' at in
            rw (pass_step r ys (set (set ys c x) i y) c i x at pass w.runs) (
              swap_rest-Partitioned r (set (set ys c x) i y) (suc c) (suc i)
                (pass-Inv ys (set (set ys c x) i y) c i x y h at at' pass w) (omega arith))
        | inr failed ↦
            rw (fail_step r ys c i x at failed)
              (swap_rest-Partitioned r ys c (suc i) (fail-Inv ys c i x h at failed) (omega arith))
      ]

module _ {A : Type 0} (p : A → Bool) where
  position-none : (xs : List A) → position p xs ≡ none → filter p xs ≡ xs
  unfolding position
  position-none [] e = refl
  position-none (x ∷ xs) e = ground (arith, position-none xs)

  position_first :
      (xs : List A) (i : ℕ)
      → position p xs ≡ some i
      → (filter p (take i xs) ≡ take i xs) × ((x : A) × (get_elem? xs i ≡ some x) × (p x ≡ false))
  unfolding position
  position_first [] i e = absurd (ground arith)
  position_first (x ∷ xs) i e = elim (Bool-cases (p x)) [
    | inl pass ↦ elim (Option-cases (position p xs)) [
      | inl end ↦ absurd (ground arith)
      | inr (j, at) ↦
          let (front, (y, here, failed)) = position_first xs j at in
          let e' : i ≡ suc j = ground arith in rw e' (ground arith, (y, here, failed))
    ]
    | inr failed ↦ let e' : i ≡ 0 = ground arith in rw e' (refl, (x, refl, failed))
  ]

  start_none : (xs : List A) → position p xs ≡ none → partition_slice p xs ≡ some (xs, length xs)
  unfolding partition_slice
  start_none xs e = rw (partition_slice, e) refl

  start_some :
      (xs : List A) (i : ℕ)
      → position p xs ≡ some i
      → partition_slice p xs ≡ swap_rest p (length xs - suc i) xs i (suc i)
  unfolding partition_slice
  start_some xs i e = let e' : i + 1 ≡ suc i = omega arith in rw (partition_slice, e, e') refl

  start-Inv :
      (xs : List A) (i : ℕ) (x : A)
      → filter p (take i xs) ≡ take i xs
      → get_elem? xs i ≡ some x
      → p x ≡ false
      → Inv p xs xs i (suc i)
  start-Inv xs i x front at failed = record {
    order = omega arith;
    same = refl;
    kept = sym (
        ap (filter p) (take-suc i xs x at)
        ∙ filter-append p (take i xs) (x ∷ [])
        ∙ ap (λ l. filter p (take i xs) ++ l) (rw failed refl)
        ∙ append-nil (filter p (take i xs))
        ∙ front);
    gap = λ k y low high here. let e : k ≡ i = omega arith in ground arith;
    ahead = λ k le. refl;
    counts = λ q. refl;
  }

  -- `partition_slice` ends without a panic. In front are the elements that pass, in their order, and
  -- the count is their number; none behind them passes; and every element occurs as often as before.
  pub partition_slice-Partitioned : (xs : List A) → Partitioned p xs (partition_slice p xs)
  partition_slice-Partitioned xs = elim (Option-cases (position p xs)) [
    | inl all ↦ rw (start_none xs all) record {
      slice = xs;
      passed = length xs;
      runs = refl;
      number = ap length (sym (position-none xs all));
      front = take-all xs ∙ sym (position-none xs all);
      behind = λ k x le at. absurd (omega (arith, get_elem?_lt xs k at));
      counts = λ q. refl;
    }
    | inr (i, e) ↦
        let (front, (x, at, failed)) = position_first xs i e in
        let lt = get_elem?_lt xs i at in
        rw (start_some xs i e) (
          swap_rest-Partitioned p xs (length xs - suc i) xs i (suc i)
            (start-Inv xs i x front at failed) (omega arith))
  ]
