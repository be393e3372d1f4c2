-- ===== src/RegAlloc/LiveRange/Goto.antt =====
-- The entries beside the cursor decide if a place at the head of an EBB is covered.
use cretonne.Prelude.{
  ℕ, zero, suc, ◌≤◌, ◌<◌, ◌≡◌, ◌≢◌, refl, Bool, false, ◌||◌, ◌==◌, ltb, Option, none, some, List,
  [], ◌∷◌, length, get_elem?, if◌then◌else◌, arith, Option-cases, Bool-cases, inl, inr,
}
use cretonne.Ir.ProgPoint.{ExpandedProgramPoint}
use cretonne.RegAlloc.LiveRange.{ProgramOrder, Livein, ebb_seq, goto, found, prev}
use cretonne.RegAlloc.LiveRange.Intervals.{within, covers, AreApart}

-- Does an entry, if there is one, cover a place?
abbrev pub within? : ProgramOrder → Option Livein → ℕ → Bool
within? o none s = false
within? o (some x) s = within o x s

module _ (o : ProgramOrder) (Laid : ExpandedProgramPoint → Type 0) where
  tail-AreApart : (z : Livein) (xs : List Livein) → AreApart o Laid (z ∷ xs) → AreApart o Laid xs
  tail-AreApart z xs h = record {
    laid = λ k. h.laid (suc k);
    runs = λ k. h.runs (suc k);
    apart = λ k. h.apart (suc k);
  }

  -- Nothing before the first interval is covered.
  covers-before :
      (xs : List Livein) (s : ℕ)
      → AreApart o Laid xs
      → ((y : Livein) → get_elem? xs 0 ≡ some y → s < ebb_seq o y.ebb)
      → covers o xs s ≡ false
  unfolding covers
  covers-before [] s h first = refl
  covers-before (z ∷ xs) s h first =
      let low : s < ebb_seq o z.ebb = first z refl in
      let rest =
        covers-before xs s (tail-AreApart z xs h)
          (λ y at. omega (arith, h.apart 0 z y refl at, h.runs 0 z refl)) in
      rw rest (ground arith)

  goto_step :
      (z : Livein) (xs : List Livein) (ebb : ℕ)
      → goto o (z ∷ xs) ebb
        ≡ (if ltb (ebb_seq o z.ebb) (ebb_seq o ebb) then suc (goto o xs ebb) else 0)
  unfolding goto
  goto_step z xs ebb = refl

  goto-empty : (ebb : ℕ) → goto o [] ebb ≤ 0
  unfolding goto
  goto-empty ebb = omega arith

  pub length-goto : (xs : List Livein) (ebb : ℕ) → goto o xs ebb ≤ length xs
  length-goto [] ebb = goto-empty ebb
  length-goto (z ∷ xs) ebb = ground (arith, goto_step z xs ebb, length-goto xs ebb)

  -- The entry at the cursor does not begin before the EBB.
  pub goto-next :
      (xs : List Livein) (ebb : ℕ) (y : Livein)
      → get_elem? xs (goto o xs ebb) ≡ some y
      → ebb_seq o ebb ≤ ebb_seq o y.ebb
  goto-next [] ebb y at = absurd (ground arith)
  goto-next (z ∷ xs) ebb y here = elim (Bool-cases (ltb (ebb_seq o z.ebb) (ebb_seq o ebb))) [
    | inl less ↦
        let e : goto o (z ∷ xs) ebb ≡ suc (goto o xs ebb) = ground (arith, goto_step z xs ebb) in
        goto-next xs ebb y (rw e at here)
    | inr more ↦
        let e : goto o (z ∷ xs) ebb ≡ 0 = ground (arith, goto_step z xs ebb) in
        let same : some z ≡ some y = rw e at here in ground arith
  ]

  -- The entry before the cursor does.
  pub goto-prev :
      (xs : List Livein) (ebb : ℕ) (x : Livein)
      → prev xs (goto o xs ebb) ≡ some x
      → ebb_seq o x.ebb < ebb_seq o ebb
  unfolding prev
  goto-prev [] ebb x at = absurd (ground arith)
  goto-prev (z ∷ xs) ebb x here = elim (Bool-cases (ltb (ebb_seq o z.ebb) (ebb_seq o ebb))) [
    | inl less ↦
        let e : goto o (z ∷ xs) ebb ≡ suc (goto o xs ebb) = ground (arith, goto_step z xs ebb) in
        go (goto o xs ebb) (rw e at here) (goto-prev xs ebb x) (ground arith)
    | inr more ↦
        let e : goto o (z ∷ xs) ebb ≡ 0 = ground (arith, goto_step z xs ebb) in
        absurd (ground arith)
  ]
    where
      go :
          (i : ℕ)
          → get_elem? (z ∷ xs) i ≡ some x
          → (prev xs i ≡ some x → ebb_seq o x.ebb < ebb_seq o ebb)
          → ebb_seq o z.ebb < ebb_seq o ebb
          → ebb_seq o x.ebb < ebb_seq o ebb
      go zero same rest low = ground arith
      go (suc i) same rest low = rest same

  -- An entry whose next one begins before the EBB covers no place from there on.
  head_ends :
      (z : Livein) (xs : List Livein) (ebb i s : ℕ)
      → AreApart o Laid (z ∷ xs)
      → goto o xs ebb ≡ suc i
      → ebb_seq o ebb ≤ s
      → within o z s ≡ false
  unfolding goto
  head_ends z [] ebb i s h e in_ebb = absurd (ground arith)
  head_ends z (y ∷ xs) ebb i s h e in_ebb =
      ground (arith, h.apart 0 z y refl refl, goto_step y xs ebb)

  any_order : (a b c : Bool) → c ≡ (b || false) → (a || c) ≡ (b || a)
  any_order a b c e = ground arith

  -- A place in an EBB is covered by the entry at the cursor or the one before it.
  pub covers-place :
      (xs : List Livein) (ebb s : ℕ)
      → AreApart o Laid xs
      → ebb_seq o ebb ≤ s
      → ((e : ℕ)
          → Laid (ExpandedProgramPoint.ebb e)
          → ebb_seq o ebb < ebb_seq o e
          → s < ebb_seq o e)
      → covers o xs s
        ≡ (within? o (get_elem? xs (goto o xs ebb)) s || within? o (prev xs (goto o xs ebb)) s)
  unfolding covers prev goto
  covers-place [] ebb s h low same_ebb = refl
  covers-place (z ∷ xs) ebb s h low same_ebb =
      elim (Bool-cases (ltb (ebb_seq o z.ebb) (ebb_seq o ebb))) [
        | inl less ↦
            let e : goto o (z ∷ xs) ebb ≡ suc (goto o xs ebb) =
              ground (arith, goto_step z xs ebb) in
            rw e
              (go (goto o xs ebb) refl (covers-place xs ebb s (tail-AreApart z xs h) low same_ebb))
        | inr more ↦
            let e : goto o (z ∷ xs) ebb ≡ 0 = ground (arith, goto_step z xs ebb) in
            let rest : covers o xs s ≡ false = covers-before xs s (tail-AreApart z xs h) (λ y at.
              let first : ebb_seq o ebb ≤ ebb_seq o z.ebb = ground arith in
              same_ebb y.ebb (h.laid 1 y at).0
                (omega (arith, h.apart 0 z y refl at, h.runs 0 z refl))) in
            rw (e, rest) refl
      ]
    where
      go :
          (i : ℕ)
          → goto o xs ebb ≡ i
          → covers o xs s ≡ (within? o (get_elem? xs i) s || within? o (prev xs i) s)
          → (within o z s || covers o xs s)
            ≡ (within? o (get_elem? xs i) s || within? o (get_elem? (z ∷ xs) i) s)
      go zero at ih = any_order (within o z s) (within? o (get_elem? xs 0) s) (covers o xs s) ih
      go (suc i) at ih = let out = head_ends z xs ebb i s h at low in rw out ih

  -- The place of the head of the EBB.
  pub covers-goto :
      (xs : List Livein) (ebb : ℕ)
      → AreApart o Laid xs
      → covers o xs (ebb_seq o ebb) ≡ (
          within? o (get_elem? xs (goto o xs ebb)) (ebb_seq o ebb)
          || within? o (prev xs (goto o xs ebb)) (ebb_seq o ebb))
  covers-goto xs ebb h = covers-place xs ebb (ebb_seq o ebb) h (omega arith) (λ e at later. later)

module _ (o : ProgramOrder) (xs : List Livein) (ebb : ℕ) where
  found_step :
      (i : ℕ) (y : Livein)
      → get_elem? xs i ≡ some y
      → found o xs i ebb ≡ (if ebb_seq o y.ebb == ebb_seq o ebb then some y else none)
  unfolding found
  found_step i y e = rw (found, e) refl

  found_end : (i : ℕ) → get_elem? xs i ≡ none → found o xs i ebb ≡ none
  unfolding found
  found_end i e = rw (found, e) refl

  pub found_lem :
      (i : ℕ) (x : Livein)
      → found o xs i ebb ≡ some x
      → (get_elem? xs i ≡ some x) × (ebb_seq o x.ebb ≡ ebb_seq o ebb)
  found_lem i x e = elim (Option-cases (get_elem? xs i)) [
    | inl end ↦ let none_there = found_end i end in absurd (ground arith)
    | inr (y, here) ↦ ground (arith, found_step i y here)
  ]

  pub not_found :
      (i : ℕ) (y : Livein)
      → found o xs i ebb ≡ none
      → get_elem? xs i ≡ some y
      → ebb_seq o y.ebb ≢ ebb_seq o ebb
  not_found i y e here same = let step = found_step i y here in absurd (ground arith)
