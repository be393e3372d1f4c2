-- ===== src/RegAlloc/LiveRange/Intervals.antt =====
-- The places that the live-in intervals of a list cover, and their order.
use cretonne.Prelude.{
  ℕ, zero, suc, ◌<◌, ◌≡◌, Bool, true, false, ◌&&◌, ◌||◌, leb, some, List, [], ◌∷◌, get_elem?, set,
  arith,
}
use cretonne.Prelude.Splice.{insert_at, remove_at}
use cretonne.Ir.ProgPoint.{ExpandedProgramPoint}
use cretonne.RegAlloc.LiveRange.{ProgramOrder, Livein, ebb_seq, inst_seq}

-- Is a place in the interval of an entry?
abbrev pub within : ProgramOrder → Livein → ℕ → Bool
within o x s = leb (ebb_seq o x.ebb) s && leb s (inst_seq o x.last)

unfoldable pub covers : ProgramOrder → List Livein → ℕ → Bool
covers o [] s = false
covers o (x ∷ xs) s = within o x s || covers o xs s

-- Every interval ends after it begins, and before the next begins, at an instruction and at an EBB
-- that are laid out.
pub record AreApart (o : ProgramOrder) (Laid : ExpandedProgramPoint → Type 0) (xs : List Livein)
    : Type 0 where
  pub laid :
      (k : ℕ) (x : Livein)
      → get_elem? xs k ≡ some x
      → Laid (ExpandedProgramPoint.ebb x.ebb) × Laid (ExpandedProgramPoint.inst x.last)
  pub runs : (k : ℕ) (x : Livein) → get_elem? xs k ≡ some x → ebb_seq o x.ebb < inst_seq o x.last
  pub apart :
      (k : ℕ) (x y : Livein)
      → get_elem? xs k ≡ some x
      → get_elem? xs (suc k) ≡ some y
      → inst_seq o x.last < ebb_seq o y.ebb

module _ (o : ProgramOrder) where
  -- A wider entry adds what it covers.
  pub covers-set :
      (xs : List Livein) (i : ℕ) (x y : Livein) (s : ℕ)
      → get_elem? xs i ≡ some x
      → (within o x s ≡ true → within o y s ≡ true)
      → covers o (set xs i y) s ≡ (covers o xs s || within o y s)
  unfolding covers
  covers-set [] i x y s at wider = absurd (ground arith)
  covers-set (z ∷ xs) zero x y s at wider =
      let e : z ≡ x = ground arith in
      let w : within o z s ≡ true → within o y s ≡ true = rw e wider in
      go (within o z s) (within o y s) (covers o xs s) w
    where
      go : (a b c : Bool) → (a ≡ true → b ≡ true) → (b || c) ≡ ((a || c) || b)
      go a b c w = ground arith
  covers-set (z ∷ xs) (suc i) x y s at wider =
      go (within o z s) (within o y s) (covers o xs s) (covers o (set xs i y) s)
        (covers-set xs i x y s at wider)
    where
      go : (a b c d : Bool) → d ≡ (c || b) → (a || d) ≡ ((a || c) || b)
      go a b c d e = ground arith

  pub covers-insert_at :
      (xs : List Livein) (i : ℕ) (y : Livein) (s : ℕ)
      → covers o (insert_at xs i y) s ≡ (covers o xs s || within o y s)
  unfolding covers insert_at
  covers-insert_at xs zero y s = go (within o y s) (covers o xs s)
    where
      go : (b c : Bool) → (b || c) ≡ (c || b)
      go b c = ground arith
  covers-insert_at [] (suc i) y s = go (within o y s)
    where
      go : (b : Bool) → (b || false) ≡ (false || b)
      go b = ground arith
  covers-insert_at (z ∷ xs) (suc i) y s =
      go (within o z s) (within o y s) (covers o xs s) (covers o (insert_at xs i y) s)
        (covers-insert_at xs i y s)
    where
      go : (a b c d : Bool) → d ≡ (c || b) → (a || d) ≡ ((a || c) || b)
      go a b c d e = ground arith

  pub covers-remove_at :
      (xs : List Livein) (i : ℕ) (y : Livein) (s : ℕ)
      → get_elem? xs i ≡ some y
      → covers o xs s ≡ (covers o (remove_at xs i) s || within o y s)
  unfolding covers remove_at
  covers-remove_at [] i y s at = absurd (ground arith)
  covers-remove_at (z ∷ xs) zero y s at =
      let e : z ≡ y = ground arith in rw e (go (within o y s) (covers o xs s))
    where
      go : (b c : Bool) → (b || c) ≡ (c || b)
      go b c = ground arith
  covers-remove_at (z ∷ xs) (suc i) y s at =
      go (within o z s) (within o y s) (covers o (remove_at xs i) s) (covers o xs s)
        (covers-remove_at xs i y s at)
    where
      go : (a b c d : Bool) → d ≡ (c || b) → (a || d) ≡ ((a || c) || b)
      go a b c d e = ground arith
