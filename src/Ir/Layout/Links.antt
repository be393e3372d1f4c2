-- ===== src/Ir/Layout/Links.antt =====
-- A doubly linked list through two link functions, as a list of its nodes.
use cretonne.Prelude.{
  ℕ, zero, suc, ◌-◌, ◌<◌, ◌≤◌, ◌≡◌, ◌≢◌, refl, List, [], ◌∷◌, Option, none, some, Bool, false,
  arith, ◌==◌, ltb, leb, if◌then◌else◌, length, get_elem?,
}
use cretonne.Prelude.Swap.{get_elem?_lt, get_elem?_within}
use cretonne.Prelude.Splice.{
  insert_at, remove_at, get_elem?-insert_at, length-insert_at, get_elem?-remove_at,
  length-remove_at,
}

-- The element before an index.
abbrev pub before : List ℕ → ℕ → Option ℕ
before xs zero = none
before xs (suc k) = get_elem? xs k

pub record Links (prev next : ℕ → Option ℕ) (first last : Option ℕ) (xs : List ℕ) : Type 0 where
  pub distinct : (i j a : ℕ) → get_elem? xs i ≡ some a → get_elem? xs j ≡ some a → i ≡ j
  pub prevs : (i a : ℕ) → get_elem? xs i ≡ some a → prev a ≡ before xs i
  pub nexts : (i a : ℕ) → get_elem? xs i ≡ some a → next a ≡ get_elem? xs (suc i)
  pub firsts : first ≡ get_elem? xs 0
  pub lasts : last ≡ before xs (length xs)

pub before_lem :
    (xs : List ℕ) (k : ℕ) → before xs k ≡ (if k == 0 then none else get_elem? xs (k - 1))
before_lem xs zero = ground arith
before_lem xs (suc k) = ground arith

-- An optional reference is this one.
abbrev pub is : Option ℕ → ℕ → Bool
is none x = false
is (some a) x = a == x

-- The links after `a` is linked in before the element at `k`.
abbrev pub insert_prev : List ℕ → ℕ → ℕ → (ℕ → Option ℕ) → ℕ → Option ℕ
insert_prev xs k a prev x =
    if x == a then before xs k else if is (get_elem? xs k) x then some a else prev x

abbrev pub insert_next : List ℕ → ℕ → ℕ → (ℕ → Option ℕ) → ℕ → Option ℕ
insert_next xs k a next x =
    if x == a then get_elem? xs k else if is (before xs k) x then some a else next x

module _ (xs : List ℕ) (k a : ℕ) (within : k ≤ length xs)
    (fresh : (i : ℕ) → get_elem? xs i ≢ some a) where
  at :
      (j : ℕ)
      → get_elem? (insert_at xs k a) j
        ≡ (if ltb j k then get_elem? xs j else if j == k then some a else get_elem? xs (j - 1))
  at j = get_elem?-insert_at xs k a j within

  before_insert :
      (j : ℕ)
      → before (insert_at xs k a) j ≡ (
          if j == 0
          then none
          else if leb j k
          then get_elem? xs (j - 1)
          else if j == suc k
          then some a
          else get_elem? xs (j - 2))
  before_insert zero = ground arith
  before_insert (suc j) = ground (arith, at j)

  pub Links-insert :
      {prev next prev' next' : ℕ → Option ℕ} {first last first' last' : Option ℕ}
      → Links prev next first last xs
      → ((x : ℕ) → prev' x ≡ insert_prev xs k a prev x)
      → ((x : ℕ) → next' x ≡ insert_next xs k a next x)
      → first' ≡ (if k == 0 then some a else first)
      → last' ≡ (if k == length xs then some a else last)
      → Links prev' next' first' last' (insert_at xs k a)
  Links-insert h p n f l = record {
    distinct = λ i j x e e'. ground (
      arith,
      at i,
      at j,
      h.distinct i j x,
      h.distinct (i - 1) j x,
      h.distinct i (j - 1) x,
      h.distinct (i - 1) (j - 1) x,
      fresh i,
      fresh j,
      fresh (i - 1),
      fresh (j - 1),
    );
    prevs = λ i x e. ground (
      arith,
      at i,
      before_insert i,
      p x,
      fresh i,
      fresh (i - 1),
      h.distinct k i x,
      h.distinct k (i - 1) x,
      h.prevs i x,
      h.prevs (i - 1) x,
      before_lem xs i,
      before_lem xs (i - 1),
      before_lem xs k,
    );
    nexts = λ i x e. ground (
      arith,
      at i,
      at (suc i),
      n x,
      fresh i,
      fresh (i - 1),
      before_lem xs k,
      h.distinct (k - 1) i x,
      h.distinct (k - 1) (i - 1) x,
      h.nexts i x,
      h.nexts (i - 1) x,
    );
    firsts = ground (arith, f, at 0, h.firsts);
    lasts = ground (
      arith,
      l,
      before_insert (length (insert_at xs k a)),
      length-insert_at xs k a,
      h.lasts,
      before_lem xs (length xs),
    );
  }

-- The links after the element at `k` is taken out.
abbrev pub remove_prev : List ℕ → ℕ → ℕ → (ℕ → Option ℕ) → ℕ → Option ℕ
remove_prev xs k a prev x =
    if x == a then none else if is (get_elem? xs (suc k)) x then before xs k else prev x

abbrev pub remove_next : List ℕ → ℕ → ℕ → (ℕ → Option ℕ) → ℕ → Option ℕ
remove_next xs k a next x =
    if x == a then none else if is (before xs k) x then get_elem? xs (suc k) else next x

module _ (xs : List ℕ) (k a : ℕ) (there : get_elem? xs k ≡ some a) where
  left :
      (j : ℕ)
      → get_elem? (remove_at xs k) j ≡ (if ltb j k then get_elem? xs j else get_elem? xs (suc j))
  left j = get_elem?-remove_at xs k j

  before_remove :
      (j : ℕ) → before (remove_at xs k) j ≡ (if leb j k then before xs j else get_elem? xs j)
  before_remove zero = ground arith
  before_remove (suc j) = ground (arith, left j)

  pub Links-remove :
      {prev next prev' next' : ℕ → Option ℕ} {first last first' last' : Option ℕ}
      → Links prev next first last xs
      → ((x : ℕ) → prev' x ≡ remove_prev xs k a prev x)
      → ((x : ℕ) → next' x ≡ remove_next xs k a next x)
      → first' ≡ (if k == 0 then get_elem? xs 1 else first)
      → last' ≡ (if suc k == length xs then before xs k else last)
      → Links prev' next' first' last' (remove_at xs k)
  Links-remove h p n f l =
      let lt = get_elem?_lt xs k there in
      record {
        distinct = λ i j x e e'. ground (
          arith,
          left i,
          left j,
          h.distinct i j x,
          h.distinct (suc i) j x,
          h.distinct i (suc j) x,
          h.distinct (suc i) (suc j) x,
        );
        prevs = λ i x e. ground (
          arith,
          left i,
          before_remove i,
          p x,
          there,
          h.distinct k i x,
          h.distinct k (suc i) x,
          h.distinct (suc k) i x,
          h.distinct (suc k) (suc i) x,
          h.prevs i x,
          h.prevs (suc i) x,
          before_lem xs i,
          before_lem xs k,
        );
        nexts = λ i x e. ground (
          arith,
          left i,
          left (suc i),
          n x,
          there,
          h.distinct k i x,
          h.distinct k (suc i) x,
          h.distinct (k - 1) i x,
          h.distinct (k - 1) (suc i) x,
          h.nexts i x,
          h.nexts (suc i) x,
          before_lem xs k,
        );
        firsts = ground (arith, f, left 0, h.firsts);
        lasts = ground (
          arith,
          l,
          before_remove (length (remove_at xs k)),
          length-remove_at xs k lt,
          h.lasts,
          before_lem xs (length xs),
          before_lem xs k,
          before_lem xs (length xs - 1),
        );
      }

-- Only the links of the elements matter.
pub Links-cong :
    {prev next prev' next' : ℕ → Option ℕ} {first last first' last' : Option ℕ} {xs : List ℕ}
    → Links prev next first last xs
    → ((i a : ℕ) → get_elem? xs i ≡ some a → prev' a ≡ prev a)
    → ((i a : ℕ) → get_elem? xs i ≡ some a → next' a ≡ next a)
    → first' ≡ first
    → last' ≡ last
    → Links prev' next' first' last' xs
Links-cong h p n f l = record {
  distinct = h.distinct;
  prevs = λ i a e. ground (arith, p i a e, h.prevs i a e);
  nexts = λ i a e. ground (arith, n i a e, h.nexts i a e);
  firsts = ground (arith, h.firsts);
  lasts = ground (arith, h.lasts);
}

pub prev_within : (es : List ℕ) (k : ℕ) → k ≤ length es → k ≢ 0 → before es k ≢ none
prev_within es k lt n e =
    let (a, p) = get_elem?_within es (k - 1) (omega arith) in ground (arith, before_lem es k)

pub next_within : (es : List ℕ) (k : ℕ) → suc k < length es → get_elem? es (suc k) ≢ none
next_within es k lt e = let (a, p) = get_elem?_within es (suc k) lt in cc

pub head_within : (es : List ℕ) → get_elem? es 0 ≡ none → length es ≡ 0
head_within [] e = refl
head_within (x ∷ xs) e = cc
