-- ===== src/Entity/EntityList/Store.antt =====
-- Blocks of a pool that become, or stop being, the memory of a list.
use cretonne.Prelude.{
  ℕ, suc, ◌+◌, ◌^◌, ◌≤◌, ◌<◌, ◌≡◌, ◌≢◌, refl, sym, ◌∙◌, ap, ◌==◌, some, List, [], ◌∷◌, ◌++◌, length,
  get_elem?, set, length-set, length-append, if◌then◌else◌, arith,
}
use cretonne.Prelude.Swap.{get_elem?-set, get_elem?_lt, get_elem?-push}
use cretonne.Entity.EntityList.{ListPool, EntityList, sclass_size, sclass_for_length}
use cretonne.Entity.EntityList.SizeClass.{sclass_size-pos}
use cretonne.Entity.EntityList.Blocks.{Use, size_of, mark, Holds, IsPool, change-IsPool}
use cretonne.Entity.EntityList.Alloc.{mark-IsPool}

-- A list has its elements in a live block, and the empty list has none.
abbrev pub Represents : (ℕ → Use) → EntityList → List ℕ → Type 0
Represents u l [] = l.index ≡ 0
Represents u l (x ∷ xs) = (b : ℕ) × (l.index ≡ suc b) × (u b ≡ Use.live (x ∷ xs))

-- A list that is not empty, by its block.
pub live-Represents :
    (u : ℕ → Use) (l : EntityList) (b : ℕ) (xs : List ℕ)
    → 0 < length xs
    → l.index ≡ suc b
    → u b ≡ Use.live xs
    → Represents u l xs
live-Represents u l b [] pos e live = absurd (omega arith)
live-Represents u l b (x ∷ xs) pos e live = (b, e, live)

-- The elements after the first word of a block.
abbrev pub Filled : List ℕ → ℕ → List ℕ → Type 0
Filled d b xs = (k x : ℕ) → get_elem? xs k ≡ some x → get_elem? d (b + suc k) ≡ some x

pub mark_here : (u : ℕ → Use) (b : ℕ) (x : Use) → mark u b x b ≡ x
mark_here u b x = ground arith

pub mark_there : (u : ℕ → Use) (b j : ℕ) (x : Use) → j ≢ b → mark u b x j ≡ u j
mark_there u b j x ne = ground arith

module _ (p : ListPool) (u : ℕ → Use) (h : IsPool p u) where
  -- The block of a list is taken for an operation on it.
  pub open-IsPool :
      (b : ℕ) (xs : List ℕ)
      → u b ≡ Use.live xs
      → IsPool p (mark u b (Use.taken (sclass_for_length (length xs))))
  unfolding size_of
  open-IsPool b xs e =
      mark-IsPool p u h b (Use.taken (sclass_for_length (length xs))) (rw e refl) (λ c s. cc)
        (λ ys s. cc)

  -- A taken block that holds a list is given to it.
  pub store-IsPool :
      (b c : ℕ) (xs d : List ℕ)
      → u b ≡ Use.taken c
      → sclass_for_length (length xs) ≡ c
      → length d ≡ length p.words
      → ((j : ℕ) → (b ≤ j → b + sclass_size c ≤ j) → get_elem? d j ≡ get_elem? p.words j)
      → Holds d b xs
      → IsPool (record p { words = d }) (mark u b (Use.live xs))
  unfolding size_of
  store-IsPool b c xs d held class same outside holds =
      let size : size_of (u b) ≡ sclass_size c = rw held refl in
      let changed =
        change-IsPool p u h b c d held same (λ j out. outside j (λ lo. omega (arith, out lo))) in
      mark-IsPool (record p { words = d }) u changed b (Use.live xs)
        (ap sclass_size class ∙ sym size) (λ c' s. cc)
        (λ ys s. let e : xs ≡ ys = ground arith in rw (← e) holds)

-- The two words that `push` writes in the block, in either order.
pub push-Holds :
    (d d' : List ℕ) (b : ℕ) (xs : List ℕ) (x : ℕ)
    → suc (length xs) < 2 ^ 32
    → Filled d b xs
    → ((j : ℕ)
        → get_elem? d' j ≡ (
            if j == b
            then some (suc (length xs))
            else if j == b + suc (length xs)
            then some x
            else get_elem? d j))
    → Holds d' b (xs ++ (x ∷ []))
push-Holds d d' b xs x short filled reads =
    let len = length-append xs (x ∷ []) in
    record {
      some_elem = omega (arith, len);
      short = omega (arith, len);
      header = ground (arith, reads b);
      elems = λ k y at.
          ground (arith, get_elem?-push xs x k, filled k y, reads (b + suc k), get_elem?_lt xs k);
    }

module _ (p : ListPool) (u : ℕ → Use) (h : IsPool p u) (b c : ℕ) (ys : List ℕ)
    (held : u b ≡ Use.taken c) (class : sclass_for_length (length ys) ≡ c) (pos : 0 < length ys)
    (short : length ys < 2 ^ 32) (filled : Filled p.words b ys) where
  pub block_within : b < length p.words
  unfolding size_of
  block_within = omega (arith, h.fits b, ap size_of held, sclass_size-pos c)

  -- A taken block with the elements of a list is given to it, with its length in the first word.
  pub header-IsPool :
      (n : ℕ)
      → n ≡ length ys
      → IsPool (record p { words = set p.words b n }) (mark u b (Use.live ys))
  header-IsPool n e =
      let reads = λ (j : ℕ). get_elem?-set p.words b j n block_within in
      store-IsPool p u h b c ys (set p.words b n) held class (length-set p.words b n)
        (λ j out. ground (arith, reads j, sclass_size-pos c))
        record {
          some_elem = pos;
          short = short;
          header = ground (arith, reads b);
          elems = λ k y at. ground (arith, reads (b + suc k), filled k y);
        }
