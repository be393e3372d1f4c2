-- ===== src/Entity/EntityList/Blocks.antt =====
-- What the memory of a pool stands for: blocks that do not overlap, in use by a list, on a free
-- list, or taken by an operation that is under way.
use cretonne.Prelude.{
  ℕ, suc, ◌+◌, ◌^◌, ◌≤◌, ◌<◌, ◌≡◌, ◌≢◌, refl, ◌∙◌, ◌==◌, some, List, [], ◌∷◌, length, get_elem?,
  get_or, set, length-set, if◌then◌else◌, arith,
}
use cretonne.Prelude.Swap.{get_elem?-set, get_elem?_lt}
use cretonne.Entity.EntityList.{ListPool, sclass_size, sclass_for_length}
use cretonne.Entity.EntityList.SizeClass.{Fits, sclass_size-pos, sclass_for_length-Fits}

-- The use of the block that begins at an index.
pub data Use : Type 0 where
  vacant : Use
  live : List ℕ → Use
  spare taken : ℕ → Use

unfoldable pub size_of : Use → ℕ
size_of Use.vacant = 0
size_of (Use.live xs) = sclass_size (sclass_for_length (length xs))
size_of (Use.spare c) = sclass_size c
size_of (Use.taken c) = sclass_size c

abbrev pub mark : (ℕ → Use) → ℕ → Use → ℕ → Use
mark u b x j = if j == b then x else u j

-- A length and the elements after it.
pub record Holds (d : List ℕ) (b : ℕ) (xs : List ℕ) : Type 0 where
  pub some_elem : 0 < length xs
  pub short : length xs < 2 ^ 32
  pub header : get_elem? d b ≡ some (length xs)
  pub elems : (k x : ℕ) → get_elem? xs k ≡ some x → get_elem? d (b + suc k) ≡ some x

-- The free list that begins at a head.
abbrev pub Chain : List ℕ → (ℕ → Use) → ℕ → ℕ → List ℕ → Type 0
Chain d u c head [] = head ≡ 0
Chain d u c head (b ∷ bs) =
    (head ≡ suc b)
    × (u b ≡ Use.spare c)
    × ((k : ℕ) → get_elem? bs k ≢ some b)
    × ((n : ℕ) × (get_elem? d (suc b) ≡ some n) × Chain d u c n bs)

pub record IsPool (p : ListPool) (u : ℕ → Use) : Type 0 where
  pub small : length p.words < 2 ^ 32
  pub fits : (b : ℕ) → 0 < size_of (u b) → b + size_of (u b) ≤ length p.words
  pub apart : (b b' : ℕ) → b < b' → 0 < size_of (u b') → b + size_of (u b) ≤ b'
  pub contents : (b : ℕ) (xs : List ℕ) → u b ≡ Use.live xs → Holds p.words b xs
  pub chains : (c : ℕ) → (bs : List ℕ) × Chain p.words u c (get_or p.heads c 0) bs

pub Chain-cong :
    (d d' : List ℕ) (u u' : ℕ → Use) (c head : ℕ) (bs : List ℕ)
    → ((k b : ℕ)
        → get_elem? bs k ≡ some b
        → u b ≡ Use.spare c
        → (u' b ≡ u b) × (get_elem? d' (suc b) ≡ get_elem? d (suc b)))
    → Chain d u c head bs
    → Chain d' u' c head bs
Chain-cong d d' u u' c head [] same e = e
Chain-cong d d' u u' c head (b ∷ bs) same (e, at, once, (n, next, rest)) =
    let (used, read) = same 0 b refl at in
    (e, used ∙ at, once, (n, read ∙ next, Chain-cong d d' u u' c n bs (λ k. same (suc k)) rest))

pub size_live : (xs : List ℕ) → length xs < 2 ^ 32 → length xs < size_of (Use.live xs)
unfolding size_of Fits
size_live xs lt = (sclass_for_length-Fits (length xs) lt).0

module _ (p : ListPool) (u : ℕ → Use) (h : IsPool p u) where
  -- Two blocks share no index.
  pub disjoint :
      (b b' i j : ℕ)
      → b ≢ b'
      → b ≤ i
      → i < b + size_of (u b)
      → b' ≤ j
      → j < b' + size_of (u b')
      → i ≢ j
  disjoint b b' i j ne p q r s = ground (arith, h.apart b b', h.apart b' b)

  pub live_block : (b : ℕ) (xs : List ℕ) → u b ≡ Use.live xs → length xs < size_of (u b)
  live_block b xs e = rw e (size_live xs (h.contents b xs e).short)

  pub spare_block : (b c : ℕ) → u b ≡ Use.spare c → 4 ≤ size_of (u b)
  unfolding size_of
  spare_block b c e = rw e (sclass_size-pos c)

  -- The memory of a block that is taken changes: every other block reads as before.
  pub change-IsPool :
      (b c : ℕ) (d : List ℕ)
      → u b ≡ Use.taken c
      → length d ≡ length p.words
      → ((j : ℕ) → (b ≤ j → b + size_of (u b) ≤ j) → get_elem? d j ≡ get_elem? p.words j)
      → IsPool (record p { words = d }) u
  change-IsPool b c d held same outside =
      let elsewhere = λ (b' j : ℕ) (ne : b ≢ b') (low : b' ≤ j) (high : j < b' + size_of (u b')).
        outside j (λ lo. ground (arith, disjoint b b' j j ne)) in
      record {
        small = omega (arith, h.small);
        fits = λ b' pos. omega (arith, h.fits b');
        apart = h.apart;
        contents = λ b' xs e.
            let old = h.contents b' xs e in
            let room = live_block b' xs e in
            let ne : b ≢ b' = (λ same. cc) in
            record {
              some_elem = old.some_elem;
              short = old.short;
              header = elsewhere b' b' ne (omega arith) (omega arith) ∙ old.header;
              elems = λ k x at.
                  let lt = get_elem?_lt xs k at in
                  elsewhere b' (b' + suc k) ne (omega arith) (omega arith) ∙ old.elems k x at;
            };
        chains = λ c'.
            let (bs, chain) = h.chains c' in
            (
              bs,
              Chain-cong p.words d u u c' (get_or p.heads c' 0) bs
                  (λ k b' at free.
                    let room = spare_block b' c' free in
                    let ne : b ≢ b' = (λ same. cc) in
                    (refl, elsewhere b' (suc b') ne (omega arith) (omega arith)))
                  chain,
            );
      }

  -- A write in a block that is taken.
  pub write-IsPool :
      (b c i v : ℕ)
      → u b ≡ Use.taken c
      → b ≤ i
      → i < b + size_of (u b)
      → IsPool (record p { words = set p.words i v }) u
  write-IsPool b c i v held low high =
      let within : i < length p.words = omega (arith, h.fits b) in
      change-IsPool b c (set p.words i v) held (length-set p.words i v)
        (λ j out. ground (arith, get_elem?-set p.words i j v within))
