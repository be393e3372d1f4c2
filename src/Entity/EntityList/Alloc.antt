-- ===== src/Entity/EntityList/Alloc.antt =====
-- `alloc` and `free` against the blocks of a pool.
use cretonne.Prelude.{
  ℕ, zero, suc, ◌+◌, ◌-◌, ◌%◌, ◌^◌, ◌≤◌, ◌<◌, ◌≡◌, ◌≢◌, refl, ap, ◌==◌, none, some, List, [], ◌∷◌,
  ◌++◌, length, get_elem?, get_or, set, replicate, length-set, length-append, ltb, if◌then◌else◌,
  arith,
}
use native.Mathlib.Decide.{ℕ_discrete}
use cretonne.Prelude.Swap.{get_elem?-set, get_elem?_beyond, get_elem?_within, get_elem?-append}
use cretonne.Prelude.Panic.{write-some}
use cretonne.Entity.EntityList.{ListPool, sclass_size, free, heads_for, entity}
use cretonne.Entity.EntityList.SizeClass.{sclass_size-pos}
use cretonne.Entity.EntityList.Blocks.{
  Use, size_of, mark, Holds, Chain, Chain-cong, IsPool, write-IsPool, spare_block,
}

-- `Vec::resize` with zeros.
abbrev pub zeros : ℕ → List ℕ
zeros n = replicate n 0

pub get_or-elem :
    (xs : List ℕ) (i : ℕ) → get_or xs i 0 ≡ elim (get_elem? xs i) [ none ↦ 0 | some x ↦ x ]
get_or-elem [] i = refl
get_or-elem (x ∷ xs) zero = refl
get_or-elem (x ∷ xs) (suc i) = get_or-elem xs i

pub get_elem?-zeros : (n j : ℕ) → get_elem? (zeros n) j ≡ (if ltb j n then some 0 else none)
get_elem?-zeros zero j = ground arith
get_elem?-zeros (suc n) zero = ground arith
get_elem?-zeros (suc n) (suc j) = ground (arith, get_elem?-zeros n j)

pub length-zeros : (n : ℕ) → length (zeros n) ≡ n
length-zeros zero = refl
length-zeros (suc n) = ap suc (length-zeros n)

length-heads_for : (hs : List ℕ) (c : ℕ) → c < length (heads_for hs c)
unfolding heads_for
length-heads_for hs c =
    ground (arith, length-append hs (zeros (suc c - length hs)), length-zeros (suc c - length hs))

-- The new heads are 0, as a missing one reads.
get_or-heads_for : (hs : List ℕ) (c j : ℕ) → get_or (heads_for hs c) j 0 ≡ get_or hs j 0
unfolding heads_for
get_or-heads_for hs c j = ground (
  arith,
  get_or-elem hs j,
  get_or-elem (hs ++ zeros (suc c - length hs)) j,
  get_elem?-append hs (zeros (suc c - length hs)) j,
  get_elem?-zeros (suc c - length hs) (j - length hs),
  get_elem?_beyond hs j,
)

module _ (p : ListPool) (u : ℕ → Use) (h : IsPool p u) where
  -- A block that is not on a free list may be put to another use of the same size.
  pub mark-IsPool :
      (b : ℕ) (x : Use)
      → size_of x ≡ size_of (u b)
      → ((c : ℕ) → u b ≢ Use.spare c)
      → ((xs : List ℕ) → x ≡ Use.live xs → Holds p.words b xs)
      → IsPool p (mark u b x)
  mark-IsPool b x same busy holds =
      let size : (j : ℕ) → size_of (mark u b x j) ≡ size_of (u j) = λ j. size_lem j in
      record {
        small = h.small;
        fits = λ j pos. ground (arith, size j, h.fits j);
        apart = λ j k lt pos. ground (arith, size j, size k, h.apart j k);
        contents = λ j xs e. elim (ℕ_discrete j b) [
          | yes here ↦ rw here (holds xs (ground arith))
          | no there ↦ h.contents j xs (ground arith)
        ];
        chains = λ c.
            let (bs, chain) = h.chains c in
            (
              bs,
              Chain-cong p.words p.words u (mark u b x) c (get_or p.heads c 0) bs
                  (λ k b' at free. (ground (arith, busy c), refl)) chain,
            );
      }
    where
      size_lem : (j : ℕ) → size_of (mark u b x j) ≡ size_of (u j)
      size_lem j = elim (ℕ_discrete j b) [ yes here ↦ ground arith | no there ↦ ground arith ]

Chain-spare :
    (d : List ℕ) (u : ℕ → Use) (c head : ℕ) (bs : List ℕ) (k b : ℕ)
    → Chain d u c head bs
    → get_elem? bs k ≡ some b
    → u b ≡ Use.spare c
Chain-spare d u c head [] k b chain at = cc
Chain-spare d u c head (x ∷ bs) zero b (e, free, once, rest) at =
    let same : x ≡ b = ground arith in rw (← same) free
Chain-spare d u c head (x ∷ bs) (suc k) b (e, free, once, (n, next, rest)) at =
    Chain-spare d u c n bs k b rest at

pub get_or-set :
    (xs : List ℕ) (i j v : ℕ)
    → i < length xs
    → get_or (set xs i v) j 0 ≡ (if j == i then v else get_or xs j 0)
get_or-set xs i j v lt =
    ground (arith, get_or-elem (set xs i v) j, get_or-elem xs j, get_elem?-set xs i j v lt)

module _ (p : ListPool) (u : ℕ → Use) (h : IsPool p u) where
  -- A head is the index after a block.
  head_small : (c : ℕ) → get_or p.heads c 0 < 2 ^ 32
  head_small c = go (h.chains c).0 (h.chains c).1
    where
      go : (bs : List ℕ) → Chain p.words u c (get_or p.heads c 0) bs → get_or p.heads c 0 < 2 ^ 32
      go [] e = omega arith
      go (b ∷ bs) (e, free, once, rest) =
          omega (arith, h.small, h.fits b, spare_block p u h b c free)

  -- The pool after a block is freed.
  abbrev pub freed : ℕ → ℕ → ListPool
  freed b c = record {
    words = set (set p.words b 0) (b + 1) (entity (get_or p.heads c 0));
    heads = set (heads_for p.heads c) c (b + 1);
  }

  free_step : (b c : ℕ) → b + 1 < length p.words → free p b c ≡ some (freed b c)
  unfolding free
  free_step b c lt =
      let hs = heads_for p.heads c in
      let (head, at) = get_elem?_within hs c (length-heads_for p.heads c) in
      let same : head ≡ get_or p.heads c 0 =
        ground (arith, get_or-heads_for p.heads c c, get_or-elem hs c) in
      let first = write-some p.words b 0 (omega arith) in
      let second =
        write-some (set p.words b 0) (b + 1) (entity head)
          (omega (arith, length-set p.words b 0)) in
      rw (at, first, second, same) refl

module _ (p : ListPool) (u : ℕ → Use) (h : IsPool p u) (b c : ℕ) (held : u b ≡ Use.taken c) where
  size_held : size_of (u b) ≡ sclass_size c
  unfolding size_of
  size_held = rw held refl

  room_held : b + 4 ≤ length p.words
  room_held = omega (arith, h.fits b, size_held, sclass_size-pos c)

  written : IsPool (record p { words = (freed p u h b c).words }) u
  written =
      let size = size_held in
      let four = sclass_size-pos c in
      let first = write-IsPool p u h b c b 0 held (omega arith) (omega arith) in
      write-IsPool (record p { words = set p.words b 0 }) u first b c (b + 1)
        (entity (get_or p.heads c 0)) held (omega arith) (omega arith)

  -- The words of the block and no others change.
  pub freed_elem :
      (j : ℕ) → j ≢ b → j ≢ b + 1 → get_elem? (freed p u h b c).words j ≡ get_elem? p.words j
  freed_elem j ne ne' =
      let room = room_held in
      ground (
        arith,
        get_elem?-set (set p.words b 0) (b + 1) j (entity (get_or p.heads c 0))
            (omega (arith, length-set p.words b 0)),
        get_elem?-set p.words b j 0 (omega arith),
      )

  next_word : get_elem? (freed p u h b c).words (suc b) ≡ some (get_or p.heads c 0)
  next_word =
      let room = room_held in
      let e : suc b ≡ b + 1 = omega arith in
      let small : get_or p.heads c 0 % 2 ^ 32 ≡ get_or p.heads c 0 =
        omega (arith, head_small p u h c) in
      ground (
        arith,
        get_elem?-set (set p.words b 0) (b + 1) (suc b) (entity (get_or p.heads c 0))
            (omega (arith, length-set p.words b 0)),
      )

  pub freed_head : get_or (freed p u h b c).heads c 0 ≡ suc b
  freed_head =
      ground (arith, get_or-set (heads_for p.heads c) c c (b + 1) (length-heads_for p.heads c))

  -- The chains of the pool after the block is freed.
  freed-Chain :
      (j : ℕ)
      → (bs : List ℕ) × Chain
          (freed p u h b c).words
          (mark u b (Use.spare c))
          j
          (get_or (freed p u h b c).heads j 0)
          bs
  freed-Chain j =
      let d = (freed p u h b c).words in
      let (bs, chain) = written.chains j in
      let spared =
        Chain-cong d d u (mark u b (Use.spare c)) j (get_or p.heads j 0) bs
          (λ k b' at free. let ne : b' ≢ b = (λ same. cc) in (ground arith, refl)) chain in
      let head : get_or (freed p u h b c).heads j 0
          ≡ (if j == c then b + 1 else get_or p.heads j 0) =
        ground (
          arith,
          get_or-set (heads_for p.heads c) c j (b + 1) (length-heads_for p.heads c),
          get_or-heads_for p.heads c j,
        ) in
      elim (ℕ_discrete j c) [
        | yes same ↦ (
          b ∷ bs,
          (
            ground arith,
            ground arith,
            (λ k at. let free = Chain-spare d u j (get_or p.heads j 0) bs k b chain at in cc),
            (get_or p.heads j 0, rw same next_word, spared),
          ),
        )
        | no other ↦
            let same : get_or (freed p u h b c).heads j 0 ≡ get_or p.heads j 0 = ground arith in
            (bs, rw same spared)
      ]

  -- A taken block can be freed, and is spare from then on.
  pub free-IsPool :
      (free p b c ≡ some (freed p u h b c)) × IsPool (freed p u h b c) (mark u b (Use.spare c))
  unfolding size_of
  free-IsPool =
      let size : (j : ℕ) → size_of (mark u b (Use.spare c) j) ≡ size_of (u j) = λ j. sizes j in
      let w = written in
      (
        free_step p u h b c (omega (arith, room_held)),
        record {
          small = w.small;
          fits = λ j pos. ground (arith, size j, w.fits j);
          apart = λ j k lt pos. ground (arith, size j, size k, w.apart j k);
          contents = λ j xs e. elim (ℕ_discrete j b) [
            | yes here ↦ absurd (ground arith)
            | no there ↦ w.contents j xs (ground arith)
          ];
          chains = freed-Chain;
        },
      )
    where
      sizes : (j : ℕ) → size_of (mark u b (Use.spare c) j) ≡ size_of (u j)
      sizes j = elim (ℕ_discrete j b) [
        | yes here ↦ ground (arith, size_held)
        | no there ↦ ground arith
      ]
