-- ===== src/Entity/EntityList/Fresh.antt =====
-- `alloc` takes a block off a free list, or new memory.
use cretonne.Prelude.{
  ℕ, suc, ◌+◌, ◌^◌, ◌≤◌, ◌<◌, ◌≡◌, ◌≢◌, refl, sym, ◌∙◌, ap, true, false, ◌==◌, Option, Option-cases,
  inl, inr, Bool-cases, none, some, List, [], ◌∷◌, ◌++◌, length, get_elem?, get_or, set,
  length-append, ltb, if◌then◌else◌, arith,
}
use mathlib.Core.Path.{subst}
use native.Mathlib.Decide.{ℕ_discrete}
use cretonne.Prelude.Swap.{get_elem?_lt, get_elem?_within, get_elem?-append}
use cretonne.Entity.EntityList.{
  ListPool, sclass_size, sclass_for_length, alloc, pop_free, extend_words,
}
use cretonne.Entity.EntityList.SizeClass.{sclass_size-pos}
use cretonne.Entity.EntityList.Blocks.{Use, size_of, mark, Chain, Chain-cong, IsPool, spare_block}
use cretonne.Entity.EntityList.Alloc.{zeros, get_or-elem, length-zeros, get_or-set}

-- An allocation: the pool, the block that it takes, which was not in use, and the memory that stays.
pub record Allocated (p : ListPool) (u : ℕ → Use) (c : ℕ) (o : Option (ListPool × ℕ)) : Type 0 where
  pub pool : ListPool
  pub block : ℕ
  pub runs : o ≡ some (pool, block)
  pub valid : IsPool pool (mark u block (Use.taken c))
  pub not_taken : (c' : ℕ) → u block ≢ Use.taken c'
  pub not_live : (xs : List ℕ) → u block ≢ Use.live xs
  pub keeps : (i x : ℕ) → get_elem? p.words i ≡ some x → get_elem? pool.words i ≡ some x

module _ (p : ListPool) (u : ℕ → Use) (h : IsPool p u) (c : ℕ) where
  alloc-none : get_elem? p.heads c ≡ none → alloc p c ≡ some (extend_words p c)
  unfolding alloc
  alloc-none e = rw (e, alloc) refl

  alloc_pops :
      (head : ℕ)
      → get_elem? p.heads c ≡ some head
      → ltb 0 head ≡ true
      → alloc p c ≡ pop_free p c head
  unfolding alloc
  alloc_pops head e t = rw (e, alloc) (rw t refl)

  alloc_extends :
      (head : ℕ)
      → get_elem? p.heads c ≡ some head
      → ltb 0 head ≡ false
      → alloc p c ≡ some (extend_words p c)
  unfolding alloc
  alloc_extends head e t = rw (e, alloc) (rw t refl)

  sizes : (b : ℕ) → u b ≡ Use.spare c → (j : ℕ) → size_of (mark u b (Use.taken c) j) ≡ size_of (u j)
  unfolding size_of
  sizes b unused j = elim (ℕ_discrete j b) [
    | yes here ↦
        let same : mark u b (Use.taken c) j ≡ Use.taken c = ground arith in
        rw (same, here, unused) refl
    | no there ↦ let same : mark u b (Use.taken c) j ≡ u j = ground arith in rw same refl
  ]

  popped-Chain :
      (b n : ℕ) (bs : List ℕ)
      → c < length p.heads
      → u b ≡ Use.spare c
      → ((k : ℕ) → get_elem? bs k ≢ some b)
      → Chain p.words u c n bs
      → (j : ℕ)
      → (cs : List ℕ) × Chain p.words (mark u b (Use.taken c)) j (get_or (set p.heads c n) j 0) cs
  popped-Chain b n bs lt unused once rest j =
      let head = get_or-set p.heads c j n lt in
      elim (ℕ_discrete j c) [
        | yes same ↦
            let e : get_or (set p.heads c n) j 0 ≡ n = ground arith in
            (
              bs,
              rw (e, same)
                  (Chain-cong p.words p.words u (mark u b (Use.taken c)) c n bs
                    (λ k b' at spared. (ground (arith, once k), refl)) rest),
            )
        | no other ↦
            let e : get_or (set p.heads c n) j 0 ≡ get_or p.heads j 0 = ground arith in
            let (cs, chain) = h.chains j in
            (
              cs,
              rw e (
                  Chain-cong p.words p.words u (mark u b (Use.taken c)) j (get_or p.heads j 0) cs
                    (λ k b' at spared.
                      let ne : b' ≢ b = (λ same. other (ground arith)) in (ground arith, refl))
                    chain),
            )
      ]

  -- The first block of the free list.
  popped :
      (head : ℕ)
      → get_elem? p.heads c ≡ some head
      → 0 < head
      → (bs : List ℕ) → Chain p.words u c (get_or p.heads c 0) bs
      → Allocated p u c (pop_free p c head)
  unfolding pop_free
  popped head at pos [] e = absurd (ground (arith, get_or-elem p.heads c))
  popped head at pos (b ∷ bs) (e, unused, once, (n, next, rest)) =
      let head≡ : head ≡ suc b = ground (arith, get_or-elem p.heads c) in
      let lt = get_elem?_lt p.heads c at in
      let found : get_elem? p.words head ≡ some n = ground arith in
      let size : (j : ℕ) → size_of (mark u b (Use.taken c) j) ≡ size_of (u j) =
        λ j. sizes b unused j in
      record {
        pool = record p { heads = set p.heads c n };
        block = b;
        runs = rw found (ground arith);
        valid = record {
          small = h.small;
          fits = λ j pos'. ground (arith, size j, h.fits j);
          apart = λ j k lt' pos'. ground (arith, size j, size k, h.apart j k);
          contents = λ j xs e'. elim (ℕ_discrete j b) [
            | yes here ↦ absurd (ground arith)
            | no there ↦ h.contents j xs (ground arith)
          ];
          chains = popped-Chain b n bs lt unused once rest;
        };
        not_taken = λ c' e'. cc;
        not_live = λ xs e'. cc;
        keeps = λ i x e'. e';
      }

  module _ (room : length p.words + sclass_size c < 2 ^ 32) where
    end : ℕ
    end = length p.words

    size_end : size_of (u (length p.words)) ≡ 0
    size_end = elim (ℕ_discrete (size_of (u (length p.words))) 0) [
      | yes none_there ↦ none_there
      | no block ↦ absurd (omega (arith, h.fits (length p.words)))
    ]

    words : List ℕ
    words = p.words ++ zeros (sclass_size c)

    length-words : length words ≡ length p.words + sclass_size c
    unfolding words
    length-words =
        omega (arith, length-append p.words (zeros (sclass_size c)), length-zeros (sclass_size c))

    keeps_words : (i x : ℕ) → get_elem? p.words i ≡ some x → get_elem? words i ≡ some x
    unfolding words
    keeps_words i x e =
        ground (arith, get_elem?-append p.words (zeros (sclass_size c)) i, get_elem?_lt p.words i e)

    size_new :
        (j : ℕ)
        → size_of (mark u (length p.words) (Use.taken c) j)
          ≡ (if j == length p.words then sclass_size c else size_of (u j))
    unfolding size_of
    size_new j = elim (ℕ_discrete j (length p.words)) [
      | yes here ↦
          let same : mark u (length p.words) (Use.taken c) j ≡ Use.taken c = ground arith in
          rw same (ground arith)
      | no there ↦
          let same : mark u (length p.words) (Use.taken c) j ≡ u j = ground arith in
          rw same (ground arith)
    ]

    extended-Chain :
        (j : ℕ)
        → (cs : List ℕ) × Chain words
            (mark u (length p.words) (Use.taken c))
            j
            (get_or p.heads j 0)
            cs
    extended-Chain j =
        let (cs, chain) = h.chains j in
        (
          cs,
          Chain-cong p.words words u (mark u (length p.words) (Use.taken c)) j (get_or p.heads j 0)
              cs
              (λ k b at unused.
                let four = spare_block p u h b j unused in
                let fits = h.fits b (omega arith) in
                let (x, there) = get_elem?_within p.words (suc b) (omega arith) in
                let ne : b ≢ length p.words = (λ same. absurd (omega arith)) in
                (ground arith, keeps_words (suc b) x there ∙ sym there))
              chain,
        )

    size_taken : (c' : ℕ) → 4 ≤ size_of (Use.taken c')
    unfolding size_of
    size_taken c' = sclass_size-pos c'

    size_live_pos : (xs : List ℕ) → 4 ≤ size_of (Use.live xs)
    unfolding size_of
    size_live_pos xs = sclass_size-pos (sclass_for_length (length xs))

    extended : Allocated p u c (some (extend_words p c))
    unfolding extend_words words
    extended =
        let four = sclass_size-pos c in
        let all = length-words in
        record {
          pool = record p { words = words };
          block = length p.words;
          runs = refl;
          valid = record {
            small = omega (arith, all);
            fits = λ j pos. ground (arith, size_new j, h.fits j, all);
            apart = λ j k lt pos.
                ground (arith, size_new j, size_new k, h.apart j k, h.fits j, h.fits k, size_end);
            contents = λ j xs e. elim (ℕ_discrete j (length p.words)) [
              | yes here ↦ absurd (ground arith)
              | no there ↦
                  let old = h.contents j xs (ground arith) in
                  record {
                    some_elem = old.some_elem;
                    short = old.short;
                    header = keeps_words j (length xs) old.header;
                    elems = λ k x at. keeps_words (j + suc k) x (old.elems k x at);
                  }
            ];
            chains = extended-Chain;
          };
          not_taken = λ c' e. absurd (omega (arith, size_end, ap size_of e, size_taken c'));
          not_live = λ xs e. absurd (omega (arith, size_end, ap size_of e, size_live_pos xs));
          keeps = keeps_words;
        }

    -- With room for a block of the class, `alloc` returns one that was not in use, and leaves the
    -- memory of every other block.
    pub alloc-Allocated : Allocated p u c (alloc p c)
    unfolding alloc
    alloc-Allocated = elim (Option-cases (get_elem? p.heads c)) [
      | inl missing ↦ subst (Allocated p u c) (sym (alloc-none missing)) extended
      | inr (head, at) ↦ elim (Bool-cases (ltb 0 head)) [
        | inl some_block ↦
            subst (Allocated p u c) (sym (alloc_pops head at some_block))
              (popped head at (ground arith) (h.chains c).0 (h.chains c).1)
        | inr no_block ↦ subst (Allocated p u c) (sym (alloc_extends head at no_block)) extended
      ]
    ]
