-- ===== src/Ir/Layout/Ranges.antt =====
-- The iterators go through the lists that a layout stands for.
use native.Mathlib.Decide.{ℕ_discrete}
use cretonne.Prelude.{
  ℕ, zero, suc, ◌+◌, ◌-◌, ◌<◌, ◌≤◌, ◌≡◌, ◌≢◌, refl, sym, ap, List, [], ◌∷◌, Option, none, some, ltb,
  arith, length, get_elem?, if◌then◌else◌, Bool-cases, inl, inr,
}
use cretonne.Prelude.Swap.{get_elem?_lt, get_elem?_beyond, get_elem?_within}
use cretonne.Ir.Layout.{Layout, ebb_node, inst_node, next_ebb}
use cretonne.Ir.Layout.Links.{Links, before_lem}
use cretonne.Ir.Layout.Shape.{
  shape, shape-first_ebb, shape-next, shape-first_inst, shape-last_inst, shape-next_inst,
  shape-prev_inst,
}
use cretonne.Ir.Layout.Valid.{IsLayout}
use cretonne.Ir.Layout.Points.{same}
use cretonne.Ir.Layout.Iterators.{
  ebbs, ebbs_next, collect, Insts, ebb_insts, finished, next, next_back, Side, step, items,
}

-- A list from an index on.
abbrev pub drop : ℕ → List ℕ → List ℕ
drop zero xs = xs
drop (suc k) [] = []
drop (suc k) (x ∷ xs) = drop k xs

drop-some : (xs : List ℕ) (k a : ℕ) → get_elem? xs k ≡ some a → drop k xs ≡ a ∷ drop (suc k) xs
drop-some [] k a e = cc
drop-some (x ∷ xs) zero a e = ground arith
drop-some (x ∷ xs) (suc k) a e = drop-some xs k a e

drop-none : (xs : List ℕ) (k : ℕ) → get_elem? xs k ≡ none → drop k xs ≡ []
drop-none [] zero e = refl
drop-none [] (suc k) e = refl
drop-none (x ∷ xs) zero e = cc
drop-none (x ∷ xs) (suc k) e = drop-none xs k e

module _ (l : Layout) (es : List ℕ) (body : ℕ → List ℕ) (h : IsLayout (shape l) es body) where
  collect_from :
      (fuel k : ℕ) (o : Option ℕ)
      → o ≡ get_elem? es k
      → length es < fuel + k
      → k ≤ length es
      → collect fuel l o ≡ some (drop k es)
  unfolding collect ebbs_next next_ebb
  collect_from zero k o at room within = absurd (omega arith)
  collect_from (suc fuel) k none at room within = rw (drop-none es k (sym at)) refl
  collect_from (suc fuel) k (some e) at room within =
      let link : (ebb_node l e).next ≡ get_elem? es (suc k) =
        ground (arith, shape-next l e, h.ebb_links.nexts k e (sym at)) in
      let lt = get_elem?_lt es k (sym at) in
      let rest = collect_from fuel (suc k) (ebb_node l e).next link (omega arith) (omega arith) in
      rw (drop-some es k e (sym at), rest) refl

  -- A loop over `ebbs` with fuel for the EBBs ends and meets the EBBs in their order.
  pub collect-ebbs : (fuel : ℕ) → length es < fuel → collect fuel l (ebbs l) ≡ some es
  unfolding ebbs
  collect-ebbs fuel room =
      collect_from fuel 0 l.first_ebb (ground (arith, shape-first_ebb l, h.ebb_links.firsts))
        (omega arith) (omega arith)

-- What calls from both ends give on the elements from `i` up to `j`.
unfoldable pub expected : List ℕ → ℕ → ℕ → List Side → List (Option ℕ)
expected is i j [] = []
expected is i j (Side.front ∷ ss) =
    (if ltb i j then get_elem? is i else none) ∷ expected is (if ltb i j then suc i else i) j ss
expected is i j (Side.back ∷ ss) =
    (if ltb i j then get_elem? is (j - 1) else none)
    ∷ expected is i (if ltb i j then j - 1 else j) ss

-- The iterator is at the elements from `i` up to `j`.
record IsRange (is : List ℕ) (i j : ℕ) (it : Insts) : Type 0 where
  within : j ≤ length is
  heads : it.head ≡ (if ltb i j then get_elem? is i else none)
  tails : it.tail ≡ (if ltb i j then get_elem? is (j - 1) else none)

same_head : (a : Option ℕ) {xs ys : List (Option ℕ)} → xs ≡ ys → a ∷ xs ≡ a ∷ ys
same_head a e = ap (λ zs. a ∷ zs) e

next-none : (l : Layout) (it : Insts) → it.head ≡ none → next l it ≡ (none, it)
unfolding next
next-none l it e = ground arith

next_met :
    (l : Layout) (it : Insts) (a : ℕ)
    → it.head ≡ some a
    → it.tail ≡ some a
    → next l it ≡ (some a, finished)
unfolding next same
next_met l it a e e' = ground arith

next_on :
    (l : Layout) (it : Insts) (a b : ℕ)
    → it.head ≡ some a
    → it.tail ≡ some b
    → a ≢ b
    → next l it ≡ (some a, record { head = (inst_node l a).next; tail = some b })
unfolding next same
next_on l it a b e e' n = ground arith

back-none : (l : Layout) (it : Insts) → it.tail ≡ none → next_back l it ≡ (none, it)
unfolding next_back
back-none l it e = ground arith

back_met :
    (l : Layout) (it : Insts) (a : ℕ)
    → it.head ≡ some a
    → it.tail ≡ some a
    → next_back l it ≡ (some a, finished)
unfolding next_back same
back_met l it a e e' = ground arith

back_on :
    (l : Layout) (it : Insts) (a b : ℕ)
    → it.head ≡ some a
    → it.tail ≡ some b
    → a ≢ b
    → next_back l it ≡ (some b, record { head = some a; tail = (inst_node l b).prev })
unfolding next_back same
back_on l it a b e e' n = ground arith

module _ (l : Layout) (is : List ℕ) (prev next_of : ℕ → Option ℕ) (first last : Option ℕ)
    (h : Links prev next_of first last is) (next_reads : (a : ℕ) → (inst_node l a).next ≡ next_of a)
    (prev_reads : (a : ℕ) → (inst_node l a).prev ≡ prev a) where
  next_lem :
      (i j : ℕ) (it : Insts)
      → IsRange is i j it
      → ((next l it).0 ≡ (if ltb i j then get_elem? is i else none))
        × IsRange is (if ltb i j then suc i else i) j (next l it).1
  next_lem i j it r = elim (Bool-cases (ltb i j)) [
    | inr done ↦ let stays = next-none l it (ground (arith, r.heads)) in rw (stays, done) (refl, r)
    | inl more ↦
        let (a, p) = get_elem?_within is i (ground (arith, r.within)) in
        let (b, q) = get_elem?_within is (j - 1) (ground (arith, r.within)) in
        let head : it.head ≡ some a = ground (arith, r.heads) in
        let tail : it.tail ≡ some b = ground (arith, r.tails) in
        elim (ℕ_discrete a b) [
          | yes met ↦
              let moves = next_met l it a head (ground arith) in
              let only = h.distinct i (j - 1) a p (ground arith) in
              rw (moves, more)
                (sym p, record { within = r.within; heads = ground arith; tails = ground arith })
          | no apart ↦
              let moves = next_on l it a b head tail apart in
              rw (moves, more)
                (
                  sym p,
                  record {
                    within = r.within;
                    heads = ground (arith, next_reads a, h.nexts i a p);
                    tails = ground arith;
                  },
                )
        ]
  ]

  next_back_lem :
      (i j : ℕ) (it : Insts)
      → IsRange is i j it
      → ((next_back l it).0 ≡ (if ltb i j then get_elem? is (j - 1) else none))
        × IsRange is i (if ltb i j then j - 1 else j) (next_back l it).1
  next_back_lem i j it r = elim (Bool-cases (ltb i j)) [
    | inr done ↦ let stays = back-none l it (ground (arith, r.tails)) in rw (stays, done) (refl, r)
    | inl more ↦
        let (a, p) = get_elem?_within is i (ground (arith, r.within)) in
        let (b, q) = get_elem?_within is (j - 1) (ground (arith, r.within)) in
        let head : it.head ≡ some a = ground (arith, r.heads) in
        let tail : it.tail ≡ some b = ground (arith, r.tails) in
        elim (ℕ_discrete a b) [
          | yes met ↦
              let moves = back_met l it b (ground arith) tail in
              let only = h.distinct i (j - 1) a p (ground arith) in
              rw (moves, more)
                (
                  sym q,
                  record {
                    within = omega (arith, r.within);
                    heads = ground arith;
                    tails = ground arith;
                  },
                )
          | no apart ↦
              let moves = back_on l it a b head tail apart in
              rw (moves, more)
                (
                  sym q,
                  record {
                    within = omega (arith, r.within);
                    heads = ground arith;
                    tails =
                        ground (arith, prev_reads b, h.prevs (j - 1) b q, before_lem is (j - 1));
                  },
                )
        ]
  ]

  items_lem :
      (ss : List Side) (i j : ℕ) (it : Insts)
      → IsRange is i j it
      → items l it ss ≡ expected is i j ss
  unfolding items expected step
  items_lem [] i j it r = refl
  items_lem (Side.front ∷ ss) i j it r =
      let (item, rest) = next_lem i j it r in
      rw item (
        same_head (if ltb i j then get_elem? is i else none)
          (items_lem ss (if ltb i j then suc i else i) j (next l it).1 rest))
  items_lem (Side.back ∷ ss) i j it r =
      let (item, rest) = next_back_lem i j it r in
      rw item (
        same_head (if ltb i j then get_elem? is (j - 1) else none)
          (items_lem ss i (if ltb i j then j - 1 else j) (next_back l it).1 rest))

-- Whatever the order of the calls of `next` and `next_back`, the iterator over an EBB's instructions
-- gives the next one from that end, and none once all are given.
pub items-ebb_insts :
    (l : Layout) (es : List ℕ) (body : ℕ → List ℕ)
    → IsLayout (shape l) es body
    → (e : ℕ) (ss : List Side)
    → items l (ebb_insts l e) ss ≡ expected (body e) 0 (length (body e)) ss
unfolding ebb_insts
items-ebb_insts l es body h e ss =
    let is = body e in
    let links = h.inst_links e in
    items_lem l is (shape l).prev_inst (shape l).next_inst ((shape l).first_inst e)
      ((shape l).last_inst e) links (λ a. sym (shape-next_inst l a))
      (λ a. sym (shape-prev_inst l a)) ss 0 (length is) (ebb_insts l e)
      (record {
        within = omega arith;
        heads = ground (arith, shape-first_inst l e, links.firsts, get_elem?_beyond is 0);
        tails = ground (arith, shape-last_inst l e, links.lasts, before_lem is (length is));
      })
