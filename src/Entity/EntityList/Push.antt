-- ===== src/Entity/EntityList/Push.antt =====
-- `push` adds an element at the end of its list and leaves every other list alone.
use cretonne.Prelude.{
  ℕ, suc, ◌+◌, ◌^◌, ◌<◌, ◌≡◌, ◌≢◌, refl, sym, ◌∙◌, ap, some, List, [], ◌∷◌, ◌++◌, length, get_elem?,
  length-append, if◌then◌else◌, arith,
}
use mathlib.Core.Path.{subst}
use cretonne.Prelude.Swap.{get_elem?_lt}
use cretonne.Prelude.Panic.{write}
use cretonne.Entity.EntityList.{
  EntityList, ListPool, entity, sclass_size, sclass_for_length, is_sclass_min_length, len_of,
  relocate, push_first, push_more, push,
}
use cretonne.Entity.EntityList.SizeClass.{
  Fits, sclass_size-pos, sclass_for_length-Fits, sclass_for_length-suc,
}
use cretonne.Entity.EntityList.Blocks.{Use, size_of, mark, IsPool}
use cretonne.Entity.EntityList.Store.{
  Represents, live-Represents, Filled, mark_here, mark_there, open-IsPool,
}
use cretonne.Entity.EntityList.Relocate.{relocate-Relocated, len_of_live}
use cretonne.Entity.EntityList.Append.{
  Pushed, more, more_runs, more_runs_header, more-IsPool, push_first-Pushed,
}

module _ (p : ListPool) (u : ℕ → Use) (h : IsPool p u) (l : EntityList) (b : ℕ) (xs : List ℕ)
    (x : ℕ) (index : l.index ≡ suc b) (live : u b ≡ Use.live xs)
    (room : length p.words + sclass_size (sclass_for_length (suc (length xs))) < 2 ^ 32) where
  c : ℕ
  c = sclass_for_length (length xs)

  opened : ℕ → Use
  unfolding c
  opened = mark u b (Use.taken c)

  taken_block : opened b ≡ Use.taken c
  unfolding opened c
  taken_block = mark_here u b (Use.taken c)

  valid : IsPool p opened
  unfolding opened c
  valid = open-IsPool p u h b xs live

  short : length xs < sclass_size c
  unfolding Fits c
  short = (sclass_for_length-Fits (length xs) (h.contents b xs live).short).0

  shorter : suc (length xs) < 2 ^ 32
  unfolding size_of
  shorter = omega (arith, short, sclass_size-pos c, valid.fits b, ap size_of taken_block, h.small)

  push_more_step :
      (l' : EntityList) (p' : ListPool) (b' : ℕ) (d d' : List ℕ)
      → relocate l p (is_sclass_min_length (length xs + 1)) c (c + 1) (length xs + 1)
        ≡ some (l', p', b')
      → write p'.words (b' + (length xs + 1)) x ≡ some d
      → write d b' (entity (length xs + 1)) ≡ some d'
      → push_more l p (length xs) x ≡ some (l', record p' { words = d' }, length xs)
  unfolding push_more c
  push_more_step l' p' b' d d' r w w' = rw (r, w, w') refl

  -- The class that the code picks is that of the longer list.
  next_class :
      (if is_sclass_min_length (length xs + 1) then c + 1 else c)
      ≡ sclass_for_length (suc (length xs))
  unfolding c
  next_class =
      let more' : length xs + 1 ≡ suc (length xs) = omega arith in
      rw more' (ground (arith, sclass_for_length-suc (length xs) shorter))

  next_fits : suc (length xs) < sclass_size (sclass_for_length (suc (length xs)))
  unfolding Fits
  next_fits = (sclass_for_length-Fits (suc (length xs)) shorter).0

  -- The moved words are the elements, after the first.
  moved-Filled :
      (p' : ListPool) (b' : ℕ)
      → ((k : ℕ) → k < length xs + 1 → get_elem? p'.words (b' + k) ≡ get_elem? p.words (b + k))
      → Filled p'.words b' xs
  moved-Filled p' b' words k y at =
      let lt = get_elem?_lt xs k at in
      words (suc k) (omega arith) ∙ (h.contents b xs live).elems k y at

  push_more-Pushed : Pushed u l xs x (push_more l p (length xs) x)
  unfolding opened c
  push_more-Pushed =
      let moves = is_sclass_min_length (length xs + 1) in
      let c' : ℕ = if moves then c + 1 else c in
      let r =
        relocate-Relocated p opened valid l b c (c + 1) (length xs + 1) index taken_block moves
          (omega arith) (omega (arith, short)) (rw next_class (omega (arith, next_fits)))
          (rw next_class room) in
      let filled = moved-Filled r.pool r.block r.words in
      let class : sclass_for_length (suc (length xs)) ≡ c' = sym next_class in
      let longer = Use.live (xs ++ (x ∷ [])) in
      record {
        list = r.list;
        pool = record r.pool {
          words = more r.pool r.uses r.valid r.block c' xs x r.held class shorter filled;
        };
        uses = mark r.uses r.block longer;
        runs =
            push_more_step r.list r.pool r.block _
              (more r.pool r.uses r.valid r.block c' xs x r.held class shorter filled) r.runs
              (more_runs r.pool r.uses r.valid r.block c' xs x r.held class shorter filled)
              (more_runs_header r.pool r.uses r.valid r.block c' xs x r.held class shorter filled);
        valid = more-IsPool r.pool r.uses r.valid r.block c' xs x r.held class shorter filled;
        holds =
            live-Represents (mark r.uses r.block longer) r.list r.block (xs ++ (x ∷ []))
              (omega (arith, length-append xs (x ∷ []))) r.at_block
              (mark_here r.uses r.block longer);
        others = λ j ys ne e.
            let stays =
              r.lists j ys
                (mark_there u b j (Use.taken c) (λ same. ne (index ∙ ap suc (sym same))) ∙ e) in
            let other : j ≢ r.block = (λ same. cc) in
            (
              mark_there r.uses r.block j longer other ∙ stays,
              λ same. other (omega (arith, r.at_block)),
            );
      }

push_empty : (p : ListPool) (l : EntityList) (x : ℕ) → l.index ≡ 0 → push l x p ≡ push_first p x
unfolding push len_of
push_empty p l x e = rw e refl

push_live :
    (p : ListPool) (l : EntityList) (b n x : ℕ)
    → l.index ≡ suc b
    → get_elem? p.words b ≡ some n
    → push l x p ≡ push_more l p n x
unfolding push
push_live p l b n x e at = rw (push, len_of_live p l b n e at) refl

-- In a pool with room for the block of the longer list, `push` does not panic, and returns the
-- index of the new element, which is the old length. The list then stands for its old elements
-- and the new one, every other list of the pool stands for what it did, and the blocks of the
-- pool are sound again.
pub push-Pushed :
    (p : ListPool) (u : ℕ → Use) (l : EntityList) (xs : List ℕ) (x : ℕ)
    → IsPool p u
    → Represents u l xs
    → length p.words + sclass_size (sclass_for_length (suc (length xs))) < 2 ^ 32
    → Pushed u l xs x (push l x p)
push-Pushed p u l [] x h e room =
    subst (Pushed u l [] x) (sym (push_empty p l x e)) (push_first-Pushed p u h x room l)
push-Pushed p u l (y ∷ xs) x h (b, e, live) room =
    subst (Pushed u l (y ∷ xs) x)
      (sym (push_live p l b (length (y ∷ xs)) x e (h.contents b (y ∷ xs) live).header))
      (push_more-Pushed p u h l b (y ∷ xs) x e live room)
