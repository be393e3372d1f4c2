-- ===== src/Entity/EntityList/Append.antt =====
-- The writes of `push`, and the first element of an empty list.
use cretonne.Prelude.{
  ℕ, suc, ◌+◌, ◌^◌, ◌≤◌, ◌<◌, ◌≡◌, ◌≢◌, refl, sym, ◌∙◌, ap, ◌==◌, Option, some, List, [], ◌∷◌, ◌++◌,
  length, get_elem?, set, length-set, length-append, if◌then◌else◌, arith,
}
use cretonne.Prelude.Swap.{get_elem?-set}
use cretonne.Prelude.Panic.{write, write-some}
use cretonne.Entity.EntityList.{
  EntityList, ListPool, entity, sclass_size, sclass_for_length, alloc, list_at, push_first,
}
use cretonne.Entity.EntityList.SizeClass.{Fits, sclass_size-pos, sclass_for_length-Fits}
use cretonne.Entity.EntityList.Blocks.{Use, size_of, mark, IsPool}
use cretonne.Entity.EntityList.Fresh.{alloc-Allocated}
use cretonne.Entity.EntityList.Store.{
  Represents, Filled, mark_here, mark_there, store-IsPool, push-Holds,
}
use cretonne.Entity.EntityList.Relocate.{index_list_at}

-- The list and the pool after an element is added, and what stays.
pub record Pushed (u : ℕ → Use) (l : EntityList) (xs : List ℕ) (x : ℕ)
    (o : Option (EntityList × ListPool × ℕ)) : Type 0 where
  pub list : EntityList
  pub pool : ListPool
  pub uses : ℕ → Use
  pub runs : o ≡ some (list, pool, length xs)
  pub valid : IsPool pool uses
  pub holds : Represents uses list (xs ++ (x ∷ []))
  pub others :
      (b : ℕ) (ys : List ℕ)
      → l.index ≢ suc b
      → u b ≡ Use.live ys
      → (uses b ≡ Use.live ys) × (list.index ≢ suc b)

module _ (p : ListPool) (u : ℕ → Use) (h : IsPool p u) (b c : ℕ) (xs : List ℕ) (x : ℕ)
    (held : u b ≡ Use.taken c) (class : sclass_for_length (suc (length xs)) ≡ c)
    (short : suc (length xs) < 2 ^ 32) (filled : Filled p.words b xs) where
  pub within : suc (length xs) < sclass_size c
  unfolding Fits
  within = rw (← class) (sclass_for_length-Fits (suc (length xs)) short).0

  pub fits_block : b + sclass_size c ≤ length p.words
  unfolding size_of
  fits_block = omega (arith, h.fits b, ap size_of held, sclass_size-pos c)

  -- The words after the writes of `push_more`.
  pub more : List ℕ
  more = set (set p.words (b + (length xs + 1)) x) b (entity (length xs + 1))

  pub more_runs : write p.words (b + (length xs + 1)) x ≡ some (set p.words (b + (length xs + 1)) x)
  more_runs = write-some p.words (b + (length xs + 1)) x (omega (arith, within, fits_block))

  pub more_runs_header :
      write (set p.words (b + (length xs + 1)) x) b (entity (length xs + 1)) ≡ some more
  unfolding more
  more_runs_header =
      let d = set p.words (b + (length xs + 1)) x in
      write-some d b (entity (length xs + 1))
        (omega (arith, within, fits_block, length-set p.words (b + (length xs + 1)) x))

  header_word : entity (length xs + 1) ≡ suc (length xs)
  header_word = omega arith

  more_reads :
      (j : ℕ)
      → get_elem? more j ≡ (
          if j == b
          then some (suc (length xs))
          else if j == b + suc (length xs)
          then some x
          else get_elem? p.words j)
  unfolding more
  more_reads j =
      let d = set p.words (b + (length xs + 1)) x in
      let len : length d ≡ length p.words = length-set p.words (b + (length xs + 1)) x in
      let out = get_elem?-set d b j (suc (length xs)) (omega (arith, within, fits_block)) in
      let inner =
        get_elem?-set p.words (b + (length xs + 1)) j x (omega (arith, within, fits_block)) in
      let e : b + (length xs + 1) ≡ b + suc (length xs) = omega arith in
      rw header_word (ground arith)

  length-more : length more ≡ length p.words
  unfolding more
  length-more =
      length-set (set p.words (b + (length xs + 1)) x) b (entity (length xs + 1))
      ∙ length-set p.words (b + (length xs + 1)) x

  -- The words hold the longer list, if they read so.
  pushed-IsPool :
      (d : List ℕ)
      → length d ≡ length p.words
      → ((j : ℕ)
          → get_elem? d j ≡ (
              if j == b
              then some (suc (length xs))
              else if j == b + suc (length xs)
              then some x
              else get_elem? p.words j))
      → IsPool (record p { words = d }) (mark u b (Use.live (xs ++ (x ∷ []))))
  pushed-IsPool d same reads =
      let len : length (xs ++ (x ∷ [])) ≡ suc (length xs) =
        omega (arith, length-append xs (x ∷ [])) in
      store-IsPool p u h b c (xs ++ (x ∷ [])) d held (ap sclass_for_length len ∙ class) same
        (λ j out. ground (arith, reads j, within)) (push-Holds p.words d b xs x short filled reads)

  pub more-IsPool : IsPool (record p { words = more }) (mark u b (Use.live (xs ++ (x ∷ []))))
  more-IsPool = pushed-IsPool more length-more more_reads

module _ (p : ListPool) (u : ℕ → Use) (h : IsPool p u) (x : ℕ)
    (room : length p.words + sclass_size (sclass_for_length 1) < 2 ^ 32) where
  push_first_step :
      (p' : ListPool) (block : ℕ)
      → alloc p (sclass_for_length 1) ≡ some (p', block)
      → block + 1 < length p'.words
      → push_first p x
        ≡ some (
          list_at block,
          record p' { words = set (set p'.words block (entity 1)) (block + 1) x },
          0,
        )
  unfolding push_first
  push_first_step p' block a lt =
      let d = set p'.words block (entity 1) in
      rw
        (
          a,
          write-some p'.words block (entity 1) (omega arith),
          write-some d (block + 1) x (omega (arith, length-set p'.words block (entity 1))),
        )
        refl

  first_reads :
      (d : List ℕ) (b : ℕ)
      → b + 1 < length d
      → (j : ℕ)
      → get_elem? (set (set d b (entity 1)) (b + 1) x) j
        ≡ (if j == b then some 1 else if j == b + 1 then some x else get_elem? d j)
  first_reads d b lt j =
      let out =
        get_elem?-set (set d b (entity 1)) (b + 1) j x (omega (arith, length-set d b (entity 1))) in
      ground (arith, get_elem?-set d b j (entity 1))

  -- The first element of an empty list gets a block.
  pub push_first-Pushed : (l : EntityList) → Pushed u l [] x (push_first p x)
  push_first-Pushed l =
      let c = sclass_for_length 1 in
      let a = alloc-Allocated p u h c room in
      let b = a.block in
      let u' = mark u b (Use.taken c) in
      let held = mark_here u b (Use.taken c) in
      let four = sclass_size-pos c in
      let top = fits_block a.pool u' a.valid b c [] x held refl (omega arith) (λ k y at. cc) in
      let d = set (set a.pool.words b (entity 1)) (b + 1) x in
      let at_block = index_list_at b (omega (arith, a.valid.small)) in
      record {
        list = list_at b;
        pool = record a.pool { words = d };
        uses = mark u' b (Use.live (x ∷ []));
        runs = push_first_step a.pool b a.runs (omega arith);
        valid =
            pushed-IsPool a.pool u' a.valid b c [] x held refl (omega arith) (λ k y at. cc) d
              (length-set (set a.pool.words b (entity 1)) (b + 1) x
                ∙ length-set a.pool.words b (entity 1))
              (first_reads a.pool.words b (omega arith));
        holds = (b, at_block, mark_here u' b (Use.live (x ∷ [])));
        others = λ j ys ne e.
            let other : j ≢ b = (λ same. a.not_live ys (ap u (sym same) ∙ e)) in
            (
              mark_there u' b j (Use.live (x ∷ [])) other
                  ∙ mark_there u b j (Use.taken c) other
                  ∙ e,
              λ same. other (omega arith),
            );
      }
