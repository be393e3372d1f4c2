-- ===== src/Entity/EntityList/Realloc.antt =====
-- `realloc` moves the first words of a block to a block of another class.
use cretonne.Prelude.{
  ℕ, ◌+◌, ◌-◌, ◌^◌, ◌≤◌, ◌<◌, ◌≡◌, ◌≢◌, refl, sym, ◌∙◌, ap, true, ◌&&◌, Option, some, List, length,
  get_elem?, take, drop, length-take, length-drop, ltb, leb, if◌then◌else◌, arith,
}
use cretonne.Prelude.Swap.{get_elem?_within, get_elem?-take}
use cretonne.Prelude.Panic.{overwrite, length-overwrite, get_elem?-overwrite, get_elem?-drop}
use cretonne.Entity.EntityList.{ListPool, sclass_size, alloc, free, mut_slices, copy, realloc}
use cretonne.Entity.EntityList.SizeClass.{sclass_size-pos}
use cretonne.Entity.EntityList.Blocks.{Use, size_of, mark, IsPool, change-IsPool, disjoint}
use cretonne.Entity.EntityList.Alloc.{free-IsPool, freed, freed_elem}
use cretonne.Entity.EntityList.Fresh.{alloc-Allocated}
use cretonne.Entity.EntityList.Store.{mark_here, mark_there}

module _ (d : List ℕ) (old new n : ℕ) (ahead : old < new → old + n ≤ new)
    (behind : new ≤ old → new + n ≤ old) (from_end : old + n ≤ length d)
    (to_end : new + n ≤ length d) where
  source_words : List ℕ
  source_words = (mut_slices d old new).0

  length-source : n ≤ length source_words
  unfolding source_words mut_slices
  length-source = ground (arith, length-drop old (take new d), length-take new d, length-drop old d)

  length-target : n ≤ length (mut_slices d old new).1
  unfolding mut_slices
  length-target = ground (arith, length-drop new (take old d), length-take old d, length-drop new d)

  source_elem : (j : ℕ) → j < n → get_elem? (take n source_words) j ≡ get_elem? d (old + j)
  unfolding source_words mut_slices
  source_elem j lt = ground (
    arith,
    get_elem?-take n (drop old (take new d)) j,
    get_elem?-take n (drop old d) j,
    get_elem?-drop old (take new d) j,
    get_elem?-drop old d j,
    get_elem?-take new d (old + j),
  )

  copied : List ℕ
  copied = overwrite d new (take n source_words)

  length-copied_part : length (take n source_words) ≡ n
  length-copied_part = omega (arith, length-take n source_words, length-source)

  copy_lem : copy d old new n ≡ some copied
  unfolding copy copied source_words
  copy_lem = ground (arith, length-source, length-target)

  length-copied : length copied ≡ length d
  unfolding copied
  length-copied = length-overwrite d new (take n source_words) (omega (arith, length-copied_part))

  get_elem?-copied :
      (j : ℕ)
      → get_elem? copied j
        ≡ (if leb new j && ltb j (new + n) then get_elem? d (old + (j - new)) else get_elem? d j)
  unfolding copied
  get_elem?-copied j = ground (
    arith,
    get_elem?-overwrite d new (take n source_words) j (omega (arith, length-copied_part)),
    length-copied_part,
    source_elem (j - new),
  )

-- The words moved, and the pool after: the old block is spare, and every other list stays.
pub record Moved (p : ListPool) (u : ℕ → Use) (b c c' m : ℕ) (o : Option (ListPool × ℕ))
    : Type 0 where
  pub pool : ListPool
  pub block : ℕ
  pub uses : ℕ → Use
  pub runs : o ≡ some (pool, block)
  pub valid : IsPool pool uses
  pub held : uses block ≡ Use.taken c'
  pub filled : (k : ℕ) → k < m → get_elem? pool.words (block + k) ≡ get_elem? p.words (b + k)
  pub lists : (j : ℕ) (ys : List ℕ) → u j ≡ Use.live ys → uses j ≡ Use.live ys

module _ (p : ListPool) (u : ℕ → Use) (h : IsPool p u) (b c c' m : ℕ) (held : u b ≡ Use.taken c)
    (some_words : 0 < m) (fits_old : m ≤ sclass_size c) (fits_new : m ≤ sclass_size c')
    (room : length p.words + sclass_size c' < 2 ^ 32) where
  realloc_step :
      (p' : ListPool) (block : ℕ) (d : List ℕ) (p'' : ListPool)
      → alloc p c' ≡ some (p', block)
      → copy p'.words b block m ≡ some d
      → free (record p' { words = d }) b c ≡ some p''
      → realloc p b c c' m ≡ some (p'', block)
  unfolding realloc
  realloc_step p' block d p'' a e f = let t : ltb 0 m ≡ true = ground arith in rw (a, t, e, f) refl

  moved_word :
      (d : List ℕ) (old new n k : ℕ)
      → k < n
      → (if leb new (new + k) && ltb (new + k) (new + n)
          then get_elem? d (old + (new + k - new))
          else get_elem? d (new + k))
        ≡ get_elem? d (old + k)
  moved_word d old new n k lt = let e : new + k - new ≡ k = omega arith in ground arith

  -- With room for a block of the new class, `realloc` returns, and has moved the words.
  pub realloc-Moved : Moved p u b c c' m (realloc p b c c' m)
  unfolding size_of
  realloc-Moved =
      let a = alloc-Allocated p u h c' room in
      let b' = a.block in
      let u' = mark u b' (Use.taken c') in
      let ne : b ≢ b' = (λ same. a.not_taken c (ap u (sym same) ∙ held)) in
      let held' : u' b ≡ Use.taken c = mark_there u b' b (Use.taken c') ne ∙ held in
      let here : u' b' ≡ Use.taken c' = mark_here u b' (Use.taken c') in
      let size : size_of (u' b) ≡ sclass_size c = rw held' refl in
      let size' : size_of (u' b') ≡ sclass_size c' = rw here refl in
      let ahead : b < b' → b + m ≤ b' = (λ lt. omega (arith, a.valid.apart b b' lt)) in
      let behind : b' ≤ b → b' + m ≤ b = (λ le. omega (arith, a.valid.apart b' b (omega arith))) in
      let from_end : b + m ≤ length a.pool.words = omega (arith, a.valid.fits b) in
      let to_end : b' + m ≤ length a.pool.words = omega (arith, a.valid.fits b') in
      let d = copied a.pool.words b b' m ahead behind from_end to_end in
      let reads = get_elem?-copied a.pool.words b b' m ahead behind from_end to_end in
      let pool = record a.pool { words = d } in
      let moved : IsPool pool u' =
        change-IsPool a.pool u' a.valid b' c' d here
          (length-copied a.pool.words b b' m ahead behind from_end to_end)
          (λ j out. ground (arith, reads j)) in
      let (runs, valid) = free-IsPool pool u' moved b c held' in
      let low : 4 ≤ sclass_size c = sclass_size-pos c in
      let top : b + sclass_size c ≤ length p.words = omega (arith, h.fits b, ap size_of held) in
      let off : (k i : ℕ) → k < m → i < 4 → b' + k ≢ b + i = (λ k i lt four same.
        disjoint pool u' moved b b' (b + i) (b' + k) ne (omega arith) (omega arith) (omega arith)
          (omega arith) (sym same)) in
      record {
        pool = freed pool u' moved b c;
        block = b';
        uses = mark u' b (Use.spare c);
        runs =
            realloc_step a.pool b' d (freed pool u' moved b c) a.runs
              (copy_lem a.pool.words b b' m ahead behind from_end to_end) runs;
        valid = valid;
        held = mark_there u' b b' (Use.spare c) (λ same. ne (sym same)) ∙ here;
        filled = λ k lt.
            let (x, there) = get_elem?_within p.words (b + k) (omega arith) in
            let copy : get_elem? d (b' + k) ≡ get_elem? a.pool.words (b + k) =
              reads (b' + k) ∙ moved_word a.pool.words b b' m k lt in
            freed_elem pool u' moved b c held' (b' + k)
              (λ same. off k 0 lt (omega arith) (omega arith))
              (λ same. off k 1 lt (omega arith) same)
            ∙ copy
            ∙ a.keeps (b + k) x there
            ∙ sym there;
        lists = λ j ys e.
            mark_there u' b j (Use.spare c) (λ same. cc)
            ∙ mark_there u b' j (Use.taken c') (λ same. a.not_live ys (ap u (sym same) ∙ e))
            ∙ e;
      }
