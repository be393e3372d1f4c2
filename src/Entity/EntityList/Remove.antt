-- ===== src/Entity/EntityList/Remove.antt =====
-- `remove` takes an element out of its list and leaves every other list alone.
use cretonne.Prelude.{
  ℕ, zero, suc, ◌+◌, ◌-◌, ◌^◌, ◌≤◌, ◌<◌, ◌≡◌, ◌≢◌, refl, sym, ◌∙◌, ap, false, ◌==◌, ◌&&◌, Option,
  some, List, [], ◌∷◌, length, get_elem?, set, length-set, ltb, leb, if◌then◌else◌, arith,
}
use mathlib.Core.Path.{subst}
use native.Mathlib.Decide.{ℕ_discrete}
use cretonne.Prelude.Swap.{get_elem?-set, get_elem?_lt, get_elem?_within}
use cretonne.Prelude.Splice.{remove_at, get_elem?-remove_at, length-remove_at}
use cretonne.Prelude.Panic.{write, write-some}
use cretonne.Entity.EntityList.{
  EntityList, ListPool, entity, sclass_size, sclass_for_length, is_sclass_min_length, as_slice,
  clear, relocate, shift_down, drop_last, remove,
}
use cretonne.Entity.EntityList.SizeClass.{Fits, sclass_for_length-Fits, sclass_for_length-suc}
use cretonne.Entity.EntityList.Blocks.{Use, size_of, mark, IsPool, change-IsPool}
use cretonne.Entity.EntityList.Store.{
  Represents, live-Represents, mark_here, mark_there, open-IsPool, Filled, block_within,
  header-IsPool,
}
use cretonne.Entity.EntityList.Relocate.{relocate-Relocated}
use cretonne.Entity.EntityList.Read.{as_slice-Represents, room_of_live}
use cretonne.Entity.EntityList.Clear.{Updated, clear-Updated, opened-Updated}

-- What `shift_down` does to the memory.
record Shifted (d : List ℕ) (at k : ℕ) (o : Option (List ℕ)) : Type 0 where
  words : List ℕ
  runs : o ≡ some words
  same : length words ≡ length d
  reads :
      (j : ℕ)
      → get_elem? words j
        ≡ (if leb at j && ltb j (at + k) then get_elem? d (j + 1) else get_elem? d j)

shift_down_step :
    (d : List ℕ) (at k v : ℕ)
    → get_elem? d (at + 1) ≡ some v
    → at < length d
    → shift_down d at (suc k) ≡ shift_down (set d at v) (at + 1) k
unfolding shift_down
shift_down_step d at k v there lt = rw (there, write-some d at v lt) refl

shift_down-zero : (d : List ℕ) (at : ℕ) → shift_down d at 0 ≡ some d
unfolding shift_down
shift_down-zero d at = refl

shift_down-Shifted :
    (d : List ℕ) (at k : ℕ) → at + k < length d → Shifted d at k (shift_down d at k)
shift_down-Shifted d at zero lt = record {
  words = d;
  runs = shift_down-zero d at;
  same = refl;
  reads = λ j. ground arith;
}
shift_down-Shifted d at (suc k) lt =
    let (v, there) = get_elem?_within d (at + 1) (omega arith) in
    let len = length-set d at v in
    let r = shift_down-Shifted (set d at v) (at + 1) k (omega (arith, len)) in
    record {
      words = r.words;
      runs = shift_down_step d at k v there (omega arith) ∙ r.runs;
      same = r.same ∙ len;
      reads = λ j. ground (
        arith,
        r.reads j,
        get_elem?-set d at j v (omega arith),
        get_elem?-set d at (j + 1) v (omega arith),
      );
    }

length-empty : (xs : List ℕ) → length xs ≡ 0 → xs ≡ []
length-empty [] e = refl
length-empty (x ∷ xs) e = absurd (omega arith)

module _ (p : ListPool) (u : ℕ → Use) (h : IsPool p u) (l : EntityList) (b : ℕ) (xs : List ℕ)
    (i : ℕ) (index : l.index ≡ suc b) (live : u b ≡ Use.live xs) (lt : i < length xs)
    (room : length p.words + sclass_size (sclass_for_length (length xs - 1)) < 2 ^ 32) where
  c : ℕ
  c = sclass_for_length (length xs)

  opened : ℕ → Use
  unfolding c
  opened = mark u b (Use.taken c)

  taken_block : opened b ≡ Use.taken c
  unfolding opened c
  taken_block = mark_here u b (Use.taken c)

  valid : IsPool p opened
  unfolding opened c
  valid = open-IsPool p u h b xs live

  fits : suc b + length xs ≤ length p.words
  fits = room_of_live p u h b xs live

  short : length xs < 2 ^ 32
  short = omega (arith, fits, h.small)

  shifted :
      Shifted p.words
        (l.index + i)
        (length xs - 1 - i)
        (shift_down p.words (l.index + i) (length xs - 1 - i))
  shifted = shift_down-Shifted p.words (l.index + i) (length xs - 1 - i) (omega (arith, fits))

  moved : ListPool
  moved = record p { words = shifted.words }

  block_size : length xs < sclass_size c
  unfolding c Fits
  block_size = (sclass_for_length-Fits (length xs) short).0

  moved-IsPool : IsPool moved opened
  unfolding moved size_of
  moved-IsPool =
      let size = ap size_of taken_block in
      change-IsPool p opened valid b c shifted.words taken_block shifted.same
        (λ j out. ground (arith, shifted.reads j, block_size))

  moved_header : get_elem? moved.words b ≡ some (length xs)
  unfolding moved
  moved_header = ground (arith, shifted.reads b, (h.contents b xs live).header)

  moved_elem :
      (k y : ℕ) → get_elem? (remove_at xs i) k ≡ some y → get_elem? moved.words (b + suc k) ≡ some y
  unfolding moved
  moved_elem k y at =
      let below = get_elem?_lt (remove_at xs i) k at in
      let old = (h.contents b xs live).elems in
      let e : b + suc k + 1 ≡ b + suc (suc k) = omega arith in
      ground (
        arith,
        get_elem?-remove_at xs i k,
        length-remove_at xs i lt,
        shifted.reads (b + suc k),
        old k y,
        old (suc k) y,
      )

  ys : List ℕ
  ys = remove_at xs i

  length-ys : length ys ≡ length xs - 1
  unfolding ys
  length-ys = length-remove_at xs i lt

  next_class :
      (if is_sclass_min_length (length xs) then c - 1 else c) ≡ sclass_for_length (length xs - 1)
  unfolding c
  next_class =
      let e : length xs ≡ suc (length xs - 1) = omega arith in
      let class = sclass_for_length-suc (length xs - 1) (omega (arith, short)) in
      shorter_class (length xs) (length xs - 1) e class
    where
      shorter_class :
          (n m : ℕ)
          → n ≡ suc m
          → sclass_for_length (suc m) ≡ (
              if is_sclass_min_length (suc m)
              then suc (sclass_for_length m)
              else sclass_for_length m)
          → (if is_sclass_min_length n then sclass_for_length n - 1 else sclass_for_length n)
            ≡ sclass_for_length m
      shorter_class n m e class = rw e (ground arith)

  drop_last_clears : length xs ≡ 1 → drop_last l moved (length xs) ≡ clear l moved
  unfolding drop_last
  drop_last_clears e = rw e refl

  drop_last_step :
      (l' : EntityList) (p' : ListPool) (b' : ℕ) (d : List ℕ)
      → length xs ≢ 1
      → relocate l moved (is_sclass_min_length (length xs)) c (c - 1) (length xs)
        ≡ some (l', p', b')
      → write p'.words b' (entity (length xs - 1)) ≡ some d
      → drop_last l moved (length xs) ≡ some (l', record p' { words = d })
  unfolding drop_last c
  drop_last_step l' p' b' d ne r w =
      let t : (length xs == 1) ≡ false = ground arith in rw (t, r, w) refl

  -- The words that come along are the elements, after the first.
  moved_words :
      (d : List ℕ) (b' : ℕ)
      → ((k : ℕ) → k < length xs → get_elem? d (b' + k) ≡ get_elem? moved.words (b + k))
      → Filled d b' ys
  unfolding ys
  moved_words d b' words k y at =
      let below = get_elem?_lt (remove_at xs i) k at in
      words (suc k) (omega (arith, length-ys)) ∙ moved_elem k y at

  -- Nothing is left.
  dropped_clear : Updated opened l [] (clear l moved)
  unfolding c
  dropped_clear =
      clear-Updated moved opened moved-IsPool l b (length xs) index taken_block moved_header

  -- More than the element is left.
  shortened : length xs ≢ 1 → Updated opened l ys (drop_last l moved (length xs))
  unfolding moved Fits
  shortened ne =
      let moves = is_sclass_min_length (length xs) in
      let c' : ℕ = if moves then c - 1 else c in
      let n = length xs in
      let len = length-ys in
      let fits' : n - 1 < sclass_size (sclass_for_length (n - 1)) =
        (sclass_for_length-Fits (n - 1) (omega (arith, short))).0 in
      let r =
        relocate-Relocated moved opened moved-IsPool l b c (c - 1) n index taken_block moves
          (omega arith) (omega (arith, block_size)) (rw next_class (omega arith))
          (rw next_class (omega (arith, room, shifted.same))) in
      let filled = moved_words r.pool.words r.block r.words in
      let class = ap sclass_for_length len ∙ sym next_class in
      let d = set r.pool.words r.block (entity (n - 1)) in
      let top =
        block_within r.pool r.uses r.valid r.block c' ys r.held class (omega arith)
          (omega (arith, short)) filled in
      record {
        list = r.list;
        pool = record r.pool { words = d };
        uses = mark r.uses r.block (Use.live ys);
        runs =
            drop_last_step r.list r.pool r.block d ne r.runs
              (write-some r.pool.words r.block (entity (n - 1)) top);
        valid =
            header-IsPool r.pool r.uses r.valid r.block c' ys r.held class (omega arith)
              (omega (arith, short)) filled (entity (n - 1)) (omega (arith, short));
        holds =
            live-Represents (mark r.uses r.block (Use.live ys)) r.list r.block ys (omega arith)
              r.at_block (mark_here r.uses r.block (Use.live ys));
        others = λ j zs ne' e.
            let stays = r.lists j zs e in
            let other : j ≢ r.block = (λ same. cc) in
            (
              mark_there r.uses r.block j (Use.live ys) other ∙ stays,
              λ same. other (omega (arith, r.at_block)),
            );
      }

  dropped : Updated opened l ys (drop_last l moved (length xs))
  dropped = elim (ℕ_discrete (length xs) 1) [
    | yes one ↦
        let none_left : ys ≡ [] = length-empty ys (omega (arith, length-ys)) in
        rw (drop_last_clears one, none_left) dropped_clear
    | no more ↦ shortened more
  ]

  remove_step : as_slice l p ≡ some xs → remove l i p ≡ drop_last l moved (length xs)
  unfolding remove moved
  remove_step e = let t : (length xs == 0) ≡ false = ground arith in rw (e, t, shifted.runs) refl

  remove-Updated : as_slice l p ≡ some xs → Updated u l (remove_at xs i) (remove l i p)
  unfolding opened c ys
  remove-Updated e =
      opened-Updated u l b (sclass_for_length (length xs)) (remove_at xs i) (remove l i p) index
        (subst (Updated opened l ys) (sym (remove_step e)) dropped)

-- With room for the block of the shorter list, `remove` of an element of the list does not panic.
-- The list then stands for its elements without that one, every other list of the pool stands for
-- what it did, and the blocks of the pool are sound again.
pub remove-Represents :
    (p : ListPool) (u : ℕ → Use) (l : EntityList) (xs : List ℕ) (i : ℕ)
    → IsPool p u
    → Represents u l xs
    → i < length xs
    → length p.words + sclass_size (sclass_for_length (length xs - 1)) < 2 ^ 32
    → Updated u l (remove_at xs i) (remove l i p)
remove-Represents p u l [] i h r lt room = absurd (omega arith)
remove-Represents p u l (x ∷ xs) i h (b, e, live) lt room =
    remove-Updated p u h l b (x ∷ xs) i e live lt room
      (as_slice-Represents p u h l (x ∷ xs) (b, e, live))
