-- ===== src/Entity/EntityList/Insert.antt =====
-- `insert` puts an element into its list at an index and leaves every other list alone.
use cretonne.Prelude.{
  ℕ, zero, suc, ◌+◌, ◌-◌, ◌^◌, ◌≤◌, ◌<◌, ◌≡◌, ◌≢◌, refl, ◌∙◌, true, ◌==◌, ◌&&◌, Option, some, List,
  [], ◌∷◌, ◌++◌, length, get_elem?, set, length-set, length-append, ltb, leb, if◌then◌else◌, arith,
}
use cretonne.Prelude.Swap.{get_elem?-set, get_elem?_lt, get_elem?_within, get_elem?-push}
use cretonne.Prelude.Splice.{insert_at, get_elem?-insert_at, length-insert_at}
use cretonne.Prelude.Panic.{write, write-some}
use cretonne.Entity.EntityList.{
  EntityList, ListPool, sclass_size, sclass_for_length, as_slice, push, shift_up, open_gap, insert,
}
use cretonne.Entity.EntityList.Blocks.{Use, IsPool}
use cretonne.Entity.EntityList.Store.{Represents, Filled, live-Represents}
use cretonne.Entity.EntityList.Append.{Pushed}
use cretonne.Entity.EntityList.Push.{push-Pushed}
use cretonne.Entity.EntityList.Read.{as_slice-Represents, room_of_live}
use cretonne.Entity.EntityList.Clear.{Updated}
use cretonne.Entity.EntityList.InPlace.{
  block_of, rewritten, in_place-IsPool, rewritten_here, rewritten_there,
}

-- What `shift_up` by one does to the memory.
record Shifted (d : List ℕ) (at k : ℕ) (o : Option (List ℕ)) : Type 0 where
  words : List ℕ
  runs : o ≡ some words
  same : length words ≡ length d
  reads :
      (j : ℕ)
      → get_elem? words j
        ≡ (if leb (at + 1) j && ltb j (at + 1 + k) then get_elem? d (j - 1) else get_elem? d j)

shift_up_step :
    (d : List ℕ) (at k v : ℕ)
    → get_elem? d (at + k) ≡ some v
    → at + 1 + k < length d
    → shift_up d at 1 (suc k) ≡ shift_up (set d (at + 1 + k) v) at 1 k
unfolding shift_up
shift_up_step d at k v there lt = rw (there, write-some d (at + 1 + k) v lt) refl

shift_up-zero : (d : List ℕ) (at : ℕ) → shift_up d at 1 0 ≡ some d
unfolding shift_up
shift_up-zero d at = refl

shift_up-Shifted :
    (k : ℕ) (d : List ℕ) (at : ℕ) → at + k < length d → Shifted d at k (shift_up d at 1 k)
shift_up-Shifted zero d at lt = record {
  words = d;
  runs = shift_up-zero d at;
  same = refl;
  reads = λ j. ground arith;
}
shift_up-Shifted (suc k) d at lt =
    let (v, there) = get_elem?_within d (at + k) (omega arith) in
    let len = length-set d (at + 1 + k) v in
    let r = shift_up-Shifted k (set d (at + 1 + k) v) at (omega (arith, len)) in
    record {
      words = r.words;
      runs = shift_up_step d at k v there (omega arith) ∙ r.runs;
      same = r.same ∙ len;
      reads = λ j. ground (
        arith,
        r.reads j,
        get_elem?-set d (at + 1 + k) j v (omega arith),
        get_elem?-set d (at + 1 + k) (j - 1) v (omega arith),
        there,
      );
    }

open_gap_step :
    (d : List ℕ) (at n i x : ℕ) (d' d'' : List ℕ)
    → i < n
    → shift_up d (at + i) 1 (n - i - 1) ≡ some d'
    → write d' (at + i) x ≡ some d''
    → open_gap d at n i x ≡ some d''
unfolding open_gap
open_gap_step d at n i x d' d'' lt s w = let t : ltb i n ≡ true = ground arith in rw (t, s, w) refl

insert_step :
    (l : EntityList) (i x : ℕ) (p : ListPool) (l' : EntityList) (p' : ListPool) (n : ℕ)
    (seq d : List ℕ)
    → push l x p ≡ some (l', p', n)
    → as_slice l' p' ≡ some seq
    → open_gap p'.words l'.index (length seq) i x ≡ some d
    → insert l i x p ≡ some (l', record p' { words = d })
unfolding insert
insert_step l i x p l' p' n seq d e s o = rw (e, s, o) refl

module _ (p : ListPool) (u : ℕ → Use) (h : IsPool p u) (b : ℕ) (xs : List ℕ) (i x : ℕ)
    (live : u b ≡ Use.live (xs ++ (x ∷ []))) (le : i ≤ length xs) where
  ws : List ℕ
  ws = xs ++ (x ∷ [])

  length-ws : length ws ≡ suc (length xs)
  unfolding ws
  length-ws = omega (arith, length-append xs (x ∷ []))

  fits : suc b + length ws ≤ length p.words
  unfolding ws
  fits = room_of_live p u h b ws live

  gap :
      Shifted p.words
        (suc b + i)
        (length ws - i - 1)
        (shift_up p.words (suc b + i) 1 (length ws - i - 1))
  gap = shift_up-Shifted (length ws - i - 1) p.words (suc b + i) (omega (arith, fits, length-ws))

  opened_words : List ℕ
  opened_words = set gap.words (suc b + i) x

  within : suc b + i < length gap.words
  within = omega (arith, fits, length-ws, gap.same)

  gap_runs : open_gap p.words (suc b) (length ws) i x ≡ some opened_words
  unfolding opened_words
  gap_runs =
      open_gap_step p.words (suc b) (length ws) i x gap.words (set gap.words (suc b + i) x)
        (omega (arith, length-ws)) gap.runs (write-some gap.words (suc b + i) x within)

  length-opened_words : length opened_words ≡ length p.words
  unfolding opened_words
  length-opened_words = length-set gap.words (suc b + i) x ∙ gap.same

  reads :
      (j : ℕ)
      → get_elem? opened_words j ≡ (
          if j == suc b + i
          then some x
          else if ltb (suc b + i) j && ltb j (suc b + length ws)
          then get_elem? p.words (j - 1)
          else get_elem? p.words j)
  unfolding opened_words
  reads j = ground (arith, gap.reads j, get_elem?-set gap.words (suc b + i) j x within, length-ws)

  gap-Filled : Filled opened_words b (insert_at xs i x)
  unfolding ws
  gap-Filled k y at =
      let below = get_elem?_lt (insert_at xs i x) k at in
      let old = (h.contents b ws live).elems in
      ground (
        arith,
        reads (b + suc k),
        length-insert_at xs i x,
        length-ws,
        get_elem?-insert_at xs i x k le,
        old k y,
        old (k - 1) y,
        get_elem?-push xs x k,
        get_elem?-push xs x (k - 1),
      )

  same_length : length (insert_at xs i x) ≡ length ws
  same_length = omega (arith, length-insert_at xs i x, length-ws)

  elsewhere :
      (j : ℕ) → (suc b ≤ j → suc b + length ws ≤ j) → get_elem? opened_words j ≡ get_elem? p.words j
  elsewhere j out = ground (arith, reads j, length-ws)

  uses : ℕ → Use
  unfolding ws
  uses =
      rewritten p u h b ws (insert_at xs i x) opened_words live same_length length-opened_words
        elsewhere gap-Filled

  uses-IsPool : IsPool (record p { words = opened_words }) uses
  unfolding ws uses
  uses-IsPool =
      in_place-IsPool p u h b ws (insert_at xs i x) opened_words live same_length
        length-opened_words elsewhere gap-Filled

  uses_here : uses b ≡ Use.live (insert_at xs i x)
  unfolding ws uses
  uses_here =
      rewritten_here p u h b ws (insert_at xs i x) opened_words live same_length length-opened_words
        elsewhere gap-Filled

  uses_there : (j : ℕ) → j ≢ b → uses j ≡ u j
  unfolding ws uses
  uses_there =
      rewritten_there p u h b ws (insert_at xs i x) opened_words live same_length
        length-opened_words elsewhere gap-Filled

-- After the push.
insert-Updated :
    (p : ListPool) (u : ℕ → Use) (l : EntityList) (xs : List ℕ) (i x : ℕ)
    → i ≤ length xs
    → Pushed u l xs x (push l x p)
    → Updated u l (insert_at xs i x) (insert l i x p)
unfolding ws
insert-Updated p u l xs i x le r =
    let some_elem : 0 < length (xs ++ (x ∷ [])) = omega (arith, length-append xs (x ∷ [])) in
    let (b, index, live) = block_of r.uses r.list (xs ++ (x ∷ [])) some_elem r.holds in
    let seq = as_slice-Represents r.pool r.uses r.valid r.list (xs ++ (x ∷ [])) r.holds in
    let d = opened_words r.pool r.uses r.valid b xs i x live le in
    let u' = uses r.pool r.uses r.valid b xs i x live le in
    record {
      list = r.list;
      pool = record r.pool { words = d };
      uses = u';
      runs =
          insert_step l i x p r.list r.pool (length xs) (xs ++ (x ∷ [])) d r.runs seq
            (rw index (gap_runs r.pool r.uses r.valid b xs i x live le));
      valid = uses-IsPool r.pool r.uses r.valid b xs i x live le;
      holds =
          live-Represents u' r.list b (insert_at xs i x) (omega (arith, length-insert_at xs i x))
            index (uses_here r.pool r.uses r.valid b xs i x live le);
      others = λ j zs ne e.
          let (stays, distinct) = r.others j zs ne e in
          let other : j ≢ b = (λ same. distinct (omega arith)) in
          (uses_there r.pool r.uses r.valid b xs i x live le j other ∙ stays, distinct);
    }

-- With room for the block of the longer list, `insert` at an index up to the length of the list
-- does not panic. The list then stands for its elements with the new one at the index, every other
-- list of the pool stands for what it did, and the blocks of the pool are sound again.
pub insert-Represents :
    (p : ListPool) (u : ℕ → Use) (l : EntityList) (xs : List ℕ) (i x : ℕ)
    → IsPool p u
    → Represents u l xs
    → i ≤ length xs
    → length p.words + sclass_size (sclass_for_length (suc (length xs))) < 2 ^ 32
    → Updated u l (insert_at xs i x) (insert l i x p)
insert-Represents p u l xs i x h r le room =
    insert-Updated p u l xs i x le (push-Pushed p u l xs x h r room)
