-- ===== src/Entity/EntityList/Clear.antt =====
-- `clear` gives the block of a list back and leaves every other list alone.
use cretonne.Prelude.{
  ℕ, suc, ◌-◌, ◌≡◌, ◌≢◌, refl, sym, ◌∙◌, ap, Option, none, some, List, [], ◌∷◌, length, get_elem?,
  get_or, arith,
}
use cretonne.Entity.EntityList.{EntityList, ListPool, sclass_for_length, len_of, free, empty, clear}
use cretonne.Entity.EntityList.Blocks.{Use, mark, IsPool}
use cretonne.Entity.EntityList.Alloc.{freed, freed_head, free-IsPool}
use cretonne.Entity.EntityList.Store.{Represents, mark_here, mark_there, open-IsPool}
use cretonne.Entity.EntityList.Relocate.{len_of_live}
use cretonne.Entity.EntityList.Read.{len_of_empty}

-- The list and the pool after an operation, what the list stands for, and what stays.
pub record Updated (u : ℕ → Use) (l : EntityList) (ys : List ℕ) (o : Option (EntityList × ListPool))
    : Type 0 where
  pub list : EntityList
  pub pool : ListPool
  pub uses : ℕ → Use
  pub runs : o ≡ some (list, pool)
  pub valid : IsPool pool uses
  pub holds : Represents uses list ys
  pub others :
      (b : ℕ) (zs : List ℕ)
      → l.index ≢ suc b
      → u b ≡ Use.live zs
      → (uses b ≡ Use.live zs) × (list.index ≢ suc b)

clear_step :
    (p : ListPool) (l : EntityList) (b n : ℕ) (p' : ListPool)
    → l.index ≡ suc b
    → len_of p l ≡ some n
    → free p b (sclass_for_length n) ≡ some p'
    → clear l p ≡ some (empty, p')
unfolding clear
clear_step p l b n p' e len runs =
    let e' : l.index - 1 ≡ b = omega arith in rw (clear, len, e', runs) refl

clear-empty : (p : ListPool) (l : EntityList) → len_of p l ≡ none → clear l p ≡ some (empty, p)
unfolding clear
clear-empty p l e = rw (clear, e) refl

module _ (p : ListPool) (u : ℕ → Use) (h : IsPool p u) (l : EntityList) (b n : ℕ)
    (index : l.index ≡ suc b) (held : u b ≡ Use.taken (sclass_for_length n))
    (header : get_elem? p.words b ≡ some n) where
  -- The block of the list, taken, is freed.
  pub clear-Updated : Updated u l [] (clear l p)
  unfolding empty
  clear-Updated =
      let c = sclass_for_length n in
      let (runs, valid) = free-IsPool p u h b c held in
      record {
        list = empty;
        pool = freed p u h b c;
        uses = mark u b (Use.spare c);
        runs = clear_step p l b n (freed p u h b c) index (len_of_live p l b n index header) runs;
        valid = valid;
        holds = refl;
        others = λ j zs ne e.
            (mark_there u b j (Use.spare c) (λ same. cc) ∙ e, λ same. absurd (omega arith));
      }

-- What the list does on its block, taken, is what it does.
pub opened-Updated :
    (u : ℕ → Use) (l : EntityList) (b c : ℕ) (ys : List ℕ) (o : Option (EntityList × ListPool))
    → l.index ≡ suc b
    → Updated (mark u b (Use.taken c)) l ys o
    → Updated u l ys o
opened-Updated u l b c ys o index r = record {
  list = r.list;
  pool = r.pool;
  uses = r.uses;
  runs = r.runs;
  valid = r.valid;
  holds = r.holds;
  others = λ j zs ne e.
      r.others j zs ne
        (mark_there u b j (Use.taken c) (λ same. ne (index ∙ ap suc (sym same))) ∙ e);
}

-- A cleared list, and its block at the head of the free list of its size class.
pub record Cleared (p : ListPool) (u : ℕ → Use) (l : EntityList) (xs : List ℕ) : Type 0 where
  pub updated : Updated u l [] (clear l p)
  pub freed_block :
      (b : ℕ)
      → l.index ≡ suc b
      → (updated.uses b ≡ Use.spare (sclass_for_length (length xs)))
        × (get_or updated.pool.heads (sclass_for_length (length xs)) 0 ≡ suc b)

-- `clear` does not panic and leaves the list empty. The block of a list that is not empty is at the
-- head of the free list of its size class; every other list of the pool stands for what it did, and
-- the blocks of the pool are sound again.
pub clear-Cleared :
    (p : ListPool) (u : ℕ → Use) (l : EntityList) (xs : List ℕ)
    → IsPool p u
    → Represents u l xs
    → Cleared p u l xs
unfolding empty
clear-Cleared p u l [] h e = record {
  updated = record {
    list = empty;
    pool = p;
    uses = u;
    runs = clear-empty p l (len_of_empty p l e);
    valid = h;
    holds = refl;
    others = λ b zs ne live. (live, λ same. absurd (omega arith));
  };
  freed_block = λ b at. let none_held : l.index ≡ 0 = e in absurd (omega arith);
}
clear-Cleared p u l (x ∷ xs) h (b, e, live) =
    let n = length (x ∷ xs) in
    let c = sclass_for_length n in
    let v = mark u b (Use.taken c) in
    let sound = open-IsPool p u h b (x ∷ xs) live in
    let held = mark_here u b (Use.taken c) in
    let len = len_of_live p l b n e (h.contents b (x ∷ xs) live).header in
    let (runs, valid) = free-IsPool p v sound b c held in
    let pool = freed p v sound b c in
    record {
      updated = record {
        list = empty;
        pool = pool;
        uses = mark v b (Use.spare c);
        runs = clear_step p l b n pool e len runs;
        valid = valid;
        holds = refl;
        others = λ j zs ne e'.
            let differs : j ≢ b = λ same. ne (e ∙ ap suc (sym same)) in
            (
              mark_there v b j (Use.spare c) differs ∙ mark_there u b j (Use.taken c) differs ∙ e',
              λ same. absurd (omega arith),
            );
      };
      freed_block = λ j at.
          let same : b ≡ j = omega arith in
          rw (← same) (mark_here v b (Use.spare c), freed_head p v sound b c held);
    }
