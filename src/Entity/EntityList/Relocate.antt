-- ===== src/Entity/EntityList/Relocate.antt =====
-- The step that `push`, `remove` and `grow` share: a list stays in its block, or moves to one of
-- another class.
use cretonne.Prelude.{
  ℕ, suc, ◌+◌, ◌-◌, ◌^◌, ◌≤◌, ◌<◌, ◌≡◌, refl, ap, Bool, true, false, Option, some, List, length,
  get_elem?, if◌then◌else◌, arith,
}
use cretonne.Entity.EntityList.{
  EntityList, ListPool, sclass_size, len_of, realloc, relocate, list_at,
}
use cretonne.Entity.EntityList.SizeClass.{sclass_size-pos}
use cretonne.Entity.EntityList.Blocks.{Use, size_of, IsPool}
use cretonne.Entity.EntityList.Realloc.{realloc-Moved}

pub index_list_at : (b : ℕ) → b + 1 < 2 ^ 32 → (list_at b).index ≡ suc b
index_list_at b lt = omega arith

pub len_of_live :
    (p : ListPool) (l : EntityList) (b n : ℕ)
    → l.index ≡ suc b
    → get_elem? p.words b ≡ some n
    → len_of p l ≡ some n
unfolding len_of
len_of_live p l b n e at = let e' : l.index - 1 ≡ b = omega arith in rw e' (ground arith)

-- The list and its block after the step, the words that came along, and the lists that stay.
pub record Relocated (p : ListPool) (u : ℕ → Use) (b c m : ℕ)
    (o : Option (EntityList × ListPool × ℕ)) : Type 0 where
  pub list : EntityList
  pub pool : ListPool
  pub block : ℕ
  pub uses : ℕ → Use
  pub runs : o ≡ some (list, pool, block)
  pub at_block : list.index ≡ suc block
  pub valid : IsPool pool uses
  pub held : uses block ≡ Use.taken c
  pub words : (k : ℕ) → k < m → get_elem? pool.words (block + k) ≡ get_elem? p.words (b + k)
  pub lists : (j : ℕ) (ys : List ℕ) → u j ≡ Use.live ys → uses j ≡ Use.live ys

module _ (p : ListPool) (u : ℕ → Use) (h : IsPool p u) (l : EntityList) (b from to m : ℕ)
    (index : l.index ≡ suc b) (held : u b ≡ Use.taken from) where
  relocate_stays : relocate l p false from to m ≡ some (l, p, b)
  unfolding relocate
  relocate_stays = let e : l.index - 1 ≡ b = omega arith in rw e refl

  relocate_moves :
      (p' : ListPool) (b' : ℕ)
      → realloc p b from to m ≡ some (p', b')
      → relocate l p true from to m ≡ some (list_at b', p', b')
  unfolding relocate
  relocate_moves p' b' r = let e : l.index - 1 ≡ b = omega arith in rw (e, r) refl

  stays-Relocated : Relocated p u b from m (relocate l p false from to m)
  stays-Relocated = record {
    list = l;
    pool = p;
    block = b;
    uses = u;
    runs = relocate_stays;
    at_block = index;
    valid = h;
    held = held;
    words = λ k lt. refl;
    lists = λ j ys e. e;
  }

  moves-Relocated :
      0 < m
      → m ≤ sclass_size from
      → m ≤ sclass_size to
      → length p.words + sclass_size to < 2 ^ 32
      → Relocated p u b to m (relocate l p true from to m)
  unfolding size_of
  moves-Relocated pos old new room =
      let r = realloc-Moved p u h b from to m held pos old new room in
      let top = r.valid.fits r.block in
      record {
        list = list_at r.block;
        pool = r.pool;
        block = r.block;
        uses = r.uses;
        runs = relocate_moves r.pool r.block r.runs;
        at_block =
            index_list_at r.block
              (omega (arith, r.valid.small, ap size_of r.held, sclass_size-pos to));
        valid = r.valid;
        held = r.held;
        words = r.filled;
        lists = r.lists;
      }

  -- The class of the block after the step is that of the flag.
  pub relocate-Relocated :
      (moves : Bool)
      → 0 < m
      → m ≤ sclass_size from
      → m ≤ sclass_size (if moves then to else from)
      → length p.words + sclass_size (if moves then to else from) < 2 ^ 32
      → Relocated p u b (if moves then to else from) m (relocate l p moves from to m)
  relocate-Relocated true pos old new room = moves-Relocated pos old new room
  relocate-Relocated false pos old new room = stays-Relocated
