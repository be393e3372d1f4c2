-- ===== src/Entity/EntityList/InPlace.antt =====
-- The elements of a list change where they are.
use cretonne.Prelude.{
  ℕ, suc, ◌+◌, ◌≤◌, ◌<◌, ◌≡◌, ◌≢◌, sym, ◌∙◌, ap, some, List, [], ◌∷◌, length, get_elem?, arith,
}
use cretonne.Entity.EntityList.{EntityList, ListPool, sclass_for_length}
use cretonne.Entity.EntityList.SizeClass.{Fits, sclass_for_length-Fits}
use cretonne.Entity.EntityList.Blocks.{Use, mark, IsPool}
use cretonne.Entity.EntityList.Store.{
  Represents, Filled, mark_here, mark_there, open-IsPool, store-IsPool,
}

-- The block of a list that is not empty.
pub block_of :
    (u : ℕ → Use) (l : EntityList) (xs : List ℕ)
    → 0 < length xs
    → Represents u l xs
    → (b : ℕ) × (l.index ≡ suc b) × (u b ≡ Use.live xs)
block_of u l [] pos r = absurd (omega arith)
block_of u l (x ∷ xs) pos r = r

module _ (p : ListPool) (u : ℕ → Use) (h : IsPool p u) (b : ℕ) (xs zs d : List ℕ)
    (live : u b ≡ Use.live xs) (len : length zs ≡ length xs) (same : length d ≡ length p.words)
    (outside : (j : ℕ) → (suc b ≤ j → suc b + length xs ≤ j) → get_elem? d j ≡ get_elem? p.words j)
    (filled : Filled d b zs) where
  opened : ℕ → Use
  opened = mark u b (Use.taken (sclass_for_length (length xs)))

  pub rewritten : ℕ → Use
  unfolding opened
  rewritten = mark opened b (Use.live zs)

  -- The elements of the list change in place.
  pub in_place-IsPool : IsPool (record p { words = d }) rewritten
  unfolding rewritten opened Fits
  in_place-IsPool =
      let old = h.contents b xs live in
      let size = (sclass_for_length-Fits (length xs) old.short).0 in
      store-IsPool p opened (open-IsPool p u h b xs live) b (sclass_for_length (length xs)) zs d
        (mark_here u b (Use.taken (sclass_for_length (length xs)))) (ap sclass_for_length len) same
        (λ j out. outside j (λ lo. omega (arith, out (omega arith))))
        record {
          some_elem = omega (arith, old.some_elem);
          short = omega (arith, old.short);
          header = outside b (λ lo. absurd (omega arith)) ∙ old.header ∙ ap some (sym len);
          elems = filled;
        }

  pub rewritten_here : rewritten b ≡ Use.live zs
  unfolding rewritten
  rewritten_here = mark_here opened b (Use.live zs)

  pub rewritten_there : (j : ℕ) → j ≢ b → rewritten j ≡ u j
  unfolding rewritten opened
  rewritten_there j ne =
      mark_there opened b j (Use.live zs) ne
      ∙ mark_there u b j (Use.taken (sclass_for_length (length xs))) ne
