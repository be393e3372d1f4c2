-- ===== src/Ir/Layout/Refines.antt =====
-- The operations of `Layout` against lists: one of EBBs, and one of instructions for each EBB.
use cretonne.Prelude.{
  ℕ, suc, ◌<◌, ◌≡◌, refl, List, [], ◌∷◌, ◌++◌, Option, none, some, true, false, arith, length,
  get_elem?,
}
use cretonne.Prelude.Swap.{get_elem?_lt, get_elem?-push}
use cretonne.Prelude.Splice.{insert_at, get_elem?-insert_at, insert_at-length}
use cretonne.Entity.Map
use cretonne.Ir.Layout.{Layout, new, ebb_node, inst_node}
use cretonne.Ir.Layout.Links.{Links, before_lem, prev_within}
use cretonne.Ir.Layout.Seq.{ebb_next_seq, ebb_prev_seq}
use cretonne.Ir.Layout.Ops.{
  append_ebb, append_ebb_links, insert_ebb, insert_ebb_links, insert_ebb_after,
  insert_ebb_after_links, append_inst, insert_inst, is_ebb_inserted, is_some_ebb, is_some,
}
use cretonne.Ir.Layout.Shape.{shape, shape-first_ebb, shape-prev}
use cretonne.Ir.Layout.Valid.{IsLayout, Absent}
use cretonne.Ir.Layout.ValidInst.{with_body}
use cretonne.Ir.Layout.Ebbs.{
  append_ebb_links-IsLayout, insert_ebb_links-IsLayout, insert_ebb_after_links-IsLayout,
}
use cretonne.Ir.Layout.Insts.{append_inst_links-IsLayout, insert_inst_links-IsLayout}
use cretonne.Ir.Layout.Renumber.{Enough, Keeps}
use cretonne.Ir.Layout.Assign.{assign_ebb_seq-Keeps, assign_inst_seq-Keeps}

-- The run returns a layout that stands for these lists.
abbrev pub Gives : Option Layout → List ℕ → (ℕ → List ℕ) → Type 0
Gives o es body = (l : Layout) × (o ≡ some l) × IsLayout (shape l) es body

-- What `midpoint` asserts where the EBB gets its number: the number before it is below the one after
-- it, if there is one.
abbrev pub HasRoom : Layout → ℕ → Type 0
HasRoom l e = (n : ℕ) → ebb_next_seq l e ≡ some n → ebb_prev_seq l e < n

-- What keeps the links stands for the same lists.
Gives-Keeps :
    {es : List ℕ} {body : ℕ → List ℕ} (l : Layout) (o : Option Layout)
    → IsLayout (shape l) es body
    → Keeps (λ r. r) l o
    → Gives o es body
Gives-Keeps l o h (r, runs, keeps) = (r, runs, rw keeps h)

pub new-IsLayout : IsLayout (shape new) [] (λ _. [])
unfolding new shape Map.index Map.with_default
new-IsLayout = record {
  ebb_links = empty;
  inst_links = λ e. empty;
  owner = λ e k i p. cc;
  owned = λ i e p. cc;
  outside = λ e p. refl;
}
  where
    empty : Links (λ _. none) (λ _. none) none none []
    empty = record {
      distinct = λ i j a p q. cc;
      prevs = λ i a p. cc;
      nexts = λ i a p. cc;
      firsts = refl;
      lasts = refl;
    }

module _ (fuel : ℕ) (l : Layout) (es : List ℕ) (body : ℕ → List ℕ)
    (h : IsLayout (shape l) es body) where
  -- With fuel for the new lists, `append_ebb` of an EBB that is not laid out returns, and the EBB
  -- stands at the end of the EBBs; all else is as before.
  pub append_ebb-Gives :
      (e : ℕ)
      → Absent e es
      → Enough fuel (es ++ e ∷ []) body
      → Gives (append_ebb fuel l e) (es ++ e ∷ []) body
  unfolding append_ebb
  append_ebb-Gives e fresh enough =
      let l' = append_ebb_links l e in
      let h' = rw insert_at-length at (append_ebb_links-IsLayout l es body e h fresh) in
      Gives-Keeps l' (append_ebb fuel l e) h' (
        assign_ebb_seq-Keeps (es ++ e ∷ []) body fuel enough l' (length es) e h'
          (ground (arith, get_elem?-push es e (length es))))

  -- With fuel for the new lists, and a number before the place that is below the one after it,
  -- `insert_ebb` of an EBB that is not laid out returns, and the EBB stands right before the given
  -- one, which is laid out; all else is as before.
  pub insert_ebb-Gives :
      (e b k : ℕ)
      → Absent e es
      → get_elem? es k ≡ some b
      → Enough fuel (insert_at es k e) body
      → HasRoom (insert_ebb_links l e b) e
      → Gives (insert_ebb fuel l e b) (insert_at es k e) body
  unfolding insert_ebb
  insert_ebb-Gives e b k fresh there enough _ =
      let l' = insert_ebb_links l e b in
      let h' = insert_ebb_links-IsLayout l es body e b k h fresh there in
      Gives-Keeps l' (insert_ebb fuel l e b) h' (
        assign_ebb_seq-Keeps (insert_at es k e) body fuel enough l' k e h'
          (ground (arith, get_elem?-insert_at es k e k, get_elem?_lt es k there)))

  -- With fuel for the new lists, `insert_ebb_after` of an EBB that is not laid out returns, and
  -- the EBB stands right after the given one, which is laid out; all else is as before.
  pub insert_ebb_after-Gives :
      (e b k : ℕ)
      → Absent e es
      → get_elem? es k ≡ some b
      → Enough fuel (insert_at es (suc k) e) body
      → Gives (insert_ebb_after fuel l e b) (insert_at es (suc k) e) body
  unfolding insert_ebb_after
  insert_ebb_after-Gives e b k fresh there enough =
      let l' = insert_ebb_after_links l e b in
      let h' = insert_ebb_after_links-IsLayout l es body e b k h fresh there in
      Gives-Keeps l' (insert_ebb_after fuel l e b) h' (
        assign_ebb_seq-Keeps (insert_at es (suc k) e) body fuel enough l' (suc k) e h'
          (ground (arith, get_elem?-insert_at es (suc k) e (suc k), get_elem?_lt es k there)))

  -- With fuel for the new lists, `append_inst` of an instruction that is in no EBB and has no next
  -- one returns, and the instruction stands at the end of the given EBB, which is laid out; all
  -- else is as before.
  pub append_inst-Gives :
      (i e j : ℕ)
      → get_elem? es j ≡ some e
      → (inst_node l i).ebb ≡ none
      → (inst_node l i).next ≡ none
      → Enough fuel es (with_body body e (body e ++ i ∷ []))
      → Gives (append_inst fuel l i e) es (with_body body e (body e ++ i ∷ []))
  unfolding append_inst
  append_inst-Gives i e j here loose unlinked enough =
      let (l', runs, h') = append_inst_links-IsLayout l es body j e i h here loose unlinked in
      let h'' = rw insert_at-length at h' in
      let (r, runs', keeps) =
        assign_inst_seq-Keeps es (with_body body e (body e ++ i ∷ [])) fuel enough l' j e
          (length (body e)) i h'' here
          (ground (arith, get_elem?-push (body e) i (length (body e)))) in
      (r, ground arith, rw keeps h'')

  -- With fuel for the new lists, `insert_inst` of an instruction that is in no EBB returns, and
  -- the instruction stands right before the given one, in its EBB, which is laid out; all else is
  -- as before.
  pub insert_inst-Gives :
      (i b e j k : ℕ)
      → get_elem? es j ≡ some e
      → get_elem? (body e) k ≡ some b
      → (inst_node l i).ebb ≡ none
      → Enough fuel es (with_body body e (insert_at (body e) k i))
      → Gives (insert_inst fuel l i b) es (with_body body e (insert_at (body e) k i))
  unfolding insert_inst
  insert_inst-Gives i b e j k here there loose enough =
      let (l', runs, h') = insert_inst_links-IsLayout l es body j e k b i h here there loose in
      let (r, runs', keeps) =
        assign_inst_seq-Keeps es (with_body body e (insert_at (body e) k i)) fuel enough l' j e k i
          h' here
          (ground (arith, get_elem?-insert_at (body e) k i k, get_elem?_lt (body e) k there)) in
      (r, ground arith, rw keeps h')

  -- `is_ebb_inserted` holds of every EBB that is laid out, and of no other one that has no
  -- previous EBB.
  pub is_ebb_inserted_lem :
      (e : ℕ)
      → ((k : ℕ) → get_elem? es k ≡ some e → is_ebb_inserted l e ≡ true)
        × (Absent e es → (ebb_node l e).prev ≡ none → is_ebb_inserted l e ≡ false)
  unfolding is_ebb_inserted is_some_ebb is_some
  is_ebb_inserted_lem e = (laid, apart)
    where
      laid : (k : ℕ) → get_elem? es k ≡ some e → is_ebb_inserted l e ≡ true
      laid k there = ground (
        arith,
        shape-first_ebb l,
        shape-prev l e,
        h.ebb_links.firsts,
        h.ebb_links.prevs k e there,
        before_lem es k,
        prev_within es k,
        get_elem?_lt es k there,
      )

      apart : Absent e es → (ebb_node l e).prev ≡ none → is_ebb_inserted l e ≡ false
      apart fresh unlinked = ground (arith, shape-first_ebb l, h.ebb_links.firsts, fresh 0)
