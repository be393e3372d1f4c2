-- ===== src/StackLayout/Placed.antt =====
-- Slots that got places below a depth, one below the other.
use mathlib.Core.Path.{subst}
use cretonne.Prelude.{
  ℕ, zero, suc, ◌+◌, ◌%◌, ◌^◌, ◌≤◌, ◌<◌, ◌≡◌, ◌≢◌, refl, ap, ◌∙◌, Bool, true, false, ◌||◌, none,
  some, List, [], ◌∷◌, length, get_elem?, if◌then◌else◌, arith, ◌⊎◌, inl, inr, Bool-cases,
}
use cretonne.Prelude.Swap.{get_elem?_lt, get_elem?_within}
use cretonne.Ir.StackSlot.{StackSlotData}
use cretonne.Ir.StackSlot.Alignment.{twos}
use cretonne.StackLayout.Depth.{below}

abbrev pub lowered : StackSlotData → ℕ → StackSlotData
lowered s e = record s { offset = some (below e) }

abbrev pub Small : List StackSlotData → Type 0
Small slots = (i : ℕ) (s : StackSlotData) → get_elem? slots i ≡ some s → s.size < 2 ^ 31

-- The bytes that the selected slots take at most, 2 ^ k of which go to each one's alignment.
abbrev pub demand : ℕ → (StackSlotData → Bool) → List StackSlotData → ℕ
demand k sel [] = 0
demand k sel (s ∷ slots) = (if sel s then s.size + 2 ^ k else 0) + demand k sel slots

-- A selection that does not look at the offsets.
abbrev pub OffsetFree : (StackSlotData → Bool) → Type 0
OffsetFree sel = (s : StackSlotData) (e : ℕ) → sel (lowered s e) ≡ sel s

pub demand_mono :
    (k : ℕ) (sel sel' : StackSlotData → Bool)
    → ((s : StackSlotData) → sel s ≡ true → sel' s ≡ true)
    → (slots : List StackSlotData) → demand k sel slots ≤ demand k sel' slots
demand_mono k sel sel' more [] = omega arith
demand_mono k sel sel' more (s ∷ slots) = ground (arith, more s, demand_mono k sel sel' more slots)

-- The selected slots were placed between the depths d and d', where none overlaps another and each has the
-- alignment of its size, at most 2 ^ k; the others are as before. `depth i` is the depth of slot i.
pub record Placed (k : ℕ) (sel : StackSlotData → Bool) (slots after : List StackSlotData) (d d' : ℕ)
    : Type 0 where
  pub depth : ℕ → ℕ
  pub grows : d ≤ d'
  pub cost : d' ≤ d + demand k sel slots
  pub demands :
      (other : StackSlotData → Bool)
      → OffsetFree other
      → demand k other after ≡ demand k other slots
  pub same : length after ≡ length slots
  pub kept :
      (i : ℕ) (s : StackSlotData)
      → get_elem? slots i ≡ some s
      → sel s ≡ false
      → get_elem? after i ≡ some s
  pub moved :
      (i : ℕ) (s : StackSlotData)
      → get_elem? slots i ≡ some s
      → sel s ≡ true
      → (get_elem? after i ≡ some (lowered s (depth i)))
        × (d + s.size ≤ depth i)
        × (depth i ≤ d')
        × (depth i % 2 ^ twos k s.size ≡ 0)
  -- A slot reaches from its depth up by its size.
  pub apart :
      (i j : ℕ) (s t : StackSlotData)
      → i ≢ j
      → get_elem? slots i ≡ some s
      → get_elem? slots j ≡ some t
      → sel s ≡ true
      → sel t ≡ true
      → (depth i + t.size ≤ depth j) ⊎ (depth j + s.size ≤ depth i)

module _ (k : ℕ) (sel : StackSlotData → Bool) where
  pub none-Placed :
      (slots : List StackSlotData) (d : ℕ)
      → ((s : StackSlotData) → sel s ≡ false)
      → Placed k sel slots slots d d
  none-Placed slots d no_one = record {
    depth = λ i. 0;
    grows = omega arith;
    cost = omega arith;
    demands = λ other free. refl;
    same = refl;
    kept = λ i s at e. at;
    moved = λ i s at e. absurd (ground (arith, no_one s));
    apart = λ i j s t ne at at' e e'. absurd (ground (arith, no_one s));
  }

  pub nil-Placed : (d : ℕ) → Placed k sel [] [] d d
  nil-Placed d = record {
    depth = λ i. 0;
    grows = omega arith;
    cost = omega arith;
    demands = λ other free. refl;
    same = refl;
    kept = λ i s at e. absurd (ground arith);
    moved = λ i s at e. absurd (ground arith);
    apart = λ i j s t ne at at' e e'. absurd (ground arith);
  }

  module _ (x : StackSlotData) (xs ys : List StackSlotData) where
    pub skip-Placed :
        (d d' : ℕ) → sel x ≡ false → Placed k sel xs ys d d' → Placed k sel (x ∷ xs) (x ∷ ys) d d'
    skip-Placed d d' out p = record {
      depth = λ i. elim i [ zero ↦ 0 | suc i ↦ p.depth i ];
      grows = p.grows;
      cost = ground (arith, p.cost);
      demands = λ other free. ground (arith, p.demands other free);
      same = ap suc p.same;
      kept = elim [ zero ↦ λ s at e. at | suc i ↦ λ s at e. p.kept i s at e ];
      moved = elim [ zero ↦ λ s at e. absurd (ground arith) | suc i ↦ λ s at e. p.moved i s at e ];
      apart = elim [
        | zero ↦ λ j s t ne at at' e e'. absurd (ground arith)
        | suc i ↦ elim [
          | zero ↦ λ s t ne at at' e e'. absurd (ground arith)
          | suc j ↦ λ s t ne at at' e e'. p.apart i j s t (λ q. ne (ap suc q)) at at' e e'
        ]
      ];
    }

    pub take-Placed :
        (d e d' : ℕ)
        → sel x ≡ true
        → d + x.size ≤ e
        → e ≤ d + x.size + 2 ^ k
        → e % 2 ^ twos k x.size ≡ 0
        → Placed k sel xs ys e d'
        → Placed k sel (x ∷ xs) (lowered x e ∷ ys) d d'
    take-Placed d e d' chosen fits tight whole p =
        let grows = p.grows in
        record {
          depth = λ i. elim i [ zero ↦ e | suc i ↦ p.depth i ];
          grows = omega arith;
          cost = ground (arith, p.cost);
          demands = λ other free. ground (arith, p.demands other free, free x e);
          same = ap suc p.same;
          kept = elim [
            | zero ↦ λ s at out. absurd (ground arith)
            | suc i ↦ λ s at out. p.kept i s at out
          ];
          moved = elim [
            | zero ↦ λ s at here.
                let same : x ≡ s = ground arith in
                subst
                  (λ z.
                    (some (lowered x e) ≡ some (lowered z e))
                    × (d + z.size ≤ e)
                    × (e ≤ d')
                    × (e % 2 ^ twos k z.size ≡ 0))
                  same (refl, fits, grows, whole)
            | suc i ↦ λ s at here.
                let (there, low, high, multiple) = p.moved i s at here in
                (there, omega arith, high, multiple)
          ];
          apart = elim [
            | zero ↦ elim [
              | zero ↦ λ s t ne at at' h h'. absurd (ne refl)
              | suc j ↦ λ s t ne at at' h h'. let (_, low, _, _) = p.moved j t at' h' in inl low
            ]
            | suc i ↦ elim [
              | zero ↦ λ s t ne at at' h h'. let (_, low, _, _) = p.moved i s at h in inr low
              | suc j ↦ λ s t ne at at' h h'. p.apart i j s t (λ q. ne (ap suc q)) at at' h h'
            ]
          ];
        }

-- One after the other: the second selection is of slots that the first left.
module _ (k : ℕ) (first second both : StackSlotData → Bool)
    (split : (s : StackSlotData) → both s ≡ first s || second s)
    (disjoint : (s : StackSlotData) → first s ≡ true → second s ≡ false)
    (offset_free : OffsetFree second) where
  pub demand_split :
      (slots : List StackSlotData)
      → demand k both slots ≡ demand k first slots + demand k second slots
  demand_split [] = refl
  demand_split (s ∷ slots) = ground (arith, split s, disjoint s, demand_split slots)

  pub later-Placed :
      (a b c : List StackSlotData) (d d1 d2 : ℕ)
      → Placed k first a b d d1
      → Placed k second b c d1 d2
      → Placed k both a c d d2
  later-Placed a b c d d1 d2 p q =
      let grows = p.grows in
      let grows' = q.grows in
      record {
        depth = λ i. elim (get_elem? a i) [
          | none ↦ 0
          | some s ↦ if first s then p.depth i else q.depth i
        ];
        grows = omega arith;
        cost = omega (arith, p.cost, q.cost, p.demands second offset_free, demand_split a);
        demands = λ other free. q.demands other free ∙ p.demands other free;
        same = q.same ∙ p.same;
        kept = λ i s at out.
            q.kept i s (p.kept i s at (ground (arith, split s))) (ground (arith, split s));
        moved = λ i s at here. elim (Bool-cases (first s)) [
          | inl now ↦
              let (there, low, high, multiple) = p.moved i s at now in
              rw (at, now)
                (
                  q.kept i (lowered s (p.depth i)) there
                      (offset_free s (p.depth i) ∙ disjoint s now),
                  low,
                  omega arith,
                  multiple,
                )
          | inr after ↦
              let (there, low, high, multiple) =
                q.moved i s (p.kept i s at after) (ground (arith, split s)) in
              rw (at, after) (there, omega arith, high, multiple)
        ];
        apart = λ i j s t ne at at' here here'. elim (Bool-cases (first s)) [
          | inl now ↦ elim (Bool-cases (first t)) [
            | inl now' ↦ rw (at, at', now, now') (p.apart i j s t ne at at' now now')
            | inr after' ↦
                let (_, _, high, _) = p.moved i s at now in
                let (_, low, _, _) =
                  q.moved j t (p.kept j t at' after') (ground (arith, split t)) in
                rw (at, at', now, after') (inl (omega arith))
          ]
          | inr after ↦
              let later : second s ≡ true = ground (arith, split s) in
              elim (Bool-cases (first t)) [
                | inl now' ↦
                    let (_, _, high, _) = p.moved j t at' now' in
                    let (_, low, _, _) = q.moved i s (p.kept i s at after) later in
                    rw (at, at', after, now') (inr (omega arith))
                | inr after' ↦
                    rw (at, at', after, after')
                      (q.apart i j s t ne (p.kept i s at after) (p.kept j t at' after') later
                        (ground (arith, split t)))
              ]
        ];
      }

-- Sizes stay small.
pub Placed-Small :
    (k : ℕ) (sel : StackSlotData → Bool) (slots after : List StackSlotData) (d d' : ℕ)
    → Placed k sel slots after d d'
    → Small slots
    → Small after
Placed-Small k sel slots after d d' p small i s at =
    let lt = get_elem?_lt after i at in
    let same = p.same in
    let (t, at') = get_elem?_within slots i (omega arith) in
    let lt' = small i t at' in
    elim (Bool-cases (sel t)) [
      | inl here ↦
          let (there, _, _, _) = p.moved i t at' here in
          let e : lowered t (p.depth i) ≡ s = ground arith in subst (λ z. z.size < 2 ^ 31) e lt'
      | inr out ↦
          let there = p.kept i t at' out in
          let e : t ≡ s = ground arith in subst (λ z. z.size < 2 ^ 31) e lt'
    ]
