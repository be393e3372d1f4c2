-- ===== src/StackLayout/Rounds.antt =====
-- The rounds of `layout_stack`, by alignment.
use mathlib.Core.Path.{subst}
use native.Mathlib.Nat.{mul-mod_right, pow-suc, one-le-pow, pow-le-pow_right}
use native.Mathlib.Decide.{ℕ_discrete, dec_lt, dec_le}
use cretonne.Prelude.{
  ℕ, zero, suc, ◌+◌, ◌*◌, ◌%◌, ◌^◌, ◌≤◌, ◌<◌, ◌≡◌, ◌≢◌, refl, ap, ◌∙◌, Bool, true, false, ◌&&◌,
  ◌||◌, ◌==◌, leb, ltb, Option, none, some, List, [], ◌∷◌, arith, inl, inr, Bool-cases,
}
use cretonne.Prelude.Int.{ℤ}
use cretonne.Prelude.Panic.{◌>>=◌}
use cretonne.Result.{Result, ok, err, CtonError}
use cretonne.Ir.StackSlot.{StackSlotData, StackSlotKind}
use cretonne.Ir.StackSlot.Alignment.{twos, twos_le, alignment_lem}
use cretonne.StackLayout.{picked, place_slots, place_rounds}
use cretonne.StackLayout.Depth.{below, sub_below, and-RoundedUp}
use cretonne.StackLayout.Placed.{
  lowered, demand, demand_split, Small, Placed, none-Placed, nil-Placed, skip-Placed, take-Placed,
  later-Placed, Placed-Small,
}

abbrev pub movable : StackSlotKind → Bool
movable StackSlotKind.incoming_arg = false
movable StackSlotKind.outgoing_arg = false
movable StackSlotKind.spill_slot = true
movable StackSlotKind.explicit_slot = true
movable StackSlotKind.emergency_slot = true

pow_injective : (a b : ℕ) → a ≢ b → (2 ^ a == 2 ^ b) ≡ false
pow_injective a b ne = elim (dec_lt a b) [
  | yes lt ↦
      let wide = pow-le-pow_right {n = 2} (omega arith) lt in
      let pos = one-le-pow a 2 in ground (arith, pow-suc 2 a)
  | no ge ↦
      let gt : b < a = ground arith in
      let wide = pow-le-pow_right {n = 2} (omega arith) gt in
      let pos = one-le-pow b 2 in ground (arith, pow-suc 2 b)
]

-- An outcome of the slots' placement from a depth on: places for the selected slots, or the limit.
pub data Ends (k : ℕ) (sel : StackSlotData → Bool) (slots : List StackSlotData) (d : ℕ)
    : Option (List StackSlotData × Result ℤ) → Type 0 where
  placed :
      (after : List StackSlotData) (d' : ℕ)
      → d' ≤ 2 ^ 31
      → Placed k sel slots after d d'
      → Ends k sel slots d (some (after, ok (below d')))
  too_deep :
      (after : List StackSlotData)
      → 2 ^ 31 < d + demand k sel slots
      → Ends k sel slots d (some (after, err CtonError.impl_limit_exceeded))

module _ (k : ℕ) (narrow : k ≤ 30) where
  abbrev pub chosen : ℕ → StackSlotData → Bool
  chosen j s = movable s.kind && twos k s.size == j

  abbrev pub chosen_from : ℕ → StackSlotData → Bool
  chosen_from j s = movable s.kind && leb j (twos k s.size)

  picked_lem :
      (s : StackSlotData) (j : ℕ)
      → s.size < 2 ^ 31
      → picked s.kind s (2 ^ k) (2 ^ j) ≡ some (chosen j s)
  unfolding picked
  picked_lem s j lt = by_kind s.kind
    where
      own : (2 ^ twos k s.size == 2 ^ j) ≡ (twos k s.size == j)
      own = elim (ℕ_discrete (twos k s.size) j) [
        | yes e ↦ rw e (ground arith)
        | no ne ↦ pow_injective (twos k s.size) j ne ∙ ground arith
      ]

      by_kind :
          (c : StackSlotKind) → picked c s (2 ^ k) (2 ^ j) ≡ some (movable c && twos k s.size == j)
      by_kind StackSlotKind.incoming_arg = refl
      by_kind StackSlotKind.outgoing_arg = refl
      by_kind StackSlotKind.spill_slot =
          rw (alignment_lem s k (omega arith) (omega arith)) (ap some own)
      by_kind StackSlotKind.explicit_slot =
          rw (alignment_lem s k (omega arith) (omega arith)) (ap some own)
      by_kind StackSlotKind.emergency_slot =
          rw (alignment_lem s k (omega arith) (omega arith)) (ap some own)

  -- The slot at the front, before the others.
  front_placed :
      (sel : StackSlotData → Bool) (s : StackSlotData) (slots : List StackSlotData) (d e : ℕ)
      {o : Option (List StackSlotData × Result ℤ)}
      → sel s ≡ true
      → d + s.size ≤ e
      → e ≤ d + s.size + 2 ^ k
      → e % 2 ^ twos k s.size ≡ 0
      → Ends k sel slots e o
      → Ends k sel (s ∷ slots) d (o >>= λ (rest, r). some (lowered s e ∷ rest, r))
  front_placed sel s slots d e here fits tight whole (placed after d' le p) =
      placed (lowered s e ∷ after) d' le
        (take-Placed k sel s slots after d e d' here fits tight whole p)
  front_placed sel s slots d e here fits tight whole (too_deep after more) =
      too_deep (lowered s e ∷ after) (ground arith)

  front_skipped :
      (sel : StackSlotData → Bool) (s : StackSlotData) (slots : List StackSlotData) (d : ℕ)
      {o : Option (List StackSlotData × Result ℤ)}
      → sel s ≡ false
      → Ends k sel slots d o
      → Ends k sel (s ∷ slots) d (o >>= λ (rest, r). some (s ∷ rest, r))
  front_skipped sel s slots d out (placed after d' le p) =
      placed (s ∷ after) d' le (skip-Placed k sel s slots after d d' out p)
  front_skipped sel s slots d out (too_deep after more) = too_deep (s ∷ after) (ground arith)

  module _ (j : ℕ) (within : j ≤ k) where
    place_slots-Ends :
        (slots : List StackSlotData) (d : ℕ)
        → d ≤ 2 ^ 31
        → Small slots
        → Ends k (chosen j) slots d (place_slots (2 ^ k) (2 ^ j) slots (below d))
    unfolding place_slots
    place_slots-Ends [] d le small = placed [] d le (nil-Placed k (chosen j) d)
    place_slots-Ends (s ∷ slots) d le small =
        let lt = small 0 s refl in
        let here = picked_lem s j lt in
        let fewer : Small slots = λ i t. small (suc i) t in
        elim (Bool-cases (chosen j s)) [
          | inl now ↦
              let low = sub_below d s.size le lt in
              let same : twos k s.size ≡ j = ground arith in
              elim (dec_le (d + s.size) (2 ^ 31)) [
                | yes fits ↦
                    let r = and-RoundedUp (d + s.size) j fits (omega arith) in
                    let test : leb (d + s.size) (2 ^ 31) ≡ true = ground arith in
                    let tight : r.depth ≤ d + s.size + 2 ^ k =
                      omega (arith, r.least, pow-le-pow_right {n = 2} (omega arith) within) in
                    let whole : r.depth % 2 ^ twos k s.size ≡ 0 =
                      ap (λ z. r.depth % 2 ^ z) same
                      ∙ ap (λ z. z % 2 ^ j) r.multiple
                      ∙ mul-mod_right (2 ^ j) r.factor in
                    rw (place_slots, here, ◌>>=◌, now, low, test, r.runs)
                      (front_placed (chosen j) s slots d r.depth now r.above tight whole
                        (place_slots-Ends slots r.depth r.bound fewer))
                | no deep ↦
                    let test : leb (d + s.size) (2 ^ 31) ≡ false = ground arith in
                    rw (place_slots, here, ◌>>=◌, now, low, test)
                      (too_deep (s ∷ slots) (ground arith))
              ]
          | inr out ↦
              rw (place_slots, here, ◌>>=◌, out)
                (front_skipped (chosen j) s slots d out (place_slots-Ends slots d le fewer))
        ]

  chosen_from_split :
      (j : ℕ) (s : StackSlotData) → chosen_from j s ≡ chosen j s || chosen_from (suc j) s
  chosen_from_split j s = ground arith

  chosen_once : (j : ℕ) (s : StackSlotData) → chosen j s ≡ true → chosen_from (suc j) s ≡ false
  chosen_once j s e = ground arith

  -- A round and those after it.
  rounds_on :
      (fuel j : ℕ) (slots : List StackSlotData) (d : ℕ) {o : Option (List StackSlotData × Result ℤ)}
      → j ≤ k
      → Small slots
      → Ends k (chosen j) slots d o
      → ((after : List StackSlotData) (d' : ℕ)
          → d' ≤ 2 ^ 31
          → Small after
          → Ends k
              (chosen_from (suc j))
              after
              d'
              (place_rounds fuel (2 ^ k) (2 ^ j * 2) after (below d')))
      → Ends k (chosen_from j) slots d (
          o >>= λ (rest, r). elim r [
            | err e ↦ some (rest, err e)
            | ok low ↦ elim (ltb (2 ^ j * 2) (2 ^ 32)) [
              | true ↦ place_rounds fuel (2 ^ k) (2 ^ j * 2) rest low
              | false ↦ none
            ]
          ])
  rounds_on fuel j slots d within small (too_deep after more) next = too_deep after (
      omega (
        arith,
        demand_split k (chosen j) (chosen_from (suc j)) (chosen_from j) (chosen_from_split j)
            (chosen_once j) (λ s e. refl) slots,
      ))
  rounds_on fuel j slots d within small (placed after d' le p) next =
      let narrow_power : 2 ^ j ≤ 2 ^ 30 =
        pow-le-pow_right {n = 2} (omega arith) {i = j} {j = 30} (omega arith) in
      let fits : ltb (2 ^ j * 2) (2 ^ 32) ≡ true = ground arith in
      rw (◌>>=◌, fits)
        (join (next after d' le (Placed-Small k (chosen j) slots after d d' p small)))
    where
      join :
          {o : Option (List StackSlotData × Result ℤ)}
          → Ends k (chosen_from (suc j)) after d' o
          → Ends k (chosen_from j) slots d o
      join (placed end d2 le2 q) = placed end d2 le2 (
          later-Placed k (chosen j) (chosen_from (suc j)) (chosen_from j) (chosen_from_split j)
            (chosen_once j) (λ s e. refl) slots after end d d' d2 p q)
      join (too_deep end more) = too_deep end (
          omega (
            arith,
            p.cost,
            p.demands (chosen_from (suc j)) (λ s e. refl),
            demand_split k (chosen j) (chosen_from (suc j)) (chosen_from j) (chosen_from_split j)
                (chosen_once j) (λ s e. refl) slots,
          ))

  pub place_rounds-Ends :
      (fuel j : ℕ) (slots : List StackSlotData) (d : ℕ)
      → j ≤ suc k
      → k + 2 ≤ j + fuel
      → d ≤ 2 ^ 31
      → Small slots
      → Ends k (chosen_from j) slots d (place_rounds fuel (2 ^ k) (2 ^ j) slots (below d))
  unfolding place_rounds
  place_rounds-Ends zero j slots d up enough le small = absurd (omega arith)
  place_rounds-Ends (suc fuel) j slots d up enough le small = elim (dec_le j k) [
    | yes within ↦
        let test : leb (2 ^ j) (2 ^ k) ≡ true =
          ground (arith, pow-le-pow_right {n = 2} (omega arith) within) in
        let double : 2 ^ suc j ≡ 2 ^ j * 2 = omega (arith, pow-suc 2 j) in
        rw (place_rounds, test)
          (rounds_on fuel j slots d within small (place_slots-Ends j within slots d le small)
            (λ after d' le' small'.
              subst
                (λ z.
                  Ends k (chosen_from (suc j)) after d'
                    (place_rounds fuel (2 ^ k) z after (below d')))
                double
                (place_rounds-Ends fuel (suc j) after d' (omega arith) (omega arith) le' small')))
    | no over ↦
        let top : j ≡ suc k = omega arith in
        let pos = one-le-pow k 2 in
        let wide : 2 ^ k < 2 ^ j = rw top (omega (arith, pow-suc 2 k)) in
        let test : leb (2 ^ j) (2 ^ k) ≡ false = ground arith in
        rw (place_rounds, test)
          (placed slots d le
            (none-Placed k (chosen_from j) slots d (λ s. ground (arith, twos_le k s.size))))
  ]
