-- ===== src/StackLayout/Safe.antt =====
-- How `layout_stack` ends, by the outcomes of its loops.
use native.Mathlib.Nat.{mul-mod_right, pow-le-pow_right}
use native.Mathlib.Decide.{dec_le}
use cretonne.Prelude.{
  ℕ, zero, suc, ◌+◌, ◌-◌, ◌%◌, ◌^◌, ◌≤◌, ◌<◌, ◌≡◌, refl, ap, ◌∙◌, true, false, leb, Option, some,
  List, get_elem?, arith,
}
use cretonne.Prelude.Int.{ℤ, pos, ◌+ℤ◌, ◌≤ℤ◌, +ℤ_parts}
use cretonne.Prelude.Int32.{checked_sub, as_i32, as_u32}
use cretonne.Prelude.Panic.{◌>>=◌}
use cretonne.Result.{Result, ok, err, CtonError}
use cretonne.Ir.StackSlot.{StackSlotData}
use cretonne.Prelude.Bits.{pow-is_power_of_two}
use cretonne.Ir.StackSlot.Frame.{StackSlots}
use cretonne.StackLayout.{Scan, scan, place, finish, layout_stack, max_size}
use cretonne.StackLayout.Depth.{below, sub_below, and-RoundedUp}
use cretonne.StackLayout.Placed.{demand, demand_mono, Placed}
use cretonne.StackLayout.Rounds.{movable, chosen_from, Ends, place_rounds-Ends}
use cretonne.StackLayout.Scanned.{ScanEnds, scanned, over_limit, scan-ScanEnds}
use cretonne.StackLayout.Slot.{
  HasOffset, Fits, state, Oversized, too_large, ends_too_high, StartsFrom, EndsBy, Every,
}
use cretonne.StackLayout.Outcome.{
  LaidOut, movable_slot, oversized, overfull, LayoutEnds, laid_out, exceeds,
}

unsigned : (n : ℕ) → n ≤ 2 ^ 31 → (2 ^ 32 - as_u32 (below n)) % 2 ^ 32 ≡ n
unsigned zero le = refl
unsigned (suc n) le = ground arith

sum_below : (d s m : ℕ) (o : ℤ) → m + s ≤ d → below m ≤ℤ o → below d +ℤ pos s ≤ℤ o
unfolding ◌+ℤ◌
sum_below d s m o le low = ground arith

end_below :
    (n d x s : ℕ) (o : ℤ) → d + x ≤ n → o +ℤ pos s ≤ℤ pos x → below n +ℤ (o +ℤ pos s) ≤ℤ below d
end_below n d x s o le high = ground (arith, +ℤ_parts (below n) (o +ℤ pos s))

module _ (k : ℕ) (narrow : k ≤ 30) (frame : StackSlots) where
  module _ (m x j : ℕ) (within : j ≤ k) (lt : x < 2 ^ 31)
      (all : (i : ℕ) (s : StackSlotData) → get_elem? frame.slots i ≡ some s → Fits k m x j s)
      (from : (least : ℕ) → 0 ≤ least → Every (StartsFrom least) frame.slots → m ≤ least)
      (by : (most : ℕ) → 0 ≤ most → Every (EndsBy most) frame.slots → x ≤ most) where
    demand_chosen :
        demand k (chosen_from k narrow j) frame.slots ≤ demand k movable_slot frame.slots
    demand_chosen =
        demand_mono k (chosen_from k narrow j) movable_slot (λ s e. ground arith) frame.slots

    module _ (slots : List StackSlotData) (d e factor : ℕ)
        (p : Placed k (chosen_from k narrow j) frame.slots slots m d) where
      selected :
          (i : ℕ) (s : StackSlotData)
          → get_elem? frame.slots i ≡ some s
          → movable s.kind ≡ true
          → chosen_from k narrow j s ≡ true
      selected i s at moves = let f = all i s at in ground (arith, f.aligned moves)

      finished-LaidOut :
          d + x ≤ e
          → e ≤ 2 ^ 31
          → e % 2 ^ k ≡ 0
          → LaidOut k frame (record frame { slots = slots; frame_size = some e }) e
      finished-LaidOut room bound whole = record {
        whole = whole;
        bound = bound;
        saved = refl;
        lists = (refl, refl);
        same = p.same;
        kept = λ i s at stays. p.kept i s at (ground arith);
        depth = p.depth;
        moved = λ i s at moves.
            let (there, low, high, multiple) = p.moved i s at (selected i s at moves) in
            (there, omega arith, omega arith, multiple);
        apart = λ i l s t ne at at' h h'.
            p.apart i l s t ne at at' (selected i s at h) (selected l t at' h');
        under_incoming = λ i l s t o at at' moves arrives reads.
            let (there, low, high, multiple) = p.moved i s at (selected i s at moves) in
            let f = all l t at' in
            sum_below (p.depth i) s.size m o low (f.incoming o arrives reads);
        over_outgoing = λ i l s t o at at' moves leaves reads.
            let (there, low, high, multiple) = p.moved i s at (selected i s at moves) in
            let f = all l t at' in
            end_below e (p.depth i) x t.size o (omega arith) (f.outgoing o leaves reads);
      }

    -- Room for the outgoing arguments, and the size.
    finish-LayoutEnds :
        (slots : List StackSlotData) (d : ℕ)
        → d ≤ 2 ^ 31
        → Placed k (chosen_from k narrow j) frame.slots slots m d
        → LayoutEnds k frame
            (some (finish (record frame { slots = slots }) (2 ^ k) (pos x) (below d)))
    unfolding finish
    finish-LayoutEnds slots d le p =
        let cast : pos x ≡ as_i32 x = ground arith in
        let low = ap (checked_sub (below d)) cast ∙ sub_below d x le lt in
        elim (dec_le (d + x) (2 ^ 31)) [
          | yes fits ↦
              let r = and-RoundedUp (d + x) k fits narrow in
              let test : leb (d + x) (2 ^ 31) ≡ true = ground arith in
              let size : (2 ^ 32 - as_u32 (below r.depth)) % 2 ^ 32 ≡ r.depth =
                unsigned r.depth r.bound in
              let whole : r.depth % 2 ^ k ≡ 0 =
                ap (λ z. z % 2 ^ k) r.multiple ∙ mul-mod_right (2 ^ k) r.factor in
              rw (finish, low, test, r.runs, size)
                (laid_out _ r.depth
                  (finished-LaidOut slots d r.depth r.factor p r.above r.bound whole))
          | no over ↦
              let test : leb (d + x) (2 ^ 31) ≡ false = ground arith in
              rw (finish, low, test)
                (exceeds _ (
                  overfull (λ least most starts ends. omega (
                    arith,
                    p.cost,
                    demand_chosen,
                    from least (omega arith) starts,
                    by most (omega arith) ends,
                  ))))
        ]

    Ends-rounds :
        {o : Option (List StackSlotData × Result ℤ)}
        → Ends k (chosen_from k narrow j) frame.slots m o
        → LayoutEnds k frame (
            o >>= λ (slots, r). elim r [
              | err e ↦ some (err e, record frame { slots = slots })
              | ok offset ↦ some (finish (record frame { slots = slots }) (2 ^ k) (pos x) offset)
            ])
    Ends-rounds (Ends.placed slots d le p) = finish-LayoutEnds slots d le p
    Ends-rounds (Ends.too_deep slots more) =
        exceeds (record frame { slots = slots })
          (overfull (λ least most starts ends.
            omega (arith, demand_chosen, from least (omega arith) starts)))

    place-LayoutEnds : m ≤ 2 ^ 31 → LayoutEnds k frame (place frame (2 ^ k) (state m x j))
    unfolding place
    place-LayoutEnds le =
        rw (place, pow-is_power_of_two j)
          (Ends-rounds (
            place_rounds-Ends k narrow 33 j frame.slots m (omega arith) (omega arith) le
              (λ i s at. let f = all i s at in f.small)))

  starts :
      Every HasOffset frame.slots
      → layout_stack frame (2 ^ k) ≡ (
          scan frame.slots (state 0 0 k) >>= λ r. elim r [
            | err e ↦ some (err e, frame)
            | ok s ↦ place frame (2 ^ k) s
          ])
  unfolding layout_stack
  starts offsets =
      let wide : 2 ^ k ≤ 2 ^ 30 = pow-le-pow_right {n = 2} (omega arith) narrow in
      let test : leb (2 ^ k) max_size ≡ true = ground arith in
      rw (layout_stack, pow-is_power_of_two k, test) refl

  ends_scan :
      {o : Option (Result Scan)}
      → ScanEnds k 0 0 k frame.slots o
      → LayoutEnds k frame
          (o >>= λ r. elim r [ err e ↦ some (err e, frame) | ok s ↦ place frame (2 ^ k) s ])
  ends_scan (scanned m x j a b c d e all from by) = place-LayoutEnds m x j e d all from by b
  ends_scan (over_limit i s at big) = exceeds frame (oversized i s at big)

  -- For an alignment 2 ^ k, k at most 30, and argument slots with offsets that are `i32`s, `layout_stack` ends
  -- without a panic, either with the limit's error or with a frame laid out: its size is a multiple of the
  -- alignment and at most 2 ^ 31, argument slots stay, and every other slot is within the frame at a multiple
  -- of its alignment, under all incoming arguments, over all outgoing ones, and apart from the others.
  pub layout_stack-LayoutEnds :
      Every HasOffset frame.slots → LayoutEnds k frame (layout_stack frame (2 ^ k))
  layout_stack-LayoutEnds offsets = rw (starts offsets) (
      ends_scan (
        scan-ScanEnds k narrow frame.slots 0 0 k (omega arith) (omega arith) (omega arith) offsets))

  refused :
      {o : Option (Result Scan)} (i : ℕ) (s : StackSlotData)
      → get_elem? frame.slots i ≡ some s
      → Oversized s
      → ScanEnds k 0 0 k frame.slots o
      → (o >>= λ r. elim r [ err e ↦ some (err e, frame) | ok s ↦ place frame (2 ^ k) s ])
        ≡ some (err CtonError.impl_limit_exceeded, frame)
  refused i s at (too_large big) (scanned m x j a b c d e all from by) =
      let f = all i s at in absurd (omega (arith, f.small))
  refused i s at (ends_too_high o leaves reads high) (scanned m x j a b c d e all from by) =
      let f = all i s at in absurd (omega (arith, f.outgoing o leaves reads))
  refused i s at big (over_limit _ _ _ _) = refl

  -- An oversized slot makes `layout_stack` return the limit's error and the frame as it was, for an alignment
  -- 2 ^ k, k at most 30, and argument slots with offsets that are `i32`s.
  pub layout_stack-Oversized :
      Every HasOffset frame.slots
      → (i : ℕ) (s : StackSlotData) → get_elem? frame.slots i ≡ some s
      → Oversized s
      → layout_stack frame (2 ^ k) ≡ some (err CtonError.impl_limit_exceeded, frame)
  layout_stack-Oversized offsets i s at big =
      starts offsets
      ∙ refused i s at big (
          scan-ScanEnds k narrow frame.slots 0 0 k (omega arith) (omega arith) (omega arith)
            offsets)

  -- With room for the slots' sizes and alignments between the incoming arguments and the outgoing ones,
  -- `layout_stack` returns a frame laid out: no slot is oversized, the incoming arguments start at `least`
  -- below the frame's top or higher, the outgoing ones end at `most` or lower, and with the demand of the
  -- other slots they make 2 GB at most. The alignment is 2 ^ k, k at most 30, and argument slots have offsets
  -- that are `i32`s.
  pub layout_stack_roomy :
      (least most : ℕ)
      → Every HasOffset frame.slots
      → Every (λ s. (s.size ≤ max_size) × EndsBy most s) frame.slots
      → Every (StartsFrom least) frame.slots
      → most ≤ max_size
      → least + demand k movable_slot frame.slots + most ≤ 2 ^ 31
      → (after : StackSlots) × ((n : ℕ) × (layout_stack frame (2 ^ k) ≡ some (ok n, after))
          × LaidOut k frame after n)
  layout_stack_roomy least most offsets fits starts narrow_end room =
      roomy (layout_stack-LayoutEnds offsets)
    where
      roomy :
          {o : Option (Result ℕ × StackSlots)}
          → LayoutEnds k frame o
          → (after : StackSlots) × ((n : ℕ) × (o ≡ some (ok n, after)) × LaidOut k frame after n)
      roomy (laid_out after n good) = (after, (n, refl, good))
      roomy (exceeds after (oversized i s at (too_large big))) =
          let (small, _) = fits i s at in absurd (omega arith)
      roomy (exceeds after (oversized i s at (ends_too_high o leaves reads high))) =
          let (_, low) = fits i s at in absurd (omega (arith, low o leaves reads))
      roomy (exceeds after (overfull more)) =
          absurd
            (omega (arith, more least most starts (λ i s at. let (_, low) = fits i s at in low)))
