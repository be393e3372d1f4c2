-- ===== src/StackLayout/Slot.antt =====
-- One slot in the first loop of `layout_stack`.
use mathlib.Core.Path.{subst}
use native.Mathlib.Decide.{dec_lt}
use cretonne.Prelude.{
  ℕ, zero, suc, ◌^◌, ◌≤◌, ◌<◌, ◌≡◌, refl, sym, ap, true, false, Option, some, List, get_elem?,
  arith, inl, inr, Bool-cases,
}
use cretonne.Prelude.Int.{ℤ, pos, negsuc, ◌+ℤ◌, ◌≤ℤ◌, +ℤ_parts}
use cretonne.Prelude.Int32.{in_i32, checked_add, as_i32, min_ℤ, max_ℤ}
use cretonne.Prelude.Panic.{◌>>=◌}
use cretonne.Result.{Result, ok, err, CtonError}
use cretonne.Ir.StackSlot.{StackSlotData, StackSlotKind}
use cretonne.Ir.StackSlot.Alignment.{twos, twos_le, twos_mono, alignment_lem}
use cretonne.StackLayout.{Scan, scan_kind, max_size}
use cretonne.StackLayout.Depth.{below}
use cretonne.StackLayout.Rounds.{movable}

-- An argument slot has an offset, which is an `i32`.
abbrev pub HasOffset : StackSlotData → Type 0
HasOffset s = movable s.kind ≡ false → (o : ℤ) × (s.offset ≡ some o) × (in_i32 o ≡ true)

abbrev pub Every : (StackSlotData → Type 0) → List StackSlotData → Type 0
Every P slots = (i : ℕ) (s : StackSlotData) → get_elem? slots i ≡ some s → P s

abbrev pub state : ℕ → ℕ → ℕ → Scan
state m x j = record { incoming_min = below m; outgoing_max = pos x; min_align = 2 ^ j }

-- The slot has a size in the limit, starts at the incoming arguments' lowest offset or higher, ends at the
-- outgoing ones' highest end or lower, and has at least the least alignment.
pub record Fits (k m x j : ℕ) (s : StackSlotData) : Type 0 where
  pub small : s.size < 2 ^ 31
  pub incoming : (o : ℤ) → s.kind ≡ StackSlotKind.incoming_arg → s.offset ≡ some o → below m ≤ℤ o
  pub outgoing :
      (o : ℤ) → s.kind ≡ StackSlotKind.outgoing_arg → s.offset ≡ some o → o +ℤ pos s.size ≤ℤ pos x
  pub aligned : movable s.kind ≡ true → j ≤ twos k s.size

-- A slot of 2 GB or more, or an outgoing argument that ends there or further.
pub data Oversized (s : StackSlotData) : Type 0 where
  too_large : max_size < s.size → Oversized s
  ends_too_high :
      (o : ℤ)
      → s.kind ≡ StackSlotKind.outgoing_arg
      → s.offset ≡ some o
      → pos (2 ^ 31) ≤ℤ o +ℤ pos s.size
      → Oversized s

-- The lowest offset and the highest end that a slot allows.
abbrev pub StartsFrom : ℕ → StackSlotData → Type 0
StartsFrom m s = (o : ℤ) → s.kind ≡ StackSlotKind.incoming_arg → s.offset ≡ some o → below m ≤ℤ o

abbrev pub EndsBy : ℕ → StackSlotData → Type 0
EndsBy x s =
    (o : ℤ) → s.kind ≡ StackSlotKind.outgoing_arg → s.offset ≡ some o → o +ℤ pos s.size ≤ℤ pos x

pub Fits-mono :
    (k m m' x x' j j' : ℕ) (s : StackSlotData)
    → m ≤ m'
    → x ≤ x'
    → j' ≤ j
    → Fits k m x j s
    → Fits k m' x' j' s
Fits-mono k m m' x x' j j' s le le' le2 f = record {
  small = f.small;
  incoming = λ o e e'. ground (arith, f.incoming o e e');
  outgoing = λ o e e'. omega (arith, f.outgoing o e e');
  aligned = λ e. omega (arith, f.aligned e);
}

lower_incoming :
    (m : ℕ) (o : ℤ)
    → m ≤ 2 ^ 31
    → in_i32 o ≡ true
    → (m' : ℕ) × (min_ℤ (below m) o ≡ below m')
      × (m ≤ m')
      × (m' ≤ 2 ^ 31)
      × (below m' ≤ℤ o)
      × ((least : ℕ) → m ≤ least → below least ≤ℤ o → m' ≤ least)
lower_incoming zero (pos n) le r =
    (0, ground arith, ground arith, ground arith, ground arith, λ b up far. ground arith)
lower_incoming (suc m) (pos n) le r =
    (suc m, ground arith, ground arith, ground arith, ground arith, λ b up far. ground arith)
lower_incoming zero (negsuc n) le r =
    (suc n, ground arith, ground arith, ground arith, ground arith, λ b up far. ground arith)
lower_incoming (suc m) (negsuc n) le r = elim (dec_lt m n) [
  | yes lt ↦
      (suc n, ground arith, ground arith, ground arith, ground arith, λ b up far. ground arith)
  | no ge ↦
      (suc m, ground arith, ground arith, ground arith, ground arith, λ b up far. ground arith)
]

raise_outgoing :
    (x : ℕ) (o : ℤ)
    → x < 2 ^ 31
    → in_i32 o ≡ true
    → (x' : ℕ) × (max_ℤ (pos x) o ≡ pos x')
      × (x ≤ x')
      × (x' < 2 ^ 31)
      × (o ≤ℤ pos x')
      × ((most : ℕ) → x ≤ most → o ≤ℤ pos most → x' ≤ most)
raise_outgoing x (pos n) lt r = elim (dec_lt x n) [
  | yes up ↦ (n, ground arith, ground arith, ground arith, ground arith, λ b up far. ground arith)
  | no stay ↦ (x, ground arith, ground arith, ground arith, ground arith, λ b up far. ground arith)
]
raise_outgoing x (negsuc n) lt r =
    (x, ground arith, ground arith, ground arith, ground arith, λ b up far. ground arith)

too_far :
    (o : ℤ) (n : ℕ)
    → in_i32 o ≡ true
    → n < 2 ^ 31
    → in_i32 (o +ℤ pos n) ≡ false
    → pos (2 ^ 31) ≤ℤ o +ℤ pos n
too_far o n range lt over = ground (arith, +ℤ_parts o (pos n))

pub data SlotEnds (k m x j : ℕ) (s : StackSlotData) : Option (Result Scan) → Type 0 where
  slot_scanned :
      (m' x' j' : ℕ)
      → m ≤ m'
      → m' ≤ 2 ^ 31
      → x ≤ x'
      → x' < 2 ^ 31
      → j' ≤ j
      → Fits k m' x' j' s
      → ((least : ℕ) → m ≤ least → StartsFrom least s → m' ≤ least)
      → ((most : ℕ) → x ≤ most → EndsBy most s → x' ≤ most)
      → SlotEnds k m x j s (some (ok (state m' x' j')))
  slot_over_limit : Oversized s → SlotEnds k m x j s (some (err CtonError.impl_limit_exceeded))

module _ (k m x j : ℕ) (narrow : k ≤ 30) (le : m ≤ 2 ^ 31) (lt : x < 2 ^ 31) (within : j ≤ k) where
  module _ (s : StackSlotData) (small : s.size < 2 ^ 31) where
    incoming-SlotEnds :
        (o : ℤ)
        → s.kind ≡ StackSlotKind.incoming_arg
        → s.offset ≡ some o
        → in_i32 o ≡ true
        → SlotEnds k m x j s (scan_kind StackSlotKind.incoming_arg s (state m x j))
    unfolding scan_kind
    incoming-SlotEnds o kind at range =
        let (m', e, up, bound, low, tight) = lower_incoming m o le range in
        let runs : scan_kind StackSlotKind.incoming_arg s (state m x j) ≡ some (ok (state m' x j)) =
          rw (scan_kind, at, ◌>>=◌, e) refl in
        subst (SlotEnds k m x j s) (sym runs) (
          slot_scanned m' x j up bound (omega arith) lt (omega arith)
            record {
              small = small;
              incoming = λ o' _ at'. let same : o ≡ o' = ground arith in ground arith;
              outgoing = λ o' kind' _. absurd (ground arith);
              aligned = λ moves. absurd (ground arith);
            }
            (λ least le' from. tight least le' (from o kind at)) (λ most le' _. le'))

    outgoing-SlotEnds :
        (o : ℤ)
        → s.kind ≡ StackSlotKind.outgoing_arg
        → s.offset ≡ some o
        → in_i32 o ≡ true
        → SlotEnds k m x j s (scan_kind StackSlotKind.outgoing_arg s (state m x j))
    unfolding scan_kind checked_add
    outgoing-SlotEnds o kind at range =
        let cast : as_i32 s.size ≡ pos s.size = ground arith in
        elim (Bool-cases (in_i32 (o +ℤ pos s.size))) [
          | inl fits ↦
              let (x', e, up, bound, low, tight) = raise_outgoing x (o +ℤ pos s.size) lt fits in
              let runs : scan_kind StackSlotKind.outgoing_arg s (state m x j)
                  ≡ some (ok (state m x' j)) =
                rw (scan_kind, at, ◌>>=◌, cast, fits, e) refl in
              subst (SlotEnds k m x j s) (sym runs) (
                slot_scanned m x' j (omega arith) le up bound (omega arith)
                  record {
                    small = small;
                    incoming = λ o' kind' _. absurd (ground arith);
                    outgoing = λ o' _ at'.
                        let same : o ≡ o' = ground arith in
                        subst (λ z. z +ℤ pos s.size ≤ℤ pos x') same low;
                    aligned = λ moves. absurd (ground arith);
                  }
                  (λ least le' _. le') (λ most le' by. tight most le' (by o kind at)))
          | inr over ↦
              let high : pos (2 ^ 31) ≤ℤ o +ℤ pos s.size = too_far o s.size range small over in
              let runs : scan_kind StackSlotKind.outgoing_arg s (state m x j)
                  ≡ some (err CtonError.impl_limit_exceeded) =
                rw (scan_kind, at, ◌>>=◌, cast, over) refl in
              subst (SlotEnds k m x j s) (sym runs) (slot_over_limit (ends_too_high o kind at high))
        ]

    shrunk : movable s.kind ≡ true → SlotEnds k m x j s (some (ok (state m x (twos j s.size))))
    shrunk moves =
        slot_scanned m x (twos j s.size) (omega arith) le (omega arith) lt (twos_le j s.size)
          record {
            small = small;
            incoming = λ o' kind' _. absurd (ground arith);
            outgoing = λ o' kind' _. absurd (ground arith);
            aligned = λ _. twos_mono j k s.size within;
          }
          (λ least le' _. le') (λ most le' _. le')

    moved-SlotEnds :
        (c : StackSlotKind)
        → s.kind ≡ c
        → movable c ≡ true
        → SlotEnds k m x j s (scan_kind c s (state m x j))
    unfolding scan_kind
    moved-SlotEnds StackSlotKind.incoming_arg kind moves = absurd (ground arith)
    moved-SlotEnds StackSlotKind.outgoing_arg kind moves = absurd (ground arith)
    moved-SlotEnds StackSlotKind.spill_slot kind moves =
        rw (alignment_lem s j (omega arith) (omega arith)) (shrunk (ground arith))
    moved-SlotEnds StackSlotKind.explicit_slot kind moves =
        rw (alignment_lem s j (omega arith) (omega arith)) (shrunk (ground arith))
    moved-SlotEnds StackSlotKind.emergency_slot kind moves =
        rw (alignment_lem s j (omega arith) (omega arith)) (shrunk (ground arith))

    pub slot-SlotEnds :
        (movable s.kind ≡ false → (o : ℤ) × (s.offset ≡ some o) × (in_i32 o ≡ true))
        → (c : StackSlotKind) → s.kind ≡ c
        → SlotEnds k m x j s (scan_kind c s (state m x j))
    slot-SlotEnds offset StackSlotKind.incoming_arg kind =
        let (o, at, range) = offset (ap movable kind) in incoming-SlotEnds o kind at range
    slot-SlotEnds offset StackSlotKind.outgoing_arg kind =
        let (o, at, range) = offset (ap movable kind) in outgoing-SlotEnds o kind at range
    slot-SlotEnds offset StackSlotKind.spill_slot kind =
        moved-SlotEnds StackSlotKind.spill_slot kind refl
    slot-SlotEnds offset StackSlotKind.explicit_slot kind =
        moved-SlotEnds StackSlotKind.explicit_slot kind refl
    slot-SlotEnds offset StackSlotKind.emergency_slot kind =
        moved-SlotEnds StackSlotKind.emergency_slot kind refl
