-- ===== src/StackLayout/Scanned.antt =====
-- The first loop of `layout_stack`: what it knows of every slot.
use mathlib.Core.Path.{subst}
use cretonne.Prelude.{
  ℕ, zero, suc, ◌^◌, ◌≤◌, ◌<◌, ◌≡◌, refl, ltb, Option, some, List, [], ◌∷◌, get_elem?, arith, inl,
  inr, Bool-cases,
}
use cretonne.Prelude.Panic.{◌>>=◌}
use cretonne.Result.{Result, ok, err, CtonError}
use cretonne.Ir.StackSlot.{StackSlotData}
use cretonne.StackLayout.{Scan, scan, max_size}
use cretonne.StackLayout.Slot.{
  HasOffset, Every, state, Fits, Fits-mono, Oversized, StartsFrom, EndsBy, too_large, SlotEnds,
  slot_scanned, slot_over_limit, slot-SlotEnds,
}

pub data ScanEnds (k m x j : ℕ) (slots : List StackSlotData) : Option (Result Scan) → Type 0 where
  scanned :
      (m' x' j' : ℕ)
      → m ≤ m'
      → m' ≤ 2 ^ 31
      → x ≤ x'
      → x' < 2 ^ 31
      → j' ≤ j
      → Every (Fits k m' x' j') slots
      → ((least : ℕ) → m ≤ least → Every (StartsFrom least) slots → m' ≤ least)
      → ((most : ℕ) → x ≤ most → Every (EndsBy most) slots → x' ≤ most)
      → ScanEnds k m x j slots (some (ok (state m' x' j')))
  over_limit :
      (i : ℕ) (s : StackSlotData)
      → get_elem? slots i ≡ some s
      → Oversized s
      → ScanEnds k m x j slots (some (err CtonError.impl_limit_exceeded))

pub scan-ScanEnds :
    (k : ℕ)
    → k ≤ 30
    → (slots : List StackSlotData) (m x j : ℕ) → m ≤ 2 ^ 31
    → x < 2 ^ 31
    → j ≤ k
    → Every HasOffset slots
    → ScanEnds k m x j slots (scan slots (state m x j))
unfolding scan
scan-ScanEnds k narrow [] m x j le lt within offsets =
    scanned m x j (omega arith) le (omega arith) lt (omega arith) (λ i s at. absurd (ground arith))
      (λ least le' _. le') (λ most le' _. le')
scan-ScanEnds k narrow (s ∷ slots) m x j le lt within offsets =
    elim (Bool-cases (ltb max_size s.size)) [
      | inl big ↦ rw (scan, big) (over_limit 0 s refl (too_large (ground arith)))
      | inr ok_size ↦
          rw (scan, ok_size)
            (then_rest
              (slot-SlotEnds k m x j narrow le lt within s (ground arith) (offsets 0 s refl) s.kind
                refl)
              (λ m' x' j' le' lt' within'.
                scan-ScanEnds k narrow slots m' x' j' le' lt' within' (λ i t. offsets (suc i) t)))
    ]
  where
    join :
        (m1 x1 j1 : ℕ) {o : Option (Result Scan)}
        → m ≤ m1
        → x ≤ x1
        → j1 ≤ j
        → Fits k m1 x1 j1 s
        → ((least : ℕ) → m ≤ least → StartsFrom least s → m1 ≤ least)
        → ((most : ℕ) → x ≤ most → EndsBy most s → x1 ≤ most)
        → ScanEnds k m1 x1 j1 slots o
        → ScanEnds k m x j (s ∷ slots) o
    join m1 x1 j1 up up' down f tight tight' (over_limit i t at big) = over_limit (suc i) t at big
    join m1 x1 j1 up up' down f tight tight' (scanned m2 x2 j2 a b c d e all from by) =
        scanned m2 x2 j2 (omega arith) b (omega arith) d (omega arith)
          (elim [
            | zero ↦ λ t at.
                let same : s ≡ t = ground arith in
                subst (Fits k m2 x2 j2) same (Fits-mono k m1 m2 x1 x2 j1 j2 s a c e f)
            | suc i ↦ λ t at. all i t at
          ])
          (λ least le' starts.
            from least (tight least le' (starts 0 s refl)) (λ i t. starts (suc i) t))
          (λ most le' ends. by most (tight' most le' (ends 0 s refl)) (λ i t. ends (suc i) t))

    then_rest :
        {o : Option (Result Scan)}
        → SlotEnds k m x j s o
        → ((m' x' j' : ℕ)
            → m' ≤ 2 ^ 31
            → x' < 2 ^ 31
            → j' ≤ k
            → ScanEnds k m' x' j' slots (scan slots (state m' x' j')))
        → ScanEnds k m x j
            (s ∷ slots)
            (o >>= λ r. elim r [ ok t ↦ scan slots t | err e ↦ some (err e) ])
    then_rest (slot_scanned m1 x1 j1 a b c d e f tight tight') rest =
        join m1 x1 j1 a c e f tight tight' (rest m1 x1 j1 b d (omega arith))
    then_rest (slot_over_limit big) rest = over_limit 0 s refl big
