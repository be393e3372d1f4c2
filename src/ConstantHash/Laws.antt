-- ===== src/ConstantHash/Laws.antt =====
-- The entries that a probe looks at, and how it ends.
use Prim.Native.Nat.{bit_and}
use mathlib.Core.Path.{subst}
use native.Mathlib.Nat.{mod-lt, mod-add-mod, pow-le-pow_right}
use cretonne.Prelude.{
  ℕ, zero, suc, ◌+◌, ◌-◌, ◌%◌, ◌^◌, ◌≤◌, ◌<◌, ◌≡◌, refl, ap, ◌∙◌, Bool, true, false, ltb, Option,
  none, some, arith, inl, inr, ◌⊎◌, Option-cases, Bool-cases,
}
use native.Mathlib.Decide.{dec_lt}
use cretonne.Prelude.Bits.{bit_and_low, is_power_of_two, pow-is_power_of_two}
use cretonne.ConstantHash.{Table, Probe, probe_loop, probe}
use cretonne.ConstantHash.Triangle.{triangle, hash-Reached}

module _ {K : Type 0} (eq : K → K → Bool) (table : Table K) (wanted : K) where
  -- The entry that a step of the sequence looks at.
  abbrev pub place : ℕ → ℕ → ℕ
  place hash step = (hash + triangle step) % table.entries

  -- An entry with another key: the search goes on.
  abbrev pub Other : ℕ → Type 0
  Other at = (k : K) × (table.key at ≡ some k) × (eq k wanted ≡ false)

  -- An entry where the search ends, and its result.
  pub data Settles (at : ℕ) : Probe → Type 0 where
    key_there : (k : K) → table.key at ≡ some k → eq k wanted ≡ true → Settles at (Probe.found at)
    nothing_there : table.key at ≡ none → Settles at (Probe.vacant at)

  -- The result is that of the first entry of the sequence which settles the search.
  pub record Probed (hash : ℕ) (o : Option Probe) : Type 0 where
    pub step : ℕ
    pub result : Probe
    pub early : step < table.entries
    pub runs : o ≡ some result
    pub settles : Settles (place hash step) result
    pub others : (s : ℕ) → s < step → Other (place hash s)

  module _ (k : ℕ) (size : table.entries ≡ 2 ^ k) (narrow : k ≤ 63) where
    entries_bound : table.entries ≤ 2 ^ 63
    entries_bound = rw size (pow-le-pow_right (omega arith) narrow)

    masked : (idx : ℕ) → bit_and idx (table.entries - 1) ≡ idx % table.entries
    masked idx = rw size (bit_and_low k idx)

    -- One round at an entry with another key.
    Other-step :
        (rounds idx step : ℕ)
        → idx % table.entries + (step + 1) < 2 ^ 64
        → suc step < table.entries
        → Other (idx % table.entries)
        → probe_loop eq table wanted (suc rounds) idx step
          ≡ probe_loop eq table wanted rounds (idx % table.entries + (step + 1)) (step + 1)
    unfolding probe_loop
    Other-step rounds idx step small early (key, there, differs) =
        let within : ltb (idx % table.entries + (step + 1)) (2 ^ 64) ≡ true = ground arith in
        let below : ltb (step + 1) table.entries ≡ true = ground arith in
        rw (probe_loop, masked idx, there, differs, masked idx, within, below) refl

    settled_step :
        (rounds idx step : ℕ) (result : Probe)
        → Settles (idx % table.entries) result
        → probe_loop eq table wanted (suc rounds) idx step ≡ some result
    unfolding probe_loop
    settled_step rounds idx step _ (key_there key there same) =
        rw (probe_loop, masked idx, there, same, masked idx) refl
    settled_step rounds idx step _ (nothing_there there) =
        rw (probe_loop, masked idx, there, masked idx) refl

    decide_entry : (at : ℕ) → ((result : Probe) × Settles at result) ⊎ Other at
    decide_entry at = elim (Option-cases (table.key at)) [
      | inl e ↦ inl (Probe.vacant at, nothing_there e)
      | inr (key, e) ↦ elim (Bool-cases (eq key wanted)) [
        | inl same ↦ inl (Probe.found at, key_there key e same)
        | inr differs ↦ inr (key, e, differs)
      ]
    ]

    next_place :
        (hash idx step : ℕ)
        → idx % table.entries ≡ place hash step
        → (idx % table.entries + (step + 1)) % table.entries ≡ place hash (suc step)
    next_place hash idx step e =
        ap (λ z. (z + (step + 1)) % table.entries) e
        ∙ mod-add-mod (hash + triangle step) table.entries (step + 1)
        ∙ ap (λ z. z % table.entries) (further step)
      where
        further : (s : ℕ) → hash + triangle s + (s + 1) ≡ hash + triangle (suc s)
        further s = omega arith

    empty_entry : (at : ℕ) → table.key at ≡ none → Other at → (A : Type 0) → A
    empty_entry at e (key, there, _) A = absurd (ground arith)

    more_others :
        (hash step : ℕ)
        → ((s : ℕ) → s < step → Other (place hash s))
        → Other (place hash step)
        → (s : ℕ) → s < suc step
        → Other (place hash s)
    more_others hash step before here s lt = elim (dec_lt s step) [
      | yes low ↦ before s low
      | no high ↦ subst (λ z. Other (place hash z)) (omega arith) here
    ]

    -- The entries before the empty one are looked at once each at most.
    loop-Probed :
        (hash empty : ℕ)
        → empty < table.entries
        → table.key (place hash empty) ≡ none
        → (rounds idx step : ℕ) → idx % table.entries ≡ place hash step
        → step + rounds ≡ table.entries
        → ((s : ℕ) → s < step → Other (place hash s))
        → Probed hash (probe_loop eq table wanted rounds idx step)
    loop-Probed hash empty early there zero idx step e fuel before =
        empty_entry (place hash empty) there (before empty (omega arith)) _
    loop-Probed hash empty early there (suc rounds) idx step e fuel before =
        elim (decide_entry (idx % table.entries)) [
          | inl (result, settles) ↦ record {
            step = step;
            result = result;
            early = omega arith;
            runs = settled_step rounds idx step result settles;
            settles = subst (λ z. Settles z result) e settles;
            others = before;
          }
          | inr other ↦
              let here : Other (place hash step) = subst Other e other in
              let reach : step < empty = elim (dec_lt step empty) [
                | yes lt ↦ lt
                | no le ↦
                    empty_entry (place hash empty) there
                      (more_others hash step before here empty (omega arith)) _
              ] in
              let low = mod-lt idx {m = table.entries} (omega arith) in
              let bound = entries_bound in
              let small : idx % table.entries + (step + 1) < 2 ^ 64 = omega arith in
              rw (Other-step rounds idx step small (omega arith) other) (
                loop-Probed hash empty early there rounds (idx % table.entries + (step + 1))
                  (step + 1)
                  (next_place hash idx step e ∙ ap (place hash) {x = suc step} (omega arith))
                  (omega arith)
                  (subst (λ z. (s : ℕ) → s < z → Other (place hash s)) (omega arith)
                    (more_others hash step before here)))
        ]

  -- `probe` ends without a panic in a table of 2 ^ k entries, k at most 63, of which one is empty. The
  -- result is that of the first entry in the sequence hash, hash + 1, hash + 3, ... (modulo the size) that
  -- is empty or holds the key, and the sequence reaches one within as many steps as the table has entries.
  pub probe-Probed :
      (k : ℕ)
      → table.entries ≡ 2 ^ k
      → k ≤ 63
      → (empty : ℕ) → empty < table.entries
      → table.key empty ≡ none
      → (hash : ℕ) → Probed hash (probe eq table wanted hash)
  unfolding probe
  probe-Probed k size narrow empty within there hash =
      let r = hash-Reached k hash empty (omega (arith, size)) in
      let lands : place hash r.step ≡ empty =
        ap (λ z. (hash + triangle r.step) % z) size ∙ r.lands in
      let early = r.early in
      let power : is_power_of_two table.entries ≡ true =
        ap is_power_of_two size ∙ pow-is_power_of_two k in
      rw power (
        loop-Probed k size narrow hash r.step (omega (arith, size)) (ap table.key lands ∙ there)
          table.entries hash 0 (ap (λ z. z % table.entries) (omega arith)) (omega arith)
          (λ s lt. absurd (omega arith)))
