-- ===== src/RegAlloc/Pressure/Counts.antt =====
-- Counting registers: what each operation leaves and changes.
use cretonne.Prelude.{
  ℕ, zero, suc, ◌+◌, ◌-◌, ◌*◌, ◌%◌, ◌^◌, ◌<◌, ◌≡◌, refl, sym, ◌∙◌, ap, List, [], ◌∷◌, map, none,
  some, ltb, if◌then◌else◌, get_elem?, arith, Option-cases, inl, inr,
}
use cretonne.Isa.Registers.{RegClass}
use cretonne.RegAlloc.Pressure.{
  TopRc, Pressure, total_count, update, claimed, scan, prefix, skip, aliases, check_avail_aliased,
  is_aliased, check_avail, take_base, free_base, take, free, preserve, preserve_transient, answer,
}

get_elem?-preserve :
    (ts : List TopRc) (i : ℕ)
    → get_elem? (map preserve ts) i
      ≡ elim (get_elem? ts i) [ none ↦ none | some t ↦ some (preserve t) ]
get_elem?-preserve [] i = refl
get_elem?-preserve (t ∷ ts) zero = refl
get_elem?-preserve (t ∷ ts) (suc i) = get_elem?-preserve ts i

total_count-preserve : (t : TopRc) → total_count (preserve t) ≡ total_count t
unfolding total_count
total_count-preserve t = omega arith

claimed-preserve : (w : ℕ) (t : TopRc) → claimed w (preserve t) ≡ claimed w t
unfolding claimed
claimed-preserve w t = rw (total_count-preserve t) refl

scan-preserve :
    (w u : ℕ) (ts : List TopRc) (r n : ℕ) → scan w u (map preserve ts) r n ≡ scan w u ts r n
unfolding scan
scan-preserve w u [] r n = refl
scan-preserve w u (t ∷ ts) r n =
    rw (claimed-preserve w t, scan-preserve w u ts (suc r) ((n + claimed w t) % 2 ^ 32)) refl

skip-preserve : (n : ℕ) (ts : List TopRc) → skip n (map preserve ts) ≡ map preserve (skip n ts)
unfolding skip
skip-preserve zero ts = refl
skip-preserve (suc n) [] = refl
skip-preserve (suc n) (t ∷ ts) = skip-preserve n ts

prefix-preserve :
    (n : ℕ) (ts : List TopRc) → prefix n (map preserve ts) ≡ map preserve (prefix n ts)
unfolding prefix
prefix-preserve zero ts = refl
prefix-preserve (suc n) [] = refl
prefix-preserve (suc n) (t ∷ ts) = ap (λ us. preserve t ∷ us) (prefix-preserve n ts)

aliases-preserve :
    (p : Pressure) (t : TopRc)
    → aliases (preserve_transient p) (preserve t) ≡ map preserve (aliases p t)
unfolding aliases preserve_transient
aliases-preserve p t =
    rw (skip-preserve t.first_toprc p.toprc)
      (prefix-preserve t.num_toprcs (skip t.first_toprc p.toprc))

check_avail_aliased-preserve :
    (p : Pressure) (t : TopRc)
    → check_avail_aliased (preserve_transient p) (preserve t) ≡ check_avail_aliased p t
unfolding check_avail_aliased
check_avail_aliased-preserve p t =
    let u = t.limit * t.width % 2 ^ 32 in
    ap (λ s. answer s u t.first_toprc t.num_toprcs)
      (ap (λ ts. scan t.width u ts t.first_toprc 0) (aliases-preserve p t)
        ∙ scan-preserve t.width u (aliases p t) t.first_toprc 0)

check_avail_out :
    (p : Pressure) (rc : RegClass) → get_elem? p.toprc rc.toprc ≡ none → check_avail p rc ≡ 0
unfolding check_avail
check_avail_out p rc e = ground arith

pub check_avail_in :
    (p : Pressure) (rc : RegClass) (t : TopRc)
    → get_elem? p.toprc rc.toprc ≡ some t
    → check_avail p rc ≡ (
        if is_aliased p rc.toprc
        then check_avail_aliased p t
        else if ltb (total_count t) t.limit
        then 0
        else 2 ^ rc.toprc % 2 ^ 32)
unfolding check_avail
check_avail_in p rc t e = ground arith

toprc-preserve : (p : Pressure) → (preserve_transient p).toprc ≡ map preserve p.toprc
unfolding preserve_transient
toprc-preserve p = refl

is_aliased-preserve : (p : Pressure) (i : ℕ) → is_aliased (preserve_transient p) i ≡ is_aliased p i
unfolding is_aliased preserve_transient
is_aliased-preserve p i = refl

-- Preserving the transient counts changes no answer of `check_avail`, for a class with or without
-- aliases.
pub check_avail-preserve_transient :
    (p : Pressure) (rc : RegClass) → check_avail (preserve_transient p) rc ≡ check_avail p rc
check_avail-preserve_transient p rc =
    let i = rc.toprc in
    let reads : get_elem? (preserve_transient p).toprc i
        ≡ elim (get_elem? p.toprc i) [ none ↦ none | some t ↦ some (preserve t) ] =
      ap (λ ts. get_elem? ts i) (toprc-preserve p) ∙ get_elem?-preserve p.toprc i in
    elim (Option-cases (get_elem? p.toprc i)) [
      | inl out ↦
          check_avail_out (preserve_transient p) rc (ground arith) ∙ sym (check_avail_out p rc out)
      | inr (t, here) ↦
          check_avail_in (preserve_transient p) rc (preserve t) (ground arith)
          ∙ rw (is_aliased-preserve p i, check_avail_aliased-preserve p t, total_count-preserve t)
              refl
          ∙ sym (check_avail_in p rc t here)
    ]

update_twice :
    (ts : List TopRc) (i : ℕ) (f g : TopRc → TopRc)
    → ((t : TopRc) → get_elem? ts i ≡ some t → g (f t) ≡ t)
    → update (update ts i f) i g ≡ ts
unfolding update
update_twice [] i f g h = refl
update_twice (t ∷ ts) zero f g h = ap (λ u. u ∷ ts) (h t refl)
update_twice (t ∷ ts) (suc i) f g h = ap (λ us. t ∷ us) (update_twice ts i f g h)

-- Every count fits its `u32`.
abbrev pub IsCounted : Pressure → Type 0
IsCounted p = (i : ℕ) (t : TopRc) → get_elem? p.toprc i ≡ some t → t.base_count < 2 ^ 32

-- Freeing a register that was just taken gives the state back, if the base counts fit a `u32`.
pub free-take : (p : Pressure) (rc : RegClass) → IsCounted p → free (take p rc) rc ≡ p
unfolding free take
free-take p rc h =
    let e = update_twice p.toprc rc.toprc take_base free_base (λ t here.
      let lt = h rc.toprc t here in
      let b : ((t.base_count + 1) % 2 ^ 32 + 2 ^ 32 - 1) % 2 ^ 32 ≡ t.base_count = omega arith in
      ap (λ n. record t { base_count = n }) b) in
    ap (λ ts. record p { toprc = ts }) e
