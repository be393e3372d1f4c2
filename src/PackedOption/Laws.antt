-- ===== src/PackedOption/Laws.antt =====
-- A packed option stands for an option of a value that is not the reserved one.

use cretonne.Prelude.{
  ◌≡◌, ◌≢◌, refl, sym, ap, Bool, true, false, Option, none, some, if◌then◌else◌, Bool-cases, inl,
  inr,
}
use cretonne.PackedOption.{ReservedValue, PackedOption, is_none, expand, default, pack, from, take}

module _ {ℓ} {T : Type ℓ} (r : ReservedValue T) where
  -- The reserved value is in no option that is packed.
  abbrev pub IsPackable : Option T → Type ℓ
  IsPackable o = o ≢ some r.reserved_value

  chosen : (b : Bool) (t : T) → b ≡ false → (if b then none else some t) ≡ some t
  chosen true t e = cc
  chosen false t e = refl

  refused : (b : Bool) (t : T) → b ≡ true → (if b then none else some t) ≡ none
  refused true t e = refl
  refused false t e = cc

  differs : (a : T) → a ≢ r.reserved_value → r.eq a r.reserved_value ≡ false
  differs a n = elim (Bool-cases (r.eq a r.reserved_value)) [
    | inl same ↦ absurd (n ((r.eq_iff a r.reserved_value).0 same))
    | inr other ↦ other
  ]

  -- An option without the reserved value expands to itself after it is packed.
  pub expand-from : (o : Option T) → IsPackable o → expand r (from r o) ≡ o
  unfolding expand from default pack is_none
  expand-from none ok =
      refused (r.eq r.reserved_value r.reserved_value) r.reserved_value
        ((r.eq_iff r.reserved_value r.reserved_value).1 refl)
  expand-from (some t) ok = chosen (r.eq t r.reserved_value) t (differs t (λ e. ok (ap some e)))

  from_if :
      (b : Bool) (o : PackedOption T)
      → (b ≡ true → o.value ≡ r.reserved_value)
      → from r (if b then none else some o.value) ≡ o
  unfolding from default pack
  from_if true o e = ap (λ v. record { value = v }) (sym (e refl))
  from_if false o e = refl

  -- Every packed option is the packed form of what it expands to, and `take` leaves a `None`.
  pub from-expand :
      (o : PackedOption T) → (from r (expand r o) ≡ o) × (expand r (take r o).1 ≡ none)
  unfolding expand take default is_none
  from-expand o = (
    from_if (r.eq o.value r.reserved_value) o (r.eq_iff o.value r.reserved_value).0,
    refused (r.eq r.reserved_value r.reserved_value) r.reserved_value
        ((r.eq_iff r.reserved_value r.reserved_value).1 refl),
  )
