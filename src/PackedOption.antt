-- ===== src/PackedOption.antt =====
-- lib/cretonne/src/packed_option.rs: an `Option` in the space of a value, by a reserved value.
mod Tests
pub mod Laws
use cretonne.Prelude.{◌≡◌, ◌↔◌, Bool, true, false, not, Option, none, some, if◌then◌else◌}

-- Types that have a reserved value, with their `Eq`.
pub record ReservedValue {ℓ} (T : Type ℓ) : Type ℓ where
  pub eq : T → T → Bool
  pub eq_iff : (a b : T) → (eq a b ≡ true) ↔ (a ≡ b)
  pub reserved_value : T

-- `PackedOption(value)`.
pub record PackedOption {ℓ} (T : Type ℓ) : Type ℓ where
  pub value : T

module _ {ℓ} {T : Type ℓ} (r : ReservedValue T) where
  unfoldable pub is_none : PackedOption T → Bool
  is_none o = r.eq o.value r.reserved_value

  unfoldable pub is_some : PackedOption T → Bool
  unfolding is_none
  is_some o = not (is_none o)

  unfoldable pub expand : PackedOption T → Option T
  unfolding is_none
  expand o = if is_none o then none else some o.value

  unfoldable pub default : PackedOption T
  default = record { value = r.reserved_value }

  -- `From<T>`; the assertion against the reserved value leaves no trace.
  unfoldable pub pack : T → PackedOption T
  pack t = record { value = t }

  -- `From<Option<T>>`.
  unfoldable pub from : Option T → PackedOption T
  unfolding default pack
  from none = default
  from (some t) = pack t

  -- The value taken out, and what is left.
  unfoldable pub take : PackedOption T → Option T × PackedOption T
  unfolding expand default
  take o = (expand o, default)

  unfoldable pub map : {U : Type ℓ} → PackedOption T → (T → U) → Option U
  unfolding expand
  map o f = elim (expand o) [ none ↦ none | some t ↦ some (f t) ]
