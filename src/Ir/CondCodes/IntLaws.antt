-- ===== src/Ir/CondCodes/IntLaws.antt =====
-- What `IntCc` means, after the comments of its variants, and that `inverse`, `reverse` and the
-- textual form respect it.
use Prim.Native.String.{String}
use text.Mathlib.Text.{◌==◌ as str_eq}
use cretonne.Prelude.{
  ℕ, ◌-◌, ◌^◌, ◌≡◌, refl, Bool, not, some, Option, arith, ltb, leb, ◌==◌, if◌then◌else◌,
}
use cretonne.Prelude.Int.{ℤ, pos, negsuc, ltb_ℤ, leb_ℤ}
use cretonne.Prelude.Keyword.{keyword_arm}
use cretonne.Ir.CondCodes.{IntCc, int_inverse, int_reverse, int_to_str, int_from_str}

-- The integer that a pattern of `w` bits stands for in two's complement.
abbrev pub to_signed : ℕ → ℕ → ℤ
to_signed w x = if ltb x (2 ^ (w - 1)) then pos x else negsuc (2 ^ w - x - 1)

unfoldable pub icmp : ℕ → IntCc → ℕ → ℕ → Bool
icmp w IntCc.equal x y = x == y
icmp w IntCc.not_equal x y = not (x == y)
icmp w IntCc.signed_less_than x y = ltb_ℤ (to_signed w x) (to_signed w y)
icmp w IntCc.signed_greater_than_or_equal x y = leb_ℤ (to_signed w y) (to_signed w x)
icmp w IntCc.signed_greater_than x y = ltb_ℤ (to_signed w y) (to_signed w x)
icmp w IntCc.signed_less_than_or_equal x y = leb_ℤ (to_signed w x) (to_signed w y)
icmp w IntCc.unsigned_less_than x y = ltb x y
icmp w IntCc.unsigned_greater_than_or_equal x y = leb y x
icmp w IntCc.unsigned_greater_than x y = ltb y x
icmp w IntCc.unsigned_less_than_or_equal x y = leb x y

leb_ℤ-not : (a b : ℤ) → leb_ℤ b a ≡ not (ltb_ℤ a b)
leb_ℤ-not a b = ground arith

ltb_ℤ-not : (a b : ℤ) → ltb_ℤ b a ≡ not (leb_ℤ a b)
ltb_ℤ-not a b = ground arith

-- At every width, the inverse condition gives the opposite result on all operands.
pub icmp-inverse : (w : ℕ) (c : IntCc) (x y : ℕ) → icmp w (int_inverse c) x y ≡ not (icmp w c x y)
unfolding icmp int_inverse
icmp-inverse w IntCc.equal x y = refl
icmp-inverse w IntCc.signed_less_than x y = leb_ℤ-not (to_signed w x) (to_signed w y)
icmp-inverse w IntCc.signed_greater_than_or_equal x y = ltb_ℤ-not (to_signed w y) (to_signed w x)
icmp-inverse w IntCc.signed_greater_than x y = leb_ℤ-not (to_signed w y) (to_signed w x)
icmp-inverse w IntCc.signed_less_than_or_equal x y = ltb_ℤ-not (to_signed w x) (to_signed w y)
icmp-inverse w _ x y = ground arith

-- At every width, the reversed condition gives the result of the swapped operands.
pub icmp-reverse : (w : ℕ) (c : IntCc) (x y : ℕ) → icmp w (int_reverse c) y x ≡ icmp w c x y
unfolding icmp int_reverse
icmp-reverse w IntCc.equal x y = ground arith
icmp-reverse w IntCc.not_equal x y = ground arith
icmp-reverse w IntCc.signed_less_than x y = refl
icmp-reverse w _ x y = refl

-- Printing and parsing a condition gives it back.
pub int_from_str-to_str : (c : IntCc) → int_from_str (int_to_str c) ≡ some c
unfolding int_from_str int_to_str
int_from_str-to_str IntCc.equal = refl
int_from_str-to_str _ = refl

-- A text that parses is the printed form of its condition.
pub int_to_str-from_str : (s : String) (c : IntCc) → int_from_str s ≡ some c → int_to_str c ≡ s
unfolding int_from_str int_to_str
int_to_str-from_str s c = arm "eq" IntCc.equal refl (
    arm "ne" IntCc.not_equal refl (
      arm "sge" IntCc.signed_greater_than_or_equal refl (
        arm "sgt" IntCc.signed_greater_than refl (
          arm "sle" IntCc.signed_less_than_or_equal refl (
            arm "slt" IntCc.signed_less_than refl (
              arm "uge" IntCc.unsigned_greater_than_or_equal refl (
                arm "ugt" IntCc.unsigned_greater_than refl (
                  arm "ule" IntCc.unsigned_less_than_or_equal refl
                    (arm "ult" IntCc.unsigned_less_than refl (λ e. cc))))))))))
  where
    arm :
        (t : String) (d : IntCc) {rest : Option IntCc}
        → int_to_str d ≡ t
        → (rest ≡ some c → int_to_str c ≡ s)
        → (if str_eq s t then some d else rest) ≡ some c
        → int_to_str c ≡ s
    arm t d {rest} prints = keyword_arm int_to_str s t c d rest prints
