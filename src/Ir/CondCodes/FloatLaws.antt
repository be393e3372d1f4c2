-- ===== src/Ir/CondCodes/FloatLaws.antt =====
-- What `FloatCc` means, after the comments of its variants, and that `inverse`, `reverse` and the
-- textual form respect it.
use Prim.Native.String.{String}
use text.Mathlib.Text.{◌==◌ as str_eq}
use cretonne.Prelude.{◌≡◌, refl, Bool, true, false, not, some, Option, if◌then◌else◌, arith}
use cretonne.Prelude.Keyword.{keyword_arm}
use cretonne.Ir.CondCodes.{FloatCc, float_inverse, float_reverse, float_to_str, float_from_str}

-- How two floats can compare: unordered, equal, less or greater.
pub data Relation : Type 0 where
  un eq lt gt : Relation

pub swap : Relation → Relation
swap Relation.un = Relation.un
swap Relation.eq = Relation.eq
swap Relation.lt = Relation.gt
swap Relation.gt = Relation.lt

-- The four answers of a condition, in the order un, eq, lt, gt.
pub answers : FloatCc → Bool × Bool × Bool × Bool
answers FloatCc.ordered = (false, true, true, true)
answers FloatCc.unordered = (true, false, false, false)
answers FloatCc.equal = (false, true, false, false)
answers FloatCc.not_equal = (true, false, true, true)
answers FloatCc.ordered_not_equal = (false, false, true, true)
answers FloatCc.unordered_or_equal = (true, true, false, false)
answers FloatCc.less_than = (false, false, true, false)
answers FloatCc.less_than_or_equal = (false, true, true, false)
answers FloatCc.greater_than = (false, false, false, true)
answers FloatCc.greater_than_or_equal = (false, true, false, true)
answers FloatCc.unordered_or_less_than = (true, false, true, false)
answers FloatCc.unordered_or_less_than_or_equal = (true, true, true, false)
answers FloatCc.unordered_or_greater_than = (true, false, false, true)
answers FloatCc.unordered_or_greater_than_or_equal = (true, true, false, true)

pub fcmp : FloatCc → Relation → Bool
unfolding answers
fcmp c Relation.un = (answers c).0
fcmp c Relation.eq = (answers c).1
fcmp c Relation.lt = (answers c).2
fcmp c Relation.gt = (answers c).3

-- The inverse condition gives the opposite result, also where the operands are unordered.
pub fcmp-inverse : (c : FloatCc) (r : Relation) → fcmp (float_inverse c) r ≡ not (fcmp c r)
unfolding fcmp float_inverse
fcmp-inverse c r = ground arith

-- The reversed condition gives the result of the swapped operands.
pub fcmp-reverse : (c : FloatCc) (r : Relation) → fcmp (float_reverse c) (swap r) ≡ fcmp c r
unfolding fcmp float_reverse swap
fcmp-reverse c r = ground arith

-- The four answers tell the conditions apart: no two conditions mean the same.
pub fcmp-injective : (c d : FloatCc) → ((r : Relation) → fcmp c r ≡ fcmp d r) → c ≡ d
unfolding fcmp
fcmp-injective c d h = ground (arith, h Relation.un, h Relation.eq, h Relation.lt, h Relation.gt)

-- Printing and parsing a condition gives it back.
pub float_from_str-to_str : (c : FloatCc) → float_from_str (float_to_str c) ≡ some c
unfolding float_from_str float_to_str
float_from_str-to_str FloatCc.ordered = refl
float_from_str-to_str _ = refl

-- A text that parses is the printed form of its condition.
pub float_to_str-from_str :
    (s : String) (c : FloatCc) → float_from_str s ≡ some c → float_to_str c ≡ s
unfolding float_from_str float_to_str
float_to_str-from_str s c = arm "ord" FloatCc.ordered refl (
    arm "uno" FloatCc.unordered refl (
      arm "eq" FloatCc.equal refl (
        arm "ne" FloatCc.not_equal refl (
          arm "one" FloatCc.ordered_not_equal refl (
            arm "ueq" FloatCc.unordered_or_equal refl (
              arm "lt" FloatCc.less_than refl (
                arm "le" FloatCc.less_than_or_equal refl (
                  arm "gt" FloatCc.greater_than refl (
                    arm "ge" FloatCc.greater_than_or_equal refl (
                      arm "ult" FloatCc.unordered_or_less_than refl (
                        arm "ule" FloatCc.unordered_or_less_than_or_equal refl (
                          arm "ugt" FloatCc.unordered_or_greater_than refl (
                            arm "uge" FloatCc.unordered_or_greater_than_or_equal refl
                              (λ e. cc))))))))))))))
  where
    arm :
        (t : String) (d : FloatCc) {rest : Option FloatCc}
        → float_to_str d ≡ t
        → (rest ≡ some c → float_to_str c ≡ s)
        → (if str_eq s t then some d else rest) ≡ some c
        → float_to_str c ≡ s
    arm t d {rest} prints = keyword_arm float_to_str s t c d rest prints
