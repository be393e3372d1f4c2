-- ===== src/Ir/CondCodes.antt =====
-- lib/cretonne/src/ir/condcodes.rs: the condition codes of integer and float comparisons.
mod Tests
pub mod IntLaws
pub mod FloatLaws
use Prim.Native.String.{String}
use text.Mathlib.Text.{◌==◌}
use cretonne.Prelude.{Option, none, some, if◌then◌else◌}

pub data IntCc : Type 0 where
  equal not_equal : IntCc
  signed_less_than signed_greater_than_or_equal : IntCc
  signed_greater_than signed_less_than_or_equal : IntCc
  unsigned_less_than unsigned_greater_than_or_equal : IntCc
  unsigned_greater_than unsigned_less_than_or_equal : IntCc

pub data FloatCc : Type 0 where
  ordered unordered : FloatCc
  equal not_equal ordered_not_equal unordered_or_equal : FloatCc
  less_than less_than_or_equal greater_than greater_than_or_equal : FloatCc
  unordered_or_less_than unordered_or_less_than_or_equal : FloatCc
  unordered_or_greater_than unordered_or_greater_than_or_equal : FloatCc

pub int_inverse : IntCc → IntCc
int_inverse IntCc.equal = IntCc.not_equal
int_inverse IntCc.not_equal = IntCc.equal
int_inverse IntCc.signed_less_than = IntCc.signed_greater_than_or_equal
int_inverse IntCc.signed_greater_than_or_equal = IntCc.signed_less_than
int_inverse IntCc.signed_greater_than = IntCc.signed_less_than_or_equal
int_inverse IntCc.signed_less_than_or_equal = IntCc.signed_greater_than
int_inverse IntCc.unsigned_less_than = IntCc.unsigned_greater_than_or_equal
int_inverse IntCc.unsigned_greater_than_or_equal = IntCc.unsigned_less_than
int_inverse IntCc.unsigned_greater_than = IntCc.unsigned_less_than_or_equal
int_inverse IntCc.unsigned_less_than_or_equal = IntCc.unsigned_greater_than

pub int_reverse : IntCc → IntCc
int_reverse IntCc.equal = IntCc.equal
int_reverse IntCc.not_equal = IntCc.not_equal
int_reverse IntCc.signed_greater_than = IntCc.signed_less_than
int_reverse IntCc.signed_greater_than_or_equal = IntCc.signed_less_than_or_equal
int_reverse IntCc.signed_less_than = IntCc.signed_greater_than
int_reverse IntCc.signed_less_than_or_equal = IntCc.signed_greater_than_or_equal
int_reverse IntCc.unsigned_greater_than = IntCc.unsigned_less_than
int_reverse IntCc.unsigned_greater_than_or_equal = IntCc.unsigned_less_than_or_equal
int_reverse IntCc.unsigned_less_than = IntCc.unsigned_greater_than
int_reverse IntCc.unsigned_less_than_or_equal = IntCc.unsigned_greater_than_or_equal

-- `Display`.
pub int_to_str : IntCc → String
int_to_str IntCc.equal = "eq"
int_to_str IntCc.not_equal = "ne"
int_to_str IntCc.signed_greater_than = "sgt"
int_to_str IntCc.signed_greater_than_or_equal = "sge"
int_to_str IntCc.signed_less_than = "slt"
int_to_str IntCc.signed_less_than_or_equal = "sle"
int_to_str IntCc.unsigned_greater_than = "ugt"
int_to_str IntCc.unsigned_greater_than_or_equal = "uge"
int_to_str IntCc.unsigned_less_than = "ult"
int_to_str IntCc.unsigned_less_than_or_equal = "ule"

-- `FromStr`.
pub int_from_str : String → Option IntCc
int_from_str s =
    if s == "eq"
    then some IntCc.equal
    else if s == "ne"
    then some IntCc.not_equal
    else if s == "sge"
    then some IntCc.signed_greater_than_or_equal
    else if s == "sgt"
    then some IntCc.signed_greater_than
    else if s == "sle"
    then some IntCc.signed_less_than_or_equal
    else if s == "slt"
    then some IntCc.signed_less_than
    else if s == "uge"
    then some IntCc.unsigned_greater_than_or_equal
    else if s == "ugt"
    then some IntCc.unsigned_greater_than
    else if s == "ule"
    then some IntCc.unsigned_less_than_or_equal
    else if s == "ult"
    then some IntCc.unsigned_less_than
    else none

pub float_inverse : FloatCc → FloatCc
float_inverse FloatCc.ordered = FloatCc.unordered
float_inverse FloatCc.unordered = FloatCc.ordered
float_inverse FloatCc.equal = FloatCc.not_equal
float_inverse FloatCc.not_equal = FloatCc.equal
float_inverse FloatCc.ordered_not_equal = FloatCc.unordered_or_equal
float_inverse FloatCc.unordered_or_equal = FloatCc.ordered_not_equal
float_inverse FloatCc.less_than = FloatCc.unordered_or_greater_than_or_equal
float_inverse FloatCc.less_than_or_equal = FloatCc.unordered_or_greater_than
float_inverse FloatCc.greater_than = FloatCc.unordered_or_less_than_or_equal
float_inverse FloatCc.greater_than_or_equal = FloatCc.unordered_or_less_than
float_inverse FloatCc.unordered_or_less_than = FloatCc.greater_than_or_equal
float_inverse FloatCc.unordered_or_less_than_or_equal = FloatCc.greater_than
float_inverse FloatCc.unordered_or_greater_than = FloatCc.less_than_or_equal
float_inverse FloatCc.unordered_or_greater_than_or_equal = FloatCc.less_than

pub float_reverse : FloatCc → FloatCc
float_reverse FloatCc.ordered = FloatCc.ordered
float_reverse FloatCc.unordered = FloatCc.unordered
float_reverse FloatCc.equal = FloatCc.equal
float_reverse FloatCc.not_equal = FloatCc.not_equal
float_reverse FloatCc.ordered_not_equal = FloatCc.ordered_not_equal
float_reverse FloatCc.unordered_or_equal = FloatCc.unordered_or_equal
float_reverse FloatCc.less_than = FloatCc.greater_than
float_reverse FloatCc.less_than_or_equal = FloatCc.greater_than_or_equal
float_reverse FloatCc.greater_than = FloatCc.less_than
float_reverse FloatCc.greater_than_or_equal = FloatCc.less_than_or_equal
float_reverse FloatCc.unordered_or_less_than = FloatCc.unordered_or_greater_than
float_reverse FloatCc.unordered_or_less_than_or_equal = FloatCc.unordered_or_greater_than_or_equal
float_reverse FloatCc.unordered_or_greater_than = FloatCc.unordered_or_less_than
float_reverse FloatCc.unordered_or_greater_than_or_equal = FloatCc.unordered_or_less_than_or_equal

-- `Display`.
pub float_to_str : FloatCc → String
float_to_str FloatCc.ordered = "ord"
float_to_str FloatCc.unordered = "uno"
float_to_str FloatCc.equal = "eq"
float_to_str FloatCc.not_equal = "ne"
float_to_str FloatCc.ordered_not_equal = "one"
float_to_str FloatCc.unordered_or_equal = "ueq"
float_to_str FloatCc.less_than = "lt"
float_to_str FloatCc.less_than_or_equal = "le"
float_to_str FloatCc.greater_than = "gt"
float_to_str FloatCc.greater_than_or_equal = "ge"
float_to_str FloatCc.unordered_or_less_than = "ult"
float_to_str FloatCc.unordered_or_less_than_or_equal = "ule"
float_to_str FloatCc.unordered_or_greater_than = "ugt"
float_to_str FloatCc.unordered_or_greater_than_or_equal = "uge"

-- `FromStr`.
pub float_from_str : String → Option FloatCc
float_from_str s =
    if s == "ord"
    then some FloatCc.ordered
    else if s == "uno"
    then some FloatCc.unordered
    else if s == "eq"
    then some FloatCc.equal
    else if s == "ne"
    then some FloatCc.not_equal
    else if s == "one"
    then some FloatCc.ordered_not_equal
    else if s == "ueq"
    then some FloatCc.unordered_or_equal
    else if s == "lt"
    then some FloatCc.less_than
    else if s == "le"
    then some FloatCc.less_than_or_equal
    else if s == "gt"
    then some FloatCc.greater_than
    else if s == "ge"
    then some FloatCc.greater_than_or_equal
    else if s == "ult"
    then some FloatCc.unordered_or_less_than
    else if s == "ule"
    then some FloatCc.unordered_or_less_than_or_equal
    else if s == "ugt"
    then some FloatCc.unordered_or_greater_than
    else if s == "uge"
    then some FloatCc.unordered_or_greater_than_or_equal
    else none
