-- ===== src/Decimal/Tests.antt =====
-- Concrete decimals of src/core/decimal.hpp.
use saqut.Prelude.{◌≡◌, ◌≢◌, ◌⊎◌, inr, ◌<◌, refl, none, some, arith, if◌then◌else◌}
use saqut.Prelude.Int.{ℤ, pos, negsuc, ◌+ℤ◌, ◌*ℤ◌, eqb_ℤ, abs}
use saqut.DecimalCore.{IsI64, i64_min}
use saqut.Decimal.{
  DecimalValue, decimal, zero_decimal, normalize, from_int, add, sub, mul, neg, modulo, truncate,
  overflow, cast_decimal_to_int,
}
use saqut.Decimal.Scale.{units}
use saqut.Decimal.Normal.{IsNormal, normalize-IsNormal, IsNormal-unique}
use saqut.Decimal.Sum.{AddsTo, add_comm, add-AddsTo}
use saqut.Decimal.Far.{Drops, add-Drops}
use saqut.Decimal.Difference.{SubtractsTo, sub-SubtractsTo}
use saqut.Decimal.Product.{mul-exact}
use saqut.Decimal.Integers.{cast-fraction, cast-drops_exp}

-- 2.5, 0.1 and 100.
abbrev two_and_half : DecimalValue
two_and_half = decimal (pos 25) (negsuc 0)

abbrev tenth : DecimalValue
tenth = decimal (pos 1) (negsuc 0)

abbrev hundred : DecimalValue
hundred = decimal (pos 1) (pos 2)

from_int_test : from_int (pos 100) ≡ hundred
unfolding from_int normalize saqut.Decimal.strip_zeros saqut.Prelude.Int.mod_ℤ
    saqut.Prelude.Int.div_ℤ ◌+ℤ◌ saqut.Prelude.Word.int32
from_int_test = refl

add_test : add two_and_half tenth ≡ decimal (pos 26) (negsuc 0)
unfolding add saqut.DecimalCore.add_ov saqut.Prelude.Int.◌-ℤ◌ normalize ◌+ℤ◌
    saqut.Decimal.strip_zeros saqut.Prelude.Int.mod_ℤ
add_test = refl

cast_test : cast_decimal_to_int hundred ≡ some (pos 1)
unfolding cast_decimal_to_int truncate
cast_test = refl

normalize-IsNormal_example : IsNormal (normalize (decimal i64_min (pos 0)))
normalize-IsNormal_example = normalize-IsNormal (decimal i64_min (pos 0)) (omega arith)

IsNormal-unique_example : two_and_half ≡ decimal (pos 25) (negsuc 0)
unfolding saqut.Decimal.compare saqut.DecimalCore.compare_scaled saqut.Prelude.Int.◌-ℤ◌
IsNormal-unique_example =
    IsNormal-unique two_and_half (decimal (pos 25) (negsuc 0)) (omega arith) (omega arith)
      (inr (omega arith)) (inr (omega arith)) (omega arith) refl

add_comm_example : add two_and_half hundred ≡ add hundred two_and_half
add_comm_example = add_comm two_and_half hundred (omega arith) (omega arith)

add-AddsTo_example : AddsTo (negsuc 0) two_and_half hundred (add two_and_half hundred)
unfolding saqut.Prelude.Int.◌-ℤ◌
add-AddsTo_example =
    add-AddsTo two_and_half hundred (negsuc 0) (omega arith) (omega arith) (omega arith)
      (omega arith) (omega arith) (omega arith) (omega arith, omega arith)
      (omega arith, omega arith)

-- 1 and 0.0999999999999999999.
abbrev one : DecimalValue
one = decimal (pos 1) (pos 0)

abbrev nearly_tenth : DecimalValue
nearly_tenth = decimal (pos 999999999999999999) (negsuc 18)

add-Drops_example : Drops (negsuc 18) one nearly_tenth (add one nearly_tenth)
unfolding saqut.Prelude.Int.◌-ℤ◌
add-Drops_example =
    add-Drops one nearly_tenth (negsuc 18) (omega arith) (omega arith) (omega arith) (omega arith)
      (omega arith, omega arith) (omega arith, omega arith) (omega arith)

sub-SubtractsTo_example : SubtractsTo (negsuc 0) hundred two_and_half (sub hundred two_and_half)
unfolding saqut.Prelude.Int.◌-ℤ◌
sub-SubtractsTo_example =
    sub-SubtractsTo hundred two_and_half (negsuc 0) (omega arith) (omega arith) (omega arith)
      (omega arith) (omega arith) (omega arith) (omega arith, omega arith)
      (omega arith, omega arith)

mul-exact_example :
    ((mul two_and_half hundred ≡ overflow) × (9223372036854775807 < 25))
    ⊎ (units (pos 0) (mul two_and_half hundred) ≡ pos 250)
unfolding ◌+ℤ◌ ◌*ℤ◌ saqut.Prelude.Int.◌-ℤ◌
mul-exact_example =
    mul-exact two_and_half hundred (pos 0) (omega arith) (omega arith) (omega arith)
      (omega arith, omega arith)

cast-fraction_example : cast_decimal_to_int two_and_half ≡ some (pos 2)
unfolding saqut.Prelude.Int.div_ℤ
cast-fraction_example = cast-fraction two_and_half (omega arith) (omega arith) (omega arith)

cast-drops_exp_example :
    (cast_decimal_to_int hundred ≡ some (pos 1)) × (pos 1 ≢ units (pos 0) hundred)
cast-drops_exp_example = cast-drops_exp hundred (omega arith) (omega arith) (omega arith)
