-- ===== src/DecimalCore/Tests.antt =====
-- Concrete runs of src/data/decimal_core.hpp.
use saqut.Prelude.{◌≡◌, refl, none, some, arith}
use saqut.Prelude.Int.{ℤ, pos, negsuc}
use saqut.DecimalCore.{
  add_ov, divide_loop, finish, next_digit, times_ten, bring_down, mul_ov, div_scaled,
  compare_scaled, i64_min,
}
use saqut.DecimalCore.Checked.{fits_sym, mul_ov_lem}
use saqut.DecimalCore.LongDivision.{DivResult, div_scaled-DivResult}
use saqut.DecimalCore.Compare.{compare_exact, compare_scaled_lem}

add_ov_test : add_ov (pos 9223372036854775807) (pos 1) ≡ none
unfolding add_ov saqut.Prelude.Int.◌-ℤ◌
add_ov_test = refl

-- The product is INT64_MIN, which an int64_t holds; the source reports an overflow.
mul_ov_test : mul_ov i64_min (pos 1) ≡ none
unfolding mul_ov
mul_ov_test = refl

div_scaled_test : div_scaled (pos 1) (negsuc 7) 17 ≡ some (negsuc 124, 3)
unfolding div_scaled finish divide_loop next_digit times_ten bring_down
div_scaled_test = refl

mul_ov_lem_example :
    mul_ov (negsuc 3037000499) (pos 3037000500) ≡ fits_sym (negsuc 9223372037000249999)
unfolding saqut.Prelude.Int.◌*ℤ◌
mul_ov_lem_example = mul_ov_lem (negsuc 3037000499) (pos 3037000500) (omega arith) (omega arith)

div_scaled-DivResult_example : DivResult (pos 1) (negsuc 2) 17 (div_scaled (pos 1) (negsuc 2) 17)
div_scaled-DivResult_example =
    div_scaled-DivResult (pos 1) (negsuc 2) 17 (omega arith) (omega arith) (omega arith)

compare_scaled_lem_example :
    compare_scaled (pos 15) (negsuc 0) (pos 2) (pos 3)
    ≡ compare_exact (pos 15) (negsuc 0) (pos 2) (pos 3)
unfolding saqut.Prelude.Int.◌-ℤ◌
compare_scaled_lem_example =
    compare_scaled_lem (pos 15) (pos 2) (omega arith) (omega arith) (negsuc 0) (pos 3) (omega arith)
