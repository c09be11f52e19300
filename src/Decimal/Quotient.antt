-- ===== src/Decimal/Quotient.antt =====
-- The exact value of a quotient of decimals.
use saqut.Prelude.{ℕ, suc, ◌+◌, ◌*◌, ◌/◌, ◌^◌, ◌≤◌, ◌<◌, ◌≡◌, ◌⊎◌, Option, none, some}
use saqut.Prelude.Int.{ℤ, pos, pos_part, abs, is_neg, signed, xor_sign, ◌-ℤ◌}
use saqut.Prelude.Word.{int32}
use saqut.DecimalCore.{limit}
use saqut.Decimal.{DecimalValue, decimal, normalize, overflow}
use saqut.Decimal.Scale.{units}

-- The quotient `r`, in units of 10^m, times the divisor, and a remainder that is less than the divisor at the
-- last of the digits, are the dividend; the sign is the quotient's; and the digits are all 17, or the remainder
-- is zero, or one more digit would go beyond INT64_MAX.
pub record IsExact (m : ℤ) (a b r : DecimalValue) : Type 0 where
  pub digits : ℕ
  pub rem : ℕ
  pub exact :
      abs (units m r) * abs b.coeff + rem * 10 ^ pos_part (a.exp -ℤ b.exp -ℤ pos digits -ℤ m)
      ≡ abs a.coeff * 10 ^ pos_part (a.exp -ℤ b.exp -ℤ m)
  pub small : rem < abs b.coeff
  pub within : digits ≤ 17
  pub complete :
      (rem ≡ 0) ⊎ ((digits ≡ 17) ⊎ (suc limit * abs b.coeff ≤ abs a.coeff * 10 ^ suc digits))
  pub sign : units m r ≡ signed (xor_sign (is_neg a.coeff) (is_neg b.coeff)) (abs (units m r))

-- What a quotient is to return: the exact value up to its last digit, or the overflow where the integer part of
-- the coefficients' quotient is too big.
abbrev pub DividesTo : ℤ → DecimalValue → DecimalValue → DecimalValue → Type 0
DividesTo m a b r = ((r ≡ overflow) × (limit < abs a.coeff / abs b.coeff)) ⊎ IsExact m a b r

module _ (a b : DecimalValue) (m : ℤ) where
  abbrev last_exp : ℕ → ℤ
  last_exp digits = a.exp -ℤ b.exp -ℤ pos digits

finish_div : DecimalValue → DecimalValue → Option (ℤ × ℕ) → DecimalValue
finish_div a b none = overflow
finish_div a b (some (q, digits)) =
    normalize (decimal q (int32 (int32 (a.exp -ℤ b.exp) -ℤ pos digits)))
