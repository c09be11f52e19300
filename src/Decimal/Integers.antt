-- ===== src/Decimal/Integers.antt =====
-- Decimals and integers: truncation, and the cast to an int.
use native.Mathlib.Nat.{
  one-le-pow, pow-zero, pow-succ', mul_assoc, mul-one, div-eq_of_lt, pow-le-pow_right,
}
use saqut.Prelude.{
  ℕ, zero, suc, ◌-◌, ◌*◌, ◌^◌, ◌≤◌, ◌<◌, ◌≡◌, ◌≢◌, ap, ◌∙◌, ◌&&◌, none, some, arith, if◌then◌else◌,
}
use saqut.Prelude.Int.{
  ℤ, pos, negsuc, pos_part, neg_part, abs, div_ℤ, neg_ℤ, leb_ℤ, ◌<ℤ◌, ◌*ℤ◌, ◌-ℤ◌,
}
use saqut.Prelude.Word.{int32, int32-IsI32}
use saqut.DecimalCore.{IsI64}
use saqut.DecimalCore.Checked.{abs-*ℤ, le-mul_pos}
use saqut.Decimal.Scale.{units}
use saqut.Decimal.{DecimalValue, decimal, ten_times, truncate, cast_decimal_to_int}

ten_times_lem : (n d : ℕ) → ten_times n d ≡ d * 10 ^ n
unfolding ten_times
ten_times_lem zero d = rw (pow-zero, mul-one)
ten_times_lem (suc n) d = rw (ten_times_lem n (d * 10), pow-succ', mul_assoc)

div_far : (c : ℤ) (n : ℕ) → IsI64 c → 18 < n → div_ℤ c (pos (10 ^ n)) ≡ pos 0
unfolding div_ℤ
div_far c n h far =
    let small : abs c < 10 ^ n =
      omega (arith, size, pow-le-pow_right {n = 10} (omega arith) {i = 19} {j = n} far) in
    rw (div-eq_of_lt small) (ground arith)
  where
    size : abs c ≤ 9223372036854775808
    size = ground arith

negated : (e : ℤ) → e <ℤ pos 0 → negsuc 2147483647 <ℤ e → pos_part (int32 (neg_ℤ e)) ≡ neg_part e
negated e h low = ap pos_part (int32-IsI32 (neg_ℤ e) (ground arith)) ∙ ground arith

-- For a coefficient of an int64_t and a negative exponent, truncating divides the coefficient by
-- the power of ten, towards zero, with no special case past 18 digits.
truncate-fraction :
    (d : DecimalValue)
    → IsI64 d.coeff
    → d.exp <ℤ pos 0
    → negsuc 2147483647 <ℤ d.exp
    → truncate d ≡ decimal (div_ℤ d.coeff (pos (10 ^ neg_part d.exp))) (pos 0)
unfolding truncate
truncate-fraction d h neg low = ground (
  arith,
  negated d.exp neg low,
  ten_times_lem (neg_part d.exp) 1,
  div_far d.coeff (neg_part d.exp) h,
)

-- For a coefficient of an int64_t and a negative exponent above INT32_MIN, the cast to an int
-- returns the integer part, exactly where that is in the range of an int.
pub cast-fraction :
    (d : DecimalValue)
    → IsI64 d.coeff
    → d.exp <ℤ pos 0
    → negsuc 2147483647 <ℤ d.exp
    → cast_decimal_to_int d ≡ (
        let whole = div_ℤ d.coeff (pos (10 ^ neg_part d.exp)) in
        if leb_ℤ (negsuc 2147483647) whole && leb_ℤ whole (pos 2147483647)
        then some whole
        else none)
unfolding cast_decimal_to_int
cast-fraction d h neg low = rw (truncate-fraction d h neg low) (ground arith)

scaled_ne : (c : ℤ) (n : ℕ) → 0 < abs c → c ≢ c *ℤ pos (10 ^ suc n)
scaled_ne c n h e = omega (
  arith,
  ap abs e ∙ abs-*ℤ c (pos (10 ^ suc n)),
  pow-succ' 10 n,
  le-mul_pos (abs c * 10) (10 ^ n) (one-le-pow n 10 (omega arith)),
  mul_assoc (abs c) 10 (10 ^ n),
  ap (λ (t : ℕ). abs c * t) (pow-succ' 10 n),
)

cast_coeff :
    (d : DecimalValue)
    → pos 0 <ℤ d.exp
    → abs d.coeff ≤ 2147483647
    → cast_decimal_to_int d ≡ some d.coeff
unfolding cast_decimal_to_int truncate
cast_coeff d h small = ground arith

whole_gap : (e : ℤ) → pos 0 <ℤ e → pos_part (e -ℤ pos 0) ≡ suc (pos_part e - 1)
unfolding ◌-ℤ◌
whole_gap e h = ground arith

-- The cast to an int of a decimal with a positive exponent and a coefficient other than zero in
-- the range of an int returns the coefficient, which is not the value of the decimal.
pub cast-drops_exp :
    (d : DecimalValue)
    → pos 0 <ℤ d.exp
    → 0 < abs d.coeff
    → abs d.coeff ≤ 2147483647
    → (cast_decimal_to_int d ≡ some d.coeff) × (d.coeff ≢ units (pos 0) d)
cast-drops_exp d h z small =
    (cast_coeff d h small, rw (whole_gap d.exp h) (scaled_ne d.coeff (pos_part d.exp - 1) z))
