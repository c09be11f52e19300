-- ===== src/Decimal.antt =====
-- src/core/decimal.hpp: `DecimalValue`, a coefficient (int64_t) and a decimal exponent (int32_t), with
-- the checked arithmetic of src/data/decimal_core.hpp; and the cast of a decimal to an int by the
-- interpreter (src/vm/interpreter.cpp). The arithmetic of exponents is that of int32_t.
pub mod Scale
pub mod Normal
pub mod Branches
pub mod Sum
pub mod Far
pub mod Difference
pub mod Product
pub mod Quotient
pub mod Integers
mod Tests
use saqut.Prelude.{
  ℕ, zero, suc, ◌+◌, ◌*◌, ◌≤◌, ◌%◌, Bool, true, false, ◌||◌, not, Option, none, some, ltb, leb,
  ◌==◌, if◌then◌else◌,
}
use saqut.Prelude.Word.{int32}
use saqut.Prelude.Int.{
  ℤ, pos, negsuc, pos_part, ◌+ℤ◌, ◌-ℤ◌, ◌*ℤ◌, neg_ℤ, div_ℤ, mod_ℤ, ltb_ℤ, leb_ℤ, eqb_ℤ,
}
use saqut.DecimalCore.{i64_max, add_ov, neg_ov, mul_ov, scale10, div_scaled, compare_scaled}

pub record DecimalValue : Type 0 where
  pub coeff : ℤ
  pub exp : ℤ

abbrev pub decimal : ℤ → ℤ → DecimalValue
decimal c e = record { coeff = c; exp = e }

-- The function `zero()` of the source.
abbrev pub zero_decimal : DecimalValue
zero_decimal = decimal (pos 0) (pos 0)

-- The loop of `normalize`. A coefficient of an int64_t has at most 19 digits, so 20 rounds are enough.
unfoldable pub strip_zeros : ℕ → ℤ → ℤ → DecimalValue
strip_zeros zero c e = decimal c e
strip_zeros (suc fuel) c e =
    let rest = strip_zeros fuel (div_ℤ c (pos 10)) (int32 (e +ℤ pos 1)) in
    if eqb_ℤ (mod_ℤ c (pos 10)) (pos 0) then rest else decimal c e

unfoldable pub normalize : DecimalValue → DecimalValue
normalize d =
    if eqb_ℤ d.coeff (pos 0) then decimal d.coeff (pos 0) else strip_zeros 20 d.coeff d.exp

unfoldable pub from_int : ℤ → DecimalValue
from_int i = normalize (decimal i (pos 0))

unfoldable pub compare : DecimalValue → DecimalValue → ℤ
compare a b = compare_scaled a.coeff a.exp b.coeff b.exp

unfoldable pub is_overflow : DecimalValue → Bool
is_overflow d = eqb_ℤ d.coeff i64_max

abbrev pub overflow : DecimalValue
overflow = decimal i64_max (pos 0)

-- `overflow()` if a checked primitive failed, else the normalized result.
abbrev pub checked : Option ℤ → ℤ → DecimalValue
checked none e = overflow
checked (some c) e = normalize (decimal c e)

-- `add` where the first exponent is the greater one, by `diff`.
unfoldable pub add_aligned : ℤ → ℕ → ℤ → ℤ → DecimalValue
add_aligned coeff diff other e = elim (scale10 coeff diff) [
  | none ↦ overflow
  | some scaled ↦ checked (add_ov scaled other) e
]

-- The mirrored branch adds the scaled operand second.
unfoldable pub add_aligned_right : ℤ → ℤ → ℕ → ℤ → DecimalValue
add_aligned_right other coeff diff e = elim (scale10 coeff diff) [
  | none ↦ overflow
  | some scaled ↦ checked (add_ov other scaled) e
]

unfoldable pub add : DecimalValue → DecimalValue → DecimalValue
add a b =
    if eqb_ℤ a.exp b.exp
    then checked (add_ov a.coeff b.coeff) a.exp
    else if ltb_ℤ b.exp a.exp
    then (let diff = pos_part (int32 (a.exp -ℤ b.exp)) in
        if ltb 18 diff then normalize a else add_aligned a.coeff diff b.coeff b.exp)
    else let diff = pos_part (int32 (b.exp -ℤ a.exp)) in
      if ltb 18 diff then normalize b else add_aligned_right a.coeff b.coeff diff a.exp

unfoldable pub sub : DecimalValue → DecimalValue → DecimalValue
sub a b = elim (neg_ov b.coeff) [ none ↦ overflow | some nb ↦ add a (decimal nb b.exp) ]

unfoldable pub mul : DecimalValue → DecimalValue → DecimalValue
mul a b = checked (mul_ov a.coeff b.coeff) (int32 (a.exp +ℤ b.exp))

unfoldable pub div : DecimalValue → DecimalValue → DecimalValue
div a b = if eqb_ℤ b.coeff (pos 0) then overflow else elim (div_scaled a.coeff b.coeff 17) [
  | none ↦ overflow
  | some (q, digits) ↦ normalize (decimal q (int32 (int32 (a.exp -ℤ b.exp) -ℤ pos digits)))
]

-- `divisor *= 10`, once for each round left.
unfoldable pub ten_times : ℕ → ℕ → ℕ
ten_times zero divisor = divisor
ten_times (suc n) divisor = ten_times n (divisor * 10)

unfoldable pub truncate : DecimalValue → DecimalValue
truncate a =
    if leb_ℤ (pos 0) a.exp
    then a
    else if ltb 18 (pos_part (int32 (neg_ℤ a.exp)))
    then zero_decimal
    else decimal (div_ℤ a.coeff (pos (ten_times (pos_part (int32 (neg_ℤ a.exp))) 1))) (pos 0)

unfoldable pub modulo : DecimalValue → DecimalValue → DecimalValue
modulo a b =
    let q = div a b in
    let product = mul (truncate q) b in
    if eqb_ℤ b.coeff (pos 0)
    then overflow
    else if is_overflow q
    then overflow
    else if is_overflow product
    then overflow
    else sub a product

-- -INT64_MIN has no value in the source; it is exact here.
unfoldable pub neg : DecimalValue → DecimalValue
neg a = decimal (neg_ℤ a.coeff) a.exp

unfoldable pub to_int64 : DecimalValue → ℤ
to_int64 d = (truncate d).coeff

unfoldable pub is_truthy : DecimalValue → Bool
is_truthy d = not (eqb_ℤ d.coeff (pos 0))

-- The opcode CAST_DECIMAL_TO_INT: `none` is the error or the null of a value out of range.
unfoldable pub cast_decimal_to_int : DecimalValue → Option ℤ
cast_decimal_to_int d =
    let trunc = truncate d in
    if ltb_ℤ trunc.coeff (negsuc 2147483647) || ltb_ℤ (pos 2147483647) trunc.coeff
    then none
    else some trunc.coeff
