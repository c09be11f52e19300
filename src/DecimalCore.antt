-- ===== src/DecimalCore.antt =====
-- src/data/decimal_core.hpp: 64-bit integer primitives that report overflow, the long division of
-- coefficients, and the comparison of two scaled numbers. An int64_t is an integer in ℤ, a
-- uint64_t a number in ℕ; a routine that returns false has the result `none`.
pub mod Checked
pub mod LongDivision
pub mod Compare
mod Tests
use saqut.Prelude.{
  ℕ, zero, suc, ◌+◌, ◌-◌, ◌*◌, ◌/◌, ◌%◌, ◌^◌, ◌<◌, ◌≤◌, min, Bool, true, false, ◌&&◌, ◌||◌, Option,
  none, some, ltb, leb, ◌==◌, if◌then◌else◌,
}
use saqut.Prelude.Word.{int32}
use saqut.Prelude.Int.{
  ℤ, pos, negsuc, pos_part, neg_part, ◌+ℤ◌, ◌-ℤ◌, ◌*ℤ◌, neg_ℤ, is_neg, abs, signed, xor_sign, ltb_ℤ,
  eqb_ℤ,
}

abbrev pub i64_max : ℤ
i64_max = pos 9223372036854775807

abbrev pub i64_min : ℤ
i64_min = negsuc 9223372036854775807

-- The values of an int64_t.
abbrev pub IsI64 : ℤ → Type 0
IsI64 z = (pos_part z ≤ 9223372036854775807) × (neg_part z ≤ 9223372036854775808)

unfoldable pub add_ov : ℤ → ℤ → Option ℤ
add_ov a b =
    if ltb_ℤ (pos 0) b && ltb_ℤ (i64_max -ℤ b) a
    then none
    else if ltb_ℤ b (pos 0) && ltb_ℤ a (i64_min -ℤ b)
    then none
    else some (a +ℤ b)

unfoldable pub neg_ov : ℤ → Option ℤ
neg_ov a = if eqb_ℤ a i64_min then none else some (neg_ℤ a)

unfoldable pub mul_ov : ℤ → ℤ → Option ℤ
mul_ov a b =
    if eqb_ℤ a (pos 0) || eqb_ℤ b (pos 0)
    then some (pos 0)
    else if eqb_ℤ a i64_min || eqb_ℤ b i64_min
    then none
    else if ltb (9223372036854775807 / abs b) (abs a)
    then none
    else some (a *ℤ b)

-- The loop of `scale10`, which multiplies `r` by ten in each of the rounds left.
unfoldable pub scale10 : ℤ → ℕ → Option ℤ
scale10 r zero = some r
scale10 r (suc n) = elim (mul_ov r (pos 10)) [ none ↦ none | some r' ↦ scale10 r' n ]

abbrev pub u64 : ℕ
u64 = 18446744073709551616

-- rem * 10 as two words, by shifts and the carry of their sum.
unfoldable pub times_ten : ℕ → ℕ × ℕ
times_ten rem =
    let t1 = rem * 8 % u64 in
    let t2 = rem * 2 % u64 in
    let lo = (t1 + t2) % u64 in
    (rem / 2305843009213693952 + rem / 9223372036854775808 + (if ltb lo t1 then 1 else 0), lo)

-- The bits of `lo` below `k` that are still to bring down; `digit |= 1 << bit` sets a bit that is
-- clear, so it is a sum.
unfoldable pub bring_down : ℕ → ℕ → ℕ → ℕ → ℕ → ℕ × ℕ
bring_down lo d zero r digit = (digit, r)
bring_down lo d (suc k) r digit =
    let r' = (r * 2 + lo / 2 ^ k % 2) % u64 in
    let fits = leb d r' in
    bring_down lo d k (if fits then r' - d else r') (digit + (if fits then 2 ^ k else 0))

-- One digit of the quotient and the remainder that is carried on.
unfoldable pub next_digit : ℕ → ℕ → ℕ × ℕ
next_digit rem d = let (hi, lo) = times_ten rem in bring_down lo d 64 hi 0

abbrev pub limit : ℕ
limit = 9223372036854775807

pub record Quotient : Type 0 where
  pub q : ℕ
  pub rem : ℕ
  pub used : ℕ

abbrev pub quotient : ℕ → ℕ → ℕ → Quotient
quotient q rem used = record { q = q; rem = rem; used = used }

-- The `while` loop of `divScaled` with `k` digits of the precision left.
unfoldable pub divide_loop : ℕ → ℕ → ℕ → ℕ → ℕ → Quotient
divide_loop d zero q rem used = quotient q rem used
divide_loop d (suc k) q rem used =
    let step = next_digit rem d in
    let digit = min step.0 9 in
    let more = divide_loop d k (q * 10 + digit) step.1 (used + 1) in
    if rem == 0
    then quotient q rem used
    else if ltb (limit / 10) q
    then quotient q rem used
    else if ltb (limit - digit) (q * 10)
    then quotient q rem used
    else more

-- The result of the loop with its sign, and the digits produced.
unfoldable pub finish : Bool → Quotient → Option (ℤ × ℕ)
finish neg r = if ltb limit r.q then none else some (signed neg r.q, r.used)

unfoldable pub div_scaled : ℤ → ℤ → ℕ → Option (ℤ × ℕ)
div_scaled num den precision =
    if eqb_ℤ den (pos 0)
    then none
    else finish (xor_sign (is_neg num) (is_neg den))
        (divide_loop (abs den) precision (abs num / abs den) (abs num % abs den) 0)

-- -1, 0 or 1.
abbrev pub sign_of : ℤ → ℤ → ℤ
sign_of a b = if ltb_ℤ a b then negsuc 0 else if ltb_ℤ b a then pos 1 else pos 0

-- The branches of `compareScaled` for operands of one sign: the one of the greater exponent is scaled
-- down to the other's, and is the greater in absolute value where that overflows.
unfoldable pub compare_left : ℤ → ℤ → ℕ → ℤ
compare_left a b diff =
    let a_beyond = if is_neg a then negsuc 0 else pos 1 in
    if ltb 18 diff
    then a_beyond
    else elim (scale10 a diff) [ none ↦ a_beyond | some scaled ↦ sign_of scaled b ]

unfoldable pub compare_right : ℤ → ℤ → ℕ → ℤ
compare_right a b diff =
    let b_beyond = if is_neg b then pos 1 else negsuc 0 in
    if ltb 18 diff
    then b_beyond
    else elim (scale10 b diff) [ none ↦ b_beyond | some scaled ↦ sign_of a scaled ]

-- The exponents are int32_t, and so is their difference; a difference that is not positive scales by nothing.
unfoldable pub compare_scaled : ℤ → ℤ → ℤ → ℤ → ℤ
compare_scaled a a_exp b b_exp =
    if eqb_ℤ a_exp b_exp
    then sign_of a b
    else if eqb_ℤ a (pos 0) && eqb_ℤ b (pos 0)
    then pos 0
    else if eqb_ℤ a (pos 0)
    then (if ltb_ℤ (pos 0) b then negsuc 0 else pos 1)
    else if eqb_ℤ b (pos 0)
    then (if ltb_ℤ (pos 0) a then pos 1 else negsuc 0)
    else if xor_sign (is_neg a) (is_neg b)
    then (if is_neg a then negsuc 0 else pos 1)
    else if ltb_ℤ b_exp a_exp
    then compare_left a b (pos_part (int32 (a_exp -ℤ b_exp)))
    else compare_right a b (pos_part (int32 (b_exp -ℤ a_exp)))
