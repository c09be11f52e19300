-- ===== src/DecimalCore/LongDivision.antt =====
-- `divScaled`: the 128-bit step, the loop over bits, the loop over digits.
use native.Mathlib.Nat.{
  mul-add-div_right, div-eq_of_lt, div-div-eq-div-mul, mul_comm, mul_assoc, mul-le-mul_right,
  pow-suc, mod-lt, div-add-mod',
}
use native.Mathlib.Numerals.{add-one}
use native.Mathlib.Decide.{dec_le}
use saqut.Prelude.{
  ℕ, zero, suc, ◌+◌, ◌-◌, ◌*◌, ◌/◌, ◌%◌, ◌^◌, ◌≤◌, ◌<◌, min, ◌≡◌, ◌⊎◌, inl, inr, refl, ap, Option,
  none, some, arith, ltb, ◌==◌, if_split, ltb→lt, ltb→le,
}
use saqut.Prelude.Int.{ℤ, pos, abs, is_neg, signed, xor_sign, eqb_ℤ}
use saqut.DecimalCore.Checked.{abs-signed}
use saqut.DecimalCore.{
  IsI64, u64, limit, times_ten, bring_down, next_digit, Quotient, quotient, divide_loop, finish,
  div_scaled,
}

pub times_ten_lem :
    (rem : ℕ)
    → rem < u64
    → ((times_ten rem).0 * u64 + (times_ten rem).1 ≡ rem * 10) × ((times_ten rem).1 < u64)
unfolding times_ten
times_ten_lem rem h = ground arith

low_bit : (lo p : ℕ) → lo % (p * 2) ≡ lo / p % 2 * p + lo % p
low_bit lo p =
    let halves : lo / p ≡ lo / (p * 2) * 2 + lo / p % 2 =
      rw (← div-div-eq-div-mul lo p 2) (omega arith) in
    omega (arith, div-add-mod' lo (p * 2), div-add-mod' lo p, ap (λ (t : ℕ). t * p) halves)

-- The remainder after the next bit of `lo` is brought down, before the test.
abbrev shifted : ℕ → ℕ → ℕ → ℕ
shifted lo k r = (r * 2 + lo / 2 ^ k % 2) % u64

shifted_lem :
    (lo k r : ℕ)
    → r < 9223372036854775808
    → shifted lo k r * 2 ^ k + lo % 2 ^ k ≡ r * 2 ^ suc k + lo % 2 ^ suc k
shifted_lem lo k r h =
    let e : shifted lo k r ≡ r * 2 + lo / 2 ^ k % 2 = omega arith in
    rw (pow-suc 2 k) (omega (arith, low_bit lo (2 ^ k), ap (λ (t : ℕ). t * 2 ^ k) e))

-- `digit * d + r`, followed by the bits of `lo` below `k`.
abbrev Divides : ℕ → ℕ → ℕ → ℕ → ℕ → ℕ × ℕ → Type 0
Divides lo d k r digit out =
    (out.0 * d + out.1 ≡ digit * d + (r * 2 ^ k + lo % 2 ^ k)) × (out.1 < d)

bring_down-fits :
    (lo d k r digit : ℕ)
    → d ≤ shifted lo k r
    → bring_down lo d (suc k) r digit ≡ bring_down lo d k (shifted lo k r - d) (digit + 2 ^ k)
unfolding bring_down
bring_down-fits lo d k r digit h = ground arith

bring_down-skips :
    (lo d k r digit : ℕ)
    → shifted lo k r < d
    → bring_down lo d (suc k) r digit ≡ bring_down lo d k (shifted lo k r) digit
unfolding bring_down
bring_down-skips lo d k r digit h = ground arith

Divides-fits :
    (lo d k r digit : ℕ) (out : ℕ × ℕ)
    → r < 9223372036854775808
    → d ≤ shifted lo k r
    → Divides lo d k (shifted lo k r - d) (digit + 2 ^ k) out
    → Divides lo d (suc k) r digit out
Divides-fits lo d k r digit out hr h ih =
    let e : shifted lo k r ≡ (shifted lo k r - d) + d = omega arith in
    (
      omega (arith, ih.0, shifted_lem lo k r hr, ap (λ (t : ℕ). t * 2 ^ k) e, mul_comm d (2 ^ k)),
      ih.1,
    )

-- The loop keeps the number that its variables stand for, and leaves a remainder below `d`.
bring_down_lem :
    (k lo d r digit : ℕ)
    → r < d
    → d ≤ 9223372036854775808
    → Divides lo d k r digit (bring_down lo d k r digit)
bring_down_lem zero lo d r digit h hd = unfold bring_down in (omega arith, h)
bring_down_lem (suc k) lo d r digit h hd = elim (dec_le d (shifted lo k r)) [
  | yes p ↦ rw (bring_down-fits lo d k r digit p) (
      Divides-fits lo d k r digit _ (omega arith) p
        (bring_down_lem k lo d (shifted lo k r - d) (digit + 2 ^ k) (omega arith) hd))
  | no p ↦ rw (bring_down-skips lo d k r digit (omega arith)) (
      let ih = bring_down_lem k lo d (shifted lo k r) digit (omega arith) hd in
      (omega (arith, ih.0, shifted_lem lo k r (omega arith)), ih.1))
]

digit-le : (q d rem r : ℕ) → q * d + r ≡ rem * 10 → rem < d → q ≤ 9
digit-le q d rem r e h = elim (dec_le q 9) [
  | yes p ↦ p
  | no p ↦ absurd (omega (arith, mul-le-mul_right {m = 10} {n = q} d (omega arith)))
]

-- One round of the long division: the digit, and the remainder of `rem * 10`.
abbrev pub IsDigit : ℕ → ℕ → ℕ × ℕ → Type 0
IsDigit rem d out = (out.0 * d + out.1 ≡ rem * 10) × (out.1 < d) × (out.0 ≤ 9)

pub next_digit-IsDigit :
    (rem d : ℕ) → rem < d → d ≤ 9223372036854775808 → IsDigit rem d (next_digit rem d)
unfolding next_digit
next_digit-IsDigit rem d h hd =
    let t = times_ten_lem rem (omega arith) in
    let b = bring_down_lem 64 (times_ten rem).1 d (times_ten rem).0 0 (omega (arith, t)) hd in
    let e : (next_digit rem d).0 * d + (next_digit rem d).1 ≡ rem * 10 = omega (arith, t, b.0) in
    (e, b.1, digit-le (next_digit rem d).0 d rem (next_digit rem d).1 e h)

digit-eq : (d rem : ℕ) (out : ℕ × ℕ) → IsDigit rem d out → out.0 ≡ rem * 10 / d
digit-eq d rem out (e, small, le) =
    rw (← e, mul-add-div_right {m = d} (omega arith) out.0 out.1, div-eq_of_lt small) (omega arith)

-- `used` digits after the point are right, and there are as many as asked for, unless the rest is
-- zero or one digit more would pass INT64_MAX.
pub record IsQuotient (n d precision : ℕ) (r : Quotient) : Type 0 where
  pub exact : n * 10 ^ r.used ≡ r.q * d + r.rem
  pub small : r.rem < d
  pub within : r.used ≤ precision
  pub complete : (r.rem ≡ 0) ⊎ ((r.used ≡ precision) ⊎ (limit < r.q * 10 + r.rem * 10 / d))
  pub bounded : n / d ≤ limit → r.q ≤ limit

-- The variables of the loop stand for the dividend, scaled by the digits produced so far.
record Carries (n d q rem used : ℕ) : Type 0 where
  scaled : n * 10 ^ used ≡ q * d + rem
  below : rem < d
  held : n / d ≤ limit → q ≤ limit

Carries-step :
    (n d q rem used : ℕ) (out : ℕ × ℕ)
    → Carries n d q rem used
    → IsDigit rem d out
    → q * 10 ≤ limit - min out.0 9
    → Carries n d (q * 10 + min out.0 9) out.1 (used + 1)
Carries-step n d q rem used out c (e, small, le) h =
    let nine : min out.0 9 ≡ out.0 = omega arith in
    let power : 10 ^ (used + 1) ≡ 10 ^ used * 10 = rw add-one (pow-suc 10 used) in
    record {
      scaled =
          rw (power, nine)
            (omega (arith, e, ap (λ (t : ℕ). t * 10) c.scaled, mul_assoc n (10 ^ used) 10));
      below = small;
      held = λ _. omega arith;
    }

module _ (n d precision : ℕ) (hd : d ≤ 9223372036854775808) where
  -- Leaving the loop for one of the three reasons.
  stops :
      (q rem used : ℕ)
      → Carries n d q rem used
      → used ≤ precision
      → (rem ≡ 0) ⊎ ((used ≡ precision) ⊎ (limit < q * 10 + rem * 10 / d))
      → IsQuotient n d precision (quotient q rem used)
  stops q rem used c u why = record {
    exact = c.scaled;
    small = c.below;
    within = u;
    complete = why;
    bounded = c.held;
  }

  divide_loop-IsQuotient :
      (k q rem used : ℕ)
      → Carries n d q rem used
      → used + k ≡ precision
      → IsQuotient n d precision (divide_loop d k q rem used)
  unfolding divide_loop
  divide_loop-IsQuotient zero q rem used c u =
      stops q rem used c (omega arith) (inr (inl (omega arith)))
  divide_loop-IsQuotient (suc k) q rem used c u =
      let out = next_digit rem d in
      let digit = next_digit-IsDigit rem d c.below hd in
      if_split (IsQuotient n d precision) (rem == 0)
        (λ z. stops q rem used c (omega arith) (inl (ground arith)))
        λ _.
          if_split (IsQuotient n d precision) (ltb (limit / 10) q)
            (λ t. stops q rem used c (omega arith) (inr (inr (omega (arith, ltb→lt _ _ t)))))
            λ _.
              if_split (IsQuotient n d precision) (ltb (limit - min out.0 9) (q * 10))
                (λ t.
                  stops q rem used c (omega arith)
                    (inr (inr (omega (arith, ltb→lt _ _ t, digit, digit-eq d rem out digit)))))
                λ t.
                  divide_loop-IsQuotient k (q * 10 + min out.0 9) out.1 (used + 1)
                    (Carries-step n d q rem used out c digit (ltb→le _ _ t)) (omega arith)

-- What `divScaled` promises of a call with a non-zero divisor: a failure only if the integer part
-- passes INT64_MAX; else the digits of the quotient, cut towards zero, with the quotient's sign.
abbrev pub DivResult : ℤ → ℤ → ℕ → Option (ℤ × ℕ) → Type 0
DivResult num den precision none = limit < abs num / abs den
DivResult num den precision (some (z, used)) =
    (rem : ℕ) × IsQuotient (abs num) (abs den) precision (quotient (abs z) rem used)
    × (z ≡ signed (xor_sign (is_neg num) (is_neg den)) (abs z))

finish-DivResult :
    (num den : ℤ) (precision : ℕ) (r : Quotient)
    → IsQuotient (abs num) (abs den) precision r
    → DivResult num den precision (finish (xor_sign (is_neg num) (is_neg den)) r)
unfolding finish
finish-DivResult num den precision r h =
    if_split (DivResult num den precision) (ltb limit r.q)
      (λ over. elim (dec_le (abs num / abs den) limit) [
        | yes p ↦ absurd (omega (arith, h.bounded p, ltb→lt _ _ over))
        | no p ↦ omega arith
      ])
      (λ _. (r.rem, rw abs-signed h, rw abs-signed refl))

-- The long division of two coefficients of an int64_t by a divisor other than zero fails only if
-- the integer part of the quotient is beyond INT64_MAX; else it returns the digits of the
-- quotient, cut towards zero, with the sign of the quotient, as many as asked for unless the rest
-- is zero or one more digit would not fit.
pub div_scaled-DivResult :
    (num den : ℤ) (precision : ℕ)
    → IsI64 num
    → IsI64 den
    → 0 < abs den
    → DivResult num den precision (div_scaled num den precision)
unfolding div_scaled
div_scaled-DivResult num den precision hn hd z =
    if_split (DivResult num den precision) (eqb_ℤ den (pos 0)) (λ e. absurd (ground arith))
      λ _. finish-DivResult num den precision _ (
        divide_loop-IsQuotient (abs num) (abs den) precision (ground arith) precision _ _ 0 start
          (omega arith))
  where
    start : Carries (abs num) (abs den) (abs num / abs den) (abs num % abs den) 0
    start = record {
      scaled = omega (arith, div-add-mod' (abs num) (abs den));
      below = mod-lt _ z;
      held = λ h. h;
    }
