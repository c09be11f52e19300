-- ===== src/Decimal/Difference.antt =====
-- Differences of decimals.
use saqut.Prelude.{
  ℕ, ◌*◌, ◌^◌, ◌≤◌, ◌<◌, ◌≡◌, ◌⊎◌, inl, inr, ap, ◌∙◌, true, false, arith, Bool-cases,
}
use native.Mathlib.Nat.{one-le-pow}
use saqut.Prelude.Int.{
  ℤ, pos, pos_part, neg_part, abs, neg_ℤ, ◌+ℤ◌, ◌-ℤ◌, ◌*ℤ◌, ◌≤ℤ◌, eqb_ℤ, eq_of_parts, int_laws,
}
use saqut.DecimalCore.{IsI64, i64_min, neg_ov}
use saqut.DecimalCore.Checked.{abs-*ℤ, le-mul_pos}
use saqut.Decimal.{DecimalValue, overflow, add, sub, neg}
use saqut.Decimal.Scale.{units, pos_part-*ℤ, neg_part-*ℤ}
use saqut.Decimal.Normal.{GrowsBy}
use saqut.Decimal.Sum.{min_exp, AddsTo, add-AddsTo}

neg_parts : (x : ℤ) → (pos_part (neg_ℤ x) ≡ neg_part x) × (neg_part (neg_ℤ x) ≡ pos_part x)
neg_parts x = ground arith

abs-neg : (x : ℤ) → abs (neg_ℤ x) ≡ abs x
abs-neg x = ground arith

-ℤ_neg : (x y : ℤ) → x +ℤ neg_ℤ y ≡ x -ℤ y
-ℤ_neg x y = omega (int_laws, neg_parts y)

units-neg : (m : ℤ) (d : DecimalValue) → units m (neg d) ≡ neg_ℤ (units m d)
unfolding neg
units-neg m d =
    let k : ℕ = 10 ^ pos_part (d.exp -ℤ m) in
    omega (
      arith,
      eq_of_parts,
      pos_part-*ℤ (neg_ℤ d.coeff) k,
      neg_part-*ℤ (neg_ℤ d.coeff) k,
      pos_part-*ℤ d.coeff k,
      neg_part-*ℤ d.coeff k,
      neg_parts (d.coeff *ℤ pos k),
      ap (λ (t : ℕ). t * k) (neg_parts d.coeff).0,
      ap (λ (t : ℕ). t * k) (neg_parts d.coeff).1,
    )

sub-neg :
    (a b : DecimalValue)
    → IsI64 b.coeff
    → eqb_ℤ b.coeff i64_min ≡ false
    → (sub a b ≡ add a (neg b)) × IsI64 (neg b).coeff
unfolding sub neg_ov neg
sub-neg a b hb e = ground arith

sub_min : (a b : DecimalValue) → eqb_ℤ b.coeff i64_min ≡ true → sub a b ≡ overflow
unfolding sub neg_ov
sub_min a b e = ground arith

-- What a difference is to return: the exact value, or the overflow, where an operand scaled to the smaller
-- exponent or the exact difference is out of range.
abbrev pub SubtractsTo : ℤ → DecimalValue → DecimalValue → DecimalValue → Type 0
SubtractsTo m a b r =
    let lo : ℤ = min_exp a b in
    ((r ≡ overflow)
      × ((9223372036854775807 < abs (units lo a))
          ⊎ ((9223372036854775807 < abs (units lo b))
              ⊎ (9223372036854775807 < abs (units lo a -ℤ units lo b)))))
    ⊎ (units m r ≡ units m a -ℤ units m b)

min_big :
    (lo : ℤ) (b : DecimalValue)
    → eqb_ℤ b.coeff i64_min ≡ true
    → 9223372036854775807 < abs (units lo b)
min_big lo b e =
    let k : ℕ = 10 ^ pos_part (b.exp -ℤ lo) in
    let size : abs b.coeff ≡ 9223372036854775808 = ground arith in
    rw (abs-*ℤ b.coeff (pos k)) (
      omega (
        arith,
        size,
        le-mul_pos (abs b.coeff) k (one-le-pow (pos_part (b.exp -ℤ lo)) 10 (omega arith)),
      ))

SubtractsTo-AddsTo : (m : ℤ) (a b r : DecimalValue) → AddsTo m a (neg b) r → SubtractsTo m a b r
unfolding neg
SubtractsTo-AddsTo m a b r (inl (o, inl x)) = inl (o, inl x)
SubtractsTo-AddsTo m a b r (inl (o, inr (inl x))) =
    let lo : ℤ = min_exp a b in inl (o, inr (inl (rw (units-neg lo b, abs-neg (units lo b)) at x)))
SubtractsTo-AddsTo m a b r (inl (o, inr (inr x))) =
    let lo : ℤ = min_exp a b in
    inl (o, inr (inr (rw (units-neg lo b, -ℤ_neg (units lo a) (units lo b)) at x)))
SubtractsTo-AddsTo m a b r (inr e) =
    inr (e ∙ ap (λ t. units m a +ℤ t) (units-neg m b) ∙ -ℤ_neg (units m a) (units m b))

-- For coefficients of an int64_t, INT64_MIN included, whose exponents are at most 18 apart and
-- each have room in an int32_t to grow by 20, a difference is exact, in units of any 10^m for an
-- m up to both exponents, or it is the overflow, and then a scaled operand or the difference is
-- beyond INT64_MAX in absolute value.
pub sub-SubtractsTo :
    (a b : DecimalValue) (m : ℤ)
    → IsI64 a.coeff
    → IsI64 b.coeff
    → pos_part (a.exp -ℤ b.exp) ≤ 18
    → pos_part (b.exp -ℤ a.exp) ≤ 18
    → m ≤ℤ a.exp
    → m ≤ℤ b.exp
    → GrowsBy 20 a.exp
    → GrowsBy 20 b.exp
    → SubtractsTo m a b (sub a b)
unfolding neg
sub-SubtractsTo a b m ha hb near_left near_right la lb ga gb =
    elim (Bool-cases (eqb_ℤ b.coeff i64_min)) [
      | inl e ↦ inl (sub_min a b e, inr (inl (min_big (min_exp a b) b e)))
      | inr e ↦
          let (path, fits) = sub-neg a b hb e in
          rw path (
            SubtractsTo-AddsTo m a b (add a (neg b))
              (add-AddsTo a (neg b) m ha fits near_left near_right la lb ga gb))
    ]
