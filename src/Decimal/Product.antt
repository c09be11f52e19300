-- ===== src/Decimal/Product.antt =====
-- Products, quotients and remainders of decimals.
use saqut.Prelude.{◌<◌, ◌≡◌, ◌⊎◌, inl, inr, ap, ◌∙◌, some}
use saqut.Prelude.Int.{ℤ, abs, ◌+ℤ◌, ◌*ℤ◌, ◌≤ℤ◌}
use saqut.Prelude.Word.{int32}
use saqut.DecimalCore.{IsI64}
use saqut.DecimalCore.Checked.{mul_ov_lem, fits_sym-cases}
use saqut.Decimal.{DecimalValue, decimal, overflow, checked, mul}
use saqut.Decimal.Scale.{units}
use saqut.Decimal.Normal.{GrowsBy, int32-GrowsBy, normalize-units}

-- For coefficients of an int64_t and exponents whose sum has room in an int32_t to grow by 20, a
-- product is exact, in units of any 10^m for an m up to the sum of the exponents, or it is the
-- overflow, and then the product of the coefficients is beyond INT64_MAX in absolute value.
pub mul-exact :
    (a b : DecimalValue) (m : ℤ)
    → IsI64 a.coeff
    → IsI64 b.coeff
    → m ≤ℤ a.exp +ℤ b.exp
    → GrowsBy 20 (a.exp +ℤ b.exp)
    → ((mul a b ≡ overflow) × (9223372036854775807 < abs (a.coeff *ℤ b.coeff)))
      ⊎ (units m (mul a b) ≡ units m (decimal (a.coeff *ℤ b.coeff) (a.exp +ℤ b.exp)))
unfolding mul
mul-exact a b m ha hb h g =
    let e : ℤ = a.exp +ℤ b.exp in
    let same : int32 e ≡ e = int32-GrowsBy e g in
    elim (fits_sym-cases (a.coeff *ℤ b.coeff)) [
      | inl (p, big) ↦ inl (ap (λ o. checked o (int32 e)) (mul_ov_lem _ _ ha hb ∙ p), big)
      | inr (p, small) ↦ inr (
          ap (λ o. units m (checked o (int32 e))) (mul_ov_lem _ _ ha hb ∙ p)
          ∙ ap (λ x. units m (checked (some (a.coeff *ℤ b.coeff)) x)) same
          ∙ normalize-units m (decimal (a.coeff *ℤ b.coeff) (a.exp +ℤ b.exp)) h g)
    ]
