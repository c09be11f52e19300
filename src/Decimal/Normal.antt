-- ===== src/Decimal/Normal.antt =====
-- `normalize` and the normal form.
use native.Mathlib.Nat.{one-le-pow, mul_assoc, pow-suc, pow-succ'}
use saqut.Prelude.{
  ℕ, zero, suc, ◌+◌, ◌≤◌, ◌*◌, ◌/◌, ◌%◌, ◌^◌, ◌<◌, ◌≡◌, ◌≢◌, ◌⊎◌, inl, inr, refl, sym, ap, ◌∙◌,
  true, false, arith, if_split, Bool-cases, ltb→lt,
}
use saqut.Prelude.Int.{
  ℤ, pos, pos_part, neg_part, abs, div_ℤ, mod_ℤ, eqb_ℤ, ◌+ℤ◌, ◌-ℤ◌, ◌*ℤ◌, ◌≤ℤ◌, ◌<ℤ◌, ltb_ℤ,
  +ℤ_parts,
}
use saqut.Prelude.Word.{int32, int32-IsI32}
use saqut.DecimalCore.{IsI64, sign_of}
use saqut.DecimalCore.Checked.{abs-*ℤ, le-mul_pos, zero-scaled, one-scaled, *ℤ-pos-mul}
use saqut.DecimalCore.Compare.{IsNear, compare_exact, compare_scaled_lem, gap, no_gap}
use saqut.Decimal.{compare, DecimalValue, decimal, strip_zeros, normalize}
use saqut.Decimal.Scale.{units}

-- An exponent of an int32_t that can grow by `n` without overflow.
abbrev pub GrowsBy : ℕ → ℤ → Type 0
GrowsBy n e = (neg_part e ≤ 2147483648) × (pos_part e + n ≤ 2147483647)

-- No trailing zero is left in the coefficient, and zero has the exponent zero.
abbrev pub IsNormal : DecimalValue → Type 0
IsNormal d = ((d.coeff ≡ pos 0) × (d.exp ≡ pos 0)) ⊎ (abs d.coeff % 10 ≢ 0)

ends_in_zero : (c : ℤ) → eqb_ℤ (mod_ℤ c (pos 10)) (pos 0) ≡ true → div_ℤ c (pos 10) *ℤ pos 10 ≡ c
unfolding mod_ℤ div_ℤ ◌*ℤ◌
ends_in_zero c h = ground arith

not_zero_end : (c : ℤ) → eqb_ℤ (mod_ℤ c (pos 10)) (pos 0) ≡ false → abs c % 10 ≢ 0
unfolding mod_ℤ
not_zero_end c h = ground arith

abs-div_ten : (c : ℤ) → abs (div_ℤ c (pos 10)) ≡ abs c / 10
unfolding div_ℤ
abs-div_ten c = ground arith

next_gap : (e m : ℤ) → m ≤ℤ e → pos_part (e +ℤ pos 1 -ℤ m) ≡ suc (pos_part (e -ℤ m))
unfolding ◌+ℤ◌ ◌-ℤ◌
next_gap e m h = ground arith

pub int32-GrowsBy : (e : ℤ) → GrowsBy 20 e → int32 e ≡ e
int32-GrowsBy e h = int32-IsI32 e (h.0, omega (arith, h.1))

int32-next : (e : ℤ) → GrowsBy 1 e → int32 (e +ℤ pos 1) ≡ e +ℤ pos 1
unfolding ◌+ℤ◌
int32-next e h = int32-IsI32 (e +ℤ pos 1) (ground arith)

GrowsBy-next : (n : ℕ) (e : ℤ) → GrowsBy (suc n) e → GrowsBy n (e +ℤ pos 1)
unfolding ◌+ℤ◌
GrowsBy-next n e h = ground arith

units-div_ten :
    (c e m : ℤ)
    → m ≤ℤ e
    → GrowsBy 1 e
    → eqb_ℤ (mod_ℤ c (pos 10)) (pos 0) ≡ true
    → units m (decimal (div_ℤ c (pos 10)) (int32 (e +ℤ pos 1))) ≡ units m (decimal c e)
units-div_ten c e m h g t =
    let k = pos_part (e -ℤ m) in
    rw (
      int32-next e g,
      next_gap e m h,
      pow-succ' 10 k,
      ← *ℤ-pos-mul (div_ℤ c (pos 10)) 10 (10 ^ k) (omega arith),
      ends_in_zero c t,
    )

le-next : (m e : ℤ) → m ≤ℤ e → m ≤ℤ e +ℤ pos 1
le-next m e h = omega (arith, +ℤ_parts e (pos 1))

module _ (m : ℤ) where
  -- The loop keeps the value and lowers no exponent.
  strip_zeros-units :
      (fuel : ℕ) (c e : ℤ)
      → m ≤ℤ e
      → GrowsBy fuel e
      → (units m (strip_zeros fuel c e) ≡ units m (decimal c e)) × (m ≤ℤ (strip_zeros fuel c e).exp)
  unfolding strip_zeros
  strip_zeros-units zero c e h g = (refl, h)
  strip_zeros-units (suc fuel) c e h g =
      if_split (λ (d : DecimalValue). (units m d ≡ units m (decimal c e)) × (m ≤ℤ d.exp))
        (eqb_ℤ (mod_ℤ c (pos 10)) (pos 0))
        (λ t.
          let one : GrowsBy 1 e = (g.0, omega (arith, g.1)) in
          let step : m ≤ℤ int32 (e +ℤ pos 1) = rw (int32-next e one) (le-next m e h) in
          let room : GrowsBy fuel (int32 (e +ℤ pos 1)) =
            rw (int32-next e one) (GrowsBy-next fuel e g) in
          let ih = strip_zeros-units fuel (div_ℤ c (pos 10)) (int32 (e +ℤ pos 1)) step room in
          (ih.0 ∙ units-div_ten c e m h one t, ih.1))
        (λ _. (refl, h))

  zero_units :
      (c e e' : ℤ) → eqb_ℤ c (pos 0) ≡ true → units m (decimal c e') ≡ units m (decimal c e)
  zero_units c e e' z = let p : c ≡ pos 0 = ground arith in rw (p, zero-scaled) (rw zero-scaled)

  -- Normalizing keeps the exact value, in units of 10^m for every m up to the exponent.
  pub normalize-units :
      (d : DecimalValue) → m ≤ℤ d.exp → GrowsBy 20 d.exp → units m (normalize d) ≡ units m d
  unfolding normalize
  normalize-units d h g =
      if_split (λ r. units m r ≡ units m d) (eqb_ℤ d.coeff (pos 0))
        (λ z. zero_units d.coeff d.exp (pos 0) z) (λ _. (strip_zeros-units 20 d.coeff d.exp h g).0)

zero_end : (c : ℤ) → eqb_ℤ (mod_ℤ c (pos 10)) (pos 0) ≡ true → abs c % 10 ≡ 0
unfolding mod_ℤ
zero_end c h = ground arith

strip_zeros-IsNormal :
    (fuel : ℕ) (c e : ℤ) → 0 < abs c → abs c < 10 ^ fuel → abs (strip_zeros fuel c e).coeff % 10 ≢ 0
unfolding strip_zeros
strip_zeros-IsNormal zero c e z h = absurd (omega arith)
strip_zeros-IsNormal (suc fuel) c e z h =
    if_split (λ (d : DecimalValue). abs d.coeff % 10 ≢ 0) (eqb_ℤ (mod_ℤ c (pos 10)) (pos 0))
      (λ t.
        strip_zeros-IsNormal fuel (div_ℤ c (pos 10)) (int32 (e +ℤ pos 1))
          (omega (arith, abs-div_ten c, zero_end c t))
          (omega (arith, abs-div_ten c, pow-suc 10 fuel)))
      (λ t. not_zero_end c t)

-- Normalizing a decimal with a coefficient of an int64_t gives a normal one: zero with the
-- exponent zero, or a coefficient that ten does not divide.
pub normalize-IsNormal : (d : DecimalValue) → IsI64 d.coeff → IsNormal (normalize d)
unfolding normalize
normalize-IsNormal d h =
    if_split IsNormal (eqb_ℤ d.coeff (pos 0)) (λ z. inl (ground arith, refl))
      (λ t. inr (strip_zeros-IsNormal 20 d.coeff d.exp (ground arith) (ground arith)))

sign_of-zero : (x y : ℤ) → sign_of x y ≡ pos 0 → x ≡ y
sign_of-zero x y h = ground arith

-- A normal coefficient is no multiple of a power of ten, so the greater exponent is not matched.
not_shifted :
    (a b : DecimalValue) (n : ℕ)
    → IsNormal a
    → IsNormal b
    → a.coeff *ℤ pos (10 ^ suc n) ≡ b.coeff
    → ¬ (b.exp <ℤ a.exp)
not_shifted a b n ha (inr hb) e lt =
    hb (rw (← e, abs-*ℤ a.coeff (pos (10 ^ suc n)), pow-suc, ← mul_assoc) (omega arith))
not_shifted a b n (inl ha) (inl hb) e lt =
    omega (arith, ap pos_part ha.1, ap neg_part ha.1, ap pos_part hb.1, ap neg_part hb.1)
not_shifted a b n (inr ha) (inl hb) e lt =
    let size : abs a.coeff * 10 ^ suc n ≡ 0 =
      sym (abs-*ℤ a.coeff (pos (10 ^ suc n))) ∙ ap abs (e ∙ hb.0) in
    ha (
      omega
        (arith, size, le-mul_pos (abs a.coeff) (10 ^ suc n) (one-le-pow (suc n) 10 (omega arith))))

exact_left :
    (a b : DecimalValue)
    → ltb_ℤ b.exp a.exp ≡ true
    → compare_exact a.coeff a.exp b.coeff b.exp ≡ pos 0
    → a.coeff *ℤ pos (10 ^ pos_part (a.exp -ℤ b.exp)) ≡ b.coeff
exact_left a b t h = sign_of-zero _ _ (rw t at h)

exact_right :
    (a b : DecimalValue)
    → ltb_ℤ b.exp a.exp ≡ false
    → compare_exact a.coeff a.exp b.coeff b.exp ≡ pos 0
    → b.coeff *ℤ pos (10 ^ pos_part (b.exp -ℤ a.exp)) ≡ a.coeff
exact_right a b t h = sym (sign_of-zero _ _ (rw t at h))

-- Two normal decimals with coefficients of an int64_t, and exponents whose difference an int32_t
-- holds with both signs, that compare equal are the same coefficient and exponent.
pub IsNormal-unique :
    (a b : DecimalValue)
    → IsI64 a.coeff
    → IsI64 b.coeff
    → IsNormal a
    → IsNormal b
    → IsNear a.exp b.exp
    → compare a b ≡ pos 0
    → a ≡ b
unfolding compare
IsNormal-unique a b ha hb na nb near h =
    let exact : compare_exact a.coeff a.exp b.coeff b.exp ≡ pos 0 =
      sym (compare_scaled_lem a.coeff b.coeff ha hb a.exp b.exp near) ∙ h in
    elim (Bool-cases (ltb_ℤ b.exp a.exp)) [
      | inl t ↦ absurd (
          not_shifted a b _ na nb (rw (gap a.exp b.exp t) at (exact_left a b t exact))
            (ltb→lt _ _ t))
      | inr t ↦ elim (Bool-cases (ltb_ℤ a.exp b.exp)) [
        | inl u ↦ absurd (
            not_shifted b a _ nb na (rw (gap b.exp a.exp u) at (exact_right a b t exact))
              (ltb→lt _ _ u))
        | inr u ↦
            same_value a b (rw (no_gap b.exp a.exp u t, one-scaled) at (exact_right a b t exact))
              (ground arith)
      ]
    ]
  where
    same_value : (a b : DecimalValue) → b.coeff ≡ a.coeff → a.exp ≡ b.exp → a ≡ b
    same_value a b p q = cc
