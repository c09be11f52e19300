-- ===== src/DecimalCore/Checked.antt =====
-- What the checked primitives of src/data/decimal_core.hpp return.
use native.Mathlib.Nat.{
  div-lt_iff_lt-mul, mul_comm, zero-mul, mul-zero, pow-succ', mul_assoc, one-le-pow, mul-one,
}
use saqut.Prelude.{
  ℕ, zero, suc, ◌*◌, ◌/◌, ◌^◌, ◌≤◌, ◌<◌, ◌≡◌, ◌↔◌, ◌⊎◌, inl, inr, refl, Bool, true, false, Option,
  none, some, arith, leb, if◌then◌else◌, dec_lt, if_split,
}
use saqut.Prelude.Int.{
  ℤ, pos, negsuc, pos_part, neg_part, abs, ◌+ℤ◌, ◌-ℤ◌, ◌*ℤ◌, neg_ℤ, signed, is_neg,
}
use saqut.DecimalCore.{IsI64, add_ov, neg_ov, mul_ov, scale10}

abbrev pub fits : ℤ → Option ℤ
fits z =
    if leb (pos_part z) 9223372036854775807
    then (if leb (neg_part z) 9223372036854775808 then some z else none)
    else none

-- For values of an int64_t, the checked sum is returned exactly where it is a value of an
-- int64_t.
pub add_ov_lem : (a b : ℤ) → IsI64 a → IsI64 b → add_ov a b ≡ fits (a +ℤ b)
unfolding add_ov ◌+ℤ◌ ◌-ℤ◌
add_ov_lem a b ha hb = ground arith

pub neg_ov_lem : (a : ℤ) → IsI64 a → neg_ov a ≡ fits (neg_ℤ a)
unfolding neg_ov
neg_ov_lem a ha = ground arith

div-lt : (m a b : ℕ) → 0 < b → (m / b < a) ↔ (m < a * b)
div-lt m a b h = div-lt_iff_lt-mul h

pub le-mul_pos : (a b : ℕ) → 0 < b → a ≤ a * b
le-mul_pos a b h = grind arith

abbrev pub fits_sym : ℤ → Option ℤ
fits_sym z = if leb (abs z) 9223372036854775807 then some z else none

pub abs-signed : (s : Bool) (n : ℕ) → abs (signed s n) ≡ n
abs-signed true n = ground arith
abs-signed false n = refl

pub abs-*ℤ : (a b : ℤ) → abs (a *ℤ b) ≡ abs a * abs b
unfolding ◌*ℤ◌
abs-*ℤ a b = abs-signed _ _

zero-*ℤ : (a b : ℤ) → (abs a ≡ 0) ⊎ (abs b ≡ 0) → a *ℤ b ≡ pos 0
unfolding ◌*ℤ◌
zero-*ℤ a b (inl e) = rw (e, zero-mul) (ground arith)
zero-*ℤ a b (inr e) = rw (e, mul-zero) (ground arith)

-- Where both factors are not zero the division test is the bound on the product.
mul_ov_nonzero :
    (a b : ℤ) → IsI64 a → IsI64 b → 0 < abs a → 0 < abs b → mul_ov a b ≡ fits_sym (a *ℤ b)
unfolding mul_ov
mul_ov_nonzero a b ha hb za zb = ground (
  arith,
  abs-*ℤ a b,
  div-lt 9223372036854775807 (abs a) (abs b) zb,
  le-mul_pos (abs a) (abs b) zb,
  le-mul_pos (abs b) (abs a) za,
  mul_comm (abs a) (abs b),
)

mul_ov_zero : (a b : ℤ) → (abs a ≡ 0) ⊎ (abs b ≡ 0) → mul_ov a b ≡ fits_sym (a *ℤ b)
unfolding mul_ov
mul_ov_zero a b h = rw (zero-*ℤ a b h) (ground arith)

-- For values of an int64_t, the checked product is returned exactly where the absolute value of
-- the product is at most INT64_MAX.
pub mul_ov_lem : (a b : ℤ) → IsI64 a → IsI64 b → mul_ov a b ≡ fits_sym (a *ℤ b)
mul_ov_lem a b ha hb = elim (dec_lt 0 (abs a)) [
  | no z ↦ mul_ov_zero a b (inl (omega arith))
  | yes za ↦ elim (dec_lt 0 (abs b)) [
    | no z ↦ mul_ov_zero a b (inr (omega arith))
    | yes zb ↦ mul_ov_nonzero a b ha hb za zb
  ]
]

pub *ℤ-pos : (a : ℤ) (k : ℕ) → a *ℤ pos k ≡ signed (is_neg a) (abs a * k)
unfolding ◌*ℤ◌
*ℤ-pos (pos n) k = refl
*ℤ-pos (negsuc n) k = refl

is_neg-signed : (n : ℕ) → 0 < n → is_neg (signed true n) ≡ true
is_neg-signed n h = ground arith

pub is_neg-*ℤ-pos : (a : ℤ) (k : ℕ) → 0 < k → is_neg (a *ℤ pos k) ≡ is_neg a
is_neg-*ℤ-pos (pos n) k h = rw (*ℤ-pos (pos n) k) refl
is_neg-*ℤ-pos (negsuc n) k h = rw (*ℤ-pos (negsuc n) k) (is_neg-signed (suc n * k) (grind arith))

pub *ℤ-pos-mul : (a : ℤ) (k n : ℕ) → 0 < k → a *ℤ pos k *ℤ pos n ≡ a *ℤ pos (k * n)
*ℤ-pos-mul a k n h =
    rw (*ℤ-pos (a *ℤ pos k) n, is_neg-*ℤ-pos a k h, abs-*ℤ a (pos k), *ℤ-pos a (k * n), mul_assoc)

abbrev pub IsSym : ℤ → Type 0
IsSym a = abs a ≤ 9223372036854775807

pub one-scaled : (a : ℤ) → a *ℤ pos 1 ≡ a
one-scaled a = rw (*ℤ-pos a 1, mul-one) (ground arith)

pub zero-scaled : (k : ℕ) → pos 0 *ℤ pos k ≡ pos 0
zero-scaled k = rw (*ℤ-pos, zero-mul)

fits_sym-some : (z : ℤ) → IsSym z → fits_sym z ≡ some z
fits_sym-some z h = ground arith

fits_sym-none : (z : ℤ) → 9223372036854775807 < abs z → fits_sym z ≡ none
fits_sym-none z h = ground arith

IsSym-IsI64 : (z : ℤ) → IsSym z → IsI64 z
IsSym-IsI64 z h = ground arith

abs-scale_mono : (a : ℤ) (n : ℕ) → abs (a *ℤ pos 10) ≤ abs (a *ℤ pos (10 ^ suc n))
abs-scale_mono a n =
    rw (abs-*ℤ a (pos 10), abs-*ℤ a (pos (10 ^ suc n)), pow-succ', ← mul_assoc)
      (le-mul_pos (abs a * 10) (10 ^ n) (one-le-pow n 10 (omega arith)))

scale10-suc :
    (a : ℤ) (n : ℕ)
    → IsI64 a
    → scale10 a (suc n)
      ≡ (if leb (abs (a *ℤ pos 10)) 9223372036854775807 then scale10 (a *ℤ pos 10) n else none)
unfolding scale10
scale10-suc a n h = ground (arith, mul_ov_lem a (pos 10) h)

-- For an absolute value up to INT64_MAX, scaling returns the product by the power of ten exactly
-- where its absolute value is at most INT64_MAX.
pub scale10_lem : (a : ℤ) (n : ℕ) → IsSym a → scale10 a n ≡ fits_sym (a *ℤ pos (10 ^ n))
scale10_lem a zero h = unfold scale10 in rw (one-scaled a, fits_sym-some a h)
scale10_lem a (suc n) h = ground (
  arith,
  scale10-suc a n (IsSym-IsI64 a h),
  scale10_lem (a *ℤ pos 10) n,
  *ℤ-pos-mul a 10 (10 ^ n),
  pow-succ' 10 n,
  abs-scale_mono a n,
)

-- The same of a positive power, for INT64_MIN too.
pub scale10-suc_lem :
    (a : ℤ) (n : ℕ) → IsI64 a → scale10 a (suc n) ≡ fits_sym (a *ℤ pos (10 ^ suc n))
scale10-suc_lem a n h = ground (
  arith,
  scale10-suc a n h,
  scale10_lem (a *ℤ pos 10) n,
  *ℤ-pos-mul a 10 (10 ^ n),
  pow-succ' 10 n,
  abs-scale_mono a n,
)

pub fits_sym-cases :
    (x : ℤ)
    → ((fits_sym x ≡ none) × (9223372036854775807 < abs x))
      ⊎ ((fits_sym x ≡ some x) × (abs x ≤ 9223372036854775807))
fits_sym-cases x =
    if_split
      (λ o.
        ((o ≡ none) × (9223372036854775807 < abs x))
        ⊎ ((o ≡ some x) × (abs x ≤ 9223372036854775807)))
      (leb (abs x) 9223372036854775807) (λ p. inr (refl, ground arith))
      (λ p. inl (refl, ground arith))
