-- ===== src/DecimalCore/Compare.antt =====
-- `compareScaled` and the order of the exact values.
use native.Mathlib.Nat.{pow-le-pow_right, pow-suc, one-le-pow, mul_assoc}
use saqut.Prelude.{
  ℕ, suc, ◌-◌, ◌*◌, ◌^◌, ◌≤◌, ◌<◌, ◌≡◌, sym, ap, ◌∙◌, true, false, arith, if◌then◌else◌, if_split,
  Bool-cases, inl, inr, ltb→lt,
}
use saqut.Prelude.Int.{ℤ, pos, negsuc, pos_part, abs, is_neg, ltb_ℤ, ◌*ℤ◌, ◌-ℤ◌, neg_ℤ, -ℤ_parts}
use saqut.Prelude.Word.{int32, int32-IsI32}
use saqut.DecimalCore.{IsI64, sign_of, compare_left, compare_right, compare_scaled}
use saqut.DecimalCore.Checked.{
  zero-scaled, one-scaled, abs-*ℤ, is_neg-*ℤ-pos, scale10-suc_lem, le-mul_pos,
}

-- The order of a × 10^a_exp and b × 10^b_exp, scaled exactly to the smaller exponent.
abbrev pub compare_exact : ℤ → ℤ → ℤ → ℤ → ℤ
compare_exact a a_exp b b_exp =
    if ltb_ℤ b_exp a_exp
    then sign_of (a *ℤ pos (10 ^ pos_part (a_exp -ℤ b_exp))) b
    else sign_of a (b *ℤ pos (10 ^ pos_part (b_exp -ℤ a_exp)))

beyond : ℤ → ℤ
beyond z = if is_neg z then negsuc 0 else pos 1

sign_of-beyond : (x b : ℤ) → abs b < abs x → is_neg x ≡ is_neg b → sign_of x b ≡ beyond b
unfolding beyond
sign_of-beyond x b h s = ground arith

-- A multiple of ten above INT64_MAX is above 2^63 too.
past_min : (k : ℕ) → 9223372036854775807 < k * 10 → 9223372036854775808 < k * 10
past_min k h = omega arith

scaled_past :
    (a : ℤ) (n : ℕ)
    → 9223372036854775807 < abs (a *ℤ pos (10 ^ suc n))
    → 9223372036854775808 < abs (a *ℤ pos (10 ^ suc n))
scaled_past a n = rw (abs-*ℤ a (pos (10 ^ suc n)), pow-suc, ← mul_assoc) (past_min (abs a * 10 ^ n))

scaled_far :
    (a : ℤ) (diff : ℕ) → 0 < abs a → 18 < diff → 9223372036854775808 < abs (a *ℤ pos (10 ^ diff))
scaled_far a diff z h = rw (abs-*ℤ a (pos (10 ^ diff))) (
    omega (
      arith,
      pow-le-pow_right {n = 10} (omega arith) {i = 19} {j = diff} h,
      le-mul_pos (10 ^ diff) (abs a) z,
    ))

sign_of-scaled :
    (a b : ℤ) (n : ℕ)
    → IsI64 b
    → is_neg a ≡ is_neg b
    → 9223372036854775808 < abs (a *ℤ pos (10 ^ suc n))
    → sign_of (a *ℤ pos (10 ^ suc n)) b ≡ beyond a
unfolding beyond
sign_of-scaled a b n hb s h = ground (
  arith,
  sign_of-beyond (a *ℤ pos (10 ^ suc n)) b,
  is_neg-*ℤ-pos a (10 ^ suc n) (one-le-pow (suc n) 10 (omega arith)),
)

module _ (a b : ℤ) (n : ℕ) (ha : IsI64 a) (hb : IsI64 b) (s : is_neg a ≡ is_neg b) where
  compare_left_lem : 0 < abs a → compare_left a b (suc n) ≡ sign_of (a *ℤ pos (10 ^ suc n)) b
  unfolding compare_left beyond
  compare_left_lem z = ground (
    arith,
    scale10-suc_lem a n ha,
    scaled_past a n,
    scaled_far a (suc n) z,
    sign_of-scaled a b n hb s,
  )

sign_of-swap : (x y : ℤ) → neg_ℤ (sign_of x y) ≡ sign_of y x
sign_of-swap x y = ground arith

compare_right-swap : (a b : ℤ) (diff : ℕ) → compare_right a b diff ≡ neg_ℤ (compare_left b a diff)
unfolding compare_left compare_right
compare_right-swap a b diff = ground arith

compare_right_lem :
    (a b : ℤ) (n : ℕ)
    → IsI64 a
    → IsI64 b
    → is_neg a ≡ is_neg b
    → 0 < abs b
    → compare_right a b (suc n) ≡ sign_of a (b *ℤ pos (10 ^ suc n))
compare_right_lem a b n ha hb s z =
    compare_right-swap a b (suc n)
    ∙ ap neg_ℤ (compare_left_lem b a n hb ha (sym s) z)
    ∙ sign_of-swap (b *ℤ pos (10 ^ suc n)) a

-- A positive difference of exponents, as the `suc` of a number.
pub gap : (x y : ℤ) → ltb_ℤ y x ≡ true → pos_part (x -ℤ y) ≡ suc (pos_part (x -ℤ y) - 1)
gap x y h = omega (arith, -ℤ_parts x y, ltb→lt _ _ h)

pub no_gap : (x y : ℤ) → ltb_ℤ y x ≡ false → ltb_ℤ x y ≡ false → pos_part (x -ℤ y) ≡ 0
unfolding ◌-ℤ◌
no_gap x y h k = ground arith

-- The difference of two exponents is a value of an int32_t, and so is the opposite one.
abbrev pub IsNear : ℤ → ℤ → Type 0
IsNear x y = abs (x -ℤ y) ≤ 2147483647

pub IsNear-swap : (x y : ℤ) → IsNear x y → IsNear y x
unfolding ◌-ℤ◌
IsNear-swap x y h = ground arith

pub int32-IsNear : (x y : ℤ) → IsNear x y → int32 (x -ℤ y) ≡ x -ℤ y
int32-IsNear x y h = int32-IsI32 (x -ℤ y) (ground arith)

pub int32_gap :
    (x y : ℤ)
    → IsNear x y
    → ltb_ℤ y x ≡ true
    → pos_part (int32 (x -ℤ y)) ≡ suc (pos_part (x -ℤ y) - 1)
int32_gap x y near h = ap pos_part (int32-IsNear x y near) ∙ gap x y h

module _ (a b : ℤ) (ha : IsI64 a) (hb : IsI64 b) where
  compare_scaled-left :
      (a_exp b_exp : ℤ) (n : ℕ)
      → ltb_ℤ b_exp a_exp ≡ true
      → pos_part (int32 (a_exp -ℤ b_exp)) ≡ suc n
      → compare_scaled a a_exp b b_exp ≡ sign_of (a *ℤ pos (10 ^ suc n)) b
  unfolding compare_scaled
  compare_scaled-left a_exp b_exp n h e = ground (
    arith,
    compare_left_lem a b n ha hb,
    zero-scaled (10 ^ suc n),
    is_neg-*ℤ-pos a (10 ^ suc n) (one-le-pow (suc n) 10 (omega arith)),
    abs-*ℤ a (pos (10 ^ suc n)),
    le-mul_pos (abs a) (10 ^ suc n) (one-le-pow (suc n) 10 (omega arith)),
  )

  compare_scaled-right :
      (a_exp b_exp : ℤ) (n : ℕ)
      → ltb_ℤ a_exp b_exp ≡ true
      → pos_part (int32 (b_exp -ℤ a_exp)) ≡ suc n
      → compare_scaled a a_exp b b_exp ≡ sign_of a (b *ℤ pos (10 ^ suc n))
  unfolding compare_scaled
  compare_scaled-right a_exp b_exp n h e = ground (
    arith,
    compare_right_lem a b n ha hb,
    zero-scaled (10 ^ suc n),
    is_neg-*ℤ-pos b (10 ^ suc n) (one-le-pow (suc n) 10 (omega arith)),
    abs-*ℤ b (pos (10 ^ suc n)),
    le-mul_pos (abs b) (10 ^ suc n) (one-le-pow (suc n) 10 (omega arith)),
  )

  compare_scaled-same :
      (a_exp b_exp : ℤ)
      → ltb_ℤ a_exp b_exp ≡ false
      → ltb_ℤ b_exp a_exp ≡ false
      → compare_scaled a a_exp b b_exp ≡ sign_of a (b *ℤ pos (10 ^ pos_part (b_exp -ℤ a_exp)))
  unfolding compare_scaled
  compare_scaled-same a_exp b_exp h k = rw (no_gap b_exp a_exp h k, one-scaled b) (ground arith)

  -- For coefficients of an int64_t and exponents whose difference an int32_t holds with both
  -- signs, `compareScaled` answers by the order of the exact values.
  pub compare_scaled_lem :
      (a_exp b_exp : ℤ)
      → IsNear a_exp b_exp
      → compare_scaled a a_exp b b_exp ≡ compare_exact a a_exp b b_exp
  compare_scaled_lem a_exp b_exp near =
      if_split (λ r. compare_scaled a a_exp b b_exp ≡ r) (ltb_ℤ b_exp a_exp)
        (λ h.
          rw (gap a_exp b_exp h)
            (compare_scaled-left a_exp b_exp _ h (int32_gap a_exp b_exp near h)))
        λ k. elim (Bool-cases (ltb_ℤ a_exp b_exp)) [
          | inl h ↦ rw (gap b_exp a_exp h) (
              compare_scaled-right a_exp b_exp _ h
                (int32_gap b_exp a_exp (IsNear-swap a_exp b_exp near) h))
          | inr h ↦ compare_scaled-same a_exp b_exp h k
        ]
