-- ===== src/Decimal/Far.antt =====
-- Sums of decimals whose exponents are more than 18 apart.
use saqut.Prelude.{
  ◌^◌, ◌<◌, ◌≡◌, ◌≢◌, inl, inr, sym, ap, ◌∙◌, true, false, arith, if◌then◌else◌, Bool-cases,
}
use native.Mathlib.Nat.{one-le-pow}
use saqut.Prelude.Int.{ℤ, pos, pos_part, neg_part, abs, ◌+ℤ◌, ◌-ℤ◌, ◌≤ℤ◌, ltb_ℤ, int_laws}
use saqut.DecimalCore.Checked.{abs-*ℤ, le-mul_pos}
use saqut.DecimalCore.Compare.{IsNear, IsNear-swap, int32-IsNear}
use saqut.Decimal.{DecimalValue, add}
use saqut.Decimal.Scale.{units}
use saqut.Decimal.Normal.{GrowsBy, normalize-units}
use saqut.Decimal.Branches.{add_far_left, add_far_right}

-- The operand of the greater exponent, and the other one.
abbrev pub greater : DecimalValue → DecimalValue → DecimalValue
greater a b = if ltb_ℤ b.exp a.exp then a else b

abbrev pub smaller : DecimalValue → DecimalValue → DecimalValue
smaller a b = if ltb_ℤ b.exp a.exp then b else a

-- The sum keeps the value of the operand of the greater exponent, and is not the exact sum.
abbrev pub Drops : ℤ → DecimalValue → DecimalValue → DecimalValue → Type 0
Drops m a b r = (units m r ≡ units m (greater a b)) × (units m r ≢ units m a +ℤ units m b)

not_same : (x y : ℤ) → 0 < abs y → x ≢ x +ℤ y
unfolding ◌+ℤ◌
not_same x y h e = ground (arith, ap pos_part e, ap neg_part e)

units-abs : (m : ℤ) (d : DecimalValue) → 0 < abs d.coeff → 0 < abs (units m d)
units-abs m d h = rw (abs-*ℤ d.coeff (pos (10 ^ pos_part (d.exp -ℤ m)))) (
    omega (
      arith,
      le-mul_pos (abs d.coeff) (10 ^ pos_part (d.exp -ℤ m))
          (one-le-pow (pos_part (d.exp -ℤ m)) 10 (omega arith)),
    ))

far_left : (x y : ℤ) → 18 < abs (x -ℤ y) → ltb_ℤ y x ≡ true → 18 < pos_part (x -ℤ y)
unfolding ◌-ℤ◌
far_left x y h k = ground arith

far_right : (x y : ℤ) → 18 < abs (x -ℤ y) → ltb_ℤ y x ≡ false → 18 < pos_part (y -ℤ x)
unfolding ◌-ℤ◌
far_right x y h k = ground arith

below : (x y : ℤ) → 18 < abs (x -ℤ y) → ltb_ℤ y x ≡ false → ltb_ℤ x y ≡ true
unfolding ◌-ℤ◌
below x y h k = ground arith

module _ (a b : DecimalValue) (m : ℤ) (near : IsNear a.exp b.exp) where
  drops_left :
      ltb_ℤ b.exp a.exp ≡ true
      → 18 < pos_part (a.exp -ℤ b.exp)
      → m ≤ℤ a.exp
      → GrowsBy 20 a.exp
      → units m (add a b) ≡ units m a
  drops_left h far l g =
      rw (add_far_left a b h (rw (int32-IsNear a.exp b.exp near) far)) (normalize-units m a l g)

  drops_right :
      ltb_ℤ a.exp b.exp ≡ true
      → 18 < pos_part (b.exp -ℤ a.exp)
      → m ≤ℤ b.exp
      → GrowsBy 20 b.exp
      → units m (add a b) ≡ units m b
  drops_right h far l g =
      rw (add_far_right a b h (rw (int32-IsNear b.exp a.exp (IsNear-swap a.exp b.exp near)) far))
        (normalize-units m b l g)

+ℤ_swap : (x y : ℤ) → x +ℤ y ≡ y +ℤ x
+ℤ_swap x y = omega int_laws

-- Where the exponents are more than 18 apart, their difference fits an int32_t with both signs
-- and each has room to grow by 20, and the coefficient of the operand of the smaller exponent is
-- not zero, the sum has the value of the operand of the greater exponent, in units of any 10^m
-- for an m up to both exponents, and is not the exact sum.
pub add-Drops :
    (a b : DecimalValue) (m : ℤ)
    → 18 < abs (a.exp -ℤ b.exp)
    → IsNear a.exp b.exp
    → m ≤ℤ a.exp
    → m ≤ℤ b.exp
    → GrowsBy 20 a.exp
    → GrowsBy 20 b.exp
    → 0 < abs (smaller a b).coeff
    → Drops m a b (add a b)
add-Drops a b m far near la lb ga gb z = elim (Bool-cases (ltb_ℤ b.exp a.exp)) [
  | inl h ↦
      let kept : units m (add a b) ≡ units m a =
        drops_left a b m near h (far_left a.exp b.exp far h) la ga in
      rw h (kept, λ e. not_same (units m a) (units m b) (units-abs m b (rw h at z)) (sym kept ∙ e))
  | inr h ↦
      let kept : units m (add a b) ≡ units m b =
        drops_right a b m near (below a.exp b.exp far h) (far_right a.exp b.exp far h) lb gb in
      rw h (
        kept,
        λ e.
            not_same (units m b) (units m a) (units-abs m a (rw h at z))
              (sym kept ∙ e ∙ +ℤ_swap (units m a) (units m b)),
      )
]
