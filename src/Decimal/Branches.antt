-- ===== src/Decimal/Branches.antt =====
-- The branches of `add`: operands far apart, scaled on either side, and at the same exponent.
use saqut.Prelude.{
  ℕ, zero, suc, ◌^◌, ◌≤◌, ◌<◌, ◌≡◌, ◌⊎◌, inl, inr, refl, sym, ap, ◌∙◌, true, false, none, some,
  arith, leb, if_split,
}
use saqut.Prelude.Int.{ℤ, pos, pos_part, neg_part, abs, ◌+ℤ◌, ◌-ℤ◌, ◌*ℤ◌, ltb_ℤ, int_laws}
use saqut.Prelude.Word.{int32}
use saqut.DecimalCore.{IsI64, add_ov, scale10}
use saqut.DecimalCore.Checked.{fits, add_ov_lem, scale10-suc_lem}
use saqut.DecimalCore.Compare.{IsNear}
use saqut.Decimal.{DecimalValue, normalize, overflow, checked, add, add_aligned, add_aligned_right}

pub +ℤ_comm : (x y : ℤ) → x +ℤ y ≡ y +ℤ x
+ℤ_comm x y = omega int_laws

pub add_ov_comm : (x y : ℤ) → IsI64 x → IsI64 y → add_ov x y ≡ add_ov y x
add_ov_comm x y hx hy = add_ov_lem x y hx hy ∙ ap fits (+ℤ_comm x y) ∙ sym (add_ov_lem y x hy hx)

-- A sum after the scaling of one operand does not depend on the order of the operands.
pub aligned_comm :
    (c other e : ℤ) (n : ℕ)
    → IsI64 c
    → IsI64 other
    → add_aligned_right other c n e ≡ add_aligned c n other e
unfolding add_aligned add_aligned_right scale10
aligned_comm c other e zero hc ho = ap (λ o. checked o e) (add_ov_comm other c ho hc)
aligned_comm c other e (suc n) hc ho =
    ground (arith, scale10-suc_lem c n hc, add_ov_comm (c *ℤ pos (10 ^ suc n)) other)

pub IsNear-close : (x y : ℤ) → pos_part (x -ℤ y) ≤ 18 → ltb_ℤ y x ≡ true → IsNear x y
unfolding ◌-ℤ◌
IsNear-close x y h k = ground arith

module _ (a b : DecimalValue) where
  pub add_far_left :
      ltb_ℤ b.exp a.exp ≡ true → 18 < pos_part (int32 (a.exp -ℤ b.exp)) → add a b ≡ normalize a
  unfolding add
  add_far_left h far = ground arith

  pub add_far_right :
      ltb_ℤ a.exp b.exp ≡ true → 18 < pos_part (int32 (b.exp -ℤ a.exp)) → add a b ≡ normalize b
  unfolding add
  add_far_right h far = ground arith

  pub add_near_left :
      (n : ℕ)
      → ltb_ℤ b.exp a.exp ≡ true
      → pos_part (int32 (a.exp -ℤ b.exp)) ≡ n
      → n ≤ 18
      → add a b ≡ add_aligned a.coeff n b.coeff b.exp
  unfolding add
  add_near_left n h e near = ground arith

  pub add_near_right :
      (n : ℕ)
      → ltb_ℤ a.exp b.exp ≡ true
      → pos_part (int32 (b.exp -ℤ a.exp)) ≡ n
      → n ≤ 18
      → add a b ≡ add_aligned_right a.coeff b.coeff n a.exp
  unfolding add
  add_near_right n h e near = ground arith

  pub add_same :
      ltb_ℤ b.exp a.exp ≡ false
      → ltb_ℤ a.exp b.exp ≡ false
      → add a b ≡ checked (add_ov a.coeff b.coeff) a.exp
  unfolding add
  add_same h k = ground arith

pub fits-cases : (x : ℤ) → ((fits x ≡ none) × (9223372036854775807 < abs x)) ⊎ (fits x ≡ some x)
fits-cases x =
    if_split (λ o. ((o ≡ none) × (9223372036854775807 < abs x)) ⊎ (o ≡ some x))
      (leb (pos_part x) 9223372036854775807)
      (λ p.
        if_split (λ o. ((o ≡ none) × (9223372036854775807 < abs x)) ⊎ (o ≡ some x))
          (leb (neg_part x) 9223372036854775808) (λ q. inr refl) (λ q. inl (refl, ground arith)))
      (λ p. inl (refl, ground arith))

module _ (c other e : ℤ) (n : ℕ) where
  pub add_aligned-none : scale10 c n ≡ none → add_aligned c n other e ≡ overflow
  unfolding add_aligned
  add_aligned-none h = rw (h, add_aligned) refl

  pub add_aligned-some :
      (x : ℤ) → scale10 c n ≡ some x → add_aligned c n other e ≡ checked (add_ov x other) e
  unfolding add_aligned
  add_aligned-some x h = rw (h, add_aligned) refl
