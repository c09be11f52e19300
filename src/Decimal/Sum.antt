-- ===== src/Decimal/Sum.antt =====
-- Sums of decimals: the order of the operands, and the exact value.
use saqut.Prelude.{
  ℕ, suc, ◌-◌, ◌^◌, ◌≤◌, ◌<◌, ◌≡◌, ◌⊎◌, inl, inr, refl, sym, ap, ◌∙◌, true, false, arith,
  if◌then◌else◌, if_split, Bool-cases, ltb→lt, ltb→le, dec_lt,
}
use saqut.Prelude.Int.{ℤ, pos, pos_part, abs, ◌+ℤ◌, ◌-ℤ◌, ◌*ℤ◌, ◌≤ℤ◌, ltb_ℤ}
use saqut.Prelude.Word.{int32}
use saqut.DecimalCore.{IsI64, add_ov, scale10}
use saqut.DecimalCore.Checked.{one-scaled, fits_sym-cases, fits_sym, add_ov_lem, scale10-suc_lem}
use saqut.DecimalCore.Compare.{IsNear, int32_gap, gap, no_gap}
use saqut.Decimal.{DecimalValue, decimal, overflow, checked, add, add_aligned}
use saqut.Decimal.Scale.{units, units-units, +ℤ-*ℤ}
use saqut.Decimal.Normal.{GrowsBy, normalize-units}
use saqut.Decimal.Branches.{
  +ℤ_comm, add_ov_comm, aligned_comm, IsNear-close, add_far_left, add_far_right, add_near_left,
  add_near_right, add_same, fits-cases, add_aligned-none, add_aligned-some,
}

module _ (a b : DecimalValue) (ha : IsI64 a.coeff) (hb : IsI64 b.coeff) where
  add_comm_greater : ltb_ℤ b.exp a.exp ≡ true → add a b ≡ add b a
  add_comm_greater h = elim (dec_lt 18 (pos_part (int32 (a.exp -ℤ b.exp)))) [
    | yes far ↦ add_far_left a b h far ∙ sym (add_far_right b a h far)
    | no near ↦
        let n = pos_part (int32 (a.exp -ℤ b.exp)) in
        add_near_left a b n h refl (omega arith)
        ∙ sym (aligned_comm a.coeff b.coeff b.exp n ha hb)
        ∙ sym (add_near_right b a n h refl (omega arith))
  ]

-- For coefficients of an int64_t, addition does not depend on the order of its operands, overflow
-- and dropped operands included.
pub add_comm : (a b : DecimalValue) → IsI64 a.coeff → IsI64 b.coeff → add a b ≡ add b a
add_comm a b ha hb = elim (Bool-cases (ltb_ℤ b.exp a.exp)) [
  | inl h ↦ add_comm_greater a b ha hb h
  | inr h ↦ elim (Bool-cases (ltb_ℤ a.exp b.exp)) [
    | inl k ↦ sym (add_comm_greater b a hb ha k)
    | inr k ↦
        add_same a b h k
        ∙ rw (add_ov_comm a.coeff b.coeff ha hb)
            (ap (checked (add_ov b.coeff a.coeff)) (ground arith))
        ∙ sym (add_same b a k h)
  ]
]

abbrev pub min_exp : DecimalValue → DecimalValue → ℤ
min_exp a b = if ltb_ℤ b.exp a.exp then b.exp else a.exp

-- A scaled operand or the exact sum is out of range at the exponent `lo`.
abbrev pub TooBigAt : ℤ → DecimalValue → DecimalValue → Type 0
TooBigAt lo a b =
    (9223372036854775807 < abs (units lo a))
    ⊎ ((9223372036854775807 < abs (units lo b))
        ⊎ (9223372036854775807 < abs (units lo a +ℤ units lo b)))

abbrev pub AddsAt : ℤ → ℤ → DecimalValue → DecimalValue → DecimalValue → Type 0
AddsAt lo m a b r = ((r ≡ overflow) × TooBigAt lo a b) ⊎ (units m r ≡ units m a +ℤ units m b)

-- What a sum is to return: the exact value, or the overflow where there is one.
abbrev pub AddsTo : ℤ → DecimalValue → DecimalValue → DecimalValue → Type 0
AddsTo m a b r = AddsAt (min_exp a b) m a b r

-- The checked sum of two coefficients of the exponent `e`, in units of 10^m.
checked_sum :
    (x y e m : ℤ)
    → IsI64 x
    → IsI64 y
    → m ≤ℤ e
    → GrowsBy 20 e
    → ((checked (add_ov x y) e ≡ overflow) × (9223372036854775807 < abs (x +ℤ y)))
      ⊎ (units m (checked (add_ov x y) e) ≡ (x +ℤ y) *ℤ pos (10 ^ pos_part (e -ℤ m)))
checked_sum x y e m hx hy h g = elim (fits-cases (x +ℤ y)) [
  | inl (p, big) ↦ inl (ap (λ o. checked o e) (add_ov_lem x y hx hy ∙ p), big)
  | inr p ↦ inr (
      ap (λ o. units m (checked o e)) (add_ov_lem x y hx hy ∙ p)
      ∙ normalize-units m (decimal (x +ℤ y) e) h g)
]

units_level :
    (d : DecimalValue) (lo : ℤ)
    → ltb_ℤ lo d.exp ≡ false
    → ltb_ℤ d.exp lo ≡ false
    → units lo d ≡ d.coeff
units_level d lo h k = rw (no_gap d.exp lo h k, one-scaled)

units_self : (d : DecimalValue) → units d.exp d ≡ d.coeff
units_self d = units_level d d.exp (ground arith) (ground arith)

-- The sum of the coefficients at a common exponent is the sum of the values.
coeffs_units :
    (a b : DecimalValue) (lo m : ℤ)
    → m ≤ℤ lo
    → lo ≤ℤ a.exp
    → lo ≤ℤ b.exp
    → (units lo a +ℤ units lo b) *ℤ pos (10 ^ pos_part (lo -ℤ m)) ≡ units m a +ℤ units m b
coeffs_units a b lo m h ka kb = rw (+ℤ-*ℤ, units-units a lo m h ka, units-units b lo m h kb)

IsI64-sym : (x : ℤ) → abs x ≤ 9223372036854775807 → IsI64 x
IsI64-sym x h = ground arith

le_self : (x : ℤ) → x ≤ℤ x
le_self x = omega arith

add_ov_self : (x : ℤ) (b : DecimalValue) → add_ov x b.coeff ≡ add_ov x (units b.exp b)
add_ov_self x b = rw units_self refl

AddsAt-swap :
    (a b : DecimalValue) (lo m : ℤ)
    → IsI64 a.coeff
    → IsI64 b.coeff
    → AddsAt lo m b a (add b a)
    → AddsAt lo m a b (add a b)
AddsAt-swap a b lo m ha hb h =
    rw (add_comm a b ha hb, +ℤ_comm (units m a) (units m b), +ℤ_comm (units lo a) (units lo b))
      (swap h)
  where
    swap :
        AddsAt lo m b a (add b a)
        → ((add b a ≡ overflow)
            × ((9223372036854775807 < abs (units lo a))
                ⊎ ((9223372036854775807 < abs (units lo b))
                    ⊎ (9223372036854775807 < abs (units lo b +ℤ units lo a)))))
          ⊎ (units m (add b a) ≡ units m b +ℤ units m a)
    swap (inl (p, inl t)) = inl (p, inr (inl t))
    swap (inl (p, inr (inl t))) = inl (p, inl t)
    swap (inl (p, inr (inr t))) = inl (p, inr (inr t))
    swap (inr t) = inr t

module _ (a b : DecimalValue) (m : ℤ) where
  checked-AddsAt :
      (lo : ℤ)
      → m ≤ℤ lo
      → lo ≤ℤ a.exp
      → lo ≤ℤ b.exp
      → IsI64 (units lo a)
      → IsI64 (units lo b)
      → GrowsBy 20 lo
      → AddsAt lo m a b (checked (add_ov (units lo a) (units lo b)) lo)
  checked-AddsAt lo h ka kb ha hb g = elim (checked_sum (units lo a) (units lo b) lo m ha hb h g) [
    | inl (p, big) ↦ inl (p, inr (inr big))
    | inr p ↦ inr (p ∙ coeffs_units a b lo m h ka kb)
  ]

  -- The operand `a` is scaled down to the exponent of `b`.
  aligned-AddsAt :
      (n : ℕ)
      → IsI64 a.coeff
      → IsI64 b.coeff
      → pos_part (a.exp -ℤ b.exp) ≡ suc n
      → b.exp ≤ℤ a.exp
      → m ≤ℤ b.exp
      → GrowsBy 20 b.exp
      → AddsAt b.exp m a b (add_aligned a.coeff (suc n) b.coeff b.exp)
  aligned-AddsAt n ha hb e k hm g =
      let scaled : scale10 a.coeff (suc n) ≡ fits_sym (units b.exp a) =
        rw e (scale10-suc_lem a.coeff n ha) in
      elim (fits_sym-cases (units b.exp a)) [
        | inl (p, big) ↦ inl (add_aligned-none a.coeff b.coeff b.exp (suc n) (scaled ∙ p), inl big)
        | inr (p, small) ↦
            rw
              (
                add_aligned-some a.coeff b.coeff b.exp (suc n) (units b.exp a) (scaled ∙ p),
                add_ov_self (units b.exp a) b,
              )
              (checked-AddsAt b.exp hm k (le_self b.exp) (IsI64-sym _ small) (rw units_self hb) g)
      ]

  add-AddsTo_greater :
      IsI64 a.coeff
      → IsI64 b.coeff
      → ltb_ℤ b.exp a.exp ≡ true
      → pos_part (a.exp -ℤ b.exp) ≤ 18
      → m ≤ℤ b.exp
      → GrowsBy 20 b.exp
      → AddsAt b.exp m a b (add a b)
  add-AddsTo_greater ha hb h near hm g =
      let n = pos_part (a.exp -ℤ b.exp) - 1 in
      let e = gap a.exp b.exp h in
      let close : IsNear a.exp b.exp = IsNear-close a.exp b.exp near h in
      rw (add_near_left a b (suc n) h (int32_gap a.exp b.exp close h) (omega arith))
        (aligned-AddsAt n ha hb e (omega (arith, ltb→lt _ _ h)) hm g)

  add-AddsTo_same :
      IsI64 a.coeff
      → IsI64 b.coeff
      → ltb_ℤ b.exp a.exp ≡ false
      → ltb_ℤ a.exp b.exp ≡ false
      → m ≤ℤ a.exp
      → GrowsBy 20 a.exp
      → AddsAt a.exp m a b (add a b)
  add-AddsTo_same ha hb h k hm g =
      let level : units a.exp b ≡ b.coeff = units_level b a.exp k h in
      let path : add a b ≡ checked (add_ov (units a.exp a) (units a.exp b)) a.exp =
        add_same a b h k ∙ rw (units_self a, level) refl in
      rw path (
        checked-AddsAt a.exp hm (le_self a.exp) (omega (arith, ltb→le _ _ h)) (rw units_self ha)
          (rw level hb) g)

-- For coefficients of an int64_t whose exponents are at most 18 apart and each have room in an
-- int32_t to grow by 20, a sum is exact, in units of any 10^m for an m up to both exponents, or
-- it is the overflow, and then a scaled operand or the sum is beyond INT64_MAX in absolute value.
pub add-AddsTo :
    (a b : DecimalValue) (m : ℤ)
    → IsI64 a.coeff
    → IsI64 b.coeff
    → pos_part (a.exp -ℤ b.exp) ≤ 18
    → pos_part (b.exp -ℤ a.exp) ≤ 18
    → m ≤ℤ a.exp
    → m ≤ℤ b.exp
    → GrowsBy 20 a.exp
    → GrowsBy 20 b.exp
    → AddsTo m a b (add a b)
add-AddsTo a b m ha hb near_left near_right hma hmb ga gb =
    if_split (λ lo. AddsAt lo m a b (add a b)) (ltb_ℤ b.exp a.exp)
      (λ h. add-AddsTo_greater a b m ha hb h near_left hmb gb)
      (λ h. elim (Bool-cases (ltb_ℤ a.exp b.exp)) [
        | inl k ↦ AddsAt-swap a b a.exp m ha hb (add-AddsTo_greater b a m hb ha k near_right hma ga)
        | inr k ↦ add-AddsTo_same a b m ha hb h k hma ga
      ])
