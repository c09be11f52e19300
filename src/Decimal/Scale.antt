-- ===== src/Decimal/Scale.antt =====
-- The exact value of a decimal, as an integer number of units 10^m.
use native.Mathlib.Nat.{mul-one, one-le-pow, mul_assoc, pow-suc, pow-zero, add-zero, add-suc}
use saqut.Prelude.{ℕ, zero, suc, ◌+◌, ◌*◌, ◌^◌, ◌≡◌, sym, ap, ◌∙◌, arith}
use saqut.Prelude.Int.{ℤ, pos, pos_part, neg_part, ◌+ℤ◌, ◌-ℤ◌, ◌*ℤ◌, ◌≤ℤ◌, +ℤ_parts, eq_of_parts}
use saqut.DecimalCore.Checked.{*ℤ-pos, *ℤ-pos-mul}
use saqut.Decimal.{DecimalValue}

-- The value in units of 10^m, for an m at most the exponent.
abbrev pub units : ℤ → DecimalValue → ℤ
units m d = d.coeff *ℤ pos (10 ^ pos_part (d.exp -ℤ m))

pub pos_part-*ℤ : (a : ℤ) (k : ℕ) → pos_part (a *ℤ pos k) ≡ pos_part a * k
pos_part-*ℤ a k = rw (*ℤ-pos a k) (ground arith)

pub neg_part-*ℤ : (a : ℤ) (k : ℕ) → neg_part (a *ℤ pos k) ≡ neg_part a * k
neg_part-*ℤ a k = rw (*ℤ-pos a k) (ground arith)

pub +ℤ-*ℤ : (a b : ℤ) (k : ℕ) → (a +ℤ b) *ℤ pos k ≡ a *ℤ pos k +ℤ b *ℤ pos k
+ℤ-*ℤ a b k = omega (
  arith,
  eq_of_parts,
  +ℤ_parts (a *ℤ pos k) (b *ℤ pos k),
  ap (λ (t : ℕ). t * k) (+ℤ_parts a b),
  pos_part-*ℤ a k,
  neg_part-*ℤ a k,
  pos_part-*ℤ b k,
  neg_part-*ℤ b k,
  pos_part-*ℤ (a +ℤ b) k,
  neg_part-*ℤ (a +ℤ b) k,
)

pub pow_add : (b p q : ℕ) → b ^ (p + q) ≡ b ^ p * b ^ q
pow_add b p zero = rw (add-zero, pow-zero, mul-one)
pow_add b p (suc q) = rw (add-suc, pow-suc, pow_add b p q, pow-suc, mul_assoc)

gaps :
    (e lo m : ℤ) → m ≤ℤ lo → lo ≤ℤ e → pos_part (e -ℤ m) ≡ pos_part (e -ℤ lo) + pos_part (lo -ℤ m)
unfolding ◌-ℤ◌
gaps e lo m h k = ground arith

-- Units of 10^lo are taken apart into the finer units of 10^m.
pub units-units :
    (d : DecimalValue) (lo m : ℤ)
    → m ≤ℤ lo
    → lo ≤ℤ d.exp
    → units lo d *ℤ pos (10 ^ pos_part (lo -ℤ m)) ≡ units m d
units-units d lo m h k =
    let p = pos_part (d.exp -ℤ lo) in
    *ℤ-pos-mul d.coeff (10 ^ p) (10 ^ pos_part (lo -ℤ m)) (one-le-pow p 10 (omega arith))
    ∙ ap (λ (t : ℕ). d.coeff *ℤ pos t)
        (sym (pow_add 10 p (pos_part (lo -ℤ m)))
          ∙ ap (λ (t : ℕ). 10 ^ t) (sym (gaps d.exp lo m h k)))
