-- ===== src/Folding/Agreement.antt =====
-- The operators of the folding pass and those of the virtual machine.
use native.Mathlib.Nat.{add-mul-mod_self_left, mod-eq_of_lt, zero-mul, mul_comm, mul-sub}
use saqut.Prelude.{
  ℕ, zero, suc, ◌+◌, ◌-◌, ◌*◌, ◌%◌, ◌^◌, ◌≤◌, ◌<◌, ◌≡◌, refl, sym, ap, ◌∙◌, Bool, true, false, not,
  ◌&&◌, ◌||◌, some, if◌then◌else◌, ltb→lt, arith,
}
use saqut.Prelude.Int.{ℤ, pos, negsuc, pos_part, ◌+ℤ◌, ◌-ℤ◌, ◌*ℤ◌, neg_ℤ, div_ℤ, mod_ℤ, eqb_ℤ}
use saqut.Prelude.Word.{to_bits, of_bits}
use saqut.Folding.{
  TokenType, plus, minus, star, slash, percent, equal_equal, bang_equal, less, greater, less_equal,
  greater_equal, ampersand, pipe, caret, lshift, rshift, ampersand_ampersand, pipe_pipe, bang,
  tilde, other_token, word, fits_int32, is_zero, bit, defined, compute_unary, compute_op,
  can_fold_op, can_fold_unary, is_division, shift_defined, shift_right, wrap_add, wrap_sub,
  wrap_mul, wrap_div, wrap_mod, wrap_shl, wrap_shr, run_binary, run_unary,
}

wrap_add-defined :
    (u a b : ℤ)
    → fits_int32 a ≡ true
    → fits_int32 b ≡ true
    → fits_int32 (a +ℤ b) ≡ true
    → wrap_add a b ≡ a +ℤ b
unfolding wrap_add to_bits of_bits ◌+ℤ◌
wrap_add-defined u a b ha hb h = ground arith

wrap_sub-defined :
    (u a b : ℤ)
    → fits_int32 a ≡ true
    → fits_int32 b ≡ true
    → fits_int32 (a -ℤ b) ≡ true
    → wrap_sub a b ≡ a -ℤ b
unfolding wrap_sub to_bits of_bits ◌-ℤ◌
wrap_sub-defined u a b ha hb h = ground arith

to_bits-count : (n : ℕ) → n < 32 → to_bits 32 (pos n) ≡ n
unfolding to_bits
to_bits-count n h = ground arith

wrap_shl-defined :
    (a b : ℤ)
    → shift_defined b ≡ true
    → wrap_shl a b ≡ of_bits word (to_bits word a * 2 ^ pos_part b % word)
unfolding wrap_shl
wrap_shl-defined a (pos n) h = rw (to_bits-count n (ltb→lt n 32 h)) refl
wrap_shl-defined a (negsuc n) h = cc

wrap_shr-defined : (a b : ℤ) → shift_defined b ≡ true → wrap_shr a b ≡ shift_right a (pos_part b)
unfolding wrap_shr
wrap_shr-defined a (pos n) h = rw (to_bits-count n (ltb→lt n 32 h)) refl
wrap_shr-defined a (negsuc n) h = cc

-- Products of patterns, where a factor k below zero has the pattern `word - k`.
mod_one_neg : (x k : ℕ) → k ≤ word → 0 < x * k → x * k < word → x * (word - k) % word ≡ word - x * k
mod_one_neg zero k h p q = absurd (omega (arith, zero-mul k))
mod_one_neg (suc x) k h p q =
    let split : suc x * (word - k) ≡ (word - suc x * k) + word * x =
      omega (arith, mul-sub (suc x) word k) in
    rw split (add-mul-mod_self_left (word - suc x * k) word x ∙ mod-eq_of_lt (omega arith))

square : (c a b : ℕ) → (c + b) * (c + a) ≡ a * b + (c + a + b) * c
square c a b = grind arith

two_neg : (c a b : ℕ) → c + a + b ≡ word → (word - a) * (word - b) ≡ a * b + word * c
two_neg c a b h =
    let first : word - a ≡ c + b = omega (arith, h) in
    let second : word - b ≡ c + a = omega (arith, h) in cc (square c a b, first, second, h)

mod_two_neg : (a b : ℕ) → a + b ≤ word → a * b < word → (word - a) * (word - b) % word ≡ a * b
mod_two_neg a b h q =
    rw (two_neg (word - a - b) a b (omega (arith, h)))
      (add-mul-mod_self_left (a * b) word (word - a - b) ∙ mod-eq_of_lt q)

wrap_mul-defined :
    (a b : ℤ)
    → fits_int32 a ≡ true
    → fits_int32 b ≡ true
    → fits_int32 (a *ℤ b) ≡ true
    → wrap_mul a b ≡ a *ℤ b
unfolding wrap_mul to_bits of_bits ◌*ℤ◌
wrap_mul-defined (pos x) (pos y) ha hb h = ground arith
wrap_mul-defined (pos x) (negsuc y) ha hb h = ground (arith, mod_one_neg x (suc y))
wrap_mul-defined (negsuc x) (pos y) ha hb h =
    ground (arith, mod_one_neg y (suc x), mul_comm y (word - suc x), mul_comm y (suc x))
wrap_mul-defined (negsuc x) (negsuc y) ha hb h = ground (arith, mod_two_neg (suc x) (suc y))

wrap_div-defined :
    (a b : ℤ)
    → fits_int32 a ≡ true
    → fits_int32 b ≡ true
    → fits_int32 (div_ℤ a b) ≡ true
    → (wrap_div a b ≡ div_ℤ a b) × (wrap_mod a b ≡ mod_ℤ a b)
unfolding wrap_div wrap_mod div_ℤ mod_ℤ
wrap_div-defined a b ha hb h = ground arith

-- Where C++ defines the operation, and both ways of counting a truth value agree.
abbrev pub defined_op : TokenType → ℤ → ℤ → Bool
defined_op plus l r = fits_int32 (l +ℤ r)
defined_op minus l r = fits_int32 (l -ℤ r)
defined_op star l r = fits_int32 (l *ℤ r)
defined_op slash l r = fits_int32 (div_ℤ l r)
defined_op percent l r = fits_int32 (div_ℤ l r)
defined_op lshift l r = shift_defined r
defined_op rshift l r = shift_defined r
defined_op ampersand_ampersand l r = is_zero l || (is_zero r || eqb_ℤ r (pos 1))
defined_op pipe_pipe l r = not (is_zero l) || (is_zero r || eqb_ℤ r (pos 1))
defined_op _ l r = true

and_defined :
    (l r : ℤ)
    → (is_zero l || (is_zero r || eqb_ℤ r (pos 1))) ≡ true
    → (if is_zero l then pos 0 else r) ≡ bit (not (is_zero l) && not (is_zero r))
and_defined l r h = ground arith

or_defined :
    (l r : ℤ)
    → (not (is_zero l) || (is_zero r || eqb_ℤ r (pos 1))) ≡ true
    → (if is_zero l then r else pos 1) ≡ bit (not (is_zero l) || not (is_zero r))
or_defined l r h = ground arith

defined-fits : (u z : ℤ) → fits_int32 z ≡ true → defined u z ≡ z
defined-fits u z h = rw h refl

-- For operands of an int, where the pass folds an operator, the divisor is not zero and C++
-- defines the operation (for && and ||: the right operand is 0 or 1 where it decides), the
-- virtual machine computes the same value.
pub run_binary-compute_op :
    (u : ℤ) (op : TokenType) (l r : ℤ)
    → fits_int32 l ≡ true
    → fits_int32 r ≡ true
    → can_fold_op op ≡ true
    → (is_division op && is_zero r) ≡ false
    → defined_op op l r ≡ true
    → run_binary op l r ≡ some (compute_op u op l r)
unfolding run_binary compute_op
run_binary-compute_op u plus l r hl hr c z d =
    ap some (wrap_add-defined u l r hl hr d ∙ sym (defined-fits u _ d))
run_binary-compute_op u minus l r hl hr c z d =
    ap some (wrap_sub-defined u l r hl hr d ∙ sym (defined-fits u _ d))
run_binary-compute_op u star l r hl hr c z d =
    ap some (wrap_mul-defined l r hl hr d ∙ sym (defined-fits u _ d))
run_binary-compute_op u slash l r hl hr c z d =
    rw z (ap some ((wrap_div-defined l r hl hr d).0 ∙ sym (defined-fits u _ d)))
run_binary-compute_op u percent l r hl hr c z d =
    rw (z, d) (ap some (wrap_div-defined l r hl hr d).1)
run_binary-compute_op u equal_equal l r hl hr c z d = refl
run_binary-compute_op u bang_equal l r hl hr c z d = refl
run_binary-compute_op u less l r hl hr c z d = refl
run_binary-compute_op u greater l r hl hr c z d = refl
run_binary-compute_op u less_equal l r hl hr c z d = refl
run_binary-compute_op u greater_equal l r hl hr c z d = refl
run_binary-compute_op u ampersand l r hl hr c z d = refl
run_binary-compute_op u pipe l r hl hr c z d = refl
run_binary-compute_op u caret l r hl hr c z d = cc
run_binary-compute_op u lshift l r hl hr c z d = rw d (ap some (wrap_shl-defined l r d))
run_binary-compute_op u rshift l r hl hr c z d = rw d (ap some (wrap_shr-defined l r d))
run_binary-compute_op u ampersand_ampersand l r hl hr c z d = ap some (and_defined l r d)
run_binary-compute_op u pipe_pipe l r hl hr c z d = ap some (or_defined l r d)
run_binary-compute_op u bang l r hl hr c z d = cc
run_binary-compute_op u tilde l r hl hr c z d = cc
run_binary-compute_op u other_token l r hl hr c z d = cc

-- The negation of INT_MIN is the one undefined unary operation.
abbrev pub defined_unary : TokenType → ℤ → Bool
defined_unary minus v = fits_int32 (neg_ℤ v)
defined_unary _ v = true

wrap_sub-neg :
    (v : ℤ) → fits_int32 v ≡ true → fits_int32 (neg_ℤ v) ≡ true → wrap_sub (pos 0) v ≡ neg_ℤ v
unfolding wrap_sub to_bits of_bits
wrap_sub-neg v h d = ground arith

-- For an operand of an int, other than INT_MIN under a minus, the unary operators that the pass
-- folds have the value that the virtual machine computes.
pub run_unary-compute_unary :
    (u : ℤ) (op : TokenType) (v : ℤ)
    → fits_int32 v ≡ true
    → can_fold_unary op ≡ true
    → defined_unary op v ≡ true
    → run_unary op v ≡ compute_unary u op v
unfolding run_unary compute_unary
run_unary-compute_unary u minus v h c d = wrap_sub-neg v h d ∙ sym (defined-fits u _ d)
run_unary-compute_unary u bang v h c d = refl
run_unary-compute_unary u tilde v h c d = refl
run_unary-compute_unary u plus v h c d = refl
run_unary-compute_unary u _ v h c d = cc
