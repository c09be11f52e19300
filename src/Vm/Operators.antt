-- ===== src/Vm/Operators.antt =====
-- src/vm/interpreter.cpp: the operators of `Interpreter::runUntilEvent` that may fail or look at kinds. Both
-- operands are read before a divisor is tested.
use saqut.Prelude.{
  ℕ, ◌+◌, ◌-◌, ◌*◌, ◌%◌, ◌^◌, Bool, true, false, ◌&&◌, ◌||◌, none, some, [], ◌∷◌, ◌++◌, ◌==◌,
  if◌then◌else◌,
}
use saqut.Prelude.Int.{ℤ, pos, negsuc, eqb_ℤ, div_ℤ, mod_ℤ}
use saqut.Prelude.Word.{to_bits, of_bits}
use saqut.Prelude.Texts.{codes}
use saqut.Types.{Text, eq_text}
use saqut.Decimal.{DecimalValue, compare, is_overflow}
use saqut.Folding.{bitwise, shift_right, wrap_div, wrap_mod, is_zero}
use saqut.Vm.Value.{
  Value, int, long_int, date, float, float32, decimal, string, ref, null, int_value, int64_value,
  float_value, decimal_value, string_value, is_floaty, is_decimal, as_i64,
}
use saqut.Vm.Platform.{Platform, as_double}

-- A value for the destination, an error of the language with its code, or a C++ exception.
pub data Outcome : Type 0 where
  value : Value → Outcome
  error : Text → Text → Outcome
  exception : Text → Outcome

abbrev pub divzero : Text → Outcome
divzero msg = error msg (codes "E_DIVZERO")

-- The dotless i is two bytes of UTF-8.
abbrev pub mod_message : Text
mod_message =
    codes "s"
    ++ (196 ∷ 177 ∷ [])
    ++ codes "f"
    ++ (196 ∷ 177 ∷ [])
    ++ codes "ra b"
    ++ (195 ∷ 182 ∷ [])
    ++ codes "lme (mod)"

unfoldable pub run_div : Value → Value → Outcome
run_div l r =
    if is_zero (int_value r)
    then divzero (codes "division by zero")
    else value (int (wrap_div (int_value l) (int_value r)))

unfoldable pub run_mod : Value → Value → Outcome
run_mod l r =
    if is_zero (int_value r)
    then divzero mod_message
    else value (int (wrap_mod (int_value l) (int_value r)))

-- LESS, LESS_EQUAL, GREATER and GREATER_EQUAL: `o` and `f` are the order on integers and on doubles.
unfoldable pub run_order : Platform → (ℤ → ℤ → Bool) → (ℕ → ℕ → Bool) → Value → Value → Bool
run_order p o f (date a) (date b) = o a b
run_order p o f l r =
    if is_decimal l || is_decimal r
    then o (compare (decimal_value l) (decimal_value r)) (pos 0)
    else if is_floaty l || is_floaty r
    then f (as_double p l) (as_double p r)
    else o (as_i64 l) (as_i64 r)

abbrev same_ref : Value → Value → Bool
same_ref (ref (some a)) (ref (some b)) = a == b
same_ref (ref none) (ref none) = true
same_ref (ref none) (ref (some b)) = false
same_ref (ref (some a)) (ref none) = false
same_ref (ref none) r = true
same_ref l (ref none) = true
same_ref _ _ = false

abbrev is_ref : Value → Bool
is_ref (ref a) = true
is_ref _ = false

abbrev same_decimal : DecimalValue → DecimalValue → Bool
same_decimal a b = eqb_ℤ (compare a b) (pos 0)

-- EQUAL_EQUAL below its tests of null; NOT_EQUAL is its negation.
unfoldable pub equal_kinds : Platform → Value → Value → Bool
equal_kinds p (date a) (date b) = eqb_ℤ a b
equal_kinds p (string s) (ref a) = same_ref (string s) (ref a)
equal_kinds p (string s) r = eq_text s (string_value r)
equal_kinds p l r =
    if is_ref l || is_ref r
    then same_ref l r
    else if is_decimal l || is_decimal r
    then same_decimal (decimal_value l) (decimal_value r)
    else if is_floaty l || is_floaty r
    then p.float_eq (as_double p l) (as_double p r)
    else eqb_ℤ (as_i64 l) (as_i64 r)

unfoldable pub run_equal : Platform → Value → Value → Bool
run_equal p null null = true
run_equal p null r = false
run_equal p l null = false
run_equal p l r = equal_kinds p l r

-- The operators of longint, modulo 2^64.
abbrev pub long_word : ℕ
long_word = 18446744073709551616

abbrev pub long_min : ℤ
long_min = negsuc 9223372036854775807

unfoldable pub wrap_add_long : ℤ → ℤ → ℤ
wrap_add_long a b = of_bits long_word ((to_bits long_word a + to_bits long_word b) % long_word)

unfoldable pub wrap_sub_long : ℤ → ℤ → ℤ
wrap_sub_long a b =
    of_bits long_word ((to_bits long_word a + (long_word - to_bits long_word b)) % long_word)

unfoldable pub wrap_mul_long : ℤ → ℤ → ℤ
wrap_mul_long a b = of_bits long_word (to_bits long_word a * to_bits long_word b % long_word)

unfoldable pub wrap_div_long : ℤ → ℤ → ℤ
wrap_div_long a b = if eqb_ℤ a long_min && eqb_ℤ b (negsuc 0) then long_min else div_ℤ a b

unfoldable pub wrap_mod_long : ℤ → ℤ → ℤ
wrap_mod_long a b = if eqb_ℤ a long_min && eqb_ℤ b (negsuc 0) then pos 0 else mod_ℤ a b

unfoldable pub wrap_shl_long : ℤ → ℤ → ℤ
wrap_shl_long a b = of_bits long_word (to_bits long_word a * 2 ^ to_bits 64 b % long_word)

unfoldable pub wrap_shr_long : ℤ → ℤ → ℤ
wrap_shr_long a b = shift_right a (to_bits 64 b)

unfoldable pub wrap_neg_long : ℤ → ℤ
wrap_neg_long a = of_bits long_word ((long_word - to_bits long_word a) % long_word)

unfoldable pub bits_op_long : (ℕ → ℕ → ℕ) → ℤ → ℤ → ℤ
bits_op_long f a b = of_bits long_word (bitwise f 64 (to_bits long_word a) (to_bits long_word b))

unfoldable pub run_ldiv : Value → Value → Outcome
run_ldiv l r =
    if is_zero (int64_value r)
    then divzero (codes "division by zero")
    else value (long_int (wrap_div_long (int64_value l) (int64_value r)))

unfoldable pub run_lmod : Value → Value → Outcome
run_lmod l r =
    if is_zero (int64_value r)
    then divzero mod_message
    else value (long_int (wrap_mod_long (int64_value l) (int64_value r)))

-- FDIV and F32DIV.
unfoldable pub run_fdiv : Platform → Value → Value → Outcome
run_fdiv p l r =
    if p.float_eq (float_value r) 0
    then divzero (codes "float division by zero")
    else value (float (p.fdiv (float_value l) (float_value r)))

unfoldable pub run_f32div : Platform → Value → Value → Outcome
run_f32div p l r =
    if p.float_eq (p.single (float_value r)) 0
    then divzero (codes "float division by zero")
    else value (float32 (p.single (p.f32div (float_value l) (float_value r))))

-- What DADD, DSUB and DMUL make of a result, and DDIV and DMOD of an operation and its message.
unfoldable pub decimal_result : DecimalValue → Outcome
decimal_result d =
    if is_overflow d
    then error (codes "decimal overflow") (codes "E_DECIMAL_OVERFLOW")
    else value (decimal d)

unfoldable pub decimal_quotient :
    (DecimalValue → DecimalValue → DecimalValue) → Text → Value → Value → Outcome
unfolding decimal_result
decimal_quotient f msg l r =
    let d : DecimalValue = decimal_value r in
    if is_zero d.coeff
    then error msg (codes "E_DECIMAL_DIVZERO")
    else decimal_result (f (decimal_value l) d)
