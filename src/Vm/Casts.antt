-- ===== src/Vm/Casts.antt =====
-- src/vm/interpreter.cpp: the conversions. The flag is the `left == 1` of the instruction: a nullable target,
-- where a conversion that fails gives null and not an error.
use saqut.Prelude.{
  ℕ, Bool, true, false, not, ◌&&◌, ◌||◌, Option, none, some, ◌++◌, ◌==◌, if◌then◌else◌, length,
}
use saqut.Prelude.Int.{ℤ, pos, negsuc, ltb_ℤ}
use saqut.Prelude.Texts.{codes}
use saqut.Types.{Text}
use saqut.Decimal.{DecimalValue, truncate}
use saqut.Folding.{fits_int32}
use saqut.Vm.Value.{
  Value, int, long_int, float, float32, decimal, null, int_value, int64_value, float_value,
  decimal_value, string_value,
}
use saqut.Vm.Platform.{Platform}
use saqut.Vm.Operators.{Outcome, value, error}

abbrev pub cast_failed : Bool → Text → Outcome
cast_failed true msg = value null
cast_failed false msg = error msg (codes "E_CAST")

abbrev int_min : ℤ
int_min = negsuc 2147483647

abbrev int_max : ℤ
int_max = pos 2147483647

unfoldable pub long_to_int : Platform → Bool → Value → Outcome
long_to_int p nullable v =
    let n : ℤ = int64_value v in
    if not (fits_int32 n)
    then cast_failed nullable
        (codes "longint value " ++ (p.int_text n ++ codes " out of int range"))
    else value (int n)

abbrev int_range_message : Text
int_range_message = codes "float value out of int range or NaN/Inf"

unfoldable pub float32_to_int_value : Platform → Bool → Value → Outcome
float32_to_int_value p nullable v =
    let f : ℕ = p.single (float_value v) in
    if not (p.is_finite f)
      || (p.float_lt f (p.single (p.double_of_int int_min))
          || p.float_lt (p.single (p.double_of_int int_max)) f)
    then cast_failed nullable int_range_message
    else value (int (p.int_of_double f))

unfoldable pub float_to_int_checked : Platform → Bool → Value → Outcome
float_to_int_checked p nullable v =
    let f : ℕ = float_value v in
    if not (p.is_finite f)
      || (p.float_lt f (p.double_of_int int_min) || p.float_lt (p.double_of_int int_max) f)
    then cast_failed nullable int_range_message
    else value (int (p.int_of_double f))

unfoldable pub float_to_long_checked : Platform → Bool → Value → Outcome
float_to_long_checked p nullable v =
    let f : ℕ = float_value v in
    if not (p.is_finite f)
      || (p.float_lt f (p.double_of_int (negsuc 9223372036854775807))
          || p.float_le (p.double_of_int (pos 9223372036854775808)) f)
    then cast_failed nullable (codes "float value out of longint range or NaN/Inf")
    else value (long_int (p.int_of_double f))

unfoldable pub int_to_byte_checked : Platform → Bool → Value → Outcome
int_to_byte_checked p nullable v =
    let n : ℤ = int_value v in
    if ltb_ℤ n (pos 0) || ltb_ℤ (pos 255) n
    then cast_failed nullable
        (codes "integer value " ++ (p.int_text n ++ codes " out of byte range (0-255)"))
    else value (int n)

abbrev quoted : Text → Text → Text
quoted s rest = codes "'" ++ (s ++ (codes "'" ++ rest))

-- The whole text has to be read, and `keep` has to hold of the number.
abbrev parsed :
    {A : Type 0} → Bool → (A → Bool) → (A → Value) → Text → Text → Option (A × ℕ) → Outcome
parsed nullable keep make s rest none = cast_failed nullable (quoted s rest)
parsed nullable keep make s rest (some (a, n)) =
    if n == length s && keep a then value (make a) else cast_failed nullable (quoted s rest)

unfoldable pub str_to_int : Platform → Bool → Value → Outcome
str_to_int p nullable v =
    let s : Text = string_value v in
    parsed nullable fits_int32 int s (codes " cannot convert to int") (p.stoll s)

unfoldable pub str_to_long : Platform → Bool → Value → Outcome
str_to_long p nullable v =
    let s : Text = string_value v in
    parsed nullable (λ _. true) long_int s (codes " cannot convert to longint") (p.stoll s)

unfoldable pub str_to_float : Platform → Bool → Value → Outcome
str_to_float p nullable v =
    let s : Text = string_value v in
    parsed nullable (λ _. true) float s (codes " cannot convert to float") (p.stod s)

unfoldable pub str_to_float32 : Platform → Bool → Value → Outcome
str_to_float32 p nullable v =
    let s : Text = string_value v in
    parsed nullable (λ _. true) float32 s (codes " cannot convert to float") (p.stof s)

unfoldable pub str_to_decimal : Platform → Bool → Value → Outcome
str_to_decimal p nullable v =
    let s : Text = string_value v in
    elim (p.decimal_of_text s) [
      | none ↦ cast_failed nullable (quoted s (codes " cannot convert to decimal"))
      | some d ↦ value (decimal d)
    ]

unfoldable pub decimal_to_int : Platform → Bool → Value → Outcome
decimal_to_int p nullable v =
    let d : DecimalValue = truncate (decimal_value v) in
    if not (fits_int32 d.coeff)
    then cast_failed nullable (codes "decimal value out of int range")
    else value (int d.coeff)
