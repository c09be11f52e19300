-- ===== src/Vm/Value.antt =====
-- src/vm/value.hpp: `Value`. A kind is a constructor that holds the field of that kind; a field of another
-- kind has its default, since every value is made by one of the functions `from...`.
use saqut.Prelude.{ℕ, Bool, true, false, not, Option, none, some, [], ◌∷◌}
use saqut.Prelude.Int.{ℤ, pos, eqb_ℤ}
use saqut.Types.{Text}
use saqut.Decimal.{DecimalValue, zero_decimal, is_truthy}

-- A double is its bits, and a float those of the double of the same value. A reference is an address.
pub data Value : Type 0 where
  int long_int date : ℤ → Value
  float float32 : ℕ → Value
  decimal : DecimalValue → Value
  string : Text → Value
  ref : Option ℕ → Value
  null : Value

-- The fields of the source, whatever the kind is.
abbrev pub int_value : Value → ℤ
int_value (int n) = n
int_value _ = pos 0

abbrev pub int64_value : Value → ℤ
int64_value (long_int n) = n
int64_value (date n) = n
int64_value _ = pos 0

abbrev pub float_value : Value → ℕ
float_value (float d) = d
float_value (float32 d) = d
float_value _ = 0

abbrev pub decimal_value : Value → DecimalValue
decimal_value (decimal d) = d
decimal_value _ = zero_decimal

abbrev pub string_value : Value → Text
string_value (string s) = s
string_value _ = []

abbrev pub is_floaty : Value → Bool
is_floaty (float d) = true
is_floaty (float32 d) = true
is_floaty _ = false

abbrev pub is_decimal : Value → Bool
is_decimal (decimal d) = true
is_decimal _ = false

abbrev pub as_i64 : Value → ℤ
as_i64 (long_int n) = n
as_i64 v = int_value v

unfoldable pub is_truthy_value : (ℕ → Bool) → Value → Bool
unfolding is_truthy
is_truthy_value is_zero (int n) = not (eqb_ℤ n (pos 0))
is_truthy_value is_zero (long_int n) = not (eqb_ℤ n (pos 0))
is_truthy_value is_zero (float d) = not (is_zero d)
is_truthy_value is_zero (float32 d) = not (is_zero d)
is_truthy_value is_zero (decimal d) = is_truthy d
is_truthy_value is_zero (string []) = false
is_truthy_value is_zero (string (c ∷ s)) = true
is_truthy_value is_zero (ref none) = false
is_truthy_value is_zero (ref (some a)) = true
is_truthy_value is_zero null = false
is_truthy_value is_zero (date n) = true
