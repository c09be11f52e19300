-- ===== src/Vm/Platform.antt =====
-- What the virtual machine takes from elsewhere: the floating point and the conversions of texts of the
-- C++ library, the text of decimals, the registry of modules, the host functions (src/ffi), and the
-- collector's safepoint, which Gc models. The theorems ask nothing of it.
use saqut.Prelude.{ℕ, Bool, Option, List}
use saqut.Prelude.Int.{ℤ}
use saqut.Types.{Text}
use saqut.Decimal.{DecimalValue}
use saqut.Vm.Value.{Value, float, float32, long_int, int_value}
use saqut.Vm.Store.{Store}

-- The answer of `rt_host_call`: a value, or an error with its message and code.
pub data HostAnswer : Type 0 where
  answer : Value → HostAnswer
  host_error : Text → Text → HostAnswer

pub record Platform : Type 0 where
  pub fadd : ℕ → ℕ → ℕ
  pub fsub : ℕ → ℕ → ℕ
  pub fmul : ℕ → ℕ → ℕ
  pub fdiv : ℕ → ℕ → ℕ
  pub fneg : ℕ → ℕ
  pub f32add : ℕ → ℕ → ℕ
  pub f32sub : ℕ → ℕ → ℕ
  pub f32mul : ℕ → ℕ → ℕ
  pub f32div : ℕ → ℕ → ℕ
  pub f32neg : ℕ → ℕ
  -- The double of a double rounded to a float.
  pub single : ℕ → ℕ
  pub float_eq : ℕ → ℕ → Bool
  pub float_lt : ℕ → ℕ → Bool
  pub float_le : ℕ → ℕ → Bool
  pub is_finite : ℕ → Bool
  pub double_of_int : ℤ → ℕ
  pub int_of_double : ℕ → ℤ
  -- `std::stoll`, `std::stod`, `std::stof`: the number and the bytes read, or the exception.
  pub stoll : Text → Option (ℤ × ℕ)
  pub stod : Text → Option (ℕ × ℕ)
  pub stof : Text → Option (ℕ × ℕ)
  -- `std::to_string`, a stream at its default precision and at nine digits.
  pub int_text : ℤ → Text
  pub stream_double : ℕ → Text
  pub stream_single : ℕ → Text
  -- src/core/float_format.hpp.
  pub print_double : ℕ → Text
  pub print_single : ℕ → Text
  -- `fromDouble`, `toDouble`, `toString` and `fromString` of src/core/decimal.hpp.
  pub decimal_of_double : ℕ → DecimalValue
  pub double_of_decimal : DecimalValue → ℕ
  pub decimal_text : DecimalValue → Text
  pub decimal_of_text : Text → Option DecimalValue
  pub file_path : ℤ → Text
  pub host_call : ℤ → List Value → Store → Store × HostAnswer
  -- The safepoint, from the values of the roots.
  pub collect : List Value → Store → Store

unfoldable pub as_double : Platform → Value → ℕ
as_double p (float d) = d
as_double p (float32 d) = d
as_double p (long_int n) = p.double_of_int n
as_double p v = p.double_of_int (int_value v)
