-- ===== src/Vm/Forms.antt =====
-- src/vm/interpreter.cpp: the `switch` of `Interpreter::runUntilEvent`. A form says which slots an opcode
-- reads and writes, and holds what it computes; Exec runs the forms.
use saqut.Prelude.{ℕ, ◌+◌, ◌*◌, ◌%◌, max, Bool, not, ◌++◌, if◌then◌else◌}
use saqut.Prelude.Int.{ℤ, ltb_ℤ, leb_ℤ}
use saqut.Prelude.Texts.{codes}
use saqut.Ir.{
  Instruction, Opcode, load_const, load_string, load_null, load_slot, add, sub, mul, div, mod_int,
  band, bor, bxor, shl, shr, bnot, less, less_equal, greater, greater_equal, equal_equal, not_equal,
  jmp, jif_false, jif_true, load_float, fadd, fsub, fmul, fdiv, fneg, int_to_float, float_to_int,
  load_float32, f32add, f32sub, f32mul, f32div, f32neg, int_to_float32, float32_to_int,
  float_to_float32, float32_to_float, load_long, ladd, lsub, lmul, ldiv, lmod, lneg, lband, lbor,
  lbxor, lshl, lshr, lbnot, int_to_long, long_to_int_checked, struct_new, field_get, field_set,
  array_new, array_get, array_set, array_len, load_global, store_global, string_concat, enter_try,
  leave_try, cast_int_to_str, cast_float_to_str, cast_bool_to_str, cast_str_to_int,
  cast_str_to_float, cast_float_to_int_checked, cast_int_to_byte_checked, cast_long_to_str,
  cast_str_to_long, cast_float32_to_str, cast_str_to_float32, cast_float_to_long_checked,
  load_decimal, dadd, dsub, dmul, ddiv, dmod, dneg, int_to_decimal, float_to_decimal,
  cast_decimal_to_str, cast_decimal_to_float, cast_decimal_to_int, cast_str_to_decimal,
}
use saqut.Decimal
use saqut.Folding.{
  bit, bits_op, complement, is_zero, wrap_add, wrap_sub, wrap_mul, wrap_shl, wrap_shr,
}
use saqut.Vm.Value.{
  Value, int, long_int, float, float32, decimal, string, null, int_value, int64_value, float_value,
  decimal_value, string_value,
}
use saqut.Vm.Platform.{Platform}
use saqut.Vm.Operators.{
  Outcome, value, run_div, run_mod, run_order, run_equal, wrap_add_long, wrap_sub_long,
  wrap_mul_long, wrap_shl_long, wrap_shr_long, wrap_neg_long, bits_op_long, run_ldiv, run_lmod,
  run_fdiv, run_f32div, decimal_result, decimal_quotient,
}
use saqut.Vm.Casts.{
  long_to_int, float32_to_int_value, float_to_int_checked, float_to_long_checked,
  int_to_byte_checked, str_to_int, str_to_long, str_to_float, str_to_float32, str_to_decimal,
  decimal_to_int,
}

pub data Form : Type 0 where
  constant : (Platform → Instruction → Value) → Form
  unary : (Platform → Bool → Value → Outcome) → Form
  binary : (Platform → Value → Value → Outcome) → Form
  get_global set_global jump jump_unless jump_if calling returning : Form
  new_struct get_field set_field new_array get_element set_element get_length : Form
  entering_try leaving_try throwing calling_host : Form

abbrev on_ints : (ℤ → ℤ → ℤ) → Form
on_ints f = binary λ p l r. value (int (f (int_value l) (int_value r)))

abbrev on_longs : (ℤ → ℤ → ℤ) → Form
on_longs f = binary λ p l r. value (long_int (f (int64_value l) (int64_value r)))

abbrev on_floats : (Platform → ℕ → ℕ → ℕ) → Form
on_floats f = binary λ p l r. value (float (f p (float_value l) (float_value r)))

abbrev on_singles : (Platform → ℕ → ℕ → ℕ) → Form
on_singles f = binary λ p l r. value (float32 (p.single (f p (float_value l) (float_value r))))

abbrev ordering : (ℤ → ℤ → Bool) → (Platform → ℕ → ℕ → Bool) → Form
ordering o f = binary λ p l r. value (int (bit (run_order p o (f p) l r)))

-- A conversion that cannot fail.
abbrev convert : (Platform → Value → Value) → Form
convert f = unary λ p nullable v. value (f p v)

-- The decimals, the strings and the error handling; the opcodes before have their own clauses.
unfoldable pub last_form : Opcode → Form
unfolding decimal_quotient decimal_result
last_form load_decimal = constant λ p i. decimal i.decimal_value
last_form dadd = binary λ p l r. decimal_result (Decimal.add (decimal_value l) (decimal_value r))
last_form dsub = binary λ p l r. decimal_result (Decimal.sub (decimal_value l) (decimal_value r))
last_form dmul = binary λ p l r. decimal_result (Decimal.mul (decimal_value l) (decimal_value r))
last_form ddiv = binary λ p. decimal_quotient Decimal.div (codes "decimal division by zero")
last_form dmod = binary λ p. decimal_quotient Decimal.modulo (codes "decimal modulo by zero")
last_form dneg = convert λ p v. decimal (Decimal.neg (decimal_value v))
last_form int_to_decimal = convert λ p v. decimal (Decimal.from_int (int_value v))
last_form float_to_decimal = convert λ p v. decimal (p.decimal_of_double (float_value v))
last_form cast_decimal_to_str = convert λ p v. string (p.decimal_text (decimal_value v))
last_form cast_decimal_to_float = convert λ p v. float (p.double_of_decimal (decimal_value v))
last_form cast_decimal_to_int = unary decimal_to_int
last_form cast_str_to_decimal = unary str_to_decimal
last_form string_concat = binary λ p l r. value (string (string_value l ++ string_value r))
last_form enter_try = entering_try
last_form leave_try = leaving_try
last_form Opcode.throw = throwing
last_form _ = calling_host

unfoldable pub object_form : Opcode → Form
unfolding last_form
object_form struct_new = new_struct
object_form field_get = get_field
object_form field_set = set_field
object_form array_new = new_array
object_form array_get = get_element
object_form array_set = set_element
object_form array_len = get_length
object_form cast_int_to_str = convert λ p v. string (p.int_text (int_value v))
object_form cast_float_to_str = convert λ p v. string (p.stream_double (float_value v))
object_form cast_bool_to_str =
    convert λ p v. string (if is_zero (int_value v) then codes "false" else codes "true")
object_form cast_str_to_int = unary str_to_int
object_form cast_str_to_float = unary str_to_float
object_form cast_float_to_int_checked = unary float_to_int_checked
object_form cast_long_to_str = convert λ p v. string (p.int_text (int64_value v))
object_form cast_str_to_long = unary str_to_long
object_form cast_float32_to_str = convert λ p v. string (p.stream_single (p.single (float_value v)))
object_form cast_str_to_float32 = unary str_to_float32
object_form cast_float_to_long_checked = unary float_to_long_checked
object_form cast_int_to_byte_checked = unary int_to_byte_checked
object_form op = last_form op

unfoldable pub float_form : Opcode → Form
unfolding object_form run_fdiv run_f32div run_ldiv run_lmod
float_form load_float = constant λ p i. float i.float_value
float_form fadd = on_floats λ p. p.fadd
float_form fsub = on_floats λ p. p.fsub
float_form fmul = on_floats λ p. p.fmul
float_form fdiv = binary run_fdiv
float_form fneg = convert λ p v. float (p.fneg (float_value v))
float_form int_to_float = convert λ p v. float (p.double_of_int (int_value v))
float_form float_to_int = convert λ p v. int (p.int_of_double (float_value v))
float_form load_float32 = constant λ p i. float32 (p.single i.float_value)
float_form f32add = on_singles λ p. p.f32add
float_form f32sub = on_singles λ p. p.f32sub
float_form f32mul = on_singles λ p. p.f32mul
float_form f32div = binary run_f32div
float_form f32neg = convert λ p v. float32 (p.single (p.f32neg (float_value v)))
float_form int_to_float32 = convert λ p v. float32 (p.single (p.double_of_int (int_value v)))
float_form float32_to_int = unary float32_to_int_value
float_form float_to_float32 = convert λ p v. float32 (p.single (float_value v))
float_form float32_to_float = convert λ p v. float (float_value v)
float_form load_long = constant λ p i. long_int i.int64_value
float_form ladd = on_longs wrap_add_long
float_form lsub = on_longs wrap_sub_long
float_form lmul = on_longs wrap_mul_long
float_form ldiv = binary λ p. run_ldiv
float_form lmod = binary λ p. run_lmod
float_form lneg = convert λ p v. long_int (wrap_neg_long (int64_value v))
float_form lband = on_longs (bits_op_long λ a b. a * b)
float_form lbor = on_longs (bits_op_long max)
float_form lbxor = on_longs (bits_op_long λ a b. (a + b) % 2)
float_form lshl = on_longs wrap_shl_long
float_form lshr = on_longs wrap_shr_long
float_form lbnot = convert λ p v. long_int (complement (int64_value v))
float_form int_to_long = convert λ p v. long_int (int_value v)
float_form long_to_int_checked = unary long_to_int
float_form op = object_form op

-- The form of every opcode: the cases of the switch, in its order.
unfoldable pub form : Opcode → Form
unfolding float_form run_div run_mod
form load_const = constant λ p i. int i.int_value
form load_string = constant λ p i. string i.string_value
form load_null = constant λ p i. null
form load_slot = convert λ p v. v
form add = on_ints wrap_add
form sub = on_ints wrap_sub
form mul = on_ints wrap_mul
form div = binary λ p. run_div
form mod_int = binary λ p. run_mod
form band = on_ints (bits_op λ a b. a * b)
form bor = on_ints (bits_op max)
form bxor = on_ints (bits_op λ a b. (a + b) % 2)
form shl = on_ints wrap_shl
form shr = on_ints wrap_shr
form bnot = convert λ p v. int (complement (int_value v))
form load_global = get_global
form store_global = set_global
form less = ordering ltb_ℤ λ p. p.float_lt
form less_equal = ordering leb_ℤ λ p. p.float_le
form greater = ordering (λ a b. ltb_ℤ b a) λ p a b. p.float_lt b a
form greater_equal = ordering (λ a b. leb_ℤ b a) λ p a b. p.float_le b a
form equal_equal = binary λ p l r. value (int (bit (run_equal p l r)))
form not_equal = binary λ p l r. value (int (bit (not (run_equal p l r))))
form jmp = jump
form jif_false = jump_unless
form jif_true = jump_if
form Opcode.call = calling
form Opcode.return = returning
form op = float_form op
