-- ===== src/Ir.antt =====
-- src/ir/instruction.hpp: the opcodes with the arities of their table, and an instruction with all of
-- its fields. An int is an integer in ℤ, a double its bits, a text the list of its bytes.
use saqut.Prelude.{ℕ, Bool, false, List, []}
use saqut.Prelude.Int.{ℤ, pos, negsuc}
use saqut.Decimal.{DecimalValue, zero_decimal}

-- The constants are those of OPCODE_LIST, in its order.
pub data Opcode : Type 0 where
  load_const load_string load_null load_slot add sub mul div mod_int band bor bxor shl shr bnot
        less :
      Opcode
  less_equal greater greater_equal equal_equal not_equal jmp jif_false jif_true call return : Opcode
  load_float fadd fsub fmul fdiv fneg int_to_float float_to_int load_float32 f32add f32sub f32mul :
      Opcode
  f32div f32neg int_to_float32 float32_to_int float_to_float32 float32_to_float load_long ladd :
      Opcode
  lsub lmul ldiv lmod lneg lband lbor lbxor lshl lshr lbnot int_to_long long_to_int_checked : Opcode
  struct_new field_get field_set array_new array_get array_set array_len load_global store_global :
      Opcode
  string_concat enter_try leave_try throw cast_int_to_str cast_float_to_str cast_bool_to_str :
      Opcode
  cast_str_to_int cast_str_to_float cast_float_to_int_checked cast_int_to_byte_checked : Opcode
  cast_long_to_str cast_str_to_long cast_float32_to_str cast_str_to_float32 : Opcode
  cast_float_to_long_checked load_decimal dadd dsub dmul ddiv dmod dneg int_to_decimal : Opcode
  float_to_decimal cast_decimal_to_str cast_decimal_to_float cast_decimal_to_int : Opcode
  cast_str_to_decimal callhost : Opcode

abbrev pub opcode_arity : Opcode → ℕ
opcode_arity load_const = 2
opcode_arity load_string = 2
opcode_arity load_null = 1
opcode_arity load_slot = 2
opcode_arity add = 3
opcode_arity sub = 3
opcode_arity mul = 3
opcode_arity div = 3
opcode_arity mod_int = 3
opcode_arity band = 3
opcode_arity bor = 3
opcode_arity bxor = 3
opcode_arity shl = 3
opcode_arity shr = 3
opcode_arity bnot = 2
opcode_arity less = 3
opcode_arity less_equal = 3
opcode_arity greater = 3
opcode_arity greater_equal = 3
opcode_arity equal_equal = 3
opcode_arity not_equal = 3
opcode_arity jmp = 1
opcode_arity jif_false = 2
opcode_arity jif_true = 2
opcode_arity call = 3
opcode_arity return = 1
opcode_arity load_float = 2
opcode_arity fadd = 3
opcode_arity fsub = 3
opcode_arity fmul = 3
opcode_arity fdiv = 3
opcode_arity fneg = 2
opcode_arity int_to_float = 2
opcode_arity float_to_int = 2
opcode_arity load_float32 = 2
opcode_arity f32add = 3
opcode_arity f32sub = 3
opcode_arity f32mul = 3
opcode_arity f32div = 3
opcode_arity f32neg = 2
opcode_arity int_to_float32 = 2
opcode_arity float32_to_int = 2
opcode_arity float_to_float32 = 2
opcode_arity float32_to_float = 2
opcode_arity load_long = 2
opcode_arity ladd = 3
opcode_arity lsub = 3
opcode_arity lmul = 3
opcode_arity ldiv = 3
opcode_arity lmod = 3
opcode_arity lneg = 2
opcode_arity lband = 3
opcode_arity lbor = 3
opcode_arity lbxor = 3
opcode_arity lshl = 3
opcode_arity lshr = 3
opcode_arity lbnot = 2
opcode_arity int_to_long = 2
opcode_arity long_to_int_checked = 3
opcode_arity struct_new = 3
opcode_arity field_get = 3
opcode_arity field_set = 3
opcode_arity array_new = 3
opcode_arity array_get = 3
opcode_arity array_set = 3
opcode_arity array_len = 2
opcode_arity load_global = 2
opcode_arity store_global = 2
opcode_arity string_concat = 3
opcode_arity enter_try = 2
opcode_arity leave_try = 0
opcode_arity throw = 1
opcode_arity cast_int_to_str = 2
opcode_arity cast_float_to_str = 2
opcode_arity cast_bool_to_str = 2
opcode_arity cast_str_to_int = 3
opcode_arity cast_str_to_float = 3
opcode_arity cast_float_to_int_checked = 3
opcode_arity cast_int_to_byte_checked = 3
opcode_arity cast_long_to_str = 2
opcode_arity cast_str_to_long = 3
opcode_arity cast_float32_to_str = 2
opcode_arity cast_str_to_float32 = 3
opcode_arity cast_float_to_long_checked = 3
opcode_arity load_decimal = 2
opcode_arity dadd = 3
opcode_arity dsub = 3
opcode_arity dmul = 3
opcode_arity ddiv = 3
opcode_arity dmod = 3
opcode_arity dneg = 2
opcode_arity int_to_decimal = 2
opcode_arity float_to_decimal = 2
opcode_arity cast_decimal_to_str = 2
opcode_arity cast_decimal_to_float = 2
opcode_arity cast_decimal_to_int = 3
opcode_arity cast_str_to_decimal = 3
opcode_arity callhost = 2

pub data SlotType : Type 0 where
  int_slot long_int_slot float_slot float32_slot ref_slot str_slot : SlotType
  decimal_slot date_slot unknown_slot : SlotType

-- ArrayElemKind of src/core/array_elem_kind.hpp.
pub data ArrayElemKind : Type 0 where
  ref_elem byte_elem int_elem long_int_elem float32_elem float64_elem decimal_elem : ArrayElemKind

pub record Instruction : Type 0 where
  pub opcode : Opcode
  pub dest : ℤ
  pub src : ℤ
  pub left : ℤ
  pub right : ℤ
  pub int_value : ℤ
  pub int64_value : ℤ
  pub float_value : ℕ
  pub decimal_value : DecimalValue
  pub string_value : List ℕ
  pub jump_target : ℤ
  pub cond : ℤ
  pub function_name : List ℕ
  pub arg_slots : List ℤ
  pub field_names : List (List ℕ)
  pub array_elem_kind : ArrayElemKind
  pub value_type : SlotType
  pub value_nullable : Bool
  pub source_line : ℤ
  pub source_col : ℤ
  pub source_file : List ℕ

-- The constructor, which leaves every other field at its default.
abbrev pub instruction : Opcode → Instruction
instruction op = record {
  opcode = op;
  dest = negsuc 0;
  src = negsuc 0;
  left = negsuc 0;
  right = negsuc 0;
  int_value = pos 0;
  int64_value = pos 0;
  float_value = 0;
  decimal_value = zero_decimal;
  string_value = [];
  jump_target = negsuc 0;
  cond = negsuc 0;
  function_name = [];
  arg_slots = [];
  field_names = [];
  array_elem_kind = ref_elem;
  value_type = unknown_slot;
  value_nullable = false;
  source_line = pos 0;
  source_col = pos 0;
  source_file = [];
}
