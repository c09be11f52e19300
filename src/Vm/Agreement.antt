-- ===== src/Vm/Agreement.antt =====
-- The int operators of Folding are those of the virtual machine: src/ir/ir_generator.cpp picks the opcodes and
-- src/vm/interpreter.cpp runs them.
use saqut.Prelude.{◌≡◌, Option, none, some, arith}
use saqut.Prelude.Int.{ℤ}
use saqut.Prelude.Texts.{codes}
use saqut.Ir.{
  Opcode, add, sub, mul, div, mod_int, band, bor, bxor, shl, shr, less, less_equal, greater,
  greater_equal, equal_equal, not_equal,
}
use saqut.Folding.{
  TokenType, plus, minus, star, slash, percent, bang_equal, ampersand, pipe, caret, lshift, rshift,
  run_binary,
}
use saqut.Vm.Value.{Value, int}
use saqut.Vm.Platform.{Platform}
use saqut.Vm.Operators.{
  Outcome, value, run_div, run_mod, run_order, run_equal, equal_kinds, divzero, mod_message,
}
use saqut.Vm.Forms.{Form, form, binary}

-- The opcodes of the binary operators on ints; `none` for the operators that are not one instruction.
unfoldable pub binary_opcode : TokenType → Option Opcode
binary_opcode plus = some add
binary_opcode minus = some sub
binary_opcode star = some mul
binary_opcode slash = some div
binary_opcode percent = some mod_int
binary_opcode TokenType.less = some less
binary_opcode TokenType.less_equal = some less_equal
binary_opcode TokenType.greater = some greater
binary_opcode TokenType.greater_equal = some greater_equal
binary_opcode TokenType.equal_equal = some equal_equal
binary_opcode bang_equal = some not_equal
binary_opcode ampersand = some band
binary_opcode pipe = some bor
binary_opcode caret = some bxor
binary_opcode lshift = some shl
binary_opcode rshift = some shr
binary_opcode _ = none

-- What a form computes of two operands.
abbrev pub computed : Platform → Form → Value → Value → Option Outcome
computed p (binary f) l r = some (f p l r)
computed p _ l r = none

-- The outcome that stands for a result of Folding: a value, or the error of a division by zero.
abbrev pub outcome_for : TokenType → Option ℤ → Outcome
outcome_for op (some z) = value (int z)
outcome_for percent none = divzero mod_message
outcome_for op none = divzero (codes "division by zero")

-- For every binary operator that is one instruction, the opcode that the generator emits computes
-- of two ints what `run_binary` of the folding model says, and raises a division by zero exactly
-- where that has no value.
pub computed-run_binary :
    (p : Platform) (op : TokenType) (opcode : Opcode) (l r : ℤ)
    → binary_opcode op ≡ some opcode
    → computed p (form opcode) (int l) (int r) ≡ some (outcome_for op (run_binary op l r))
unfolding binary_opcode form run_binary run_div run_mod run_order run_equal equal_kinds
computed-run_binary p op opcode l r e = ground arith
