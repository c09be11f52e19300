-- ===== src/Codegen.antt =====
-- src/ir/ir_generator.cpp: `IRGenerator::generateExpression` on the expressions of the type int that do not
-- assign: literals, variables, unary and binary operators, and the short circuit of && and ||. Locations of the
-- source, and the type of the global in LOAD_GLOBAL, are left at their default.
pub mod Compile
pub mod Backpatch
pub mod Steps
pub mod Moves
pub mod Ran
pub mod Sequence
pub mod Operators
pub mod ShortCircuit
pub mod Bounds
pub mod Leaves
pub mod Correct
pub mod Optimized
mod Tests
use saqut.Prelude.{
  ℕ, suc, ◌+◌, Option, none, some, List, [], ◌∷◌, ◌++◌, length, get_elem?, set, Bool, true, false,
}
use saqut.Prelude.Int.{ℤ, pos, negsuc}
use saqut.Prelude.Word.{to_bits, of_bits}
use saqut.Types.{Text}
use saqut.Ir.{
  Instruction, Opcode, instruction, load_const, load_slot, load_global, sub, equal_equal, bnot,
  jif_false, jif_true,
}
use saqut.Folding.{
  TokenType, minus, bang, tilde, ampersand_ampersand, pipe_pipe, Literal, direct, integer_token,
  boolean_token, other_literal, Expr, literal, identifier, unary, binary, word,
}
use saqut.Vm.Agreement.{binary_opcode}

-- The instructions of the current function and the next slot; a slot and an index are natural numbers.
pub record Generator : Type 0 where
  pub instructions : List Instruction
  pub next_slot : ℕ

-- `isGlobal` and `lookupVariable`: where a name stands.
pub data Place : Type 0 where
  local global : ℕ → Place

abbrev pub fresh : Generator → Generator
fresh g = record g { next_slot = g.next_slot + 1 }

abbrev pub emit : Instruction → Generator → Generator
emit i g = record g { instructions = g.instructions ++ i ∷ [] }

abbrev pub load_const_to : ℕ → ℤ → Instruction
load_const_to dest v = record (instruction load_const) { dest = pos dest; int_value = v }

abbrev pub load_slot_to : ℕ → ℕ → Instruction
load_slot_to dest src = record (instruction load_slot) { dest = pos dest; src = pos src }

abbrev pub load_global_to : ℕ → ℕ → Instruction
load_global_to dest index = record (instruction load_global) {
  dest = pos dest;
  int_value = pos index;
}

abbrev pub bnot_to : ℕ → ℕ → Instruction
bnot_to dest src = record (instruction bnot) { dest = pos dest; src = pos src }

abbrev pub binary_op : Opcode → ℕ → ℕ → ℕ → Instruction
binary_op op dest l r = record (instruction op) { dest = pos dest; left = pos l; right = pos r }

-- A jump whose target is not known yet has -1.
abbrev pub conditional : Opcode → ℕ → ℤ → Instruction
conditional op slot target = record (instruction op) { cond = pos slot; jump_target = target }

abbrev pub with_target : Instruction → ℤ → Instruction
with_target i target = record i { jump_target = target }

abbrev pub patched : Option Instruction → ℕ → Generator → Generator
patched none index g = g
patched (some i) index g = record g {
  instructions = set g.instructions index (with_target i (pos (length g.instructions)));
}

-- `patchJump`: the target of a jump is the current position.
unfoldable pub patch_jump : ℕ → Generator → Generator
patch_jump index g = patched (get_elem? g.instructions index) index g

-- The value that a literal loads; a token out of the range of an int is cut to its low bits.
abbrev pub literal_value : Literal → ℤ
literal_value (direct v) = v
literal_value (integer_token (some v)) = of_bits word (to_bits word v)
literal_value (integer_token none) = pos 0
literal_value (boolean_token true) = pos 1
literal_value (boolean_token false) = pos 0
literal_value other_literal = pos 0

-- The end of a unary operator, on the slot of its operand: the result's slot is taken first.
unfoldable pub generate_unary : TokenType → ℕ → Generator → Generator × ℕ
generate_unary minus s g = (
  emit (binary_op sub g.next_slot (g.next_slot + 1) s)
      (emit (load_const_to (g.next_slot + 1) (pos 0)) (fresh (fresh g))),
  g.next_slot,
)
generate_unary bang s g = (
  emit (binary_op equal_equal g.next_slot s (g.next_slot + 1))
      (emit (load_const_to (g.next_slot + 1) (pos 0)) (fresh (fresh g))),
  g.next_slot,
)
generate_unary tilde s g = (emit (bnot_to g.next_slot s) (fresh g), g.next_slot)
generate_unary _ s g = (emit (load_slot_to g.next_slot s) (fresh g), g.next_slot)

-- The start of a short circuit, on the slot of the left operand: the default, and the jump over the right
-- operand; the result is the slot and the index of the jump.
unfoldable pub open_short : Opcode → ℤ → ℕ → Generator → Generator × ℕ × ℕ
open_short op default s g =
    let g' : Generator = emit (load_const_to g.next_slot default) (fresh g) in
    (emit (conditional op s (negsuc 0)) g', g.next_slot, length g'.instructions)

unfoldable pub close_short : ℕ → ℕ → ℕ → Generator → Generator × ℕ
unfolding patch_jump
close_short result jump s g = (patch_jump jump (emit (load_slot_to result s) g), result)

-- A binary operator on its operands' generators; for an operator that is not binary the source loads 0.
abbrev pub generate_operator :
    Option Opcode
    → (Generator → Generator × ℕ)
    → (Generator → Generator × ℕ)
    → Generator
    → Generator × ℕ
generate_operator (some op) left right g =
    let l : Generator × ℕ = left g in
    let r : Generator × ℕ = right l.0 in
    (emit (binary_op op r.0.next_slot l.1 r.1) (fresh r.0), r.0.next_slot)
generate_operator none left right g =
    (emit (load_const_to g.next_slot (pos 0)) (fresh g), g.next_slot)

-- && and ||: the opcode of the jump and the default.
abbrev pub generate_short :
    Opcode
    → ℤ
    → (Generator → Generator × ℕ)
    → (Generator → Generator × ℕ)
    → Generator
    → Generator × ℕ
generate_short op default left right g =
    let l : Generator × ℕ = left g in
    let opened : Generator × ℕ × ℕ = open_short op default l.1 l.0 in
    let r : Generator × ℕ = right opened.0 in close_short opened.1 opened.2 r.1 r.0

abbrev pub generate_place : Place → Generator → Generator × ℕ
generate_place (local s) g = (g, s)
generate_place (global k) g = (emit (load_global_to g.next_slot k) (fresh g), g.next_slot)

-- An expression of another kind has no code here.
unfoldable pub generate : (Text → Place) → Expr → Generator → Generator × ℕ
unfolding generate_unary open_short close_short
generate place (literal x) g =
    (emit (load_const_to g.next_slot (literal_value x)) (fresh g), g.next_slot)
generate place (identifier x) g = generate_place (place x) g
generate place (unary op e) g =
    let made : Generator × ℕ = generate place e g in generate_unary op made.1 made.0
generate place (binary ampersand_ampersand l r) g =
    generate_short jif_false (pos 0) (generate place l) (generate place r) g
generate place (binary pipe_pipe l r) g =
    generate_short jif_true (pos 1) (generate place l) (generate place r) g
generate place (binary op l r) g =
    generate_operator (binary_opcode op) (generate place l) (generate place r) g
generate place e g = (g, 0)
