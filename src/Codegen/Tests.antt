-- ===== src/Codegen/Tests.antt =====
-- The code of x && (6 / x), in a frame whose slot 0 holds x.
use saqut.Prelude.{ℕ, ◌+◌, ◌≤◌, ◌≡◌, refl, none, some, List, [], ◌∷◌, ◌++◌, length, arith, ap}
use saqut.Prelude.Int.{ℤ, pos, negsuc}
use saqut.Types.{Text}
use saqut.Ir.{Instruction}
use saqut.Folding.{
  TokenType, plus, star, slash, ampersand_ampersand, literal, integer_token, identifier, binary,
  Expr, fold,
}
use saqut.Folding.Expressions.{eval}
use saqut.Vm.Value.{Value, int}
use saqut.Vm.Tests.{test_platform, seven_program, seven, empty_store}
use saqut.Codegen.{Generator, Place, local, generate}
use saqut.Codegen.Compile.{compile}
use saqut.Codegen.Backpatch.{extended, generate-compile}
use saqut.Codegen.Steps.{Setting}
use saqut.Codegen.Ran.{Ran}
use saqut.Codegen.Correct.{generate-Ran}
use saqut.Codegen.Optimized.{fold-Ran}

abbrev x_place : Text → Place
x_place x = local 0

abbrev x_env : Text → ℤ
x_env x = pos 3

abbrev guarded : Expr
guarded =
    binary ampersand_ampersand (identifier (120 ∷ []))
      (binary slash (literal (integer_token (some (pos 6)))) (identifier (120 ∷ [])))

abbrev after_x : Generator
after_x = record { instructions = []; next_slot = 1 }

abbrev code_of : Expr → List Instruction
code_of e = (generate x_place e after_x).0.instructions

abbrev setting_of : Expr → Setting
setting_of e = record {
  function = record seven { slot_count = 6; instructions = code_of e };
  return_dest = negsuc 0;
  below = [];
  globals = [];
  tries = [];
  last_return = pos 0;
}

abbrev slots_of : ℤ → List Value
slots_of x = int x ∷ int (pos 0) ∷ int (pos 0) ∷ int (pos 0) ∷ int (pos 0) ∷ int (pos 0) ∷ []

-- The jump of the short circuit leads past the copy.
length_test : length (code_of guarded) ≡ 5
unfolding generate saqut.Codegen.open_short saqut.Codegen.close_short saqut.Codegen.patch_jump
    saqut.Vm.Agreement.binary_opcode
length_test = refl

generate-compile_example :
    generate x_place guarded after_x ≡ extended after_x (compile x_place guarded 0 1)
generate-compile_example = generate-compile x_place guarded after_x

append_nil : (xs : List Instruction) → xs ≡ xs ++ []
append_nil [] = refl
append_nil (x ∷ xs) = ap (λ r. x ∷ r) (append_nil xs)

generate-Ran_example :
    Ran test_platform seven_program
      (setting_of guarded)
      empty_store
      0
      (slots_of (pos 3))
      (length (code_of guarded))
      (generate x_place guarded after_x).1
      1
      (eval x_env guarded)
unfolding generate saqut.Vm.Agreement.binary_opcode saqut.Codegen.open_short
    saqut.Codegen.close_short saqut.Codegen.patch_jump
generate-Ran_example =
    generate-Ran test_platform seven_program (setting_of guarded) x_place x_env guarded after_x []
      empty_store (slots_of (pos 3)) (tt, tt, ((_, refl), refl, tt)) (append_nil (code_of guarded))
      (λ x. (omega arith, refl)) (omega arith)

-- x + 2 * 3.
abbrev scaled : Expr
scaled =
    binary plus (identifier (120 ∷ [])) (
      binary star (literal (integer_token (some (pos 2)))) (literal (integer_token (some (pos 3)))))

abbrev folded : Expr
folded = fold (pos 0) scaled

fold-Ran_example :
    Ran test_platform seven_program
      (setting_of folded)
      empty_store
      0
      (slots_of (pos 3))
      (length (code_of folded))
      (generate x_place folded after_x).1
      1
      (eval x_env scaled)
unfolding generate saqut.Vm.Agreement.binary_opcode fold saqut.Folding.fold_binary
    saqut.Folding.compute_op saqut.Prelude.Int.◌*ℤ◌
fold-Ran_example =
    fold-Ran test_platform seven_program (setting_of folded) x_place x_env (pos 0) scaled after_x []
      empty_store (slots_of (pos 3)) ((_, refl), tt, ((_, refl), refl, refl))
      (tt, (tt, tt, λ h. (refl, refl, refl)), λ h. cc) (append_nil (code_of folded))
      (λ x. (omega arith, refl)) (omega arith)
