-- ===== src/Folding/Tests.antt =====
-- x + (2 * 3 - 1), and operations that C++ leaves undefined.
use saqut.Prelude.{ℕ, ◌≡◌, refl, none, some, [], ◌∷◌}
use saqut.Prelude.Int.{ℤ, pos, negsuc}
use saqut.Types.{Text}
use saqut.Folding.{
  TokenType, plus, minus, star, slash, bang, Expr, literal, direct, integer_token, identifier,
  binary, compute_op, run_binary, compute_unary, run_unary, fold,
}
use saqut.Folding.Agreement.{run_binary-compute_op}
use saqut.Folding.Expressions.{eval, eval-fold}

abbrev env : Text → ℤ
env x = pos 7

abbrev int_lit : ℕ → Expr
int_lit n = literal (integer_token (some (pos n)))

abbrev sum : Expr
sum =
    binary plus (identifier (120 ∷ []))
      (binary minus (binary star (int_lit 2) (int_lit 3)) (int_lit 1))

fold_test : fold (pos 0) sum ≡ binary plus (identifier (120 ∷ [])) (literal (direct (pos 5)))
unfolding fold saqut.Folding.fold_binary compute_op saqut.Prelude.Int.◌-ℤ◌ saqut.Prelude.Int.◌*ℤ◌
fold_test = refl

-- The virtual machine wraps around.
run_binary_test : run_binary plus (pos 2147483647) (pos 1) ≡ some (negsuc 2147483647)
unfolding run_binary saqut.Folding.wrap_add saqut.Prelude.Word.of_bits saqut.Prelude.Word.to_bits
run_binary_test = refl

run_binary-compute_op_example :
    run_binary star (negsuc 5) (pos 7) ≡ some (compute_op (pos 0) star (negsuc 5) (pos 7))
unfolding saqut.Prelude.Int.◌*ℤ◌
run_binary-compute_op_example =
    run_binary-compute_op (pos 0) star (negsuc 5) (pos 7) refl refl refl refl refl

eval-fold_example : eval env (fold (pos 0) sum) ≡ eval env sum
unfolding fold saqut.Prelude.Int.◌*ℤ◌ saqut.Folding.fold_binary compute_op saqut.Prelude.Int.◌-ℤ◌
eval-fold_example =
    eval-fold env (pos 0) sum
      (tt, ((tt, tt, λ h. (refl, refl, refl)), tt, λ h. (refl, refl, refl)), λ h. cc)
