-- ===== src/Codegen/Optimized.antt =====
-- The folding pass, the generator and the virtual machine together.
use mathlib.Core.Path.{subst}
use saqut.Prelude.{◌≤◌, ◌≡◌, not, ◌&&◌, List, ◌++◌, length, if_split}
use saqut.Prelude.Int.{ℤ}
use saqut.Types.{Text}
use saqut.Ir.{Instruction}
use saqut.Folding.{
  TokenType, Expr, literal, identifier, unary, binary, postfix, call, member, index, is_scalar_lit,
  scalar_val, can_fold_unary, is_int_lit, can_fold_op, is_division, is_zero, fold, fold_unary,
  fold_binary,
}
use saqut.Folding.Expressions.{eval, IsSafe, eval-fold}
use saqut.Vm.Value.{Value}
use saqut.Vm.Store.{Store}
use saqut.Vm.Platform.{Platform}
use saqut.Vm.Machine.{Program}
use saqut.Codegen.{Generator, Place, generate}
use saqut.Codegen.Bounds.{HasCode, IsIntCode}
use saqut.Codegen.Steps.{Setting}
use saqut.Codegen.Ran.{Ran}
use saqut.Codegen.Sequence.{Holds}
use saqut.Codegen.Correct.{generate-Ran}

fold_unary-IsIntCode :
    (u : ℤ) (op : TokenType) (e : Expr) → IsIntCode e → IsIntCode (fold_unary u op e)
unfolding fold_unary
fold_unary-IsIntCode u op e h =
    if_split IsIntCode (is_scalar_lit e && can_fold_unary op) (λ _. tt) λ _. h

fold_binary-IsIntCode :
    (u : ℤ) (op : TokenType) (l r : Expr)
    → HasCode op
    → IsIntCode l
    → IsIntCode r
    → IsIntCode (fold_binary u op l r)
unfolding fold_binary
fold_binary-IsIntCode u op l r t hl hr =
    if_split IsIntCode (not (is_int_lit l && is_int_lit r)) (λ _. (t, hl, hr))
      λ _.
        if_split IsIntCode (not (can_fold_op op)) (λ _. (t, hl, hr))
          λ _.
            if_split IsIntCode (is_division op && is_zero (scalar_val r)) (λ _. (t, hl, hr)) λ _. tt

fold-IsIntCode : (u : ℤ) (e : Expr) → IsIntCode e → IsIntCode (fold u e)
unfolding fold
fold-IsIntCode u (literal x) h = h
fold-IsIntCode u (identifier x) h = h
fold-IsIntCode u (unary op e) h = fold_unary-IsIntCode u op (fold u e) (fold-IsIntCode u e h)
fold-IsIntCode u (binary op l r) (t, hl, hr) =
    fold_binary-IsIntCode u op (fold u l) (fold u r) t (fold-IsIntCode u l hl)
      (fold-IsIntCode u r hr)
fold-IsIntCode u (postfix op e) h = absurd h
fold-IsIntCode u (call f args) h = absurd h
fold-IsIntCode u (member e x) h = absurd h
fold-IsIntCode u (index e i) h = absurd h

-- An expression of the type int that does not assign, its int literals in range, is folded and
-- generated, and the code stands in a function. Where C++ defines what the pass computes, no
-- folded && or || decides by a right operand other than 0 and 1, its names have their values and
-- the frame has its slots, the virtual machine, running freely, gets from its first instruction
-- to its end with the value of the unfolded expression in the slot of the result and the slots
-- below the first new one as they were; or, where the expression has no value, to an instruction
-- that raises a division by zero.
pub fold-Ran :
    (p : Platform) (prog : Program) (st : Setting) (place : Text → Place) (env : Text → ℤ) (u : ℤ)
    (e : Expr) (g : Generator) (rest : List Instruction) (h : Store) (s : List Value)
    → IsIntCode e
    → IsSafe u e
    → st.function.instructions ≡ (generate place (fold u e) g).0.instructions ++ rest
    → Holds p prog st place env g.next_slot s
    → (generate place (fold u e) g).0.next_slot ≤ length s
    → Ran p prog st h
        (length g.instructions)
        s
        (length (generate place (fold u e) g).0.instructions)
        (generate place (fold u e) g).1
        g.next_slot
        (eval env e)
fold-Ran p prog st place env u e g rest h s ok safe same holds fits =
    subst
      (Ran p prog st h (length g.instructions) s
        (length (generate place (fold u e) g).0.instructions) (generate place (fold u e) g).1
        g.next_slot)
      (eval-fold env u e safe)
      (generate-Ran p prog st place env (fold u e) g rest h s (fold-IsIntCode u e ok) same holds
        fits)
