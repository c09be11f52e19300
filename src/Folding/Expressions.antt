-- ===== src/Folding/Expressions.antt =====
-- Folding and the values of expressions, as the generated code computes them.
use saqut.Prelude.{
  ◌≡◌, refl, sym, ap, ◌∙◌, Bool, true, false, not, ◌&&◌, Option, none, some, if◌then◌else◌,
  if_split, arith,
}
use saqut.Prelude.Int.{ℤ, pos}
use saqut.Types.{Text}
use saqut.Folding.{
  TokenType, ampersand_ampersand, pipe_pipe, direct, integer_token, boolean_token, other_literal,
  Expr, literal, identifier, unary, binary, postfix, call, member, index, fits_int32, is_int_lit,
  is_scalar_lit, scalar_val, can_fold_unary, can_fold_op, is_zero, is_division, fold_unary,
  fold_binary, fold, run_binary, run_unary,
}
use saqut.Folding.Agreement.{
  defined_op, defined_unary, run_binary-compute_op, run_unary-compute_unary,
}

abbrev pub eval_unary : TokenType → Option ℤ → Option ℤ
eval_unary op none = none
eval_unary op (some v) = some (run_unary op v)

abbrev pub both : TokenType → Option ℤ → Option ℤ → Option ℤ
both op none r = none
both op (some a) none = none
both op (some a) (some b) = run_binary op a b

-- The right operand of a logical operator counts only where the left one does not decide.
abbrev pub short_circuit : Option ℤ → Option ℤ → Option ℤ → Option ℤ
short_circuit none zero other = none
short_circuit (some a) zero other = if is_zero a then zero else other

abbrev pub eval_binary : TokenType → Option ℤ → Option ℤ → Option ℤ
eval_binary ampersand_ampersand l r = short_circuit l (some (pos 0)) r
eval_binary pipe_pipe l r = short_circuit l r (some (pos 1))
eval_binary op l r = both op l r

-- The value of an expression of the type int; a division by zero has none, and the other kinds of
-- expressions have none here.
unfoldable pub eval : (Text → ℤ) → Expr → Option ℤ
eval env (literal (direct v)) = some v
eval env (literal (integer_token (some v))) = if fits_int32 v then some v else none
eval env (literal (integer_token none)) = none
eval env (literal (boolean_token true)) = some (pos 1)
eval env (literal (boolean_token false)) = some (pos 0)
eval env (literal other_literal) = none
eval env (identifier x) = some (env x)
eval env (unary op e) = eval_unary op (eval env e)
eval env (binary op l r) = eval_binary op (eval env l) (eval env r)
eval env (postfix op e) = none
eval env (call f args) = none
eval env (member e x) = none
eval env (index e i) = none

-- C++ defines what the pass computes at an operator, on operands that are folded.
abbrev pub SafeUnary : TokenType → Expr → Type 0
SafeUnary op e =
    (is_scalar_lit e && can_fold_unary op) ≡ true
    → (fits_int32 (scalar_val e) ≡ true) × (defined_unary op (scalar_val e) ≡ true)

abbrev pub SafeBinary : TokenType → Expr → Expr → Type 0
SafeBinary op l r =
    (is_int_lit l && is_int_lit r) ≡ true
    → (fits_int32 (scalar_val l) ≡ true)
      × (fits_int32 (scalar_val r) ≡ true)
      × (defined_op op (scalar_val l) (scalar_val r) ≡ true)

-- C++ defines all that the pass computes.
abbrev pub IsSafe : ℤ → Expr → Type 0
IsSafe u (literal x) = Unit
IsSafe u (identifier x) = Unit
IsSafe u (unary op e) = IsSafe u e × SafeUnary op (fold u e)
IsSafe u (binary op l r) = IsSafe u l × IsSafe u r × SafeBinary op (fold u l) (fold u r)
IsSafe u (postfix op e) = Unit
IsSafe u (call f args) = Unit
IsSafe u (member e x) = Unit
IsSafe u (index e i) = Unit

&&-left : (a b : Bool) → (a && b) ≡ true → a ≡ true
&&-left true b h = refl
&&-left false b h = cc

&&-right : (a b : Bool) → (a && b) ≡ true → b ≡ true
&&-right true b h = h
&&-right false b h = cc

not-false : (b : Bool) → not b ≡ false → b ≡ true
not-false true h = refl
not-false false h = cc

int_lit-eval : (env : Text → ℤ) (e : Expr) → is_int_lit e ≡ true → eval env e ≡ some (scalar_val e)
unfolding eval
int_lit-eval env (literal (direct v)) h = refl
int_lit-eval env (literal (integer_token (some v))) h = rw h refl
int_lit-eval env _ h = cc

scalar_lit-eval :
    (env : Text → ℤ) (e : Expr) → is_scalar_lit e ≡ true → eval env e ≡ some (scalar_val e)
unfolding eval
scalar_lit-eval env (literal (boolean_token true)) h = refl
scalar_lit-eval env (literal (boolean_token false)) h = refl
scalar_lit-eval env (literal (direct v)) h = refl
scalar_lit-eval env (literal (integer_token (some v))) h = rw h refl
scalar_lit-eval env _ h = cc

eval_binary-values :
    (op : TokenType) (a b : ℤ) → eval_binary op (some a) (some b) ≡ run_binary op a b
unfolding run_binary
eval_binary-values ampersand_ampersand a b = ground arith
eval_binary-values pipe_pipe a b = ground arith
eval_binary-values _ a b = refl

eval-fold_unary :
    (env : Text → ℤ) (u : ℤ) (op : TokenType) (e : Expr)
    → SafeUnary op e
    → eval env (fold_unary u op e) ≡ eval_unary op (eval env e)
unfolding fold_unary eval
eval-fold_unary env u op e s =
    if_split (λ (x : Expr). eval env x ≡ eval_unary op (eval env e))
      (is_scalar_lit e && can_fold_unary op)
      (λ c.
        let (fits, def) = s c in
        ap some (sym (run_unary-compute_unary u op (scalar_val e) fits (&&-right _ _ c) def))
        ∙ sym (ap (eval_unary op) (scalar_lit-eval env e (&&-left _ _ c))))
      (λ _. refl)

eval-fold_binary :
    (env : Text → ℤ) (u : ℤ) (op : TokenType) (l r : Expr)
    → SafeBinary op l r
    → eval env (fold_binary u op l r) ≡ eval_binary op (eval env l) (eval env r)
unfolding fold_binary eval
eval-fold_binary env u op l r s =
    let Same = λ (x : Expr). eval env x ≡ eval_binary op (eval env l) (eval env r) in
    if_split Same (not (is_int_lit l && is_int_lit r)) (λ _. refl)
      (λ c.
        if_split Same (not (can_fold_op op)) (λ _. refl)
          (λ d.
            if_split Same (is_division op && is_zero (scalar_val r)) (λ _. refl)
              (λ z.
                let lits : (is_int_lit l && is_int_lit r) ≡ true = not-false _ c in
                let (fits_l, fits_r, def) = s lits in
                sym (
                  run_binary-compute_op u op (scalar_val l) (scalar_val r) fits_l fits_r
                    (not-false _ d) z def)
                ∙ sym (eval_binary-values op (scalar_val l) (scalar_val r))
                ∙ cc (
                  int_lit-eval env l (&&-left (is_int_lit l) (is_int_lit r) lits),
                  int_lit-eval env r (&&-right (is_int_lit l) (is_int_lit r) lits),
                ))))

-- Where C++ defines every operation that the folding pass computes, and no folded && or ||
-- decides by a right operand other than 0 and 1, folding keeps the value of an expression of the
-- type int, an error by a division by zero included.
pub eval-fold : (env : Text → ℤ) (u : ℤ) (e : Expr) → IsSafe u e → eval env (fold u e) ≡ eval env e
unfolding fold eval
eval-fold env u (literal x) s = refl
eval-fold env u (identifier x) s = refl
eval-fold env u (unary op e) s =
    eval-fold_unary env u op (fold u e) s.1 ∙ ap (eval_unary op) (eval-fold env u e s.0)
eval-fold env u (binary op l r) s =
    eval-fold_binary env u op (fold u l) (fold u r) s.2
    ∙ ap (λ o. eval_binary op o (eval env (fold u r))) (eval-fold env u l s.0)
    ∙ ap (eval_binary op (eval env l)) (eval-fold env u r s.1)
eval-fold env u (postfix op e) s = refl
eval-fold env u (call f args) s = refl
eval-fold env u (member e x) s = refl
eval-fold env u (index e i) s = refl
