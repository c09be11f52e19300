-- ===== src/Folding.antt =====
-- src/opt/constant_folding.hpp: the folding of expressions over literals of the type int, beside the same
-- operators as the virtual machine runs them (src/vm/interpreter.cpp, reached through
-- src/ir/ir_generator.cpp). `ub` stands for what the C++ compiler makes of a signed operation that the
-- language leaves undefined.
pub mod Agreement
pub mod Expressions
mod Tests
use saqut.Prelude.{
  ℕ, zero, suc, ◌+◌, ◌-◌, ◌*◌, ◌/◌, ◌%◌, ◌^◌, max, Bool, true, false, not, ◌&&◌, ◌||◌, Option, none,
  some, List, [], ltb, leb, ◌==◌, if◌then◌else◌,
}
use saqut.Prelude.Int.{
  ℤ, pos, negsuc, is_neg, pos_part, ◌+ℤ◌, ◌-ℤ◌, ◌*ℤ◌, neg_ℤ, div_ℤ, mod_ℤ, ltb_ℤ, leb_ℤ, eqb_ℤ,
}
use saqut.Prelude.Word.{to_bits, of_bits}
use saqut.Types.{Text}

-- The operators among the tokens.
pub data TokenType : Type 0 where
  plus minus star slash percent equal_equal bang_equal less greater less_equal : TokenType
  greater_equal ampersand pipe caret lshift rshift ampersand_ampersand pipe_pipe : TokenType
  bang tilde other_token : TokenType

-- An integer token has the value that `parseIntegerLiteral` reads, or none where that throws.
pub data Literal : Type 0 where
  direct : ℤ → Literal
  integer_token : Option ℤ → Literal
  boolean_token : Bool → Literal
  other_literal : Literal

-- The nodes that folding descends into, with the fields it reads and sets.
mutual
  pub data Expr : Type 0 where
    literal : Literal → Expr
    identifier : Text → Expr
    unary : TokenType → Expr → Expr
    binary : TokenType → Expr → Expr → Expr
    postfix : TokenType → Expr → Expr
    call : Expr → Exprs → Expr
    member : Expr → Text → Expr
    index : Expr → Expr → Expr

  pub data Exprs : Type 0 where
    no_exprs : Exprs
    argument : Expr → Exprs → Exprs

abbrev pub word : ℕ
word = 4294967296

abbrev pub fits_int32 : ℤ → Bool
fits_int32 z = leb_ℤ (negsuc 2147483647) z && leb_ℤ z (pos 2147483647)

abbrev pub is_int_lit : Expr → Bool
is_int_lit (literal (direct v)) = true
is_int_lit (literal (integer_token (some v))) = fits_int32 v
is_int_lit _ = false

abbrev pub is_scalar_lit : Expr → Bool
is_scalar_lit (literal (boolean_token b)) = true
is_scalar_lit e = is_int_lit e

-- `getIntVal` and `getScalarVal`; the first is asked of literals of type int alone.
abbrev pub scalar_val : Expr → ℤ
scalar_val (literal (direct v)) = v
scalar_val (literal (integer_token (some v))) = v
scalar_val (literal (boolean_token true)) = pos 1
scalar_val _ = pos 0

abbrev pub can_fold_unary : TokenType → Bool
can_fold_unary bang = true
can_fold_unary tilde = true
can_fold_unary minus = true
can_fold_unary plus = true
can_fold_unary _ = false

abbrev pub is_zero : ℤ → Bool
is_zero z = eqb_ℤ z (pos 0)

abbrev pub bit : Bool → ℤ
bit true = pos 1
bit false = pos 0

abbrev pub complement : ℤ → ℤ
complement (pos n) = negsuc n
complement (negsuc n) = pos n

-- A result outside of an int is undefined.
abbrev pub defined : ℤ → ℤ → ℤ
defined u z = if fits_int32 z then z else u

unfoldable pub compute_unary : ℤ → TokenType → ℤ → ℤ
compute_unary u bang v = bit (is_zero v)
compute_unary u tilde v = complement v
compute_unary u minus v = defined u (neg_ℤ v)
compute_unary u plus v = v
compute_unary u _ v = v

abbrev pub can_fold_op : TokenType → Bool
can_fold_op caret = false
can_fold_op bang = false
can_fold_op tilde = false
can_fold_op other_token = false
can_fold_op _ = true

-- The low `k` bits of two patterns, combined bit by bit.
abbrev pub bitwise : (ℕ → ℕ → ℕ) → ℕ → ℕ → ℕ → ℕ
bitwise f zero a b = 0
bitwise f (suc k) a b = f (a % 2) (b % 2) + 2 * bitwise f k (a / 2) (b / 2)

unfoldable pub bits_op : (ℕ → ℕ → ℕ) → ℤ → ℤ → ℤ
bits_op f a b = of_bits word (bitwise f 32 (to_bits word a) (to_bits word b))

-- The arithmetic shift, which rounds down.
abbrev pub shift_right : ℤ → ℕ → ℤ
shift_right (pos n) k = pos (n / 2 ^ k)
shift_right (negsuc n) k = negsuc (n / 2 ^ k)

abbrev pub shift_defined : ℤ → Bool
shift_defined r = not (is_neg r) && ltb (pos_part r) 32

unfoldable pub compute_op : ℤ → TokenType → ℤ → ℤ → ℤ
compute_op u plus l r = defined u (l +ℤ r)
compute_op u minus l r = defined u (l -ℤ r)
compute_op u star l r = defined u (l *ℤ r)
compute_op u slash l r = defined u (div_ℤ l r)
compute_op u percent l r = if fits_int32 (div_ℤ l r) then mod_ℤ l r else u
compute_op u equal_equal l r = bit (eqb_ℤ l r)
compute_op u bang_equal l r = bit (not (eqb_ℤ l r))
compute_op u less l r = bit (ltb_ℤ l r)
compute_op u greater l r = bit (ltb_ℤ r l)
compute_op u less_equal l r = bit (leb_ℤ l r)
compute_op u greater_equal l r = bit (leb_ℤ r l)
compute_op u ampersand l r = bits_op (λ a b. a * b) l r
compute_op u pipe l r = bits_op max l r
compute_op u lshift l r =
    if shift_defined r then of_bits word (to_bits word l * 2 ^ pos_part r % word) else u
compute_op u rshift l r = if shift_defined r then shift_right l (pos_part r) else u
compute_op u ampersand_ampersand l r = bit (not (is_zero l) && not (is_zero r))
compute_op u pipe_pipe l r = bit (not (is_zero l) || not (is_zero r))
compute_op u _ l r = pos 0

abbrev pub is_division : TokenType → Bool
is_division slash = true
is_division percent = true
is_division _ = false

-- The unary and the binary branch of `fold`, on operands that are folded. A division by zero is left.
unfoldable pub fold_unary : ℤ → TokenType → Expr → Expr
fold_unary u op e =
    if is_scalar_lit e && can_fold_unary op
    then literal (direct (compute_unary u op (scalar_val e)))
    else unary op e

unfoldable pub fold_binary : ℤ → TokenType → Expr → Expr → Expr
fold_binary u op l r =
    if not (is_int_lit l && is_int_lit r)
    then binary op l r
    else if not (can_fold_op op)
    then binary op l r
    else if is_division op && is_zero (scalar_val r)
    then binary op l r
    else literal (direct (compute_op u op (scalar_val l) (scalar_val r)))

unfoldable mutual
  pub fold : ℤ → Expr → Expr
  fold u (literal x) = literal x
  fold u (identifier x) = identifier x
  fold u (unary op e) = fold_unary u op (fold u e)
  fold u (binary op l r) = fold_binary u op (fold u l) (fold u r)
  fold u (postfix op e) = postfix op (fold u e)
  fold u (call f args) = call (fold u f) (fold_all u args)
  fold u (member e x) = member (fold u e) x
  fold u (index e i) = index (fold u e) (fold u i)

  pub fold_all : ℤ → Exprs → Exprs
  fold_all u no_exprs = no_exprs
  fold_all u (argument e es) = argument (fold u e) (fold_all u es)

-- The operators of the virtual machine: wrap-around of 32 bits.
unfoldable pub wrap_add : ℤ → ℤ → ℤ
wrap_add a b = of_bits word ((to_bits word a + to_bits word b) % word)

unfoldable pub wrap_sub : ℤ → ℤ → ℤ
wrap_sub a b = of_bits word ((to_bits word a + (word - to_bits word b)) % word)

unfoldable pub wrap_mul : ℤ → ℤ → ℤ
wrap_mul a b = of_bits word (to_bits word a * to_bits word b % word)

unfoldable pub wrap_div : ℤ → ℤ → ℤ
wrap_div a b =
    if eqb_ℤ a (negsuc 2147483647) && eqb_ℤ b (negsuc 0) then negsuc 2147483647 else div_ℤ a b

unfoldable pub wrap_mod : ℤ → ℤ → ℤ
wrap_mod a b = if eqb_ℤ a (negsuc 2147483647) && eqb_ℤ b (negsuc 0) then pos 0 else mod_ℤ a b

unfoldable pub wrap_shl : ℤ → ℤ → ℤ
wrap_shl a b = of_bits word (to_bits word a * 2 ^ to_bits 32 b % word)

unfoldable pub wrap_shr : ℤ → ℤ → ℤ
wrap_shr a b = shift_right a (to_bits 32 b)

-- The opcode of an operator; `none` is the error of a division by zero.
unfoldable pub run_binary : TokenType → ℤ → ℤ → Option ℤ
run_binary plus l r = some (wrap_add l r)
run_binary minus l r = some (wrap_sub l r)
run_binary star l r = some (wrap_mul l r)
run_binary slash l r = if is_zero r then none else some (wrap_div l r)
run_binary percent l r = if is_zero r then none else some (wrap_mod l r)
run_binary equal_equal l r = some (bit (eqb_ℤ l r))
run_binary bang_equal l r = some (bit (not (eqb_ℤ l r)))
run_binary less l r = some (bit (ltb_ℤ l r))
run_binary greater l r = some (bit (ltb_ℤ r l))
run_binary less_equal l r = some (bit (leb_ℤ l r))
run_binary greater_equal l r = some (bit (leb_ℤ r l))
run_binary ampersand l r = some (bits_op (λ a b. a * b) l r)
run_binary pipe l r = some (bits_op max l r)
run_binary caret l r = some (bits_op (λ a b. (a + b) % 2) l r)
run_binary lshift l r = some (wrap_shl l r)
run_binary rshift l r = some (wrap_shr l r)
run_binary ampersand_ampersand l r = some (if is_zero l then pos 0 else r)
run_binary pipe_pipe l r = some (if is_zero l then r else pos 1)
run_binary _ l r = some (pos 0)

unfoldable pub run_unary : TokenType → ℤ → ℤ
run_unary minus v = wrap_sub (pos 0) v
run_unary bang v = bit (eqb_ℤ v (pos 0))
run_unary tilde v = complement v
run_unary _ v = v
