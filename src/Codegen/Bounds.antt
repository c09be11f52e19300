-- ===== src/Codegen/Bounds.antt =====
-- The slots that the code of an expression takes.
use saqut.Prelude.{ℕ, ◌+◌, ◌≤◌, ◌<◌, ◌≡◌, true, Option, none, some, length, arith}
use saqut.Prelude.Int.{ℤ, pos}
use saqut.Types.{Text}
use saqut.Ir.{Opcode, jif_false, jif_true}
use saqut.Folding.{
  TokenType, ampersand_ampersand, pipe_pipe, minus, bang, tilde, direct, integer_token,
  boolean_token, other_literal, Expr, literal, identifier, unary, binary, postfix, call, member,
  index, fits_int32,
}
use saqut.Vm.Agreement.{binary_opcode}
use saqut.Codegen.{Place, local, global}
use saqut.Codegen.Compile.{
  Compiled, compile, compile_unary, compile_operator, compile_short, compile_place,
}

abbrev pub HasCode : TokenType → Type 0
HasCode ampersand_ampersand = Unit
HasCode pipe_pipe = Unit
HasCode op = (oc : Opcode) × (binary_opcode op ≡ some oc)

-- Expressions of the type int that do not assign, their literals in the range of an int.
abbrev pub IsIntCode : Expr → Type 0
IsIntCode (literal (direct v)) = Unit
IsIntCode (literal (integer_token (some v))) = fits_int32 v ≡ true
IsIntCode (literal (integer_token none)) = ⊥
IsIntCode (literal (boolean_token b)) = Unit
IsIntCode (literal other_literal) = ⊥
IsIntCode (identifier x) = Unit
IsIntCode (unary op e) = IsIntCode e
IsIntCode (binary op l r) = HasCode op × IsIntCode l × IsIntCode r
IsIntCode (postfix op e) = ⊥
IsIntCode (call f args) = ⊥
IsIntCode (member e x) = ⊥
IsIntCode (index e i) = ⊥

abbrev pub Below : ℕ → Place → Type 0
Below n (local k) = k < n
Below n (global k) = Unit

pub record Bounds (n : ℕ) (c : Compiled) : Type 0 where
  pub grown : n ≤ c.next
  pub made : c.result < c.next

pub Below-≤ : (n m : ℕ) (x : Place) → n ≤ m → Below n x → Below m x
Below-≤ n m (local k) l b = omega arith
Below-≤ n m (global k) l b = tt

place-Bounds : (x : Place) (n : ℕ) → Below n x → Bounds n (compile_place x n)
place-Bounds (local k) n b = record { grown = omega arith; made = b }
place-Bounds (global k) n b = record { grown = omega arith; made = omega arith }

unary-Bounds : (op : TokenType) (n : ℕ) (c : Compiled) → Bounds n c → Bounds n (compile_unary op c)
unary-Bounds minus n c b = record { grown = omega (arith, b.grown); made = omega arith }
unary-Bounds bang n c b = record { grown = omega (arith, b.grown); made = omega arith }
unary-Bounds tilde n c b = record { grown = omega (arith, b.grown); made = omega arith }
unary-Bounds _ n c b = record { grown = omega (arith, b.grown); made = omega arith }

operator-Bounds :
    (start n : ℕ) (oc : Option Opcode) (l : Compiled) (right : ℕ → ℕ → Compiled)
    → Bounds n l
    → ((k m : ℕ) → n ≤ m → Bounds m (right k m))
    → Bounds n (compile_operator start n oc l right)
operator-Bounds start n none l right b b' = record { grown = omega arith; made = omega arith }
operator-Bounds start n (some oc) l right b b' =
    let r : Bounds l.next (right (start + length l.code) l.next) = b' _ l.next b.grown in
    record { grown = omega (arith, b.grown, r.grown); made = omega arith }

short-Bounds :
    (start n : ℕ) (op : Opcode) (d : ℤ) (l : Compiled) (right : ℕ → ℕ → Compiled)
    → Bounds n l
    → ((k m : ℕ) → n ≤ m → Bounds m (right k m))
    → Bounds n (compile_short start op d l right)
short-Bounds start n op d l right b b' =
    let r : Bounds (l.next + 1) (right (start + length l.code + 2) (l.next + 1)) =
      b' _ (l.next + 1) (omega (arith, b.grown)) in
    record { grown = omega (arith, b.grown, r.grown); made = omega (arith, r.grown) }

module _ (place : Text → Place) where
  pub compile-Bounds :
      (e : Expr) (start n : ℕ)
      → IsIntCode e
      → ((x : Text) → Below n (place x))
      → Bounds n (compile place e start n)
  unfolding compile
  compile-Bounds (literal x) start n ok below = record { grown = omega arith; made = omega arith }
  compile-Bounds (identifier x) start n ok below = place-Bounds (place x) n (below x)
  compile-Bounds (unary op e) start n ok below =
      unary-Bounds op n (compile place e start n) (compile-Bounds e start n ok below)
  compile-Bounds (binary ampersand_ampersand l r) start n (t, kl, kr) below =
      short-Bounds start n jif_false (pos 0) (compile place l start n) (compile place r)
        (compile-Bounds l start n kl below)
        λ k m h. compile-Bounds r k m kr λ x. Below-≤ n m (place x) h (below x)
  compile-Bounds (binary pipe_pipe l r) start n (t, kl, kr) below =
      short-Bounds start n jif_true (pos 1) (compile place l start n) (compile place r)
        (compile-Bounds l start n kl below)
        λ k m h. compile-Bounds r k m kr λ x. Below-≤ n m (place x) h (below x)
  compile-Bounds (binary op l r) start n (t, kl, kr) below =
      operator-Bounds start n (binary_opcode op) (compile place l start n) (compile place r)
        (compile-Bounds l start n kl below)
        λ k m h. compile-Bounds r k m kr λ x. Below-≤ n m (place x) h (below x)
  compile-Bounds (postfix op e) start n ok below = absurd ok
  compile-Bounds (call f args) start n ok below = absurd ok
  compile-Bounds (member e x) start n ok below = absurd ok
  compile-Bounds (index e i) start n ok below = absurd ok
