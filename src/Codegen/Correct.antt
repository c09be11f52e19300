-- ===== src/Codegen/Correct.antt =====
-- The code that the generator makes of an expression computes the value of the expression.
use saqut.Prelude.{
  ℕ, ◌+◌, ◌≤◌, ◌≡◌, refl, ◌∙◌, Bool, true, false, not, some, List, [], ◌∷◌, ◌++◌, length, arith,
  length-append, append_assoc,
}
use saqut.Prelude.Int.{ℤ, pos}
use saqut.Types.{Text}
use saqut.Ir.{Instruction, Opcode, sub, equal_equal, jif_false, jif_true}
use saqut.Folding.{
  TokenType, ampersand_ampersand, pipe_pipe, minus, bang, tilde, Expr, literal, identifier, unary,
  binary, postfix, call, member, index, is_zero,
}
use saqut.Folding.Expressions.{eval}
use saqut.Vm.Value.{Value}
use saqut.Vm.Store.{Store}
use saqut.Vm.Platform.{Platform}
use saqut.Vm.Machine.{Program}
use saqut.Codegen.{
  Generator, Place, local, global, load_const_to, load_slot_to, bnot_to, binary_op, conditional,
  generate,
}
use saqut.Codegen.Compile.{Compiled, compile, compile_unary, compile_operator, compile_short}
use saqut.Codegen.Backpatch.{generate-compile, extended}
use saqut.Codegen.Bounds.{IsIntCode, Below, Below-≤, Bounds, compile-Bounds}
use saqut.Codegen.Steps.{Setting}
use saqut.Codegen.Ran.{CodeAt, left_code, middle_code, PlaceHolds, Ran}
use saqut.Codegen.Sequence.{Holds, Computes}
use saqut.Codegen.Leaves.{literal_lem, place_lem}
use saqut.Codegen.Operators.{unary_lem, operator_lem}
use saqut.Codegen.ShortCircuit.{unless-Jumps, if-Jumps, short_lem}

not-true : (b : Bool) → not b ≡ true → b ≡ false
not-true true h = cc
not-true false h = refl

not-false : (b : Bool) → not b ≡ false → b ≡ true
not-false true h = refl
not-false false h = cc

module _ (p : Platform) (prog : Program) (st : Setting) (place : Text → Place)
    (env : Text → ℤ) where
  -- The names stand below the next slot.
  abbrev AllBelow : ℕ → Type 0
  AllBelow n = (x : Text) → Below n (place x)

  below_after : (n m : ℕ) → n ≤ m → AllBelow n → AllBelow m
  below_after n m l b x = Below-≤ n m (place x) l (b x)

  unary_code :
      (start : ℕ) (c : Compiled) (op : TokenType)
      → CodeAt st.function.instructions start (compile_unary op c).code
      → CodeAt st.function.instructions start c.code
  unary_code start c minus code =
      left_code st.function.instructions start c.code
        (load_const_to (c.next + 1) (pos 0) ∷ binary_op sub c.next (c.next + 1) c.result ∷ []) code
  unary_code start c bang code =
      left_code st.function.instructions start c.code
        (load_const_to (c.next + 1) (pos 0)
          ∷ binary_op equal_equal c.next c.result (c.next + 1)
          ∷ [])
        code
  unary_code start c tilde code =
      left_code st.function.instructions start c.code (bnot_to c.next c.result ∷ []) code
  unary_code start c _ code =
      left_code st.function.instructions start c.code (load_slot_to c.next c.result ∷ []) code

  operator_code :
      (start n : ℕ) (oc : Opcode) (c : Compiled) (right : ℕ → ℕ → Compiled)
      → CodeAt st.function.instructions start (compile_operator start n (some oc) c right).code
      → CodeAt st.function.instructions start c.code
  operator_code start n oc c right code =
      let r : Compiled = right (start + length c.code) c.next in
      left_code st.function.instructions start c.code
        (r.code ++ binary_op oc r.next c.result r.result ∷ []) code

  short_code :
      (start : ℕ) (op : Opcode) (d : ℤ) (c : Compiled) (right : ℕ → ℕ → Compiled)
      → CodeAt st.function.instructions start (compile_short start op d c right).code
      → CodeAt st.function.instructions start c.code
  short_code start op d c right code =
      let r : Compiled = right (start + length c.code + 2) (c.next + 1) in
      left_code st.function.instructions start c.code
        (load_const_to c.next d
          ∷ conditional op c.result (pos (start + length c.code + 2 + length r.code + 1))
          ∷ (r.code ++ load_slot_to c.next r.result ∷ []))
        code

  pub compile-Computes :
      (e : Expr) (start n : ℕ)
      → IsIntCode e
      → AllBelow n
      → CodeAt st.function.instructions start (compile place e start n).code
      → Computes p prog st place env start n (compile place e start n) (eval env e)
  unfolding eval compile
  compile-Computes (literal x) start n ok b code = literal_lem p prog st place env x start n ok code
  compile-Computes (identifier x) start n ok b code = λ h s holds fits.
      place_lem p prog st place env (place x) (env x) start n code h s (holds x) fits
  compile-Computes (unary op e) start n ok b code =
      let c : Compiled = compile place e start n in
      let u : Bounds n c = compile-Bounds place e start n ok b in
      unary_lem p prog st place env op start n c (eval env e) u.grown u.made code
        (compile-Computes e start n ok b (unary_code start c op code))
  compile-Computes (binary ampersand_ampersand l r) start n (t, kl, kr) b code =
      let c : Compiled = compile place l start n in
      let u : Bounds n c = compile-Bounds place l start n kl b in
      let mid : ℕ = start + length c.code + 2 in
      let below : AllBelow (c.next + 1) = below_after n (c.next + 1) (omega (arith, u.grown)) b in
      let w : Bounds (c.next + 1) (compile place r mid (c.next + 1)) =
        compile-Bounds place r mid (c.next + 1) kr below in
      short_lem p prog st place env jif_false (pos 0) is_zero (unless-Jumps p prog st) start n c
        (compile place r) (eval env l) (eval env r) _ u.grown u.made (omega (arith, w.grown)) code
        (compile-Computes l start n kl b
          (short_code start jif_false (pos 0) c (compile place r) code))
        (compile-Computes r mid (c.next + 1) kr below) (λ e. rw e refl) (λ v e z. rw (e, z) refl)
        (λ v e z. rw (e, z) refl)
  compile-Computes (binary pipe_pipe l r) start n (t, kl, kr) b code =
      let c : Compiled = compile place l start n in
      let u : Bounds n c = compile-Bounds place l start n kl b in
      let mid : ℕ = start + length c.code + 2 in
      let below : AllBelow (c.next + 1) = below_after n (c.next + 1) (omega (arith, u.grown)) b in
      let w : Bounds (c.next + 1) (compile place r mid (c.next + 1)) =
        compile-Bounds place r mid (c.next + 1) kr below in
      short_lem p prog st place env jif_true (pos 1) (λ v. not (is_zero v)) (if-Jumps p prog st)
        start n c (compile place r) (eval env l) (eval env r) _ u.grown u.made
        (omega (arith, w.grown)) code
        (compile-Computes l start n kl b
          (short_code start jif_true (pos 1) c (compile place r) code))
        (compile-Computes r mid (c.next + 1) kr below) (λ e. rw e refl)
        (λ v e z. rw (e, not-true (is_zero v) z) refl)
        (λ v e z. rw (e, not-false (is_zero v) z) refl)
  compile-Computes (binary op l r) start n ((oc, t), kl, kr) b code =
      let c : Compiled = compile place l start n in
      let u : Bounds n c = compile-Bounds place l start n kl b in
      let mid : ℕ = start + length c.code in
      let below : AllBelow c.next = below_after n c.next u.grown b in
      let w : Bounds c.next (compile place r mid c.next) =
        compile-Bounds place r mid c.next kr below in
      rw t (
        operator_lem p prog st place env op oc start n c (compile place r) (eval env l) (eval env r)
          t u.grown u.made w.grown w.made (rw t at code)
          (compile-Computes l start n kl b
            (operator_code start n oc c (compile place r) (rw t at code)))
          (compile-Computes r mid c.next kr below))
  compile-Computes (postfix op e) start n ok b code = absurd ok
  compile-Computes (call f args) start n ok b code = absurd ok
  compile-Computes (member e x) start n ok b code = absurd ok
  compile-Computes (index e i) start n ok b code = absurd ok

  holds-Below :
      (n : ℕ) (s : List Value) (x : Place) (v : ℤ) → PlaceHolds st.globals n s x v → Below n x
  holds-Below n s (local k) v h = h.0
  holds-Below n s (global k) v h = tt

  -- The code that the generator appends for an expression of the type int that does not assign,
  -- its int literals in range, run from its first instruction in a frame where the names have
  -- their values, ends with the value of the expression in the slot of the result and the slots
  -- below the first new one as they were; or, where the expression has no value, comes to an
  -- instruction that raises a division by zero.
  pub generate-Ran :
      (e : Expr) (g : Generator) (rest : List Instruction) (h : Store) (s : List Value)
      → IsIntCode e
      → st.function.instructions ≡ (generate place e g).0.instructions ++ rest
      → Holds p prog st place env g.next_slot s
      → (generate place e g).0.next_slot ≤ length s
      → Ran p prog st h
          (length g.instructions)
          s
          (length (generate place e g).0.instructions)
          (generate place e g).1
          g.next_slot
          (eval env e)
  generate-Ran e g rest h s ok same holds fits =
      let start : ℕ = length g.instructions in
      let c : Compiled = compile place e start g.next_slot in
      let made : generate place e g ≡ extended g c = generate-compile place e g in
      let all : st.function.instructions ≡ g.instructions ++ (c.code ++ rest) =
        same ∙ rw made (append_assoc g.instructions c.code rest) in
      let code : CodeAt st.function.instructions start c.code =
        middle_code st.function.instructions g.instructions c.code rest all in
      rw (made, length-append g.instructions c.code)
        (compile-Computes e start g.next_slot ok
          (λ x. holds-Below g.next_slot s (place x) (env x) (holds x)) code h s holds
          (rw made at fits))
