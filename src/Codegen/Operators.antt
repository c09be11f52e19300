-- ===== src/Codegen/Operators.antt =====
-- The code of unary and binary operators, after the code of their operands.
use saqut.Prelude.{
  get_elem?-set_self, get_elem?-set_other, ℕ, suc, ◌+◌, ◌≤◌, ◌<◌, ◌≡◌, refl, ◌∙◌, Option, none,
  some, List, [], ◌∷◌, ◌++◌, length, arith, get_elem?, set, length-set, length-append, Option-cases,
  inl, inr,
}
use saqut.Prelude.Int.{ℤ, pos}
use saqut.Types.{Text}
use saqut.Ir.{Instruction, Opcode, sub, equal_equal}
use saqut.Folding.{
  TokenType, minus, bang, tilde, ampersand_ampersand, pipe_pipe, run_binary, run_unary,
}
use saqut.Folding.Expressions.{eval_unary, eval_binary, both}
use saqut.Vm.Value.{Value, int}
use saqut.Vm.Store.{Store}
use saqut.Vm.Platform.{Platform}
use saqut.Vm.Machine.{Program}
use saqut.Vm.Agreement.{binary_opcode}
use saqut.Codegen.{Place, load_const_to, load_slot_to, bnot_to, binary_op}
use saqut.Codegen.Compile.{Compiled, compile_unary, compile_operator}
use saqut.Codegen.Steps.{Setting, collected}
use saqut.Codegen.Moves.{stay, Goes-trans, const-Goes, slot-Goes, bnot-Goes, binary-Goes}
use saqut.Codegen.Ran.{
  CodeAt, left_code, right_code, head_code, tail_code, Same-set, Ran, fails, divides,
}
use saqut.Codegen.Sequence.{Same-refl, Ran-then, Goes-Ran, Computes, Computes-then}

pub plus_one : (m : ℕ) → m + 1 ≡ suc m
plus_one m = omega arith

pub plus_two : (m : ℕ) → m + 2 ≡ suc (suc m)
plus_two m = omega arith

module _ (p : Platform) (prog : Program) (st : Setting) where
  -- A 0 in a new slot, then an operator on the operand and the 0.
  zero-Ran :
      (token : TokenType) (op : Opcode) (k n x y : ℕ) (a b v : ℤ) (h : Store) (s : List Value)
      → binary_opcode token ≡ some op
      → CodeAt st.function.instructions k (load_const_to (n + 1) (pos 0) ∷ binary_op op n x y ∷ [])
      → n + 2 ≤ length s
      → get_elem? (set s (n + 1) (int (pos 0))) x ≡ some (int a)
      → get_elem? (set s (n + 1) (int (pos 0))) y ≡ some (int b)
      → run_binary token a b ≡ some v
      → Ran p prog st h k s (suc (suc k)) n n (some v)
  zero-Ran token op k n x y a b v h s t code fits ex ey w =
      let all : List Instruction = st.function.instructions in
      let s' : List Value = set s (n + 1) (int (pos 0)) in
      let h' : Store = collected p st h k s in
      let rest : CodeAt all (suc k) (binary_op op n x y ∷ []) =
        tail_code all k (load_const_to (n + 1) (pos 0)) (binary_op op n x y ∷ []) code in
      Goes-Ran p prog st h _ k (suc (suc k)) s s' n n v
        (Goes-trans p prog st
          (const-Goes p prog st h k s (n + 1) (pos 0)
            (head_code all k (load_const_to (n + 1) (pos 0)) (binary_op op n x y ∷ []) code)
            (omega arith))
          (binary-Goes p prog st h' (suc k) s' token op n x y a b v t
            (head_code all (suc k) (binary_op op n x y) [] rest) ex ey
            (omega (arith, length-set s (n + 1) (int (pos 0)))) w))
        (Same-set n (n + 1) s s (int (pos 0)) (omega arith) (Same-refl n s)) (omega arith)
        (omega arith)

  module _ (place : Text → Place) (env : Text → ℤ) where
    pub unary_lem :
        (op : TokenType) (start n : ℕ) (c : Compiled) (o : Option ℤ)
        → n ≤ c.next
        → c.result < c.next
        → CodeAt st.function.instructions start (compile_unary op c).code
        → Computes p prog st place env start n c o
        → Computes p prog st place env start n (compile_unary op c) (eval_unary op o)
    unfolding run_unary run_binary binary_opcode
    unary_lem minus start n c o l b code run =
        Computes-then p prog st place env start n c o (eval_unary minus o)
          (load_const_to (c.next + 1) (pos 0) ∷ binary_op sub c.next (c.next + 1) c.result ∷ [])
          (c.next + 1 + 1) c.next l (omega arith) code run (λ e. rw e refl)
          λ v e code' h s holds x fits.
            rw (plus_two (start + length c.code), e)
              (zero-Ran minus sub (start + length c.code) c.next (c.next + 1) c.result (pos 0) v _ h
                s refl code' (omega arith)
                (get_elem?-set_self s (c.next + 1) (int (pos 0)) (omega arith))
                (get_elem?-set_other s (c.next + 1) c.result (int (pos 0)) (omega arith) ∙ x) refl)
    unary_lem bang start n c o l b code run =
        Computes-then p prog st place env start n c o (eval_unary bang o)
          (load_const_to (c.next + 1) (pos 0)
            ∷ binary_op equal_equal c.next c.result (c.next + 1)
            ∷ [])
          (c.next + 1 + 1) c.next l (omega arith) code run (λ e. rw e refl)
          λ v e code' h s holds x fits.
            rw (plus_two (start + length c.code), e)
              (zero-Ran TokenType.equal_equal equal_equal (start + length c.code) c.next c.result
                (c.next + 1) v (pos 0) _ h s refl code' (omega arith)
                (get_elem?-set_other s (c.next + 1) c.result (int (pos 0)) (omega arith) ∙ x)
                (get_elem?-set_self s (c.next + 1) (int (pos 0)) (omega arith)) refl)
    unary_lem tilde start n c o l b code run =
        Computes-then p prog st place env start n c o (eval_unary tilde o)
          (bnot_to c.next c.result ∷ []) (c.next + 1) c.next l (omega arith) code run
          (λ e. rw e refl)
          λ v e code' h s holds x fits.
            rw (plus_one (start + length c.code), e)
              (Goes-Ran p prog st h _ (start + length c.code) _ s s c.next c.next _
                (bnot-Goes p prog st h (start + length c.code) s c.next c.result v
                  (head_code st.function.instructions _ (bnot_to c.next c.result) [] code') x
                  (omega arith))
                (Same-refl c.next s) (omega arith) (omega arith))
    unary_lem op start n c o l b code run =
        Computes-then p prog st place env start n c o (eval_unary op o)
          (load_slot_to c.next c.result ∷ []) (c.next + 1) c.next l (omega arith) code run
          (λ e. rw e refl)
          λ v e code' h s holds x fits.
            rw (plus_one (start + length c.code), e)
              (Goes-Ran p prog st h _ (start + length c.code) _ s s c.next c.next _
                (slot-Goes p prog st h (start + length c.code) s c.next c.result (int v)
                  (head_code st.function.instructions _ (load_slot_to c.next c.result) [] code') x
                  (omega arith))
                (Same-refl c.next s) (omega arith) (omega arith))

    eval_both :
        (op : TokenType) (oc : Opcode) (l r : Option ℤ)
        → binary_opcode op ≡ some oc
        → eval_binary op l r ≡ both op l r
    unfolding binary_opcode
    eval_both ampersand_ampersand oc l r e = cc
    eval_both pipe_pipe oc l r e = cc
    eval_both _ oc l r e = refl

    -- The instruction of a binary operator on its operands' slots.
    operator-Ran :
        (op : TokenType) (oc : Opcode) (k n l r : ℕ) (a b : ℤ) (h : Store) (s : List Value)
        → binary_opcode op ≡ some oc
        → get_elem? st.function.instructions k ≡ some (binary_op oc n l r)
        → n < length s
        → get_elem? s l ≡ some (int a)
        → get_elem? s r ≡ some (int b)
        → Ran p prog st h k s (suc k) n n (run_binary op a b)
    operator-Ran op oc k n l r a b h s t i fits x y = elim (Option-cases (run_binary op a b)) [
      | inl w ↦ rw w (fails h k s stay (divides p prog st op oc n l r a b k s t i x y w))
      | inr (v, w) ↦ rw w (
          Goes-Ran p prog st h _ k (suc k) s s n n v
            (binary-Goes p prog st h k s op oc n l r a b v t i x y fits w) (Same-refl n s)
            (omega arith) fits)
    ]

    both-none : (op : TokenType) (a : Option ℤ) → both op a none ≡ none
    both-none op none = refl
    both-none op (some a) = refl

    pub operator_lem :
        (op : TokenType) (oc : Opcode) (start n : ℕ) (l : Compiled) (right : ℕ → ℕ → Compiled)
        (o o' : Option ℤ)
        → binary_opcode op ≡ some oc
        → n ≤ l.next
        → l.result < l.next
        → l.next ≤ (right (start + length l.code) l.next).next
        → (right (start + length l.code) l.next).result
          < (right (start + length l.code) l.next).next
        → CodeAt st.function.instructions start (compile_operator start n (some oc) l right).code
        → Computes p prog st place env start n l o
        → (CodeAt st.function.instructions
              (start + length l.code)
              (right (start + length l.code) l.next).code
            → Computes p prog st place env
                (start + length l.code)
                l.next
                (right (start + length l.code) l.next)
                o')
        → Computes p prog st place env start n
            (compile_operator start n (some oc) l right)
            (eval_binary op o o')
    operator_lem op oc start n l right o o' t ln lr rn rr code run run' =
        let mid : ℕ = start + length l.code in
        let r : Compiled = right mid l.next in
        let i : Instruction = binary_op oc r.next l.result r.result in
        let all : List Instruction = st.function.instructions in
        Computes-then p prog st place env start n l o (eval_binary op o o') (r.code ++ i ∷ [])
          (r.next + 1) r.next ln (omega arith) code run (λ e. eval_both op oc o o' t ∙ rw e refl)
          λ a e code' h s holds x fits.
            let stop : mid + length (r.code ++ i ∷ []) ≡ suc (mid + length r.code) =
              omega (arith, length-append r.code (i ∷ [])) in
            rw (stop, eval_both op oc o o' t, e)
              (Ran-then p prog st h mid s (mid + length r.code) (suc (mid + length r.code)) r.result
                r.next l.next r.next o' (both op (some a) o') rn
                (run' (left_code all mid r.code (i ∷ []) code') h s holds (omega arith))
                (λ e'. rw e' refl)
                λ b h' s' e' y same. rw e' (
                  operator-Ran op oc (mid + length r.code) r.next l.result r.result a b h' s' t
                    (head_code all (mid + length r.code) i []
                      (right_code all mid r.code (i ∷ []) code'))
                    (omega (arith, same.same_length)) (same.same_slot l.result lr ∙ x) y))
