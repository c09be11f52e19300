-- ===== src/Codegen/ShortCircuit.antt =====
-- The code of && and ||: a default, a jump over the right operand, and the copy of its value.
use saqut.Prelude.{
  get_elem?-set_other, ℕ, suc, ◌+◌, ◌≤◌, ◌<◌, ◌≡◌, refl, ◌∙◌, Bool, true, false, not, Option, none,
  some, List, [], ◌∷◌, ◌++◌, length, arith, get_elem?, set, length-set, length-append, Bool-cases,
  inl, inr, if◌then◌else◌,
}
use saqut.Prelude.Int.{ℤ, pos}
use saqut.Types.{Text}
use saqut.Ir.{Instruction, Opcode, jif_false, jif_true}
use saqut.Folding.{is_zero}
use saqut.Vm.Value.{Value, int}
use saqut.Vm.Store.{Store}
use saqut.Vm.Platform.{Platform}
use saqut.Vm.Machine.{Program}
use saqut.Codegen.{Place, load_const_to, load_slot_to, conditional}
use saqut.Codegen.Compile.{Compiled, compile_short}
use saqut.Codegen.Steps.{Setting, collected}
use saqut.Codegen.Moves.{Goes, stay, Goes-trans, const-Goes, slot-Goes, unless-Goes, if_Goes}
use saqut.Codegen.Ran.{
  CodeAt, left_code, right_code, head_code, tail_code, Same, Same-set, Ran, Ran-after,
}
use saqut.Codegen.Sequence.{
  Same-refl, Ran-then, Goes-Ran, Holds, Holds-Same, Computes, Computes-then,
}
use saqut.Codegen.Operators.{plus_one, plus_two}

module _ (p : Platform) (prog : Program) (st : Setting) where
  -- A conditional jump, taken where `skips` says so.
  abbrev pub Jumps : Opcode → (ℤ → Bool) → Type 0
  Jumps op skips =
      (h : Store) (k : ℕ) (s : List Value) (slot target : ℕ) (v : ℤ)
      → get_elem? st.function.instructions k ≡ some (conditional op slot (pos target))
      → get_elem? s slot ≡ some (int v)
      → Goes p prog st h k s (collected p st h k s) (if skips v then target else suc k) s

  pub unless-Jumps : Jumps jif_false is_zero
  unless-Jumps = unless-Goes p prog st

  if_not : {A : Type 0} (b : Bool) (x y : A) → (if not b then x else y) ≡ (if b then y else x)
  if_not true x y = refl
  if_not false x y = refl

  pub if-Jumps : Jumps jif_true (λ v. not (is_zero v))
  if-Jumps h k s slot target v i x =
      rw (if_not (is_zero v) target (suc k)) (if_Goes p prog st h k s slot target v i x)

  module _ (place : Text → Place) (env : Text → ℤ) (op : Opcode) (d : ℤ) (skips : ℤ → Bool)
      (jumps : Jumps op skips) where
    -- From the default on, with the value of the left operand.
    module _ (mid n slot : ℕ) (r : Compiled) (v : ℤ) (o' o : Option ℤ) (below : slot < n)
        (code : CodeAt st.function.instructions mid (
          load_const_to n d
          ∷ conditional op slot (pos (mid + 2 + length r.code + 1))
          ∷ (r.code ++ load_slot_to n r.result ∷ []))) where
      after_jump :
          (h : Store) (s : List Value)
          → n < length s
          → get_elem? s slot ≡ some (int v)
          → Goes p prog st h mid s
              (collected p st (collected p st h mid s) (suc mid) (set s n (int d)))
              (if skips v then mid + 2 + length r.code + 1 else suc (suc mid))
              (set s n (int d))
      after_jump h s fits x =
          let all : List Instruction = st.function.instructions in
          let j : Instruction = conditional op slot (pos (mid + 2 + length r.code + 1)) in
          let rest : List Instruction = r.code ++ load_slot_to n r.result ∷ [] in
          Goes-trans p prog st
            (const-Goes p prog st h mid s n d
              (head_code all mid (load_const_to n d) (j ∷ rest) code) fits)
            (jumps (collected p st h mid s) (suc mid) (set s n (int d)) slot
              (mid + 2 + length r.code + 1) v
              (head_code all (suc mid) j rest
                (tail_code all mid (load_const_to n d) (j ∷ rest) code))
              (get_elem?-set_other s n slot (int d) (omega arith) ∙ x))

      right_at : CodeAt st.function.instructions (mid + 2) (r.code ++ load_slot_to n r.result ∷ [])
      right_at =
          let all : List Instruction = st.function.instructions in
          let j : Instruction = conditional op slot (pos (mid + 2 + length r.code + 1)) in
          let rest : List Instruction = r.code ++ load_slot_to n r.result ∷ [] in
          rw (plus_two mid)
            (tail_code all (suc mid) j rest (tail_code all mid (load_const_to n d) (j ∷ rest) code))

      -- The right operand and the copy of its value.
      right-Ran :
          (h : Store) (s : List Value)
          → n < length s
          → r.next ≤ length s
          → Holds p prog st place env (n + 1) s
          → Computes p prog st place env (mid + 2) (n + 1) r o
          → Ran p prog st h (mid + 2) s (mid + 2 + length r.code + 1) n n o
      right-Ran h s fits wide holds run =
          let k : ℕ = mid + 2 + length r.code in
          Ran-then p prog st h (mid + 2) s k (k + 1) r.result n n n o o (omega arith)
            (Ran-after p prog st h (mid + 2) s h (mid + 2) s k r.result n (n + 1) o (omega arith)
              stay (Same-refl n s) (run h s holds wide))
            (λ e. e)
            λ w h' s' e y same.
              rw (e, plus_one k)
                (Goes-Ran p prog st h' _ k (suc k) s' s' n n w
                  (slot-Goes p prog st h' k s' n r.result (int w)
                    (head_code st.function.instructions k (load_slot_to n r.result) [] (
                      right_code st.function.instructions (mid + 2) r.code
                        (load_slot_to n r.result ∷ []) right_at))
                    y (omega (arith, same.same_length)))
                  (Same-refl n s') (omega arith) (omega (arith, same.same_length)))

      pub short-Ran :
          (h : Store) (s : List Value)
          → n < length s
          → r.next ≤ length s
          → Holds p prog st place env n s
          → get_elem? s slot ≡ some (int v)
          → Computes p prog st place env (mid + 2) (n + 1) r o
          → (skips v ≡ true → o' ≡ some d)
          → (skips v ≡ false → o' ≡ o)
          → Ran p prog st h mid s (mid + 2 + length r.code + 1) n n o'
      short-Ran h s fits wide holds x run ht hf =
          let h' : Store = collected p st (collected p st h mid s) (suc mid) (set s n (int d)) in
          let same : Same n s (set s n (int d)) =
            Same-set n n s s (int d) (omega arith) (Same-refl n s) in
          elim (Bool-cases (skips v)) [
            | inl e ↦ rw (ht e) (
                Goes-Ran p prog st h h' mid (mid + 2 + length r.code + 1) s s n n d
                  (rw e at (after_jump h s fits x)) (Same-refl n s) (omega arith) fits)
            | inr e ↦ rw (hf e) (
                Ran-after p prog st h mid s h' (mid + 2) (set s n (int d))
                  (mid + 2 + length r.code + 1) n n n o (omega arith)
                  (rw (plus_two mid) (rw e at (after_jump h s fits x))) same
                  (right-Ran h' (set s n (int d)) (omega (arith, length-set s n (int d)))
                    (omega (arith, length-set s n (int d)))
                    (Holds-Same p prog st place env n (n + 1) s (set s n (int d)) (omega arith) same
                      holds)
                    run))
          ]

    pub short_lem :
        (start n : ℕ) (l : Compiled) (right : ℕ → ℕ → Compiled) (ol o o' : Option ℤ)
        → n ≤ l.next
        → l.result < l.next
        → l.next < (right (start + length l.code + 2) (l.next + 1)).next
        → CodeAt st.function.instructions start (compile_short start op d l right).code
        → Computes p prog st place env start n l ol
        → (CodeAt st.function.instructions
              (start + length l.code + 2)
              (right (start + length l.code + 2) (l.next + 1)).code
            → Computes p prog st place env
                (start + length l.code + 2)
                (l.next + 1)
                (right (start + length l.code + 2) (l.next + 1))
                o)
        → (ol ≡ none → o' ≡ none)
        → ((v : ℤ) → ol ≡ some v → skips v ≡ true → o' ≡ some d)
        → ((v : ℤ) → ol ≡ some v → skips v ≡ false → o' ≡ o)
        → Computes p prog st place env start n (compile_short start op d l right) o'
    short_lem start n l right ol o o' ln lr rn code run run' hn ht hf =
        let mid : ℕ = start + length l.code in
        let r : Compiled = right (mid + 2) (l.next + 1) in
        let copy : List Instruction = load_slot_to l.next r.result ∷ [] in
        let rest : List Instruction =
          load_const_to l.next d
          ∷ conditional op l.result (pos (mid + 2 + length r.code + 1))
          ∷ (r.code ++ copy) in
        Computes-then p prog st place env start n l ol o' rest r.next l.next ln (omega arith) code
          run hn
          λ v e code' h s holds x fits.
            let stop : mid + length rest ≡ mid + 2 + length r.code + 1 =
              omega (arith, length-append r.code copy) in
            rw stop (
              short-Ran mid l.next l.result r v o' o lr code' h s (omega arith) fits holds x
                (run' (
                  left_code st.function.instructions (mid + 2) r.code copy
                    (right_at mid l.next l.result r v o' o lr code')))
                (ht v e) (hf v e))
