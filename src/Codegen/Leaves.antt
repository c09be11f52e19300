-- ===== src/Codegen/Leaves.antt =====
-- The code of literals and names.
use saqut.Prelude.{ℕ, suc, ◌+◌, ◌≤◌, ◌≡◌, true, false, none, some, List, [], ◌∷◌, length, arith}
use saqut.Prelude.Int.{ℤ, pos, negsuc}
use saqut.Prelude.Word.{to_bits, of_bits}
use saqut.Types.{Text}
use saqut.Folding.{
  Literal, direct, integer_token, boolean_token, other_literal, literal, word, fits_int32,
}
use saqut.Folding.Expressions.{eval}
use saqut.Vm.Value.{Value, int}
use saqut.Vm.Store.{Store}
use saqut.Vm.Platform.{Platform}
use saqut.Vm.Machine.{Program}
use saqut.Codegen.{Place, local, global, literal_value, load_const_to, load_global_to}
use saqut.Codegen.Compile.{compiled, compile_place}
use saqut.Codegen.Bounds.{IsIntCode}
use saqut.Codegen.Steps.{Setting}
use saqut.Codegen.Moves.{stay, const-Goes, global-Goes}
use saqut.Codegen.Ran.{CodeAt, head_code, PlaceHolds, Ran, returns}
use saqut.Codegen.Sequence.{Same-refl, Goes-Ran, Computes}
use saqut.Codegen.Operators.{plus_one}

-- A literal's low bits are its value, in the range of an int.
word_lem : (v : ℤ) → fits_int32 v ≡ true → of_bits word (to_bits word v) ≡ v
unfolding of_bits to_bits
word_lem (pos n) h = ground arith
word_lem (negsuc n) h = ground arith

module _ (p : Platform) (prog : Program) (st : Setting) (place : Text → Place)
    (env : Text → ℤ) where
  const_lem :
      (start n : ℕ) (v : ℤ)
      → CodeAt st.function.instructions start (load_const_to n v ∷ [])
      → Computes p prog st place env start n (compiled (load_const_to n v ∷ []) (n + 1) n) (some v)
  const_lem start n v code h s holds fits = rw (plus_one start) (
      Goes-Ran p prog st h _ start (suc start) s s n n v
        (const-Goes p prog st h start s n v
          (head_code st.function.instructions start (load_const_to n v) [] code) (omega arith))
        (Same-refl n s) (omega arith) (omega arith))

  pub literal_lem :
      (x : Literal) (start n : ℕ)
      → IsIntCode (literal x)
      → CodeAt st.function.instructions start (load_const_to n (literal_value x) ∷ [])
      → Computes p prog st place env start n
          (compiled (load_const_to n (literal_value x) ∷ []) (n + 1) n)
          (eval env (literal x))
  unfolding eval
  literal_lem (direct v) start n ok code = const_lem start n v code
  literal_lem (integer_token (some v)) start n ok code =
      rw ok (const_lem start n v (rw (word_lem v ok) at code))
  literal_lem (integer_token none) start n ok code = absurd ok
  literal_lem (boolean_token true) start n ok code = const_lem start n (pos 1) code
  literal_lem (boolean_token false) start n ok code = const_lem start n (pos 0) code
  literal_lem other_literal start n ok code = absurd ok

  pub place_lem :
      (x : Place) (v : ℤ) (start n : ℕ)
      → CodeAt st.function.instructions start (compile_place x n).code
      → (h : Store) (s : List Value) → PlaceHolds st.globals n s x v
      → (compile_place x n).next ≤ length s
      → Ran p prog st h start s
          (start + length (compile_place x n).code)
          (compile_place x n).result
          n
          (some v)
  place_lem (local k) v start n code h s (b, e) fits =
      let z : start + 0 ≡ start = omega arith in rw z (returns h s stay e (Same-refl n s))
  place_lem (global k) v start n code h s e fits = rw (plus_one start) (
      Goes-Ran p prog st h _ start (suc start) s s n n v
        (global-Goes p prog st h start s n k (int v)
          (head_code st.function.instructions start (load_global_to n k) [] code) e (omega arith))
        (Same-refl n s) (omega arith) (omega arith))
