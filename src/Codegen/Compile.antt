-- ===== src/Codegen/Compile.antt =====
-- The code of an expression from a start index on, with the targets of its jumps known: what the generator
-- builds by patching.
use saqut.Prelude.{ℕ, ◌+◌, Option, none, some, List, [], ◌∷◌, ◌++◌, length}
use saqut.Prelude.Int.{ℤ, pos}
use saqut.Types.{Text}
use saqut.Ir.{Instruction, Opcode, sub, equal_equal, jif_false, jif_true}
use saqut.Folding.{
  TokenType, minus, bang, tilde, ampersand_ampersand, pipe_pipe, Expr, literal, identifier, unary,
  binary,
}
use saqut.Vm.Agreement.{binary_opcode}
use saqut.Codegen.{
  Place, local, global, load_const_to, load_slot_to, load_global_to, bnot_to, binary_op,
  conditional, literal_value,
}

-- The code, the slot after the last one used, and the slot of the result.
pub record Compiled : Type 0 where
  pub code : List Instruction
  pub next : ℕ
  pub result : ℕ

abbrev pub compiled : List Instruction → ℕ → ℕ → Compiled
compiled code next result = record { code = code; next = next; result = result }

abbrev pub compile_unary : TokenType → Compiled → Compiled
compile_unary minus c =
    compiled
      (c.code
        ++ load_const_to (c.next + 1) (pos 0) ∷ binary_op sub c.next (c.next + 1) c.result ∷ [])
      (c.next + 1 + 1) c.next
compile_unary bang c =
    compiled
      (c.code
        ++ load_const_to (c.next + 1) (pos 0)
          ∷ binary_op equal_equal c.next c.result (c.next + 1)
          ∷ [])
      (c.next + 1 + 1) c.next
compile_unary tilde c = compiled (c.code ++ bnot_to c.next c.result ∷ []) (c.next + 1) c.next
compile_unary _ c = compiled (c.code ++ load_slot_to c.next c.result ∷ []) (c.next + 1) c.next

abbrev pub compile_operator : ℕ → ℕ → Option Opcode → Compiled → (ℕ → ℕ → Compiled) → Compiled
compile_operator start n (some op) l right =
    let r : Compiled = right (start + length l.code) l.next in
    compiled (l.code ++ (r.code ++ binary_op op r.next l.result r.result ∷ [])) (r.next + 1) r.next
compile_operator start n none l right = compiled (load_const_to n (pos 0) ∷ []) (n + 1) n

-- The right operand's code starts after the left one's, the default and the jump; the jump leads past the copy of
-- the right operand's value.
abbrev pub compile_short : ℕ → Opcode → ℤ → Compiled → (ℕ → ℕ → Compiled) → Compiled
compile_short start op default l right =
    let r : Compiled = right (start + length l.code + 2) (l.next + 1) in
    compiled
      (l.code
        ++ load_const_to l.next default
          ∷ conditional op l.result (pos (start + length l.code + 2 + length r.code + 1))
          ∷ (r.code ++ load_slot_to l.next r.result ∷ []))
      r.next l.next

abbrev pub compile_place : Place → ℕ → Compiled
compile_place (local s) n = compiled [] n s
compile_place (global k) n = compiled (load_global_to n k ∷ []) (n + 1) n

unfoldable pub compile : (Text → Place) → Expr → ℕ → ℕ → Compiled
compile place (literal x) start n = compiled (load_const_to n (literal_value x) ∷ []) (n + 1) n
compile place (identifier x) start n = compile_place (place x) n
compile place (unary op e) start n = compile_unary op (compile place e start n)
compile place (binary ampersand_ampersand l r) start n =
    compile_short start jif_false (pos 0) (compile place l start n) (compile place r)
compile place (binary pipe_pipe l r) start n =
    compile_short start jif_true (pos 1) (compile place l start n) (compile place r)
compile place (binary op l r) start n =
    compile_operator start n (binary_opcode op) (compile place l start n) (compile place r)
compile place e start n = compiled [] n 0
