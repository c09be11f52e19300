-- ===== src/Codegen/Backpatch.antt =====
-- The generator builds the code of Compile: every jump that it leaves open is patched to the right index.
use saqut.Prelude.{
  ℕ, ◌+◌, ◌≡◌, refl, ap, ◌∙◌, Option, none, some, List, [], ◌∷◌, ◌++◌, length, arith, length-append,
  append_assoc, get_elem?, set,
}
use mathlib.Core.List.{append-nil}
use saqut.Prelude.Int.{ℤ, pos, negsuc}
use saqut.Types.{Text}
use saqut.Ir.{Instruction, Opcode, jif_false, jif_true}
use saqut.Folding.{
  TokenType, minus, bang, tilde, ampersand_ampersand, pipe_pipe, Expr, literal, identifier, unary,
  binary, postfix, call, member, index,
}
use saqut.Vm.Agreement.{binary_opcode}
use saqut.Codegen.{
  Generator, Place, local, global, generate, generate_unary, generate_place, generate_operator,
  generate_short, open_short, close_short, patch_jump, load_const_to, load_slot_to, conditional,
  with_target,
}
use saqut.Codegen.Compile.{
  Compiled, compile, compile_unary, compile_operator, compile_short, compile_place,
}

-- A generator after a piece of code.
abbrev pub extended : Generator → Compiled → Generator × ℕ
extended g c = (record { instructions = g.instructions ++ c.code; next_slot = c.next }, c.result)

get_elem?-middle {ℓ} :
    {A : Type ℓ} (xs ys : List A) (x : A) → get_elem? (xs ++ x ∷ ys) (length xs) ≡ some x
get_elem?-middle [] ys x = refl
get_elem?-middle (z ∷ xs) ys x = get_elem?-middle xs ys x

set-middle {ℓ} :
    {A : Type ℓ} (xs ys : List A) (x y : A) → set (xs ++ x ∷ ys) (length xs) y ≡ xs ++ y ∷ ys
set-middle [] ys x y = refl
set-middle (z ∷ xs) ys x y = ap (λ r. z ∷ r) (set-middle xs ys x y)

generate_unary-extended :
    (op : TokenType) (g : Generator) (c : Compiled)
    → generate_unary op c.result (extended g c).0 ≡ extended g (compile_unary op c)
unfolding generate_unary
generate_unary-extended minus g c = simp append_assoc
generate_unary-extended bang g c = simp append_assoc
generate_unary-extended tilde g c = simp append_assoc
generate_unary-extended _ g c = simp append_assoc

patch_middle :
    (xs ys : List Instruction) (j : Instruction) (n : ℕ)
    → patch_jump (length xs) (record { instructions = xs ++ j ∷ ys; next_slot = n }) ≡ record {
      instructions = xs ++ with_target j (pos (length (xs ++ j ∷ ys))) ∷ ys;
      next_slot = n;
    }
unfolding patch_jump
patch_middle xs ys j n = rw (get_elem?-middle xs ys j, set-middle xs ys j) refl

-- The index that the jump of a short circuit gets.
target_lem :
    (a c r : List Instruction) (k j s : Instruction)
    → length (((a ++ c) ++ k ∷ []) ++ j ∷ (r ++ s ∷ [])) ≡ length a + length c + 2 + length r + 1
target_lem a c r k j s = omega (
  arith,
  length-append ((a ++ c) ++ k ∷ []) (j ∷ (r ++ s ∷ [])),
  length-append (a ++ c) (k ∷ []),
  length-append a c,
  length-append r (s ∷ []),
)

-- A short circuit around any left and right operands.
module _ (op : Opcode) (d : ℤ) (g : Generator) (cl cr : Compiled) where
  short-extended :
      close_short cl.next
        (length ((g.instructions ++ cl.code) ++ load_const_to cl.next d ∷ []))
        cr.result
        (record {
          instructions =
              (((g.instructions ++ cl.code) ++ load_const_to cl.next d ∷ [])
                ++ conditional op cl.result (negsuc 0) ∷ [])
              ++ cr.code;
          next_slot = cr.next;
        })
      ≡ extended g (compile_short (length g.instructions) op d cl λ start n. cr)
  unfolding close_short
  short-extended =
      let xs : List Instruction = (g.instructions ++ cl.code) ++ load_const_to cl.next d ∷ [] in
      let j : Instruction = conditional op cl.result (negsuc 0) in
      let ys : List Instruction = cr.code ++ load_slot_to cl.next cr.result ∷ [] in
      let e : ((xs ++ j ∷ []) ++ cr.code) ++ load_slot_to cl.next cr.result ∷ [] ≡ xs ++ j ∷ ys =
        simp append_assoc in
      rw e (
        ap (λ (h : Generator). (h, cl.next)) (patch_middle xs ys j cr.next)
        ∙ rw
            (target_lem g.instructions cl.code cr.code (load_const_to cl.next d) j
              (load_slot_to cl.next cr.result))
            (simp append_assoc))

operator-extended :
    (o : Option Opcode) (left right : Generator → Generator × ℕ) (g : Generator) (cl : Compiled)
    (cr : ℕ → ℕ → Compiled)
    → left g ≡ extended g cl
    → ((h : Generator) → right h ≡ extended h (cr (length h.instructions) h.next_slot))
    → generate_operator o left right g
      ≡ extended g (compile_operator (length g.instructions) g.next_slot o cl cr)
operator-extended none left right g cl cr hl hr = refl
operator-extended (some op) left right g cl cr hl hr =
    rw (hl, hr (extended g cl).0, length-append g.instructions cl.code) (simp append_assoc)

short_lem :
    (op : Opcode) (d : ℤ) (left right : Generator → Generator × ℕ) (g : Generator) (cl : Compiled)
    (cr : ℕ → ℕ → Compiled)
    → left g ≡ extended g cl
    → ((h : Generator) → right h ≡ extended h (cr (length h.instructions) h.next_slot))
    → generate_short op d left right g
      ≡ extended g (compile_short (length g.instructions) op d cl cr)
unfolding open_short
short_lem op d left right g cl cr hl hr =
    let xs : List Instruction = (g.instructions ++ cl.code) ++ load_const_to cl.next d ∷ [] in
    let j : Instruction = conditional op cl.result (negsuc 0) in
    let n : length (xs ++ j ∷ []) ≡ length g.instructions + length cl.code + 2 = omega (
      arith,
      length-append xs (j ∷ []),
      length-append (g.instructions ++ cl.code) (load_const_to cl.next d ∷ []),
      length-append g.instructions cl.code,
    ) in
    rw (hl, hr (open_short op d cl.result (extended g cl).0).0, n)
      (short-extended op d g cl (cr (length g.instructions + length cl.code + 2) (cl.next + 1)))

generate_place-extended :
    (x : Place) (g : Generator) → generate_place x g ≡ extended g (compile_place x g.next_slot)
generate_place-extended (local s) g = rw append-nil
generate_place-extended (global k) g = refl

-- The generator, which appends instructions and patches the targets of its open jumps, builds
-- exactly the code of the definition that has every target from the start, and takes the same
-- slots.
pub generate-compile :
    (place : Text → Place) (e : Expr) (g : Generator)
    → generate place e g ≡ extended g (compile place e (length g.instructions) g.next_slot)
unfolding generate compile
generate-compile place (literal x) g = refl
generate-compile place (identifier x) g = generate_place-extended (place x) g
generate-compile place (unary op e) g =
    rw (generate-compile place e g)
      (generate_unary-extended op g (compile place e (length g.instructions) g.next_slot))
generate-compile place (binary ampersand_ampersand l r) g =
    short_lem jif_false (pos 0) (generate place l) (generate place r) g _ (compile place r)
      (generate-compile place l g) (generate-compile place r)
generate-compile place (binary pipe_pipe l r) g =
    short_lem jif_true (pos 1) (generate place l) (generate place r) g _ (compile place r)
      (generate-compile place l g) (generate-compile place r)
generate-compile place (binary op l r) g =
    operator-extended (binary_opcode op) (generate place l) (generate place r) g _ (compile place r)
      (generate-compile place l g) (generate-compile place r)
generate-compile place (postfix op e) g = rw append-nil
generate-compile place (call f args) g = rw append-nil
generate-compile place (member e x) g = rw append-nil
generate-compile place (index e i) g = rw append-nil
