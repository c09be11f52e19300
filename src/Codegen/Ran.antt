-- ===== src/Codegen/Ran.antt =====
-- Code in a function, slots that stay, and how the code of an expression ends.
use saqut.Prelude.{
  ℕ, zero, suc, ◌+◌, ◌≤◌, ◌<◌, ◌≡◌, refl, ap, ◌∙◌, Option, none, some, List, [], ◌∷◌, ◌++◌, length,
  arith, get_elem?, get_elem?-set_other, set, length-set,
}
use saqut.Prelude.Int.{ℤ}
use saqut.Prelude.Texts.{codes}
use saqut.Types.{Text}
use saqut.Ir.{Instruction, Opcode}
use saqut.Folding.{TokenType, percent, run_binary}
use saqut.Vm.Value.{Value, int}
use saqut.Vm.Store.{Store}
use saqut.Vm.Platform.{Platform}
use saqut.Vm.Operators.{error}
use saqut.Vm.Forms.{form}
use saqut.Vm.Machine.{Program}
use saqut.Vm.Effects.{raise, complete}
use saqut.Vm.Exec.{run_form}
use saqut.Vm.Agreement.{binary_opcode, outcome_for}
use saqut.Codegen.{Place, local, global, binary_op}
use saqut.Codegen.Steps.{Setting, frame_at, machine_at}
use saqut.Codegen.Moves.{Goes, Goes-trans, binary_runs}

-- A piece of code stands at an index of a list of instructions.
abbrev pub CodeAt : List Instruction → ℕ → List Instruction → Type 0
CodeAt all k c = (j : ℕ) (i : Instruction) → get_elem? c j ≡ some i → get_elem? all (k + j) ≡ some i

module _ (all : List Instruction) where
  get_elem?-left :
      (a b : List Instruction) (j : ℕ) (i : Instruction)
      → get_elem? a j ≡ some i
      → get_elem? (a ++ b) j ≡ some i
  get_elem?-left [] b j i e = cc
  get_elem?-left (x ∷ a) b zero i e = e
  get_elem?-left (x ∷ a) b (suc j) i e = get_elem?-left a b j i e

  get_elem?-right :
      (a b : List Instruction) (j : ℕ) → get_elem? (a ++ b) (length a + j) ≡ get_elem? b j
  get_elem?-right [] b j = ap (get_elem? b) (omega arith)
  get_elem?-right (x ∷ a) b j =
      let e : suc (length a) + j ≡ suc (length a + j) = omega arith in rw e (get_elem?-right a b j)

  pub left_code : (k : ℕ) (a b : List Instruction) → CodeAt all k (a ++ b) → CodeAt all k a
  left_code k a b h j i e = h j i (get_elem?-left a b j i e)

  pub right_code :
      (k : ℕ) (a b : List Instruction) → CodeAt all k (a ++ b) → CodeAt all (k + length a) b
  right_code k a b h j i e =
      let n : k + length a + j ≡ k + (length a + j) = omega arith in
      rw n (h (length a + j) i (get_elem?-right a b j ∙ e))

  pub middle_code : (a b c : List Instruction) → all ≡ a ++ (b ++ c) → CodeAt all (length a) b
  middle_code a b c same j i e = rw same (get_elem?-right a (b ++ c) j ∙ get_elem?-left b c j i e)

  pub head_code :
      (k : ℕ) (i : Instruction) (c : List Instruction)
      → CodeAt all k (i ∷ c)
      → get_elem? all k ≡ some i
  head_code k i c h = let e : k + 0 ≡ k = omega arith in rw e at (h 0 i refl)

  pub tail_code :
      (k : ℕ) (i : Instruction) (c : List Instruction) → CodeAt all k (i ∷ c) → CodeAt all (suc k) c
  tail_code k i c h j i' e = let n : suc k + j ≡ k + suc j = omega arith in rw n (h (suc j) i' e)

-- The slots below `n` stay as they are.
pub record Same (n : ℕ) (s s' : List Value) : Type 0 where
  pub same_length : length s' ≡ length s
  pub same_slot : (k : ℕ) → k < n → get_elem? s' k ≡ get_elem? s k

pub Same-set :
    (n d : ℕ) (s s' : List Value) (v : Value) → n ≤ d → Same n s s' → Same n s (set s' d v)
Same-set n d s s' v h same = record {
  same_length = length-set s' d v ∙ same.same_length;
  same_slot = λ k l. get_elem?-set_other s' d k v (omega arith) ∙ same.same_slot k l;
}

pub Same-trans :
    (n m : ℕ) (s s' s'' : List Value) → n ≤ m → Same n s s' → Same m s' s'' → Same n s s''
Same-trans n m s s' s'' h a b = record {
  same_length = b.same_length ∙ a.same_length;
  same_slot = λ k l. b.same_slot k (omega arith) ∙ a.same_slot k l;
}

-- Names have their values: a local in its slot below `n`, a global in its own.
abbrev pub PlaceHolds : List Value → ℕ → List Value → Place → ℤ → Type 0
PlaceHolds globals n s (local k) v = (k < n) × (get_elem? s k ≡ some (int v))
PlaceHolds globals n s (global k) v = get_elem? globals k ≡ some (int v)

module _ (p : Platform) (prog : Program) (st : Setting) where
  -- The next instruction raises a division by zero.
  pub record Divides (k : ℕ) (s : List Value) : Type 0 where
    pub instruction : Instruction
    pub message : Text
    pub stands : get_elem? st.function.instructions k ≡ some instruction
    pub raises :
        (h : Store)
        → run_form p prog
            (machine_at st h k s)
            (frame_at st (suc k) s)
            st.below
            instruction
            (form instruction.opcode)
          ≡ raise p
              (machine_at st h k s)
              (frame_at st (suc k) s)
              st.below
              instruction
              message
              (codes "E_DIVZERO")

  -- The code ran to its end, with the value in the slot of the result and the slots below `n` as they were; or it
  -- came to a division by zero.
  pub data Ran (h : Store) (k : ℕ) (s : List Value) (stop result n : ℕ) : Option ℤ → Type 0 where
    returns :
        {v : ℤ} (h' : Store) (s' : List Value)
        → Goes p prog st h k s h' stop s'
        → get_elem? s' result ≡ some (int v)
        → Same n s s'
        → Ran h k s stop result n (some v)
    fails :
        (h' : Store) (k' : ℕ) (s' : List Value)
        → Goes p prog st h k s h' k' s'
        → Divides k' s'
        → Ran h k s stop result n none

  -- What runs after other code.
  pub Ran-after :
      (h : Store) (k : ℕ) (s : List Value) (h' : Store) (k' : ℕ) (s' : List Value)
      (stop result n n' : ℕ) (o : Option ℤ)
      → n ≤ n'
      → Goes p prog st h k s h' k' s'
      → Same n s s'
      → Ran h' k' s' stop result n' o
      → Ran h k s stop result n o
  Ran-after h k s h' k' s' stop result n n' o l g same (returns h'' s'' g' x same') =
      returns h'' s'' (Goes-trans p prog st g g') x (Same-trans n n' s s' s'' l same same')
  Ran-after h k s h' k' s' stop result n n' o l g same (fails h'' k'' s'' g' d) =
      fails h'' k'' s'' (Goes-trans p prog st g g') d

  divzero_message :
      (token : TokenType) → (m : Text) × (outcome_for token none ≡ error m (codes "E_DIVZERO"))
  divzero_message percent = (_, refl)
  divzero_message _ = (_, refl)

  pub divides :
      (token : TokenType) (op : Opcode) (d l r : ℕ) (a b : ℤ) (k : ℕ) (s : List Value)
      → binary_opcode token ≡ some op
      → get_elem? st.function.instructions k ≡ some (binary_op op d l r)
      → get_elem? s l ≡ some (int a)
      → get_elem? s r ≡ some (int b)
      → run_binary token a b ≡ none
      → Divides k s
  unfolding complete
  divides token op d l r a b k s t e x y w =
      let (m, o) = divzero_message token in
      record {
        instruction = binary_op op d l r;
        message = m;
        stands = e;
        raises = λ h. binary_runs p prog st token op d l r a b t h k s x y ∙ rw (w, o) refl;
      }
