-- ===== src/Vm/Fits.antt =====
-- Programs whose operands name slots, and machines that they keep in order: the frames of the call stack and
-- the handlers of the try stack, as src/vm/interpreter.cpp relies on them.
use saqut.Prelude.{
  ℕ, zero, suc, ◌+◌, ◌-◌, ◌≤◌, ◌<◌, ◌≡◌, refl, ◌⊎◌, true, false, some, List, [], ◌∷◌, length,
  get_elem?, set, drop, All, arith, length-set, sym, ap, ◌∙◌, length-drop,
}
use mathlib.Core.Path.{subst}
use saqut.Prelude.Int.{ℤ, pos, negsuc, is_neg, pos_part}
use saqut.Ir.{Instruction}
use saqut.Vm.Value.{Value}
use saqut.Vm.Store.{at}
use saqut.Vm.Forms.{
  Form, form, constant, unary, binary, get_global, set_global, jump, jump_unless, jump_if, calling,
  returning, new_struct, get_field, set_field, new_array, get_element, set_element, get_length,
  entering_try, leaving_try, throwing, calling_host,
}
use saqut.Vm.Machine.{Function, Program, CallFrame, TryFrame, Machine, find_function, write}
use saqut.Vm.Unwinding.{unwind}

abbrev pub InRange : ℕ → ℤ → Type 0
InRange n z = (is_neg z ≡ false) × (pos_part z < n)

-- No destination, or one in range.
abbrev pub Optional : ℕ → ℤ → Type 0
Optional n z = (z ≡ negsuc 0) ⊎ InRange n z

-- The operands of an instruction that its form uses, in a frame of `n` slots.
abbrev pub FormFits : Program → ℕ → Instruction → Form → Type 0
FormFits prog n i (constant make) = InRange n i.dest
FormFits prog n i (unary op) = InRange n i.src × InRange n i.dest
FormFits prog n i (binary op) = InRange n i.left × InRange n i.right × InRange n i.dest
FormFits prog n i get_global = InRange prog.global_count i.int_value × InRange n i.dest
FormFits prog n i set_global = InRange prog.global_count i.int_value × InRange n i.src
FormFits prog n i jump = is_neg i.jump_target ≡ false
FormFits prog n i jump_unless = InRange n i.cond × (is_neg i.jump_target ≡ false)
FormFits prog n i jump_if = InRange n i.cond × (is_neg i.jump_target ≡ false)
FormFits prog n i calling =
    All (InRange n) i.arg_slots
    × Optional n i.dest
    × ((g : Function)
        → find_function prog i.function_name ≡ some g
        → length i.arg_slots ≤ g.slot_count)
FormFits prog n i returning = InRange n i.src
FormFits prog n i new_struct = InRange n i.dest
FormFits prog n i get_field = InRange n i.src × InRange n i.dest
FormFits prog n i set_field = InRange n i.dest × InRange n i.right
FormFits prog n i new_array = InRange n i.dest
FormFits prog n i get_element = InRange n i.left × InRange n i.right × InRange n i.dest
FormFits prog n i set_element = InRange n i.dest × InRange n i.left × InRange n i.right
FormFits prog n i get_length = InRange n i.src × InRange n i.dest
FormFits prog n i entering_try = InRange n i.dest × (is_neg i.jump_target ≡ false)
FormFits prog n i leaving_try = Unit
FormFits prog n i throwing = InRange n i.src
FormFits prog n i calling_host =
    All (InRange n) i.arg_slots × ((is_neg i.dest ≡ true) ⊎ InRange n i.dest)

abbrev pub InstructionFits : Program → ℕ → Instruction → Type 0
InstructionFits prog n i = FormFits prog n i (form i.opcode)

abbrev pub FunctionFits : Program → Function → Type 0
FunctionFits prog f = All (InstructionFits prog f.slot_count) f.instructions

abbrev pub ProgramFits : Program → Type 0
ProgramFits prog =
    (name : List ℕ) (f : Function) → find_function prog name ≡ some f → FunctionFits prog f

pub record FrameFits (prog : Program) (f : CallFrame) : Type 0 where
  pub sized : length f.slots ≡ f.function.slot_count
  pub pointed : is_neg f.instruction_pointer ≡ false
  pub coded : FunctionFits prog f.function

-- The caller has the slot for the result.
abbrev pub ReturnsTo : ℤ → List CallFrame → Type 0
ReturnsTo dest [] = Unit
ReturnsTo dest (g ∷ rest) = Optional (length g.slots) dest

abbrev pub StackFits : Program → List CallFrame → Type 0
StackFits prog [] = Unit
StackFits prog (f ∷ rest) =
    FrameFits prog f × ReturnsTo f.return_dest_slot rest × StackFits prog rest

-- The frame on top has the slot for the error.
abbrev pub HandlerFits : List CallFrame → ℤ → Type 0
HandlerFits [] e = ⊥
HandlerFits (g ∷ rest) e = InRange (length g.slots) e

pub record TryFits (stack : List CallFrame) (t : TryFrame) : Type 0 where
  pub reached : t.call_stack_depth ≤ length stack
  pub handled : HandlerFits (unwind t.call_stack_depth stack) t.error_slot
  pub targeted : is_neg t.catch_target ≡ false

abbrev pub Within : ℕ → List TryFrame → Type 0
Within n = All λ t. t.call_stack_depth ≤ n

-- Handlers fit the stack, and an inner one is not below an outer one.
abbrev pub TriesFit : List CallFrame → List TryFrame → Type 0
TriesFit stack [] = Unit
TriesFit stack (t ∷ ts) = TryFits stack t × Within t.call_stack_depth ts × TriesFit stack ts

pub record MachineFits (prog : Program) (m : Machine) : Type 0 where
  pub frames : StackFits prog m.call_stack
  pub tries : TriesFit m.call_stack m.try_stack
  pub globals : length m.global_slots ≡ prog.global_count

-- A frame of the same function, with as many slots and the same place for its result.
pub record Like (f g : CallFrame) : Type 0 where
  pub same_function : g.function ≡ f.function
  pub same_dest : g.return_dest_slot ≡ f.return_dest_slot
  pub same_length : length g.slots ≡ length f.slots
  pub still_pointed : is_neg g.instruction_pointer ≡ false

module _ {ℓ} {A : Type ℓ} where
  get_elem?-some : (xs : List A) (i : ℕ) → i < length xs → (v : A) × (get_elem? xs i ≡ some v)
  get_elem?-some [] i h = absurd (omega arith)
  get_elem?-some (x ∷ xs) zero h = (x, refl)
  get_elem?-some (x ∷ xs) (suc i) h = get_elem?-some xs i (omega arith)

  pub at-some : (xs : List A) (z : ℤ) → InRange (length xs) z → (v : A) × (at xs z ≡ some v)
  at-some xs (pos i) h = get_elem?-some xs i h.1
  at-some xs (negsuc i) h = cc

pub write-some :
    (xs : List Value) (z : ℤ) (v : Value)
    → InRange (length xs) z
    → (ys : List Value) × (write xs z v ≡ some ys) × (length ys ≡ length xs)
write-some xs z v h =
    let (old, e) = at-some xs z h in
    (set xs (pos_part z) v, rw (e, write), length-set xs (pos_part z) v)

-- Frames above and below.
module _ (e : ℤ) where
  pub HandlerFits-Like :
      (n : ℕ) (f g : CallFrame) (rest : List CallFrame)
      → length g.slots ≡ length f.slots
      → HandlerFits (drop n (f ∷ rest)) e
      → HandlerFits (drop n (g ∷ rest)) e
  HandlerFits-Like zero f g rest h fits = (fits.0, rw h fits.1)
  HandlerFits-Like (suc n) f g rest h fits = fits

pub unwind-push :
    (d : ℕ) (f : CallFrame) (rest : List CallFrame)
    → d ≤ length rest
    → unwind d (f ∷ rest) ≡ unwind d rest
unwind-push d f rest h = let e : suc (length rest) - d ≡ suc (length rest - d) = omega arith in rw e

drop_nil {ℓ} : {A : Type ℓ} (n : ℕ) → drop {A = A} n [] ≡ []
drop_nil zero = refl
drop_nil (suc n) = refl

drop-drop {ℓ} : {A : Type ℓ} (a b : ℕ) (xs : List A) → drop a (drop b xs) ≡ drop (b + a) xs
drop-drop a zero xs = let e : 0 + a ≡ a = omega arith in rw e
drop-drop a (suc b) [] = drop_nil a ∙ sym (drop_nil (suc b + a))
drop-drop a (suc b) (x ∷ xs) =
    let e : suc b + a ≡ suc (b + a) = omega arith in rw e (drop-drop a b xs)

pub length-unwind :
    (d : ℕ) (stack : List CallFrame) → d ≤ length stack → length (unwind d stack) ≡ d
length-unwind d stack h = omega (arith, length-drop {0} (length stack - d) stack)

-- Unwinding in two steps.
pub unwind-unwind :
    (a d : ℕ) (stack : List CallFrame)
    → a ≤ d
    → d ≤ length stack
    → unwind a (unwind d stack) ≡ unwind a stack
unwind-unwind a d stack h k =
    let e : length (unwind d stack) ≡ d = length-unwind d stack k in
    let e' : length stack - d + (d - a) ≡ length stack - a = omega arith in
    rw e (drop-drop (d - a) (length stack - d) stack ∙ ap (λ n. drop n stack) e')

pub StackFits-drop :
    (prog : Program) (n : ℕ) (stack : List CallFrame)
    → StackFits prog stack
    → StackFits prog (drop n stack)
StackFits-drop prog zero stack h = h
StackFits-drop prog (suc n) [] h = tt
StackFits-drop prog (suc n) (f ∷ rest) h = StackFits-drop prog n rest h.2

-- A running frame may change in place, be left for a callee, or be left by a return that passes no handler.
module _ (f g : CallFrame) (rest : List CallFrame) (same : length g.slots ≡ length f.slots) where
  TryFits-Like : (t : TryFrame) → TryFits (f ∷ rest) t → TryFits (g ∷ rest) t
  TryFits-Like t h = record {
    reached = h.reached;
    handled =
        HandlerFits-Like t.error_slot (suc (length rest) - t.call_stack_depth) f g rest same
          h.handled;
    targeted = h.targeted;
  }

  pub TriesFit-Like : (ts : List TryFrame) → TriesFit (f ∷ rest) ts → TriesFit (g ∷ rest) ts
  TriesFit-Like [] h = tt
  TriesFit-Like (t ∷ ts) h = (TryFits-Like t h.0, h.1, TriesFit-Like ts h.2)

pub TriesFit-Within :
    (stack : List CallFrame) (ts : List TryFrame) → TriesFit stack ts → Within (length stack) ts
TriesFit-Within stack [] h = tt
TriesFit-Within stack (t ∷ ts) h = (h.0.reached, TriesFit-Within stack ts h.2)

-- The handlers that a lower stack keeps.
module _ (stack lower : List CallFrame) where
  TryFits-lower :
      (t : TryFrame)
      → t.call_stack_depth ≤ length lower
      → unwind t.call_stack_depth stack ≡ unwind t.call_stack_depth lower
      → TryFits stack t
      → TryFits lower t
  TryFits-lower t h e fits = record {
    reached = h;
    handled = subst (λ s. HandlerFits s t.error_slot) e fits.handled;
    targeted = fits.targeted;
  }

  pub TriesFit-lower :
      (ts : List TryFrame)
      → ((t : TryFrame)
          → t.call_stack_depth ≤ length lower
          → unwind t.call_stack_depth stack ≡ unwind t.call_stack_depth lower)
      → Within (length lower) ts
      → TriesFit stack ts
      → TriesFit lower ts
  TriesFit-lower [] e w h = tt
  TriesFit-lower (t ∷ ts) e w h =
      (TryFits-lower t w.0 (e t w.0) h.0, h.1, TriesFit-lower ts e w.1 h.2)

-- A callee's frame on top.
module _ (h : CallFrame) (stack : List CallFrame) where
  TryFits-push : (t : TryFrame) → TryFits stack t → TryFits (h ∷ stack) t
  TryFits-push t fits = record {
    reached = omega (arith, fits.reached);
    handled = rw (unwind-push t.call_stack_depth h stack fits.reached) fits.handled;
    targeted = fits.targeted;
  }

  pub TriesFit-push : (ts : List TryFrame) → TriesFit stack ts → TriesFit (h ∷ stack) ts
  TriesFit-push [] fits = tt
  TriesFit-push (t ∷ ts) fits = (TryFits-push t fits.0, fits.1, TriesFit-push ts fits.2)
