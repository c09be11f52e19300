-- ===== src/Vm/Upkeep.antt =====
-- The instructions that stay in their frame keep a machine that fits in order: src/vm/interpreter.cpp, the cases
-- of the switch but calls, returns and the try stack.
use saqut.Prelude.{ℕ, ◌≡◌, refl, Option, none, some, List, ◌∷◌, length, ◌∙◌, sym, ap}
use saqut.Prelude.Int.{ℤ}
use saqut.Types.{Text}
use saqut.Ir.{Instruction}
use saqut.Vm.Value.{Value, ref}
use saqut.Vm.Store.{Store, Object, array, struct, box, Buffer, at, find_object}
use saqut.Vm.Platform.{Platform}
use saqut.Vm.Operators.{Outcome, value, error, exception}
use saqut.Vm.Machine.{Program, CallFrame, Machine}
use saqut.Vm.Effects.{
  Effect, proceed, pending, handed_back, returned, thrown, bad_index, bad_object, assign, raise,
  complete, reading, attempt, dereference, as_struct, as_array,
}
use saqut.Vm.Fits.{
  InRange, FrameFits, StackFits, TriesFit, MachineFits, Like, at-some, write-some, TriesFit-Like,
}

-- Every machine that an instruction leaves fits, and no index is out of range.
abbrev pub EffectFits : Program → Effect → Type 0
EffectFits prog (proceed m) = MachineFits prog m
EffectFits prog (pending v m) = MachineFits prog m
EffectFits prog (handed_back m) = MachineFits prog m
EffectFits prog (returned m) = Unit
EffectFits prog (thrown s) = Unit
EffectFits prog bad_index = ⊥
EffectFits prog bad_object = Unit

-- The machine with its running frame apart.
pub record Ready (prog : Program) (m : Machine) (f : CallFrame) (rest : List CallFrame)
    : Type 0 where
  pub frames : StackFits prog (f ∷ rest)
  pub tries : TriesFit (f ∷ rest) m.try_stack
  pub globals : length m.global_slots ≡ prog.global_count

pub reading_lem :
    (prog : Program) (slots : List Value) (z : ℤ) (k : Value → Effect)
    → InRange (length slots) z
    → ((v : Value) → EffectFits prog (k v))
    → EffectFits prog (reading (at slots z) k)
reading_lem prog slots z k h all = let (v, e) = at-some slots z h in rw e (all v)

pub as_struct_lem :
    (prog : Program) (o : Object) (k : List Value → Effect)
    → ((xs : List Value) → EffectFits prog (k xs))
    → EffectFits prog (as_struct o k)
as_struct_lem prog (struct xs) k all = all xs
as_struct_lem prog (array b) k all = tt
as_struct_lem prog box k all = tt

pub as_array_lem :
    (prog : Program) (o : Object) (k : Buffer → Effect)
    → ((b : Buffer) → EffectFits prog (k b))
    → EffectFits prog (as_array o k)
as_array_lem prog (array b) k all = all b
as_array_lem prog (struct xs) k all = tt
as_array_lem prog box k all = tt

pub attempt_lem :
    (prog : Program) {A : Type 0} (o : Option A) (e : Effect) (k : A → Effect)
    → EffectFits prog e
    → ((a : A) → EffectFits prog (k a))
    → EffectFits prog (attempt o e k)
attempt_lem prog none e k h all = h
attempt_lem prog (some a) e k h all = all a

pub dereference_lem :
    (prog : Program) (m : Machine) (v : Value) (otherwise : Effect) (k : ℕ → Object → Effect)
    → EffectFits prog otherwise
    → ((a : ℕ) (o : Object) → EffectFits prog (k a o))
    → EffectFits prog (dereference m v otherwise k)
dereference_lem prog m (ref (some a)) otherwise k h all =
    attempt_lem prog (find_object a m.heap.objects) bad_object (k a) tt (all a)
dereference_lem prog m (ref none) otherwise k h all = h
dereference_lem prog m _ otherwise k h all = h

module _ (prog : Program) (m : Machine) (f : CallFrame) (rest : List CallFrame) where
  FrameFits-Like : (g : CallFrame) → Like f g → FrameFits prog f → FrameFits prog g
  FrameFits-Like g l h = record {
    sized = l.same_length ∙ h.sized ∙ ap (λ fn. fn.slot_count) (sym l.same_function);
    pointed = l.still_pointed;
    coded = rw l.same_function h.coded;
  }

  pub kept :
      (g : CallFrame) (heap : Store)
      → Ready prog m f rest
      → Like f g
      → MachineFits prog (record m { call_stack = g ∷ rest; heap = heap })
  kept g heap r l = record {
    frames = (FrameFits-Like g l r.frames.0, rw l.same_dest r.frames.1, r.frames.2);
    tries = TriesFit-Like f g rest l.same_length m.try_stack r.tries;
    globals = r.globals;
  }

  pub self : Ready prog m f rest → Like f f
  self r = record {
    same_function = refl;
    same_dest = refl;
    same_length = refl;
    still_pointed = r.frames.0.pointed;
  }

  pub assign_lem :
      (heap : Store) (dest : ℤ) (v : Value)
      → Ready prog m f rest
      → InRange (length f.slots) dest
      → EffectFits prog (assign (record m { heap = heap }) f rest dest v)
  unfolding assign
  assign_lem heap dest v r h =
      let (s, e, n) = write-some f.slots dest v h in
      rw e (
        kept (record f { slots = s }) heap r
          (record {
            same_function = refl;
            same_dest = refl;
            same_length = n;
            still_pointed = r.frames.0.pointed;
          }))

  pub raise_lem :
      (p : Platform) (heap : Store) (i : Instruction) (message code : Text)
      → Ready prog m f rest
      → EffectFits prog (raise p (record m { heap = heap }) f rest i message code)
  unfolding raise
  raise_lem p heap i message code r = kept f _ r (self r)

  pub complete_lem :
      (p : Platform) (i : Instruction) (o : Outcome)
      → Ready prog m f rest
      → InRange (length f.slots) i.dest
      → EffectFits prog (complete p m f rest i o)
  unfolding complete
  complete_lem p i (value v) r h = assign_lem m.heap i.dest v r h
  complete_lem p i (error message code) r h = raise_lem p m.heap i message code r
  complete_lem p i (exception message) r h = tt
