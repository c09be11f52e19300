-- ===== src/Vm/Soundness.antt =====
-- The loop of `Interpreter::runUntilEvent` keeps a machine that fits in order, and reads and writes no slot,
-- global or instruction out of range.
use saqut.Prelude.{
  ℕ, suc, ◌-◌, ◌≤◌, ◌≡◌, refl, Bool, true, false, List, [], ◌∷◌, length, arith, if◌then◌else◌, sym,
  drop,
}
use saqut.Prelude.Int.{pos, is_neg, eqb_ℤ}
use saqut.Ir.{Instruction}
use saqut.Vm.Value.{Value}
use saqut.Vm.Platform.{Platform}
use saqut.Vm.Forms.{
  Form, constant, unary, binary, get_global, set_global, jump, jump_unless, jump_if, calling,
  returning, new_struct, get_field, set_field, new_array, get_element, set_element, get_length,
  entering_try, leaving_try, throwing, calling_host,
}
use saqut.Vm.Machine.{Program, CallFrame, TryFrame, Machine}
use saqut.Vm.Effects.{
  Effect, proceed, pending, handed_back, returned, thrown, bad_index, bad_object, with_frame,
}
use saqut.Vm.Exec.{run_form, enter_try_frame, truthy, jumped}
use saqut.Vm.Unwinding.{unwind, catch_in, handle_pending, settle}
use saqut.Vm.Fits.{
  InRange, FormFits, ProgramFits, StackFits, HandlerFits, TriesFit, MachineFits, Within, write-some,
  TriesFit-Within, TriesFit-lower, StackFits-drop, unwind-unwind, length-unwind,
}
use saqut.Vm.Upkeep.{EffectFits, Ready, reading_lem, kept, self, assign_lem, complete_lem}
use saqut.Vm.Instructions.{
  new_struct_lem, new_array_lem, get_length_lem, get_field_lem, set_field_lem, get_element_lem,
  set_element_lem, get_global_lem, set_global_lem, throw_lem, host_call_lem, jumped_lem, call_lem,
  return_lem,
}

module _ (prog : Program) (m : Machine) (f : CallFrame) (rest : List CallFrame)
    (r : Ready prog m f rest) where
  still : MachineFits prog (with_frame m f rest)
  still = kept prog m f rest f m.heap r (self prog m f rest r)

  enter_try_lem :
      (i : Instruction)
      → InRange (length f.slots) i.dest
      → is_neg i.jump_target ≡ false
      → EffectFits prog (enter_try_frame m f rest i)
  unfolding enter_try_frame
  enter_try_lem i h k =
      let e : suc (length rest) - suc (length rest) ≡ 0 = omega arith in
      record {
        frames = r.frames;
        tries = (
          record { reached = omega arith; handled = rw e h; targeted = k },
          TriesFit-Within (f ∷ rest) m.try_stack r.tries,
          r.tries,
        );
        globals = r.globals;
      }

  TriesFit-tail : (ts : List TryFrame) → TriesFit (f ∷ rest) ts → TriesFit (f ∷ rest) (drop 1 ts)
  TriesFit-tail [] h = tt
  TriesFit-tail (t ∷ ts) h = h.2

  branch_lem :
      (p : Platform) (i : Instruction) (b : Bool)
      → is_neg i.jump_target ≡ false
      → EffectFits prog (if b then proceed (with_frame m f rest) else jumped m f rest i.jump_target)
        × EffectFits prog
            (if b then jumped m f rest i.jump_target else proceed (with_frame m f rest))
  branch_lem p i true h = (still, jumped_lem prog m f rest r i h)
  branch_lem p i false h = (jumped_lem prog m f rest r i h, still)

  -- One case of the switch, where a return leaves no handler behind.
  pub run_form_lem :
      (p : Platform) (i : Instruction) (fm : Form)
      → ProgramFits prog
      → FormFits prog (length f.slots) i fm
      → (fm ≡ returning → Within (length rest) m.try_stack)
      → EffectFits prog (run_form p prog m f rest i fm)
  unfolding run_form
  run_form_lem p i (constant make) pf h w = assign_lem prog m f rest m.heap i.dest (make p i) r h
  run_form_lem p i (unary op) pf h w =
      reading_lem prog f.slots i.src _ h.0
        λ v. complete_lem prog m f rest p i (op p (eqb_ℤ i.left (pos 1)) v) r h.1
  run_form_lem p i (binary op) pf h w = reading_lem prog f.slots i.left _ h.0 λ v.
      reading_lem prog f.slots i.right _ h.1 λ v'. complete_lem prog m f rest p i (op p v v') r h.2
  run_form_lem p i get_global pf h w = get_global_lem prog m f rest r i h.0 h.1
  run_form_lem p i set_global pf h w = set_global_lem prog m f rest r i h.0 h.1
  run_form_lem p i jump pf h w = jumped_lem prog m f rest r i h
  run_form_lem p i jump_unless pf h w =
      reading_lem prog f.slots i.cond _ h.0 λ v. (branch_lem p i (truthy p v) h.1).0
  run_form_lem p i jump_if pf h w =
      reading_lem prog f.slots i.cond _ h.0 λ v. (branch_lem p i (truthy p v) h.1).1
  run_form_lem p i calling pf h w = call_lem prog m f rest r i pf h
  run_form_lem p i returning pf h w = return_lem prog m f rest r i h (w refl)
  run_form_lem p i new_struct pf h w = new_struct_lem prog m f rest r i h
  run_form_lem p i get_field pf h w = get_field_lem prog m f rest r i p h.0 h.1
  run_form_lem p i set_field pf h w = set_field_lem prog m f rest r i p h.0 h.1
  run_form_lem p i new_array pf h w = new_array_lem prog m f rest r i h
  run_form_lem p i get_element pf h w = get_element_lem prog m f rest r i p h.0 h.1 h.2
  run_form_lem p i set_element pf h w = set_element_lem prog m f rest r i p h.0 h.1 h.2
  run_form_lem p i get_length pf h w = get_length_lem prog m f rest r i h.0 h.1
  run_form_lem p i entering_try pf h w = enter_try_lem i h.0 h.1
  run_form_lem p i leaving_try pf h w = record {
    frames = r.frames;
    tries = TriesFit-tail m.try_stack r.tries;
    globals = r.globals;
  }
  run_form_lem p i throwing pf h w = throw_lem prog m f rest r i p h
  run_form_lem p i calling_host pf h w = host_call_lem prog m f rest r i p h.0 h.1

module _ (prog : Program) where
  catch_in_lem :
      (m : Machine) (t : TryFrame) (v : Value) (stack : List CallFrame)
      → StackFits prog stack
      → TriesFit stack m.try_stack
      → HandlerFits stack t.error_slot
      → is_neg t.catch_target ≡ false
      → length m.global_slots ≡ prog.global_count
      → EffectFits prog (catch_in m t v stack)
  catch_in_lem m t v [] fs ts h k gs = h
  catch_in_lem m t v (g ∷ rest) fs ts h k gs =
      let (s, e, n) = write-some g.slots t.error_slot v h in
      rw e (
        kept prog m g rest (record g { slots = s; instruction_pointer = t.catch_target }) m.heap
          (record { frames = fs; tries = ts; globals = gs })
          (record { same_function = refl; same_dest = refl; same_length = n; still_pointed = k }))

  -- The handlers that an unwound stack keeps.
  TriesFit-unwind :
      (d : ℕ) (stack : List CallFrame) (ts : List TryFrame)
      → d ≤ length stack
      → Within d ts
      → TriesFit stack ts
      → TriesFit (unwind d stack) ts
  TriesFit-unwind d stack ts h w fits =
      let e : length (unwind d stack) ≡ d = length-unwind d stack h in
      TriesFit-lower stack (unwind d stack) ts
        (λ t k. sym (unwind-unwind t.call_stack_depth d stack (omega arith) h)) (rw e w) fits

  handle_pending_lem :
      (m : Machine) (v : Value) (ts : List TryFrame)
      → StackFits prog m.call_stack
      → TriesFit m.call_stack ts
      → length m.global_slots ≡ prog.global_count
      → EffectFits prog (handle_pending v m ts)
  unfolding handle_pending
  handle_pending_lem m v [] fs h gs = tt
  handle_pending_lem m v (t ∷ ts) fs h gs =
      catch_in_lem (record m { try_stack = ts }) t v (unwind t.call_stack_depth m.call_stack)
        (StackFits-drop prog _ m.call_stack fs)
        (TriesFit-unwind t.call_stack_depth m.call_stack ts h.0.reached h.1 h.2) h.0.handled
        h.0.targeted gs

  pub settle_lem : (e : Effect) → EffectFits prog e → EffectFits prog (settle e)
  unfolding settle
  settle_lem (pending v m) h = handle_pending_lem m v m.try_stack h.frames h.tries h.globals
  settle_lem (proceed m) h = h
  settle_lem (handed_back m) h = h
  settle_lem (returned m) h = h
  settle_lem (thrown s) h = h
  settle_lem bad_index h = h
  settle_lem bad_object h = h
