-- ===== src/Vm/Instructions.antt =====
-- Each instruction of src/vm/interpreter.cpp that leaves the try stack alone, in a machine that fits.
use saqut.Prelude.{
  ℕ, ◌+◌, ◌≤◌, ◌≡◌, refl, ◌⊎◌, inl, inr, true, false, some, List, [], ◌∷◌, length, All, arith,
  Bool-cases, Option-cases, ◌∙◌, length-replicate, leb,
}
use saqut.Prelude.Int.{ℤ, pos, negsuc, is_neg, eqb_ℤ}
use saqut.Ir.{Instruction}
use saqut.Vm.Value.{int_value, Value, int}
use saqut.Vm.Store.{read_element, buffer_length, Store, Object, array, struct, box, at}
use saqut.Vm.Platform.{Platform, HostAnswer, answer, host_error}
use saqut.Vm.Machine.{Function, Program, CallFrame, Machine, new_frame, find_function}
use saqut.Vm.Effects.{attempt, in_range, proceed, bad_index, bad_object}
use saqut.Vm.Objects.{
  run_new_struct, run_get_field, run_set_field, run_new_array, run_get_element, run_set_element,
  run_get_length,
}
use saqut.Vm.Exec.{
  run_call, copy_arguments, run_get_global, run_set_global, run_throw, throw_object, read_all,
  run_host_call, answered, jumped, hand_back, run_return,
}
use saqut.Vm.Forms.{Form}
use saqut.Vm.Fits.{
  InRange, Optional, FormFits, FunctionFits, ProgramFits, StackFits, ReturnsTo, TriesFit,
  MachineFits, Within, at-some, write-some, TriesFit-lower, unwind-push, TriesFit-push,
}
use saqut.Vm.Upkeep.{
  EffectFits, Ready, reading_lem, as_struct_lem, as_array_lem, attempt_lem, dereference_lem, kept,
  self, assign_lem, raise_lem,
}

module _ (prog : Program) (m : Machine) (f : CallFrame) (rest : List CallFrame)
    (r : Ready prog m f rest) where
  stay : (heap : Store) → MachineFits prog (record m { call_stack = f ∷ rest; heap = heap })
  stay heap = kept prog m f rest f heap r (self prog m f rest r)

  module _ (i : Instruction) where
    pub new_struct_lem :
        InRange (length f.slots) i.dest → EffectFits prog (run_new_struct m f rest i)
    unfolding run_new_struct
    new_struct_lem h = assign_lem prog m f rest _ i.dest _ r h

    pub new_array_lem : InRange (length f.slots) i.dest → EffectFits prog (run_new_array m f rest i)
    unfolding run_new_array
    new_array_lem h = assign_lem prog m f rest _ i.dest _ r h

    pub get_length_lem :
        InRange (length f.slots) i.src
        → InRange (length f.slots) i.dest
        → EffectFits prog (run_get_length m f rest i)
    unfolding run_get_length
    get_length_lem s h = reading_lem prog f.slots i.src _ s λ v.
        dereference_lem prog m v _ _ tt
          λ a o. as_array_lem prog o _ λ b. assign_lem prog m f rest m.heap i.dest _ r h

    pub get_field_lem :
        (p : Platform)
        → InRange (length f.slots) i.src
        → InRange (length f.slots) i.dest
        → EffectFits prog (run_get_field p m f rest i)
    unfolding run_get_field
    get_field_lem p s h = reading_lem prog f.slots i.src _ s λ v.
        dereference_lem prog m v _ _ tt λ a o. as_struct_lem prog o _ λ xs.
          attempt_lem prog (at xs i.int_value) _ _ tt
            λ x. assign_lem prog m f rest m.heap i.dest x r h

    pub set_field_lem :
        (p : Platform)
        → InRange (length f.slots) i.dest
        → InRange (length f.slots) i.right
        → EffectFits prog (run_set_field p m f rest i)
    unfolding run_set_field
    set_field_lem p d s = reading_lem prog f.slots i.dest _ d λ v.
        dereference_lem prog m v _ _ tt λ a o. as_struct_lem prog o _ λ xs.
          reading_lem prog f.slots i.right _ s λ x.
            elim (Bool-cases (in_range i.int_value (length xs))) [
              | inl e ↦ rw e (stay _)
              | inr e ↦ rw e tt
            ]

    pub get_element_lem :
        (p : Platform)
        → InRange (length f.slots) i.left
        → InRange (length f.slots) i.right
        → InRange (length f.slots) i.dest
        → EffectFits prog (run_get_element p m f rest i)
    unfolding run_get_element
    get_element_lem p l s h = reading_lem prog f.slots i.left _ l λ v.
        dereference_lem prog m v _ _ (raise_lem prog m f rest p m.heap i _ _ r) λ a o.
          as_array_lem prog o _ λ b. reading_lem prog f.slots i.right _ s λ n.
            elim (Bool-cases (in_range (int_value n) (buffer_length b))) [
              | inl e ↦ rw e (
                  attempt_lem prog (read_element b (int_value n)) bad_object _ tt
                    λ x. assign_lem prog m f rest m.heap i.dest x r h)
              | inr e ↦ rw e (raise_lem prog m f rest p m.heap i _ _ r)
            ]

    pub set_element_lem :
        (p : Platform)
        → InRange (length f.slots) i.dest
        → InRange (length f.slots) i.left
        → InRange (length f.slots) i.right
        → EffectFits prog (run_set_element p m f rest i)
    unfolding run_set_element
    set_element_lem p d l s = reading_lem prog f.slots i.dest _ d λ v.
        dereference_lem prog m v _ _ (raise_lem prog m f rest p m.heap i _ _ r) λ a o.
          as_array_lem prog o _ λ b. reading_lem prog f.slots i.left _ l λ n.
            reading_lem prog f.slots i.right _ s λ x.
              elim (Bool-cases (in_range (int_value n) (buffer_length b))) [
                | inl e ↦ rw e (stay _)
                | inr e ↦ rw e (raise_lem prog m f rest p m.heap i _ _ r)
              ]

    pub get_global_lem :
        InRange prog.global_count i.int_value
        → InRange (length f.slots) i.dest
        → EffectFits prog (run_get_global m f rest i)
    unfolding run_get_global
    get_global_lem g h =
        reading_lem prog m.global_slots i.int_value _ (rw r.globals g)
          λ v. assign_lem prog m f rest m.heap i.dest v r h

    pub set_global_lem :
        InRange prog.global_count i.int_value
        → InRange (length f.slots) i.src
        → EffectFits prog (run_set_global m f rest i)
    unfolding run_set_global
    set_global_lem g h = reading_lem prog f.slots i.src _ h λ v.
        let (gs, e, n) = write-some m.global_slots i.int_value v (rw r.globals g) in
        rw e (record { frames = r.frames; tries = r.tries; globals = n ∙ r.globals })

    throw_object_lem :
        (p : Platform) (v : Value) (a : ℕ) (o : Object)
        → EffectFits prog (throw_object p m f rest i v a o)
    throw_object_lem p v a (struct xs) = elim (Bool-cases (leb 4 (length xs))) [
      | inl e ↦ rw e (stay _)
      | inr e ↦ rw e (stay _)
    ]
    throw_object_lem p v a (array b) = raise_lem prog m f rest p m.heap i _ _ r
    throw_object_lem p v a box = raise_lem prog m f rest p m.heap i _ _ r

    pub throw_lem :
        (p : Platform) → InRange (length f.slots) i.src → EffectFits prog (run_throw p m f rest i)
    unfolding run_throw
    throw_lem p h = reading_lem prog f.slots i.src _ h λ v.
        dereference_lem prog m v _ _ (raise_lem prog m f rest p m.heap i _ _ r)
          λ a o. throw_object_lem p v a o

    answered_lem :
        (p : Platform) (heap : Store) (a : HostAnswer)
        → ((is_neg i.dest ≡ true) ⊎ InRange (length f.slots) i.dest)
        → EffectFits prog (answered p (record m { heap = heap }) f rest i a)
    unfolding answered
    answered_lem p heap (answer v) (inl e) = rw e (stay heap)
    answered_lem p heap (answer v) (inr h) = rw h.0 (assign_lem prog m f rest heap i.dest v r h)
    answered_lem p heap (host_error message code) d = raise_lem prog m f rest p heap i _ _ r

    read_all-some :
        (slots : List Value) (as' : List ℤ)
        → All (InRange (length slots)) as'
        → (vs : List Value) × (read_all slots as' ≡ some vs)
    read_all-some slots [] h = ([], refl)
    read_all-some slots (a ∷ as') h =
        let (v, e) = at-some slots a h.0 in
        let (vs, e') = read_all-some slots as' h.1 in (v ∷ vs, rw (e, e'))

    pub host_call_lem :
        (p : Platform)
        → All (InRange (length f.slots)) i.arg_slots
        → ((is_neg i.dest ≡ true) ⊎ InRange (length f.slots) i.dest)
        → EffectFits prog (run_host_call p m f rest i)
    unfolding run_host_call
    host_call_lem p h d =
        let (vs, e) = read_all-some f.slots i.arg_slots h in
        rw e (answered_lem p _ (p.host_call i.int_value vs m.heap).1 d)

    pub jumped_lem : is_neg i.jump_target ≡ false → EffectFits prog (jumped m f rest i.jump_target)
    jumped_lem h =
        kept prog m f rest (record f { instruction_pointer = i.jump_target }) m.heap r
          (record { same_function = refl; same_dest = refl; same_length = refl; still_pointed = h })

pub wanted : (n : ℕ) (z : ℤ) → InRange n z → eqb_ℤ z (negsuc 0) ≡ false
wanted n (pos k) h = ground arith
wanted n (negsuc k) h = cc

-- A value handed to a caller that fits.
hand_back_lem :
    (prog : Program) (m : Machine) (stack : List CallFrame) (dest : ℤ) (v : Value)
    → ReturnsTo dest stack
    → StackFits prog stack
    → TriesFit stack m.try_stack
    → length m.global_slots ≡ prog.global_count
    → EffectFits prog (hand_back m stack dest v)
hand_back_lem prog m [] dest v d fs ts gs = tt
hand_back_lem prog m (g ∷ rest) dest v (inl e) fs ts gs =
    rw e (record { frames = fs; tries = ts; globals = gs })
hand_back_lem prog m (g ∷ rest) dest v (inr h) fs ts gs =
    let (s, e, n) = write-some g.slots dest v h in
    rw (wanted _ dest h, e)
      (kept prog m g rest (record g { slots = s }) m.heap
        (record { frames = fs; tries = ts; globals = gs })
        (record {
          same_function = refl;
          same_dest = refl;
          same_length = n;
          still_pointed = fs.0.pointed;
        }))

-- Calls and returns change the frames above and below.
module _ (prog : Program) (m : Machine) (f : CallFrame) (rest : List CallFrame)
    (r : Ready prog m f rest) where
  pub TriesFit-pop : Within (length rest) m.try_stack → TriesFit rest m.try_stack
  TriesFit-pop w =
      TriesFit-lower (f ∷ rest) rest m.try_stack (λ t d. unwind-push t.call_stack_depth f rest d) w
        r.tries

  copy_arguments-some :
      (from : List Value) (as' : List ℤ) (n : ℕ) (to : List Value)
      → All (InRange (length from)) as'
      → n + length as' ≤ length to
      → (s : List Value) × (copy_arguments from as' n to ≡ some s) × (length s ≡ length to)
  copy_arguments-some from [] n to h k = (to, refl, refl)
  copy_arguments-some from (a ∷ as') n to h k =
      let (v, e) = at-some from a h.0 in
      let (to', e', l) = write-some to (pos n) v (refl, omega arith) in
      let (s, e'', l') = copy_arguments-some from as' (n + 1) to' h.1 (omega arith) in
      (s, rw (e, e') e'', l' ∙ l)

  called_lem :
      (i : Instruction) (callee : Function)
      → FunctionFits prog callee
      → All (InRange (length f.slots)) i.arg_slots
      → Optional (length f.slots) i.dest
      → length i.arg_slots ≤ callee.slot_count
      → EffectFits prog (
          attempt
            (copy_arguments f.slots i.arg_slots 0 (new_frame callee i.dest).slots)
            bad_index
            λ s.
              proceed (record m {
                call_stack = record (new_frame callee i.dest) { slots = s } ∷ f ∷ rest;
              }))
  called_lem i callee cf args dest k =
      let n : length (new_frame callee i.dest).slots ≡ callee.slot_count =
        length-replicate callee.slot_count (int (pos 0)) in
      let (s, e, l) =
        copy_arguments-some f.slots i.arg_slots 0 (new_frame callee i.dest).slots args
          (omega arith) in
      rw e (record {
        frames = (record { sized = l ∙ n; pointed = refl; coded = cf }, dest, r.frames);
        tries = TriesFit-push _ (f ∷ rest) m.try_stack r.tries;
        globals = r.globals;
      })

  pub call_lem :
      (i : Instruction)
      → ProgramFits prog
      → FormFits prog (length f.slots) i Form.calling
      → EffectFits prog (run_call prog m f rest i)
  unfolding run_call
  call_lem i pf h = elim (Option-cases (find_function prog i.function_name)) [
    | inl e ↦ rw e tt
    | inr (callee, e) ↦
        rw e (called_lem i callee (pf i.function_name callee e) h.0 h.1 (h.2 callee e))
  ]

  pub return_lem :
      (i : Instruction)
      → InRange (length f.slots) i.src
      → Within (length rest) m.try_stack
      → EffectFits prog (run_return m f rest i)
  unfolding run_return
  return_lem i h w = reading_lem prog f.slots i.src _ h λ v.
      hand_back_lem prog m rest f.return_dest_slot v r.frames.1 r.frames.2 (TriesFit-pop w)
        r.globals
