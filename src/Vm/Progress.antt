-- ===== src/Vm/Progress.antt =====
-- `Interpreter::runUntilEvent`: a round of the loop from a machine that fits.
use mathlib.Core.Path.{subst}
use saqut.Prelude.{
  ℕ, suc, ◌≡◌, refl, ◌⊎◌, inl, inr, true, false, some, List, [], ◌∷◌, length, All, All-get_elem?,
  arith, Bool-cases, sym, if_split,
}
use saqut.Prelude.Int.{ℤ, pos, negsuc, is_neg, eqb_ℤ, leb_ℤ, ◌+ℤ◌}
use saqut.Ir.{Instruction}
use saqut.Vm.Value.{int}
use saqut.Vm.Store.{at}
use saqut.Vm.Platform.{Platform}
use saqut.Vm.Forms.{form, returning}
use saqut.Vm.Machine.{Program, CallFrame, TryFrame, Machine}
use saqut.Vm.Effects.{
  Effect, proceed, pending, handed_back, returned, thrown, bad_index, bad_object, with_frame,
}
use saqut.Vm.Rounds.{
  finished, Control, Round, more, stopped, crashed, undefined_index, undefined_object, Breakpoints,
  is_breakpoint, on_resume_line, safepoint, stepped_out, back_in_caller, fall_off, line_done,
  outcome_of, spend, dispatch, run_frame, run_top, round,
}
use saqut.Vm.Fits.{
  InstructionFits, TriesFit-Like, InRange, StackFits, ProgramFits, ReturnsTo, TriesFit, MachineFits,
  Within, at-some, write-some,
}
use saqut.Vm.Upkeep.{EffectFits, Ready, kept}
use saqut.Vm.Instructions.{wanted, TriesFit-pop}
use saqut.Vm.Soundness.{run_form_lem, settle_lem}

-- The machine that a round leaves fits, and the round does nothing undefined with an index.
abbrev pub RoundFits : Program → Round → Type 0
RoundFits prog (more c m) = MachineFits prog m
RoundFits prog (stopped finished m) = Unit
RoundFits prog (stopped _ m) = MachineFits prog m
RoundFits prog (crashed s) = Unit
RoundFits prog undefined_index = ⊥
RoundFits prog undefined_object = Unit

-- The frame is about to be left: its code is at an end, or at a RETURN.
abbrev pub IsLeaving : CallFrame → Type 0
IsLeaving f =
    (leb_ℤ (pos (length f.function.instructions)) f.instruction_pointer ≡ true)
    ⊎ ((i : Instruction) × (at f.function.instructions f.instruction_pointer ≡ some i)
        × (form i.opcode ≡ returning))

-- A frame that is about to be left has no handler on the try stack.
abbrev pub LeavesNoHandler : List CallFrame → List TryFrame → Type 0
LeavesNoHandler [] ts = Unit
LeavesNoHandler (f ∷ rest) ts = IsLeaving f → Within (length rest) ts

All-at :
    {A : Type 0} (P : A → Type 0) (xs : List A) (z : ℤ) (x : A) → All P xs → at xs z ≡ some x → P x
All-at P xs (pos k) x h e = All-get_elem? P xs k x h e
All-at P xs (negsuc k) x h e = cc

not_past : (n : ℕ) (z : ℤ) → is_neg z ≡ false → leb_ℤ (pos n) z ≡ false → InRange n z
not_past n (pos k) h e = (h, ground arith)
not_past n (negsuc k) h e = cc

module _ (prog : Program) where
  back_lem : (c : Control) (m : Machine) → MachineFits prog m → RoundFits prog (back_in_caller c m)
  back_lem c m h = if_split (RoundFits prog) (stepped_out c m) (λ _. h) (λ _. h)

  outcome_lem : (c : Control) (e : Effect) → EffectFits prog e → RoundFits prog (outcome_of c e)
  outcome_lem c (proceed m) h = h
  outcome_lem c (pending v m) h = tt
  outcome_lem c (handed_back m) h = back_lem c m h
  outcome_lem c (returned m) h = tt
  outcome_lem c (thrown s) h = tt
  outcome_lem c bad_index h = h
  outcome_lem c bad_object h = tt

  fall_off_lem :
      (c : Control) (m : Machine) (dest : ℤ) (stack : List CallFrame)
      → ReturnsTo dest stack
      → StackFits prog stack
      → TriesFit stack m.try_stack
      → length m.global_slots ≡ prog.global_count
      → RoundFits prog (fall_off c m dest stack)
  unfolding fall_off
  fall_off_lem c m dest [] d fs ts gs =
      if_split (RoundFits prog) (stepped_out c (record m { call_stack = [] }))
        (λ _. record { frames = fs; tries = ts; globals = gs }) λ _. tt
  fall_off_lem c m dest (g ∷ rest) (inl e) fs ts gs = rw e (
      back_lem c (record m { call_stack = g ∷ rest })
        (record { frames = fs; tries = ts; globals = gs }))
  fall_off_lem c m dest (g ∷ rest) (inr h) fs ts gs =
      let (s, e, n) = write-some g.slots dest (int (pos 0)) h in
      rw (wanted _ dest h, e)
        (back_lem c (with_frame m (record g { slots = s }) rest) (
          kept prog m g rest (record g { slots = s }) m.heap
            (record { frames = fs; tries = ts; globals = gs })
            (record {
              same_function = refl;
              same_dest = refl;
              same_length = n;
              still_pointed = fs.0.pointed;
            })))

  -- The instruction pointer steps on.
  next_pointed : (z : ℤ) → is_neg z ≡ false → is_neg (z +ℤ pos 1) ≡ false
  unfolding ◌+ℤ◌
  next_pointed z h = ground arith

  advanced :
      (m : Machine) (f : CallFrame) (rest : List CallFrame)
      → Ready prog m f rest
      → Ready prog m (record f { instruction_pointer = f.instruction_pointer +ℤ pos 1 }) rest
  advanced m f rest r = record {
    frames = (
      record {
        sized = r.frames.0.sized;
        pointed = next_pointed f.instruction_pointer r.frames.0.pointed;
        coded = r.frames.0.coded;
      },
      r.frames.1,
      r.frames.2,
    );
    tries = TriesFit-Like f _ rest refl m.try_stack r.tries;
    globals = r.globals;
  }

  dispatch_lem :
      (p : Platform) (c : Control) (m : Machine) (f : CallFrame) (rest : List CallFrame)
      (i : Instruction)
      → ProgramFits prog
      → Ready prog m f rest
      → at f.function.instructions f.instruction_pointer ≡ some i
      → (form i.opcode ≡ returning → Within (length rest) m.try_stack)
      → RoundFits prog (dispatch p prog c m f rest i)
  unfolding dispatch
  dispatch_lem p c m f rest i pf r e w =
      let fits : InstructionFits prog f.function.slot_count i =
        All-at _ f.function.instructions f.instruction_pointer i r.frames.0.coded e in
      let f' : CallFrame = record f { instruction_pointer = f.instruction_pointer +ℤ pos 1 } in
      outcome_lem (spend c) _ (
        settle_lem prog _ (
          run_form_lem prog m f' rest (advanced m f rest r) p i (form i.opcode) pf
            (subst (λ n. InstructionFits prog n i) (sym r.frames.0.sized) fits) w))

  run_frame_lem :
      (p : Platform) (c : Control) (m : Machine) (f : CallFrame) (rest : List CallFrame)
      → ProgramFits prog
      → Ready prog m f rest
      → MachineFits prog m
      → (IsLeaving f → Within (length rest) m.try_stack)
      → RoundFits prog (run_frame p prog c m f rest)
  unfolding run_frame
  run_frame_lem p c m f rest pf r h w =
      elim (Bool-cases (leb_ℤ (pos (length f.function.instructions)) f.instruction_pointer)) [
        | inl e ↦ rw e (
            fall_off_lem c m f.return_dest_slot rest r.frames.1 r.frames.2
              (TriesFit-pop prog m f rest r (w (inl e))) r.globals)
        | inr n ↦
            let (i, e) =
              at-some f.function.instructions f.instruction_pointer
                (not_past _ f.instruction_pointer r.frames.0.pointed n) in
            rw (n, e)
              (if_split (RoundFits prog) (line_done c (suc (length rest)) i.source_line) (λ _. h)
                λ _. dispatch_lem p c m f rest i pf r e λ k. w (inr (i, e, k)))
      ]

  run_top_lem :
      (p : Platform) (c : Control) (m : Machine) (stack : List CallFrame)
      → ProgramFits prog
      → StackFits prog stack
      → TriesFit stack m.try_stack
      → MachineFits prog m
      → LeavesNoHandler stack m.try_stack
      → RoundFits prog (run_top p prog c m stack)
  run_top_lem p c m [] pf fs ts h w = tt
  run_top_lem p c m (f ∷ rest) pf fs ts h w =
      run_frame_lem p c m f rest pf (record { frames = fs; tries = ts; globals = h.globals }) h w

-- From a machine whose frames and handlers fit a program that fits, and that does not leave a frame with a
-- handler of its own, a round of the loop does nothing undefined with an index, and the machine that goes on,
-- or pauses, fits again.
pub round-RoundFits :
    (prog : Program) (p : Platform) (bs : Breakpoints) (c : Control) (m : Machine)
    → ProgramFits prog
    → MachineFits prog m
    → LeavesNoHandler m.call_stack m.try_stack
    → RoundFits prog (round p prog bs c m)
unfolding round
round-RoundFits prog p bs c m pf h w =
    let h' : MachineFits prog (safepoint p m) = record {
      frames = h.frames;
      tries = h.tries;
      globals = h.globals;
    } in
    let go : (c' : Control) → RoundFits prog (run_top p prog c' (safepoint p m) m.call_stack) =
      λ c'. run_top_lem prog p c' (safepoint p m) m.call_stack pf h.frames h.tries h' w in
    if_split (RoundFits prog) (eqb_ℤ c.run_budget (pos 0)) (λ _. h)
      λ _.
        if_split (RoundFits prog) (is_breakpoint p bs m.call_stack)
          (λ _. if_split (RoundFits prog) (on_resume_line p c m.call_stack) (λ _. go c) λ _. h)
          λ _. go (record c { resume_skip_line = pos 0 })
