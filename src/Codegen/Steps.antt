-- ===== src/Codegen/Steps.antt =====
-- The virtual machine, running freely (no budget, breakpoints or steps), inside one frame.
use saqut.Prelude.{
  ℕ, suc, ◌<◌, ◌≡◌, refl, Bool, true, false, ◌&&◌, Option, none, some, List, [], ◌∷◌, ◌++◌, length,
  arith, get_elem?,
}
use saqut.Prelude.Int.{ℤ, pos, negsuc, leb_ℤ, ◌+ℤ◌, ltb_ℤ}
use saqut.Ir.{Instruction}
use saqut.Vm.Value.{Value}
use saqut.Vm.Store.{Store, at}
use saqut.Vm.Platform.{Platform}
use saqut.Vm.Forms.{form}
use saqut.Vm.Machine.{Function, Program, CallFrame, TryFrame, Machine}
use saqut.Vm.Exec.{run_form}
use saqut.Vm.Unwinding.{settle}
use saqut.Vm.Rounds.{
  Control, Round, point_at, is_breakpoint, all_slots, outcome_of, dispatch, run_frame, round,
}

-- What stays as it is while a frame runs.
pub record Setting : Type 0 where
  pub function : Function
  pub return_dest : ℤ
  pub below : List CallFrame
  pub globals : List Value
  pub tries : List TryFrame
  pub last_return : ℤ

abbrev pub frame_at : Setting → ℕ → List Value → CallFrame
frame_at st k s = record {
  function = st.function;
  instruction_pointer = pos k;
  slots = s;
  return_dest_slot = st.return_dest;
}

-- The machine before the instruction `k`.
abbrev pub machine_at : Setting → Store → ℕ → List Value → Machine
machine_at st heap k s = record {
  call_stack = frame_at st k s ∷ st.below;
  global_slots = st.globals;
  heap = heap;
  try_stack = st.tries;
  last_return_value = st.last_return;
}

-- The control of `run`: without a budget, a step or a breakpoint.
abbrev pub free : Control
free = record {
  run_budget = negsuc 0;
  step_start_depth = negsuc 0;
  step_start_line = pos 0;
  resume_skip_line = pos 0;
  resume_skip_file = [];
}

abbrev pub round_of : Platform → Program → Machine → Round
round_of p prog m = round p prog [] free m

abbrev pub collected : Platform → Setting → Store → ℕ → List Value → Store
collected p st heap k s = p.collect (st.globals ++ all_slots (frame_at st k s ∷ st.below)) heap

&&-false : (b : Bool) → (b && false) ≡ false
&&-false true = refl
&&-false false = refl

no_point : (p : Platform) (f : Function) (o : Option Instruction) → point_at p [] f o ≡ false
no_point p f none = refl
no_point p f (some i) = &&-false (ltb_ℤ (pos 0) i.source_line)

no_breakpoint : (p : Platform) (stack : List CallFrame) → is_breakpoint p [] stack ≡ false
unfolding is_breakpoint
no_breakpoint p [] = refl
no_breakpoint p (f ∷ fs) = no_point p f.function (at f.function.instructions f.instruction_pointer)

inside : (n k : ℕ) → k < n → leb_ℤ (pos n) (pos k) ≡ false
inside n k h = ground arith

next_index : (k : ℕ) → pos k +ℤ pos 1 ≡ pos (suc k)
unfolding ◌+ℤ◌
next_index k = ground arith

module _ (p : Platform) (prog : Program) (st : Setting) where
  -- A round at an instruction runs its form, after the safepoint.
  pub round_at :
      (heap : Store) (k : ℕ) (s : List Value) (i : Instruction)
      → get_elem? st.function.instructions k ≡ some i
      → k < length st.function.instructions
      → round_of p prog (machine_at st heap k s)
        ≡ outcome_of free (
            settle (
              run_form p prog
                (machine_at st (collected p st heap k s) k s)
                (frame_at st (suc k) s)
                st.below
                i
                (form i.opcode)))
  unfolding round run_frame dispatch
  round_at heap k s i e h =
      rw
        (
          no_breakpoint p (frame_at st k s ∷ st.below),
          inside (length st.function.instructions) k h,
          e,
          next_index k,
        )
        refl
