-- ===== src/Vm/Tests.antt =====
-- A program that returns 7, and a machine in a callee with a handler.
use saqut.Prelude.{
  ℕ, suc, ◌+◌, ◌<◌, length, ◌≡◌, ◌≢◌, refl, Bool, true, false, Option, none, some, List, [], ◌∷◌,
  ◌++◌, arith, if_split, Bool-cases, inl, inr, some_inj, if◌then◌else◌,
}
use mathlib.Core.Path.{subst}
use saqut.Prelude.Int.{ℤ, pos, negsuc}
use saqut.Prelude.Texts.{codes}
use saqut.Types.{eq_text}
use saqut.Ir.{Instruction, instruction, load_const, return, div}
use saqut.Decimal.{zero_decimal}
use saqut.Vm.Value.{Value, int, string}
use saqut.Vm.Store.{Store}
use saqut.Vm.Platform.{Platform, answer}
use saqut.Vm.Machine.{Function, Program, CallFrame, TryFrame, Machine, find_function, init}
use saqut.Vm.Effects.{pending}
use saqut.Vm.Unwinding.{settle}
use saqut.Vm.Rounds.{
  Control, Round, more, stopped, undefined_index, Breakpoints, round, run_until_event,
}
use saqut.Vm.Fits.{FunctionFits, ProgramFits}
use saqut.Vm.Budget.{run_until_event-total}
use saqut.Vm.Runs.{here, next, Runs-index}
use saqut.Vm.Handlers.{Lands, settle-Lands}
use saqut.Vm.Forms.{form}
use saqut.Vm.Agreement.{binary_opcode, computed, outcome_for, computed-run_binary}
use saqut.Folding.{slash, run_binary}

abbrev pub test_platform : Platform
test_platform = record {
  fadd = λ x y. x;
  fsub = λ x y. x;
  fmul = λ x y. x;
  fdiv = λ x y. x;
  fneg = λ x. x;
  f32add = λ x y. x;
  f32sub = λ x y. x;
  f32mul = λ x y. x;
  f32div = λ x y. x;
  f32neg = λ x. x;
  single = λ x. x;
  float_eq = λ x y. true;
  float_lt = λ x y. false;
  float_le = λ x y. true;
  is_finite = λ x. true;
  double_of_int = λ z. 0;
  int_of_double = λ x. pos 0;
  stoll = λ t. none;
  stod = λ t. none;
  stof = λ t. none;
  int_text = λ z. [];
  stream_double = λ x. [];
  stream_single = λ x. [];
  print_double = λ x. [];
  print_single = λ x. [];
  decimal_of_double = λ x. zero_decimal;
  double_of_decimal = λ d. 0;
  decimal_text = λ d. [];
  decimal_of_text = λ t. none;
  file_path = λ z. [];
  host_call = λ k vs s. (s, answer (int (pos 0)));
  collect = λ roots s. s;
}

abbrev load_seven : Instruction
load_seven = record (instruction load_const) { dest = pos 0; int_value = pos 7 }

abbrev return_first : Instruction
return_first = record (instruction return) { src = pos 0 }

abbrev pub seven : Function
seven = record {
  name = codes "main";
  module_id = pos 0;
  slot_count = 1;
  instructions = load_seven ∷ return_first ∷ [];
  struct_field_nullable = [];
}

abbrev pub seven_program : Program
seven_program = record { functions = (codes "main", seven) ∷ []; global_count = 0 }

abbrev pub empty_store : Store
empty_store = record { objects = []; fresh = 0 }

abbrev frame : ℕ → Value → CallFrame
frame k v = record {
  function = seven;
  instruction_pointer = pos k;
  slots = v ∷ [];
  return_dest_slot = negsuc 0;
}

abbrev with_stack : List CallFrame → List TryFrame → Machine
with_stack fs ts = record {
  call_stack = fs;
  global_slots = [];
  heap = empty_store;
  try_stack = ts;
  last_return_value = pos 0;
}

abbrev unlimited : Control
unlimited = record {
  run_budget = negsuc 0;
  step_start_depth = negsuc 0;
  step_start_line = pos 0;
  resume_skip_line = pos 0;
  resume_skip_file = [];
}

seven-FunctionFits : FunctionFits seven_program seven
unfolding form
seven-FunctionFits = ((refl, omega arith), ((refl, omega arith), tt))

not_found : (f : Function) (o : Option Function) → o ≡ none → o ≡ some f → ⊥
not_found f o n e = cc

seven-ProgramFits : ProgramFits seven_program
unfolding find_function
seven-ProgramFits name f e = elim (Bool-cases (eq_text (codes "main") name)) [
  | inl h ↦ subst (FunctionFits seven_program) (some_inj (rw h at e)) seven-FunctionFits
  | inr h ↦ absurd (not_found f none refl (rw h at e))
]

init_test :
    init seven_program (codes "main") empty_store
    ≡ some (with_stack (frame 0 (int (pos 0)) ∷ []) [])
unfolding init find_function
init_test = refl

-- After LOAD_CONST comes RETURN.
round_test :
    round test_platform seven_program [] unlimited (with_stack (frame 0 (int (pos 0)) ∷ []) [])
    ≡ more unlimited (with_stack (frame 1 (int (pos 7)) ∷ []) [])
unfolding round saqut.Vm.Rounds.run_frame saqut.Vm.Rounds.dispatch saqut.Vm.Exec.run_form form
    settle saqut.Vm.Rounds.is_breakpoint saqut.Prelude.Int.◌+ℤ◌
round_test = refl

Runs-index_example :
    round test_platform seven_program [] unlimited (with_stack (frame 1 (int (pos 7)) ∷ []) [])
    ≢ undefined_index
Runs-index_example =
    Runs-index test_platform seven_program [] (codes "main") empty_store unlimited unlimited
      (with_stack (frame 0 (int (pos 0)) ∷ []) []) (with_stack (frame 1 (int (pos 7)) ∷ []) [])
      seven-ProgramFits init_test (next here (λ h. tt) round_test) (λ h. tt)

run_until_event-total_example :
    (r : Round) × (run_until_event 8 test_platform seven_program []
        (with_stack (frame 0 (int (pos 0)) ∷ []) [])
        (pos 3)
        (negsuc 0)
      ≡ some r)
run_until_event-total_example =
    run_until_event-total 8 3 test_platform seven_program []
      (with_stack (frame 0 (int (pos 0)) ∷ []) []) (negsuc 0) (omega arith)

abbrev handler : ℕ → TryFrame
handler depth = record { call_stack_depth = depth; catch_target = pos 1; error_slot = pos 0 }

abbrev failing : Machine
failing = with_stack (frame 1 (int (pos 1)) ∷ frame 0 (int (pos 2)) ∷ []) (handler 1 ∷ [])

settle-Lands_example :
    Lands failing (string (codes "no")) (settle (pending (string (codes "no")) failing))
settle-Lands_example =
    settle-Lands failing (string (codes "no"))
      (record { reached = omega arith; handled = (refl, omega arith); targeted = refl }, tt, tt)

abbrev leaving : Machine
leaving = with_stack (frame 2 (int (pos 7)) ∷ frame 1 (int (pos 2)) ∷ []) (handler 2 ∷ [])

abbrev left : Machine
left = record (with_stack (frame 1 (int (pos 2)) ∷ []) (handler 2 ∷ [])) {
  last_return_value = pos 0;
}

-- The caller, some instructions after the call, divides by zero.
abbrev after_call : Machine
after_call = record left { call_stack = frame 2 (int (pos 9)) ∷ [] }

computed-run_binary_example :
    computed test_platform (form div) (int (pos 7)) (int (pos 0))
    ≡ some (outcome_for slash (run_binary slash (pos 7) (pos 0)))
unfolding binary_opcode
computed-run_binary_example = computed-run_binary test_platform slash div (pos 7) (pos 0) refl
