-- ===== src/Vm/Rounds.antt =====
-- src/vm/interpreter.cpp: the loop of `Interpreter::runUntilEvent`, with its budget, its breakpoints and its steps
-- of the debugger, and the commands that start it. The state `Finished` is the reason finished, `Paused` any
-- other; profiling hooks are left out.
use saqut.Prelude.{
  ℕ, zero, suc, Bool, false, not, ◌&&◌, ◌||◌, Option, none, some, List, [], ◌∷◌, ◌++◌, ◌==◌,
  if◌then◌else◌, length,
}
use saqut.Prelude.Int.{ℤ, pos, negsuc, is_neg, ◌+ℤ◌, ◌-ℤ◌, ltb_ℤ, leb_ℤ, eqb_ℤ}
use saqut.Types.{Text, eq_text}
use saqut.Ir.{Instruction}
use saqut.Vm.Value.{Value, int}
use saqut.Vm.Store.{at}
use saqut.Vm.Platform.{Platform}
use saqut.Vm.Forms.{form}
use saqut.Vm.Machine.{Function, Program, CallFrame, Machine, write, current_source_line}
use saqut.Vm.Effects.{
  Effect, proceed, pending, handed_back, returned, thrown, bad_index, bad_object, with_frame,
}
use saqut.Vm.Exec.{run_form}
use saqut.Vm.Unwinding.{settle}

pub data RunReason : Type 0 where
  step_done breakpoint finished budget_exhausted : RunReason

pub record Control : Type 0 where
  pub run_budget : ℤ
  pub step_start_depth : ℤ
  pub step_start_line : ℤ
  pub resume_skip_line : ℤ
  pub resume_skip_file : Text

-- What one round of the loop leaves.
pub data Round : Type 0 where
  more : Control → Machine → Round
  stopped : RunReason → Machine → Round
  crashed : Text → Round
  undefined_index undefined_object : Round

abbrev pub Breakpoints : Type 0
Breakpoints = List (Text × ℤ)

abbrev pub contains_point : Text → ℤ → Breakpoints → Bool
contains_point file line [] = false
contains_point file line ((f, l) ∷ bs) =
    (eq_text f file && eqb_ℤ l line) || contains_point file line bs

abbrev pub instruction_file : Platform → Function → Text → Text
instruction_file p f [] = p.file_path f.module_id
instruction_file p f (c ∷ cs) = c ∷ cs

abbrev pub point_at : Platform → Breakpoints → Function → Option Instruction → Bool
point_at p bs f none = false
point_at p bs f (some i) =
    ltb_ℤ (pos 0) i.source_line
    && contains_point (instruction_file p f i.source_file) i.source_line bs

unfoldable pub is_breakpoint : Platform → Breakpoints → List CallFrame → Bool
is_breakpoint p bs [] = false
is_breakpoint p bs (f ∷ fs) =
    point_at p bs f.function (at f.function.instructions f.instruction_pointer)

-- The place where a run starts on a breakpoint, which does not stop it again.
abbrev pub on_resume_line : Platform → Control → List CallFrame → Bool
on_resume_line p c [] = false
on_resume_line p c (f ∷ fs) = elim (at f.function.instructions f.instruction_pointer) [
  | none ↦ false
  | some i ↦
      ltb_ℤ (pos 0) c.resume_skip_line
      && (eqb_ℤ i.source_line c.resume_skip_line
          && eq_text (instruction_file p f.function i.source_file) c.resume_skip_file)
]

abbrev pub all_slots : List CallFrame → List Value
all_slots [] = []
all_slots (f ∷ fs) = f.slots ++ all_slots fs

abbrev pub safepoint : Platform → Machine → Machine
safepoint p m = record m { heap = p.collect (m.global_slots ++ all_slots m.call_stack) m.heap }

-- A step out is done once the stack is as low as wanted.
abbrev pub stepped_out : Control → Machine → Bool
stepped_out c m =
    not (is_neg c.step_start_depth)
    && (eqb_ℤ c.step_start_line (pos 0) && leb_ℤ (pos (length m.call_stack)) c.step_start_depth)

abbrev pub back_in_caller : Control → Machine → Round
back_in_caller c m = if stepped_out c m then stopped step_done m else more c m

abbrev pub continue_with : {A : Type 0} → Option A → (A → Round) → Round
continue_with none k = undefined_index
continue_with (some a) k = k a

-- The end of a function without a return: the caller gets 0.
abbrev pub left_empty : Control → Machine → Round
left_empty c m = if stepped_out c m then stopped step_done m else stopped finished m

unfoldable pub fall_off : Control → Machine → ℤ → List CallFrame → Round
fall_off c m dest [] = left_empty c (record m { call_stack = [] })
fall_off c m dest (g ∷ rest) =
    if eqb_ℤ dest (negsuc 0)
    then back_in_caller c (record m { call_stack = g ∷ rest })
    else continue_with (write g.slots dest (int (pos 0)))
        λ s. back_in_caller c (with_frame m (record g { slots = s }) rest)

-- A step over a line is done before an instruction of another line, not deeper than it began.
abbrev pub line_done : Control → ℕ → ℤ → Bool
line_done c depth next =
    (ltb_ℤ (pos 0) c.step_start_line && not (is_neg c.step_start_depth))
    && (ltb_ℤ (pos 0) next
        && (not (eqb_ℤ next c.step_start_line) && leb_ℤ (pos depth) c.step_start_depth))

abbrev pub spend : Control → Control
spend c = record c {
  run_budget = if ltb_ℤ (pos 0) c.run_budget then c.run_budget -ℤ pos 1 else c.run_budget;
}

abbrev pub outcome_of : Control → Effect → Round
outcome_of c (proceed m) = more c m
outcome_of c (pending v m) = undefined_object
outcome_of c (handed_back m) = back_in_caller c m
outcome_of c (returned m) = stopped finished m
outcome_of c (thrown s) = crashed s
outcome_of c bad_index = undefined_index
outcome_of c bad_object = undefined_object

unfoldable pub dispatch :
    Platform → Program → Control → Machine → CallFrame → List CallFrame → Instruction → Round
unfolding run_form form settle
dispatch p prog c m f rest i =
    let f' : CallFrame = record f { instruction_pointer = f.instruction_pointer +ℤ pos 1 } in
    outcome_of (spend c) (settle (run_form p prog m f' rest i (form i.opcode)))

-- From the safepoint on.
unfoldable pub run_frame :
    Platform → Program → Control → Machine → CallFrame → List CallFrame → Round
unfolding dispatch fall_off
run_frame p prog c m f rest =
    if leb_ℤ (pos (length f.function.instructions)) f.instruction_pointer
    then fall_off c m f.return_dest_slot rest
    else continue_with (at f.function.instructions f.instruction_pointer) λ i.
      if line_done c (suc (length rest)) i.source_line
      then stopped step_done m
      else dispatch p prog c m f rest i

abbrev pub run_top : Platform → Program → Control → Machine → List CallFrame → Round
run_top p prog c m [] = stopped finished m
run_top p prog c m (f ∷ rest) = run_frame p prog c m f rest

-- One round of the loop, on a call stack that is not empty: the budget, the breakpoint, the safepoint, and the
-- frame on top.
unfoldable pub round : Platform → Program → Breakpoints → Control → Machine → Round
unfolding run_frame
round p prog bs c m =
    if eqb_ℤ c.run_budget (pos 0)
    then stopped budget_exhausted m
    else if is_breakpoint p bs m.call_stack
    then (if on_resume_line p c m.call_stack
        then run_top p prog c (safepoint p m) m.call_stack
        else stopped breakpoint m)
    else run_top p prog (record c { resume_skip_line = pos 0 }) (safepoint p m) m.call_stack

-- The loop; `none` means that the fuel ran out.
abbrev pub after : (Control → Machine → Option Round) → Round → Option Round
after again (more c m) = again c m
after again (stopped reason m) = some (stopped reason m)
after again (crashed s) = some (crashed s)
after again undefined_index = some undefined_index
after again undefined_object = some undefined_object

unfoldable pub rounds : ℕ → Platform → Program → Breakpoints → Control → Machine → Option Round
rounds zero p prog bs c m = none
rounds (suc fuel) p prog bs c m = after (rounds fuel p prog bs) (round p prog bs c m)

abbrev pub resume_point : Platform → Breakpoints → List CallFrame → ℤ × Text
resume_point p bs [] = (pos 0, [])
resume_point p bs (f ∷ fs) = elim (at f.function.instructions f.instruction_pointer) [
  | none ↦ (pos 0, [])
  | some i ↦
      if is_breakpoint p bs (f ∷ fs)
      then (i.source_line, instruction_file p f.function i.source_file)
      else (pos 0, [])
]

abbrev pub start : Platform → Breakpoints → Machine → ℤ → ℤ → Control
start p bs m budget depth = record {
  run_budget = budget;
  step_start_depth = depth;
  step_start_line = if is_neg depth then pos 0 else current_source_line m.call_stack;
  resume_skip_line = (resume_point p bs m.call_stack).0;
  resume_skip_file = (resume_point p bs m.call_stack).1;
}

-- `runUntilEvent` of a machine that `initForDebug` has set up.
unfoldable pub run_until_event :
    ℕ → Platform → Program → Breakpoints → Machine → ℤ → ℤ → Option Round
unfolding is_breakpoint current_source_line
run_until_event fuel p prog bs m budget depth =
    if length m.call_stack == 0
    then some (stopped finished m)
    else rounds fuel p prog bs (start p bs m budget depth) m

-- The commands of the debugger.
unfoldable pub resume : ℕ → Platform → Program → Breakpoints → Machine → Option Round
unfolding run_until_event
resume fuel p prog bs m = run_until_event fuel p prog bs m (negsuc 0) (negsuc 0)

unfoldable pub step_instruction : ℕ → Platform → Program → Breakpoints → Machine → Option Round
unfolding run_until_event
step_instruction fuel p prog bs m = run_until_event fuel p prog bs m (pos 1) (negsuc 0)

unfoldable pub step_over : ℕ → Platform → Program → Breakpoints → Machine → Option Round
unfolding run_until_event
step_over fuel p prog bs m = run_until_event fuel p prog bs m (negsuc 0) (pos (length m.call_stack))

unfoldable pub step_out : ℕ → Platform → Program → Breakpoints → Machine → Option Round
unfolding run_until_event
step_out fuel p prog bs m =
    run_until_event fuel p prog bs m (negsuc 0) (pos (length m.call_stack) -ℤ pos 1)
