-- ===== src/Vm/Machine.antt =====
-- src/vm/call_frame.hpp, src/vm/interpreter.hpp, src/ir/ir_function.hpp and src/ir/ir_program.hpp: the state of
-- the interpreter and the program that it runs; and the traces and errors of src/vm/interpreter.cpp. Stacks
-- are lists, their top first.
use saqut.Prelude.{ℕ, Bool, Option, none, some, List, [], ◌∷◌, ◌++◌, if◌then◌else◌, set, replicate}
use saqut.Prelude.Int.{ℤ, pos, negsuc, pos_part, ltb_ℤ, ◌-ℤ◌}
use saqut.Prelude.Texts.{codes}
use saqut.Types.{Text, eq_text}
use saqut.Ir.{Instruction}
use saqut.Vm.Value.{Value, int, string, ref}
use saqut.Vm.Store.{Store, struct, allocate, at}
use saqut.Vm.Platform.{Platform}

-- The fields of `IRFunction` that the interpreter reads.
pub record Function : Type 0 where
  pub name : Text
  pub module_id : ℤ
  pub slot_count : ℕ
  pub instructions : List Instruction
  pub struct_field_nullable : List (Text × List Bool)

pub record Program : Type 0 where
  pub functions : List (Text × Function)
  pub global_count : ℕ

pub record CallFrame : Type 0 where
  pub function : Function
  pub instruction_pointer : ℤ
  pub slots : List Value
  pub return_dest_slot : ℤ

pub record TryFrame : Type 0 where
  pub call_stack_depth : ℕ
  pub catch_target : ℤ
  pub error_slot : ℤ

pub record Machine : Type 0 where
  pub call_stack : List CallFrame
  pub global_slots : List Value
  pub heap : Store
  pub try_stack : List TryFrame
  pub last_return_value : ℤ

abbrev pub find_in {ℓ} : {A : Type ℓ} → Text → List (Text × A) → Option A
find_in n [] = none
find_in n ((k, a) ∷ r) = if eq_text k n then some a else find_in n r

unfoldable pub find_function : Program → Text → Option Function
find_function p n = find_in n p.functions

-- A frame at the first instruction, its slots 0.
abbrev pub new_frame : Function → ℤ → CallFrame
new_frame f dest = record {
  function = f;
  instruction_pointer = pos 0;
  slots = replicate f.slot_count (int (pos 0));
  return_dest_slot = dest;
}

-- `slots[i] = v`; `none` is an index outside, which C++ leaves undefined.
abbrev pub write : List Value → ℤ → Value → Option (List Value)
write xs i v = elim (at xs i) [ none ↦ none | some old ↦ some (set xs (pos_part i) v) ]

-- The line of `buildTrace` for a frame: the instruction before the pointer is the one that runs.
abbrev trace_line : Platform → CallFrame → Text
trace_line p f = elim (at f.function.instructions (f.instruction_pointer -ℤ pos 1)) [
  | none ↦ f.function.name ++ codes " (?)" ++ (10 ∷ [])
  | some i ↦
      if ltb_ℤ (pos 0) i.source_line
      then f.function.name
        ++ (codes " ("
            ++ (p.file_path f.function.module_id
                ++ (codes ":"
                    ++ (p.int_text i.source_line
                        ++ (codes ":" ++ (p.int_text i.source_col ++ (codes ")" ++ (10 ∷ []))))))))
      else f.function.name ++ codes " (?)" ++ (10 ∷ [])
]

unfoldable pub build_trace : Platform → List CallFrame → Text
build_trace p [] = []
build_trace p (f ∷ fs) = trace_line p f ++ build_trace p fs

-- The fields of an error: line, column, message, trace and code.
unfoldable pub make_error_value :
    Platform → List CallFrame → Store → Text → Text → ℤ → ℤ → Store × Value
unfolding build_trace
make_error_value p stack s message code line col =
    let fields : List Value =
      int line ∷ int col ∷ string message ∷ string (build_trace p stack) ∷ string code ∷ [] in
    (allocate (struct fields) s, ref (some s.fresh))

-- The line that a pause reports: of the next instruction, or at the end of a function of the last one.
unfoldable pub current_source_line : List CallFrame → ℤ
current_source_line [] = pos 0
current_source_line (f ∷ fs) = elim (at f.function.instructions f.instruction_pointer) [
  | some i ↦ i.source_line
  | none ↦ elim (at f.function.instructions (f.instruction_pointer -ℤ pos 1)) [
    | some i ↦ i.source_line
    | none ↦ pos 0
  ]
]

abbrev pub initial : Program → Store → Option Function → Option Machine
initial p heap none = none
initial p heap (some f) = some (record {
  call_stack = new_frame f (negsuc 0) ∷ [];
  global_slots = replicate p.global_count (int (pos 0));
  heap = heap;
  try_stack = [];
  last_return_value = pos 0;
})

-- `initForDebug`; `none` is the exception for a program with no main.
unfoldable pub init : Program → List ℕ → Store → Option Machine
init p main heap = initial p heap (find_function p main)
