-- ===== src/Vm/Exec.antt =====
-- src/vm/interpreter.cpp: calls, returns, globals, host calls, errors and the cases of the switch.
use saqut.Prelude.{
  ℕ, ◌+◌, Bool, Option, none, some, List, [], ◌∷◌, ◌++◌, leb, if◌then◌else◌, length, set, drop,
}
use saqut.Prelude.Int.{ℤ, pos, negsuc, is_neg, eqb_ℤ}
use saqut.Prelude.Texts.{codes}
use saqut.Types.{Text}
use saqut.Ir.{Instruction}
use saqut.Vm.Value.{
  Value, int, long_int, date, float, float32, decimal, string, ref, null, int_value,
  is_truthy_value,
}
use saqut.Vm.Store.{Object, Store, array, struct, box, update, at}
use saqut.Vm.Platform.{Platform, HostAnswer, answer, host_error}
use saqut.Vm.Forms.{
  Form, constant, unary, binary, get_global, set_global, jump, jump_unless, jump_if, calling,
  returning, new_struct, get_field, set_field, new_array, get_element, set_element, get_length,
  entering_try, leaving_try, throwing, calling_host,
}
use saqut.Vm.Machine.{
  Program, CallFrame, TryFrame, Machine, find_function, new_frame, write, build_trace,
}
use saqut.Vm.Effects.{
  Effect, proceed, handed_back, pending, returned, thrown, bad_index, with_frame, assign, raise,
  complete, reading, attempt, dereference,
}
use saqut.Vm.Objects.{
  run_new_struct, run_get_field, run_set_field, run_new_array, run_get_element, run_set_element,
  run_get_length,
}

abbrev pub maybe : {A B : Type 0} → Option A → (A → Option B) → Option B
maybe none k = none
maybe (some a) k = k a

abbrev no_function : Text → Effect
no_function n = thrown (codes "'" ++ (n ++ codes "' function not found"))

-- `newFrame.slots[i] = frame.slots[argSlots[i]]`, from an index on.
abbrev pub copy_arguments : List Value → List ℤ → ℕ → List Value → Option (List Value)
copy_arguments from [] n to = some to
copy_arguments from (a ∷ as') n to =
    maybe (at from a) λ v. maybe (write to (pos n) v) λ to'. copy_arguments from as' (n + 1) to'

unfoldable pub run_call : Program → Machine → CallFrame → List CallFrame → Instruction → Effect
run_call prog m f rest i =
    attempt (find_function prog i.function_name) (no_function i.function_name) λ callee.
      attempt (copy_arguments f.slots i.arg_slots 0 (new_frame callee i.dest).slots) bad_index λ s.
        proceed
          (record m { call_stack = record (new_frame callee i.dest) { slots = s } ∷ f ∷ rest })

-- The caller gets the value, unless it is not wanted.
abbrev pub hand_back : Machine → List CallFrame → ℤ → Value → Effect
hand_back m [] dest v = returned (record m { call_stack = []; last_return_value = int_value v })
hand_back m (g ∷ rest) dest v =
    if eqb_ℤ dest (negsuc 0)
    then handed_back (record m { call_stack = g ∷ rest })
    else attempt (write g.slots dest v) bad_index
        λ s. handed_back (with_frame m (record g { slots = s }) rest)

-- LOAD_GLOBAL and STORE_GLOBAL.
unfoldable pub run_get_global : Machine → CallFrame → List CallFrame → Instruction → Effect
unfolding assign
run_get_global m f rest i = reading (at m.global_slots i.int_value) λ v. assign m f rest i.dest v

unfoldable pub run_set_global : Machine → CallFrame → List CallFrame → Instruction → Effect
run_set_global m f rest i = reading (at f.slots i.src) λ v.
    attempt (write m.global_slots i.int_value v) bad_index
      λ gs. proceed (record m { call_stack = f ∷ rest; global_slots = gs })

-- `Value::toString`.
unfoldable pub value_text : Platform → Value → Text
value_text p (int n) = p.int_text n
value_text p (long_int n) = p.int_text n
value_text p (date n) = p.int_text n
value_text p (decimal d) = p.decimal_text d
value_text p (float d) = p.print_double d
value_text p (float32 d) = p.print_single d
value_text p (string s) = s
value_text p (ref a) = codes "<ref>"
value_text p null = codes "null"

-- THROW: a struct keeps its identity and gets the trace as its fourth field; any other value is wrapped.
abbrev pub thrown_struct : Platform → Machine → CallFrame → List CallFrame → ℕ → List Value → Effect
thrown_struct p m f rest a xs =
    let m' : Machine = with_frame m f rest in
    if leb 4 (length xs)
    then pending (ref (some a)) (record m' {
      heap = update a (struct (set xs 3 (string (build_trace p (f ∷ rest))))) m.heap;
    })
    else pending (ref (some a)) m'

abbrev pub throw_object :
    Platform → Machine → CallFrame → List CallFrame → Instruction → Value → ℕ → Object → Effect
throw_object p m f rest i v a (struct xs) = thrown_struct p m f rest a xs
throw_object p m f rest i v a (array b) = raise p m f rest i (value_text p v) []
throw_object p m f rest i v a box = raise p m f rest i (value_text p v) []

unfoldable pub run_throw : Platform → Machine → CallFrame → List CallFrame → Instruction → Effect
unfolding raise build_trace value_text
run_throw p m f rest i = reading (at f.slots i.src) λ v.
    dereference m v (raise p m f rest i (value_text p v) []) λ a o. throw_object p m f rest i v a o

abbrev pub read_all : List Value → List ℤ → Option (List Value)
read_all slots [] = some []
read_all slots (a ∷ as') = maybe (at slots a) λ v. maybe (read_all slots as') λ vs. some (v ∷ vs)

abbrev pub code_or_host : Text → Text
code_or_host [] = codes "E_HOST"
code_or_host (c ∷ cs) = c ∷ cs

unfoldable pub answered :
    Platform → Machine → CallFrame → List CallFrame → Instruction → HostAnswer → Effect
unfolding assign raise
answered p m f rest i (answer v) =
    if is_neg i.dest then proceed (with_frame m f rest) else assign m f rest i.dest v
answered p m f rest i (host_error message code) = raise p m f rest i message (code_or_host code)

-- CALLHOST: a result that is not wanted has a negative destination.
unfoldable pub run_host_call :
    Platform → Machine → CallFrame → List CallFrame → Instruction → Effect
unfolding answered
run_host_call p m f rest i = attempt (read_all f.slots i.arg_slots) bad_index λ vs.
    let called : Store × HostAnswer = p.host_call i.int_value vs m.heap in
    answered p (record m { heap = called.0 }) f rest i called.1

abbrev pub jumped : Machine → CallFrame → List CallFrame → ℤ → Effect
jumped m f rest target = proceed (with_frame m (record f { instruction_pointer = target }) rest)

abbrev pub truthy : Platform → Value → Bool
truthy p v = is_truthy_value (λ d. p.float_eq d 0) v

unfoldable pub run_return : Machine → CallFrame → List CallFrame → Instruction → Effect
unfolding assign
run_return m f rest i = reading (at f.slots i.src) λ v. hand_back m rest f.return_dest_slot v

unfoldable pub enter_try_frame : Machine → CallFrame → List CallFrame → Instruction → Effect
enter_try_frame m f rest i =
    let entry : TryFrame = record {
      call_stack_depth = length (f ∷ rest);
      catch_target = i.jump_target;
      error_slot = i.dest;
    } in
    proceed (record m { call_stack = f ∷ rest; try_stack = entry ∷ m.try_stack })

-- One case of the switch.
unfoldable pub run_form :
    Platform → Program → Machine → CallFrame → List CallFrame → Instruction → Form → Effect
unfolding assign complete run_call run_return run_new_struct run_get_field run_set_field
    run_new_array run_get_element run_set_element run_get_length run_get_global run_set_global
    run_throw run_host_call enter_try_frame is_truthy_value
run_form p prog m f rest i (constant make) = assign m f rest i.dest (make p i)
run_form p prog m f rest i (unary op) =
    reading (at f.slots i.src) λ v. complete p m f rest i (op p (eqb_ℤ i.left (pos 1)) v)
run_form p prog m f rest i (binary op) =
    reading (at f.slots i.left)
      λ l. reading (at f.slots i.right) λ r. complete p m f rest i (op p l r)
run_form p prog m f rest i get_global = run_get_global m f rest i
run_form p prog m f rest i set_global = run_set_global m f rest i
run_form p prog m f rest i jump = jumped m f rest i.jump_target
run_form p prog m f rest i jump_unless =
    reading (at f.slots i.cond)
      λ v. if truthy p v then proceed (with_frame m f rest) else jumped m f rest i.jump_target
run_form p prog m f rest i jump_if =
    reading (at f.slots i.cond)
      λ v. if truthy p v then jumped m f rest i.jump_target else proceed (with_frame m f rest)
run_form p prog m f rest i calling = run_call prog m f rest i
run_form p prog m f rest i returning = run_return m f rest i
run_form p prog m f rest i new_struct = run_new_struct m f rest i
run_form p prog m f rest i get_field = run_get_field p m f rest i
run_form p prog m f rest i set_field = run_set_field p m f rest i
run_form p prog m f rest i new_array = run_new_array m f rest i
run_form p prog m f rest i get_element = run_get_element p m f rest i
run_form p prog m f rest i set_element = run_set_element p m f rest i
run_form p prog m f rest i get_length = run_get_length m f rest i
run_form p prog m f rest i entering_try = enter_try_frame m f rest i
run_form p prog m f rest i leaving_try =
    proceed (record m { call_stack = f ∷ rest; try_stack = drop 1 m.try_stack })
run_form p prog m f rest i throwing = run_throw p m f rest i
run_form p prog m f rest i calling_host = run_host_call p m f rest i
