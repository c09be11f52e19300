-- ===== src/Vm/Effects.antt =====
-- src/vm/interpreter.cpp: what an instruction does to the machine, and the accesses that may fail. The running
-- frame comes apart from the frames below it, its instruction pointer already incremented.
use saqut.Prelude.{ℕ, Bool, not, ◌&&◌, Option, none, some, List, ◌∷◌, ltb}
use saqut.Prelude.Int.{ℤ, is_neg, pos_part}
use saqut.Types.{Text}
use saqut.Ir.{Instruction}
use saqut.Vm.Value.{Value, ref}
use saqut.Vm.Store.{Store, Object, array, struct, Buffer, find_object}
use saqut.Vm.Platform.{Platform}
use saqut.Vm.Operators.{Outcome, value, error, exception}
use saqut.Vm.Machine.{CallFrame, Machine, write, make_error_value}

-- What the cases of the switch leave: a machine that goes on, one with a pending error, one back in a caller, the return of the
-- last frame, a C++ exception; or what C++ leaves undefined: an index outside of the interpreter's own
-- vectors (slots, globals, instructions), or a reference that is dangling or of another type.
pub data Effect : Type 0 where
  proceed : Machine → Effect
  pending : Value → Machine → Effect
  handed_back : Machine → Effect
  returned : Machine → Effect
  thrown : Text → Effect
  bad_index bad_object : Effect

abbrev pub with_frame : Machine → CallFrame → List CallFrame → Machine
with_frame m f rest = record m { call_stack = f ∷ rest }

-- What follows an access that may fail.
abbrev pub attempt : {A : Type 0} → Option A → Effect → (A → Effect) → Effect
attempt none e k = e
attempt (some a) e k = k a

-- `frame.slots[dest] = v`.
unfoldable pub assign : Machine → CallFrame → List CallFrame → ℤ → Value → Effect
assign m f rest dest v =
    attempt (write f.slots dest v) bad_index
      λ s. proceed (with_frame m (record f { slots = s }) rest)

-- `pendingThrow_ = makeErrorValue(...)`.
unfoldable pub raise :
    Platform → Machine → CallFrame → List CallFrame → Instruction → Text → Text → Effect
unfolding make_error_value
raise p m f rest i message code =
    let made : Store × Value =
      make_error_value p (f ∷ rest) m.heap message code i.source_line i.source_col in
    pending made.1 (record m { call_stack = f ∷ rest; heap = made.0 })

unfoldable pub complete :
    Platform → Machine → CallFrame → List CallFrame → Instruction → Outcome → Effect
unfolding assign raise
complete p m f rest i (value v) = assign m f rest i.dest v
complete p m f rest i (error message code) = raise p m f rest i message code
complete p m f rest i (exception message) = thrown message

-- A slot for reading.
abbrev pub reading : Option Value → (Value → Effect) → Effect
reading o k = attempt o bad_index k

-- An element of an object.
abbrev pub payload : Option Value → (Value → Effect) → Effect
payload o k = attempt o bad_object k

-- The object of a reference that is not null; a dangling one is undefined.
abbrev pub dereference : Machine → Value → Effect → (ℕ → Object → Effect) → Effect
dereference m (ref (some a)) otherwise k = attempt (find_object a m.heap.objects) bad_object (k a)
dereference m v otherwise k = otherwise

abbrev pub as_struct : Object → (List Value → Effect) → Effect
as_struct (struct xs) k = k xs
as_struct o k = bad_object

abbrev pub as_array : Object → (Buffer → Effect) → Effect
as_array (array b) k = k b
as_array o k = bad_object

abbrev pub in_range : ℤ → ℕ → Bool
in_range n len = not (is_neg n) && ltb (pos_part n) len
