-- ===== src/Vm/Unwinding.antt =====
-- src/vm/interpreter.cpp: the handling of a pending error after the switch.
use saqut.Prelude.{ℕ, ◌-◌, some, List, [], ◌∷◌, length, drop}
use saqut.Prelude.Texts.{codes}
use saqut.Types.{Text}
use saqut.Vm.Value.{Value, string, ref}
use saqut.Vm.Store.{struct, find_object}
use saqut.Vm.Machine.{CallFrame, TryFrame, Machine, write}
use saqut.Vm.Effects.{attempt, Effect, proceed, pending, thrown, bad_index}

-- The frames down to a depth.
abbrev pub unwind : ℕ → List CallFrame → List CallFrame
unwind depth stack = drop (length stack - depth) stack

-- The message of an error that nothing catches.
abbrev pub uncaught_message : Machine → Value → Text
uncaught_message m (ref (some a)) = elim (find_object a m.heap.objects) [
  | some (struct (x ∷ y ∷ string s ∷ r)) ↦ s
  | _ ↦ codes "uncaught error"
]
uncaught_message m (string s) = s
uncaught_message m v = codes "uncaught error"

-- The catch block gets the error, in its own frame.
abbrev pub catch_in : Machine → TryFrame → Value → List CallFrame → Effect
catch_in m t v [] = bad_index
catch_in m t v (g ∷ rest) = attempt (write g.slots t.error_slot v) bad_index λ s.
    proceed (record m {
      call_stack = record g { slots = s; instruction_pointer = t.catch_target } ∷ rest;
    })

-- The handling of a pending error after the switch.
unfoldable pub handle_pending : Value → Machine → List TryFrame → Effect
handle_pending v m [] = thrown (uncaught_message m v)
handle_pending v m (t ∷ ts) =
    catch_in (record m { try_stack = ts }) t v (unwind t.call_stack_depth m.call_stack)

unfoldable pub settle : Effect → Effect
unfolding handle_pending
settle (pending v m) = handle_pending v m m.try_stack
settle e = e
