-- ===== src/Vm/Handlers.antt =====
-- Where an error lands: src/vm/interpreter.cpp, ENTER_TRY, RETURN and the handling of a pending error.
use saqut.Prelude.{
  ℕ, suc, ◌-◌, ◌≡◌, ◌≢◌, refl, some, List, [], ◌∷◌, ◌++◌, length, take, take-append-drop, set,
  length-set, get_elem?, get_elem?-set_self, get_elem?-set_other, sym,
}
use saqut.Prelude.Int.{ℤ, pos_part}
use saqut.Vm.Value.{Value}
use saqut.Vm.Store.{Store}
use saqut.Vm.Platform.{Platform}
use saqut.Vm.Machine.{CallFrame, TryFrame, Machine, write}
use saqut.Vm.Effects.{Effect, proceed, pending, thrown}
use saqut.Vm.Unwinding.{unwind, catch_in, uncaught_message, handle_pending, settle}
use saqut.Vm.Fits.{InRange, HandlerFits, TriesFit, at-some, length-unwind}

-- The machine after an error was caught in the frame `g`, whose slots became `s`.
abbrev pub caught :
    Machine → TryFrame → List TryFrame → CallFrame → List CallFrame → List Value → Machine
caught m t ts g rest s = record m {
  call_stack = record g { slots = s; instruction_pointer = t.catch_target } ∷ rest;
  try_stack = ts;
}

-- Where an error that is pending lands.
pub data Lands (m : Machine) (v : Value) : Effect → Type 0 where
  uncaught : m.try_stack ≡ [] → Lands m v (thrown (uncaught_message m v))
  lands_in :
      (t : TryFrame) (ts : List TryFrame) (above : List CallFrame) (g : CallFrame)
      (rest : List CallFrame) (s : List Value)
      → m.try_stack ≡ t ∷ ts
      → m.call_stack ≡ above ++ (g ∷ rest)
      → suc (length rest) ≡ t.call_stack_depth
      → length s ≡ length g.slots
      → get_elem? s (pos_part t.error_slot) ≡ some v
      → ((k : ℕ) → k ≢ pos_part t.error_slot → get_elem? s k ≡ get_elem? g.slots k)
      → Lands m v (proceed (caught m t ts g rest s))

write-set :
    (xs : List Value) (z : ℤ) (v : Value)
    → InRange (length xs) z
    → write xs z v ≡ some (set xs (pos_part z) v)
write-set xs z v h = let (old, e) = at-some xs z h in rw (e, write) refl

in_frame :
    (m : Machine) (v : Value) (t : TryFrame) (ts : List TryFrame) (above : List CallFrame)
    (stack : List CallFrame)
    → m.try_stack ≡ t ∷ ts
    → m.call_stack ≡ above ++ stack
    → length stack ≡ t.call_stack_depth
    → HandlerFits stack t.error_slot
    → Lands m v (catch_in (record m { try_stack = ts }) t v stack)
in_frame m v t ts above [] e c l h = absurd h
in_frame m v t ts above (g ∷ rest) e c l h = rw (write-set g.slots t.error_slot v h) (
    lands_in t ts above g rest (set g.slots (pos_part t.error_slot) v) e c l
      (length-set g.slots (pos_part t.error_slot) v)
      (get_elem?-set_self g.slots (pos_part t.error_slot) v h.1)
      (λ k n. get_elem?-set_other g.slots (pos_part t.error_slot) k v n))

handle_pending-Lands :
    (m : Machine) (v : Value) (us : List TryFrame)
    → m.try_stack ≡ us
    → TriesFit m.call_stack us
    → Lands m v (handle_pending v m us)
unfolding handle_pending
handle_pending-Lands m v [] e h = uncaught e
handle_pending-Lands m v (t ∷ ts) e h =
    let n = length m.call_stack - t.call_stack_depth in
    in_frame m v t ts (take n m.call_stack) (unwind t.call_stack_depth m.call_stack) e
      (sym (take-append-drop n m.call_stack))
      (length-unwind t.call_stack_depth m.call_stack h.0.reached) h.0.handled

-- Where every handler fits the stack, a pending error without a handler leaves the interpreter
-- with its message. With handlers, the machine goes on: the frames above the depth of the
-- innermost one are gone, the frame at that depth is at the catch block, with the error in the
-- slot for it and its other slots as they were, the frames below are as they were, and the
-- handler is off the try stack.
pub settle-Lands :
    (m : Machine) (v : Value) → TriesFit m.call_stack m.try_stack → Lands m v (settle (pending v m))
unfolding settle
settle-Lands m v h = handle_pending-Lands m v m.try_stack refl h
