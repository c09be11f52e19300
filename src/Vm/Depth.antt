-- ===== src/Vm/Depth.antt =====
-- One instruction makes the call stack at most one frame higher, and unwinding never raises it.
use saqut.Prelude.{
  ℕ, suc, ◌-◌, ◌≤◌, Bool, true, false, Option, none, some, List, [], ◌∷◌, length, arith,
  if◌then◌else◌, length-drop,
}
use saqut.Prelude.Int.{ℤ}
use saqut.Types.{Text}
use saqut.Ir.{Instruction}
use saqut.Vm.Value.{int_value, Value, ref}
use saqut.Vm.Store.{
  buffer_length, read_element, Store, Object, array, struct, box, Buffer, at, find_object,
}
use saqut.Vm.Platform.{Platform, HostAnswer, answer, host_error}
use saqut.Vm.Operators.{Outcome, value, error, exception}
use saqut.Vm.Forms.{
  Form, constant, unary, binary, get_global, set_global, jump, jump_unless, jump_if, calling,
  returning, new_struct, get_field, set_field, new_array, get_element, set_element, get_length,
  entering_try, leaving_try, throwing, calling_host,
}
use saqut.Vm.Machine.{Program, CallFrame, TryFrame, Machine, write, find_function, new_frame}
use saqut.Vm.Effects.{
  Effect, proceed, pending, handed_back, returned, thrown, bad_index, bad_object, attempt, reading,
  in_range, assign, raise, complete, dereference, as_struct, as_array,
}
use saqut.Vm.Objects.{
  run_new_struct, run_get_field, run_set_field, run_new_array, run_get_element, run_set_element,
  run_get_length,
}
use saqut.Vm.Exec.{
  run_form, run_call, copy_arguments, read_all, truthy, run_get_global, run_set_global, run_throw,
  throw_object, run_host_call, answered, hand_back, run_return, enter_try_frame,
}
use saqut.Vm.Unwinding.{catch_in, handle_pending, settle}

-- The call stack that an effect leaves has at most `n` frames.
pub data Bounded (n : ℕ) : Effect → Type 0 where
  proceed_b : {m : Machine} → length m.call_stack ≤ n → Bounded n (proceed m)
  pending_b : {v : Value} {m : Machine} → length m.call_stack ≤ n → Bounded n (pending v m)
  handed_b : {m : Machine} → length m.call_stack ≤ n → Bounded n (handed_back m)
  returned_b : {m : Machine} → Bounded n (returned m)
  thrown_b : {s : Text} → Bounded n (thrown s)
  index_b : Bounded n bad_index
  object_b : Bounded n bad_object

module _ (n : ℕ) where
  attempt_b :
      {A : Type 0} (o : Option A) (e : Effect) (k : A → Effect)
      → Bounded n e
      → ((a : A) → Bounded n (k a))
      → Bounded n (attempt o e k)
  attempt_b none e k h all = h
  attempt_b (some a) e k h all = all a

  slot_b :
      (slots : List Value) (z : ℤ) (k : Value → Effect)
      → ((v : Value) → Bounded n (k v))
      → Bounded n (reading (at slots z) k)
  slot_b slots z k all = attempt_b (at slots z) bad_index k index_b all

  if_b : (b : Bool) (x y : Effect) → Bounded n x → Bounded n y → Bounded n (if b then x else y)
  if_b true x y h k = h
  if_b false x y h k = k

  as_struct_b :
      (o : Object) (k : List Value → Effect)
      → ((xs : List Value) → Bounded n (k xs))
      → Bounded n (as_struct o k)
  as_struct_b (struct xs) k all = all xs
  as_struct_b (array b) k all = object_b
  as_struct_b box k all = object_b

  as_array_b :
      (o : Object) (k : Buffer → Effect)
      → ((b : Buffer) → Bounded n (k b))
      → Bounded n (as_array o k)
  as_array_b (array b) k all = all b
  as_array_b (struct xs) k all = object_b
  as_array_b box k all = object_b

  dereference_b :
      (m : Machine) (v : Value) (otherwise : Effect) (k : ℕ → Object → Effect)
      → Bounded n otherwise
      → ((a : ℕ) (o : Object) → Bounded n (k a o))
      → Bounded n (dereference m v otherwise k)
  dereference_b m (ref (some a)) otherwise k h all =
      attempt_b (find_object a m.heap.objects) bad_object (k a) object_b (all a)
  dereference_b m (ref none) otherwise k h all = h
  dereference_b m _ otherwise k h all = h

  module _ (m : Machine) (f : CallFrame) (rest : List CallFrame) (h : suc (length rest) ≤ n) where
    assign_b :
        (heap : Store) (dest : ℤ) (v : Value)
        → Bounded n (assign (record m { heap = heap }) f rest dest v)
    unfolding assign
    assign_b heap dest v = attempt_b _ _ _ index_b λ s. proceed_b h

    raise_b :
        (p : Platform) (heap : Store) (i : Instruction) (message code : Text)
        → Bounded n (raise p (record m { heap = heap }) f rest i message code)
    unfolding raise
    raise_b p heap i message code = pending_b h

    complete_b :
        (p : Platform) (i : Instruction) (o : Outcome) → Bounded n (complete p m f rest i o)
    unfolding complete
    complete_b p i (value v) = assign_b m.heap i.dest v
    complete_b p i (error message code) = raise_b p m.heap i message code
    complete_b p i (exception message) = thrown_b

    throw_object_b :
        (p : Platform) (i : Instruction) (v : Value) (a : ℕ) (o : Object)
        → Bounded n (throw_object p m f rest i v a o)
    throw_object_b p i v a (struct xs) = if_b _ _ _ (pending_b h) (pending_b h)
    throw_object_b p i v a (array b) = raise_b p m.heap i _ _
    throw_object_b p i v a box = raise_b p m.heap i _ _

    answered_b :
        (p : Platform) (heap : Store) (i : Instruction) (a : HostAnswer)
        → Bounded n (answered p (record m { heap = heap }) f rest i a)
    unfolding answered
    answered_b p heap i (answer v) = if_b _ _ _ (proceed_b h) (assign_b heap i.dest v)
    answered_b p heap i (host_error message code) = raise_b p heap i _ _

    get_field_b : (p : Platform) (i : Instruction) → Bounded n (run_get_field p m f rest i)
    unfolding run_get_field
    get_field_b p i = slot_b f.slots i.src _ λ v. dereference_b m v _ _ thrown_b λ a o.
        as_struct_b o _
          λ xs. attempt_b (at xs i.int_value) _ _ thrown_b λ x. assign_b m.heap i.dest x

    set_field_b : (p : Platform) (i : Instruction) → Bounded n (run_set_field p m f rest i)
    unfolding run_set_field
    set_field_b p i = slot_b f.slots i.dest _ λ v. dereference_b m v _ _ thrown_b λ a o.
        as_struct_b o _ λ xs.
          slot_b f.slots i.right _
            λ x. if_b (in_range i.int_value (length xs)) _ _ (proceed_b h) thrown_b

    get_element_b : (p : Platform) (i : Instruction) → Bounded n (run_get_element p m f rest i)
    unfolding run_get_element
    get_element_b p i = slot_b f.slots i.left _ λ v.
        dereference_b m v _ _ (raise_b p m.heap i _ _) λ a o. as_array_b o _ λ b.
          slot_b f.slots i.right _ λ k.
            if_b (in_range (int_value k) (buffer_length b)) _ _
              (attempt_b (read_element b (int_value k)) _ _ object_b λ x. assign_b m.heap i.dest x)
              (raise_b p m.heap i _ _)

    set_element_b : (p : Platform) (i : Instruction) → Bounded n (run_set_element p m f rest i)
    unfolding run_set_element
    set_element_b p i = slot_b f.slots i.dest _ λ v.
        dereference_b m v _ _ (raise_b p m.heap i _ _) λ a o. as_array_b o _ λ b.
          slot_b f.slots i.left _ λ k. slot_b f.slots i.right _ λ x.
            if_b (in_range (int_value k) (buffer_length b)) _ _ (proceed_b h)
              (raise_b p m.heap i _ _)

    get_length_b : (i : Instruction) → Bounded n (run_get_length m f rest i)
    unfolding run_get_length
    get_length_b i =
        attempt_b _ _ _ index_b
          λ v. dereference_b m v _ _ thrown_b λ a o. as_array_b o _ λ b. assign_b m.heap i.dest _

    hand_back_b :
        (stack : List CallFrame) (dest : ℤ) (v : Value)
        → length stack ≤ n
        → Bounded n (hand_back m stack dest v)
    hand_back_b [] dest v k = returned_b
    hand_back_b (g ∷ stack) dest v k =
        if_b _ _ _ (handed_b k) (attempt_b _ _ _ index_b λ s. handed_b k)

    throw_b : (p : Platform) (i : Instruction) → Bounded n (run_throw p m f rest i)
    unfolding run_throw
    throw_b p i =
        attempt_b _ _ _ index_b
          λ v. dereference_b m v _ _ (raise_b p m.heap i _ _) λ a o. throw_object_b p i v a o

module _ (n : ℕ) (prog : Program) (m : Machine) (f : CallFrame) (rest : List CallFrame)
    (h : suc (suc (length rest)) ≤ n) where
  low : suc (length rest) ≤ n
  low = omega arith

  call_b : (i : Instruction) → Bounded n (run_call prog m f rest i)
  unfolding run_call
  call_b i = attempt_b n (find_function prog i.function_name) _ _ thrown_b λ g.
      attempt_b n (copy_arguments f.slots i.arg_slots 0 (new_frame g i.dest).slots) _ _ index_b
        λ s. proceed_b h

  host_call_b : (p : Platform) (i : Instruction) → Bounded n (run_host_call p m f rest i)
  unfolding run_host_call
  host_call_b p i =
      attempt_b n (read_all f.slots i.arg_slots) _ _ index_b
        λ vs. answered_b n m f rest low p _ i (p.host_call i.int_value vs m.heap).1

  -- One case of the switch.
  pub run_form-Bounded :
      (p : Platform) (i : Instruction) (fm : Form) → Bounded n (run_form p prog m f rest i fm)
  unfolding run_form run_get_global run_set_global run_new_struct run_new_array run_return
      enter_try_frame
  run_form-Bounded p i (constant make) = assign_b n m f rest low m.heap i.dest _
  run_form-Bounded p i (unary op) = slot_b n f.slots i.src _ λ v. complete_b n m f rest low p i _
  run_form-Bounded p i (binary op) =
      slot_b n f.slots i.left _ λ l. slot_b n f.slots i.right _ λ r. complete_b n m f rest low p i _
  run_form-Bounded p i get_global =
      slot_b n m.global_slots i.int_value _ λ v. assign_b n m f rest low m.heap i.dest v
  run_form-Bounded p i set_global =
      slot_b n f.slots i.src _
        λ v. attempt_b n (write m.global_slots i.int_value v) _ _ index_b λ gs. proceed_b low
  run_form-Bounded p i jump = proceed_b low
  run_form-Bounded p i jump_unless =
      slot_b n f.slots i.cond _ λ v. if_b n (truthy p v) _ _ (proceed_b low) (proceed_b low)
  run_form-Bounded p i jump_if =
      slot_b n f.slots i.cond _ λ v. if_b n (truthy p v) _ _ (proceed_b low) (proceed_b low)
  run_form-Bounded p i calling = call_b i
  run_form-Bounded p i returning =
      slot_b n f.slots i.src _
        λ v. hand_back_b n m f rest low rest f.return_dest_slot v (omega arith)
  run_form-Bounded p i new_struct = assign_b n m f rest low _ i.dest _
  run_form-Bounded p i get_field = get_field_b n m f rest low p i
  run_form-Bounded p i set_field = set_field_b n m f rest low p i
  run_form-Bounded p i new_array = assign_b n m f rest low _ i.dest _
  run_form-Bounded p i get_element = get_element_b n m f rest low p i
  run_form-Bounded p i set_element = set_element_b n m f rest low p i
  run_form-Bounded p i get_length = get_length_b n m f rest low i
  run_form-Bounded p i entering_try = proceed_b low
  run_form-Bounded p i leaving_try = proceed_b low
  run_form-Bounded p i throwing = throw_b n m f rest low p i
  run_form-Bounded p i calling_host = host_call_b p i

module _ (n : ℕ) where
  catch_in_b :
      (m : Machine) (t : TryFrame) (v : Value) (stack : List CallFrame)
      → length stack ≤ n
      → Bounded n (catch_in m t v stack)
  catch_in_b m t v [] h = index_b
  catch_in_b m t v (g ∷ rest) h = attempt_b n _ _ _ index_b λ s. proceed_b h

  handle_pending_b :
      (v : Value) (m : Machine) (ts : List TryFrame)
      → length m.call_stack ≤ n
      → Bounded n (handle_pending v m ts)
  unfolding handle_pending
  handle_pending_b v m [] h = thrown_b
  handle_pending_b v m (t ∷ ts) h =
      catch_in_b (record m { try_stack = ts }) t v _
        (omega (arith, length-drop {0} (length m.call_stack - t.call_stack_depth) m.call_stack))

  pub settle-Bounded : (e : Effect) → Bounded n e → Bounded n (settle e)
  unfolding settle
  settle-Bounded (proceed m) h = h
  settle-Bounded (pending v m) (pending_b h) = handle_pending_b v m m.try_stack h
  settle-Bounded (handed_back m) h = h
  settle-Bounded (returned m) h = h
  settle-Bounded (thrown s) h = h
  settle-Bounded bad_index h = h
  settle-Bounded bad_object h = h
