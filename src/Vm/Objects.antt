-- ===== src/Vm/Objects.antt =====
-- src/vm/interpreter.cpp: the instructions on structs and arrays. The operands are read before an index is
-- tested, and a negative count, which the generator does not emit, is taken as 0.
use saqut.Prelude.{
  ℕ, Bool, Option, none, some, List, [], ◌∷◌, ◌++◌, if◌then◌else◌, length, set, replicate,
}
use saqut.Prelude.Int.{ℤ, pos, pos_part}
use saqut.Prelude.Texts.{codes}
use saqut.Ir.{Instruction}
use saqut.Vm.Value.{Value, int, ref, null, int_value}
use saqut.Vm.Store.{
  array, struct, Buffer, allocate, update, at, new_buffer, buffer_length, read_element,
  write_element,
}
use saqut.Vm.Platform.{Platform, as_double}
use saqut.Vm.Machine.{CallFrame, Machine, find_in}
use saqut.Vm.Effects.{
  Effect, proceed, thrown, assign, raise, reading, attempt, payload, dereference, as_struct,
  as_array, in_range,
}

abbrev bad_field : Platform → ℤ → Effect
bad_field p n = thrown (codes "invalid struct field index " ++ p.int_text n)

-- The mask of the nullable fields: such a field starts as null.
abbrev pub initial_fields : List Bool → List Value → List Value
initial_fields (b ∷ bs) (v ∷ vs) = (if b then null else v) ∷ initial_fields bs vs
initial_fields [] vs = vs
initial_fields (b ∷ bs) [] = []

abbrev mask_of : Option (List Bool) → List Bool
mask_of none = []
mask_of (some bs) = bs

unfoldable pub run_new_struct : Machine → CallFrame → List CallFrame → Instruction → Effect
unfolding assign
run_new_struct m f rest i =
    let mask : List Bool = mask_of (find_in i.function_name f.function.struct_field_nullable) in
    let fields : List Value =
      initial_fields mask (replicate (pos_part i.int_value) (int (pos 0))) in
    let m' : Machine = record m { heap = allocate (struct fields) m.heap } in
    assign m' f rest i.dest (ref (some m.heap.fresh))

unfoldable pub run_get_field :
    Platform → Machine → CallFrame → List CallFrame → Instruction → Effect
unfolding assign
run_get_field p m f rest i = reading (at f.slots i.src) λ v.
    dereference m v (thrown (codes "not a struct")) λ a o.
      as_struct o
        λ xs. attempt (at xs i.int_value) (bad_field p i.int_value) λ x. assign m f rest i.dest x

-- The write barrier changes colours only.
unfoldable pub run_set_field :
    Platform → Machine → CallFrame → List CallFrame → Instruction → Effect
run_set_field p m f rest i = reading (at f.slots i.dest) λ v.
    dereference m v (thrown (codes "not a struct")) λ a o. as_struct o λ xs.
      reading (at f.slots i.right) λ x.
        if in_range i.int_value (length xs)
        then proceed (record m {
          call_stack = f ∷ rest;
          heap = update a (struct (set xs (pos_part i.int_value) x)) m.heap;
        })
        else bad_field p i.int_value

unfoldable pub run_new_array : Machine → CallFrame → List CallFrame → Instruction → Effect
unfolding assign new_buffer
run_new_array m f rest i =
    let b : Buffer = new_buffer i.array_elem_kind (pos_part i.int_value) in
    assign (record m { heap = allocate (array b) m.heap }) f rest i.dest (ref (some m.heap.fresh))

abbrev not_an_array : Platform → Machine → CallFrame → List CallFrame → Instruction → Effect
not_an_array p m f rest i =
    raise p m f rest i (codes "expected array, got different type") (codes "E_TYPE")

abbrev out_of_bounds :
    Platform → Machine → CallFrame → List CallFrame → Instruction → ℤ → ℕ → Effect
out_of_bounds p m f rest i n len =
    raise p m f rest i
      (codes "array index out of bounds (index="
        ++ (p.int_text n ++ (codes ", length=" ++ (p.int_text (pos len) ++ codes ")"))))
      (codes "E_OOB")

unfoldable pub run_get_element :
    Platform → Machine → CallFrame → List CallFrame → Instruction → Effect
unfolding assign raise read_element buffer_length
run_get_element p m f rest i = reading (at f.slots i.left) λ v.
    dereference m v (not_an_array p m f rest i) λ a o. as_array o λ b.
      reading (at f.slots i.right) λ n.
        if in_range (int_value n) (buffer_length b)
        then (payload (read_element b (int_value n)) λ x. assign m f rest i.dest x)
        else out_of_bounds p m f rest i (int_value n) (buffer_length b)

unfoldable pub run_set_element :
    Platform → Machine → CallFrame → List CallFrame → Instruction → Effect
unfolding raise write_element buffer_length
run_set_element p m f rest i = reading (at f.slots i.dest) λ v.
    dereference m v (not_an_array p m f rest i) λ a o. as_array o λ b.
      reading (at f.slots i.left) λ n. reading (at f.slots i.right) λ x.
        if in_range (int_value n) (buffer_length b)
        then proceed (record m {
          call_stack = f ∷ rest;
          heap = update a (array (write_element (as_double p) p.single b (int_value n) x)) m.heap;
        })
        else out_of_bounds p m f rest i (int_value n) (buffer_length b)

unfoldable pub run_get_length : Machine → CallFrame → List CallFrame → Instruction → Effect
unfolding assign buffer_length
run_get_length m f rest i = reading (at f.slots i.src) λ v.
    dereference m v (thrown (codes "not an array"))
      λ a o. as_array o λ b. assign m f rest i.dest (int (pos (buffer_length b)))
