-- ===== src/Gc.antt =====
-- src/vm/object.hpp, src/vm/object.cpp and `Interpreter::maybeCollect` of src/vm/interpreter.cpp: the
-- incremental mark-sweep collector. The intrusive list of all objects is a list, its head first;
-- a pointer is an address, and an object's payload is the values that the collector reads.
pub mod Colour
pub mod Drain
pub mod Sweep
pub mod Reach
pub mod Safety
pub mod Closed
pub mod Distinct
pub mod Barrier
pub mod Store
pub mod Runs
mod Tests
use saqut.Prelude.{
  ℕ, zero, suc, ◌+◌, ◌-◌, ◌*◌, max, Bool, true, false, not, ◌||◌, ◌&&◌, Option, none, some, List,
  [], ◌∷◌, ◌++◌, ltb, leb, ◌==◌, if◌then◌else◌, length, get_elem?, set,
}

pub data MarkState : Type 0 where
  white grey black : MarkState

-- The objects that the collector tells apart: arrays by whether their elements are values.
pub data ObjectKind : Type 0 where
  ref_array packed_array struct string_box decimal_box : ObjectKind

-- A `Value`: a reference that is not null, or anything else.
pub data Value : Type 0 where
  ref : ℕ → Value
  plain : Value

pub record Object : Type 0 where
  pub address : ℕ
  pub kind : ObjectKind
  pub marked : Bool
  pub mark_state : MarkState
  pub values : List Value

pub record Heap : Type 0 where
  pub objects : List Object
  pub alloc_count : ℕ
  pub gc_runs : ℕ
  pub freed_total : ℕ

-- The fields that the collector reads and writes: a threshold that is zero or negative is 0.
pub record Collector : Type 0 where
  pub heap : Heap
  pub cycle_active : Bool
  pub threshold : ℕ
  pub initial_threshold : ℕ

-- globalSlots_, the slots of the call stack, pendingThrow_ and the shadow stack of the JIT.
pub record Roots : Type 0 where
  pub globals : List Value
  pub frames : List (List Value)
  pub pending_throw : Option Value
  pub shadow : List (Option ℕ)

abbrev pub is_white : MarkState → Bool
is_white white = true
is_white _ = false

abbrev pub is_grey : MarkState → Bool
is_grey grey = true
is_grey _ = false

abbrev pub is_black : MarkState → Bool
is_black black = true
is_black _ = false

-- `markObject` at one object, where the pointer is its address.
unfoldable pub shade : ℕ → Object → Object
shade p o =
    if o.address == p
    then (if is_white o.mark_state then record o { mark_state = grey; marked = true } else o)
    else o

unfoldable pub mark_object : ℕ → List Object → List Object
mark_object p [] = []
mark_object p (o ∷ os) = shade p o ∷ mark_object p os

unfoldable pub mark_value : Value → List Object → List Object
mark_value (ref p) os = mark_object p os
mark_value plain os = os

unfoldable pub mark_slots : List Value → List Object → List Object
mark_slots [] os = os
mark_slots (v ∷ vs) os = mark_slots vs (mark_value v os)

-- The values that `markChildren` walks: none for boxes and packed arrays.
abbrev pub children : ObjectKind → List Value → List Value
children ref_array vs = vs
children struct vs = vs
children packed_array vs = []
children string_box vs = []
children decimal_box vs = []

abbrev pub traced : Object → List Value
traced o = children o.kind o.values

unfoldable pub mark_children : Object → List Object → List Object
mark_children o os = mark_slots (traced o) os

abbrev pub blacken : Object → Object
blacken o = record o { mark_state = black }

-- The body of the loop of `drainGrey` at the object of index `i`: it is blackened after its children
-- are shaded.
unfoldable pub drain_at : ℕ → Option Object → List Object → List Object
drain_at i none os = os
drain_at i (some o) os = if is_grey o.mark_state then set (mark_children o os) i (blacken o) else os

abbrev pub grey_at : Option Object → ℕ
grey_at none = 0
grey_at (some o) = if is_grey o.mark_state then 1 else 0

-- `drainGrey` with `left` objects of the list still to visit; the second result is the count of
-- objects processed.
unfoldable pub drain_grey : ℕ → ℕ → ℕ → ℕ → List Object → List Object × ℕ
drain_grey budget zero i processed os = (os, processed)
drain_grey budget (suc left) i processed os =
    let rest =
      drain_grey budget left (i + 1) (processed + grey_at (get_elem? os i))
        (drain_at i (get_elem? os i) os) in
    if ltb processed budget then rest else (os, processed)

-- The loop of `sweep`: the objects kept, and how many were deleted.
unfoldable pub sweep_list : List Object → List Object × ℕ
sweep_list [] = ([], 0)
sweep_list (o ∷ os) =
    let (kept, freed) = sweep_list os in
    if not o.marked
    then (kept, freed + 1)
    else (record o { mark_state = white; marked = false } ∷ kept, freed)

unfoldable pub sweep : Heap → Heap
sweep h =
    let (kept, freed) = sweep_list h.objects in
    record {
      objects = kept;
      alloc_count = h.alloc_count - freed;
      gc_runs = h.gc_runs + 1;
      freed_total = h.freed_total + freed;
    }

unfoldable pub mark_frames : List (List Value) → List Object → List Object
mark_frames [] os = os
mark_frames (slots ∷ rest) os = mark_frames rest (mark_slots slots os)

abbrev pub pending_values : Option Value → List Value
pending_values none = []
pending_values (some v) = v ∷ []

abbrev pub shadow_values : List (Option ℕ) → List Value
shadow_values [] = []
shadow_values (none ∷ rest) = shadow_values rest
shadow_values (some p ∷ rest) = ref p ∷ shadow_values rest

-- The roots in the order in which `maybeCollect` marks them.
unfoldable pub mark_roots : Roots → List Object → List Object
mark_roots r os =
    mark_slots (shadow_values r.shadow)
      (mark_slots (pending_values r.pending_throw) (mark_frames r.frames (mark_slots r.globals os)))

abbrev pub gc_budget : ℕ
gc_budget = 128

-- A marking step, and the sweep that ends the cycle if nothing was grey.
unfoldable pub drain_or_sweep : Collector → Collector
drain_or_sweep c =
    let (os, processed) = drain_grey gc_budget (length c.heap.objects) 0 0 c.heap.objects in
    let heap = record c.heap { objects = os } in
    let swept = sweep heap in
    if processed == 0
    then record c {
      heap = swept;
      cycle_active = false;
      threshold = max c.initial_threshold (swept.alloc_count * 2);
    }
    else record c { heap = heap }

unfoldable pub start_cycle : Collector → Roots → Collector
start_cycle c r = record c {
  heap = record c.heap { objects = mark_roots r c.heap.objects };
  cycle_active = true;
}

unfoldable pub maybe_collect : Collector → Roots → Collector
maybe_collect c r =
    if c.threshold == 0 || ltb c.heap.alloc_count c.threshold
    then (if c.cycle_active then drain_or_sweep c else c)
    else drain_or_sweep (start_cycle c r)

-- `allocArray`, `allocStruct`, `allocString` and `allocDecimal`: the new object stands at the head.
unfoldable pub alloc : ℕ → ObjectKind → List Value → Heap → Heap
alloc p kind vs h = record h {
  objects =
      record { address = p; kind = kind; marked = false; mark_state = white; values = vs }
      ∷ h.objects;
  alloc_count = h.alloc_count + 1;
}

-- Whether the object at an address is white.
unfoldable pub white_at : ℕ → List Object → Bool
white_at p [] = false
white_at p (o ∷ os) = if o.address == p then is_white o.mark_state else white_at p os

-- `writeBarrier` with the test of FIELD_SET and ARRAY_SET that the value is a reference.
unfoldable pub write_barrier : Object → Value → List Object → Object
write_barrier target plain os = target
write_barrier target (ref p) os =
    if is_black target.mark_state && white_at p os
    then record target { mark_state = grey }
    else target

-- FIELD_SET and ARRAY_SET: the barrier, and the write of the value at an index.
unfoldable pub store_value : ℕ → ℕ → Value → List Object → List Object → List Object
store_value t i v [] heap = []
store_value t i v (o ∷ os) heap =
    if o.address == t
    then (let target = write_barrier o v heap in record target { values = set o.values i v } ∷ os)
    else o ∷ store_value t i v os heap
