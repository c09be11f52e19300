-- ===== src/Gc/Tests.antt =====
-- A heap of three objects, and runs of the collector on it.
use saqut.Prelude.{◌≡◌, refl, false, none, List, [], ◌∷◌, arith, inl, inr, length}
use saqut.Gc.{
  Object, Value, ref, plain, struct, string_box, white, grey, black, Collector, Roots, Heap,
  maybe_collect, drain_or_sweep, start_cycle, mark_roots, mark_frames, mark_slots, mark_value,
  mark_object, shade, drain_at, mark_children, sweep, store_value, drain_grey, sweep_list, alloc,
}
use saqut.Gc.Colour.{Tricolour}
use saqut.Gc.Drain.{NoGrey, drain_grey-NoGrey}
use saqut.Gc.Sweep.{Survives}
use saqut.Gc.Reach.{Reaches, root, step, root_values}
use saqut.Gc.Safety.{IsReady, maybe_collect-IsReady, maybe_collect-Survives}
use saqut.Gc.Closed.{NoDangling, Present, maybe_collect-NoDangling}
use saqut.Gc.Distinct.{Distinct}
use saqut.Gc.Barrier.{store_value-Tricolour}
use saqut.Gc.Runs.{Machine, write, Run, halt, next, IsSound, objects_of, Run-Present}

-- 1 refers to 2; nothing refers to 3.
abbrev linked : Object
linked = record {
  address = 1;
  kind = struct;
  marked = false;
  mark_state = white;
  values = ref 2 ∷ plain ∷ [];
}

abbrev text : Object
text = record { address = 2; kind = string_box; marked = false; mark_state = white; values = [] }

abbrev garbage : Object
garbage = record {
  address = 3;
  kind = struct;
  marked = false;
  mark_state = white;
  values = ref 1 ∷ [];
}

abbrev three : List Object
three = garbage ∷ linked ∷ text ∷ []

abbrev one_root : Roots
one_root = record {
  globals = ref 1 ∷ [];
  frames = (plain ∷ []) ∷ [];
  pending_throw = none;
  shadow = none ∷ [];
}

abbrev full : Collector
full = record {
  heap = record { objects = three; alloc_count = 3; gc_runs = 0; freed_total = 0 };
  cycle_active = false;
  threshold = 2;
  initial_threshold = 2;
}

abbrev machine : Machine
machine = record { collector = full; roots = one_root }

full-IsReady : IsReady full
full-IsReady = record {
  tricolour = ((λ b. cc, (λ b. cc, (λ b. cc, tt))), (refl, (refl, (refl, tt))));
  counted = refl;
  in_cycle = λ e. cc;
}

three-NoDangling : NoDangling (root_values one_root) three
three-NoDangling = record {
  closed = ((inr (inl refl), tt), ((inr (inr (inl refl)), tt), (tt, tt)));
  rooted = (inr (inl refl), tt);
}

three-Distinct : Distinct three
three-Distinct = ((omega arith, (omega arith, tt)), ((omega arith, tt), (tt, tt)))

machine-IsSound : IsSound machine
machine-IsSound = record {
  ready = full-IsReady;
  distinct = three-Distinct;
  no_dangling = three-NoDangling;
}

-- 2 is reached through 1.
text-Reaches : Reaches (root_values one_root) three 2
text-Reaches = step 2 1 linked refl (root 1 (inl refl)) (inl refl)

maybe_collect-Survives_example : Survives text (maybe_collect full one_root).heap.objects
maybe_collect-Survives_example =
    maybe_collect-Survives full one_root 2 text full-IsReady refl text-Reaches

maybe_collect-IsReady_example : IsReady (maybe_collect full one_root)
maybe_collect-IsReady_example = maybe_collect-IsReady full one_root full-IsReady

maybe_collect-NoDangling_example :
    NoDangling (root_values one_root) (maybe_collect full one_root).heap.objects
maybe_collect-NoDangling_example =
    maybe_collect-NoDangling full one_root full-IsReady three-NoDangling

store_value-Tricolour_example : Tricolour (store_value 1 1 (ref 3) three three)
store_value-Tricolour_example =
    store_value-Tricolour 1 1 (ref 3) three three-Distinct full-IsReady.tricolour

quiet : (drain_grey 128 3 0 0 three).1 ≡ 0
unfolding drain_grey saqut.Gc.drain_at
quiet = refl

drain_grey-NoGrey_example : NoGrey 3 0 three × ((drain_grey 128 3 0 0 three).0 ≡ three)
drain_grey-NoGrey_example = drain_grey-NoGrey 128 3 0 three (omega arith) quiet

-- A write of the garbage into the first object.
abbrev written : Machine
written = record {
  collector = record full {
    heap = record full.heap { objects = store_value 1 1 (ref 3) three three };
  };
  roots = one_root;
}

written-Run : Run machine written
written-Run = next machine written written (write machine 1 1 (ref 3) (inl refl, tt)) (halt written)

written-Reaches : Reaches (root_values one_root) (objects_of written) 1
written-Reaches = root 1 (inl refl)

Run-Present_example : Present 1 (objects_of written)
Run-Present_example = Run-Present machine written 1 machine-IsSound written-Run written-Reaches

-- Two safepoints: the marks spread, then the garbage is freed.
collected : length (maybe_collect (maybe_collect full one_root) one_root).heap.objects ≡ 2
unfolding maybe_collect drain_or_sweep start_cycle mark_roots mark_frames mark_slots mark_value
    mark_object shade drain_grey drain_at mark_children sweep sweep_list
collected = refl
