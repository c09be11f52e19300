-- ===== src/Gc/Safety.antt =====
-- The safepoint `Interpreter::maybeCollect`, and the objects that the roots reach.
use saqut.Prelude.{
  ℕ, ◌≡◌, ◌≢◌, ◌≤◌, ◌<◌, sym, ap, ◌∙◌, true, false, ◌||◌, some, List, arith, length, get_elem?,
  if_split, All, All-mono, ltb, ◌==◌,
}
use mathlib.Core.Path.{subst}
use saqut.Gc.{
  Object, Value, is_white, sweep_list, sweep, Collector, Roots, mark_slots, drain_grey,
  drain_or_sweep, start_cycle, maybe_collect, gc_budget,
}
use saqut.Gc.Colour.{
  Advances-get_elem?, Advances-length, Shaded, BlackOk, MarkedOk, Tricolour, mark_slots-Advances,
  mark_slots-Shaded, mark_slots-Tricolour,
}
use saqut.Gc.Drain.{drain_grey-NoGrey, drain_grey-Keeps}
use saqut.Gc.Sweep.{
  Survives, Survives-get_elem?, Survives-Advances, Survives-Same, sweep_list-count,
  sweep_list-white,
}
use saqut.Gc.Reach.{Reaches, root_values, mark_roots_lem, Reaches-Advances, Reaches-kept}

-- Between two safepoints: the marks agree with the colours, the counter counts the list, and a cycle
-- is under way only where the threshold that started it is still reached.
pub record IsReady (c : Collector) : Type 0 where
  pub tricolour : Tricolour c.heap.objects
  pub counted : c.heap.alloc_count ≡ length c.heap.objects
  pub in_cycle : c.cycle_active ≡ true → (0 < c.threshold) × (c.threshold ≤ c.heap.alloc_count)

drain_or_sweep-Survives :
    (c : Collector) (roots : List Value) (i : ℕ) (o : Object)
    → Shaded roots c.heap.objects
    → Tricolour c.heap.objects
    → get_elem? c.heap.objects i ≡ some o
    → Reaches roots c.heap.objects o.address
    → Survives o (drain_or_sweep c).heap.objects
unfolding drain_or_sweep sweep
drain_or_sweep-Survives c roots i o s t e h =
    let os = c.heap.objects in
    let drained = drain_grey gc_budget (length os) 0 0 os in
    if_split (λ (d : Collector). Survives o d.heap.objects) (drained.1 == 0)
      (λ z.
        let (quiet, same) =
          drain_grey-NoGrey gc_budget (length os) 0 os (omega arith) (ground arith) in
        subst (λ xs. Survives o (sweep_list xs).0) (sym same)
          (Reaches-kept roots os i o s t quiet e h))
      (λ _.
        Survives-Advances os drained.0 i o (drain_grey-Keeps gc_budget (length os) 0 0 os).advances
          e)

-- After a sweep everything is white and unmarked, and the invariant holds again.
white-Tricolour :
    (os : List Object)
    → All (λ o. (is_white o.mark_state ≡ true) × (o.marked ≡ false)) os
    → Tricolour os
white-Tricolour os h = (
  All-mono _ (BlackOk os) os (λ o w b. absurd (ground (arith, w))) h,
  All-mono _ MarkedOk os (λ o w. cc (w.0, w.1)) h,
)

drain_or_sweep-IsReady : (c : Collector) → IsReady c → IsReady (drain_or_sweep c)
unfolding drain_or_sweep sweep
drain_or_sweep-IsReady c h =
    let os = c.heap.objects in
    let drained = drain_grey gc_budget (length os) 0 0 os in
    let keeps = drain_grey-Keeps gc_budget (length os) 0 0 os in
    let same_length = Advances-length os drained.0 keeps.advances in
    if_split IsReady (drained.1 == 0)
      (λ z. record {
        tricolour = white-Tricolour _ (sweep_list-white drained.0);
        counted = omega (arith, sweep_list-count drained.0, h.counted, same_length);
        in_cycle = λ e. cc;
      })
      (λ _. record {
        tricolour = keeps.tricolour h.tricolour;
        counted = h.counted ∙ sym same_length;
        in_cycle = h.in_cycle;
      })

start_cycle-IsReady :
    (c : Collector) (r : Roots)
    → IsReady c
    → 0 < c.threshold
    → c.threshold ≤ c.heap.alloc_count
    → IsReady (start_cycle c r)
unfolding start_cycle
start_cycle-IsReady c r h p q = record {
  tricolour =
      subst Tricolour (sym (mark_roots_lem r c.heap.objects))
        (mark_slots-Tricolour (root_values r) c.heap.objects h.tricolour);
  counted =
      h.counted
      ∙ sym (
          ap length (mark_roots_lem r c.heap.objects)
          ∙ Advances-length c.heap.objects _ (mark_slots-Advances (root_values r) c.heap.objects));
  in_cycle = λ _. (p, q);
}

-- The guard of `maybeCollect`: its early return is taken exactly below the threshold.
pub guard_false :
    (c : Collector)
    → (c.threshold == 0 || ltb c.heap.alloc_count c.threshold) ≡ false
    → (0 < c.threshold) × (c.threshold ≤ c.heap.alloc_count)
guard_false c g = ground arith

pub guard_true :
    (c : Collector)
    → (c.threshold == 0 || ltb c.heap.alloc_count c.threshold) ≡ true
    → IsReady c
    → c.cycle_active ≢ true
guard_true c g h active = let bounds = h.in_cycle active in ground (arith, bounds)

-- A safepoint keeps a collector ready: no black object has a white child, the mark bits agree
-- with the colours, the counter of objects is the length of the list, and a cycle is under way
-- only where the threshold is positive and still reached.
pub maybe_collect-IsReady : (c : Collector) (r : Roots) → IsReady c → IsReady (maybe_collect c r)
unfolding maybe_collect
maybe_collect-IsReady c r h =
    if_split IsReady (c.threshold == 0 || ltb c.heap.alloc_count c.threshold)
      (λ g. if_split IsReady c.cycle_active (λ a. absurd (guard_true c g h a)) (λ _. h))
      (λ g.
        let (p, q) = guard_false c g in
        drain_or_sweep-IsReady (start_cycle c r) (start_cycle-IsReady c r h p q))

started-Survives :
    (c : Collector) (r : Roots) (i : ℕ) (o : Object)
    → IsReady c
    → get_elem? c.heap.objects i ≡ some o
    → Reaches (root_values r) c.heap.objects o.address
    → Survives o (drain_or_sweep (start_cycle c r)).heap.objects
unfolding start_cycle
started-Survives c r i o h e reached =
    let os = c.heap.objects in
    let roots = root_values r in
    let marked = mark_slots roots os in
    let adv = mark_slots-Advances roots os in
    let (o', e', a) = Advances-get_elem? os marked i o adv e in
    let shown =
      drain_or_sweep-Survives
        (record c { heap = record c.heap { objects = marked }; cycle_active = true }) roots i o'
        (mark_slots-Shaded roots os) (mark_slots-Tricolour roots os h.tricolour) e'
        (Reaches-Advances roots os marked adv
          (subst (Reaches roots os) (sym a.same_address) reached)) in
    rw (mark_roots_lem r os) (
      Survives-Same _ o o'
        (record {
          same_address = a.same_address;
          same_kind = a.same_kind;
          same_values = a.same_values;
        })
        shown)

-- A safepoint of a collector that is ready keeps every object of the heap whose address the roots
-- reach, with its address, kind and values.
pub maybe_collect-Survives :
    (c : Collector) (r : Roots) (i : ℕ) (o : Object)
    → IsReady c
    → get_elem? c.heap.objects i ≡ some o
    → Reaches (root_values r) c.heap.objects o.address
    → Survives o (maybe_collect c r).heap.objects
unfolding maybe_collect
maybe_collect-Survives c r i o h e reached =
    if_split (λ (d : Collector). Survives o d.heap.objects)
      (c.threshold == 0 || ltb c.heap.alloc_count c.threshold)
      (λ g.
        if_split (λ (d : Collector). Survives o d.heap.objects) c.cycle_active
          (λ a. absurd (guard_true c g h a)) (λ _. Survives-get_elem? c.heap.objects i o e))
      (λ g. started-Survives c r i o h e reached)
