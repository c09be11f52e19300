-- ===== src/Gc/Distinct.antt =====
-- The addresses of the objects, from one safepoint to the next.
use saqut.Prelude.{
  ℕ, ◌≢◌, sym, true, not, List, [], ◌∷◌, ◌||◌, length, if_split, All, All-mono, ltb, ◌==◌,
}
use mathlib.Core.Path.{subst}
use saqut.Gc.{
  Object, Collector, Roots, sweep_list, sweep, drain_grey, drain_or_sweep, start_cycle,
  maybe_collect, mark_slots, gc_budget,
}
use saqut.Gc.Colour.{Advances, mark_slots-Advances}
use saqut.Gc.Drain.{drain_grey-Keeps}
use saqut.Gc.Sweep.{sweep_list-All}
use saqut.Gc.Reach.{root_values, mark_roots_lem}

abbrev pub Distinct : List Object → Type 0
Distinct [] = Unit
Distinct (o ∷ os) = All (λ x. x.address ≢ o.address) os × Distinct os

Advances-addresses {κ} :
    (P : ℕ → Type κ) (os os' : List Object)
    → Advances os os'
    → All (λ o. P o.address) os
    → All (λ o. P o.address) os'
Advances-addresses P [] [] a h = tt
Advances-addresses P [] (_ ∷ _) a h = absurd a
Advances-addresses P (_ ∷ _) [] a h = absurd a
Advances-addresses P (o ∷ os) (o' ∷ os') a h =
    (subst P (sym a.0.same_address) h.0, Advances-addresses P os os' a.1 h.1)

Distinct-Advances : (os os' : List Object) → Advances os os' → Distinct os → Distinct os'
Distinct-Advances [] [] a h = tt
Distinct-Advances [] (_ ∷ _) a h = absurd a
Distinct-Advances (_ ∷ _) [] a h = absurd a
Distinct-Advances (o ∷ os) (o' ∷ os') a h = (
  subst (λ p. All (λ x. x.address ≢ p) os') (sym a.0.same_address)
      (Advances-addresses (λ p. p ≢ o.address) os os' a.1 h.0),
  Distinct-Advances os os' a.1 h.1,
)

sweep_list-Distinct : (os : List Object) → Distinct os → Distinct (sweep_list os).0
unfolding sweep_list
sweep_list-Distinct [] h = tt
sweep_list-Distinct (o ∷ os) h =
    if_split (λ (d : List Object × ℕ). Distinct d.0) (not o.marked)
      (λ _. sweep_list-Distinct os h.1)
      (λ _. (
        sweep_list-All (λ x. x.address ≢ o.address) os (λ x k. k)
            (All-mono _ _ os (λ x k _. k) h.0),
        sweep_list-Distinct os h.1,
      ))

drain_or_sweep-Distinct :
    (c : Collector) → Distinct c.heap.objects → Distinct (drain_or_sweep c).heap.objects
unfolding drain_or_sweep sweep
drain_or_sweep-Distinct c h =
    let os = c.heap.objects in
    let drained = drain_grey gc_budget (length os) 0 0 os in
    let kept =
      Distinct-Advances os drained.0 (drain_grey-Keeps gc_budget (length os) 0 0 os).advances h in
    if_split (λ (d : Collector). Distinct d.heap.objects) (drained.1 == 0)
      (λ _. sweep_list-Distinct drained.0 kept) (λ _. kept)

pub maybe_collect-Distinct :
    (c : Collector) (r : Roots)
    → Distinct c.heap.objects
    → Distinct (maybe_collect c r).heap.objects
unfolding maybe_collect start_cycle
maybe_collect-Distinct c r h =
    let os = c.heap.objects in
    if_split (λ (d : Collector). Distinct d.heap.objects)
      (c.threshold == 0 || ltb c.heap.alloc_count c.threshold)
      (λ _.
        if_split (λ (d : Collector). Distinct d.heap.objects) c.cycle_active
          (λ _. drain_or_sweep-Distinct c h) (λ _. h))
      (λ _. rw (mark_roots_lem r os) (
        drain_or_sweep-Distinct
          (record c {
            heap = record c.heap { objects = mark_slots (root_values r) os };
            cycle_active = true;
          })
          (Distinct-Advances os _ (mark_slots-Advances (root_values r) os) h)))
