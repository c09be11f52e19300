-- ===== src/Gc/Closed.antt =====
-- References that lead to an object, and what a safepoint does to them.
use saqut.Prelude.{
  ℕ, ◌≡◌, sym, ◌∙◌, not, true, false, List, [], ◌∷◌, ◌⊎◌, inl, inr, arith, length, if_split, All,
  All-mono, ltb, ◌==◌, ◌||◌,
}
use mathlib.Core.Path.{subst}
use saqut.Gc.{
  Object, Value, ref, plain, is_grey, is_black, sweep_list, Collector, Roots, mark_slots,
  drain_grey, drain_or_sweep, start_cycle, sweep, maybe_collect, traced, gc_budget,
}
use saqut.Gc.Colour.{
  Advances, Shaded, NonWhite, BlackOk, MarkedOk, Tricolour, mark_slots-Advances, mark_slots-Shaded,
  mark_slots-Tricolour,
}
use saqut.Gc.Drain.{drain_grey-NoGrey, drain_grey-Keeps}
use saqut.Gc.Sweep.{sweep_list-All}
use saqut.Gc.Reach.{NoGrey-All, root_values, mark_roots_lem}
use saqut.Gc.Safety.{IsReady, guard_true}

abbrev pub Present : ℕ → List Object → Type 0
Present p [] = ⊥
Present p (o ∷ os) = (o.address ≡ p) ⊎ Present p os

abbrev pub Linked : List Value → List Object → Type 0
Linked [] os = Unit
Linked (ref p ∷ vs) os = Present p os × Linked vs os
Linked (plain ∷ vs) os = Linked vs os

abbrev pub Closed : List Object → Type 0
Closed os = All (λ o. Linked (traced o) os) os

pub Present-Advances :
    (p : ℕ) (os os' : List Object) → Advances os os' → Present p os → Present p os'
Present-Advances p [] os' h s = absurd s
Present-Advances p (o ∷ os) [] h s = absurd h
Present-Advances p (o ∷ os) (o' ∷ os') h (inl e) = inl (h.0.same_address ∙ e)
Present-Advances p (o ∷ os) (o' ∷ os') h (inr s) = inr (Present-Advances p os os' h.1 s)

-- References may move to another heap that has the objects they lead to.
pub Linked-mono :
    (vs : List Value) (os os' : List Object)
    → ((p : ℕ) → Present p os → Present p os')
    → Linked vs os
    → Linked vs os'
Linked-mono [] os os' f h = tt
Linked-mono (ref p ∷ vs) os os' f h = (f p h.0, Linked-mono vs os os' f h.1)
Linked-mono (plain ∷ vs) os os' f h = Linked-mono vs os os' f h

All-Linked-Advances :
    (xs os os' : List Object)
    → Advances os os'
    → All (λ o. Linked (traced o) xs) os
    → All (λ o. Linked (traced o) xs) os'
All-Linked-Advances xs [] [] a h = tt
All-Linked-Advances xs [] (_ ∷ _) a h = absurd a
All-Linked-Advances xs (_ ∷ _) [] a h = absurd a
All-Linked-Advances xs (o ∷ os) (o' ∷ os') a h = (
  let same : traced o ≡ traced o' = cc (a.0.same_kind, a.0.same_values) in
      subst (λ vs. Linked vs xs) same h.0,
  All-Linked-Advances xs os os' a.1 h.1,
)

pub Closed-Advances : (os os' : List Object) → Advances os os' → Closed os → Closed os'
Closed-Advances os os' a h =
    All-Linked-Advances os' os os' a (
      All-mono _ _ os (λ o k. Linked-mono (traced o) os os' (λ p. Present-Advances p os os' a) k) h)

-- The sweep leaves the objects that are marked.
sweep_list-Present :
    (p : ℕ) (os : List Object)
    → All MarkedOk os
    → NonWhite p os
    → Present p os
    → Present p (sweep_list os).0
unfolding sweep_list
sweep_list-Present p [] m w s = s
sweep_list-Present p (o ∷ os) m w (inl e) =
    let agrees : o.marked ≡ true = cc (m.0, w.0 e) in rw agrees (inl e)
sweep_list-Present p (o ∷ os) m w (inr s) =
    if_split (λ (d : List Object × ℕ). Present p d.0) (not o.marked)
      (λ _. sweep_list-Present p os m.1 w.1 s) (λ _. inr (sweep_list-Present p os m.1 w.1 s))

pub sweep_list-Linked :
    (vs : List Value) (os : List Object)
    → All MarkedOk os
    → Shaded vs os
    → Linked vs os
    → Linked vs (sweep_list os).0
sweep_list-Linked [] os m s h = tt
sweep_list-Linked (ref p ∷ vs) os m s h =
    (sweep_list-Present p os m s.0 h.0, sweep_list-Linked vs os m s.1 h.1)
sweep_list-Linked (plain ∷ vs) os m s h = sweep_list-Linked vs os m s h

-- Where nothing is grey, a marked object is black, and its references survive the sweep.
marked-Linked :
    (xs os : List Object)
    → All MarkedOk os
    → All (λ o. is_grey o.mark_state ≡ false) xs
    → All (BlackOk os) xs
    → All MarkedOk xs
    → All (λ o. Linked (traced o) os) xs
    → All (λ o. o.marked ≡ true → Linked (traced o) (sweep_list os).0) xs
marked-Linked [] os m g b k h = tt
marked-Linked (o ∷ xs) os m g b k h = (
  (λ marked.
      let black_o : is_black o.mark_state ≡ true = ground (arith, k.0, g.0) in
      sweep_list-Linked (traced o) os m (b.0 black_o) h.0),
  marked-Linked xs os m g.1 b.1 k.1 h.1,
)

pub sweep_list-Closed :
    (os : List Object)
    → Tricolour os
    → All (λ o. is_grey o.mark_state ≡ false) os
    → Closed os
    → Closed (sweep_list os).0
sweep_list-Closed os t g h =
    sweep_list-All (λ o. Linked (traced o) (sweep_list os).0) os (λ o k. k)
      (marked-Linked os os t.1 g t.0 t.1 h)

-- What a heap and the values of its roots have in common.
pub record NoDangling (roots : List Value) (os : List Object) : Type 0 where
  pub closed : Closed os
  pub rooted : Linked roots os

drain_or_sweep-NoDangling :
    (c : Collector) (roots : List Value)
    → Shaded roots c.heap.objects
    → Tricolour c.heap.objects
    → NoDangling roots c.heap.objects
    → NoDangling roots (drain_or_sweep c).heap.objects
unfolding drain_or_sweep sweep
drain_or_sweep-NoDangling c roots s t h =
    let os = c.heap.objects in
    let drained = drain_grey gc_budget (length os) 0 0 os in
    let advances = (drain_grey-Keeps gc_budget (length os) 0 0 os).advances in
    if_split (λ (d : Collector). NoDangling roots d.heap.objects) (drained.1 == 0)
      (λ z.
        let (quiet, same) =
          drain_grey-NoGrey gc_budget (length os) 0 os (omega arith) (ground arith) in
        subst (λ xs. NoDangling roots (sweep_list xs).0) (sym same)
          (record {
            closed = sweep_list-Closed os t (NoGrey-All os quiet) h.closed;
            rooted = sweep_list-Linked roots os t.1 s h.rooted;
          }))
      (λ _. record {
        closed = Closed-Advances os drained.0 advances h.closed;
        rooted =
            Linked-mono roots os drained.0 (λ p. Present-Advances p os drained.0 advances) h.rooted;
      })

-- A safepoint of a collector that is ready leaves no dangling reference: where every traced
-- reference and every root leads to an object before it, they do after it.
pub maybe_collect-NoDangling :
    (c : Collector) (r : Roots)
    → IsReady c
    → NoDangling (root_values r) c.heap.objects
    → NoDangling (root_values r) (maybe_collect c r).heap.objects
unfolding maybe_collect start_cycle
maybe_collect-NoDangling c r i h =
    let os = c.heap.objects in
    let roots = root_values r in
    let marked = mark_slots roots os in
    let advances = mark_slots-Advances roots os in
    if_split (λ (d : Collector). NoDangling roots d.heap.objects)
      (c.threshold == 0 || ltb c.heap.alloc_count c.threshold)
      (λ g.
        if_split (λ (d : Collector). NoDangling roots d.heap.objects) c.cycle_active
          (λ a. absurd (guard_true c g i a)) (λ _. h))
      (λ g. rw (mark_roots_lem r os) (
        drain_or_sweep-NoDangling
          (record c { heap = record c.heap { objects = marked }; cycle_active = true }) roots
          (mark_slots-Shaded roots os) (mark_slots-Tricolour roots os i.tricolour)
          (record {
            closed = Closed-Advances os marked advances h.closed;
            rooted =
                Linked-mono roots os marked (λ p. Present-Advances p os marked advances) h.rooted;
          })))
