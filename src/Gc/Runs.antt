-- ===== src/Gc/Runs.antt =====
-- Runs of the collector with its mutator: allocations, writes, changes of the roots and safepoints.
use saqut.Prelude.{
  ℕ, ◌≢◌, refl, sym, ◌∙◌, false, List, [], ◌∷◌, inl, inr, arith, All, All-mono, All-get_elem?,
}
use mathlib.Core.Path.{subst}
use saqut.Gc.{
  white, ObjectKind, ref_array, packed_array, struct, string_box, decimal_box, Object, Value, ref,
  plain, Heap, Collector, Roots, maybe_collect, traced, children, alloc, store_value,
}
use saqut.Gc.Colour.{Shaded, NonWhite, BlackOk}
use saqut.Gc.Reach.{Reaches, root, step, RefIn, root_values}
use saqut.Gc.Safety.{IsReady, maybe_collect-IsReady}
use saqut.Gc.Closed.{Present, Linked, Linked-mono, Closed, NoDangling, maybe_collect-NoDangling}
use saqut.Gc.Barrier.{store_value-Tricolour}
use saqut.Gc.Distinct.{Distinct, maybe_collect-Distinct}
use saqut.Gc.Store.{
  store_value-length, store_value-Distinct, store_value-Present, store_value-Closed,
}

pub record Machine : Type 0 where
  pub collector : Collector
  pub roots : Roots

abbrev pub objects_of : Machine → List Object
objects_of m = m.collector.heap.objects

abbrev pub with_heap : Machine → Heap → Machine
with_heap m h = record m { collector = record m.collector { heap = h } }

abbrev pub with_objects : Machine → List Object → Machine
with_objects m os = with_heap m (record m.collector.heap { objects = os })

-- A new object is at a fresh address; what is written or becomes a root was there before.
pub data Step : Machine → Machine → Type 0 where
  safepoint : (m : Machine) → Step m (record m { collector = maybe_collect m.collector m.roots })
  allocate :
      (m : Machine) (p : ℕ) (kind : ObjectKind) (vs : List Value)
      → ¬ Present p (objects_of m)
      → Linked vs (objects_of m)
      → Step m (with_heap m (alloc p kind vs m.collector.heap))
  write :
      (m : Machine) (t i : ℕ) (v : Value)
      → Linked (v ∷ []) (objects_of m)
      → Step m (with_objects m (store_value t i v (objects_of m) (objects_of m)))
  move_roots :
      (m : Machine) (r : Roots)
      → Linked (root_values r) (objects_of m)
      → Step m (record m { roots = r })

pub data Run : Machine → Machine → Type 0 where
  halt : (m : Machine) → Run m m
  next : (m n k : Machine) → Step m n → Run n k → Run m k

pub record IsSound (m : Machine) : Type 0 where
  pub ready : IsReady m.collector
  pub distinct : Distinct (objects_of m)
  pub no_dangling : NoDangling (root_values m.roots) (objects_of m)

-- Allocation: the new object is white, and no object refers to it.
NonWhite-fresh :
    (o : Object) (q : ℕ) (os : List Object)
    → ¬ Present o.address os
    → Present q os
    → NonWhite q os
    → NonWhite q (o ∷ os)
NonWhite-fresh o q os f s w = (λ e. absurd (f (subst (λ a. Present a os) (sym e) s)), w)

Shaded-fresh :
    (vs : List Value) (o : Object) (os : List Object)
    → ¬ Present o.address os
    → Linked vs os
    → Shaded vs os
    → Shaded vs (o ∷ os)
Shaded-fresh [] o os f l s = tt
Shaded-fresh (ref q ∷ vs) o os f l s =
    (NonWhite-fresh o q os f l.0 s.0, Shaded-fresh vs o os f l.1 s.1)
Shaded-fresh (plain ∷ vs) o os f l s = Shaded-fresh vs o os f l s

BlackOk-fresh :
    (xs os : List Object) (o : Object)
    → ¬ Present o.address os
    → All (λ x. Linked (traced x) os) xs
    → All (BlackOk os) xs
    → All (BlackOk (o ∷ os)) xs
BlackOk-fresh [] os o f l h = tt
BlackOk-fresh (x ∷ xs) os o f l h =
    (λ b. Shaded-fresh (traced x) o os f l.0 (h.0 b), BlackOk-fresh xs os o f l.1 h.1)

Distinct-fresh : (p : ℕ) (os : List Object) → ¬ Present p os → All (λ x. x.address ≢ p) os
Distinct-fresh p [] f = tt
Distinct-fresh p (o ∷ os) f = (λ e. f (inl e), Distinct-fresh p os (λ s. f (inr s)))

Linked-children_all :
    (kind : ObjectKind) (vs : List Value) (os : List Object)
    → Linked vs os
    → Linked (children kind vs) os
Linked-children_all ref_array vs os h = h
Linked-children_all struct vs os h = h
Linked-children_all packed_array vs os h = tt
Linked-children_all string_box vs os h = tt
Linked-children_all decimal_box vs os h = tt

Closed-fresh : (o : Object) (os : List Object) → Linked (traced o) os → Closed os → Closed (o ∷ os)
Closed-fresh o os l h =
    let wider = λ (vs : List Value). Linked-mono vs os (o ∷ os) (λ p s. inr s) in
    (wider (traced o) l, All-mono _ _ os (λ x k. wider (traced x) k) h)

pub alloc-IsSound :
    (m : Machine) (p : ℕ) (kind : ObjectKind) (vs : List Value)
    → IsSound m
    → ¬ Present p (objects_of m)
    → Linked vs (objects_of m)
    → IsSound (with_heap m (alloc p kind vs m.collector.heap))
unfolding alloc
alloc-IsSound m p kind vs h f l =
    let os = objects_of m in
    let o : Object = record {
      address = p;
      kind = kind;
      marked = false;
      mark_state = white;
      values = vs;
    } in
    record {
      ready = record {
        tricolour = (
          (λ b. cc, BlackOk-fresh os os o f h.no_dangling.closed h.ready.tricolour.0),
          (refl, h.ready.tricolour.1),
        );
        counted = omega (arith, h.ready.counted);
        in_cycle = λ a. let bounds = h.ready.in_cycle a in (bounds.0, omega (arith, bounds));
      };
      distinct = (Distinct-fresh p os f, h.distinct);
      no_dangling = record {
        closed = Closed-fresh o os (Linked-children_all kind vs os l) h.no_dangling.closed;
        rooted = Linked-mono (root_values m.roots) os (o ∷ os) (λ q s. inr s) h.no_dangling.rooted;
      };
    }

store_value-IsSound :
    (m : Machine) (t i : ℕ) (v : Value)
    → IsSound m
    → Linked (v ∷ []) (objects_of m)
    → IsSound (with_objects m (store_value t i v (objects_of m) (objects_of m)))
store_value-IsSound m t i v h l =
    let os = objects_of m in
    record {
      ready = record {
        tricolour = store_value-Tricolour t i v os h.distinct h.ready.tricolour;
        counted = h.ready.counted ∙ sym (store_value-length t i v os os);
        in_cycle = h.ready.in_cycle;
      };
      distinct = store_value-Distinct t i v os os h.distinct;
      no_dangling = record {
        closed = store_value-Closed t i v os l h.no_dangling.closed;
        rooted =
            Linked-mono (root_values m.roots) os _ (λ p. store_value-Present p t i v os os)
              h.no_dangling.rooted;
      };
    }

safepoint-IsSound :
    (m : Machine) → IsSound m → IsSound (record m { collector = maybe_collect m.collector m.roots })
safepoint-IsSound m h = record {
  ready = maybe_collect-IsReady m.collector m.roots h.ready;
  distinct = maybe_collect-Distinct m.collector m.roots h.distinct;
  no_dangling = maybe_collect-NoDangling m.collector m.roots h.ready h.no_dangling;
}

Step-IsSound : (m n : Machine) → Step m n → IsSound m → IsSound n
Step-IsSound _ _ (safepoint m) h = safepoint-IsSound m h
Step-IsSound _ _ (allocate m p kind vs f l) h = alloc-IsSound m p kind vs h f l
Step-IsSound _ _ (write m t i v l) h = store_value-IsSound m t i v h l
Step-IsSound _ _ (move_roots m r l) h = record {
  ready = h.ready;
  distinct = h.distinct;
  no_dangling = record { closed = h.no_dangling.closed; rooted = l };
}

pub Run-IsSound : (m n : Machine) → Run m n → IsSound m → IsSound n
Run-IsSound _ _ (halt m) h = h
Run-IsSound _ _ (next m n k s r) h = Run-IsSound n k r (Step-IsSound m n s h)

Linked-RefIn :
    (p : ℕ) (vs : List Value) (os : List Object) → Linked vs os → RefIn p vs → Present p os
Linked-RefIn p [] os h r = absurd r
Linked-RefIn p (ref q ∷ vs) os h (inl e) = subst (λ x. Present x os) (cc) h.0
Linked-RefIn p (ref q ∷ vs) os h (inr r) = Linked-RefIn p vs os h.1 r
Linked-RefIn p (plain ∷ vs) os h (inl e) = cc
Linked-RefIn p (plain ∷ vs) os h (inr r) = Linked-RefIn p vs os h r

Reaches-Present :
    (roots : List Value) (os : List Object)
    → NoDangling roots os
    → {p : ℕ} → Reaches roots os p
    → Present p os
Reaches-Present roots os h (root p r) = Linked-RefIn p roots os h.rooted r
Reaches-Present roots os h (step p i o e k r) =
    Linked-RefIn p (traced o) os (All-get_elem? _ os i o h.closed e) r

-- A machine that is sound stays free of dangling references: after any run of safepoints,
-- allocations at fresh addresses, writes through the write barrier and changes of the roots,
-- every address that the roots reach through traced references is the address of an object in the
-- heap.
pub Run-Present :
    (m n : Machine) (p : ℕ)
    → IsSound m
    → Run m n
    → Reaches (root_values n.roots) (objects_of n) p
    → Present p (objects_of n)
Run-Present m n p h r k =
    Reaches-Present (root_values n.roots) (objects_of n) (Run-IsSound m n r h).no_dangling k
