-- ===== src/Gc/Barrier.antt =====
-- FIELD_SET and ARRAY_SET of src/vm/interpreter.cpp with the write barrier of src/vm/object.cpp.
use saqut.Prelude.{
  ℕ, zero, suc, ◌≡◌, sym, ◌∙◌, false, List, [], ◌∷◌, inl, inr, Bool-cases, ◌&&◌, arith, set,
  if_split, All, All-mono, ◌==◌, ==_iff,
}
use saqut.Gc.{
  ObjectKind, ref_array, packed_array, struct, string_box, decimal_box, Object, Value, ref, plain,
  is_black, traced, children, white_at, write_barrier, store_value,
}
use saqut.Gc.Colour.{Shaded, NonWhite, BlackOk, MarkedOk, Tricolour}
use saqut.Gc.Closed.{Linked}
use saqut.Gc.Distinct.{Distinct}

NonWhite-store :
    (p t i : ℕ) (v : Value) (os heap : List Object)
    → NonWhite p os
    → NonWhite p (store_value t i v os heap)
unfolding store_value write_barrier
NonWhite-store p t i v [] heap h = tt
NonWhite-store p t i plain (o ∷ os) heap h =
    if_split (NonWhite p) (o.address == t) (λ _. h)
      (λ _. (h.0, NonWhite-store p t i plain os heap h.1))
NonWhite-store p t i (ref q) (o ∷ os) heap h =
    if_split (NonWhite p) (o.address == t) (λ _. (λ e. ground (arith, h.0), h.1))
      (λ _. (h.0, NonWhite-store p t i (ref q) os heap h.1))

-- `white_at` reads the first object at an address; addresses are distinct, so there is no other.
white_at-NonWhite : (p : ℕ) (os : List Object) → Distinct os → white_at p os ≡ false → NonWhite p os
unfolding white_at
white_at-NonWhite p [] d h = tt
white_at-NonWhite p (o ∷ os) d h = elim (Bool-cases (o.address == p)) [
  | inl e ↦
      let here : o.address ≡ p = (==_iff o.address p).0 e in
      (λ _. rw e at h, All-mono _ _ os (λ x other q. absurd (other (q ∙ sym here))) d.0)
  | inr e ↦ (λ q. absurd (ground (arith, e, q)), white_at-NonWhite p os d.1 (rw e at h))
]

Shaded-set :
    (vs : List Value) (i : ℕ) (v : Value) (os : List Object)
    → Shaded vs os
    → Shaded (v ∷ []) os
    → Shaded (set vs i v) os
Shaded-set [] i v os h k = tt
Shaded-set (ref q ∷ vs) zero (ref p) os h k = (k.0, h.1)
Shaded-set (ref q ∷ vs) zero plain os h k = h.1
Shaded-set (plain ∷ vs) zero (ref p) os h k = (k.0, h)
Shaded-set (plain ∷ vs) zero plain os h k = h
Shaded-set (ref q ∷ vs) (suc i) v os h k = (h.0, Shaded-set vs i v os h.1 k)
Shaded-set (plain ∷ vs) (suc i) v os h k = Shaded-set vs i v os h k

Linked-set :
    (vs : List Value) (i : ℕ) (v : Value) (os : List Object)
    → Linked vs os
    → Linked (v ∷ []) os
    → Linked (set vs i v) os
Linked-set [] i v os h k = tt
Linked-set (ref q ∷ vs) zero (ref p) os h k = (k.0, h.1)
Linked-set (ref q ∷ vs) zero plain os h k = h.1
Linked-set (plain ∷ vs) zero (ref p) os h k = (k.0, h)
Linked-set (plain ∷ vs) zero plain os h k = h
Linked-set (ref q ∷ vs) (suc i) v os h k = (h.0, Linked-set vs i v os h.1 k)
Linked-set (plain ∷ vs) (suc i) v os h k = Linked-set vs i v os h k

Shaded-children :
    (kind : ObjectKind) (vs : List Value) (i : ℕ) (v : Value) (os : List Object)
    → Shaded (children kind vs) os
    → Shaded (v ∷ []) os
    → Shaded (children kind (set vs i v)) os
Shaded-children ref_array vs i v os h k = Shaded-set vs i v os h k
Shaded-children struct vs i v os h k = Shaded-set vs i v os h k
Shaded-children packed_array vs i v os h k = tt
Shaded-children string_box vs i v os h k = tt
Shaded-children decimal_box vs i v os h k = tt

pub Linked-children :
    (kind : ObjectKind) (vs : List Value) (i : ℕ) (v : Value) (os : List Object)
    → Linked (children kind vs) os
    → Linked (v ∷ []) os
    → Linked (children kind (set vs i v)) os
Linked-children ref_array vs i v os h k = Linked-set vs i v os h k
Linked-children struct vs i v os h k = Linked-set vs i v os h k
Linked-children packed_array vs i v os h k = tt
Linked-children string_box vs i v os h k = tt
Linked-children decimal_box vs i v os h k = tt

-- The target of a write: it turns grey where it would be black with a white child.
barrier-BlackOk :
    (heap : List Object) (o : Object) (i : ℕ) (v : Value)
    → Distinct heap
    → BlackOk heap o
    → BlackOk heap (record (write_barrier o v heap) { values = set o.values i v })
unfolding write_barrier
barrier-BlackOk heap o i plain d h = λ b. Shaded-children o.kind o.values i plain heap (h b) tt
barrier-BlackOk heap o i (ref p) d h =
    if_split (λ (x : Object). BlackOk heap (record x { values = set o.values i (ref p) }))
      (is_black o.mark_state && white_at p heap) (λ _ b. cc)
      (λ g b.
        let shown : white_at p heap ≡ false = ground (arith, g, b) in
        Shaded-children o.kind o.values i (ref p) heap (h b) (white_at-NonWhite p heap d shown, tt))

store_value-BlackOk :
    (t i : ℕ) (v : Value) (os heap : List Object)
    → Distinct heap
    → All (BlackOk heap) os
    → All (BlackOk heap) (store_value t i v os heap)
unfolding store_value
store_value-BlackOk t i v [] heap d h = tt
store_value-BlackOk t i v (o ∷ os) heap d h =
    if_split (All (BlackOk heap)) (o.address == t) (λ _. (barrier-BlackOk heap o i v d h.0, h.1))
      (λ _. (h.0, store_value-BlackOk t i v os heap d h.1))

store_value-MarkedOk :
    (t i : ℕ) (v : Value) (os heap : List Object)
    → All MarkedOk os
    → All MarkedOk (store_value t i v os heap)
unfolding store_value write_barrier
store_value-MarkedOk t i v [] heap h = tt
store_value-MarkedOk t i plain (o ∷ os) heap h =
    if_split (All MarkedOk) (o.address == t) (λ _. h)
      (λ _. (h.0, store_value-MarkedOk t i plain os heap h.1))
store_value-MarkedOk t i (ref p) (o ∷ os) heap h =
    if_split (All MarkedOk) (o.address == t) (λ _. (ground (arith, h.0), h.1))
      (λ _. (h.0, store_value-MarkedOk t i (ref p) os heap h.1))

Shaded-store :
    (vs : List Value) (t i : ℕ) (v : Value) (heap : List Object)
    → Shaded vs heap
    → Shaded vs (store_value t i v heap heap)
Shaded-store [] t i v heap h = tt
Shaded-store (ref p ∷ vs) t i v heap h =
    (NonWhite-store p t i v heap heap h.0, Shaded-store vs t i v heap h.1)
Shaded-store (plain ∷ vs) t i v heap h = Shaded-store vs t i v heap h

-- In a heap of distinct addresses, a write of any value at any index of any object, through the
-- write barrier, keeps the tricolour invariant with its mark bits.
pub store_value-Tricolour :
    (t i : ℕ) (v : Value) (heap : List Object)
    → Distinct heap
    → Tricolour heap
    → Tricolour (store_value t i v heap heap)
store_value-Tricolour t i v heap d h = (
  All-mono (BlackOk heap) (BlackOk (store_value t i v heap heap)) (store_value t i v heap heap)
      (λ o k b. Shaded-store (traced o) t i v heap (k b))
      (store_value-BlackOk t i v heap heap d h.0),
  store_value-MarkedOk t i v heap heap h.1,
)
