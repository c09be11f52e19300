-- ===== src/Gc/Store.antt =====
-- A write to an object and the addresses, length and links of the heap.
use saqut.Prelude.{
  ℕ, ◌≡◌, ◌≢◌, refl, sym, ◌∙◌, List, [], ◌∷◌, inl, inr, arith, length, set, if_split, All, All-mono,
  ◌==◌,
}
use mathlib.Core.Path.{subst}
use saqut.Gc.{Object, Value, ref, plain, traced, children, write_barrier, store_value}
use saqut.Gc.Closed.{Present, Linked, Linked-mono, Closed}
use saqut.Gc.Barrier.{Linked-children}
use saqut.Gc.Distinct.{Distinct}

pub store_value-length :
    (t i : ℕ) (v : Value) (os heap : List Object) → length (store_value t i v os heap) ≡ length os
unfolding store_value
store_value-length t i v [] heap = refl
store_value-length t i v (o ∷ os) heap = ground (arith, store_value-length t i v os heap)

write_barrier-same :
    (o : Object) (v : Value) (heap : List Object)
    → ((write_barrier o v heap).address ≡ o.address) × ((write_barrier o v heap).kind ≡ o.kind)
unfolding write_barrier
write_barrier-same o plain heap = (refl, refl)
write_barrier-same o (ref p) heap = ground arith

store_value-addresses {κ} :
    (P : ℕ → Type κ) (t i : ℕ) (v : Value) (os heap : List Object)
    → All (λ o. P o.address) os
    → All (λ o. P o.address) (store_value t i v os heap)
unfolding store_value
store_value-addresses P t i v [] heap h = tt
store_value-addresses P t i v (o ∷ os) heap h =
    if_split (All (λ o. P o.address)) (o.address == t)
      (λ _. (subst P (sym (write_barrier-same o v heap).0) h.0, h.1))
      (λ _. (h.0, store_value-addresses P t i v os heap h.1))

pub store_value-Distinct :
    (t i : ℕ) (v : Value) (os heap : List Object)
    → Distinct os
    → Distinct (store_value t i v os heap)
unfolding store_value
store_value-Distinct t i v [] heap h = tt
store_value-Distinct t i v (o ∷ os) heap h =
    if_split Distinct (o.address == t)
      (λ _.
        (subst (λ a. All (λ x. x.address ≢ a) os) (sym (write_barrier-same o v heap).0) h.0, h.1))
      (λ _. (
        store_value-addresses (λ a. a ≢ o.address) t i v os heap h.0,
        store_value-Distinct t i v os heap h.1,
      ))

pub store_value-Present :
    (p t i : ℕ) (v : Value) (os heap : List Object)
    → Present p os
    → Present p (store_value t i v os heap)
unfolding store_value
store_value-Present p t i v [] heap h = h
store_value-Present p t i v (o ∷ os) heap (inl e) =
    if_split (Present p) (o.address == t) (λ _. inl ((write_barrier-same o v heap).0 ∙ e))
      (λ _. inl e)
store_value-Present p t i v (o ∷ os) heap (inr s) =
    if_split (Present p) (o.address == t) (λ _. inr s)
      (λ _. inr (store_value-Present p t i v os heap s))

store_value-Linked :
    (t i : ℕ) (v : Value) (os heap xs : List Object)
    → Linked (v ∷ []) xs
    → All (λ o. Linked (traced o) xs) os
    → All (λ o. Linked (traced o) xs) (store_value t i v os heap)
unfolding store_value
store_value-Linked t i v [] heap xs k h = tt
store_value-Linked t i v (o ∷ os) heap xs k h =
    if_split (All (λ o. Linked (traced o) xs)) (o.address == t)
      (λ _. (
        subst (λ kind. Linked (children kind (set o.values i v)) xs)
            (sym (write_barrier-same o v heap).1) (Linked-children o.kind o.values i v xs h.0 k),
        h.1,
      ))
      (λ _. (h.0, store_value-Linked t i v os heap xs k h.1))

pub store_value-Closed :
    (t i : ℕ) (v : Value) (heap : List Object)
    → Linked (v ∷ []) heap
    → Closed heap
    → Closed (store_value t i v heap heap)
store_value-Closed t i v heap k h =
    All-mono _ _ (store_value t i v heap heap)
      (λ o l. Linked-mono (traced o) heap _ (λ p. store_value-Present p t i v heap heap) l)
      (store_value-Linked t i v heap heap heap k h)
