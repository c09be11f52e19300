-- ===== src/Gc/Sweep.antt =====
-- `Heap::sweep`: what it keeps, and its count.
use saqut.Prelude.{
  ℕ, zero, suc, ◌+◌, ◌≡◌, ◌∙◌, refl, true, false, not, some, List, [], ◌∷◌, ◌⊎◌, inl, inr, arith,
  length, get_elem?, if_split, some_inj, All,
}
use mathlib.Core.Path.{subst}
use saqut.Gc.{white, Object, is_white, sweep_list}
use saqut.Gc.Colour.{Advances}

-- The same object, whatever its marks.
pub record Same (o o' : Object) : Type 0 where
  pub same_address : o'.address ≡ o.address
  pub same_kind : o'.kind ≡ o.kind
  pub same_values : o'.values ≡ o.values

-- The object stands in the list, whatever its marks.
abbrev pub Survives : Object → List Object → Type 0
Survives o [] = ⊥
Survives o (x ∷ xs) = Same o x ⊎ Survives o xs

Same-refl : (o : Object) → Same o o
Same-refl o = record { same_address = refl; same_kind = refl; same_values = refl }

pub Survives-get_elem? :
    (os : List Object) (i : ℕ) (o : Object) → get_elem? os i ≡ some o → Survives o os
Survives-get_elem? [] i o e = cc
Survives-get_elem? (x ∷ os) zero o e =
    subst (λ y. Survives y (x ∷ os)) (some_inj e) (inl (Same-refl x))
Survives-get_elem? (x ∷ os) (suc i) o e = inr (Survives-get_elem? os i o e)

pub Survives-Advances :
    (os os' : List Object) (i : ℕ) (o : Object)
    → Advances os os'
    → get_elem? os i ≡ some o
    → Survives o os'
Survives-Advances [] os' i o h e = cc
Survives-Advances (x ∷ os) [] i o h e = absurd h
Survives-Advances (x ∷ os) (x' ∷ os') zero o h e =
    subst (λ y. Survives y (x' ∷ os')) (some_inj e)
      (inl (record {
        same_address = h.0.same_address;
        same_kind = h.0.same_kind;
        same_values = h.0.same_values;
      }))
Survives-Advances (x ∷ os) (x' ∷ os') (suc i) o h e = inr (Survives-Advances os os' i o h.1 e)

pub sweep_list-Survives :
    (os : List Object) (i : ℕ) (o : Object)
    → get_elem? os i ≡ some o
    → o.marked ≡ true
    → Survives o (sweep_list os).0
unfolding sweep_list
sweep_list-Survives [] i o e m = cc
sweep_list-Survives (x ∷ os) zero o e m =
    subst (λ y. Survives y (sweep_list (x ∷ os)).0) (some_inj e)
      (if_split (λ (d : List Object × ℕ). Survives x d.0) (not x.marked) (λ n. cc (some_inj e))
        (λ _. inl (record { same_address = refl; same_kind = refl; same_values = refl })))
sweep_list-Survives (x ∷ os) (suc i) o e m =
    if_split (λ (d : List Object × ℕ). Survives o d.0) (not x.marked)
      (λ _. sweep_list-Survives os i o e m) (λ _. inr (sweep_list-Survives os i o e m))

-- The objects that a sweep keeps and those that it frees are as many as there were.
pub sweep_list-count : (os : List Object) → length (sweep_list os).0 + (sweep_list os).1 ≡ length os
unfolding sweep_list
sweep_list-count [] = refl
sweep_list-count (o ∷ os) = ground (arith, sweep_list-count os)

-- Every object that is kept is white, and unmarked.
pub sweep_list-white :
    (os : List Object)
    → All (λ o. (is_white o.mark_state ≡ true) × (o.marked ≡ false)) (sweep_list os).0
unfolding sweep_list
sweep_list-white [] = tt
sweep_list-white (o ∷ os) =
    if_split
      (λ (d : List Object × ℕ). All (λ o. (is_white o.mark_state ≡ true) × (o.marked ≡ false)) d.0)
      (not o.marked) (λ _. sweep_list-white os) (λ _. ((refl, refl), sweep_list-white os))

-- A property of the marked objects that does not read the marks holds of all that is kept.
pub sweep_list-All {κ} :
    (P : Object → Type κ) (os : List Object)
    → ((o : Object) → P o → P (record o { mark_state = white; marked = false }))
    → All (λ o. o.marked ≡ true → P o) os
    → All P (sweep_list os).0
unfolding sweep_list
sweep_list-All P [] f h = tt
sweep_list-All P (o ∷ os) f h =
    if_split (λ (d : List Object × ℕ). All P d.0) (not o.marked) (λ _. sweep_list-All P os f h.1)
      (λ m. (f o (h.0 (ground arith)), sweep_list-All P os f h.1))

pub Survives-Same : (os : List Object) (o o' : Object) → Same o o' → Survives o' os → Survives o os
Survives-Same [] o o' h s = s
Survives-Same (x ∷ os) o o' h (inl k) = inl (record {
  same_address = k.same_address ∙ h.same_address;
  same_kind = k.same_kind ∙ h.same_kind;
  same_values = k.same_values ∙ h.same_values;
})
Survives-Same (x ∷ os) o o' h (inr s) = inr (Survives-Same os o o' h s)
