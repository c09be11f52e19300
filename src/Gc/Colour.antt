-- ===== src/Gc/Colour.antt =====
-- Marking and the colours of the objects.
use mathlib.Core.Path.{subst}
use saqut.Prelude.{
  ℕ, zero, suc, ◌≡◌, refl, sym, ap, ◌∙◌, true, false, not, some, List, [], ◌∷◌, ◌==◌, arith, length,
  get_elem?, set, All, All-mono, if_split, some_inj,
}
use saqut.Gc.{
  Object, Value, ref, plain, is_white, is_black, shade, mark_object, mark_value, mark_slots, traced,
}

-- `o'` is `o` with the colour it had or a darker one.
pub record Advance (o o' : Object) : Type 0 where
  pub same_address : o'.address ≡ o.address
  pub same_kind : o'.kind ≡ o.kind
  pub same_values : o'.values ≡ o.values
  pub darker : is_white o.mark_state ≡ false → is_white o'.mark_state ≡ false

abbrev pub Advances : List Object → List Object → Type 0
Advances [] [] = Unit
Advances [] (_ ∷ _) = ⊥
Advances (_ ∷ _) [] = ⊥
Advances (o ∷ os) (o' ∷ os') = Advance o o' × Advances os os'

pub Advance-refl : (o : Object) → Advance o o
Advance-refl o = record {
  same_address = refl;
  same_kind = refl;
  same_values = refl;
  darker = λ h. h;
}

pub Advances-refl : (os : List Object) → Advances os os
Advances-refl [] = tt
Advances-refl (o ∷ os) = (Advance-refl o, Advances-refl os)

Advance-trans : {a b c : Object} → Advance a b → Advance b c → Advance a c
Advance-trans h k = record {
  same_address = k.same_address ∙ h.same_address;
  same_kind = k.same_kind ∙ h.same_kind;
  same_values = k.same_values ∙ h.same_values;
  darker = λ w. k.darker (h.darker w);
}

pub Advances-trans : (a b c : List Object) → Advances a b → Advances b c → Advances a c
Advances-trans [] [] c h k = k
Advances-trans [] (_ ∷ _) c h k = absurd h
Advances-trans (_ ∷ _) [] c h k = absurd h
Advances-trans (x ∷ a) (y ∷ b) [] h k = absurd k
Advances-trans (x ∷ a) (y ∷ b) (z ∷ c) h k = (Advance-trans h.0 k.0, Advances-trans a b c h.1 k.1)

pub Advances-set :
    (os : List Object) (i : ℕ) (o o' : Object)
    → get_elem? os i ≡ some o
    → Advance o o'
    → Advances os (set os i o')
Advances-set [] i o o' e h = tt
Advances-set (x ∷ os) zero o o' e h =
    (subst (λ y. Advance y o') (sym (some_inj e)) h, Advances-refl os)
Advances-set (x ∷ os) (suc i) o o' e h = (Advance-refl x, Advances-set os i o o' e h)

shade-Advance : (p : ℕ) (o : Object) → Advance o (shade p o)
unfolding shade
shade-Advance p o = ground arith

pub mark_object-Advances : (p : ℕ) (os : List Object) → Advances os (mark_object p os)
unfolding mark_object
mark_object-Advances p [] = tt
mark_object-Advances p (o ∷ os) = (shade-Advance p o, mark_object-Advances p os)

mark_value-Advances : (v : Value) (os : List Object) → Advances os (mark_value v os)
unfolding mark_value
mark_value-Advances (ref p) os = mark_object-Advances p os
mark_value-Advances plain os = Advances-refl os

pub mark_slots-Advances : (vs : List Value) (os : List Object) → Advances os (mark_slots vs os)
unfolding mark_slots
mark_slots-Advances [] os = Advances-refl os
mark_slots-Advances (v ∷ vs) os =
    Advances-trans os (mark_value v os) _ (mark_value-Advances v os)
      (mark_slots-Advances vs (mark_value v os))

-- No object at the address is white.
abbrev pub NonWhite : ℕ → List Object → Type 0
NonWhite p = All (λ o. o.address ≡ p → is_white o.mark_state ≡ false)

pub NonWhite-Advances :
    (p : ℕ) (os os' : List Object) → Advances os os' → NonWhite p os → NonWhite p os'
NonWhite-Advances p [] [] h w = tt
NonWhite-Advances p [] (_ ∷ _) h w = absurd h
NonWhite-Advances p (_ ∷ _) [] h w = absurd h
NonWhite-Advances p (o ∷ os) (o' ∷ os') h w =
    (λ e. h.0.darker (w.0 (sym h.0.same_address ∙ e)), NonWhite-Advances p os os' h.1 w.1)

shade-NonWhite :
    (p : ℕ) (o : Object) → (shade p o).address ≡ p → is_white (shade p o).mark_state ≡ false
unfolding shade
shade-NonWhite p o e = ground arith

mark_object-NonWhite : (p : ℕ) (os : List Object) → NonWhite p (mark_object p os)
unfolding mark_object
mark_object-NonWhite p [] = tt
mark_object-NonWhite p (o ∷ os) = (shade-NonWhite p o, mark_object-NonWhite p os)

-- No reference among the values leads to a white object.
abbrev pub Shaded : List Value → List Object → Type 0
Shaded [] os = Unit
Shaded (ref p ∷ vs) os = NonWhite p os × Shaded vs os
Shaded (plain ∷ vs) os = Shaded vs os

pub Shaded-Advances :
    (vs : List Value) (os os' : List Object) → Advances os os' → Shaded vs os → Shaded vs os'
Shaded-Advances [] os os' h s = tt
Shaded-Advances (ref p ∷ vs) os os' h s =
    (NonWhite-Advances p os os' h s.0, Shaded-Advances vs os os' h s.1)
Shaded-Advances (plain ∷ vs) os os' h s = Shaded-Advances vs os os' h s

pub mark_slots-Shaded : (vs : List Value) (os : List Object) → Shaded vs (mark_slots vs os)
unfolding mark_slots mark_value
mark_slots-Shaded [] os = tt
mark_slots-Shaded (ref p ∷ vs) os = (
  NonWhite-Advances p (mark_object p os) _ (mark_slots-Advances vs (mark_object p os))
      (mark_object-NonWhite p os),
  mark_slots-Shaded vs (mark_object p os),
)
mark_slots-Shaded (plain ∷ vs) os = mark_slots-Shaded vs os

-- A black object has no white child.
abbrev pub BlackOk : List Object → Object → Type 0
BlackOk os o = is_black o.mark_state ≡ true → Shaded (traced o) os

abbrev pub MarkedOk : Object → Type 0
MarkedOk o = o.marked ≡ not (is_white o.mark_state)

-- The invariant of tricolour marking, with the mark bit that `sweep` reads.
abbrev pub Tricolour : List Object → Type 0
Tricolour os = All (BlackOk os) os × All MarkedOk os

shade-BlackOk : (p : ℕ) (xs : List Object) (o : Object) → BlackOk xs o → BlackOk xs (shade p o)
unfolding shade
shade-BlackOk p xs o h =
    if_split (BlackOk xs) (o.address == p)
      (λ _. if_split (BlackOk xs) (is_white o.mark_state) (λ _ b. cc) (λ _. h)) (λ _. h)

shade-MarkedOk : (p : ℕ) (o : Object) → MarkedOk o → MarkedOk (shade p o)
unfolding shade
shade-MarkedOk p o h = ground arith

mark_object-BlackOk :
    (p : ℕ) (xs os : List Object) → All (BlackOk xs) os → All (BlackOk xs) (mark_object p os)
unfolding mark_object
mark_object-BlackOk p xs [] h = tt
mark_object-BlackOk p xs (o ∷ os) h = (shade-BlackOk p xs o h.0, mark_object-BlackOk p xs os h.1)

mark_object-MarkedOk :
    (p : ℕ) (os : List Object) → All MarkedOk os → All MarkedOk (mark_object p os)
unfolding mark_object
mark_object-MarkedOk p [] h = tt
mark_object-MarkedOk p (o ∷ os) h = (shade-MarkedOk p o h.0, mark_object-MarkedOk p os h.1)

pub BlackOk-Advances :
    (os os' xs : List Object) → Advances os os' → All (BlackOk os) xs → All (BlackOk os') xs
BlackOk-Advances os os' xs h =
    All-mono (BlackOk os) (BlackOk os') xs (λ o k b. Shaded-Advances (traced o) os os' h (k b))

mark_object-Tricolour : (p : ℕ) (os : List Object) → Tricolour os → Tricolour (mark_object p os)
mark_object-Tricolour p os h = (
  mark_object-BlackOk p (mark_object p os) os
      (BlackOk-Advances os (mark_object p os) os (mark_object-Advances p os) h.0),
  mark_object-MarkedOk p os h.1,
)

pub mark_slots-Tricolour :
    (vs : List Value) (os : List Object) → Tricolour os → Tricolour (mark_slots vs os)
unfolding mark_slots mark_value
mark_slots-Tricolour [] os h = h
mark_slots-Tricolour (ref p ∷ vs) os h =
    mark_slots-Tricolour vs (mark_object p os) (mark_object-Tricolour p os h)
mark_slots-Tricolour (plain ∷ vs) os h = mark_slots-Tricolour vs os h

pub Advances-get_elem? :
    (os os' : List Object) (i : ℕ) (o : Object)
    → Advances os os'
    → get_elem? os i ≡ some o
    → (o' : Object) × (get_elem? os' i ≡ some o') × Advance o o'
Advances-get_elem? [] os' i o h e = cc
Advances-get_elem? (x ∷ os) [] i o h e = absurd h
Advances-get_elem? (x ∷ os) (x' ∷ os') zero o h e =
    (x', refl, subst (λ y. Advance y x') (some_inj e) h.0)
Advances-get_elem? (x ∷ os) (x' ∷ os') (suc i) o h e = Advances-get_elem? os os' i o h.1 e

pub Advances-length : (os os' : List Object) → Advances os os' → length os' ≡ length os
Advances-length [] [] h = refl
Advances-length [] (_ ∷ _) h = absurd h
Advances-length (_ ∷ _) [] h = absurd h
Advances-length (o ∷ os) (o' ∷ os') h = ap suc (Advances-length os os' h.1)
