-- ===== src/Gc/Reach.antt =====
-- What the roots reach, and how marking colours it.
use saqut.Prelude.{
  ℕ, zero, suc, ◌+◌, ◌≡◌, ◌<◌, refl, sym, ◌∙◌, true, false, some, List, [], ◌∷◌, ◌++◌, ◌⊎◌, inl,
  inr, arith, length, get_elem?, All, All-get_elem?,
}
use mathlib.Core.Path.{subst}
use saqut.Gc.{
  Object, Value, ref, plain, is_white, is_grey, is_black, sweep_list, Roots, mark_slots,
  mark_frames, mark_roots, pending_values, shadow_values, traced, grey_at,
}
use saqut.Gc.Colour.{Advances, Advances-get_elem?, Shaded, NonWhite, BlackOk, MarkedOk, Tricolour}
use saqut.Gc.Drain.{NoGrey}
use saqut.Gc.Sweep.{Survives, sweep_list-Survives}

abbrev pub RefIn : ℕ → List Value → Type 0
RefIn p [] = ⊥
RefIn p (v ∷ vs) = (v ≡ ref p) ⊎ RefIn p vs

-- The addresses that the roots reach through the references that the collector traces.
pub data Reaches (roots : List Value) (os : List Object) : ℕ → Type 0 where
  root : (p : ℕ) → RefIn p roots → Reaches roots os p
  step :
      (p i : ℕ) (o : Object)
      → get_elem? os i ≡ some o
      → Reaches roots os o.address
      → RefIn p (traced o)
      → Reaches roots os p

-- All the roots, in the order in which they are marked.
abbrev pub frame_values : List (List Value) → List Value
frame_values [] = []
frame_values (slots ∷ rest) = slots ++ frame_values rest

abbrev pub root_values : Roots → List Value
root_values r =
    r.globals ++ frame_values r.frames ++ pending_values r.pending_throw ++ shadow_values r.shadow

mark_slots-append :
    (vs ws : List Value) (os : List Object)
    → mark_slots (vs ++ ws) os ≡ mark_slots ws (mark_slots vs os)
unfolding mark_slots
mark_slots-append [] ws os = refl
mark_slots-append (v ∷ vs) ws os = mark_slots-append vs ws _

mark_frames_lem :
    (fs : List (List Value)) (os : List Object)
    → mark_frames fs os ≡ mark_slots (frame_values fs) os
unfolding mark_frames mark_slots
mark_frames_lem [] os = refl
mark_frames_lem (f ∷ fs) os = mark_frames_lem fs _ ∙ sym (mark_slots-append f (frame_values fs) os)

pub mark_roots_lem :
    (r : Roots) (os : List Object) → mark_roots r os ≡ mark_slots (root_values r) os
unfolding mark_roots
mark_roots_lem r os = simp (mark_slots-append, mark_frames_lem)

Shaded-RefIn :
    (p : ℕ) (vs : List Value) (os : List Object) → Shaded vs os → RefIn p vs → NonWhite p os
Shaded-RefIn p [] os h r = absurd r
Shaded-RefIn p (ref q ∷ vs) os h (inl e) = subst (λ x. NonWhite x os) (cc) h.0
Shaded-RefIn p (ref q ∷ vs) os h (inr r) = Shaded-RefIn p vs os h.1 r
Shaded-RefIn p (plain ∷ vs) os h (inl e) = cc
Shaded-RefIn p (plain ∷ vs) os h (inr r) = Shaded-RefIn p vs os h r

i+0 : (i : ℕ) → i + 0 ≡ i
i+0 i = omega arith

0+i : (i : ℕ) → 0 + i ≡ i
0+i i = omega arith

i+suc : (i k : ℕ) → i + suc k ≡ i + 1 + k
i+suc i k = omega arith

NoGrey-get_elem? :
    (left i k : ℕ) (os : List Object) (o : Object)
    → NoGrey left i os
    → k < left
    → get_elem? os (i + k) ≡ some o
    → is_grey o.mark_state ≡ false
NoGrey-get_elem? zero i k os o h l e = absurd (omega arith)
NoGrey-get_elem? (suc left) i zero os o h l e =
    let here : grey_at (some o) ≡ 0 = cc (h.0, e, i+0 i) in ground arith
NoGrey-get_elem? (suc left) i (suc k) os o h l e =
    NoGrey-get_elem? left (i + 1) k os o h.1 (omega arith) (cc (e, i+suc i k))

get_elem?-lt {ℓ} :
    {A : Type ℓ} (xs : List A) (i : ℕ) (x : A) → get_elem? xs i ≡ some x → i < length xs
get_elem?-lt [] i x e = cc
get_elem?-lt (y ∷ xs) zero x e = omega arith
get_elem?-lt (y ∷ xs) (suc i) x e = omega (arith, get_elem?-lt xs i x e)

-- Where the roots are shaded and nothing is grey, what is reached is not white.
Reaches-NonWhite :
    (roots : List Value) (os : List Object)
    → Shaded roots os
    → Tricolour os
    → NoGrey (length os) 0 os
    → {p : ℕ} → Reaches roots os p
    → NonWhite p os
Reaches-NonWhite roots os s t g (root p r) = Shaded-RefIn p roots os s r
Reaches-NonWhite roots os s t g (step p i o e h r) =
    let not_white : is_white o.mark_state ≡ false =
      All-get_elem? _ os i o (Reaches-NonWhite roots os s t g h) e refl in
    let not_grey =
      NoGrey-get_elem? (length os) 0 i os o g (get_elem?-lt os i o e) (cc (e, 0+i i)) in
    let black_o : is_black o.mark_state ≡ true = ground arith in
    Shaded-RefIn p (traced o) os (All-get_elem? (BlackOk os) os i o t.0 e black_o) r

pub Reaches-Advances :
    (roots : List Value) (os os' : List Object)
    → Advances os os'
    → {p : ℕ} → Reaches roots os p
    → Reaches roots os' p
Reaches-Advances roots os os' a (root p r) = root p r
Reaches-Advances roots os os' a (step p i o e h r) =
    let (o', e', b) = Advances-get_elem? os os' i o a e in
    step p i o' e'
      (subst (Reaches roots os') (sym b.same_address) (Reaches-Advances roots os os' a h))
      (subst (RefIn p) (cc (b.same_kind, b.same_values)) r)

-- What an object needs for the collector to keep it.
pub Reaches-kept :
    (roots : List Value) (os : List Object) (i : ℕ) (o : Object)
    → Shaded roots os
    → Tricolour os
    → NoGrey (length os) 0 os
    → get_elem? os i ≡ some o
    → Reaches roots os o.address
    → Survives o (sweep_list os).0
Reaches-kept roots os i o s t g e h =
    let not_white : is_white o.mark_state ≡ false =
      All-get_elem? _ os i o (Reaches-NonWhite roots os s t g h) e refl in
    let agrees = All-get_elem? MarkedOk os i o t.1 e in sweep_list-Survives os i o e (ground arith)

i+1 : (i : ℕ) → i + 1 ≡ suc i
i+1 i = omega arith

grey_at-false : (o : Object) → grey_at (some o) ≡ 0 → is_grey o.mark_state ≡ false
grey_at-false o h = ground arith

-- The absence of grey objects, as a property of each object.
NoGrey-drop :
    (left i : ℕ) (o : Object) (os : List Object) → NoGrey left (i + 1) (o ∷ os) → NoGrey left i os
NoGrey-drop zero i o os h = tt
NoGrey-drop (suc left) i o os h = (cc (h.0, i+1 i), NoGrey-drop left (i + 1) o os h.1)

pub NoGrey-All :
    (os : List Object) → NoGrey (length os) 0 os → All (λ o. is_grey o.mark_state ≡ false) os
NoGrey-All [] h = tt
NoGrey-All (o ∷ os) h = (grey_at-false o h.0, NoGrey-All os (NoGrey-drop (length os) 0 o os h.1))
