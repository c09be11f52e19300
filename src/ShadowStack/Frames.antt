-- ===== src/ShadowStack/Frames.antt =====
-- Calls on the shadow stack: a base on entry, writes, and the way back to the base.
use saqut.Prelude.{
  ℕ, zero, suc, ◌+◌, ◌-◌, ◌≤◌, ◌<◌, ◌≡◌, refl, ap, ◌∙◌, Option, none, some, List, [], ◌∷◌, ◌++◌,
  leb, if_split, length, take, set, replicate, get_elem?, arith, append-nil, length-append,
  length-take, length-replicate, length-set,
}
use saqut.Prelude.Int.{pos}
use saqut.ShadowStack.{Slots, resize, enter, leave, set_slot}

-- The writes of a function, in order.
abbrev pub Writes : Type 0
Writes = List (ℕ × Option ℕ)

abbrev pub write_all : Writes → Slots → Slots
write_all [] xs = xs
write_all ((i, obj) ∷ ws) xs = write_all ws (set_slot (pos i) obj xs)

-- Every write is at the base or above it.
abbrev pub Above : ℕ → Writes → Type 0
Above base [] = Unit
Above base ((i, obj) ∷ ws) = (base ≤ i) × Above base ws

module _ {ℓ} {A : Type ℓ} where
  take-set : (n i : ℕ) (v : A) (xs : List A) → n ≤ i → take n (set xs i v) ≡ take n xs
  take-set zero i v xs h = refl
  take-set (suc n) i v [] h = refl
  take-set (suc n) zero v (x ∷ xs) h = absurd (omega arith)
  take-set (suc n) (suc i) v (x ∷ xs) h = ap (λ ys. x ∷ ys) (take-set n i v xs (omega arith))

  take-append : (n : ℕ) (xs ys : List A) → n ≤ length xs → take n (xs ++ ys) ≡ take n xs
  take-append zero xs ys h = refl
  take-append (suc n) [] ys h = absurd (omega arith)
  take-append (suc n) (x ∷ xs) ys h = ap (λ zs. x ∷ zs) (take-append n xs ys (omega arith))

  take-take : (n m : ℕ) (xs : List A) → n ≤ m → take n (take m xs) ≡ take n xs
  take-take zero m xs h = refl
  take-take (suc n) zero xs h = absurd (omega arith)
  take-take (suc n) (suc m) [] h = refl
  take-take (suc n) (suc m) (x ∷ xs) h = ap (λ ys. x ∷ ys) (take-take n m xs (omega arith))

  get_elem?-set : (xs : List A) (i : ℕ) (v : A) → i < length xs → get_elem? (set xs i v) i ≡ some v
  get_elem?-set [] i v h = absurd (omega arith)
  get_elem?-set (x ∷ xs) zero v h = refl
  get_elem?-set (x ∷ xs) (suc i) v h = get_elem?-set xs i v (omega arith)

  take_all : (xs : List A) → take (length xs) xs ≡ xs
  take_all [] = refl
  take_all (x ∷ xs) = ap (λ ys. x ∷ ys) (take_all xs)

take-resize : (n m : ℕ) (xs : Slots) → n ≤ length xs → n ≤ m → take n (resize m xs) ≡ take n xs
take-resize n m xs h k =
    take-append n (take m xs) _ (omega (arith, length-take m xs)) ∙ take-take n m xs k

-- A write above the base keeps what is below it.
take-set_slot :
    (n i : ℕ) (obj : Option ℕ) (xs : Slots)
    → n ≤ i
    → n ≤ length xs
    → (take n (set_slot (pos i) obj xs) ≡ take n xs) × (n ≤ length (set_slot (pos i) obj xs))
unfolding set_slot
take-set_slot n i obj xs h k =
    if_split (λ (ys : Slots). (take n ys ≡ take n xs) × (n ≤ length ys)) (leb (length xs) i)
      (λ _. (
        take-set n i obj (resize (i + 1) xs) h ∙ take-resize n (i + 1) xs k (omega arith),
        omega (
          arith,
          length-set (resize (i + 1) xs) i obj,
          length-append (take (i + 1) xs) (replicate (i + 1 - length xs) none),
          length-take (i + 1) xs,
        ),
      ))
      (λ _. (take-set n i obj xs h, omega (arith, length-set xs i obj)))

take-write_all :
    (n : ℕ) (ws : Writes) (xs : Slots)
    → Above n ws
    → n ≤ length xs
    → (take n (write_all ws xs) ≡ take n xs) × (n ≤ length (write_all ws xs))
take-write_all n [] xs h k = (refl, k)
take-write_all n ((i, obj) ∷ ws) xs h k =
    let one = take-set_slot n i obj xs h.0 k in
    let rest = take-write_all n ws (set_slot (pos i) obj xs) h.1 one.1 in (rest.0 ∙ one.0, rest.1)

minus_self : (n m : ℕ) → n ≤ m → n - m ≡ 0
minus_self n m h = omega arith

-- A function that notes the base on entry, writes references at or above it in any order, and
-- leaves to the base, gives its caller the slots back as they were.
pub leave-write_all :
    (ws : Writes) (xs : Slots) → Above (enter xs) ws → leave (pos (enter xs)) (write_all ws xs) ≡ xs
unfolding leave
leave-write_all ws xs h =
    let kept = take-write_all (length xs) ws xs h (omega arith) in
    if_split (λ (ys : Slots). ys ≡ xs) (leb (length xs) (length (write_all ws xs)))
      (λ _.
        ap (λ k. take (length xs) (write_all ws xs) ++ replicate k none) (minus_self _ _ kept.1)
        ∙ append-nil _
        ∙ kept.0
        ∙ take_all xs)
      (λ b. absurd (ground (arith, b, kept.1)))

-- A reference that is written at an index stands at that index, whether the slots had to grow or
-- not.
pub get_elem?-set_slot :
    (i : ℕ) (obj : Option ℕ) (xs : Slots) → get_elem? (set_slot (pos i) obj xs) i ≡ some obj
unfolding set_slot
get_elem?-set_slot i obj xs =
    if_split (λ (ys : Slots). get_elem? ys i ≡ some obj) (leb (length xs) i)
      (λ _. get_elem?-set (resize (i + 1) xs) i obj (
        omega (
          arith,
          length-append (take (i + 1) xs) (replicate (i + 1 - length xs) none),
          length-take (i + 1) xs,
          length-replicate {A = Option ℕ} (i + 1 - length xs) none,
        )))
      (λ b. get_elem?-set xs i obj (ground (arith, b)))
