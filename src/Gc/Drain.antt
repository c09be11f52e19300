-- ===== src/Gc/Drain.antt =====
-- `drainGrey`: one visit, the loop, and the count that it returns.
use saqut.Prelude.{
  ℕ, zero, suc, ◌+◌, ◌≤◌, ◌<◌, ◌≡◌, refl, sym, true, Option, none, some, List, ltb, lt→ltb, arith,
  get_elem?, set, All-set, All-get_elem?, inl, inr, if_split, Option-cases,
}
use saqut.Gc.{
  Object, is_grey, mark_slots, traced, mark_children, blacken, drain_at, grey_at, drain_grey,
}
use saqut.Gc.Colour.{
  Advance, Advances, Advances-refl, Advances-trans, Advances-set, Advances-get_elem?,
  mark_slots-Advances, mark_slots-Shaded, mark_slots-Tricolour, Shaded-Advances, BlackOk,
  BlackOk-Advances, MarkedOk, Tricolour,
}

-- Blackening an object whose children are shaded.
blacken-Advance : (o o' : Object) → Advance o o' → Advance o' (blacken o)
blacken-Advance o o' h = record {
  same_address = sym h.same_address;
  same_kind = sym h.same_kind;
  same_values = sym h.same_values;
  darker = λ _. refl;
}

blacken-MarkedOk : (o : Object) → is_grey o.mark_state ≡ true → MarkedOk o → MarkedOk (blacken o)
blacken-MarkedOk o g h = ground arith

-- What a visit does to the list: colours advance, and the invariant is kept.
pub record Keeps (os os' : List Object) : Type 0 where
  pub advances : Advances os os'
  pub tricolour : Tricolour os → Tricolour os'

Keeps-refl : (os : List Object) → Keeps os os
Keeps-refl os = record { advances = Advances-refl os; tricolour = λ h. h }

Keeps-trans : (a b c : List Object) → Keeps a b → Keeps b c → Keeps a c
Keeps-trans a b c h k = record {
  advances = Advances-trans a b c h.advances k.advances;
  tricolour = λ t. k.tricolour (h.tricolour t);
}

blackened-Keeps :
    (os : List Object) (i : ℕ) (o : Object)
    → get_elem? os i ≡ some o
    → is_grey o.mark_state ≡ true
    → Keeps os (set (mark_children o os) i (blacken o))
unfolding mark_children
blackened-Keeps os i o at g =
    let m = mark_slots (traced o) os in
    let adv = mark_slots-Advances (traced o) os in
    let found = Advances-get_elem? os m i o adv at in
    let step = Advances-set m i found.0 (blacken o) found.1 (blacken-Advance o found.0 found.2) in
    record {
      advances = Advances-trans os m _ adv step;
      tricolour = λ h.
          let k = mark_slots-Tricolour (traced o) os h in
          (
            All-set (BlackOk _) m i (blacken o) (BlackOk-Advances m _ m step k.0)
                (λ _. Shaded-Advances (traced o) m _ step (mark_slots-Shaded (traced o) os)),
            All-set MarkedOk m i (blacken o) k.1
                (blacken-MarkedOk o g (All-get_elem? MarkedOk os i o h.1 at)),
          );
    }

drain_at-Keeps : (i : ℕ) (os : List Object) → Keeps os (drain_at i (get_elem? os i) os)
unfolding drain_at
drain_at-Keeps i os = elim (Option-cases (get_elem? os i)) [
  | inl e ↦ rw e (Keeps-refl os)
  | inr (o, e) ↦ rw e (
      if_split (Keeps os) (is_grey o.mark_state) (λ g. blackened-Keeps os i o e g)
        (λ _. Keeps-refl os))
]

pub drain_grey-Keeps :
    (budget left i processed : ℕ) (os : List Object)
    → Keeps os (drain_grey budget left i processed os).0
unfolding drain_grey
drain_grey-Keeps budget zero i processed os = Keeps-refl os
drain_grey-Keeps budget (suc left) i processed os =
    if_split (λ (d : List Object × ℕ). Keeps os d.0) (ltb processed budget)
      (λ _.
        Keeps-trans os _ _ (drain_at-Keeps i os)
          (drain_grey-Keeps budget left (i + 1) (processed + grey_at (get_elem? os i)) _))
      (λ _. Keeps-refl os)

-- The count never falls.
drain_grey-count :
    (budget left i processed : ℕ) (os : List Object)
    → processed ≤ (drain_grey budget left i processed os).1
unfolding drain_grey
drain_grey-count budget zero i processed os = omega arith
drain_grey-count budget (suc left) i processed os =
    if_split (λ (d : List Object × ℕ). processed ≤ d.1) (ltb processed budget)
      (λ _. omega (
        arith,
        drain_grey-count budget left (i + 1) (processed + grey_at (get_elem? os i))
            (drain_at i (get_elem? os i) os),
      ))
      (λ _. omega arith)

-- None of the `left` objects from an index on is grey.
abbrev pub NoGrey : ℕ → ℕ → List Object → Type 0
NoGrey zero i os = Unit
NoGrey (suc left) i os = (grey_at (get_elem? os i) ≡ 0) × NoGrey left (i + 1) os

grey_at-drain_at :
    (i : ℕ) (m : Option Object) (os : List Object) → grey_at m ≡ 0 → drain_at i m os ≡ os
unfolding drain_at
grey_at-drain_at i none os h = refl
grey_at-drain_at i (some o) os h = ground arith

-- With a positive budget, `drainGrey` reports nothing processed only where none of the objects
-- that it was to visit is grey, and then it leaves the list as it was.
pub drain_grey-NoGrey :
    (budget left i : ℕ) (os : List Object)
    → 0 < budget
    → (drain_grey budget left i 0 os).1 ≡ 0
    → NoGrey left i os × ((drain_grey budget left i 0 os).0 ≡ os)
unfolding drain_grey
drain_grey-NoGrey budget zero i os b h = (tt, refl)
drain_grey-NoGrey budget (suc left) i os b h =
    let g = grey_at (get_elem? os i) in
    let enough = lt→ltb 0 budget b in
    let tail_h : (drain_grey budget left (i + 1) (0 + g) (drain_at i (get_elem? os i) os)).1 ≡ 0 =
      rw enough at h in
    let none_grey : g ≡ 0 = omega (
      arith,
      tail_h,
      drain_grey-count budget left (i + 1) (0 + g) (drain_at i (get_elem? os i) os),
    ) in
    let same = grey_at-drain_at i (get_elem? os i) os none_grey in
    let rest = drain_grey-NoGrey budget left (i + 1) os b (rw (none_grey, same) at tail_h) in
    ((none_grey, rest.0), rw (enough, none_grey, same) rest.1)
