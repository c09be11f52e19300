-- ===== src/Cfg/Slices.antt =====
-- The blocks as slices of the list, cut at the leaders.
use saqut.Prelude.{
  ℕ, zero, suc, ◌+◌, ◌-◌, ◌≤◌, ◌≡◌, refl, sym, ap, ◌∙◌, none, some, List, [], ◌∷◌, ◌++◌, length,
  take, drop, take-append-drop, length-take, length-drop, arith, inl, inr, false, Bool-cases,
  if◌then◌else◌, append-nil,
}
use saqut.Prelude.Int.{pos, eqb_ℤ}
use saqut.Ir.{Instruction}
use saqut.Cfg.{BasicBlock, make_block, make_blocks, target_index, find_start}
use saqut.Cfg.Leaders.{Ascends, In}

abbrev pub bodies : List BasicBlock → List Instruction
bodies [] = []
bodies (b ∷ bs) = b.instructions ++ bodies bs

module _ {ℓ} {A : Type ℓ} where
  drop-nil : (k : ℕ) → drop {A = A} k [] ≡ []
  drop-nil zero = refl
  drop-nil (suc k) = refl

  drop-drop : (l m : ℕ) (xs : List A) → l ≤ m → drop (m - l) (drop l xs) ≡ drop m xs
  drop-drop zero m xs h = ap (λ i. drop i xs) (minus-zero m)
    where
      minus-zero : (m : ℕ) → m - 0 ≡ m
      minus-zero m = omega arith
  drop-drop (suc l) zero xs h = absurd (omega arith)
  drop-drop (suc l) (suc m) [] h = drop-nil (suc m - suc l)
  drop-drop (suc l) (suc m) (x ∷ xs) h =
      ap (λ i. drop i (drop l xs)) (pred-minus l m) ∙ drop-drop l m xs (omega arith)
    where
      pred-minus : (l m : ℕ) → suc m - suc l ≡ m - l
      pred-minus l m = omega arith

  take-all : (k : ℕ) (xs : List A) → length xs ≤ k → take k xs ≡ xs
  take-all zero [] h = refl
  take-all zero (x ∷ xs) h = absurd (omega arith)
  take-all (suc k) [] h = refl
  take-all (suc k) (x ∷ xs) h = ap (λ ys. x ∷ ys) (take-all k xs (omega arith))

-- The slices from a leader on make up the rest of the list.
pub make_blocks-bodies :
    (insns : List Instruction) (id l a : ℕ) (rest : List ℕ)
    → Ascends a (l ∷ rest) (length insns)
    → bodies (make_blocks insns id (l ∷ rest)) ≡ drop l insns
unfolding make_blocks make_block
make_blocks-bodies insns id l a [] h =
    append-nil _ ∙ take-all (length insns - l) (drop l insns) (omega (arith, length-drop l insns))
make_blocks-bodies insns id l a (m ∷ rest) h =
    ap (λ ys. take (m - l) (drop l insns) ++ ys)
      (make_blocks-bodies insns (id + 1) m l rest h.2 ∙ sym (drop-drop l m insns h.2.0))
    ∙ take-append-drop (m - l) (drop l insns)

-- The leader that `find_start` finds is the number of instructions before its block.
pub find_start-target_index :
    (insns : List Instruction) (id l a t i : ℕ) (rest : List ℕ)
    → Ascends a (l ∷ rest) (length insns)
    → In t (l ∷ rest)
    → (k : ℕ) × (find_start (pos t) i (make_blocks insns id (l ∷ rest)) ≡ some (i + k))
      × (l + target_index k (make_blocks insns id (l ∷ rest)) ≡ t)
unfolding make_blocks make_block find_start target_index
find_start-target_index insns id l a t i [] h k = elim k [
  | inl e ↦ (0, found e, omega arith)
  | inr none_left ↦ absurd none_left
]
  where
    found : l ≡ t → (if eqb_ℤ (pos l) (pos t) then some i else none) ≡ some (i + 0)
    found e = ground arith
find_start-target_index insns id l a t i (m ∷ rest) h k =
    elim (Bool-cases (eqb_ℤ (pos l) (pos t))) [
      | inl e ↦ (0, rw e (cc (plus-zero i)), ground (arith, e))
      | inr e ↦
          let (n, found, count) =
            find_start-target_index insns (id + 1) m l t (i + 1) rest h.2 (later e k) in
          (
            suc n,
            rw e (found ∙ ap some (next-index i n)),
            omega (arith, count, h, length-take (m - l) (drop l insns), length-drop l insns),
          )
    ]
  where
    plus-zero : (i : ℕ) → i ≡ i + 0
    plus-zero i = omega arith

    next-index : (i n : ℕ) → i + 1 + n ≡ i + suc n
    next-index i n = omega arith

    later : eqb_ℤ (pos l) (pos t) ≡ false → In t (l ∷ m ∷ rest) → In t (m ∷ rest)
    later e (inl here) = absurd (ground (arith, e, here))
    later e (inr there) = there
