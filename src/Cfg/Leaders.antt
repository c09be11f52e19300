-- ===== src/Cfg/Leaders.antt =====
-- The set of leaders that `findLeaders` collects.
use saqut.Prelude.{
  ℕ, ◌+◌, ◌≤◌, ◌≡◌, refl, sym, Bool, true, false, not, ◌&&◌, List, [], ◌∷◌, ◌⊎◌, inl, inr, ltb,
  ltb→lt, ltb→le, ==_iff, ◌==◌, if_split, length, arith, All,
}
use saqut.Prelude.Int.{is_neg, pos_part}
use saqut.Ir.{Instruction}
use saqut.Cfg.{
  is_terminator, is_jump, is_conditional, insert, insert_if, leaders_from, find_leaders,
}

-- Ascending from `a`, and at most `n`.
abbrev pub Ascends : ℕ → List ℕ → ℕ → Type 0
Ascends a [] n = Unit
Ascends a (x ∷ xs) n = (a ≤ x) × (x ≤ n) × Ascends x xs n

abbrev pub In : ℕ → List ℕ → Type 0
In t [] = ⊥
In t (x ∷ xs) = (x ≡ t) ⊎ In t xs

abbrev pub StartsAtZero : List ℕ → Type 0
StartsAtZero [] = ⊥
StartsAtZero (x ∷ xs) = x ≡ 0

insert-Ascends :
    (a i n : ℕ) (xs : List ℕ) → a ≤ i → i ≤ n → Ascends a xs n → Ascends a (insert i xs) n
unfolding insert
insert-Ascends a i n [] p q h = (p, q, tt)
insert-Ascends a i n (x ∷ xs) p q h =
    if_split (λ s. Ascends a s n) (ltb i x) (λ t. (p, q, (omega (arith, ltb→lt i x t), h.1, h.2)))
      (λ t.
        if_split (λ s. Ascends a s n) (i == x) (λ _. h)
          (λ _. (h.0, h.1, insert-Ascends x i n xs (ltb→le i x t) q h.2)))

insert-In : (t i : ℕ) (xs : List ℕ) → In t xs → In t (insert i xs)
unfolding insert
insert-In t i [] h = absurd h
insert-In t i (x ∷ xs) h =
    if_split (In t) (ltb i x) (λ _. inr h)
      (λ _.
        if_split (In t) (i == x) (λ _. h)
          (λ _. elim h [ inl e ↦ inl e | inr k ↦ inr (insert-In t i xs k) ]))

insert-here : (i : ℕ) (xs : List ℕ) → In i (insert i xs)
unfolding insert
insert-here i [] = inl refl
insert-here i (x ∷ xs) =
    if_split (In i) (ltb i x) (λ _. inl refl)
      (λ _.
        if_split (In i) (i == x) (λ e. inl (sym ((==_iff i x).0 e))) (λ _. inr (insert-here i xs)))

insert-StartsAtZero : (i : ℕ) (xs : List ℕ) → StartsAtZero xs → StartsAtZero (insert i xs)
unfolding insert
insert-StartsAtZero i [] h = absurd h
insert-StartsAtZero i (x ∷ xs) h =
    if_split StartsAtZero (ltb i x) (λ t. absurd (omega (arith, ltb→lt i x t, h)))
      (λ _. if_split StartsAtZero (i == x) (λ _. h) (λ _. h))

-- What the set is at every point of the loop.
pub record IsLeaders (n : ℕ) (set : List ℕ) : Type 0 where
  pub ascends : Ascends 0 set n
  pub starts : StartsAtZero set

insert_if-IsLeaders :
    (b : Bool) (i n : ℕ) (set : List ℕ)
    → (b ≡ true → i ≤ n)
    → IsLeaders n set
    → IsLeaders n (insert_if b i set)
insert_if-IsLeaders true i n set p h = record {
  ascends = insert-Ascends 0 i n set (omega arith) (p refl) h.ascends;
  starts = insert-StartsAtZero i set h.starts;
}
insert_if-IsLeaders false i n set p h = h

insert_if-In : (b : Bool) (t i : ℕ) (set : List ℕ) → In t set → In t (insert_if b i set)
insert_if-In true t i set h = insert-In t i set h
insert_if-In false t i set h = h

insert_if-here : (b : Bool) (i : ℕ) (set : List ℕ) → b ≡ true → In i (insert_if b i set)
insert_if-here true i set h = insert-here i set
insert_if-here false i set h = cc

-- Whether an instruction is a jump that has a target.
abbrev pub jumps : Instruction → Bool
jumps ins = is_jump ins.opcode && not (is_neg ins.jump_target)

-- No jump leads past the end of the list.
abbrev pub InRange : ℕ → List Instruction → Type 0
InRange n = All (λ ins. jumps ins ≡ true → pos_part ins.jump_target ≤ n)

&&-right : (a b : Bool) → (a && b) ≡ true → b ≡ true
&&-right true b h = h
&&-right false b h = cc

next-le : (a : Bool) (i n : ℕ) → (a && ltb (i + 1) n) ≡ true → i + 1 ≤ n
next-le a i n h = omega (arith, ltb→lt (i + 1) n (&&-right a _ h))

pub leaders_from-IsLeaders :
    (n i : ℕ) (insns : List Instruction) (set : List ℕ)
    → InRange n insns
    → IsLeaders n set
    → IsLeaders n (leaders_from n i insns set)
unfolding leaders_from
leaders_from-IsLeaders n i [] set r h = h
leaders_from-IsLeaders n i (ins ∷ rest) set r h = leaders_from-IsLeaders n (i + 1) rest _ r.1 (
    insert_if-IsLeaders (is_conditional ins.opcode && ltb (i + 1) n) (i + 1) n _ (next-le _ i n) (
      insert_if-IsLeaders (jumps ins) (pos_part ins.jump_target) n _ r.0 (
        insert_if-IsLeaders (is_terminator ins.opcode && ltb (i + 1) n) (i + 1) n set
          (next-le _ i n) h)))

leaders_from-In :
    (t n i : ℕ) (insns : List Instruction) (set : List ℕ)
    → In t set
    → In t (leaders_from n i insns set)
unfolding leaders_from
leaders_from-In t n i [] set h = h
leaders_from-In t n i (ins ∷ rest) set h = leaders_from-In t n (i + 1) rest _ (
    insert_if-In (is_conditional ins.opcode && ltb (i + 1) n) t (i + 1) _ (
      insert_if-In (jumps ins) t (pos_part ins.jump_target) _
        (insert_if-In (is_terminator ins.opcode && ltb (i + 1) n) t (i + 1) set h)))

leaders_from-jumps :
    (n i : ℕ) (insns : List Instruction) (set : List ℕ)
    → All
        (λ ins. jumps ins ≡ true → In (pos_part ins.jump_target) (leaders_from n i insns set))
        insns
unfolding leaders_from
leaders_from-jumps n i [] set = tt
leaders_from-jumps n i (ins ∷ rest) set = (
  λ j. leaders_from-In (pos_part ins.jump_target) n (i + 1) rest _ (
      insert_if-In (is_conditional ins.opcode && ltb (i + 1) n) (pos_part ins.jump_target) (i + 1) _
        (insert_if-here (jumps ins) (pos_part ins.jump_target) _ j)),
  leaders_from-jumps n (i + 1) rest _,
)

pub find_leaders-IsLeaders :
    (ins : Instruction) (rest : List Instruction)
    → InRange (length (ins ∷ rest)) (ins ∷ rest)
    → IsLeaders (length (ins ∷ rest)) (find_leaders (ins ∷ rest))
unfolding find_leaders insert
find_leaders-IsLeaders ins rest r =
    leaders_from-IsLeaders (length (ins ∷ rest)) 0 (ins ∷ rest) (0 ∷ []) r
      (record { ascends = (omega arith, omega arith, tt); starts = refl })

pub find_leaders-jumps :
    (insns : List Instruction)
    → All (λ ins. jumps ins ≡ true → In (pos_part ins.jump_target) (find_leaders insns)) insns
unfolding find_leaders
find_leaders-jumps [] = tt
find_leaders-jumps (ins ∷ rest) =
    leaders_from-jumps (length (ins ∷ rest)) 0 (ins ∷ rest) (insert 0 [])
