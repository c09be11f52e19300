-- ===== src/Codegen/Moves.antt =====
-- What each instruction of the generated code does to the slots of its frame.
use saqut.Prelude.{
  ℕ, suc, ◌<◌, ◌≡◌, refl, ap, ◌∙◌, Bool, true, false, not, some, List, [], ◌∷◌, length, arith,
  get_elem?, set, if◌then◌else◌, some_inj,
}
use saqut.Prelude.Int.{ℤ, pos}
use saqut.Ir.{Opcode, jif_false, jif_true}
use saqut.Folding.{TokenType, run_binary, complement, is_zero}
use saqut.Vm.Value.{Value, int, is_truthy_value}
use saqut.Vm.Store.{Store}
use saqut.Vm.Platform.{Platform}
use saqut.Vm.Operators.{Outcome}
use saqut.Vm.Forms.{Form, form, binary}
use saqut.Vm.Machine.{Program, write}
use saqut.Vm.Effects.{Effect, proceed, assign, complete}
use saqut.Vm.Exec.{run_form, run_get_global, jumped}
use saqut.Vm.Unwinding.{settle}
use saqut.Vm.Rounds.{more, outcome_of}
use saqut.Vm.Agreement.{binary_opcode, computed, outcome_for, computed-run_binary}
use saqut.Codegen.{load_const_to, load_slot_to, load_global_to, bnot_to, binary_op, conditional}
use saqut.Codegen.Steps.{Setting, frame_at, machine_at, free, round_of, collected, round_at}

pub get_elem?-lt {ℓ} :
    {A : Type ℓ} (xs : List A) (k : ℕ) (x : A) → get_elem? xs k ≡ some x → k < length xs
get_elem?-lt [] k x e = cc
get_elem?-lt (y ∷ xs) ℕ.zero x e = omega arith
get_elem?-lt (y ∷ xs) (suc k) x e = omega (arith, get_elem?-lt xs k x e)

get_elem?-some {ℓ} :
    {A : Type ℓ} (xs : List A) (k : ℕ) → k < length xs → (x : A) × (get_elem? xs k ≡ some x)
get_elem?-some [] k h = absurd (omega arith)
get_elem?-some (y ∷ xs) ℕ.zero h = (y, refl)
get_elem?-some (y ∷ xs) (suc k) h = get_elem?-some xs k (omega arith)

module _ (p : Platform) (prog : Program) (st : Setting) where
  -- Rounds of the machine that stay in the frame.
  pub data Goes (h : Store) (k : ℕ) (s : List Value) : Store → ℕ → List Value → Type 0 where
    stay : Goes h k s h k s
    step :
        {h' h'' : Store} {k' k'' : ℕ} {s' s'' : List Value}
        → Goes h k s h' k' s'
        → round_of p prog (machine_at st h' k' s') ≡ more free (machine_at st h'' k'' s'')
        → Goes h k s h'' k'' s''

  pub Goes-trans :
      {h : Store} {k : ℕ} {s : List Value} {h' : Store} {k' : ℕ} {s' : List Value} {h'' : Store}
      {k'' : ℕ} {s'' : List Value}
      → Goes h k s h' k' s'
      → Goes h' k' s' h'' k'' s''
      → Goes h k s h'' k'' s''
  Goes-trans g stay = g
  Goes-trans g (step g' e) = step (Goes-trans g g') e

  assign_at :
      (h : Store) (k d : ℕ) (s : List Value) (v : Value)
      → d < length s
      → assign (machine_at st h k s) (frame_at st (suc k) s) st.below (pos d) v
        ≡ proceed (machine_at st h (suc k) (set s d v))
  unfolding assign
  assign_at h k d s v l = let (old, e) = get_elem?-some s d l in rw (e, write) refl

  unless_lem :
      (h : Store) (k target : ℕ) (s : List Value) (b : Bool)
      → outcome_of free (
          settle (
            if not b
            then proceed (machine_at st h (suc k) s)
            else jumped (machine_at st h k s) (frame_at st (suc k) s) st.below (pos target)))
        ≡ more free (machine_at st h (if b then target else suc k) s)
  unfolding settle
  unless_lem h k target s true = refl
  unless_lem h k target s false = refl

  when_lem :
      (h : Store) (k target : ℕ) (s : List Value) (b : Bool)
      → outcome_of free (
          settle (
            if not b
            then jumped (machine_at st h k s) (frame_at st (suc k) s) st.below (pos target)
            else proceed (machine_at st h (suc k) s)))
        ≡ more free (machine_at st h (if b then suc k else target) s)
  unfolding settle
  when_lem h k target s true = refl
  when_lem h k target s false = refl

  form_computed :
      (fm : Form) (l r : Value) (o : Outcome)
      → computed p fm l r ≡ some o
      → (f : Platform → Value → Value → Outcome) × (fm ≡ binary f) × (f p l r ≡ o)
  form_computed (binary f) l r o e = (f, refl, some_inj e)
  form_computed _ l r o e = cc

  -- The form of a binary operator on ints.
  pub binary_runs :
      (token : TokenType) (op : Opcode) (d l r : ℕ) (a b : ℤ)
      → binary_opcode token ≡ some op
      → (h : Store) (k : ℕ) (s : List Value) → get_elem? s l ≡ some (int a)
      → get_elem? s r ≡ some (int b)
      → run_form p prog
          (machine_at st h k s)
          (frame_at st (suc k) s)
          st.below
          (binary_op op d l r)
          (form op)
        ≡ complete p
            (machine_at st h k s)
            (frame_at st (suc k) s)
            st.below
            (binary_op op d l r)
            (outcome_for token (run_binary token a b))
  unfolding run_form
  binary_runs token op d l r a b t h k s x y =
      let (f, e, o) =
        form_computed (form op) (int a) (int b) _ (computed-run_binary p token op a b t) in
      rw (e, x, y, o) refl

  module _ (h : Store) (k : ℕ) (s : List Value) where
    pub const-Goes :
        (d : ℕ) (v : ℤ)
        → get_elem? st.function.instructions k ≡ some (load_const_to d v)
        → d < length s
        → Goes h k s (collected p st h k s) (suc k) (set s d (int v))
    unfolding run_form form settle
    const-Goes d v e l = step stay (
        round_at p prog st h k s _ e (get_elem?-lt _ k _ e)
        ∙ ap (λ (x : Effect). outcome_of free (settle x))
            (assign_at (collected p st h k s) k d s (int v) l))

    pub slot-Goes :
        (d src : ℕ) (v : Value)
        → get_elem? st.function.instructions k ≡ some (load_slot_to d src)
        → get_elem? s src ≡ some v
        → d < length s
        → Goes h k s (collected p st h k s) (suc k) (set s d v)
    unfolding run_form form settle complete
    slot-Goes d src v e x l = step stay (
        round_at p prog st h k s _ e (get_elem?-lt _ k _ e)
        ∙ rw x (
            ap (λ (x : Effect). outcome_of free (settle x))
              (assign_at (collected p st h k s) k d s v l)))

    pub bnot-Goes :
        (d src : ℕ) (v : ℤ)
        → get_elem? st.function.instructions k ≡ some (bnot_to d src)
        → get_elem? s src ≡ some (int v)
        → d < length s
        → Goes h k s (collected p st h k s) (suc k) (set s d (int (complement v)))
    unfolding run_form form settle complete
    bnot-Goes d src v e x l = step stay (
        round_at p prog st h k s _ e (get_elem?-lt _ k _ e)
        ∙ rw x (
            ap (λ (x : Effect). outcome_of free (settle x))
              (assign_at (collected p st h k s) k d s (int (complement v)) l)))

    pub global-Goes :
        (d index : ℕ) (v : Value)
        → get_elem? st.function.instructions k ≡ some (load_global_to d index)
        → get_elem? st.globals index ≡ some v
        → d < length s
        → Goes h k s (collected p st h k s) (suc k) (set s d v)
    unfolding run_form form settle run_get_global
    global-Goes d index v e x l = step stay (
        round_at p prog st h k s _ e (get_elem?-lt _ k _ e)
        ∙ rw x (
            ap (λ (x : Effect). outcome_of free (settle x))
              (assign_at (collected p st h k s) k d s v l)))

    -- JIF_FALSE and JIF_TRUE, on an int.
    pub unless-Goes :
        (slot target : ℕ) (v : ℤ)
        → get_elem? st.function.instructions k ≡ some (conditional jif_false slot (pos target))
        → get_elem? s slot ≡ some (int v)
        → Goes h k s (collected p st h k s) (if is_zero v then target else suc k) s
    unfolding run_form form settle is_truthy_value
    unless-Goes slot target v e x = step stay (
        round_at p prog st h k s _ e (get_elem?-lt _ k _ e)
        ∙ rw x (unless_lem (collected p st h k s) k target s (is_zero v)))

    pub if_Goes :
        (slot target : ℕ) (v : ℤ)
        → get_elem? st.function.instructions k ≡ some (conditional jif_true slot (pos target))
        → get_elem? s slot ≡ some (int v)
        → Goes h k s (collected p st h k s) (if is_zero v then suc k else target) s
    unfolding run_form form settle is_truthy_value
    if_Goes slot target v e x = step stay (
        round_at p prog st h k s _ e (get_elem?-lt _ k _ e)
        ∙ rw x (when_lem (collected p st h k s) k target s (is_zero v)))

    -- A binary operator on ints, where it has a value.
    pub binary-Goes :
        (token : TokenType) (op : Opcode) (d l r : ℕ) (a b v : ℤ)
        → binary_opcode token ≡ some op
        → get_elem? st.function.instructions k ≡ some (binary_op op d l r)
        → get_elem? s l ≡ some (int a)
        → get_elem? s r ≡ some (int b)
        → d < length s
        → run_binary token a b ≡ some v
        → Goes h k s (collected p st h k s) (suc k) (set s d (int v))
    unfolding settle complete
    binary-Goes token op d l r a b v t e x y z w = step stay (
        round_at p prog st h k s _ e (get_elem?-lt _ k _ e)
        ∙ rw (binary_runs token op d l r a b t (collected p st h k s) k s x y, w)
            (ap (λ (x : Effect). outcome_of free (settle x))
              (assign_at (collected p st h k s) k d s (int v) z)))
