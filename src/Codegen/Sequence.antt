-- ===== src/Codegen/Sequence.antt =====
-- Code that runs after the code of an operand.
use mathlib.Core.Path.{subst}
use saqut.Prelude.{
  get_elem?-set_self, ℕ, ◌+◌, ◌≤◌, ◌<◌, ◌≡◌, refl, sym, ◌∙◌, Option, none, some, List, ◌++◌, length,
  arith, get_elem?, set, length-append,
}
use saqut.Prelude.Int.{ℤ}
use saqut.Types.{Text}
use saqut.Ir.{Instruction}
use saqut.Vm.Value.{Value, int}
use saqut.Vm.Store.{Store}
use saqut.Vm.Platform.{Platform}
use saqut.Vm.Machine.{Program}
use saqut.Codegen.{Place, local, global}
use saqut.Codegen.Compile.{Compiled, compiled}
use saqut.Codegen.Steps.{Setting}
use saqut.Codegen.Moves.{Goes}
use saqut.Codegen.Ran.{
  CodeAt, right_code, Same, Same-set, PlaceHolds, Ran, returns, fails, Ran-after,
}

pub Same-refl : (n : ℕ) (s : List Value) → Same n s s
Same-refl n s = record { same_length = refl; same_slot = λ k l. refl }

PlaceHolds-Same :
    (globals : List Value) (n m : ℕ) (s s' : List Value) (x : Place) (v : ℤ)
    → n ≤ m
    → Same n s s'
    → PlaceHolds globals n s x v
    → PlaceHolds globals m s' x v
PlaceHolds-Same globals n m s s' (local k) v l same (b, e) = (omega arith, same.same_slot k b ∙ e)
PlaceHolds-Same globals n m s s' (global k) v l same e = e

module _ (p : Platform) (prog : Program) (st : Setting) where
  -- An operand's code, and what runs after it where the operand has a value.
  pub Ran-then :
      (h : Store) (k : ℕ) (s : List Value) (mid stop r result n n' : ℕ) (o o' : Option ℤ)
      → n ≤ n'
      → Ran p prog st h k s mid r n o
      → (o ≡ none → o' ≡ none)
      → ((v : ℤ) (h' : Store) (s' : List Value)
          → o ≡ some v
          → get_elem? s' r ≡ some (int v)
          → Same n s s'
          → Ran p prog st h' mid s' stop result n' o')
      → Ran p prog st h k s stop result n o'
  Ran-then h k s mid stop r result n n' o o' l (returns {v} h' s' g x same) hn hs =
      Ran-after p prog st h k s h' mid s' stop result n n' o' l g same (hs v h' s' refl x same)
  Ran-then h k s mid stop r result n n' o o' l (fails h' k' s' g d) hn hs =
      subst (Ran p prog st h k s stop result n) (sym (hn refl)) (fails h' k' s' g d)

  -- Rounds that end with a value written to a slot from `n` on.
  pub Goes-Ran :
      (h h' : Store) (k k' : ℕ) (s s' : List Value) (d n : ℕ) (v : ℤ)
      → Goes p prog st h k s h' k' (set s' d (int v))
      → Same n s s'
      → n ≤ d
      → d < length s
      → Ran p prog st h k s k' d n (some v)
  Goes-Ran h h' k k' s s' d n v g same l b =
      returns h' (set s' d (int v)) g
        (get_elem?-set_self s' d (int v) (omega (arith, same.same_length)))
        (Same-set n d s s' (int v) l same)

  module _ (place : Text → Place) (env : Text → ℤ) where
    abbrev pub Holds : ℕ → List Value → Type 0
    Holds n s = (x : Text) → PlaceHolds st.globals n s (place x) (env x)

    pub Holds-Same : (n m : ℕ) (s s' : List Value) → n ≤ m → Same n s s' → Holds n s → Holds m s'
    Holds-Same n m s s' l same holds x =
        PlaceHolds-Same st.globals n m s s' (place x) (env x) l same (holds x)

    -- The code at `start` leaves a value in its slot, from any slots in which the names have theirs.
    abbrev pub Computes : ℕ → ℕ → Compiled → Option ℤ → Type 0
    Computes start n c o =
        (h : Store) (s : List Value)
        → Holds n s
        → c.next ≤ length s
        → Ran p prog st h start s (start + length c.code) c.result n o

    pub Computes-then :
        (start n : ℕ) (c : Compiled) (o o' : Option ℤ) (rest : List Instruction) (next result : ℕ)
        → n ≤ c.next
        → c.next ≤ next
        → CodeAt st.function.instructions start (c.code ++ rest)
        → Computes start n c o
        → (o ≡ none → o' ≡ none)
        → ((v : ℤ)
            → o ≡ some v
            → CodeAt st.function.instructions (start + length c.code) rest
            → (h : Store) (s : List Value) → Holds c.next s
            → get_elem? s c.result ≡ some (int v)
            → next ≤ length s
            → Ran p prog st h
                (start + length c.code)
                s
                (start + length c.code + length rest)
                result
                c.next
                o')
        → Computes start n (compiled (c.code ++ rest) next result) o'
    Computes-then start n c o o' rest next result l l' code run hn hs h s holds fits =
        let e : start + length (c.code ++ rest) ≡ start + length c.code + length rest =
          omega (arith, length-append c.code rest) in
        rw e (
          Ran-then h start s (start + length c.code) (start + length c.code + length rest) c.result
            result n c.next o o' l (run h s holds (omega arith)) hn
            λ v h' s' e x same.
              hs v e (right_code st.function.instructions start c.code rest code) h' s'
                (Holds-Same n c.next s s' l same holds) x (omega (arith, same.same_length)))
