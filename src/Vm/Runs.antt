-- ===== src/Vm/Runs.antt =====
-- Runs of the interpreter (src/vm/interpreter.cpp) from `initForDebug` on, round by round.
use saqut.Prelude.{ℕ, ◌≡◌, ◌≢◌, refl, List, Option, none, some, length-replicate, some_inj}
use mathlib.Core.Path.{subst}
use saqut.Prelude.Int.{pos}
use saqut.Vm.Value.{int}
use saqut.Vm.Store.{Store}
use saqut.Vm.Platform.{Platform}
use saqut.Vm.Machine.{initial, Function, Program, Machine, find_function, init}
use saqut.Vm.Rounds.{Control, more, undefined_index, Breakpoints, round}
use saqut.Vm.Fits.{FunctionFits, ProgramFits, MachineFits}
use saqut.Vm.Progress.{RoundFits, LeavesNoHandler, round-RoundFits}

-- Rounds in a row, none of which leaves a frame with a handler of its own.
pub data Runs (p : Platform) (prog : Program) (bs : Breakpoints) (c : Control) (m : Machine)
    : Control → Machine → Type 0 where
  here : Runs p prog bs c m c m
  next :
      {c' c'' : Control} {m' m'' : Machine}
      → Runs p prog bs c m c' m'
      → LeavesNoHandler m'.call_stack m'.try_stack
      → round p prog bs c' m' ≡ more c'' m''
      → Runs p prog bs c m c'' m''

initial-MachineFits :
    (prog : Program) (heap : Store) (m : Machine) (o : Option Function)
    → ((f : Function) → o ≡ some f → FunctionFits prog f)
    → initial prog heap o ≡ some m
    → MachineFits prog m
initial-MachineFits prog heap m none pf e = cc
initial-MachineFits prog heap m (some f) pf e = subst (MachineFits prog) (some_inj e) (record {
  frames = (
    record {
      sized = length-replicate f.slot_count (int (pos 0));
      pointed = refl;
      coded = pf f refl;
    },
    tt,
    tt,
  );
  tries = tt;
  globals = length-replicate prog.global_count (int (pos 0));
})

pub init-MachineFits :
    (prog : Program) (main : List ℕ) (heap : Store) (m : Machine)
    → ProgramFits prog
    → init prog main heap ≡ some m
    → MachineFits prog m
unfolding init
init-MachineFits prog main heap m pf e =
    initial-MachineFits prog heap m (find_function prog main) (pf main) e

module _ {p : Platform} {prog : Program} {bs : Breakpoints} {c : Control} {m : Machine}
    (pf : ProgramFits prog) where
  Runs-MachineFits :
      {c' : Control} {m' : Machine}
      → MachineFits prog m
      → Runs p prog bs c m c' m'
      → MachineFits prog m'
  Runs-MachineFits h here = h
  Runs-MachineFits h (next {c'} {c''} {m'} {m''} r w e) =
      subst (RoundFits prog) e (round-RoundFits prog p bs c' m' pf (Runs-MachineFits h r) w)

-- Started on a program whose operands name slots, globals and instructions, and run by rounds
-- none of which leaves a frame with a handler of its own, the interpreter never reads or writes a
-- slot, a global or an instruction out of range, whatever the breakpoints and the control are.
pub Runs-index :
    (p : Platform) (prog : Program) (bs : Breakpoints) (main : List ℕ) (heap : Store)
    (c c' : Control) (m m' : Machine)
    → ProgramFits prog
    → init prog main heap ≡ some m
    → Runs p prog bs c m c' m'
    → LeavesNoHandler m'.call_stack m'.try_stack
    → round p prog bs c' m' ≢ undefined_index
Runs-index p prog bs main heap c c' m m' pf i r w e = subst (RoundFits prog) e (
    round-RoundFits prog p bs c' m' pf
      (Runs-MachineFits pf (init-MachineFits prog main heap m pf i) r) w)
