-- ===== src/Vm/Budget.antt =====
-- `Interpreter::runUntilEvent` with a budget of instructions comes to an end.
use saqut.Prelude.{
  ℕ, zero, suc, ◌+◌, ◌*◌, ◌≤◌, ◌<◌, ◌≡◌, refl, Option, none, some, List, [], inl, inr, ◌∷◌, length,
  arith, if_split, Bool-cases, ◌==◌,
}
use saqut.Prelude.Int.{ℤ, pos, negsuc, eqb_ℤ, leb_ℤ, ◌-ℤ◌}
use saqut.Vm.Value.{int}
use saqut.Vm.Store.{at}
use saqut.Vm.Platform.{Platform}
use saqut.Vm.Forms.{form}
use saqut.Vm.Machine.{Program, CallFrame, Machine, write}
use saqut.Vm.Effects.{
  Effect, proceed, pending, handed_back, returned, thrown, bad_index, bad_object, with_frame,
}
use saqut.Vm.Rounds.{
  RunReason, finished, Control, Round, more, stopped, crashed, undefined_index, undefined_object,
  Breakpoints, is_breakpoint, on_resume_line, safepoint, stepped_out, back_in_caller, fall_off,
  continue_with, line_done, outcome_of, spend, dispatch, run_frame, run_top, round, after, rounds,
  run_until_event, start,
}
use saqut.Vm.Depth.{Bounded, proceed_b, handed_b, run_form-Bounded, settle-Bounded}

-- A round that goes on has `b` instructions left and a call stack within `n`, in units of half a round.
data Descends (n : ℕ) : Round → Type 0 where
  more_d :
      {c : Control} {m : Machine} (b : ℕ)
      → c.run_budget ≡ pos b
      → 2 * b + length m.call_stack < n
      → Descends n (more c m)
  stopped_d : {reason : RunReason} {m : Machine} → Descends n (stopped reason m)
  crashed_d : {s : List ℕ} → Descends n (crashed s)
  index_d : Descends n undefined_index
  object_d : Descends n undefined_object

back_d :
    (n b : ℕ) (c : Control) (m : Machine)
    → c.run_budget ≡ pos b
    → 2 * b + length m.call_stack < n
    → Descends n (back_in_caller c m)
back_d n b c m e h = if_split (Descends n) (stepped_out c m) (λ _. stopped_d) λ _. more_d b e h

outcome_d :
    (n b k : ℕ) (c : Control) (e : Effect)
    → c.run_budget ≡ pos b
    → Bounded k e
    → 2 * b + k < n
    → Descends n (outcome_of c e)
outcome_d n b k c (proceed m) e (proceed_b l) h = more_d b e (omega arith)
outcome_d n b k c (handed_back m) e (handed_b l) h = back_d n b c m e (omega arith)
outcome_d n b k c (pending v m) e l h = object_d
outcome_d n b k c (returned m) e l h = stopped_d
outcome_d n b k c (thrown s) e l h = crashed_d
outcome_d n b k c bad_index e l h = index_d
outcome_d n b k c bad_object e l h = object_d

spend_lem : (c : Control) (b : ℕ) → c.run_budget ≡ pos (suc b) → (spend c).run_budget ≡ pos b
unfolding ◌-ℤ◌
spend_lem c b e = ground arith

continue_d :
    {A : Type 0} (n : ℕ) (o : Option A) (k : A → Round)
    → ((a : A) → Descends n (k a))
    → Descends n (continue_with o k)
continue_d n none k all = index_d
continue_d n (some a) k all = all a

fall_off_d :
    (n b : ℕ) (c : Control) (m : Machine) (dest : ℤ) (stack : List CallFrame)
    → c.run_budget ≡ pos b
    → 2 * b + length stack < n
    → Descends n (fall_off c m dest stack)
unfolding fall_off
fall_off_d n b c m dest [] e h =
    if_split (Descends n) (stepped_out c (record m { call_stack = [] })) (λ _. stopped_d)
      (λ _. stopped_d)
fall_off_d n b c m dest (g ∷ rest) e h =
    if_split (Descends n) (eqb_ℤ dest (negsuc 0))
      (λ _. back_d n b c (record m { call_stack = g ∷ rest }) e h)
      λ _.
        continue_d n (write g.slots dest (int (pos 0))) _
          λ s. back_d n b c (with_frame m (record g { slots = s }) rest) e h

run_frame_d :
    (n b : ℕ) (p : Platform) (prog : Program) (c : Control) (m : Machine) (f : CallFrame)
    (rest : List CallFrame)
    → c.run_budget ≡ pos (suc b)
    → 2 * suc b + suc (length rest) ≤ n
    → Descends n (run_frame p prog c m f rest)
unfolding run_frame dispatch
run_frame_d n b p prog c m f rest e h =
    if_split (Descends n) (leb_ℤ (pos (length f.function.instructions)) f.instruction_pointer)
      (λ _. fall_off_d n (suc b) c m f.return_dest_slot rest e (omega arith))
      λ _. continue_d n (at f.function.instructions f.instruction_pointer) _ λ i.
        if_split (Descends n) (line_done c (suc (length rest)) i.source_line) (λ _. stopped_d)
          λ _.
            outcome_d n b (suc (suc (length rest))) (spend c) _ (spend_lem c b e)
              (settle-Bounded _ _
                (run_form-Bounded _ prog m _ rest (omega arith) p i (form i.opcode)))
              (omega arith)

run_top_d :
    (n b : ℕ) (p : Platform) (prog : Program) (c : Control) (m : Machine) (stack : List CallFrame)
    → c.run_budget ≡ pos (suc b)
    → 2 * suc b + length stack ≤ n
    → Descends n (run_top p prog c m stack)
run_top_d n b p prog c m [] e h = stopped_d
run_top_d n b p prog c m (f ∷ rest) e h = run_frame_d n b p prog c m f rest e h

round_d :
    (n b : ℕ) (p : Platform) (prog : Program) (bs : Breakpoints) (c : Control) (m : Machine)
    → c.run_budget ≡ pos b
    → 2 * b + length m.call_stack ≤ n
    → Descends n (round p prog bs c m)
unfolding round
round_d n zero p prog bs c m e h = rw e stopped_d
round_d n (suc b) p prog bs c m e h =
    if_split (Descends n) (eqb_ℤ c.run_budget (pos 0)) (λ _. stopped_d)
      λ _.
        if_split (Descends n) (is_breakpoint p bs m.call_stack)
          (λ _.
            if_split (Descends n) (on_resume_line p c m.call_stack)
              (λ _. run_top_d n b p prog c (safepoint p m) m.call_stack e h) λ _. stopped_d)
          λ _.
            run_top_d n b p prog (record c { resume_skip_line = pos 0 }) (safepoint p m)
              m.call_stack e h

after_d :
    (n : ℕ) (again : Control → Machine → Option Round) (r : Round)
    → Descends n r
    → ((b : ℕ) (c : Control) (m : Machine)
        → c.run_budget ≡ pos b
        → 2 * b + length m.call_stack < n
        → (r' : Round) × (again c m ≡ some r'))
    → (r' : Round) × (after again r ≡ some r')
after_d n again (more c m) (more_d b e h) all = all b c m e h
after_d n again (stopped reason m) d all = (stopped reason m, refl)
after_d n again (crashed s) d all = (crashed s, refl)
after_d n again undefined_index d all = (undefined_index, refl)
after_d n again undefined_object d all = (undefined_object, refl)

rounds_d :
    (fuel b : ℕ) (p : Platform) (prog : Program) (bs : Breakpoints) (c : Control) (m : Machine)
    → c.run_budget ≡ pos b
    → 2 * b + length m.call_stack < fuel
    → (r : Round) × (rounds fuel p prog bs c m ≡ some r)
unfolding rounds
rounds_d zero b p prog bs c m e h = absurd (omega arith)
rounds_d (suc fuel) b p prog bs c m e h =
    after_d _ (rounds fuel p prog bs) (round p prog bs c m)
      (round_d (2 * b + length m.call_stack) b p prog bs c m e (omega arith))
      λ b' c' m' e' h'. rounds_d fuel b' p prog bs c' m' e' (omega arith)

-- A run with a budget of n instructions comes to an end, whatever the program does: fuel above
-- twice the budget and the height of the call stack is enough.
pub run_until_event-total :
    (fuel n : ℕ) (p : Platform) (prog : Program) (bs : Breakpoints) (m : Machine) (depth : ℤ)
    → 2 * n + length m.call_stack < fuel
    → (r : Round) × (run_until_event fuel p prog bs m (pos n) depth ≡ some r)
unfolding run_until_event
run_until_event-total fuel n p prog bs m depth h = elim (Bool-cases (length m.call_stack == 0)) [
  | inl e ↦ (stopped finished m, rw e)
  | inr e ↦ rw e (rounds_d fuel n p prog bs (start p bs m (pos n) depth) m refl h)
]
