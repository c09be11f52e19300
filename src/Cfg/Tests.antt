-- ===== src/Cfg/Tests.antt =====
-- The graph of a loop.
use saqut.Prelude.{◌≡◌, refl, List, [], ◌∷◌, arith}
use saqut.Prelude.Int.{pos}
use saqut.Ir.{Instruction, instruction, load_const, jif_false, jmp, return, add}
use saqut.Cfg.{find_leaders, leaders_from, insert, build_cfg, linearize}
use saqut.Cfg.Roundtrip.{linearize-build_cfg}

-- 0: load; 1: leave the loop to 4; 2: add; 3: back to 1; 4: return.
abbrev loop : List Instruction
loop =
    instruction load_const
    ∷ record (instruction jif_false) { jump_target = pos 4 }
    ∷ instruction add
    ∷ record (instruction jmp) { jump_target = pos 1 }
    ∷ instruction return
    ∷ []

find_leaders_test : find_leaders loop ≡ 0 ∷ 1 ∷ 2 ∷ 4 ∷ []
unfolding find_leaders leaders_from insert
find_leaders_test = refl

linearize-build_cfg_example : linearize (build_cfg loop) ≡ loop
linearize-build_cfg_example = linearize-build_cfg loop (
  (λ j. omega arith),
  ((λ j. omega arith), ((λ j. omega arith), ((λ j. omega arith), ((λ j. omega arith), tt)))),
)
