-- ===== src/ShadowStack/Tests.antt =====
-- A call that writes two references above the slots of its caller.
use saqut.Prelude.{◌≡◌, none, some, [], ◌∷◌, arith}
use saqut.Prelude.Int.{pos}
use saqut.ShadowStack.{Slots, leave}
use saqut.ShadowStack.Frames.{Writes, write_all, leave-write_all}

abbrev caller : Slots
caller = some 7 ∷ none ∷ []

abbrev writes : Writes
writes = (3, some 8) ∷ (2, none) ∷ []

leave-write_all_example : leave (pos 2) (write_all writes caller) ≡ caller
leave-write_all_example = leave-write_all writes caller (omega arith, (omega arith, tt))
