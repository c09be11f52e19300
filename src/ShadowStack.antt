-- ===== src/ShadowStack.antt =====
-- src/vm/shadow_stack.hpp: the references of compiled code, which the collector takes as roots. An index
-- is an integer, a null reference `none`.
mod Frames
mod Tests
use saqut.Prelude.{
  ℕ, zero, suc, ◌+◌, ◌-◌, Bool, true, false, Option, none, some, List, [], ◌∷◌, ◌++◌, ltb, leb,
  if◌then◌else◌, length, take, set, replicate,
}
use saqut.Prelude.Int.{ℤ, pos, negsuc, is_neg, pos_part}

abbrev pub Slots : Type 0
Slots = List (Option ℕ)

-- `std::vector::resize`: cut, or filled with null.
abbrev pub resize : ℕ → Slots → Slots
resize n xs = take n xs ++ replicate (n - length xs) none

abbrev pub enter : Slots → ℕ
enter xs = length xs

unfoldable pub leave : ℤ → Slots → Slots
leave base xs =
    if is_neg base
    then xs
    else if leb (pos_part base) (length xs)
    then resize (pos_part base) xs
    else xs

unfoldable pub set_slot : ℤ → Option ℕ → Slots → Slots
set_slot index obj xs =
    if is_neg index
    then xs
    else if leb (length xs) (pos_part index)
    then set (resize (pos_part index + 1) xs) (pos_part index) obj
    else set xs (pos_part index) obj
