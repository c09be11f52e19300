-- ===== src/Prelude/Word.antt =====
-- Two's complement words: the bit pattern of an integer, and the integer of a pattern.
use saqut.Prelude.Tests.{ltb, if◌then◌else◌}
use saqut.Prelude.Int.{ℤ, pos, negsuc, pos_part, neg_part}
use Prim.Native.Nat.{ℕ, ◌-◌, ◌%◌, ◌/◌, ◌≤◌}
use mathlib.Core.Path.{◌≡◌}
use native.Mathlib.Omega.{arith}

-- `static_cast` to an unsigned type of `m` values.
unfoldable pub to_bits : ℕ → ℤ → ℕ
to_bits m (pos n) = n % m
to_bits m (negsuc n) = m - 1 - n % m

-- `static_cast` back to the signed type of `m` values.
unfoldable pub of_bits : ℕ → ℕ → ℤ
of_bits m n = if ltb n (m / 2) then pos n else negsuc (m - 1 - n)

-- A result of int32_t arithmetic: out of range, which C++ leaves undefined, it wraps around as the machine does.
unfoldable pub int32 : ℤ → ℤ
unfolding to_bits of_bits
int32 z = of_bits 4294967296 (to_bits 4294967296 z)

abbrev pub IsI32 : ℤ → Type 0
IsI32 z = (neg_part z ≤ 2147483648) × (pos_part z ≤ 2147483647)

pub int32-IsI32 : (z : ℤ) → IsI32 z → int32 z ≡ z
unfolding int32
int32-IsI32 (pos n) h = ground arith
int32-IsI32 (negsuc n) h = ground arith
