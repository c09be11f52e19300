-- ===== src/Vm/Store.antt =====
-- src/vm/object.hpp: the payloads of the objects that the instructions read and write, by address. The
-- colours that the collector and its write barrier keep beside them are those of Gc, and the names of
-- fields, which only the dump reads, are left out.
use saqut.Prelude.{
  ℕ, ◌+◌, Option, none, some, List, [], ◌∷◌, ◌==◌, if◌then◌else◌, length, get_elem?, set, replicate,
}
use saqut.Prelude.Int.{ℤ, pos, is_neg, pos_part}
use saqut.Prelude.Word.{to_bits}
use saqut.Ir.{
  ArrayElemKind, ref_elem, byte_elem, int_elem, long_int_elem, float32_elem, float64_elem,
  decimal_elem,
}
use saqut.Decimal.{DecimalValue, zero_decimal}
use saqut.Vm.Value.{Value, int, long_int, float, float32, decimal, int_value, decimal_value, as_i64}

-- The buffer of an array, of its element kind; the other buffers of the source are empty.
pub data Buffer : Type 0 where
  elements : List Value → Buffer
  bytes ints longs : List ℤ → Buffer
  f32s f64s : List ℕ → Buffer
  decimals : List DecimalValue → Buffer

-- A box holds a string or a decimal of compiled code; no instruction reads it.
pub data Object : Type 0 where
  array : Buffer → Object
  struct : List Value → Object
  box : Object

pub record Store : Type 0 where
  pub objects : List (ℕ × Object)
  pub fresh : ℕ

abbrev pub find_object : ℕ → List (ℕ × Object) → Option Object
find_object a [] = none
find_object a ((b, o) ∷ os) = if a == b then some o else find_object a os

abbrev pub put_object : ℕ → Object → List (ℕ × Object) → List (ℕ × Object)
put_object a o [] = []
put_object a o ((b, o') ∷ os) = if a == b then (b, o) ∷ os else (b, o') ∷ put_object a o os

-- `new` and the push on the list of all objects.
abbrev pub allocate : Object → Store → Store
allocate o s = record { objects = (s.fresh, o) ∷ s.objects; fresh = s.fresh + 1 }

abbrev pub update : ℕ → Object → Store → Store
update a o s = record s { objects = put_object a o s.objects }

-- An access of a vector; `none` is an index outside, which C++ leaves undefined.
abbrev pub at {ℓ} : {A : Type ℓ} → List A → ℤ → Option A
at xs i = if is_neg i then none else get_elem? xs (pos_part i)

abbrev pub write_at {ℓ} : {A : Type ℓ} → List A → ℤ → A → List A
write_at xs i v = if is_neg i then xs else set xs (pos_part i) v

-- ARRAY_NEW: the elements with the default of their kind.
unfoldable pub new_buffer : ArrayElemKind → ℕ → Buffer
new_buffer ref_elem n = elements (replicate n (int (pos 0)))
new_buffer byte_elem n = bytes (replicate n (pos 0))
new_buffer int_elem n = ints (replicate n (pos 0))
new_buffer long_int_elem n = longs (replicate n (pos 0))
new_buffer float32_elem n = f32s (replicate n 0)
new_buffer float64_elem n = f64s (replicate n 0)
new_buffer decimal_elem n = decimals (replicate n zero_decimal)

unfoldable pub buffer_length : Buffer → ℕ
buffer_length (elements xs) = length xs
buffer_length (bytes xs) = length xs
buffer_length (ints xs) = length xs
buffer_length (longs xs) = length xs
buffer_length (f32s xs) = length xs
buffer_length (f64s xs) = length xs
buffer_length (decimals xs) = length xs

abbrev wrapped : {A : Type 0} → (A → Value) → Option A → Option Value
wrapped f none = none
wrapped f (some x) = some (f x)

-- ARRAY_GET, at an index in range.
unfoldable pub read_element : Buffer → ℤ → Option Value
read_element (elements xs) i = at xs i
read_element (bytes xs) i = wrapped int (at xs i)
read_element (ints xs) i = wrapped int (at xs i)
read_element (longs xs) i = wrapped long_int (at xs i)
read_element (f32s xs) i = wrapped float32 (at xs i)
read_element (f64s xs) i = wrapped float (at xs i)
read_element (decimals xs) i = wrapped decimal (at xs i)

-- ARRAY_SET, at an index in range; `as_double` and `single` are conversions of C++.
unfoldable pub write_element : (Value → ℕ) → (ℕ → ℕ) → Buffer → ℤ → Value → Buffer
write_element as_double single (elements xs) i v = elements (write_at xs i v)
write_element as_double single (bytes xs) i v =
    bytes (write_at xs i (pos (to_bits 256 (int_value v))))
write_element as_double single (ints xs) i v = ints (write_at xs i (int_value v))
write_element as_double single (longs xs) i v = longs (write_at xs i (as_i64 v))
write_element as_double single (f32s xs) i v = f32s (write_at xs i (single (as_double v)))
write_element as_double single (f64s xs) i v = f64s (write_at xs i (as_double v))
write_element as_double single (decimals xs) i v = decimals (write_at xs i (decimal_value v))
