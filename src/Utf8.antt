-- ===== src/Utf8.antt =====
-- src/core/utf8.cpp: code points in a text of bytes. A view of the text from an offset on is the list of
-- the bytes that are left; a loop that moves the offset takes the rest of the text, and runs on fuel,
-- the number of bytes, as every code point has at least one.
pub mod Points
pub mod Encoding
pub mod Scalars
pub mod Repair
mod Tests
use saqut.Prelude.{
  ℕ, zero, suc, ◌+◌, ◌-◌, ◌/◌, ◌%◌, Bool, true, false, not, ◌&&◌, ◌||◌, List, [], ◌∷◌, ◌++◌, ltb,
  leb, ◌==◌, if◌then◌else◌, length, take, drop,
}

abbrev pub Bytes : Type 0
Bytes = List ℕ

-- c & 0xC0 is 0x80.
abbrev pub continuation : ℕ → Bool
continuation c = (c / 64 % 4) == 2

-- lo ≤ c and c ≤ hi.
abbrev pub within : ℕ → ℕ → ℕ → Bool
within lo hi c = leb lo c && leb c hi

-- The length that the first byte announces.
abbrev pub lead_length : ℕ → ℕ
lead_length lead =
    if within 194 223 lead
    then 2
    else if within 224 239 lead
    then 3
    else if within 240 244 lead
    then 4
    else 1

abbrev pub all_continue : Bytes → Bool
all_continue [] = true
all_continue (c ∷ cs) = continuation c && all_continue cs

-- Overlong encodings, surrogates and values over U+10FFFF, by the second byte.
abbrev pub rejected : ℕ → ℕ → Bytes → Bool
rejected len lead [] = false
rejected len lead (b1 ∷ _) =
    (len == 3 && ((lead == 224 && ltb b1 160) || (lead == 237 && leb 160 b1)))
    || (len == 4 && ((lead == 240 && ltb b1 144) || (lead == 244 && leb 144 b1)))

-- `validSequenceLength` at the bytes that are left.
unfoldable pub valid_sequence_length : ℕ → Bytes → ℕ
valid_sequence_length lead rest =
    let len = lead_length lead in
    if len == 1
    then 1
    else if ltb (suc (length rest)) len
    then 1
    else if not (all_continue (take (len - 1) rest))
    then 1
    else if rejected len lead rest
    then 1
    else len

unfoldable pub code_point_bytes : Bytes → ℕ
code_point_bytes [] = 0
code_point_bytes (lead ∷ rest) = valid_sequence_length lead rest

unfoldable pub count_from : ℕ → Bytes → ℕ
count_from zero text = 0
count_from (suc fuel) [] = 0
count_from (suc fuel) (c ∷ cs) = suc (count_from fuel (drop (code_point_bytes (c ∷ cs)) (c ∷ cs)))

unfoldable pub code_point_count : Bytes → ℕ
code_point_count text = count_from (length text) text

-- The loop of `charAt` with the index counted down.
unfoldable pub char_from : ℕ → Bytes → ℕ → Bytes
char_from zero text index = []
char_from (suc fuel) [] index = []
char_from (suc fuel) (c ∷ cs) zero = take (code_point_bytes (c ∷ cs)) (c ∷ cs)
char_from (suc fuel) (c ∷ cs) (suc index) =
    char_from fuel (drop (code_point_bytes (c ∷ cs)) (c ∷ cs)) index

unfoldable pub char_at : Bytes → ℕ → Bytes
char_at text index = char_from (length text) text index

-- The first loop of `substring`: the bytes left after `start` code points; none are left where the text
-- has fewer, and then the result is empty as well.
unfoldable pub skip_from : ℕ → Bytes → ℕ → Bytes
skip_from zero text start = []
skip_from (suc fuel) [] start = []
skip_from (suc fuel) (c ∷ cs) zero = c ∷ cs
skip_from (suc fuel) (c ∷ cs) (suc start) =
    skip_from fuel (drop (code_point_bytes (c ∷ cs)) (c ∷ cs)) start

-- The second loop: the bytes of up to `n` code points.
unfoldable pub gather_from : ℕ → Bytes → ℕ → Bytes
gather_from zero text n = []
gather_from (suc fuel) [] n = []
gather_from (suc fuel) (c ∷ cs) zero = []
gather_from (suc fuel) (c ∷ cs) (suc n) =
    take (code_point_bytes (c ∷ cs)) (c ∷ cs)
    ++ gather_from fuel (drop (code_point_bytes (c ∷ cs)) (c ∷ cs)) n

unfoldable pub substring : Bytes → ℕ → ℕ → Bytes
substring text start n =
    let rest = skip_from (length text) text start in gather_from (length rest) rest n

-- The replacement character U+FFFD.
abbrev pub replacement : Bytes
replacement = 239 ∷ 191 ∷ 189 ∷ []

abbrev pub clean : ℕ → ℕ → Bytes → Bytes
clean len first point = if len == 1 && leb 128 first then replacement else point

unfoldable pub clean_from : ℕ → Bytes → Bytes
clean_from zero text = []
clean_from (suc fuel) [] = []
clean_from (suc fuel) (c ∷ cs) =
    let len = code_point_bytes (c ∷ cs) in
    clean len c (take len (c ∷ cs)) ++ clean_from fuel (drop len (c ∷ cs))

unfoldable pub from_bytes : Bytes → Bytes
from_bytes text = clean_from (length text) text
