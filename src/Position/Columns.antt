-- ===== src/Position/Columns.antt =====
-- Columns there and back.
use saqut.Prelude.{
  ℕ, zero, suc, ◌+◌, ◌≤◌, ◌<◌, ◌≡◌, ap, true, false, [], ◌∷◌, ltb, if_split, length, drop, arith,
  length-drop,
}
use saqut.Prelude.Int.{ℤ, pos, ◌-ℤ◌}
use saqut.Utf8.{Bytes}
use saqut.Position.{
  step_bytes, step_units, utf8_seq_len, byte_from, units_from, utf16_to_byte_offset,
  byte_offset_to_utf16, lsp_line_text, lsp_to_byte_col, byte_col_to_lsp, clamped,
}

-- The offsets at which a step of the loops begins or ends.
pub data Boundary : Bytes → ℕ → Type 0 where
  start : {text : Bytes} → Boundary text 0
  after :
      {c : ℕ} {cs : Bytes} {k : ℕ}
      → Boundary (drop (step_bytes c cs) (c ∷ cs)) k
      → Boundary (c ∷ cs) (step_bytes c cs + k)

step_bytes-bounds :
    (c : ℕ) (cs : Bytes) → (0 < step_bytes c cs) × (step_bytes c cs ≤ suc (length cs))
unfolding step_bytes utf8_seq_len
step_bytes-bounds c cs = ground arith

step_units_pos : (c : ℕ) (cs : Bytes) → 0 < step_units c cs
unfolding step_units
step_units_pos c cs = ground arith

units_from-≤ :
    (fuel : ℕ) (text : Bytes) (i units offset : ℕ) → units ≤ units_from fuel text i units offset
unfolding units_from
units_from-≤ zero text i units offset = omega arith
units_from-≤ (suc fuel) [] i units offset = omega arith
units_from-≤ (suc fuel) (c ∷ cs) i units offset =
    if_split (λ n. units ≤ n) (ltb i offset)
      (λ _. omega (
        arith,
        units_from-≤ fuel (drop (step_bytes c cs) (c ∷ cs)) (i + step_bytes c cs)
            (units + step_units c cs) offset,
      ))
      λ _. omega arith

less_true : (i j : ℕ) → i < j → ltb i j ≡ true
less_true i j h = ground arith

less_false : (i j : ℕ) → j ≤ i → ltb i j ≡ false
less_false i j h = ground arith

Boundary-≤ : (text : Bytes) (k : ℕ) → Boundary text k → k ≤ length text
Boundary-≤ text k start = omega arith
Boundary-≤ text k (after {c} {cs} {k = j} b) = omega (
  arith,
  Boundary-≤ (drop (step_bytes c cs) (c ∷ cs)) j b,
  length-drop (step_bytes c cs) (c ∷ cs),
  (step_bytes-bounds c cs).1,
)

byte_from-units_from :
    (fuel : ℕ) (text : Bytes) (i units k : ℕ)
    → length text ≤ fuel
    → Boundary text k
    → byte_from fuel text i units (units_from fuel text i units (i + k)) ≡ i + k
unfolding byte_from units_from
byte_from-units_from zero text i units k h b = omega (arith, Boundary-≤ text k b)
byte_from-units_from (suc fuel) [] i units k h b = omega (arith, Boundary-≤ [] k b)
byte_from-units_from (suc fuel) (c ∷ cs) i units k h start =
    rw (less_false i (i + 0) (omega arith), less_false units units (omega arith)) (omega arith)
byte_from-units_from (suc fuel) (c ∷ cs) i units k h (after {k = j} b) =
    let rest : Bytes = drop (step_bytes c cs) (c ∷ cs) in
    let n : ℕ = step_bytes c cs in
    let e : i + (n + j) ≡ i + n + j = omega arith in
    let more : units < units_from fuel rest (i + n) (units + step_units c cs) (i + n + j) = omega (
      arith,
      step_units_pos c cs,
      units_from-≤ fuel rest (i + n) (units + step_units c cs) (i + n + j),
    ) in
    rw
      (
        e,
        less_true i (i + n + j) (omega (arith, (step_bytes-bounds c cs).0)),
        less_true units (units_from fuel rest (i + n) (units + step_units c cs) (i + n + j)) more,
      )
      (byte_from-units_from fuel rest (i + n) (units + step_units c cs) j
        (omega (arith, length-drop n (c ∷ cs), (step_bytes-bounds c cs).0)) b)

within : (size k : ℕ) → k ≤ size → clamped size (pos k) ≡ k
within size k h = ground arith

-- A byte offset between two steps comes back.
pub utf16_to_byte_offset-byte_offset_to_utf16 :
    (text : Bytes) (k : ℕ)
    → Boundary text k
    → utf16_to_byte_offset text (pos (byte_offset_to_utf16 text (pos k))) ≡ k
unfolding utf16_to_byte_offset byte_offset_to_utf16
utf16_to_byte_offset-byte_offset_to_utf16 text k b =
    let z : 0 + k ≡ k = omega arith in
    rw (within (length text) k (Boundary-≤ text k b))
      (rw z at (byte_from-units_from (length text) text 0 0 k (omega arith) b))

minus_one : (k : ℕ) → pos (suc k) -ℤ pos 1 ≡ pos k
unfolding ◌-ℤ◌
minus_one k = ground arith

-- A byte column of the compiler that stands between two steps of the conversion on its line, a
-- step being a UTF-8 sequence, or one byte where that is cut off or not a lead byte, comes back
-- from its UTF-16 column.
pub lsp_to_byte_col-byte_col_to_lsp :
    (content : Bytes) (line : ℤ) (k : ℕ)
    → Boundary (lsp_line_text content line) k
    → lsp_to_byte_col content line (byte_col_to_lsp content line (pos (suc k))) ≡ pos (suc k)
unfolding lsp_to_byte_col byte_col_to_lsp
lsp_to_byte_col-byte_col_to_lsp content line k b = rw (minus_one k) (
    ap (λ n. pos (suc n))
      (utf16_to_byte_offset-byte_offset_to_utf16 (lsp_line_text content line) k b))
