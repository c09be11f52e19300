-- ===== src/Position.antt =====
-- src/lsp/position.hpp: lines of a document, and the columns of the language server (UTF-16 code units) beside
-- those of the compiler (bytes). A text is the list of its bytes, each below 256.
pub mod Lines
pub mod Columns
mod Tests
use saqut.Prelude.{
  ℕ, zero, suc, ◌+◌, ◌-◌, ◌*◌, ◌%◌, ◌^◌, Bool, true, false, ◌&&◌, Option, none, some, List, [], ◌∷◌,
  ltb, leb, ◌==◌, if◌then◌else◌, length, get_elem?, take, drop,
}
use saqut.Prelude.Int.{ℤ, pos, negsuc, is_neg, pos_part, ltb_ℤ, leb_ℤ, ◌+ℤ◌, ◌-ℤ◌}
use saqut.Utf8.{Bytes}

-- The offsets after the newlines, from the offset `i` on.
unfoldable pub starts_from : Bytes → ℕ → List ℕ
starts_from [] i = []
starts_from (c ∷ cs) i =
    let rest : List ℕ = starts_from cs (i + 1) in if c == 10 then (i + 1) ∷ rest else rest

unfoldable pub build_line_starts : Bytes → List ℕ
unfolding starts_from
build_line_starts content = 0 ∷ starts_from content 0

-- `content.substr(s, e - s)`, without a carriage return at its end.
unfoldable pub cut_line : Bytes → ℕ → ℕ → Bytes
cut_line content s e =
    let e' : ℕ = elim (get_elem? content (e - 1)) [
      | none ↦ e
      | some c ↦ if ltb s e && c == 13 then e - 1 else e
    ] in
    take (e' - s) (drop s content)

-- The end of the line before the next line's start, or of the text.
abbrev pub end_before : Bytes → Option ℕ → ℕ
end_before content none = length content
end_before content (some next) = next - 1

abbrev pub line_between : Bytes → Option ℕ → Option ℕ → Bytes
line_between content none next = []
line_between content (some s) next = cut_line content s (end_before content next)

unfoldable pub lsp_line_text_at : Bytes → List ℕ → ℤ → Bytes
unfolding cut_line
lsp_line_text_at content starts (pos line) =
    line_between content (get_elem? starts line) (get_elem? starts (line + 1))
lsp_line_text_at content starts (negsuc n) = []

-- The loop of `lspLineText` and `lspLineStartOffset`, with the lines that are left to skip.
unfoldable pub skip_lines : Bytes → ℕ → ℕ → ℕ
skip_lines [] left i = i
skip_lines (c ∷ cs) zero i = i
skip_lines (c ∷ cs) (suc left) i = skip_lines cs (if c == 10 then left else suc left) (i + 1)

-- `content.find('\n', start)`, on the text from `start` on.
unfoldable pub find_newline : Bytes → ℕ → Option ℕ
find_newline [] i = none
find_newline (c ∷ cs) i =
    let rest : Option ℕ = find_newline cs (i + 1) in if c == 10 then some i else rest

abbrev pub or_end : Bytes → Option ℕ → ℕ
or_end content none = length content
or_end content (some e) = e

unfoldable pub lsp_line_text : Bytes → ℤ → Bytes
unfolding skip_lines find_newline cut_line
lsp_line_text content line =
    let s : ℕ = skip_lines content (pos_part line) 0 in
    cut_line content s (or_end content (find_newline (drop s content) s))

unfoldable pub lsp_line_start_offset : Bytes → ℤ → ℕ
unfolding skip_lines
lsp_line_start_offset content line = skip_lines content (pos_part line) 0

unfoldable pub utf8_seq_len : ℕ → ℕ
utf8_seq_len c =
    if ltb c 128
    then 1
    else if leb 192 c && ltb c 224
    then 2
    else if leb 224 c && ltb c 240
    then 3
    else if leb 240 c && ltb c 248
    then 4
    else 1

-- The bytes of a step: a sequence that is cut off counts as one byte.
unfoldable pub step_bytes : ℕ → Bytes → ℕ
unfolding utf8_seq_len
step_bytes c cs = if ltb (suc (length cs)) (utf8_seq_len c) then 1 else utf8_seq_len c

unfoldable pub add_continuations : ℕ → Bytes → ℕ
add_continuations cp [] = cp
add_continuations cp (c ∷ cs) = add_continuations (cp * 64 + c % 64) cs

-- The UTF-16 units of a step.
unfoldable pub step_units : ℕ → Bytes → ℕ
unfolding step_bytes add_continuations
step_units c cs =
    let len : ℕ = step_bytes c cs in
    let first : ℕ = if len == 1 then c else c % 2 ^ (7 - len) in
    if ltb 65535 (add_continuations first (take (len - 1) cs)) then 2 else 1

-- The loops, on as many rounds as there are bytes; a step takes one at least.
unfoldable pub byte_from : ℕ → Bytes → ℕ → ℕ → ℕ → ℕ
unfolding step_bytes step_units
byte_from zero text i units wanted = i
byte_from (suc fuel) [] i units wanted = i
byte_from (suc fuel) (c ∷ cs) i units wanted =
    let rest : ℕ =
      byte_from fuel (drop (step_bytes c cs) (c ∷ cs)) (i + step_bytes c cs)
        (units + step_units c cs) wanted in
    if ltb units wanted then rest else i

unfoldable pub utf16_to_byte_offset : Bytes → ℤ → ℕ
unfolding byte_from
utf16_to_byte_offset text char = byte_from (length text) text 0 0 (pos_part char)

unfoldable pub units_from : ℕ → Bytes → ℕ → ℕ → ℕ → ℕ
unfolding step_bytes step_units
units_from zero text i units offset = units
units_from (suc fuel) [] i units offset = units
units_from (suc fuel) (c ∷ cs) i units offset =
    let rest : ℕ =
      units_from fuel (drop (step_bytes c cs) (c ∷ cs)) (i + step_bytes c cs)
        (units + step_units c cs) offset in
    if ltb i offset then rest else units

-- An offset outside of the text is moved to its end.
abbrev pub clamped : ℕ → ℤ → ℕ
clamped size z = if ltb size (pos_part z) then size else pos_part z

unfoldable pub byte_offset_to_utf16 : Bytes → ℤ → ℕ
unfolding units_from
byte_offset_to_utf16 text offset = units_from (length text) text 0 0 (clamped (length text) offset)

unfoldable pub lsp_to_byte_col : Bytes → ℤ → ℤ → ℤ
unfolding lsp_line_text utf16_to_byte_offset
lsp_to_byte_col content line col = pos (suc (utf16_to_byte_offset (lsp_line_text content line) col))

unfoldable pub byte_col_to_lsp : Bytes → ℤ → ℤ → ℤ
unfolding lsp_line_text byte_offset_to_utf16
byte_col_to_lsp content line col =
    pos (byte_offset_to_utf16 (lsp_line_text content line) (col -ℤ pos 1))

unfoldable pub byte_col_to_lsp_at : Bytes → List ℕ → ℤ → ℤ → ℤ
unfolding lsp_line_text_at byte_offset_to_utf16
byte_col_to_lsp_at content starts line col =
    pos (byte_offset_to_utf16 (lsp_line_text_at content starts line) (col -ℤ pos 1))
