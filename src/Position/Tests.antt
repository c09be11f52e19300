-- ===== src/Position/Tests.antt =====
-- A document of two lines; the first has a character of two bytes, and ends with a carriage return.
use saqut.Prelude.{◌≡◌, refl, [], ◌∷◌}
use saqut.Prelude.Int.{pos}
use saqut.Utf8.{Bytes}
use saqut.Position.{
  lsp_line_text_at, build_line_starts, lsp_line_text, lsp_to_byte_col, byte_col_to_lsp, skip_lines,
  find_newline, cut_line, utf8_seq_len, step_bytes,
}
use saqut.Position.Columns.{Boundary, start, after, lsp_to_byte_col-byte_col_to_lsp}
use saqut.Position.Lines.{lsp_line_text_at-lsp_line_text}

-- a, a dotless i, b, \r, \n, c.
abbrev document : Bytes
document = 97 ∷ 196 ∷ 177 ∷ 98 ∷ 13 ∷ 10 ∷ 99 ∷ []

first_line_test : lsp_line_text document (pos 0) ≡ 97 ∷ 196 ∷ 177 ∷ 98 ∷ []
unfolding lsp_line_text skip_lines find_newline cut_line
first_line_test = refl

lsp_line_text_at-lsp_line_text_example :
    lsp_line_text_at document (build_line_starts document) (pos 1) ≡ lsp_line_text document (pos 1)
lsp_line_text_at-lsp_line_text_example = lsp_line_text_at-lsp_line_text document 1

before_b : Boundary (lsp_line_text document (pos 0)) 3
unfolding lsp_line_text skip_lines find_newline cut_line step_bytes utf8_seq_len
before_b = after (after start)

lsp_to_byte_col-byte_col_to_lsp_example :
    lsp_to_byte_col document (pos 0) (byte_col_to_lsp document (pos 0) (pos 4)) ≡ pos 4
lsp_to_byte_col-byte_col_to_lsp_example =
    lsp_to_byte_col-byte_col_to_lsp document (pos 0) 3 before_b
