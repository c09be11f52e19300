-- ===== src/Position/Lines.antt =====
-- The line of a document by the index of line starts, and by a scan.
use saqut.Prelude.{
  ℕ, zero, suc, ◌+◌, ◌-◌, ◌≡◌, refl, sym, ap, ◌∙◌, false, Option, none, some, [], ◌∷◌, ◌==◌, ltb,
  if◌then◌else◌, length, get_elem?, drop, arith, Bool-cases, inl, inr, Option-cases,
}
use saqut.Prelude.Int.{pos}
use saqut.Utf8.{Bytes}
use saqut.Position.{
  starts_from, build_line_starts, cut_line, line_between, lsp_line_text_at, skip_lines,
  find_newline, lsp_line_text, end_before, or_end,
}

-- The text that `skip_lines` leaves.
abbrev rest_of : Bytes → ℕ → Bytes
rest_of [] left = []
rest_of (c ∷ cs) zero = c ∷ cs
rest_of (c ∷ cs) (suc left) = rest_of cs (if c == 10 then left else suc left)

abbrev following : Option ℕ → Option ℕ
following none = none
following (some e) = some (e + 1)

first-start : (cs : Bytes) (i : ℕ) → get_elem? (starts_from cs i) 0 ≡ following (find_newline cs i)
unfolding starts_from find_newline
first-start [] i = refl
first-start (c ∷ cs) i = elim (Bool-cases (c == 10)) [
  | inl e ↦ rw e refl
  | inr e ↦ rw e (first-start cs (i + 1))
]

next-start :
    (cs : Bytes) (line i : ℕ)
    → get_elem? (starts_from cs i) line
      ≡ following (find_newline (rest_of cs line) (skip_lines cs line i))
unfolding starts_from find_newline skip_lines
next-start [] line i = refl
next-start (c ∷ cs) zero i = first-start (c ∷ cs) i
next-start (c ∷ cs) (suc line) i = elim (Bool-cases (c == 10)) [
  | inl e ↦ rw e (next-start cs line (i + 1))
  | inr e ↦ rw e (next-start cs (suc line) (i + 1))
]

-- A line that the index has starts where the scan stops; the scan for another stops at the end of the text.
abbrev StartsAt : ℕ → Bytes → ℕ → Option ℕ → Type 0
StartsAt k rest size none = (k ≡ size) × (rest ≡ [])
StartsAt k rest size (some s) = k ≡ s

line-StartsAt :
    (cs : Bytes) (line i : ℕ)
    → StartsAt
        (skip_lines cs line i)
        (rest_of cs line)
        (i + length cs)
        (get_elem? (i ∷ starts_from cs i) line)
unfolding starts_from skip_lines
line-StartsAt [] zero i = refl
line-StartsAt [] (suc line) i = (omega arith, refl)
line-StartsAt (c ∷ cs) zero i = refl
line-StartsAt (c ∷ cs) (suc line) i =
    let n : i + suc (length cs) ≡ i + 1 + length cs = omega arith in
    elim (Bool-cases (c == 10)) [
      | inl e ↦ rw (n, e) (line-StartsAt cs line (i + 1))
      | inr e ↦ rw (n, e) (line-StartsAt cs (suc line) (i + 1))
    ]

skip-drop :
    (cs : Bytes) (line i : ℕ)
    → (k : ℕ) × (skip_lines cs line i ≡ i + k) × (drop k cs ≡ rest_of cs line)
unfolding skip_lines
skip-drop [] line i = (0, omega arith, refl)
skip-drop (c ∷ cs) zero i = (0, omega arith, refl)
skip-drop (c ∷ cs) (suc line) i =
    let (k, e, d) = skip-drop cs (if c == 10 then line else suc line) (i + 1) in
    (suc k, omega (arith, e), d)

cut_line-empty : (content : Bytes) (s : ℕ) → cut_line content s s ≡ []
unfolding cut_line
cut_line-empty content s =
    let z : s - s ≡ 0 = omega arith in
    let f : ltb s s ≡ false = ground arith in
    elim (Option-cases (get_elem? content (s - 1))) [
      | inl e ↦ rw (e, z) refl
      | inr (c, e) ↦ rw (e, f, z) refl
    ]

end_before-following :
    (content : Bytes) (o : Option ℕ) → end_before content (following o) ≡ or_end content o
end_before-following content none = refl
end_before-following content (some e) = omega arith

line_between-cut_line :
    (content rest : Bytes) (k : ℕ) (o : Option ℕ)
    → StartsAt k rest (length content) o
    → line_between content o (following (find_newline rest k))
      ≡ cut_line content k (or_end content (find_newline rest k))
unfolding find_newline
line_between-cut_line content rest k none (e, r) =
    rw (r, e) (sym (cut_line-empty content (length content)))
line_between-cut_line content rest k (some s) e =
    rw (e, end_before-following content (find_newline rest s)) refl

-- For every line that is not negative, past the last one included, the text by the index of line
-- starts is the text that the scan from the start of the document finds.
pub lsp_line_text_at-lsp_line_text :
    (content : Bytes) (line : ℕ)
    → lsp_line_text_at content (build_line_starts content) (pos line)
      ≡ lsp_line_text content (pos line)
unfolding lsp_line_text_at build_line_starts lsp_line_text
lsp_line_text_at-lsp_line_text content line =
    let (k, e, d) = skip-drop content line 0 in
    let z : 0 + k ≡ k = omega arith in
    let n : 0 + length content ≡ length content = omega arith in
    let s : skip_lines content line 0 ≡ k = e ∙ z in
    let l : line + 1 ≡ suc line = omega arith in
    let here : Option ℕ = get_elem? (0 ∷ starts_from content 0) line in
    let next : get_elem? (0 ∷ starts_from content 0) (line + 1)
        ≡ following (find_newline (rest_of content line) k) =
      rw l (
        next-start content line 0
        ∙ ap (λ j. following (find_newline (rest_of content line) j)) s) in
    ap (line_between content here) next
    ∙ line_between-cut_line content (rest_of content line) k here
        (rw (s, n) at (line-StartsAt content line 0))
    ∙ ap (λ r. cut_line content k (or_end content (find_newline r k))) (sym d)
    ∙ ap (λ j. cut_line content j (or_end content (find_newline (drop j content) j))) (sym s)
