-- ===== src/Utf8/Points.antt =====
-- The code points of a text as a list, which the operations count, index and cut.
use saqut.Prelude.{
  ℕ, zero, suc, ◌≤◌, ◌<◌, ◌≡◌, refl, ap, List, [], ◌∷◌, ◌++◌, length, take, drop, get_or,
  length-drop, arith,
}
use saqut.Utf8.{
  Bytes, valid_sequence_length, code_point_bytes, count_from, code_point_count, char_from, char_at,
}

abbrev pub concat : List Bytes → Bytes
concat [] = []
concat (x ∷ xs) = x ++ concat xs

-- The text cut into its code points.
unfoldable pub points_from : ℕ → Bytes → List Bytes
points_from zero text = []
points_from (suc fuel) [] = []
points_from (suc fuel) (c ∷ cs) =
    take (code_point_bytes (c ∷ cs)) (c ∷ cs)
    ∷ points_from fuel (drop (code_point_bytes (c ∷ cs)) (c ∷ cs))

unfoldable pub code_points : Bytes → List Bytes
code_points text = points_from (length text) text

-- At a text that is not empty, a code point takes at least one byte, at most four, and never more
-- than are left.
code_point_bytes-bounds :
    (c : ℕ) (cs : Bytes)
    → (0 < code_point_bytes (c ∷ cs))
      × (code_point_bytes (c ∷ cs) ≤ 4)
      × (code_point_bytes (c ∷ cs) ≤ length (c ∷ cs))
unfolding code_point_bytes valid_sequence_length
code_point_bytes-bounds c cs = ground arith

pub shorter :
    (c : ℕ) (cs : Bytes) (fuel : ℕ)
    → length (c ∷ cs) ≤ suc fuel
    → length (drop (code_point_bytes (c ∷ cs)) (c ∷ cs)) ≤ fuel
shorter c cs fuel h =
    omega (arith, h, length-drop (code_point_bytes (c ∷ cs)) (c ∷ cs), code_point_bytes-bounds c cs)

count_from_lem : (fuel : ℕ) (text : Bytes) → count_from fuel text ≡ length (points_from fuel text)
unfolding count_from points_from
count_from_lem zero text = refl
count_from_lem (suc fuel) [] = refl
count_from_lem (suc fuel) (c ∷ cs) = ap suc (count_from_lem fuel _)

char_from_lem :
    (fuel : ℕ) (text : Bytes) (i : ℕ) → char_from fuel text i ≡ get_or (points_from fuel text) i []
unfolding char_from points_from
char_from_lem zero text i = refl
char_from_lem (suc fuel) [] i = refl
char_from_lem (suc fuel) (c ∷ cs) zero = refl
char_from_lem (suc fuel) (c ∷ cs) (suc i) = char_from_lem fuel _ i

-- `codePointCount` is the length of the list of code points of a text, and `charAt` its element
-- at the index, empty past the end.
pub code_point_count-char_at :
    (text : Bytes) (i : ℕ)
    → (code_point_count text ≡ length (code_points text))
      × (char_at text i ≡ get_or (code_points text) i [])
unfolding code_point_count char_at code_points
code_point_count-char_at text i =
    (count_from_lem (length text) text, char_from_lem (length text) text i)
