-- ===== src/Utf8/Tests.antt =====
-- Texts of one to four bytes for a code point.
use saqut.Prelude.{◌≡◌, refl, inl, [], ◌∷◌, ◌++◌, arith, length, get_or}
use saqut.Utf8.{
  Bytes, code_point_bytes, valid_sequence_length, code_point_count, count_from, char_at, from_bytes,
  clean_from,
}
use saqut.Utf8.Points.{code_points, code_point_count-char_at}
use saqut.Utf8.Repair.{IsWellFormed, from_bytes-append}
use saqut.Utf8.Encoding.{
  encode, encode_all, encodings, code_point_bytes-encode, code_points-encode_all,
}

-- s, U+015F and the euro sign.
abbrev text : Bytes
text = 115 ∷ 197 ∷ 159 ∷ 226 ∷ 130 ∷ 172 ∷ []

count_test : code_point_count text ≡ 3
unfolding code_point_count count_from code_point_bytes valid_sequence_length
count_test = refl

-- A byte that starts nothing is replaced.
from_bytes_test : from_bytes (255 ∷ 65 ∷ []) ≡ 239 ∷ 191 ∷ 189 ∷ 65 ∷ []
unfolding from_bytes clean_from code_point_bytes valid_sequence_length
from_bytes_test = refl

code_point_count-char_at_example :
    (code_point_count text ≡ length (code_points text))
    × (char_at text 1 ≡ get_or (code_points text) 1 [])
code_point_count-char_at_example = code_point_count-char_at text 1

code_point_bytes-encode_example : code_point_bytes (encode 8364 ++ text) ≡ 3
code_point_bytes-encode_example = code_point_bytes-encode 8364 text (inl (omega arith))

code_points-encode_all_example :
    code_points (encode_all (115 ∷ 351 ∷ 8364 ∷ [])) ≡ encodings (115 ∷ 351 ∷ 8364 ∷ [])
code_points-encode_all_example =
    code_points-encode_all (115 ∷ 351 ∷ 8364 ∷ [])
      (inl (omega arith), (inl (omega arith), (inl (omega arith), tt)))

-- The euro sign, then a surrogate, an overlong form and a sequence that is cut short.
abbrev malformed : Bytes
malformed = 237 ∷ 160 ∷ 128 ∷ 224 ∷ 128 ∷ 128 ∷ 240 ∷ 159 ∷ []

from_bytes-append_example :
    (from_bytes (encode_all (8364 ∷ []) ++ malformed)
      ≡ encode_all (8364 ∷ []) ++ from_bytes malformed)
    × IsWellFormed (from_bytes malformed)
from_bytes-append_example =
    from_bytes-append (8364 ∷ []) malformed (inl (omega arith), tt)
      (
        omega arith,
        (
          omega arith,
          (
            omega arith,
            (omega arith, (omega arith, (omega arith, (omega arith, (omega arith, tt))))),
          ),
        ),
      )
