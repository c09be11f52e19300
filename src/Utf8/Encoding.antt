-- ===== src/Utf8/Encoding.antt =====
-- The encodings of Unicode scalar values, and `validSequenceLength` at them.
use saqut.Prelude.{
  ℕ, suc, ◌+◌, ◌/◌, ◌%◌, ◌≤◌, ◌<◌, ◌≡◌, ◌⊎◌, refl, List, [], ◌∷◌, ◌++◌, ltb, if◌then◌else◌, length,
  length-append, take, drop, arith, All, zero, ap, ◌∙◌,
}
use saqut.Utf8.Points.{points_from, code_points}
use saqut.Utf8.{Bytes, valid_sequence_length, code_point_bytes}

-- The encoding of a Unicode scalar value.
abbrev pub encode : ℕ → Bytes
encode c =
    if ltb c 128
    then c ∷ []
    else if ltb c 2048
    then (192 + c / 64) ∷ (128 + c % 64) ∷ []
    else if ltb c 65536
    then (224 + c / 4096) ∷ (128 + c / 64 % 64) ∷ (128 + c % 64) ∷ []
    else (240 + c / 262144) ∷ (128 + c / 4096 % 64) ∷ (128 + c / 64 % 64) ∷ (128 + c % 64) ∷ []

abbrev pub IsScalar : ℕ → Type 0
IsScalar c = (c < 55296) ⊎ ((57343 < c) × (c < 1114112))

pub code_point_bytes-encode :
    (c : ℕ) (rest : Bytes) → IsScalar c → code_point_bytes (encode c ++ rest) ≡ length (encode c)
unfolding code_point_bytes valid_sequence_length
code_point_bytes-encode c rest h = ground arith

pub take-append_length : (xs ys : Bytes) → take (length xs) (xs ++ ys) ≡ xs
take-append_length [] ys = refl
take-append_length (x ∷ xs) ys = ap (λ zs. x ∷ zs) (take-append_length xs ys)

pub drop-append_length : (xs ys : Bytes) → drop (length xs) (xs ++ ys) ≡ ys
drop-append_length [] ys = refl
drop-append_length (x ∷ xs) ys = drop-append_length xs ys

abbrev pub encode_all : List ℕ → Bytes
encode_all [] = []
encode_all (c ∷ cs) = encode c ++ encode_all cs

abbrev pub encodings : List ℕ → List Bytes
encodings [] = []
encodings (c ∷ cs) = encode c ∷ encodings cs

-- The first point of a text that is not empty.
points_from-cut :
    (fuel : ℕ) (xs ys : Bytes)
    → 0 < length xs
    → code_point_bytes (xs ++ ys) ≡ length xs
    → points_from (suc fuel) (xs ++ ys) ≡ xs ∷ points_from fuel ys
unfolding points_from
points_from-cut fuel [] ys h e = absurd (omega arith)
points_from-cut fuel (x ∷ xs) ys h e =
    rw (e, take-append_length (x ∷ xs) ys, drop-append_length (x ∷ xs) ys) refl

pub encode-length : (c : ℕ) → 0 < length (encode c)
encode-length c = ground arith

points_from-encode_all :
    (fuel : ℕ) (cs : List ℕ)
    → length (encode_all cs) ≤ fuel
    → All IsScalar cs
    → points_from fuel (encode_all cs) ≡ encodings cs
points_from-encode_all zero [] h s = unfold points_from in refl
points_from-encode_all (suc fuel) [] h s = unfold points_from in refl
points_from-encode_all zero (c ∷ cs) h s =
    absurd (omega (arith, length-append (encode c) (encode_all cs), encode-length c))
points_from-encode_all (suc fuel) (c ∷ cs) h s =
    points_from-cut fuel (encode c) (encode_all cs) (encode-length c)
      (code_point_bytes-encode c (encode_all cs) s.0)
    ∙ ap (λ ps. encode c ∷ ps)
        (points_from-encode_all fuel cs
          (omega (arith, length-append (encode c) (encode_all cs), encode-length c)) s.1)

-- The encodings of a sequence of Unicode scalar values, written one after the other, are cut back
-- into the same encodings.
pub code_points-encode_all :
    (cs : List ℕ) → All IsScalar cs → code_points (encode_all cs) ≡ encodings cs
unfolding code_points
code_points-encode_all cs s = points_from-encode_all (length (encode_all cs)) cs (omega arith) s
