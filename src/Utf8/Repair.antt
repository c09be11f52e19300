-- ===== src/Utf8/Repair.antt =====
-- `fromBytes`: what it makes of any bytes.
use saqut.Prelude.{
  ℕ, zero, suc, ◌≤◌, ◌<◌, ◌≡◌, refl, inl, inr, sym, ap, ◌∙◌, List, [], ◌∷◌, ◌++◌, length,
  length-append, append_assoc, take, drop, arith, All, false, get_or, leb, ◌&&◌, ◌==◌, if_split,
}
use saqut.Utf8.{Bytes, code_point_bytes, clean, clean_from, from_bytes}
use saqut.Utf8.Points.{shorter}
use saqut.Utf8.Encoding.{
  encode, IsScalar, encode_all, encode-length, code_point_bytes-encode, take-append_length,
  drop-append_length,
}
use saqut.Utf8.Scalars.{Encodes, IsByte, code_point_bytes-Encodes}

-- The encodings of some Unicode scalar values, one after the other.
abbrev pub IsWellFormed : Bytes → Type 0
IsWellFormed bs = (us : List ℕ) × All IsScalar us × (bs ≡ encode_all us)

IsWellFormed-append : (xs ys : Bytes) → Encodes xs → IsWellFormed ys → IsWellFormed (xs ++ ys)
IsWellFormed-append xs ys (u, s, e) (us, ss, es) = (u ∷ us, (s, ss), rw (e, es) refl)

All-drop : (n : ℕ) (bs : Bytes) → All IsByte bs → All IsByte (drop n bs)
All-drop zero bs h = h
All-drop (suc n) [] h = tt
All-drop (suc n) (b ∷ bs) h = All-drop n bs h.1

one-Encodes : (a : ℕ) (rest : Bytes) → a < 128 → Encodes (take 1 (a ∷ rest))
one-Encodes a rest h = (a, inl (omega arith), ground arith)

clean_one : (a : ℕ) (rest : Bytes) → IsByte a → Encodes (clean 1 a (take 1 (a ∷ rest)))
clean_one a rest h =
    if_split Encodes (leb 128 a) (λ _. (65533, inr (omega arith, omega arith), refl))
      (λ l. one-Encodes a rest (ground (arith, l)))

clean-Encodes :
    (a : ℕ) (rest : Bytes)
    → All IsByte (a ∷ rest)
    → Encodes
        (clean (code_point_bytes (a ∷ rest)) a (take (code_point_bytes (a ∷ rest)) (a ∷ rest)))
clean-Encodes a rest h = elim (code_point_bytes-Encodes a rest h.1) [
  | inl e ↦ rw e (clean_one a rest h.0)
  | inr k ↦
      if_split Encodes ((code_point_bytes (a ∷ rest) == 1) && leb 128 a)
        (λ _. (65533, inr (omega arith, omega arith), refl)) (λ _. k)
]

clean_from-IsWellFormed :
    (fuel : ℕ) (text : Bytes)
    → length text ≤ fuel
    → All IsByte text
    → IsWellFormed (clean_from fuel text)
unfolding clean_from
clean_from-IsWellFormed zero text l h = ([], tt, refl)
clean_from-IsWellFormed (suc fuel) [] l h = ([], tt, refl)
clean_from-IsWellFormed (suc fuel) (c ∷ cs) l h =
    let n = code_point_bytes (c ∷ cs) in
    IsWellFormed-append (clean n c (take n (c ∷ cs))) (clean_from fuel (drop n (c ∷ cs)))
      (clean-Encodes c cs h)
      (clean_from-IsWellFormed fuel (drop n (c ∷ cs)) (shorter c cs fuel l) (All-drop n (c ∷ cs) h))

-- The encoding of a scalar value stays as it is.
stays :
    (x : ℕ) (xs : Bytes) (u : ℕ) → x ∷ xs ≡ encode u → ((length (x ∷ xs) == 1) && leb 128 x) ≡ false
stays x [] u e =
    let n : 1 ≡ length (encode u) = ap length e in
    let h : x ≡ get_or (encode u) 0 0 = ap (λ bs. get_or bs 0 0) e in ground (arith, n, h)
stays x (y ∷ xs) u e = ground arith

clean_from-cut :
    (fuel u : ℕ) (xs ys : Bytes)
    → code_point_bytes (xs ++ ys) ≡ length xs
    → xs ≡ encode u
    → clean_from (suc fuel) (xs ++ ys) ≡ xs ++ clean_from fuel ys
unfolding clean_from
clean_from-cut fuel u [] ys n e = absurd (omega (arith, encode-length u, ap length e))
clean_from-cut fuel u (x ∷ xs) ys n e =
    rw (n, take-append_length (x ∷ xs) ys, drop-append_length (x ∷ xs) ys, stays x xs u e) refl

-- More fuel than bytes changes nothing.
clean_from-fuel :
    (fuel more : ℕ) (text : Bytes)
    → length text ≤ fuel
    → length text ≤ more
    → clean_from fuel text ≡ clean_from more text
unfolding clean_from
clean_from-fuel zero zero text h k = refl
clean_from-fuel zero (suc more) [] h k = refl
clean_from-fuel (suc fuel) zero [] h k = refl
clean_from-fuel (suc fuel) (suc more) [] h k = refl
clean_from-fuel zero (suc more) (c ∷ cs) h k = absurd (omega arith)
clean_from-fuel (suc fuel) zero (c ∷ cs) h k = absurd (omega arith)
clean_from-fuel (suc fuel) (suc more) (c ∷ cs) h k =
    let n = code_point_bytes (c ∷ cs) in
    ap (λ r. clean n c (take n (c ∷ cs)) ++ r)
      (clean_from-fuel fuel more (drop n (c ∷ cs)) (shorter c cs fuel h) (shorter c cs more k))

clean_from-prefix :
    (fuel : ℕ) (us : List ℕ) (text : Bytes)
    → length (encode_all us ++ text) ≤ fuel
    → All IsScalar us
    → clean_from fuel (encode_all us ++ text) ≡ encode_all us ++ clean_from (length text) text
clean_from-prefix fuel [] text l s = clean_from-fuel fuel (length text) text l (omega arith)
clean_from-prefix zero (u ∷ us) text l s = absurd (
    omega (
      arith,
      length-append (encode_all (u ∷ us)) text,
      length-append (encode u) (encode_all us),
      encode-length u,
    ))
clean_from-prefix (suc fuel) (u ∷ us) text l s =
    let tail : Bytes = encode_all us ++ text in
    let split : encode_all (u ∷ us) ++ text ≡ encode u ++ tail =
      append_assoc (encode u) (encode_all us) text in
    ap (clean_from (suc fuel)) split
    ∙ clean_from-cut fuel u (encode u) tail (code_point_bytes-encode u tail s.0) refl
    ∙ ap (λ bs. encode u ++ bs)
        (clean_from-prefix fuel us text
          (omega (arith, ap length split, length-append (encode u) tail, encode-length u)) s.1)
    ∙ sym (append_assoc (encode u) (encode_all us) (clean_from (length text) text))

-- For any bytes, what `fromBytes` makes of them is the encodings of some Unicode scalar values,
-- one after the other, without a surrogate or an overlong form; and the encodings of Unicode
-- scalar values written before the bytes come out as they were, before what it makes of the bytes
-- alone.
pub from_bytes-append :
    (us : List ℕ) (text : Bytes)
    → All IsScalar us
    → All IsByte text
    → (from_bytes (encode_all us ++ text) ≡ encode_all us ++ from_bytes text)
      × IsWellFormed (from_bytes text)
unfolding from_bytes
from_bytes-append us text s h = (
  clean_from-prefix (length (encode_all us ++ text)) us text (omega arith) s,
  clean_from-IsWellFormed (length text) text (omega arith) h,
)
