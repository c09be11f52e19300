-- ===== src/Utf8/Scalars.antt =====
-- Any bytes cut into code points: a code point of more than one byte encodes a Unicode scalar value.
use saqut.Prelude.{
  ℕ, suc, ◌+◌, ◌-◌, ◌*◌, ◌≤◌, ◌<◌, ◌≡◌, ◌⊎◌, refl, inl, inr, [], ◌∷◌, length, take, arith, if_split,
  not, ltb, ◌==◌, All, sym, true, false,
}
use saqut.Utf8.{Bytes, lead_length, valid_sequence_length, code_point_bytes, rejected, all_continue}
use saqut.Utf8.Encoding.{encode, IsScalar}

-- A byte of the form 10xxxxxx.
abbrev Tail : ℕ → Type 0
Tail b = (128 ≤ b) × (b ≤ 191)

abbrev value_two : ℕ → ℕ → ℕ
value_two a b = (a - 192) * 64 + (b - 128)

abbrev value_three : ℕ → ℕ → ℕ → ℕ
value_three a b c = (a - 224) * 4096 + (b - 128) * 64 + (c - 128)

abbrev value_four : ℕ → ℕ → ℕ → ℕ → ℕ
value_four a b c d = (a - 240) * 262144 + (b - 128) * 4096 + (c - 128) * 64 + (d - 128)

encode-two : (a b : ℕ) → 194 ≤ a → a ≤ 223 → Tail b → encode (value_two a b) ≡ a ∷ b ∷ []
encode-two a b h k t = ground arith

encode-three :
    (a b c : ℕ)
    → 224 ≤ a
    → a ≤ 239
    → Tail b
    → Tail c
    → 2048 ≤ value_three a b c
    → encode (value_three a b c) ≡ a ∷ b ∷ c ∷ []
encode-three a b c h k t u l = ground arith

encode-four :
    (a b c d : ℕ)
    → 240 ≤ a
    → a ≤ 244
    → Tail b
    → Tail c
    → Tail d
    → 65536 ≤ value_four a b c d
    → encode (value_four a b c d) ≡ a ∷ b ∷ c ∷ d ∷ []
encode-four a b c d h k t u v l = ground arith

-- The bytes encode a Unicode scalar value.
abbrev pub Encodes : Bytes → Type 0
Encodes bs = (u : ℕ) × IsScalar u × (bs ≡ encode u)

-- The tests that let a sequence of `len` bytes pass.
record Accepted (len lead : ℕ) (rest : Bytes) : Type 0 where
  announced : lead_length lead ≡ len
  long_enough : len ≤ suc (length rest)
  continued : all_continue (take (len - 1) rest) ≡ true
  allowed : rejected len lead rest ≡ false

valid_sequence_length-Accepted :
    (lead : ℕ) (rest : Bytes)
    → (valid_sequence_length lead rest ≡ 1)
      ⊎ ((valid_sequence_length lead rest ≡ lead_length lead)
          × Accepted (lead_length lead) lead rest)
unfolding valid_sequence_length
valid_sequence_length-Accepted lead rest =
    let len : ℕ = lead_length lead in
    let Cut : ℕ → Type 0 = λ n. (n ≡ 1) ⊎ ((n ≡ len) × Accepted len lead rest) in
    if_split Cut (len == 1) (λ _. inl refl)
      (λ _.
        if_split Cut (ltb (suc (length rest)) len) (λ _. inl refl)
          (λ l.
            if_split Cut (not (all_continue (take (len - 1) rest))) (λ _. inl refl)
              (λ c.
                if_split Cut (rejected len lead rest) (λ _. inl refl)
                  (λ r. inr (
                    refl,
                    record {
                      announced = refl;
                      long_enough = ground (arith, l);
                      continued = ground (arith, c);
                      allowed = r;
                    },
                  )))))

abbrev pub IsByte : ℕ → Type 0
IsByte b = b < 256

two-Encodes :
    (a : ℕ) (rest : Bytes) → All IsByte rest → Accepted 2 a rest → Encodes (take 2 (a ∷ rest))
two-Encodes a [] h k = absurd (omega (arith, k.long_enough))
two-Encodes a (b ∷ rest) h k =
    let la : (194 ≤ a) × (a ≤ 223) = ground (arith, k.announced) in
    let tb : Tail b = ground (arith, k.continued) in
    (value_two a b, ground arith, sym (encode-two a b la.0 la.1 tb))

three-Encodes :
    (a : ℕ) (rest : Bytes) → All IsByte rest → Accepted 3 a rest → Encodes (take 3 (a ∷ rest))
three-Encodes a [] h k = absurd (omega (arith, k.long_enough))
three-Encodes a (b ∷ []) h k = absurd (omega (arith, k.long_enough))
three-Encodes a (b ∷ c ∷ rest) h k =
    let la : (224 ≤ a) × (a ≤ 239) = ground (arith, k.announced) in
    let tails : Tail b × Tail c = ground (arith, k.continued) in
    let low : 2048 ≤ value_three a b c = ground (arith, k.allowed) in
    (
      value_three a b c,
      ground (arith, k.allowed),
      sym (encode-three a b c la.0 la.1 tails.0 tails.1 low),
    )

four-Encodes :
    (a : ℕ) (rest : Bytes) → All IsByte rest → Accepted 4 a rest → Encodes (take 4 (a ∷ rest))
four-Encodes a [] h k = absurd (omega (arith, k.long_enough))
four-Encodes a (b ∷ []) h k = absurd (omega (arith, k.long_enough))
four-Encodes a (b ∷ c ∷ []) h k = absurd (omega (arith, k.long_enough))
four-Encodes a (b ∷ c ∷ d ∷ rest) h k =
    let la : (240 ≤ a) × (a ≤ 244) = ground (arith, k.announced) in
    let tails : Tail b × Tail c × Tail d = ground (arith, k.continued) in
    let low : 65536 ≤ value_four a b c d = ground (arith, k.allowed) in
    (
      value_four a b c d,
      inr (ground arith, ground (arith, k.allowed)),
      sym (encode-four a b c d la.0 la.1 tails.0 tails.1 tails.2 low),
    )

lead_length-cases :
    (a : ℕ)
    → (lead_length a ≡ 1) ⊎ ((lead_length a ≡ 2) ⊎ ((lead_length a ≡ 3) ⊎ (lead_length a ≡ 4)))
lead_length-cases a = ground arith

Accepted-Encodes :
    (a : ℕ) (rest : Bytes)
    → All IsByte rest
    → Accepted (lead_length a) a rest
    → (lead_length a ≡ 1) ⊎ Encodes (take (lead_length a) (a ∷ rest))
Accepted-Encodes a rest h k = elim (lead_length-cases a) [
  | inl e ↦ inl e
  | inr (inl e) ↦ inr (rw e (two-Encodes a rest h (rw e at k)))
  | inr (inr (inl e)) ↦ inr (rw e (three-Encodes a rest h (rw e at k)))
  | inr (inr (inr e)) ↦ inr (rw e (four-Encodes a rest h (rw e at k)))
]

-- A code point of any bytes is a single byte, or the encoding of a Unicode scalar value.
pub code_point_bytes-Encodes :
    (a : ℕ) (rest : Bytes)
    → All IsByte rest
    → (code_point_bytes (a ∷ rest) ≡ 1) ⊎ Encodes (take (code_point_bytes (a ∷ rest)) (a ∷ rest))
unfolding code_point_bytes
code_point_bytes-Encodes a rest h = elim (valid_sequence_length-Accepted a rest) [
  | inl e ↦ inl e
  | inr (e, k) ↦ rw e (Accepted-Encodes a rest h k)
]
